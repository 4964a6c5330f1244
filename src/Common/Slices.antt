-- ===== src/Common/Slices.antt =====
-- Go slices: a window on an array that other slices may share, and `append`, which writes into the
-- array where there is room and moves to a new one where there is none. How much room a new array has
-- is the runtime's choice, and an argument.
use Prim.Native.Nat.{ℕ, zero, suc, ◌+◌, ◌≤◌, ◌<◌}
use mathlib.Core.Path.{◌≡◌, refl, ap₂}
use mathlib.Core.Logic.{◌≢◌, inl, inr}
use mathlib.Core.Bool.{true, false, ◌&&◌}
use mathlib.Core.List.{List, [], ◌∷◌, ◌++◌}
use native.Mathlib.Omega.{arith}
use native.Mathlib.Numerals.{add-one}
use abschlussarbeit.Common.Tests.{ltb, eqb, if◌then◌else◌, Bool-cases}

pub record Slice : Type 0 where
  pub array : ℕ
  pub len : ℕ
  pub cap : ℕ

-- The nil slice.
abbrev pub nil : Slice
nil = record { array = 0; len = 0; cap = 0 }

-- The arrays made so far, by number.
pub record Store (A : Type 0) : Type 0 where
  pub cells : ℕ → ℕ → A
  pub next : ℕ

module _ {A : Type 0} where
  -- The elements of the array `a` up to the n-th.
  abbrev pub elements : Store A → ℕ → ℕ → List A
  elements st a zero = []
  elements st a (suc n) = elements st a n ++ st.cells a n ∷ []

  abbrev pub read : Store A → Slice → List A
  read st s = elements st s.array s.len

  abbrev pub with_cell : Store A → ℕ → ℕ → A → Store A
  with_cell st a i x = record st { cells = λ b j. if eqb b a && eqb j i then x else st.cells b j }

  -- The new array, with what the slice holds and the new element.
  abbrev pub with_array : Store A → Slice → A → Store A
  with_array st s x = record {
    cells = λ b j.
        if eqb b st.next then (if eqb j s.len then x else st.cells s.array j) else st.cells b j;
    next = st.next + 1;
  }

  -- `append(s, x)`
  unfoldable pub append : (ℕ → ℕ) → A → Slice → Store A → Slice × Store A
  append grow x s st =
      if ltb s.len s.cap
      then (record s { len = s.len + 1 }, with_cell st s.array s.len x)
      else (record { array = st.next; len = s.len + 1; cap = grow s.len }, with_array st s x)

-- A slice of a store.
pub record IsIn {A : Type 0} (s : Slice) (st : Store A) : Type 0 where
  pub fits : s.len ≤ s.cap
  pub made : 0 < s.cap → s.array < st.next

-- Two slices that share no array.
abbrev pub AreApart : Slice → Slice → Type 0
AreApart s t = 0 < s.cap → 0 < t.cap → s.array ≢ t.array

-- How the runtime grows an array: so that the new element fits.
abbrev pub Grows : (ℕ → ℕ) → Type 0
Grows grow = (n : ℕ) → n < grow n

module _ {A : Type 0} where
  elements-agree :
      (st st' : Store A) (a b n : ℕ)
      → ((i : ℕ) → i < n → st'.cells b i ≡ st.cells a i)
      → elements st' b n ≡ elements st a n
  elements-agree st st' a b zero h = refl
  elements-agree st st' a b (suc n) h =
      ap₂ (λ l x. l ++ x ∷ []) (elements-agree st st' a b n (λ i p. h i (omega arith)))
        (h n (omega arith))

  module _ (grow : ℕ → ℕ) (grows : Grows grow) (x : A) (s : Slice) (st : Store A)
      (ok : IsIn s st) where
    -- The slice that comes back has the elements and the new one.
    pub read-append : read (append grow x s st).1 (append grow x s st).0 ≡ read st s ++ x ∷ []
    unfolding append
    read-append = elim (Bool-cases (ltb s.len s.cap)) [
      | inl room ↦ rw room (
          rw (add-one s.len) (
            ap₂ (λ l y. l ++ y ∷ [])
              (elements-agree st (with_cell st s.array s.len x) s.array s.array s.len
                (λ i p. ground arith))
              (ground arith)))
      | inr full ↦ rw full (
          rw (add-one s.len) (
            ap₂ (λ l y. l ++ y ∷ [])
              (elements-agree st (with_array st s x) s.array st.next s.len (λ i p. ground arith))
              (ground arith)))
    ]

    pub append-IsIn : IsIn (append grow x s st).0 (append grow x s st).1
    unfolding append
    append-IsIn =
        let g = grows s.len in
        elim (Bool-cases (ltb s.len s.cap)) [
          | inl room ↦ rw room (record { fits = ground arith; made = λ p. ok.made p })
          | inr full ↦ rw full (record { fits = ground arith; made = λ p. omega arith })
        ]

    -- A slice that shares no array with this one keeps its elements, and stays apart.
    pub append-keeps :
        (t : Slice)
        → IsIn t st
        → AreApart s t
        → (read (append grow x s st).1 t ≡ read st t)
          × IsIn t (append grow x s st).1
          × AreApart (append grow x s st).0 t
    unfolding append
    append-keeps t in_t apart = elim (Bool-cases (ltb s.len s.cap)) [
      | inl room ↦ rw room (
        elements-agree st (with_cell st s.array s.len x) t.array t.array t.len (λ i p.
            let f = in_t.fits in
            let roomy : s.len < s.cap = ground arith in
            let ne = apart (omega arith) (omega arith) in ground arith),
        record { fits = in_t.fits; made = in_t.made },
        apart,
      )
      | inr full ↦ rw full (
        elements-agree st (with_array st s x) t.array t.array t.len
            (λ i p. let f = in_t.fits in let m = in_t.made (omega arith) in ground arith),
        record { fits = in_t.fits; made = λ p. omega (arith, in_t.made p) },
        λ p q e. let m = in_t.made q in omega arith,
      )
    ]

    -- The slice that was appended to keeps its elements, too.
    pub append_self : (read (append grow x s st).1 s ≡ read st s) × IsIn s (append grow x s st).1
    unfolding append
    append_self = elim (Bool-cases (ltb s.len s.cap)) [
      | inl room ↦ rw room (
        elements-agree st (with_cell st s.array s.len x) s.array s.array s.len
            (λ i p. ground arith),
        record { fits = ok.fits; made = ok.made },
      )
      | inr full ↦ rw full (
        elements-agree st (with_array st s x) s.array s.array s.len
            (λ i p. let f = ok.fits in let m = ok.made (omega arith) in ground arith),
        record { fits = ok.fits; made = λ p. omega (arith, ok.made p) },
      )
    ]

    -- With room the slices that two calls return are one; without, they lie apart.
    pub append_again :
        (y : A)
        → (ltb s.len s.cap ≡ true)
        → (append grow y s (append grow x s st).1).0 ≡ (append grow x s st).0
    unfolding append
    append_again y room = rw room refl

    pub append_moves : ltb s.len s.cap ≡ false → AreApart s (append grow x s st).0
    unfolding append
    append_moves full = rw full (λ p q e. omega (arith, ok.made p))
