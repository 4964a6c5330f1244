-- ===== src/Common/FilePath/Plain/Rooted.antt =====
-- Paths from the root, as the list of their parts: what joining and cleaning make of them.
use Prim.Native.Nat.{ℕ}
use mathlib.Core.Path.{◌≡◌, refl, sym, ap, subst, ◌∙◌}
use mathlib.Core.Logic.{◌≢◌, inl, inr}
use mathlib.Core.Bool.{Bool, true, false}
use mathlib.Core.List.{
  List, [], ◌∷◌, ◌++◌, reverse, reverse-append, reverse-reverse, append_assoc, append-nil,
}
use native.Mathlib.Omega.{arith}
use abschlussarbeit.Common.Tests.{eqb, Bool-cases}
use abschlussarbeit.Common.Lists.{All, All-append}
use abschlussarbeit.Common.Bytes.{Bytes, bytes_eq, codes}
use abschlussarbeit.Common.FilePath.{
  slash, split, is_rooted, join_parts, clean_parts, keep_part, pop, grow, clean, join, dir,
  up_to_slash,
}
use abschlussarbeit.Common.FilePath.Plain.{
  IsPlain, split-append, split-plain, clean_parts-append, clean_parts-plain,
}

abbrev pub path_of : List Bytes → Bytes
path_of ps = slash ∷ join_parts ps

split-join_parts-plain :
    (p : Bytes) (ps : List Bytes) → All IsPlain (p ∷ ps) → split (join_parts (p ∷ ps)) ≡ p ∷ ps
unfolding join_parts
split-join_parts-plain p [] h = split-plain p h.0.no_slash
split-join_parts-plain p (q ∷ ps) h =
    split-append p (join_parts (q ∷ ps))
    ∙ rw (split-plain p h.0.no_slash, split-join_parts-plain q ps h.1) refl

clean_parts-plains :
    (r : Bool) (kept ps : List Bytes) → All IsPlain ps → clean_parts r kept ps ≡ reverse ps ++ kept
clean_parts-plains r kept [] h = unfold clean_parts in refl
clean_parts-plains r kept (p ∷ ps) h =
    clean_parts-append r kept (p ∷ []) ps
    ∙ ap (λ k. clean_parts r k ps) (clean_parts-plain h.0 r kept)
    ∙ clean_parts-plains r (p ∷ kept) ps h.1
    ∙ sym (append_assoc (reverse ps) (p ∷ []) kept)
    ∙ ap (λ l. l ++ kept) (sym (reverse-append (p ∷ []) ps))

clean_parts-path_of :
    (kept ps : List Bytes)
    → All IsPlain ps
    → clean_parts true kept (split (path_of ps)) ≡ reverse ps ++ kept
unfolding clean_parts keep_part split join_parts bytes_eq
clean_parts-path_of kept [] h = refl
clean_parts-path_of kept (p ∷ ps) h =
    rw (split-join_parts-plain p ps h) (clean_parts-plains true kept (p ∷ ps) h)

reversed : (xs ys : List Bytes) → reverse (reverse ys ++ (reverse xs ++ [])) ≡ xs ++ ys
reversed xs ys =
    ap (λ l. reverse (reverse ys ++ l)) (append-nil (reverse xs))
    ∙ reverse-append (reverse ys) (reverse xs)
    ∙ rw (reverse-reverse xs, reverse-reverse ys) refl

-- Cleaning what is made of two paths, the second of them behind a slash.
clean-path_of :
    (xs ys : List Bytes) (t : Bytes)
    → All IsPlain xs
    → ((kept : List Bytes) → clean_parts true kept (split t) ≡ reverse ys ++ kept)
    → clean (path_of xs ++ (slash ∷ t)) ≡ path_of (xs ++ ys)
unfolding clean is_rooted
clean-path_of xs ys t h k =
    let parts : clean_parts true [] (split (path_of xs ++ (slash ∷ t)))
        ≡ reverse ys ++ (reverse xs ++ []) =
      ap (λ l. clean_parts true [] l) (split-append (path_of xs) t)
      ∙ clean_parts-append true [] (split (path_of xs)) (split t)
      ∙ ap (λ l. clean_parts true l (split t)) (clean_parts-path_of [] xs h)
      ∙ k (reverse xs ++ []) in
    ap (λ l. path_of (reverse l)) parts ∙ ap path_of (reversed xs ys)

-- Joining two paths from the root puts their parts together.
pub join-path_of :
    (xs ys : List Bytes)
    → All IsPlain xs
    → All IsPlain ys
    → join (path_of xs) (path_of ys) ≡ path_of (xs ++ ys)
unfolding join
join-path_of xs ys h k = clean-path_of xs ys (path_of ys) h (λ kept. clean_parts-path_of kept ys k)

-- Joining a plain name puts it behind the parts.
pub join-plain :
    (xs : List Bytes) (f : Bytes)
    → All IsPlain xs
    → IsPlain f
    → join (path_of xs) f ≡ path_of (xs ++ f ∷ [])
unfolding join bytes_eq
join-plain xs [] h k = absurd (cc (k.some_byte))
join-plain xs (c ∷ q) h k = clean-path_of xs ((c ∷ q) ∷ []) (c ∷ q) h (λ kept.
    ap (λ l. clean_parts true kept l) (split-plain (c ∷ q) k.no_slash)
    ∙ clean_parts-plain k true kept)

grow-no_slash :
    (c : ℕ) (ps : List Bytes)
    → eqb c slash ≡ false
    → All (λ p. All (λ b. b ≢ slash) p) ps
    → All (λ p. All (λ b. b ≢ slash) p) (grow c ps)
grow-no_slash c [] e h = ground arith
grow-no_slash c (p ∷ ps) e h = ground arith

split-no_slash : (s : Bytes) → All (λ p. All (λ b. b ≢ slash) p) (split s)
unfolding split
split-no_slash [] = (tt, tt)
split-no_slash (c ∷ s) = elim (Bool-cases (eqb c slash)) [
  | inl at ↦ rw at (tt, split-no_slash s)
  | inr other ↦ rw other (grow-no_slash c (split s) other (split-no_slash s))
]

pop-IsPlain : (kept : List Bytes) → All IsPlain kept → All IsPlain (pop true kept)
unfolding bytes_eq
pop-IsPlain [] h = tt
pop-IsPlain (p ∷ ps) h = rw (h.0.not_dot_dot) (h.1)

keep_part-IsPlain :
    (kept : List Bytes) (p : Bytes)
    → All IsPlain kept
    → All (λ b. b ≢ slash) p
    → All IsPlain (keep_part true kept p)
unfolding keep_part
keep_part-IsPlain kept p h k = elim (Bool-cases (bytes_eq p [])) [
  | inl e ↦ rw e h
  | inr some_byte ↦ elim (Bool-cases (bytes_eq p (codes "."))) [
    | inl e ↦ rw (some_byte, e) h
    | inr not_dot ↦ elim (Bool-cases (bytes_eq p (codes ".."))) [
      | inl e ↦ rw (some_byte, not_dot, e) (pop-IsPlain kept h)
      | inr not_dot_dot ↦
          rw (some_byte, not_dot, not_dot_dot)
            (
              record {
                no_slash = k;
                some_byte = some_byte;
                not_dot = not_dot;
                not_dot_dot = not_dot_dot;
              },
              h,
            )
    ]
  ]
]

clean_parts-All :
    (kept ps : List Bytes)
    → All IsPlain kept
    → All (λ p. All (λ b. b ≢ slash) p) ps
    → All IsPlain (clean_parts true kept ps)
unfolding clean_parts
clean_parts-All kept [] h k = h
clean_parts-All kept (p ∷ ps) h k =
    clean_parts-All (keep_part true kept p) ps (keep_part-IsPlain kept p h k.0) k.1

All-reverse : (ps : List Bytes) → All IsPlain ps → All IsPlain (reverse ps)
All-reverse [] h = tt
All-reverse (p ∷ ps) h =
    subst (All IsPlain) (sym (reverse-append (p ∷ []) ps))
      (All-append IsPlain (reverse ps) (p ∷ []) (All-reverse ps h.1) (h.0, tt))

-- What a path from the root is cleaned to has plain parts only: none is `..`.
pub clean-rooted :
    (s : Bytes) → is_rooted s ≡ true → (ps : List Bytes) × All IsPlain ps × (clean s ≡ path_of ps)
unfolding clean
clean-rooted s h =
    let ps = clean_parts true [] (split s) in
    (reverse ps, All-reverse ps (clean_parts-All [] (split s) tt (split-no_slash s)), rw h refl)

up_to_slash-rooted : (s : Bytes) → is_rooted s ≡ true → is_rooted (up_to_slash s) ≡ true
unfolding is_rooted up_to_slash
up_to_slash-rooted [] h = h
up_to_slash-rooted (c ∷ s) h = ground arith

-- So is the directory of a path from the root.
pub dir-rooted :
    (s : Bytes) → is_rooted s ≡ true → (ps : List Bytes) × All IsPlain ps × (dir s ≡ path_of ps)
unfolding dir
dir-rooted s h = clean-rooted (up_to_slash s) (up_to_slash-rooted s h)
