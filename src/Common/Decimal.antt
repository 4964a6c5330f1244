-- ===== src/Common/Decimal.antt =====
-- `strconv.Itoa` and `%d` at a number that is not negative, and the number that such a text reads as.
use mathlib.Core.List.{foldl, foldl-append, cons-ne-nil, concat-ne-nil}
use Prim.Native.Nat.{ℕ, zero, suc, ◌+◌, ◌-◌, ◌*◌, ◌/◌, ◌%◌, ◌^◌, ◌≤◌, ◌<◌}
use native.Mathlib.Nat.{pow-suc}
use mathlib.Core.Path.{◌≡◌, sym, ap, ◌∙◌}
use mathlib.Core.Logic.{◌≢◌, inl, inr}
use mathlib.Core.List.{[], ◌∷◌, ◌++◌}
use native.Mathlib.Omega.{arith}
use abschlussarbeit.Common.Tests.{ltb, if◌then◌else◌, Bool-cases}
use abschlussarbeit.Common.Lists.{All, All-append, length, length-append}
use abschlussarbeit.Common.Bytes.{Bytes}

abbrev IsDigit : ℕ → Type 0
IsDigit b = (48 ≤ b) × (b < 58)

-- The last digit last; the fuel bounds the number of digits.
digits_of : ℕ → ℕ → Bytes
digits_of zero n = []
digits_of (suc f) n =
    let rest = digits_of f (n / 10) ++ (48 + n % 10) ∷ [] in
    if ltb n 10 then (48 + n) ∷ [] else rest

unfoldable pub itoa : ℕ → Bytes
unfolding digits_of
itoa n = digits_of (suc n) n

abbrev shift : ℕ → ℕ → ℕ
shift n b = n * 10 + (b - 48)

pub value : Bytes → ℕ
value = foldl shift 0

value-digits_of : (f n : ℕ) → n < f → value (digits_of f n) ≡ n
unfolding value digits_of
value-digits_of zero n h = absurd (omega arith)
value-digits_of (suc f) n h = elim (Bool-cases (ltb n 10)) [
  | inl small ↦ rw small (omega arith)
  | inr big ↦ rw big (
      foldl-append shift 0 (digits_of f (n / 10)) ((48 + n % 10) ∷ [])
      ∙ rw (value-digits_of f (n / 10) (ground arith)) (omega arith))
]

-- Reading back the text of a number gives the number, so no two numbers have one text.
pub value-itoa : (n : ℕ) → value (itoa n) ≡ n
unfolding itoa
value-itoa n = value-digits_of (suc n) n (omega arith)

pub itoa-injective : (n m : ℕ) → itoa n ≡ itoa m → n ≡ m
itoa-injective n m h = sym (value-itoa n) ∙ ap value h ∙ value-itoa m

All-digits_of : (f n : ℕ) → All IsDigit (digits_of f n)
unfolding digits_of
All-digits_of zero n = tt
All-digits_of (suc f) n = elim (Bool-cases (ltb n 10)) [
  | inl small ↦ rw small (ground arith)
  | inr big ↦
      rw big (All-append IsDigit (digits_of f (n / 10)) _ (All-digits_of f (n / 10)) (omega arith))
]

pub All-itoa : (n : ℕ) → All (λ b. (48 ≤ b) × (b < 58)) (itoa n)
unfolding itoa
All-itoa n = All-digits_of (suc n) n

length-digits_of : (f n k : ℕ) → n < 10 ^ suc k → length (digits_of f n) ≤ suc k
unfolding digits_of
length-digits_of zero n k h = omega arith
length-digits_of (suc f) n zero h = ground arith
length-digits_of (suc f) n (suc k) h = elim (Bool-cases (ltb n 10)) [
  | inl small ↦ rw small (omega arith)
  | inr big ↦
      let p : 10 ^ suc (suc k) ≡ 10 ^ suc k * 10 = pow-suc 10 (suc k) in
      rw big (
        omega (
          arith,
          length-append (digits_of f (n / 10)) ((48 + n % 10) ∷ []),
          length-digits_of f (n / 10) k (omega (arith, p)),
        ))
]

-- A number below 10 to the k has at most k digits, for k from 1 on.
pub length-itoa : (n k : ℕ) → n < 10 ^ suc k → length (itoa n) ≤ suc k
unfolding itoa
length-itoa n k h = length-digits_of (suc n) n k h

-- The text of a number has a digit.
pub itoa-ne-nil : (n : ℕ) → itoa n ≢ []
unfolding itoa digits_of
itoa-ne-nil n = elim (Bool-cases (ltb n 10)) [
  | inl small ↦ rw small (cons-ne-nil (48 + n) [])
  | inr big ↦ rw big (concat-ne-nil _ (digits_of n (n / 10)))
]
