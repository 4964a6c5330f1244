-- ===== src/Common/Lists.antt =====
-- Lists measured by native numbers, under the library's names.
use Prim.Native.Nat.{ℕ, zero, suc, ◌+◌}
use mathlib.Core.Path.{◌≡◌, refl, ap}
use mathlib.Core.List.{List, [], ◌∷◌, ◌++◌}
use native.Mathlib.Omega.{arith}

-- A predicate by recursion computes to tuples, which the tactics read and build.
abbrev pub All {ℓ κ} : {A : Type ℓ} → (A → Type κ) → List A → Type κ
All P [] = Unit
All P (x ∷ front) = P x × All P front

module _ {ℓ} {A : Type ℓ} where
  abbrev pub length : List A → ℕ
  length [] = 0
  length (x ∷ front) = suc (length front)

  abbrev pub take : ℕ → List A → List A
  take zero front = []
  take (suc n) [] = []
  take (suc n) (x ∷ front) = x ∷ take n front

  abbrev pub drop : ℕ → List A → List A
  drop zero front = front
  drop (suc n) [] = []
  drop (suc n) (x ∷ front) = drop n front

  pub length-append : (front back : List A) → length (front ++ back) ≡ length front + length back
  length-append [] back = omega arith
  length-append (x ∷ front) back = omega (arith, length-append front back)

  pub take-length-append : (front back : List A) → take (length front) (front ++ back) ≡ front
  take-length-append [] back = refl
  take-length-append (x ∷ front) back = ap (λ l. x ∷ l) (take-length-append front back)

  pub drop-length-append : (front back : List A) → drop (length front) (front ++ back) ≡ back
  drop-length-append [] back = refl
  drop-length-append (x ∷ front) back = drop-length-append front back

module _ {ℓ κ} {A : Type ℓ} where
  pub All-append :
      (P : A → Type κ) (front back : List A) → All P front → All P back → All P (front ++ back)
  All-append P [] back of_front of_back = of_back
  All-append P (x ∷ front) back of_front of_back =
      (of_front.0, All-append P front back of_front.1 of_back)
