-- ===== src/Common/Bytes.antt =====
-- Go strings and byte slices as lists of bytes, where the program looks inside them.
use Prim.Native.Char.{code}
use abschlussarbeit.Common.Tests.{eqb}
use Prim.Native.Nat.{ℕ}
use Prim.Native.String.{String}
use mathlib.Core.Path.{◌≡◌, refl, ap₂}
use mathlib.Core.Logic.{◌↔◌, ◌≢◌}
use mathlib.Core.Bool.{Bool, true, false, ◌&&◌}
use mathlib.Core.List.{List, [], ◌∷◌, ◌++◌}
use native.Mathlib.Omega.{arith}
use text.Mathlib.TextEquality.{Char-path}
use abschlussarbeit.Common.Lists.{All}

abbrev pub Bytes : Type 0
Bytes = List ℕ

-- The bytes of a text, if it is ASCII.
abbrev pub codes : String → Bytes
codes String.[] = []
codes (String.◌∷◌ c s) = code c ∷ codes s

-- `bytes.Equal`, and `==` on strings.
unfoldable pub bytes_eq : Bytes → Bytes → Bool
bytes_eq [] [] = true
bytes_eq (x ∷ xs) (y ∷ ys) = eqb x y && bytes_eq xs ys
bytes_eq _ _ = false

bytes_eq_refl : (xs : Bytes) → bytes_eq xs xs ≡ true
unfolding bytes_eq
bytes_eq_refl [] = refl
bytes_eq_refl (x ∷ xs) = ground (arith, bytes_eq_refl xs)

bytes_eq→eq : (xs ys : Bytes) → bytes_eq xs ys ≡ true → xs ≡ ys
unfolding bytes_eq
bytes_eq→eq [] [] h = refl
bytes_eq→eq (x ∷ xs) (y ∷ ys) h = ground (arith, bytes_eq→eq xs ys)
bytes_eq→eq [] (y ∷ ys) h = cc
bytes_eq→eq (x ∷ xs) [] h = cc

pub bytes_eq_iff : (xs ys : Bytes) → (bytes_eq xs ys ≡ true) ↔ (xs ≡ ys)
bytes_eq_iff xs ys = (bytes_eq→eq xs ys, λ e. rw (← e) (bytes_eq_refl xs))

-- The bytes up to a separator are known from the whole, if the separator stands nowhere in them.
pub cut-injective :
    (c : ℕ) (xs ys us vs : Bytes)
    → All (λ b. b ≢ c) xs
    → All (λ b. b ≢ c) ys
    → xs ++ (c ∷ us) ≡ ys ++ (c ∷ vs)
    → (xs ≡ ys) × (us ≡ vs)
cut-injective c [] [] us vs h k e = (refl, ground arith)
cut-injective c [] (y ∷ ys) us vs h k e = absurd (ground arith)
cut-injective c (x ∷ xs) [] us vs h k e = absurd (ground arith)
cut-injective c (x ∷ xs) (y ∷ ys) us vs h k e =
    let p : (xs ≡ ys) × (us ≡ vs) = cut-injective c xs ys us vs h.1 k.1 (ground arith) in
    (ground arith, p.1)

-- Different texts have different bytes.
pub codes-injective : (s t : String) → codes s ≡ codes t → s ≡ t
codes-injective String.[] String.[] e = refl
codes-injective String.[] (String.◌∷◌ d t) e = cc
codes-injective (String.◌∷◌ c s) String.[] e = cc
codes-injective (String.◌∷◌ c s) (String.◌∷◌ d t) e =
    let same : c ≡ d = Char-path c d (ground arith) in
    let rest : s ≡ t = codes-injective s t (ground arith) in ap₂ (λ x y. String.◌∷◌ x y) same rest
