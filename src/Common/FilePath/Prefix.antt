-- ===== src/Common/FilePath/Prefix.antt =====
-- A prefix of the text that ends at a slash is a prefix of the list of parts.
use Prim.Native.Nat.{ℕ}
use mathlib.Core.Path.{◌≡◌, refl, ◌∙◌}
use mathlib.Core.Bool.{Bool, true, false, ◌&&◌, ◌||◌}
use mathlib.Core.List.{List, [], ◌∷◌, ◌++◌}
use native.Mathlib.Omega.{arith}
use abschlussarbeit.Common.Tests.{eqb, if◌then◌else◌}
use abschlussarbeit.Common.Bytes.{Bytes, bytes_eq}
use abschlussarbeit.Common.FilePath.{slash, grow, split, has_prefix}

-- The parts of one path begin those of another.
unfoldable pub begins : List Bytes → List Bytes → Bool
begins [] qs = true
begins (p ∷ ps) [] = false
begins (p ∷ ps) (q ∷ qs) = bytes_eq p q && begins ps qs

split-cons : (s : Bytes) → (p : Bytes) × (ps : List Bytes) × (split s ≡ p ∷ ps)
unfolding split
split-cons [] = ([], [], refl)
split-cons (c ∷ s) = first_part (eqb c slash) c (split-cons s)
  where
    first_part :
        (b : Bool) (c : ℕ)
        → (p : Bytes) × (ps : List Bytes) × (split s ≡ p ∷ ps)
        → (p : Bytes) × (ps : List Bytes) × ((if b then [] ∷ split s else grow c (split s))
            ≡ p ∷ ps)
    first_part true c (p, ps, h) = ([], split s, refl)
    first_part false c (p, ps, h) = (c ∷ p, ps, rw h)

-- One more byte on both sides.
begins_step :
    (c d : ℕ) (same under : Bool) (p q : Bytes) (ps qs : List Bytes)
    → (same || under) ≡ begins (p ∷ ps) (q ∷ qs)
    → ((eqb c d && same) || (eqb c d && under))
      ≡ begins
          (if eqb d slash then [] ∷ p ∷ ps else (d ∷ p) ∷ ps)
          (if eqb c slash then [] ∷ q ∷ qs else (c ∷ q) ∷ qs)
unfolding begins bytes_eq
begins_step c d same under p q ps qs h = ground arith

pub prefix-begins :
    (s b : Bytes) → (bytes_eq s b || has_prefix s (b ++ slash ∷ [])) ≡ begins (split b) (split s)
unfolding begins bytes_eq has_prefix split
prefix-begins [] [] = refl
prefix-begins (c ∷ s) [] = let (p, ps, h) = split-cons s in rw h (ground arith)
prefix-begins [] (d ∷ b) = let (p, ps, h) = split-cons b in rw h (ground arith)
prefix-begins (c ∷ s) (d ∷ b) =
    let (p, ps, h) = split-cons b in
    let (q, qs, k) = split-cons s in
    rw (h, k)
      (begins_step c d (bytes_eq s b) (has_prefix s (b ++ slash ∷ [])) p q ps qs
        (prefix-begins s b ∙ rw (h, k)))
