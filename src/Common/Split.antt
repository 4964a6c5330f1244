-- ===== src/Common/Split.antt =====
-- `strings.Split` at one byte.
use Prim.Native.Nat.{ℕ}
use mathlib.Core.Path.{◌≡◌, refl}
use mathlib.Core.Logic.{◌≢◌}
use mathlib.Core.List.{List, [], ◌∷◌, ◌++◌}
use native.Mathlib.Omega.{arith}
use abschlussarbeit.Common.Tests.{eqb, if◌then◌else◌}
use abschlussarbeit.Common.Lists.{All}
use abschlussarbeit.Common.Bytes.{Bytes}

-- The parts of a text round the separators; one more than there are separators.
abbrev pub first_part : ℕ → List Bytes → List Bytes
first_part c [] = (c ∷ []) ∷ []
first_part c (p ∷ ps) = (c ∷ p) ∷ ps

unfoldable pub split_on : ℕ → Bytes → List Bytes
split_on sep [] = [] ∷ []
split_on sep (c ∷ s) =
    let rest = split_on sep s in if eqb c sep then [] ∷ rest else first_part c rest

abbrev pub Lacks : ℕ → Bytes → Type 0
Lacks sep = All (λ c. c ≢ sep)

pub split_on-Lacks : (sep : ℕ) (p : Bytes) → Lacks sep p → split_on sep p ≡ p ∷ []
unfolding split_on
split_on-Lacks sep [] h = refl
split_on-Lacks sep (c ∷ p) h = ground (arith, split_on-Lacks sep p h.1)

pub split_on-append :
    (sep : ℕ) (p t : Bytes) → Lacks sep p → split_on sep (p ++ (sep ∷ t)) ≡ p ∷ split_on sep t
unfolding split_on
split_on-append sep [] t h = ground arith
split_on-append sep (c ∷ p) t h = ground (arith, split_on-append sep p t h.1)
