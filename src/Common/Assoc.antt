-- ===== src/Common/Assoc.antt =====
-- A Go `map[string]V` as an association list. A Go map has no order, and nothing here shows one.
use Prim.Native.String.{String}
use mathlib.Core.Path.{◌≡◌, refl}
use mathlib.Core.Bool.{Bool, true, false}
use mathlib.Core.Option.{Option, none, some}
use mathlib.Core.List.{List, [], ◌∷◌, ◌++◌}
use mathlib.Core.Logic.{inl, inr}
use native.Mathlib.Omega.{arith}
use text.Mathlib.Text.{◌==◌}
use text.Mathlib.TextEquality.{eq_iff}
use abschlussarbeit.Common.Tests.{if◌then◌else◌, Bool-cases}

abbrev pub Assoc {ℓ} : Type ℓ → Type ℓ
Assoc V = List (String × V)

module _ {ℓ} {V : Type ℓ} where
  -- `m[k]` with its second result.
  unfoldable pub lookup : String → Assoc V → Option V
  lookup key [] = none
  lookup key ((asked, val) ∷ dict) = if asked == key then some val else lookup key dict

  -- `m[k] = v`
  unfoldable pub insert : String → V → Assoc V → Assoc V
  insert key val [] = (key, val) ∷ []
  insert key val ((asked, old) ∷ dict) =
      if asked == key then (key, val) ∷ dict else (asked, old) ∷ insert key val dict

  -- `delete(m, k)`
  unfoldable pub remove : String → Assoc V → Assoc V
  remove key [] = []
  remove key ((asked, val) ∷ dict) =
      let rest = remove key dict in if asked == key then rest else (asked, val) ∷ rest

  -- `len(m) == 0`
  unfoldable pub is_empty : Assoc V → Bool
  is_empty [] = true
  is_empty (x ∷ dict) = false

  pub lookup-insert :
      (key asked : String) (val : V) (dict : Assoc V)
      → lookup asked (insert key val dict) ≡ (if key == asked then some val else lookup asked dict)
  unfolding lookup insert
  lookup-insert key asked val [] = refl
  lookup-insert key asked val ((first, old) ∷ dict) = ground (
    arith,
    eq_iff key asked,
    eq_iff first key,
    eq_iff first asked,
    lookup-insert key asked val dict,
  )

  pub lookup-remove :
      (key asked : String) (dict : Assoc V)
      → lookup asked (remove key dict) ≡ (if key == asked then none else lookup asked dict)
  unfolding lookup remove
  lookup-remove key asked [] = ground arith
  lookup-remove key asked ((first, val) ∷ dict) =
      ground (
        arith,
        eq_iff key asked,
        eq_iff first key,
        eq_iff first asked,
        lookup-remove key asked dict,
      )

pub ruleset dict_laws = (lookup-insert, lookup-remove)

module _ {ℓ} {V : Type ℓ} where
  pub is_empty-insert :
      (key : String) (val : V) (dict : Assoc V) → is_empty (insert key val dict) ≡ false
  unfolding is_empty insert
  is_empty-insert key val [] = refl
  is_empty-insert key val ((asked, old) ∷ dict) = ground arith

  pub lookup-is_empty :
      (key : String) (dict : Assoc V) → is_empty dict ≡ true → lookup key dict ≡ none
  unfolding lookup is_empty
  lookup-is_empty key [] h = refl
  lookup-is_empty key (x ∷ dict) h = cc

  -- A map with no key is empty.
  pub is_empty_of_lookup :
      (dict : Assoc V) → ((key : String) → lookup key dict ≡ none) → is_empty dict ≡ true
  unfolding lookup is_empty
  is_empty_of_lookup [] h = refl
  is_empty_of_lookup ((asked, val) ∷ dict) h = ground (arith, h asked, eq_iff asked asked)

module _ {ℓ} {V : Type ℓ} where
  -- No key stands twice.
  abbrev pub IsMap : Assoc V → Type ℓ
  IsMap [] = Unit
  IsMap ((key, val) ∷ dict) = (lookup key dict ≡ none) × IsMap dict

  pub insert-new :
      (key : String) (val : V) (dict : Assoc V)
      → lookup key dict ≡ none
      → insert key val dict ≡ dict ++ (key, val) ∷ []
  unfolding lookup insert
  insert-new key val [] h = refl
  insert-new key val ((asked, old) ∷ dict) h = ground (arith, insert-new key val dict)

  pub insert-IsMap :
      (key : String) (val : V) (dict : Assoc V) → IsMap dict → IsMap (insert key val dict)
  unfolding lookup insert
  insert-IsMap key val [] h = (refl, tt)
  insert-IsMap key val ((asked, old) ∷ dict) h = elim (Bool-cases (asked == key)) [
    | inl same ↦ rw same (rw (← (eq_iff asked key).0 same) h.0, h.1)
    | inr other ↦ rw other (
      ground (arith, lookup-insert key asked val dict, eq_iff key asked, eq_iff asked key, h.0),
      insert-IsMap key val dict h.1,
    )
  ]

  pub remove-absent :
      (key : String) (dict : Assoc V) → lookup key dict ≡ none → remove key dict ≡ dict
  unfolding lookup remove
  remove-absent key [] h = refl
  remove-absent key ((asked, val) ∷ dict) h = ground (arith, remove-absent key dict)

  pub remove-IsMap : (key : String) (dict : Assoc V) → IsMap dict → IsMap (remove key dict)
  unfolding lookup remove
  remove-IsMap key [] h = h
  remove-IsMap key ((asked, old) ∷ dict) h = elim (Bool-cases (asked == key)) [
    | inl same ↦ rw same (remove-IsMap key dict h.1)
    | inr other ↦ rw other (
      ground (arith, lookup-remove key asked dict, eq_iff key asked, h.0),
      remove-IsMap key dict h.1,
    )
  ]

  -- The values, and a removal as one value less.
  abbrev pub values : Assoc V → List V
  values [] = []
  values ((key, val) ∷ dict) = val ∷ values dict
