-- ===== src/LogLevels/Order.antt =====
-- The order in which log levels are listed does not matter.
use mathlib.Core.List.{Perm, Permᴰ}
use mathlib.Core.Logic.{∥∥₁_elim}
use abschlussarbeit.Common.{
  ℕ, String, ◌≡◌, refl, sym, ◌∙◌, ap, Bool, true, false, Option, none, some, List, [], ◌∷◌, ◌==◌,
  arith, Result, ok, err,
}
use abschlussarbeit.LogLevels.Parse.{
  Setting, Severity, Level, debug, top, firecracker, output, sdk, containerd, invalid, level_name,
}
use abschlussarbeit.LogLevels.{
  Helper, and_then, is_top_log_level_set, set_top, set_log_level, set_log_levels, settings, blank,
  new, get_firecracker_log_level, log_firecracker_output, get_firecracker_sdk_log_level,
  get_firecracker_containerd_log_level,
}
use Prim.Native.Char.{IsScalar}
use text.Mathlib.TextEquality.{IsScalar-prop}
use mathlib.Core.HLevel.{prop→set}
use abschlussarbeit.Common.Bytes.{Bytes}

-- The helper, if there is one: which of several errors is returned does depend on the order.
abbrev pub helper_of : Result Helper → Option Helper
helper_of (ok h) = some h
helper_of (err e) = none

abbrev twice : Setting → Setting → Helper → Option Helper
twice a b h = helper_of (and_then (set_log_level a h) (set_log_level b))

pub level_name-ne : (a : Severity) → (level_name a == "") ≡ false
unfolding level_name
level_name-ne debug = refl
level_name-ne _ = refl

set_top-is_set : (a : Severity) (h : Helper) → is_top_log_level_set (set_top a h) ≡ true
unfolding set_top is_top_log_level_set
set_top-is_set a h = ground arith

-- Two settings may change places.
set_log_level_swap : (a b : Setting) (h : Helper) → twice a b h ≡ twice b a h
unfolding set_log_level
set_log_level_swap (top a) (top b) h = ground arith
set_log_level_swap (top a) b h = ground arith
set_log_level_swap (firecracker a) (firecracker b) h =
    ground (arith, level_name-ne a, level_name-ne b)
set_log_level_swap (firecracker a) b h = ground (arith, level_name-ne a)
set_log_level_swap output b h = ground arith
set_log_level_swap (sdk a) b h = ground arith
set_log_level_swap (containerd a) b h = ground arith
set_log_level_swap (invalid a) b h = ground arith

-- What the loop makes of some settings, from a helper that may be missing.
abbrev from : List Setting → Option Helper → Option Helper
from ss none = none
from ss (some h) = helper_of (set_log_levels ss h)

from-cons :
    (s : Setting) (ss : List Setting) (h : Helper)
    → from (s ∷ ss) (some h) ≡ from ss (helper_of (set_log_level s h))
unfolding set_log_levels
from-cons s ss h = ground arith

from_swap :
    (a b : Setting) (ss : List Setting) (o : Option Helper)
    → from (a ∷ b ∷ ss) o ≡ from (b ∷ a ∷ ss) o
unfolding set_log_levels
from_swap a b ss none = refl
from_swap a b ss (some h) =
    let e : twice a b h ≡ twice b a h = set_log_level_swap a b h in ground arith

from-cong :
    (a : Setting) (xs ys : List Setting)
    → ((o : Option Helper) → from xs o ≡ from ys o)
    → (o : Option Helper) → from (a ∷ xs) o ≡ from (a ∷ ys) o
from-cong a xs ys ih none = refl
from-cong a xs ys ih (some h) =
    from-cons a xs h ∙ ih (helper_of (set_log_level a h)) ∙ sym (from-cons a ys h)

permᴰ-from : (xs ys : List Setting) → Permᴰ xs ys → (o : Option Helper) → from xs o ≡ from ys o
permᴰ-from _ _ Permᴰ.nil o = refl
permᴰ-from _ _ (Permᴰ.cons {a} {b} {l₁} {l₂} e p) o =
    rw (← e) (from-cong a l₁ l₂ (permᴰ-from l₁ l₂ p) o)
permᴰ-from _ _ (Permᴰ.swap {a} {b} {a'} {b'} {l} e e') o = rw (← e, ← e') (from_swap a b l o)
permᴰ-from _ _ (Permᴰ.trans {l₁} {l₂} {l₃} p q) o = permᴰ-from l₁ l₂ p o ∙ permᴰ-from l₂ l₃ q o

IsScalar-set : (n : ℕ) → IsSet (IsScalar n)
IsScalar-set n = prop→set (IsScalar-prop n)

Helper-set : IsSet (Option Helper)
Helper-set = hlevel IsScalar-set

perm-from : (xs ys : List Setting) → Perm xs ys → (o : Option Helper) → from xs o ≡ from ys o
perm-from xs ys p o = ∥∥₁_elim p (Helper-set (from xs o) (from ys o)) (λ q. permᴰ-from xs ys q o)

-- What a helper answers; the texts that it was made of are not among it.
pub record Meaning : Type 0 where
  pub firecracker_level : String
  pub firecracker_output : Bool
  pub sdk_level : Level × Bool
  pub containerd_level : Level × Bool

abbrev pub meaning : Helper → Meaning
meaning h = record {
  firecracker_level = get_firecracker_log_level h;
  firecracker_output = log_firecracker_output h;
  sdk_level = get_firecracker_sdk_log_level h;
  containerd_level = get_firecracker_containerd_log_level h;
}

abbrev pub map_meaning : Option Helper → Option Meaning
map_meaning none = none
map_meaning (some h) = some (meaning h)

abbrev relabel : List Bytes → Option Helper → Option Helper
relabel l none = none
relabel l (some h) = some (record h { log_levels = l })

set_log_level-relabel :
    (s : Setting) (l : List Bytes) (h : Helper)
    → helper_of (set_log_level s (record h { log_levels = l }))
      ≡ relabel l (helper_of (set_log_level s h))
unfolding set_log_level
set_log_level-relabel (top debug) l h = ground arith
set_log_level-relabel (top a) l h = ground arith
set_log_level-relabel _ l h = ground arith

from-relabel :
    (ss : List Setting) (l : List Bytes) (o : Option Helper)
    → from ss (relabel l o) ≡ relabel l (from ss o)
from-relabel ss l none = refl
from-relabel [] l (some h) = unfold set_log_levels in refl
from-relabel (s ∷ ss) l (some h) =
    rw (from-cons s ss (record h { log_levels = l }), from-cons s ss h, set_log_level-relabel s l h)
      (from-relabel ss l (helper_of (set_log_level s h)))

meaning-relabel : (l : List Bytes) (o : Option Helper) → map_meaning (relabel l o) ≡ map_meaning o
unfolding get_firecracker_log_level log_firecracker_output get_firecracker_sdk_log_level
    get_firecracker_containerd_log_level
meaning-relabel l none = refl
meaning-relabel l (some h) = refl

-- Lists of log levels that ask for the same settings, in whatever order, are both refused, or give
-- helpers that answer every question alike.
pub new-perm :
    (xs ys : List Bytes)
    → Perm (settings xs) (settings ys)
    → map_meaning (helper_of (new xs)) ≡ map_meaning (helper_of (new ys))
unfolding new
new-perm xs ys p =
    let start = some (blank xs) in
    sym (meaning-relabel ys (from (settings xs) start))
    ∙ ap map_meaning (sym (from-relabel (settings xs) ys start))
    ∙ ap map_meaning (perm-from (settings xs) (settings ys) p (some (blank ys)))
