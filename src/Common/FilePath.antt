-- ===== src/Common/FilePath.antt =====
-- `path/filepath` on Unix: `Base`, `Clean`, `Join` and `Dir`, on bytes.
pub mod Plain
pub mod Prefix
use Prim.Native.Nat.{ℕ, zero, suc, ◌+◌, ◌≤◌, ◌<◌}
use mathlib.Core.Path.{◌≡◌, refl, sym, ap, ◌∙◌}
use mathlib.Core.Logic.{◌≢◌, inl, inr}
use mathlib.Core.Bool.{Bool, true, false, ◌&&◌, ◌||◌, not}
use mathlib.Core.Option.{Option, none, some}
use mathlib.Core.List.{List, [], ◌∷◌, ◌++◌, reverse}
use native.Mathlib.Omega.{arith}
use abschlussarbeit.Common.Tests.{eqb, if◌then◌else◌}
use abschlussarbeit.Common.Lists.{All}
use abschlussarbeit.Common.Bytes.{Bytes, bytes_eq, codes}

abbrev pub slash : ℕ
slash = 47

-- `strings.Split(s, "/")`: one part more than there are slashes.
abbrev grow : ℕ → List Bytes → List Bytes
grow c [] = (c ∷ []) ∷ []
grow c (p ∷ ps) = (c ∷ p) ∷ ps

unfoldable pub split : Bytes → List Bytes
split [] = [] ∷ []
split (c ∷ s) = let rest = split s in if eqb c slash then [] ∷ rest else grow c rest

-- `strings.HasPrefix`
unfoldable pub has_prefix : Bytes → Bytes → Bool
has_prefix s [] = true
has_prefix [] (p ∷ ps) = false
has_prefix (c ∷ s) (p ∷ ps) = eqb c p && has_prefix s ps

unfoldable pub is_rooted : Bytes → Bool
is_rooted [] = false
is_rooted (c ∷ s) = eqb c slash

abbrev dot : Bytes
dot = codes "."

abbrev dot_dot : Bytes
dot_dot = codes ".."

-- `..` takes the last part away, if there is one that is not `..` itself; above the root it is
-- nothing. The parts kept so far are in reverse order.
abbrev pop : Bool → List Bytes → List Bytes
pop true [] = []
pop false [] = dot_dot ∷ []
pop rooted (p ∷ ps) = if bytes_eq p dot_dot then dot_dot ∷ p ∷ ps else ps

keep_part : Bool → List Bytes → Bytes → List Bytes
keep_part rooted kept p =
    if bytes_eq p [] || bytes_eq p dot
    then kept
    else if bytes_eq p dot_dot
    then pop rooted kept
    else p ∷ kept

clean_parts : Bool → List Bytes → List Bytes → List Bytes
unfolding keep_part
clean_parts rooted kept [] = kept
clean_parts rooted kept (p ∷ ps) = clean_parts rooted (keep_part rooted kept p) ps

unfoldable pub join_parts : List Bytes → Bytes
join_parts [] = []
join_parts (p ∷ []) = p
join_parts (p ∷ q ∷ ps) = p ++ (slash ∷ join_parts (q ∷ ps))

abbrev pub or_dot : Bytes → Bytes
or_dot [] = dot
or_dot (c ∷ s) = c ∷ s

-- `filepath.Clean`
unfoldable pub clean : Bytes → Bytes
unfolding clean_parts join_parts split is_rooted bytes_eq
clean s =
    let body = join_parts (reverse (clean_parts (is_rooted s) [] (split s))) in
    if is_rooted s then slash ∷ body else or_dot body

-- `filepath.Join` of two elements: an empty one is left out.
unfoldable pub join : Bytes → Bytes → Bytes
unfolding clean
join [] [] = []
join [] (c ∷ t) = clean (c ∷ t)
join (b ∷ s) [] = clean (b ∷ s)
join (b ∷ s) (c ∷ t) = clean ((b ∷ s) ++ (slash ∷ c ∷ t))

abbrev without_empty : List Bytes → List Bytes
without_empty [] = []
without_empty ([] ∷ ps) = without_empty ps
without_empty ((c ∷ p) ∷ ps) = (c ∷ p) ∷ without_empty ps

abbrev clean_joined : List Bytes → Bytes
clean_joined [] = []
clean_joined (p ∷ ps) = clean (join_parts (p ∷ ps))

-- `filepath.Join` of any elements.
unfoldable pub join_all : List Bytes → Bytes
join_all ps = clean_joined (without_empty ps)

-- The last part of a list of parts that is not empty.
last_part : Bytes → List Bytes → Bytes
last_part found [] = found
last_part found (p ∷ ps) = last_part (if bytes_eq p [] then found else p) ps

abbrev or_slash : Bytes → Bytes
or_slash [] = slash ∷ []
or_slash (c ∷ s) = c ∷ s

-- `filepath.Base`: what stands behind the last slash, once the slashes at the end are gone.
unfoldable pub base : Bytes → Bytes
unfolding last_part split bytes_eq
base [] = dot
base (c ∷ s) = or_slash (last_part [] (split (c ∷ s)))

-- What stands up to the last slash, that slash included.
abbrev to_slash : ℕ → Bytes → Bytes
to_slash c [] = if eqb c slash then c ∷ [] else []
to_slash c (d ∷ s) = c ∷ d ∷ s

up_to_slash : Bytes → Bytes
up_to_slash [] = []
up_to_slash (c ∷ s) = to_slash c (up_to_slash s)

-- `filepath.Dir`
unfoldable pub dir : Bytes → Bytes
unfolding up_to_slash clean
dir s = clean (up_to_slash s)
