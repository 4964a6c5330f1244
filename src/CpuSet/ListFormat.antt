-- ===== src/CpuSet/ListFormat.antt =====
-- The list format that the kernel reads from cpuset.cpus and cpuset.mems, as cpuset(7) has it: numbers
-- and ranges, with commas between them. It is read here by a parser that knows nothing of the builder.
use mathlib.Core.List.{cons-ne-nil}
use abschlussarbeit.Common.{
  ℕ, ◌≤◌, ◌<◌, Bool, true, ◌&&◌, Option, none, some, List, [], ◌∷◌, ◌++◌, map, ◌≡◌, ◌≢◌, refl, ap,
  ◌∙◌, arith, leb, if◌then◌else◌, All, All-append,
}
use abschlussarbeit.Common.Split.{Lacks, split_on, split_on-Lacks, split_on-append}
use abschlussarbeit.Common.Bytes.{Bytes, codes}
use abschlussarbeit.Common.Decimal.{itoa, value, value-itoa, All-itoa, itoa-ne-nil}
use abschlussarbeit.Proto.{positive}
use abschlussarbeit.CpuSet.{Range, int_text, range_text, join_from, join, stringify}

abbrev pub all_digits : Bytes → Bool
all_digits [] = true
all_digits (c ∷ s) = leb 48 c && leb c 57 && all_digits s

-- A number is one or more digits.
unfoldable pub parse_number : Bytes → Option ℕ
parse_number [] = none
parse_number (c ∷ s) = if all_digits (c ∷ s) then some (value (c ∷ s)) else none

abbrev pub both_ends : Option ℕ → Option ℕ → Option (ℕ × ℕ)
both_ends (some a) (some b) = some (a, b)
both_ends _ _ = none

-- A number stands for the range from it to itself.
abbrev pub ends : List Bytes → Option (ℕ × ℕ)
ends (p ∷ []) = both_ends (parse_number p) (parse_number p)
ends (p ∷ q ∷ []) = both_ends (parse_number p) (parse_number q)
ends _ = none

abbrev pub and_rest : Option (ℕ × ℕ) → Option (List (ℕ × ℕ)) → Option (List (ℕ × ℕ))
and_rest (some r) (some rs) = some (r ∷ rs)
and_rest _ _ = none

abbrev pub parse_parts : List Bytes → Option (List (ℕ × ℕ))
parse_parts [] = some []
parse_parts (p ∷ ps) = and_rest (ends (split_on b'-' p)) (parse_parts ps)

-- The empty text is the empty list.
unfoldable pub parse_list : Bytes → Option (List (ℕ × ℕ))
parse_list [] = some []
parse_list (c ∷ s) = parse_parts (split_on b',' (c ∷ s))

itoa-Lacks : (sep n : ℕ) → sep < 48 → Lacks sep (itoa n)
itoa-Lacks sep n h = lacks (itoa n) (All-itoa n)
  where
    lacks : (s : Bytes) → All (λ b. (48 ≤ b) × (b < 58)) s → Lacks sep s
    lacks [] _ = tt
    lacks (c ∷ s) (p, q) = (omega arith, lacks s q)

all_digits_lem : (s : Bytes) → All (λ b. (48 ≤ b) × (b < 58)) s → all_digits s ≡ true
all_digits_lem [] h = refl
all_digits_lem (c ∷ s) h = ground (arith, all_digits_lem s h.1)

parse_number_digits :
    (s : Bytes) → s ≢ [] → All (λ b. (48 ≤ b) × (b < 58)) s → parse_number s ≡ some (value s)
unfolding parse_number
parse_number_digits [] h d = absurd (h refl)
parse_number_digits (c ∷ s) h d = rw (all_digits_lem (c ∷ s) d) refl

parse_number-itoa : (n : ℕ) → parse_number (itoa n) ≡ some n
parse_number-itoa n =
    parse_number_digits (itoa n) (itoa-ne-nil n) (All-itoa n) ∙ ap some (value-itoa n)

-- A number that is not negative, and a range of such, are read as what they were.
ends-int_text : (n : ℕ) → ends (split_on b'-' (int_text (positive n))) ≡ some (n, n)
ends-int_text n =
    rw (split_on-Lacks b'-' (itoa n) (itoa-Lacks b'-' n (omega arith)))
      (rw (parse_number-itoa n) refl)

abbrev pub range : ℕ × ℕ → Range
range (a, b) = record { min = positive a; max = positive b }

ends-range_text : (a b : ℕ) → ends (split_on b'-' (range_text (range (a, b)))) ≡ some (a, b)
unfolding range_text
ends-range_text a b =
    rw (split_on-append b'-' (itoa a) (itoa b) (itoa-Lacks b'-' a (omega arith))) (
      rw (split_on-Lacks b'-' (itoa b) (itoa-Lacks b'-' b (omega arith)))
        (rw (parse_number-itoa a, parse_number-itoa b) refl))

-- A part that is not empty, has no comma, and is read as `r`.
abbrev IsPart : Bytes → ℕ × ℕ → Type 0
IsPart p r = (p ≢ []) × Lacks b',' p × (ends (split_on b'-' p) ≡ some r)

abbrev AreParts : List Bytes → List (ℕ × ℕ) → Type 0
AreParts [] [] = Unit
AreParts (p ∷ ps) (r ∷ rs) = IsPart p r × AreParts ps rs
AreParts _ _ = ⊥

parse_parts-join_from :
    (p : Bytes) (ps : List Bytes) (r : ℕ × ℕ) (rs : List (ℕ × ℕ))
    → IsPart p r
    → AreParts ps rs
    → parse_parts (split_on b',' (join_from p ps)) ≡ some (r ∷ rs)
parse_parts-join_from p [] r [] h k = rw (split_on-Lacks b',' p h.1) (rw (h.2) refl)
parse_parts-join_from p (q ∷ ps) r (s ∷ rs) h k =
    rw (split_on-append b',' p (join_from q ps) h.1)
      (rw (h.2, parse_parts-join_from q ps s rs k.0 k.1) refl)
parse_parts-join_from p [] r (s ∷ rs) h k = absurd k
parse_parts-join_from p (q ∷ ps) r [] h k = absurd k

parse_list_cons : (s : Bytes) → s ≢ [] → parse_list s ≡ parse_parts (split_on b',' s)
unfolding parse_list
parse_list_cons [] h = absurd (h refl)
parse_list_cons (c ∷ s) h = refl

join_from-ne-nil : (p : Bytes) (ps : List Bytes) → p ≢ [] → join_from p ps ≢ []
join_from-ne-nil p [] h = h
join_from-ne-nil [] (q ∷ ps) h = absurd (h refl)
join_from-ne-nil (c ∷ p) (q ∷ ps) h = cons-ne-nil c _

parse_list-join :
    (ps : List Bytes) (rs : List (ℕ × ℕ)) → AreParts ps rs → parse_list (join ps) ≡ some rs
parse_list-join [] [] h = unfold parse_list in refl
parse_list-join (p ∷ ps) (r ∷ rs) h =
    parse_list_cons (join_from p ps) (join_from-ne-nil p ps h.0.0)
    ∙ parse_parts-join_from p ps r rs h.0 h.1
parse_list-join [] (r ∷ rs) h = absurd h
parse_list-join (p ∷ ps) [] h = absurd h

middle-ne-nil : (s : Bytes) (c : ℕ) (t : Bytes) → s ++ (c ∷ t) ≢ []
middle-ne-nil [] c t = cons-ne-nil c t
middle-ne-nil (b ∷ s) c t = cons-ne-nil b _

range-IsPart : (r : ℕ × ℕ) → IsPart (range_text (range r)) r
unfolding range_text
range-IsPart (a, b) = (
  middle-ne-nil (itoa a) b'-' (itoa b),
  All-append (λ c. c ≢ b',') (itoa a) (codes "-" ++ itoa b) (itoa-Lacks b',' a (omega arith))
      (omega arith, itoa-Lacks b',' b (omega arith)),
  ends-range_text a b,
)

ranges-AreParts : (rs : List (ℕ × ℕ)) → AreParts (map range_text (map range rs)) rs
ranges-AreParts [] = tt
ranges-AreParts (r ∷ rs) = (range-IsPart r, ranges-AreParts rs)

abbrev pub single : ℕ → ℕ × ℕ
single n = (n, n)

parts-AreParts :
    (ns : List ℕ) (rs : List (ℕ × ℕ))
    → AreParts
        (map int_text (map positive ns) ++ map range_text (map range rs))
        (map single ns ++ rs)
parts-AreParts [] rs = ranges-AreParts rs
parts-AreParts (n ∷ ns) rs =
    ((itoa-ne-nil n, itoa-Lacks b',' n (omega arith), ends-int_text n), parts-AreParts ns rs)

-- The text is read as the numbers and the ranges that it was made of, in their order.
pub parse_list-stringify :
    (ns : List ℕ) (rs : List (ℕ × ℕ))
    → parse_list (stringify (map positive ns) (map range rs)) ≡ some (map single ns ++ rs)
unfolding stringify
parse_list-stringify ns rs = parse_list-join _ _ (parts-AreParts ns rs)
