-- ===== src/LogLevels/Accept.antt =====
-- Which lists of log levels `New` accepts.
use abschlussarbeit.Common.{
  ℕ, ◌≤◌, ◌+◌, ◌≡◌, ◌↔◌, refl, Bool, true, false, not, ◌==◌, List, [], ◌∷◌, arith, inl, inr, ok,
  err, Error, is_err, Result-cases,
}
use abschlussarbeit.Common.Bytes.{Bytes}
use abschlussarbeit.LogLevels.Parse.{Setting, debug, top, firecracker, sdk, containerd, invalid}
use abschlussarbeit.LogLevels.{
  Helper, blank, is_top_log_level_set, set_log_level, set_log_levels, settings, new,
}
use abschlussarbeit.LogLevels.Order.{level_name-ne}

-- How often each group of settings is asked for, and how often a text is no level at all.
abbrev pub in_top : Setting → ℕ
in_top (top a) = 1
in_top _ = 0

abbrev pub in_firecracker : Setting → ℕ
in_firecracker (firecracker a) = 1
in_firecracker _ = 0

abbrev pub in_sdk : Setting → ℕ
in_sdk (sdk a) = 1
in_sdk _ = 0

abbrev pub in_containerd : Setting → ℕ
in_containerd (containerd a) = 1
in_containerd _ = 0

abbrev pub in_invalid : Setting → ℕ
in_invalid (invalid s) = 1
in_invalid _ = 0

abbrev pub total : (Setting → ℕ) → List Setting → ℕ
total f [] = 0
total f (s ∷ ss) = f s + total f ss

abbrev flag : Bool → ℕ
flag true = 1
flag false = 0

abbrev has_top : Helper → ℕ
has_top h = flag (is_top_log_level_set h)

abbrev has_firecracker : Helper → ℕ
has_firecracker h = flag (not (h.log_fc == ""))

abbrev has_sdk : Helper → ℕ
has_sdk h = flag h.fc_sdk_log_level_set

abbrev has_containerd : Helper → ℕ
has_containerd h = flag h.fc_containerd_log_level_set

-- The settings ask for each group at most once more than the helper allows, and none is invalid.
record Fits (h : Helper) (ss : List Setting) : Type 0 where
  fits_top : has_top h + total in_top ss ≤ 1
  fits_firecracker : has_firecracker h + total in_firecracker ss ≤ 1
  fits_sdk : has_sdk h + total in_sdk ss ≤ 1
  fits_containerd : has_containerd h + total in_containerd ss ≤ 1
  all_valid : total in_invalid ss ≡ 0

record Counted (s : Setting) (h h' : Helper) : Type 0 where
  top : has_top h' ≡ has_top h + in_top s
  firecracker : has_firecracker h' ≡ has_firecracker h + in_firecracker s
  sdk : has_sdk h' ≡ has_sdk h + in_sdk s
  containerd : has_containerd h' ≡ has_containerd h + in_containerd s
  valid : in_invalid s ≡ 0

round_ok : (s : Setting) (h h' : Helper) → set_log_level s h ≡ ok h' → Counted s h h'
unfolding set_log_level
round_ok (top debug) h h' e = ground arith
round_ok (top a) h h' e = ground arith
round_ok (firecracker a) h h' e = ground (arith, level_name-ne a)
round_ok _ h h' e = ground arith

round_err :
    (s : Setting) (h : Helper) (ss : List Setting) (x : Error)
    → set_log_level s h ≡ err x
    → ¬ (Fits h (s ∷ ss))
unfolding set_log_level
round_err (top debug) h ss x e f = ground arith
round_err (top a) h ss x e f = ground arith
round_err _ h ss x e f = ground arith

Fits-next :
    (s : Setting) (ss : List Setting) (h h' : Helper)
    → Counted s h h'
    → Fits h (s ∷ ss) ↔ Fits h' ss
Fits-next s ss h h' c = (λ f. omega (arith, c), λ f. omega (arith, c))

rounds_ok : (ss : List Setting) (h : Helper) → (is_err (set_log_levels ss h) ≡ false) ↔ Fits h ss
unfolding set_log_levels
rounds_ok [] h = (λ e. ground arith, λ f. refl)
rounds_ok (s ∷ ss) h = elim (Result-cases (set_log_level s h)) [
  | inl (m, p) ↦
      let ih = rounds_ok ss m in
      let next = Fits-next s ss h m (round_ok s h m p) in
      (λ e. next.1 (ih.0 (rw p at e)), λ f. rw p (ih.1 (next.0 f)))
  | inr (x, p) ↦ (λ e. absurd (ground arith), λ f. absurd (round_err s h ss x p f))
]

-- What `New` asks of its levels: all are levels, and each of the four groups is there at most
-- once. `firecracker:output` may be there any number of times.
pub record Acceptable (ss : List Setting) : Type 0 where
  pub one_top : total in_top ss ≤ 1
  pub one_firecracker : total in_firecracker ss ≤ 1
  pub one_sdk : total in_sdk ss ≤ 1
  pub one_containerd : total in_containerd ss ≤ 1
  pub all_valid : total in_invalid ss ≡ 0

Fits-blank : (xs : List Bytes) (ss : List Setting) → Fits (blank xs) ss ↔ Acceptable ss
unfolding is_top_log_level_set
Fits-blank xs ss = (λ f. omega (arith, f), λ a. omega (arith, a))

-- `New` accepts a list exactly when all of it are levels, and each of the four groups (top level,
-- Firecracker, SDK, containerd) is there at most once.
pub new_accepts : (xs : List Bytes) → (is_err (new xs) ≡ false) ↔ Acceptable (settings xs)
unfolding new
new_accepts xs =
    let r = rounds_ok (settings xs) (blank xs) in
    let b = Fits-blank xs (settings xs) in (λ e. b.0 (r.0 e), λ a. r.1 (b.1 a))
