-- ===== src/LogLevels/Meaning.antt =====
-- What the helper made of some log levels answers.
use abschlussarbeit.Common.{
  ◌≡◌, refl, ◌∙◌, ap, inl, inr, Result-cases, Bool, true, false, ◌||◌, List, [], ◌∷◌, arith, ok,
}
use abschlussarbeit.Common.Bytes.{Bytes}
use abschlussarbeit.LogLevels.Parse.{Setting, debug, top, output}
use abschlussarbeit.LogLevels.{
  Helper, blank, set_log_level, set_log_levels, settings, new, log_firecracker_output,
}

-- The settings that turn the output of Firecracker on.
abbrev pub asks_output : Setting → Bool
asks_output (top debug) = true
asks_output output = true
asks_output _ = false

abbrev pub any_asks_output : List Setting → Bool
any_asks_output [] = false
any_asks_output (s ∷ ss) = asks_output s || any_asks_output ss

round_output :
    (s : Setting) (h h' : Helper)
    → set_log_level s h ≡ ok h'
    → log_firecracker_output h' ≡ (log_firecracker_output h || asks_output s)
unfolding set_log_level log_firecracker_output
round_output (top debug) h h' e = ground arith
round_output (top a) h h' e = ground arith
round_output _ h h' e = ground arith

or_assoc : (a b c : Bool) → ((a || b) || c) ≡ (a || (b || c))
or_assoc true b c = refl
or_assoc false b c = refl

rounds_output :
    (ss : List Setting) (h h' : Helper)
    → set_log_levels ss h ≡ ok h'
    → log_firecracker_output h' ≡ (log_firecracker_output h || any_asks_output ss)
unfolding set_log_levels
rounds_output [] h h' e = unfold log_firecracker_output in ground arith
rounds_output (s ∷ ss) h h' e = elim (Result-cases (set_log_level s h)) [
  | inl (m, p) ↦
      rounds_output ss m h' (ground arith)
      ∙ ap (λ b. b || any_asks_output ss) (round_output s h m p)
      ∙ or_assoc (log_firecracker_output h) (asks_output s) (any_asks_output ss)
  | inr (x, p) ↦ absurd (ground arith)
]

-- When `New` accepts the levels: the output of Firecracker is logged exactly if `debug` or `firecracker:output` is among the
-- levels; no other level, `warning` included, turns it on.
pub new-output :
    (xs : List Bytes) (h : Helper)
    → new xs ≡ ok h
    → log_firecracker_output h ≡ any_asks_output (settings xs)
unfolding new
new-output xs h e =
    rounds_output (settings xs) (blank xs) h e ∙ (unfold log_firecracker_output in refl)
