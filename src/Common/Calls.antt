-- ===== src/Common/Calls.antt =====
-- Calls that leave the program: a state that is the list of the calls made so far, the newest first,
-- and an answer for each call that may depend on all that went before it.
use mathlib.Core.Option.{Option}
use mathlib.Core.List.{List, ◌∷◌}
use abschlussarbeit.Common.Errors.{Error, of_error}
use abschlussarbeit.Common.Act.{Act}

abbrev pub Answers : Type 0 → Type 0
Answers C = List C → C → Option Error

-- A call whose only result is an error.
abbrev pub perform : {C : Type 0} → Answers C → C → Act (List C) (Unit {0})
perform answers c calls = (of_error (answers calls c), c ∷ calls)
