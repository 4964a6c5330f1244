-- ===== src/Common/Errors.antt =====
-- Go's error values. `errorf` keeps the format and its arguments apart; `wrap` is `errors.Wrap`;
-- `both` is what `multierror.Append` makes of two errors; `external` is an error value that a call
-- outside the program made up, and `errno` one of the operating system's numbers. The two errors of
-- internal/vm/vsock.go are types of their own there; `panic` ends the process.
use Prim.Native.Nat.{ℕ}
use Prim.Native.String.{String}
use mathlib.Core.Option.{Option, none, some}
use mathlib.Core.Bool.{Bool, true, false}
use mathlib.Core.Path.{◌≡◌, refl}
use mathlib.Core.Logic.{◌⊎◌, inl, inr}
use mathlib.Core.List.{List}

pub data Code : Type 0 where
  already_exists deadline internal : Code

pub data Error : Type 0 where
  errorf : String → List String → Error
  wrap : String → Error → Error
  status : Code → String → Error
  both : Error → Error → Error
  panic : String → Error
  vsock_connect_msg_error vsock_ack_error : Error → Error
  external errno : ℕ → Error
  canceled deadline_exceeded eof exist not_exist not_implemented : Error

pub data Result {ℓ} (A : Type ℓ) : Type ℓ where
  ok : A → Result A
  err : Error → Result A

-- `multierror.Append(a, b).ErrorOrNil()`, where either may be nil.
abbrev pub join : Option Error → Option Error → Option Error
join none b = b
join (some a) none = some a
join (some a) (some b) = some (both a b)

-- An `error` result, as a value without and with a reading.
abbrev pub of_error : Option Error → Result (Unit {0})
of_error none = ok tt
of_error (some e) = err e

abbrev pub error_of {ℓ} : {A : Type ℓ} → Result A → Option Error
error_of (ok a) = none
error_of (err e) = some e

abbrev pub is_err {ℓ} : {A : Type ℓ} → Result A → Bool
is_err (ok a) = false
is_err (err e) = true

pub Result-cases {ℓ} :
    {A : Type ℓ} (r : Result A) → ((a : A) × (r ≡ ok a)) ⊎ ((e : Error) × (r ≡ err e))
Result-cases (ok a) = inl (a, refl)
Result-cases (err e) = inr (e, refl)

-- Joined errors are no error exactly if neither is one.
pub join-none : (a b : Option Error) → join a b ≡ none → (a ≡ none) × (b ≡ none)
join-none none none h = (refl, refl)
join-none none (some b) h = cc
join-none (some a) none h = cc
join-none (some a) (some b) h = cc
