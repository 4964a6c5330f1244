-- ===== src/Common/Act.antt =====
-- Methods that change a state and may fail. What was written before a failure stays written, so the
-- state comes back beside the error too.
use mathlib.Core.Option.{Option}
use mathlib.Core.Path.{◌≡◌, refl, ◌∙◌}
use Prim.Native.String.{String}
use abschlussarbeit.Common.Errors.{Error, Result, ok, err, wrap, of_error, error_of}

abbrev pub Act {ℓ} : Type ℓ → Type ℓ → Type ℓ
Act S A = S → Result A × S

abbrev pub wrap_result {ℓ} : {A : Type ℓ} → String → Result A → Result A
wrap_result msg (ok a) = ok a
wrap_result msg (err e) = err (wrap msg e)

module _ {ℓ} {S A : Type ℓ} where
  abbrev pub pure : A → Act S A
  pure a s = (ok a, s)

  abbrev pub raise : Error → Act S A
  raise e s = (err e, s)

  abbrev pub lift : Result A → Act S A
  lift r s = (r, s)

  abbrev pub gets : (S → A) → Act S A
  gets f s = (ok (f s), s)

  -- `if err != nil { return errors.Wrap(err, msg) }` after a call.
  abbrev pub wrapping : String → Act S A → Act S A
  wrapping msg m s = let (r, s') = m s in (wrap_result msg r, s')

  abbrev pub close_on_error : Result A → (S → S) → S → Result A × S
  close_on_error (ok a) close s = (ok a, s)
  close_on_error (err e) close s = (err e, close s)

  -- `defer func() { if err != nil { close() } }()` round the rest of the method.
  abbrev pub on_error : (S → S) → Act S A → Act S A
  on_error close m s = let (r, s') = m s in close_on_error r close s'

  -- `defer close()` round the rest of the method.
  abbrev pub finally : (S → S) → Act S A → Act S A
  finally close m s = let (r, s') = m s in (r, close s')

-- A method without a result value, and a change of the state that cannot fail.
abbrev pub attempt : {S : Type 0} → Option Error → Act S (Unit {0})
attempt o s = (of_error o, s)

abbrev pub modify : {S : Type 0} → (S → S) → Act S (Unit {0})
modify f s = (ok tt, f s)

-- The error of a call as a value, for code that goes on after it.
abbrev pub caught : {S A : Type 0} → Act S A → Act S (Option Error)
caught m s = let (r, s') = m s in (ok (error_of r), s')

module _ {ℓ} {S A B : Type ℓ} where
  abbrev pub continue : Result A → (A → Act S B) → S → Result B × S
  continue (ok a) f s = f a s
  continue (err e) f s = (err e, s)

  infixl 10 ◌>>=◌ ◌>>◌
  abbrev pub ◌>>=◌ : Act S A → (A → Act S B) → Act S B
  ◌>>=◌ m f s = let (r, s') = m s in continue r f s'

  abbrev pub ◌>>◌ : Act S A → Act S B → Act S B
  m >> n = m >>= λ _. n

  continue_ok :
      (r : Result A) (f : A → Act S B) (s : S) (b : B)
      → (continue r f s).0 ≡ ok b
      → (a : A) × (r ≡ ok a) × ((f a s).0 ≡ ok b)
  continue_ok (ok a) f s b h = (a, refl, h)
  continue_ok (err e) f s b h = cc

  -- A chain that ends well went well at its first step, and from there on.
  pub bind_ok :
      (m : Act S A) (f : A → Act S B) (s : S) (b : B)
      → ((m >>= f) s).0 ≡ ok b
      → (a : A) × ((m s).0 ≡ ok a) × ((f a (m s).1).0 ≡ ok b)
  bind_ok m f s b h = continue_ok (m s).0 f (m s).1 b h

-- What a chain leaves alone if each of its steps does.
abbrev pub Leaves : {S A B : Type 0} → (S → B) → Act S A → Type 0
Leaves {S} f m = (s : S) → f (m s).1 ≡ f s

module _ {S A B C : Type 0} (f : S → C) where
  continue-Leaves :
      (r : Result A) (g : A → Act S B) (s : S)
      → ((a : A) → Leaves f (g a))
      → f (continue r g s).1 ≡ f s
  continue-Leaves (ok a) g s h = h a s
  continue-Leaves (err e) g s h = refl

  pub bind-Leaves :
      (m : Act S A) (g : A → Act S B) → Leaves f m → ((a : A) → Leaves f (g a)) → Leaves f (m >>= g)
  bind-Leaves m g h k s = continue-Leaves (m s).0 g (m s).1 k ∙ h s
