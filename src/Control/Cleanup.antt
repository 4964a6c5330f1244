-- ===== src/Control/Cleanup.antt =====
-- What the plugin of firecracker-control/local.go gives back when `CreateVM` fails.
pub mod Shim
pub mod Whole
pub mod Exit
pub mod Leak
pub mod Resources
pub mod Opening
use abschlussarbeit.Common.{
  ℕ, String, ◌≡◌, refl, ap, ◌∙◌, Bool, true, false, Option, none, some, List, [], ◌∷◌, arith, Error,
  Result, ok, err, is_err, Result-cases, inl, inr, eqb, if◌then◌else◌,
}
use abschlussarbeit.Common.Act.{
  Act, attempt, lift, on_error, finally, wrapping, wrap_result, ◌>>=◌, ◌>>◌, continue,
  close_on_error,
}
use abschlussarbeit.Common.Bytes.{Bytes, bytes_eq, bytes_eq_iff}
use abschlussarbeit.Control.{
  HostCall, Resource, socket, directory, process, client, Local, Host, same, give_back, free, hold,
  ask, obtain,
}

-- Nothing is held that was not held before, and the table of processes is as it was.
pub record Unmoved (s t : Local) : Type 0 where
  pub same_processes : t.processes ≡ s.processes
  pub same_held : t.held ≡ s.held

-- From s to t, one more resource is held.
pub record Holds (r : Resource) (s t : Local) : Type 0 where
  pub same_processes : t.processes ≡ s.processes
  pub now_held : t.held ≡ r ∷ s.held

abbrev pub Keeps : {A : Type 0} → Act Local A → Type 0
Keeps m = (s : Local) → Unmoved s (m s).1

abbrev pub Clean : {A : Type 0} → Act Local A → Type 0
Clean m = (s : Local) → is_err (m s).0 ≡ true → Unmoved s (m s).1

-- An action that ends with a resource of its result, or as it began.
pub record Obtains {A : Type 0} (m : Act Local A) (r : A → Resource) : Type 0 where
  pub on_ok : (s : Local) (a : A) → (m s).0 ≡ ok a → Holds (r a) s (m s).1
  pub or_clean : Clean m

abbrev pub Returns : (Local → Local) → Resource → Type 0
Returns close r = (s t : Local) → Holds r s t → Unmoved s (close t)

pub here : (s : Local) → Unmoved s s
here s = record { same_processes = refl; same_held = refl }

trans : {s t u : Local} → Unmoved s t → Unmoved t u → Unmoved s u
trans a b = record {
  same_processes = b.same_processes ∙ a.same_processes;
  same_held = b.same_held ∙ a.same_held;
}

module _ {B : Type 0} where
  closing :
      {s t : Local} (x : Result B × Local) (r : Resource) (close : Local → Local)
      → Holds r s t
      → Returns close r
      → (is_err x.0 ≡ true → Unmoved t x.1)
      → is_err (close_on_error x.0 close x.1).0 ≡ true
      → Unmoved s (close_on_error x.0 close x.1).1
  closing (ok b, v) r close held g k h = absurd (ground arith)
  closing {s} {t} (err e, v) r close held g k h =
      let moved = k refl in
      g s v (record {
        same_processes = moved.same_processes ∙ held.same_processes;
        now_held = moved.same_held ∙ held.now_held;
      })

module _ {A B : Type 0} where
  pub continue-Clean :
      {s t : Local} (r : Result A) (f : A → Act Local B)
      → Unmoved s t
      → ((a : A) → Clean (f a))
      → is_err (continue r f t).0 ≡ true
      → Unmoved s (continue r f t).1
  continue-Clean {s} {t} (ok a) f u c h = trans u (c a t h)
  continue-Clean (err e) f u c h = u

  pub bind-Clean :
      (m : Act Local A) (f : A → Act Local B) → Keeps m → ((a : A) → Clean (f a)) → Clean (m >>= f)
  bind-Clean m f k c s h = continue-Clean (m s).0 f (k s) c h

  pub continue-Keeps :
      {s t : Local} (r : Result A) (f : A → Act Local B)
      → Unmoved s t
      → ((a : A) → Keeps (f a))
      → Unmoved s (continue r f t).1
  continue-Keeps {s} {t} (ok a) f u c = trans u (c a t)
  continue-Keeps (err e) f u c = u

  pub bind-Keeps :
      (m : Act Local A) (f : A → Act Local B) → Keeps m → ((a : A) → Keeps (f a)) → Keeps (m >>= f)
  bind-Keeps m f k c s = continue-Keeps (m s).0 f (k s) c

  pub continue-Holds :
      {s t : Local} (q : Result A) (f : A → Act Local B) (r : B → Resource) (b : B)
      → Unmoved s t
      → ((a : A) → Obtains (f a) r)
      → (continue q f t).0 ≡ ok b
      → Holds (r b) s (continue q f t).1
  continue-Holds {s} {t} (ok a) f r b u o h =
      let held = (o a).on_ok t b h in
      record {
        same_processes = held.same_processes ∙ u.same_processes;
        now_held = held.now_held ∙ ap (λ l. r b ∷ l) u.same_held;
      }
  continue-Holds (err e) f r b u o h = absurd (ground arith)

  pub bind-Obtains :
      (m : Act Local A) (f : A → Act Local B) (r : B → Resource)
      → Keeps m
      → ((a : A) → Obtains (f a) r)
      → Obtains (m >>= f) r
  bind-Obtains m f r k o = record {
    on_ok = λ s b h. continue-Holds (m s).0 f r b (k s) o h;
    or_clean = bind-Clean m f k (λ a. (o a).or_clean);
  }

  pub scope_error :
      {s t : Local} (q : Result A) (r : A → Resource) (close : A → Local → Local)
      (n : A → Act Local B)
      → ((a : A) → q ≡ ok a → Holds (r a) s t)
      → (is_err q ≡ true → Unmoved s t)
      → ((a : A) → Clean (n a))
      → ((a : A) → Returns (close a) (r a))
      → is_err (continue q (λ a. on_error (close a) (n a)) t).0 ≡ true
      → Unmoved s (continue q (λ a. on_error (close a) (n a)) t).1
  scope_error (err e) r close n o u c g h = u refl
  scope_error {s} {t} (ok a) r close n o u c g h =
      closing (n a t) (r a) (close a) (o a refl) (g a) (c a t) h

  -- A resource that a deferred function gives back when the rest fails.
  pub on_error-Clean :
      (m : Act Local A) (r : A → Resource) (close : A → Local → Local) (n : A → Act Local B)
      → Obtains m r
      → ((a : A) → Clean (n a))
      → ((a : A) → Returns (close a) (r a))
      → Clean (m >>= λ a. on_error (close a) (n a))
  on_error-Clean m r close n o c g s h =
      scope_error (m s).0 r close n (o.on_ok s) (o.or_clean s) c g h

  pub scope_any :
      {s t : Local} (q : Result A) (r : A → Resource) (close : A → Local → Local)
      (n : A → Act Local B)
      → ((a : A) → q ≡ ok a → Holds (r a) s t)
      → (is_err q ≡ true → Unmoved s t)
      → ((a : A) → Clean (n a))
      → ((a : A) → Returns (close a) (r a))
      → is_err (continue q (λ a. finally (close a) (n a)) t).0 ≡ true
      → Unmoved s (continue q (λ a. finally (close a) (n a)) t).1
  scope_any (err e) r close n o u c g h = u refl
  scope_any {s} {t} (ok a) r close n o u c g h =
      let moved = c a t h in
      let held = o a refl in
      g a s (n a t).1 (record {
        same_processes = moved.same_processes ∙ held.same_processes;
        now_held = moved.same_held ∙ held.now_held;
      })

  -- A resource that a deferred function gives back in any case.
  pub finally-Clean :
      (m : Act Local A) (r : A → Resource) (close : A → Local → Local) (n : A → Act Local B)
      → Obtains m r
      → ((a : A) → Clean (n a))
      → ((a : A) → Returns (close a) (r a))
      → Clean (m >>= λ a. finally (close a) (n a))
  finally-Clean m r close n o c g s h = scope_any (m s).0 r close n (o.on_ok s) (o.or_clean s) c g h

module _ {A : Type 0} where
  pub Keeps-Clean : (m : Act Local A) → Keeps m → Clean m
  Keeps-Clean m k s h = k s

  pub lift-Keeps : (r : Result A) → Keeps (lift r)
  lift-Keeps r s = record { same_processes = refl; same_held = refl }

  wrapped_err : (msg : String) (r : Result A) → is_err (wrap_result msg r) ≡ is_err r
  wrapped_err msg (ok a) = refl
  wrapped_err msg (err e) = refl

  wrapped_ok : (msg : String) (r : Result A) (a : A) → wrap_result msg r ≡ ok a → r ≡ ok a
  wrapped_ok msg (ok b) a h = h
  wrapped_ok msg (err e) a h = absurd (ground arith)

  pub wrapping-Clean : (msg : String) (m : Act Local A) → Clean m → Clean (wrapping msg m)
  wrapping-Clean msg m c s h = c s (rw (← wrapped_err msg (m s).0) h)

  pub wrapping-Keeps : (msg : String) (m : Act Local A) → Keeps m → Keeps (wrapping msg m)
  wrapping-Keeps msg m k s = k s

  pub wrapping-Obtains :
      (msg : String) (m : Act Local A) (r : A → Resource) → Obtains m r → Obtains (wrapping msg m) r
  wrapping-Obtains msg m r o = record {
    on_ok = λ s a h. o.on_ok s a (wrapped_ok msg (m s).0 a h);
    or_clean = wrapping-Clean msg m o.or_clean;
  }
