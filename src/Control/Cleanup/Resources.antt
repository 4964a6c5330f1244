-- ===== src/Control/Cleanup/Resources.antt =====
-- The calls of the plugin of firecracker-control/local.go that obtain a resource, and giving it back.
use abschlussarbeit.Common.{
  ◌≡◌, refl, ap, ◌∙◌, true, Option, none, some, List, ◌∷◌, arith, Error, ok, is_err,
}
use abschlussarbeit.Common.Act.{attempt, ◌>>◌}
use abschlussarbeit.Common.Bytes.{bytes_eq_iff}
use abschlussarbeit.Control.{
  HostCall, Resource, socket, directory, process, client, Local, Host, same, give_back, free, hold,
  ask, obtain,
}
use abschlussarbeit.Control.Cleanup.{Holds, Keeps, Obtains, Returns, Unmoved}

same_refl : (r : Resource) → same r r ≡ true
same_refl (socket a) = (bytes_eq_iff a a).1 refl
same_refl (directory a) = (bytes_eq_iff a a).1 refl
same_refl (process a) = ground arith
same_refl (client a) = (bytes_eq_iff a a).1 refl

pub give_back-first : (r : Resource) (h : List Resource) → give_back r (r ∷ h) ≡ h
unfolding give_back
give_back-first r h = rw (same_refl r) refl

pub free-Returns : (r : Resource) → Returns (free r) r
unfolding free
free-Returns r s t h = record {
  same_processes = h.same_processes;
  same_held = ap (give_back r) h.now_held ∙ give_back-first r s.held;
}

module _ (host : Host) where
  pub ask-Keeps : (c : HostCall) → Keeps (ask host c)
  unfolding ask
  ask-Keeps c s = record { same_processes = refl; same_held = refl }

  obtained :
      (o : Option Error) (r : Resource) (s t : Local)
      → Unmoved s t
      → ((u : Unit {0})
          → ((attempt o >> (λ v. (ok tt, hold r v))) t).0 ≡ ok u
          → Holds r s ((attempt o >> (λ v. (ok tt, hold r v))) t).1)
        × (is_err ((attempt o >> (λ v. (ok tt, hold r v))) t).0 ≡ true
            → Unmoved s ((attempt o >> (λ v. (ok tt, hold r v))) t).1)
  obtained none r s t u = (
    λ x h. record { same_processes = u.same_processes; now_held = ap (λ l. r ∷ l) u.same_held },
    λ h. absurd (ground arith),
  )
  obtained (some e) r s t u = (λ x h. absurd (ground arith), λ h. u)

  pub obtain-Obtains : (c : HostCall) (r : Resource) → Obtains (obtain host c r) (λ _. r)
  unfolding ask
  obtain-Obtains c r = record {
    on_ok = λ s a h.
        (obtained (host.answers s.calls c) r s (record s { calls = c ∷ s.calls })
            (record { same_processes = refl; same_held = refl })).0
          a h;
    or_clean = λ s h.
        (obtained (host.answers s.calls c) r s (record s { calls = c ∷ s.calls })
            (record { same_processes = refl; same_held = refl })).1
          h;
  }
