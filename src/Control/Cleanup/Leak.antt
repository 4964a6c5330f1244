-- ===== src/Control/Cleanup/Leak.antt =====
-- What `newShim` of firecracker-control/local.go holds when it ends, whatever the system answers.
use abschlussarbeit.Common.{
  ℕ, String, ◌≡◌, refl, ap, ◌∙◌, Option-cases, inl, inr, none, some, List, [], ◌∷◌, Error, Result,
  ok, err,
}
use abschlussarbeit.Common.Act.{Act, pure, wrapping, continue, ◌>>=◌, ◌>>◌}
use abschlussarbeit.Common.Bytes.{Bytes}
use abschlussarbeit.Control.{
  HostCall, start, set_oom_score, socket_file, Resource, process, Local, Host, ask, shim_dir,
  start_process, new_shim,
}
use abschlussarbeit.Control.Cleanup.{Unmoved, Holds}
use abschlussarbeit.Control.Cleanup.Resources.{ask-Keeps}
use abschlussarbeit.Control.Cleanup.Shim.{shim_dir-Keeps}

module _ (host : Host) where
  -- How `newShim` can end. The last call of the first and the third is the one for the score.
  pub data Outcome (s : Local) : Result ℕ → Local → Type 0 where
    started :
        (n : ℕ) (t : Local) (calls : List HostCall)
        → Holds (process n) s t
        → t.calls ≡ set_oom_score n ∷ calls
        → host.answers calls (set_oom_score n) ≡ none
        → Outcome s (ok n) t
    refused : (e : Error) (t : Local) → Unmoved s t → Outcome s (err e) t
    leaked :
        (e : Error) (n : ℕ) (t : Local) (calls : List HostCall)
        → Holds (process n) s t
        → t.calls ≡ set_oom_score n ∷ calls
        → host.answers calls (set_oom_score n) ≡ some e
        → Outcome s (err e) t

  Holds-after : {r : Resource} {s t u : Local} → Unmoved s t → Holds r t u → Holds r s u
  Holds-after {r} u h = record {
    same_processes = h.same_processes ∙ u.same_processes;
    now_held = h.now_held ∙ ap (λ l. r ∷ l) u.same_held;
  }

  Outcome-after :
      {s t : Local} (q : Result ℕ) (v : Local) → Unmoved s t → Outcome t q v → Outcome s q v
  Outcome-after _ _ u (started n v calls h l a) = started n v calls (Holds-after u h) l a
  Outcome-after _ _ u (refused e v k) = refused e v (record {
    same_processes = k.same_processes ∙ u.same_processes;
    same_held = k.same_held ∙ u.same_held;
  })
  Outcome-after _ _ u (leaked e n v calls h l a) = leaked e n v calls (Holds-after u h) l a

  -- Behind a step that keeps what is held.
  continue-Outcome :
      {A : Type 0} (r : Result A) (g : A → Act Local ℕ) (s t : Local)
      → Unmoved s t
      → ((a : A) → Outcome t (g a t).0 (g a t).1)
      → Outcome s (continue r g t).0 (continue r g t).1
  continue-Outcome (ok a) g s t u o = Outcome-after (g a t).0 (g a t).1 u (o a)
  continue-Outcome (err e) g s t u o = refused e t u

  start_scored : Bytes → List String → Act Local ℕ
  start_scored dir args = start_process host dir args >>= λ n. ask host (set_oom_score n) >> pure n

  start_scored-Outcome :
      (dir : Bytes) (args : List String) (s : Local)
      → Outcome s (start_scored dir args s).0 (start_scored dir args s).1
  unfolding start_scored start_process ask
  start_scored-Outcome dir args s =
      let n = host.pid s.calls in
      elim (Option-cases (host.answers s.calls (start dir args))) [
        | inr (e, q) ↦ rw q (refused _ _ (record { same_processes = refl; same_held = refl }))
        | inl q ↦ elim (Option-cases (host.answers (start dir args ∷ s.calls) (set_oom_score n))) [
          | inl p ↦
              rw (q, p)
                (started n _ (start dir args ∷ s.calls)
                  (record { same_processes = refl; now_held = refl }) refl p)
          | inr (e, p) ↦
              rw (q, p)
                (leaked e n _ (start dir args ∷ s.calls)
                  (record { same_processes = refl; now_held = refl }) refl p)
        ]
      ]

  -- Whatever the system answers, `newShim` ends in one of three ways: it returns the number of a
  -- process that it started and that is held, once its out-of-memory score was set; it returns an error
  -- and holds nothing new; or it returns the error with which the setting of the score of the process
  -- that it started was answered, no number, and the process is held.
  pub new_shim_outcome :
      (base : Bytes) (ns vm_id containerd : String) (shim_socket fc_socket : Bytes) (s : Local)
      → let (r, t) = new_shim host base ns vm_id containerd shim_socket fc_socket s in Outcome s r t
  unfolding new_shim start_scored
  new_shim_outcome base ns vm_id containerd shim_socket fc_socket s =
      let args = "-namespace" ∷ ns ∷ "-address" ∷ containerd ∷ [] in
      let own = wrapping "failed to get shim socket fd" (ask host (socket_file shim_socket)) in
      let fc =
        wrapping "failed to get shim fccontrol socket fd" (ask host (socket_file fc_socket)) in
      let d = wrapping "failed to create shim dir" (shim_dir host base ns vm_id) s in
      continue-Outcome d.0 (λ dir. own >> (fc >> start_scored dir args)) s d.1
        (shim_dir-Keeps host base ns vm_id s)
        λ dir.
          continue-Outcome (own d.1).0 (λ _. fc >> start_scored dir args) d.1 (own d.1).1
            (ask-Keeps host (socket_file shim_socket) d.1)
            λ _.
              continue-Outcome (fc (own d.1).1).0 (λ _. start_scored dir args) (own d.1).1
                (fc (own d.1).1).1 (ask-Keeps host (socket_file fc_socket) (own d.1).1)
                λ _. start_scored-Outcome dir args (fc (own d.1).1).1
