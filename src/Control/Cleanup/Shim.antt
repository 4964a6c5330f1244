-- ===== src/Control/Cleanup/Shim.antt =====
-- What `newShim` of firecracker-control/local.go holds when it ends, where the out-of-memory score can
-- be set.
use abschlussarbeit.Common.{
  ℕ, String, ◌≡◌, refl, ap, ap₂, ◌∙◌, Option-cases, Result-cases, inl, inr, true, Option, none,
  some, List, [], ◌∷◌, arith, Error, Result, ok, err, is_err,
}
use abschlussarbeit.Common.Act.{Act, pure, attempt, modify, wrapping, continue, ◌>>=◌, ◌>>◌}
use abschlussarbeit.Common.Bytes.{Bytes}
use abschlussarbeit.Control.{
  HostCall, start, set_oom_score, socket_file, process, Local, Host, ask, hold, shim_dir,
  start_process, new_shim,
}
use abschlussarbeit.Control.Cleanup.{
  Unmoved, here, Holds, Keeps, Obtains, bind-Obtains, wrapping-Keeps,
}
use abschlussarbeit.Control.Cleanup.Resources.{ask-Keeps}

abbrev begin : Option Error → ℕ → Act Local ℕ
begin o number = do
  wrapping "failed to start shim child process" (attempt o)
  modify (hold (process number))
  pure number

begin_ok :
    (o : Option Error) (number : ℕ) (s t : Local) (a : ℕ)
    → Unmoved s t
    → (begin o number t).0 ≡ ok a
    → Holds (process a) s (begin o number t).1
begin_ok none number s t a u h =
    let eq : number ≡ a = ground arith in
    record {
      same_processes = u.same_processes;
      now_held = ap₂ (λ n l. process n ∷ l) eq u.same_held;
    }
begin_ok (some e) number s t a u h = absurd (ground arith)

begin_err :
    (o : Option Error) (number : ℕ) (s t : Local)
    → Unmoved s t
    → is_err (begin o number t).0 ≡ true
    → Unmoved s (begin o number t).1
begin_err none number s t u h = absurd (ground arith)
begin_err (some e) number s t u h = u

module _ (host : Host) where
  shim_dir-state :
      (base : Bytes) (ns vm_id : String) (s : Local) → (shim_dir host base ns vm_id s).1 ≡ s
  unfolding shim_dir
  shim_dir-state base ns vm_id s = elim (Option-cases (host.validate ns)) [
    | inr (e, q) ↦ rw q refl
    | inl q ↦ elim (Option-cases (host.validate vm_id)) [
      | inr (e, r) ↦ rw (q, r) refl
      | inl r ↦ elim (Result-cases (host.eval_symlinks base)) [
        | inl (a, t) ↦ rw (q, r, t) refl
        | inr (e, t) ↦ rw (q, r, t) refl
      ]
    ]
  ]

  pub shim_dir-Keeps : (base : Bytes) (ns vm_id : String) → Keeps (shim_dir host base ns vm_id)
  shim_dir-Keeps base ns vm_id s = rw (shim_dir-state base ns vm_id s) (here s)

  start_process-Obtains :
      (dir : Bytes) (args : List String) → Obtains (start_process host dir args) process
  unfolding start_process ask
  start_process-Obtains dir args = record {
    on_ok = λ s a h.
        begin_ok (host.answers s.calls (start dir args)) (host.pid s.calls) s
          (record s { calls = start dir args ∷ s.calls }) a
          (record { same_processes = refl; same_held = refl }) h;
    or_clean = λ s h.
        begin_err (host.answers s.calls (start dir args)) (host.pid s.calls) s
          (record s { calls = start dir args ∷ s.calls })
          (record { same_processes = refl; same_held = refl }) h;
  }

  module _
      (scored : (calls : List HostCall) (number : ℕ)
        → host.answers calls (set_oom_score number) ≡ none) where
    scored_ok :
        (number : ℕ) (s : Local)
        → (ask host (set_oom_score number) >> pure number) s
          ≡ (ok number, record s { calls = set_oom_score number ∷ s.calls })
    unfolding ask
    scored_ok number s = rw (scored s.calls number) refl

    started :
        (q : Result ℕ) (s t : Local)
        → ((a : ℕ) → q ≡ ok a → Holds (process a) s t)
        → (is_err q ≡ true → Unmoved s t)
        → ((b : ℕ)
            → (continue q (λ n. ask host (set_oom_score n) >> pure n) t).0 ≡ ok b
            → Holds (process b) s (continue q (λ n. ask host (set_oom_score n) >> pure n) t).1)
          × (is_err (continue q (λ n. ask host (set_oom_score n) >> pure n) t).0 ≡ true
              → Unmoved s (continue q (λ n. ask host (set_oom_score n) >> pure n) t).1)
    started (err e) s t o u = (λ b h. absurd (ground arith), λ h. u refl)
    started (ok n) s t o u = rw (scored_ok n t) (
      λ b h.
          let eq : n ≡ b = ground arith in
          let held = o n refl in
          record {
            same_processes = held.same_processes;
            now_held = held.now_held ∙ ap (λ m. process m ∷ s.held) eq;
          },
      λ h. absurd (ground arith),
    )

    launched-Obtains :
        (dir : Bytes) (args : List String)
        → Obtains
            (start_process host dir args >>= λ n. ask host (set_oom_score n) >> pure n)
            process
    launched-Obtains dir args =
        let o = start_process-Obtains dir args in
        let m = start_process host dir args in
        record {
          on_ok = λ s. (started (m s).0 s (m s).1 (o.on_ok s) (o.or_clean s)).0;
          or_clean = λ s. (started (m s).0 s (m s).1 (o.on_ok s) (o.or_clean s)).1;
        }

    abbrev file_msgs : String × String
    file_msgs = ("failed to get shim socket fd", "failed to get shim fccontrol socket fd")

    pub new_shim-Obtains :
        (base : Bytes) (ns vm_id containerd : String) (shim_socket fc_socket : Bytes)
        → Obtains (new_shim host base ns vm_id containerd shim_socket fc_socket) process
    unfolding new_shim
    new_shim-Obtains base ns vm_id containerd shim_socket fc_socket =
        let args = "-namespace" ∷ ns ∷ "-address" ∷ containerd ∷ [] in
        let last : Bytes → Act Local ℕ =
          λ dir. start_process host dir args >>= λ n. ask host (set_oom_score n) >> pure n in
        let fc = wrapping file_msgs.1 (ask host (socket_file fc_socket)) in
        let own = wrapping file_msgs.0 (ask host (socket_file shim_socket)) in
        let dir_ = wrapping "failed to create shim dir" (shim_dir host base ns vm_id) in
        bind-Obtains dir_ (λ dir. own >> (fc >> last dir)) process
          (wrapping-Keeps "failed to create shim dir" (shim_dir host base ns vm_id)
            (shim_dir-Keeps base ns vm_id))
          λ dir.
            bind-Obtains own (λ _. fc >> last dir) process
              (wrapping-Keeps file_msgs.0 (ask host (socket_file shim_socket))
                (ask-Keeps host (socket_file shim_socket)))
              λ _.
                bind-Obtains fc (λ _. last dir) process
                  (wrapping-Keeps file_msgs.1 (ask host (socket_file fc_socket))
                    (ask-Keeps host (socket_file fc_socket)))
                  λ _. launched-Obtains dir args
