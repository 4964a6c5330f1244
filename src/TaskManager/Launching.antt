-- ===== src/TaskManager/Launching.antt =====
-- `CreateTask`, `ExecProcess` and `DeleteProcess` as a whole, when no other call interleaves.
use abschlussarbeit.Common.{
  String, ◌≡◌, refl, ◌∙◌, true, false, none, some, ◌∷◌, ◌==◌, ◌&&◌, eq_iff, arith, Result, ok, err,
  is_err, Bool-cases, Option-cases, not, ◌||◌, inl, inr, if◌then◌else◌,
}
use abschlussarbeit.TaskManager.{
  VmProc, TaskManager, is_some, Launch, add_proc, abandon, cancel, monitor, launch, exec_process,
  create_task, delete_process,
}
use abschlussarbeit.TaskManager.View.{
  proc_at, may_add, fresh, proc_at-add_proc, new_proc_lem, new_proc_refused, delete_proc_lem,
  delete_proc_refused, delete_proc_keeps,
}

-- The deferred function takes out whatever process stands under its IDs.
abandon_lem :
    (p q : VmProc) (t e : String) (m : TaskManager)
    → proc_at t e m ≡ some q
    → ((u f : String)
        → proc_at u f (abandon p t e m) ≡ (if t == u && e == f then none else proc_at u f m))
unfolding abandon cancel proc_at
abandon_lem p q t e m h = (delete_proc_lem t e (cancel p m) {p = q} h).1

abandon_keeps :
    (p : VmProc) (t e : String) (m : TaskManager)
    → ((abandon p t e m).is_shutdown ≡ m.is_shutdown)
      × ((abandon p t e m).cancelled ≡ p.ctx ∷ m.cancelled)
      × ((abandon p t e m).monitored ≡ m.monitored)
unfolding abandon cancel
abandon_keeps p t e m = let k = delete_proc_keeps t e (cancel p m) in (k.0, k.2, k.3)

-- Adding a process and abandoning it shows nothing but the cancelled context.
abandon-add_proc :
    (t e : String) (m : TaskManager)
    → proc_at t e m ≡ none
    → (u f : String) → proc_at u f (abandon (fresh t e m) t e (add_proc t e m).1) ≡ proc_at u f m
abandon-add_proc t e m h u f =
    rw (abandon_lem (fresh t e m) (fresh t e m) t e (add_proc t e m).1 (here t e m) u f)
      (ground (arith, proc_at-add_proc t e u f m, eq_iff t u, eq_iff e f))
  where
    here : (t e : String) (m : TaskManager) → proc_at t e (add_proc t e m).1 ≡ some (fresh t e m)
    here t e m = ground (arith, proc_at-add_proc t e t e m, eq_iff t t, eq_iff e e)

module _ {A : Type 0} where
  -- The result of a launch whose process could be added: the first error of the two answers.
  abbrev pub answer : Launch A → Result A
  answer l = elim l.service [
    | ok a ↦ elim l.io_init [ none ↦ ok a | some e ↦ err e ]
    | err e ↦ err e
  ]

  -- The state after the process was added and the launch ended.
  pub exec_process_added :
      (t e : String) (l : Launch A) (m : TaskManager)
      → may_add t e m ≡ true
      → exec_process t e l m ≡ (
        answer l,
        if is_err (answer l)
            then abandon (fresh t e m) t e (add_proc t e m).1
            else monitor (fresh t e m) (add_proc t e m).1,
      )
  unfolding exec_process launch
  exec_process_added t e l m h = rw (new_proc_lem t e m h) (ground arith)

  -- An `ExecProcess` that fails, at whatever point, leaves every process where it was, adds none,
  -- and starts no watcher; the context of what it had added, and no other, is cancelled.
  pub exec_process_rolls_back :
      (t e : String) (l : Launch A) (m : TaskManager)
      → is_err (exec_process t e l m).0 ≡ true
      → ((u f : String) → proc_at u f (exec_process t e l m).1 ≡ proc_at u f m)
        × ((exec_process t e l m).1.monitored ≡ m.monitored)
        × ((exec_process t e l m).1.is_shutdown ≡ m.is_shutdown)
        × ((exec_process t e l m).1.cancelled
            ≡ (if may_add t e m then m.next_ctx ∷ m.cancelled else m.cancelled))
  exec_process_rolls_back t e l m h = elim (Bool-cases (may_add t e m)) [
    | inl a ↦
        let bad : is_err (answer l) ≡ true = rw (exec_process_added t e l m a) at h in
        let k = abandon_keeps (fresh t e m) t e (add_proc t e m).1 in
        rw (exec_process_added t e l m a) (
          rw (bad, a)
            (
              abandon-add_proc t e m (ground arith),
              k.2 ∙ (unfold add_proc in refl),
              k.0 ∙ (unfold add_proc in refl),
              k.1 ∙ (unfold add_proc in refl),
            ))
    | inr a ↦
        let same : (exec_process t e l m).1 ≡ m =
          unfold exec_process in ground (arith, new_proc_refused t e m a) in
        rw (same, a) (λ u f. refl, refl, refl, refl)
  ]

  -- An `ExecProcess` that succeeds has added exactly its own process and watches it.
  pub exec_process_lands :
      (t e : String) (l : Launch A) (m : TaskManager)
      → is_err (exec_process t e l m).0 ≡ false
      → (may_add t e m ≡ true)
        × (is_err (answer l) ≡ false)
        × ((u f : String)
            → proc_at u f (exec_process t e l m).1
              ≡ (if t == u && e == f then some (fresh t e m) else proc_at u f m))
        × ((exec_process t e l m).1.monitored ≡ fresh t e m ∷ m.monitored)
        × ((exec_process t e l m).1.cancelled ≡ m.cancelled)
  exec_process_lands t e l m h = elim (Bool-cases (may_add t e m)) [
    | inl a ↦
        let good : is_err (answer l) ≡ false = rw (exec_process_added t e l m a) at h in
        rw (exec_process_added t e l m a) (
          rw (good, a)
            (
              refl,
              refl,
              λ u f. unfold monitor proc_at in proc_at-add_proc t e u f m,
              unfold monitor add_proc in refl,
              unfold monitor add_proc in refl,
            ))
    | inr a ↦ absurd (unfold exec_process in ground (arith, new_proc_refused t e m a))
  ]

  -- The first process of a task goes the same way, under the empty exec ID.
  pub create_task-eq-exec_process :
      (t : String) (l : Launch A) (m : TaskManager) → create_task t l m ≡ exec_process t "" l m
  unfolding create_task exec_process
  create_task-eq-exec_process t l m = refl

  -- `DeleteProcess` fails exactly when the service does or the process is not there. It takes out
  -- its process, and no other, exactly when the service did not fail.
  pub delete_process_lem :
      (t e : String) (r : Result A) (m : TaskManager)
      → (is_err (delete_process t e r m).0 ≡ (is_err r || not (is_some (proc_at t e m))))
        × ((u f : String)
            → proc_at u f (delete_process t e r m).1
              ≡ (if not (is_err r) && (t == u && e == f) then none else proc_at u f m))
  unfolding delete_process
  delete_process_lem t e (err x) m = (refl, λ u f. refl)
  delete_process_lem t e (ok a) m = elim (Option-cases (proc_at t e m)) [
    | inl h ↦
        let k = delete_proc_refused t e m h in
        (ground arith, λ u f. ground (arith, eq_iff t u, eq_iff e f))
    | inr (p, h) ↦
        let k = delete_proc_lem t e m {p = p} h in (ground arith, λ u f. ground (arith, k.1 u f))
  ]
