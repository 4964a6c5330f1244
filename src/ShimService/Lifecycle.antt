-- ===== src/ShimService/Lifecycle.antt =====
-- runtime/service.go: what `CreateVM`, `Shutdown`, `StopVM` and the watcher of the VM's exit do to
-- the shim, whichever come first and however often.
use abschlussarbeit.Common.{
  ℕ, ◌+◌, ◌≡◌, refl, ap, ◌∙◌, String, Bool, true, false, Option, some, List, [], ◌∷◌, arith, Error,
  status, already_exists, Result, ok, err, is_err, if◌then◌else◌, Bool-cases, Option-cases, inl,
  inr, ◌⊎◌,
}
use abschlussarbeit.Common.Act.{Act, modify, wrapping, Leaves, bind-Leaves, ◌>>◌}
use abschlussarbeit.StubDrive.Create.{StubDrive}
use abschlussarbeit.Common.Assoc.{is_empty}
use abschlussarbeit.TaskManager.{TaskManager, shutdown_if_empty, new_proc}
use abschlussarbeit.TaskManager.View.{new_proc_refused}
use abschlussarbeit.ShimService.{
  has_machine, shut_down, ShimCall, find_dir, start_steps, ask_all, mount_one, mount_drives,
  after_create, when_empty, act, nothing_to_kill, shutdown_actions, agent_shutdown, jailer_stop,
  jailer_stop_timeout, machine_wait, Service, World, ask, create_vm_once, create_vm, cleanup,
  shutdown, shutdown_request, shutdown_loop, cause, is_deadline, default_shutdown_timeout,
}

module _ (w : World) where
  abbrev flags : Service → Bool × Bool
  flags s = (s.start_once, s.vm_ready)

  ask_all-Leaves : (steps : List (String × ShimCall)) → Leaves flags (ask_all w steps)
  unfolding ask_all ask
  ask_all-Leaves [] = λ s. refl
  ask_all-Leaves ((msg, c) ∷ rest) =
      bind-Leaves flags (wrapping msg (ask w c)) (λ _. ask_all w rest) (λ s. refl)
        (λ _. ask_all-Leaves rest)

  mount_drives-Leaves : (ds : List StubDrive) → Leaves flags (mount_drives w ds)
  unfolding mount_drives
  mount_drives-Leaves [] = λ s. refl
  mount_drives-Leaves (d ∷ ds) =
      bind-Leaves flags (wrapping "failed to patch drive mount stub" (mount_one w d))
        (λ _. mount_drives w ds) (λ s. refl) (λ _. mount_drives-Leaves ds)

  create_vm_once-Leaves : (exit_after : Bool) → Leaves flags (create_vm_once w exit_after)
  unfolding create_vm_once ask
  create_vm_once-Leaves exit_after s =
      let flag : Act Service (Unit {0}) =
        modify (λ t. record t { connected = true; exit_after_all_tasks_deleted = exit_after }) in
      let mounts : Act Service (Unit {0}) = mount_drives w s.drive_mount_stubs in
      bind-Leaves flags (ask w find_dir) (λ _. ask_all w start_steps >> (flag >> mounts))
        (λ t. refl)
        (λ _.
          bind-Leaves flags (ask_all w start_steps) (λ _. flag >> mounts)
            (ask_all-Leaves start_steps)
            λ _.
              bind-Leaves flags flag (λ _. mounts) (λ t. refl)
                λ _. mount_drives-Leaves s.drive_mount_stubs)
        s

  abbrev pub Outcome : Result (Unit {0}) × Service → Type 0
  Outcome (ok tt, t) = (t.vm_ready ≡ true) × (t.monitored ≡ true)
  Outcome (err e, t) = (t.vm_ready ≡ false) × (t.cancelled ≡ true)

  outcome :
      (x : Result (Unit {0}) × Service)
      → x.1.start_once ≡ true
      → x.1.vm_ready ≡ false
      → Outcome (after_create w x) × ((after_create w x).1.start_once ≡ true)
  unfolding ask
  outcome (ok tt, t) a b = ((refl, refl), a)
  outcome (err e, t) a b = elim (Bool-cases (is_deadline (cause e))) [
    | inl q ↦ rw q ((b, refl), a)
    | inr q ↦ rw q ((b, refl), a)
  ]

  again_refused :
      (again : Bool) (t : Service)
      → t.start_once ≡ true
      → create_vm w again t
        ≡ (err (status already_exists "shim cannot create VM more than once"), t)
  unfolding create_vm
  again_refused again t h = rw h refl

  -- Whatever the answers, on a shim that has not started a VM: `CreateVM` either ends well, and then
  -- the VM is ready and its exit is watched, or fails, and then the shim's context is cancelled and
  -- the VM is not ready. Either way every later `CreateVM` gets the status `AlreadyExists` and
  -- changes nothing.
  pub create_vm-once :
      (exit_after again : Bool) (s : Service)
      → s.start_once ≡ false
      → s.vm_ready ≡ false
      → Outcome (create_vm w exit_after s)
        × (create_vm w again (create_vm w exit_after s).1 ≡ (
          err (status already_exists "shim cannot create VM more than once"),
          (create_vm w exit_after s).1,
        ))
  create_vm-once exit_after again s h r =
      let kept = create_vm_once-Leaves exit_after (record s { start_once = true }) in
      let x = create_vm_once w exit_after (record s { start_once = true }) in
      let done = outcome x (ap (λ p. p.0) kept) (ap (λ p. p.1) kept ∙ r) in
      let first : create_vm w exit_after s ≡ after_create w x = unfold create_vm in rw h refl in
      rw first (done.0, again_refused again (after_create w x).1 done.1)

  -- However often, and by whichever method, the resources are cleaned up once they have been: nothing
  -- is called again, and the error is that of the first time.
  pub cleanup-once : (s : Service) → cleanup w (cleanup w s).1 ≡ ((cleanup w s).0, (cleanup w s).1)
  unfolding cleanup
  cleanup-once s = elim (Option-cases s.cleanup_once) [ inl q ↦ rw q refl | inr (e, q) ↦ rw q refl ]

  -- When `now` is not set, and the VM is not to end with its tasks or some task is left, `Shutdown`
  -- succeeds and changes nothing.
  pub shutdown_request-ignored :
      (s : Service)
      → ((s.exit_after_all_tasks_deleted ≡ false) ⊎ (is_empty s.tasks.tasks ≡ false))
      → shutdown_request w false s ≡ (ok tt, s)
  unfolding shutdown_request shutdown_if_empty
  shutdown_request-ignored s (inl h) = rw h refl
  shutdown_request-ignored s (inr h) = elim (Bool-cases s.exit_after_all_tasks_deleted) [
    | inl q ↦ rw (q, h) refl
    | inr q ↦ rw q refl
  ]

  cleaned : (s : Service) → (e : Option Error) × ((cleanup w s).1.cleanup_once ≡ some e)
  unfolding cleanup
  cleaned s = elim (Option-cases s.cleanup_once) [
    | inl q ↦ rw q (_, refl)
    | inr (e, q) ↦ rw q (e, refl)
  ]

  cleanup-tasks : (s : Service) → (cleanup w s).1.tasks ≡ s.tasks
  unfolding cleanup ask
  cleanup-tasks s = elim (Option-cases s.cleanup_once) [
    | inl q ↦ rw q refl
    | inr (e, q) ↦ rw q refl
  ]

  act-tasks : (c : ShimCall) (timeout : ℕ) (s : Service) → (act w c timeout s).tasks ≡ s.tasks
  unfolding ask
  act-tasks c timeout s = elim (Option-cases (w.answers s.calls c)) [
    | inl q ↦ rw (q, act) refl
    | inr (e, q) ↦ rw (q, act) refl
  ]

  shutdown_actions-tasks :
      (n : ℕ) (actions : List (ShimCall × ℕ)) (s : Service)
      → (shutdown_actions w n actions s).tasks ≡ s.tasks
  unfolding shutdown_actions
  shutdown_actions-tasks n [] s = refl
  shutdown_actions-tasks n ((c, timeout) ∷ rest) s =
      elim (Bool-cases (nothing_to_kill w (w.pid n))) [
        | inl q ↦ rw q refl
        | inr q ↦
            rw q (shutdown_actions-tasks (n + 1) rest (act w c timeout s) ∙ act-tasks c timeout s)
      ]

  shut_down-tasks : (timeout : ℕ) (s : Service) → (shut_down w timeout s).1.tasks ≡ s.tasks
  unfolding shutdown_loop ask
  shut_down-tasks timeout s =
      cleanup-tasks (ask w machine_wait (shutdown_loop w timeout s)).1
      ∙ shutdown_actions-tasks 0
          ((agent_shutdown, timeout) ∷ (jailer_stop, jailer_stop_timeout) ∷ []) s

  shutdown-lives :
      (timeout : ℕ) (s : Service)
      → has_machine w s.calls ≡ true
      → s.connected ≡ true
      → shutdown w timeout s ≡ shut_down w timeout s
  unfolding shutdown
  shutdown-lives timeout s h c = rw (h, c) refl

  goes_on :
      (exits : Bool) (x : Bool × TaskManager) (m : TaskManager) (s : Service)
      → exits ≡ true
      → x ≡ (true, m)
      → (if exits then when_empty w x s else (ok tt, s))
        ≡ shutdown w default_shutdown_timeout (record s { tasks = m })
  goes_on exits x m s h k = rw (h, k) refl

  -- When the VM was started, no task is left and the VM is to end with its tasks, `Shutdown` without `now` stops the VM
  -- for good: afterwards the resources are cleaned up and no task can be created.
  pub shutdown_request-stops :
      (s : Service) (task_id exec_id : String)
      → s.exit_after_all_tasks_deleted ≡ true
      → is_empty s.tasks.tasks ≡ true
      → has_machine w s.calls ≡ true
      → s.connected ≡ true
      → let t = (shutdown_request w false s).1 in
        ((e : Option Error) × (t.cleanup_once ≡ some e))
        × (is_err (new_proc task_id exec_id t.tasks).0 ≡ true)
  shutdown_request-stops s task_id exec_id h e machine client =
      let stopped : TaskManager = record s.tasks { is_shutdown = true } in
      let start : Service = record s { tasks = stopped } in
      let kept = shut_down-tasks default_shutdown_timeout start in
      let asked : shutdown_request w false s ≡ shutdown w default_shutdown_timeout start =
        unfold shutdown_request in
        goes_on s.exit_after_all_tasks_deleted (shutdown_if_empty s.tasks) stopped s h
          (unfold shutdown_if_empty in ground arith) in
      rw (asked, shutdown-lives default_shutdown_timeout start machine client)
        (
          cleaned (ask w machine_wait (shutdown_loop w default_shutdown_timeout start)).1,
          (new_proc_refused task_id exec_id (shut_down w default_shutdown_timeout start).1.tasks
              (rw kept refl)).0,
        )
