-- ===== src/TaskManager/Invariant.antt =====
-- What holds of a task manager between two of its operations, in whatever order they interleave.
-- Each operation of `Op` is one critical section of the mutex, or one step of a goroutine: the
-- methods are chains of these, and the chains of several calls may interleave.
use abschlussarbeit.Common.{
  ◌<◌, String, ◌≡◌, refl, true, false, some, List, [], ◌∷◌, eq_iff, arith, is_err, Bool-cases, inl,
  inr,
}
use abschlussarbeit.Common.Assoc.{
  Assoc, lookup, insert, remove, is_empty, lookup-insert, lookup-remove, lookup-is_empty,
  is_empty-insert,
}
use abschlussarbeit.TaskManager.{
  VmProc, TaskManager, new_task_manager, or_empty, add_proc, drop_proc, new_proc, delete_proc,
  shutdown_if_empty, cancel, abandon, monitor, monitor_exit, Exit,
}
use abschlussarbeit.TaskManager.View.{
  proc_at, may_add, fresh, proc_at-add_proc, proc_at-drop_proc, delete_proc_cases, new_proc_lem,
  new_proc_refused,
}

-- The critical sections.
pub data Op : Type 0 where
  begin : String → String → Op
  give_up : VmProc → String → String → Op
  watch : VmProc → Op
  delete : String → String → Op
  try_shutdown : Op
  exit : VmProc → Exit → Op

unfoldable pub apply : Op → TaskManager → TaskManager
apply (begin t e) m = (new_proc t e m).1
apply (give_up p t e) m = abandon p t e m
apply (watch p) m = monitor p m
apply (delete t e) m = (delete_proc t e m).1
apply try_shutdown m = (shutdown_if_empty m).1
apply (exit p x) m = monitor_exit p x m

unfoldable pub run : List Op → TaskManager → TaskManager
run [] m = m
run (o ∷ os) m = run os (apply o m)

-- No task is kept without a process, a stopped manager has no task, and a process stands under its
-- own IDs, with a context that was made before.
pub record IsValid (m : TaskManager) : Type 0 where
  pub inhabited :
      (t : String) (execs : Assoc VmProc) → lookup t m.tasks ≡ some execs → is_empty execs ≡ false
  pub stopped_empty : m.is_shutdown ≡ true → is_empty m.tasks ≡ true
  pub keyed :
      (t e : String) (p : VmProc)
      → proc_at t e m ≡ some p
      → (p.task_id ≡ t) × (p.exec_id ≡ e) × (p.ctx < m.next_ctx)

new_task_manager-IsValid : IsValid new_task_manager
unfolding new_task_manager proc_at lookup
new_task_manager-IsValid = record {
  inhabited = λ t execs h. cc;
  stopped_empty = λ h. cc;
  keyed = λ t e p h. cc;
}

module _ (t e : String) {m : TaskManager} (v : IsValid m) where
  add_proc-IsValid : may_add t e m ≡ true → IsValid (add_proc t e m).1
  add_proc-IsValid h = record {
    inhabited = λ u x k.
        unfold add_proc in
        ground (
          arith,
          eq_iff t u,
          lookup-insert t u (insert e (fresh t e m) (or_empty (lookup t m.tasks))) m.tasks,
          is_empty-insert e (fresh t e m) (or_empty (lookup t m.tasks)),
          v.inhabited u x,
        );
    stopped_empty = λ k. unfold add_proc in ground arith;
    keyed = λ u f p k.
        unfold add_proc in
        ground (arith, eq_iff t u, eq_iff e f, proc_at-add_proc t e u f m, v.keyed u f p);
  }

  new_proc-IsValid : IsValid (new_proc t e m).1
  new_proc-IsValid = elim (Bool-cases (may_add t e m)) [
    | inl h ↦ rw (new_proc_lem t e m h) (add_proc-IsValid h)
    | inr h ↦ rw (new_proc_refused t e m h).1 v
  ]

  module _ {execs : Assoc VmProc} (at : lookup t m.tasks ≡ some execs) where
    drop_proc-IsValid : IsValid (record m { tasks = drop_proc t e execs m.tasks })
    drop_proc-IsValid = record {
      inhabited = λ u x k.
          unfold drop_proc in
          ground (
            arith,
            eq_iff t u,
            lookup-remove t u m.tasks,
            lookup-insert t u (remove e execs) m.tasks,
            v.inhabited u x,
          );
      stopped_empty = λ k. ground (arith, v.stopped_empty, lookup-is_empty t m.tasks);
      keyed = λ u f p k.
          unfold proc_at in
          ground (arith, proc_at-drop_proc t e u f execs m.tasks at, v.keyed u f p);
    }

  delete_proc-IsValid : IsValid (delete_proc t e m).1
  delete_proc-IsValid =
      delete_proc_cases IsValid t e m v (λ execs p at _. drop_proc-IsValid {execs = execs} at)

-- Fields that the invariant does not read may change.
IsValid-of_same :
    {m n : TaskManager}
    → n.tasks ≡ m.tasks
    → n.is_shutdown ≡ m.is_shutdown
    → n.next_ctx ≡ m.next_ctx
    → IsValid m
    → IsValid n
unfolding proc_at
IsValid-of_same {m} {n} p q r v = record {
  inhabited = λ t x h. ground (arith, v.inhabited t x);
  stopped_empty = λ h. ground (arith, v.stopped_empty);
  keyed = λ t e x h. ground (arith, v.keyed t e x);
}

shutdown_if_empty-IsValid : {m : TaskManager} → IsValid m → IsValid (shutdown_if_empty m).1
unfolding shutdown_if_empty proc_at
shutdown_if_empty-IsValid {m} v = elim (Bool-cases (is_empty m.tasks)) [
  | inl h ↦ rw h (record { inhabited = v.inhabited; stopped_empty = λ _. h; keyed = v.keyed })
  | inr h ↦ rw h v
]

-- Every critical section keeps the invariant.
pub apply-IsValid : (o : Op) {m : TaskManager} → IsValid m → IsValid (apply o m)
unfolding apply abandon cancel monitor monitor_exit
apply-IsValid (begin t e) v = new_proc-IsValid t e v
apply-IsValid (give_up p t e) v = delete_proc-IsValid t e (IsValid-of_same refl refl refl v)
apply-IsValid (watch p) v = IsValid-of_same refl refl refl v
apply-IsValid (delete t e) v = delete_proc-IsValid t e v
apply-IsValid try_shutdown v = shutdown_if_empty-IsValid v
apply-IsValid (exit p x) v = IsValid-of_same refl refl refl v

run_from-IsValid : (os : List Op) {m : TaskManager} → IsValid m → IsValid (run os m)
unfolding run
run_from-IsValid [] v = v
run_from-IsValid (o ∷ os) v = run_from-IsValid os (apply-IsValid o v)

-- In whatever order the critical sections of concurrent calls run, starting from a new manager,
-- the invariant holds: no task without a process, no task after a shutdown, every process under
-- its own IDs and with a context made before.
pub run-IsValid : (os : List Op) → IsValid (run os new_task_manager)
run-IsValid os = run_from-IsValid os new_task_manager-IsValid

-- One critical section of a stopped manager leaves it stopped.
apply_stopped : (o : Op) (m : TaskManager) → m.is_shutdown ≡ true → (apply o m).is_shutdown ≡ true
unfolding apply abandon cancel monitor monitor_exit new_proc delete_proc shutdown_if_empty
apply_stopped (begin t e) m h = ground arith
apply_stopped (give_up p t e) m h = ground arith
apply_stopped (watch p) m h = h
apply_stopped (delete t e) m h = ground arith
apply_stopped try_shutdown m h = ground arith
apply_stopped (exit p x) m h = h

run_stopped :
    (os : List Op) (m : TaskManager) → m.is_shutdown ≡ true → (run os m).is_shutdown ≡ true
unfolding run
run_stopped [] m h = h
run_stopped (o ∷ os) m h = run_stopped os (apply o m) (apply_stopped o m h)

-- Once `ShutdownIfEmpty` has returned true on a manager that satisfies the invariant, whatever
-- critical sections run after it, in any order: there is no task, and adding a process is refused
-- and changes nothing.
pub shutdown_final :
    {m : TaskManager} (os : List Op) (t e : String)
    → IsValid m
    → (shutdown_if_empty m).0 ≡ true
    → let n = run os (shutdown_if_empty m).1 in
      (is_empty n.tasks ≡ true) × (is_err (new_proc t e n).0 ≡ true) × ((new_proc t e n).1 ≡ n)
shutdown_final {m} os t e v h =
    let n = run os (shutdown_if_empty m).1 in
    let stopped : n.is_shutdown ≡ true =
      run_stopped os (shutdown_if_empty m).1 (unfold shutdown_if_empty in ground arith) in
    let refused = new_proc_refused t e n (rw stopped) in
    (
      (run_from-IsValid os (shutdown_if_empty-IsValid v)).stopped_empty stopped,
      refused.0,
      refused.1,
    )
