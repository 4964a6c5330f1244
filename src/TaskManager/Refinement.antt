-- ===== src/TaskManager/Refinement.antt =====
-- The task manager as a flat table of processes, which knows nothing of tasks as maps of their own,
-- and its critical sections as the operations of that table.
use abschlussarbeit.Common.{
  String, Bool, true, false, Option, none, some, List, [], ◌∷◌, ◌≡◌, refl, ap, ◌∙◌, ◌⊎◌, inl, inr,
  ◌==◌, ◌&&◌, eq_iff, if◌then◌else◌, arith, Bool-cases, Option-cases, Result,
}
use abschlussarbeit.Common.Assoc.{Assoc, lookup, is_empty, lookup-is_empty}
use abschlussarbeit.TaskManager.{
  VmProc, TaskManager, new_task_manager, is_some, add_proc, new_proc, delete_proc,
  shutdown_if_empty, cancel, abandon, monitor, monitor_exit, Exit,
}
use abschlussarbeit.TaskManager.View.{
  proc_at, may_add, fresh, proc_at-add_proc, new_proc_lem, new_proc_refused, delete_proc_lem,
  delete_proc_refused, delete_proc_keeps,
}
use abschlussarbeit.TaskManager.Invariant.{
  Op, begin, give_up, watch, delete, try_shutdown, exit, apply, run, IsValid, apply-IsValid,
  run-IsValid,
}

-- What the manager promises: a process at most for each pair of IDs, and whether it was shut down.
pub record Table : Type 0 where
  pub proc : String → String → Option VmProc
  pub stopped : Bool

abbrev pub table_of : TaskManager → Table
table_of m = record { proc = λ t e. proc_at t e m; stopped = m.is_shutdown }

abbrev pub HasTask : String → Table → Type 0
HasTask t a = (e : String) × (p : VmProc) × (a.proc t e ≡ some p)

-- A process can be added to a running table, as the first of a task or beside another of its task,
-- where none stands.
abbrev pub CanAdd : String → String → Table → Type 0
CanAdd t e a = (a.stopped ≡ false) × ((e ≡ "") ⊎ HasTask t a) × (a.proc t e ≡ none)

abbrev pub IsSame : Table → Table → Type 0
IsSame a b = ((u f : String) → b.proc u f ≡ a.proc u f) × (b.stopped ≡ a.stopped)

abbrev pub IsAdded : String → String → Table → Table → Type 0
IsAdded t e a b =
    (p : VmProc) × (p.task_id ≡ t)
    × (p.exec_id ≡ e)
    × ((u f : String) → b.proc u f ≡ (if t == u && e == f then some p else a.proc u f))
    × (b.stopped ≡ a.stopped)

abbrev pub IsRemoved : String → String → Table → Table → Type 0
IsRemoved t e a b =
    ((u f : String) → b.proc u f ≡ (if t == u && e == f then none else a.proc u f))
    × (b.stopped ≡ a.stopped)

abbrev pub IsVacant : Table → Type 0
IsVacant a = (u f : String) → a.proc u f ≡ none

-- The table's step for each critical section.
abbrev pub Step : Op → Table → Table → Type 0
Step (begin t e) a b = (CanAdd t e a × IsAdded t e a b) ⊎ ((CanAdd t e a → ⊥) × IsSame a b)
Step (give_up p t e) a b = IsRemoved t e a b
Step (watch p) a b = IsSame a b
Step (delete t e) a b = IsRemoved t e a b
Step try_shutdown a b =
    ((u f : String) → b.proc u f ≡ a.proc u f)
    × ((IsVacant a × (b.stopped ≡ true)) ⊎ ((IsVacant a → ⊥) × (b.stopped ≡ a.stopped)))
Step (exit p x) a b = IsSame a b

some_key :
    {V : Type 0} (dict : Assoc V)
    → is_empty dict ≡ false
    → (k : String) × (v : V) × (lookup k dict ≡ some v)
unfolding is_empty lookup
some_key [] h = absurd (cc)
some_key ((k, v) ∷ dict) h = (k, v, ground (arith, eq_iff k k))

module _ (m : TaskManager) (valid : IsValid m) where
  -- A task that the manager keeps has a process.
  HasTask-of_some : (t : String) → is_some (lookup t m.tasks) ≡ true → HasTask t (table_of m)
  unfolding proc_at
  HasTask-of_some t h = elim (Option-cases (lookup t m.tasks)) [
    | inl none_there ↦ absurd (ground arith)
    | inr (execs, there) ↦
        let (e, p, k) = some_key execs (valid.inhabited t execs there) in (e, p, rw there k)
  ]

  some-of_HasTask : (t : String) → HasTask t (table_of m) → is_some (lookup t m.tasks) ≡ true
  unfolding proc_at lookup
  some-of_HasTask t (e, p, h) = elim (Option-cases (lookup t m.tasks)) [
    | inl none_there ↦ absurd (cc (rw none_there at h))
    | inr (execs, there) ↦ rw there refl
  ]

  CanAdd-may_add : (t e : String) → may_add t e m ≡ true → CanAdd t e (table_of m)
  CanAdd-may_add t e h = (ground arith, first_or_beside, ground arith)
    where
      first_or_beside : (e ≡ "") ⊎ HasTask t (table_of m)
      first_or_beside = elim (Bool-cases (e == "")) [
        | inl same ↦ inl ((eq_iff e "").0 same)
        | inr other ↦ inr (HasTask-of_some t (ground arith))
      ]

  may_add-CanAdd : (t e : String) → CanAdd t e (table_of m) → may_add t e m ≡ true
  may_add-CanAdd t e (running, inl first, free) = ground (arith, eq_iff e "")
  may_add-CanAdd t e (running, inr beside, free) = ground (arith, some-of_HasTask t beside)

  IsVacant-empty : is_empty m.tasks ≡ true → IsVacant (table_of m)
  unfolding proc_at lookup
  IsVacant-empty h u f = rw (lookup-is_empty u m.tasks h) refl

  empty-IsVacant : is_empty m.tasks ≡ false → IsVacant (table_of m) → ⊥
  empty-IsVacant h vacant =
      let (t, execs, there) = some_key m.tasks h in
      let (e, p, k) = HasTask-of_some t (rw there refl) in cc (vacant t e)

  removed : (t e : String) → Step (delete t e) (table_of m) (table_of (delete_proc t e m).1)
  removed t e = elim (Option-cases (proc_at t e m)) [
    | inl absent ↦ (
      λ u f.
          ap (λ n. proc_at u f n) (delete_proc_refused t e m absent).1
          ∙ ground (arith, eq_iff t u, eq_iff e f),
      (delete_proc_keeps t e m).0,
    )
    | inr (p, there) ↦ ((delete_proc_lem t e m {p = p} there).1, (delete_proc_keeps t e m).0)
  ]

  begin-Step : (t e : String) → Step (begin t e) (table_of m) (table_of (new_proc t e m).1)
  begin-Step t e = elim (Bool-cases (may_add t e m)) [
    | inl may ↦ inl (
      CanAdd-may_add t e may,
      (
        fresh t e m,
        refl,
        refl,
        λ u f.
            ap (λ (x : Result VmProc × TaskManager). proc_at u f x.1) (new_proc_lem t e m may)
            ∙ proc_at-add_proc t e u f m,
        ap (λ (x : Result VmProc × TaskManager). x.1.is_shutdown) (new_proc_lem t e m may)
            ∙ (unfold add_proc in refl),
      ),
    )
    | inr may_not ↦ inr (
      λ can. cc (may_add-CanAdd t e can),
      (
        λ u f. ap (λ n. proc_at u f n) (new_proc_refused t e m may_not).1,
        ap (λ (n : TaskManager). n.is_shutdown) (new_proc_refused t e m may_not).1,
      ),
    )
  ]

  shutdown-Step : Step try_shutdown (table_of m) (table_of (shutdown_if_empty m).1)
  unfolding shutdown_if_empty proc_at
  shutdown-Step = elim (Bool-cases (is_empty m.tasks)) [
    | inl empty ↦ rw empty (λ u f. refl, inl (IsVacant-empty empty, refl))
    | inr tasks ↦ rw tasks (λ u f. refl, inr (empty-IsVacant tasks, refl))
  ]

-- Each critical section of a valid manager is a step of the table.
apply-Step : (o : Op) (m : TaskManager) → IsValid m → Step o (table_of m) (table_of (apply o m))
unfolding apply abandon cancel monitor monitor_exit proc_at
apply-Step (begin t e) m v = begin-Step m v t e
apply-Step (give_up p t e) m v =
    removed (cancel p m) (apply-IsValid (exit p Exit.exited) {m = m} v) t e
apply-Step (watch p) m v = (λ u f. refl, refl)
apply-Step (delete t e) m v = removed m v t e
apply-Step try_shutdown m v = shutdown-Step m v
apply-Step (exit p x) m v = (λ u f. refl, refl)

-- A run of the table.
abbrev pub Steps : List Op → Table → Table → Type 0
Steps [] a c = a ≡ c
Steps (o ∷ os) a c = (b : Table) × Step o a b × Steps os b c

run-Steps :
    (os : List Op) (m : TaskManager) → IsValid m → Steps os (table_of m) (table_of (run os m))
unfolding run
run-Steps [] m v = refl
run-Steps (o ∷ os) m v =
    (table_of (apply o m), apply-Step o m v, run-Steps os (apply o m) (apply-IsValid o v))

abbrev pub empty_table : Table
empty_table = record { proc = λ t e. none; stopped = false }

-- The manager is the flat table: whatever critical sections run on a new manager, in any order, the
-- table that it shows takes the same steps from the empty table. A process is added exactly if the
-- table runs, has none under the IDs, and has one of the task or the exec ID is empty; a deletion
-- takes out one process; and the table stops exactly if it is asked to while it has no process.
pub run_refines_table : (os : List Op) → Steps os empty_table (table_of (run os new_task_manager))
unfolding run new_task_manager proc_at lookup
run_refines_table os = run-Steps os new_task_manager (run-IsValid [])
