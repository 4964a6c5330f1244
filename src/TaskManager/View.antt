-- ===== src/TaskManager/View.antt =====
-- What the task manager shows of its maps: the process of a pair of IDs. `newProc` and `deleteProc`
-- are an insertion and a removal in that one map.
use abschlussarbeit.Common.{
  String, ◌≡◌, refl, Bool, true, false, Option, none, some, ◌==◌, ◌&&◌, not, eq_iff, arith,
  Option-cases, inl, inr, ◌||◌, if◌then◌else◌, ok, is_err, [],
}
use abschlussarbeit.Common.Assoc.{
  Assoc, lookup, remove, lookup-insert, lookup-remove, lookup-is_empty,
}
use abschlussarbeit.TaskManager.{
  VmProc, TaskManager, or_empty, is_some, add_proc, take_proc, drop_proc, new_proc, find_task,
  delete_proc,
}

unfoldable pub proc_at : String → String → TaskManager → Option VmProc
proc_at t e m = lookup e (or_empty (lookup t m.tasks))

-- The conditions under which `newProc` adds a process.
abbrev pub may_add : String → String → TaskManager → Bool
may_add t e m =
    not m.is_shutdown && (is_some (lookup t m.tasks) || e == "") && not (is_some (proc_at t e m))

abbrev pub fresh : String → String → TaskManager → VmProc
fresh t e m = record { task_id = t; exec_id = e; ctx = m.next_ctx }

lookup-nil : (k : String) → lookup {V = VmProc} k [] ≡ none
unfolding lookup
lookup-nil k = refl

pub proc_at-add_proc :
    (t e u f : String) (m : TaskManager)
    → proc_at u f (add_proc t e m).1
      ≡ (if t == u && e == f then some (fresh t e m) else proc_at u f m)
unfolding add_proc proc_at
proc_at-add_proc t e u f m = rw lookup-insert (
    ground (
      arith,
      eq_iff t u,
      eq_iff e f,
      lookup-insert e f (fresh t e m) (or_empty (lookup t m.tasks)),
    ))

-- `newProc` adds the process exactly when it may, and is otherwise an error that changes nothing.
pub new_proc_lem :
    (t e : String) (m : TaskManager)
    → may_add t e m ≡ true
    → new_proc t e m ≡ (ok (fresh t e m), (add_proc t e m).1)
unfolding new_proc proc_at
new_proc_lem t e m h = ground arith

-- Otherwise it fails and changes nothing.
pub new_proc_refused :
    (t e : String) (m : TaskManager)
    → may_add t e m ≡ false
    → (is_err (new_proc t e m).0 ≡ true) × ((new_proc t e m).1 ≡ m)
unfolding new_proc proc_at
new_proc_refused t e m h = ground arith

pub delete_proc_ok :
    (t e : String) (m : TaskManager) {execs : Assoc VmProc} {p : VmProc}
    → lookup t m.tasks ≡ some execs
    → lookup e execs ≡ some p
    → delete_proc t e m ≡ (ok p, record m { tasks = drop_proc t e execs m.tasks })
unfolding delete_proc
delete_proc_ok t e m h k = rw (h, find_task) (rw (k, take_proc))

pub proc_at-drop_proc :
    (t e u f : String) (execs : Assoc VmProc) (tasks : Assoc (Assoc VmProc))
    → lookup t tasks ≡ some execs
    → lookup f (or_empty (lookup u (drop_proc t e execs tasks)))
      ≡ (if t == u && e == f then none else lookup f (or_empty (lookup u tasks)))
unfolding drop_proc
proc_at-drop_proc t e u f execs tasks h = ground (
  arith,
  eq_iff t u,
  eq_iff e f,
  lookup-nil f,
  lookup-remove e f execs,
  lookup-is_empty f (remove e execs),
  lookup-remove t u tasks,
  lookup-insert t u (remove e execs) tasks,
)

-- The removal in the view.
pub delete_proc_lem :
    (t e : String) (m : TaskManager) {p : VmProc}
    → proc_at t e m ≡ some p
    → ((delete_proc t e m).0 ≡ ok p)
      × ((u f : String)
          → proc_at u f (delete_proc t e m).1 ≡ (if t == u && e == f then none else proc_at u f m))
unfolding proc_at
delete_proc_lem t e m {p} h = elim (Option-cases (lookup t m.tasks)) [
  | inl a ↦ ground (arith, lookup-nil e)
  | inr (execs, a) ↦
      let k : lookup e execs ≡ some p = rw a at h in
      rw (delete_proc_ok t e m a k) (refl, λ u f. proc_at-drop_proc t e u f execs m.tasks a)
]

pub delete_proc_refused :
    (t e : String) (m : TaskManager)
    → proc_at t e m ≡ none
    → (is_err (delete_proc t e m).0 ≡ true) × ((delete_proc t e m).1 ≡ m)
unfolding delete_proc proc_at
delete_proc_refused t e m h = ground arith

-- What `deleteProc` leaves alone.
pub delete_proc_keeps :
    (t e : String) (m : TaskManager)
    → ((delete_proc t e m).1.is_shutdown ≡ m.is_shutdown)
      × ((delete_proc t e m).1.next_ctx ≡ m.next_ctx)
      × ((delete_proc t e m).1.cancelled ≡ m.cancelled)
      × ((delete_proc t e m).1.monitored ≡ m.monitored)
unfolding delete_proc
delete_proc_keeps t e m = ground arith

-- The two things that `deleteProc` can do to the state.
pub delete_proc_cases :
    (P : TaskManager → Type 0) (t e : String) (m : TaskManager)
    → P m
    → ((execs : Assoc VmProc) (p : VmProc)
        → lookup t m.tasks ≡ some execs
        → lookup e execs ≡ some p
        → P (record m { tasks = drop_proc t e execs m.tasks }))
    → P (delete_proc t e m).1
delete_proc_cases P t e m same dropped = elim (Option-cases (proc_at t e m)) [
  | inl h ↦ rw (delete_proc_refused t e m h).1 same
  | inr (p, h) ↦ found p h (lookup t m.tasks) refl
]
  where
    found :
        (p : VmProc)
        → proc_at t e m ≡ some p
        → (o : Option (Assoc VmProc)) → lookup t m.tasks ≡ o
        → P (delete_proc t e m).1
    found p h none a = absurd (unfold proc_at in ground (arith, lookup-nil e))
    found p h (some execs) a =
        let k : lookup e execs ≡ some p = unfold proc_at in rw a at h in
        rw (delete_proc_ok t e m a k) (dropped execs p a k)
