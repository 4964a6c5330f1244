-- ===== src/TaskManager.antt =====
-- internal/vm/task.go: the tasks that a shim or an agent manages, and their exec processes.
-- A process context is known by its number; cancelling it puts the number on a list. The answers of
-- the task service and of the IO proxy are arguments.
pub mod View
pub mod Launching
pub mod Invariant
pub mod Refinement
use abschlussarbeit.Common.{
  ℕ, zero, suc, ◌+◌, String, Bool, true, false, Option, none, some, List, [], ◌∷◌, ◌==◌, ◌&&◌, not,
  if◌then◌else◌, Error, errorf, Result, ok, err,
}
use abschlussarbeit.Common.Act.{Act, pure, raise, lift, attempt, modify, on_error, ◌>>=◌, ◌>>◌}
use abschlussarbeit.Common.Assoc.{Assoc, lookup, insert, remove, is_empty}

-- `vmProc`, with its context's number for `ctx` and `cancel`.
pub record VmProc : Type 0 where
  pub task_id : String
  pub exec_id : String
  pub ctx : ℕ

-- `tasks` maps a task to a map from exec to process. `monitored` lists the processes for which a
-- `monitorExit` goroutine was started, the newest first.
pub record TaskManager : Type 0 where
  pub tasks : Assoc (Assoc VmProc)
  pub is_shutdown : Bool
  pub next_ctx : ℕ
  pub cancelled : List ℕ
  pub monitored : List VmProc

-- `NewTaskManager`
unfoldable pub new_task_manager : TaskManager
new_task_manager = record {
  tasks = [];
  is_shutdown = false;
  next_ctx = 0;
  cancelled = [];
  monitored = [];
}

-- The inner map of a task, and the empty map that Go reads where the task is missing.
abbrev pub or_empty : Option (Assoc VmProc) → Assoc VmProc
or_empty none = []
or_empty (some execs) = execs

abbrev pub is_some {ℓ} : {A : Type ℓ} → Option A → Bool
is_some none = false
is_some (some a) = true

-- The writes at the end of `newProc`. The inner `make` and the inner write are one insertion.
pub add_proc : String → String → TaskManager → VmProc × TaskManager
add_proc task_id exec_id m =
    let proc : VmProc = record { task_id = task_id; exec_id = exec_id; ctx = m.next_ctx } in
    let execs = insert exec_id proc (or_empty (lookup task_id m.tasks)) in
    (proc, record m { tasks = insert task_id execs m.tasks; next_ctx = m.next_ctx + 1 })

abbrev after_checks : VmProc × TaskManager → Result VmProc × TaskManager
after_checks (proc, m) = (ok proc, m)

unfoldable pub new_proc : String → String → Act TaskManager VmProc
unfolding add_proc
new_proc task_id exec_id m =
    if m.is_shutdown
    then (
      err (errorf "cannot create new exec %q in task %q after shutdown" (exec_id ∷ task_id ∷ [])),
      m,
    )
    else if not (is_some (lookup task_id m.tasks)) && not (exec_id == "")
    then (err (errorf "cannot add exec %q to non-existent task %q" (exec_id ∷ task_id ∷ [])), m)
    else if is_some (lookup exec_id (or_empty (lookup task_id m.tasks)))
    then (err (errorf "cannot add duplicate exec %q to task %q" (exec_id ∷ task_id ∷ [])), m)
    else after_checks (add_proc task_id exec_id m)

-- What is left of the tasks when a process is taken out; a task with no process goes too.
pub drop_proc : String → String → Assoc VmProc → Assoc (Assoc VmProc) → Assoc (Assoc VmProc)
drop_proc task_id exec_id execs tasks =
    let rest = remove exec_id execs in
    if is_empty rest then remove task_id tasks else insert task_id rest tasks

take_proc : String → String → Assoc VmProc → Option VmProc → Act TaskManager VmProc
unfolding drop_proc
take_proc task_id exec_id execs none m =
    (err (errorf "cannot delete non-existent exec %q from task %q" (exec_id ∷ task_id ∷ [])), m)
take_proc task_id exec_id execs (some proc) m =
    (ok proc, record m { tasks = drop_proc task_id exec_id execs m.tasks })

find_task : String → String → Option (Assoc VmProc) → Act TaskManager VmProc
unfolding take_proc
find_task task_id exec_id none m =
    (err (errorf "cannot delete exec %q from non-existent task %q" (exec_id ∷ task_id ∷ [])), m)
find_task task_id exec_id (some execs) m = take_proc task_id exec_id execs (lookup exec_id execs) m

unfoldable pub delete_proc : String → String → Act TaskManager VmProc
unfolding find_task
delete_proc task_id exec_id m = find_task task_id exec_id (lookup task_id m.tasks) m

unfoldable pub shutdown_if_empty : TaskManager → Bool × TaskManager
shutdown_if_empty m =
    if is_empty m.tasks then (true, record m { is_shutdown = true }) else (false, m)

-- `proc.cancel()`
unfoldable pub cancel : VmProc → TaskManager → TaskManager
cancel proc m = record m { cancelled = proc.ctx ∷ m.cancelled }

-- The deferred function of `CreateTask` and `ExecProcess`: an error of `deleteProc` is dropped.
unfoldable pub abandon : VmProc → String → String → TaskManager → TaskManager
unfolding cancel delete_proc
abandon proc task_id exec_id m = (delete_proc task_id exec_id (cancel proc m)).1

-- `go m.monitorExit(proc, taskService)`
unfoldable pub monitor : VmProc → TaskManager → TaskManager
monitor proc m = record m { monitored = proc ∷ m.monitored }

-- The answers to one `Create` or `Exec`: of the task service, and of the IO initialisation.
pub record Launch (A : Type 0) : Type 0 where
  pub service : Result A
  pub io_init : Option Error

module _ {A : Type 0} where
  -- The part of `CreateTask` and `ExecProcess` that the deferred function guards.
  unfoldable pub launch : VmProc → Launch A → Act TaskManager A
  unfolding monitor
  launch proc l = do resp ← lift l.service; attempt l.io_init; modify (monitor proc); pure resp

  -- `ExecProcess`
  unfoldable pub exec_process : String → String → Launch A → Act TaskManager A
  unfolding new_proc abandon launch
  exec_process task_id exec_id l = do
    proc ← new_proc task_id exec_id
    on_error (abandon proc task_id exec_id) (launch proc l)

  -- `CreateTask`: the exec ID of a task's first process is the empty text.
  unfoldable pub create_task : String → Launch A → Act TaskManager A
  unfolding new_proc abandon launch
  create_task task_id l = do
    proc ← new_proc task_id ""
    on_error (abandon proc task_id "") (launch proc l)

  -- `DeleteProcess`, where `service` is the answer to `Delete`. The wait for `ioCopyDone` changes
  -- nothing here.
  unfoldable pub delete_process : String → String → Result A → Act TaskManager A
  unfolding delete_proc
  delete_process task_id exec_id service = do
    resp ← lift service
    delete_proc task_id exec_id
    pure resp

-- How the wait that `monitorExit` blocks in can end.
pub data Exit : Type 0 where
  exited cancelled_wait : Exit
  wait_failed : Error → Exit

-- `monitorExit` cancels the context of its process, however the wait ends, and logs.
unfoldable pub monitor_exit : VmProc → Exit → TaskManager → TaskManager
unfolding cancel
monitor_exit proc e m = cancel proc m
