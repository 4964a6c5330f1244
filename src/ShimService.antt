-- ===== src/ShimService.antt =====
-- runtime/service.go: the life of the VM that a shim manages. The calls to the jailer, the VMM, the
-- agent and the event exchange are recorded; their answers are arguments. `defer logPanicAndDie` and
-- the log are left out.
pub mod Ports
pub mod Lifecycle
pub mod Requests
pub mod History
use abschlussarbeit.Common.{
  ℕ, zero, ◌+◌, ◌*◌, ◌%◌, ◌^◌, ◌<◌, String, Bool, true, false, not, ◌&&◌, ◌||◌, Option, none, some,
  List, [], ◌∷◌, eqb, ltb, if◌then◌else◌, Error, wrap, status, error_of, already_exists, deadline,
  internal, deadline_exceeded, panic, join, Result, ok, err,
}
use abschlussarbeit.Common.Act.{Act, pure, raise, lift, attempt, modify, wrapping, ◌>>=◌, ◌>>◌}
use abschlussarbeit.Common.Calls.{Answers}
use abschlussarbeit.TaskManager.{TaskManager, shutdown_if_empty}
use abschlussarbeit.StubDrive.Create.{StubDrive}
use abschlussarbeit.StubDrive.Handler.{VmCall, patch_and_mount}

-- What the shim asks of the packages round it.
pub data ShimCall : Type 0 where
  find_dir new_jailer build_vm_configuration vsock_rel_path build_jailed_machine new_machine :
      ShimCall
  machine_start dial machine_wait jailer_stop jailer_close agent_shutdown : ShimCall
  publish_vm_start publish_vm_stop : ShimCall
  set_metadata update_metadata : String → ShimCall
  get_metadata : ShimCall
  sleep : ℕ → ShimCall

-- `service`, as far as the VM's life goes: `start_once` and `cleanup_once` are the two `sync.Once`,
-- the latter with its error; `vm_ready` is a closed channel; `cancelled` is the shim's context;
-- `connected` says whether the clients of the agent, such as `agentClient`, are there.
pub record Service : Type 0 where
  pub tasks : TaskManager
  pub start_once : Bool
  pub vm_ready : Bool
  pub exit_after_all_tasks_deleted : Bool
  pub connected : Bool
  pub drive_mount_stubs : List StubDrive
  pub cleanup_once : Option (Option Error)
  pub cancelled : Bool
  pub monitored : Bool
  pub calls : List ShimCall
  pub vm_calls : List VmCall

abbrev second : ℕ
second = 1000000000

abbrev pub jailer_stop_timeout : ℕ
jailer_stop_timeout = 3 * second

abbrev pub default_shutdown_timeout : ℕ
default_shutdown_timeout = 5 * second

abbrev pub default_stop_vm_timeout : ℕ
default_stop_vm_timeout = 5 * second

-- `errors.Cause`
unfoldable pub cause : Error → Error
cause (wrap msg e) = cause e
cause e = e

unfoldable pub is_deadline : Error → Bool
is_deadline deadline_exceeded = true
is_deadline _ = false

-- What a request's handler and the goroutines are told from outside.
pub record World : Type 0 where
  pub answers : List ShimCall → ShimCall → Option Error
  pub vm_answers : Answers VmCall
  -- `machine.PID()` before the n-th action of `shutdownLoop`.
  pub pid : ℕ → ℕ × Option Error
  -- Whether the VM is ready before `vmReadyTimeout` is over.
  pub ready_in_time : Bool

-- The calls of `createVM` after the shim's directory is known, up to the dialling of the agent.
abbrev pub start_steps : List (String × ShimCall)
start_steps =
    ("failed to create jailer", new_jailer)
    ∷ ("failed to build VM configuration", build_vm_configuration)
    ∷ ("failed to get relative path to firecracker vsock", vsock_rel_path)
    ∷ ("failed to build jailed machine options", build_jailed_machine)
    ∷ ("failed to create new machine instance", new_machine)
    ∷ ("failed to start the VM", machine_start)
    ∷ ("failed to dial the VM over vsock", dial)
    ∷ []

module _ (w : World) where
  unfoldable pub ask : ShimCall → Act Service (Unit {0})
  ask c s = attempt (w.answers s.calls c) (record s { calls = c ∷ s.calls })

  -- `mountDrives`
  abbrev pub mount_one : StubDrive → Act Service (Unit {0})
  mount_one d s =
      let (r, calls) = patch_and_mount w.vm_answers d s.vm_calls in
      (r, record s { vm_calls = calls })

  unfoldable pub mount_drives : List StubDrive → Act Service (Unit {0})
  mount_drives [] = pure tt
  mount_drives (d ∷ ds) = do
    wrapping "failed to patch drive mount stub" (mount_one d)
    mount_drives ds

  -- Calls in order, each with the message its error is wrapped in; the first error ends it.
  unfoldable pub ask_all : List (String × ShimCall) → Act Service (Unit {0})
  unfolding ask
  ask_all [] = pure tt
  ask_all ((msg, c) ∷ rest) = wrapping msg (ask c) >> ask_all rest

  -- `createVM`, which sets the flag of the request before it mounts the drives.
  unfoldable pub create_vm_once : Bool → Act Service (Unit {0})
  unfolding ask mount_drives ask_all
  create_vm_once exit_after s =
      (do
        ask find_dir
        ask_all start_steps
        modify (λ t. record t { connected = true; exit_after_all_tasks_deleted = exit_after })
        mount_drives s.drive_mount_stubs)
        s

  -- What `CreateVM` does with the outcome of `createVM`.
  abbrev pub after_create : Result (Unit {0}) × Service → Result (Unit {0}) × Service
  after_create (err e, s) =
      if is_deadline (cause e)
      then (err (status deadline "VM %q didn't start within %s: %s"), record s { cancelled = true })
      else (err (wrap "failed to create VM" e), record s { cancelled = true })
  after_create (ok tt, s) =
      let (published, t) = ask publish_vm_start s in
      (ok tt, record t { monitored = true; vm_ready = true })

  -- `CreateVM`; its reply is left out.
  unfoldable pub create_vm : Bool → Act Service (Unit {0})
  create_vm exit_after s =
      if s.start_once
      then (err (status already_exists "shim cannot create VM more than once"), s)
      else after_create (create_vm_once exit_after (record s { start_once = true }))

  -- `waitVMReady`
  unfoldable pub wait_vm_ready : Act Service (Unit {0})
  wait_vm_ready s =
      if s.vm_ready || w.ready_in_time
      then (ok tt, s)
      else (err (status deadline "timed out waiting for VM start"), s)

  -- `cleanup`: the first call does it, and every call returns its error.
  abbrev clean : Service → Option Error × Service
  clean s =
      let (closed, s1) = ask jailer_close s in
      let (published, s2) = ask publish_vm_stop s1 in
      let result = join (error_of closed) (error_of published) in
      (result, record s2 { cancelled = true; cleanup_once = some result })

  abbrev cleanup_at : Option (Option Error) → Service → Option Error × Service
  cleanup_at (some e) s = (e, s)
  cleanup_at none s = clean s

  unfoldable pub cleanup : Service → Option Error × Service
  cleanup s = cleanup_at s.cleanup_once s

  -- `monitorVMExit`: the errors are only logged.
  unfoldable pub monitor_vm_exit : Service → Service
  monitor_vm_exit s = (cleanup (ask machine_wait s).1).1

  -- One action of `shutdownLoop`, and how long to wait after it.
  abbrev pub act : ShimCall → ℕ → Service → Service
  act c timeout s =
      let (r, t) = ask c s in
      elim r [ ok _ ↦ record t { calls = sleep timeout ∷ t.calls } | err e ↦ t ]

  abbrev pub nothing_to_kill : ℕ × Option Error → Bool
  nothing_to_kill (number, none) = false
  nothing_to_kill (number, some e) = eqb number 0

  -- `shutdownLoop`, at the actions that are left.
  unfoldable pub shutdown_actions : ℕ → List (ShimCall × ℕ) → Service → Service
  shutdown_actions n [] s = s
  shutdown_actions n ((c, timeout) ∷ rest) s =
      let after = shutdown_actions (n + 1) rest (act c timeout s) in
      if nothing_to_kill (w.pid n) then s else after

  unfoldable pub shutdown_loop : ℕ → Service → Service
  shutdown_loop timeout =
      shutdown_actions 0 ((agent_shutdown, timeout) ∷ (jailer_stop, jailer_stop_timeout) ∷ [])

  -- `s.machine` is nil until NewMachine has succeeded, which is when its `Start` is called.
  abbrev pub has_machine : List ShimCall → Bool
  has_machine [] = false
  has_machine (machine_start ∷ calls) = true
  has_machine (_ ∷ calls) = has_machine calls

  -- Whether `shutdown` comes upon a nil machine, or its loop upon a nil client of the agent: the panic
  -- ends the process.
  abbrev pub crashes : Service → Bool
  crashes s = not (has_machine s.calls) || (not s.connected && not (nothing_to_kill (w.pid 0)))

  -- `shutdown`, where the loop has run when the wait for the machine is over.
  abbrev forced : Option Error → Result (Unit {0})
  forced none = ok tt
  forced (some e) = err (status internal "the VMM was killed forcibly: %v")

  abbrev pub shut_down : ℕ → Act Service (Unit {0})
  shut_down timeout s =
      let (waited, t) = ask machine_wait (shutdown_loop timeout s) in
      let (cleaned, u) = cleanup t in (forced (join (error_of waited) cleaned), u)

  unfoldable pub shutdown : ℕ → Act Service (Unit {0})
  shutdown timeout s =
      if crashes s
      then (err (panic "invalid memory address or nil pointer dereference"), s)
      else shut_down timeout s

  -- `Shutdown`: the tasks are asked only when `now` is not set and the VM is to end with them.
  abbrev pub when_empty : Bool × TaskManager → Act Service (Unit {0})
  when_empty (true, tasks) s = shutdown default_shutdown_timeout (record s { tasks = tasks })
  when_empty (false, tasks) s = (ok tt, record s { tasks = tasks })

  unfoldable pub shutdown_request : Bool → Act Service (Unit {0})
  shutdown_request true s = shutdown default_shutdown_timeout s
  shutdown_request false s =
      if s.exit_after_all_tasks_deleted
      then when_empty (shutdown_if_empty s.tasks) s
      else (ok tt, s)

  -- `StopVM`, with the timeout of its request in seconds.
  unfoldable pub stop_vm : ℕ → Act Service (Unit {0})
  stop_vm timeout_seconds =
      let timeout =
        if ltb 0 timeout_seconds then timeout_seconds * second else default_stop_vm_timeout in
      wait_vm_ready >> shutdown timeout
