-- ===== src/AgentService.antt =====
-- agent/service.go: the task service of the agent, which wraps that of runc. What the calls answer
-- is an argument, `Agent`; the clean-ups of a process are kept under the text that `TaskExecID`
-- makes of its IDs.
pub mod Identity
pub mod Cleanups
pub mod Failing
pub mod Unwinding
pub mod Forwarding
pub mod Methods
pub mod Registering
use abschlussarbeit.Common.{
  ℕ, String, Bool, true, false, Option, none, some, List, [], ◌∷◌, ◌++◌, ◌==◌, if◌then◌else◌, Error,
  errorf, wrap, join, Result, ok, err, of_error,
}
use abschlussarbeit.Common.Act.{
  Act, pure, lift, attempt, modify, on_error, finally, wrapping, ◌>>=◌, ◌>>◌,
}
use abschlussarbeit.Common.Bytes.{Bytes, codes, bytes_eq}
use abschlussarbeit.Common.Base64.{encode}
use abschlussarbeit.Common.FilePath.{slash}
use abschlussarbeit.TaskManager.{
  TaskManager, Launch, new_task_manager, create_task, exec_process, delete_process,
}
use abschlussarbeit.IoProxy.{
  Connector, read_fifo, write_fifo, vsock_accept, IoConnectorPair, IoProxy, connector_set,
  null_io_proxy, is_agent_only_io,
}
use abschlussarbeit.Proto.{ExtraData, TaskRequest}
use abschlussarbeit.Bundle.{Dir, root_path, rootfs_path, oci_config_path, vm_bundle_dir}

-- `TaskExecID`: `identifiers.Validate` is an argument. An empty exec ID is not looked at.
unfoldable pub validate_ids : (String → Option Error) → String → String → Option Error
validate_ids validate task_id exec_id =
    if exec_id == "" then validate task_id else join (validate task_id) (validate exec_id)

abbrev pub encoded : String → String → Option Error → Result Bytes
encoded task_id exec_id (some e) = err e
encoded task_id exec_id none = ok (encode (codes task_id ++ (slash ∷ codes exec_id)))

unfoldable pub task_exec_id : (String → Option Error) → String → String → Result Bytes
unfolding validate_ids
task_exec_id validate task_id exec_id =
    encoded task_id exec_id (validate_ids validate task_id exec_id)

-- The functions that the code registers as clean-ups, as what they call.
pub data Cleanup : Type 0 where
  remove_all : Bytes → Cleanup
  unmount_all : Bytes → Cleanup

-- The calls that leave the service, the newest first.
pub data AgentCall : Type 0 where
  cleaned : Cleanup → AgentCall
  stat : Bytes → AgentCall
  write_file : Bytes → Bytes → AgentCall
  new_fifo_set_in_dir : Bytes → Bytes → Bool → AgentCall
  runc : String → AgentCall
  shim_cancel : AgentCall

-- `cio.FIFOSet`
pub record FifoSet : Type 0 where
  pub stdin : Bytes
  pub stdout : Bytes
  pub stderr : Bytes

-- `TaskService`: `exec_cleanups` maps a text to its clean-ups, the oldest first.
pub record TaskService : Type 0 where
  pub manager : TaskManager
  pub exec_cleanups : Bytes → List Cleanup
  pub calls : List AgentCall

-- What the calls answer: `url_scheme` is the scheme that `url.Parse` finds, `unmarshal` is
-- `types.UnmarshalAny`, `stat` says whether there is a directory.
pub record Agent : Type 0 where
  pub validate : String → Option Error
  pub unmarshal : Option Bytes → Result (ExtraData Bytes)
  pub url_scheme : Bytes → Result Bytes
  pub stat : List AgentCall → Bytes → Result Bool
  pub write_file : List AgentCall → Bytes → Option Error
  pub new_fifo_set : List AgentCall → Bytes → Result FifoSet
  pub clean : List AgentCall → Cleanup → Option Error

-- `NewTaskService`, where the argument is the answer of `runc.New`.
unfoldable pub new_task_service : Result (Unit {0}) → Result TaskService
new_task_service (err e) = err e
new_task_service (ok service) =
    ok (record { manager = new_task_manager; exec_cleanups = λ key. []; calls = [] })

abbrev pub update : {V : Type 0} → Bytes → V → (Bytes → V) → Bytes → V
update key v f asked = if bytes_eq key asked then v else f asked

abbrev pub noting : AgentCall → TaskService → TaskService
noting c s = record s { calls = c ∷ s.calls }

-- `addCleanup`
unfoldable pub add_cleanup : Bytes → Cleanup → TaskService → TaskService
add_cleanup key c s = record s {
  exec_cleanups = update key (s.exec_cleanups key ++ c ∷ []) s.exec_cleanups;
}

-- A step of the task manager.
abbrev pub managing : {A : Type 0} → Act TaskManager A → Act TaskService A
managing m s = let (r, t) = m s.manager in (r, record s { manager = t })

-- A process's stream needs a pair of connectors if the request names a path for it.
abbrev pub unless_empty : Bytes → IoConnectorPair → Option IoConnectorPair
unless_empty [] pair = none
unless_empty (c ∷ path) pair = some pair

abbrev pub path_or : Bytes → Bytes → Bytes
path_or [] fifo = []
path_or (c ∷ path) fifo = fifo

-- The FIFOs in the VM in place of the request's, with the connectors between them and vsock.
unfoldable pub agent_proxy : ExtraData Bytes → FifoSet → TaskRequest → IoProxy
agent_proxy extra fifos req =
    connector_set
      (unless_empty req.stdin (record {
        read_connector = vsock_accept extra.stdin_port;
        write_connector = write_fifo fifos.stdin;
      }))
      (unless_empty req.stdout (record {
        read_connector = read_fifo fifos.stdout;
        write_connector = vsock_accept extra.stdout_port;
      }))
      (unless_empty req.stderr (record {
        read_connector = read_fifo fifos.stderr;
        write_connector = vsock_accept extra.stderr_port;
      }))

unfoldable pub with_fifos : FifoSet → TaskRequest → TaskRequest
with_fifos fifos req = record req {
  stdin = path_or req.stdin fifos.stdin;
  stdout = path_or req.stdout fifos.stdout;
  stderr = path_or req.stderr fifos.stderr;
}

-- The clean-ups that `Exec` registers for the FIFOs that it uses.
unfoldable pub fifo_cleanup : Bytes → Bytes → Bytes → TaskService → TaskService
unfolding add_cleanup
fifo_cleanup key [] fifo s = s
fifo_cleanup key (c ∷ path) fifo s = add_cleanup key (remove_all fifo) s

-- The three of `Exec`, standard input first.
unfoldable pub exec_cleanups_of : Bytes → TaskRequest → FifoSet → TaskService → TaskService
unfolding fifo_cleanup
exec_cleanups_of key req fifos s =
    fifo_cleanup key req.stderr fifos.stderr
      (fifo_cleanup key req.stdout fifos.stdout (fifo_cleanup key req.stdin fifos.stdin s))

module _ (agent : Agent) where
  -- The loop of `doCleanup`, over the clean-ups with the oldest first: the newest runs first, and
  -- all of them run.
  unfoldable pub run_cleanups : List Cleanup → List AgentCall → Option Error × List AgentCall
  run_cleanups [] calls = (none, calls)
  run_cleanups (c ∷ cleanups) calls =
      let (e, calls') = run_cleanups cleanups calls in
      (join e (agent.clean calls' c), cleaned c ∷ calls')

  -- `doCleanup`
  unfoldable pub do_cleanup : Bytes → Act TaskService (Unit {0})
  unfolding run_cleanups
  do_cleanup key s =
      let (e, calls) = run_cleanups (s.exec_cleanups key) s.calls in
      (of_error e, record s { exec_cleanups = update key [] s.exec_cleanups; calls = calls })

  abbrev pub must_be_dir : Result Bool → Result (Unit {0})
  must_be_dir (err e) = err (wrap "failed to stat bundle's rootfs path %q" e)
  must_be_dir (ok true) = ok tt
  must_be_dir (ok false) = err (errorf "bundle's rootfs path %q is not a dir" [])

  unfoldable pub stat_rootfs : Bytes → Act TaskService (Unit {0})
  stat_rootfs path s = (must_be_dir (agent.stat s.calls path), noting (stat path) s)

  -- `OCIConfig.Write`
  unfoldable pub write_oci_config : Dir → Bytes → Act TaskService (Unit {0})
  write_oci_config dir contents s =
      let path = oci_config_path dir in
      wrapping "failed to write OCI config file %s"
        (λ t. (of_error (agent.write_file t.calls path), noting (write_file path contents) t)) s

  unfoldable pub fifo_set : Bytes → Dir → Bool → Act TaskService FifoSet
  fifo_set key dir terminal s = (
    agent.new_fifo_set s.calls (root_path dir),
    noting (new_fifo_set_in_dir (root_path dir) key terminal) s,
  )

  -- The choice of the IO proxy, with the request that is passed on. `after` is what is done with the
  -- FIFOs once they are there.
  unfoldable pub choose_proxy :
      Bytes
      → Dir
      → ExtraData Bytes
      → TaskRequest
      → (FifoSet → TaskService → TaskService)
      → Act TaskService (TaskRequest × IoProxy)
  unfolding fifo_set
  choose_proxy key dir extra req after =
      if is_agent_only_io (agent.url_scheme req.stdout) then pure (req, null_io_proxy) else do
        fifos ← wrapping "failed to open stdio FIFOs" (fifo_set key dir req.terminal)
        modify (after fifos)
        pure (with_fifos fifos req, agent_proxy extra fifos req)

  -- The deferred function of `Create` and `Exec`: an error of a clean-up is only logged.
  unfoldable pub unwind : Bytes → TaskService → TaskService
  unfolding do_cleanup
  unwind key s = (do_cleanup key s).1
