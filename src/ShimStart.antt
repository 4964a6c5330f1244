-- ===== src/ShimStart.antt =====
-- runtime/service.go: `NewService`, `serveFCControl` and `StartShim`, which make the service of a shim and
-- ask the plugin for its VM. What the packages round it answer is an argument.
pub mod Requested
use abschlussarbeit.Common.{
  ℕ, String, Bool, true, false, not, Option, none, some, List, [], ◌∷◌, ◌==◌, if◌then◌else◌, Error,
  errorf, wrap, status, Code, already_exists, deadline, internal, panic, Result, ok, err, of_error,
}
use abschlussarbeit.Common.Act.{
  Act, pure, raise, lift, attempt, gets, modify, wrapping, ◌>>=◌, ◌>>◌,
}
use abschlussarbeit.Common.Bytes.{Bytes}
use abschlussarbeit.LogLevels.{Helper, get_firecracker_containerd_log_level}
use abschlussarbeit.LogLevels.Parse.{Level}
use abschlussarbeit.OciConfig.{ConfigFile, vm_id}
use abschlussarbeit.Settings.{Config}

-- What `NewService` is told: the configuration, the shim's options with their debug flag, the
-- namespace of the context, the VM's ID and the descriptor of the control socket in the environment,
-- the directory of a VM, and what the server and its socket come to.
pub record Environment (Interface : Type 0) : Type 0 where
  pub config : Result (Config Interface)
  pub opts : Option Bool
  pub namespace : Option String
  pub vm_id : String
  pub shim_dir : Bytes → String → String → Result Bytes
  pub socket_fd : String
  pub new_server : Option Error
  pub atoi : String → Result ℕ
  pub listener : ℕ → Option Error

-- What the service starts with; the log level is the one that is set, if one is.
pub record Started (Interface : Type 0) : Type 0 where
  pub vm_id : String
  pub namespace : String
  pub shim_dir : Bytes
  pub config : Config Interface
  pub log_level : Option Level
  pub serves_control : Bool

abbrev pub or_default : Option String → String
or_default none = "default"
or_default (some ns) = ns

-- `cfg.DebugHelper.ShimDebug = opts.Debug`
abbrev pub with_debug : {I : Type 0} → Bool → Config I → Option Helper → Result (Config I × Helper)
with_debug flag cfg none = err (panic "nil pointer: cfg.DebugHelper")
with_debug flag cfg (some h) =
    let h' = record h { shim_debug = flag } in ok (record cfg { debug_helper = some h' }, h')

abbrev pub level_to_set : Level × Bool → Option Level
level_to_set (level, true) = some level
level_to_set (level, false) = none

abbrev pub parsed_opts : Option Bool → Result Bool
parsed_opts none = err (errorf "failed to parse containerd shim opts from context" [])
parsed_opts (some flag) = ok flag

module _ {I : Type 0} (env : Environment I) where
  abbrev pub Run : Type 0 → Type 0
  Run A = Act (Unit {0}) A

  -- The directory of the VM, when there is one yet.
  unfoldable pub dir_for : Config I → String → Result Bytes
  dir_for cfg ns =
      if env.vm_id == "" then ok [] else elim (env.shim_dir cfg.shim_base_dir ns env.vm_id) [
        | ok dir ↦ ok dir
        | err e ↦ err (wrap "invalid shim directory" e)
      ]

  -- `serveFCControl` behind its guard, and whole: whether the control API is served.
  unfoldable pub serve_socket : Run Bool
  serve_socket = do
    attempt env.new_server
    fd ← wrapping "failed to parse fccontrol socket FD value" (lift (env.atoi env.socket_fd))
    attempt (env.listener fd)
    pure true

  unfoldable pub serve_fc_control : Run Bool
  unfolding serve_socket
  serve_fc_control = if env.socket_fd == "" then pure false else serve_socket

  -- `NewService`
  unfoldable pub new_service : Run (Started I)
  unfolding dir_for serve_fc_control
  new_service = do
    cfg ← lift env.config
    flag ← lift (parsed_opts env.opts)
    (cfg', helper) ← lift (with_debug flag cfg cfg.debug_helper)
    let ns = or_default env.namespace
    dir ← lift (dir_for cfg' ns)
    let level = level_to_set (get_firecracker_containerd_log_level helper)
    serving ← wrapping "failed to start fccontrol server" serve_fc_control
    pure (record {
      vm_id = env.vm_id;
      namespace = ns;
      shim_dir = dir;
      config = cfg';
      log_level = level;
      serves_control = serving;
    })

-- The request to the plugin, as far as `StartShim` fills it.
pub record VmRequest : Type 0 where
  pub vm_id : String
  pub exit_after_all_tasks_deleted : Bool
  pub container_count : ℕ

-- What `StartShim` changes: the VM's ID of its service, and the requests sent so far.
pub record Starting : Type 0 where
  pub vm_id : String
  pub requests : List VmRequest

-- What it is told: the log, the working directory, the bundle's config.json, a new UUID, the
-- connection to the plugin with its answers, and containerd's `SocketAddress`.
pub record World : Type 0 where
  pub open_log : Option Error
  pub getwd : Result Bytes
  pub files : ConfigFile
  pub new_uuid : Result String
  pub new_client : Option Error
  pub create_vm : VmRequest → Option Error
  pub socket_address : String → Result String

-- An answer that the VM is there already is as good as none.
abbrev pub unless_exists : Option Error → Result (Unit {0})
unless_exists none = ok tt
unless_exists (some (status already_exists msg)) = ok tt
unless_exists (some e) = err (wrap "unexpected error from CreateVM" e)

-- A VM for one task ends with it, and has one container.
abbrev pub request_for : Bool → String → VmRequest
request_for alone id = record {
  vm_id = id;
  exit_after_all_tasks_deleted = alone;
  container_count = if alone then 1 else 0;
}

module _ (w : World) where
  unfoldable pub new_vm : Act Starting Bool
  new_vm = do
    uuid ← wrapping "failed to generate UUID for VMID" (lift w.new_uuid)
    modify (λ s. record s { vm_id = uuid })
    pure true

  -- `s.vmID, err = bundleDir.OCIConfig().VMID()`: an error leaves no ID.
  abbrev pub value_or_empty : Result String → String
  value_or_empty (ok v) = v
  value_or_empty (err e) = ""

  abbrev pub read_vm_id : Result String → Act Starting String
  read_vm_id r s = (r, record s { vm_id = value_or_empty r })

  -- The ID of the VM, and whether the VM is made for the one task.
  unfoldable pub choose_vm : String → Act Starting Bool
  unfolding new_vm
  choose_vm asked = if asked == "" then new_vm else pure false

  unfoldable pub request_vm : VmRequest → Act Starting (Unit {0})
  request_vm req s = (unless_exists (w.create_vm req), record s { requests = req ∷ s.requests })

  -- `StartShim`
  unfoldable pub start_shim : Act Starting String
  unfolding choose_vm request_vm
  start_shim = do
    attempt w.open_log
    bundle ← wrapping "failed to get current working directory" (lift w.getwd)
    asked ← read_vm_id (vm_id w.files bundle)
    alone ← choose_vm asked
    attempt w.new_client
    id ← gets (λ s. s.vm_id)
    request_vm (request_for alone id)
    lift (w.socket_address id)
