-- ===== src/ShimTasks.antt =====
-- runtime/service.go: the task service of the shim. It combines the stub drives, the task manager and
-- the vsock ports; `ShimHost` is what the calls out of the shim answer. `defer logPanicAndDie` and the
-- log are left out, so that a panic is the error `panic` here, after which the process is gone.
pub mod Steps
pub mod Drives
pub mod Rounds
pub mod Streams
pub mod Forwarding
pub mod Deletion
use abschlussarbeit.Common.{
  ℕ, String, Bool, true, false, Option, none, some, List, [], ◌∷◌, ◌==◌, if◌then◌else◌, Error,
  errorf, wrap, not_exist, panic, join, Result, ok, err, of_error, error_of,
}
use abschlussarbeit.Common.Act.{
  Act, pure, raise, lift, attempt, modify, wrapping, caught, ◌>>=◌, ◌>>◌,
}
use abschlussarbeit.Common.Bytes.{Bytes, codes}
use abschlussarbeit.Common.Calls.{Answers}
use abschlussarbeit.TaskManager.{TaskManager, Launch, create_task, exec_process, delete_process}
use abschlussarbeit.StubDrive.Handler.{Vm, VmCall, reserve, release}
use abschlussarbeit.ShimService.Ports.{generate_extra_data}
use abschlussarbeit.Proto.{ExtraData, TaskRequest}
use abschlussarbeit.IoProxy.{
  read_fifo, write_fifo, vsock_dial, IoConnectorPair, IoProxy, connector_set, null_io_proxy,
  is_agent_only_io,
}
use abschlussarbeit.AgentService.{unless_empty}
use abschlussarbeit.VmDir
use abschlussarbeit.VmDir.{Paths}
use abschlussarbeit.Bundle.{vm_bundle_dir, root_path, rootfs_path, oci_config_path}

-- The calls to the file system and to the agent.
pub data TaskCall : Type 0 where
  symlink : Bytes → Bytes → TaskCall
  read_file : Bytes → TaskCall
  stat : Bytes → TaskCall
  remove : Bytes → TaskCall
  agent : String → TaskCall

-- The fields of `service` that the task methods use: `drives` is `containerStubHandler`.
pub record ShimTasks : Type 0 where
  pub drives : Vm
  pub manager : TaskManager
  pub vsock_io_port_count : ℕ
  pub calls : List TaskCall

pub record ShimHost : Type 0 where
  pub ready : Option Error
  pub validate : String → Option Error
  pub shim_dir : VmDir.Dir
  pub jail_path : VmDir.Dir
  pub paths : Paths
  pub url_scheme : Bytes → Result Bytes
  pub symlink : List TaskCall → Bytes → Bytes → Option Error
  pub read_file : List TaskCall → Bytes → Result Bytes
  pub stat : List TaskCall → Bytes → Option Error
  pub remove : List TaskCall → Bytes → Option Error
  pub marshal : ExtraData Bytes → Result Bytes
  pub vm_answers : Answers VmCall

abbrev pub noting : TaskCall → ShimTasks → ShimTasks
noting c s = record s { calls = c ∷ s.calls }

abbrev pub on_drives : {A : Type 0} → Act Vm A → Act ShimTasks A
on_drives m s = let (r, v) = m s.drives in (r, record s { drives = v })

abbrev pub managing : {A : Type 0} → Act TaskManager A → Act ShimTasks A
managing m s = let (r, t) = m s.manager in (r, record s { manager = t })

-- `generateExtraData` with the count of the ports, which stays where the last port was given.
abbrev pub counted : Option (ExtraData Bytes × ℕ) → ShimTasks → Result (ExtraData Bytes) × ShimTasks
counted none s = (err (panic "overflow of vsock ports"), s)
counted (some (extra, count)) s = (ok extra, record s { vsock_io_port_count = count })

unfoldable pub generate : Bytes → Option Bytes → Act ShimTasks (ExtraData Bytes)
generate json options s = counted (generate_extra_data json options s.vsock_io_port_count) s

-- Only one mount can be exposed to the VM for a container.
unfoldable pub only_mount : List Bytes → Result Bytes
only_mount (source ∷ []) = ok source
only_mount _ = err (errorf "can only support rootfs with exactly one mount: %+v" [])

-- The connectors between the request's FIFOs and vsock.
unfoldable pub shim_proxy : Bytes → ExtraData Bytes → TaskRequest → IoProxy
shim_proxy path extra req =
    connector_set
      (unless_empty req.stdin (record {
        read_connector = read_fifo req.stdin;
        write_connector = vsock_dial path extra.stdin_port;
      }))
      (unless_empty req.stdout (record {
        read_connector = vsock_dial path extra.stdout_port;
        write_connector = write_fifo req.stdout;
      }))
      (unless_empty req.stderr (record {
        read_connector = vsock_dial path extra.stderr_port;
        write_connector = write_fifo req.stderr;
      }))

module _ (host : ShimHost) where
  unfoldable pub make_symlink : Bytes → Bytes → Act ShimTasks (Unit {0})
  make_symlink old_path new_path s =
      (of_error (host.symlink s.calls old_path new_path), noting (symlink old_path new_path) s)

  -- `newIOProxy`
  unfoldable pub new_io_proxy : ExtraData Bytes → TaskRequest → Result IoProxy
  unfolding shim_proxy
  new_io_proxy extra req = elim (VmDir.firecracker_vsock_rel_path host.paths host.jail_path) [
    | err e ↦ err (wrap "failed to get relative path to firecracker vsock" e)
    | ok path ↦
        if is_agent_only_io (host.url_scheme req.stdout)
        then ok null_io_proxy
        else ok (shim_proxy path extra req)
  ]

  -- `OCIConfig.Bytes`
  unfoldable pub oci_config_bytes : Bytes → Act ShimTasks Bytes
  oci_config_bytes dir =
      let path = oci_config_path dir in
      wrapping "failed to read OCI config file %s"
        (λ s. (host.read_file s.calls path, noting (read_file path) s))

  -- The extra data for the agent, as it is sent, and the IO proxy. `generateExtraData` itself returns
  -- no error.
  unfoldable pub prepare_io : Bytes → TaskRequest → Act ShimTasks (Bytes × IoProxy)
  unfolding generate new_io_proxy
  prepare_io json req = do
    extra ← generate json req.options
    options ← wrapping "failed to marshal extra data" (lift (host.marshal extra))
    proxy ← lift (new_io_proxy extra req)
    pure (options, proxy)

  -- The links in the shim's directory, with which `Create` begins.
  unfoldable pub link_bundle : TaskRequest → Act ShimTasks (Unit {0})
  unfolding make_symlink
  link_bundle req = do
    wrapping "failed to create VM dir bundle link"
        (VmDir.create_bundle_link host.validate make_symlink host.shim_dir req.id req.bundle)
    wrapping "failed to create shim address symlink"
        (VmDir.create_address_link host.validate make_symlink host.shim_dir req.id)

  -- `Create` up to the point where it takes a drive: the source of the root file system.
  unfoldable pub find_rootfs : TaskRequest → Act ShimTasks Bytes
  unfolding link_bundle only_mount
  find_rootfs req = do attempt host.ready; link_bundle req; lift (only_mount req.rootfs)

  -- The stub drive of the container, with its root file system.
  unfoldable pub reserve_drive : TaskRequest → Bytes → Act ShimTasks (Unit {0})
  reserve_drive req source = wrapping "failed to get stub drive for task %q" (
      on_drives (
        reserve host.vm_answers req.id source (rootfs_path (vm_bundle_dir (codes req.id))) "ext4"
          []))

  module _ {A : Type 0} (launch : TaskRequest → IoProxy → Launch A) where
    -- The request that is sent to the agent.
    abbrev pub sent : TaskRequest → Bytes → TaskRequest
    sent req options = record req {
      bundle = root_path (vm_bundle_dir (codes req.id));
      rootfs = [];
      options = some options;
    }

    -- `Create` from the point on where the container has its drive.
    unfoldable pub create_reserved : TaskRequest → Act ShimTasks A
    unfolding oci_config_bytes prepare_io
    create_reserved req = do
      json ← oci_config_bytes req.bundle
      (options, proxy) ← prepare_io json req
      wrapping "failed to create task"
          (managing (create_task req.id (launch (sent req options) proxy)))

    -- `Create`; `launch` is what the agent and the IO answer.
    unfoldable pub create : TaskRequest → Act ShimTasks A
    unfolding find_rootfs reserve_drive create_reserved
    create req = do source ← find_rootfs req; reserve_drive req source; create_reserved req

    -- `Exec`
    unfoldable pub exec : TaskRequest → Act ShimTasks A
    unfolding prepare_io
    exec req = do
      (options, proxy) ← prepare_io [] req
      managing
          (exec_process req.id req.exec_id (launch (record req { options = some options }) proxy))
