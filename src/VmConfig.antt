-- ===== src/VmConfig.antt =====
-- runtime/service.go and runtime/helpers.go: the configuration of the VM, which
-- `buildVMConfiguration` makes of a CreateVM request and the runtime's configuration. The drives
-- builder of the Firecracker SDK is an argument.
pub mod Network
pub mod Drives
pub mod Machine
use abschlussarbeit.Common.{
  ℕ, String, Bool, true, false, not, ◌||◌, ltb, if◌then◌else◌, Option, none, some, List, [], ◌∷◌,
  ◌++◌, Error, errorf, panic, Result, ok, err, wrap,
}
use abschlussarbeit.Common.Act.{Act, pure, lift, gets, modify, wrapping, wrap_result, ◌>>=◌, ◌>>◌}
use abschlussarbeit.Common.Bytes.{Bytes, codes}
use abschlussarbeit.Common.FilePath.{slash, has_prefix}
use abschlussarbeit.Proto.{
  Int64, positive, negative, RateLimiter, DriveMount, RootDrive, MachineRequest, NetworkInterface,
  CreateVmRequest,
}
use abschlussarbeit.RateLimit.{BucketBuilder, LimiterModel, rate_limiter_from_proto}
use abschlussarbeit.LogLevels.{Helper, get_firecracker_log_level}
use abschlussarbeit.StubDrive.Create.{StubDrive, DriveModel, Files, create_drive_mount_stubs}
use abschlussarbeit.StubDrive.Handler.{StubDriveHandler, create_container_stubs}
use abschlussarbeit.VmDir.{
  Dir, Paths, firecracker_sock_rel_path, firecracker_vsock_rel_path, firecracker_log_fifo_path,
  firecracker_metrics_fifo_path,
}
use abschlussarbeit.Jailer.{Jail, jail_path, stub_drives_options}
use abschlussarbeit.VmConfig.Network.{Net, InterfaceModel, network_configs}
use abschlussarbeit.StubDrive.Create
use abschlussarbeit.Settings
use abschlussarbeit.VmDir
use abschlussarbeit.VmConfig.Machine.{MachineModel, machine_configuration_from_proto, or_else}

-- The loop that looks for relative paths.
unfoldable pub check_mounts : List DriveMount → Result (Unit {0})
check_mounts [] = ok tt
check_mounts (m ∷ ms) =
    if not (has_prefix m.host_path (slash ∷ [])) || not (has_prefix m.vm_path (slash ∷ []))
    then err (errorf "driveMount %s contains relative path" [])
    else check_mounts ms

-- The number of containers is at least one.
unfoldable pub containers_for : Int64 → ℕ
containers_for (positive n) = if ltb n 1 then 1 else n
containers_for (negative n) = 1

-- The interfaces of the request, or the default ones where it has a nil slice.
unfoldable pub interfaces_for :
    List NetworkInterface → Option (List NetworkInterface) → List NetworkInterface
interfaces_for defaults none = defaults
interfaces_for defaults (some l) = l

-- `GetFirecrackerLogLevel` of the configuration's helper
abbrev pub level_of : Option Helper → Result String
level_of none = err (panic "nil pointer: config.DebugHelper")
level_of (some h) = ok (get_firecracker_log_level h)

abbrev pub ns_for : Option Bytes → Bytes
ns_for none = []
ns_for (some ns) = ns

-- `firecracker.Config`, without the process that runs it.
pub record VmConfiguration (Ip Mask Bucket : Type 0) : Type 0 where
  pub socket_path : Bytes
  pub vsock_path : Bytes
  pub vsock_id : Bytes
  pub log_fifo : Bytes
  pub metrics_fifo : Bytes
  pub machine_cfg : MachineModel
  pub log_level : String
  pub vm_id : String
  pub net_ns : Bytes
  pub kernel_args : Bytes
  pub kernel_image_path : Bytes
  pub drives : List (DriveModel Bucket)
  pub network_interfaces : List (InterfaceModel Ip Mask Bucket)

-- What is changed on the way: the drives of the configuration with the calls for the stub files, and
-- the two fields of the service.
pub record Building (Bucket : Type 0) : Type 0 where
  pub config : Create.Config Bucket
  pub container_stub_handler : Option StubDriveHandler
  pub drive_mount_stubs : List StubDrive

abbrev pub handler_of : Result StubDriveHandler → Option StubDriveHandler
handler_of (ok h) = some h
handler_of (err e) = none

abbrev pub stubs_of : Result (List StubDrive) → List StubDrive
stubs_of (ok l) = l
stubs_of (err e) = []

module _ {B : Type 0} where
  -- `s.containerStubHandler, err = ...`: the field is nil after an error.
  abbrev pub keep_handler :
      Act (Create.Config B) StubDriveHandler → Act (Building B) StubDriveHandler
  keep_handler m b =
      let (r, c) = m b.config in (r, record b { config = c; container_stub_handler = handler_of r })

  -- `s.driveMountStubs, err = ...`
  abbrev pub keep_stubs : Act (Create.Config B) (List StubDrive) → Act (Building B) (List StubDrive)
  keep_stubs m b =
      let (r, c) = m b.config in (r, record b { config = c; drive_mount_stubs = stubs_of r })

  abbrev pub set_drives : List (DriveModel B) → Building B → Building B
  set_drives drives b = record b { config = record b.config { drives = drives } }

module _ (sdk : BucketBuilder) (net : Net) where
  open sdk use {Bucket}
  open net use {Ip, Mask}

  -- The shim that builds the configuration: what its service has, what the operating system does,
  -- and the SDK's `DrivesBuilder` with `WithRootDrive`, whose options may be left out.
  pub record Shim : Type 0 where
    pub shim_dir : Dir
    pub jail : Jail
    pub config : Settings.Config NetworkInterface
    pub vm_id : String
    pub paths : Paths
    pub files : Files
    pub with_root_drive :
        Bytes → Bool → Option Bytes → Option (LimiterModel Bucket) → List (DriveModel Bucket)

  module _ (shim : Shim) where
    open shim use {shim_dir, jail, config, vm_id, paths, files, with_root_drive}

    -- `buildRootDrive`
    unfoldable pub build_root_drive : Option RootDrive → List (DriveModel Bucket)
    build_root_drive none = with_root_drive config.root_drive true none none
    build_root_drive (some input) =
        with_root_drive input.host_path (not input.is_writable) (some input.partuuid)
          (rate_limiter_from_proto sdk input.rate_limiter)

    module _ (req : CreateVmRequest) where
      -- The stub drives behind the root drive: those of the containers, then those of the mounts.
      unfoldable pub make_drives : Act (Building Bucket) (Unit {0})
      unfolding build_root_drive
      make_drives =
          let root = VmDir.root_path (jail_path jail) in
          let options = stub_drives_options jail in
          do
            modify (set_drives (build_root_drive req.root_drive))
            keep_handler (
                wrapping "failed to create container stub drives" (
                  create_container_stubs sdk files root options
                    (containers_for req.container_count)))
            keep_stubs (
                wrapping "failed to create drive mount stub drives"
                  (create_drive_mount_stubs sdk files root options req.drive_mounts))
            pure tt

      abbrev assembled :
          Bytes
          → Bytes
          → String
          → List (InterfaceModel Ip Mask Bucket)
          → Building Bucket
          → VmConfiguration Ip Mask Bucket
      assembled sock vsock level interfaces b = record {
        socket_path = sock;
        vsock_path = vsock;
        vsock_id = codes "agent_api";
        log_fifo = firecracker_log_fifo_path shim_dir;
        metrics_fifo = firecracker_metrics_fifo_path shim_dir;
        machine_cfg = machine_configuration_from_proto config req.machine_cfg;
        log_level = level;
        vm_id = vm_id;
        net_ns = ns_for req.net_ns;
        kernel_args = or_else req.kernel_args config.kernel_args;
        kernel_image_path = or_else req.kernel_image_path config.kernel_image_path;
        drives = b.config.drives;
        network_interfaces = interfaces;
      }

      -- `buildVMConfiguration`
      unfoldable pub build_vm_configuration : Act (Building Bucket) (VmConfiguration Ip Mask Bucket)
      unfolding make_drives
      build_vm_configuration = do
        lift (check_mounts req.drive_mounts)
        sock ← lift (
            wrap_result "failed to get relative path to firecracker api socket"
              (firecracker_sock_rel_path paths shim_dir))
        vsock ← lift (
            wrap_result "failed to get relative path to firecracker vsock"
              (firecracker_vsock_rel_path paths (jail_path jail)))
        level ← lift (level_of config.debug_helper)
        make_drives
        interfaces ← lift (
            network_configs net sdk
              (interfaces_for config.default_network_interfaces req.network_interfaces))
        gets (assembled sock vsock level interfaces)
