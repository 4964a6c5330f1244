-- ===== src/Proto.antt =====
-- The messages of proto/types.proto and proto/firecracker.proto that the runtime reads, as far as
-- it reads them. A message that may be nil is an `Option`.
use abschlussarbeit.Common.{ℕ, String, Bool, Option, List}
use abschlussarbeit.Common.Bytes.{Bytes}

-- An `int64`: `negative n` is -(n + 1).
pub data Int64 : Type 0 where
  positive : ℕ → Int64
  negative : ℕ → Int64

-- `FirecrackerTokenBucket`
pub record TokenBucket : Type 0 where
  pub one_time_burst : Int64
  pub refill_time : Int64
  pub capacity : Int64

-- `FirecrackerRateLimiter`
pub record RateLimiter : Type 0 where
  pub bandwidth : Option TokenBucket
  pub ops : Option TokenBucket

-- `FirecrackerDriveMount`
pub record DriveMount : Type 0 where
  pub host_path : Bytes
  pub vm_path : Bytes
  pub filesystem_type : String
  pub options : List String
  pub is_writable : Bool
  pub rate_limiter : Option RateLimiter

-- `ExtraData`
pub record ExtraData (Any : Type 0) : Type 0 where
  pub json_spec : Bytes
  pub runc_options : Option Any
  pub stdin_port : ℕ
  pub stdout_port : ℕ
  pub stderr_port : ℕ

-- containerd's `CreateTaskRequest` and `ExecProcessRequest`, as far as the shim and the agent read
-- them: `options` is `Options` or `Spec`, an `Any` or nil, and `rootfs` has the sources of the mounts.
pub record TaskRequest : Type 0 where
  pub id : String
  pub exec_id : String
  pub bundle : Bytes
  pub rootfs : List Bytes
  pub stdin : Bytes
  pub stdout : Bytes
  pub stderr : Bytes
  pub terminal : Bool
  pub options : Option Bytes

-- `FirecrackerRootDrive`
pub record RootDrive : Type 0 where
  pub host_path : Bytes
  pub partuuid : Bytes
  pub is_writable : Bool
  pub rate_limiter : Option RateLimiter

-- `FirecrackerMachineConfiguration`
pub record MachineRequest : Type 0 where
  pub cpu_template : Bytes
  pub ht_enabled : Bool
  pub mem_size_mib : ℕ
  pub vcpu_count : ℕ

-- `IPConfiguration`
pub record IpConfig : Type 0 where
  pub primary_addr : Bytes
  pub gateway_addr : Bytes
  pub nameservers : List Bytes

-- `StaticNetworkConfiguration`
pub record StaticConfig : Type 0 where
  pub mac_address : Bytes
  pub host_dev_name : Bytes
  pub ip_config : Option IpConfig

-- `CNIConfiguration`; an argument is a key with its value.
pub record CniConfig : Type 0 where
  pub network_name : Bytes
  pub interface_name : Bytes
  pub bin_path : List Bytes
  pub conf_dir : Bytes
  pub cache_dir : Bytes
  pub args : List (Bytes × Bytes)

-- `FirecrackerNetworkInterface`
pub record NetworkInterface : Type 0 where
  pub allow_mmds : Bool
  pub in_rate_limiter : Option RateLimiter
  pub out_rate_limiter : Option RateLimiter
  pub static_config : Option StaticConfig
  pub cni_config : Option CniConfig

-- `CreateVMRequest`: `net_ns` is the one of the jailer's configuration, if there is one, and
-- `network_interfaces` may be a nil slice.
pub record CreateVmRequest : Type 0 where
  pub machine_cfg : Option MachineRequest
  pub kernel_args : Bytes
  pub kernel_image_path : Bytes
  pub root_drive : Option RootDrive
  pub drive_mounts : List DriveMount
  pub container_count : Int64
  pub network_interfaces : Option (List NetworkInterface)
  pub net_ns : Option Bytes
