-- ===== src/Examples/Configs.antt =====
-- The configuration that runtime/service.go builds, on a concrete request.
use abschlussarbeit.Common.{false, none, some, [], ◌∷◌, ok}
use abschlussarbeit.Common.Bytes.{codes}
use abschlussarbeit.Common.Base32
use abschlussarbeit.Proto.{positive, NetworkInterface, CreateVmRequest}
use abschlussarbeit.LogLevels.{blank}
use abschlussarbeit.Jailer.{noop}
use abschlussarbeit.VmConfig.Network.{Net}
use abschlussarbeit.VmConfig.{Shim, Building, VmConfiguration}
use abschlussarbeit.Settings.{Config, default_config}
use abschlussarbeit.Examples.Drives.{plain_sdk, plain_files}
use abschlussarbeit.VmDir

abbrev net : Net
net = record {
  Ip = Unit {0};
  Mask = Unit {0};
  parse_cidr = λ addr. ok (tt, tt);
  parse_ip = λ addr. none;
}

abbrev settings : Config NetworkInterface
settings = record (default_config (codes "T2")) { debug_helper = some (blank []) }

abbrev shim : Shim plain_sdk net
shim = record {
  shim_dir = codes "/vm";
  jail = noop (codes "/vm");
  config = settings;
  vm_id = "vm";
  paths = record { getwd = ok (codes "/"); rel = λ cwd path. ok path };
  files = plain_files;
  with_root_drive = λ path read_only partuuid limiter. [];
}

abbrev request : CreateVmRequest
request = record {
  machine_cfg = none;
  kernel_args = [];
  kernel_image_path = [];
  root_drive = none;
  drive_mounts =
      record {
        host_path = codes "/disk";
        vm_path = codes "/mnt";
        filesystem_type = "ext4";
        options = [];
        is_writable = false;
        rate_limiter = none;
      }
      ∷ [];
  container_count = positive 2;
  network_interfaces = none;
  net_ns = none;
}

abbrev start : Building (Unit {0})
start = record {
  config = record { drives = []; calls = [] };
  container_stub_handler = none;
  drive_mount_stubs = [];
}

abbrev Configuration : Type 0
Configuration = VmConfiguration (Unit {0}) (Unit {0}) (Unit {0})
