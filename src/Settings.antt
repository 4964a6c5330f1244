-- ===== src/Settings.antt =====
-- config/config.go: the runtime's configuration file. Reading the environment and the file, and
-- `json.Unmarshal`, which writes over the defaults, are arguments.
use abschlussarbeit.Common.{
  Bool, false, List, [], ◌++◌, if◌then◌else◌, Option, none, some, Result, ok, err, wrap,
}
use abschlussarbeit.Common.Bytes.{Bytes, codes, bytes_eq}
use abschlussarbeit.LogLevels.{Helper, new}

-- `JailerConfig`
pub record JailerConfig : Type 0 where
  pub runc_binary_path : Bytes
  pub runc_config_path : Bytes

-- `Config`; `Interface` stands for the network interface messages. The helper is there only when
-- the file was read.
pub record Config (Interface : Type 0) : Type 0 where
  pub firecracker_binary_path : Bytes
  pub kernel_image_path : Bytes
  pub kernel_args : Bytes
  pub root_drive : Bytes
  pub cpu_template : Bytes
  pub log_levels : List Bytes
  pub ht_enabled : Bool
  pub default_network_interfaces : List Interface
  pub shim_base_dir : Bytes
  pub jailer_config : JailerConfig
  pub debug_helper : Option Helper

abbrev default_files_path : Bytes
default_files_path = codes "/var/lib/firecracker-containerd/runtime/"

abbrev pub default_config_path : Bytes
default_config_path = codes "/etc/containerd/firecracker-runtime.json"

-- The defaults of `LoadConfig`; `cpu_template` is `models.CPUTemplateT2`.
unfoldable pub default_config : {Interface : Type 0} → Bytes → Config Interface
default_config cpu_template = record {
  firecracker_binary_path = [];
  kernel_image_path = default_files_path ++ codes "default-vmlinux.bin";
  kernel_args = codes "console=ttyS0 noapic reboot=k panic=1 pci=off nomodules rw";
  root_drive = default_files_path ++ codes "default-rootfs.img";
  cpu_template = cpu_template;
  log_levels = [];
  ht_enabled = false;
  default_network_interfaces = [];
  shim_base_dir = codes "/var/lib/firecracker-containerd/shim-base";
  jailer_config = record {
    runc_binary_path = [];
    runc_config_path = codes "/etc/containerd/firecracker-runc-config.json";
  };
  debug_helper = none;
}

-- What `LoadConfig` reads.
pub record Source (Interface : Type 0) : Type 0 where
  pub from_environment : Bytes
  pub read_file : Bytes → Result Bytes
  pub unmarshal : Bytes → Config Interface → Result (Config Interface)
  pub template_t2 : Bytes

-- The path that is read: the one given, or the environment's, or the default.
unfoldable pub config_path : Bytes → Bytes → Bytes
config_path path from_environment =
    let chosen = if bytes_eq path [] then from_environment else path in
    if bytes_eq chosen [] then default_config_path else chosen

abbrev with_helper :
    {Interface : Type 0} → Config Interface → Result Helper → Result (Config Interface)
with_helper cfg (ok h) = ok (record cfg { debug_helper = some h })
with_helper cfg (err e) = err e

abbrev with_values : {Interface : Type 0} → Result (Config Interface) → Result (Config Interface)
with_values (ok cfg) = with_helper cfg (new cfg.log_levels)
with_values (err e) = err (wrap "failed to unmarshal config from %q" e)

abbrev with_data :
    {Interface : Type 0}
    → (Bytes → Config Interface → Result (Config Interface))
    → Bytes
    → Result Bytes
    → Result (Config Interface)
with_data unmarshal template (ok data_) = with_values (unmarshal data_ (default_config template))
with_data unmarshal template (err e) = err (wrap "failed to read config from %q" e)

-- `LoadConfig`
unfoldable pub load_config :
    {Interface : Type 0} → Source Interface → Bytes → Result (Config Interface)
load_config s path =
    with_data s.unmarshal s.template_t2 (s.read_file (config_path path s.from_environment))
