-- ===== src/Jailer/Spec.antt =====
-- runtime/runc_jailer.go: the specification that runc is given, `overwriteConfig` and
-- `setDefaultConfigValues`. The command of `VMCommandBuilder` and the JSON encoder are arguments. A
-- field that is a pointer is an `Option`; what the code reads through a nil pointer is a panic.
use abschlussarbeit.Common.{
  ℕ, String, Bool, false, Option, none, some, List, [], ◌∷◌, ◌||◌, not, eqb, if◌then◌else◌, ◌==◌,
  errorf, panic, Result, ok, err,
}
use abschlussarbeit.Common.Bytes.{Bytes, codes}
use abschlussarbeit.Jailer.{JailConfig, cgroup_path}

-- The parts of `specs.Spec` that are read or written.
pub record Process : Type 0 where
  pub uid : ℕ
  pub gid : ℕ
  pub args : Option (List Bytes)

pub record Root : Type 0 where
  pub path : Bytes
  pub readonly : Bool

pub record Namespace : Type 0 where
  pub kind : String
  pub path : Bytes

pub record LinuxCpu : Type 0 where
  pub cpus : String
  pub mems : String

pub record Linux : Type 0 where
  pub namespaces : List Namespace
  pub cgroups_path : Bytes
  pub resources : Option (Option LinuxCpu)

pub record Spec : Type 0 where
  pub process : Option Process
  pub root : Option Root
  pub linux : Option Linux

-- `getNetNS`
unfoldable pub net_ns_of : List Namespace → Bytes
net_ns_of [] = []
net_ns_of (ns ∷ rest) = if ns.kind == "network" then ns.path else net_ns_of rest

-- The loop over the namespaces: the first network namespace gets the path, and the loop ends.
unfoldable pub set_net_ns : Bytes → List Namespace → List Namespace
set_net_ns path [] = []
set_net_ns path (ns ∷ rest) =
    if ns.kind == "network" then record ns { path = path } ∷ rest else ns ∷ set_net_ns path rest

abbrev pub if_given : Bytes → List Namespace → List Namespace
if_given [] namespaces = namespaces
if_given (c ∷ path) namespaces = set_net_ns (c ∷ path) namespaces

-- `setDefaultConfigValues`, at a process that is there.
abbrev pub args_or : List Bytes → Option (List Bytes) → Option (List Bytes)
args_or default none = some default
args_or default (some args) = some args

module _ (command : Bytes → Bytes → List Bytes) (cfg : JailConfig)
    (vm_id net_ns socket : Bytes) where
  unfoldable pub default_args : List Bytes
  default_args = command (codes "/firecracker") socket

  -- What is written to the parts of the specification that are there.
  unfoldable pub overwritten : Process → Root → Linux → Spec
  unfolding default_args
  overwritten p r l = record {
    process = some (record { uid = cfg.uid; gid = cfg.gid; args = args_or default_args p.args });
    root = some (record { path = codes "rootfs"; readonly = false });
    linux = some (record {
      namespaces = if_given net_ns l.namespaces;
      cgroups_path = cgroup_path cfg vm_id;
      resources = some (some (record { cpus = cfg.cpus; mems = cfg.mems }));
    });
  }

  abbrev pub with_linux : Process → Option Root → Option Linux → Result Spec
  with_linux p r none = err (panic "nil pointer: spec.Linux")
  with_linux p none (some l) = err (panic "nil pointer: spec.Root")
  with_linux p (some r) (some l) = ok (overwritten p r l)

  abbrev pub with_process : Option Process → Option Root → Option Linux → Result Spec
  with_process none r l = err (panic "nil pointer: spec.Process")
  with_process (some p) r l =
      if not (eqb p.uid 0) || not (eqb p.gid 0)
      then err (errorf "using UID %d and GID %d, these values must not be set" [])
      else with_linux p r l

  -- `overwriteConfig` up to the encoding: the user of the process is read before
  -- `setDefaultConfigValues` would put a process where there is none.
  unfoldable pub overwrite_config : Spec → Result Spec
  unfolding overwritten
  overwrite_config spec = with_process spec.process spec.root spec.linux
