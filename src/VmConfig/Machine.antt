-- ===== src/VmConfig/Machine.antt =====
-- machineConfigurationFromProto of runtime/helpers.go.
use abschlussarbeit.Common.{ℕ, Bool, ltb, if◌then◌else◌, Option, none, some, [], ◌∷◌}
use abschlussarbeit.Common.Bytes.{Bytes}
use abschlussarbeit.Proto.{MachineRequest}
use abschlussarbeit.Settings

-- `models.MachineConfiguration`
pub record MachineModel : Type 0 where
  pub cpu_template : Bytes
  pub vcpu_count : ℕ
  pub mem_size_mib : ℕ
  pub ht_enabled : Bool

abbrev pub or_else : Bytes → Bytes → Bytes
or_else [] default = default
or_else (c ∷ name) default = c ∷ name

abbrev pub count_or : ℕ → ℕ → ℕ
count_or n default = if ltb 0 n then n else default

-- `machineConfigurationFromProto`, with `defaultCPUCount` and `defaultMemSizeMb`.
unfoldable pub machine_configuration_from_proto :
    {I : Type 0} → Settings.Config I → Option MachineRequest → MachineModel
machine_configuration_from_proto cfg none = record {
  cpu_template = cfg.cpu_template;
  vcpu_count = 1;
  mem_size_mib = 128;
  ht_enabled = cfg.ht_enabled;
}
machine_configuration_from_proto cfg (some req) = record {
  cpu_template = or_else req.cpu_template cfg.cpu_template;
  vcpu_count = count_or req.vcpu_count 1;
  mem_size_mib = count_or req.mem_size_mib 128;
  ht_enabled = req.ht_enabled;
}
