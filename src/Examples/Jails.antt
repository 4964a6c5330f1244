-- ===== src/Examples/Jails.antt =====
-- The jail of runtime/runc_jailer.go on concrete inputs.
use abschlussarbeit.Common.{true, none, List, [], ◌∷◌, ◌≡◌, refl, ok, arith, All}
use abschlussarbeit.Common.Bytes.{Bytes, codes, bytes_eq}
use abschlussarbeit.Common.FilePath.{is_rooted, base, split}
use abschlussarbeit.Common.FilePath.Plain.{IsPlain}
use abschlussarbeit.Common.FilePath.Plain.Rooted.{path_of}
use abschlussarbeit.Jailer.{JailConfig, regular, expose_file_to_jail}
use abschlussarbeit.Jailer.Confinement.{IsConfined, root_parts, expose_file_to_jail-IsConfined}
use abschlussarbeit.Common.FilePath

abbrev bundle : List Bytes
bundle = codes "run" ∷ codes "vm" ∷ []

abbrev cfg : JailConfig
cfg = record {
  oci_bundle_path = codes "/run/vm";
  runc_bin_path = codes "/usr/bin/runc";
  runc_config_path = codes "/etc/runc.json";
  uid = 1000;
  gid = 1000;
  cpus = "0";
  mems = "0";
  cgroup_path = [];
}

run-IsPlain : IsPlain (codes "run")
unfolding bytes_eq
run-IsPlain = record {
  no_slash = ground arith;
  some_byte = refl;
  not_dot = refl;
  not_dot_dot = refl;
}

vm-IsPlain : IsPlain (codes "vm")
unfolding bytes_eq
vm-IsPlain = record {
  no_slash = ground arith;
  some_byte = refl;
  not_dot = refl;
  not_dot_dot = refl;
}

-- A path that tries to leave the jail.
abbrev src : Bytes
src = codes "/a/../../disk"

disk-IsPlain : IsPlain (base src)
unfolding base bytes_eq
disk-IsPlain = record {
  no_slash = ground arith;
  some_byte = refl;
  not_dot = refl;
  not_dot_dot = refl;
}

bundle-path : cfg.oci_bundle_path ≡ path_of bundle
unfolding FilePath.join_parts
bundle-path = refl

src_rooted : is_rooted src ≡ true
unfolding is_rooted
src_rooted = refl

expose_file_to_jail-IsConfined_example :
    All
      (IsConfined (root_parts bundle))
      (expose_file_to_jail (λ calls c. none) cfg src (ok (regular 384)) []).1
expose_file_to_jail-IsConfined_example =
    expose_file_to_jail-IsConfined cfg bundle (run-IsPlain, (vm-IsPlain, tt)) bundle-path src
      src_rooted disk-IsPlain (λ calls c. none) (ok (regular 384)) [] tt
