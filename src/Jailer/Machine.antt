-- ===== src/Jailer/Machine.antt =====
-- runtime/runc_jailer.go: `BuildJailedMachine` and its two handlers, which bring the files of a machine
-- into the jail and turn the machine's paths into paths in the jail.
use abschlussarbeit.Common.{Bool, List, [], ◌∷◌, map, if◌then◌else◌, Result}
use abschlussarbeit.Common.Act.{Act, pure, lift, modify, wrapping, ◌>>=◌, ◌>>◌}
use abschlussarbeit.Common.Bytes.{Bytes, codes}
use abschlussarbeit.Common.Calls.{Answers, perform}
use abschlussarbeit.Common.FilePath.{base}
use abschlussarbeit.Common.FilePath
use abschlussarbeit.StubContent.{is_stub_drive}
use abschlussarbeit.Jailer.{
  JailCall, open_file, write_file, JailConfig, root_path, copy_file, copy_file_to_jail,
  link_and_chown,
}
use abschlussarbeit.Jailer.Spec.{Spec}

-- A drive of `firecracker.Config`.
pub record JailedDrive : Type 0 where
  pub path_on_host : Bytes
  pub is_read_only : Bool

-- The parts of `firecracker.Config` that the jailer changes.
pub record Machine : Type 0 where
  pub socket_path : Bytes
  pub net_ns : Bytes
  pub kernel_image_path : Bytes
  pub drives : List JailedDrive
  pub vsock_paths : List Bytes
  pub log_fifo : Bytes
  pub metrics_fifo : Bytes

pub record Jailing : Type 0 where
  pub machine : Machine
  pub calls : List JailCall

abbrev pub on_calls : {A : Type 0} → Act (List JailCall) A → Act Jailing A
on_calls m s = let (r, calls) = m s.calls in (r, record s { calls = calls })

abbrev pub on_machine : (Machine → Machine) → Jailing → Jailing
on_machine f s = record s { machine = f s.machine }

-- `BuildJailedMachine`, where `found` is what `getNetNS` finds, with the change that `BuildJailedRootHandler` makes at once.
abbrev pub ns_or : Bytes → Bytes → Bytes
ns_or [] found = found
ns_or (c ∷ ns) found = c ∷ ns

unfoldable pub build_jailed_machine : Bytes → Machine → Machine
build_jailed_machine found m = record m {
  socket_path = FilePath.join (codes "rootfs") (codes "api.socket");
  net_ns = ns_or m.net_ns found;
}

abbrev pub jailed : Bytes → JailedDrive → JailedDrive
jailed name d = record d { path_on_host = name }

module _ (answers : Answers JailCall) (cfg : JailConfig) (contents : Bytes → Bytes) where
  -- One round of the loop over the drives: a stub drive is in the jail already.
  unfoldable pub jail_drive : JailedDrive → Act (List JailCall) JailedDrive
  jail_drive d = do
    wrapping "failed to open drive file" (perform answers (open_file d.path_on_host))
    if is_stub_drive (contents d.path_on_host)
        then pure tt
        else copy_file_to_jail answers cfg d.path_on_host
            (FilePath.join (root_path cfg) (base d.path_on_host))
            (if d.is_read_only then 256 else 384)
    pure (jailed (base d.path_on_host) d)

  -- The loop. After an error the drives that were reached have their new paths; the machine is not
  -- used then, so that they are left out here.
  unfoldable pub jail_drives : List JailedDrive → Act (List JailCall) (List JailedDrive)
  unfolding jail_drive
  jail_drives [] = pure []
  jail_drives (d ∷ ds) = do d' ← jail_drive d; rest ← jail_drives ds; pure (d' ∷ rest)

  -- The function of `BuildJailedRootHandler`, where `spec` is what `overwriteConfig` makes.
  unfoldable pub jailed_root_handler : Bytes → Result Spec → Act Jailing (Unit {0})
  unfolding jail_drives
  jailed_root_handler binary spec s =
      let config = FilePath.join cfg.oci_bundle_path (codes "config.json") in
      (do
        wrapping "failed to copy config from %v to %v"
            (on_calls (copy_file answers cfg.runc_config_path config 256))
        wrapping "failed to overwrite config.json" (lift spec)
        wrapping "failed to overwrite config.json" (on_calls (perform answers (write_file config)))
        on_calls (
            copy_file_to_jail answers cfg binary
              (FilePath.join (root_path cfg) (codes "firecracker")) 320)
        on_calls (
            copy_file_to_jail answers cfg s.machine.kernel_image_path
              (FilePath.join (root_path cfg) (codes "kernel-image")) 256)
        modify (on_machine (λ m. record m { kernel_image_path = codes "kernel-image" }))
        drives ← on_calls (jail_drives s.machine.drives)
        modify (
            on_machine (λ m. record m {
              drives = drives;
              vsock_paths = map (λ v. FilePath.join (codes "/") (base v)) m.vsock_paths;
            })))
        s

  -- The function of `BuildLinkFifoHandler`.
  unfoldable pub link_fifo_handler : Act Jailing (Unit {0})
  link_fifo_handler s =
      let log = base s.machine.log_fifo in
      let metrics = base s.machine.metrics_fifo in
      (do
        on_calls (
            link_and_chown answers s.machine.log_fifo (FilePath.join (root_path cfg) log) cfg.uid
              cfg.gid)
        modify (on_machine (λ m. record m { log_fifo = log }))
        on_calls (
            link_and_chown answers s.machine.metrics_fifo (FilePath.join (root_path cfg) metrics)
              cfg.uid cfg.gid)
        modify (on_machine (λ m. record m { metrics_fifo = metrics })))
        s
