-- ===== src/VmConfig/Drives.antt =====
-- runtime/service.go: the drives of the configuration that `buildVMConfiguration` makes.
use mathlib.Core.List.{Nodup}
use abschlussarbeit.Common.{ℕ, true, some, List, [], ◌∷◌, ◌++◌, map, ◌≡◌}
use abschlussarbeit.Common.Bytes.{Bytes}
use abschlussarbeit.Common.FilePath.{slash, has_prefix}
use abschlussarbeit.Proto.{DriveMount, CreateVmRequest}
use abschlussarbeit.RateLimit.{BucketBuilder}
use abschlussarbeit.StubDrive.Create.{DriveModel}
use abschlussarbeit.StubDrive.Handler.{StubDriveHandler}
use abschlussarbeit.StubDrive.Handler.Conservation.{ids, drives}
use abschlussarbeit.StubDrive.Handler.Pool.{container_ids}
use abschlussarbeit.VmConfig.Network.{Net}
use abschlussarbeit.VmConfig.{Shim, Building, containers_for, build_root_drive}
use abschlussarbeit.Jailer.{jail_path, stub_drives_options}
use abschlussarbeit.VmDir
use abschlussarbeit.StubDrive.Handler.Models.{drive_of}

-- A drive mount with paths from the root on both sides.
abbrev pub IsAbsolute : DriveMount → Type 0
IsAbsolute m =
    (has_prefix m.host_path (slash ∷ []) ≡ true) × (has_prefix m.vm_path (slash ∷ []) ≡ true)

module _ (sdk : BucketBuilder) (net : Net) (shim : Shim sdk net) (req : CreateVmRequest) where
  abbrev pub root : Bytes
  root = VmDir.root_path (jail_path shim.jail)

  abbrev pub options : ℕ
  options = stub_drives_options shim.jail

  -- What is made of the drives, for the state and the drives of the configuration it ends with.
  abbrev pub AreBuilt : Building sdk.Bucket → List (DriveModel sdk.Bucket) → Type 0
  AreBuilt b all =
      (h : StubDriveHandler) × (b.container_stub_handler ≡ some h)
      × (h.used_drives ≡ [])
      × (ids h.free_drives ≡ container_ids (containers_for req.container_count) 0)
      × Nodup (drives h)
      × (all
          ≡ build_root_drive sdk net shim req.root_drive
            ++ map (drive_of sdk shim.files root options) (h.free_drives ++ b.drive_mount_stubs))
