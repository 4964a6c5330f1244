-- ===== src/StubDrive/Handler.antt =====
-- runtime/drive_handler.go: `StubDriveHandler`, which hands out the stub drives of a VM to its
-- containers and takes them back. The calls to the VMM, the agent and the jail are recorded.
pub mod Outcomes
pub mod Conservation
pub mod Pool
pub mod Models
use abschlussarbeit.Common.{
  ℕ, zero, String, Option, none, some, List, [], ◌∷◌, ◌++◌, Error, Result, ok, err, errorf, wrap,
}
use abschlussarbeit.Common.Act.{Act, pure, raise, lift, modify, wrapping, ◌>>=◌, ◌>>◌}
use abschlussarbeit.Common.Assoc.{Assoc, lookup, insert, remove}
use abschlussarbeit.Common.Bytes.{Bytes}
use abschlussarbeit.Common.Calls.{Answers, perform}
use abschlussarbeit.Common.FilePath.{base}
use abschlussarbeit.Proto.{DriveMount}
use abschlussarbeit.RateLimit.{BucketBuilder}
use abschlussarbeit.StubDrive.Options.{set_read_write_options}
use abschlussarbeit.StubDrive.Create.{
  StubDrive, Files, Config, with_mount_config, container_stubs_from,
}

-- The calls of a handler: to the jail, to the VMM, and to the agent's drive mounter.
pub data VmCall : Type 0 where
  expose_file : Bytes → VmCall
  update_guest_drive : Bytes → Bytes → VmCall
  mount_drive : Bytes → Bytes → String → List String → VmCall
  unmount_drive : Bytes → VmCall

pub record StubDriveHandler : Type 0 where
  pub free_drives : List StubDrive
  pub used_drives : Assoc StubDrive

-- A handler and the calls made so far.
pub record Vm : Type 0 where
  pub handler : StubDriveHandler
  pub calls : List VmCall

abbrev pub on_calls : {A : Type 0} → Act (List VmCall) A → Act Vm A
on_calls m v = let (r, calls) = m v.calls in (r, record v { calls = calls })

abbrev pub set_handler : StubDriveHandler → Vm → Vm
set_handler h v = record v { handler = h }

-- `CreateContainerStubs`
unfoldable pub create_container_stubs :
    (sdk : BucketBuilder) (files : Files) (root : Bytes) (option_count container_count : ℕ)
    → Act (Config sdk.Bucket) StubDriveHandler
create_container_stubs sdk files root option_count container_count = do
  stubs ← container_stubs_from sdk files root option_count container_count 0
  pure (record { free_drives = stubs; used_drives = [] })

-- `ErrDrivesExhausted`
abbrev pub err_drives_exhausted : Error
err_drives_exhausted = errorf "There are no remaining drives to be used" []

module _ (answers : Answers VmCall) where
  unfoldable pub patch_and_mount : StubDrive → Act (List VmCall) (Unit {0})
  patch_and_mount sd = do
    wrapping "failed to expose patched drive contents to jail"
        (perform answers (expose_file sd.drive_mount.host_path))
    wrapping "failed to patch drive"
        (perform answers (update_guest_drive sd.drive_id sd.drive_mount.host_path))
    wrapping "failed to mount newly patched drive" (
        perform answers (
          mount_drive sd.drive_id sd.drive_mount.vm_path sd.drive_mount.filesystem_type
            sd.drive_mount.options))

  -- `Reserve` from the point where there is a drive to take, and the ID is not in use.
  take_drive :
      StubDrive → List StubDrive → String → Bytes → Bytes → String → List String → Act Vm (Unit {0})
  take_drive free_drive rest ident host_path vm_path filesystem_type options v =
      (do
        accepted ← lift (set_read_write_options options free_drive.drive_mount.is_writable)
        let stub_drive = with_mount_config free_drive host_path vm_path filesystem_type accepted
        wrapping "failed to mount drive inside vm" (on_calls (patch_and_mount stub_drive))
        modify (
            set_handler (record {
              free_drives = rest;
              used_drives = insert ident stub_drive v.handler.used_drives;
            })))
        v

  reserve_of :
      List StubDrive
      → Option StubDrive
      → String
      → Bytes
      → Bytes
      → String
      → List String
      → Act Vm (Unit {0})
  unfolding take_drive
  reserve_of [] used ident host_path vm_path filesystem_type options = raise err_drives_exhausted
  reserve_of (d ∷ rest) (some u) ident host_path vm_path filesystem_type options = raise (
      errorf "drive with ID %s already in use, a previous attempt to remove it may have failed"
        (ident ∷ []))
  reserve_of (d ∷ rest) none ident host_path vm_path filesystem_type options =
      take_drive d rest ident host_path vm_path filesystem_type options

  -- `Reserve`
  unfoldable pub reserve : String → Bytes → Bytes → String → List String → Act Vm (Unit {0})
  unfolding reserve_of
  reserve ident host_path vm_path filesystem_type options v =
      reserve_of v.handler.free_drives (lookup ident v.handler.used_drives) ident host_path vm_path
        filesystem_type options v

  give_back : String → Option StubDrive → Act Vm (Unit {0})
  give_back ident none v = (err (errorf "container %s drive wasn't found" (ident ∷ [])), v)
  give_back ident (some drive) v =
      (do
        wrapping "failed to unmount drive"
            (on_calls (perform answers (unmount_drive drive.drive_id)))
        wrapping "failed to patch drive"
            (on_calls (perform answers (update_guest_drive drive.drive_id (base drive.stub_path))))
        modify (
            set_handler (record {
              free_drives = v.handler.free_drives ++ drive ∷ [];
              used_drives = remove ident v.handler.used_drives;
            })))
        v

  -- `Release`
  unfoldable pub release : String → Act Vm (Unit {0})
  unfolding give_back
  release ident v = give_back ident (lookup ident v.handler.used_drives) v
