-- ===== src/StubDrive/Create.antt =====
-- runtime/drive_handler.go: making the stub files, before the VM starts.
pub mod Sizes
pub mod Ids
use abschlussarbeit.Common.{
  ℕ, zero, suc, ◌+◌, ◌*◌, ◌/◌, ◌%◌, String, Bool, true, false, not, Option, none, some, List, [],
  ◌∷◌, ◌++◌, eqb, if◌then◌else◌, Error, Result, ok, err, wrap,
}
use abschlussarbeit.Common.Act.{
  Act, pure, raise, lift, gets, modify, finally, wrapping, ◌>>=◌, ◌>>◌,
}
use abschlussarbeit.Common.Calls.{Answers, perform}
use abschlussarbeit.Common.Bytes.{Bytes, codes}
use abschlussarbeit.Common.Decimal.{itoa}
use abschlussarbeit.Common.Base32
use abschlussarbeit.Common.FilePath.{base, join}
use abschlussarbeit.Proto.{RateLimiter, DriveMount}
use abschlussarbeit.RateLimit.{BucketBuilder, LimiterModel, rate_limiter_from_proto}
use abschlussarbeit.StubContent.{generate_stub_content}
use abschlussarbeit.StubDrive.Options.{set_read_write_options}

-- What `newStubDrive` does to a file. `jail_option k` is the k-th of `jail.StubDrivesOptions()`.
pub data FileCall : Type 0 where
  create_file : Bytes → FileCall
  write_file : Bytes → Bytes → FileCall
  stat_file : Bytes → FileCall
  truncate_file : Bytes → ℕ → FileCall
  jail_option : ℕ → Bytes → FileCall
  close_file : Bytes → FileCall

-- `stubDrive`; its jail is an argument of what uses it.
pub record StubDrive : Type 0 where
  pub stub_path : Bytes
  pub drive_id : Bytes
  pub drive_mount : DriveMount

-- `models.Drive`
pub record DriveModel (Bucket : Type 0) : Type 0 where
  pub drive_id : Bytes
  pub path_on_host : Bytes
  pub is_read_only : Bool
  pub rate_limiter : Option (LimiterModel Bucket)
  pub is_root_device : Bool

unfoldable pub stub_path_to_drive_id : Bytes → Bytes
stub_path_to_drive_id stub_path = Base32.encode (base stub_path)

abbrev pub fc_sector_size : ℕ
fc_sector_size = 512

-- The size that a stub file of `file_size` bytes is truncated to.
unfoldable pub drive_size : ℕ → ℕ
drive_size file_size =
    let whole = fc_sector_size * (file_size / fc_sector_size) in
    if eqb (file_size % fc_sector_size) 0 then whole else whole + fc_sector_size

-- `driveMount` of a new stub: the fields not given are empty.
abbrev pub blank_mount : Bool → Option RateLimiter → DriveMount
blank_mount is_writable rate_limiter = record {
  host_path = [];
  vm_path = [];
  filesystem_type = "";
  options = [];
  is_writable = is_writable;
  rate_limiter = rate_limiter;
}

-- What the operating system does: whether each call fails, and the size that `Stat` tells.
pub record Files : Type 0 where
  pub answers : Answers FileCall
  pub file_size : List FileCall → Bytes → ℕ

module _ (files : Files) where
  open files use {answers, file_size}

  -- The loop over `jail.StubDrivesOptions()`, `left` of them from the k-th on.
  jail_options : ℕ → ℕ → Bytes → Act (List FileCall) (Unit {0})
  jail_options zero k stub_path = pure tt
  jail_options (suc left) k stub_path = do
    perform answers (jail_option k stub_path)
    jail_options left (k + 1) stub_path

  -- `newStubDrive`, where the jail has `option_count` options.
  unfoldable pub new_stub_drive :
      ℕ → Bytes → Bool → Option RateLimiter → Act (List FileCall) StubDrive
  unfolding jail_options
  new_stub_drive option_count stub_path is_writable rate_limiter = do
    let drive_id = stub_path_to_drive_id stub_path
    perform answers (create_file stub_path)
    finally (λ calls. close_file stub_path ∷ calls)
        do
          content ← lift (generate_stub_content drive_id)
          perform answers (write_file stub_path content)
          perform answers (stat_file stub_path)
          size ← gets (λ calls. file_size calls stub_path)
          perform answers (truncate_file stub_path (drive_size size))
          jail_options option_count 0 stub_path
          pure (record {
            stub_path = stub_path;
            drive_id = drive_id;
            drive_mount = blank_mount is_writable rate_limiter;
          })

-- `withMountConfig`
unfoldable pub with_mount_config : StubDrive → Bytes → Bytes → String → List String → StubDrive
with_mount_config sd host_path vm_path filesystem_type options = record sd {
  drive_mount = record sd.drive_mount {
    host_path = host_path;
    vm_path = vm_path;
    filesystem_type = filesystem_type;
    options = options;
  };
}

-- `machineCfg.Drives` beside the file calls: what is appended stays after an error.
pub record Config (Bucket : Type 0) : Type 0 where
  pub drives : List (DriveModel Bucket)
  pub calls : List FileCall

-- A file operation leaves the drives alone.
abbrev pub on_files : {B A : Type 0} → Act (List FileCall) A → Act (Config B) A
on_files m c = let (r, calls) = m c.calls in (r, record c { calls = calls })

module _ (sdk : BucketBuilder) (files : Files) (root : Bytes) (option_count : ℕ) where
  open sdk use {Bucket}

  abbrev pub drive_model : StubDrive → Bool → Option RateLimiter → DriveModel Bucket
  drive_model sd is_writable rate_limiter = record {
    drive_id = sd.drive_id;
    path_on_host = sd.stub_path;
    is_read_only = not is_writable;
    rate_limiter = rate_limiter_from_proto sdk rate_limiter;
    is_root_device = false;
  }

  append_drive : DriveModel Bucket → Config Bucket → Config Bucket
  append_drive d c = record c { drives = c.drives ++ d ∷ [] }

  -- One round of the loop of `CreateContainerStubs`.
  unfoldable pub container_stub : ℕ → Act (Config Bucket) StubDrive
  unfolding append_drive
  container_stub i = do
    sd ← wrapping "failed to create container stub drive" (
        on_files
          (new_stub_drive files option_count (join root (codes "ctrstub" ++ itoa i)) true none))
    modify (append_drive (drive_model sd true none))
    pure sd

  -- The rounds from `i` on, `left` of them.
  unfoldable pub container_stubs_from : ℕ → ℕ → Act (Config Bucket) (List StubDrive)
  container_stubs_from zero i = pure []
  container_stubs_from (suc left) i = do
    sd ← container_stub i
    rest ← container_stubs_from left (i + 1)
    pure (sd ∷ rest)

  -- One round of the loop of `CreateDriveMountStubs`.
  unfoldable pub drive_mount_stub : ℕ → DriveMount → Act (Config Bucket) StubDrive
  unfolding append_drive with_mount_config
  drive_mount_stub i m = do
    options ← lift (set_read_write_options m.options m.is_writable)
    sd ← wrapping "failed to create drive mount stub drive" (
        on_files (
          new_stub_drive files option_count (join root (codes "drivemntstub" ++ itoa i))
            m.is_writable m.rate_limiter))
    modify (append_drive (drive_model sd m.is_writable m.rate_limiter))
    pure (with_mount_config sd m.host_path m.vm_path m.filesystem_type options)

  unfoldable pub drive_mount_stubs_from : ℕ → List DriveMount → Act (Config Bucket) (List StubDrive)
  drive_mount_stubs_from i [] = pure []
  drive_mount_stubs_from i (m ∷ ms) = do
    sd ← drive_mount_stub i m
    rest ← drive_mount_stubs_from (i + 1) ms
    pure (sd ∷ rest)

  -- `CreateDriveMountStubs`
  unfoldable pub create_drive_mount_stubs : List DriveMount → Act (Config Bucket) (List StubDrive)
  unfolding drive_mount_stubs_from
  create_drive_mount_stubs mounts = drive_mount_stubs_from 0 mounts
