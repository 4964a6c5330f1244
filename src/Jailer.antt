-- ===== src/Jailer.antt =====
-- runtime/runc_jailer.go, jailer.go and noop_jailer.go: the jail in which Firecracker runs. The calls to
-- the system and to runc are recorded, and their answers are an argument.
pub mod Spec
pub mod Machine
pub mod Namespaces
pub mod Confinement
pub mod Noop
use abschlussarbeit.Common.{
  ℕ, String, Bool, true, false, Option, none, some, List, [], ◌∷◌, ◌||◌, eqb, if◌then◌else◌, Error,
  errorf, wrap, exist, join, Result, ok, err, of_error,
}
use abschlussarbeit.Common.Act.{Act, pure, raise, lift, attempt, modify, wrapping, ◌>>=◌, ◌>>◌}
use abschlussarbeit.Common.Bytes.{Bytes, codes}
use abschlussarbeit.Common.Calls.{Answers, perform}
use abschlussarbeit.Common.FilePath.{slash, split, clean, base, dir, has_prefix}
use abschlussarbeit.Common.FilePath

pub data JailCall : Type 0 where
  mkdir mkdir_all remove_all open_file write_file : Bytes → JailCall
  chown : Bytes → (uid gid : ℕ) → JailCall
  chmod : Bytes → ℕ → JailCall
  copy link : Bytes → Bytes → JailCall
  mknod : Bytes → ℕ → JailCall
  runc_delete runc_kill : String → JailCall

-- `runcJailerConfig`
pub record JailConfig : Type 0 where
  pub oci_bundle_path : Bytes
  pub runc_bin_path : Bytes
  pub runc_config_path : Bytes
  pub uid : ℕ
  pub gid : ℕ
  pub cpus : String
  pub mems : String
  pub cgroup_path : Bytes

-- What `syscall.Stat` tells: the type of a file, with the device's number or the mode.
pub data FileKind : Type 0 where
  block : (rdev : ℕ) → FileKind
  regular : (mode : ℕ) → FileKind
  unsupported : (mode : ℕ) → FileKind

-- `RootPath`
unfoldable pub root_path : JailConfig → Bytes
root_path cfg = FilePath.join cfg.oci_bundle_path (codes "rootfs")

-- `CgroupPath`
abbrev pub or_default : Bytes → Bytes
or_default [] = codes "/firecracker-containerd"
or_default (c ∷ path) = c ∷ path

unfoldable pub cgroup_path : JailConfig → Bytes → Bytes
cgroup_path cfg vm_id = FilePath.join (or_default cfg.cgroup_path) vm_id

abbrev pub unless_exist : Result (Unit {0}) → Result (Unit {0})
unless_exist (err exist) = ok tt
unless_exist r = r

-- `jailer`: the choice of `newJailer`.
pub data Jail : Type 0 where
  noop : Bytes → Jail
  runc : JailConfig → Jail

-- `JailPath`
unfoldable pub jail_path : Jail → Bytes
unfolding root_path
jail_path (noop shim_dir) = shim_dir
jail_path (runc cfg) = root_path cfg

-- How many options `StubDrivesOptions` returns: the runc jailer's one changes the owner of the file.
unfoldable pub stub_drives_options : Jail → ℕ
stub_drives_options (noop shim_dir) = 0
stub_drives_options (runc cfg) = 1

-- The directory in the jail for a file, and the file in it.
unfoldable pub parent_dir : JailConfig → Bytes → Bytes
unfolding root_path
parent_dir cfg src_path = FilePath.join (root_path cfg) (dir src_path)

unfoldable pub jailed_path : JailConfig → Bytes → Bytes
unfolding parent_dir
jailed_path cfg src_path = FilePath.join (parent_dir cfg src_path) (base src_path)

module _ (answers : Answers JailCall) where
  -- `mkdirAndChown`
  unfoldable pub mkdir_and_chown : Bytes → ℕ → ℕ → Act (List JailCall) (Unit {0})
  mkdir_and_chown path uid gid = do
    perform answers (mkdir path)
    perform answers (chown path uid gid)

  -- The loop of `mkdirAllWithPermissions`; a directory that exists will do.
  unfoldable pub mkdir_parts : Bytes → List Bytes → ℕ → ℕ → Act (List JailCall) (Unit {0})
  unfolding mkdir_and_chown
  mkdir_parts working [] uid gid = pure tt
  mkdir_parts working (part ∷ parts) uid gid =
      let path = FilePath.join working part in
      let rest = mkdir_parts path parts uid gid in
      (λ s. let (r, s') = mkdir_and_chown path uid gid s in (unless_exist r, s')) >> rest

  -- `mkdirAllWithPermissions`
  unfoldable pub mkdir_all_with_permissions : Bytes → ℕ → ℕ → Act (List JailCall) (Unit {0})
  unfolding mkdir_parts
  mkdir_all_with_permissions path uid gid =
      mkdir_parts (if has_prefix path (slash ∷ []) then slash ∷ [] else []) (split (clean path)) uid
        gid

  -- `copyFile`
  unfoldable pub copy_file : Bytes → Bytes → ℕ → Act (List JailCall) (Unit {0})
  copy_file src dst mode = do
    wrapping "failed to copy %q to %q: %s" (perform answers (copy src dst))
    perform answers (chmod dst mode)

  -- `exposeBlockDeviceToJail`
  unfoldable pub expose_block_device_to_jail : Bytes → ℕ → ℕ → ℕ → Act (List JailCall) (Unit {0})
  expose_block_device_to_jail dst rdev uid gid = do
    perform answers (mknod dst rdev)
    perform answers (chmod dst 384)
    perform answers (chown dst uid gid)

  -- `linkAndChown`
  unfoldable pub link_and_chown : Bytes → Bytes → ℕ → ℕ → Act (List JailCall) (Unit {0})
  link_and_chown src dst uid gid = do
    perform answers (link src dst)
    perform answers (chown dst uid gid)

  module _ (cfg : JailConfig) where
    -- `newRuncJailer`, where `spec` is what the file of `RuncConfigPath` is decoded to.
    unfoldable pub new_runc_jailer : Result (Unit {0}) → Act (List JailCall) Jail
    unfolding mkdir_and_chown
    new_runc_jailer spec = do
      lift spec
      wrapping "%s failed to mkdirAndChown" (mkdir_and_chown (root_path cfg) cfg.uid cfg.gid)
      pure (runc cfg)

    -- `copyFileToJail`
    unfoldable pub copy_file_to_jail : Bytes → Bytes → ℕ → Act (List JailCall) (Unit {0})
    unfolding copy_file
    copy_file_to_jail src dst mode = do
      copy_file src dst mode
      perform answers (chown dst cfg.uid cfg.gid)

    -- `ExposeFileToJail`, where `stat` is the answer of `syscall.Stat`.
    unfoldable pub expose_file_to_jail : Bytes → Result FileKind → Act (List JailCall) (Unit {0})
    unfolding mkdir_all_with_permissions jailed_path expose_block_device_to_jail copy_file_to_jail
    expose_file_to_jail src_path (err e) = raise e
    expose_file_to_jail src_path (ok (block rdev)) = do
      mkdir_all_with_permissions (parent_dir cfg src_path) cfg.uid cfg.gid
      expose_block_device_to_jail (jailed_path cfg src_path) rdev cfg.uid cfg.gid
    expose_file_to_jail src_path (ok (regular mode)) = do
      mkdir_all_with_permissions (parent_dir cfg src_path) cfg.uid cfg.gid
      copy_file_to_jail src_path (jailed_path cfg src_path) mode
    expose_file_to_jail src_path (ok (unsupported mode)) = raise (errorf "unsupported mode: %v" [])

    -- `Close`: the directory is removed whatever runc answers.
    unfoldable pub close : String → List JailCall → Option Error × List JailCall
    close vm_id calls =
        let runc_err = answers calls (runc_delete vm_id) in
        let calls' = runc_delete vm_id ∷ calls in
        let remove_err = answers calls' (remove_all cfg.oci_bundle_path) in
        (join runc_err remove_err, remove_all cfg.oci_bundle_path ∷ calls')

  -- `Stop` of the runc jailer
  unfoldable pub stop : String → Act (List JailCall) (Unit {0})
  stop vm_id = perform answers (runc_kill vm_id)

  -- `newJailer`: with no jailer configuration in the request there is no jail.
  unfoldable pub new_jailer :
      Bytes → Option JailConfig → Result (Unit {0}) → Act (List JailCall) Jail
  unfolding new_runc_jailer
  new_jailer shim_dir none spec = pure (noop shim_dir)
  new_jailer shim_dir (some cfg) spec =
      if eqb cfg.uid 0 || eqb cfg.gid 0
      then raise (errorf "attempting to run as %d:%d. 0 cannot be used for the UID or GID" [])
      else do
        wrapping "failed to create oci bundle path: %s"
            (perform answers (mkdir_all cfg.oci_bundle_path))
        new_runc_jailer cfg spec
