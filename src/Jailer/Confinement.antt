-- ===== src/Jailer/Confinement.antt =====
-- runtime/runc_jailer.go: where in the file system `ExposeFileToJail` writes.
use abschlussarbeit.Common.{
  ℕ, true, List, [], ◌∷◌, ◌++◌, ◌≡◌, refl, ap, ap₂, ◌∙◌, Result, ok, err, All, All-append, arith,
}
use abschlussarbeit.Common.Act.{Act, continue, wrapping, ◌>>=◌, ◌>>◌}
use abschlussarbeit.Common.Bytes.{Bytes, codes, bytes_eq}
use abschlussarbeit.Common.Calls.{Answers, perform}
use abschlussarbeit.Common.FilePath.{is_rooted, base, dir, slash}
use abschlussarbeit.Common.FilePath
use abschlussarbeit.Common.FilePath.Plain.{IsPlain}
use abschlussarbeit.Common.FilePath.Plain.Rooted.{path_of, join-path_of, join-plain, dir-rooted}
use mathlib.Core.List.{append_assoc}
use abschlussarbeit.Jailer.{
  JailCall, mkdir, write_file, chown, chmod, copy, link, mknod, JailConfig, FileKind, block,
  regular, unsupported, root_path, parent_dir, jailed_path, mkdir_and_chown, mkdir_parts,
  mkdir_all_with_permissions, copy_file, copy_file_to_jail, expose_block_device_to_jail,
  expose_file_to_jail, unless_exist,
}

-- A path under a directory that is given by its parts: its own parts, further on, are plain names.
abbrev pub IsUnder : List Bytes → Bytes → Type 0
IsUnder root path = (ps : List Bytes) × All IsPlain ps × (path ≡ path_of (root ++ ps))

-- The calls that make a file or change its mode do so under the root of the jail.
abbrev pub IsConfined : List Bytes → JailCall → Type 0
IsConfined root (copy src dst) = IsUnder root dst
IsConfined root (mknod dst rdev) = IsUnder root dst
IsConfined root (chmod dst mode) = IsUnder root dst
IsConfined root (link src dst) = IsUnder root dst
IsConfined root (write_file dst) = IsUnder root dst
IsConfined root _ = Unit {0}

-- The parts of the jail's root, for a bundle in a directory given by its parts.
abbrev pub root_parts : List Bytes → List Bytes
root_parts bundle = bundle ++ codes "rootfs" ∷ []

rootfs-IsPlain : IsPlain (codes "rootfs")
unfolding bytes_eq
rootfs-IsPlain = record {
  no_slash = ground arith;
  some_byte = refl;
  not_dot = refl;
  not_dot_dot = refl;
}

-- An action that, begun with confined calls, makes confined calls only.
abbrev Keeps : List Bytes → {A : Type 0} → Act (List JailCall) A → Type 0
Keeps root m =
    (calls : List JailCall) → All (IsConfined root) calls → All (IsConfined root) (m calls).1

module _ (root : List Bytes) (answers : Answers JailCall) where
  continue-Keeps :
      {A B : Type 0} (r : Result A) (g : A → Act (List JailCall) B) (calls : List JailCall)
      → All (IsConfined root) calls
      → ((a : A) → Keeps root (g a))
      → All (IsConfined root) (continue r g calls).1
  continue-Keeps (ok a) g calls h k = k a calls h
  continue-Keeps (err e) g calls h k = h

  bind-Keeps :
      {A B : Type 0} (m : Act (List JailCall) A) (g : A → Act (List JailCall) B)
      → Keeps root m
      → ((a : A) → Keeps root (g a))
      → Keeps root (m >>= g)
  bind-Keeps m g h k calls c = continue-Keeps (m calls).0 g (m calls).1 (h calls c) k

  perform-Keeps : (c : JailCall) → IsConfined root c → Keeps root (perform answers c)
  perform-Keeps c h calls k = (h, k)

  mkdir_and_chown-Keeps :
      (path : Bytes) (uid gid : ℕ) → Keeps root (mkdir_and_chown answers path uid gid)
  unfolding mkdir_and_chown
  mkdir_and_chown-Keeps path uid gid =
      bind-Keeps (perform answers (mkdir path)) (λ _. perform answers (chown path uid gid))
        (perform-Keeps (mkdir path) tt) (λ _. perform-Keeps (chown path uid gid) tt)

  mkdir_parts-Keeps :
      (working : Bytes) (parts : List Bytes) (uid gid : ℕ)
      → Keeps root (mkdir_parts answers working parts uid gid)
  unfolding mkdir_parts
  mkdir_parts-Keeps working [] uid gid = λ calls h. h
  mkdir_parts-Keeps working (part ∷ parts) uid gid =
      let path = FilePath.join working part in
      bind-Keeps (λ s. let (r, s') = mkdir_and_chown answers path uid gid s in (unless_exist r, s'))
        (λ _. mkdir_parts answers path parts uid gid) (mkdir_and_chown-Keeps path uid gid)
        (λ _. mkdir_parts-Keeps path parts uid gid)

  copy_file_to_jail-Keeps :
      (cfg : JailConfig) (src dst : Bytes) (mode : ℕ)
      → IsUnder root dst
      → Keeps root (copy_file_to_jail answers cfg src dst mode)
  unfolding copy_file_to_jail copy_file
  copy_file_to_jail-Keeps cfg src dst mode h =
      bind-Keeps (copy_file answers src dst mode) (λ _. perform answers (chown dst cfg.uid cfg.gid))
        (bind-Keeps (wrapping "failed to copy %q to %q: %s" (perform answers (copy src dst)))
          (λ _. perform answers (chmod dst mode)) (perform-Keeps (copy src dst) h)
          (λ _. perform-Keeps (chmod dst mode) h))
        (λ _. perform-Keeps (chown dst cfg.uid cfg.gid) tt)

  expose_block_device_to_jail-Keeps :
      (dst : Bytes) (rdev uid gid : ℕ)
      → IsUnder root dst
      → Keeps root (expose_block_device_to_jail answers dst rdev uid gid)
  unfolding expose_block_device_to_jail
  expose_block_device_to_jail-Keeps dst rdev uid gid h =
      bind-Keeps (perform answers (mknod dst rdev))
        (λ _. perform answers (chmod dst 384) >> perform answers (chown dst uid gid))
        (perform-Keeps (mknod dst rdev) h)
        (λ _.
          bind-Keeps (perform answers (chmod dst 384)) (λ _. perform answers (chown dst uid gid))
            (perform-Keeps (chmod dst 384) h) (λ _. perform-Keeps (chown dst uid gid) tt))

module _ (cfg : JailConfig) (bundle : List Bytes) (plain : All IsPlain bundle)
    (at : cfg.oci_bundle_path ≡ path_of bundle) (src : Bytes) (rooted : is_rooted src ≡ true)
    (name : IsPlain (base src)) where
  -- The file in the jail is under the jail's root.
  jailed_path-IsUnder : IsUnder (root_parts bundle) (jailed_path cfg src)
  unfolding jailed_path parent_dir root_path
  jailed_path-IsUnder =
      let (ps, h, e) = dir-rooted src rooted in
      let root : FilePath.join cfg.oci_bundle_path (codes "rootfs") ≡ path_of (root_parts bundle) =
        ap (λ p. FilePath.join p (codes "rootfs")) at
        ∙ join-plain bundle (codes "rootfs") plain rootfs-IsPlain in
      let plains : All IsPlain (root_parts bundle) =
        All-append IsPlain bundle (codes "rootfs" ∷ []) plain (rootfs-IsPlain, tt) in
      (
        ps ++ base src ∷ [],
        All-append IsPlain ps (base src ∷ []) h (name, tt),
        ap₂ (λ p q. FilePath.join (FilePath.join p q) (base src)) root e
            ∙ ap (λ p. FilePath.join p (base src)) (join-path_of (root_parts bundle) ps plains h)
            ∙ join-plain (root_parts bundle ++ ps) (base src)
                (All-append IsPlain (root_parts bundle) ps plains h) name
            ∙ ap path_of (append_assoc (root_parts bundle) ps (base src ∷ [])),
      )

  -- Whatever kind of file it is and whatever the calls answer: for a path from the root whose last
  -- part is a plain name, `ExposeFileToJail` makes files, devices and modes only under the jail's
  -- root, with plain names from there on, so that no `..` in the path leads out of it. The bundle's
  -- directory is taken to be a clean path from the root.
  pub expose_file_to_jail-IsConfined :
      (answers : Answers JailCall) (stat : Result FileKind) (calls : List JailCall)
      → All (IsConfined (root_parts bundle)) calls
      → All (IsConfined (root_parts bundle)) (expose_file_to_jail answers cfg src stat calls).1
  unfolding expose_file_to_jail mkdir_all_with_permissions
  expose_file_to_jail-IsConfined answers (err e) calls h = h
  expose_file_to_jail-IsConfined answers (ok (unsupported mode)) calls h = h
  expose_file_to_jail-IsConfined answers (ok (block rdev)) calls h =
      bind-Keeps (root_parts bundle) answers
        (mkdir_all_with_permissions answers (parent_dir cfg src) cfg.uid cfg.gid)
        (λ _. expose_block_device_to_jail answers (jailed_path cfg src) rdev cfg.uid cfg.gid)
        (mkdir_parts-Keeps (root_parts bundle) answers _ _ cfg.uid cfg.gid)
        (λ _.
          expose_block_device_to_jail-Keeps (root_parts bundle) answers (jailed_path cfg src) rdev
            cfg.uid cfg.gid jailed_path-IsUnder)
        calls h
  expose_file_to_jail-IsConfined answers (ok (regular mode)) calls h =
      bind-Keeps (root_parts bundle) answers
        (mkdir_all_with_permissions answers (parent_dir cfg src) cfg.uid cfg.gid)
        (λ _. copy_file_to_jail answers cfg src (jailed_path cfg src) mode)
        (mkdir_parts-Keeps (root_parts bundle) answers _ _ cfg.uid cfg.gid)
        (λ _.
          copy_file_to_jail-Keeps (root_parts bundle) answers cfg src (jailed_path cfg src) mode
            jailed_path-IsUnder)
        calls h
