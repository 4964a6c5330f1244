-- ===== src/DriveMount/SystemDir.antt =====
-- `isSystemDir`, `evalAnySymlinks` and `isOrUnderDir` of agent/drive_handler.go. What a path resolves
-- to, `filepath.EvalSymlinks`, is an argument.
use abschlussarbeit.Common.{
  ◌≡◌, ◌↔◌, ◌⊎◌, inl, inr, subst, refl, Bool, true, false, ◌||◌, Option, none, some, List, [], ◌∷◌,
  ◌++◌, arith, if◌then◌else◌, Error, Result, ok, err, errorf, wrap, not_exist,
}
use abschlussarbeit.Common.Bytes.{Bytes, bytes_eq, codes}
use abschlussarbeit.Common.FilePath.{slash, split, has_prefix, clean, join, join_all}
use abschlussarbeit.Common.FilePath.Prefix.{begins, prefix-begins}

-- `isOrUnderDir`
unfoldable pub is_or_under_dir : Bytes → Bytes → Bool
is_or_under_dir path base_dir =
    let path = clean path in
    let base_dir = clean base_dir in
    if bytes_eq base_dir (slash ∷ [])
    then true
    else if bytes_eq path base_dir
    then true
    else has_prefix path (base_dir ++ slash ∷ [])

-- A path is a directory or under it exactly when the parts of the directory begin those of the
-- path: `/process` is not under `/proc`.
pub is_or_under_dir_lem :
    (path base_dir : Bytes)
    → is_or_under_dir path base_dir ≡ (
        bytes_eq (clean base_dir) (slash ∷ [])
        || begins (split (clean base_dir)) (split (clean path)))
unfolding is_or_under_dir
is_or_under_dir_lem path base_dir = ground (arith, prefix-begins (clean path) (clean base_dir))

-- `bannedSystemDirs`
abbrev pub banned_system_dirs : List Bytes
banned_system_dirs = codes "/proc" ∷ codes "/sys" ∷ codes "/dev" ∷ []

module _ (eval_symlinks : Bytes → Result Bytes) where
  -- The rest of a round: a part that does not exist ends the loop, and is not an error.
  resolved_or : Bytes → List Bytes → (Bytes → Result Bytes) → Result Bytes → Result Bytes
  resolved_or cur_path rest go_on (ok resolved) = go_on resolved
  resolved_or cur_path rest go_on (err not_exist) = ok (join_all (cur_path ∷ rest))
  resolved_or cur_path rest go_on (err e) = err e

  eval_parts : List Bytes → Bytes → Result Bytes
  unfolding resolved_or
  eval_parts [] cur_path = ok cur_path
  eval_parts (part ∷ rest) cur_path =
      let cur = join cur_path part in resolved_or cur rest (eval_parts rest) (eval_symlinks cur)

  -- `evalAnySymlinks`
  unfoldable pub eval_any_symlinks : Bytes → Result Bytes
  unfolding eval_parts
  eval_any_symlinks path = eval_parts (split (clean path)) (slash ∷ [])

  check_banned : Bytes → List Bytes → Option Error
  check_banned resolved [] = none
  check_banned resolved (dir ∷ dirs) =
      let later = check_banned resolved dirs in
      if is_or_under_dir resolved dir
      then some (
          errorf "drive mount destination %q resolves to path %q under banned system directory %q"
            [])
      else later

  checked : Result Bytes → Option Error
  unfolding check_banned
  checked (ok resolved) = check_banned resolved banned_system_dirs
  checked (err e) = some (wrap "failed to evaluate any symlinks in drive ummount destination %q" e)

  -- `isSystemDir`
  unfoldable pub is_system_dir : Bytes → Option Error
  unfolding checked
  is_system_dir path = checked (eval_any_symlinks path)

  abbrev pub under_any : Bytes → List Bytes → Bool
  under_any path [] = false
  under_any path (dir ∷ dirs) = is_or_under_dir path dir || under_any path dirs

  check_banned-none :
      (resolved : Bytes) (dirs : List Bytes)
      → (check_banned resolved dirs ≡ none) ↔ (under_any resolved dirs ≡ false)
  unfolding check_banned
  check_banned-none resolved [] = (λ h. refl, λ h. refl)
  check_banned-none resolved (dir ∷ dirs) =
      let ih = check_banned-none resolved dirs in (λ h. ground arith, λ h. ground arith)

  -- A destination whose symlinks cannot be evaluated never passes.
  pub is_system_dir-unresolved :
      (path : Bytes) (e : Error)
      → eval_any_symlinks path ≡ err e
      → is_system_dir path
        ≡ some (wrap "failed to evaluate any symlinks in drive ummount destination %q" e)
  unfolding is_system_dir
  is_system_dir-unresolved path e h = rw h

-- The parts of a path begin with those of /proc, /sys or /dev.
abbrev pub IsUnderBanned : Bytes → Type 0
IsUnderBanned path =
    let parts = split (clean path) in
    (begins ([] ∷ codes "proc" ∷ []) parts ≡ true)
    ⊎ (begins ([] ∷ codes "sys" ∷ []) parts ≡ true)
    ⊎ (begins ([] ∷ codes "dev" ∷ []) parts ≡ true)

proc_parts :
    (path : Bytes)
    → is_or_under_dir path (codes "/proc") ≡ begins ([] ∷ codes "proc" ∷ []) (split (clean path))
unfolding clean split bytes_eq
proc_parts path = is_or_under_dir_lem path (codes "/proc")

sys_parts :
    (path : Bytes)
    → is_or_under_dir path (codes "/sys") ≡ begins ([] ∷ codes "sys" ∷ []) (split (clean path))
unfolding clean split bytes_eq
sys_parts path = is_or_under_dir_lem path (codes "/sys")

dev_parts :
    (path : Bytes)
    → is_or_under_dir path (codes "/dev") ≡ begins ([] ∷ codes "dev" ∷ []) (split (clean path))
unfolding clean split bytes_eq
dev_parts path = is_or_under_dir_lem path (codes "/dev")

none_of :
    (a b c : Bool) → ((a || (b || (c || false))) ≡ false) ↔ ¬ ((a ≡ true) ⊎ (b ≡ true) ⊎ (c ≡ true))
none_of true b c = (λ h. cc, λ h. absurd (h (inl refl)))
none_of false true c = (λ h. cc, λ h. absurd (h (inr (inl refl))))
none_of false false true = (λ h. cc, λ h. absurd (h (inr (inr refl))))
none_of false false false = (λ h k. ground (arith, k), λ h. refl)

module _ (eval_symlinks : Bytes → Result Bytes) where
  under_any-parts :
      (path : Bytes)
      → (under_any eval_symlinks path banned_system_dirs ≡ false) ↔ ¬ IsUnderBanned path
  under_any-parts path = rw (proc_parts path, sys_parts path, dev_parts path) (none_of _ _ _)

  checked-none :
      (r : Result Bytes)
      → (checked eval_symlinks r ≡ none)
        ↔ ((resolved : Bytes) × (r ≡ ok resolved) × ¬ IsUnderBanned resolved)
  unfolding checked
  checked-none (ok resolved) =
      let a = check_banned-none eval_symlinks resolved banned_system_dirs in
      let b = under_any-parts resolved in
      (
        λ h. (resolved, refl, b.0 (a.0 h)),
        λ (other, e, free). a.1 (b.1 (subst (λ p. ¬ IsUnderBanned p) (ground arith) free)),
      )
  checked-none (err e) = (λ h. cc, λ h. cc h.1)

  -- A destination passes exactly if its symlinks can be evaluated, and what they lead to is neither
  -- /proc, /sys nor /dev, nor in one of them, part by part of the path.
  pub is_system_dir-none :
      (path : Bytes)
      → (is_system_dir eval_symlinks path ≡ none) ↔ (
          (resolved : Bytes) × (eval_any_symlinks eval_symlinks path ≡ ok resolved)
          × ¬ IsUnderBanned resolved)
  unfolding is_system_dir
  is_system_dir-none path = checked-none (eval_any_symlinks eval_symlinks path)
