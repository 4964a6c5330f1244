-- ===== src/StubDrive/Handler/Models.antt =====
-- runtime/drive_handler.go: what `CreateContainerStubs` and `CreateDriveMountStubs` append to the drives of
-- the configuration.
use mathlib.Core.List.{append_assoc, append-nil}
use abschlussarbeit.Common.{
  ℕ, zero, suc, ◌+◌, Bool, true, Option, none, List, [], ◌∷◌, ◌++◌, map, ◌≡◌, sym, ap, ◌∙◌, arith,
  ok,
}
use abschlussarbeit.Common.Act.{pure, bind_ok, ◌>>=◌}
use abschlussarbeit.Common.Bytes.{Bytes, codes}
use abschlussarbeit.Common.Decimal.{itoa}
use abschlussarbeit.Common.FilePath.{join}
use abschlussarbeit.Proto.{RateLimiter, DriveMount}
use abschlussarbeit.RateLimit.{BucketBuilder}
use abschlussarbeit.StubDrive.Create.{
  StubDrive, DriveModel, Files, FileCall, Config, blank_mount, drive_model, new_stub_drive,
  with_mount_config, container_stub, container_stubs_from, drive_mount_stub, drive_mount_stubs_from,
}
use abschlussarbeit.StubDrive.Handler.{StubDriveHandler, create_container_stubs}

module _ (sdk : BucketBuilder) (files : Files) (root : Bytes) (option_count : ℕ) where
  -- The drive that a stub drive is in the configuration.
  abbrev pub drive_of : StubDrive → DriveModel sdk.Bucket
  drive_of sd =
      drive_model sdk files root option_count sd sd.drive_mount.is_writable
        sd.drive_mount.rate_limiter

  new_stub_drive_mount :
      (path : Bytes) (w : Bool) (rl : Option RateLimiter) (calls : List FileCall) (sd : StubDrive)
      → (new_stub_drive files option_count path w rl calls).0 ≡ ok sd
      → sd.drive_mount ≡ blank_mount w rl
  unfolding new_stub_drive
  new_stub_drive_mount path w rl calls sd h = ground arith

  container_stub_ok :
      (i : ℕ) (c : Config sdk.Bucket) (sd : StubDrive)
      → (container_stub sdk files root option_count i c).0 ≡ ok sd
      → (container_stub sdk files root option_count i c).1.drives ≡ c.drives ++ drive_of sd ∷ []
  unfolding container_stub
  container_stub_ok i c sd h =
      let path = join root (codes "ctrstub" ++ itoa i) in
      let made : (new_stub_drive files option_count path true none c.calls).0 ≡ ok sd =
        ground arith in
      let mount = new_stub_drive_mount path true none c.calls sd made in ground arith

  drive_mount_stub_ok :
      (i : ℕ) (m : DriveMount) (c : Config sdk.Bucket) (sd : StubDrive)
      → (drive_mount_stub sdk files root option_count i m c).0 ≡ ok sd
      → (drive_mount_stub sdk files root option_count i m c).1.drives ≡ c.drives ++ drive_of sd ∷ []
  unfolding drive_mount_stub with_mount_config
  drive_mount_stub_ok i m c sd h =
      let path = join root (codes "drivemntstub" ++ itoa i) in
      let made : (base : StubDrive)
          → (new_stub_drive files option_count path m.is_writable m.rate_limiter c.calls).0
            ≡ ok base
          → base.drive_mount ≡ blank_mount m.is_writable m.rate_limiter =
        new_stub_drive_mount path m.is_writable m.rate_limiter c.calls in
      grind arith

  appended :
      (before : List (DriveModel sdk.Bucket)) {after : List (DriveModel sdk.Bucket)}
      {sd : StubDrive} {rest : List StubDrive} (stubs : List StubDrive)
      → after ≡ before ++ drive_of sd ∷ []
      → stubs ≡ sd ∷ rest
      → after ++ map drive_of rest ≡ before ++ map drive_of stubs
  appended before {sd = sd} {rest = rest} stubs h e =
      ap (λ l. l ++ map drive_of rest) h
      ∙ append_assoc before (drive_of sd ∷ []) (map drive_of rest)
      ∙ ap (λ l. before ++ map drive_of l) (sym e)

  container_stubs_from_drives :
      (left i : ℕ) (c : Config sdk.Bucket) (stubs : List StubDrive)
      → (container_stubs_from sdk files root option_count left i c).0 ≡ ok stubs
      → (container_stubs_from sdk files root option_count left i c).1.drives
        ≡ c.drives ++ map drive_of stubs
  unfolding container_stubs_from
  container_stubs_from_drives zero i c stubs h =
      let e : stubs ≡ [] = ground arith in rw e (sym (append-nil c.drives))
  container_stubs_from_drives (suc left) i c stubs h =
      let round = container_stub sdk files root option_count i in
      let later = container_stubs_from sdk files root option_count left (i + 1) in
      let (sd, p, q) = bind_ok round (λ sd. later >>= λ rest. pure (sd ∷ rest)) c stubs h in
      let (rest, p', q') = bind_ok later (λ rest. pure (sd ∷ rest)) (round c).1 stubs q in
      let first = container_stub_ok i c sd p in
      let others = container_stubs_from_drives left (i + 1) (round c).1 rest p' in
      let e : stubs ≡ sd ∷ rest = ground arith in
      let m : (container_stubs_from sdk files root option_count (suc left) i c).1
          ≡ (later (round c).1).1 =
        ground arith in
      ap (λ (c : Config sdk.Bucket). c.drives) m ∙ others ∙ appended c.drives stubs first e

  pub drive_mount_stubs_from_drives :
      (i : ℕ) (ms : List DriveMount) (c : Config sdk.Bucket) (stubs : List StubDrive)
      → (drive_mount_stubs_from sdk files root option_count i ms c).0 ≡ ok stubs
      → (drive_mount_stubs_from sdk files root option_count i ms c).1.drives
        ≡ c.drives ++ map drive_of stubs
  unfolding drive_mount_stubs_from
  drive_mount_stubs_from_drives i [] c stubs h =
      let e : stubs ≡ [] = ground arith in rw e (sym (append-nil c.drives))
  drive_mount_stubs_from_drives i (m ∷ ms) c stubs h =
      let round = drive_mount_stub sdk files root option_count i m in
      let later = drive_mount_stubs_from sdk files root option_count (i + 1) ms in
      let (sd, p, q) = bind_ok round (λ sd. later >>= λ rest. pure (sd ∷ rest)) c stubs h in
      let (rest, p', q') = bind_ok later (λ rest. pure (sd ∷ rest)) (round c).1 stubs q in
      let first = drive_mount_stub_ok i m c sd p in
      let others = drive_mount_stubs_from_drives (i + 1) ms (round c).1 rest p' in
      let e : stubs ≡ sd ∷ rest = ground arith in
      let s : (drive_mount_stubs_from sdk files root option_count i (m ∷ ms) c).1
          ≡ (later (round c).1).1 =
        ground arith in
      ap (λ (c : Config sdk.Bucket). c.drives) s ∙ others ∙ appended c.drives stubs first e

  pub create_container_stubs_drives :
      (count : ℕ) (c : Config sdk.Bucket) (h : StubDriveHandler)
      → (create_container_stubs sdk files root option_count count c).0 ≡ ok h
      → (create_container_stubs sdk files root option_count count c).1.drives
        ≡ c.drives ++ map drive_of h.free_drives
  unfolding create_container_stubs
  create_container_stubs_drives count c h e =
      let made = container_stubs_from sdk files root option_count count 0 in
      let (stubs, p, q) =
        bind_ok made (λ stubs. pure (record { free_drives = stubs; used_drives = [] })) c h e in
      let free : h.free_drives ≡ stubs = ground arith in
      let s : (create_container_stubs sdk files root option_count count c).1 ≡ (made c).1 =
        ground arith in
      ap (λ (c : Config sdk.Bucket). c.drives) s
      ∙ container_stubs_from_drives count 0 c stubs p
      ∙ ap (λ l. c.drives ++ map drive_of l) (sym free)
