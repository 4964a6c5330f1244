-- ===== src/StubDrive/Handler/Pool.antt =====
-- The pool of stub drives that `CreateContainerStubs` makes.
use mathlib.Core.List.{Mem, Nodup, Nodup-cons, Nodup-nil, mem-cons, append-nil, not-mem-nil}
use mathlib.Core.Logic.Or
use abschlussarbeit.Common.{
  ℕ, zero, suc, ◌+◌, ◌<◌, ◌≡◌, ◌∙◌, Bool, true, Option, none, List, [], ◌∷◌, arith, ok,
}
use abschlussarbeit.Common.Act.{pure, bind_ok, ◌>>=◌}
use abschlussarbeit.Common.Bytes.{Bytes}
use abschlussarbeit.Common.Base32
use abschlussarbeit.Common.FilePath.{join}
use abschlussarbeit.Proto.{RateLimiter}
use abschlussarbeit.RateLimit.{BucketBuilder}
use abschlussarbeit.StubDrive.Create.{
  StubDrive, Files, FileCall, Config, stub_path_to_drive_id, new_stub_drive, container_stub,
  container_stubs_from,
}
use abschlussarbeit.StubDrive.Handler.{StubDriveHandler, create_container_stubs}
use abschlussarbeit.StubDrive.Handler.Conservation.{ids, drives}
use abschlussarbeit.StubDrive.Create.Ids.{stub_name, container_id, container_id-injective}

abbrev pub container_ids : ℕ → ℕ → List Bytes
container_ids zero i = []
container_ids (suc left) i = Base32.encode (stub_name i) ∷ container_ids left (i + 1)

ids_from-ne : (left i j : ℕ) → i < j → Mem (Base32.encode (stub_name i)) (container_ids left j) → ⊥
ids_from-ne zero i j h m = not-mem-nil m
ids_from-ne (suc left) i j h m =
    Or.elim (λ x y. absurd x) (mem-cons.0 m)
      (λ e. let k = container_id-injective i j e in omega arith)
      (ids_from-ne left i (j + 1) (omega arith))

container_ids-Nodup : (left i : ℕ) → Nodup (container_ids left i)
container_ids-Nodup zero i = Nodup-nil
container_ids-Nodup (suc left) i =
    Nodup-cons.1 (ids_from-ne left i (i + 1) (omega arith), container_ids-Nodup left (i + 1))

module _ (files : Files) (option_count : ℕ) (path : Bytes) where
  -- A stub drive that was made has the ID of its path.
  new_stub_drive_ok :
      (w : Bool) (rl : Option RateLimiter) (calls : List FileCall) (sd : StubDrive)
      → (new_stub_drive files option_count path w rl calls).0 ≡ ok sd
      → (sd.drive_id ≡ stub_path_to_drive_id path) × (sd.stub_path ≡ path)
  unfolding new_stub_drive
  new_stub_drive_ok w rl calls sd h = ground arith

module _ (sdk : BucketBuilder) (files : Files) (root : Bytes) (option_count : ℕ) where
  container_stub_ok :
      (i : ℕ) (c : Config sdk.Bucket) (sd : StubDrive)
      → (container_stub sdk files root option_count i c).0 ≡ ok sd
      → sd.drive_id ≡ Base32.encode (stub_name i)
  unfolding container_stub
  container_stub_ok i c sd h =
      (new_stub_drive_ok files option_count (join root (stub_name i)) true none c.calls sd
        (ground arith)).0
      ∙ container_id root i

  -- Of the rounds from `i` on, each makes the stub drive of its number.
  pub container_stubs_from_ok :
      (left i : ℕ) (c : Config sdk.Bucket) (stubs : List StubDrive)
      → (container_stubs_from sdk files root option_count left i c).0 ≡ ok stubs
      → ids stubs ≡ container_ids left i
  unfolding container_stubs_from
  container_stubs_from_ok zero i c stubs h = ground arith
  container_stubs_from_ok (suc left) i c stubs h =
      let round = container_stub sdk files root option_count i in
      let later = container_stubs_from sdk files root option_count left (i + 1) in
      let (sd, p, q) = bind_ok round (λ sd. later >>= λ rest. pure (sd ∷ rest)) c stubs h in
      let (rest, p', q') = bind_ok later (λ rest. pure (sd ∷ rest)) (round c).1 stubs q in
      let first = container_stub_ok i c sd p in
      let others = container_stubs_from_ok left (i + 1) (round c).1 rest p' in ground arith

  -- When `CreateContainerStubs` ends well, the pool is as it should be for its containers: nothing is in use, there is a free drive for each
  -- container, with the ID of its number, and no two have one ID.
  pub create_container_stubs_ok :
      (count : ℕ) (c : Config sdk.Bucket) (h : StubDriveHandler)
      → (create_container_stubs sdk files root option_count count c).0 ≡ ok h
      → (h.used_drives ≡ []) × (ids h.free_drives ≡ container_ids count 0) × Nodup (drives h)
  unfolding create_container_stubs
  create_container_stubs_ok count c h e =
      let made = container_stubs_from sdk files root option_count count 0 in
      let (stubs, p, q) =
        bind_ok made (λ stubs. pure (record { free_drives = stubs; used_drives = [] })) c h e in
      let all = container_stubs_from_ok count 0 c stubs p in
      let used : h.used_drives ≡ [] = ground arith in
      let free : ids h.free_drives ≡ container_ids count 0 = ground arith in
      (used, free, rw (used, free) (rw append-nil (container_ids-Nodup count 0)))
