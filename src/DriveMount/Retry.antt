-- ===== src/DriveMount/Retry.antt =====
-- `MountDrive` and `UnmountDrive` of agent/drive_handler.go, and `isRetryableMountError` of
-- agent/error.go. The i-th answer of `mount.All` is an argument.
pub mod Settling
use abschlussarbeit.Common.{
  ℕ, zero, suc, ◌+◌, ◌<◌, ◌≡◌, ◌≢◌, refl, ap, ◌∙◌, String, Bool, true, false, Option, none, some,
  List, [], ◌∷◌, arith, eqb, if◌then◌else◌, Bool-cases, Option-cases, ◌⊎◌, inl, inr, Error, errno,
  errorf, wrap, Result, ok, err, is_err,
}
use abschlussarbeit.Common.Act.{Act, ◌>>◌, attempt, wrapping}
use abschlussarbeit.Common.Bytes.{Bytes}
use abschlussarbeit.DriveMount.Discovery.{Drive, DriveHandler, get_drive, path_of}
use abschlussarbeit.DriveMount.SystemDir.{is_system_dir}

-- What the agent does in the guest.
pub data GuestCall : Type 0 where
  mkdir_all : Bytes → GuestCall
  mount_all : Bytes → String → List String → Bytes → GuestCall
  unmount : Bytes → GuestCall
  sleep : GuestCall

-- `MountDriveRequest`
pub record MountDriveRequest : Type 0 where
  pub drive_id : Bytes
  pub destination_path : Bytes
  pub filesystem_type : String
  pub options : List String

abbrev pub einval : ℕ
einval = 22

-- `isRetryableMountError`
unfoldable pub is_retryable_mount_error : Error → Bool
is_retryable_mount_error (errno n) = eqb n einval
is_retryable_mount_error _ = false

abbrev pub max_retries : ℕ
max_retries = 100

-- What the guest answers.
pub record GuestAnswers : Type 0 where
  pub eval_symlinks : Bytes → Result Bytes
  pub mkdir_answer : Bytes → Option Error
  pub mount_answer : ℕ → Option Error
  pub unmount_answer : Bytes → Option Error

module _ (a : GuestAnswers) where
  -- The loop, with `left` rounds left, at its i-th round.
  pub mount_from : ℕ → ℕ → Drive → MountDriveRequest → Act (List GuestCall) (Unit {0})
  mount_from zero i drive req calls =
      (err (errorf "exhausted retries mounting drive from %q to %q" []), calls)
  mount_from (suc left) i drive req calls =
      let calls =
        mount_all (path_of drive) req.filesystem_type req.options req.destination_path ∷ calls in
      let again = mount_from left (i + 1) drive req (sleep ∷ calls) in
      elim (a.mount_answer i) [
        | none ↦ (ok tt, calls)
        | some e ↦
            if is_retryable_mount_error e
            then again
            else (err (wrap "non-retryable failure mounting drive from %q to %q" e), calls)
      ]

  pub mount_found : Option Drive → MountDriveRequest → Act (List GuestCall) (Unit {0})
  unfolding mount_from
  mount_found none req calls = (err (errorf "drive %q could not be found" []), calls)
  mount_found (some drive) req calls =
      (do
        attempt (is_system_dir a.eval_symlinks req.destination_path)
        wrapping "failed to create drive mount destination %q" (λ calls.
            attempt (a.mkdir_answer req.destination_path) (mkdir_all req.destination_path ∷ calls))
        mount_from max_retries 0 drive req)
        calls

  -- `MountDrive`
  unfoldable pub mount_drive : DriveHandler → MountDriveRequest → Act (List GuestCall) (Unit {0})
  unfolding mount_found
  mount_drive dh req = mount_found (get_drive dh req.drive_id) req

  unmount_found : Option Drive → Act (List GuestCall) (Unit {0})
  unmount_found none calls = (err (errorf "drive %q could not be found" []), calls)
  unmount_found (some drive) calls = elim (a.unmount_answer (path_of drive)) [
    | none ↦ (ok tt, unmount (path_of drive) ∷ calls)
    | some e ↦ (err (errorf "failed to unmount the drive %q" []), unmount (path_of drive) ∷ calls)
  ]

  -- `UnmountDrive`
  unfoldable pub unmount_drive : DriveHandler → Bytes → Act (List GuestCall) (Unit {0})
  unfolding unmount_found
  unmount_drive dh ident = unmount_found (get_drive dh ident)
