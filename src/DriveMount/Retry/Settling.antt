-- ===== src/DriveMount/Retry/Settling.antt =====
-- agent/drive_handler.go: how `MountDrive` ends, and which calls it makes.
use abschlussarbeit.Common.{
  ℕ, zero, suc, ◌+◌, ◌<◌, ◌≡◌, ◌≢◌, refl, ap, ◌∙◌, true, Option, none, some, List, [], ◌∷◌, arith,
  if◌then◌else◌, Bool-cases, Option-cases, ◌⊎◌, inl, inr, Error, errorf, wrap, Result, ok, err,
  is_err,
}
use abschlussarbeit.DriveMount.Discovery.{Drive, DriveHandler, get_drive, path_of}
use abschlussarbeit.DriveMount.SystemDir.{is_system_dir}
use abschlussarbeit.DriveMount.Retry.{
  GuestAnswers, GuestCall, MountDriveRequest, is_retryable_mount_error, max_retries, mkdir_all,
  mount_all, mount_drive, mount_found, mount_from, sleep,
}

module _ (a : GuestAnswers) where
  -- What the i-th answer settles, if it is no error to retry on.
  abbrev settled : Option Error → Option (Result (Unit {0}))
  settled none = some (ok tt)
  settled (some e) =
      if is_retryable_mount_error e
      then none
      else some (err (wrap "non-retryable failure mounting drive from %q to %q" e))

  -- The calls of `k` rounds that each end in a pause.
  pub rounds : ℕ → Drive → MountDriveRequest → List GuestCall → List GuestCall
  rounds zero drive req calls = calls
  rounds (suc k) drive req calls = rounds k drive req (
      sleep
      ∷ mount_all (path_of drive) req.filesystem_type req.options req.destination_path
      ∷ calls)

  abbrev pub AllRetry : ℕ → ℕ → Type 0
  AllRetry zero i = Unit
  AllRetry (suc k) i = (settled (a.mount_answer i) ≡ none) × AllRetry k (i + 1)

  mount_from-retry :
      (n i : ℕ) (drive : Drive) (req : MountDriveRequest) (calls : List GuestCall)
      → settled (a.mount_answer i) ≡ none
      → mount_from a (suc n) i drive req calls
        ≡ mount_from a n (i + 1) drive req (
            sleep
            ∷ mount_all (path_of drive) req.filesystem_type req.options req.destination_path
            ∷ calls)
  unfolding mount_from
  mount_from-retry n i drive req calls h = elim (Option-cases (a.mount_answer i)) [
    | inl q ↦ absurd (ground arith)
    | inr (e, q) ↦ elim (Bool-cases (is_retryable_mount_error e)) [
      | inl s ↦ ground arith
      | inr s ↦ absurd (ground arith)
    ]
  ]

  mount_from-settles :
      (k n i : ℕ) (drive : Drive) (req : MountDriveRequest) (calls : List GuestCall)
      (r : Result (Unit {0}))
      → k < n
      → AllRetry k i
      → settled (a.mount_answer (i + k)) ≡ some r
      → mount_from a n i drive req calls ≡ (
        r,
        mount_all (path_of drive) req.filesystem_type req.options req.destination_path
            ∷ rounds k drive req calls,
      )
  unfolding mount_from rounds
  mount_from-settles k zero i drive req calls r b t h = absurd (omega arith)
  mount_from-settles zero (suc n) i drive req calls r b t h =
      let here : settled (a.mount_answer i) ≡ some r =
        ap (λ m. settled (a.mount_answer m)) (omega arith) ∙ h in
      elim (Option-cases (a.mount_answer i)) [
        | inl q ↦ ground arith
        | inr (e, q) ↦ elim (Bool-cases (is_retryable_mount_error e)) [
          | inl s ↦ ground arith
          | inr s ↦ ground arith
        ]
      ]
  mount_from-settles (suc k) (suc n) i drive req calls r b (t, ts) h =
      mount_from-retry n i drive req calls t
      ∙ mount_from-settles k n (i + 1) drive req
          (sleep
            ∷ mount_all (path_of drive) req.filesystem_type req.options req.destination_path
            ∷ calls)
          r (omega arith) ts (ap (λ m. settled (a.mount_answer m)) (omega arith) ∙ h)

  mount_from-exhausts :
      (left i : ℕ) (drive : Drive) (req : MountDriveRequest) (calls : List GuestCall)
      → AllRetry left i
      → mount_from a left i drive req calls ≡ (
        err (errorf "exhausted retries mounting drive from %q to %q" []),
        rounds left drive req calls,
      )
  unfolding mount_from rounds
  mount_from-exhausts zero i drive req calls t = refl
  mount_from-exhausts (suc left) i drive req calls (t, ts) =
      mount_from-retry left i drive req calls t
      ∙ mount_from-exhausts left (i + 1) drive req
          (sleep
            ∷ mount_all (path_of drive) req.filesystem_type req.options req.destination_path
            ∷ calls)
          ts

  -- What `MountDrive` needs before it mounts: the drive is known, the destination is no system
  -- directory, and its directory can be made.
  pub record IsReady (dh : DriveHandler) (req : MountDriveRequest) (drive : Drive) : Type 0 where
    pub known : get_drive dh req.drive_id ≡ some drive
    pub allowed : is_system_dir a.eval_symlinks req.destination_path ≡ none
    pub made : a.mkdir_answer req.destination_path ≡ none

  ready :
      (dh : DriveHandler) (req : MountDriveRequest) (drive : Drive) (calls : List GuestCall)
      → IsReady dh req drive
      → mount_drive a dh req calls
        ≡ mount_from a max_retries 0 drive req (mkdir_all req.destination_path ∷ calls)
  unfolding mount_drive mount_found
  ready dh req drive calls r = rw (r.known, r.allowed, r.made) refl

  -- When the drive is known, the destination is no system directory and its directory can be made:
  -- if the first k answers of mount, with k below 100, are errors to retry on, and the next one is
  -- not, then `MountDrive` returns what that answer means, after k mounts that were each followed by
  -- a pause and one more mount.
  pub mount_drive-settles :
      (dh : DriveHandler) (req : MountDriveRequest) (drive : Drive) (calls : List GuestCall) (k : ℕ)
      (r : Result (Unit {0}))
      → IsReady dh req drive
      → k < max_retries
      → AllRetry k 0
      → settled (a.mount_answer k) ≡ some r
      → mount_drive a dh req calls ≡ (
        r,
        mount_all (path_of drive) req.filesystem_type req.options req.destination_path
            ∷ rounds k drive req (mkdir_all req.destination_path ∷ calls),
      )
  mount_drive-settles dh req drive calls k r is_ready b t h =
      ready dh req drive calls is_ready
      ∙ mount_from-settles k max_retries 0 drive req (mkdir_all req.destination_path ∷ calls) r b t
          (ap (λ m. settled (a.mount_answer m)) (omega arith) ∙ h)

  -- When the drive is known, the destination is no system directory and its directory can be made,
  -- but a hundred answers of mount are all errors to retry on, `MountDrive` gives up with an error
  -- after a hundred mounts that were each followed by a pause.
  pub mount_drive-exhausts :
      (dh : DriveHandler) (req : MountDriveRequest) (drive : Drive) (calls : List GuestCall)
      → IsReady dh req drive
      → AllRetry max_retries 0
      → mount_drive a dh req calls ≡ (
        err (errorf "exhausted retries mounting drive from %q to %q" []),
        rounds max_retries drive req (mkdir_all req.destination_path ∷ calls),
      )
  mount_drive-exhausts dh req drive calls is_ready t =
      ready dh req drive calls is_ready
      ∙ mount_from-exhausts max_retries 0 drive req (mkdir_all req.destination_path ∷ calls) t

  -- Whatever the request, if its drive is not known or its destination is a system directory, then
  -- `MountDrive` returns an error and has called nothing.
  pub mount_drive_refused :
      (dh : DriveHandler) (req : MountDriveRequest) (calls : List GuestCall)
      → ((get_drive dh req.drive_id ≡ none)
          ⊎ (is_system_dir a.eval_symlinks req.destination_path ≢ none))
      → (is_err (mount_drive a dh req calls).0 ≡ true) × ((mount_drive a dh req calls).1 ≡ calls)
  unfolding mount_drive mount_found
  mount_drive_refused dh req calls h = elim (Option-cases (get_drive dh req.drive_id)) [
    | inl q ↦ (rw q refl, rw q refl)
    | inr (drive, q) ↦ elim (Option-cases (is_system_dir a.eval_symlinks req.destination_path)) [
      | inl s ↦ absurd (ground arith)
      | inr (e, s) ↦ (rw (q, s) refl, rw (q, s) refl)
    ]
  ]
