-- ===== src/StubDrive/Handler/Outcomes.antt =====
-- What `Reserve` and `Release` leave behind, on every branch.
use abschlussarbeit.Common.{
  String, ◌≡◌, refl, ◌∙◌, true, false, Option, none, some, List, [], ◌∷◌, ◌++◌, arith, Bool-cases,
  inl, inr, ◌⊎◌, if◌then◌else◌, Result, ok, err, is_err,
}
use abschlussarbeit.Common.Assoc.{lookup, insert, remove}
use abschlussarbeit.Common.Bytes.{Bytes}
use abschlussarbeit.Common.Calls.{Answers}
use abschlussarbeit.StubDrive.Options.{set_read_write_options}
use abschlussarbeit.StubDrive.Create.{StubDrive, with_mount_config}
use abschlussarbeit.StubDrive.Handler.{
  VmCall, StubDriveHandler, Vm, take_drive, reserve_of, reserve, give_back, release,
}

abbrev accepted_of : Result (List String) → List String
accepted_of (ok accepted) = accepted
accepted_of (err e) = []

module _ (answers : Answers VmCall) (ident : String) (host vm : Bytes) (fs : String)
    (options : List String) where
  -- The drive that `Reserve` puts in use, made of the first free one.
  abbrev pub mounted : StubDrive → StubDrive
  mounted d =
      with_mount_config d host vm fs
        (accepted_of (set_read_write_options options d.drive_mount.is_writable))

  abbrev pub taken : StubDrive → List StubDrive → StubDriveHandler → StubDriveHandler
  taken d rest h = record {
    free_drives = rest;
    used_drives = insert ident (mounted d) h.used_drives;
  }

  take_drive_lem :
      (d : StubDrive) (rest : List StubDrive) (v : Vm)
      → let r = take_drive answers d rest ident host vm fs options v in
        r.1.handler ≡ (if is_err r.0 then v.handler else taken d rest v.handler)
  unfolding take_drive
  take_drive_lem d rest v = ground arith

  -- What a `Reserve` that succeeds leaves behind.
  pub record Reserved (h h' : StubDriveHandler) : Type 0 where
    pub drive : StubDrive
    pub rest : List StubDrive
    pub was_free : h.free_drives ≡ drive ∷ rest
    pub unused : lookup ident h.used_drives ≡ none
    pub result : h' ≡ taken drive rest h

  reserve_of_lem :
      (free : List StubDrive) (used : Option StubDrive) (v : Vm)
      → v.handler.free_drives ≡ free
      → lookup ident v.handler.used_drives ≡ used
      → let r = reserve_of answers free used ident host vm fs options v in
        ((is_err r.0 ≡ true) × (r.1.handler ≡ v.handler))
        ⊎ ((is_err r.0 ≡ false) × Reserved v.handler r.1.handler)
  unfolding reserve_of
  reserve_of_lem [] used v h k = inl (refl, refl)
  reserve_of_lem (d ∷ rest) (some u) v h k = inl (refl, refl)
  reserve_of_lem (d ∷ rest) none v h k =
      elim (Bool-cases (is_err (take_drive answers d rest ident host vm fs options v).0)) [
        | inl bad ↦ inl (bad, take_drive_lem d rest v ∙ rw bad)
        | inr good ↦ inr (
          good,
          record {
            drive = d;
            rest = rest;
            was_free = h;
            unused = k;
            result = take_drive_lem d rest v ∙ rw good;
          },
        )
      ]

  -- A `Reserve` that fails leaves the handler as it was; one that succeeds moves the first free
  -- drive to the ID, which was not in use.
  pub reserve_outcome :
      (v : Vm)
      → let r = reserve answers ident host vm fs options v in
        ((is_err r.0 ≡ true) × (r.1.handler ≡ v.handler))
        ⊎ ((is_err r.0 ≡ false) × Reserved v.handler r.1.handler)
  unfolding reserve
  reserve_outcome v =
      reserve_of_lem v.handler.free_drives (lookup ident v.handler.used_drives) v refl refl

module _ (answers : Answers VmCall) (ident : String) where
  abbrev pub returned : StubDrive → StubDriveHandler → StubDriveHandler
  returned d h = record {
    free_drives = h.free_drives ++ d ∷ [];
    used_drives = remove ident h.used_drives;
  }

  give_back_lem :
      (used : Option StubDrive) (v : Vm)
      → lookup ident v.handler.used_drives ≡ used
      → let r = give_back answers ident used v in
        ((is_err r.0 ≡ true) × (r.1.handler ≡ v.handler))
        ⊎ ((d : StubDrive) × (is_err r.0 ≡ false)
            × (lookup ident v.handler.used_drives ≡ some d)
            × (r.1.handler ≡ returned d v.handler))
  give_back_lem none v h = inl (unfold give_back in (refl, refl))
  give_back_lem (some d) v h = elim (Bool-cases (is_err (give_back answers ident (some d) v).0)) [
    | inl bad ↦ inl (bad, unfold give_back in ground arith)
    | inr good ↦ inr (d, good, h, unfold give_back in ground arith)
  ]

  -- A `Release` that fails leaves the handler as it was; one that succeeds moves the drive of the
  -- ID behind the free ones.
  pub release_outcome :
      (v : Vm)
      → let r = release answers ident v in
        ((is_err r.0 ≡ true) × (r.1.handler ≡ v.handler))
        ⊎ ((d : StubDrive) × (is_err r.0 ≡ false)
            × (lookup ident v.handler.used_drives ≡ some d)
            × (r.1.handler ≡ returned d v.handler))
  unfolding release
  release_outcome v = give_back_lem (lookup ident v.handler.used_drives) v refl
