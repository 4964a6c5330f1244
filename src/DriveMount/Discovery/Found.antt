-- ===== src/DriveMount/Discovery/Found.antt =====
-- agent/drive_handler.go: what the drives that the handler finds were read from.
use abschlussarbeit.Common.{
  ◌≡◌, refl, sym, ap, subst, ◌∙◌, true, Option, none, some, List, [], ◌∷◌, arith, inl, inr,
  Bool-cases, Error, Result, ok, err, Result-cases,
}
use abschlussarbeit.Common.Bytes.{Bytes, bytes_eq, bytes_eq_iff}
use abschlussarbeit.Common.FilePath.{join}
use abschlussarbeit.StubContent.{is_stub_drive, parse_stub_content}
use abschlussarbeit.DriveMount.Discovery.{
  Drive, DriveHandler, DriveMap, Guest, build_drive, discover_from, find_drive, get_drive, keep,
  look_at, new_drive_handler, path_of,
}

module _ (guest : Guest) (block_path drive_path : Bytes) where
  -- Every drive of the map stands under its own ID, and its file in the drive directory is a stub
  -- drive that parses to that ID.
  pub record IsFound (key : Bytes) (d : Drive) : Type 0 where
    pub keyed : d.drive_id ≡ key
    pub in_directory : d.drive_path ≡ drive_path
    pub some_content : Bytes
    pub holds : guest.content (join drive_path d.name) ≡ ok some_content
    pub is_stub : is_stub_drive some_content ≡ true
    pub parses : (parse_stub_content some_content).0 ≡ ok key

  abbrev pub AllFound : DriveMap → Type 0
  AllFound [] = Unit
  AllFound ((key, d) ∷ m) = IsFound key d × AllFound m

  build_drive_ok :
      (name : Bytes) (d : Drive)
      → build_drive guest block_path drive_path name ≡ ok d
      → (d.name ≡ name) × (d.drive_path ≡ drive_path)
  unfolding build_drive
  build_drive_ok name d h = ground arith

  found :
      (d : Drive) (bytes ident : Bytes)
      → d.drive_path ≡ drive_path
      → guest.content (path_of d) ≡ ok bytes
      → is_stub_drive bytes ≡ true
      → (parse_stub_content bytes).0 ≡ ok ident
      → IsFound ident (record d { drive_id = ident })
  found d bytes ident p q s t = record {
    keyed = refl;
    in_directory = p;
    some_content = bytes;
    holds = ap (λ dir. guest.content (join dir d.name)) (sym p) ∙ q;
    is_stub = s;
    parses = t;
  }

  -- Every stub drive that the agent takes up was read from the drive directory.
  look_at-IsFound :
      (d d' : Drive)
      → d.drive_path ≡ drive_path
      → look_at guest block_path drive_path (ok d) ≡ ok (some d')
      → IsFound d'.drive_id d'
  unfolding look_at
  look_at-IsFound d d' p h = elim (Result-cases (guest.content (path_of d))) [
    | inr (e, q) ↦ absurd (ground arith)
    | inl (bytes, q) ↦ elim (Bool-cases (is_stub_drive bytes)) [
      | inr s ↦ absurd (ground arith)
      | inl s ↦ elim (Result-cases ((parse_stub_content bytes).0)) [
        | inr (e, t) ↦ absurd (ground arith)
        | inl (ident, t) ↦
            let same : record d { drive_id = ident } ≡ d' = ground arith in
            subst (λ x. IsFound x.drive_id x) same (found d bytes ident p q s t)
      ]
    ]
  ]

  kept :
      (d : Drive) (o : Option Drive) (m : DriveMap)
      → d.drive_path ≡ drive_path
      → look_at guest block_path drive_path (ok d) ≡ ok o
      → AllFound m
      → AllFound (keep guest block_path drive_path o m)
  kept d none m p h a = a
  kept d (some d') m p h a = (look_at-IsFound d d' p h, a)

  refused : {e : Error} {m : DriveMap} → err e ≡ ok m → ⊥
  refused h = ground arith

  keep_found :
      (names : List Bytes) (m m' : DriveMap)
      → AllFound m
      → discover_from guest block_path drive_path names m ≡ ok m'
      → AllFound m'
  unfolding discover_from look_at
  keep_found [] m m' a h = let same : m ≡ m' = ground arith in subst AllFound same a
  keep_found (name ∷ names) m m' a h =
      elim (Result-cases (build_drive guest block_path drive_path name)) [
        | inr (e, q) ↦ absurd (
            refused (
              subst
                (λ x.
                  elim (look_at guest block_path drive_path x) as (λ _. Result DriveMap) [
                    | ok o ↦
                        discover_from guest block_path drive_path names
                          (keep guest block_path drive_path o m)
                    | err e2 ↦ err e2
                  ]
                  ≡ ok m')
                q h))
        | inl (d, q) ↦
            elim (Result-cases (
              look_at guest block_path drive_path (build_drive guest block_path drive_path name))) [
                | inr (e, r) ↦ absurd (ground arith)
                | inl (o, r) ↦
                    keep_found names (keep guest block_path drive_path o m) m'
                      (kept d o m (build_drive_ok name d q).1
                        (subst (λ x. look_at guest block_path drive_path x ≡ ok o) q r) a)
                      (ground arith)
              ]
      ]

  all_found :
      (dh : DriveHandler)
      → new_drive_handler guest block_path drive_path ≡ ok dh
      → AllFound dh.drives
  unfolding new_drive_handler discover_from
  all_found dh h = elim (Result-cases (guest.read_dir block_path)) [
    | inr (e, q) ↦ absurd (ground arith)
    | inl (names, q) ↦ elim (Result-cases (discover_from guest block_path drive_path names [])) [
      | inr (e, r) ↦ absurd (ground arith)
      | inl (m, r) ↦
          let same : m ≡ dh.drives = ground arith in
          subst AllFound same (keep_found names [] m tt r)
    ]
  ]

  find-IsFound :
      (ident : Bytes) (m : DriveMap) (d : Drive)
      → AllFound m
      → find_drive ident m ≡ some d
      → IsFound ident d
  unfolding find_drive
  find-IsFound ident [] d a h = absurd (ground arith)
  find-IsFound ident ((key, d') ∷ m) d (f, a) h = elim (Bool-cases (bytes_eq key ident)) [
    | inr q ↦ find-IsFound ident m d a (ground arith)
    | inl q ↦
        let same_key : key ≡ ident = (bytes_eq_iff key ident).0 q in
        let same : d' ≡ d = ground arith in
        subst (IsFound ident) same (subst (λ x. IsFound x d') same_key f)
  ]

  -- When the agent has looked through the drives, then whatever `GetDrive` finds under an ID lies in
  -- the drive directory, its ID is that one, and its file holds a stub drive that parses to that ID.
  pub new_drive_handler-IsFound :
      (dh : DriveHandler) (ident : Bytes) (d : Drive)
      → new_drive_handler guest block_path drive_path ≡ ok dh
      → get_drive dh ident ≡ some d
      → IsFound ident d
  new_drive_handler-IsFound dh ident d h g = find-IsFound ident dh.drives d (all_found dh h) g
