-- ===== src/DriveMount/Discovery.antt =====
-- `discoverDrives` of agent/drive_handler.go. What the guest's files hold is an argument, and does
-- not change while the drives are looked for.
pub mod Found
use abschlussarbeit.Common.{
  ◌≡◌, refl, sym, ap, subst, ◌∙◌, Bool, true, false, Option, none, some, List, [], ◌∷◌, arith,
  if◌then◌else◌, inl, inr, Bool-cases, Error, Result, ok, err, Result-cases,
}
use abschlussarbeit.Common.Bytes.{Bytes, bytes_eq, bytes_eq_iff, codes}
use abschlussarbeit.Common.FilePath.{join}
use abschlussarbeit.StubContent.{is_stub_drive, parse_stub_content}
use abschlussarbeit.LogLevels.Parse.{trim_space}

-- `drive`
pub record Drive : Type 0 where
  pub name : Bytes
  pub drive_id : Bytes
  pub major_minor : Bytes
  pub drive_path : Bytes

-- `Path`
abbrev pub path_of : Drive → Bytes
path_of d = join d.drive_path d.name

-- `map[string]drive`: a write goes to the front, and hides what stood under its key.
abbrev pub DriveMap : Type 0
DriveMap = List (Bytes × Drive)

unfoldable pub find_drive : Bytes → DriveMap → Option Drive
find_drive ident [] = none
find_drive ident ((key, d) ∷ m) = if bytes_eq key ident then some d else find_drive ident m

-- `driveHandler`
pub record DriveHandler : Type 0 where
  pub drives : DriveMap
  pub block_path : Bytes
  pub drive_path : Bytes

-- `GetDrive`
abbrev pub get_drive : DriveHandler → Bytes → Option Drive
get_drive dh ident = find_drive ident dh.drives

-- `ioutil.ReadDir`, `ioutil.ReadFile` and `os.Open` in the guest: the names in the block directory,
-- and what a file holds.
pub record Guest : Type 0 where
  pub read_dir : Bytes → Result (List Bytes)
  pub content : Bytes → Result Bytes

module _ (guest : Guest) (block_path drive_path : Bytes) where
  abbrev with_numbers : Bytes → Result Bytes → Result Drive
  with_numbers name (ok text) = ok (record {
    name = name;
    drive_id = [];
    major_minor = trim_space text;
    drive_path = drive_path;
  })
  with_numbers name (err e) = err e

  -- `buildDrive`
  unfoldable pub build_drive : Bytes → Result Drive
  build_drive name = with_numbers name (guest.content (join (join block_path name) (codes "dev")))

  abbrev stub_on : Result Bytes → Bool
  stub_on (ok bytes) = is_stub_drive bytes
  stub_on (err e) = false

  abbrev parsed : Drive → Result Bytes → Result Drive
  parsed d (ok ident) = ok (record d { drive_id = ident })
  parsed d (err e) = err e

  abbrev open_and_parse : Drive → Result Bytes → Result Drive
  open_and_parse d (ok bytes) = parsed d (parse_stub_content bytes).0
  open_and_parse d (err e) = err e

  -- What one name adds: nothing if it is no stub drive.
  pub look_at : Result Drive → Result (Option Drive)
  look_at (err e) = err e
  look_at (ok d) =
      if stub_on (guest.content (path_of d))
      then elim (open_and_parse d (guest.content (path_of d))) [
        | ok d' ↦ ok (some d')
        | err e ↦ err e
      ]
      else ok none

  abbrev pub keep : Option Drive → DriveMap → DriveMap
  keep none m = m
  keep (some d) m = (d.drive_id, d) ∷ m

  -- The loop, at the names that are left.
  pub discover_from : List Bytes → DriveMap → Result DriveMap
  discover_from [] m = ok m
  discover_from (name ∷ names) m = elim (look_at (build_drive name)) [
    | ok found ↦ discover_from names (keep found m)
    | err e ↦ err e
  ]

  -- `discoverDrives`, and `newDriveHandler`, which keeps what it finds.
  unfoldable pub new_drive_handler : Result DriveHandler
  unfolding build_drive look_at discover_from
  new_drive_handler = elim (guest.read_dir block_path) [
    | ok names ↦ elim (discover_from names []) [
      | ok m ↦ ok (record { drives = m; block_path = block_path; drive_path = drive_path })
      | err e ↦ err e
    ]
    | err e ↦ err e
  ]
