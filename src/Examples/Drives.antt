-- ===== src/Examples/Drives.antt =====
-- Stub drives, log levels and the agent's drive mounts on concrete inputs.
use mathlib.Core.List.{Perm}
use mathlib.Core.List.Perm
use abschlussarbeit.Common.{
  ℕ, zero, suc, ◌<◌, String, ◌≡◌, ◌≢◌, ◌↔◌, ◌⊎◌, true, false, Option, none, some, List, [], ◌∷◌,
  ◌++◌, arith, Error, Result, ok, err, is_err, All,
}
use abschlussarbeit.Common.Bytes.{Bytes, codes}
use abschlussarbeit.Common.Assoc.{IsMap, lookup}
use abschlussarbeit.StubContent.{generate_stub_content, is_stub_drive, parse_stub_content}
use abschlussarbeit.StubContent.RoundTrip.{parse-generate, parse-generate_long}
use abschlussarbeit.StubDrive.Create.{StubDrive, blank_mount, Files}
use abschlussarbeit.StubDrive.Handler.{VmCall, Vm, reserve, release}
use abschlussarbeit.StubDrive.Handler.Outcomes.{
  Reserved, returned, reserve_outcome, release_outcome,
}
use abschlussarbeit.StubDrive.Handler.Conservation.{
  Request, reserve_for, release_of, serve, drives, serve-perm,
}
use abschlussarbeit.RateLimit.{BucketBuilder}
use abschlussarbeit.LogLevels.{Helper, blank, settings, new}
use abschlussarbeit.LogLevels.Order.{map_meaning, helper_of, new-perm}
use abschlussarbeit.LogLevels.Accept.{Acceptable, new_accepts}

abbrev short_id : Bytes
short_id = codes "MN2HE43UOVRDA"

parse-generate_example :
    (content : Bytes) × (generate_stub_content short_id ≡ ok content)
    × (is_stub_drive (content ++ 0 ∷ []) ≡ true)
    × (parse_stub_content (content ++ 0 ∷ []) ≡ (ok short_id, 0 ∷ []))
parse-generate_example = parse-generate short_id (0 ∷ []) (omega arith) (omega arith)

abbrev letters : ℕ → Bytes
letters zero = []
letters (suc n) = 97 ∷ letters n

letters_ascii : (n : ℕ) → All (λ b. b < 128) (letters n)
letters_ascii zero = tt
letters_ascii (suc n) = (omega arith, letters_ascii n)

parse-generate_long_example :
    (content : Bytes) × (generate_stub_content (letters 128) ≡ ok content)
    × ((parse_stub_content (content ++ [])).0 ≢ ok (letters 128))
parse-generate_long_example =
    parse-generate_long (letters 128) [] (omega arith) (omega arith) (letters_ascii 128)

abbrev stub : String → StubDrive
stub name = record {
  stub_path = codes name;
  drive_id = codes name;
  drive_mount = blank_mount true none;
}

abbrev two_stubs : Vm
two_stubs = record {
  handler = record { free_drives = stub "a" ∷ stub "b" ∷ []; used_drives = [] };
  calls = [];
}

abbrev all_good : List VmCall → VmCall → Option Error
all_good calls c = none

abbrev requests : List Request
requests =
    reserve_for "c1" (codes "/host") (codes "/vm") "ext4" []
    ∷ reserve_for "c2" (codes "/host2") (codes "/vm2") "ext4" []
    ∷ release_of "c1"
    ∷ []

serve-perm_example :
    Perm (drives two_stubs.handler) (drives (serve all_good requests two_stubs).handler)
    × IsMap (serve all_good requests two_stubs).handler.used_drives
serve-perm_example = serve-perm all_good requests two_stubs tt

abbrev one_stub : Vm
one_stub = record {
  handler = record { free_drives = []; used_drives = ("c", stub "a") ∷ [] };
  calls = [];
}

reserve_outcome_example :
    let r = reserve all_good "c" (codes "/host") (codes "/vm") "ext4" [] two_stubs in
    ((is_err r.0 ≡ true) × (r.1.handler ≡ two_stubs.handler))
    ⊎ ((is_err r.0 ≡ false)
        × Reserved all_good "c"
            (codes "/host")
            (codes "/vm")
            "ext4"
            []
            two_stubs.handler
            r.1.handler)
reserve_outcome_example =
    reserve_outcome all_good "c" (codes "/host") (codes "/vm") "ext4" [] two_stubs

release_outcome_example :
    let r = release all_good "c" one_stub in
    ((is_err r.0 ≡ true) × (r.1.handler ≡ one_stub.handler))
    ⊎ ((d : StubDrive) × (is_err r.0 ≡ false)
        × (lookup "c" one_stub.handler.used_drives ≡ some d)
        × (r.1.handler ≡ returned all_good "c" d one_stub.handler))
release_outcome_example = release_outcome all_good "c" one_stub

abbrev first_levels : List Bytes
first_levels = codes "info" ∷ codes "firecracker:debug" ∷ []

abbrev second_levels : List Bytes
second_levels = codes "firecracker:debug" ∷ codes "info" ∷ []

new-perm_example :
    map_meaning (helper_of (new first_levels)) ≡ map_meaning (helper_of (new second_levels))
new-perm_example = new-perm first_levels second_levels (Perm.swap _ _ _)

new_accepts_example : (is_err (new first_levels) ≡ false) ↔ Acceptable (settings first_levels)
new_accepts_example = new_accepts first_levels

abbrev or_blank : Result Helper → Helper
or_blank (ok h) = h
or_blank (err e) = blank []

abbrev pub plain_sdk : BucketBuilder
plain_sdk = record {
  Builder = Unit {0};
  Bucket = Unit {0};
  empty = tt;
  with_initial_size = λ b n. b;
  with_refill_duration = λ b n. b;
  with_bucket_size = λ b n. b;
  build = λ b. b;
}

abbrev pub plain_files : Files
plain_files = record { answers = λ calls c. none; file_size = λ calls path. 30 }
