-- ===== src/StubDrive/Options.antt =====
-- `setReadWriteOptions` of runtime/drive_handler.go.
use abschlussarbeit.Common.{
  String, ◌≡◌, refl, ◌≢◌, ◌∙◌, ap, Bool, true, false, ◌||◌, List, [], ◌∷◌, ◌++◌, ◌==◌, not, eq_iff,
  arith, if◌then◌else◌, Result, ok, err, errorf, Option, none, some, ◌⊎◌, Bool-cases, inl, inr,
}

-- `expectedOpt`
abbrev pub expected_opt : Bool → String
expected_opt is_writable = if is_writable then "rw" else "ro"

abbrev pub is_mode : String → Bool
is_mode opt = opt == "ro" || opt == "rw"

-- The loop, at the options that are left; `all` are the options given.
check_options : Bool → List String → List String → Result (List String)
check_options is_writable all [] = ok (all ++ expected_opt is_writable ∷ [])
check_options is_writable all (opt ∷ rest) =
    let later = check_options is_writable all rest in
    if is_mode opt
    then (if not (opt == expected_opt is_writable)
        then err (errorf "mount option %s is incompatible with IsWritable=%t" (opt ∷ []))
        else ok all)
    else later

unfoldable pub set_read_write_options : List String → Bool → Result (List String)
unfolding check_options
set_read_write_options options is_writable = check_options is_writable options options

-- The first of some options that says how to mount, if one does.
pub first_mode : List String → Option String
first_mode [] = none
first_mode (opt ∷ rest) = let later = first_mode rest in if is_mode opt then some opt else later

first_mode-append :
    (options : List String) (w : Bool)
    → first_mode options ≡ none
    → first_mode (options ++ expected_opt w ∷ []) ≡ some (expected_opt w)
unfolding first_mode
first_mode-append [] true h = refl
first_mode-append [] false h = refl
first_mode-append (opt ∷ rest) w h = ground (arith, first_mode-append rest w)

first_mode-is_mode :
    (options : List String) (x : String) → first_mode options ≡ some x → is_mode x ≡ true
unfolding first_mode
first_mode-is_mode [] x h = cc
first_mode-is_mode (opt ∷ rest) x h = ground (arith, first_mode-is_mode rest x)

-- The loop by the first option that says how to mount.
abbrev by_mode : Bool → List String → Option String → Result (List String)
by_mode w all none = ok (all ++ expected_opt w ∷ [])
by_mode w all (some opt) =
    if not (opt == expected_opt w)
    then err (errorf "mount option %s is incompatible with IsWritable=%t" (opt ∷ []))
    else ok all

check_options_lem :
    (w : Bool) (all options : List String)
    → check_options w all options ≡ by_mode w all (first_mode options)
unfolding check_options first_mode
check_options_lem w all [] = refl
check_options_lem w all (opt ∷ rest) =
    ground (arith, check_options_lem w all rest, eq_iff opt (expected_opt w))

-- What may come out for some options and an `IsWritable`.
abbrev pub Agrees : List String → Bool → Result (List String) → Type 0
Agrees options w (ok accepted) =
    (first_mode accepted ≡ some (expected_opt w))
    × ((accepted ≡ options) ⊎ (accepted ≡ options ++ expected_opt w ∷ []))
Agrees options w (err e) = first_mode options ≡ some (expected_opt (not w))

other_mode :
    (w : Bool) (x : String) → is_mode x ≡ true → x ≢ expected_opt w → x ≡ expected_opt (not w)
other_mode true x h n = ground (arith, eq_iff x "ro", eq_iff x "rw")
other_mode false x h n = ground (arith, eq_iff x "ro", eq_iff x "rw")

by_mode-Agrees :
    (options : List String) (w : Bool) (o : Option String)
    → first_mode options ≡ o
    → Agrees options w (by_mode w options o)
by_mode-Agrees options w none h = (first_mode-append options w h, inr refl)
by_mode-Agrees options w (some x) h = elim (Bool-cases (x == expected_opt w)) [
  | inl same ↦
      let e : x ≡ expected_opt w = (eq_iff x (expected_opt w)).0 same in
      rw same (h ∙ ap some e, inl refl)
  | inr other ↦ rw other (
      h
      ∙ ap some (
          other_mode w x (first_mode-is_mode options x h)
            (λ e. ground (arith, eq_iff x (expected_opt w)))))
]

-- Options that are accepted are those given, with at most the drive's own mode added at the end,
-- and the first of them that says how to mount says what the drive allows. Options are refused
-- only if the first that says how to mount says the other mode.
pub set_read_write_options-Agrees :
    (options : List String) (w : Bool) → Agrees options w (set_read_write_options options w)
unfolding set_read_write_options
set_read_write_options-Agrees options w =
    rw (check_options_lem w options options) (by_mode-Agrees options w (first_mode options) refl)
