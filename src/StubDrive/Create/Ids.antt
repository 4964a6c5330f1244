-- ===== src/StubDrive/Create/Ids.antt =====
-- The IDs of the stub drives of a VM's containers.
use abschlussarbeit.Common.{
  ℕ, ◌^◌, ◌≤◌, ◌<◌, ◌≡◌, ◌≢◌, refl, ap, List, [], ◌∷◌, ◌++◌, arith, All, All-append, length,
}
use abschlussarbeit.Common.Bytes.{Bytes, bytes_eq, codes}
use abschlussarbeit.Common.Decimal.{itoa, itoa-injective, All-itoa, length-itoa}
use abschlussarbeit.Common.Base32
use abschlussarbeit.Common.FilePath.{slash, join}
use abschlussarbeit.Common.FilePath.Plain.{IsPlain, base-join}
use abschlussarbeit.StubDrive.Create.{stub_path_to_drive_id}

-- `fmt.Sprintf("ctrstub%d", i)`
abbrev pub stub_name : ℕ → Bytes
stub_name i = codes "ctrstub" ++ itoa i

All-weaken : {P Q : ℕ → Type 0} (f : (n : ℕ) → P n → Q n) (xs : List ℕ) → All P xs → All Q xs
All-weaken f [] h = tt
All-weaken f (x ∷ xs) h = (f x h.0, All-weaken f xs h.1)

stub_name_bytes_are :
    (P : ℕ → Type 0)
    → All P (codes "ctrstub")
    → ((b : ℕ) → (48 ≤ b) × (b < 58) → P b)
    → (i : ℕ) → All P (stub_name i)
stub_name_bytes_are P letters digits i =
    All-append P (codes "ctrstub") (itoa i) letters
      (All-weaken {P = λ b. (48 ≤ b) × (b < 58)} {Q = P} digits (itoa i) (All-itoa i))

stub_name-IsPlain : (i : ℕ) → IsPlain (stub_name i)
unfolding bytes_eq
stub_name-IsPlain i = record {
  no_slash = stub_name_bytes_are (λ c. c ≢ slash) (omega arith) (λ n h. omega arith) i;
  some_byte = refl;
  not_dot = refl;
  not_dot_dot = refl;
}

stub_name_bytes : (i : ℕ) → All (λ b. b < 256) (stub_name i)
stub_name_bytes i = stub_name_bytes_are (λ b. b < 256) (omega arith) (λ n h. omega arith) i

-- The ID of the i-th container stub, whatever the jail's root: the encoded name.
pub container_id :
    (root : Bytes) (i : ℕ)
    → stub_path_to_drive_id (join root (stub_name i)) ≡ Base32.encode (stub_name i)
unfolding stub_path_to_drive_id
container_id root i = ap Base32.encode (base-join (stub_name-IsPlain i) root)

prefix-injective : (p xs ys : Bytes) → p ++ xs ≡ p ++ ys → xs ≡ ys
prefix-injective [] xs ys h = h
prefix-injective (c ∷ p) xs ys h = prefix-injective p xs ys (cc)

-- Container stubs of different numbers have different drive IDs.
pub container_id-injective :
    (i j : ℕ) → Base32.encode (stub_name i) ≡ Base32.encode (stub_name j) → i ≡ j
container_id-injective i j h = itoa-injective i j (
    prefix-injective (codes "ctrstub") (itoa i) (itoa j) (
      Base32.encode-injective (stub_name i) (stub_name j) (stub_name_bytes i) (stub_name_bytes j)
        h))

-- The ID of a stub whose number is an `int32` is short enough to be parsed back from the drive.
pub container_id-short :
    (i : ℕ)
    → i < 2 ^ 31
    → (0 < length (Base32.encode (stub_name i))) × (length (Base32.encode (stub_name i)) < 128)
container_id-short i h = (
  Base32.encode-pos (stub_name i) (omega arith),
  omega (arith, Base32.length-encode (stub_name i), length-itoa i 9 (omega arith)),
)
