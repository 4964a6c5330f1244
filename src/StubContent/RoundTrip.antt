-- ===== src/StubContent/RoundTrip.antt =====
-- What the agent reads back from a drive that the runtime has written.
use abschlussarbeit.Common.{
  ℕ, zero, suc, ◌+◌, ◌-◌, ◌/◌, ◌%◌, ◌≤◌, ◌<◌, ◌≡◌, ◌≢◌, ◌↔◌, refl, true, [], ◌∷◌, ◌++◌, arith,
  length, take-length-append, drop-length-append, All, ◌∙◌, ok, is_err,
}
use mathlib.Core.List.{append-nil}
use abschlussarbeit.Common.Act.{pure, ◌>>=◌}
use abschlussarbeit.Common.Bytes.{Bytes, bytes_eq}
use abschlussarbeit.StubContent.{
  magic_stub_bytes, read_buffer, is_stub_drive, parse_stub_content, generate_stub_content,
}

sub_self : (n : ℕ) → n - n ≡ 0
sub_self n = omega arith

-- A read that finds enough bytes gives them.
read_buffer-append :
    (xs rest : Bytes)
    → 0 < length xs
    → read_buffer (length xs) (xs ++ rest) ≡ (ok (xs, length xs), rest)
unfolding read_buffer
read_buffer-append [] rest h = absurd (omega arith)
read_buffer-append (x ∷ xs) rest h =
    rw (take-length-append xs rest, drop-length-append xs rest) (rw sub_self (rw append-nil))

-- The rest of the parse, once the magic bytes are read.
parse-magic :
    (size : ℕ) (xs : Bytes)
    → parse_stub_content (magic_stub_bytes ++ (size ∷ xs))
      ≡ (read_buffer size >>= λ ident. pure ident.0) xs
unfolding parse_stub_content
parse-magic size xs = refl

generate_lem :
    (ident : Bytes)
    → length ident < 128
    → generate_stub_content ident ≡ ok (magic_stub_bytes ++ (length ident ∷ ident))
unfolding generate_stub_content
generate_lem ident h = ground arith

-- An ID is refused exactly when it is longer than 255 bytes.
pub generate-is_err :
    (ident : Bytes) → (is_err (generate_stub_content ident) ≡ true) ↔ (255 < length ident)
unfolding generate_stub_content
generate-is_err ident = ground arith

-- For an ID of 1 to 127 bytes, whatever follows the content on the drive: the drive is told for a
-- stub, and the agent parses the ID that the runtime wrote.
pub parse-generate :
    (ident rest : Bytes)
    → 0 < length ident
    → length ident < 128
    → (content : Bytes) × (generate_stub_content ident ≡ ok content)
      × (is_stub_drive (content ++ rest) ≡ true)
      × (parse_stub_content (content ++ rest) ≡ (ok ident, rest))
parse-generate ident rest pos small = (
  magic_stub_bytes ++ (length ident ∷ ident),
  generate_lem ident small,
  unfold is_stub_drive bytes_eq in refl,
  parse-magic (length ident) (ident ++ rest) ∙ rw (read_buffer-append ident rest pos),
)

abbrev head_byte : Bytes → ℕ
head_byte [] = 0
head_byte (b ∷ bs) = b

-- The first byte of what a parse of one more field gives is the first byte there.
first_of_field :
    (size x : ℕ) (xs ident : Bytes)
    → 0 < size
    → ((read_buffer size >>= λ field. pure field.0) (x ∷ xs)).0 ≡ ok ident
    → head_byte ident ≡ x
unfolding read_buffer
first_of_field zero x xs ident pos h = absurd (omega arith)
first_of_field (suc n) x xs ident pos h = ground arith

generate-long :
    (ident : Bytes)
    → 128 ≤ length ident
    → length ident ≤ 255
    → generate_stub_content ident
      ≡ ok (magic_stub_bytes ++ ((192 + length ident / 64) ∷ (128 + length ident % 64) ∷ ident))
unfolding generate_stub_content
generate-long ident low high =
    let e : length ident % 256 ≡ length ident = omega arith in rw e (ground arith)

ascii_head : (ident : Bytes) → 0 < length ident → All (λ b. b < 128) ident → head_byte ident < 128
ascii_head [] pos h = absurd (omega arith)
ascii_head (b ∷ bs) pos h = h.0

-- An ID of 128 to 255 ASCII bytes is accepted, but what the agent parses is not the ID: the length
-- is written as a character, which from 128 on takes two bytes.
pub parse-generate_long :
    (ident rest : Bytes)
    → 128 ≤ length ident
    → length ident ≤ 255
    → All (λ b. b < 128) ident
    → (content : Bytes) × (generate_stub_content ident ≡ ok content)
      × ((parse_stub_content (content ++ rest)).0 ≢ ok ident)
parse-generate_long ident rest low high ascii =
    let n = length ident in
    (
      magic_stub_bytes ++ ((192 + n / 64) ∷ (128 + n % 64) ∷ ident),
      generate-long ident low high,
      λ h.
          let first : head_byte ident ≡ 128 + n % 64 =
            first_of_field (192 + n / 64) (128 + n % 64) (ident ++ rest) ident (omega arith)
              (rw parse-magic at h) in
          absurd (omega (arith, first, ascii_head ident (omega arith) ascii)),
    )
