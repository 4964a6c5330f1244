-- ===== src/StubContent.antt =====
-- internal/common.go: what is written on a stub drive so that the agent can tell its ID.
-- A reader over a file is the list of the bytes that are left; a read fills its buffer as far as
-- there are bytes, and at the end of the file it is `io.EOF`.
pub mod RoundTrip
use abschlussarbeit.Common.{
  ℕ, zero, suc, ◌+◌, ◌-◌, ◌/◌, ◌%◌, ◌≡◌, Bool, true, false, Option, none, some, List, [], ◌∷◌, ◌++◌,
  ltb, eqb, if◌then◌else◌, length, take, drop, Result, ok, err, errorf, eof,
}
use abschlussarbeit.Common.Act.{Act, pure, raise, ◌>>=◌, ◌>>◌}
use abschlussarbeit.Common.Bytes.{Bytes, bytes_eq}

abbrev pub magic_stub_bytes : Bytes
magic_stub_bytes = 214 ∷ 244 ∷ 216 ∷ 245 ∷ 215 ∷ 177 ∷ 177 ∷ 177 ∷ []

abbrev pub zeros : ℕ → Bytes
zeros zero = []
zeros (suc n) = 0 ∷ zeros n

-- `buf := make([]byte, n)`, then `io.LimitReader(r, n).Read(buf)`: the buffer, with zeros where
-- the file ended early, and the number of bytes read. A limit of 0 is `io.EOF` at once.
unfoldable pub read_buffer : ℕ → Act Bytes (Bytes × ℕ)
read_buffer n [] = (err eof, [])
read_buffer zero r = (err eof, r)
read_buffer n r = let got = take n r in (ok (got ++ zeros (n - length got), length got), drop n r)

-- `IsStubDrive`
unfoldable pub is_stub_drive : Bytes → Bool
unfolding read_buffer
is_stub_drive r = elim ((read_buffer (length magic_stub_bytes) r).0) [
  | ok (buf, n) ↦
      if eqb n (length magic_stub_bytes) then bytes_eq (take n buf) magic_stub_bytes else false
  | err e ↦ false
]

-- `sizeByte[0]`
abbrev first_byte : Bytes → ℕ
first_byte [] = 0
first_byte (b ∷ bs) = b

-- `ParseStubContent`: neither the magic bytes nor the numbers of bytes read are looked at.
unfoldable pub parse_stub_content : Act Bytes Bytes
unfolding read_buffer
parse_stub_content = do
  magic ← read_buffer (length magic_stub_bytes)
  size ← read_buffer 1
  ident ← read_buffer (first_byte size.0)
  pure ident.0

-- `%c` of `fmt.Sprintf`: the UTF-8 form of a code point below 2048.
unfoldable pub format_char : ℕ → Bytes
format_char c = if ltb c 128 then c ∷ [] else (192 + c / 64) ∷ (128 + c % 64) ∷ []

-- `GenerateStubContent`
unfoldable pub generate_stub_content : Bytes → Result Bytes
unfolding format_char
generate_stub_content ident =
    if ltb 255 (length ident)
    then err (errorf "Length of drive id, %d, is too long and is limited to %d bytes" [])
    else ok (magic_stub_bytes ++ (format_char (length ident % 256) ++ ident))
