-- ===== src/Common/Base32.antt =====
-- `base32.StdEncoding.WithPadding(base32.NoPadding)`: five bytes are eight characters, and what is
-- left over at the end as many characters as it needs.
use Prim.Native.Nat.{ℕ, ◌+◌, ◌-◌, ◌*◌, ◌/◌, ◌%◌, ◌≤◌, ◌<◌}
use mathlib.Core.Path.{◌≡◌, refl, sym, ap, ◌∙◌}
use mathlib.Core.Logic.{◌⊎◌}
use mathlib.Core.List.{[], ◌∷◌}
use native.Mathlib.Omega.{arith}
use abschlussarbeit.Common.Tests.{ltb, if◌then◌else◌}
use abschlussarbeit.Common.Lists.{All, length}
use abschlussarbeit.Common.Bytes.{Bytes}

-- The alphabet: A to Z, then 2 to 7.
unfoldable pub letter : ℕ → ℕ
letter v = if ltb v 26 then 65 + v else 24 + v

unfoldable pub encode : Bytes → Bytes
encode [] = []
encode (a ∷ []) = letter (a / 8) ∷ letter (a % 8 * 4) ∷ []
encode (a ∷ b ∷ []) =
    letter (a / 8) ∷ letter (a % 8 * 4 + b / 64) ∷ letter (b / 2 % 32) ∷ letter (b % 2 * 16) ∷ []
encode (a ∷ b ∷ c ∷ []) =
    letter (a / 8)
    ∷ letter (a % 8 * 4 + b / 64)
    ∷ letter (b / 2 % 32)
    ∷ letter (b % 2 * 16 + c / 16)
    ∷ letter (c % 16 * 2)
    ∷ []
encode (a ∷ b ∷ c ∷ d ∷ []) =
    letter (a / 8)
    ∷ letter (a % 8 * 4 + b / 64)
    ∷ letter (b / 2 % 32)
    ∷ letter (b % 2 * 16 + c / 16)
    ∷ letter (c % 16 * 2 + d / 128)
    ∷ letter (d / 4 % 32)
    ∷ letter (d % 4 * 8)
    ∷ []
encode (a ∷ b ∷ c ∷ d ∷ e ∷ r) =
    letter (a / 8)
    ∷ letter (a % 8 * 4 + b / 64)
    ∷ letter (b / 2 % 32)
    ∷ letter (b % 2 * 16 + c / 16)
    ∷ letter (c % 16 * 2 + d / 128)
    ∷ letter (d / 4 % 32)
    ∷ letter (d % 4 * 8 + e / 32)
    ∷ letter (e % 32)
    ∷ encode r

digit : ℕ → ℕ
digit c = if ltb c 65 then c - 24 else c - 65

digit-letter : (v : ℕ) → v < 32 → digit (letter v) ≡ v
unfolding digit letter
digit-letter v h = ground arith

-- Reads a text of the alphabet back.
pub decode : Bytes → Bytes
decode (p ∷ q ∷ []) = (digit p * 8 + digit q / 4) ∷ []
decode (p ∷ q ∷ r ∷ s ∷ []) =
    (digit p * 8 + digit q / 4) ∷ (digit q % 4 * 64 + digit r * 2 + digit s / 16) ∷ []
decode (p ∷ q ∷ r ∷ s ∷ t ∷ []) =
    (digit p * 8 + digit q / 4)
    ∷ (digit q % 4 * 64 + digit r * 2 + digit s / 16)
    ∷ (digit s % 16 * 16 + digit t / 2)
    ∷ []
decode (p ∷ q ∷ r ∷ s ∷ t ∷ u ∷ v ∷ []) =
    (digit p * 8 + digit q / 4)
    ∷ (digit q % 4 * 64 + digit r * 2 + digit s / 16)
    ∷ (digit s % 16 * 16 + digit t / 2)
    ∷ (digit t % 2 * 128 + digit u * 4 + digit v / 8)
    ∷ []
decode (p ∷ q ∷ r ∷ s ∷ t ∷ u ∷ v ∷ w ∷ x) =
    (digit p * 8 + digit q / 4)
    ∷ (digit q % 4 * 64 + digit r * 2 + digit s / 16)
    ∷ (digit s % 16 * 16 + digit t / 2)
    ∷ (digit t % 2 * 128 + digit u * 4 + digit v / 8)
    ∷ (digit v % 8 * 32 + digit w)
    ∷ decode x
decode _ = []

-- Each byte from the letters that hold its bits, given the byte after it.
first_bits : (a b : ℕ) → b < 256 → a / 8 * 8 + (a % 8 * 4 + b / 64) / 4 ≡ a
first_bits a b h = omega arith

second_bits :
    (a b c : ℕ)
    → b < 256
    → c < 256
    → (a % 8 * 4 + b / 64) % 4 * 64 + b / 2 % 32 * 2 + (b % 2 * 16 + c / 16) / 16 ≡ b
second_bits a b c h k = omega arith

third_bits :
    (b c d : ℕ)
    → c < 256
    → d < 256
    → (b % 2 * 16 + c / 16) % 16 * 16 + (c % 16 * 2 + d / 128) / 2 ≡ c
third_bits b c d h k = omega arith

fourth_bits :
    (c d e : ℕ)
    → d < 256
    → e < 256
    → (c % 16 * 2 + d / 128) % 2 * 128 + d / 4 % 32 * 4 + (d % 4 * 8 + e / 32) / 8 ≡ d
fourth_bits c d e h k = omega arith

fifth_bits : (d e : ℕ) → e < 256 → (d % 4 * 8 + e / 32) % 8 * 32 + e % 32 ≡ e
fifth_bits d e h = omega arith

-- Encoding loses nothing.
pub decode-encode : (bs : Bytes) → All (λ b. b < 256) bs → decode (encode bs) ≡ bs
unfolding decode encode
decode-encode [] h = refl
decode-encode (a ∷ []) h =
    rw (digit-letter (a / 8) (omega arith), digit-letter (a % 8 * 4) (omega arith)) (ground arith)
decode-encode (a ∷ b ∷ []) h =
    rw
      (
        digit-letter (a / 8) (omega arith),
        digit-letter (a % 8 * 4 + b / 64) (omega arith),
        digit-letter (b / 2 % 32) (omega arith),
        digit-letter (b % 2 * 16) (omega arith),
      )
      (ground arith)
decode-encode (a ∷ b ∷ c ∷ []) h =
    rw
      (
        digit-letter (a / 8) (omega arith),
        digit-letter (a % 8 * 4 + b / 64) (omega arith),
        digit-letter (b / 2 % 32) (omega arith),
        digit-letter (b % 2 * 16 + c / 16) (omega arith),
        digit-letter (c % 16 * 2) (omega arith),
      )
      (ground arith)
decode-encode (a ∷ b ∷ c ∷ d ∷ []) h =
    rw
      (
        digit-letter (a / 8) (omega arith),
        digit-letter (a % 8 * 4 + b / 64) (omega arith),
        digit-letter (b / 2 % 32) (omega arith),
        digit-letter (b % 2 * 16 + c / 16) (omega arith),
        digit-letter (c % 16 * 2 + d / 128) (omega arith),
        digit-letter (d / 4 % 32) (omega arith),
        digit-letter (d % 4 * 8) (omega arith),
      )
      (ground arith)
decode-encode (a ∷ b ∷ c ∷ d ∷ e ∷ r) h =
    rw
      (
        digit-letter (a / 8) (omega arith),
        digit-letter (a % 8 * 4 + b / 64) (omega arith),
        digit-letter (b / 2 % 32) (omega arith),
        digit-letter (b % 2 * 16 + c / 16) (omega arith),
        digit-letter (c % 16 * 2 + d / 128) (omega arith),
        digit-letter (d / 4 % 32) (omega arith),
        digit-letter (d % 4 * 8 + e / 32) (omega arith),
        digit-letter (e % 32) (omega arith),
      )
      (rw (
        first_bits a b h.1.0,
        second_bits a b c h.1.0 h.1.1.0,
        third_bits b c d h.1.1.0 h.1.1.1.0,
        fourth_bits c d e h.1.1.1.0 h.1.1.1.1.0,
        fifth_bits d e h.1.1.1.1.0,
        decode-encode r h.1.1.1.1.1,
      ))

-- No two byte texts are encoded alike.
pub encode-injective :
    (xs ys : Bytes)
    → All (λ b. b < 256) xs
    → All (λ b. b < 256) ys
    → encode xs ≡ encode ys
    → xs ≡ ys
encode-injective xs ys hx hy e = sym (decode-encode xs hx) ∙ ap decode e ∙ decode-encode ys hy

-- Five bytes take eight letters, so twice the length is more than enough.
pub length-encode : (bs : Bytes) → length (encode bs) ≤ 2 * length bs
unfolding encode
length-encode [] = omega arith
length-encode (a ∷ []) = omega arith
length-encode (a ∷ b ∷ []) = omega arith
length-encode (a ∷ b ∷ c ∷ []) = omega arith
length-encode (a ∷ b ∷ c ∷ d ∷ []) = omega arith
length-encode (a ∷ b ∷ c ∷ d ∷ e ∷ r) = omega (arith, length-encode r)

pub encode-pos : (bs : Bytes) → 0 < length bs → 0 < length (encode bs)
unfolding encode
encode-pos [] h = absurd (omega arith)
encode-pos (a ∷ []) h = omega arith
encode-pos (a ∷ b ∷ []) h = omega arith
encode-pos (a ∷ b ∷ c ∷ []) h = omega arith
encode-pos (a ∷ b ∷ c ∷ d ∷ []) h = omega arith
encode-pos (a ∷ b ∷ c ∷ d ∷ e ∷ r) h = omega arith

-- A letter or a digit.
abbrev pub IsAlphanumeric : ℕ → Type 0
IsAlphanumeric c = ((48 ≤ c) × (c < 58)) ⊎ ((65 ≤ c) × (c < 91))

letter-IsAlphanumeric : (v : ℕ) → v < 32 → IsAlphanumeric (letter v)
unfolding letter
letter-IsAlphanumeric v h = ground arith
