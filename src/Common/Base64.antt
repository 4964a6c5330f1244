-- ===== src/Common/Base64.antt =====
-- `base64.URLEncoding`: three bytes are four characters, and what is left over at the end is filled
-- up with `=`.
use Prim.Native.Nat.{ℕ, ◌+◌, ◌-◌, ◌*◌, ◌/◌, ◌%◌, ◌<◌}
use mathlib.Core.Path.{◌≡◌, refl, sym, ap, ◌∙◌}
use mathlib.Core.Bool.{false}
use mathlib.Core.List.{[], ◌∷◌}
use native.Mathlib.Omega.{arith}
use abschlussarbeit.Common.Tests.{ltb, eqb, if◌then◌else◌}
use abschlussarbeit.Common.Lists.{All}
use abschlussarbeit.Common.Bytes.{Bytes}

-- The alphabet: A to Z, a to z, 0 to 9, then - and _.
unfoldable pub letter : ℕ → ℕ
letter v =
    if ltb v 26
    then 65 + v
    else if ltb v 52
    then 71 + v
    else if ltb v 62
    then v - 4
    else if eqb v 62
    then 45
    else 95

abbrev pad : ℕ
pad = 61

unfoldable pub encode : Bytes → Bytes
unfolding letter
encode [] = []
encode (a ∷ []) = letter (a / 4) ∷ letter (a % 4 * 16) ∷ pad ∷ pad ∷ []
encode (a ∷ b ∷ []) = letter (a / 4) ∷ letter (a % 4 * 16 + b / 16) ∷ letter (b % 16 * 4) ∷ pad ∷ []
encode (a ∷ b ∷ c ∷ r) =
    letter (a / 4)
    ∷ letter (a % 4 * 16 + b / 16)
    ∷ letter (b % 16 * 4 + c / 64)
    ∷ letter (c % 64)
    ∷ encode r

digit : ℕ → ℕ
digit c =
    if eqb c 45
    then 62
    else if eqb c 95
    then 63
    else if ltb c 58
    then c + 4
    else if ltb c 91
    then c - 65
    else c - 71

digit-letter : (v : ℕ) → v < 64 → digit (letter v) ≡ v
unfolding digit letter
digit-letter v h = ground arith

letter-ne-pad : (v : ℕ) → v < 64 → eqb (letter v) pad ≡ false
unfolding letter
letter-ne-pad v h = ground arith

first : ℕ → ℕ → ℕ
first p q = digit p * 4 + digit q / 16

second : ℕ → ℕ → ℕ
second q r = digit q % 16 * 16 + digit r / 4

third : ℕ → ℕ → ℕ
third r s = digit r % 4 * 64 + digit s

-- Reads a text of the alphabet back.
decode : Bytes → Bytes
decode (p ∷ q ∷ r ∷ s ∷ x) =
    let rest = decode x in
    if eqb r pad
    then first p q ∷ []
    else if eqb s pad
    then first p q ∷ second q r ∷ []
    else first p q ∷ second q r ∷ third r s ∷ rest
decode _ = []

first_byte : (a q : ℕ) → a < 256 → q < 64 → q / 16 ≡ a % 4 → first (letter (a / 4)) (letter q) ≡ a
unfolding first
first_byte a q h k e = rw (digit-letter (a / 4) (omega arith), digit-letter q k) (omega arith)

second_byte :
    (b q r : ℕ)
    → q < 64
    → r < 64
    → q % 16 ≡ b / 16
    → r / 4 ≡ b % 16
    → second (letter q) (letter r) ≡ b
unfolding second
second_byte b q r h k e f = rw (digit-letter q h, digit-letter r k) (omega arith)

third_byte :
    (c r s : ℕ) → r < 64 → s < 64 → r % 4 ≡ c / 64 → s ≡ c % 64 → third (letter r) (letter s) ≡ c
unfolding third
third_byte c r s h k e f = rw (digit-letter r h, digit-letter s k) (omega arith)

-- Encoding loses nothing.
decode-encode : (bs : Bytes) → All (λ b. b < 256) bs → decode (encode bs) ≡ bs
unfolding decode encode
decode-encode [] h = refl
decode-encode (a ∷ []) h =
    ap (λ x. x ∷ []) (first_byte a (a % 4 * 16) h.0 (omega arith) (omega arith))
decode-encode (a ∷ b ∷ []) h = rw (
  letter-ne-pad (b % 16 * 4) (omega arith),
  first_byte a (a % 4 * 16 + b / 16) h.0 (omega arith) (omega arith),
  second_byte b (a % 4 * 16 + b / 16) (b % 16 * 4) (omega arith) (omega arith) (omega arith)
      (omega arith),
)
decode-encode (a ∷ b ∷ c ∷ r) h = rw (
  letter-ne-pad (b % 16 * 4 + c / 64) (omega arith),
  letter-ne-pad (c % 64) (omega arith),
  first_byte a (a % 4 * 16 + b / 16) h.0 (omega arith) (omega arith),
  second_byte b (a % 4 * 16 + b / 16) (b % 16 * 4 + c / 64) (omega arith) (omega arith)
      (omega arith) (omega arith),
  third_byte c (b % 16 * 4 + c / 64) (c % 64) (omega arith) (omega arith) (omega arith)
      (omega arith),
  decode-encode r h.1.1.1,
)

-- No two byte texts are encoded alike.
pub encode-injective :
    (xs ys : Bytes)
    → All (λ b. b < 256) xs
    → All (λ b. b < 256) ys
    → encode xs ≡ encode ys
    → xs ≡ ys
encode-injective xs ys hx hy e = sym (decode-encode xs hx) ∙ ap decode e ∙ decode-encode ys hy
