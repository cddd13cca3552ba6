-- ===== src/Admin/Base64.antt =====
-- URL-safe base64 without padding, as `urlsafe_b64encode(…).rstrip(b"=")` and
-- `b64decode(… + "=", altchars=b"-_", validate=True)` of application/admin/tokens.py use it, and
-- `bytes.hex`. A byte is a number below 256.
use mathlib.Core.Option
use mathlib.Core.Path.{ap₂}
use omf_retrieval.Prelude.{
  All, Bool, List, Option, [], all, ap, arith, if◌then◌else◌, is_some, leb, length, length-map, ltb,
  map, nat_beq, none, refl, some, true, ℕ, ◌%◌, ◌&&◌, ◌*◌, ◌+◌, ◌-◌, ◌/◌, ◌<◌, ◌∙◌, ◌∷◌, ◌≡◌,
}
use omf_retrieval.Prelude.Text.{Text, is_hex}

abbrev pub Bytes : Type 0
Bytes = List ℕ

abbrev pub AreBytes : Bytes → Type 0
AreBytes = All (λ b. b < 256)

-- the alphabet: A-Z a-z 0-9 - _
unfoldable pub encode_digit : ℕ → ℕ
encode_digit n =
    if ltb n 26
    then n + 65
    else if ltb n 52
    then n + 71
    else if ltb n 62
    then n - 4
    else if nat_beq n 62
    then 45
    else 95

unfoldable pub decode_digit : ℕ → Option ℕ
decode_digit c =
    if leb 65 c && leb c 90
    then some (c - 65)
    else if leb 97 c && leb c 122
    then some (c - 71)
    else if leb 48 c && leb c 57
    then some (c + 4)
    else if nat_beq c 45
    then some 62
    else if nat_beq c 95
    then some 63
    else none

-- `[A-Za-z0-9_-]`
unfoldable pub is_digit : ℕ → Bool
unfolding decode_digit
is_digit c = is_some (decode_digit c)

-- the 6-bit digits of the bytes, the last one filled up with zeros
unfoldable pub sextets : Bytes → List ℕ
sextets [] = []
sextets (a ∷ []) = a / 4 ∷ (a % 4 * 16) ∷ []
sextets (a ∷ b ∷ []) = a / 4 ∷ (a % 4 * 16 + b / 16) ∷ (b % 16 * 4) ∷ []
sextets (a ∷ b ∷ c ∷ rest) =
    a / 4 ∷ (a % 4 * 16 + b / 16) ∷ (b % 16 * 4 + c / 64) ∷ (c % 64) ∷ sextets rest

-- the bytes of the digits; bits that fill no byte are dropped, a single digit is an error
unfoldable pub octets : List ℕ → Option Bytes
octets [] = some []
octets (p ∷ []) = none
octets (p ∷ q ∷ []) = some ((p * 4 + q / 16) ∷ [])
octets (p ∷ q ∷ r ∷ []) = some ((p * 4 + q / 16) ∷ (q % 16 * 16 + r / 4) ∷ [])
octets (p ∷ q ∷ r ∷ s ∷ rest) =
    Option.map (λ bs. (p * 4 + q / 16) ∷ (q % 16 * 16 + r / 4) ∷ (r % 4 * 64 + s) ∷ bs)
      (octets rest)

unfoldable pub decode_digits : Text → Option (List ℕ)
unfolding decode_digit
decode_digits [] = some []
decode_digits (c ∷ s) = elim (decode_digit c) [
  | none ↦ none
  | some d ↦ Option.map (λ ds. d ∷ ds) (decode_digits s)
]

unfoldable pub b64_encode : Bytes → Text
unfolding encode_digit sextets
b64_encode bs = map encode_digit (sextets bs)

unfoldable pub b64_decode : Text → Option Bytes
unfolding decode_digits octets
b64_decode s = elim (decode_digits s) [ none ↦ none | some ds ↦ octets ds ]

octets-sextets : (bs : Bytes) → AreBytes bs → octets (sextets bs) ≡ some bs
unfolding octets sextets
octets-sextets [] h = refl
octets-sextets (a ∷ []) h = ap some (ap (λ x. x ∷ []) (omega arith))
octets-sextets (a ∷ b ∷ []) h = ap some (ap₂ (λ x y. x ∷ y ∷ []) (omega arith) (omega arith))
octets-sextets (a ∷ b ∷ c ∷ rest) h = ground (arith, octets-sextets rest h.1.1.1)

sextets_bound : (bs : Bytes) → AreBytes bs → All (λ d. d < 64) (sextets bs)
unfolding sextets
sextets_bound [] h = tt
sextets_bound (a ∷ []) h = omega arith
sextets_bound (a ∷ b ∷ []) h = omega arith
sextets_bound (a ∷ b ∷ c ∷ rest) h =
    (omega arith, (omega arith, (omega arith, (omega arith, sextets_bound rest h.1.1.1))))

decode-encode_digit : (d : ℕ) → d < 64 → decode_digit (encode_digit d) ≡ some d
unfolding decode_digit encode_digit
decode-encode_digit d h = ground arith

decode_digits-map :
    (ds : List ℕ) → All (λ d. d < 64) ds → decode_digits (map encode_digit ds) ≡ some ds
unfolding decode_digits
decode_digits-map [] h = refl
decode_digits-map (d ∷ ds) h = ground (arith, decode-encode_digit d, decode_digits-map ds h.1)

-- Decoding what was encoded gives the bytes back.
pub b64_decode-encode : (bs : Bytes) → AreBytes bs → b64_decode (b64_encode bs) ≡ some bs
unfolding b64_decode b64_encode
b64_decode-encode bs h =
    rw (decode_digits-map (sextets bs) (sextets_bound bs h), b64_decode) (octets-sextets bs h)

all_digits : (ds : List ℕ) → All (λ d. d < 64) ds → all is_digit (map encode_digit ds) ≡ true
unfolding all is_digit
all_digits [] h = refl
all_digits (d ∷ ds) h = ground (arith, decode-encode_digit d, all_digits ds h.1)

-- what is encoded is written in the alphabet
pub b64_encode-digits : (bs : Bytes) → AreBytes bs → all is_digit (b64_encode bs) ≡ true
unfolding b64_encode
b64_encode-digits bs h = all_digits (sextets bs) (sextets_bound bs h)

length-sextets : (bs : Bytes) → length (sextets bs) ≡ (length bs * 4 + 2) / 3
unfolding sextets
length-sextets [] = refl
length-sextets (a ∷ []) = refl
length-sextets (a ∷ b ∷ []) = refl
length-sextets (a ∷ b ∷ c ∷ rest) = omega (arith, length-sextets rest)

-- n bytes are ⌈4n/3⌉ characters
pub length-b64_encode : (bs : Bytes) → length (b64_encode bs) ≡ (length bs * 4 + 2) / 3
unfolding b64_encode
length-b64_encode bs = length-map encode_digit (sextets bs) ∙ length-sextets bs

unfoldable pub hex_digit : ℕ → ℕ
hex_digit n = if ltb n 10 then n + 48 else n + 87

-- `bs.hex()`
unfoldable pub to_hex : Bytes → Text
unfolding hex_digit
to_hex [] = []
to_hex (b ∷ bs) = hex_digit (b / 16) ∷ hex_digit (b % 16) ∷ to_hex bs

pub length-to_hex : (bs : Bytes) → length (to_hex bs) ≡ length bs * 2
unfolding to_hex
length-to_hex [] = refl
length-to_hex (b ∷ bs) = omega (arith, length-to_hex bs)

is_hex-digit : (n : ℕ) → n < 16 → is_hex (hex_digit n) ≡ true
unfolding is_hex hex_digit
is_hex-digit n h = ground arith

pub to_hex-is_hex : (bs : Bytes) → AreBytes bs → all is_hex (to_hex bs) ≡ true
unfolding to_hex all
to_hex-is_hex [] h = refl
to_hex-is_hex (b ∷ bs) h =
    ground (arith, is_hex-digit (b / 16), is_hex-digit (b % 16), to_hex-is_hex bs h.1)
