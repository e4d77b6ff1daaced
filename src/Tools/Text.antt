-- ===== src/Tools/Text.antt =====
-- Texts of the tools as lists of bytes: package strings, encoding/hex, and the decimal and hexadecimal
-- printing of numbers.
use Prim.Native.Char.{code}
use Prim.Native.String
use darkstop.Base.{
  ℕ, zero, suc, ◌+◌, ◌-◌, ◌*◌, ◌/◌, ◌%◌, ◌<◌, ◌≡◌, refl, Bool, true, false, ◌&&◌, ◌||◌, Option,
  none, some, List, [], ◌∷◌, ltb, leb, ◌==◌, if◌then◌else◌, All, arith,
}
use darkstop.Policy.{String}

-- The bytes of an ASCII literal.
unfoldable pub text : String.String → String
text String.[] = []
text (String.◌∷◌ c s) = code c ∷ text s

-- strings.HasPrefix
unfoldable pub has_prefix : String → String → Bool
has_prefix s [] = true
has_prefix [] (p ∷ ps) = false
has_prefix (c ∷ cs) (p ∷ ps) = c == p && has_prefix cs ps

-- strings.Contains
unfoldable pub contains_text : String → String → Bool
contains_text [] p = has_prefix [] p
contains_text (c ∷ cs) p = has_prefix (c ∷ cs) p || contains_text cs p

-- The text after 0x, if it starts so: strings.TrimPrefix(s, "0x").
unfoldable pub trim_0x : String → String
trim_0x (a ∷ b ∷ cs) = if a == 48 && b == 120 then cs else a ∷ b ∷ cs
trim_0x (a ∷ []) = a ∷ []
trim_0x [] = []

-- The digit of a number below 16.
unfoldable pub hex_digit : ℕ → ℕ
hex_digit d = if ltb d 10 then 48 + d else 87 + d

unfoldable pub hex_value : ℕ → Option ℕ
hex_value c =
    if leb 48 c && leb c 57
    then some (c - 48)
    else if leb 97 c && leb c 102
    then some (c - 87)
    else if leb 65 c && leb c 70
    then some (c - 55)
    else none

-- hex.EncodeToString
unfoldable pub encode_hex : List ℕ → String
encode_hex [] = []
encode_hex (b ∷ bs) = hex_digit (b / 16) ∷ hex_digit (b % 16) ∷ encode_hex bs

abbrev pub pair_value : Option ℕ → Option ℕ → Option (List ℕ) → Option (List ℕ)
pair_value (some h) (some l) (some bs) = some ((16 * h + l) ∷ bs)
pair_value (some h) (some l) none = none
pair_value (some h) none bs = none
pair_value none l bs = none

-- hex.DecodeString, where `none` is an error
unfoldable pub decode_hex : String → Option (List ℕ)
decode_hex [] = some []
decode_hex (a ∷ []) = none
decode_hex (a ∷ b ∷ cs) = pair_value (hex_value a) (hex_value b) (decode_hex cs)

-- The last n digits in base 16, as in the printing of an address or a hash.
unfoldable pub hex_digits : ℕ → ℕ → String → String
hex_digits zero x rest = rest
hex_digits (suc n) x rest = hex_digits n (x / 16) (hex_digit (x % 16) ∷ rest)

-- hash.Hex()
unfoldable pub hash_hex : ℕ → String
hash_hex x = 48 ∷ 120 ∷ hex_digits 64 x []

-- Bytes.
abbrev pub IsBytes : List ℕ → Type 0
IsBytes bs = All (λ b. b < 256) bs

hex_value-hex_digit : (d : ℕ) → d < 16 → hex_value (hex_digit d) ≡ some d
unfolding hex_value hex_digit
hex_value-hex_digit d h = ground arith

pub decode_hex-encode_hex : (bs : List ℕ) → IsBytes bs → decode_hex (encode_hex bs) ≡ some bs
unfolding decode_hex encode_hex
decode_hex-encode_hex [] h = refl
decode_hex-encode_hex (b ∷ bs) h = ground (
  arith,
  hex_value-hex_digit (b / 16),
  hex_value-hex_digit (b % 16),
  decode_hex-encode_hex bs h.1,
)

pub trim_0x_lem : (s : String) → trim_0x (48 ∷ 120 ∷ s) ≡ s
unfolding trim_0x
trim_0x_lem s = refl

hex_digit-ne_x : (d : ℕ) → d < 16 → (hex_digit d == 120) ≡ false
unfolding hex_digit
hex_digit-ne_x d h = ground arith

-- No text in hexadecimal starts with 0x, as x is no digit.
pub trim_0x-encode_hex : (bs : List ℕ) → IsBytes bs → trim_0x (encode_hex bs) ≡ encode_hex bs
unfolding trim_0x encode_hex
trim_0x-encode_hex [] h = refl
trim_0x-encode_hex (b ∷ bs) h = ground (arith, hex_digit-ne_x (b % 16))
