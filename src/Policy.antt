-- ===== src/Policy.antt =====
-- internal/extension/crypto.go: ParseOrderPlaintext, which reads the policy of an order from the
-- decrypted text, with validateOrderJSONKeys and ensureJSONEOF. A string is the list of its characters.
pub mod Examples
pub mod Json
pub mod Sound
pub mod Printing
pub mod Equality
use darkstop.Base.{
  ℕ, zero, suc, ◌+◌, ◌-◌, ◌*◌, ◌^◌, Bool, true, false, not, ◌&&◌, ◌||◌, Option, none, some, List,
  [], ◌∷◌, ltb, leb, ◌==◌, if◌then◌else◌, is_some, length,
}
use darkstop.Base.Big.{ℤ, pos, negsuc, is_positive, bit_len_le}
use darkstop.Policy.Json.{Members, Scalar, text, number, boolean, null, is_digit, read_object}

abbrev pub String : Type 0
String = List ℕ

unfoldable pub eq_string : String → String → Bool
eq_string [] [] = true
eq_string [] (y ∷ ys) = false
eq_string (x ∷ xs) [] = false
eq_string (x ∷ xs) (y ∷ ys) = x == y && eq_string xs ys

abbrev pub key_strategy : String
key_strategy = 115 ∷ 116 ∷ 114 ∷ 97 ∷ 116 ∷ 101 ∷ 103 ∷ 121 ∷ []

-- triggerPrice
abbrev pub key_trigger_price : String
key_trigger_price = 116 ∷ 114 ∷ 105 ∷ 103 ∷ 103 ∷ 101 ∷ 114 ∷ 80 ∷ 114 ∷ 105 ∷ 99 ∷ 101 ∷ []

-- trailBps
abbrev pub key_trail_bps : String
key_trail_bps = 116 ∷ 114 ∷ 97 ∷ 105 ∷ 108 ∷ 66 ∷ 112 ∷ 115 ∷ []

abbrev pub strategy_fixed : String
strategy_fixed = 102 ∷ 105 ∷ 120 ∷ 101 ∷ 100 ∷ []

abbrev pub strategy_trailing : String
strategy_trailing = 116 ∷ 114 ∷ 97 ∷ 105 ∷ 108 ∷ 105 ∷ 110 ∷ 103 ∷ []

-- The digits as a number in base 10.
unfoldable pub digits : ℕ → String → Option ℕ
digits n [] = some n
digits n (c ∷ cs) = let rest = digits (10 * n + (c - 48)) cs in if is_digit c then rest else none

unfoldable pub decimal : String → Option ℕ
decimal [] = none
decimal (c ∷ cs) = digits 0 (c ∷ cs)

unfoldable pub positive_of : Option ℕ → Option ℤ
positive_of none = none
positive_of (some n) = some (pos n)

unfoldable pub negative_of : Option ℕ → Option ℤ
negative_of none = none
negative_of (some zero) = some (pos 0)
negative_of (some (suc n)) = some (negsuc n)

-- new(big.Int).SetString(s, 10)
unfoldable pub set_string : String → Option ℤ
set_string [] = none
set_string (c ∷ cs) =
    if c == 43
    then positive_of (decimal cs)
    else if c == 45
    then negative_of (decimal cs)
    else positive_of (decimal (c ∷ cs))

-- triggerPlaintext
pub record Plaintext : Type 0 where
  pub strategy : String
  pub trigger_price : Option String
  pub trail_bps : Option ℕ

pub record OrderPolicy : Type 0 where
  pub trigger_price : Option ℤ
  pub trail_bps : ℕ

pub data PolicyError : Type 0 where
  bad_length bad_plaintext bad_trailing bad_trail_bps bad_fixed bad_trigger_price bad_strategy :
      PolicyError

pub data Parsed : Type 0 where
  policy : OrderPolicy → Parsed
  refused : PolicyError → Parsed

unfoldable pub is_allowed : String → Bool
is_allowed k =
    eq_string k key_strategy || eq_string k key_trigger_price || eq_string k key_trail_bps

unfoldable pub has_key : String → Members → Bool
has_key k [] = false
has_key k ((j, v) ∷ m) = eq_string j k || has_key k m

-- The loop of validateOrderJSONKeys, from its end: each key is allowed, and none comes again.
unfoldable pub are_keys_valid : Members → Bool
are_keys_valid [] = true
are_keys_valid ((k, v) ∷ m) = is_allowed k && not (has_key k m) && are_keys_valid m

-- A value for a string, for a pointer to a string, and for a pointer to a uint16.
unfoldable pub set_strategy : Scalar → Plaintext → Option Plaintext
set_strategy (text s) p = some (record p { strategy = s })
set_strategy null p = some p
set_strategy (number n) p = none
set_strategy (boolean b) p = none

unfoldable pub set_trigger_price : Scalar → Plaintext → Option Plaintext
set_trigger_price (text s) p = some (record p { trigger_price = some s })
set_trigger_price null p = some (record p { trigger_price = none })
set_trigger_price (number n) p = none
set_trigger_price (boolean b) p = none

unfoldable pub uint16_of : Option ℕ → Option ℕ
uint16_of none = none
uint16_of (some n) = if ltb n (2 ^ 16) then some n else none

unfoldable pub set_uint16 : Option ℕ → Plaintext → Option Plaintext
set_uint16 none p = none
set_uint16 (some n) p = some (record p { trail_bps = some n })

unfoldable pub set_trail_bps : Scalar → Plaintext → Option Plaintext
set_trail_bps (number n) p = set_uint16 (uint16_of (decimal n)) p
set_trail_bps null p = some (record p { trail_bps = none })
set_trail_bps (text s) p = none
set_trail_bps (boolean b) p = none

unfoldable pub set_field : String → Scalar → Option Plaintext → Option Plaintext
set_field k v none = none
set_field k v (some p) =
    if eq_string k key_strategy
    then set_strategy v p
    else if eq_string k key_trigger_price
    then set_trigger_price v p
    else if eq_string k key_trail_bps
    then set_trail_bps v p
    else none

-- dec.Decode(&p), with DisallowUnknownFields; the last member stands first.
unfoldable pub decode_fields : Members → Option Plaintext
decode_fields [] = some (record { strategy = []; trigger_price = none; trail_bps = none })
decode_fields ((k, v) ∷ m) = set_field k v (decode_fields m)

-- Legacy payloads omit the strategy.
unfoldable pub effective_strategy : Plaintext → String
effective_strategy p =
    if eq_string p.strategy [] && is_some p.trigger_price && not (is_some p.trail_bps)
    then strategy_fixed
    else p.strategy

unfoldable pub trailing_policy : Option String → Option ℕ → Parsed
trailing_policy (some s) bps = refused bad_trailing
trailing_policy none none = refused bad_trailing
trailing_policy none (some bps) =
    if ltb bps 25 || ltb 5000 bps
    then refused bad_trail_bps
    else policy (record { trigger_price = none; trail_bps = bps })

unfoldable pub priced_policy : Option ℤ → Parsed
priced_policy none = refused bad_trigger_price
priced_policy (some t) =
    if not (is_positive t) || not (bit_len_le t 256)
    then refused bad_trigger_price
    else policy (record { trigger_price = some t; trail_bps = 0 })

unfoldable pub fixed_policy : Option String → Option ℕ → Parsed
fixed_policy none bps = refused bad_fixed
fixed_policy (some s) (some bps) = refused bad_fixed
fixed_policy (some s) none =
    if eq_string s [] then refused bad_fixed else priced_policy (set_string s)

-- The switch of ParseOrderPlaintext.
unfoldable pub policy_of : Plaintext → Parsed
policy_of p =
    if eq_string (effective_strategy p) strategy_trailing
    then trailing_policy p.trigger_price p.trail_bps
    else if eq_string (effective_strategy p) strategy_fixed
    then fixed_policy p.trigger_price p.trail_bps
    else refused bad_strategy

unfoldable pub parse_fields : Option Plaintext → Parsed
parse_fields none = refused bad_plaintext
parse_fields (some p) = policy_of p

unfoldable pub parse_members : Option Members → Parsed
parse_members none = refused bad_plaintext
parse_members (some m) =
    if are_keys_valid m then parse_fields (decode_fields m) else refused bad_plaintext

unfoldable pub parse_order_plaintext : List ℕ → Parsed
parse_order_plaintext bytes =
    if length bytes == 0 || ltb 1024 (length bytes)
    then refused bad_length
    else parse_members (read_object bytes)

-- ParseTriggerPlaintext: the price of a fixed order.
unfoldable pub trigger_of : Parsed → Option ℤ
trigger_of (refused e) = none
trigger_of (policy p) = p.trigger_price

unfoldable pub parse_trigger_plaintext : List ℕ → Option ℤ
parse_trigger_plaintext bytes = trigger_of (parse_order_plaintext bytes)
