-- ===== src/Policy/Examples.antt =====
-- Texts for ParseOrderPlaintext of internal/extension/crypto.go, and its theorem on one of them.
use darkstop.Base.{arith, ℕ, ◌≡◌, refl, none, some, List, [], ◌∷◌}
use darkstop.Base.Big.{pos}
use darkstop.Policy.Json.{
  read_object, scan, step, reverse_onto, ended_string, begin_value, next_part, go_on,
}
use darkstop.Policy.{
  parse_order_plaintext, policy, refused, bad_plaintext, OrderPolicy, parse_members, parse_fields,
  are_keys_valid, is_allowed, eq_string, has_key, decode_fields, set_field, set_strategy,
  set_trigger_price, set_trail_bps, set_uint16, uint16_of, decimal, digits, positive_of, set_string,
  policy_of, effective_strategy, trailing_policy, fixed_policy, priced_policy,
}
use darkstop.Policy.Printing.{client_plaintext, parse_order_plaintext-client_plaintext}
use darkstop.Policy.Sound.{IsPolicy, parse_order_plaintext-IsPolicy}

-- {"triggerPrice": "20000"}
abbrev pub legacy : List ℕ
legacy =
    123 ∷ 34 ∷ 116 ∷ 114 ∷ 105 ∷ 103 ∷ 103 ∷ 101 ∷ 114 ∷ 80 ∷ 114 ∷ 105 ∷ 99 ∷ 101 ∷ 34 ∷ 58 ∷ 32
    ∷ 34 ∷ 50 ∷ 48 ∷ 48 ∷ 48 ∷ 48 ∷ 34 ∷ 125 ∷ []

abbrev pub fixed_at : OrderPolicy
fixed_at = record { trigger_price = some (pos 20_000); trail_bps = 0 }

pub legacy_run : parse_order_plaintext legacy ≡ policy fixed_at
unfolding parse_order_plaintext read_object scan step reverse_onto ended_string begin_value
    next_part go_on parse_members parse_fields are_keys_valid is_allowed eq_string has_key
    decode_fields set_field set_trigger_price decimal digits positive_of set_string policy_of
    effective_strategy fixed_policy priced_policy
legacy_run = refl

-- {"trailBps":25,"strategy":"trailing"}
abbrev pub trailing_text : List ℕ
trailing_text =
    123 ∷ 34 ∷ 116 ∷ 114 ∷ 97 ∷ 105 ∷ 108 ∷ 66 ∷ 112 ∷ 115 ∷ 34 ∷ 58 ∷ 50 ∷ 53 ∷ 44 ∷ 34 ∷ 115 ∷ 116
    ∷ 114 ∷ 97 ∷ 116 ∷ 101 ∷ 103 ∷ 121 ∷ 34 ∷ 58 ∷ 34 ∷ 116 ∷ 114 ∷ 97 ∷ 105 ∷ 108 ∷ 105 ∷ 110 ∷ 103
    ∷ 34 ∷ 125 ∷ []

pub trailing_run :
    parse_order_plaintext trailing_text ≡ policy (record { trigger_price = none; trail_bps = 25 })
unfolding parse_order_plaintext read_object scan step reverse_onto ended_string begin_value
    next_part go_on parse_members parse_fields are_keys_valid is_allowed eq_string has_key
    decode_fields set_field set_strategy set_trail_bps set_uint16 uint16_of decimal digits policy_of
    effective_strategy trailing_policy
trailing_run = refl

-- {"trailBps":25,"trailBps":25}
abbrev duplicate : List ℕ
duplicate =
    123 ∷ 34 ∷ 116 ∷ 114 ∷ 97 ∷ 105 ∷ 108 ∷ 66 ∷ 112 ∷ 115 ∷ 34 ∷ 58 ∷ 50 ∷ 53 ∷ 44 ∷ 34 ∷ 116 ∷ 114
    ∷ 97 ∷ 105 ∷ 108 ∷ 66 ∷ 112 ∷ 115 ∷ 34 ∷ 58 ∷ 50 ∷ 53 ∷ 125 ∷ []

duplicate_run : parse_order_plaintext duplicate ≡ refused bad_plaintext
unfolding parse_order_plaintext read_object scan step reverse_onto ended_string begin_value
    next_part go_on parse_members are_keys_valid is_allowed eq_string has_key
duplicate_run = refl

parse_order_plaintext-IsPolicy_example : IsPolicy fixed_at
parse_order_plaintext-IsPolicy_example = parse_order_plaintext-IsPolicy legacy fixed_at legacy_run

parse_order_plaintext-client_plaintext_example :
    parse_order_plaintext (client_plaintext 20_000) ≡ policy fixed_at
parse_order_plaintext-client_plaintext_example =
    parse_order_plaintext-client_plaintext 20_000 (omega arith) (omega arith)
