-- ===== src/Policy/Sound.antt =====
-- internal/extension/crypto.go: which policies ParseOrderPlaintext returns.
use darkstop.Base.{
  subst, ℕ, ◌^◌, ◌≤◌, ◌<◌, ◌≡◌, ◌⊎◌, inl, inr, refl, Option, none, some, List, [], arith, ltb, ◌==◌,
  ◌||◌, not, length, Bool-cases,
}
use darkstop.Base.Big.{ℤ, pos, negsuc, is_positive, bit_len_le}
use darkstop.Policy.Json.{Members, read_object}
use darkstop.Policy.{
  OrderPolicy, Parsed, policy, refused, Plaintext, policy_of, trailing_policy, fixed_policy,
  priced_policy, parse_fields, parse_members, parse_order_plaintext, decode_fields, are_keys_valid,
  set_string, effective_strategy, eq_string, strategy_trailing, strategy_fixed, String,
}

-- A trailing policy of 25 to 5000 basis points, or a fixed one at a positive uint256.
abbrev pub IsPolicy : OrderPolicy → Type 0
IsPolicy p =
    ((p.trigger_price ≡ none) × (25 ≤ p.trail_bps) × (p.trail_bps ≤ 5000))
    ⊎ ((t : ℕ) × (p.trigger_price ≡ some (pos t)) × (0 < t) × (t < 2 ^ 256) × (p.trail_bps ≡ 0))

abbrev pub Returns : (OrderPolicy → Type 0) → Parsed → Type 0
Returns P (policy p) = P p
Returns P (refused e) = Unit

trailing_policy-IsPolicy :
    (t : Option String) (b : Option ℕ) → Returns IsPolicy (trailing_policy t b)
unfolding trailing_policy
trailing_policy-IsPolicy (some s) b = tt
trailing_policy-IsPolicy none none = tt
trailing_policy-IsPolicy none (some b) = ground arith

priced_policy-IsPolicy : (t : Option ℤ) → Returns IsPolicy (priced_policy t)
unfolding priced_policy
priced_policy-IsPolicy none = tt
priced_policy-IsPolicy (some (negsuc n)) = tt
priced_policy-IsPolicy (some (pos n)) =
    elim (Bool-cases (not (is_positive (pos n)) || not (bit_len_le (pos n) 256))) [
      | inl h ↦ rw h tt
      | inr h ↦ rw h (inr (n, refl, ground arith, ground arith, refl))
    ]

fixed_policy-IsPolicy : (t : Option String) (b : Option ℕ) → Returns IsPolicy (fixed_policy t b)
unfolding fixed_policy
fixed_policy-IsPolicy none b = tt
fixed_policy-IsPolicy (some s) (some b) = tt
fixed_policy-IsPolicy (some s) none = elim (Bool-cases (eq_string s [])) [
  | inl h ↦ rw h tt
  | inr h ↦ rw h (priced_policy-IsPolicy (set_string s))
]

policy_of-IsPolicy : (p : Plaintext) → Returns IsPolicy (policy_of p)
unfolding policy_of
policy_of-IsPolicy p = elim (Bool-cases (eq_string (effective_strategy p) strategy_trailing)) [
  | inl h ↦ rw h (trailing_policy-IsPolicy p.trigger_price p.trail_bps)
  | inr h ↦ elim (Bool-cases (eq_string (effective_strategy p) strategy_fixed)) [
    | inl q ↦ rw (h, q) (fixed_policy-IsPolicy p.trigger_price p.trail_bps)
    | inr q ↦ rw (h, q) tt
  ]
]

parse_fields-IsPolicy : (p : Option Plaintext) → Returns IsPolicy (parse_fields p)
unfolding parse_fields
parse_fields-IsPolicy none = tt
parse_fields-IsPolicy (some p) = policy_of-IsPolicy p

parse_members-IsPolicy : (m : Option Members) → Returns IsPolicy (parse_members m)
unfolding parse_members
parse_members-IsPolicy none = tt
parse_members-IsPolicy (some m) = elim (Bool-cases (are_keys_valid m)) [
  | inl h ↦ rw h (parse_fields-IsPolicy (decode_fields m))
  | inr h ↦ rw h tt
]

parse_order_plaintext-Returns : (bytes : List ℕ) → Returns IsPolicy (parse_order_plaintext bytes)
unfolding parse_order_plaintext
parse_order_plaintext-Returns bytes =
    elim (Bool-cases (length bytes == 0 || ltb 1024 (length bytes))) [
      | inl h ↦ rw h tt
      | inr h ↦ rw h (parse_members-IsPolicy (read_object bytes))
    ]

-- Every text that ParseOrderPlaintext accepts gives a trailing policy of 25 to 5000 basis points
-- without a price, or a fixed one at a positive uint256 without a trail.
pub parse_order_plaintext-IsPolicy :
    (bytes : List ℕ) (p : OrderPolicy) → parse_order_plaintext bytes ≡ policy p → IsPolicy p
parse_order_plaintext-IsPolicy bytes p e =
    subst (Returns IsPolicy) e (parse_order_plaintext-Returns bytes)
