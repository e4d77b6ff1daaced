-- ===== src/Policy/Printing.antt =====
-- tools/cmd/run-test/main.go: the text of a fixed order that the client encrypts, and what the enclave's
-- ParseOrderPlaintext (internal/extension/crypto.go) reads of it.
use darkstop.Base.{
  ℕ, zero, suc, ◌+◌, ◌/◌, ◌%◌, ◌^◌, ◌≤◌, ◌<◌, ◌≡◌, refl, ap, ◌∙◌, inl, inr, true, false, some, [],
  ◌∷◌, ◌++◌, ltb, ◌==◌, ◌||◌, length, length-append, ltb→lt, Bool-cases, arith,
}
use mathlib.Core.List.{append-nil}
use darkstop.Base.Decimal.{
  decimal_onto, decimal_text, AreDigits, decimal_text-AreDigits, length-decimal_text,
  length-decimal_text_pos,
}
use darkstop.Base.Big.{pos}
use darkstop.Policy.{
  String, key_trigger_price, digits, decimal, positive_of, set_string, policy, eq_string,
  is_allowed, has_key, are_keys_valid, decode_fields, set_field, set_trigger_price,
  effective_strategy, policy_of, fixed_policy, priced_policy, parse_fields, parse_members,
  parse_order_plaintext,
}
use darkstop.Policy.Json.{
  Members, text, is_digit, reverse_onto, before, done, string, as_value, step, scan, ended_string,
  begin_value, read_object,
}

-- {"triggerPrice":" and "}
abbrev opening : String
opening =
    123 ∷ 34 ∷ 116 ∷ 114 ∷ 105 ∷ 103 ∷ 103 ∷ 101 ∷ 114 ∷ 80 ∷ 114 ∷ 105 ∷ 99 ∷ 101 ∷ 34 ∷ 58 ∷ 34
    ∷ []

abbrev closing : String
closing = 34 ∷ 125 ∷ []

-- json.Marshal(map[string]string{"triggerPrice": trigger.String()})
unfoldable pub client_plaintext : ℕ → String
client_plaintext trigger = opening ++ (decimal_text trigger ++ closing)

is_digit_lem : (d : ℕ) → d < 10 → is_digit (48 + d) ≡ true
is_digit_lem d h = ground arith

-- Reading what was written before a text goes on with the number.
digits-decimal_onto :
    (n x : ℕ) (rest : String) → x < n → digits 0 (decimal_onto n x rest) ≡ digits x rest
unfolding decimal_onto digits
digits-decimal_onto zero x rest h = absurd (omega arith)
digits-decimal_onto (suc n) x rest h = elim (Bool-cases (ltb x 10)) [
  | inl small ↦
      rw small (rw (is_digit_lem x (ltb→lt x 10 small)) (ap (λ m. digits m rest) (omega arith)))
  | inr large ↦ rw large (
      digits-decimal_onto n (x / 10) ((48 + x % 10) ∷ rest) (ground arith)
      ∙ rw (is_digit_lem (x % 10) (omega arith)) (ap (λ m. digits m rest) (omega arith)))
]

set_string_lem :
    (ds : String) → AreDigits ds → 0 < length ds → set_string ds ≡ positive_of (digits 0 ds)
unfolding set_string decimal
set_string_lem [] h l = absurd (omega arith)
set_string_lem (c ∷ cs) h l = ground arith

digits_nil : (x : ℕ) → digits x [] ≡ some x
unfolding digits
digits_nil x = refl

pub set_string-decimal_text : (x : ℕ) → set_string (decimal_text x) ≡ some (pos x)
unfolding decimal_text positive_of
set_string-decimal_text x =
    set_string_lem (decimal_text x) (decimal_text-AreDigits x) (length-decimal_text_pos x)
    ∙ ap positive_of (digits-decimal_onto (suc x) x [] (omega arith) ∙ digits_nil x)

reverse_onto_twice :
    (xs acc ys : String) → reverse_onto (reverse_onto xs acc) ys ≡ reverse_onto acc (xs ++ ys)
unfolding reverse_onto
reverse_onto_twice [] acc ys = refl
reverse_onto_twice (x ∷ xs) acc ys = reverse_onto_twice xs (x ∷ acc) ys

reverse_twice : (xs : String) → reverse_onto (reverse_onto xs []) [] ≡ xs
unfolding reverse_onto
reverse_twice xs = reverse_onto_twice xs [] [] ∙ append-nil xs

step_digit :
    (k acc : String) (d : ℕ) (m : Members)
    → 48 ≤ d
    → d ≤ 57
    → step (string (as_value k) acc) d m ≡ (string (as_value k) (d ∷ acc), m)
unfolding step
step_digit k acc d m h l = ground arith

-- The scanner takes digits into a string as they are.
scan_digits :
    (k : String) (ds acc rest : String) (m : Members)
    → AreDigits ds
    → scan (string (as_value k) acc) (ds ++ rest) m
      ≡ scan (string (as_value k) (reverse_onto ds acc)) rest m
unfolding scan reverse_onto
scan_digits k [] acc rest m h = refl
scan_digits k (d ∷ ds) acc rest m h =
    rw (step_digit k acc d m h.0.0 h.0.1, scan) (scan_digits k ds (d ∷ acc) rest m h.1)

scan_client :
    (ds : String)
    → AreDigits ds
    → scan before (opening ++ (ds ++ closing)) [] ≡ (done, (key_trigger_price, text ds) ∷ [])
unfolding scan step ended_string begin_value reverse_onto
scan_client ds h =
    scan_digits key_trigger_price ds [] closing [] h
    ∙ ap (λ (v : String). (done, (key_trigger_price, text v) ∷ [])) (reverse_twice ds)

read_client :
    (ds : String)
    → AreDigits ds
    → read_object (opening ++ (ds ++ closing)) ≡ some ((key_trigger_price, text ds) ∷ [])
unfolding read_object
read_client ds h = rw (scan_client ds h) refl

eq_nil : (ds : String) → 0 < length ds → eq_string ds [] ≡ false
unfolding eq_string
eq_nil [] h = absurd (omega arith)
eq_nil (d ∷ ds) h = refl

price_lem :
    (x : ℕ)
    → 0 < x
    → x < 2 ^ 256
    → priced_policy (some (pos x)) ≡ policy (record { trigger_price = some (pos x); trail_bps = 0 })
unfolding priced_policy
price_lem x h l = ground arith

parse_client :
    (x : ℕ)
    → 0 < x
    → x < 2 ^ 256
    → parse_members (some ((key_trigger_price, text (decimal_text x)) ∷ []))
      ≡ policy (record { trigger_price = some (pos x); trail_bps = 0 })
unfolding parse_members are_keys_valid is_allowed has_key eq_string decode_fields set_field
    set_trigger_price parse_fields policy_of effective_strategy fixed_policy
parse_client x h l =
    rw (eq_nil (decimal_text x) (length-decimal_text_pos x))
      (rw (set_string-decimal_text x) (price_lem x h l))

client_length :
    (x : ℕ)
    → x < 2 ^ 256
    → (length (client_plaintext x) == 0 || ltb 1024 (length (client_plaintext x))) ≡ false
unfolding client_plaintext
client_length x l = ground (arith, length-append (decimal_text x) closing, length-decimal_text x l)

-- What the client of run-test encrypts for a positive trigger below 2 ^ 256 is read by the enclave
-- as the fixed policy with that trigger.
pub parse_order_plaintext-client_plaintext :
    (x : ℕ)
    → 0 < x
    → x < 2 ^ 256
    → parse_order_plaintext (client_plaintext x)
      ≡ policy (record { trigger_price = some (pos x); trail_bps = 0 })
unfolding parse_order_plaintext client_plaintext
parse_order_plaintext-client_plaintext x h l =
    rw (client_length x l)
      (rw (read_client (decimal_text x) (decimal_text-AreDigits x)) (parse_client x h l))
