-- ===== src/Tools/Orders/Logs.antt =====
-- tools/pkg/utils/instructions.go: the ids that SendPlaceOrder finds in the logs of a receipt.
use darkstop.Base.{ℕ, ◌≡◌, ◌≢◌, ◌↔◌, refl, Option, none, some, List, [], ◌∷◌, arith}
use darkstop.Tools.{Result, ok, err, Net}
use darkstop.Tools.Orders.{scan, found_order, both_found, ids_of}
use darkstop.Base.Last.{or_found, IsLast, last_value, last_value_iff}

abbrev to_option : Result ℕ → Option ℕ
to_option (ok v) = some v
to_option (err e) = none

abbrev or_zero : Option ℕ → ℕ
or_zero none = 0
or_zero (some v) = v

module _ {W L : Type 0} (net : Net W L) where
  -- The order's id in a log, and the instruction's in a log that has no order's.
  abbrev pub order_in : L → Option ℕ
  order_in l = to_option (net.parse_order_placed l)

  abbrev unless_order : Result ℕ → Result ℕ → Option ℕ
  unless_order (ok id) sent = none
  unless_order (err e) sent = to_option sent

  abbrev pub instruction_in : L → Option ℕ
  instruction_in l = unless_order (net.parse_order_placed l) (net.parse_instructions_sent l)

  found_lem :
      (a b : Result ℕ) (o i : Option ℕ)
      → found_order net a b (record { order_id = o; instruction_id = or_zero i }) ≡ record {
        order_id = or_found (to_option a) o;
        instruction_id = or_zero (or_found (unless_order a b) i);
      }
  found_lem (ok v) b o i = refl
  found_lem (err e) (ok v) o i = refl
  found_lem (err e) (err d) o i = refl

  both_iff :
      (o i : Option ℕ) (instruction order : ℕ)
      → (both_found net o (or_zero i) ≡ ok (instruction, order))
        ↔ ((o ≡ some order) × (i ≡ some instruction) × (instruction ≢ 0))
  both_iff none i instruction order = ground arith
  both_iff (some a) none instruction order = ground arith
  both_iff (some a) (some b) instruction order = ground arith

  scan_lem :
      (o i : Option ℕ) (ls : List L)
      → scan net (record { order_id = o; instruction_id = or_zero i }) ls ≡ record {
        order_id = last_value order_in o ls;
        instruction_id = or_zero (last_value instruction_in i ls);
      }
  unfolding scan last_value
  scan_lem o i [] = refl
  scan_lem o i (l ∷ ls) =
      rw (found_lem (net.parse_order_placed l) (net.parse_instructions_sent l) o i)
        (scan_lem (or_found (order_in l) o) (or_found (instruction_in l) i) ls)

  -- SendPlaceOrder finds the ids in the logs of a receipt exactly if there is an order's id, the last one,
  -- and a last instruction's id in the logs without an order's, which is not zero.
  pub ids_of_iff :
      (logs : List L) (instruction order : ℕ)
      → (ids_of net logs ≡ ok (instruction, order))
        ↔ (IsLast order_in logs order × IsLast instruction_in logs instruction × (instruction ≢ 0))
  unfolding ids_of
  ids_of_iff logs instruction order =
      let scanned = scan_lem none none logs in
      let orders = last_value_iff order_in logs order in
      let instructions = last_value_iff instruction_in logs instruction in
      let both =
        both_iff (last_value order_in none logs) (last_value instruction_in none logs) instruction
          order in
      rw scanned (
        (λ h. let found = both.0 h in (orders.0 found.0, instructions.0 found.1, found.2)),
        (λ h. both.1 (orders.1 h.0, instructions.1 h.1, h.2)),
      )
