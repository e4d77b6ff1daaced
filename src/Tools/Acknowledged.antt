-- ===== src/Tools/Acknowledged.antt =====
-- tools/cmd/run-test/main.go: verifyPlaceOrderResult, with the enclave's processPlaceOrder
-- (internal/extension/extension.go) as what the proxy answers for. encoding/json is a parameter.
use darkstop.Base.{
  ℕ, ◌<◌, ◌≡◌, ◌≢◌, ◌↔◌, refl, sym, ap, subst, ◌∙◌, inl, inr, false, not, Option, none, some, [],
  ◌∷◌, ◌++◌, ◌==◌, if◌then◌else◌, length, arith,
}
use darkstop.Base.Big.{pos}
use darkstop.Base.Decimal.{decimal_text}
use darkstop.Policy.{String, eq_string, set_string}
use darkstop.Policy.Equality.{eq_string_refl, eq_string_sound}
use darkstop.Policy.Printing.{set_string-decimal_text}
use darkstop.Store.{Store, Status, status_open, status_executed, status_cancelled}
use darkstop.Enclave.{Host, Action, DataFixed, Log, OrderResponse, process_place_order, success}
use darkstop.Enclave.Types.{decode_place_order}
use darkstop.Enclave.Confidential.{requested}
use darkstop.Enclave.Placing.{Placed, Places, process_place_order-Places}
use darkstop.Tools.{Result, ok, err, then_result}
use darkstop.Tools.Text.{text}
use darkstop.Tools.Polling.{Response, ActionResult, action_result, IsWaiting, action_result_first}

-- types.OrderResponse: the order's id and its status, as texts.
pub record Answered : Type 0 where
  pub order_id : String
  pub status : String

-- %q, of a text that needs no escape
abbrev pub quoted : String → String
quoted s = 34 ∷ (s ++ 34 ∷ [])

unfoldable pub verify_answer : Result Answered → ℕ → Result (Unit {0})
verify_answer (err e) order = err (text "failed to unmarshal response: " ++ e)
verify_answer (ok r) order =
    if not (eq_string r.order_id (decimal_text order))
    then err (
        text "expected orderId "
        ++ quoted (decimal_text order)
        ++ text ", got "
        ++ quoted r.order_id)
    else if not (eq_string r.status (text "open"))
    then err (text "expected status \"open\", got " ++ quoted r.status)
    else ok tt

module _ (read : String → Result Answered) where
  -- What verifyPlaceOrderResult makes of a result; `read` is json.Unmarshal.
  unfoldable pub verify_result : ℕ → ActionResult → Result (Unit {0})
  verify_result order r =
      if r.status == 0
      then err (text "instruction processing failed: " ++ r.log)
      else if r.status == 2
      then err (text "instruction still pending after polling, expected completed")
      else if length r.content == 0
      then err (text "expected response data but got none")
      else verify_answer (read r.content) order

  -- verifyPlaceOrderResult; `decode` reads the body of the proxy's answer
  unfoldable pub verify_place_order_result :
      (String → Result ActionResult) → (ℕ → Result Response) → ℕ → Result (Unit {0})
  verify_place_order_result decode answers order =
      then_result (action_result decode answers).0 (verify_result order)

-- The JSON form of a Status.
unfoldable pub status_text : Status → String
status_text status_open = text "open"
status_text status_executed = text "executed"
status_text status_cancelled = text "cancelled"

-- What the handlers marshal: FormatUint of the id, and the status.
abbrev pub answered_of : OrderResponse → Answered
answered_of r = record { order_id = decimal_text r.order_id; status = status_text r.status }

abbrev content_of : (Answered → String) → Option OrderResponse → String
content_of write none = []
content_of write (some r) = write (answered_of r)

-- The enclave's result as the client has it; `write` is json.Marshal, and `print` the text of the log.
unfoldable pub sent_back :
    (Answered → String) → (Log → String) → darkstop.Enclave.ActionResult → ActionResult
sent_back write print r = record {
  status = r.status;
  log = print r.log;
  content = content_of write r.answer;
}

-- encoding/json on an OrderResponse: what Marshal writes is not empty, and Unmarshal reads it again.
pub record IsJson (write : Answered → String) (read : String → Result Answered) : Type 0 where
  pub reads : (r : Answered) → read (write r) ≡ ok r
  pub writes : (r : Answered) → (length (write r) == 0) ≡ false

some_inj : {A : Type 0} → (a b : A) → some a ≡ some b → a ≡ b
some_inj a b h = cc

pos_inj : (x y : ℕ) → pos x ≡ pos y → x ≡ y
pos_inj x y h = cc

-- Different numbers have different texts.
decimal_text_inj : (x y : ℕ) → decimal_text x ≡ decimal_text y → x ≡ y
decimal_text_inj x y h = pos_inj x y (
    some_inj (pos x) (pos y)
      (sym (set_string-decimal_text x) ∙ ap set_string h ∙ set_string-decimal_text y))

module _ (write : Answered → String) (read : String → Result Answered) (j : IsJson write read)
    (print : Log → String) (host : Host) (a : Action) (df : DataFixed) where
  -- The client accepts the acknowledgement of an order for its id only.
  accepts :
      (id order : ℕ)
      → (verify_result read order (sent_back write print (success host a df id status_open))
          ≡ ok tt)
        ↔ (id ≡ order)
  unfolding verify_result sent_back success verify_answer status_text
  accepts id order = rw (j.writes (record { order_id = decimal_text id; status = text "open" })) (
      rw (j.reads (record { order_id = decimal_text id; status = text "open" })) (
        rw (eq_string_refl (text "open")) (
          (λ h.
              decimal_text_inj id order
                (eq_string_sound (decimal_text id) (decimal_text order) (ground (arith, h)))),
          (λ h. rw h (rw (eq_string_refl (decimal_text order)) refl)),
        )))

  fails :
      (order : ℕ) (r : darkstop.Enclave.ActionResult)
      → r.status ≡ 0
      → verify_result read order (sent_back write print r) ≢ ok tt
  unfolding verify_result sent_back
  fails order r z h = cc (rw z at h)

  by_cases :
      (asked : Option ℕ) (s : Store) (r : darkstop.Enclave.ActionResult × Store) (order : ℕ)
      → Places host a df asked s r
      → (verify_result read order (sent_back write print r.0) ≡ ok tt)
        ↔ ((asked ≡ some order) × (r.0.status ≡ 1) × Placed host a df order s r.1)
  by_cases asked s r order (inl (z, same)) =
      ((λ h. absurd (fails order r.0 z h)), (λ h. absurd (omega (arith, z, h.1))))
  by_cases asked s r order (inr (one, (id, named, acknowledged, placed))) = (
    (λ h.
        let same : id ≡ order = (accepts id order).0 (
          subst (λ q. verify_result read order (sent_back write print q) ≡ ok tt) acknowledged h) in
        (named ∙ ap some same, one, subst (λ k. Placed host a df k s r.1) same placed)),
    (λ h.
        subst (λ q. verify_result read order (sent_back write print q) ≡ ok tt) (sym acknowledged)
          ((accepts id order).1 (some_inj id order (sym named ∙ h.0)))),
  )

  -- If the proxy's first answer with status 200 within 15 requests decodes to the enclave's result
  -- of a PLACE_ORDER, the client accepts it for an order's id exactly if the message names that id
  -- and the enclave has placed the order: its result has status 1, the id was new, and the order is
  -- held open under it with a valid policy.
  pub verify_place_order_result_iff :
      (decode : String → Result ActionResult) (answers : ℕ → Result Response) (n : ℕ) (r : Response)
      (now : ℕ) (s : Store) (order : ℕ)
      → n < 15
      → ((k : ℕ) → k < n → IsWaiting answers k)
      → answers n ≡ ok r
      → r.status_code ≡ 200
      → decode r.body ≡ ok (sent_back write print (process_place_order host a df now s).0)
      → (verify_place_order_result read decode answers order ≡ ok tt) ↔ (
          (requested (decode_place_order host.place_order_args df.original_message) ≡ some order)
          × ((process_place_order host a df now s).0.status ≡ 1)
          × Placed host a df order s (process_place_order host a df now s).1)
  unfolding verify_place_order_result
  verify_place_order_result_iff decode answers n r now s order below before e final decoded =
      rw (action_result_first decode answers n r below before e final) (
        rw decoded (
          by_cases (requested (decode_place_order host.place_order_args df.original_message)) s
            (process_place_order host a df now s) order
            (process_place_order-Places host a df now s)))
