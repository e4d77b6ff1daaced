-- ===== src/Enclave/Examples.antt =====
-- A placement and a cancellation of internal/extension/extension.go on a concrete host, and the theorems
-- on them.
use darkstop.Base.{All, ℕ, ◌≡◌, refl, Option, none, some, List, [], ◌∷◌, arith}
use darkstop.Base.Big.{pos}
use darkstop.Store.{
  Order, Store, status_open, new_store, get, put, is_fixed, is_trailing, trailing_ready,
  supported_policies,
}
use darkstop.Base.Map.{lookup}
use darkstop.Store.Valid.{IsValid}
use darkstop.Policy.Examples.{legacy, legacy_run, trailing_text, trailing_run}
use darkstop.Enclave.Types.{
  AbiValue, integer, bytes, decode_place_order, decode_cancel_order, unpack_strict, repack,
  check_repacked, place_order_request, cancel_order_request,
}
use darkstop.Policy.{eq_string}
use darkstop.Enclave.{
  Host, Action, DataFixed, process_place_order, process_cancel_order, state_handler, place_request,
  place_id, place_decrypted, place_policy, place_answer, success, order_id_to_uint64,
}
use darkstop.Enclave.Confidential.{
  requested, SamePublic, state_handler-confidential, process_place_order-confidential,
}
use darkstop.Enclave.Placing.{
  Places, Cancels, cancelled_id, SameOrders, process_place_order-Places,
  process_cancel_order-Cancels, process_cancel_order-process_place_order,
}
use darkstop.Enclave.Encrypted.{process_place_order-client_plaintext}
use darkstop.Policy.Printing.{client_plaintext}
use darkstop.Store.Sorting.{find_by_id}
use darkstop.Store.Ratchet.{watched}
use darkstop.Store.Valid.{new_store-IsValid}
use darkstop.Store.{triggered_orders}
use darkstop.Base.{◌<◌, ◌≤◌, ◌≢◌, ◌↔◌}

-- A message is the order id and the ciphertext.
abbrev unpack_place : List ℕ → Option (List AbiValue)
unpack_place [] = none
unpack_place (n ∷ c) = some (integer (pos n) ∷ bytes c ∷ [])

abbrev pack_place : List AbiValue → Option (List ℕ)
pack_place (integer (pos n) ∷ bytes c ∷ []) = some (n ∷ c)
pack_place _ = none

abbrev unpack_cancel : List ℕ → Option (List AbiValue)
unpack_cancel (n ∷ []) = some (integer (pos n) ∷ [])
unpack_cancel _ = none

abbrev pack_cancel : List AbiValue → Option (List ℕ)
pack_cancel (integer (pos n) ∷ []) = some (n ∷ [])
pack_cancel _ = none

abbrev pub place_message : DataFixed
place_message = record { op_type = 1; op_command = 2; original_message = 9 ∷ 77 ∷ [] }

abbrev cancel_message : DataFixed
cancel_message = record { op_type = 1; op_command = 3; original_message = 9 ∷ [] }

abbrev pub host : Host
host = record {
  parse_fixed = λ m. some place_message;
  decrypt = λ c. some legacy;
  public_key = 4 ∷ [];
  place_order_args = record { unpack = unpack_place; pack = pack_place };
  cancel_order_args = record { unpack = unpack_cancel; pack = pack_cancel };
  op_type_darkstop = 1;
  op_command_place_order = 2;
  op_command_cancel_order = 3;
  version = 20;
}

abbrev pub action : Action
action = record { id = 5; submission_tag = 6; message = [] }

pub placed_status : (process_place_order host action place_message 0 new_store).0.status ≡ 1
unfolding process_place_order decode_place_order unpack_strict repack check_repacked eq_string
    place_order_request place_request place_id place_decrypted place_policy place_answer success
    order_id_to_uint64 put is_fixed is_trailing lookup
placed_status = rw (legacy_run, place_policy, put, place_answer, success) refl

process_place_order-Places_example :
    Places host action place_message
      (requested (decode_place_order host.place_order_args (9 ∷ 77 ∷ [])))
      new_store
      (process_place_order host action place_message 0 new_store)
process_place_order-Places_example =
    process_place_order-Places host action place_message 0 new_store

process_cancel_order-Cancels_example :
    Cancels
      (cancelled_id (decode_cancel_order host.cancel_order_args (9 ∷ [])))
      new_store
      (process_cancel_order host action cancel_message new_store)
process_cancel_order-Cancels_example =
    process_cancel_order-Cancels host action cancel_message new_store

process_cancel_order-process_place_order_example :
    ((process_cancel_order host action cancel_message
        (process_place_order host action place_message 0 new_store).1).0.status
      ≡ 1)
    × SameOrders
        (process_cancel_order host action cancel_message
          (process_place_order host action place_message 0 new_store).1).1
        new_store
unfolding decode_place_order decode_cancel_order unpack_strict repack check_repacked eq_string
    place_order_request cancel_order_request order_id_to_uint64
process_cancel_order-process_place_order_example =
    process_cancel_order-process_place_order host action action place_message cancel_message 0
      new_store placed_status refl

abbrev sampled : Store
sampled = record new_store { latest_price = some (pos 25_000); latest_at = 5 }

trailing_status :
    (process_place_order
      (record host { decrypt = λ c. some trailing_text })
      action
      place_message
      8
      sampled).0.status
    ≡ 1
unfolding process_place_order decode_place_order unpack_strict repack check_repacked eq_string
    place_order_request place_request place_id place_decrypted place_policy place_answer success
    order_id_to_uint64 put is_fixed is_trailing lookup trailing_ready
trailing_status = rw (trailing_run, place_policy, put, place_answer, success) refl

process_place_order-confidential_example :
    (process_place_order host action place_message 0 new_store).0
    ≡ (process_place_order
        (record host { decrypt = λ c. some trailing_text })
        action
        place_message
        8
        sampled).0
process_place_order-confidential_example =
    process_place_order-confidential host action place_message (λ c. some trailing_text) 0 8
      new_store sampled placed_status trailing_status

abbrev fixed_order : Order
fixed_order = record {
  id = 1;
  trigger_price = some (pos 20_000);
  trail_bps = 0;
  high_watermark = none;
  status = status_open;
}

abbrev trailing_order : Order
trailing_order = record {
  id = 1;
  trigger_price = none;
  trail_bps = 500;
  high_watermark = some (pos 25_000);
  status = status_open;
}

abbrev book_of : Order → Store
book_of o = record { orders = (1, o) ∷ []; latest_price = none; latest_at = 0 }

fixed-IsValid : IsValid (book_of fixed_order)
fixed-IsValid = ground arith

trailing-IsValid : IsValid (book_of trailing_order)
trailing-IsValid = ground arith

same_public : SamePublic (book_of fixed_order) (book_of trailing_order)
unfolding get lookup
same_public id = ground arith

state_handler-confidential_example :
    state_handler host 7 (book_of fixed_order) (book_of fixed_order)
    ≡ state_handler host 7 (book_of trailing_order) (book_of trailing_order)
unfolding supported_policies trailing_ready
state_handler-confidential_example =
    state_handler-confidential host 7 (book_of fixed_order) (book_of trailing_order) fixed-IsValid
      trailing-IsValid same_public refl

abbrev encrypted_host : Host
encrypted_host = record host { decrypt = λ c. some (client_plaintext 20_000) }

process_place_order-client_plaintext_example :
    let r = process_place_order encrypted_host action place_message 0 new_store in
    (r.0 ≡ success encrypted_host action place_message 9 status_open)
    × ((ps : List ℕ) (p : ℕ)
        → All (λ q. 0 < q) ps
        → 0 < p
        → (find_by_id 9 (triggered_orders (some (pos p)) (watched ps r.1)).0 ≢ none) ↔ (p ≤ 20_000))
unfolding decode_place_order unpack_strict repack check_repacked eq_string place_order_request get
    lookup
process_place_order-client_plaintext_example =
    process_place_order-client_plaintext encrypted_host action place_message 0 20_000 9 new_store
      (77 ∷ []) new_store-IsValid (omega arith) (omega arith) (omega arith) (omega arith) refl refl
      refl
