-- ===== src/Enclave.antt =====
-- internal/extension/extension.go and utils.go: the handlers of the enclave's extension. A hash is a
-- number, and the JSON that the handlers write is the record that they write. go-ethereum's abi package
-- and ECIES, tee-node's parser and ToHash are parameters.
pub mod Examples
pub mod Types
pub mod Placing
pub mod Confidential
pub mod Calls
pub mod Encrypted
use darkstop.Base.{
  ℕ, zero, suc, ◌^◌, Bool, true, false, not, ◌||◌, Option, none, some, List, [], ◌∷◌, ltb, ◌==◌,
  if◌then◌else◌, map, length,
}
use darkstop.Base.Big.{ℤ, pos, negsuc}
use darkstop.Store.{
  Order, Store, Status, status_open, status_cancelled, is_open, Policy, PutError, put, remove,
  snapshot, supported_policies,
}
use darkstop.Policy.{OrderPolicy, Parsed, policy, refused, PolicyError, parse_order_plaintext}
use darkstop.Enclave.Types.{
  Arguments, PlaceOrderRequest, CancelOrderRequest, decode_place_order, decode_cancel_order,
}

-- instruction.DataFixed
pub record DataFixed : Type 0 where
  pub op_type : ℕ
  pub op_command : ℕ
  pub original_message : List ℕ

-- teetypes.Action
pub record Action : Type 0 where
  pub id : ℕ
  pub submission_tag : ℕ
  pub message : List ℕ

-- What the extension calls: the hashes are teeutils.ToHash of the constants of internal/config.
pub record Host : Type 0 where
  pub parse_fixed : List ℕ → Option DataFixed
  pub decrypt : List ℕ → Option (List ℕ)
  pub public_key : List ℕ
  pub place_order_args : Arguments
  pub cancel_order_args : Arguments
  pub op_type_darkstop : ℕ
  pub op_command_place_order : ℕ
  pub op_command_cancel_order : ℕ
  pub version : ℕ

pub record OrderResponse : Type 0 where
  pub order_id : ℕ
  pub status : Status

-- The errors that buildResult writes into the log.
pub data ProcessError : Type 0 where
  bad_request bad_order_id not_decrypted : ProcessError
  bad_policy : PolicyError → ProcessError
  not_stored : PutError → ProcessError
  not_found : ℕ → ProcessError

pub data Log : Type 0 where
  log_error : ProcessError → Log
  log_ok : Log

-- teetypes.ActionResult
pub record ActionResult : Type 0 where
  pub id : ℕ
  pub submission_tag : ℕ
  pub version : ℕ
  pub op_type : ℕ
  pub op_command : ℕ
  pub answer : Option OrderResponse  -- Data
  pub status : ℕ
  pub log : Log

pub data Body : Type 0 where
  result : ActionResult → Body
  message_undecoded unsupported_op_type unsupported_op_command : Body

-- The status code and the body.
abbrev pub Response : Type 0
Response = ℕ × Body

-- orderIDToUint64
unfoldable pub order_id_to_uint64 : ℤ → Option ℕ
order_id_to_uint64 (pos zero) = none
order_id_to_uint64 (pos (suc n)) = if ltb (suc n) (2 ^ 64) then some (suc n) else none
order_id_to_uint64 (negsuc n) = none

-- buildResult with status 0, and with status 1
module _ (host : Host) (a : Action) (df : DataFixed) where
  unfoldable pub failure : ProcessError → ActionResult
  failure e = record {
    id = a.id;
    submission_tag = a.submission_tag;
    version = host.version;
    op_type = df.op_type;
    op_command = df.op_command;
    answer = none;
    status = 0;
    log = log_error e;
  }

  unfoldable pub success : ℕ → Status → ActionResult
  success id st = record {
    id = a.id;
    submission_tag = a.submission_tag;
    version = host.version;
    op_type = df.op_type;
    op_command = df.op_command;
    answer = some (record { order_id = id; status = st });
    status = 1;
    log = log_ok;
  }

  abbrev pub new_order : ℕ → OrderPolicy → Order
  new_order id p = record {
    id = id;
    trigger_price = p.trigger_price;
    trail_bps = p.trail_bps;
    high_watermark = none;
    status = status_open;
  }

  unfoldable pub place_answer : ℕ → Option PutError → ActionResult
  place_answer id none = success id status_open
  place_answer id (some e) = failure (not_stored e)

  unfoldable pub place_policy : ℕ → ℕ → Parsed → Store → ActionResult × Store
  place_policy now id (refused e) s = (failure (bad_policy e), s)
  place_policy now id (policy p) s =
      (place_answer id (put now (new_order id p) s).0, (put now (new_order id p) s).1)

  unfoldable pub place_decrypted : ℕ → ℕ → Option (List ℕ) → Store → ActionResult × Store
  place_decrypted now id none s = (failure not_decrypted, s)
  place_decrypted now id (some plaintext) s =
      place_policy now id (parse_order_plaintext plaintext) s

  unfoldable pub place_id : ℕ → List ℕ → Option ℕ → Store → ActionResult × Store
  place_id now ciphertext none s = (failure bad_order_id, s)
  place_id now ciphertext (some id) s = place_decrypted now id (host.decrypt ciphertext) s

  unfoldable pub place_request : ℕ → Option PlaceOrderRequest → Store → ActionResult × Store
  place_request now none s = (failure bad_request, s)
  place_request now (some r) s = place_id now r.ciphertext (order_id_to_uint64 r.order_id) s

  -- processPlaceOrder; `now` is what the clock gives in Put
  unfoldable pub process_place_order : ℕ → Store → ActionResult × Store
  process_place_order now s =
      place_request now (decode_place_order host.place_order_args df.original_message) s

  unfoldable pub cancel_id : Option ℕ → Store → ActionResult × Store
  cancel_id none s = (failure bad_order_id, s)
  cancel_id (some id) s = (
    (if (remove id s).0 then success id status_cancelled else failure (not_found id)),
    (remove id s).1,
  )

  unfoldable pub cancel_request : Option CancelOrderRequest → Store → ActionResult × Store
  cancel_request none s = (failure bad_request, s)
  cancel_request (some r) s = cancel_id (order_id_to_uint64 r.order_id) s

  -- processCancelOrder
  unfoldable pub process_cancel_order : Store → ActionResult × Store
  process_cancel_order s =
      cancel_request (decode_cancel_order host.cancel_order_args df.original_message) s

  abbrev answered : ActionResult × Store → Response × Store
  answered r = ((200, result r.0), r.1)

  -- processDarkstop
  unfoldable pub process_darkstop : ℕ → Store → Response × Store
  process_darkstop now s =
      if df.op_command == host.op_command_place_order
      then answered (process_place_order now s)
      else if df.op_command == host.op_command_cancel_order
      then answered (process_cancel_order s)
      else ((501, unsupported_op_command), s)

unfoldable pub process_fixed : Host → Action → Option DataFixed → ℕ → Store → Response × Store
process_fixed host a none now s = ((400, message_undecoded), s)
process_fixed host a (some df) now s =
    if df.op_type == host.op_type_darkstop
    then process_darkstop host a df now s
    else ((501, unsupported_op_type), s)

-- processAction
unfoldable pub process_action : Host → Action → ℕ → Store → Response × Store
process_action host a now s = process_fixed host a (host.parse_fixed a.message) now s

pub record OrderState : Type 0 where
  pub order_id : ℕ
  pub status : Status

-- StateResponse, with its State
pub record StateResponse : Type 0 where
  pub state_version : ℕ
  pub encryption_pub_key : List ℕ
  pub supported_policies : List Policy
  pub open_orders : ℕ
  pub orders : List OrderState

abbrev pub order_state : Order → OrderState
order_state o = record { order_id = o.id; status = o.status }

-- The loop of stateHandler.
unfoldable pub order_states : List Order → List OrderState
order_states [] = []
order_states (o ∷ os) = order_state o ∷ order_states os

unfoldable pub count_open : List Order → ℕ
count_open [] = 0
count_open (o ∷ os) = let rest = count_open os in if is_open o.status then suc rest else rest

-- stateHandler; `seen` is the store when Snapshot has it, `s` when SupportedPolicies does
unfoldable pub state_handler : Host → ℕ → Store → Store → StateResponse
state_handler host now seen s = record {
  state_version = host.version;
  encryption_pub_key = host.public_key;
  supported_policies = supported_policies now s;
  open_orders = count_open (snapshot seen);
  orders = order_states (snapshot seen);
}
