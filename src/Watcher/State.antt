-- ===== src/Watcher/State.antt =====
-- internal/extension/watcher.go: the watcher's state and what it takes from outside.
-- An address, a transaction hash and a call's data are numbers and lists of numbers; an address is 0
-- exactly if it is the zero address.
use darkstop.Base.{ℕ, Bool, false, Option, none, List, []}
use darkstop.Base.Big.{ℤ}
use darkstop.Base.Map.{Map}
use darkstop.Store.{Store}
use darkstop.Store.History.{Call}

-- settleMaxAgeSec
abbrev pub settle_max_age_sec : ℕ
settle_max_age_sec = 300

-- payoutDecimals
abbrev pub payout_decimals : ℕ
payout_decimals = 6

-- settleAttempts
abbrev pub settle_attempts : ℕ
settle_attempts = 3

-- pendingDropChecks
abbrev pub pending_drop_checks : ℕ
pending_drop_checks = 3

-- pendingReplacementAge, in nanoseconds
abbrev pub pending_replacement_age : ℕ
pending_replacement_age = 30_000_000_000

-- pendingSettlement
pub record Pending : Type 0 where
  pub tx_hash : ℕ
  pub nonce : ℕ  -- uint64
  pub gas_price : ℤ
  pub trigger_price : Option ℤ
  pub first_seen : ℕ
  pub missing_checks : ℕ

-- An error of the code that is called: `not_found` is ethereum.NotFound, the only one told apart.
pub data Fault : Type 0 where
  not_found other : Fault

-- An error of the watcher's own functions: `unresolved` is a pendingTransactionError.
pub data Error : Type 0 where
  failed : Error
  unresolved : Pending → Error

pub data Result (E A : Type 0) : Type 0 where
  ok : A → Result E A
  err : E → Result E A

-- An answer of the code that is called.
abbrev pub Reply : Type 0 → Type 0
Reply A = Result Fault A

-- ethtypes.NewTransaction(nonce, vault, 0, gas, gasPrice, data)
pub record Tx : Type 0 where
  pub nonce : ℕ
  pub gas : ℕ
  pub gas_price : ℤ
  pub input : List ℕ

pub record Signed : Type 0 where
  pub tx : Tx
  pub hash : ℕ

-- go-ethereum (the client, the abi package, the signer), the clock, and the calls that the HTTP
-- handlers make on the store while the watcher waits. The number is that of the scheduling point, so
-- each call may answer anything.
pub record Env : Type 0 where
  pub vault : ℕ
  pub call_contract : ℕ → ℕ → List ℕ → Reply (List ℕ)
  pub suggest_gas_price : ℕ → Reply ℤ
  pub pending_nonce_at : ℕ → Reply ℕ
  pub estimate_gas : ℕ → List ℕ → Reply ℕ
  pub send_transaction : ℕ → Signed → Reply (Unit {0})
  pub transaction_receipt : ℕ → ℕ → Reply ℕ
  pub transaction_by_hash : ℕ → ℕ → Reply Bool
  pub fetch_chain_id : ℕ → Reply ℤ
  pub pack_orders : ℕ → Reply (List ℕ)
  pub pack_get_feed : Reply (List ℕ)
  pub pack_ftso : Reply (List ℕ)
  pub pack_settle : ℕ → Option ℤ → ℕ → Reply (List ℕ)
  pub unpack_orders : List ℕ → Reply (Option ℕ)
  pub unpack_feed : List ℕ → Reply (Option ℤ × Option ℤ × Option ℕ)
  pub unpack_ftso : List ℕ → Reply (Option ℕ)
  pub sign_tx : Option ℤ → Tx → Reply Signed
  pub clock : ℕ → ℕ
  pub handlers : ℕ → List Call

-- One call of SendTransaction: the order that it settles, and what the transaction carries.
pub record Sent : Type 0 where
  pub order : ℕ
  pub nonce : ℕ
  pub gas_price : ℤ
  pub trigger_price : Option ℤ

-- `calls` counts the scheduling points so far, and `sent` lists the broadcasts, newest first; the
-- other fields are the program's.
pub record Watcher : Type 0 where
  pub store : Store
  pub ftso : ℕ
  pub chain_id : Option ℤ
  pub pending : Map Pending
  pub nonce_owners : Map ℕ
  pub next_nonce : ℕ
  pub nonce_ready : Bool
  pub calls : ℕ
  pub sent : List Sent

-- NewWatcher
unfoldable pub new_watcher : Store → Watcher
new_watcher s = record {
  store = s;
  ftso = 0;
  chain_id = none;
  pending = [];
  nonce_owners = [];
  next_nonce = 0;
  nonce_ready = false;
  calls = 0;
  sent = [];
}
