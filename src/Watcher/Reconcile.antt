-- ===== src/Watcher/Reconcile.antt =====
-- internal/extension/watcher.go: reconcilePending, reconcileUnconfirmed, reconcileAgainstVault and
-- replacePending, which bring broadcast transactions to an end.
use darkstop.Base.{
  ℕ, zero, suc, ◌+◌, Bool, true, false, not, ◌||◌, Option, none, some, [], ◌∷◌, ltb, ◌==◌,
  if◌then◌else◌,
}
use darkstop.Base.Big.{ℤ, pos, negsuc, mul_ℕ, div_ℕ, ltb_ℤ, leb_ℤ}
use darkstop.Base.Map.{Map, lookup, insert, delete}
use darkstop.Store.{mark_executed, remove, effective_trigger}
use darkstop.Watcher.State.{
  Env, Watcher, Pending, Reply, ok, err, not_found, other, failed, settle_max_age_sec,
  pending_drop_checks, pending_replacement_age,
}
use darkstop.Watcher.Exec.{
  Exec, pure, raise, lift, gets, modify, rpc, try_rpc, read_clock, read_store, with_store,
  broadcast, attempt, ◌>>=◌, ◌>>◌,
}
use darkstop.Watcher.Chain.{ensure_chain_id, on_chain_order_status}
use darkstop.Watcher.Nonce.{release_nonce}

-- unconfirmedTxState
pub data TxState : Type 0 where
  stuck dropped mined_no_receipt : TxState

abbrev pub is_mined : TxState → Bool
is_mined mined_no_receipt = true
is_mined stuck = false
is_mined dropped = false

abbrev pub is_dropped : TxState → Bool
is_dropped dropped = true
is_dropped stuck = false
is_dropped mined_no_receipt = false

-- x.Add(x, 1)
abbrev pub increment : ℤ → ℤ
increment (pos n) = pos (n + 1)
increment (negsuc zero) = pos 0
increment (negsuc (suc n)) = negsuc n

-- The gas price of a replacement: the old one raised by an eighth and 1, or the suggested one.
unfoldable pub bumped : ℤ → ℤ → ℤ
bumped old suggested =
    let raised = increment (div_ℕ (mul_ℕ old 9) 8) in
    if ltb_ℤ raised suggested then suggested else raised

abbrev pub untracked : ℕ → Watcher → Watcher
untracked id w = record w { pending = delete id w.pending }

abbrev pub retracked : ℕ → Pending → Watcher → Watcher
retracked id p w = record w { pending = insert id p w.pending }

-- delete(w.pending, orderID), then releaseNonce
unfoldable pub finished : ℕ → Pending → Bool → Watcher → Watcher
finished id p consumed w = release_nonce id p.nonce consumed (untracked id w)

-- The owner check of replacePending.
abbrev pub is_foreign : ℕ → Option ℕ → Bool
is_foreign id none = false
is_foreign id (some owner) = not (owner == id)

abbrev pub owned_nonce : ℕ → ℕ → Watcher → Watcher
owned_nonce id nonce w = record w { nonce_owners = insert nonce id w.nonce_owners }

-- The sample does not activate the order.
unfoldable pub reconcile_inactive : ℕ → Pending → TxState → Exec (Unit {0})
reconcile_inactive id p state = if is_dropped state then modify (finished id p false) else pure tt

module _ (env : Env) where
  unfoldable pub replace_pending : ℕ → Pending → ℤ → Exec (Unit {0})
  replace_pending id p trigger = do
    owner ← gets (λ w. lookup p.nonce w.nonce_owners)
    if is_foreign id owner then raise failed else do
      modify (owned_nonce id p.nonce)
      input ← lift (env.pack_settle id (some trigger) settle_max_age_sec)
      suggested ← rpc env env.suggest_gas_price
      gas ← rpc env (λ k. env.estimate_gas k input)
      ensure_chain_id env
      chain_id ← gets (λ w. w.chain_id)
      signed ← lift (
          env.sign_tx chain_id (record {
            nonce = p.nonce;
            gas = gas;
            gas_price = bumped p.gas_price suggested;
            input = input;
          }))
      broadcast env
          (record {
            order = id;
            nonce = p.nonce;
            gas_price = bumped p.gas_price suggested;
            trigger_price = some trigger;
          })
          (λ k. env.send_transaction k signed)
      now ← read_clock env
      modify (
          retracked id (record {
            tx_hash = signed.hash;
            nonce = p.nonce;
            gas_price = bumped p.gas_price suggested;
            trigger_price = some trigger;
            first_seen = now;
            missing_checks = 0;
          }))

  -- A failed replacement is only logged.
  unfoldable pub try_replace : ℕ → Pending → ℤ → Exec (Unit {0})
  try_replace id p trigger = attempt (replace_pending id p trigger) (λ e. pure tt) (λ _. pure tt)

  -- The vault still has the order open, the transaction is not mined, and there is a sample; the last
  -- argument is the order's trigger, if the store has one.
  unfoldable pub reconcile_active : ℕ → Pending → ℤ → TxState → Option ℤ → Exec (Unit {0})
  reconcile_active id p price state none = reconcile_inactive id p state
  reconcile_active id p price state (some t) =
      if leb_ℤ price t then try_replace id p t else reconcile_inactive id p state

  unfoldable pub reconcile_open : ℕ → Pending → Option ℤ → TxState → Exec (Unit {0})
  reconcile_open id p none state = read_store env (effective_trigger id) >> pure tt
  reconcile_open id p (some price) state = do
    trigger ← read_store env (effective_trigger id)
    reconcile_active id p price state trigger

  -- By the status of the order on chain: 1 open, 2 executed, 0 unknown, 3 cancelled.
  unfoldable pub reconcile_status : ℕ → Pending → Option ℤ → TxState → ℕ → Exec (Unit {0})
  reconcile_status id p price state status =
      if status == 2
      then (do modify (finished id p (is_mined state)); with_store env (mark_executed id); pure tt)
      else if status == 1
      then (if is_mined state then modify (finished id p true) else reconcile_open id p price state)
      else if status == 0 || status == 3
      then (do modify (finished id p (is_mined state)); with_store env (remove id); pure tt)
      else pure tt

  unfoldable pub reconcile_against_vault : ℕ → Pending → Option ℤ → TxState → Exec (Unit {0})
  reconcile_against_vault id p price state =
      attempt (on_chain_order_status env id) (λ e. pure tt) (reconcile_status id p price state)

  -- By the answer of TransactionByHash: whether the transaction is pending, or an error.
  unfoldable pub reconcile_lookup : ℕ → Pending → Option ℤ → Reply Bool → Exec (Unit {0})
  reconcile_lookup id p price (ok true) = do
    modify (retracked id (record p { missing_checks = 0 }))
    now ← read_clock env
    if ltb now (p.first_seen + pending_replacement_age)
        then pure tt
        else reconcile_against_vault id (record p { missing_checks = 0 }) price stuck
  reconcile_lookup id p price (ok false) = reconcile_against_vault id p price mined_no_receipt
  reconcile_lookup id p price (err other) = pure tt
  reconcile_lookup id p price (err not_found) = do
    let q = record p { missing_checks = p.missing_checks + 1 }
    modify (retracked id q)
    if ltb q.missing_checks pending_drop_checks
        then pure tt
        else reconcile_against_vault id q price dropped

  unfoldable pub reconcile_unconfirmed : ℕ → Pending → Option ℤ → Exec (Unit {0})
  reconcile_unconfirmed id p price = do
    found ← try_rpc env (λ k. env.transaction_by_hash k p.tx_hash)
    reconcile_lookup id p price found

  -- By the answer of TransactionReceipt: the receipt's status, or an error.
  unfoldable pub reconcile_receipt : ℕ → Pending → Option ℤ → Reply ℕ → Exec (Unit {0})
  reconcile_receipt id p price (err not_found) = reconcile_unconfirmed id p price
  reconcile_receipt id p price (err other) = pure tt
  reconcile_receipt id p price (ok status) = do
    modify (finished id p true)
    if status == 1 then (with_store env (mark_executed id) >> pure tt) else pure tt

  unfoldable pub reconcile_entry : ℕ → Pending → Option ℤ → Exec (Unit {0})
  reconcile_entry id p price = do
    receipt ← try_rpc env (λ k. env.transaction_receipt k p.tx_hash)
    reconcile_receipt id p price receipt

  -- The loop of reconcilePending. A round writes no other entry of the map than its own, so the range
  -- gives the entries as they were at its start.
  unfoldable pub reconcile_entries : Map Pending → Option ℤ → Exec (Unit {0})
  reconcile_entries [] price = pure tt
  reconcile_entries ((id, p) ∷ m) price = reconcile_entry id p price >> reconcile_entries m price

  unfoldable pub reconcile_pending : Option ℤ → Exec (Unit {0})
  reconcile_pending price = do entries ← gets (λ w. w.pending); reconcile_entries entries price
