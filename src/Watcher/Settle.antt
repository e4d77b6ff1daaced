-- ===== src/Watcher/Settle.antt =====
-- internal/extension/watcher.go: settleOnce and settleWithRetry. An order comes here from
-- TriggeredOrders, so its trigger price is not nil.
use darkstop.Base.{ℕ, zero, suc, Bool, true, false, List, ◌==◌, if◌then◌else◌}
use darkstop.Base.Big.{ℤ}
use darkstop.Base.Map.{insert}
use darkstop.Store.{Order}
use darkstop.Watcher.State.{
  Env, Watcher, Error, Pending, failed, unresolved, Signed, settle_max_age_sec, settle_attempts,
}
use darkstop.Watcher.Exec.{
  Exec, pure, raise, lift, gets, modify, rpc, read_clock, broadcast, attempt, ◌>>=◌, ◌>>◌,
}
use darkstop.Watcher.Chain.{ensure_chain_id}
use darkstop.Watcher.Nonce.{reserve_nonce, release_nonce, release_order_nonce}

module _ (env : Env) where
  -- The receipt of a mined transaction consumes its nonce, whether it succeeded (status 1) or not.
  unfoldable pub settle_mined : Order → ℕ → ℕ → Exec (Unit {0})
  settle_mined o nonce status = do
    modify (release_nonce o.id nonce true)
    if status == 1 then pure tt else raise failed

  unfoldable pub settle_sent : Order → Pending → Signed → Exec (Unit {0})
  settle_sent o p signed =
      attempt
        (broadcast env
          (record {
            order = o.id;
            nonce = p.nonce;
            gas_price = p.gas_price;
            trigger_price = o.trigger_price;
          })
          (λ k. env.send_transaction k signed))
        (λ e. raise (unresolved p))
        (λ _.
          attempt (rpc env (λ k. env.transaction_receipt k signed.hash)) (λ e. raise (unresolved p))
            (settle_mined o p.nonce))

  -- What settleOnce does with a reserved nonce.
  unfoldable pub settle_with : Order → List ℕ → ℕ → ℤ → ℕ → Exec (Unit {0})
  settle_with o input gas gas_price nonce = do
    chain_id ← gets (λ w. w.chain_id)
    attempt
        (lift (
          env.sign_tx chain_id
            (record { nonce = nonce; gas = gas; gas_price = gas_price; input = input })))
        (λ e. modify (release_nonce o.id nonce false) >> raise failed)
        (λ signed. do
          now ← read_clock env
          settle_sent o
              (record {
                tx_hash = signed.hash;
                nonce = nonce;
                gas_price = gas_price;
                trigger_price = o.trigger_price;
                first_seen = now;
                missing_checks = 0;
              })
              signed)

  unfoldable pub settle_once : Order → Exec (Unit {0})
  settle_once o = do
    input ← lift (env.pack_settle o.id o.trigger_price settle_max_age_sec)
    ensure_chain_id env
    gas_price ← rpc env env.suggest_gas_price
    gas ← rpc env (λ k. env.estimate_gas k input)
    nonce ← reserve_nonce env o.id
    settle_with o input gas gas_price nonce

  abbrev tracked : ℕ → Pending → Watcher → Watcher
  tracked id p w = record w { pending = insert id p w.pending }

  -- The sleep before the next attempt; none follows the last.
  unfoldable pub backoff : ℕ → Exec (Bool × Bool) → Exec (Bool × Bool)
  backoff left next = if left == 0 then next else (read_clock env >> next)

  -- The loop of settleWithRetry: whether the settlement is confirmed, and whether it is pending.
  unfoldable pub settle_failed : ℕ → Order → Exec (Bool × Bool) → Error → Exec (Bool × Bool)
  settle_failed left o next (unresolved p) = modify (tracked o.id p) >> pure (false, true)
  settle_failed left o next failed = backoff left next

  unfoldable pub settle_attempt : ℕ → Order → Exec (Bool × Bool)
  settle_attempt zero o = do modify (release_order_nonce o.id false); pure (false, false)
  settle_attempt (suc left) o =
      attempt (settle_once o) (settle_failed left o (settle_attempt left o))
        (λ _. pure (true, false))

  unfoldable pub settle_with_retry : Order → Exec (Bool × Bool)
  settle_with_retry o = settle_attempt settle_attempts o
