-- ===== src/Watcher/Examples.antt =====
-- Runs of the watcher of internal/extension/watcher.go against a concrete chain, and its theorems there.
use darkstop.Base.{
  ℕ, ◌+◌, ◌*◌, ◌/◌, ◌⊎◌, ◌<◌, ◌≤◌, ◌≡◌, ◌≢◌, ◌↔◌, refl, true, false, none, some, [], ◌∷◌, arith,
}
use darkstop.Base.Big.{ℤ, pos}
use darkstop.Base.Map.{lookup, insert, delete}
use darkstop.Store.{
  Order, Store, status_open, get, open_orders, observe_price, triggered_orders, trigger_loop,
  sort_by_id, trailed, is_triggered, ratcheted, revealed, effective_of,
}
use darkstop.Watcher.State.{Env, Watcher, ok, err, not_found, new_watcher}
use darkstop.Watcher.Exec.{
  awaited, attempt, gets, modify, pure, raise, lift, of_type, rpc, try_rpc, read_clock, read_store,
  with_store, broadcast,
}
use darkstop.Watcher.Chain.{
  current_price, ftso_address, normalize_price, ensure_chain_id, chain_id_or_fetched,
}
use darkstop.Watcher.Nonce.{
  first_candidate, find_free, next_free, free, reserve_nonce, reserve_unless, reserve_found,
  owned_by, release_nonce, reserved, release_order_nonce,
}
use darkstop.Watcher.Nonces.{
  Finds, find_free-Finds, Reserves, reserve_nonce-Reserves, release_nonce_lem,
}
use darkstop.Watcher.Reconcile.{reconcile_pending, reconcile_entries}
use darkstop.Watcher.Settle.{
  settle_with_retry, settle_attempt, settle_once, settle_with, settle_sent, settle_failed, backoff,
}
use darkstop.Store.History.{called_all}
use darkstop.Watcher.Evidence.{IsSilent, IsUnexecuted}
use darkstop.Watcher.Unmarked.{ticks-IsUnexecuted}
use darkstop.Watcher.Ages.{is_unusable_iff}
use darkstop.Watcher.Serial.{Serial}
use darkstop.Watcher.OneAtATime.{ticks-new_watcher}
use darkstop.Watcher.Tick.{
  tick, ticks, tick_sampled, tick_at, settle_triggered, settle_current, settle_order, feed_age,
  unix, of_unix, is_unusable, unix_epoch, nanoseconds,
}

abbrev order : Order
order = record {
  id = 1;
  trigger_price = some (pos 20_000);
  trail_bps = 0;
  high_watermark = none;
  status = status_open;
}

abbrev book : Store
book = record { orders = (1, order) ∷ []; latest_price = none; latest_at = 0 }

abbrev price : ℤ
price = pos 19_000

-- A chain on which the price is 0.019, with 8 decimals, and no transaction is ever mined.
abbrev chain : Env
chain = record {
  vault = 5;
  call_contract = λ k to input. ok input;
  suggest_gas_price = λ k. ok (pos 25_000_000_000);
  pending_nonce_at = λ k. ok 7;
  estimate_gas = λ k input. ok 90_000;
  send_transaction = λ k signed. ok tt;
  transaction_receipt = λ k hash. err not_found;
  transaction_by_hash = λ k hash. ok true;
  fetch_chain_id = λ k. ok (pos 114);
  pack_orders = λ id. ok (id ∷ []);
  pack_get_feed = ok [];
  pack_ftso = ok [];
  pack_settle = λ id trigger age. ok (id ∷ age ∷ []);
  unpack_orders = λ output. ok (some 1);
  unpack_feed = λ output. ok (some (pos 1_900_000), some (pos 8), some 1_000);
  unpack_ftso = λ output. ok (some 6);
  sign_tx = λ chain_id tx. ok (record { tx = tx; hash = tx.nonce + 100 });
  clock = λ k. (unix_epoch + 1_010) * nanoseconds;
  handlers = λ k. [];
}

abbrev start : Watcher
start = new_watcher book

ticks-new_watcher_example : Serial (ticks chain 3 (new_watcher book)).1
ticks-new_watcher_example = ticks-new_watcher chain 3 book

find_free-Finds_example :
    Finds 3 ((3, 1) ∷ (4, 2) ∷ (6, 9) ∷ []) (find_free 3 ((3, 1) ∷ (4, 2) ∷ (6, 9) ∷ []))
find_free-Finds_example = find_free-Finds 3 ((3, 1) ∷ (4, 2) ∷ (6, 9) ∷ []) (omega arith)

find_free_run : find_free 3 ((3, 1) ∷ (4, 2) ∷ (6, 9) ∷ []) ≡ free 5
unfolding find_free next_free lookup
find_free_run = refl

-- Order 4 owns the chain's next nonce.
abbrev busy : Watcher
busy = record start { nonce_owners = (7, 4) ∷ [] }

reserve_nonce-Reserves_example :
    Reserves 1 8 busy.nonce_owners (reserve_nonce chain 1 busy).1.nonce_owners
unfolding reserve_nonce reserve_unless reserve_found owned_by find_free next_free lookup gets
    attempt rpc modify pure first_candidate new_watcher
reserve_nonce-Reserves_example = reserve_nonce-Reserves chain 1 8 busy (tt, tt) refl

release_nonce_lem_example :
    (lookup 7 (release_nonce 4 7 false busy).nonce_owners ≢ some 4)
    × ((m owner : ℕ)
        → owner ≢ 4
        → (lookup m (release_nonce 4 7 false busy).nonce_owners ≡ some owner)
          ↔ (lookup m busy.nonce_owners ≡ some owner))
    × (lookup 7 busy.nonce_owners ≡ some 4
        → false ≡ false
        → (release_nonce 4 7 false busy).next_nonce ≤ 7)
release_nonce_lem_example = release_nonce_lem 4 7 false busy

tick_run :
    (tick chain start).1.sent
    ≡ record {
      order = 1;
      nonce = 7;
      gas_price = pos 25_000_000_000;
      trigger_price = some (pos 20_000);
    }
      ∷ []
unfolding tick tick_sampled tick_at settle_triggered settle_current settle_order settle_with_retry
    settle_attempt settle_once settle_with settle_sent settle_failed backoff release_order_nonce
    current_price ftso_address normalize_price ensure_chain_id chain_id_or_fetched reconcile_pending
    reconcile_entries reserve_nonce reserve_unless reserve_found reserved first_candidate find_free
    next_free owned_by is_unusable feed_age unix of_unix attempt gets modify pure raise lift of_type
    rpc try_rpc read_clock read_store with_store broadcast awaited called_all lookup insert delete
    get open_orders observe_price triggered_orders trigger_loop sort_by_id trailed is_triggered
    ratcheted revealed effective_of new_watcher
tick_run = refl

is_unusable_iff_example : (is_unusable ((unix_epoch + 1_010) * nanoseconds) 709 ≡ true) ↔ (
    ((unix_epoch + 1_010) * nanoseconds / nanoseconds < 709 + unix_epoch)
    ⊎ (709 + unix_epoch + 300 < (unix_epoch + 1_010) * nanoseconds / nanoseconds))
is_unusable_iff_example =
    is_unusable_iff ((unix_epoch + 1_010) * nanoseconds) 709 (omega arith) (omega arith)
      (omega arith)

chain-IsSilent : IsSilent chain
chain-IsSilent = record {
  unmarking = λ k. tt;
  no_receipt = λ k hash e. cc;
  no_status = λ output e. cc;
}

ticks-IsUnexecuted_example : IsUnexecuted (ticks chain 3 start).1.store
unfolding new_watcher
ticks-IsUnexecuted_example =
    ticks-IsUnexecuted chain 3 start chain-IsSilent (record { opened = (refl, tt) })
