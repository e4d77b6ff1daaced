-- ===== src/Watcher/Unmarked.antt =====
-- internal/extension/watcher.go: ticks on a chain that gives no evidence of settlements.
use darkstop.Base.{
  ℕ, zero, suc, ◌≡◌, ◌≢◌, ap, Bool, true, false, Option, none, some, [], ◌∷◌, Bool-cases, ◌==◌,
  ◌||◌, inl, inr, ==_iff,
}
use darkstop.Base.Big.{ℤ, leb_ℤ}
use darkstop.Base.Map.{Map}
use darkstop.Store.{remove}
use darkstop.Watcher.State.{Env, Watcher, Pending, Reply, ok, err, not_found, other, failed}
use darkstop.Watcher.Exec.{awaited, raise, try_rpc, attempt, ◌>>◌}
use darkstop.Watcher.Logic.{
  Keeps, Keeps-if, Keeps-pure, Keeps-raise, Keeps-attempt, Keeps-bind, Keeps-gets, Keeps-modify,
  Keeps-with_store, Keeps-read_store, Keeps-read_clock, keeps_rules,
}
use darkstop.Watcher.Triples.{Triple, kept, Triple-attempt}
use darkstop.Watcher.Chain.{ensure_chain_id}
use darkstop.Watcher.Reconcile.{
  TxState, is_mined, finished, replace_pending, try_replace, reconcile_open, reconcile_active,
  reconcile_inactive, reconcile_status, reconcile_against_vault, reconcile_lookup,
  reconcile_unconfirmed, reconcile_receipt, reconcile_entry, reconcile_entries, reconcile_pending,
}
use darkstop.Watcher.Unconfirmed.{Avoids, on_chain_order_status-Avoids, settle_triggered-opened}
use darkstop.Watcher.Tick.{is_unusable, tick_at, tick_sampled, tick, ticks, of_unix}
use darkstop.Watcher.Evidence.{
  IsUnexecuted, IsSilent, P, stable, open-release_nonce, ensure_chain_id-Keeps, current_price-Keeps,
  remove-IsUnexecuted, observe_price-IsUnexecuted, triggered_orders-IsUnexecuted,
}

module _ (env : Env) (s : IsSilent env) where
  finished-opened : (id : ℕ) (p : Pending) (c : Bool) (w : Watcher) → P w → P (finished id p c w)
  unfolding finished
  finished-opened id p c w h = open-release_nonce env s id p.nonce c _ h

  opened-awaited : (w : Watcher) → P w → P (awaited env w)
  opened-awaited w h = stable env s w h

  ensure_chain_id-opened : Keeps P (ensure_chain_id env)
  ensure_chain_id-opened = ensure_chain_id-Keeps env s

  ruleset rules = (keeps_rules, opened-awaited, finished-opened)

  replace_pending-opened : (id : ℕ) (p : Pending) (t : ℤ) → Keeps P (replace_pending env id p t)
  unfolding replace_pending
  replace_pending-opened id p t = search (rules, ensure_chain_id-opened) depth 16

  try_replace-opened : (id : ℕ) (p : Pending) (t : ℤ) → Keeps P (try_replace env id p t)
  unfolding try_replace
  try_replace-opened id p t = search (rules, replace_pending-opened) depth 8

  reconcile_inactive-opened :
      (id : ℕ) (p : Pending) (state : TxState) → Keeps P (reconcile_inactive id p state)
  unfolding reconcile_inactive
  reconcile_inactive-opened id p state = search rules depth 8

  reconcile_active-opened :
      (id : ℕ) (p : Pending) (price : ℤ) (state : TxState) (trigger : Option ℤ)
      → Keeps P (reconcile_active env id p price state trigger)
  unfolding reconcile_active
  reconcile_active-opened id p price state none = reconcile_inactive-opened id p state
  reconcile_active-opened id p price state (some t) =
      Keeps-if (leb_ℤ price t) _ _ (try_replace-opened id p t)
        (reconcile_inactive-opened id p state)

  reconcile_open-opened :
      (id : ℕ) (p : Pending) (price : Option ℤ) (state : TxState)
      → Keeps P (reconcile_open env id p price state)
  unfolding reconcile_open
  reconcile_open-opened id p none state = search rules depth 8
  reconcile_open-opened id p (some price) state =
      Keeps-bind _ _ (Keeps-read_store env (stable env s) _)
        (reconcile_active-opened id p price state)

  removed-opened : (id : ℕ) (w : Watcher) → P w → P (record w { store = (remove id w.store).1 })
  removed-opened id w h = remove-IsUnexecuted id w.store h

  -- The order is not executed by the vault's account.
  reconcile_status-opened :
      (id : ℕ) (p : Pending) (price : Option ℤ) (state : TxState) (status : ℕ)
      → ¬ (status ≡ 2)
      → Keeps P (reconcile_status env id p price state status)
  unfolding reconcile_status
  reconcile_status-opened id p price state status h = elim (Bool-cases (status == 2)) [
    | inl e ↦ absurd (h ((==_iff status 2).0 e))
    | inr e ↦ rw e (
        Keeps-if (status == 1) _ _
          (Keeps-if (is_mined state) _ _ (search rules) (reconcile_open-opened id p price state))
          (Keeps-if (status == 0 || status == 3) _ _ (search (rules, removed-opened) depth 10)
            (Keeps-pure tt)))
  ]

  reconcile_against_vault-opened :
      (id : ℕ) (p : Pending) (price : Option ℤ) (state : TxState)
      → Triple P (reconcile_against_vault env id p price state) (λ _. P)
  unfolding reconcile_against_vault
  reconcile_against_vault-opened id p price state =
      Triple-attempt (Avoids (λ n. n ≡ 2)) _ _ _ (on_chain_order_status-Avoids env s id)
        (λ e. kept (Keeps-pure tt))
        λ status. record {
          at = λ w h. (reconcile_status-opened id p price state status h.0).at w h.1;
        }

  vault-opened :
      (id : ℕ) (p : Pending) (price : Option ℤ) (state : TxState)
      → Keeps P (reconcile_against_vault env id p price state)
  vault-opened id p price state = record {
    at = (reconcile_against_vault-opened id p price state).at;
  }

  reconcile_lookup-opened :
      (id : ℕ) (p : Pending) (price : Option ℤ) (found : Reply Bool)
      → Keeps P (reconcile_lookup env id p price found)
  unfolding reconcile_lookup
  reconcile_lookup-opened id p price (ok true) = search (rules, vault-opened) depth 10
  reconcile_lookup-opened id p price (ok false) = search vault-opened
  reconcile_lookup-opened id p price (err other) = Keeps-pure tt
  reconcile_lookup-opened id p price (err not_found) = search (rules, vault-opened) depth 10

  reconcile_unconfirmed-opened :
      (id : ℕ) (p : Pending) (price : Option ℤ) → Keeps P (reconcile_unconfirmed env id p price)
  unfolding reconcile_unconfirmed
  reconcile_unconfirmed-opened id p price = search (rules, reconcile_lookup-opened) depth 8

  reconcile_receipt-opened :
      (id : ℕ) (p : Pending) (price : Option ℤ) (receipt : Reply ℕ)
      → receipt ≢ ok 1
      → Keeps P (reconcile_receipt env id p price receipt)
  unfolding reconcile_receipt
  reconcile_receipt-opened id p price (err not_found) h = reconcile_unconfirmed-opened id p price
  reconcile_receipt-opened id p price (err other) h = Keeps-pure tt
  reconcile_receipt-opened id p price (ok status) h =
      Keeps-bind _ _ (Keeps-modify _ (finished-opened id p true)) λ _.
        elim (Bool-cases (status == 1)) [
          | inl e ↦ absurd (h (ap ok ((==_iff status 1).0 e)))
          | inr e ↦ rw e (Keeps-pure tt)
        ]

  reconcile_entry-opened :
      (id : ℕ) (p : Pending) (price : Option ℤ) → Keeps P (reconcile_entry env id p price)
  unfolding reconcile_entry attempt try_rpc
  reconcile_entry-opened id p price = record {
    at = λ w h.
        (reconcile_receipt-opened id p price (env.transaction_receipt w.calls p.tx_hash)
            (s.no_receipt w.calls p.tx_hash)).at
          (awaited env w) (stable env s w h);
  }

  reconcile_entries-opened :
      (m : Map Pending) (price : Option ℤ) → Keeps P (reconcile_entries env m price)
  unfolding reconcile_entries
  reconcile_entries-opened [] price = Keeps-pure tt
  reconcile_entries-opened ((id, p) ∷ m) price =
      Keeps-bind _ _ (reconcile_entry-opened id p price) (λ _. reconcile_entries-opened m price)

  reconcile_pending-opened : (price : Option ℤ) → Keeps P (reconcile_pending env price)
  unfolding reconcile_pending
  reconcile_pending-opened price =
      Keeps-bind _ _ (Keeps-gets _) (λ entries. reconcile_entries-opened entries price)

  unsampled-opened : Keeps P (reconcile_pending env none >> raise {A = Unit {0}} failed)
  unsampled-opened = Keeps-bind _ _ (reconcile_pending-opened none) (λ _. Keeps-raise failed)

  tick_at-opened : (price : ℤ) (ts : ℕ) → Keeps P (tick_at env price ts)
  unfolding tick_at
  tick_at-opened price ts = Keeps-bind _ _ (Keeps-read_store env (stable env s) _) λ _.
      Keeps-bind _ _
        (Keeps-with_store env (stable env s) _
          (λ w h. observe_price-IsUnexecuted (some price) (of_unix ts) w.store h))
        λ _.
          Keeps-bind _ _
            (Keeps-with_store env (stable env s) _
              (λ w h. triggered_orders-IsUnexecuted (some price) w.store h))
            λ triggered.
              Keeps-bind _ _ (reconcile_pending-opened (some price))
                λ _. settle_triggered-opened env s triggered

  tick_sampled-opened : (price : ℤ) (ts : ℕ) → Keeps P (tick_sampled env price ts)
  unfolding tick_sampled
  tick_sampled-opened price ts =
      Keeps-bind _ _ (Keeps-read_clock env (stable env s))
        λ now. Keeps-if (is_unusable now ts) _ _ unsampled-opened (tick_at-opened price ts)

  tick-opened : Keeps P (tick env)
  unfolding tick
  tick-opened =
      Keeps-attempt _ _ _ (current_price-Keeps env s) (λ e. unsampled-opened)
        (λ sample. tick_sampled-opened sample.0 sample.1)

  ticks-opened : (n : ℕ) → Keeps P (ticks env n)
  unfolding ticks
  ticks-opened zero = Keeps-pure tt
  ticks-opened (suc n) =
      Keeps-bind _ _ (Keeps-attempt _ _ _ tick-opened (λ e. Keeps-pure tt) (λ _. Keeps-pure tt))
        (λ _. ticks-opened n)

-- The watcher marks an order executed only on evidence from the chain: while no receipt reports
-- success, the vault gives no order the status executed, and the handlers mark none, any number of
-- ticks leaves a book without executed orders without executed orders.
pub ticks-IsUnexecuted :
    (env : Env) (n : ℕ) (w : Watcher)
    → IsSilent env
    → IsUnexecuted w.store
    → IsUnexecuted (ticks env n w).1.store
ticks-IsUnexecuted env n w s h = (ticks-opened env s n).at w h
