-- ===== src/Watcher/Reconciled.antt =====
-- internal/extension/watcher.go: what a reconciliation leaves in flight.
use darkstop.Base.{
  ◌+◌, ltb, ℕ, ◌≡◌, refl, inl, inr, Bool, true, false, Option, none, some, [], ◌∷◌, ◌==◌, ◌||◌,
  arith,
}
use darkstop.Base.Big.{ℤ, leb_ℤ}
use darkstop.Base.Map.{Map}
use darkstop.Store.{Store, mark_executed, remove}
use darkstop.Watcher.State.{
  Env, Watcher, Pending, Reply, ok, err, not_found, other, pending_replacement_age,
  pending_drop_checks,
}
use darkstop.Watcher.Exec.{pure, gets, modify, attempt, with_store, ◌>>◌}
use darkstop.Watcher.Logic.{Keeps, Keeps-pure, Keeps-raise}
use darkstop.Watcher.Triples.{
  kept, Triple-attempt, Triple-try_rpc, Triple-read_store, Triple-with_store, Triple-modify,
  Triple-read_clock, Triple-if,
}
use darkstop.Watcher.Reconcile.{
  TxState, is_mined, is_dropped, finished, try_replace, reconcile_inactive, reconcile_active,
  reconcile_open, reconcile_status, reconcile_against_vault, reconcile_lookup,
  reconcile_unconfirmed, reconcile_receipt, reconcile_entry, reconcile_entries, reconcile_pending,
  stuck, dropped, mined_no_receipt,
}
use darkstop.Watcher.Serial.{Flying, Serial, Idle-awaited}
use darkstop.Watcher.InFlight.{
  Ends, pure-Ends, still, finish-Ends, finished-Idle, replace_pending-Ends,
  on_chain_order_status-Flying, retracked-Flying, Flying-awaited,
}

module _ (env : Env) where
  try_replace-Ends : (id : ℕ) (p : Pending) (t : ℤ) → Ends (Flying id p) (try_replace env id p t)
  unfolding try_replace
  try_replace-Ends id p t =
      Triple-attempt (λ _. Serial) _ _ _ (replace_pending-Ends env id p t)
        (λ e. kept (Keeps-pure tt)) (λ _. kept (Keeps-pure tt))

  reconcile_inactive-Ends :
      (id : ℕ) (p : Pending) (state : TxState) → Ends (Flying id p) (reconcile_inactive id p state)
  unfolding reconcile_inactive
  reconcile_inactive-Ends id p state =
      Triple-if (is_dropped state) _ _ (finish-Ends env id p false) (still env id p (Keeps-pure tt))

  reconcile_active-Ends :
      (id : ℕ) (p : Pending) (price : ℤ) (state : TxState) (trigger : Option ℤ)
      → Ends (Flying id p) (reconcile_active env id p price state trigger)
  unfolding reconcile_active
  reconcile_active-Ends id p price state none = reconcile_inactive-Ends id p state
  reconcile_active-Ends id p price state (some t) =
      Triple-if (leb_ℤ price t) _ _ (try_replace-Ends id p t) (reconcile_inactive-Ends id p state)

  reconcile_open-Ends :
      (id : ℕ) (p : Pending) (price : Option ℤ) (state : TxState)
      → Ends (Flying id p) (reconcile_open env id p price state)
  unfolding reconcile_open
  reconcile_open-Ends id p none state =
      Triple-read_store env (Flying-awaited env id p) _ _ (λ _. still env id p (Keeps-pure tt))
  reconcile_open-Ends id p (some price) state =
      Triple-read_store env (Flying-awaited env id p) _ _ (reconcile_active-Ends id p price state)

  -- The transaction is done with, and a method of the store follows.
  finished_then-Ends :
      (id : ℕ) (p : Pending) (c : Bool) (f : Store → Bool × Store)
      → Ends (Flying id p) (modify (finished id p c) >> (with_store env f >> pure tt))
  finished_then-Ends id p c f =
      Triple-modify _ _ (finished-Idle env id p c)
        (Triple-with_store env (Idle-awaited env) _ _ (λ w h. h) (λ _. pure-Ends tt))

  reconcile_status-Ends :
      (id : ℕ) (p : Pending) (price : Option ℤ) (state : TxState) (status : ℕ)
      → Ends (Flying id p) (reconcile_status env id p price state status)
  unfolding reconcile_status
  reconcile_status-Ends id p price state status =
      Triple-if (status == 2) _ _ (finished_then-Ends id p (is_mined state) (mark_executed id)) (
        Triple-if (status == 1) _ _
          (Triple-if (is_mined state) _ _ (finish-Ends env id p true)
            (reconcile_open-Ends id p price state))
          (Triple-if (status == 0 || status == 3) _ _
            (finished_then-Ends id p (is_mined state) (remove id))
            (still env id p (Keeps-pure tt))))

  reconcile_against_vault-Ends :
      (id : ℕ) (p : Pending) (price : Option ℤ) (state : TxState)
      → Ends (Flying id p) (reconcile_against_vault env id p price state)
  unfolding reconcile_against_vault
  reconcile_against_vault-Ends id p price state =
      Triple-attempt (λ _. Flying id p) _ _ _ (kept (on_chain_order_status-Flying env id p))
        (λ e. still env id p (Keeps-pure tt)) (reconcile_status-Ends id p price state)

  reconcile_lookup-Ends :
      (id : ℕ) (p : Pending) (price : Option ℤ) (found : Reply Bool)
      → Ends (Flying id p) (reconcile_lookup env id p price found)
  unfolding reconcile_lookup
  reconcile_lookup-Ends id p price (ok true) =
      let q : Pending = record p { missing_checks = 0 } in
      Triple-modify _ _ (λ w h. retracked-Flying env id p q w refl h)
        (Triple-read_clock env (Flying-awaited env id q) _ λ now.
          Triple-if (ltb now (p.first_seen + pending_replacement_age)) _ _
            (still env id q (Keeps-pure tt)) (reconcile_against_vault-Ends id q price stuck))
  reconcile_lookup-Ends id p price (ok false) =
      reconcile_against_vault-Ends id p price mined_no_receipt
  reconcile_lookup-Ends id p price (err other) = still env id p (Keeps-pure tt)
  reconcile_lookup-Ends id p price (err not_found) =
      let q : Pending = record p { missing_checks = p.missing_checks + 1 } in
      Triple-modify _ _ (λ w h. retracked-Flying env id p q w refl h)
        (Triple-if (ltb q.missing_checks pending_drop_checks) _ _ (still env id q (Keeps-pure tt))
          (reconcile_against_vault-Ends id q price dropped))

  reconcile_receipt-Ends :
      (id : ℕ) (p : Pending) (price : Option ℤ) (receipt : Reply ℕ)
      → Ends (Flying id p) (reconcile_receipt env id p price receipt)
  unfolding reconcile_receipt reconcile_unconfirmed
  reconcile_receipt-Ends id p price (err not_found) =
      Triple-try_rpc env (Flying-awaited env id p) _ _ (reconcile_lookup-Ends id p price)
  reconcile_receipt-Ends id p price (err other) = still env id p (Keeps-pure tt)
  reconcile_receipt-Ends id p price (ok status) = Triple-modify _ _ (finished-Idle env id p true) (
      Triple-if (status == 1) _ _
        (Triple-with_store env (Idle-awaited env) _ _ (λ w h. h) (λ _. pure-Ends tt))
        (pure-Ends tt))

  reconcile_entry-Ends :
      (id : ℕ) (p : Pending) (price : Option ℤ)
      → Ends (Flying id p) (reconcile_entry env id p price)
  unfolding reconcile_entry
  reconcile_entry-Ends id p price =
      Triple-try_rpc env (Flying-awaited env id p) _ _ (reconcile_receipt-Ends id p price)

  Flying-eq :
      (id j : ℕ) (p q : Pending) (w : Watcher)
      → w.pending ≡ (id, p) ∷ []
      → Flying j q w
      → Flying id p w
  Flying-eq id j p q w e f = ground arith

  reconcile_all-Serial :
      (m : Map Pending) (price : Option ℤ) (w : Watcher)
      → w.pending ≡ m
      → Serial w
      → Serial (reconcile_entries env m price w).1
  unfolding reconcile_entries
  reconcile_all-Serial [] price w e s = (Keeps-pure {P = Serial} tt).at w s
  reconcile_all-Serial ((id, p) ∷ []) price w e (inr f) =
      (Triple-attempt (λ _. Serial) _ _ _ (reconcile_entry-Ends id p price)
          (λ x. kept (Keeps-raise x)) (λ _. kept (Keeps-pure tt))).at
        w (Flying-eq id f.0 p f.1 w e f.2)
  reconcile_all-Serial ((id, p) ∷ []) price w e (inl h) = ground arith
  reconcile_all-Serial ((id, p) ∷ (x ∷ m)) price w e s = absurd (ground arith)

  pub reconcile_pending-Serial : (price : Option ℤ) → Keeps Serial (reconcile_pending env price)
  unfolding reconcile_pending attempt gets
  reconcile_pending-Serial price = record {
    at = λ w h. reconcile_all-Serial w.pending price w refl h;
  }
