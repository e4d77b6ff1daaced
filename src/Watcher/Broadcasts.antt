-- ===== src/Watcher/Broadcasts.antt =====
-- internal/extension/watcher.go: which functions broadcast, and what for.
use darkstop.Base.{
  ℕ, zero, suc, ◌≡◌, sym, subst, Bool, true, false, Option, none, some, List, [], ◌∷◌, Bool-cases,
  ◌==◌, ◌||◌, inl, inr, arith,
}
use darkstop.Base.Big.{ℤ, leb_ℤ}
use darkstop.Base.Map.{Map}
use darkstop.Store.{Order}
use darkstop.Watcher.State.{
  Env, Watcher, Pending, Reply, ok, err, not_found, other, Error, failed, unresolved, Sent, Signed,
}
use darkstop.Watcher.Exec.{Exec, awaited}
use darkstop.Watcher.Logic.{
  Keeps, Keeps-if, Keeps-pure, Keeps-raise, Keeps-attempt, Keeps-bind, Keeps-gets, keeps_rules,
}
use darkstop.Watcher.Chain.{
  ftso_address, current_price, on_chain_order_status, ensure_chain_id, chain_id_or_fetched,
}
use darkstop.Watcher.Nonce.{
  reserve_nonce, reserve_unless, reserve_found, reserved, release_nonce, release_order_nonce,
  Search, free, exhausted, unfinished,
}
use darkstop.Watcher.Settle.{
  settle_mined, settle_sent, settle_with, settle_once, settle_attempt, settle_with_retry,
  settle_failed, backoff,
}
use darkstop.Watcher.Reconcile.{
  TxState, is_mined, finished, replace_pending, try_replace, reconcile_open, reconcile_active,
  reconcile_inactive, reconcile_status, reconcile_against_vault, reconcile_lookup,
  reconcile_unconfirmed, reconcile_receipt, reconcile_entry, reconcile_entries, reconcile_pending,
}
use darkstop.Watcher.Tick.{settle_order, settle_current, settle_triggered}

sent-release_nonce_eq : (id n : ℕ) (c : Bool) (w : Watcher) → (release_nonce id n c w).sent ≡ w.sent
unfolding release_nonce
sent-release_nonce_eq id n c w = ground arith

sent-release_order_nonce_eq :
    (id : ℕ) (c : Bool) (w : Watcher) → (release_order_nonce id c w).sent ≡ w.sent
unfolding release_order_nonce release_nonce
sent-release_order_nonce_eq id c w = ground arith

module _ (env : Env) (Q : List Sent → Type 0) where
  -- A property of the broadcasts so far.
  abbrev pub P : Watcher → Type 0
  P w = Q w.sent

  -- Settling this order, at this trigger, is allowed.
  abbrev pub Allows : ℕ → Option ℤ → Type 0
  Allows id trigger =
      (nonce : ℕ) (gas_price : ℤ) (xs : List Sent)
      → Q xs
      → Q (
          record { order = id; nonce = nonce; gas_price = gas_price; trigger_price = trigger } ∷ xs)

  pub sent-awaited : (w : Watcher) → P w → P (awaited env w)
  unfolding awaited
  sent-awaited w h = h

  sent-release_nonce : (id n : ℕ) (c : Bool) (w : Watcher) → P w → P (release_nonce id n c w)
  sent-release_nonce id n c w h = subst Q (sym (sent-release_nonce_eq id n c w)) h

  sent-release_order_nonce :
      (id : ℕ) (c : Bool) (w : Watcher) → P w → P (release_order_nonce id c w)
  sent-release_order_nonce id c w h = subst Q (sym (sent-release_order_nonce_eq id c w)) h

  sent-finished : (id : ℕ) (p : Pending) (c : Bool) (w : Watcher) → P w → P (finished id p c w)
  unfolding finished
  sent-finished id p c w h = sent-release_nonce id p.nonce c _ h

  ruleset silent =
      (keeps_rules, sent-awaited, sent-release_nonce, sent-finished, sent-release_order_nonce)

  chain_id_or_fetched-silent : (known : Option ℤ) → Keeps P (chain_id_or_fetched env known)
  unfolding chain_id_or_fetched
  chain_id_or_fetched-silent (some id) = search silent
  chain_id_or_fetched-silent none = search silent depth 8

  ensure_chain_id-silent : Keeps P (ensure_chain_id env)
  unfolding ensure_chain_id
  ensure_chain_id-silent = search (silent, chain_id_or_fetched-silent)

  ftso_address-silent : Keeps P (ftso_address env)
  unfolding ftso_address
  ftso_address-silent = search silent depth 12

  pub current_price-silent : Keeps P (current_price env)
  unfolding current_price
  current_price-silent = search (silent, ftso_address-silent) depth 14

  on_chain_order_status-silent : (id : ℕ) → Keeps P (on_chain_order_status env id)
  unfolding on_chain_order_status
  on_chain_order_status-silent id = search silent depth 12

  reserve_found-silent : (id : ℕ) (s : Search) → Keeps P (reserve_found id s)
  unfolding reserve_found reserved
  reserve_found-silent id (free candidate) = search silent depth 8
  reserve_found-silent id exhausted = search silent
  reserve_found-silent id unfinished = search silent

  reserve_unless-silent : (id : ℕ) (owned : Option ℕ) → Keeps P (reserve_unless env id owned)
  unfolding reserve_unless
  reserve_unless-silent id (some nonce) = search silent
  reserve_unless-silent id none = search (silent, reserve_found-silent) depth 8

  reserve_nonce-silent : (id : ℕ) → Keeps P (reserve_nonce env id)
  unfolding reserve_nonce
  reserve_nonce-silent id = search (silent, reserve_unless-silent)

  settle_mined-silent : (o : Order) (n status : ℕ) → Keeps P (settle_mined env o n status)
  unfolding settle_mined
  settle_mined-silent o n status = search silent depth 8

  module _ (o : Order) (allowed : Allows o.id o.trigger_price) where
    settle_sent-sends : (p : Pending) (signed : Signed) → Keeps P (settle_sent env o p signed)
    unfolding settle_sent
    settle_sent-sends p signed = search (silent, settle_mined-silent, allowed) depth 10

    settle_with-sends :
        (input : List ℕ) (gas : ℕ) (gas_price : ℤ) (nonce : ℕ)
        → Keeps P (settle_with env o input gas gas_price nonce)
    unfolding settle_with
    settle_with-sends input gas gas_price nonce = search (silent, settle_sent-sends) depth 10

    settle_once-sends : Keeps P (settle_once env o)
    unfolding settle_once
    settle_once-sends =
        search (silent, ensure_chain_id-silent, reserve_nonce-silent, settle_with-sends) depth 12

    settle_failed-sends :
        (left : ℕ) (next : Exec (Bool × Bool)) (e : Error)
        → Keeps P next
        → Keeps P (settle_failed env left o next e)
    unfolding settle_failed backoff
    settle_failed-sends left next (unresolved p) k = search silent depth 8
    settle_failed-sends left next failed k = search silent depth 8

    settle_attempt-sends : (left : ℕ) → Keeps P (settle_attempt env left o)
    unfolding settle_attempt
    settle_attempt-sends zero = search silent depth 8
    settle_attempt-sends (suc left) =
        Keeps-attempt _ _ _ settle_once-sends
          (λ e. settle_failed-sends left _ e (settle_attempt-sends left)) (λ _. Keeps-pure _)

    settle_order-sends : Keeps P (settle_order env o)
    unfolding settle_order settle_with_retry
    settle_order-sends = search (silent, settle_attempt-sends) depth 10

    settle_current-sends : Keeps P (settle_current env o)
    unfolding settle_current
    settle_current-sends = search (silent, settle_order-sends) depth 8

  -- The orders may all be settled.
  abbrev pub AllowsAll : List Order → Type 0
  AllowsAll [] = Unit
  AllowsAll (o ∷ os) = Allows o.id o.trigger_price × AllowsAll os

  pub settle_triggered-sends : (os : List Order) → AllowsAll os → Keeps P (settle_triggered env os)
  unfolding settle_triggered
  settle_triggered-sends [] a = Keeps-pure tt
  settle_triggered-sends (o ∷ os) a = Keeps-bind _ _ (Keeps-gets _) λ idle.
      Keeps-if idle _ _
        (Keeps-bind _ _ (settle_current-sends o a.0) (λ _. settle_triggered-sends os a.1))
        (Keeps-pure tt)

  module _ (id : ℕ) (t : ℤ) (allowed : Allows id (some t)) where
    replace_pending-sends : (p : Pending) → Keeps P (replace_pending env id p t)
    unfolding replace_pending
    replace_pending-sends p = search (silent, ensure_chain_id-silent, allowed) depth 16

    try_replace-sends : (p : Pending) → Keeps P (try_replace env id p t)
    unfolding try_replace
    try_replace-sends p = search (silent, replace_pending-sends) depth 8

  -- At a sample, any order whose trigger the sample crosses may be settled; without one, none.
  abbrev pub AllowsAt : Option ℤ → Type 0
  AllowsAt none = Unit
  AllowsAt (some price) = (id : ℕ) (t : ℤ) → leb_ℤ price t ≡ true → Allows id (some t)

  reconcile_inactive-silent :
      (id : ℕ) (p : Pending) (state : TxState) → Keeps P (reconcile_inactive id p state)
  unfolding reconcile_inactive
  reconcile_inactive-silent id p state = search silent depth 8

  reconcile_active-sends :
      (id : ℕ) (p : Pending) (price : ℤ) (state : TxState) (trigger : Option ℤ)
      → AllowsAt (some price)
      → Keeps P (reconcile_active env id p price state trigger)
  unfolding reconcile_active
  reconcile_active-sends id p price state none a = reconcile_inactive-silent id p state
  reconcile_active-sends id p price state (some t) a = elim (Bool-cases (leb_ℤ price t)) [
    | inl e ↦ rw e (try_replace-sends id t (a id t e) p)
    | inr e ↦ rw e (reconcile_inactive-silent id p state)
  ]

  reconcile_open-sends :
      (id : ℕ) (p : Pending) (price : Option ℤ) (state : TxState)
      → AllowsAt price
      → Keeps P (reconcile_open env id p price state)
  unfolding reconcile_open
  reconcile_open-sends id p none state a = search silent depth 8
  reconcile_open-sends id p (some price) state a =
      Keeps-attempt _ _ _ (search silent) (λ e. Keeps-raise e)
        (λ trigger. reconcile_active-sends id p price state trigger a)

  module _ (price : Option ℤ) (allowed : AllowsAt price) where
    reconcile_status-sends :
        (id : ℕ) (p : Pending) (state : TxState) (status : ℕ)
        → Keeps P (reconcile_status env id p price state status)
    unfolding reconcile_status
    reconcile_status-sends id p state status = Keeps-if (status == 2) _ _ (search silent depth 10) (
        Keeps-if (status == 1) _ _
          (Keeps-if (is_mined state) _ _ (search silent)
            (reconcile_open-sends id p price state allowed))
          (Keeps-if (status == 0 || status == 3) _ _ (search silent depth 10) (Keeps-pure tt)))

    reconcile_against_vault-sends :
        (id : ℕ) (p : Pending) (state : TxState)
        → Keeps P (reconcile_against_vault env id p price state)
    unfolding reconcile_against_vault
    reconcile_against_vault-sends id p state =
        search (silent, on_chain_order_status-silent, reconcile_status-sends) depth 8

    reconcile_lookup-sends :
        (id : ℕ) (p : Pending) (found : Reply Bool)
        → Keeps P (reconcile_lookup env id p price found)
    unfolding reconcile_lookup
    reconcile_lookup-sends id p (ok true) = search (silent, reconcile_against_vault-sends) depth 10
    reconcile_lookup-sends id p (ok false) = search reconcile_against_vault-sends
    reconcile_lookup-sends id p (err other) = Keeps-pure tt
    reconcile_lookup-sends id p (err not_found) =
        search (silent, reconcile_against_vault-sends) depth 10

    reconcile_unconfirmed-sends :
        (id : ℕ) (p : Pending) → Keeps P (reconcile_unconfirmed env id p price)
    unfolding reconcile_unconfirmed
    reconcile_unconfirmed-sends id p = search (silent, reconcile_lookup-sends) depth 8

    reconcile_receipt-sends :
        (id : ℕ) (p : Pending) (receipt : Reply ℕ)
        → Keeps P (reconcile_receipt env id p price receipt)
    unfolding reconcile_receipt
    reconcile_receipt-sends id p (err not_found) = reconcile_unconfirmed-sends id p
    reconcile_receipt-sends id p (err other) = Keeps-pure tt
    reconcile_receipt-sends id p (ok status) = search silent depth 10

    reconcile_entry-sends : (id : ℕ) (p : Pending) → Keeps P (reconcile_entry env id p price)
    unfolding reconcile_entry
    reconcile_entry-sends id p = search (silent, reconcile_receipt-sends) depth 8

    reconcile_entries-sends : (m : Map Pending) → Keeps P (reconcile_entries env m price)
    unfolding reconcile_entries
    reconcile_entries-sends [] = Keeps-pure tt
    reconcile_entries-sends ((id, p) ∷ m) =
        Keeps-bind _ _ (reconcile_entry-sends id p) (λ _. reconcile_entries-sends m)

    pub reconcile_pending-sends : Keeps P (reconcile_pending env price)
    unfolding reconcile_pending
    reconcile_pending-sends = search (silent, reconcile_entries-sends) depth 8
