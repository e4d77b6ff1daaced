-- ===== src/Watcher/Serial.antt =====
-- internal/extension/watcher.go: the states between the steps of a tick, in which nothing is in flight
-- or one order is, as predicates on the watcher, and the steps that move between them.
use darkstop.Base.{ℕ, ◌≡◌, sym, subst, ◌⊎◌, false, Option, none, some, List, [], ◌∷◌, arith}
use darkstop.Base.Big.{ℤ}
use darkstop.Base.Map.{lookup, insert, delete}
use darkstop.Store.{Order}
use darkstop.Watcher.State.{
  Env, Watcher, Pending, Result, ok, err, Error, failed, unresolved, Signed,
}
use darkstop.Watcher.Exec.{awaited, pure, raise, gets, modify, attempt, ◌>>◌}
use darkstop.Watcher.Logic.{Keeps-lift, Keeps-rpc, Keeps-broadcast}
use darkstop.Watcher.Triples.{
  kept, Triple-gets, Triple-read_clock, Triple, Plain, Triple-attempt, Triple-bind, Plain-lift,
  Plain-pure, Plain-rpc, Plain-modify,
}
use darkstop.Watcher.Chain.{ensure_chain_id, chain_id_or_fetched}
use darkstop.Watcher.Nonce.{
  reserve_nonce, reserve_unless, reserve_found, reserved, release_nonce, owned_by, find_free,
  next_free, first_candidate,
}
use darkstop.Watcher.Settle.{settle_mined, settle_sent, settle_with, settle_once}

-- Nothing is in flight.
abbrev pub Idle : Watcher → Type 0
Idle w = (w.pending ≡ []) × (w.nonce_owners ≡ [])

-- An order owns a nonce, and nothing is in flight yet.
abbrev pub Holding : ℕ → ℕ → Watcher → Type 0
Holding id nonce w = (w.pending ≡ []) × (w.nonce_owners ≡ (nonce, id) ∷ [])

-- An order is in flight, with its nonce.
abbrev pub Flying : ℕ → Pending → Watcher → Type 0
Flying id p w = (w.pending ≡ (id, p) ∷ []) × (w.nonce_owners ≡ (p.nonce, id) ∷ [])

-- Nothing, or one order.
abbrev pub Serial : Watcher → Type 0
Serial w = Idle w ⊎ ((id : ℕ) × (p : Pending) × Flying id p w)

-- What settleOnce leaves: nothing, or a nonce for the transaction that is unresolved.
abbrev pub Settled : {A : Type 0} → ℕ → Result Error A → Watcher → Type 0
Settled id (ok a) w = Idle w
Settled id (err failed) w = Idle w
Settled id (err (unresolved p)) w = Holding id p.nonce w

-- What reserveNonce leaves.
abbrev pub Reserved : ℕ → Result Error ℕ → Watcher → Type 0
Reserved id (ok nonce) w = Holding id nonce w
Reserved id (err failed) w = Idle w
Reserved id (err (unresolved p)) w = ⊥

reserve-Idle :
    (id candidate : ℕ) (w : Watcher)
    → Idle w
    → Reserved id
        (reserve_found id (find_free candidate w.nonce_owners) w).0
        (reserve_found id (find_free candidate w.nonce_owners) w).1
unfolding find_free next_free lookup reserve_found raise modify attempt pure reserved insert delete
reserve-Idle id candidate w h = ground arith

module _ (env : Env) where
  pub Idle-awaited : (w : Watcher) → Idle w → Idle (awaited env w)
  unfolding awaited
  Idle-awaited w h = h

  Holding-awaited : (id n : ℕ) (w : Watcher) → Holding id n w → Holding id n (awaited env w)
  unfolding awaited
  Holding-awaited id n w h = h

  reserve_unless-Reserved : (id : ℕ) → Triple Idle (reserve_unless env id none) (Reserved id)
  unfolding reserve_unless
  reserve_unless-Reserved id =
      Triple-bind _ _ (Plain-rpc env Idle-awaited env.pending_nonce_at) (λ w h. h)
        λ remote. record {
          at = λ w h. unfold attempt gets in reserve-Idle id (first_candidate remote w) w h;
        }

  owned-Idle : (id : ℕ) (w : Watcher) → Idle w → owned_by id w.nonce_owners ≡ none
  unfolding owned_by
  owned-Idle id w h = ground arith

  reserve_nonce-Reserved : (id : ℕ) → Triple Idle (reserve_nonce env id) (Reserved id)
  unfolding reserve_nonce attempt gets
  reserve_nonce-Reserved id = record {
    at = λ w h.
        subst (λ owned. let r = reserve_unless env id owned w in Reserved id r.0 r.1)
          (sym (owned-Idle id w h)) ((reserve_unless-Reserved id).at w h);
  }

  settle_mined-Settled :
      (o : Order) (n status : ℕ)
      → Triple (Holding o.id n) (settle_mined env o n status) (Settled o.id)
  unfolding settle_mined attempt modify release_nonce lookup delete pure raise
  settle_mined-Settled o n status = record { at = λ w h. ground arith }

  raise-Settled : (id : ℕ) → Triple Idle (raise {A = Unit {0}} failed) (Settled id)
  unfolding raise
  raise-Settled id = record { at = λ w h. h }

  unresolved-Settled :
      (id : ℕ) (p : Pending)
      → Triple (Holding id p.nonce) (raise {A = Unit {0}} (unresolved p)) (Settled id)
  unfolding raise
  unresolved-Settled id p = record { at = λ w h. h }

  -- A nonce that was not used is given back.
  unsigned-Settled :
      (id nonce : ℕ)
      → Triple
          (Holding id nonce)
          (modify (release_nonce id nonce false) >> raise {A = Unit {0}} failed)
          (Settled id)
  unfolding attempt modify release_nonce lookup delete raise
  unsigned-Settled id nonce = record { at = λ w h. ground arith }

  settle_sent-Settled :
      (o : Order) (p : Pending) (signed : Signed)
      → Triple (Holding o.id p.nonce) (settle_sent env o p signed) (Settled o.id)
  unfolding settle_sent
  settle_sent-Settled o p signed =
      Triple-attempt (λ _. Holding o.id p.nonce) _ _ _
        (kept (Keeps-broadcast env (Holding-awaited o.id p.nonce) _ _ (λ w h. h)))
        (λ e. unresolved-Settled o.id p)
        (λ _.
          Triple-attempt (λ _. Holding o.id p.nonce) _ _ _
            (kept (Keeps-rpc env (Holding-awaited o.id p.nonce) _)) (λ e. unresolved-Settled o.id p)
            (settle_mined-Settled o p.nonce))

  settle_with-Settled :
      (o : Order) (input : List ℕ) (gas : ℕ) (gas_price : ℤ) (nonce : ℕ)
      → Triple (Holding o.id nonce) (settle_with env o input gas gas_price nonce) (Settled o.id)
  unfolding settle_with
  settle_with-Settled o input gas gas_price nonce = Triple-gets _ _ λ chain_id.
      Triple-attempt (λ _. Holding o.id nonce) _ _ _ (kept (Keeps-lift _))
        (λ e. unsigned-Settled o.id nonce)
        λ signed.
          Triple-read_clock env (Holding-awaited o.id nonce) _
            (λ now. settle_sent-Settled o _ signed)

  chain_id_or_fetched-Plain : (known : Option ℤ) → Plain Idle (chain_id_or_fetched env known)
  unfolding chain_id_or_fetched
  chain_id_or_fetched-Plain (some id) = Plain-pure tt
  chain_id_or_fetched-Plain none =
      Triple-bind _ _ (Plain-rpc env Idle-awaited env.fetch_chain_id) (λ w h. (tt, h))
        λ id. Plain-modify _ (λ w h. h)

  pub ensure_chain_id-Plain : Plain Idle (ensure_chain_id env)
  unfolding ensure_chain_id
  ensure_chain_id-Plain = Triple-gets _ _ chain_id_or_fetched-Plain

  pub settle_once-Settled : (o : Order) → Triple Idle (settle_once env o) (Settled o.id)
  unfolding settle_once
  settle_once-Settled o =
      Triple-bind _ _ (Plain-lift _) (λ w h. h)
        λ input.
          Triple-bind _ _ ensure_chain_id-Plain (λ w h. h)
            λ _.
              Triple-bind _ _ (Plain-rpc env Idle-awaited _) (λ w h. h)
                λ gas_price.
                  Triple-bind _ _ (Plain-rpc env Idle-awaited _) (λ w h. h)
                    λ gas.
                      Triple-attempt (Reserved o.id) _ _ _ (reserve_nonce-Reserved o.id) unreserved
                        (settle_with-Settled o input gas gas_price)
    where
      unreserved :
          (e : Error) → Triple (Reserved o.id (err e)) (raise {A = Unit {0}} e) (Settled o.id)
      unreserved failed = raise-Settled o.id
      unreserved (unresolved p) = record { at = λ w h. absurd h }
