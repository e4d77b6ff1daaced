-- ===== src/Watcher/OneAtATime.antt =====
-- internal/extension/watcher.go: what is in flight between ticks.
use darkstop.Base.{
  ℕ, zero, suc, ◌≡◌, refl, inl, inr, Bool, true, false, none, some, List, [], ◌∷◌, ◌==◌,
  if◌then◌else◌, arith,
}
use darkstop.Base.Big.{ℤ}
use darkstop.Base.Map.{insert, delete}
use darkstop.Store.{Order, Store}
use darkstop.Watcher.State.{Env, Watcher, err, Error, failed, unresolved, new_watcher}
use darkstop.Watcher.Exec.{Exec, pure, raise, gets, modify, attempt, ◌>>◌}
use darkstop.Watcher.Logic.{
  Keeps, Keeps-read_clock, Keeps-read_store, Keeps-with_store, Keeps-attempt, Keeps-bind, Keeps-if,
  Keeps-pure, Keeps-raise, keeps_rules,
}
use darkstop.Watcher.Triples.{
  kept, Triple-attempt, Triple-read_store, Triple-modify, Triple-read_clock, Triple-if,
}
use darkstop.Watcher.Chain.{ftso_address, current_price}
use darkstop.Watcher.Nonce.{release_order_nonce, owned_by}
use darkstop.Watcher.Settle.{settle_attempt, settle_with_retry, settle_failed, backoff}
use darkstop.Watcher.Reconcile.{reconcile_pending}
use darkstop.Watcher.Tick.{
  is_empty, is_current, settle_order, settle_current, settle_triggered, tick_at, tick_sampled, tick,
  ticks, is_unusable,
}
use darkstop.Watcher.InFlight.{Ends, pure-Ends, Serial-awaited}
use darkstop.Watcher.Reconciled.{reconcile_pending-Serial}
use darkstop.Watcher.Serial.{Idle, Serial, Settled, Idle-awaited, settle_once-Settled}

module _ (env : Env) where
  settle_failed-Ends :
      (left : ℕ) (o : Order) (next : Exec (Bool × Bool)) (e : Error)
      → Ends Idle next
      → Ends (Settled {A = Unit {0}} o.id (err e)) (settle_failed env left o next e)
  unfolding settle_failed backoff attempt modify pure insert delete
  settle_failed-Ends left o next (unresolved p) k = record {
    at = λ w h. inr (o.id, p, ground arith);
  }
  settle_failed-Ends left o next failed k =
      Triple-if (left == 0) _ _ k (Triple-read_clock env (Idle-awaited env) _ (λ _. k))

  released-Idle : (id : ℕ) (w : Watcher) → Idle w → Idle (release_order_nonce id false w)
  unfolding release_order_nonce owned_by
  released-Idle id w h = ground arith

  settle_attempt-Ends : (left : ℕ) (o : Order) → Ends Idle (settle_attempt env left o)
  unfolding settle_attempt
  settle_attempt-Ends zero o = Triple-modify _ _ (released-Idle o.id) (pure-Ends _)
  settle_attempt-Ends (suc left) o =
      Triple-attempt (Settled o.id) _ _ _ (settle_once-Settled env o)
        (λ e. settle_failed-Ends left o _ e (settle_attempt-Ends left o)) (λ _. pure-Ends _)

  settle_order-Ends : (o : Order) → Ends Idle (settle_order env o)
  unfolding settle_order settle_with_retry
  settle_order-Ends o =
      Triple-attempt (λ _. Serial) _ _ _ (settle_attempt-Ends _ o) (λ e. kept (Keeps-raise e))
        λ outcome. kept (
          Keeps-if outcome.0 _ _
            (Keeps-bind _ _ (Keeps-with_store env (Serial-awaited env) _ (λ w h. h))
              (λ _. Keeps-pure tt))
            (Keeps-pure tt))

  settle_current-Ends : (o : Order) → Ends Idle (settle_current env o)
  unfolding settle_current
  settle_current-Ends o =
      Triple-read_store env (Idle-awaited env) _ _
        λ current. Triple-if (is_current current) _ _ (settle_order-Ends o) (pure-Ends tt)

  -- The test of the loop of tick finds nothing in flight.
  Serial-Idle : (w : Watcher) → Serial w → is_empty w.pending ≡ true → Idle w
  Serial-Idle w (inl h) e = h
  Serial-Idle w (inr f) e = ground arith

  settle_next-Serial :
      (o : Order) (rest : Exec (Unit {0})) (idle : Bool) (w : Watcher)
      → Keeps Serial rest
      → Serial w
      → is_empty w.pending ≡ idle
      → Serial ((if idle then (settle_current env o >> rest) else pure tt) w).1
  unfolding pure
  settle_next-Serial o rest true w k h e =
      (Triple-attempt (λ _. Serial) _ _ _ (settle_current-Ends o) (λ x. kept (Keeps-raise x))
          (λ _. kept k)).at
        w (Serial-Idle w h e)
  settle_next-Serial o rest false w k h e = h

  settle_triggered-Serial : (os : List Order) → Keeps Serial (settle_triggered env os)
  unfolding settle_triggered attempt gets
  settle_triggered-Serial [] = Keeps-pure tt
  settle_triggered-Serial (o ∷ os) = record {
    at = λ w h. settle_next-Serial o _ (is_empty w.pending) w (settle_triggered-Serial os) h refl;
  }

  tick_at-Serial : (price : ℤ) (ts : ℕ) → Keeps Serial (tick_at env price ts)
  unfolding tick_at
  tick_at-Serial price ts = Keeps-bind _ _ (Keeps-read_store env (Serial-awaited env) _) λ _.
      Keeps-bind _ _ (Keeps-with_store env (Serial-awaited env) _ (λ w h. h)) λ _.
        Keeps-bind _ _ (Keeps-with_store env (Serial-awaited env) _ (λ w h. h)) λ triggered.
          Keeps-bind _ _ (reconcile_pending-Serial env (some price))
            λ _. settle_triggered-Serial triggered

  unsampled-Serial : Keeps Serial (reconcile_pending env none >> raise {A = Unit {0}} failed)
  unsampled-Serial = Keeps-bind _ _ (reconcile_pending-Serial env none) (λ _. Keeps-raise failed)

  tick_sampled-Serial : (price : ℤ) (ts : ℕ) → Keeps Serial (tick_sampled env price ts)
  unfolding tick_sampled
  tick_sampled-Serial price ts =
      Keeps-bind _ _ (Keeps-read_clock env (Serial-awaited env))
        λ now. Keeps-if (is_unusable now ts) _ _ unsampled-Serial (tick_at-Serial price ts)

  current_price-Serial : Keeps Serial (current_price env)
  unfolding current_price ftso_address
  current_price-Serial = search (keeps_rules, (Serial-awaited env)) depth 20

  -- Whatever a tick meets, it leaves at most one transaction in flight, with its nonce.
  pub tick-Serial : Keeps Serial (tick env)
  unfolding tick
  tick-Serial =
      Keeps-attempt _ _ _ current_price-Serial (λ e. unsampled-Serial)
        (λ sample. tick_sampled-Serial sample.0 sample.1)

  ticks-Serial : (n : ℕ) → Keeps Serial (ticks env n)
  unfolding ticks
  ticks-Serial zero = Keeps-pure tt
  ticks-Serial (suc n) =
      Keeps-bind _ _ (Keeps-attempt _ _ _ tick-Serial (λ e. Keeps-pure tt) (λ _. Keeps-pure tt))
        (λ _. ticks-Serial n)

  -- After any number of ticks of a new watcher, whatever the chain answers and whatever the
  -- handlers do to the store in between, either nothing is in flight and no nonce is owned, or
  -- exactly one order is in flight and exactly the nonce of its transaction is owned, by it.
  pub ticks-new_watcher : (n : ℕ) (s : Store) → Serial (ticks env n (new_watcher s)).1
  unfolding new_watcher
  ticks-new_watcher n s = (ticks-Serial n).at (new_watcher s) (inl (refl, refl))
