-- ===== src/Watcher/Tick.antt =====
-- internal/extension/watcher.go: tick, and the ticks of Run.
use darkstop.Base.{
  ℕ, zero, suc, ◌+◌, ◌-◌, ◌*◌, ◌/◌, ◌%◌, ◌^◌, Bool, true, false, ◌||◌, Option, none, some, List, [],
  ◌∷◌, if◌then◌else◌,
}
use darkstop.Base.Big.{ℤ, pos, int64, ltb_ℤ}
use darkstop.Base.Map.{Map}
use darkstop.Store.{
  Order, is_open, open_orders, observe_price, triggered_orders, get, mark_executed,
}
use darkstop.Watcher.State.{Env, Pending, failed, settle_max_age_sec}
use darkstop.Watcher.Exec.{
  Exec, pure, raise, gets, read_clock, read_store, with_store, attempt, ◌>>=◌, ◌>>◌,
}
use darkstop.Watcher.Chain.{current_price}
use darkstop.Watcher.Settle.{settle_with_retry}
use darkstop.Watcher.Reconcile.{reconcile_pending}

-- Seconds from Go's zero time to the Unix epoch.
abbrev pub unix_epoch : ℕ
unix_epoch = 62_135_596_800

abbrev pub nanoseconds : ℕ
nanoseconds = 1_000_000_000

-- t.Unix(), as the bits of an int64
unfoldable pub unix : ℕ → ℕ
unix t = (t / nanoseconds + 2 ^ 64 - unix_epoch) % 2 ^ 64

-- time.Unix(ts, 0), for a ts that is not past 2 ^ 63
unfoldable pub of_unix : ℕ → ℕ
of_unix ts = (ts + unix_epoch) * nanoseconds

-- time.Now().Unix() - int64(ts)
unfoldable pub feed_age : ℕ → ℕ → ℤ
unfolding unix
feed_age now ts = int64 ((unix now + 2 ^ 64 - ts % 2 ^ 64) % 2 ^ 64)

-- The sample is from the future, or stale.
unfoldable pub is_unusable : ℕ → ℕ → Bool
is_unusable now ts =
    ltb_ℤ (feed_age now ts) (pos 0) || ltb_ℤ (pos settle_max_age_sec) (feed_age now ts)

abbrev pub is_current : Option Order → Bool
is_current none = false
is_current (some o) = is_open o.status

abbrev pub is_empty : Map Pending → Bool
is_empty [] = true
is_empty (x ∷ m) = false

module _ (env : Env) where
  unfoldable pub settle_order : Order → Exec (Unit {0})
  settle_order o = do
    outcome ← settle_with_retry env o
    if outcome.0 then (with_store env (mark_executed o.id) >> pure tt) else pure tt

  -- A round of the loop of tick: the order is settled if it is still open.
  unfoldable pub settle_current : Order → Exec (Unit {0})
  settle_current o = do
    current ← read_store env (get o.id)
    if is_current current then settle_order o else pure tt

  -- The loop of tick, which ends at the first transaction that stays pending.
  unfoldable pub settle_triggered : List Order → Exec (Unit {0})
  settle_triggered [] = pure tt
  settle_triggered (o ∷ os) = do
    idle ← gets (λ w. is_empty w.pending)
    if idle then (settle_current o >> settle_triggered os) else pure tt

  -- What tick does with a sample that is not stale.
  unfoldable pub tick_at : ℤ → ℕ → Exec (Unit {0})
  tick_at price ts = do
    read_store env open_orders
    with_store env (λ s. (tt {0}, observe_price (some price) (of_unix ts) s))
    triggered ← with_store env (triggered_orders (some price))
    reconcile_pending env (some price)
    settle_triggered triggered

  unfoldable pub tick_sampled : ℤ → ℕ → Exec (Unit {0})
  tick_sampled price ts = do
    now ← read_clock env
    if is_unusable now ts then (reconcile_pending env none >> raise failed) else tick_at price ts

  unfoldable pub tick : Exec (Unit {0})
  tick =
      attempt (current_price env) (λ e. reconcile_pending env none >> raise failed)
        (λ sample. tick_sampled sample.0 sample.1)

  -- So many ticks of Run, which logs their errors.
  unfoldable pub ticks : ℕ → Exec (Unit {0})
  ticks zero = pure tt
  ticks (suc n) = attempt tick (λ e. pure tt) (λ _. pure tt) >> ticks n
