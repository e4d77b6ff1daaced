-- ===== src/Watcher/Safety.antt =====
-- internal/extension/watcher.go: which settlements a tick broadcasts.
use darkstop.Base.{ℕ, ◌≡◌, Bool, Option, none, some, List, ◌++◌, All, if◌then◌else◌}
use darkstop.Base.Big.{ℤ, ◌≤ℤ◌}
use darkstop.Base.Map.{Map}
use darkstop.Store.{Store}
use darkstop.Watcher.State.{Env, Watcher, failed, Sent}
use darkstop.Watcher.Exec.{Exec, raise, ◌>>◌}
use darkstop.Watcher.Reconcile.{reconcile_pending}
use darkstop.Watcher.Tick.{tick_at}

-- The price is at or below the trigger.
abbrev pub IsAtOrBelow : ℤ → Option ℤ → Type 0
IsAtOrBelow price none = ⊥
IsAtOrBelow price (some t) = price ≤ℤ t

-- The broadcasts after are those before and new ones, each for a trigger that the price is not above.
abbrev pub AddsCrossed : ℤ → List Sent → List Sent → Type 0
AddsCrossed price before after =
    (new : List Sent) × (after ≡ new ++ before) × All (λ x. IsAtOrBelow price x.trigger_price) new

module _ (env : Env) (price : ℤ) (before : List Sent) where
  abbrev Q : List Sent → Type 0
  Q = AddsCrossed price before

module _ (env : Env) where
  -- The sample is tested at the time that the clock gives after it was read.
  abbrev judged : ℤ → ℕ → Bool → Exec (Unit {0})
  judged price ts unusable =
      if unusable then (reconcile_pending env none >> raise failed) else tick_at env price ts
