-- ===== src/Watcher/Exec.antt =====
-- Steps of the watcher of internal/extension/watcher.go: each takes the state, and gives a result or
-- an error with the state that it leaves.
use darkstop.Base.{ℕ, suc, Option, none, some, ◌∷◌}
use darkstop.Store.{Store}
use darkstop.Store.History.{called_all}
use darkstop.Watcher.State.{Env, Watcher, Result, Reply, ok, err, Error, failed, Sent}

abbrev pub Exec : Type 0 → Type 0
Exec A = Watcher → Result Error A × Watcher

unfoldable pub pure : {A : Type 0} → A → Exec A
pure a w = (ok a, w)

unfoldable pub raise : {A : Type 0} → Error → Exec A
raise e w = (err e, w)

abbrev pub as_result : {A : Type 0} → Reply A → Result Error A
as_result (ok a) = ok a
as_result (err e) = err failed

unfoldable pub lift : {A : Type 0} → Reply A → Exec A
lift r w = (as_result r, w)

-- A type assertion.
unfoldable pub of_type : {A : Type 0} → Option A → Exec A
unfolding pure raise
of_type none = raise failed
of_type (some a) = pure a

-- The call, then what follows its error and its result.
unfoldable pub attempt : {A B : Type 0} → Exec A → (Error → Exec B) → (A → Exec B) → Exec B
attempt m failing passing w = elim (m w).0 [ ok a ↦ passing a (m w).1 | err e ↦ failing e (m w).1 ]

infixl 5 ◌>>=◌ ◌>>◌
abbrev pub ◌>>=◌ : {A B : Type 0} → Exec A → (A → Exec B) → Exec B
m >>= f = attempt m raise f

abbrev pub ◌>>◌ : {A B : Type 0} → Exec A → Exec B → Exec B
m >> k = attempt m raise (λ _. k)

-- The watcher's own fields.
unfoldable pub gets : {A : Type 0} → (Watcher → A) → Exec A
gets f w = (ok (f w), w)

unfoldable pub modify : (Watcher → Watcher) → Exec (Unit {0})
modify f w = (ok tt, f w)

module _ (env : Env) where
  -- Another goroutine may have the store here.
  unfoldable pub awaited : Watcher → Watcher
  awaited w = record w { store = called_all (env.handlers w.calls) w.store; calls = suc w.calls }

  -- A call of the client, or of the clock.
  unfoldable pub rpc : {A : Type 0} → (ℕ → Reply A) → Exec A
  unfolding awaited
  rpc f w = (as_result (f w.calls), awaited w)

  -- time.Now(), or a sleep
  unfoldable pub read_clock : Exec ℕ
  unfolding awaited
  read_clock w = (ok (env.clock w.calls), awaited w)

  -- A call of the client whose error is looked at.
  unfoldable pub try_rpc : {A : Type 0} → (ℕ → Reply A) → Exec (Reply A)
  unfolding awaited
  try_rpc f w = (ok (f w.calls), awaited w)

  -- A method of the store that only reads.
  unfoldable pub read_store : {A : Type 0} → (Store → A) → Exec A
  unfolding awaited
  read_store f w = (ok (f (awaited w).store), awaited w)

  -- A method of the store that writes.
  unfoldable pub with_store : {A : Type 0} → (Store → A × Store) → Exec A
  unfolding awaited
  with_store f w = let w' = awaited w in (ok (f w'.store).0, record w' { store = (f w'.store).1 })

  -- SendTransaction, with the order and the trigger that the transaction is for.
  unfoldable pub broadcast : Sent → (ℕ → Reply (Unit {0})) → Exec (Unit {0})
  unfolding awaited
  broadcast x f w = let w' = awaited w in (as_result (f w.calls), record w' { sent = x ∷ w'.sent })
