-- ===== src/Watcher/Logic.antt =====
-- Rules for the steps of internal/extension/watcher.go: what a step leaves, from what it is given.
use darkstop.Base.{
  ◌⊎◌, inl, inr, refl, ℕ, ◌≡◌, refl, Bool, true, false, Option, none, some, ◌∷◌, if◌then◌else◌,
}
use darkstop.Store.{Store}
use darkstop.Watcher.State.{Env, Watcher, Result, Reply, ok, err, Error, Sent}
use darkstop.Watcher.Exec.{
  Exec, pure, raise, lift, of_type, gets, modify, attempt, ◌>>=◌, awaited, rpc, try_rpc, read_clock,
  read_store, with_store, broadcast,
}

-- `m` keeps `P`, whether it returns or raises.
pub record Keeps (P : Watcher → Type 0) {A : Type 0} (m : Exec A) : Type 0 where
  pub at : (w : Watcher) → P w → P (m w).1

module _ {P : Watcher → Type 0} {A : Type 0} where
  pub Keeps-pure : (a : A) → Keeps P (pure a)
  unfolding pure
  Keeps-pure a = record { at = λ w h. h }

  pub Keeps-raise : (e : Error) → Keeps P (raise {A = A} e)
  unfolding raise
  Keeps-raise e = record { at = λ w h. h }

  pub Keeps-lift : (r : Reply A) → Keeps P (lift r)
  unfolding lift
  Keeps-lift r = record { at = λ w h. h }

  pub Keeps-of_type : (o : Option A) → Keeps P (of_type o)
  unfolding of_type
  Keeps-of_type none = record { at = λ w h. h }
  Keeps-of_type (some a) = record { at = λ w h. h }

  pub Keeps-gets : (f : Watcher → A) → Keeps P (gets f)
  unfolding gets
  Keeps-gets f = record { at = λ w h. h }

  pub Keeps-if : (b : Bool) (m n : Exec A) → Keeps P m → Keeps P n → Keeps P (if b then m else n)
  Keeps-if true m n k l = k
  Keeps-if false m n k l = l

module _ {P : Watcher → Type 0} {A B : Type 0} where
  pub Keeps-attempt :
      (m : Exec A) (failing : Error → Exec B) (passing : A → Exec B)
      → Keeps P m
      → ((e : Error) → Keeps P (failing e))
      → ((a : A) → Keeps P (passing a))
      → Keeps P (attempt m failing passing)
  unfolding attempt
  Keeps-attempt m failing passing k f p = record { at = λ w h. go (m w).0 (m w).1 (k.at w h) }
    where
      go :
          (r : Result Error A) (v : Watcher)
          → P v
          → P
              (elim r as (λ _. Result Error B × Watcher) [
                | ok a ↦ passing a v
                | err e ↦ failing e v
              ]).1
      go (ok a) v h = (p a).at v h
      go (err e) v h = (f e).at v h

  pub Keeps-bind :
      (m : Exec A) (f : A → Exec B) → Keeps P m → ((a : A) → Keeps P (f a)) → Keeps P (m >>= f)
  Keeps-bind m f k l = Keeps-attempt m raise f k (λ e. Keeps-raise e) l

pub Keeps-modify :
    {P : Watcher → Type 0} (f : Watcher → Watcher)
    → ((w : Watcher) → P w → P (f w))
    → Keeps P (modify f)
unfolding modify
Keeps-modify f h = record { at = h }

-- What a property must bear: the other goroutines, and the watcher's own writes to the store.
module _ (env : Env) {P : Watcher → Type 0} {A : Type 0}
    (stable : (w : Watcher) → P w → P (awaited env w)) where
  pub Keeps-rpc : (f : ℕ → Reply A) → Keeps P (rpc env f)
  unfolding rpc
  Keeps-rpc f = record { at = stable }

  pub Keeps-try_rpc : (f : ℕ → Reply A) → Keeps P (try_rpc env f)
  unfolding try_rpc
  Keeps-try_rpc f = record { at = stable }

  pub Keeps-read_store : (f : Store → A) → Keeps P (read_store env f)
  unfolding read_store
  Keeps-read_store f = record { at = stable }

  pub Keeps-with_store :
      (f : Store → A × Store)
      → ((w : Watcher) → P w → P (record w { store = (f w.store).1 }))
      → Keeps P (with_store env f)
  unfolding with_store
  Keeps-with_store f h = record { at = λ w p. h (awaited env w) (stable w p) }

module _ (env : Env) {P : Watcher → Type 0} (stable : (w : Watcher) → P w → P (awaited env w)) where
  pub Keeps-read_clock : Keeps P (read_clock env)
  unfolding read_clock
  Keeps-read_clock = record { at = stable }

  pub Keeps-broadcast :
      (x : Sent) (f : ℕ → Reply (Unit {0}))
      → ((w : Watcher) → P w → P (record w { sent = x ∷ w.sent }))
      → Keeps P (broadcast env x f)
  unfolding broadcast
  Keeps-broadcast x f h = record { at = λ w p. h (awaited env w) (stable w p) }

-- What follows a method of the store is given what the method returns.
module _ (env : Env) {P : Watcher → Type 0} {A B : Type 0}
    (stable : (w : Watcher) → P w → P (awaited env w)) where
  pub Keeps-with_store_bind :
      (f : Store → A × Store) (g : A → Exec B)
      → ((w : Watcher) → P w → P (record w { store = (f w.store).1 }))
      → ((s : Store) → Keeps P (g (f s).0))
      → Keeps P (with_store env f >>= g)
  unfolding attempt with_store
  Keeps-with_store_bind f g h k = record {
    at = λ w p. (k (awaited env w).store).at _ (h (awaited env w) (stable w p));
  }

module _ {A B : Type 0} (m : Exec A) (failing : Error → Exec B) (passing : A → Exec B)
    (w : Watcher) where
  pub attempt-ok : (a : A) → (m w).0 ≡ ok a → attempt m failing passing w ≡ passing a (m w).1
  unfolding attempt
  attempt-ok a e = rw (e, attempt)

  pub attempt-err : (e : Error) → (m w).0 ≡ err e → attempt m failing passing w ≡ failing e (m w).1
  unfolding attempt
  attempt-err x e = rw (e, attempt)

pub Result-cases :
    {E A : Type 0} (r : Result E A) → ((a : A) × (r ≡ ok a)) ⊎ ((e : E) × (r ≡ err e))
Result-cases (ok a) = inl (a, refl)
Result-cases (err e) = inr (e, refl)

pub ruleset keeps_rules = (
  Keeps-pure, Keeps-raise, Keeps-lift, Keeps-of_type, Keeps-gets, Keeps-if, Keeps-attempt,
  Keeps-modify, Keeps-rpc, Keeps-try_rpc, Keeps-read_store, Keeps-with_store, Keeps-read_clock,
  Keeps-broadcast,
)
