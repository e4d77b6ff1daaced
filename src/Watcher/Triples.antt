-- ===== src/Watcher/Triples.antt =====
-- Steps of internal/extension/watcher.go that go from one condition to another, their results told apart.
use darkstop.Base.{ℕ, Bool, true, false, if◌then◌else◌, Option, none, some}
use darkstop.Store.{Store}
use darkstop.Watcher.Logic.{Keeps}
use darkstop.Watcher.State.{Env, Watcher, Result, Reply, ok, err, Error, failed, unresolved}
use darkstop.Watcher.Exec.{
  Exec, pure, raise, lift, of_type, as_result, gets, modify, attempt, ◌>>=◌, ◌>>◌, awaited, rpc,
  try_rpc, read_clock, read_store, with_store,
}

-- From a state with `P`, `m` leaves a result and a state with `Q`.
pub record Triple (P : Watcher → Type 0) {A : Type 0} (m : Exec A)
    (Q : Result Error A → Watcher → Type 0) : Type 0 where
  pub at : (w : Watcher) → P w → Q (m w).0 (m w).1

-- What a step keeps, whatever its result.
pub kept : {P : Watcher → Type 0} {A : Type 0} {m : Exec A} → Keeps P m → Triple P m (λ _. P)
kept k = record { at = k.at }

-- The result is no pendingTransactionError.
abbrev pub IsPlain : {A : Type 0} → Result Error A → Type 0
IsPlain (ok a) = Unit
IsPlain (err failed) = Unit
IsPlain (err (unresolved p)) = ⊥

-- `m` keeps `P`, and its error is none of the watcher's own.
abbrev pub Plain : (Watcher → Type 0) → {A : Type 0} → Exec A → Type 0
Plain P m = Triple P m (λ r w. IsPlain r × P w)

module _ {P : Watcher → Type 0} {A B : Type 0} where
  pub Triple-attempt :
      {Q : Result Error B → Watcher → Type 0} (R : Result Error A → Watcher → Type 0) (m : Exec A)
      (failing : Error → Exec B) (passing : A → Exec B)
      → Triple P m R
      → ((e : Error) → Triple (R (err e)) (failing e) Q)
      → ((a : A) → Triple (R (ok a)) (passing a) Q)
      → Triple P (attempt m failing passing) Q
  unfolding attempt
  Triple-attempt {Q = Q} R m failing passing t f p = record {
    at = λ w h. go (m w).0 (m w).1 (t.at w h);
  }
    where
      after : Result Error A → Watcher → Result Error B × Watcher
      after r v = elim r as (λ _. Result Error B × Watcher) [
        | ok a ↦ passing a v
        | err e ↦ failing e v
      ]

      go : (r : Result Error A) (v : Watcher) → R r v → Q (after r v).0 (after r v).1
      go (ok a) v h = (p a).at v h
      go (err e) v h = (f e).at v h

  -- A plain step, then the rest.
  pub Triple-bind :
      {Q : Result Error B → Watcher → Type 0} (m : Exec A) (f : A → Exec B)
      → Plain P m
      → ((w : Watcher) → P w → Q (err failed) w)
      → ((a : A) → Triple P (f a) Q)
      → Triple P (m >>= f) Q
  unfolding raise
  Triple-bind {Q = Q} m f t k p =
      Triple-attempt (λ r w. IsPlain r × P w) m raise f t (λ e. record { at = λ w h. fails e w h })
        (λ a. record { at = λ w h. (p a).at w h.1 })
    where
      fails : (e : Error) (w : Watcher) → IsPlain {A = A} (err e) × P w → Q (err e) w
      fails failed w h = k w h.1
      fails (unresolved p) w h = absurd h.0

as_result-IsPlain : {A : Type 0} (r : Reply A) → IsPlain (as_result r)
as_result-IsPlain (ok a) = tt
as_result-IsPlain (err e) = tt

module _ {P : Watcher → Type 0} {A : Type 0} where
  pub Plain-lift : (r : Reply A) → Plain P (lift r)
  unfolding lift
  Plain-lift (ok a) = record { at = λ w h. (tt, h) }
  Plain-lift (err e) = record { at = λ w h. (tt, h) }

  pub Plain-gets : (f : Watcher → A) → Plain P (gets f)
  unfolding gets
  Plain-gets f = record { at = λ w h. (tt, h) }

  pub Plain-pure : (a : A) → Plain P (pure a)
  unfolding pure
  Plain-pure a = record { at = λ w h. (tt, h) }

  pub Plain-raise : Plain P (raise {A = A} failed)
  unfolding raise
  Plain-raise = record { at = λ w h. (tt, h) }

  pub Plain-of_type : (o : Option A) → Plain P (of_type o)
  unfolding of_type
  Plain-of_type none = record { at = λ w h. (tt, h) }
  Plain-of_type (some a) = record { at = λ w h. (tt, h) }

  module _ (env : Env) (stable : (w : Watcher) → P w → P (awaited env w)) where
    pub Plain-rpc : (f : ℕ → Reply A) → Plain P (rpc env f)
    unfolding rpc
    Plain-rpc f = record { at = λ w h. (as_result-IsPlain (f w.calls), stable w h) }

    pub Plain-try_rpc : (f : ℕ → Reply A) → Plain P (try_rpc env f)
    unfolding try_rpc
    Plain-try_rpc f = record { at = λ w h. (tt, stable w h) }

    pub Plain-read_store : (f : Store → A) → Plain P (read_store env f)
    unfolding read_store
    Plain-read_store f = record { at = λ w h. (tt, stable w h) }

    pub Plain-with_store :
        (f : Store → A × Store)
        → ((w : Watcher) → P w → P (record w { store = (f w.store).1 }))
        → Plain P (with_store env f)
    unfolding with_store
    Plain-with_store f k = record { at = λ w h. (tt, k (awaited env w) (stable w h)) }

module _ {P : Watcher → Type 0} where
  pub Plain-modify : (f : Watcher → Watcher) → ((w : Watcher) → P w → P (f w)) → Plain P (modify f)
  unfolding modify
  Plain-modify f k = record { at = λ w h. (tt, k w h) }

  pub Plain-read_clock :
      (env : Env) → ((w : Watcher) → P w → P (awaited env w)) → Plain P (read_clock env)
  unfolding read_clock
  Plain-read_clock env stable = record { at = λ w h. (tt, stable w h) }

-- Steps that cannot fail, then the rest.
module _ {P : Watcher → Type 0} {A B : Type 0} {Q : Result Error B → Watcher → Type 0} where
  pub Triple-gets :
      (f : Watcher → A) (g : A → Exec B) → ((a : A) → Triple P (g a) Q) → Triple P (gets f >>= g) Q
  unfolding attempt gets
  Triple-gets f g k = record { at = λ w h. (k (f w)).at w h }

  module _ (env : Env) (stable : (w : Watcher) → P w → P (awaited env w)) where
    pub Triple-try_rpc :
        (f : ℕ → Reply A) (g : Reply A → Exec B)
        → ((r : Reply A) → Triple P (g r) Q)
        → Triple P (try_rpc env f >>= g) Q
    unfolding attempt try_rpc
    Triple-try_rpc f g k = record { at = λ w h. (k (f w.calls)).at _ (stable w h) }

    pub Triple-read_store :
        (f : Store → A) (g : A → Exec B)
        → ((a : A) → Triple P (g a) Q)
        → Triple P (read_store env f >>= g) Q
    unfolding attempt read_store
    Triple-read_store f g k = record { at = λ w h. (k _).at _ (stable w h) }

    pub Triple-with_store :
        (f : Store → A × Store) (g : A → Exec B)
        → ((w : Watcher) → P w → P (record w { store = (f w.store).1 }))
        → ((a : A) → Triple P (g a) Q)
        → Triple P (with_store env f >>= g) Q
    unfolding attempt with_store
    Triple-with_store f g s k = record { at = λ w h. (k _).at _ (s _ (stable w h)) }

module _ {P R : Watcher → Type 0} {B : Type 0} {Q : Result Error B → Watcher → Type 0} where
  pub Triple-modify :
      (f : Watcher → Watcher) (m : Exec B)
      → ((w : Watcher) → P w → R (f w))
      → Triple R m Q
      → Triple P (modify f >> m) Q
  unfolding attempt modify
  Triple-modify f m s k = record { at = λ w h. k.at (f w) (s w h) }

module _ {P : Watcher → Type 0} {B : Type 0} {Q : Result Error B → Watcher → Type 0} where
  pub Triple-read_clock :
      (env : Env) (stable : (w : Watcher) → P w → P (awaited env w)) (g : ℕ → Exec B)
      → ((now : ℕ) → Triple P (g now) Q)
      → Triple P (read_clock env >>= g) Q
  unfolding attempt read_clock
  Triple-read_clock env stable g k = record { at = λ w h. (k _).at _ (stable w h) }

  pub Triple-if :
      (b : Bool) (m n : Exec B) → Triple P m Q → Triple P n Q → Triple P (if b then m else n) Q
  Triple-if true m n k l = k
  Triple-if false m n k l = l
