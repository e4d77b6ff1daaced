-- ===== src/Tools/Rules.antt =====
-- Rules for the actions of the tools: what an action leads to, whether it fails or not, and what it
-- ensures if it does not fail.
use darkstop.Base.{ℕ, ◌≡◌, refl, Bool, true, false, Option, none, some, ◌∷◌, ◌==◌, if◌then◌else◌}
use darkstop.Policy.{String}
use darkstop.Tools.{
  Result, ok, err, Request, Receipt, Net, Run, Exec, pure, raise, lift, query, within, prefixed,
  require, sends, transact, waits, continue, ◌>>=◌,
}
use darkstop.Tools.Support.{
  keyed_transactor, get_failing_message, not_mined, fail_with_reason, checked_receipt, check_tx,
}

pub within_ok : {A : Type 0} (e : String) (r : Result A) (a : A) → prefixed e r ≡ ok a → r ≡ ok a
within_ok e (ok b) a h = h
within_ok e (err x) a h = cc

module _ {W A : Type 0} where
  -- From a state with P the action leads to one with Q, also if it fails.
  pub record Moves (P Q : Run W → Type 0) (m : Exec W A) : Type 0 where
    pub at : (s : Run W) → P s → Q (m s).1

  -- If the action does not fail, the state after it has Q.
  pub record Ensures (Q : Run W → Type 0) (m : Exec W A) : Type 0 where
    pub at : (s : Run W) (a : A) → (m s).0 ≡ ok a → Q (m s).1

  pub Moves-query : (P : Run W → Type 0) (f : W → Result A) → Moves P P (query f)
  unfolding query
  Moves-query P f = record { at = λ s h. h }

  pub Moves-lift : (P : Run W → Type 0) (r : Result A) → Moves P P (lift r)
  unfolding lift
  Moves-lift P r = record { at = λ s h. h }

  pub Moves-pure : (P : Run W → Type 0) (a : A) → Moves P P (pure a)
  unfolding pure
  Moves-pure P a = record { at = λ s h. h }

  pub Moves-raise : (P : Run W → Type 0) (e : String) → Moves P P (raise {A = A} e)
  unfolding raise
  Moves-raise P e = record { at = λ s h. h }

  pub Moves-within :
      (P Q : Run W → Type 0) (e : String) (m : Exec W A) → Moves P Q m → Moves P Q (within e m)
  unfolding within
  Moves-within P Q e m h = record { at = λ s p. h.at s p }

  pub Moves-if :
      (P Q : Run W → Type 0) (b : Bool) (m n : Exec W A)
      → Moves P Q m
      → Moves P Q n
      → Moves P Q (if b then m else n)
  Moves-if P Q true m n h k = h
  Moves-if P Q false m n h k = k

  pub Moves-weaken :
      (P Q R : Run W → Type 0) (m : Exec W A)
      → Moves P Q m
      → ((s : Run W) → Q s → R s)
      → Moves P R m
  Moves-weaken P Q R m h w = record { at = λ s p. w (m s).1 (h.at s p) }

  pub Ensures-within :
      (Q : Run W → Type 0) (e : String) (m : Exec W A) → Ensures Q m → Ensures Q (within e m)
  unfolding within
  Ensures-within Q e m h = record { at = λ s a k. h.at s a (within_ok e (m s).0 a k) }

pub Moves-require :
    {W : Type 0} (P : Run W → Type 0) (b : Bool) (e : String) → Moves P P (require b e)
unfolding require
Moves-require P b e = record { at = λ s h. h }

pub keyed_transactor_state :
    {W : Type 0} (o : Option ℕ) (run : Run W) → (keyed_transactor o run).1 ≡ run
unfolding pure raise
keyed_transactor_state none run = refl
keyed_transactor_state (some id) run = refl

pub keyed_transactor-Moves :
    {W : Type 0} (P : Run W → Type 0) (o : Option ℕ) → Moves P P (keyed_transactor o)
keyed_transactor-Moves P none = Moves-raise P _
keyed_transactor-Moves P (some id) = Moves-pure P id

module _ {W A B : Type 0} where
  continue-Moves :
      (Q R : Run W → Type 0) (f : A → Exec W B)
      → ((a : A) → Moves Q R (f a))
      → ((s : Run W) → Q s → R s)
      → (r : Result A) (s : Run W) → Q s
      → R (continue r f s).1
  continue-Moves Q R f h w (ok a) s q = (h a).at s q
  continue-Moves Q R f h w (err e) s q = w s q

  -- An action that fails skips the rest, so what it leads to must do for the whole.
  pub Moves-bind :
      (P Q R : Run W → Type 0) (m : Exec W A) (f : A → Exec W B)
      → ((s : Run W) → Q s → R s)
      → Moves P Q m
      → ((a : A) → Moves Q R (f a))
      → Moves P R (m >>= f)
  unfolding ◌>>=◌
  Moves-bind P Q R m f w h k = record {
    at = λ s p. continue-Moves Q R f k w (m s).0 (m s).1 (h.at s p);
  }

  pub Keeps-bind :
      (P : Run W → Type 0) (m : Exec W A) (f : A → Exec W B)
      → Moves P P m
      → ((a : A) → Moves P P (f a))
      → Moves P P (m >>= f)
  Keeps-bind P m f h k = Moves-bind P P P m f (λ s p. p) h k

  continue-Ensures :
      (Q : Run W → Type 0) (f : A → Exec W B)
      → ((a : A) → Moves Q Q (f a))
      → (r : Result A) (s : Run W) (b : B) → ((a : A) → r ≡ ok a → Q s)
      → (continue r f s).0 ≡ ok b
      → Q (continue r f s).1
  continue-Ensures Q f k (ok a) s b q e = (k a).at s (q a refl)
  continue-Ensures Q f k (err x) s b q e = cc

  -- What an action ensures stays, if the rest keeps it.
  pub Ensures-first :
      (Q : Run W → Type 0) (m : Exec W A) (f : A → Exec W B)
      → Ensures Q m
      → ((a : A) → Moves Q Q (f a))
      → Ensures Q (m >>= f)
  unfolding ◌>>=◌
  Ensures-first Q m f h k = record {
    at = λ s b e. continue-Ensures Q f k (m s).0 (m s).1 b (h.at s) e;
  }

  continue_rest :
      (Q : Run W → Type 0) (f : A → Exec W B)
      → (r : Result A) (s : Run W) (b : B) → ((a : A) → r ≡ ok a → (f a s).0 ≡ ok b → Q (f a s).1)
      → (continue r f s).0 ≡ ok b
      → Q (continue r f s).1
  continue_rest Q f (ok a) s b k e = k a refl e
  continue_rest Q f (err x) s b k e = cc

  -- The rest may use that the action gave its value.
  pub Ensures-rest :
      (Q : Run W → Type 0) (m : Exec W A) (f : A → Exec W B)
      → ((s : Run W) (a : A) (b : B) → (m s).0 ≡ ok a → (f a (m s).1).0 ≡ ok b → Q (f a (m s).1).1)
      → Ensures Q (m >>= f)
  unfolding ◌>>=◌
  Ensures-rest Q m f k = record {
    at = λ s b e. continue_rest Q f (m s).0 (m s).1 b (λ a q r. k s a b q r) e;
  }

  given_rest :
      (Q : B → Run W → Type 0) (f : A → Exec W B)
      → (r : Result A) (s : Run W) (b : B) → ((a : A) → r ≡ ok a → (f a s).0 ≡ ok b → Q b (f a s).1)
      → (continue r f s).0 ≡ ok b
      → Q b (continue r f s).1
  given_rest Q f (ok a) s b k e = k a refl e
  given_rest Q f (err x) s b k e = cc

  -- The same of the value that the whole gives.
  pub gives_rest :
      (Q : B → Run W → Type 0) (m : Exec W A) (f : A → Exec W B)
      → ((s : Run W) (a : A) (b : B)
          → (m s).0 ≡ ok a
          → (f a (m s).1).0 ≡ ok b
          → Q b (f a (m s).1).1)
      → (s : Run W) (b : B) → ((m >>= f) s).0 ≡ ok b
      → Q b ((m >>= f) s).1
  unfolding ◌>>=◌
  gives_rest Q m f k s b e = given_rest Q f (m s).0 (m s).1 b (λ a q r. k s a b q r) e

  -- The same from one state.
  pub gives_at :
      (Q : B → Run W → Type 0) (m : Exec W A) (f : A → Exec W B) (s : Run W) (b : B)
      → ((a : A) → (m s).0 ≡ ok a → (f a (m s).1).0 ≡ ok b → Q b (f a (m s).1).1)
      → ((m >>= f) s).0 ≡ ok b
      → Q b ((m >>= f) s).1
  unfolding ◌>>=◌
  gives_at Q m f s b k e = given_rest Q f (m s).0 (m s).1 b k e

module _ {W L : Type 0} (net : Net W L) where
  pub transact-Moves :
      (P Q : Run W → Type 0) (r : Request)
      → ((s : Run W) → P s → Q (record { world = (net.send r s.world).1; sent = r ∷ s.sent }))
      → Moves P Q (transact net r)
  unfolding transact sends
  transact-Moves P Q r h = record { at = λ s p. h s p }

  pub waits-Moves :
      (P Q : Run W → Type 0) (tx : ℕ)
      → ((s : Run W) → P s → Q (record s { world = (net.wait_mined tx s.world).1 }))
      → Moves P Q (waits net tx)
  unfolding waits
  waits-Moves P Q tx h = record { at = λ s p. h s p }

  fail_with_reason-Moves : (P : Run W → Type 0) (tx : ℕ) → Moves P P (fail_with_reason net tx)
  unfolding fail_with_reason get_failing_message
  fail_with_reason-Moves P tx =
      Keeps-bind P _ _
        (Keeps-bind P _ _ (Moves-query P (net.find_transaction tx)) (λ a. Moves-query P _))
        (λ a. Moves-raise P _)

  checked_receipt-Moves :
      (P : Run W → Type 0) (tx : ℕ) (r : Receipt L) → Moves P P (checked_receipt net tx r)
  unfolding checked_receipt
  checked_receipt-Moves P tx r =
      Moves-if P P (r.status == 0) (fail_with_reason net tx) (pure r) (fail_with_reason-Moves P tx)
        (Moves-pure P r)

  -- Only the waiting of CheckTx takes time.
  pub check_tx-Moves :
      (P : Run W → Type 0) (tx : ℕ)
      → ((s : Run W) → P s → P (record s { world = (net.wait_mined tx s.world).1 }))
      → Moves P P (check_tx net tx)
  unfolding check_tx
  check_tx-Moves P tx h =
      Keeps-bind P (within (not_mined net tx) (waits net tx)) (checked_receipt net tx)
        (Moves-within P P (not_mined net tx) (waits net tx) (waits-Moves P P tx h))
        (checked_receipt-Moves P tx)
