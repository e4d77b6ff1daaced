-- ===== src/Watcher/Unconfirmed.antt =====
-- internal/extension/watcher.go: settlements on a chain that gives no evidence of them.
use darkstop.Base.{
  ℕ, zero, suc, ◌≡◌, ◌≢◌, refl, Bool, true, false, Option, none, some, List, [], ◌∷◌, Bool-cases,
  if◌then◌else◌, ◌==◌, inl, inr, ==_iff,
}
use darkstop.Base.Big.{ℤ}
use darkstop.Store.{Order, mark_executed}
use darkstop.Watcher.State.{
  Env, Watcher, Pending, Result, Reply, ok, err, Error, failed, unresolved, Signed,
}
use darkstop.Watcher.Exec.{
  Exec, awaited, pure, raise, lift, of_type, with_store, rpc, attempt, as_result, ◌>>=◌, ◌>>◌,
}
use darkstop.Watcher.Logic.{
  Keeps, Keeps-if, Keeps-pure, Keeps-raise, Keeps-bind, Keeps-gets, Keeps-lift, Keeps-rpc,
  Keeps-modify, Keeps-read_store, Keeps-read_clock, Keeps-broadcast,
}
use darkstop.Watcher.Triples.{Triple, kept, Triple-attempt, Triple-if, Triple-read_clock}
use darkstop.Watcher.Chain.{on_chain_order_status}
use darkstop.Watcher.Settle.{
  settle_mined, settle_sent, settle_with, settle_once, settle_attempt, settle_with_retry,
  settle_failed, backoff,
}
use darkstop.Watcher.Tick.{is_current, settle_order, settle_current, settle_triggered}
use darkstop.Watcher.Evidence.{
  IsSilent, P, stable, open-release_nonce, open-release_order_nonce, ensure_chain_id-Keeps,
  reserve_nonce-Keeps,
}

-- A result that is not a certain value.
abbrev pub Avoids : {A : Type 0} → (A → Type 0) → Result Error A → Watcher → Type 0
Avoids Bad (ok a) w = ¬ (Bad a) × P w
Avoids Bad (err e) w = P w

Triple-raise : {B : Type 0} (Bad : B → Type 0) (e : Error) → Triple P (raise {A = B} e) (Avoids Bad)
unfolding raise
Triple-raise Bad e = record { at = λ w h. h }

module _ (env : Env) (s : IsSilent env) where
  -- A step that has no bad result, then the rest.
  Triple-step :
      {A B : Type 0} (Bad : B → Type 0) (m : Exec A) (f : A → Exec B)
      → Keeps P m
      → ((a : A) → Triple P (f a) (Avoids Bad))
      → Triple P (m >>= f) (Avoids Bad)
  Triple-step Bad m f k t = Triple-attempt (λ _. P) m raise f (kept k) (λ e. Triple-raise Bad e) t

  status_read :
      (r : Reply (Option ℕ)) → r ≢ ok (some 2) → Triple P (lift r >>= of_type) (Avoids (λ n. n ≡ 2))
  unfolding attempt lift of_type raise
  status_read (err e) h = record { at = λ w p. p }
  status_read (ok none) h = record { at = λ w p. p }
  status_read (ok (some n)) h = record { at = λ w p. ((λ e. h (e' e)), p) }
    where
      e' : n ≡ 2 → ◌≡◌ {A = Reply (Option ℕ)} (ok (some n)) (ok (some 2))
      e' e = rw e refl

  pub on_chain_order_status-Avoids :
      (id : ℕ) → Triple P (on_chain_order_status env id) (Avoids (λ n. n ≡ 2))
  unfolding on_chain_order_status
  on_chain_order_status-Avoids id = Triple-step _ _ _ (Keeps-lift _) λ input.
      Triple-step _ _ _ (Keeps-rpc env (stable env s) _)
        λ output. status_read (env.unpack_orders output) (s.no_status output)

  receipt_read :
      (hash : ℕ) → Triple P (rpc env (λ k. env.transaction_receipt k hash)) (Avoids (λ n. n ≡ 1))
  unfolding rpc
  receipt_read hash = record {
    at = λ w p.
        go (env.transaction_receipt w.calls hash) w (s.no_receipt w.calls hash) (stable env s w p);
  }
    where
      go :
          (r : Reply ℕ) (w : Watcher)
          → r ≢ ok 1
          → P (awaited env w)
          → Avoids (λ n. n ≡ 1) (as_result r) (awaited env w)
      go (ok n) w h p = ((λ e. h (rw e refl)), p)
      go (err e) w h p = p

  -- settleOnce does not report success.
  abbrev Unconfirmed : Result Error (Unit {0}) → Watcher → Type 0
  Unconfirmed = Avoids (λ _. Unit)

  settle_mined-fails :
      (o : Order) (n status : ℕ)
      → ¬ (status ≡ 1)
      → Triple P (settle_mined env o n status) Unconfirmed
  unfolding settle_mined
  settle_mined-fails o n status h =
      Triple-step _ _ _ (Keeps-modify _ (open-release_nonce env s o.id n true)) λ _.
        elim (Bool-cases (status == 1)) [
          | inl e ↦ absurd (h ((==_iff status 1).0 e))
          | inr e ↦ rw e (Triple-raise _ failed)
        ]

  settle_received-fails :
      (o : Order) (n status : ℕ)
      → Triple (λ w. ¬ (status ≡ 1) × P w) (settle_mined env o n status) Unconfirmed
  settle_received-fails o n status = record {
    at = λ w h. (settle_mined-fails o n status h.0).at w h.1;
  }

  settle_sent-fails :
      (o : Order) (p : Pending) (signed : Signed)
      → Triple P (settle_sent env o p signed) Unconfirmed
  unfolding settle_sent
  settle_sent-fails o p signed =
      Triple-attempt (λ _. P) _ _ _ (kept (Keeps-broadcast env (stable env s) _ _ (λ w h. h)))
        (λ e. Triple-raise _ _)
        λ _.
          Triple-attempt (Avoids (λ n. n ≡ 1)) _ _ _ (receipt_read signed.hash)
            (λ e. Triple-raise _ _) (settle_received-fails o p.nonce)

  settle_with-fails :
      (o : Order) (input : List ℕ) (gas : ℕ) (gas_price : ℤ) (nonce : ℕ)
      → Triple P (settle_with env o input gas gas_price nonce) Unconfirmed
  unfolding settle_with
  settle_with-fails o input gas gas_price nonce = Triple-step _ _ _ (Keeps-gets _) λ chain_id.
      Triple-attempt (λ _. P) _ _ _ (kept (Keeps-lift _))
        (λ e.
          Triple-step _ _ _ (Keeps-modify _ (open-release_nonce env s o.id nonce false))
            (λ _. Triple-raise _ _))
        λ signed.
          Triple-step _ _ _ (Keeps-read_clock env (stable env s))
            λ now. settle_sent-fails o _ signed

  settle_once-fails : (o : Order) → Triple P (settle_once env o) Unconfirmed
  unfolding settle_once
  settle_once-fails o = Triple-step _ _ _ (Keeps-lift _) λ input.
      Triple-step _ _ _ (ensure_chain_id-Keeps env s) λ _.
        Triple-step _ _ _ (Keeps-rpc env (stable env s) _) λ gas_price.
          Triple-step _ _ _ (Keeps-rpc env (stable env s) _) λ gas.
            Triple-step _ _ _ (reserve_nonce-Keeps env s o.id)
              λ nonce. settle_with-fails o input gas gas_price nonce

  -- settleWithRetry does not report that the settlement is confirmed.
  abbrev Confirmed : Bool × Bool → Type 0
  Confirmed outcome = outcome.0 ≡ true

  unconfirmed : (pending : Bool) → Triple P (pure (false, pending)) (Avoids Confirmed)
  unfolding pure
  unconfirmed pending = record { at = λ w h. ((λ e. cc), h) }

  settle_failed-Avoids :
      (left : ℕ) (o : Order) (next : Exec (Bool × Bool)) (e : Error)
      → Triple P next (Avoids Confirmed)
      → Triple P (settle_failed env left o next e) (Avoids Confirmed)
  unfolding settle_failed backoff
  settle_failed-Avoids left o next (unresolved p) t =
      Triple-step _ _ _ (Keeps-modify _ (λ w h. h)) (λ _. unconfirmed true)
  settle_failed-Avoids left o next failed t =
      Triple-if (left == 0) _ _ t (Triple-read_clock env (stable env s) _ (λ _. t))

  Confirmed-never : (m : Exec (Bool × Bool)) → Triple (λ w. ¬ Unit × P w) m (Avoids Confirmed)
  Confirmed-never m = record { at = λ w h. absurd (h.0 tt) }

  settle_attempt-Avoids :
      (left : ℕ) (o : Order) → Triple P (settle_attempt env left o) (Avoids Confirmed)
  unfolding settle_attempt
  settle_attempt-Avoids zero o =
      Triple-step _ _ _ (Keeps-modify _ (open-release_order_nonce env s o.id false))
        (λ _. unconfirmed false)
  settle_attempt-Avoids (suc left) o =
      Triple-attempt (Avoids (λ _. Unit)) _ _ _ (settle_once-fails o)
        (λ e. settle_failed-Avoids left o _ e (settle_attempt-Avoids left o))
        (λ _. Confirmed-never _)

  settle_order-opened : (o : Order) → Triple P (settle_order env o) (λ _. P)
  unfolding settle_order settle_with_retry
  settle_order-opened o =
      Triple-attempt (Avoids Confirmed) _ _ _ (settle_attempt-Avoids _ o)
        (λ e. kept (Keeps-raise e)) λ outcome. unmarked outcome.0
    where
      unmarked :
          (b : Bool)
          → Triple
              (λ w. ¬ (b ≡ true) × P w)
              (if b then (with_store env (mark_executed o.id) >> pure tt) else pure tt)
              (λ _. P)
      unmarked true = record { at = λ w h. absurd (h.0 refl) }
      unmarked false = record { at = λ w h. (Keeps-pure {P = P} tt).at w h.1 }

  settle_current-opened : (o : Order) → Keeps P (settle_current env o)
  unfolding settle_current
  settle_current-opened o = Keeps-bind _ _ (Keeps-read_store env (stable env s) _) λ current.
      Keeps-if (is_current current) _ _ (record { at = (settle_order-opened o).at }) (Keeps-pure tt)

  pub settle_triggered-opened : (os : List Order) → Keeps P (settle_triggered env os)
  unfolding settle_triggered
  settle_triggered-opened [] = Keeps-pure tt
  settle_triggered-opened (o ∷ os) = Keeps-bind _ _ (Keeps-gets _) λ idle.
      Keeps-if idle _ _ (Keeps-bind _ _ (settle_current-opened o) (λ _. settle_triggered-opened os))
        (Keeps-pure tt)
