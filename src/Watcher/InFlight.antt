-- ===== src/Watcher/InFlight.antt =====
-- internal/extension/watcher.go: the transaction in flight when an order is reconciled.
use darkstop.Base.{ℕ, ◌≡◌, refl, inl, inr, Bool, Option, none, some, arith}
use darkstop.Base.Big.{ℤ}
use darkstop.Base.Map.{lookup, insert, delete}
use darkstop.Watcher.State.{Env, Watcher, Pending, Error, failed}
use darkstop.Watcher.Exec.{Exec, awaited, pure, raise, modify, ◌>>=◌}
use darkstop.Watcher.Logic.{
  Keeps, Keeps-gets, Keeps-lift, Keeps-of_type, Keeps-rpc, Keeps-read_clock, Keeps-broadcast,
  Keeps-bind, Keeps-pure, Keeps-raise, Keeps-modify,
}
use darkstop.Watcher.Triples.{Triple, kept, Triple-attempt, Triple-if}
use darkstop.Watcher.Chain.{on_chain_order_status, ensure_chain_id, chain_id_or_fetched}
use darkstop.Watcher.Nonce.{release_nonce}
use darkstop.Watcher.Reconcile.{is_foreign, finished, owned_nonce, retracked, replace_pending}
use darkstop.Watcher.Serial.{Idle, Flying, Serial}

-- A step that leaves at most one transaction in flight, whatever its result.
abbrev pub Ends : (Watcher → Type 0) → {A : Type 0} → Exec A → Type 0
Ends P m = Triple P m (λ _. Serial)

pub pure-Ends : {A : Type 0} (a : A) → Ends Idle (pure a)
unfolding pure
pure-Ends a = record { at = λ w h. inl h }

raise-Ends : {A : Type 0} (e : Error) → Ends Idle (raise {A = A} e)
unfolding raise
raise-Ends e = record { at = λ w h. inl h }

module _ (env : Env) where
  pub Serial-awaited : (w : Watcher) → Serial w → Serial (awaited env w)
  unfolding awaited
  Serial-awaited w h = h

  pub Flying-awaited :
      (id : ℕ) (p : Pending) (w : Watcher) → Flying id p w → Flying id p (awaited env w)
  unfolding awaited
  Flying-awaited id p w h = h

  module _ (id : ℕ) (p : Pending) where
    -- The order's nonce comes free with its transaction.
    pub finished-Idle : (c : Bool) (w : Watcher) → Flying id p w → Idle (finished id p c w)
    unfolding finished release_nonce lookup delete
    finished-Idle c w h = ground arith

    owned_nonce-Flying : (w : Watcher) → Flying id p w → Flying id p (owned_nonce id p.nonce w)
    unfolding insert delete
    owned_nonce-Flying w h = ground arith

    pub retracked-Flying :
        (q : Pending) (w : Watcher)
        → q.nonce ≡ p.nonce
        → Flying id p w
        → Flying id q (retracked id q w)
    unfolding insert delete
    retracked-Flying q w e h = ground arith

    -- What a failing step leaves in flight.
    pub still : {A : Type 0} {m : Exec A} → Keeps (Flying id p) m → Ends (Flying id p) m
    still k = record { at = λ w h. inr (id, p, k.at w h) }

    pub finish-Ends : (c : Bool) → Ends (Flying id p) (modify (finished id p c))
    unfolding modify
    finish-Ends c = record { at = λ w h. inl (finished-Idle c w h) }

    ensure_chain_id-Flying : Keeps (Flying id p) (ensure_chain_id env)
    unfolding ensure_chain_id
    ensure_chain_id-Flying = Keeps-bind _ _ (Keeps-gets _) fetched
      where
        fetched : (known : Option ℤ) → Keeps (Flying id p) (chain_id_or_fetched env known)
        fetched (some x) = unfold chain_id_or_fetched in Keeps-pure tt
        fetched none =
            unfold chain_id_or_fetched in
            Keeps-bind _ _ (Keeps-rpc env (Flying-awaited id p) _) λ x. Keeps-modify _ (λ w h. h)

    pub on_chain_order_status-Flying : Keeps (Flying id p) (on_chain_order_status env id)
    unfolding on_chain_order_status
    on_chain_order_status-Flying = Keeps-bind _ _ (Keeps-lift _) λ input.
        Keeps-bind _ _ (Keeps-rpc env (Flying-awaited id p) _)
          λ output. Keeps-bind _ _ (Keeps-lift _) λ value. Keeps-of_type value

    -- A step that keeps the transaction in flight, then one that ends well.
    then-Ends :
        {A B : Type 0} (m : Exec A) (f : A → Exec B)
        → Keeps (Flying id p) m
        → ((a : A) → Ends (Flying id p) (f a))
        → Ends (Flying id p) (m >>= f)
    then-Ends m f k l =
        Triple-attempt (λ _. Flying id p) m raise f (kept k) (λ e. still (Keeps-raise e)) l

    replaced-Ends : (q : Pending) → q.nonce ≡ p.nonce → Ends (Flying id p) (modify (retracked id q))
    unfolding modify
    replaced-Ends q e = record { at = λ w h. inr (id, q, retracked-Flying q w e h) }

    pub replace_pending-Ends : (t : ℤ) → Ends (Flying id p) (replace_pending env id p t)
    unfolding replace_pending
    replace_pending-Ends t = then-Ends _ _ (Keeps-gets _) λ owner.
        Triple-if (is_foreign id owner) _ _ (still (Keeps-raise failed)) (
          then-Ends _ _ (Keeps-modify _ owned_nonce-Flying) λ _.
            then-Ends _ _ (Keeps-lift _) λ input.
              then-Ends _ _ (Keeps-rpc env (Flying-awaited id p) _) λ suggested.
                then-Ends _ _ (Keeps-rpc env (Flying-awaited id p) _) λ gas.
                  then-Ends _ _ ensure_chain_id-Flying λ _. then-Ends _ _ (Keeps-gets _) λ chain_id.
                    then-Ends _ _ (Keeps-lift _) λ signed.
                      then-Ends _ _ (Keeps-broadcast env (Flying-awaited id p) _ _ (λ w h. h)) λ _.
                        then-Ends _ _ (Keeps-read_clock env (Flying-awaited id p))
                          λ now. replaced-Ends _ refl)
