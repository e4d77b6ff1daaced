-- ===== src/Tools/Orders/Placed.antt =====
-- tools/pkg/utils/instructions.go: what a successful SendPlaceOrder has done.
use darkstop.Base.{ℕ, ◌≡◌, ◌≢◌, refl, sym, ap, subst, ◌∙◌, Bool, List, ◌∷◌, arith}
use darkstop.Policy.{String}
use darkstop.Tools.{
  Result, ok, err, Answer, gives, refuses, Message, place_order, Request, Receipt, Net, Run, Exec,
  pure, raise, lift, query, within, require, prefixed, continue, sends, waits, ◌>>=◌, ◌>>◌,
}
use darkstop.Tools.Text.{text}
use darkstop.Tools.Support.{Support}
use darkstop.Tools.Rules.{gives_at, keyed_transactor_state}
use darkstop.Tools.Setup.{request}
use darkstop.Tools.Orders.{
  ids_of, is_successful, sent_or_reason, simulate_vault_call, calls_vault, mined_call,
  place_order_failed, send_place_order,
}
use darkstop.Base.Last.{IsLast}
use darkstop.Tools.Orders.Logs.{order_in, instruction_in, ids_of_iff}

module _ {W L : Type 0} (net : Net W L) (s : Support) (packs : Message → Bool) where
  sent_lem :
      (refused : String) (vault value : ℕ) (m : Message) (a : Answer (ℕ × ℕ)) (run : Run W)
      → ((sent_or_reason net s packs refused vault value m a run).1 ≡ run)
        × ((tx : ℕ)
            → (sent_or_reason net s packs refused vault value m a run).0 ≡ ok tx
            → (t : ℕ × ℕ) × (a ≡ gives t) × (t.0 ≡ tx))
  unfolding pure raise
  sent_lem refused vault value m (gives t) run = (refl, λ tx h. (t, refl, cc))
  sent_lem refused vault value m (refuses e) run = (refl, λ tx h. cc)

  mined_wait :
      (failed : String → ℕ → String) (e : String) (reason : W → String) (run : Run W)
      (r : Result (Receipt L)) (receipt : Receipt L)
      → (continue
          (prefixed e r)
          (λ receipt. query (λ w. ok (reason w)) >>= λ reason.
            require (is_successful receipt) (failed reason receipt.status) >> pure receipt)
          run).0
        ≡ ok receipt
      → (r ≡ ok receipt) × (receipt.status ≡ 1)
  unfolding ◌>>=◌ require
  mined_wait failed e reason run (ok q) receipt h = ground arith
  mined_wait failed e reason run (err x) receipt h = cc

  mined_state :
      (failed : String → ℕ → String) (e : String) (reason : W → String) (run : Run W)
      (r : Result (Receipt L))
      → (continue
          (prefixed e r)
          (λ receipt. query (λ w. ok (reason w)) >>= λ reason.
            require (is_successful receipt) (failed reason receipt.status) >> pure receipt)
          run).1
        ≡ run
  unfolding ◌>>=◌ require
  mined_state failed e reason run (ok q) = ground arith
  mined_state failed e reason run (err x) = refl

  -- What a call of SendPlaceOrder in a state has done, by its result.
  abbrev pub IsPlaced : ℕ → List ℕ → ℕ → W → ℕ × ℕ × ℕ → Type 0
  IsPlaced vault ciphertext value w (instruction, order, hash) =
      let r = request s.prv value (place_order vault ciphertext) in
      (t : ℕ × ℕ) × (receipt : Receipt L) × ((net.send r w).0 ≡ gives t)
      × ((net.wait_mined t.0 (net.send r w).1).0 ≡ ok receipt)
      × (receipt.status ≡ 1)
      × (receipt.tx_hash ≡ hash)
      × IsLast (order_in net) receipt.logs order
      × IsLast (instruction_in net) receipt.logs instruction
      × (instruction ≢ 0)

  called_state :
      (refused : String) (vault value : ℕ) (m : Message) (run : Run W)
      → (calls_vault net s packs refused vault value m run).1 ≡ record {
        world = (net.send (request s.prv value m) run.world).1;
        sent = request s.prv value m ∷ run.sent;
      }
  unfolding calls_vault sends
  called_state refused vault value m run =
      (sent_lem refused vault value m (net.send (request s.prv value m) run.world).0 (record {
        world = (net.send (request s.prv value m) run.world).1;
        sent = request s.prv value m ∷ run.sent;
      })).0

  called :
      (refused : String) (vault value : ℕ) (m : Message) (run : Run W) (tx : ℕ)
      → (calls_vault net s packs refused vault value m run).0 ≡ ok tx
      → (t : ℕ × ℕ) × ((net.send (request s.prv value m) run.world).0 ≡ gives t) × (t.0 ≡ tx)
  unfolding calls_vault sends
  called refused vault value m run tx h =
      (sent_lem refused vault value m (net.send (request s.prv value m) run.world).0 (record {
        world = (net.send (request s.prv value m) run.world).1;
        sent = request s.prv value m ∷ run.sent;
      })).1
        tx h

  module _ (failed : String → ℕ → String) (vault value : ℕ) (m : Message) (tx : ℕ) where
    mined_call_state :
        (run : Run W)
        → (mined_call net s packs failed vault value m tx run).1
          ≡ record run { world = (net.wait_mined tx run.world).1 }
    unfolding mined_call waits within ◌>>=◌
    mined_call_state run =
        mined_state failed _ (simulate_vault_call net s packs vault value m)
          (record run { world = (net.wait_mined tx run.world).1 }) (net.wait_mined tx run.world).0

    mined_call_wait :
        (run : Run W) (receipt : Receipt L)
        → (mined_call net s packs failed vault value m tx run).0 ≡ ok receipt
        → ((net.wait_mined tx run.world).0 ≡ ok receipt) × (receipt.status ≡ 1)
    unfolding mined_call waits within ◌>>=◌
    mined_call_wait run receipt h =
        mined_wait failed _ (simulate_vault_call net s packs vault value m)
          (record run { world = (net.wait_mined tx run.world).1 }) (net.wait_mined tx run.world).0
          receipt h

  module _ (vault : ℕ) (ciphertext : List ℕ) (value : ℕ) where
    abbrev order_request : Request
    order_request = request s.prv value (place_order vault ciphertext)

    abbrev Done : Run W → ℕ × ℕ × ℕ → Run W → Type 0
    Done run ids after =
        IsPlaced vault ciphertext value run.world ids × (after.sent ≡ order_request ∷ run.sent)

    -- SendPlaceOrder after the vault is bound and the key is there.
    abbrev placing : Exec W (ℕ × ℕ × ℕ)
    placing = do
      tx ←
          calls_vault net s packs (text "failed to place order: ") vault value
            (place_order vault ciphertext)
      receipt ←
          mined_call net s packs (place_order_failed net s packs) vault value
            (place_order vault ciphertext) tx
      ids ← lift (ids_of net receipt.logs)
      pure (ids.0, ids.1, receipt.tx_hash)

    -- From the states after the sending and after the waiting.
    gathered :
        (run sent waited : Run W) (tx : ℕ) (t : ℕ × ℕ) (receipt : Receipt L) (found : ℕ × ℕ)
        (ids : ℕ × ℕ × ℕ)
        → sent
          ≡ record { world = (net.send order_request run.world).1; sent = order_request ∷ run.sent }
        → (net.send order_request run.world).0 ≡ gives t
        → t.0 ≡ tx
        → (net.wait_mined tx sent.world).0 ≡ ok receipt
        → receipt.status ≡ 1
        → waited ≡ record sent { world = (net.wait_mined tx sent.world).1 }
        → ids_of net receipt.logs ≡ ok found
        → (found.0, found.1, receipt.tx_hash) ≡ ids
        → Done run ids waited
    gathered run sent waited tx t receipt found ids es ge et wait status ew ei e =
        let w : (net.wait_mined t.0 (net.send order_request run.world).1).0 ≡ ok receipt =
          ap (λ n. (net.wait_mined n (net.send order_request run.world).1).0) et
          ∙ ap (λ (r : Run W). (net.wait_mined tx r.world).0) (sym es)
          ∙ wait in
        let last = (ids_of_iff net receipt.logs found.0 found.1).0 ei in
        subst (λ ids. Done run ids waited) e
          (
            (t, receipt, ge, w, status, refl, last.0, last.1, last.2),
            ap (λ (r : Run W). r.sent) ew ∙ ap (λ (r : Run W). r.sent) es,
          )

    placing-Done :
        (run : Run W) (ids : ℕ × ℕ × ℕ) → (placing run).0 ≡ ok ids → Done run ids (placing run).1
    unfolding lift pure
    placing-Done run ids = gives_at (Done run) _ _ run ids (λ tx sent k.
        gives_at (Done run) _ _ _ ids
          (λ receipt mined k.
            gives_at (Done run) _ _ _ ids
              (λ found e k.
                let message = place_order vault ciphertext in
                let accepted = called _ vault value message run tx sent in
                let wait = mined_call_wait _ vault value message tx _ receipt mined in
                gathered run _ _ tx accepted.0 receipt found ids
                  (called_state _ vault value message run) accepted.1 accepted.2 wait.0 wait.1
                  (mined_call_state _ vault value message tx _) e (cc))
              k)
          k)

  -- A SendPlaceOrder that succeeds has sent one transaction, the placing of the ciphertext with the
  -- value, which the chain accepted and mined with status 1. It gives the receipt's hash, the
  -- order's id of the last log that is an OrderPlaced, and the instruction's id of the last of the
  -- other logs that has one, which is not zero.
  pub send_place_order-IsPlaced :
      (bound : Result (Unit {0})) (vault : ℕ) (ciphertext : List ℕ) (value : ℕ) (run : Run W)
      (ids : ℕ × ℕ × ℕ)
      → (send_place_order net s packs bound vault ciphertext value run).0 ≡ ok ids
      → IsPlaced vault ciphertext value run.world ids
        × ((send_place_order net s packs bound vault ciphertext value run).1.sent
            ≡ request s.prv value (place_order vault ciphertext) ∷ run.sent)
  unfolding send_place_order within lift
  send_place_order-IsPlaced bound vault ciphertext value run ids =
      gives_at (Done vault ciphertext value run) _ _ run ids (λ u e.
        gives_at (Done vault ciphertext value run) _ _ run ids (λ o e k.
          rw (keyed_transactor_state s.chain_id run) (
            placing-Done vault ciphertext value run ids
              (rw (keyed_transactor_state s.chain_id run) at k))))
