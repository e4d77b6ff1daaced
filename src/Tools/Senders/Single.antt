-- ===== src/Tools/Senders/Single.antt =====
-- tools/pkg/fccutils/registration.go: the transactions of the senders.
use darkstop.Base.{ℕ, ◌≡◌, ◌≢◌, refl, ap, subst, ◌∙◌, ◌⊎◌, inl, inr, Bool, List, [], ◌∷◌}
use darkstop.Policy.{String}
use darkstop.Tools.{
  err, Result, ok, gives, MachineData, Proof, register_machine, request_attestation, request_check,
  to_production, add_tee_version, Request, Receipt, Net, Run, Exec, lift, within, require, transact,
  sends, ◌>>=◌, ◌>>◌,
}
use darkstop.Tools.Support.{Support, keyed_transactor, check_tx}
use darkstop.Tools.Rules.{
  Moves, Moves-query, Moves-lift, Moves-pure, Moves-within, Moves-require, Moves-bind, Keeps-bind,
  gives_at, within_ok, keyed_transactor_state, transact-Moves, check_tx-Moves,
}
use darkstop.Tools.Mined.{check_tx_iff}
use darkstop.Tools.Setup.{request}
use darkstop.Tools.Granting.{accepted_gives}
use darkstop.Tools.Senders.{
  registration_value, signature_of, pre_registration, request_tee_attestation,
  request_ftdc_availability_check, puts_to_production, adds_tee_version,
}

module _ {W L : Type 0} (net : Net W L) where
  -- The chain accepts the transaction in this state, and it is mined without a revert.
  abbrev pub ComesThrough : Request → W → Type 0
  ComesThrough r w =
      (t : ℕ × ℕ) × (receipt : Receipt L) × ((net.send r w).0 ≡ gives t)
      × ((net.wait_mined t.0 (net.send r w).1).0 ≡ ok receipt)
      × (receipt.status ≢ 0)

  -- An action from a state has failed with at most the one transaction asked for, or has succeeded with
  -- it, and then it came through.
  abbrev pub Sends : {A : Type 0} → Run W → Request → Result A × Run W → Type 0
  Sends run r (ok a, after) = (after.sent ≡ r ∷ run.sent) × ComesThrough r run.world
  Sends run r (err e, after) = (after.sent ≡ run.sent) ⊎ (after.sent ≡ r ∷ run.sent)

  outcome_of :
      {A : Type 0} (run : Run W) (r : Request) (x : Result A × Run W)
      → ((x.1.sent ≡ run.sent) ⊎ (x.1.sent ≡ r ∷ run.sent))
        × ((a : A) → x.0 ≡ ok a → (x.1.sent ≡ r ∷ run.sent) × ComesThrough r run.world)
      → Sends run r x
  outcome_of run r (ok a, after) h = h.1 a refl
  outcome_of run r (err e, after) h = h.0

  -- The action asks for the one transaction, or for none; if it succeeds it has asked for it, and it came
  -- through.
  abbrev IsSingle : {A : Type 0} → Request → Exec W A → Type 0
  IsSingle {A} r m =
      (run : Run W)
      → (((m run).1.sent ≡ run.sent) ⊎ ((m run).1.sent ≡ r ∷ run.sent))
        × ((a : A) → (m run).0 ≡ ok a → ((m run).1.sent ≡ r ∷ run.sent) × ComesThrough r run.world)

  abbrev Sent : List Request → Run W → Type 0
  Sent rs run = run.sent ≡ rs

  abbrev NoneOrOne : Request → List Request → Run W → Type 0
  NoneOrOne r rs run = (run.sent ≡ rs) ⊎ (run.sent ≡ r ∷ rs)

  module _ {B : Type 0} (r : Request) (e : String) (after : Receipt L → Exec W B) where
    abbrev sending : Exec W B
    sending = within e (transact net r) >>= λ t. check_tx net t.0 >>= after

    sending-Moves :
        (rs : List Request)
        → ((receipt : Receipt L) → Moves (Sent (r ∷ rs)) (Sent (r ∷ rs)) (after receipt))
        → Moves (Sent rs) (Sent (r ∷ rs)) sending
    sending-Moves rs k =
        Moves-bind (Sent rs) (Sent (r ∷ rs)) (Sent (r ∷ rs)) _ _ (λ s h. h)
          (Moves-within _ _ _ _ (transact-Moves net (Sent rs) (Sent (r ∷ rs)) r (λ s h. cc)))
          (λ t.
            Keeps-bind (Sent (r ∷ rs)) _ _ (check_tx-Moves net (Sent (r ∷ rs)) t.0 (λ s h. h)) k)

    sending-ComesThrough : (run : Run W) (b : B) → (sending run).0 ≡ ok b → ComesThrough r run.world
    unfolding within transact sends
    sending-ComesThrough run b =
        gives_at (λ b s. ComesThrough r run.world) _ _ run b
          (λ t sent k.
            gives_at (λ b s. ComesThrough r run.world) _ _ _ b
              (λ receipt mined k'.
                let wait = (check_tx_iff net t.0 _ receipt).0 mined in
                (t, receipt, accepted_gives _ t (within_ok e _ t sent), wait.0, wait.1))
              k)

    sending-IsSingle :
        ((rs : List Request) (receipt : Receipt L)
          → Moves (Sent (r ∷ rs)) (Sent (r ∷ rs)) (after receipt))
        → IsSingle r sending
    sending-IsSingle k run =
        let sent = (sending-Moves run.sent (k run.sent)).at run refl in
        (inr sent, λ b h. (sent, sending-ComesThrough run b h))

  -- An action that only looks, before one that sends.
  looks_first :
      {A B : Type 0} (r : Request) (look : Exec W A) (m : Exec W B)
      → ((run : Run W) → (look run).1 ≡ run)
      → IsSingle r m
      → IsSingle r (look >>= λ _. m)
  looks_first r look m h k run = (
    (Moves-bind (Sent run.sent) (Sent run.sent) (NoneOrOne r run.sent) _ _ (λ s p. inl p)
          (record { at = λ s p. ap (λ (s : Run W). s.sent) (h s) ∙ p })
          (λ u. record { at = λ s p. subst (λ rs. NoneOrOne r rs (m s).1) p (k s).0 })).at
        run refl,
    λ b.
        gives_at (λ b s. (s.sent ≡ r ∷ run.sent) × ComesThrough r run.world) _ _ run b
          (λ u looked sent. rw (h run) ((k run).1 b (rw (h run) at sent))),
  )

  module _ (s : Support) where
    -- After the key, the transaction and the waiting, an action that keeps what was sent.
    keyed :
        {B : Type 0} (r : Request) (e : String) (after : Receipt L → Exec W B)
        → ((rs : List Request) (receipt : Receipt L) → Moves (Sent rs) (Sent rs) (after receipt))
        → IsSingle r (keyed_transactor s.chain_id >>= λ _. sending r e after)
    keyed r e after k =
        looks_first r (keyed_transactor s.chain_id) _ (keyed_transactor_state s.chain_id)
          (sending-IsSingle r e after (λ rs. k (r ∷ rs)))

    pre_registration-IsSingle :
        (turn : List ℕ → List ℕ) (url : String) (proxy : ℕ) (m : MachineData) (sig : List ℕ)
        → IsSingle
            (request s.prv registration_value
              (register_machine m (signature_of (turn sig)) proxy url s.prv))
            (pre_registration net s turn url proxy m sig)
    unfolding pre_registration require
    pre_registration-IsSingle turn url proxy m sig =
        looks_first _ (keyed_transactor s.chain_id) _ (keyed_transactor_state s.chain_id) (
          looks_first _ (require _ _) _ (λ run. refl)
            (sending-IsSingle _ _ _ (λ rs receipt.
              Keeps-bind (Sent _) _ _ (Moves-require (Sent _) _ _) (λ u.
                Keeps-bind (Sent _) _ _ (Moves-within _ _ _ _ (Moves-lift (Sent _) _)) (λ c.
                  Keeps-bind (Sent _) _ _ (Moves-within _ _ _ _ (Moves-lift (Sent _) _))
                    (λ id. Moves-pure (Sent _) _))))))

    logged :
        (rs : List Request) (b : Bool) (few bad : String) (parse : Result ℕ)
        → Moves (Sent rs) (Sent rs) (require b few >> within bad (lift parse))
    logged rs b few bad parse =
        Keeps-bind (Sent rs) _ _ (Moves-require (Sent rs) _ _)
          (λ u. Moves-within _ _ _ _ (Moves-lift (Sent rs) _))

    request_tee_attestation-IsSingle :
        (tee_id : ℕ)
        → IsSingle
            (request s.prv registration_value (request_attestation tee_id s.prv))
            (request_tee_attestation net s tee_id)
    unfolding request_tee_attestation
    request_tee_attestation-IsSingle tee_id = keyed _ _ _ (λ rs receipt. logged rs _ _ _ _)

    request_ftdc_availability_check-IsSingle :
        (tee external attest : ℕ)
        → IsSingle
            (request s.prv registration_value (request_check tee attest external s.prv s.prv))
            (request_ftdc_availability_check net s tee external attest)
    unfolding request_ftdc_availability_check
    request_ftdc_availability_check-IsSingle tee external attest =
        keyed _ _ _ (λ rs receipt. logged rs _ _ _ _)

    puts_to_production-IsSingle :
        (proof : Proof)
        → IsSingle (request s.prv 0 (to_production proof)) (puts_to_production net s proof)
    unfolding puts_to_production
    puts_to_production-IsSingle proof = keyed _ _ _ (λ rs receipt.
        Keeps-bind (Sent rs) _ _ (Moves-query (Sent rs) _) (λ id. Moves-require (Sent rs) _ _))

    adds_tee_version-IsSingle :
        (key id code platform governance : ℕ) (version : String)
        → IsSingle
            (request key 0 (add_tee_version id version code (platform ∷ []) governance))
            (adds_tee_version net s key id code platform governance version)
    unfolding adds_tee_version
    adds_tee_version-IsSingle key id code platform governance version =
        keyed _ _ _ (λ rs receipt. Moves-pure (Sent rs) tt)

    -- PreRegistration, RequestTeeAttestation, RequestFTDCAvailabilityCheck and ToProduction send at
    -- most the one transaction that each is for, with its value, also if they fail. One that
    -- succeeds has sent it, the chain accepted it, and it was mined with a status that is not 0.
    pub senders-Sends :
        (turn : List ℕ → List ℕ) (url : String) (m : MachineData) (sig : List ℕ) (proof : Proof)
        (tee proxy external attest : ℕ) (run : Run W)
        → Sends run
            (request s.prv registration_value
              (register_machine m (signature_of (turn sig)) proxy url s.prv))
            (pre_registration net s turn url proxy m sig run)
          × Sends run
              (request s.prv registration_value (request_attestation tee s.prv))
              (request_tee_attestation net s tee run)
          × Sends run
              (request s.prv registration_value (request_check tee attest external s.prv s.prv))
              (request_ftdc_availability_check net s tee external attest run)
          × Sends run (request s.prv 0 (to_production proof)) (puts_to_production net s proof run)
    senders-Sends turn url m sig proof tee proxy external attest run = (
      outcome_of run _ _ (pre_registration-IsSingle turn url proxy m sig run),
      outcome_of run _ _ (request_tee_attestation-IsSingle tee run),
      outcome_of run _ _ (request_ftdc_availability_check-IsSingle tee external attest run),
      outcome_of run _ _ (puts_to_production-IsSingle proof run),
    )
