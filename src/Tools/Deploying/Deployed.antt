-- ===== src/Tools/Deploying/Deployed.antt =====
-- tools/cmd/deploy-contract/main.go: the transactions of a deployment.
use darkstop.Base.{
  ℕ, ◌≡◌, ◌≢◌, refl, sym, ap, ◌∙◌, length, arith, subst, ◌⊎◌, inl, inr, Bool-cases, Bool, true,
  false, Option, none, some, List, [], ◌∷◌, ◌++◌,
}
use darkstop.Deploy.Site.{
  Client, min_deploy_balance, address_not_zero, address_has_code, key_has_funds,
}
use darkstop.Policy.{String}
use darkstop.Tools.{
  Result, ok, Answer, Message, deploy_token, deploy_vault, mint, set_tee_executor, Request, Net,
  Run, pure, within, require, transact, ◌>>=◌,
}
use darkstop.Tools.Support.{Support}
use darkstop.Tools.Setup.{request}
use darkstop.Tools.Rules.{
  Moves, Moves-query, Moves-lift, Moves-pure, Moves-within, Moves-require, Moves-bind, Keeps-bind,
  gives_at, keyed_transactor_state, transact-Moves, waits-Moves,
}
use darkstop.Tools.Orders.{Value, resolve_ftso_v2, wait_mined_ok, sends_and_waits}
use darkstop.Tools.Deploying.{
  payout_pool, DeployInfo, preflight, deploying, deploy_unless, deploy_contract,
}

ok_inj : (a b : Option DeployInfo) → ◌≡◌ {A = Result (Option DeployInfo)} (ok a) (ok b) → a ≡ b
ok_inj a b h = cc

module _ {W L : Type 0} (net : Net W L) (s : Support) where
  abbrev Sent : List Request → Run W → Type 0
  Sent rs run = run.sent ≡ rs

  wait_mined_ok-Moves :
      (rs : List Request) (tx : ℕ) (what : String)
      → Moves (Sent rs) (Sent rs) (wait_mined_ok net s tx what)
  unfolding wait_mined_ok
  wait_mined_ok-Moves rs tx what =
      Keeps-bind (Sent rs) _ _
        (Moves-within _ _ _ _ (waits-Moves net (Sent rs) (Sent rs) tx (λ s h. h)))
        (λ r. Moves-require (Sent rs) _ _)

  -- A transaction that succeeds has been sent.
  sends_and_waits_sent :
      (refused what : String) (m : Message) (rs : List Request) (run : Run W) (a : ℕ)
      → Sent rs run
      → (sends_and_waits net s refused what m run).0 ≡ ok a
      → Sent (request s.prv 0 m ∷ rs) (sends_and_waits net s refused what m run).1
  unfolding sends_and_waits within
  sends_and_waits_sent refused what m rs run a h =
      let r = request s.prv 0 m in
      gives_at (λ a. Sent (r ∷ rs)) _ _ run a
        (λ o keyed. rw (keyed_transactor_state s.chain_id run) (λ k.
          (Moves-bind (Sent rs) (Sent (r ∷ rs)) (Sent (r ∷ rs)) (within refused (transact net r))
              (λ t. wait_mined_ok net s t.0 what >>= λ u. pure t.1) (λ s h. h)
              (Moves-within _ _ _ _
                (transact-Moves net (Sent rs) (Sent (r ∷ rs)) r (λ s h. ap (λ q. r ∷ q) h)))
              (λ t.
                Keeps-bind (Sent (r ∷ rs)) _ _ (wait_mined_ok-Moves (r ∷ rs) t.0 what)
                  (λ u. Moves-pure (Sent (r ∷ rs)) t.1))).at
            run h))

  module _ (client : Client) (fee : ℕ) where
    preflight-Moves :
        (rs : List Request) (call : W → Answer (List ℕ)) (unpack : List ℕ → Result Value)
        → Moves (Sent rs) (Sent rs) (preflight net s client fee call unpack)
    unfolding preflight resolve_ftso_v2
    preflight-Moves rs call unpack = Keeps-bind (Sent rs) _ _ (Moves-require (Sent rs) _ _) (λ u.
        Keeps-bind (Sent rs) _ _ (Moves-require (Sent rs) _ _) (λ u.
          Keeps-bind (Sent rs) _ _ (Moves-require (Sent rs) _ _) (λ u.
            Keeps-bind (Sent rs) _ _
              (Keeps-bind (Sent rs) _ _ (Moves-query (Sent rs) _) (λ res.
                Keeps-bind (Sent rs) _ _ (Moves-within _ _ _ _ (Moves-lift (Sent rs) _))
                  (λ v. Moves-lift (Sent rs) _)))
              (λ ftso.
                Keeps-bind (Sent rs) _ _ (Moves-require (Sent rs) _ _)
                  (λ u. Moves-pure (Sent rs) ftso)))))

    -- The transactions of a deployment, the last one first.
    abbrev pub stages : DeployInfo → List Request
    stages info =
        request s.prv 0 (set_tee_executor info.dark_stop_vault info.tee_executor)
        ∷ request s.prv 0 (mint info.mock_usdt0 info.dark_stop_vault payout_pool)
        ∷ request s.prv 0 (
            deploy_vault s.addresses.flare_tee_manager s.addresses.flare_tee_manager info.ftso_v2
              info.mock_usdt0 info.instruction_fee)
        ∷ request s.prv 0 deploy_token
        ∷ []

    abbrev pub IsDeployed : List Request → ℕ → Option DeployInfo → Run W → Type 0
    IsDeployed rs ftso none run = ⊥
    IsDeployed rs ftso (some info) run =
        (info.ftso_v2 ≡ ftso)
        × (info.tee_executor ≡ s.prv)
        × (info.instruction_fee ≡ fee)
        × (run.sent ≡ stages info ++ rs)

    given :
        (rs : List Request) (ftso : ℕ) (info : DeployInfo) (o : Option DeployInfo) (after : Run W)
        → some info ≡ o
        → IsDeployed rs ftso (some info) after
        → IsDeployed rs ftso o after
    given rs ftso info o after e h = subst (λ o. IsDeployed rs ftso o after) e h

    deploying-IsDeployed :
        (ftso : ℕ) (rs : List Request) (run : Run W) (o : Option DeployInfo)
        → Sent rs run
        → (deploying net s client fee ftso run).0 ≡ ok o
        → IsDeployed rs ftso o (deploying net s client fee ftso run).1
    unfolding deploying pure
    deploying-IsDeployed ftso rs run o h = gives_at (IsDeployed rs ftso) _ _ run o (λ token e1.
        gives_at (IsDeployed rs ftso) _ _ _ o (λ vault e2.
          gives_at (IsDeployed rs ftso) _ _ _ o (λ u e3.
            gives_at (IsDeployed rs ftso) _ _ _ o (λ v e4 k.
              let first = sends_and_waits_sent _ _ _ rs _ token h e1 in
              let second = sends_and_waits_sent _ _ _ _ _ vault first e2 in
              let third = sends_and_waits_sent _ _ _ _ _ u second e3 in
              let fourth = sends_and_waits_sent _ _ _ _ _ v third e4 in
              given rs ftso _ o _ (ok_inj _ o k) (refl, refl, refl, fourth)))))

    -- The checks before a deployment.
    abbrev pub IsChecked : Type 0
    IsChecked =
        (address_not_zero s.addresses.flare_tee_manager ≡ true)
        × (address_has_code (some client) s.addresses.flare_tee_manager ≡ true)
        × (key_has_funds (some client) s.prv min_deploy_balance ≡ true)

    unchecked :
        (call : W → Answer (List ℕ)) (unpack : List ℕ → Result Value) (b : Bool) (run : Run W)
        → IsChecked ⊎ ((deploy_contract net s client fee call unpack b run).1.sent ≡ run.sent)
    unfolding deploy_contract preflight require ◌>>=◌
    unchecked call unpack b run =
        elim (Bool-cases (address_not_zero s.addresses.flare_tee_manager)) [
          | inr bad ↦ inr (rw bad refl)
          | inl first ↦
              elim (Bool-cases (address_has_code (some client) s.addresses.flare_tee_manager)) [
                | inr bad ↦ inr (rw first (rw bad refl))
                | inl second ↦
                    elim (Bool-cases (key_has_funds (some client) s.prv min_deploy_balance)) [
                      | inr bad ↦ inr (rw first (rw second (rw bad refl)))
                      | inl third ↦ inl (first, second, third)
                    ]
              ]
        ]

    only_checked :
        (call : W → Answer (List ℕ)) (unpack : List ℕ → Result Value) (run : Run W)
        → (deploy_contract net s client fee call unpack true run).1.sent ≡ run.sent
    unfolding deploy_contract deploy_unless
    only_checked call unpack run =
        (Keeps-bind (Sent run.sent) _ _ (preflight-Moves run.sent call unpack)
            (λ ftso. Moves-pure (Sent run.sent) none)).at
          run refl

    deployed :
        (call : W → Answer (List ℕ)) (unpack : List ℕ → Result Value) (run : Run W)
        (o : Option DeployInfo)
        → (deploy_contract net s client fee call unpack false run).0 ≡ ok o
        → (ftso : ℕ) × IsDeployed run.sent ftso o
            (deploy_contract net s client fee call unpack false run).1
    unfolding deploy_contract deploy_unless
    deployed call unpack run o =
        gives_at (λ o after. (ftso : ℕ) × IsDeployed run.sent ftso o after) _ _ run o
          (λ ftso e k. (
            ftso,
            deploying-IsDeployed ftso run.sent _ o
                ((preflight-Moves run.sent call unpack).at run refl) k,
          ))

    -- What is sent is sent after the checks, and not if the program is only to check.
    deploy_contract-IsChecked :
        (call : W → Answer (List ℕ)) (unpack : List ℕ → Result Value) (b : Bool) (run : Run W)
        → (deploy_contract net s client fee call unpack b run).1.sent ≢ run.sent
        → IsChecked × (b ≡ false)
    deploy_contract-IsChecked call unpack true run h = absurd (h (only_checked call unpack run))
    deploy_contract-IsChecked call unpack false run h = elim (unchecked call unpack false run) [
      | inl good ↦ (good, refl)
      | inr same ↦ absurd (h same)
    ]

    longer : (info : DeployInfo) (rs : List Request) → stages info ++ rs ≢ rs
    longer info rs e = absurd (omega (arith, ap length e))

    gives_none :
        (call : W → Answer (List ℕ)) (unpack : List ℕ → Result Value) (run : Run W)
        (o : Option DeployInfo)
        → (deploy_contract net s client fee call unpack true run).0 ≡ ok o
        → o ≡ none
    unfolding deploy_contract deploy_unless pure
    gives_none call unpack run o =
        gives_at (λ o after. o ≡ none) _ _ run o (λ ftso e k. sym (ok_inj none o k))

    -- A deploy-contract that reports a deployment was not asked for the validation only, and its
    -- checks passed: the manager's address is not zero and has code, and the deployer holds 0.01
    -- ETH. It has sent exactly the four transactions of the deployment, in order, for the addresses
    -- that it reports, with the deployer as the executor and the fee that it was given.
    pub deploy_contract-IsDeployed :
        (call : W → Answer (List ℕ)) (unpack : List ℕ → Result Value) (b : Bool) (run : Run W)
        (info : DeployInfo)
        → (deploy_contract net s client fee call unpack b run).0 ≡ ok (some info)
        → IsChecked
          × (b ≡ false)
          × (info.tee_executor ≡ s.prv)
          × (info.instruction_fee ≡ fee)
          × ((deploy_contract net s client fee call unpack b run).1.sent ≡ stages info ++ run.sent)
    deploy_contract-IsDeployed call unpack true run info h =
        cc (gives_none call unpack run (some info) h)
    deploy_contract-IsDeployed call unpack false run info h =
        let d = deployed call unpack run (some info) h in
        let c =
          deploy_contract-IsChecked call unpack false run
            (λ same. longer info run.sent (sym d.1.3 ∙ same)) in
        (c.0, refl, d.1.1, d.1.2, d.1.3)
