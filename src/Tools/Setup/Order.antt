-- ===== src/Tools/Setup/Order.antt =====
-- tools/pkg/fccutils/extension.go: the transactions of a set-up, in their order.
use darkstop.Base.{
  ℕ, suc, ◌≤◌, ◌<◌, ◌≡◌, refl, Bool, List, [], ◌∷◌, ltb, length, if◌then◌else◌, arith,
}
use darkstop.Policy.{String}
use darkstop.Tools.{
  Message, register_extension, allow_machine_owners, allow_project_owners, add_key_types,
  register_machine, request_attestation, request_check, to_production, add_tee_version,
  deploy_token, deploy_vault, mint, set_tee_executor, set_extension_id, place_order, Request,
  Result, Net, Run, Exec, pure, lift, within, require, ◌>>=◌, ◌>>◌,
}
use darkstop.Tools.Support.{Support}
use darkstop.Tools.Rules.{
  Moves, Moves-query, Moves-lift, Moves-pure, Moves-within, Moves-if, Moves-weaken, Moves-require,
  Moves-bind, Keeps-bind, keyed_transactor-Moves, transact-Moves, check_tx-Moves,
}
use darkstop.Tools.Setup.{
  request, send_checked, register, allow_tee_machine_owners, allow_tee_project_manager_owners,
  add_supported_key_types, add_machine_owner, step_machine_owner, add_project_owner,
  step_project_owner, add_key_type, step_key_type, setup_extension,
}

-- The step that a message belongs to; 4 is none.
abbrev pub step_of : Message → ℕ
step_of (register_extension verifier sender) = 0
step_of (allow_machine_owners id owners) = 1
step_of (allow_project_owners id owners) = 2
step_of (add_key_types id types) = 3
step_of (register_machine m g p u c) = 4
step_of (request_attestation t c) = 4
step_of (request_check t i e p c) = 4
step_of (to_production p) = 4
step_of (add_tee_version i v c p g) = 4
step_of deploy_token = 4
step_of (deploy_vault e m f p i) = 4
step_of (mint t v a) = 4
step_of (set_tee_executor v e) = 4
step_of (set_extension_id v) = 4
step_of (place_order v c) = 4

-- The transactions are the deployer's, pay nothing, and belong to steps below n: each step has at most
-- one, and a later step's is later.
abbrev pub IsInOrder : ℕ → ℕ → List Request → Type 0
IsInOrder prv n [] = Unit
IsInOrder prv n (r ∷ rs) =
    (step_of r.message < n) × (r.from ≡ prv) × (r.value ≡ 0) × IsInOrder prv (step_of r.message) rs

IsInOrder-weaken :
    (prv m n : ℕ) (rs : List Request) → m ≤ n → IsInOrder prv m rs → IsInOrder prv n rs
IsInOrder-weaken prv m n [] h p = tt
IsInOrder-weaken prv m n (r ∷ rs) h p = (omega arith, p.1, p.2, p.3)

module _ {W L : Type 0} (net : Net W L) (evm : ℕ) (s : Support) where
  -- The transactions so far belong to the first n steps.
  abbrev Before : ℕ → Run W → Type 0
  Before n run = IsInOrder s.prv n run.sent

  Before-next : (n : ℕ) (run : Run W) → Before n run → Before (suc n) run
  Before-next n run h = IsInOrder-weaken s.prv n (suc n) run.sent (omega arith) h

  send_checked-Moves :
      (n : ℕ) (refused failed : String) (m : Message)
      → step_of m ≡ n
      → Moves (Before n) (Before (suc n)) (send_checked net evm s refused failed m)
  unfolding send_checked
  send_checked-Moves n refused failed m e =
      Moves-bind (Before n) (Before (suc n)) (Before (suc n)) _ _ (λ t h. h)
        (Moves-within _ _ refused _ (
          transact-Moves net (Before n) (Before (suc n)) (request s.prv 0 m)
            (λ t h. (omega arith, refl, refl, rw e h))))
        (λ t. Moves-within _ _ failed _ (check_tx-Moves net (Before (suc n)) t.0 (λ u h. h)))

  register-Moves :
      (sender verifier : ℕ) → Moves (Before 0) (Before 1) (register net evm s sender verifier)
  unfolding register
  register-Moves sender verifier =
      Moves-bind (Before 0) (Before 1) (Before 1) _ _ (λ t h. h) (send_checked-Moves 0 _ _ _ refl)
        (λ receipt. Keeps-bind (Before 1) _ _ (Moves-require (Before 1) _ _) (λ u.
          Keeps-bind (Before 1) _ _ (Moves-within _ _ _ _ (Moves-lift (Before 1) _)) (λ id.
            Keeps-bind (Before 1) _ _ (Moves-within _ _ _ _ (Moves-lift (Before 1) _))
              (λ c. Moves-pure (Before 1) id))))

  -- A transaction of the step n whose first log is parsed.
  logged-Moves :
      (n : ℕ) (refused failed few bad : String) (m : Message) (parse : List L → Result (Unit {0}))
      → step_of m ≡ n
      → Moves (Before n) (Before (suc n)) (do
        receipt ← send_checked net evm s refused failed m
        require (ltb 0 (length receipt.logs)) few
        within bad (lift (parse receipt.logs)))
  logged-Moves n refused failed few bad m parse e =
      Moves-bind (Before n) (Before (suc n)) (Before (suc n)) _ _ (λ t h. h)
        (send_checked-Moves n refused failed m e)
        (λ receipt.
          Keeps-bind (Before (suc n)) _ _ (Moves-require (Before (suc n)) _ _)
            (λ u. Moves-within _ _ _ _ (Moves-lift (Before (suc n)) _)))

  -- A step that asks the contracts first, and sends nothing if there is nothing to do.
  optional-Moves :
      (n : ℕ) (b : Bool) (m : Exec W (Unit {0}))
      → Moves (Before n) (Before (suc n)) m
      → Moves (Before n) (Before (suc n)) (if b then pure tt else m)
  optional-Moves n b m h =
      Moves-if (Before n) (Before (suc n)) b (pure tt) m
        (Moves-weaken (Before n) (Before n) (Before (suc n)) (pure tt) (Moves-pure (Before n) tt)
          (Before-next n))
        h

  asked-Moves :
      (n : ℕ) (q : Exec W Bool) (f : Bool → Exec W (Unit {0}))
      → Moves (Before n) (Before n) q
      → ((b : Bool) → Moves (Before n) (Before (suc n)) (f b))
      → Moves (Before n) (Before (suc n)) (q >>= f)
  asked-Moves n q f h k = Moves-bind (Before n) (Before n) (Before (suc n)) q f (Before-next n) h k

  step_machine_owner-Moves :
      (id : ℕ) → Moves (Before 1) (Before 2) (step_machine_owner net evm s id)
  unfolding step_machine_owner add_machine_owner allow_tee_machine_owners
  step_machine_owner-Moves id =
      asked-Moves 1 _ _ (Moves-within _ _ _ _ (Moves-query (Before 1) _))
        (λ b. optional-Moves 1 b _ (Moves-within _ _ _ _ (logged-Moves 1 _ _ _ _ _ _ refl)))

  step_project_owner-Moves :
      (id : ℕ) → Moves (Before 2) (Before 3) (step_project_owner net evm s id)
  unfolding step_project_owner add_project_owner allow_tee_project_manager_owners
  step_project_owner-Moves id =
      asked-Moves 2 _ _ (Moves-within _ _ _ _ (Moves-query (Before 2) _))
        (λ b. optional-Moves 2 b _ (Moves-within _ _ _ _ (logged-Moves 2 _ _ _ _ _ _ refl)))

  add_supported_key_types-Moves :
      (id : ℕ) (types : List ℕ)
      → Moves (Before 3) (Before 4) (add_supported_key_types net evm s id types)
  unfolding add_supported_key_types
  add_supported_key_types-Moves id types =
      Moves-bind (Before 3) (Before 3) (Before 4) _ _ (Before-next 3)
        (keyed_transactor-Moves (Before 3) s.chain_id)
        (λ o.
          Moves-bind (Before 3) (Before 4) (Before 4) _ _ (λ t h. h)
            (send_checked-Moves 3 _ _ _ refl) (λ r. Moves-pure (Before 4) tt))

  step_key_type-Moves : (id : ℕ) → Moves (Before 3) (Before 4) (step_key_type net evm s id)
  unfolding step_key_type add_key_type
  step_key_type-Moves id =
      asked-Moves 3 _ _ (Moves-query (Before 3) _)
        (λ b. optional-Moves 3 b _ (add_supported_key_types-Moves id _))

  setup_extension-Moves :
      (sender verifier : ℕ)
      → Moves (Before 0) (Before 4) (setup_extension net evm s sender verifier)
  unfolding setup_extension
  setup_extension-Moves sender verifier =
      Moves-bind (Before 0) (Before 0) (Before 4) _ _
        (λ t h. IsInOrder-weaken s.prv 0 4 t.sent (omega arith) h)
        (keyed_transactor-Moves (Before 0) s.chain_id)
        (λ o.
          Moves-bind (Before 0) (Before 1) (Before 4) _ _
            (λ t h. IsInOrder-weaken s.prv 1 4 t.sent (omega arith) h)
            (register-Moves sender verifier)
            (λ id.
              Moves-bind (Before 1) (Before 2) (Before 4) _ _
                (λ t h. IsInOrder-weaken s.prv 2 4 t.sent (omega arith) h)
                (step_machine_owner-Moves id)
                (λ u.
                  Moves-bind (Before 2) (Before 3) (Before 4) _ _ (Before-next 3)
                    (step_project_owner-Moves id)
                    (λ v.
                      Moves-bind (Before 3) (Before 4) (Before 4) _ _ (λ t h. h)
                        (step_key_type-Moves id) (λ x. Moves-pure (Before 4) id)))))

  -- Whether SetupExtension fails or not, it sends at most one transaction of each of its four
  -- steps, in the order of the steps, each from the deployer's key and without a value.
  pub setup_extension-IsInOrder :
      (sender verifier : ℕ) (w : W)
      → IsInOrder s.prv 4
          (setup_extension net evm s sender verifier (record { world = w; sent = [] })).1.sent
  setup_extension-IsInOrder sender verifier w =
      (setup_extension-Moves sender verifier).at (record { world = w; sent = [] }) tt
