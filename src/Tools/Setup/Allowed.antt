-- ===== src/Tools/Setup/Allowed.antt =====
-- tools/pkg/fccutils/extension.go: what the contracts allow after a set-up. What they promise is a
-- hypothesis, IsContract.
use darkstop.Base.{ℕ, ◌≡◌, refl, subst, inl, Bool, true, false, List, [], ◌∷◌, ltb, length}
use darkstop.Policy.{String}
use darkstop.Tools.{
  Result, ok, Message, Net, Run, Exec, pure, lift, query, within, require, ◌>>=◌, ◌>>◌,
}
use darkstop.Tools.Support.{Support}
use darkstop.Tools.Rules.{
  within_ok, Moves, Ensures, Moves-query, Moves-lift, Moves-pure, Moves-within, Moves-if,
  Moves-require, Keeps-bind, Ensures-within, Ensures-first, Ensures-rest, gives_rest,
  keyed_transactor-Moves, transact-Moves,
}
use darkstop.Tools.Granting.{
  Grant, machine_owner, project_owner, key_type, Grants, grants_machine_owner, grants_project_owner,
  grants_key_type, granted, Has, IsContract, check_tx-Has, comes_through,
}
use darkstop.Tools.Setup.{
  request, send_checked, allow_tee_machine_owners, allow_tee_project_manager_owners,
  add_supported_key_types, add_machine_owner, step_machine_owner, add_project_owner,
  step_project_owner, add_key_type, step_key_type, setup_extension,
}

module _ {W L : Type 0} (net : Net W L) where
  -- The extension id is set up for the deployer, with the key type.
  abbrev pub IsSetUp : ℕ → Support → ℕ → Run W → Type 0
  IsSetUp evm s id run =
      Has net (machine_owner id s.prv) run
      × Has net (project_owner id s.prv) run
      × Has net (key_type id evm) run

module _ {W L : Type 0} (net : Net W L) (c : IsContract net) (evm : ℕ) (s : Support) where
  send_checked-Has :
      (g : Grant) (refused failed : String) (m : Message)
      → Moves (Has net g) (Has net g) (send_checked net evm s refused failed m)
  unfolding send_checked
  send_checked-Has g refused failed m =
      Keeps-bind (Has net g) _ _
        (Moves-within _ _ _ _ (
          transact-Moves net (Has net g) (Has net g) (request s.prv 0 m)
            (λ run h. c.send_keeps (request s.prv 0 m) g run.world h)))
        (λ t. Moves-within _ _ _ _ (check_tx-Has net c g t.0))

  -- A transaction that comes through has done what it asks for.
  send_checked-Ensures :
      (g : Grant) (refused failed : String) (m : Message)
      → Grants m g
      → Ensures (Has net g) (send_checked net evm s refused failed m)
  unfolding send_checked within
  send_checked-Ensures g refused failed m h =
      Ensures-rest (Has net g) _ _ (λ run t receipt sent mined.
        comes_through net c g (request s.prv 0 m) run t receipt h (within_ok _ _ t sent)
          (within_ok _ _ receipt mined))

  -- A step that asks whether the grant holds, and else sends for it.
  asked-Ensures :
      (g : Grant) (e : String) (f : Bool → Exec W (Unit {0}))
      → ((run : Run W) (u : Unit {0}) → Has net g run → Has net g (f true run).1)
      → Ensures (Has net g) (f false)
      → Ensures (Has net g) (within e (query (granted net g)) >>= f)
  unfolding within query
  asked-Ensures g e f old new =
      Ensures-rest (Has net g) _ _
        (λ run b u asked ended. by_answer run b u (within_ok _ _ b asked) ended)
    where
      by_answer :
          (run : Run W) (b : Bool) (u : Unit {0})
          → granted net g run.world ≡ ok b
          → (f b run).0 ≡ ok u
          → Has net g (f b run).1
      by_answer run true u h k = old run u h
      by_answer run false u h k = new.at run u k

  logged-Ensures :
      (g : Grant) (refused failed few bad : String) (m : Message)
      (parse : List L → Result (Unit {0}))
      → Grants m g
      → Ensures (Has net g) (do
        receipt ← send_checked net evm s refused failed m
        require (ltb 0 (length receipt.logs)) few
        within bad (lift (parse receipt.logs)))
  logged-Ensures g refused failed few bad m parse h =
      Ensures-first (Has net g) _ _ (send_checked-Ensures g refused failed m h) (λ receipt.
        Keeps-bind (Has net g) _ _ (Moves-require (Has net g) _ _)
          (λ u. Moves-within _ _ _ _ (Moves-lift (Has net g) _)))

  step_machine_owner-Ensures :
      (id : ℕ) → Ensures (Has net (machine_owner id s.prv)) (step_machine_owner net evm s id)
  unfolding step_machine_owner add_machine_owner allow_tee_machine_owners pure
  step_machine_owner-Ensures id =
      asked-Ensures (machine_owner id s.prv) _ _ (λ run u h. h)
        (Ensures-within _ _ _ (
          logged-Ensures (machine_owner id s.prv) _ _ _ _ _ _
            (grants_machine_owner id s.prv _ (inl refl))))

  step_project_owner-Ensures :
      (id : ℕ) → Ensures (Has net (project_owner id s.prv)) (step_project_owner net evm s id)
  unfolding step_project_owner add_project_owner allow_tee_project_manager_owners pure
  step_project_owner-Ensures id =
      asked-Ensures (project_owner id s.prv) _ _ (λ run u h. h)
        (Ensures-within _ _ _ (
          logged-Ensures (project_owner id s.prv) _ _ _ _ _ _
            (grants_project_owner id s.prv _ (inl refl))))

  add_supported_key_types-Ensures :
      (id : ℕ)
      → Ensures (Has net (key_type id evm)) (add_supported_key_types net evm s id (evm ∷ []))
  unfolding add_supported_key_types
  add_supported_key_types-Ensures id =
      Ensures-rest (Has net (key_type id evm)) _ _ (λ run o u keyed ended.
        (Ensures-first (Has net (key_type id evm)) _ _
            (send_checked-Ensures (key_type id evm) _ _ _ (grants_key_type id evm _ (inl refl)))
            (λ r. Moves-pure (Has net (key_type id evm)) tt)).at
          _ u ended)

  step_key_type-Ensures :
      (id : ℕ) → Ensures (Has net (key_type id evm)) (step_key_type net evm s id)
  unfolding step_key_type add_key_type pure query
  step_key_type-Ensures id =
      Ensures-rest (Has net (key_type id evm)) _ _
        (λ run b u asked ended. by_answer run b u asked ended)
    where
      by_answer :
          (run : Run W) (b : Bool) (u : Unit {0})
          → granted net (key_type id evm) run.world ≡ ok b
          → (add_key_type net evm s id b run).0 ≡ ok u
          → Has net (key_type id evm) (add_key_type net evm s id b run).1
      by_answer run true u h k = h
      by_answer run false u h k = (add_supported_key_types-Ensures id).at run u k

  logged-Has :
      (g : Grant) (refused failed few bad : String) (m : Message)
      (parse : List L → Result (Unit {0}))
      → Moves (Has net g) (Has net g) (do
        receipt ← send_checked net evm s refused failed m
        require (ltb 0 (length receipt.logs)) few
        within bad (lift (parse receipt.logs)))
  logged-Has g refused failed few bad m parse =
      Keeps-bind (Has net g) _ _ (send_checked-Has g refused failed m) (λ receipt.
        Keeps-bind (Has net g) _ _ (Moves-require (Has net g) _ _)
          (λ u. Moves-within _ _ _ _ (Moves-lift (Has net g) _)))

  step_project_owner-Has :
      (g : Grant) (id : ℕ) → Moves (Has net g) (Has net g) (step_project_owner net evm s id)
  unfolding step_project_owner add_project_owner allow_tee_project_manager_owners
  step_project_owner-Has g id =
      Keeps-bind (Has net g) _ _ (Moves-within _ _ _ _ (Moves-query (Has net g) _)) (λ b.
        Moves-if _ _ b _ _ (Moves-pure (Has net g) tt)
          (Moves-within _ _ _ _ (logged-Has g _ _ _ _ _ _)))

  step_key_type-Has :
      (g : Grant) (id : ℕ) → Moves (Has net g) (Has net g) (step_key_type net evm s id)
  unfolding step_key_type add_key_type add_supported_key_types
  step_key_type-Has g id = Keeps-bind (Has net g) _ _ (Moves-query (Has net g) _) (λ b.
      Moves-if _ _ b _ _ (Moves-pure (Has net g) tt) (
        Keeps-bind (Has net g) _ _ (keyed_transactor-Moves (Has net g) s.chain_id) (λ o.
          Keeps-bind (Has net g) _ _ (send_checked-Has g _ _ _) (λ r. Moves-pure (Has net g) tt))))

  -- The steps after the registration.
  abbrev after_register : ℕ → Exec W ℕ
  after_register id = do
    step_machine_owner net evm s id
    step_project_owner net evm s id
    step_key_type net evm s id
    pure id

  after_register-machine_owner :
      (id : ℕ) → Ensures (Has net (machine_owner id s.prv)) (after_register id)
  after_register-machine_owner id =
      let g = machine_owner id s.prv in
      Ensures-first (Has net g) _ _ (step_machine_owner-Ensures id) (λ u.
        Keeps-bind (Has net g) _ _ (step_project_owner-Has g id) (λ v.
          Keeps-bind (Has net g) _ _ (step_key_type-Has g id) (λ x. Moves-pure (Has net g) id)))

  after_register-project_owner :
      (id : ℕ) → Ensures (Has net (project_owner id s.prv)) (after_register id)
  after_register-project_owner id =
      let g = project_owner id s.prv in
      Ensures-rest (Has net g) _ _ (λ run u b e k.
        (Ensures-first (Has net g) _ _ (step_project_owner-Ensures id) (λ v.
            Keeps-bind (Has net g) _ _ (step_key_type-Has g id)
              (λ x. Moves-pure (Has net g) id))).at
          _ b k)

  after_register-key_type : (id : ℕ) → Ensures (Has net (key_type id evm)) (after_register id)
  after_register-key_type id =
      let g = key_type id evm in
      Ensures-rest (Has net g) _ _ (λ run u b e k.
        (Ensures-rest (Has net g) _ _ (λ run u b e k.
            (Ensures-first (Has net g) _ _ (step_key_type-Ensures id)
                (λ x. Moves-pure (Has net g) id)).at
              _ b k)).at
          _ b k)

  after_register_id : (id : ℕ) (run : Run W) (b : ℕ) → (after_register id run).0 ≡ ok b → id ≡ b
  unfolding pure
  after_register_id id =
      gives_rest (λ b run. id ≡ b) _ _
        (λ run u b e k.
          gives_rest (λ b run. id ≡ b) _ _
            (λ run u b e k. gives_rest (λ b run. id ≡ b) _ _ (λ run u b e k. cc) _ b k) _ b k)

  after_register-IsSetUp :
      (id : ℕ) (run : Run W) (b : ℕ)
      → (after_register id run).0 ≡ ok b
      → IsSetUp net evm s b (after_register id run).1
  after_register-IsSetUp id run b h =
      subst (λ i. IsSetUp net evm s i (after_register id run).1) (after_register_id id run b h)
        (
          (after_register-machine_owner id).at run b h,
          (after_register-project_owner id).at run b h,
          (after_register-key_type id).at run b h,
        )

  -- A SetupExtension that succeeds leaves its extension set up: the deployer is allowed as an owner
  -- of its machines and of its wallet projects, and its key type is supported, if the contracts do
  -- what a mined transaction asks for and take nothing back meanwhile.
  pub setup_extension-IsSetUp :
      (sender verifier : ℕ) (run : Run W) (id : ℕ)
      → (setup_extension net evm s sender verifier run).0 ≡ ok id
      → IsSetUp net evm s id (setup_extension net evm s sender verifier run).1
  unfolding setup_extension
  setup_extension-IsSetUp sender verifier = gives_rest (IsSetUp net evm s) _ _ (λ run o b e k.
      gives_rest (IsSetUp net evm s) _ _ (λ run id b e k. after_register-IsSetUp id _ b k) _ b k)
