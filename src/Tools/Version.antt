-- ===== src/Tools/Version.antt =====
-- tools/cmd/allow-tee-version/main.go: a version of the TEE is allowed, unless it is already.
use darkstop.Base.{ℕ, ◌≡◌, refl, Bool, true, false, ◌++◌, if◌then◌else◌, inl}
use darkstop.Policy.{String}
use darkstop.Tools.{
  Result, ok, err, MachineData, Net, Run, Exec, pure, raise, lift, query, within, require, ◌>>=◌,
  ◌>>◌,
}
use darkstop.Tools.Text.{text, contains_text, hash_hex}
use darkstop.Tools.Support.{Support, environment_key}
use darkstop.Tools.Senders.{adds_tee_version}
use darkstop.Tools.Rules.{gives_at, gives_rest, within_ok}
use darkstop.Tools.Granting.{version, grants_version, Has, IsContract, comes_through}

unfoldable pub not_supported : String → ℕ → ℕ → String → String
not_supported name code platform e =
    text "version "
    ++ name
    ++ text " already exists but does not support code hash "
    ++ hash_hex code
    ++ text " on platform "
    ++ hash_hex platform
    ++ text ": "
    ++ e

module _ {W L : Type 0} (net : Net W L) (s : Support) (name : String) (key : ℕ)
    (m : MachineData) where
  abbrev is_supported : Exec W Bool
  is_supported = query (net.is_version_supported m.extension_id m.code_hash m.platform)

  unfoldable pub check_again : String → Exec W (Unit {0})
  check_again e = do
    supported ← is_supported
    require supported (not_supported name m.code_hash m.platform e)

  unfoldable pub on_added : Result (Unit {0}) → Exec W (Unit {0})
  on_added (ok u) = pure tt
  on_added (err e) =
      if contains_text e (text "VersionAlreadyExists") then check_again e else raise e

  unfoldable pub add_version : Exec W (Unit {0})
  add_version run =
      let (r, run') = adds_tee_version net s key m.extension_id m.code_hash m.platform 0 name run in
      on_added r run'

  unfoldable pub add_unless : Bool → Exec W (Unit {0})
  add_unless supported = if supported then pure tt else add_version

unfoldable pub allow_machine :
    {W L : Type 0}
    → Net W L
    → Support
    → Result ℕ
    → (String → Result ℕ)
    → String
    → String
    → MachineData
    → Exec W (Unit {0})
allow_machine net s tee_id parse owner name m = do
  key ← lift (environment_key parse s.prv owner)
  lift tee_id
  supported ← query (net.is_version_supported m.extension_id m.code_hash m.platform)
  add_unless net s name key m supported

-- The program from its support on: an error is fatal. `info` is the proxy's answer, and `tee_id` the
-- address that TeeProxyId finds in it; `parse` is crypto.HexToECDSA, and `owner` the variable
-- EXTENSION_OWNER_KEY.
unfoldable pub allow_tee_version :
    {W L : Type 0}
    → Net W L
    → Support
    → Result MachineData
    → Result ℕ
    → (String → Result ℕ)
    → String
    → String
    → Exec W (Unit {0})
allow_tee_version net s info tee_id parse owner name =
    lift info >>= allow_machine net s tee_id parse owner name

module _ {W L : Type 0} (net : Net W L) (c : IsContract net) (s : Support) (name : String) where
  abbrev Supported : MachineData → Run W → Type 0
  Supported m = Has net (version m.extension_id m.code_hash m.platform)

  module _ (key : ℕ) (m : MachineData) where
    adds_tee_version-Supported :
        (run : Run W) (u : Unit {0})
        → (adds_tee_version net s key m.extension_id m.code_hash m.platform 0 name run).0 ≡ ok u
        → Supported m
            (adds_tee_version net s key m.extension_id m.code_hash m.platform 0 name run).1
    unfolding adds_tee_version within pure
    adds_tee_version-Supported =
        gives_rest (λ u run. Supported m run) _ _
          (λ run o u e k.
            gives_rest (λ u run. Supported m run) _ _
              (λ run t u sent k.
                gives_at (λ u run. Supported m run) _ _ _ u
                  (λ r mined done.
                    comes_through net c (version m.extension_id m.code_hash m.platform) _ run t r
                      (grants_version m.extension_id m.code_hash m.platform 0 name _ (inl refl))
                      (within_ok _ _ t sent) mined)
                  k)
              _ u k)

    check_again-Supported :
        (e : String) (run : Run W) (u : Unit {0})
        → (check_again net s name key m e run).0 ≡ ok u
        → Supported m (check_again net s name key m e run).1
    unfolding check_again query require
    check_again-Supported e =
        gives_rest (λ u run. Supported m run) _ _
          (λ run b u asked given. by_answer run b u asked given)
      where
        by_answer :
            (run : Run W) (b : Bool) (u : Unit {0})
            → net.is_version_supported m.extension_id m.code_hash m.platform run.world ≡ ok b
            → (require b (not_supported name m.code_hash m.platform e) run).0 ≡ ok u
            → Supported m run
        by_answer run true u h k = h
        by_answer run false u h k = cc

    on_added-Supported :
        (r : Result (Unit {0})) (run : Run W) (u : Unit {0})
        → ((a : Unit {0}) → r ≡ ok a → Supported m run)
        → (on_added net s name key m r run).0 ≡ ok u
        → Supported m (on_added net s name key m r run).1
    unfolding on_added pure raise
    on_added-Supported (ok a) run u h k = h a refl
    on_added-Supported (err e) run u h k = by_text (contains_text e (text "VersionAlreadyExists")) k
      where
        by_text :
            (b : Bool)
            → ((if b then check_again net s name key m e else raise e) run).0 ≡ ok u
            → Supported m ((if b then check_again net s name key m e else raise e) run).1
        by_text true k = check_again-Supported e run u k
        by_text false k = cc

    add_unless-Supported :
        (b : Bool) (run : Run W) (u : Unit {0})
        → net.is_version_supported m.extension_id m.code_hash m.platform run.world ≡ ok b
        → (add_unless net s name key m b run).0 ≡ ok u
        → Supported m (add_unless net s name key m b run).1
    unfolding add_unless add_version pure
    add_unless-Supported true run u h k = h
    add_unless-Supported false run u h k =
        on_added-Supported _ _ u (λ a e. adds_tee_version-Supported run a e) k

  allow_machine-IsSupported :
      (tee_id : Result ℕ) (parse : String → Result ℕ) (owner : String) (m : MachineData)
      (run : Run W) (u : Unit {0})
      → (allow_machine net s tee_id parse owner name m run).0 ≡ ok u
      → Supported m (allow_machine net s tee_id parse owner name m run).1
  unfolding allow_machine query
  allow_machine-IsSupported tee_id parse owner m =
      gives_rest (λ u run. Supported m run) _ _
        (λ run key u e k.
          gives_rest (λ u run. Supported m run) _ _
            (λ run t u e k.
              gives_rest (λ u run. Supported m run) _ _
                (λ run b u asked k. add_unless-Supported key m b run u asked k) _ u k)
            _ u k)

  -- If allow-tee-version succeeds, the contracts support the code hash and the platform that the
  -- proxy gave, also where AddTeeVersion failed because a version of that name exists; given
  -- contracts that do what a mined transaction asks for and take nothing back meanwhile.
  pub allow_tee_version-IsSupported :
      (m : MachineData) (tee_id : Result ℕ) (parse : String → Result ℕ) (owner : String)
      (run : Run W) (u : Unit {0})
      → (allow_tee_version net s (ok m) tee_id parse owner name run).0 ≡ ok u
      → Has net
          (version m.extension_id m.code_hash m.platform)
          (allow_tee_version net s (ok m) tee_id parse owner name run).1
  unfolding allow_tee_version ◌>>=◌
  allow_tee_version-IsSupported m tee_id parse owner run u h =
      allow_machine-IsSupported tee_id parse owner m run u h
