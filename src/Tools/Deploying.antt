-- ===== src/Tools/Deploying.antt =====
-- tools/cmd/deploy-contract/main.go: the contracts are checked, deployed and set up. The texts of the
-- errors of tools/pkg/validate are shortened, and the files that are written in the end are left out.
pub mod Deployed
use darkstop.Base.{
  ℕ, ◌*◌, ◌≡◌, ◌≢◌, refl, ap, subst, ◌⊎◌, inl, inr, Bool-cases, Bool, true, false, Option, none,
  some, List, [], ◌∷◌, ◌++◌, if◌then◌else◌, arith,
}
use darkstop.Deploy.Site.{
  Client, min_deploy_balance, address_not_zero, address_has_code, key_has_funds,
}
use darkstop.Policy.{String}
use darkstop.Tools.{
  Result, ok, Answer, Message, deploy_token, deploy_vault, mint, set_tee_executor, Request, Net,
  Run, Exec, pure, lift, query, within, require, transact, waits, ◌>>=◌, ◌>>◌,
}
use darkstop.Tools.Text.{text}
use darkstop.Tools.Support.{Support}
use darkstop.Tools.Setup.{request}
use darkstop.Tools.Rules.{
  Moves, Moves-query, Moves-lift, Moves-pure, Moves-within, Moves-require, Moves-bind, Keeps-bind,
  gives_at, keyed_transactor_state, transact-Moves, waits-Moves,
}
use darkstop.Tools.Orders.{
  Value, resolve_ftso_v2, wait_mined_ok, sends_and_waits, deploy_mock_usdt0, deploys_vault,
  mint_payout_pool, sets_tee_executor,
}

-- payoutPool
abbrev pub payout_pool : ℕ
payout_pool = 1_000_000 * 1_000_000

-- deployInfo
pub record DeployInfo : Type 0 where
  pub mock_usdt0 : ℕ
  pub dark_stop_vault : ℕ
  pub ftso_v2 : ℕ
  pub tee_executor : ℕ
  pub instruction_fee : ℕ

-- `call` and `unpack` are those of ResolveFtsoV2, `client` is the chain's client.
module _ {W L : Type 0} (net : Net W L) (s : Support) (client : Client) (fee : ℕ) where
  -- The validation, up to the address of FtsoV2
  unfoldable pub preflight : (W → Answer (List ℕ)) → (List ℕ → Result Value) → Exec W ℕ
  preflight call unpack = do
    require (address_not_zero s.addresses.flare_tee_manager) (text "zero address")
    require (address_has_code (some client) s.addresses.flare_tee_manager) (text "no code")
    require (key_has_funds (some client) s.prv min_deploy_balance) (text "insufficient funds")
    ftso ← resolve_ftso_v2 call unpack
    require (address_has_code (some client) ftso) (text "FtsoV2 has no code")
    pure ftso

  -- The four transactions
  unfoldable pub deploying : ℕ → Exec W (Option DeployInfo)
  deploying ftso = do
    token ← deploy_mock_usdt0 net s
    vault ← deploys_vault net s ftso token fee
    mint_payout_pool net s token vault payout_pool
    sets_tee_executor net s vault s.prv
    pure (
        some (record {
          mock_usdt0 = token;
          dark_stop_vault = vault;
          ftso_v2 = ftso;
          tee_executor = s.prv;
          instruction_fee = fee;
        }))

  unfoldable pub deploy_unless : Bool → ℕ → Exec W (Option DeployInfo)
  deploy_unless preflight_only ftso = if preflight_only then pure none else deploying ftso

  -- The program from its support on
  unfoldable pub deploy_contract :
      (W → Answer (List ℕ)) → (List ℕ → Result Value) → Bool → Exec W (Option DeployInfo)
  deploy_contract call unpack preflight_only =
      preflight call unpack >>= deploy_unless preflight_only
