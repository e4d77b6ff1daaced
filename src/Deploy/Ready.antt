-- ===== src/Deploy/Ready.antt =====
-- tools/pkg/validate/checks.go: when the deployment checks report no failure.
use darkstop.Base.{
  ℕ, ◌≡◌, ◌≢◌, ◌↔◌, refl, Bool, true, false, ◌||◌, Option, none, some, List, [], ◌∷◌, ◌++◌, arith,
}
use darkstop.Base.Big.{ℤ, pos, ◌≤ℤ◌}
use darkstop.Policy.{String}
use darkstop.Deploy.{Report, has_failures, is_fail}
use darkstop.Deploy.Site.{
  Client, Site, address_not_zero, address_has_code, is_code, is_enough, key_has_funds,
  min_deploy_balance,
}
use darkstop.Deploy.EnvFile.{
  Vars, var, read_vars, split_lines, key_extension_id, key_instruction_sender, is_address,
  is_extension_id,
}
use darkstop.Deploy.Checks.{
  zero_checks, code_checks, check_deployer_key_source, funds_checks, check_chain_id, chain_checks,
  format_checks, check_extension_env_format, format_status, env_checks, register_deploy_checks,
}

abbrev pub NoFailures : Report → Type 0
NoFailures rs = has_failures rs ≡ false

has_failures-append :
    (xs ys : Report) → has_failures (xs ++ ys) ≡ has_failures xs || has_failures ys
unfolding has_failures
has_failures-append [] ys = refl
has_failures-append (x ∷ xs) ys = ground (arith, has_failures-append xs ys)

NoFailures-append : (xs ys : Report) → NoFailures (xs ++ ys) ↔ (NoFailures xs × NoFailures ys)
NoFailures-append xs ys = ground (arith, has_failures-append xs ys)

abbrev pub HasCode : Option (List ℕ) → Type 0
HasCode none = ⊥
HasCode (some []) = ⊥
HasCode (some (c ∷ code)) = Unit

-- The address is not zero, and the chain has code there.
abbrev pub IsDeployed : Option Client → ℕ → Type 0
IsDeployed none addr = ⊥
IsDeployed (some client) addr = (addr ≢ 0) × HasCode (client.code_at addr)

abbrev pub AreDeployed : Option Client → List (ℕ × ℕ) → Type 0
AreDeployed client [] = Unit
AreDeployed client ((label, addr) ∷ addrs) = IsDeployed client addr × AreDeployed client addrs

is_code_iff : (code : Option (List ℕ)) → (is_code code ≡ true) ↔ HasCode code
is_code_iff none = ground arith
is_code_iff (some []) = ground arith
is_code_iff (some (c ∷ code)) = ground arith

has_code_iff :
    (client : Option Client) (addr : ℕ)
    → ((address_not_zero addr ≡ true) × (address_has_code client addr ≡ true))
      ↔ IsDeployed client addr
unfolding address_not_zero address_has_code
has_code_iff none addr = ground arith
has_code_iff (some client) addr = ground (arith, is_code_iff (client.code_at addr))

code_checks_iff :
    (client : Option Client) (addrs : List (ℕ × ℕ))
    → (NoFailures (zero_checks addrs) × NoFailures (code_checks client addrs))
      ↔ AreDeployed client addrs
unfolding zero_checks code_checks has_failures
code_checks_iff client [] = ground arith
code_checks_iff client ((label, addr) ∷ addrs) =
    ground (arith, code_checks_iff client addrs, has_code_iff client addr)

abbrev pub IsEnough : Option ℤ → Type 0
IsEnough none = ⊥
IsEnough (some balance) = pos 10_000_000_000_000_000 ≤ℤ balance

is_enough_iff : (b : Option ℤ) → (is_enough min_deploy_balance b ≡ true) ↔ IsEnough b
is_enough_iff none = ground arith
is_enough_iff (some balance) = ground arith

-- The deployer has the minimum balance.
abbrev pub IsFunded : Option Client → Option ℕ → Type 0
IsFunded (some client) (some addr) = IsEnough (client.balance_at addr)
IsFunded none key = Unit
IsFunded (some client) none = Unit

funds_checks_iff :
    (client : Option Client) (key : Option ℕ)
    → NoFailures (funds_checks client key) ↔ IsFunded client key
unfolding funds_checks has_failures key_has_funds
funds_checks_iff none key = ground arith
funds_checks_iff (some client) none = ground arith
funds_checks_iff (some client) (some addr) = ground (arith, is_enough_iff (client.balance_at addr))

abbrev pub HasChainId : Option Client → Type 0
HasChainId none = Unit
HasChainId (some client) = client.fetch_chain_id ≢ none

chain_checks_iff : (client : Option Client) → NoFailures (chain_checks client) ↔ HasChainId client
unfolding chain_checks check_chain_id has_failures
chain_checks_iff none = ground arith
chain_checks_iff (some client) = ground arith

abbrev pub HasFormat : (String → Bool) → Option String → Type 0
HasFormat format none = ⊥
HasFormat format (some val) = format val ≡ true

-- extension.env, if it is there, has an instruction sender and an extension id of the right formats.
abbrev pub IsEnvFile : Option String → Type 0
IsEnvFile none = Unit
IsEnvFile (some text) =
    HasFormat is_address (var key_instruction_sender (read_vars [] (split_lines text)))
    × HasFormat is_extension_id (var key_extension_id (read_vars [] (split_lines text)))

format_status_iff :
    (format : String → Bool) (val : Option String)
    → (is_fail (format_status format val) ≡ false) ↔ HasFormat format val
format_status_iff format none = ground arith
format_status_iff format (some val) = ground arith

format_checks_iff :
    (vars : Vars)
    → NoFailures (format_checks vars) ↔ (
        HasFormat is_address (var key_instruction_sender vars)
        × HasFormat is_extension_id (var key_extension_id vars))
unfolding format_checks has_failures
format_checks_iff vars = ground (
  arith,
  format_status_iff is_address (var key_instruction_sender vars),
  format_status_iff is_extension_id (var key_extension_id vars),
)

env_checks_iff :
    (has_path : Bool) (file : Option String)
    → NoFailures (env_checks has_path file) ↔ (has_path ≡ true → IsEnvFile file)
unfolding env_checks check_extension_env_format has_failures
env_checks_iff false file = ground arith
env_checks_iff true none = ground arith
env_checks_iff true (some text) =
    ground (arith, format_checks_iff (read_vars [] (split_lines text)))

key_source-passes : (site : Site) → NoFailures (check_deployer_key_source site ∷ [])
unfolding check_deployer_key_source has_failures
key_source-passes site = ground arith

-- The deployment checks report no failure exactly if every address is not zero and has code, the
-- deployer's account holds 0.01 ETH and the chain gives its id, where a client and a key are given,
-- and extension.env, if it is there, has both entries in the right format.
pub register_deploy_checks_iff :
    (site : Site)
    → NoFailures (register_deploy_checks site) ↔ (
        AreDeployed site.client site.addresses
        × IsFunded site.client site.key
        × HasChainId site.client
        × (site.has_path ≡ true → IsEnvFile site.file))
unfolding register_deploy_checks
register_deploy_checks_iff site =
    let zero = zero_checks site.addresses in
    let code = code_checks site.client site.addresses in
    let key = check_deployer_key_source site ∷ [] in
    let funds = funds_checks site.client site.key in
    let chain = chain_checks site.client in
    let file = env_checks site.has_path site.file in
    let files = NoFailures-append (zero ++ code ++ key ++ funds ++ chain) file in
    let chains = NoFailures-append (zero ++ code ++ key ++ funds) chain in
    let fundings = NoFailures-append (zero ++ code ++ key) funds in
    let keys = NoFailures-append (zero ++ code) key in
    let codes = NoFailures-append zero code in
    let deployed = code_checks_iff site.client site.addresses in
    let funded = funds_checks_iff site.client site.key in
    let identified = chain_checks_iff site.client in
    let formed = env_checks_iff site.has_path site.file in
    (
      λ h.
          let a = files.0 h in
          let b = chains.0 a.0 in
          let c = fundings.0 b.0 in
          let d = codes.0 (keys.0 c.0).0 in
          (deployed.0 d, funded.0 c.1, identified.0 b.1, formed.0 a.1),
      λ h. files.1 (
        chains.1 (
          fundings.1 (keys.1 (codes.1 (deployed.1 h.0), key_source-passes site), funded.1 h.1),
          identified.1 h.2,
        ),
        formed.1 h.3,
      ),
    )
