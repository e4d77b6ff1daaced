-- ===== src/Deploy/Site.antt =====
-- tools/pkg/validate/validate.go: what a deployment check looks at. A string is the list of its bytes, and
-- an address a number that is 0 exactly for the zero address. go-ethereum's client, the contracts'
-- bindings, the sockets and the HTTP client are parameters, where `none` is an error.
use darkstop.Base.{ℕ, Bool, true, false, not, Option, none, some, List, [], ◌∷◌, ◌==◌}
use darkstop.Base.Big.{ℤ, pos, ltb_ℤ}
use darkstop.Policy.{String}

-- ethclient.Client
pub record Client : Type 0 where
  pub code_at : ℕ → Option (List ℕ)
  pub balance_at : ℕ → Option ℤ
  pub fetch_chain_id : Option ℤ

-- extensionmanager.ExtensionManager
pub record Registry : Type 0 where
  pub extensions_counter : Option ℤ
  pub instructions_sender : ℕ → Option ℕ
  pub is_key_type_supported : ℕ → Option Bool

-- ownerallowlist.OwnerAllowlist
pub record Allowlist : Type 0 where
  pub is_allowed_tee_machine_owner : ℕ → ℕ → Option Bool

-- The environment variables that the checks read; an unset one is empty.
pub record Environment : Type 0 where
  pub deployment_private_key : String
  pub extension_owner_key : String
  pub proxy_private_key : String
  pub local_mode : String
  pub simulated_tee : String
  pub extension_port : String
  pub sign_port : String
  pub ext_proxy_url : String
  pub normal_proxy_url : String

-- `key` is the deployer's address, if its key is given. `file` is what os.Open gives of extension.env,
-- `is_missing` is os.IsNotExist of its os.Stat. `is_listening` is whether a connection to the port is
-- accepted, and `info_ok` whether GET /info of the URL answers with status 200.
pub record Site : Type 0 where
  pub client : Option Client
  pub key : Option ℕ
  pub registry : Option Registry
  pub allowlist : Option Allowlist
  pub addresses : List (ℕ × ℕ)
  pub has_path : Bool
  pub file : Option String
  pub is_missing : Bool
  pub env : Environment
  pub is_listening : String → Bool
  pub info_ok : String → Bool

abbrev pub is_empty : String → Bool
is_empty [] = true
is_empty (c ∷ cs) = false

-- "true"
abbrev pub string_true : String
string_true = 116 ∷ 114 ∷ 117 ∷ 101 ∷ []

-- "false"
abbrev pub string_false : String
string_false = 102 ∷ 97 ∷ 108 ∷ 115 ∷ 101 ∷ []

-- MinDeployBalance
abbrev pub min_deploy_balance : ℤ
min_deploy_balance = pos 10_000_000_000_000_000

-- AddressNotZero: no error
unfoldable pub address_not_zero : ℕ → Bool
address_not_zero addr = not (addr == 0)

abbrev pub is_code : Option (List ℕ) → Bool
is_code none = false
is_code (some code) = not (is_empty code)

-- AddressHasCode: no error
unfoldable pub address_has_code : Option Client → ℕ → Bool
address_has_code none addr = false
address_has_code (some client) addr = is_code (client.code_at addr)

abbrev pub is_enough : ℤ → Option ℤ → Bool
is_enough least none = false
is_enough least (some balance) = not (ltb_ℤ balance least)

-- KeyHasFunds: no error
unfoldable pub key_has_funds : Option Client → ℕ → ℤ → Bool
key_has_funds none addr least = false
key_has_funds (some client) addr least = is_enough least (client.balance_at addr)

-- IsUsingDevKey
unfoldable pub is_using_dev_key : Site → Bool
is_using_dev_key site = is_empty site.env.deployment_private_key
