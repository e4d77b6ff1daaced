-- ===== src/Startup.antt =====
-- internal/config/config.go, LaunchWatcherFromConfig of internal/extension/watcher.go, New of
-- internal/extension/extension.go and cmd/main.go: the extension from its environment to its watcher.
-- go-ethereum's client, addresses and keys are parameters, and so is the generation of a key.

mod Examples
pub mod Launching
use darkstop.Base.{
  ℕ, ◌^◌, ◌≡◌, ◌≢◌, ◌↔◌, refl, ap, subst, inl, inr, Bool, true, false, not, ◌||◌, Option, none,
  some, [], ltb, ◌==◌, if◌then◌else◌, ◌++◌, Bool-cases, arith,
}
use darkstop.Base.Big.{ℤ, pos, negsuc}
use darkstop.Policy.{String, eq_string, set_string}
use darkstop.Policy.Equality.{eq_string_refl, eq_string_sound}
use darkstop.Store.{Store, new_store}
use darkstop.Watcher.State.{Watcher, new_watcher}
use darkstop.Tools.{Result, ok, err, then_result, then_given, prefixed}
use darkstop.Tools.Rules.{within_ok}
use darkstop.Tools.Text.{text, trim_0x}

-- The range of an int, of 64 bits.
abbrev in_int : ℤ → Option ℤ
in_int (pos n) = if ltb n (2 ^ 63) then some (pos n) else none
in_int (negsuc n) = if ltb n (2 ^ 63) then some (negsuc n) else none

abbrev in_int_of : Option ℤ → Option ℤ
in_int_of none = none
in_int_of (some v) = in_int v

-- strconv.Atoi: a sign and digits, as big.Int reads them, in the range of an int.
unfoldable pub atoi : String → Option ℤ
atoi s = in_int_of (set_string s)

abbrev or_default : ℤ → Option ℤ → ℤ
or_default d none = d
or_default d (some v) = v

-- A port's variable: the default stays if it is empty or no number. Also intEnv of cmd/docker/main.go.
unfoldable pub int_env : ℤ → String → ℤ
int_env d s = or_default d (atoi s)

unfoldable pub port_of : ℤ → String → ℤ
port_of d s = if eq_string s [] then d else int_env d s

-- The environment, by the variables that are read.
pub record Environment : Type 0 where
  pub extension_port : String
  pub sign_port : String
  pub types_server_port : String
  pub chain_url : String
  pub vault_address : String
  pub executor_private_key : String
  pub enclave_private_key : String

-- The variables of the package config.
pub record Config : Type 0 where
  pub extension_port : ℤ
  pub sign_port : ℤ
  pub types_server_port : ℤ
  pub chain_url : String
  pub vault_address : String
  pub executor_private_key : String
  pub enclave_private_key : String

-- init
unfoldable pub init : Environment → Config
init env = record {
  extension_port = port_of (pos 8080) env.extension_port;
  sign_port = port_of (pos 9090) env.sign_port;
  types_server_port = port_of (pos 8100) env.types_server_port;
  chain_url = env.chain_url;
  vault_address = env.vault_address;
  executor_private_key = env.executor_private_key;
  enclave_private_key = env.enclave_private_key;
}

-- A key is known by its address; C is a client. `new_key` is what GenerateKey gives.
pub record Libraries (C : Type 0) : Type 0 where
  pub is_hex_address : String → Bool
  pub hex_to_address : String → ℕ
  pub dial : String → Result C
  pub hex_to_ecdsa : String → Result ℕ
  pub new_key : Result ℕ

-- A watcher with what NewWatcher fixes for good: the client, the vault and the executor.
pub record Launched (C : Type 0) : Type 0 where
  pub client : C
  pub vault : ℕ
  pub executor : ℕ
  pub watcher : Watcher

module _ {C : Type 0} (lib : Libraries C) where
  -- NewWatcher
  unfoldable pub new_launched : C → ℕ → String → Store → Result (Launched C)
  new_launched client vault key s =
      then_result
        (prefixed (text "parsing executor private key: ") (lib.hex_to_ecdsa (trim_0x key)))
        λ executor.
          ok (record {
            client = client;
            vault = vault;
            executor = executor;
            watcher = new_watcher s;
          })

  unfoldable pub dialed : Config → Store → Result (Option (Launched C))
  dialed c s = then_result (prefixed (text "dialing CHAIN_URL: ") (lib.dial c.chain_url)) λ client.
      then_result
        (new_launched client (lib.hex_to_address c.vault_address) c.executor_private_key s)
        λ l. ok (some l)

  unfoldable pub is_disabled : Config → Bool
  is_disabled c =
      eq_string c.chain_url []
      || eq_string c.vault_address []
      || eq_string c.executor_private_key []

  -- LaunchWatcherFromConfig: `none` is a watcher that is disabled
  unfoldable pub launch_watcher_from_config : Config → Store → Result (Option (Launched C))
  launch_watcher_from_config c s =
      if is_disabled c
      then ok none
      else if not (lib.is_hex_address c.vault_address)
      then err (text "VAULT_ADDRESS " ++ c.vault_address ++ text " is not a valid address")
      else dialed c s

  -- NewCryptoFromHex
  unfoldable pub new_crypto_from_hex : String → Result ℕ
  new_crypto_from_hex key =
      prefixed (text "importing private key: ") (lib.hex_to_ecdsa (trim_0x key))

  -- The enclave's identity in New; an error is a panic.
  unfoldable pub identity : Config → Result ℕ
  identity c =
      if not (eq_string c.enclave_private_key [])
      then new_crypto_from_hex c.enclave_private_key
      else prefixed (text "generating ecies keypair: ") lib.new_key

  -- The start of cmd/main.go, up to its server: the identity, and the watcher.
  unfoldable pub start : Environment → Result (ℕ × Option (Launched C))
  start env =
      then_result (identity (init env))
        λ key. then_result (launch_watcher_from_config (init env) new_store) λ w. ok (key, w)
