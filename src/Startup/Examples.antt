-- ===== src/Startup/Examples.antt =====
-- cmd/main.go: a start with a watcher, and the ports of internal/config/config.go.
use darkstop.Base.{ℕ, ◌≡◌, refl, true, [], ◌∷◌}
use darkstop.Base.Big.{pos}
use darkstop.Policy.{eq_string, set_string, decimal, digits, positive_of}
use darkstop.Store.{new_store}
use darkstop.Watcher.State.{new_watcher}
use darkstop.Tools.{ok}
use darkstop.Startup.{Environment, Libraries, Launched, atoi, int_env, port_of, init}

abbrev libraries : Libraries ℕ
libraries = record {
  is_hex_address = λ s. true;
  hex_to_address = λ s. 3;
  dial = λ url. ok 4;
  hex_to_ecdsa = λ key. ok 5;
  new_key = ok 6;
}

abbrev environment : Environment
environment = record {
  extension_port = 49 ∷ 50 ∷ [];
  sign_port = 120 ∷ [];
  types_server_port = [];
  chain_url = 104 ∷ [];
  vault_address = 97 ∷ [];
  executor_private_key = 49 ∷ [];
  enclave_private_key = [];
}

-- 12, and a text that is no number
ports : ((init environment).extension_port ≡ pos 12) × ((init environment).sign_port ≡ pos 9090)
unfolding init port_of int_env atoi set_string decimal digits positive_of eq_string
ports = (refl, refl)

abbrev launched : Launched ℕ
launched = record { client = 4; vault = 3; executor = 5; watcher = new_watcher new_store }
