-- ===== src/Startup/Launching.antt =====
-- cmd/main.go with LaunchWatcherFromConfig of internal/extension/watcher.go and New of
-- internal/extension/extension.go: what a start has set up.
use darkstop.Base.{ℕ, ◌≡◌, ◌≢◌, true, Option, none, some, []}
use darkstop.Store.{new_store}
use darkstop.Watcher.State.{new_watcher}
use darkstop.Tools.{ok}
use darkstop.Tools.Text.{trim_0x}
use darkstop.Startup.{Environment, Libraries, Launched, init, is_disabled}

module _ {C : Type 0} (lib : Libraries C) where
  -- What the environment says of a watcher: it is set up as the three variables say, on an empty book, or
  -- one of them is empty.
  abbrev pub IsLaunched : Environment → Option (Launched C) → Type 0
  IsLaunched env none = is_disabled lib (init env) ≡ true
  IsLaunched env (some l) =
      (env.chain_url ≢ [])
      × (env.vault_address ≢ [])
      × (env.executor_private_key ≢ [])
      × (lib.is_hex_address env.vault_address ≡ true)
      × (lib.dial env.chain_url ≡ ok l.client)
      × (l.vault ≡ lib.hex_to_address env.vault_address)
      × (lib.hex_to_ecdsa (trim_0x env.executor_private_key) ≡ ok l.executor)
      × (l.watcher ≡ new_watcher new_store)

  -- The key that was given, or a new one.
  abbrev pub IsIdentity : Environment → ℕ → Type 0
  IsIdentity env key =
      (env.enclave_private_key ≡ [] → lib.new_key ≡ ok key)
      × (env.enclave_private_key ≢ [] → lib.hex_to_ecdsa (trim_0x env.enclave_private_key) ≡ ok key)
