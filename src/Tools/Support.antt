-- ===== src/Tools/Support.antt =====
-- tools/pkg/support/support.go: what the tools stand on. CheckTx waits for a transaction, and
-- ParseAddresses reads the contracts' addresses.
use darkstop.Base.{ℕ, ◌&&◌, ◌||◌, Option, none, some, List, [], ◌∷◌, ◌++◌, ◌==◌, if◌then◌else◌}
use darkstop.Policy.{String}
use darkstop.Tools.{
  Result, ok, ErrorData, no_data, hex_data, bytes_data, Answer, gives, refuses, Receipt, Net, Exec,
  waits, within, pure, raise, query, ◌>>=◌,
}
use darkstop.Tools.Text.{text, trim_0x, encode_hex, decode_hex, hash_hex}

-- The addresses of the contracts; a missing one is the zero address.
pub record Addresses : Type 0 where
  pub flare_system_manager : ℕ
  pub fdc2_hub : ℕ
  pub flare_tee_manager : ℕ

abbrev pub no_addresses : Addresses
no_addresses = record { flare_system_manager = 0; fdc2_hub = 0; flare_tee_manager = 0 }

-- Support: the address of the funded key, the addresses and the chain's id. The bindings of the
-- contracts are the parameters of a `Net`.
pub record Support : Type 0 where
  pub prv : ℕ
  pub addresses : Addresses
  pub chain_id : Option ℕ

-- bind.NewKeyedTransactorWithChainID needs a chain id.
abbrev pub keyed_transactor : {W : Type 0} → Option ℕ → Exec W ℕ
keyed_transactor none = raise (text "no chain id specified")
keyed_transactor (some id) = pure id

-- A key's text without 0x or 0X.
unfoldable pub strip_0x : String → String
strip_0x (a ∷ b ∷ cs) = if a == 48 && (b == 120 || b == 88) then cs else a ∷ b ∷ cs
strip_0x (a ∷ []) = a ∷ []
strip_0x [] = []

-- A key from the environment, by its address: without one it is `fallback`. `parse` is
-- crypto.HexToECDSA.
unfoldable pub environment_key : (String → Result ℕ) → ℕ → String → Result ℕ
environment_key parse fallback [] = ok fallback
environment_key parse fallback (c ∷ cs) = parse (strip_0x (c ∷ cs))

-- DefaultPrivateKey, where `dev_key` is configs.PrvWithFunds
unfoldable pub default_private_key : (String → Result ℕ) → ℕ → String → Result ℕ
default_private_key parse dev_key variable = environment_key parse dev_key variable

-- decodeRevertFromError
module _ (unpack : List ℕ → Option String) where
  abbrev unpacked : Option (List ℕ) → String
  unpacked none = []
  unpacked (some bs) = elim (unpack bs) [ none ↦ [] | some reason ↦ reason ]

  unfoldable pub decode_revert_from_error : ErrorData → String
  decode_revert_from_error no_data = []
  decode_revert_from_error (hex_data s) = unpacked (decode_hex (trim_0x s))
  decode_revert_from_error (bytes_data bs) = []

  abbrev or_text : String → String → String
  or_text message [] = message
  or_text message (c ∷ cs) = c ∷ cs

  abbrev or_bytes : List ℕ → Option String → String
  or_bytes bs (some reason) = reason
  or_bytes [] none = text "unknown revert reason"
  or_bytes (b ∷ bs) none = 48 ∷ 120 ∷ encode_hex (b ∷ bs)

  -- getFailingMessage, from the answer of its eth_call on
  unfoldable pub failing_message : Answer (List ℕ) → String
  failing_message (refuses e) = or_text e.message (decode_revert_from_error e.error_data)
  failing_message (gives res) = or_bytes res (unpack res)

module _ {W L : Type 0} (net : Net W L) where
  -- getFailingMessage
  unfoldable pub get_failing_message : ℕ → Exec W String
  get_failing_message tx = do
    from ← query (net.find_transaction tx)
    query (λ w. ok (failing_message net.unpack_revert (net.replay tx from w)))

  unfoldable pub not_mined : ℕ → String
  not_mined tx = text "transaction not mined within 2 minutes (tx: " ++ hash_hex tx ++ text "): "

  unfoldable pub fail_with_reason : ℕ → Exec W (Receipt L)
  fail_with_reason tx = do
    reason ← get_failing_message tx
    raise (text "error: Transaction fail: " ++ reason)

  -- What CheckTx makes of a receipt.
  unfoldable pub checked_receipt : ℕ → Receipt L → Exec W (Receipt L)
  checked_receipt tx receipt = if receipt.status == 0 then fail_with_reason tx else pure receipt

  -- CheckTx
  unfoldable pub check_tx : ℕ → Exec W (Receipt L)
  check_tx tx = do receipt ← within (not_mined tx) (waits net tx); checked_receipt tx receipt
