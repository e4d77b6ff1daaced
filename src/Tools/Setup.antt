-- ===== src/Tools/Setup.antt =====
-- tools/pkg/fccutils/extension.go: the set-up of an extension. It is registered, and its owners and its
-- key type are allowed where the contracts do not allow them already.
pub mod Allowed
pub mod Order
use darkstop.Base.{
  ℕ, Bool, true, false, not, Option, none, some, List, [], ◌∷◌, ◌++◌, ltb, if◌then◌else◌, length,
}
use darkstop.Policy.{String}
use darkstop.Tools.{
  Result, ok, err, Message, register_extension, allow_machine_owners, allow_project_owners,
  add_key_types, Request, Receipt, Net, Exec, pure, raise, lift, query, within, require, transact,
  ◌>>=◌, ◌>>◌,
}
use darkstop.Base.Decimal.{decimal_text}
use darkstop.Tools.Text.{text}
use darkstop.Tools.Support.{Support, keyed_transactor, check_tx}

-- receipt.Logs[0] and receipt.Logs[1], where the receipt has enough logs.
abbrev pub first_log : {L A : Type 0} → String → (L → Result A) → List L → Result A
first_log e parse [] = err e
first_log e parse (l ∷ ls) = parse l

abbrev pub second_log : {L A : Type 0} → String → (L → Result A) → List L → Result A
second_log e parse [] = err e
second_log e parse (k ∷ []) = err e
second_log e parse (k ∷ l ∷ ls) = parse l

abbrev pub request : ℕ → ℕ → Message → Request
request from value message = record { from = from; value = value; message = message }

module _ {W L : Type 0} (net : Net W L) (evm_type : ℕ) (s : Support) where
  -- A transaction of the deployer that must be mined, with the texts of the two errors.
  unfoldable pub send_checked : String → String → Message → Exec W (Receipt L)
  send_checked refused failed message = do
    t ← within refused (transact net (request s.prv 0 message))
    within failed (check_tx net t.0)

  unfoldable pub too_few_logs : ℕ → String
  too_few_logs n =
      text "expected at least 2 logs from Register() transaction, got "
      ++ decimal_text n
      ++ text " - the registry contract may have changed or be behind a proxy"

  -- registerExtension
  unfoldable pub register : ℕ → ℕ → Exec W ℕ
  register sender verifier = do
    receipt ←
        send_checked (text "TeeExtensionRegistry.Register failed: ")
          (text "Register transaction failed: ") (register_extension verifier sender)
    require (not (ltb (length receipt.logs) 2)) (too_few_logs (length receipt.logs))
    id ←
        within (text "failed to parse TeeExtensionRegistered event: ")
          (lift (first_log [] net.parse_extension_registered receipt.logs))
    within (text "failed to parse TeeExtensionContractsSet event: ")
        (lift (second_log [] net.parse_contracts_set receipt.logs))
    pure id

  -- allowTeeMachineOwners
  unfoldable pub allow_tee_machine_owners : ℕ → List ℕ → Exec W (Unit {0})
  allow_tee_machine_owners id owners = do
    receipt ←
        send_checked (text "AddAllowedTeeMachineOwners failed: ")
          (text "AddAllowedTeeMachineOwners transaction failed: ") (allow_machine_owners id owners)
    require (ltb 0 (length receipt.logs))
        (text "no logs in AddAllowedTeeMachineOwners transaction - unexpected")
    within (text "failed to parse AllowedTeeMachineOwnersAdded event: ")
        (lift (first_log [] net.parse_machine_owners_added receipt.logs))

  -- allowTeeProjectManagerOwners
  unfoldable pub allow_tee_project_manager_owners : ℕ → List ℕ → Exec W (Unit {0})
  allow_tee_project_manager_owners id owners = do
    receipt ←
        send_checked (text "AddAllowedTeeWalletProjectOwners failed: ")
          (text "AddAllowedTeeWalletProjectOwners transaction failed: ")
          (allow_project_owners id owners)
    require (ltb 0 (length receipt.logs))
        (text "no logs in AddAllowedTeeWalletProjectOwners transaction - unexpected")
    within (text "failed to parse AllowedTeeWalletProjectOwnersAdded event: ")
        (lift (first_log [] net.parse_project_owners_added receipt.logs))

  -- AddSupportedKeyTypes, with addSupportedKeyTypesTx
  unfoldable pub add_supported_key_types : ℕ → List ℕ → Exec W (Unit {0})
  add_supported_key_types id key_types = do
    keyed_transactor s.chain_id
    send_checked [] [] (add_key_types id key_types)
    pure tt

  unfoldable pub owners_not_set : String → ℕ → String
  owners_not_set what id =
      text "failed adding "
      ++ what
      ++ text " (extension exists as ID "
      ++ decimal_text id
      ++ text " but owners not set): "

  -- Step 2
  unfoldable pub add_machine_owner : ℕ → Bool → Exec W (Unit {0})
  add_machine_owner id already =
      if already
      then pure tt
      else within (owners_not_set (text "TEE machine owners") id)
          (allow_tee_machine_owners id (s.prv ∷ []))

  unfoldable pub step_machine_owner : ℕ → Exec W (Unit {0})
  step_machine_owner id = do
    already ←
        within (text "failed checking TEE machine owner status: ")
          (query (net.is_machine_owner id s.prv))
    add_machine_owner id already

  -- Step 3
  unfoldable pub add_project_owner : ℕ → Bool → Exec W (Unit {0})
  add_project_owner id already =
      if already
      then pure tt
      else within (owners_not_set (text "wallet project owners") id)
          (allow_tee_project_manager_owners id (s.prv ∷ []))

  unfoldable pub step_project_owner : ℕ → Exec W (Unit {0})
  step_project_owner id = do
    already ←
        within (text "failed checking wallet project owner status: ")
          (query (net.is_project_owner id s.prv))
    add_project_owner id already

  -- Step 4
  unfoldable pub add_key_type : ℕ → Bool → Exec W (Unit {0})
  add_key_type id supported =
      if supported then pure tt else add_supported_key_types id (evm_type ∷ [])

  unfoldable pub step_key_type : ℕ → Exec W (Unit {0})
  step_key_type id = do
    supported ← query (net.is_key_type_supported id evm_type)
    add_key_type id supported

  -- SetupExtension
  unfoldable pub setup_extension : ℕ → ℕ → Exec W ℕ
  setup_extension sender verifier = do
    keyed_transactor s.chain_id
    id ← register sender verifier
    step_machine_owner id
    step_project_owner id
    step_key_type id
    pure id
