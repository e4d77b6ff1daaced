-- ===== src/Tools/Orders.antt =====
-- tools/pkg/utils/instructions.go: the contracts are deployed and set up, and an order is placed. The
-- binding of the vault (NewDarkStopVault) and the packing of a replayed call are parameters.
pub mod Logs
pub mod Placed
use darkstop.Base.{
  ℕ, Bool, true, false, not, Option, none, some, List, [], ◌∷◌, ◌++◌, ◌==◌, if◌then◌else◌,
}
use darkstop.Policy.{String}
use darkstop.Tools.{
  Result, ok, err, RpcError, Answer, gives, refuses, Message, deploy_token, deploy_vault, mint,
  set_tee_executor, set_extension_id, place_order, Request, CallMsg, Receipt, Net, Run, Exec, pure,
  raise, lift, query, within, require, sends, transact, waits, ◌>>=◌, ◌>>◌,
}
use darkstop.Base.Decimal.{decimal_text}
use darkstop.Tools.Text.{text, hash_hex}
use darkstop.Tools.Revert.{decode_revert_reason, simulated_reason}
use darkstop.Tools.Support.{Support, keyed_transactor}
use darkstop.Tools.Setup.{request}

-- What the registry's answer unpacks to.
pub data Value : Type 0 where
  address : ℕ → Value
  other : String → Value

abbrev resolved : Value → Result ℕ
resolved (other kind) = err (text "registry result: expected address, got " ++ kind)
resolved (address a) =
    if a == 0 then err (text "FlareContractRegistry returned zero address for FtsoV2") else ok a

abbrev answered : Answer (List ℕ) → Result (List ℕ)
answered (gives bs) = ok bs
answered (refuses e) = err (text "calling FlareContractRegistry: " ++ e.message)

-- ResolveFtsoV2, where `call` is the call of getContractAddressByName and `unpack` reads its result
unfoldable pub resolve_ftso_v2 :
    {W : Type 0} → (W → Answer (List ℕ)) → (List ℕ → Result Value) → Exec W ℕ
resolve_ftso_v2 call unpack = do
  res ← query (λ w. answered (call w))
  value ← within (text "unpacking registry result: ") (lift (unpack res))
  lift (resolved value)

-- types.ReceiptStatusSuccessful
abbrev pub is_successful : {L : Type 0} → Receipt L → Bool
is_successful receipt = receipt.status == 1

abbrev pub revert_suffix : String → String
revert_suffix [] = []
revert_suffix (c ∷ cs) = text " (revert reason: " ++ (c ∷ cs) ++ text ")"

abbrev pub or_else : String → String → String
or_else [] alternative = alternative
or_else (c ∷ cs) alternative = c ∷ cs

-- The scan of the receipt's logs by SendPlaceOrder: the order's id, and the instruction's, 0 if none.
pub record Found : Type 0 where
  pub order_id : Option ℕ
  pub instruction_id : ℕ

module _ {W L : Type 0} (net : Net W L) where
  abbrev pub found_instruction : Result ℕ → Found → Found
  found_instruction (ok id) f = record f { instruction_id = id }
  found_instruction (err e) f = f

  abbrev pub found_order : Result ℕ → Result ℕ → Found → Found
  found_order (ok id) sent f = record f { order_id = some id }
  found_order (err e) sent f = found_instruction sent f

  unfoldable pub scan : Found → List L → Found
  scan f [] = f
  scan f (l ∷ ls) =
      scan (found_order (net.parse_order_placed l) (net.parse_instructions_sent l) f) ls

  abbrev pub nothing_found : Found
  nothing_found = record { order_id = none; instruction_id = 0 }

  abbrev pub with_instruction : ℕ → ℕ → Result (ℕ × ℕ)
  with_instruction order instruction =
      if instruction == 0
      then err (text "TeeInstructionsSent event not found in receipt")
      else ok (instruction, order)

  abbrev pub both_found : Option ℕ → ℕ → Result (ℕ × ℕ)
  both_found none instruction = err (text "OrderPlaced event not found in receipt")
  both_found (some order) instruction = with_instruction order instruction

  -- The instruction's id and the order's, from the logs.
  unfoldable pub ids_of : List L → Result (ℕ × ℕ)
  ids_of logs =
      both_found (scan nothing_found logs).order_id (scan nothing_found logs).instruction_id

  module _ (s : Support) where
    unfoldable pub not_mined_in_time : String → ℕ → String
    not_mined_in_time what tx =
        what ++ text " tx not mined within 2 minutes (tx: " ++ hash_hex tx ++ text "): "

    -- waitMinedOK
    unfoldable pub wait_mined_ok : ℕ → String → Exec W (Unit {0})
    wait_mined_ok tx what = do
      receipt ← within (not_mined_in_time what tx) (waits net tx)
      require (is_successful receipt)
          (what ++ text " transaction failed (tx: " ++ hash_hex tx ++ text ")")

    -- A transaction of the deployer that is waited for; it gives the address of the contract.
    unfoldable pub sends_and_waits : String → String → Message → Exec W ℕ
    sends_and_waits refused what message = do
      within (text "failed to create transactor: ") (keyed_transactor s.chain_id)
      t ← within refused (transact net (request s.prv 0 message))
      wait_mined_ok t.0 what
      pure t.1

    -- DeployMockUSDT0
    abbrev pub deploy_mock_usdt0 : Exec W ℕ
    deploy_mock_usdt0 =
        sends_and_waits (text "failed to deploy MockUSDT0: ") (text "MockUSDT0 deployment")
          deploy_token

    -- DeployVault
    abbrev pub deploys_vault : ℕ → ℕ → ℕ → Exec W ℕ
    deploys_vault ftso_v2 payout_token fee =
        sends_and_waits (text "failed to deploy DarkStopVault: ") (text "DarkStopVault deployment")
          (deploy_vault s.addresses.flare_tee_manager s.addresses.flare_tee_manager ftso_v2
            payout_token fee)

    -- MintPayoutPool
    abbrev pub mint_payout_pool : ℕ → ℕ → ℕ → Exec W ℕ
    mint_payout_pool token vault amount =
        sends_and_waits (text "failed to mint payout pool: ") (text "payout pool mint")
          (mint token vault amount)

    -- SetTeeExecutor
    abbrev pub sets_tee_executor : ℕ → ℕ → Exec W ℕ
    sets_tee_executor vault executor =
        sends_and_waits (text "failed to call setTeeExecutor: ") (text "setTeeExecutor")
          (set_tee_executor vault executor)

    module _ (packs : Message → Bool) where
      -- simulateVaultCall
      unfoldable pub simulate_vault_call : ℕ → ℕ → Message → W → String
      simulate_vault_call vault value message w =
          if packs message
          then simulated_reason net.unpack_revert (
              net.call_contract
                (record { from = s.prv; to = vault; value = value; message = message }) w)
          else []

      -- The reason that the error has, or else that of the simulation.
      unfoldable pub refusal_reason : ℕ → ℕ → Message → RpcError → W → String
      refusal_reason vault value message e w =
          or_else (decode_revert_reason net.unpack_revert e)
            (simulate_vault_call vault value message w)

      abbrev pub sent_or_reason : String → ℕ → ℕ → Message → Answer (ℕ × ℕ) → Exec W ℕ
      sent_or_reason refused vault value message (gives t) run = pure t.0 run
      sent_or_reason refused vault value message (refuses e) run =
          raise
            (refused ++ e.message ++ revert_suffix (refusal_reason vault value message e run.world))
            run

      -- A call of the vault that is sent, with the reason if the chain refuses it.
      unfoldable pub calls_vault : String → ℕ → ℕ → Message → Exec W ℕ
      calls_vault refused vault value message run =
          let (a, run') = sends net (request s.prv value message) run in
          sent_or_reason refused vault value message a run'

      -- It must be mined without a revert; `failed` is the error's text, by the reason and the status.
      unfoldable pub mined_call : (String → ℕ → String) → ℕ → ℕ → Message → ℕ → Exec W (Receipt L)
      mined_call failed vault value message tx = do
        receipt ← within (text "failed waiting for transaction: ") (waits net tx)
        reason ← query (λ w. ok (simulate_vault_call vault value message w))
        require (is_successful receipt) (failed reason receipt.status)
        pure receipt

      unfoldable pub extension_id_failed : String → ℕ → String
      extension_id_failed reason status =
          text "setExtensionId transaction failed" ++ revert_suffix reason

      -- SetExtensionId
      unfoldable pub sets_extension_id : Result (Unit {0}) → ℕ → Exec W (Unit {0})
      sets_extension_id bound vault = do
        within (text "failed to bind contract: ") (lift bound)
        within (text "failed to create transactor: ") (keyed_transactor s.chain_id)
        tx ← calls_vault (text "failed to call setExtensionId: ") vault 0 (set_extension_id vault)
        mined_call extension_id_failed vault 0 (set_extension_id vault) tx
        pure tt

      unfoldable pub place_order_failed : String → ℕ → String
      place_order_failed [] status =
          text "placeOrder transaction failed with status: " ++ decimal_text status
      place_order_failed (c ∷ cs) status =
          text "placeOrder transaction failed" ++ revert_suffix (c ∷ cs)

      -- SendPlaceOrder: the instruction's id, the order's, and the hash
      unfoldable pub send_place_order : Result (Unit {0}) → ℕ → List ℕ → ℕ → Exec W (ℕ × ℕ × ℕ)
      send_place_order bound vault ciphertext value = do
        within (text "failed to bind contract: ") (lift bound)
        within (text "failed to create transactor: ") (keyed_transactor s.chain_id)
        tx ← calls_vault (text "failed to place order: ") vault value (place_order vault ciphertext)
        receipt ← mined_call place_order_failed vault value (place_order vault ciphertext) tx
        ids ← lift (ids_of receipt.logs)
        pure (ids.0, ids.1, receipt.tx_hash)
