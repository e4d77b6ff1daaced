-- ===== src/Tools/Senders.antt =====
-- tools/pkg/fccutils/registration.go: the functions that send the transactions of a machine's
-- registration, and AddTeeVersion. The node's library that turns a signature round is a parameter, and so
-- is what it parses of the machine's info.
pub mod Single
use darkstop.Base.{ℕ, zero, suc, Bool, not, Option, List, [], ◌∷◌, ◌++◌, ltb, ◌==◌, length}
use darkstop.Policy.{String}
use darkstop.Tools.{
  Result, ok, err, MachineData, Signature, Proof, Message, register_machine, request_attestation,
  request_check, to_production, add_tee_version, Request, Receipt, Net, Exec, pure, lift, query,
  within, require, transact, ◌>>=◌, ◌>>◌,
}
use darkstop.Tools.Text.{text}
use darkstop.Tools.Support.{Support, keyed_transactor, check_tx}
use darkstop.Tools.Setup.{request, first_log, second_log}

-- The wei that a registration pays.
abbrev pub registration_value : ℕ
registration_value = 1_000_000_000

abbrev take : ℕ → List ℕ → List ℕ
take zero bs = []
take (suc n) [] = []
take (suc n) (b ∷ bs) = b ∷ take n bs

abbrev drop : ℕ → List ℕ → List ℕ
drop zero bs = bs
drop (suc n) [] = []
drop (suc n) (b ∷ bs) = drop n bs

abbrev first : List ℕ → ℕ
first [] = 0
first (b ∷ bs) = b

-- The parts of 65 bytes V, R and S.
unfoldable pub signature_of : List ℕ → Signature
signature_of vrs = record { v = first vrs; r = take 32 (drop 1 vrs); s = take 32 (drop 33 vrs) }

abbrev pub unexpected_logs : String
unexpected_logs = text "unexpected logs, this should not happen"

abbrev pub bad_instructions : String
bad_instructions = text "failed to parse TeeInstructionsSent event: "

module _ {W L : Type 0} (net : Net W L) (s : Support) where
  -- PreRegistration, which gives the challenge and the instruction's id; `rsv_to_vrs` is
  -- TransformSignatureRSVtoVRS
  unfoldable pub pre_registration :
      (List ℕ → List ℕ) → String → ℕ → MachineData → List ℕ → Exec W (ℕ × ℕ)
  pre_registration rsv_to_vrs host_url proxy_id machine signature = do
    keyed_transactor s.chain_id
    require (length signature == 65) (text "signature error")
    t ← within (text "error: ") (
        transact net (
          request s.prv registration_value (
            register_machine machine (signature_of (rsv_to_vrs signature)) proxy_id host_url
              s.prv)))
    receipt ← check_tx net t.0
    require (not (ltb (length receipt.logs) 2)) unexpected_logs
    challenge ←
        within (text "failed to parse TeeAttestationRequested event: ")
          (lift (second_log [] net.parse_attestation_requested receipt.logs))
    id ← within bad_instructions (lift (first_log [] net.parse_instructions_sent receipt.logs))
    pure (challenge, id)

  -- RequestTeeAttestation
  unfoldable pub request_tee_attestation : ℕ → Exec W ℕ
  request_tee_attestation tee_id = do
    keyed_transactor s.chain_id
    t ←
        within (text "error: ")
          (transact net (request s.prv registration_value (request_attestation tee_id s.prv)))
    receipt ← check_tx net t.0
    require (not (ltb (length receipt.logs) 2)) unexpected_logs
    within bad_instructions (lift (first_log [] net.parse_instructions_sent receipt.logs))

  -- RequestFTDCAvailabilityCheck; what diagAvailabilityCheckRevert logs of a refusal is left out
  unfoldable pub request_ftdc_availability_check : ℕ → ℕ → ℕ → Exec W ℕ
  request_ftdc_availability_check tee_id external_tee_id attest_id = do
    keyed_transactor s.chain_id
    t ← within [] (
        transact net (
          request s.prv registration_value
            (request_check tee_id attest_id external_tee_id s.prv s.prv)))
    receipt ← check_tx net t.0
    require (ltb 0 (length receipt.logs)) (text "no logs found in receipt")
    within bad_instructions (lift (first_log [] net.parse_instructions_sent receipt.logs))

  -- ToProduction
  unfoldable pub puts_to_production : Proof → Exec W (Unit {0})
  puts_to_production proof = do
    keyed_transactor s.chain_id
    t ← within [] (transact net (request s.prv 0 (to_production proof)))
    check_tx net t.0
    tee_id ← query (net.get_tee_machine proof.tee_id)
    require (tee_id == proof.tee_id) (text "tee machine not set up correctly")

  -- AddTeeVersion, with the address of the key that it is given
  unfoldable pub adds_tee_version : ℕ → ℕ → ℕ → ℕ → ℕ → String → Exec W (Unit {0})
  adds_tee_version key id code_hash platform governance_hash version = do
    keyed_transactor s.chain_id
    t ← within (text "TeeExtensionRegistry.AddTeeVersion failed: ") (
        transact net
          (request key 0 (add_tee_version id version code_hash (platform ∷ []) governance_hash)))
    check_tx net t.0
    pure tt
