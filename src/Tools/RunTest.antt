-- ===== src/Tools/RunTest.antt =====
-- tools/cmd/run-test/main.go: the test of a deployment, which places an order and checks the enclave's
-- answer. HTTP, JSON, ECIES and the vault's binding are parameters.
pub mod Tested
mod Examples
use darkstop.Base.{
  ℕ, zero, suc, ◌+◌, Bool, true, false, not, ◌||◌, Option, none, some, List, ◌∷◌, [], ◌++◌, ◌==◌,
  if◌then◌else◌, length,
}
use darkstop.Base.Big.{ℤ, pos, negsuc}
use darkstop.Base.Decimal.{decimal_text}
use darkstop.Policy.{String, set_string}
use darkstop.Policy.Printing.{client_plaintext}
use darkstop.Tools.{
  Result, ok, err, then_result, prefixed, Message, Net, Exec, pure, raise, lift, query, within,
  require, ◌>>=◌, ◌>>◌,
}
use darkstop.Tools.Text.{text, contains_text}
use darkstop.Tools.Support.{Support}
use darkstop.Tools.Polling.{Response, ActionResult}
use darkstop.Tools.Acknowledged.{Answered, quoted, verify_place_order_result}
use darkstop.Tools.Orders.{sets_extension_id, send_place_order}

-- What the test asks of the proxy, of ECIES and of the vault's getter: the answer to GET /state, the
-- public key in its JSON, hexutil.Decode, UnmarshalPubkey and Encrypt; INSTRUCTION_FEE; and the answers
-- to the requests for an instruction's result, with the decoders of the result and of its data.
pub record Enclave (W K : Type 0) : Type 0 where
  pub state_answer : Result Response
  pub read_state : String → Result String
  pub hex_decode : String → Result (List ℕ)
  pub parse_key : List ℕ → Result K
  pub encrypt : K → String → Result (List ℕ)
  pub instruction_fee : W → Result ℕ
  pub answers : ℕ → ℕ → Result Response
  pub read_result : String → Result ActionResult
  pub read_data : String → Result Answered

-- SetString in base 10 and Sign() <= 0
abbrev amount_of : String → Option ℤ → Result ℕ
amount_of invalid none = err invalid
amount_of invalid (some (pos zero)) = err invalid
amount_of invalid (some (pos (suc n))) = ok (suc n)
amount_of invalid (some (negsuc n)) = err invalid

unfoldable pub positive_amount : String → String → Result ℕ
positive_amount name s =
    amount_of (text "invalid -" ++ name ++ text ": " ++ quoted s) (set_string s)

module _ {W K : Type 0} (e : Enclave W K) where
  abbrev key_of_text : String → Result K
  key_of_text key =
      if length key == 0
      then err (text "state response has empty encryptionPubKey")
      else then_result (prefixed (text "decoding encryptionPubKey hex: ") (e.hex_decode key))
          λ raw. prefixed (text "parsing encryptionPubKey: ") (e.parse_key raw)

  abbrev key_of_response : Response → Result K
  key_of_response r =
      if not (r.status_code == 200)
      then err (text "GET /state: unexpected status " ++ decimal_text r.status_code)
      else then_result (prefixed (text "decoding state response: ") (e.read_state r.body))
          key_of_text

  -- fetchEncryptionKey
  unfoldable pub fetch_encryption_key : Result K
  fetch_encryption_key = then_result (prefixed (text "GET /state: ") e.state_answer) key_of_response

  -- encryptToExtension
  unfoldable pub encrypt_to_extension : K → String → Result (List ℕ)
  encrypt_to_extension key plaintext = prefixed (text "ecies encrypt: ") (e.encrypt key plaintext)

module _ {W L K : Type 0} (net : Net W L) (s : Support) (packs : Message → Bool) (e : Enclave W K)
    (bound : Result (Unit {0})) (vault : ℕ) where
  -- An extension id that is set already is no error.
  unfoldable pub on_set : Result (Unit {0}) → Exec W (Unit {0})
  on_set (ok u) = pure tt
  on_set (err message) =
      if contains_text message (text "already set")
        || contains_text message (text "Extension ID already set")
      then pure tt
      else raise (
          text "setExtensionId failed "
          ++ 226
            ∷ 128
            ∷ 148
            ∷ text
                " is the extension registered? Check that pre-build.sh completed successfully. Error: "
          ++ message)

  unfoldable pub configures : Exec W (Unit {0})
  configures run = let (r, run') = sets_extension_id net s packs bound vault run in on_set r run'

  -- The order of `trigger` with a deposit, and the check of the enclave's answer.
  unfoldable pub places : ℕ → ℕ → Exec W (Unit {0})
  places deposit trigger = do
    key ← lift (fetch_encryption_key e)
    ciphertext ← lift (encrypt_to_extension e key (client_plaintext trigger))
    lift bound
    fee ← within (text "reading INSTRUCTION_FEE: ") (query e.instruction_fee)
    ids ← send_place_order net s packs bound vault ciphertext (fee + deposit)
    lift (verify_place_order_result e.read_data e.read_result (e.answers ids.0) ids.1)

  -- The program from its support on. In the source the amounts are read before the support is there; no
  -- transaction is sent in between.
  unfoldable pub run_test : String → String → Exec W (Unit {0})
  run_test deposit_text trigger_text = do
    require (not (vault == 0)) (text "--instructionSender (vault address) is required")
    deposit ← lift (positive_amount (text "deposit") deposit_text)
    trigger ← lift (positive_amount (text "trigger") trigger_text)
    configures
    places deposit trigger
