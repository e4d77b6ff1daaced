-- ===== src/Tools.antt =====
-- tools/pkg: what the deployment tools share. A tool works on a chain that it only sees through
-- go-ethereum's client and the contracts' bindings: these are the parameters of a `Net`. The error of a
-- Go function is its text.
mod Examples
mod Cases
mod Acknowledgements
pub mod Text
pub mod Rules
pub mod Mined
pub mod Granting
pub mod Revert
pub mod Support
pub mod Addresses
pub mod Setup
pub mod Senders
pub mod Version
pub mod Orders
pub mod Diag
pub mod Deploying
pub mod Polling
pub mod Acknowledged
pub mod RunTest
pub mod Machine
use darkstop.Base.{
  ℕ, ◌+◌, ◌≡◌, refl, Bool, true, false, Option, none, some, List, [], ◌∷◌, ◌++◌, if◌then◌else◌,
}
use darkstop.Policy.{String}

pub data Result (A : Type 0) : Type 0 where
  ok : A → Result A
  err : String → Result A

-- The data of a JSON-RPC error, as its ErrorData() gives it.
pub data ErrorData : Type 0 where
  no_data : ErrorData
  hex_data : String → ErrorData
  bytes_data : List ℕ → ErrorData

pub record RpcError : Type 0 where
  pub message : String
  pub error_data : ErrorData

-- What a call of the client gives: a value, or the error with its data.
pub data Answer (A : Type 0) : Type 0 where
  gives : A → Answer A
  refuses : RpcError → Answer A

-- machinemanager.IMachineManagerTeeMachineData
pub record MachineData : Type 0 where
  pub extension_id : ℕ
  pub initial_owner : ℕ
  pub code_hash : ℕ
  pub platform : ℕ
  pub public_key : ℕ × ℕ

-- machinemanager.Signature
pub record Signature : Type 0 where
  pub v : ℕ
  pub r : List ℕ
  pub s : List ℕ

-- machinemanager.ITeeAvailabilityCheckProof: of the request's body the machine that it is about, and the
-- rest of it; the other parts are numbers.
pub record Proof : Type 0 where
  pub signatures : ℕ
  pub header : ℕ
  pub tee_id : ℕ
  pub request : ℕ
  pub response : ℕ

-- The methods of the contracts that the tools send transactions to.
pub data Message : Type 0 where
  register_extension : ℕ → ℕ → Message
  allow_machine_owners : ℕ → List ℕ → Message
  allow_project_owners : ℕ → List ℕ → Message
  add_key_types : ℕ → List ℕ → Message
  register_machine : MachineData → Signature → ℕ → String → ℕ → Message
  request_attestation : ℕ → ℕ → Message
  request_check : ℕ → ℕ → ℕ → ℕ → ℕ → Message
  to_production : Proof → Message
  add_tee_version : ℕ → String → ℕ → List ℕ → ℕ → Message
  deploy_token : Message
  deploy_vault : ℕ → ℕ → ℕ → ℕ → ℕ → Message
  mint : ℕ → ℕ → ℕ → Message
  set_tee_executor : ℕ → ℕ → Message
  set_extension_id : ℕ → Message
  place_order : ℕ → List ℕ → Message

-- bind.TransactOpts with the method: the sender's address, the value in wei, and the method.
pub record Request : Type 0 where
  pub from : ℕ
  pub value : ℕ
  pub message : Message

-- ethereum.CallMsg, of an eth_call that replays a method. The call's data is the method's.
pub record CallMsg : Type 0 where
  pub from : ℕ
  pub to : ℕ
  pub value : ℕ
  pub message : Message

pub record Receipt (L : Type 0) : Type 0 where
  pub status : ℕ
  pub logs : List L
  pub tx_hash : ℕ

-- The chain, with its state in W and its logs in L. `send` is a method of a binding, which signs and
-- sends a transaction and gives its hash, with the address of the contract if it deploys one;
-- `wait_mined` is bind.WaitMined; `replay` is what eth_call gives for a transaction that was sent, with
-- the fields that getFailingMessage copies, and `find_transaction` the
-- sender that it recovers first. The rest are the view methods, the
-- parsers of events, and abi.UnpackRevert.
pub record Net (W L : Type 0) : Type 0 where
  pub send : Request → W → Answer (ℕ × ℕ) × W
  pub wait_mined : ℕ → W → Result (Receipt L) × W
  pub find_transaction : ℕ → W → Result ℕ
  pub replay : ℕ → ℕ → W → Answer (List ℕ)
  pub call_contract : CallMsg → W → Answer (List ℕ)
  pub is_machine_owner : ℕ → ℕ → W → Result Bool
  pub is_project_owner : ℕ → ℕ → W → Result Bool
  pub is_key_type_supported : ℕ → ℕ → W → Result Bool
  pub is_version_supported : ℕ → ℕ → ℕ → W → Result Bool
  pub get_tee_machine : ℕ → W → Result ℕ
  pub parse_extension_registered : L → Result ℕ
  pub parse_contracts_set : L → Result (Unit {0})
  pub parse_machine_owners_added : L → Result (Unit {0})
  pub parse_project_owners_added : L → Result (Unit {0})
  pub parse_attestation_requested : L → Result ℕ
  pub parse_instructions_sent : L → Result ℕ
  pub parse_order_placed : L → Result ℕ
  pub unpack_revert : List ℕ → Option String

-- A run of a tool: the chain's state, and the transactions that the tool asked for, the last one first.
pub record Run (W : Type 0) : Type 0 where
  pub world : W
  pub sent : List Request

abbrev pub Exec : Type 0 → Type 0 → Type 0
Exec W A = Run W → Result A × Run W

-- if err != nil { return errors.Errorf(prefix + "%s", err) }
abbrev pub prefixed : {A : Type 0} → String → Result A → Result A
prefixed prefix (ok a) = ok a
prefixed prefix (err e) = err (prefix ++ e)

abbrev pub then_result : {A B : Type 0} → Result A → (A → Result B) → Result B
then_result (ok a) f = f a
then_result (err e) f = err e

pub then_given :
    {A B : Type 0} (r : Result A) (f : A → Result B) (b : B)
    → then_result r f ≡ ok b
    → (a : A) × (r ≡ ok a) × (f a ≡ ok b)
then_given (ok a) f b h = (a, refl, h)
then_given (err e) f b h = cc

module _ {W A : Type 0} where
  unfoldable pub pure : A → Exec W A
  pure a s = (ok a, s)

  unfoldable pub raise : String → Exec W A
  raise e s = (err e, s)

  -- A value, or an error, that does not move the chain.
  unfoldable pub lift : Result A → Exec W A
  lift r s = (r, s)

  unfoldable pub query : (W → Result A) → Exec W A
  query f s = (f s.world, s)

  -- An action under a longer text of its error.
  unfoldable pub within : String → Exec W A → Exec W A
  within prefix m s = let (r, s') = m s in (prefixed prefix r, s')

module _ {W A B : Type 0} where
  abbrev pub continue : Result A → (A → Exec W B) → Exec W B
  continue (ok a) f s = f a s
  continue (err e) f s = (err e, s)

  infixl 5 ◌>>=◌ ◌>>◌
  -- Opening this opens the actions above too.
  unfoldable pub ◌>>=◌ : Exec W A → (A → Exec W B) → Exec W B
  unfolding pure raise lift query within
  ◌>>=◌ m f s = let (r, s') = m s in continue r f s'

  abbrev pub ◌>>◌ : Exec W A → Exec W B → Exec W B
  m >> k = m >>= λ _. k

unfoldable pub require : {W : Type 0} → Bool → String → Exec W (Unit {0})
require b e s = (if b then ok tt else err e, s)

abbrev pub accepted : Answer (ℕ × ℕ) → Result (ℕ × ℕ)
accepted (gives t) = ok t
accepted (refuses e) = err e.message

module _ {W L : Type 0} (net : Net W L) where
  -- A method that sends a transaction.
  unfoldable pub sends : Request → Run W → Answer (ℕ × ℕ) × Run W
  sends r s = let (a, w) = net.send r s.world in (a, record { world = w; sent = r ∷ s.sent })

  -- The same where the caller looks at the error's text only.
  unfoldable pub transact : Request → Exec W (ℕ × ℕ)
  transact r s = let (a, s') = sends r s in (accepted a, s')

  unfoldable pub waits : ℕ → Exec W (Receipt L)
  waits tx s = let (r, w) = net.wait_mined tx s.world in (r, record s { world = w })
