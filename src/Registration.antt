-- ===== src/Registration.antt =====
-- tools/pkg/fccutils/registration.go: RegisterNode, which registers a machine in steps that a state file
-- remembers, from the machine's and the proxy's addresses on. The contracts' calls and the file system are parameters; a hash is a number, 0 if it is the
-- zero hash, and an error is `none` or `false`.
mod Examples
pub mod Resuming
use darkstop.Base.{ℕ, Bool, true, false, not, Option, none, some, List, [], ◌∷◌, if◌then◌else◌}

-- registrationState: of CompletedSteps the code asks only which of the letters r, R and a it contains.
pub record State : Type 0 where
  pub has_registered : Bool
  pub has_attestation : Bool
  pub has_check : Bool
  pub tee_attest_instruction_id : ℕ
  pub instruction_id : ℕ

abbrev pub new_state : State
new_state = record {
  has_registered = false;
  has_attestation = false;
  has_check = false;
  tee_attest_instruction_id = 0;
  instruction_id = 0;
}

pub data File : Type 0 where
  missing unreadable : File
  stored : State → File

-- The command contains the letters r, R, a and p.
pub record Command : Type 0 where
  pub registers : Bool
  pub attests : Bool
  pub checks : Bool
  pub produces : Bool

-- `is_registered` is whether GetTeeMachine answers with a machine; `save` and `remove` are what the file
-- is after saveState and os.Remove, whose errors are passed over.
pub record Chain : Type 0 where
  pub is_registered : Bool
  pub pre_registration : Option ℕ
  pub request_attestation : Option ℕ
  pub request_check : ℕ → Option ℕ
  pub check_result : ℕ → Option ℕ
  pub to_production : ℕ → Bool
  pub save : State → File → File
  pub remove : File → File

-- The functions that a run calls to send a transaction.
pub data Call : Type 0 where
  pre_registers requests_attestation : Call
  requests_check : ℕ → Call
  puts_to_production : ℕ → Call

-- The state, the local variables and the file in the course of a run, and the calls so far, the last one
-- first.
pub record Progress : Type 0 where
  pub state : State
  pub attest_id : ℕ
  pub check_id : ℕ
  pub file : File
  pub calls : List Call

-- Whether the run goes on, and how far it has come.
abbrev pub Outcome : Type 0
Outcome = Bool × Progress

abbrev pub and_then : Outcome → (Progress → Outcome) → Outcome
and_then o f = if o.0 then f o.1 else o

-- loadState
unfoldable pub load_state : File → Option State
load_state missing = some new_state
load_state unreadable = none
load_state (stored s) = some s

module _ (chain : Chain) where
  abbrev saved : State → Progress → Progress
  saved s p = record p { state = s; file = chain.save s p.file }

  unfoldable pub registered : ℕ → Progress → Progress
  registered id p =
      saved (record p.state { has_registered = true; tee_attest_instruction_id = id })
        (record p { attest_id = id })

  unfoldable pub pre_registered : Option ℕ → Progress → Outcome
  pre_registered none p = (false, record p { calls = pre_registers ∷ p.calls })
  pre_registered (some id) p = (true, registered id (record p { calls = pre_registers ∷ p.calls }))

  -- The step r; the identifier is 0 if the machine is registered already.
  unfoldable pub step_register : Bool → Progress → Outcome
  step_register wanted p =
      if not wanted
      then (true, p)
      else if p.state.has_registered
      then (true, record p { attest_id = p.state.tee_attest_instruction_id })
      else if chain.is_registered
      then (true, registered p.attest_id p)
      else pre_registered chain.pre_registration p

  unfoldable pub attested : Option ℕ → Progress → Outcome
  attested none p = (false, record p { calls = requests_attestation ∷ p.calls })
  attested (some id) p = (
    true,
    saved (record p.state { has_attestation = true; tee_attest_instruction_id = id })
        (record p { attest_id = id; calls = requests_attestation ∷ p.calls }),
  )

  -- The step R.
  unfoldable pub step_attest : Bool → Progress → Outcome
  step_attest wanted p =
      if not wanted
      then (true, p)
      else if p.state.has_attestation
      then (true, record p { attest_id = p.state.tee_attest_instruction_id })
      else attested chain.request_attestation p

  unfoldable pub checked : Option ℕ → Progress → Outcome
  checked none p = (false, record p { calls = requests_check p.attest_id ∷ p.calls })
  checked (some id) p = (
    true,
    saved (record p.state { has_check = true; instruction_id = id })
        (record p { check_id = id; calls = requests_check p.attest_id ∷ p.calls }),
  )

  -- The step a; `given` is the identifier of the command line.
  unfoldable pub step_check : Bool → ℕ → Progress → Outcome
  step_check wanted given p =
      if not wanted
      then (true, record p { check_id = given })
      else if p.state.has_check
      then (true, record p { check_id = p.state.instruction_id })
      else checked (chain.request_check p.attest_id) p

  unfoldable pub produced : Option ℕ → Progress → Outcome
  produced none p = (false, p)
  produced (some proof) p =
      (chain.to_production proof, record p { calls = puts_to_production proof ∷ p.calls })

  -- The step p.
  unfoldable pub step_produce : Bool → Progress → Outcome
  step_produce wanted p =
      if not wanted then (true, p) else produced (chain.check_result p.check_id) p

  abbrev pub cleared : Progress → Outcome
  cleared p = (true, record p { file = chain.remove p.file })

  abbrev pub begun : State → File → Progress
  begun s file = record { state = s; attest_id = 0; check_id = 0; file = file; calls = [] }

  -- The run from each step on.
  unfoldable pub from_produce : Command → Progress → Outcome
  from_produce command p = and_then (step_produce command.produces p) cleared

  unfoldable pub from_check : Command → ℕ → Progress → Outcome
  from_check command given p = and_then (step_check command.checks given p) (from_produce command)

  unfoldable pub from_attest : Command → ℕ → Progress → Outcome
  from_attest command given p = and_then (step_attest command.attests p) (from_check command given)

  unfoldable pub run : Command → ℕ → Progress → Outcome
  run command given p = and_then (step_register command.registers p) (from_attest command given)

  unfoldable pub run_from : Command → ℕ → File → Option State → Outcome
  run_from command given file none = (false, begun new_state file)
  run_from command given file (some s) = run command given (begun s file)

  -- RegisterNode
  unfoldable pub register_node : Command → ℕ → File → Outcome
  register_node command given file = run_from command given file (load_state file)
