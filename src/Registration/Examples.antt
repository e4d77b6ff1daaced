-- ===== src/Registration/Examples.antt =====
-- Registrations of tools/pkg/fccutils/registration.go on a concrete chain, and the theorems there.
use darkstop.Base.{◌+◌, ◌≡◌, refl, true, false, none, some, [], ◌∷◌, All}
use darkstop.Registration.{
  State, new_state, missing, stored, Command, Chain, pre_registers, requests_attestation,
  requests_check, load_state, register_node, run_from, run, from_attest, from_check, from_produce,
  step_register, step_attest, step_check, step_produce, registered, pre_registered, attested,
  checked, produced,
}
use darkstop.Registration.Resuming.{
  IsNew, IsAttested, register_node-IsNew, register_node-IsAttested,
}

abbrev chain : Chain
chain = record {
  is_registered = false;
  pre_registration = some 11;
  request_attestation = some 12;
  request_check = λ id. some (id + 100);
  check_result = λ id. none;
  to_production = λ proof. true;
  save = λ s file. stored s;
  remove = λ file. missing;
}

-- rRap
abbrev all_steps : Command
all_steps = record { registers = true; attests = true; checks = true; produces = true }

-- The state after a run that failed at the step p.
abbrev resumed : State
resumed = record {
  has_registered = true;
  has_attestation = true;
  has_check = true;
  tee_attest_instruction_id = 12;
  instruction_id = 112;
}

first_run :
    (register_node chain all_steps 0 missing).1.calls
    ≡ requests_check 12 ∷ requests_attestation ∷ pre_registers ∷ []
unfolding register_node load_state run_from run from_attest from_check from_produce step_register
    step_attest step_check step_produce registered pre_registered attested checked produced
first_run = refl

first_file : (register_node chain all_steps 0 missing).1.file ≡ stored resumed
unfolding register_node load_state run_from run from_attest from_check from_produce step_register
    step_attest step_check step_produce registered pre_registered attested checked produced
first_file = refl

-- With the command ra and a machine that the chain knows, the check is requested for the zero hash.
zero_run :
    (register_node
      (record chain { is_registered = true })
      (record all_steps { attests = false; produces = false })
      0
      missing).1.calls
    ≡ requests_check 0 ∷ []
unfolding register_node load_state run_from run from_attest from_check from_produce step_register
    step_attest step_check step_produce registered pre_registered attested checked produced
zero_run = refl

register_node-IsNew_example :
    All (IsNew resumed) (register_node chain all_steps 0 (stored resumed)).1.calls
unfolding load_state
register_node-IsNew_example = register_node-IsNew chain resumed all_steps 0 (stored resumed) refl

register_node-IsAttested_example :
    All (IsAttested chain new_state) (register_node chain all_steps 0 missing).1.calls
unfolding load_state
register_node-IsAttested_example =
    register_node-IsAttested chain new_state all_steps 0 missing refl refl (λ h. cc)
