-- ===== src/Registration/Resuming.antt =====
-- tools/pkg/fccutils/registration.go: what a resumed registration does again, and what it checks.
use darkstop.Base.{ℕ, ◌≡◌, refl, ◌⊎◌, inr, Bool, true, false, some, [], All, arith}
use darkstop.Registration.{
  State, File, Command, Chain, Call, pre_registers, requests_attestation, requests_check,
  puts_to_production, Progress, Outcome, and_then, load_state, registered, pre_registered,
  step_register, attested, step_attest, checked, step_check, produced, step_produce, from_produce,
  from_check, from_attest, cleared, run, run_from, register_node,
}

-- The call is not one of a step that the state has.
abbrev pub IsNew : State → Call → Type 0
IsNew s pre_registers = s.has_registered ≡ false
IsNew s requests_attestation = s.has_attestation ≡ false
IsNew s (requests_check id) = s.has_check ≡ false
IsNew s (puts_to_production proof) = Unit

-- So far the calls are new, and the state has all steps that it had.
abbrev Fresh : State → Progress → Type 0
Fresh s p =
    All (IsNew s) p.calls
    × (s.has_registered ≡ true → p.state.has_registered ≡ true)
    × (s.has_attestation ≡ true → p.state.has_attestation ≡ true)
    × (s.has_check ≡ true → p.state.has_check ≡ true)

module _ (chain : Chain) (s : State) where
  step_register-Fresh : (b : Bool) (p : Progress) → Fresh s p → Fresh s (step_register chain b p).1
  unfolding step_register pre_registered registered
  step_register-Fresh b p h = ground (arith, h)

  step_attest-Fresh : (b : Bool) (p : Progress) → Fresh s p → Fresh s (step_attest chain b p).1
  unfolding step_attest attested
  step_attest-Fresh b p h = ground (arith, h)

  step_check-Fresh :
      (b : Bool) (n : ℕ) (p : Progress) → Fresh s p → Fresh s (step_check chain b n p).1
  unfolding step_check checked
  step_check-Fresh b n p h = ground (arith, h)

  step_produce-Fresh : (b : Bool) (p : Progress) → Fresh s p → Fresh s (step_produce chain b p).1
  unfolding step_produce produced
  step_produce-Fresh b p h = ground (arith, h)

-- A property of the progress goes through a run.
and_then-keeps :
    (P : Progress → Type 0) (o : Outcome) (f : Progress → Outcome)
    → P o.1
    → ((p : Progress) → P p → P (f p).1)
    → P (and_then o f).1
and_then-keeps P (true, p) f h k = k p h
and_then-keeps P (false, p) f h k = h

module _ (chain : Chain) where
  module _ (s : State) (c : Command) where
    from_produce-Fresh : (p : Progress) → Fresh s p → Fresh s (from_produce chain c p).1
    unfolding from_produce
    from_produce-Fresh p h =
        and_then-keeps (Fresh s) (step_produce chain c.produces p) (cleared chain)
          (step_produce-Fresh chain s c.produces p h) (λ p h. h)

    from_check-Fresh :
        (given : ℕ) (p : Progress) → Fresh s p → Fresh s (from_check chain c given p).1
    unfolding from_check
    from_check-Fresh given p h =
        and_then-keeps (Fresh s) (step_check chain c.checks given p) (from_produce chain c)
          (step_check-Fresh chain s c.checks given p h) from_produce-Fresh

    from_attest-Fresh :
        (given : ℕ) (p : Progress) → Fresh s p → Fresh s (from_attest chain c given p).1
    unfolding from_attest
    from_attest-Fresh given p h =
        and_then-keeps (Fresh s) (step_attest chain c.attests p) (from_check chain c given)
          (step_attest-Fresh chain s c.attests p h) (from_check-Fresh given)

    run-Fresh : (given : ℕ) (p : Progress) → Fresh s p → Fresh s (run chain c given p).1
    unfolding run
    run-Fresh given p h =
        and_then-keeps (Fresh s) (step_register chain c.registers p) (from_attest chain c given)
          (step_register-Fresh chain s c.registers p h) (from_attest-Fresh given)

  -- A run of RegisterNode never sends again the transaction of a step that the loaded state has as
  -- completed, whatever the command, the contracts and the file system do.
  pub register_node-IsNew :
      (s : State) (c : Command) (given : ℕ) (file : File)
      → load_state file ≡ some s
      → All (IsNew s) (register_node chain c given file).1.calls
  unfolding register_node run_from
  register_node-IsNew s c given file e = rw e (
      (run-Fresh s c given
        (record { state = s; attest_id = 0; check_id = 0; file = file; calls = [] })
        (tt, (λ h. h), (λ h. h), (λ h. h))).0)

-- The identifier is that of an attestation: one that this run requested, or one that the state has.
abbrev pub IsAttestation : Chain → State → ℕ → Type 0
IsAttestation chain s id =
    (chain.request_attestation ≡ some id)
    ⊎ ((s.has_attestation ≡ true) × (s.tee_attest_instruction_id ≡ id))

abbrev pub IsAttested : Chain → State → Call → Type 0
IsAttested chain s (requests_check id) = IsAttestation chain s id
IsAttested chain s pre_registers = Unit
IsAttested chain s requests_attestation = Unit
IsAttested chain s (puts_to_production proof) = Unit

-- Before the step R: no check is requested, and an attestation that the state has is the one it had. A
-- step r that is done again would write its own identifier over it.
abbrev Before : Chain → State → Progress → Type 0
Before chain s p =
    All (IsAttested chain s) p.calls
    × (p.state.has_attestation ≡ true → IsAttestation chain s p.state.tee_attest_instruction_id)

abbrev After : Chain → State → Progress → Type 0
After chain s p = All (IsAttested chain s) p.calls × IsAttestation chain s p.attest_id

module _ (chain : Chain) (s : State) where
  step_attest-After :
      (b : Bool) (p : Progress)
      → b ≡ true
      → Before chain s p
      → (step_attest chain b p).0 ≡ true
      → After chain s (step_attest chain b p).1
  unfolding step_attest attested
  step_attest-After b p wanted h e = ground (arith, h)

  step_attest-failed :
      (b : Bool) (p : Progress)
      → Before chain s p
      → All (IsAttested chain s) (step_attest chain b p).1.calls
  unfolding step_attest attested
  step_attest-failed b p h = ground (arith, h)

  step_check-Attested :
      (b : Bool) (given : ℕ) (p : Progress)
      → After chain s p
      → All (IsAttested chain s) (step_check chain b given p).1.calls
  unfolding step_check checked
  step_check-Attested b given p h = ground (arith, h)

  step_produce-Attested :
      (b : Bool) (p : Progress)
      → All (IsAttested chain s) p.calls
      → All (IsAttested chain s) (step_produce chain b p).1.calls
  unfolding step_produce produced
  step_produce-Attested b p h = ground (arith, h)

  step_register-Before :
      (b : Bool) (p : Progress)
      → (p.state.has_attestation ≡ true → p.state.has_registered ≡ true)
      → Before chain s p
      → Before chain s (step_register chain b p).1
  unfolding step_register pre_registered registered
  step_register-Before b p o h = ground (arith, h, o)

and_then-either :
    (P : Progress → Type 0) (o : Outcome) (f : Progress → Outcome)
    → P o.1
    → (o.0 ≡ true → P (f o.1).1)
    → P (and_then o f).1
and_then-either P (true, p) f h k = k refl
and_then-either P (false, p) f h k = h

module _ (chain : Chain) (s : State) (c : Command) (given : ℕ) where
  abbrev Attested : Progress → Type 0
  Attested p = All (IsAttested chain s) p.calls

  from_produce-Attested : (p : Progress) → Attested p → Attested (from_produce chain c p).1
  unfolding from_produce
  from_produce-Attested p h =
      and_then-keeps Attested (step_produce chain c.produces p) (cleared chain)
        (step_produce-Attested chain s c.produces p h) (λ p h. h)

  from_check-Attested : (p : Progress) → After chain s p → Attested (from_check chain c given p).1
  unfolding from_check
  from_check-Attested p h =
      and_then-keeps Attested (step_check chain c.checks given p) (from_produce chain c)
        (step_check-Attested chain s c.checks given p h) from_produce-Attested

  from_attest-Attested :
      (p : Progress)
      → c.attests ≡ true
      → Before chain s p
      → Attested (from_attest chain c given p).1
  unfolding from_attest
  from_attest-Attested p e h =
      and_then-either Attested (step_attest chain c.attests p) (from_check chain c given)
        (step_attest-failed chain s c.attests p h)
        (λ went.
          from_check-Attested (step_attest chain c.attests p).1
            (step_attest-After chain s c.attests p e h went))

  run-Attested :
      (p : Progress)
      → c.attests ≡ true
      → (p.state.has_attestation ≡ true → p.state.has_registered ≡ true)
      → Before chain s p
      → Attested (run chain c given p).1
  unfolding run
  run-Attested p e o h =
      let b = step_register-Before chain s c.registers p o h in
      and_then-either Attested (step_register chain c.registers p) (from_attest chain c given) b.0
        (λ _. from_attest-Attested (step_register chain c.registers p).1 e b)

-- With the letter R in the command, and a loaded state that has R only with r, every availability
-- check that RegisterNode requests is for the attestation that this run requested or that the
-- loaded state has.
pub register_node-IsAttested :
    (chain : Chain) (s : State) (c : Command) (given : ℕ) (file : File)
    → load_state file ≡ some s
    → c.attests ≡ true
    → (s.has_attestation ≡ true → s.has_registered ≡ true)
    → All (IsAttested chain s) (register_node chain c given file).1.calls
unfolding register_node run_from
register_node-IsAttested chain s c given file e r o = rw e (
    run-Attested chain s c given
      (record { state = s; attest_id = 0; check_id = 0; file = file; calls = [] }) r o
      (tt, λ h. inr (h, refl)))
