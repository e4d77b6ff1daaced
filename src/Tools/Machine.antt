-- ===== src/Tools/Machine.antt =====
-- tools/pkg/fccutils/common.go and tee_calls.go: what a proxy says of its machine, and the check of it by
-- tools/cmd/register-tee/main.go before a registration. The keys, the hash of the info and the claims of an
-- attestation are read by libraries, which are parameters.
mod Examples
use darkstop.Base.{ℕ, ◌≡◌, ap, ◌∙◌, Bool, false, not, List, ◌∷◌, ◌++◌, ◌==◌, if◌then◌else◌}
use darkstop.Base.Decimal.{decimal_text}
use darkstop.Policy.{String}
use darkstop.Registration.{Chain, Command, File, Outcome, begun, new_state, register_node}
use darkstop.Tools.{Result, ok, err, then_result, MachineData}
use darkstop.Tools.Text.{text, hash_hex}
use darkstop.Tools.Polling.{Response}

-- types.SignedTeeInfoResponse
pub record Info : Type 0 where
  pub machine : MachineData
  pub attestation : String
  pub proxy_signature : List ℕ

-- The claims of an attestation that are needed.
pub record Claims : Type 0 where
  pub code_hash : Result ℕ
  pub platform : Result ℕ

-- ParsePubKey as the key's address, Hash, SigToPub as the key's address, and the parser of an attestation.
pub record Libraries : Type 0 where
  pub parse_key : ℕ × ℕ → Result ℕ
  pub info_hash : Info → Result ℕ
  pub signer : ℕ → List ℕ → Result ℕ
  pub claims : String → Result Claims

-- TeeInfo, from the answer to GET /info on; `decode` reads its body
unfoldable pub tee_info : (String → Result Info) → Result Response → Result Info
tee_info decode answer = then_result answer λ r. decode r.body

-- TEST_PLATFORM, and the code hash of a simulated machine
abbrev pub test_platform : ℕ
test_platform = 0x544553545f504c4154464f524d00000000000000000000000000000000000000

abbrev pub tee_code_hash : ℕ
tee_code_hash = 0x194844cf417dde867073e5ab7199fa4d21fd82b5dbe2bdea8b3d7fc18d10fdc2

module _ (lib : Libraries) where
  -- TeeProxyId: the addresses of the machine and of its proxy
  unfoldable pub tee_proxy_id : Info → Result (ℕ × ℕ)
  tee_proxy_id i = then_result (lib.parse_key i.machine.public_key) λ tee_id.
      then_result (lib.info_hash i)
        λ hash. then_result (lib.signer hash i.proxy_signature) λ proxy_id. ok (tee_id, proxy_id)

  -- GetTeeProxyID
  unfoldable pub get_tee_proxy_id : Result Info → Result (ℕ × ℕ)
  get_tee_proxy_id info = then_result info tee_proxy_id

  -- CodeHashAndPlatform
  unfoldable pub code_hash_and_platform : String → Result (ℕ × ℕ)
  code_hash_and_platform attestation = then_result (lib.claims attestation) λ c.
      then_result c.code_hash
        λ code_hash. then_result c.platform λ platform. ok (code_hash, platform)

  -- What the machine has to be: of a simulated one, the constants.
  unfoldable pub expected : Bool → Info → Result (ℕ × ℕ)
  expected simulated i =
      if simulated then ok (tee_code_hash, test_platform) else code_hash_and_platform i.attestation

  unfoldable pub compared : MachineData → ℕ × ℕ → Result (ℕ × ℕ)
  compared m (code_hash, platform) =
      if not (code_hash == m.code_hash)
      then err (
          text "code hashes do not match: "
          ++ hash_hex code_hash
          ++ text ", "
          ++ hash_hex m.code_hash)
      else if not (platform == m.platform)
      then err
          (text "platforms do not matc: " ++ hash_hex platform ++ text ", " ++ hash_hex m.platform)
      else ok (code_hash, platform)

  -- GetCodeHashAndPlatform
  unfoldable pub get_code_hash_and_platform : Bool → Info → Result (ℕ × ℕ)
  get_code_hash_and_platform simulated i = then_result (expected simulated i) (compared i.machine)

  -- What register-tee asks before RegisterNode.
  unfoldable pub checks_machine : Bool → Result Info → Result Info → Result (ℕ × ℕ)
  checks_machine simulated info external = then_result info λ i.
      then_result (tee_proxy_id i) λ ids.
        then_result (get_tee_proxy_id external) λ ftdc. get_code_hash_and_platform simulated i

  module _ (chain : Chain) where
    unfoldable pub register_checked : Command → ℕ → File → Result (ℕ × ℕ) → Outcome
    register_checked command given file (err e) = (false, begun chain new_state file)
    register_checked command given file (ok h) = register_node chain command given file

    -- The program from its support on. In the source the file is removed before the support is there.
    unfoldable pub register_tee :
        Bool → Bool → Result Info → Result Info → Command → ℕ → File → Outcome
    register_tee resume simulated info external command given file =
        register_checked command given (if resume then file else chain.remove file)
          (checks_machine simulated info external)

-- The machine is what its attestation says, or a simulated one says what the constants say.
abbrev pub IsGenuine : Libraries → Bool → Info → Type 0
IsGenuine lib simulated i = expected lib simulated i ≡ ok (i.machine.code_hash, i.machine.platform)
