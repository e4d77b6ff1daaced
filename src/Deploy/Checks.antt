-- ===== src/Deploy/Checks.antt =====
-- tools/pkg/validate/checks.go: the checks of the deployment and of the registration. Each function gives
-- the results that it adds to the report, in order.
use darkstop.Base.{
  ℕ, zero, suc, ◌+◌, ◌-◌, ◌*◌, ◌%◌, ◌^◌, Bool, false, not, ◌&&◌, ◌||◌, Option, none, some, List, [],
  ◌∷◌, ◌++◌, ltb, ◌==◌, if◌then◌else◌, is_some,
}
use darkstop.Base.Big.{ℤ, pos, negsuc, is_zero}
use darkstop.Policy.{String, eq_string}
use darkstop.Deploy.{
  Status, pass, warn, fail, skip, Step, deploy, register, Check, d1, d3, d5_key, d5_funds, d6,
  d7_file, d7_sender, d7_id, r1_r7, r1, r2_format, r2, r3, r4, r7, CheckResult, Report,
}
use darkstop.Deploy.Site.{
  Client, Registry, Site, is_empty, string_true, min_deploy_balance, address_not_zero,
  address_has_code, key_has_funds,
}
use darkstop.Deploy.EnvFile.{
  Vars, var, read_vars, split_lines, key_extension_id, key_instruction_sender, Parsed,
  parse_extension_env, is_address, is_extension_id,
}

abbrev pub of : Step → Check → Status → CheckResult
of s c st = record { step = s; check = c; status = st }

abbrev pub verdict : Bool → Status
verdict b = if b then pass else fail

-- D3: one result for each address, by its label.
unfoldable pub zero_checks : List (ℕ × ℕ) → Report
zero_checks [] = []
zero_checks ((label, addr) ∷ addrs) =
    of deploy (d3 label) (verdict (address_not_zero addr)) ∷ zero_checks addrs

-- D1: one for each address that is not zero.
unfoldable pub code_checks : Option Client → List (ℕ × ℕ) → Report
code_checks client [] = []
code_checks client ((label, addr) ∷ addrs) =
    let rest = code_checks client addrs in
    if address_not_zero addr
    then of deploy (d1 label) (verdict (address_has_code client addr)) ∷ rest
    else rest

abbrev pub is_local : String → Bool
is_local mode = eq_string mode string_true || is_empty mode

-- CheckDeployerKeySource
unfoldable pub check_deployer_key_source : Site → CheckResult
check_deployer_key_source site =
    if not (is_empty site.env.deployment_private_key)
    then of deploy d5_key pass
    else if is_local site.env.local_mode
    then of deploy d5_key pass
    else of deploy d5_key warn

unfoldable pub funds_checks : Option Client → Option ℕ → Report
funds_checks (some client) (some addr) =
    of deploy d5_funds (verdict (key_has_funds (some client) addr min_deploy_balance)) ∷ []
funds_checks none key = []
funds_checks (some client) none = []

-- checkChainID
unfoldable pub check_chain_id : Client → CheckResult
check_chain_id client = of deploy d6 (verdict (is_some client.fetch_chain_id))

unfoldable pub chain_checks : Option Client → Report
chain_checks none = []
chain_checks (some client) = check_chain_id client ∷ []

-- One entry of extension.env, by its format.
abbrev pub format_status : (String → Bool) → Option String → Status
format_status format none = fail
format_status format (some val) = verdict (format val)

unfoldable pub format_checks : Vars → Report
format_checks vars =
    of deploy d7_sender (format_status is_address (var key_instruction_sender vars))
    ∷ of deploy d7_id (format_status is_extension_id (var key_extension_id vars))
    ∷ []

-- CheckExtensionEnvFormat
unfoldable pub check_extension_env_format : Option String → Report
check_extension_env_format none = of deploy d7_file skip ∷ []
check_extension_env_format (some text) = format_checks (read_vars [] (split_lines text))

unfoldable pub env_checks : Bool → Option String → Report
env_checks has_path file = if has_path then check_extension_env_format file else []

-- RegisterDeployChecks
unfoldable pub register_deploy_checks : Site → Report
register_deploy_checks site =
    zero_checks site.addresses
    ++ code_checks site.client site.addresses
    ++ (check_deployer_key_source site ∷ [])
    ++ funds_checks site.client site.key
    ++ chain_checks site.client
    ++ env_checks site.has_path site.file

-- Both are given.
abbrev connected : Site → Option Registry
connected site = elim site.client [ none ↦ none | some client ↦ site.registry ]

abbrev counter_status : Option ℤ → Status
counter_status none = fail
counter_status (some n) = if is_zero n then warn else pass

-- R1
unfoldable pub counter_checks : Option Registry → Report
counter_checks none = []
counter_checks (some registry) = of register r1 (counter_status registry.extensions_counter) ∷ []

abbrev is_same : ℕ → Option ℕ → Bool
is_same addr none = false
is_same addr (some sender) = sender == addr

abbrev is_yes : Option Bool → Bool
is_yes none = false
is_yes (some b) = b

-- The parsed values of an address and an extension id: common.HexToAddress and SetString(…, 16).
abbrev hex_value : ℕ → ℕ
hex_value c = if ltb c 58 then c - 48 else if ltb c 71 then c - 55 else c - 87

unfoldable pub hex_from : ℕ → String → ℕ
hex_from n [] = n
hex_from n (c ∷ cs) = hex_from (16 * n + hex_value c) cs

unfoldable pub after_0x : String → String
after_0x (a ∷ b ∷ cs) = cs
after_0x (a ∷ []) = []
after_0x [] = []

abbrev pub hex_number : String → ℕ
hex_number s = hex_from 0 (after_0x s)

-- R2
unfoldable pub sender_checks : Option Registry → ℕ → String → Report
sender_checks none id sender = []
sender_checks (some registry) id sender =
    if is_address sender
    then of register r2 (verdict (is_same (hex_number sender) (registry.instructions_sender id)))
      ∷ []
    else []

-- R3
unfoldable pub owner_checks : Site → ℕ → Report
owner_checks site id = elim site.key [
  | none ↦ []
  | some addr ↦ elim site.allowlist [
    | none ↦ []
    | some allowlist ↦ elim site.client [
      | none ↦ []
      | some client ↦
          of register r3 (verdict (is_yes (allowlist.is_allowed_tee_machine_owner id addr))) ∷ []
    ]
  ]
]

-- R4
unfoldable pub key_type_checks : Option Registry → ℕ → Report
key_type_checks none id = []
key_type_checks (some registry) id =
    of register r4 (verdict (is_yes (registry.is_key_type_supported id))) ∷ []

-- The loop of R7: how many of the first n extensions have the sender. A failed query is passed over.
unfoldable pub matching : Registry → ℕ → ℕ → ℕ
matching registry addr zero = 0
matching registry addr (suc n) =
    let rest = matching registry addr n in
    if is_same addr (registry.instructions_sender n) then suc rest else rest

abbrev unique_status : ℕ → Status
unique_status n = if ltb 1 n then warn else pass

-- counter.Int64(): the counter's low 64 bits, and no round for a negative one
abbrev rounds : ℕ → ℕ
rounds n = if ltb (n % 2 ^ 64) (2 ^ 63) then n % 2 ^ 64 else 0

-- R7
unfoldable pub unique_checks : Registry → Option ℤ → String → Report
unique_checks registry (some (pos (suc n))) sender =
    if is_address sender
    then of register r7 (unique_status (matching registry (hex_number sender) (rounds (suc n))))
      ∷ []
    else []
unique_checks registry (some (pos zero)) sender = []
unique_checks registry (some (negsuc n)) sender = []
unique_checks registry none sender = []

unfoldable pub unique_checks_of : Option Registry → String → Report
unique_checks_of none sender = []
unique_checks_of (some registry) sender = unique_checks registry registry.extensions_counter sender

-- What RegisterRegistrationChecks adds after R1.
unfoldable pub id_checks : Site → Parsed → Report
id_checks site p =
    if not (is_extension_id p.extension_id)
    then of register r2_format fail ∷ []
    else (sender_checks (connected site) (hex_number p.extension_id) p.instruction_sender
        ++ owner_checks site (hex_number p.extension_id)
        ++ key_type_checks (connected site) (hex_number p.extension_id)
        ++ unique_checks_of (connected site) p.instruction_sender)

unfoldable pub registration_checks : Site → Parsed → Report
registration_checks site p =
    if is_empty p.extension_id && is_empty p.instruction_sender
    then of register r1_r7 skip ∷ []
    else counter_checks (connected site) ++ id_checks site p

-- RegisterRegistrationChecks
unfoldable pub register_registration_checks : Site → Report
register_registration_checks site =
    if not site.has_path
    then of register r1_r7 skip ∷ []
    else registration_checks site (parse_extension_env site.file)
