-- ===== src/Tools/Cases.antt =====
-- tools/: the polling, the revert reasons and the deployment on concrete inputs, and the theorems there.
use darkstop.Base.{
  ℕ, ◌<◌, ◌≡◌, refl, false, Option, none, some, List, [], ◌∷◌, ◌++◌, ltb, if◌then◌else◌, arith,
}
use darkstop.Base.Big.{pos}
use darkstop.Policy.{String}
use darkstop.Deploy.Site.{Client, address_not_zero, address_has_code, key_has_funds}
use darkstop.Tools.{Result, ok, gives, transact, sends, waits, require, ◌>>=◌}
use darkstop.Tools.Text.{encode_hex}
use darkstop.Tools.Support.{Support}
use darkstop.Tools.Revert.{
  decode_revert_hex, simulated_reason, reason_of, decode_revert_hex-encode_hex,
}
use darkstop.Tools.Polling.{
  Response, polls, read_answer, action_result, IsWaiting, action_result_first,
}
use darkstop.Tools.Orders.{address, resolve_ftso_v2, sends_and_waits, wait_mined_ok}
use darkstop.Tools.Deploying.{DeployInfo, preflight, deploying, deploy_unless, deploy_contract}
use darkstop.Tools.Deploying.Deployed.{IsChecked, stages, deploy_contract-IsDeployed}
use darkstop.Tools.Examples.Chain.{net, support, start}

-- The third request is the first that is answered.
abbrev answers : ℕ → Result Response
answers n =
    if ltb n 2
    then ok (record { status_code = 404; body = [] })
    else ok (record { status_code = 200; body = n ∷ [] })

abbrev decode : String → Result String
decode s = ok s

third_answer : action_result decode answers ≡ (ok (2 ∷ []), 3)
unfolding action_result polls read_answer
third_answer = refl

two-IsWaiting : (k : ℕ) → k < 2 → IsWaiting answers k
two-IsWaiting k h = ground arith

action_result_first_example : action_result decode answers ≡ (ok (2 ∷ []), 3)
action_result_first_example =
    action_result_first decode answers 2 (record { status_code = 200; body = 2 ∷ [] }) (omega arith)
      two-IsWaiting refl refl

abbrev unpack_none : List ℕ → Option String
unpack_none bs = none

-- The data of a custom error is given as it is.
decode_revert_hex-encode_hex_example :
    (decode_revert_hex unpack_none (encode_hex (18 ∷ 52 ∷ 86 ∷ 120 ∷ []))
      ≡ reason_of unpack_none (18 ∷ 52 ∷ 86 ∷ 120 ∷ []))
    × (decode_revert_hex unpack_none (48 ∷ 120 ∷ encode_hex (18 ∷ 52 ∷ 86 ∷ 120 ∷ []))
        ≡ reason_of unpack_none (18 ∷ 52 ∷ 86 ∷ 120 ∷ []))
    × (simulated_reason unpack_none (gives (18 ∷ 52 ∷ 86 ∷ 120 ∷ []))
        ≡ reason_of unpack_none (18 ∷ 52 ∷ 86 ∷ 120 ∷ []))
decode_revert_hex-encode_hex_example =
    decode_revert_hex-encode_hex unpack_none (18 ∷ 52 ∷ 86 ∷ 120 ∷ []) (omega arith) (omega arith)

abbrev client : Client
client = record {
  code_at = λ a. some (1 ∷ []);
  balance_at = λ a. some (pos 20_000_000_000_000_000);
  fetch_chain_id = some (pos 114);
}

abbrev deployer : Support
deployer = record support {
  addresses = record { flare_system_manager = 1; fdc2_hub = 2; flare_tee_manager = 3 };
}

abbrev info : DeployInfo
info = record {
  mock_usdt0 = 100;
  dark_stop_vault = 101;
  ftso_v2 = 6;
  tee_executor = 9;
  instruction_fee = 1000;
}

deploy_runs :
    (deploy_contract net deployer client 1000 (λ w. gives []) (λ bs. ok (address 6)) false start).0
    ≡ ok (some info)
unfolding deploy_contract preflight deploy_unless deploying resolve_ftso_v2 sends_and_waits
    wait_mined_ok transact sends waits require address_not_zero address_has_code key_has_funds ◌>>=◌
deploy_runs = refl

deploy_contract-IsDeployed_example :
    IsChecked net deployer client 1000
    × (false ≡ false)
    × ◌≡◌ {A = ℕ} 9 9
    × ◌≡◌ {A = ℕ} 1000 1000
    × ((deploy_contract net deployer client 1000
          (λ w. gives [])
          (λ bs. ok (address 6))
          false
          start).1.sent
        ≡ stages net deployer client 1000 info ++ [])
deploy_contract-IsDeployed_example =
    deploy_contract-IsDeployed net deployer client 1000 (λ w. gives []) (λ bs. ok (address 6)) false
      start info deploy_runs
