-- ===== src/Tools/RunTest/Examples.antt =====
-- tools/cmd/run-test/main.go: a test on a concrete chain, with an enclave that answers for the order 42.
use darkstop.Base.{ℕ, ◌≡◌, refl, true, List, [], ◌∷◌}
use darkstop.Policy.{String, set_string, decimal, digits, positive_of, eq_string}
use darkstop.Base.Decimal.{decimal_text, decimal_onto}
use darkstop.Tools.{ok, Message, sends, waits, require, ◌>>=◌}
use darkstop.Tools.Text.{text}
use darkstop.Tools.Polling.{action_result, polls, read_answer}
use darkstop.Tools.Acknowledged.{verify_answer, verify_result, verify_place_order_result}
use darkstop.Tools.Orders.{
  sets_extension_id, send_place_order, calls_vault, mined_call, ids_of, scan, simulate_vault_call,
}
use darkstop.Tools.RunTest.{
  Enclave, positive_amount, fetch_encryption_key, encrypt_to_extension, on_set, configures, places,
  run_test,
}
use darkstop.Tools.RunTest.Tested.{IsAmount, IsTested, run_test-IsTested}
use darkstop.Tools.Examples.Chain.{net, support, start}

abbrev enclave : Enclave (List Message) ℕ
enclave = record {
  state_answer = ok (record { status_code = 200; body = 7 ∷ [] });
  read_state = λ body. ok body;
  hex_decode = λ s. ok s;
  parse_key = λ raw. ok 7;
  encrypt = λ key plaintext. ok (key ∷ []);
  instruction_fee = λ w. ok 1_000_000;
  answers = λ instruction k. ok (record { status_code = 200; body = [] });
  read_result = λ body. ok (record { status = 1; log = []; content = 1 ∷ [] });
  read_data = λ body. ok (record { order_id = 52 ∷ 50 ∷ []; status = text "open" });
}

-- 50 and 20000
abbrev deposit : String
deposit = 53 ∷ 48 ∷ []

abbrev trigger : String
trigger = 50 ∷ 48 ∷ 48 ∷ 48 ∷ 48 ∷ []

test_runs : (run_test net support (λ m. true) enclave (ok tt) 50 deposit trigger start).0 ≡ ok tt
unfolding run_test positive_amount set_string decimal digits positive_of configures on_set
    sets_extension_id calls_vault mined_call simulate_vault_call sends waits require ◌>>=◌ places
    fetch_encryption_key encrypt_to_extension send_place_order ids_of scan verify_place_order_result
    verify_result verify_answer action_result polls read_answer decimal_text decimal_onto eq_string
    text
test_runs = refl

run_test-IsTested_example :
    (d t : ℕ) × IsAmount deposit d
    × IsAmount trigger t
    × IsTested net support
        (λ m. true)
        enclave
        (ok tt)
        50
        d
        t
        (run_test net support (λ m. true) enclave (ok tt) 50 deposit trigger start).1.sent
run_test-IsTested_example =
    run_test-IsTested net support (λ m. true) enclave (ok tt) 50 deposit trigger start tt test_runs
