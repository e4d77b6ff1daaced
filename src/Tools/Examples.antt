-- ===== src/Tools/Examples.antt =====
-- tools/: runs of the tools on a concrete chain, and the theorems there.
pub mod Chain
use darkstop.Base.{
  ℕ, zero, suc, ◌+◌, ◌≤◌, ◌<◌, ◌≡◌, ◌≢◌, ◌↔◌, refl, ap, ◌⊎◌, inl, inr, Bool, true, false, ◌&&◌,
  ◌||◌, Option, none, some, List, [], ◌∷◌, ◌++◌, ◌==◌, if◌then◌else◌, length, ==_iff, ==_refl,
  arith,
}
use darkstop.Policy.{String}
use darkstop.Tools.{
  Result, ok, err, Answer, gives, refuses, Message, allow_machine_owners, allow_project_owners,
  add_key_types, add_tee_version, register_machine, request_attestation, request_check,
  to_production, place_order, MachineData, Proof, Receipt, Net, Run, sends, transact, waits,
  require, ◌>>=◌,
}
use darkstop.Tools.Text.{text}
use darkstop.Tools.Support.{
  Support, no_addresses, environment_key, failing_message, checked_receipt, check_tx,
}
use darkstop.Tools.Mined.{check_tx_lem}
use darkstop.Tools.Setup.{
  request, send_checked, register, allow_tee_machine_owners, allow_tee_project_manager_owners,
  add_supported_key_types, add_machine_owner, step_machine_owner, add_project_owner,
  step_project_owner, add_key_type, step_key_type, setup_extension,
}
use darkstop.Tools.Setup.Allowed.{IsSetUp, setup_extension-IsSetUp}
use darkstop.Tools.Setup.Order.{IsInOrder, setup_extension-IsInOrder}
use darkstop.Tools.Senders.{
  registration_value, signature_of, pre_registration, request_tee_attestation,
  request_ftdc_availability_check, puts_to_production, adds_tee_version,
}
use darkstop.Tools.Senders.Single.{Sends, senders-Sends}
use darkstop.Tools.Version.{
  on_added, add_version, add_unless, allow_machine, allow_tee_version,
  allow_tee_version-IsSupported,
}
use darkstop.Tools.Orders.{
  scan, ids_of, simulate_vault_call, calls_vault, mined_call, send_place_order,
}
use darkstop.Tools.Orders.Placed.{IsPlaced, send_place_order-IsPlaced}
use darkstop.Tools.Granting.{
  Grant, machine_owner, project_owner, key_type, version, Among, Grants, grants_machine_owner,
  grants_project_owner, grants_key_type, grants_version, granted, Has, IsContract,
}
use darkstop.Tools.Examples.Chain.{net, net-IsContract, support, start}

setup_runs : (setup_extension net 7 support 1 2 start).0 ≡ ok 5
unfolding setup_extension register step_machine_owner add_machine_owner allow_tee_machine_owners
    step_project_owner add_project_owner allow_tee_project_manager_owners step_key_type add_key_type
    add_supported_key_types send_checked check_tx checked_receipt transact sends waits require ◌>>=◌
setup_runs = refl

-- The second set-up of the same extension sends its registration only.
setup_again :
    length (setup_extension net 7 support 1 2 (setup_extension net 7 support 1 2 start).1).1.sent
    ≡ 5
unfolding setup_extension register step_machine_owner add_machine_owner allow_tee_machine_owners
    step_project_owner add_project_owner allow_tee_project_manager_owners step_key_type add_key_type
    add_supported_key_types send_checked check_tx checked_receipt transact sends waits require ◌>>=◌
setup_again = refl

setup_extension-IsSetUp_example :
    IsSetUp net 7 support 5 (setup_extension net 7 support 1 2 start).1
setup_extension-IsSetUp_example =
    setup_extension-IsSetUp net net-IsContract 7 support 1 2 start 5 setup_runs

abbrev machine : MachineData
machine = record {
  extension_id = 5;
  initial_owner = 9;
  code_hash = 11;
  platform = 12;
  public_key = (1, 2);
}

version_runs :
    (allow_tee_version net support (ok machine) (ok 3) (λ s. ok 8) [] (text "v0.2.0") start).0
    ≡ ok tt
unfolding allow_tee_version allow_machine add_unless add_version on_added adds_tee_version
    environment_key check_tx checked_receipt transact sends waits require ◌>>=◌
version_runs = refl

allow_tee_version-IsSupported_example :
    Has net
      (version 5 11 12)
      (allow_tee_version net support (ok machine) (ok 3) (λ s. ok 8) [] (text "v0.2.0") start).1
allow_tee_version-IsSupported_example =
    allow_tee_version-IsSupported net net-IsContract support (text "v0.2.0") machine (ok 3)
      (λ s. ok 8) [] start tt version_runs

abbrev proof : Proof
proof = record { signatures = 1; header = 2; tee_id = 3; request = 4; response = 5 }

abbrev zeros : ℕ → List ℕ
zeros zero = []
zeros (suc n) = 0 ∷ zeros n

senders-Sends_example :
    Sends net start
      (request 9 registration_value
        (register_machine machine (signature_of (zeros 65)) 4 (text "url") 9))
      (pre_registration net support (λ sig. sig) (text "url") 4 machine (zeros 65) start)
    × Sends net start
        (request 9 registration_value (request_attestation 3 9))
        (request_tee_attestation net support 3 start)
    × Sends net start
        (request 9 registration_value (request_check 3 21 6 9 9))
        (request_ftdc_availability_check net support 3 6 21 start)
    × Sends net start
        (request 9 0 (to_production proof))
        (puts_to_production net support proof start)
senders-Sends_example =
    senders-Sends net support (λ sig. sig) (text "url") machine (zeros 65) proof 3 4 6 21 start

order_runs :
    (send_place_order net support (λ m. true) (ok tt) 50 (1 ∷ 2 ∷ []) 600 start).0 ≡ ok (77, 42, 0)
unfolding send_place_order calls_vault mined_call ids_of scan sends waits require
    simulate_vault_call ◌>>=◌
order_runs = refl

send_place_order-IsPlaced_example :
    IsPlaced net support (λ m. true) 50 (1 ∷ 2 ∷ []) 600 [] (77, 42, 0)
    × ((send_place_order net support (λ m. true) (ok tt) 50 (1 ∷ 2 ∷ []) 600 start).1.sent
        ≡ request 9 600 (place_order 50 (1 ∷ 2 ∷ [])) ∷ [])
send_place_order-IsPlaced_example =
    send_place_order-IsPlaced net support (λ m. true) (ok tt) 50 (1 ∷ 2 ∷ []) 600 start (77, 42, 0)
      order_runs
