-- ===== src/Tools/RunTest/Tested.antt =====
-- tools/cmd/run-test/main.go: what a successful test has done.
use darkstop.Base.{Bool, ℕ, zero, suc, ◌+◌, ◌<◌, ◌≡◌, ap, Option, none, some, List, ◌∷◌, arith}
use darkstop.Base.Big.{ℤ, pos, negsuc}
use darkstop.Policy.{String, set_string}
use darkstop.Policy.Printing.{client_plaintext}
use darkstop.Tools.{Result, ok, Message, place_order, Request, Net, Run, lift, query, within}
use darkstop.Tools.Support.{Support}
use darkstop.Tools.Setup.{request}
use darkstop.Tools.Rules.{gives_at, within_ok}
use darkstop.Tools.Orders.Placed.{IsPlaced, send_place_order-IsPlaced}
use darkstop.Tools.Acknowledged.{verify_place_order_result}
use darkstop.Tools.RunTest.{
  Enclave, amount_of, positive_amount, fetch_encryption_key, encrypt_to_extension, places, run_test,
}

-- A text of a positive amount.
abbrev pub IsAmount : String → ℕ → Type 0
IsAmount t n = (set_string t ≡ some (pos n)) × (0 < n)

ok_inj : (a b : ℕ) → ◌≡◌ {A = Result ℕ} (ok a) (ok b) → a ≡ b
ok_inj a b h = cc

amount_lem :
    (invalid : String) (o : Option ℤ) (n : ℕ)
    → amount_of invalid o ≡ ok n
    → (o ≡ some (pos n)) × (0 < n)
amount_lem invalid none n h = cc
amount_lem invalid (some (pos zero)) n h = cc
amount_lem invalid (some (pos (suc m))) n h =
    let same : suc m ≡ n = ok_inj (suc m) n h in (ap (λ k. some (pos k)) same, omega (arith, same))
amount_lem invalid (some (negsuc m)) n h = cc

positive_amount-IsAmount : (name t : String) (n : ℕ) → positive_amount name t ≡ ok n → IsAmount t n
unfolding positive_amount
positive_amount-IsAmount name t n h = amount_lem _ (set_string t) n h

module _ {W L K : Type 0} (net : Net W L) (s : Support) (packs : Message → Bool) (e : Enclave W K)
    (bound : Result (Unit {0})) (vault : ℕ) where
  -- The order of `trigger` was placed for its deposit and the fee, encrypted to the key of the enclave,
  -- and the enclave's answer was accepted for its id.
  abbrev pub IsTested : ℕ → ℕ → List Request → Type 0
  IsTested deposit trigger sent =
      (key : K) × (ciphertext : List ℕ) × (fee : ℕ) × (run : Run W) × (ids : ℕ × ℕ × ℕ)
      × (fetch_encryption_key e ≡ ok key)
      × (e.encrypt key (client_plaintext trigger) ≡ ok ciphertext)
      × (e.instruction_fee run.world ≡ ok fee)
      × IsPlaced net s packs vault ciphertext (fee + deposit) run.world ids
      × (sent ≡ request s.prv (fee + deposit) (place_order vault ciphertext) ∷ run.sent)
      × (verify_place_order_result e.read_data e.read_result (e.answers ids.0) ids.1 ≡ ok tt)

  places-IsTested :
      (deposit trigger : ℕ) (run : Run W) (u : Unit {0})
      → (places net s packs e bound vault deposit trigger run).0 ≡ ok u
      → IsTested deposit trigger (places net s packs e bound vault deposit trigger run).1.sent
  unfolding places lift query within encrypt_to_extension
  places-IsTested deposit trigger run u =
      let Q = λ (u : Unit {0}) (after : Run W). IsTested deposit trigger after.sent in
      gives_at Q _ _ run u (λ key e1. gives_at Q _ _ run u (λ ciphertext e2.
        gives_at Q _ _ run u (λ b e3. gives_at Q _ _ run u (λ fee e4.
          gives_at Q _ _ run u (λ ids e5 e6.
            let placed =
              send_place_order-IsPlaced net s packs bound vault ciphertext (fee + deposit) run ids
                e5 in
            (
              key,
              ciphertext,
              fee,
              run,
              ids,
              e1,
              within_ok _ (e.encrypt key (client_plaintext trigger)) ciphertext e2,
              within_ok _ (e.instruction_fee run.world) fee e4,
              placed.0,
              placed.1,
              e6,
            ))))))

  -- A run-test that passes has read two positive amounts; the last transaction that it sent places
  -- the order of the trigger, encrypted to the key that the enclave publishes, for the deposit and
  -- the fee together; it was mined with status 1, and the enclave's answer for its instruction was
  -- accepted for its order's id.
  pub run_test-IsTested :
      (deposit_text trigger_text : String) (run : Run W) (u : Unit {0})
      → (run_test net s packs e bound vault deposit_text trigger_text run).0 ≡ ok u
      → (deposit trigger : ℕ) × IsAmount deposit_text deposit
        × IsAmount trigger_text trigger
        × IsTested deposit trigger
            (run_test net s packs e bound vault deposit_text trigger_text run).1.sent
  unfolding run_test lift
  run_test-IsTested deposit_text trigger_text run u =
      let Q = λ (u : Unit {0}) (after : Run W).
        (deposit trigger : ℕ) × IsAmount deposit_text deposit
        × IsAmount trigger_text trigger
        × IsTested deposit trigger after.sent in
      gives_at Q _ _ run u (λ b e1. gives_at Q _ _ _ u (λ deposit e2.
        gives_at Q _ _ _ u (λ trigger e3. gives_at Q _ _ _ u (λ c e4 e5. (
          deposit,
          trigger,
          positive_amount-IsAmount _ deposit_text deposit e2,
          positive_amount-IsAmount _ trigger_text trigger e3,
          places-IsTested deposit trigger _ u e5,
        )))))
