-- ===== src/Tools/Acknowledgements.antt =====
-- tools/cmd/run-test/main.go: the client's check of an enclave's answer on a concrete host.
use darkstop.Base.{ℕ, zero, suc, ◌≡◌, ◌↔◌, refl, false, some, [], ◌∷◌, length, ◌==◌, arith}
use darkstop.Policy.{String}
use darkstop.Store.{new_store}
use darkstop.Enclave.{Log, process_place_order}
use darkstop.Enclave.Examples.{host, action, place_message}
use darkstop.Enclave.Types.{decode_place_order}
use darkstop.Enclave.Confidential.{requested}
use darkstop.Enclave.Placing.{Placed}
use darkstop.Tools.{Result, ok}
use darkstop.Tools.Polling.{Response, ActionResult}
use darkstop.Tools.Acknowledged.{
  Answered, IsJson, sent_back, verify_place_order_result, verify_place_order_result_iff,
}

-- Both texts in one: the first with each unit raised by one, then 0, then the second.
both : String → String → String
both [] status = 0 ∷ status
both (c ∷ cs) status = suc c ∷ both cs status

abbrev write : Answered → String
write r = both r.order_id r.status

abbrev prepended : ℕ → Answered → Answered
prepended c r = record r { order_id = c ∷ r.order_id }

parted : String → Answered
parted [] = record { order_id = []; status = [] }
parted (zero ∷ cs) = record { order_id = []; status = cs }
parted (suc c ∷ cs) = prepended c (parted cs)

abbrev read : String → Result Answered
read s = ok (parted s)

parted-both :
    (id status : String) → parted (both id status) ≡ record { order_id = id; status = status }
unfolding both parted
parted-both [] status = refl
parted-both (c ∷ cs) status = rw (parted-both cs status) refl

length-both : (id status : String) → (length (both id status) == 0) ≡ false
unfolding both
length-both [] status = ground arith
length-both (c ∷ cs) status = ground arith

write-IsJson : IsJson write read
write-IsJson = record {
  reads = λ r. rw (parted-both r.order_id r.status) refl;
  writes = λ r. length-both r.order_id r.status;
}

abbrev print : Log → String
print l = []

-- The first request is answered with the enclave's result.
abbrev decode : String → Result ActionResult
decode body =
    ok (sent_back write print (process_place_order host action place_message 0 new_store).0)

abbrev answer : Response
answer = record { status_code = 200; body = [] }

abbrev answers : ℕ → Result Response
answers k = ok answer

verify_place_order_result_iff_example :
    (verify_place_order_result read decode answers 9 ≡ ok tt) ↔ (
      (requested (decode_place_order host.place_order_args (9 ∷ 77 ∷ [])) ≡ some 9)
      × ((process_place_order host action place_message 0 new_store).0.status ≡ 1)
      × Placed host action place_message 9 new_store
          (process_place_order host action place_message 0 new_store).1)
verify_place_order_result_iff_example =
    verify_place_order_result_iff write read write-IsJson print host action place_message decode
      answers 0 answer 0 new_store 9 (omega arith) (λ k h. absurd (omega (arith, h))) refl refl refl
