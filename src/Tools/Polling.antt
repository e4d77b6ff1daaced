-- ===== src/Tools/Polling.antt =====
-- tools/pkg/fccutils/tee_calls.go: ActionResult polls a proxy for the result of an action, and
-- GetFTDCAvailabilityCheckResult of registration.go reads such a result. HTTP and the decoders are parameters.
use darkstop.Base.{
  ℕ, zero, suc, ◌+◌, ◌≤◌, ◌<◌, ◌≡◌, refl, sym, subst, ◌∙◌, inl, inr, Bool, true, false, not, [],
  ◌++◌, ◌==◌, if◌then◌else◌, arith, Bool-cases, ==_iff,
}
use darkstop.Policy.{String}
use darkstop.Tools.{Result, ok, err, then_result, Proof}
use darkstop.Base.Decimal.{decimal_text}
use darkstop.Tools.Text.{text}

-- An http.Response by its status code and its body.
pub record Response : Type 0 where
  pub status_code : ℕ
  pub body : String

abbrev pub repeats : ℕ
repeats = 15

-- err == nil && result.StatusCode == http.StatusOK
abbrev pub is_final : Result Response → Bool
is_final (err e) = false
is_final (ok r) = r.status_code == 200

-- The loop of ActionResult: `answers i` is what the i-th request gives. Beside the last answer stands how
-- many requests were made.
unfoldable pub polls : (ℕ → Result Response) → ℕ → ℕ → Result Response → Result Response × ℕ
polls answers zero i last = (last, i)
polls answers (suc n) i last = elim (is_final (answers i)) [
  | true ↦ (answers i, i + 1)
  | false ↦ polls answers n (i + 1) (answers i)
]

module _ {A : Type 0} (decode : String → Result A) where
  abbrev decoded_body : Response → Result A
  decoded_body r =
      if not (r.status_code == 200)
      then err (text "action result status not ok, got: " ++ decimal_text r.status_code)
      else decode r.body

  -- What ActionResult makes of the last answer.
  unfoldable pub read_answer : Result Response → Result A
  read_answer (err e) = err e
  read_answer (ok r) = decoded_body r

  -- ActionResult, with the number of requests
  unfoldable pub action_result : (ℕ → Result Response) → Result A × ℕ
  action_result answers = let (last, n) = polls answers repeats 0 (err []) in (read_answer last, n)

-- types.ActionResult
pub record ActionResult : Type 0 where
  pub status : ℕ
  pub log : String
  pub content : String

-- fdc.ProveResponse
pub record ProveResponse : Type 0 where
  pub response_header : String
  pub request_body : String
  pub response_body : String
  pub signatures : ℕ

-- The decoders that the proof goes through. Of a request they give the machine and the rest.
pub record ProofDecoders : Type 0 where
  pub prove_response : String → Result ProveResponse
  pub header : String → Result ℕ
  pub request : String → Result (ℕ × ℕ)
  pub response : String → Result ℕ

unfoldable pub read_proof : ProofDecoders → ActionResult → Result Proof
read_proof d result = then_result (d.prove_response result.content) λ p.
    then_result (d.header p.response_header) λ header.
      then_result (d.request p.request_body) λ request.
        then_result (d.response p.response_body) λ response. ok (record {
          signatures = p.signatures;
          header = header;
          tee_id = request.0;
          request = request.1;
          response = response;
        })

-- GetFTDCAvailabilityCheckResult
unfoldable pub get_ftdc_availability_check_result :
    (String → Result ActionResult) → ProofDecoders → (ℕ → Result Response) → Result Proof
get_ftdc_availability_check_result decode d answers =
    then_result (action_result decode answers).0 (read_proof d)

-- The answer to the i-th request is not final.
abbrev pub IsWaiting : (ℕ → Result Response) → ℕ → Type 0
IsWaiting answers i = is_final (answers i) ≡ false

step_final :
    (answers : ℕ → Result Response) (n i : ℕ) (last : Result Response)
    → is_final (answers i) ≡ true
    → polls answers (suc n) i last ≡ (answers i, i + 1)
unfolding polls
step_final answers n i last h = rw (h, polls) refl

step_waiting :
    (answers : ℕ → Result Response) (n i : ℕ) (last : Result Response)
    → is_final (answers i) ≡ false
    → polls answers (suc n) i last ≡ polls answers n (i + 1) (answers i)
unfolding polls
step_waiting answers n i last h = rw (h, polls) refl

polls_first :
    (answers : ℕ → Result Response) (n i j : ℕ) (last : Result Response)
    → i ≤ j
    → j < i + n
    → ((k : ℕ) → i ≤ k → k < j → IsWaiting answers k)
    → is_final (answers j) ≡ true
    → polls answers n i last ≡ (answers j, j + 1)
polls_first answers zero i j last h l before done = absurd (omega arith)
polls_first answers (suc n) i j last h l before done = elim (Bool-cases (i == j)) [
  | inl same ↦
      let e : i ≡ j = (==_iff i j).0 same in
      subst (λ k. polls answers (suc n) i last ≡ (answers k, k + 1)) e
        (step_final answers n i last (subst (λ k. is_final (answers k) ≡ true) (sym e) done))
  | inr apart ↦
      let below : i < j = ground arith in
      step_waiting answers n i last (before i (omega arith) below)
      ∙ polls_first answers n (i + 1) j (answers i) (omega arith) (omega arith)
          (λ k p q. before k (omega arith) q) done
]

polls_never :
    (answers : ℕ → Result Response) (n i j : ℕ) (last : Result Response)
    → i + n ≡ j
    → is_final last ≡ false
    → ((k : ℕ) → i ≤ k → k < j → IsWaiting answers k)
    → (is_final (polls answers n i last).0 ≡ false) × ((polls answers n i last).1 ≡ j)
unfolding polls
polls_never answers zero i j last e h before = (h, omega arith)
polls_never answers (suc n) i j last e h before =
    let waiting = before i (omega arith) (omega arith) in
    rw (step_waiting answers n i last waiting) (
      polls_never answers n (i + 1) j (answers i) (omega arith) waiting
        (λ k p q. before k (omega arith) q))

module _ {A : Type 0} (decode : String → Result A) where
  -- It is an error.
  abbrev IsError : Result A → Type 0
  IsError (ok a) = ⊥
  IsError (err e) = Unit

  read_answer_final :
      (r : Response) → is_final (ok r) ≡ true → read_answer decode (ok r) ≡ decode r.body
  unfolding read_answer
  read_answer_final r h = rw h refl

  read_answer_waiting : (a : Result Response) → is_final a ≡ false → IsError (read_answer decode a)
  unfolding read_answer
  read_answer_waiting (err e) h = tt
  read_answer_waiting (ok r) h = rw h tt

  -- If one of the first 15 answers of the proxy has status 200, ActionResult returns what the body
  -- of the first such answer decodes to, after exactly as many requests.
  pub action_result_first :
      (answers : ℕ → Result Response) (j : ℕ) (r : Response)
      → j < 15
      → ((k : ℕ) → k < j → IsWaiting answers k)
      → answers j ≡ ok r
      → r.status_code ≡ 200
      → action_result decode answers ≡ (decode r.body, j + 1)
  unfolding action_result
  action_result_first answers j r h before e ok_status =
      let final : is_final (ok r) ≡ true = (==_iff r.status_code 200).1 ok_status in
      rw
        (polls_first answers 15 0 j (err []) (omega arith) (omega arith) (λ k p q. before k q)
          (rw e final))
        (rw e (rw (read_answer_final r final) refl))

  -- If none has, it asks 15 times and fails.
  action_result_never :
      (answers : ℕ → Result Response)
      → ((k : ℕ) → k < 15 → IsWaiting answers k)
      → IsError (action_result decode answers).0 × ((action_result decode answers).1 ≡ 15)
  unfolding action_result
  action_result_never answers before =
      let never = polls_never answers 15 0 15 (err []) refl refl (λ k p q. before k q) in
      (read_answer_waiting _ never.0, never.1)
