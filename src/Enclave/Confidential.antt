-- ===== src/Enclave/Confidential.antt =====
-- internal/extension/extension.go: what the enclave's answers tell of the orders' policies.
use darkstop.Base.{
  ℕ, suc, ◌<◌, ◌≡◌, refl, sym, ap, ◌∙◌, Option, none, some, List, [], ◌∷◌, arith, All, length,
}
use darkstop.Base.Map.{Map}
use darkstop.Store.{
  Order, Store, status_open, get, snapshot, supported_policies, open_orders, values, sort_by_id,
  insert_by_id, collect_open, put, PutError,
}
use darkstop.Store.Valid.{IsValid}
use darkstop.Store.Sorting.{IsSorted, find_by_id, sorted_ext}
use darkstop.Store.Listing.{snapshot_lem}
use darkstop.Policy.{policy, refused, Parsed, parse_order_plaintext}
use darkstop.Enclave.Types.{PlaceOrderRequest, decode_place_order}
use darkstop.Enclave.{
  Host, Action, DataFixed, ActionResult, order_state, order_states, count_open, state_handler,
  process_place_order, place_request, place_id, place_decrypted, place_policy, place_answer,
  success, failure, order_id_to_uint64, new_order,
}

-- The order without its policy.
abbrev pub public_part : Order → Order
public_part o = record o { trigger_price = none; trail_bps = 0; high_watermark = none }

abbrev pub public_found : Option Order → Option Order
public_found none = none
public_found (some o) = some (public_part o)

-- The two stores have orders under the same ids, with the same statuses.
abbrev pub SamePublic : Store → Store → Type 0
SamePublic s t = (id : ℕ) → public_found (get id s) ≡ public_found (get id t)

public_parts : List Order → List Order
public_parts [] = []
public_parts (o ∷ os) = public_part o ∷ public_parts os

order_states-public_parts : (os : List Order) → order_states (public_parts os) ≡ order_states os
unfolding order_states public_parts
order_states-public_parts [] = refl
order_states-public_parts (o ∷ os) = ap (λ xs. order_state o ∷ xs) (order_states-public_parts os)

count_open-public_parts : (os : List Order) → count_open (public_parts os) ≡ count_open os
unfolding count_open public_parts
count_open-public_parts [] = refl
count_open-public_parts (o ∷ os) = rw (count_open-public_parts os) refl

find_by_id-public_parts :
    (id : ℕ) (os : List Order) → find_by_id id (public_parts os) ≡ public_found (find_by_id id os)
unfolding find_by_id public_parts
find_by_id-public_parts id [] = refl
find_by_id-public_parts id (o ∷ os) = ground (arith, find_by_id-public_parts id os)

public_parts-All :
    (k : ℕ) (os : List Order) → All (λ x. k < x.id) os → All (λ x. k < x.id) (public_parts os)
unfolding public_parts
public_parts-All k [] h = tt
public_parts-All k (o ∷ os) h = (h.0, public_parts-All k os h.1)

public_parts-IsSorted : (os : List Order) → IsSorted os → IsSorted (public_parts os)
unfolding public_parts
public_parts-IsSorted [] h = tt
public_parts-IsSorted (o ∷ os) h = (public_parts-All o.id os h.0, public_parts-IsSorted os h.1)

public_parts-snapshot :
    (s t : Store)
    → IsValid s
    → IsValid t
    → SamePublic s t
    → public_parts (snapshot s) ≡ public_parts (snapshot t)
public_parts-snapshot s t v u h =
    sorted_ext _ _ (public_parts-IsSorted (snapshot s) (snapshot_lem s v).0)
      (public_parts-IsSorted (snapshot t) (snapshot_lem t u).0)
      λ id.
        find_by_id-public_parts id (snapshot s)
        ∙ ap public_found ((snapshot_lem s v).1 id)
        ∙ h id
        ∙ sym (find_by_id-public_parts id (snapshot t) ∙ ap public_found ((snapshot_lem t u).1 id))

-- GET /state does not depend on the policies: it is the same for two well-formed order books that
-- have the same ids with the same statuses and advertise the same policies, whatever triggers,
-- trails and high-watermarks they hold.
pub state_handler-confidential :
    (host : Host) (now : ℕ) (s t : Store)
    → IsValid s
    → IsValid t
    → SamePublic s t
    → supported_policies now s ≡ supported_policies now t
    → state_handler host now s s ≡ state_handler host now t t
unfolding state_handler
state_handler-confidential host now s t v u h q =
    let parts = public_parts-snapshot s t v u h in
    rw
      (
        q,
        sym (order_states-public_parts (snapshot s))
            ∙ ap order_states parts
            ∙ order_states-public_parts (snapshot t),
        sym (count_open-public_parts (snapshot s))
            ∙ ap count_open parts
            ∙ count_open-public_parts (snapshot t),
      )
      refl

count_open-insert_by_id :
    (o : Order) (os : List Order) → count_open (insert_by_id o os) ≡ count_open (o ∷ os)
unfolding count_open insert_by_id
count_open-insert_by_id o [] = refl
count_open-insert_by_id o (x ∷ xs) = ground (arith, count_open-insert_by_id o xs)

count_open-sort_by_id : (os : List Order) → count_open (sort_by_id os) ≡ count_open os
unfolding count_open sort_by_id
count_open-sort_by_id [] = refl
count_open-sort_by_id (o ∷ os) =
    count_open-insert_by_id o (sort_by_id os) ∙ ground (arith, count_open-sort_by_id os)

length-insert_by_id : (o : Order) (os : List Order) → length (insert_by_id o os) ≡ suc (length os)
unfolding insert_by_id
length-insert_by_id o [] = refl
length-insert_by_id o (x ∷ xs) = ground (arith, length-insert_by_id o xs)

length-sort_by_id : (os : List Order) → length (sort_by_id os) ≡ length os
unfolding sort_by_id
length-sort_by_id [] = refl
length-sort_by_id (o ∷ os) = length-insert_by_id o (sort_by_id os) ∙ ap suc (length-sort_by_id os)

count_open-values : (m : Map Order) → count_open (values m) ≡ length (collect_open m)
unfolding count_open values collect_open
count_open-values [] = refl
count_open-values ((id, o) ∷ m) = ground (arith, count_open-values m)

-- The count of open orders that GET /state gives is the number of orders that the watcher
-- considers.
pub state_handler-open_orders :
    (host : Host) (now : ℕ) (s t : Store)
    → (state_handler host now s t).open_orders ≡ length (open_orders s)
unfolding state_handler snapshot open_orders
state_handler-open_orders host now s t =
    count_open-sort_by_id (values s.orders)
    ∙ count_open-values s.orders
    ∙ sym (length-sort_by_id (collect_open s.orders))

-- The order id that a request names.
abbrev pub requested : Option PlaceOrderRequest → Option ℕ
requested none = none
requested (some r) = order_id_to_uint64 r.order_id

some_injective : {m n : ℕ} → ◌≡◌ {A = Option ℕ} (some m) (some n) → m ≡ n
some_injective e = cc

module _ (host : Host) (a : Action) (df : DataFixed) where
  abbrev Acknowledges : Option ℕ → ActionResult → Type 0
  Acknowledges asked r =
      r.status ≡ 1 → (id : ℕ) × (asked ≡ some id) × (r ≡ success host a df id status_open)

  place_answer-Acknowledges :
      (id : ℕ) (e : Option PutError) → Acknowledges (some id) (place_answer host a df id e)
  unfolding place_answer failure
  place_answer-Acknowledges id none h = (id, refl, refl)
  place_answer-Acknowledges id (some e) h = absurd (omega (arith, h))

  place_policy-Acknowledges :
      (now id : ℕ) (p : Parsed) (s : Store)
      → Acknowledges (some id) (place_policy host a df now id p s).0
  unfolding place_policy failure
  place_policy-Acknowledges now id (refused e) s h = absurd (omega (arith, h))
  place_policy-Acknowledges now id (policy p) s h =
      place_answer-Acknowledges id (put now (new_order host a df id p) s).0 h

  place_decrypted-Acknowledges :
      (now id : ℕ) (plaintext : Option (List ℕ)) (s : Store)
      → Acknowledges (some id) (place_decrypted host a df now id plaintext s).0
  unfolding place_decrypted failure
  place_decrypted-Acknowledges now id none s h = absurd (omega (arith, h))
  place_decrypted-Acknowledges now id (some plaintext) s h =
      place_policy-Acknowledges now id (parse_order_plaintext plaintext) s h

  place_id-Acknowledges :
      (now : ℕ) (ciphertext : List ℕ) (asked : Option ℕ) (s : Store)
      → Acknowledges asked (place_id host a df now ciphertext asked s).0
  unfolding place_id failure
  place_id-Acknowledges now ciphertext none s h = absurd (omega (arith, h))
  place_id-Acknowledges now ciphertext (some id) s h =
      place_decrypted-Acknowledges now id (host.decrypt ciphertext) s h

  place_request-Acknowledges :
      (now : ℕ) (r : Option PlaceOrderRequest) (s : Store)
      → Acknowledges (requested r) (place_request host a df now r s).0
  unfolding place_request failure
  place_request-Acknowledges now none s h = absurd (omega (arith, h))
  place_request-Acknowledges now (some r) s h =
      place_id-Acknowledges now r.ciphertext (order_id_to_uint64 r.order_id) s h

  process_place_order-Acknowledges :
      (now : ℕ) (s : Store)
      → Acknowledges
          (requested (decode_place_order host.place_order_args df.original_message))
          (process_place_order host a df now s).0
  unfolding process_place_order
  process_place_order-Acknowledges now s =
      place_request-Acknowledges now (decode_place_order host.place_order_args df.original_message)
        s

-- The acknowledgement of a placed order does not depend on its policy: for one message, whatever
-- the ciphertext decrypts to, whatever the store holds and whenever it is processed, two results
-- that report success are the same.
pub process_place_order-confidential :
    (host : Host) (a : Action) (df : DataFixed) (decrypt : List ℕ → Option (List ℕ)) (now now' : ℕ)
    (s t : Store)
    → (process_place_order host a df now s).0.status ≡ 1
    → (process_place_order (record host { decrypt = decrypt }) a df now' t).0.status ≡ 1
    → (process_place_order host a df now s).0
      ≡ (process_place_order (record host { decrypt = decrypt }) a df now' t).0
unfolding success
process_place_order-confidential host a df decrypt now now' s t h k =
    let other : Host = record host { decrypt = decrypt } in
    let p = process_place_order-Acknowledges host a df now s h in
    let q = process_place_order-Acknowledges other a df now' t k in
    let same : p.0 ≡ q.0 = some_injective (sym p.1 ∙ q.1) in
    p.2 ∙ ap (λ id. success host a df id status_open) same ∙ sym q.2
