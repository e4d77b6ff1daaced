-- ===== src/Enclave/Placing.antt =====
-- internal/extension/extension.go: what placing and cancelling an order does to the order book.
use darkstop.Base.{
  ℕ, ◌≡◌, refl, ◌∙◌, subst, ◌⊎◌, inl, inr, Option, none, some, List, arith, ◌==◌, if◌then◌else◌,
}
use darkstop.Base.Map.{contains, lookup-delete}
use darkstop.Store.{Order, Store, PutError, status_open, get, put, remove}
use darkstop.Store.Placing.{put_effect, put_accepts, started}
use darkstop.Policy.{OrderPolicy, policy, refused, Parsed, parse_order_plaintext}
use darkstop.Policy.Sound.{IsPolicy, parse_order_plaintext-IsPolicy}
use darkstop.Enclave.Types.{
  PlaceOrderRequest, CancelOrderRequest, decode_place_order, decode_cancel_order,
}
use darkstop.Enclave.Confidential.{requested}
use darkstop.Enclave.{
  Host, Action, DataFixed, ActionResult, process_place_order, process_cancel_order, place_request,
  place_id, place_decrypted, place_policy, place_answer, cancel_request, cancel_id, success,
  failure, order_id_to_uint64, new_order,
}

-- The order that was placed: its id was new, it is held with its policy, and no other order changed.
abbrev pub Placed : Host → Action → DataFixed → ℕ → Store → Store → Type 0
Placed host a df id s s' =
    (p : OrderPolicy) × IsPolicy p
    × (get id s ≡ none)
    × ((k : ℕ)
        → get k s' ≡ (if id == k then some (started s (new_order host a df id p)) else get k s))

module _ (host : Host) (a : Action) (df : DataFixed) where
  -- A result with status 0 leaves the store as it was, and one with status 1 has placed the order; no
  -- result has another status.
  abbrev pub Places : Option ℕ → Store → ActionResult × Store → Type 0
  Places asked s r =
      ((r.0.status ≡ 0) × (r.1 ≡ s))
      ⊎ ((r.0.status ≡ 1)
          × ((id : ℕ) × (asked ≡ some id)
              × (r.0 ≡ success host a df id status_open)
              × Placed host a df id s r.1))

  put-Places :
      (now id : ℕ) (p : OrderPolicy) (s : Store) (e : Option PutError)
      → IsPolicy p
      → (put now (new_order host a df id p) s).0 ≡ e
      → Places (some id) s (place_answer host a df id e, (put now (new_order host a df id p) s).1)
  unfolding place_answer failure success
  put-Places now id p s (some e) v q =
      inl (refl, (put_effect now (new_order host a df id p) s).0 e q)
  put-Places now id p s none v q = inr (
    refl,
    (
      id,
      refl,
      refl,
      (
        p,
        v,
        ((put_accepts now (new_order host a df id p) s).0 q).0,
        (put_effect now (new_order host a df id p) s).1 q,
      ),
    ),
  )

  place_policy-Places :
      (now id : ℕ) (r : Parsed) (s : Store)
      → ((p : OrderPolicy) → r ≡ policy p → IsPolicy p)
      → Places (some id) s (place_policy host a df now id r s)
  unfolding place_policy failure
  place_policy-Places now id (refused e) s f = inl (refl, refl)
  place_policy-Places now id (policy p) s f =
      put-Places now id p s (put now (new_order host a df id p) s).0 (f p refl) refl

  place_decrypted-Places :
      (now id : ℕ) (plaintext : Option (List ℕ)) (s : Store)
      → Places (some id) s (place_decrypted host a df now id plaintext s)
  unfolding place_decrypted failure
  place_decrypted-Places now id none s = inl (refl, refl)
  place_decrypted-Places now id (some bytes) s =
      place_policy-Places now id (parse_order_plaintext bytes) s
        (parse_order_plaintext-IsPolicy bytes)

  place_id-Places :
      (now : ℕ) (ciphertext : List ℕ) (asked : Option ℕ) (s : Store)
      → Places asked s (place_id host a df now ciphertext asked s)
  unfolding place_id failure
  place_id-Places now ciphertext none s = inl (refl, refl)
  place_id-Places now ciphertext (some id) s =
      place_decrypted-Places now id (host.decrypt ciphertext) s

  place_request-Places :
      (now : ℕ) (r : Option PlaceOrderRequest) (s : Store)
      → Places (requested r) s (place_request host a df now r s)
  unfolding place_request failure
  place_request-Places now none s = inl (refl, refl)
  place_request-Places now (some r) s =
      place_id-Places now r.ciphertext (order_id_to_uint64 r.order_id) s

  -- A PLACE_ORDER result has status 0, and then the order book is as it was, or status 1: then it
  -- acknowledges the id that the message names, which was new, the order is held open under it with
  -- a valid policy, and no other order has changed.
  pub process_place_order-Places :
      (now : ℕ) (s : Store)
      → Places
          (requested (decode_place_order host.place_order_args df.original_message))
          s
          (process_place_order host a df now s)
  unfolding process_place_order
  process_place_order-Places now s =
      place_request-Places now (decode_place_order host.place_order_args df.original_message) s

-- The order id that a cancellation names.
abbrev pub cancelled_id : Option CancelOrderRequest → Option ℕ
cancelled_id none = none
cancelled_id (some r) = order_id_to_uint64 r.order_id

-- What a cancellation does, by the id that it names: it drops the order, or reports an error.
abbrev pub Cancels : Option ℕ → Store → ActionResult × Store → Type 0
Cancels none s r = (r.0.status ≡ 0) × (r.1 ≡ s)
Cancels (some id) s r =
    (r.0.status ≡ (if contains id s.orders then 1 else 0))
    × ((k : ℕ) → get k r.1 ≡ (if id == k then none else get k s))

module _ (host : Host) (a : Action) (df : DataFixed) where
  cancel_id-Cancels : (asked : Option ℕ) (s : Store) → Cancels asked s (cancel_id host a df asked s)
  unfolding cancel_id failure success remove get
  cancel_id-Cancels none s = (refl, refl)
  cancel_id-Cancels (some id) s = (ground arith, λ k. ground (arith, lookup-delete id k s.orders))

  cancel_request-Cancels :
      (r : Option CancelOrderRequest) (s : Store)
      → Cancels (cancelled_id r) s (cancel_request host a df r s)
  unfolding cancel_request failure
  cancel_request-Cancels none s = (refl, refl)
  cancel_request-Cancels (some r) s = cancel_id-Cancels (order_id_to_uint64 r.order_id) s

  -- A CANCEL_ORDER result has status 1 exactly if the order book held the id that the message
  -- names. Then that order is dropped, and no other has changed; otherwise nothing has.
  pub process_cancel_order-Cancels :
      (s : Store)
      → Cancels
          (cancelled_id (decode_cancel_order host.cancel_order_args df.original_message))
          s
          (process_cancel_order host a df s)
  unfolding process_cancel_order
  process_cancel_order-Cancels s =
      cancel_request-Cancels (decode_cancel_order host.cancel_order_args df.original_message) s

-- The store holds what it held before: lookups agree.
abbrev pub SameOrders : Store → Store → Type 0
SameOrders s t = (k : ℕ) → get k s ≡ get k t

held_status :
    (id : ℕ) (o : Order) (s t : Store)
    → get id t ≡ (if id == id then some o else get id s)
    → ◌≡◌ {A = ℕ} (if contains id t.orders then 1 else 0) 1
unfolding get
held_status id o s t e = ground arith

restored :
    (id k : ℕ) (o : Order) (s t u : Store)
    → get id s ≡ none
    → get k t ≡ (if id == k then some o else get k s)
    → get k u ≡ (if id == k then none else get k t)
    → get k u ≡ get k s
restored id k o s t u new p q = ground arith

-- Cancelling an order right after it was placed, for the id that its placement named, succeeds and
-- leaves every order as it was before the placement.
pub process_cancel_order-process_place_order :
    (host : Host) (a b : Action) (df dg : DataFixed) (now : ℕ) (s : Store)
    → (process_place_order host a df now s).0.status ≡ 1
    → cancelled_id (decode_cancel_order host.cancel_order_args dg.original_message)
      ≡ requested (decode_place_order host.place_order_args df.original_message)
    → ((process_cancel_order host b dg (process_place_order host a df now s).1).0.status ≡ 1)
      × SameOrders (process_cancel_order host b dg (process_place_order host a df now s).1).1 s
process_cancel_order-process_place_order host a b df dg now s h same =
    elim (process_place_order-Places host a df now s) [
      | inl failed ↦ absurd (omega (arith, h, failed.0))
      | inr placed ↦
          let t = (process_place_order host a df now s).1 in
          let id = placed.1.0 in
          let p = placed.1.3 in
          let o = started s (new_order host a df id p.0) in
          let c =
            subst (λ asked. Cancels asked t (process_cancel_order host b dg t)) (same ∙ placed.1.1)
              (process_cancel_order-Cancels host b dg t) in
          (
            c.0 ∙ held_status id o s t (p.3 id),
            λ k. restored id k o s t (process_cancel_order host b dg t).1 p.2 (p.3 k) (c.1 k),
          )
    ]
