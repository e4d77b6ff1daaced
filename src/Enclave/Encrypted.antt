-- ===== src/Enclave/Encrypted.antt =====
-- tools/cmd/run-test/main.go with internal/extension/extension.go and store.go: an order from the client's
-- text to its settlement. ECIES is a parameter.
use darkstop.Base.{
  All, ℕ, zero, suc, ◌^◌, ◌≤◌, ◌<◌, ◌≡◌, ◌≢◌, ◌↔◌, refl, ◌∙◌, inl, none, some, List, ==_iff, arith,
}
use darkstop.Base.Big.{pos}
use darkstop.Policy.{OrderPolicy}
use darkstop.Policy.Printing.{client_plaintext, parse_order_plaintext-client_plaintext}
use darkstop.Store.{Order, Store, status_open, get, put, triggered_orders}
use darkstop.Store.Sorting.{find_by_id}
use darkstop.Store.Valid.{IsValid, put-IsValid}
use darkstop.Store.Placing.{put_accepts, put_effect}
use darkstop.Store.Triggers.{fixed_fires}
use darkstop.Store.Ratchet.{watched, watched-IsValid, get-watched_fixed}
use darkstop.Enclave.Types.{decode_place_order}
use darkstop.Enclave.{
  Host, Action, DataFixed, order_id_to_uint64, new_order, place_answer, place_policy,
  place_decrypted, place_id, place_request, process_place_order, success,
}

-- An id of the vault is read as it is.
order_id_to_uint64-pos : (id : ℕ) → 0 < id → id < 2 ^ 64 → order_id_to_uint64 (pos id) ≡ some id
unfolding order_id_to_uint64
order_id_to_uint64-pos zero h l = absurd (omega arith)
order_id_to_uint64-pos (suc n) h l = ground arith

abbrev fixed_at : ℕ → OrderPolicy
fixed_at x = record { trigger_price = some (pos x); trail_bps = 0 }

module _ (host : Host) (a : Action) (df : DataFixed) where
  -- The order as it is put.
  abbrev client_order : ℕ → ℕ → Order
  client_order id x = new_order host a df id (fixed_at x)

  process_lem :
      (now x id : ℕ) (s : Store) (ciphertext : List ℕ)
      → 0 < x
      → x < 2 ^ 256
      → 0 < id
      → id < 2 ^ 64
      → decode_place_order host.place_order_args df.original_message
        ≡ some (record { order_id = pos id; ciphertext = ciphertext })
      → host.decrypt ciphertext ≡ some (client_plaintext x)
      → process_place_order host a df now s ≡ (
        place_answer host a df id (put now (client_order id x) s).0,
        (put now (client_order id x) s).1,
      )
  unfolding process_place_order place_request place_id place_decrypted place_policy
  process_lem now x id s ciphertext h l g m decoded decrypted = rw decoded (
      rw (order_id_to_uint64-pos id g m)
        (rw decrypted (rw (parse_order_plaintext-client_plaintext x h l) refl)))

  put_lem :
      (now x id : ℕ) (s : Store)
      → 0 < x
      → x < 2 ^ 256
      → 0 < id
      → get id s ≡ none
      → (put now (client_order id x) s).0 ≡ none
  put_lem now x id s h l g new =
      (put_accepts now (client_order id x) s).1
        (new, (λ e. omega arith), refl, inl ((h, l), refl, refl))

  -- An order from the client to its settlement: a well-formed order book accepts the order of a new
  -- uint64 id that is not 0, whose ciphertext decrypts to what the client writes for a positive
  -- trigger below 2 ^ 256, and after any run of positive samples, the order fires on a further one
  -- exactly if that is at or below the trigger.
  pub process_place_order-client_plaintext :
      (now x id : ℕ) (s : Store) (ciphertext : List ℕ)
      → IsValid s
      → 0 < x
      → x < 2 ^ 256
      → 0 < id
      → id < 2 ^ 64
      → get id s ≡ none
      → decode_place_order host.place_order_args df.original_message
        ≡ some (record { order_id = pos id; ciphertext = ciphertext })
      → host.decrypt ciphertext ≡ some (client_plaintext x)
      → let r = process_place_order host a df now s in
        (r.0 ≡ success host a df id status_open)
        × ((ps : List ℕ) (p : ℕ)
            → All (λ q. 0 < q) ps
            → 0 < p
            → (find_by_id id (triggered_orders (some (pos p)) (watched ps r.1)).0 ≢ none) ↔ (p ≤ x))
  unfolding place_answer
  process_place_order-client_plaintext now x id s ciphertext valid h l g m new decoded decrypted =
      let o = client_order id x in
      let accepted = put_lem now x id s h l g new in
      let held : get id (put now o s).1 ≡ some o =
        (put_effect now o s).1 accepted id ∙ rw ((==_iff id id).1 refl) refl in
      rw (process_lem now x id s ciphertext h l g m decoded decrypted) (
        rw accepted refl,
        (λ ps p seen positive.
            (fixed_fires (watched ps (put now o s).1) id p o
              (watched-IsValid ps _ (put-IsValid now o s valid)) positive
              (get-watched_fixed ps _ id x o (put-IsValid now o s valid) seen held refl refl) refl x
              refl).0),
      )
