-- ===== src/Store/Examples.antt =====
-- Runs of the order book of internal/extension/store.go on concrete orders, and its theorems on them.
use Prim.Native.Nat.{max}
use darkstop.Base.{ℕ, ◌-◌, ◌*◌, ◌≤◌, ◌≡◌, ◌≢◌, ◌↔◌, ◌⊎◌, refl, none, some, [], ◌∷◌, arith}
use darkstop.Base.Big.{pos}
use darkstop.Base.Map.{lookup}
use darkstop.Store.{
  Order, Store, status_open, status_executed, get, put, open_orders, snapshot, triggered_orders,
  new_store, sort_by_id, trigger_loop, trailed, is_fixed, is_trailing,
}
use darkstop.Store.Valid.{IsValid}
use darkstop.Store.Sorting.{IsSorted, find_by_id}
use darkstop.Store.Listing.{only_open, open_orders_lem, listing_independent}
use darkstop.Store.Triggers.{trailing_fires}
use darkstop.Store.Ratchet.{watched, highest, get-watched}
use darkstop.Store.Placing.{put_accepts, IsNewFixed, IsNewTrailing, IsFresh}
use darkstop.Store.History.{puts, triggers, marks, called_all, called_all-new_store, executed_final}

abbrev fixed_order : Order
fixed_order = record {
  id = 1;
  trigger_price = some (pos 20_000);
  trail_bps = 0;
  high_watermark = none;
  status = status_open;
}

abbrev trailing_order : Order
trailing_order = record {
  id = 2;
  trigger_price = none;
  trail_bps = 500;
  high_watermark = some (pos 25_000);
  status = status_open;
}

abbrev executed : Order
executed = record fixed_order { id = 3; status = status_executed }

abbrev book : Store
book = record {
  orders = (2, trailing_order) ∷ (1, fixed_order) ∷ (3, executed) ∷ [];
  latest_price = some (pos 25_000);
  latest_at = 1_000;
}

abbrev book_rearranged : Store
book_rearranged = record book {
  orders = (1, fixed_order) ∷ (3, executed) ∷ (2, trailing_order) ∷ [];
}

book-IsValid : IsValid book
book-IsValid = ground arith

book_rearranged-IsValid : IsValid book_rearranged
book_rearranged-IsValid = ground arith

open_orders_run : open_orders book ≡ fixed_order ∷ trailing_order ∷ []
unfolding open_orders
open_orders_run = refl

triggered_orders_run :
    (triggered_orders (some (pos 23_750)) book).0
    ≡ record trailing_order { trigger_price = some (pos 23_750) } ∷ []
unfolding triggered_orders sort_by_id trigger_loop trailed
triggered_orders_run = refl

listing_independent_example :
    (open_orders book ≡ open_orders book_rearranged)
    × (snapshot book ≡ snapshot book_rearranged)
    × ((triggered_orders (some (pos 19_000)) book).0
        ≡ (triggered_orders (some (pos 19_000)) book_rearranged).0)
unfolding get lookup
listing_independent_example =
    listing_independent (pos 19_000) book book_rearranged book-IsValid book_rearranged-IsValid refl
      (λ id. ground arith)

open_orders_lem_example :
    IsSorted (open_orders book)
    × ((id : ℕ) → find_by_id id (open_orders book) ≡ only_open (get id book))
open_orders_lem_example = open_orders_lem book book-IsValid

trailing_fires_example :
    let r = triggered_orders (some (pos 23_750)) book in
    ((find_by_id 2 r.0 ≢ none) ↔ (23_750 * 10_000 ≤ max 25_000 23_750 * (10_000 - 500)))
    × (get 2 r.1 ≡ some (record trailing_order { high_watermark = some (pos (max 25_000 23_750)) }))
unfolding get lookup
trailing_fires_example =
    trailing_fires book 2 23_750 trailing_order book-IsValid (omega arith) refl refl 25_000 refl

get-watched_example :
    get 2 (watched (24_000 ∷ 31_000 ∷ 30_000 ∷ []) book)
    ≡ some (record trailing_order {
      high_watermark = some (pos (highest 25_000 (24_000 ∷ 31_000 ∷ 30_000 ∷ [])));
    })
unfolding get lookup
get-watched_example =
    get-watched (24_000 ∷ 31_000 ∷ 30_000 ∷ []) book 2 25_000 trailing_order book-IsValid
      (omega arith) refl refl refl

abbrev new_trailing : Order
new_trailing = record trailing_order { id = 7; high_watermark = none }

executed_final_example :
    get 3 (
      called_all
        (puts 5 (record fixed_order { id = 3 }) ∷ marks 3 ∷ triggers (some (pos 9)) ∷ [])
        book)
    ≡ some executed
unfolding get lookup
executed_final_example =
    executed_final (puts 5 (record fixed_order { id = 3 }) ∷ marks 3 ∷ triggers (some (pos 9)) ∷ [])
      book 3 executed refl refl ((λ h. h), ((λ h. h), ((λ h. h), tt)))

put_accepts_example : ((put 2_000 new_trailing book).0 ≡ none) ↔ (
    (get 7 book ≡ none)
    × (new_trailing.id ≢ 0)
    × (status_open ≡ status_open)
    × (IsNewFixed new_trailing ⊎ (IsNewTrailing new_trailing × IsFresh 2_000 book)))
put_accepts_example = put_accepts 2_000 new_trailing book

put_run : (put 2_000 new_trailing book).0 ≡ none
unfolding put lookup is_fixed is_trailing
put_run = refl

called_all-new_store_example : IsValid (called_all (puts 5 fixed_order ∷ marks 1 ∷ []) new_store)
called_all-new_store_example = called_all-new_store (puts 5 fixed_order ∷ marks 1 ∷ [])
