-- ===== src/Store/Listing.antt =====
-- What the lists that internal/extension/store.go returns hold, whatever order its map is walked in.
use darkstop.Base.{
  ℕ, ◌≡◌, ◌≢◌, refl, sym, ap, ◌∙◌, true, Option, none, some, List, [], ◌∷◌, arith, if◌then◌else◌,
  All, Bool-cases, inl, inr,
}
use darkstop.Base.Big.{ℤ, is_positive}
use darkstop.Base.Map.{Map, lookup, Absent, IsMap, Entries, Absent-lookup}
use mathlib.Core.Option
use darkstop.Store.{
  Order, Store, is_open, collect_open, values, open_orders, snapshot, trigger_loop,
  triggered_orders, get, ratcheted, is_triggered, revealed,
}
use darkstop.Store.Valid.{IsOrder, IsValid}
use darkstop.Store.Sorting.{
  IsSorted, IsDistinct, find_by_id, find_by_id-sort_by_id, sort_by_id-IsSorted, sorted_ext,
}

-- The order of a map entry, if it is open.
abbrev pub only_open : Option Order → Option Order
only_open none = none
only_open (some o) = if is_open o.status then some o else none

-- What a sample makes of an order: the copy that is returned, if the order fires.
abbrev pub fired : ℤ → Option Order → Option Order
fired price none = none
fired price (some o) =
    if is_triggered price (ratcheted price o) then some (revealed (ratcheted price o)) else none

-- `ls` lists the orders of a map, some of them left out.
module _ (pick : Option Order → Option Order) where
  abbrev Lists : (Map Order → List Order) → Type 0
  Lists ls =
      (id : ℕ) (m : Map Order)
      → Entries IsOrder m
      → IsMap m
      → find_by_id id (ls m) ≡ pick (lookup id m)

find-values : Lists (λ o. o) values
unfolding find_by_id values lookup
find-values id [] e d = refl
find-values id ((k, o) ∷ m) e d = ground (arith, find-values id m e.1 d.1, e.0.keyed)

find-collect_open : Lists only_open collect_open
unfolding find_by_id collect_open lookup
find-collect_open id [] e d = refl
find-collect_open id ((k, o) ∷ m) e d =
    ground (arith, find-collect_open id m e.1 d.1, e.0.keyed, Absent-lookup k m d.0)

id-ratcheted : (price : ℤ) (o : Order) → (ratcheted price o).id ≡ o.id
unfolding ratcheted
id-ratcheted price o = ground arith

find-trigger_loop : (price : ℤ) → Lists (fired price) (λ m. (trigger_loop price m).1)
unfolding find_by_id trigger_loop lookup revealed
find-trigger_loop price id [] e d = refl
find-trigger_loop price id ((k, o) ∷ m) e d = ground (
  arith,
  find-trigger_loop price id m e.1 d.1,
  e.0.keyed,
  Absent-lookup k m d.0,
  id-ratcheted price o,
)

pub lookup-trigger_loop :
    (price : ℤ) (id : ℕ) (m : Map Order)
    → lookup id (trigger_loop price m).0 ≡ Option.map (ratcheted price) (lookup id m)
unfolding trigger_loop lookup
lookup-trigger_loop price id [] = refl
lookup-trigger_loop price id ((k, o) ∷ m) = ground (arith, lookup-trigger_loop price id m)

-- The ids of a list come from the map.
module _ (ls : Map Order → List Order) where
  abbrev FromMap : Type 0
  FromMap = (k : ℕ) (m : Map Order) → Entries IsOrder m → Absent k m → All (λ x. x.id ≢ k) (ls m)

values-FromMap : FromMap values
unfolding values
values-FromMap k [] e a = tt
values-FromMap k ((j, o) ∷ m) e a = ground (arith, values-FromMap k m e.1 a.1, e.0.keyed)

collect_open-FromMap : FromMap collect_open
unfolding collect_open
collect_open-FromMap k [] e a = tt
collect_open-FromMap k ((j, o) ∷ m) e a =
    ground (arith, collect_open-FromMap k m e.1 a.1, e.0.keyed)

trigger_loop-FromMap : (price : ℤ) → FromMap (λ m. (trigger_loop price m).1)
unfolding trigger_loop revealed
trigger_loop-FromMap price k [] e a = tt
trigger_loop-FromMap price k ((j, o) ∷ m) e a =
    ground (arith, trigger_loop-FromMap price k m e.1 a.1, e.0.keyed, id-ratcheted price o)

values-IsDistinct : (m : Map Order) → Entries IsOrder m → IsMap m → IsDistinct (values m)
unfolding values
values-IsDistinct [] e d = tt
values-IsDistinct ((k, o) ∷ m) e d =
    (rw e.0.keyed (values-FromMap k m e.1 d.0), values-IsDistinct m e.1 d.1)

collect_open-IsDistinct :
    (m : Map Order) → Entries IsOrder m → IsMap m → IsDistinct (collect_open m)
unfolding collect_open
collect_open-IsDistinct [] e d = tt
collect_open-IsDistinct ((k, o) ∷ m) e d = elim (Bool-cases (is_open o.status)) [
  | inl yes' ↦
      rw yes' (rw e.0.keyed (collect_open-FromMap k m e.1 d.0), collect_open-IsDistinct m e.1 d.1)
  | inr no' ↦ rw no' (collect_open-IsDistinct m e.1 d.1)
]

trigger_loop-IsDistinct :
    (price : ℤ) (m : Map Order) → Entries IsOrder m → IsMap m → IsDistinct (trigger_loop price m).1
unfolding trigger_loop revealed
trigger_loop-IsDistinct price [] e d = tt
trigger_loop-IsDistinct price ((k, o) ∷ m) e d =
    elim (Bool-cases (is_triggered price (ratcheted price o))) [
      | inl fires ↦ rw fires (
        rw (id-ratcheted price o ∙ e.0.keyed) (trigger_loop-FromMap price k m e.1 d.0),
        trigger_loop-IsDistinct price m e.1 d.1,
      )
      | inr rests ↦ rw rests (trigger_loop-IsDistinct price m e.1 d.1)
    ]

-- OpenOrders is sorted by id, and holds exactly the open orders of a well-formed store.
pub open_orders_lem :
    (s : Store)
    → IsValid s
    → IsSorted (open_orders s) × ((id : ℕ) → find_by_id id (open_orders s) ≡ only_open (get id s))
unfolding open_orders get
open_orders_lem s v = (
  sort_by_id-IsSorted _ (collect_open-IsDistinct s.orders v.orders v.distinct),
  λ id. find_by_id-sort_by_id id _ ∙ find-collect_open id s.orders v.orders v.distinct,
)

-- Snapshot is sorted by id, and holds exactly the orders of a well-formed store.
pub snapshot_lem :
    (s : Store)
    → IsValid s
    → IsSorted (snapshot s) × ((id : ℕ) → find_by_id id (snapshot s) ≡ get id s)
unfolding snapshot get
snapshot_lem s v = (
  sort_by_id-IsSorted _ (values-IsDistinct s.orders v.orders v.distinct),
  λ id. find_by_id-sort_by_id id _ ∙ find-values id s.orders v.orders v.distinct,
)

-- TriggeredOrders raises every open trailing order's high-watermark, and returns, sorted by id, the
-- orders that then fire.
pub triggered_orders_lem :
    (price : ℤ) (s : Store)
    → IsValid s
    → is_positive price ≡ true
    → IsSorted (triggered_orders (some price) s).0
      × ((id : ℕ) → find_by_id id (triggered_orders (some price) s).0 ≡ fired price (get id s))
      × ((id : ℕ)
          → get id (triggered_orders (some price) s).1 ≡ Option.map (ratcheted price) (get id s))
unfolding triggered_orders get
triggered_orders_lem price s v p = rw p (
  sort_by_id-IsSorted _ (trigger_loop-IsDistinct price s.orders v.orders v.distinct),
  (λ id. find_by_id-sort_by_id id _ ∙ find-trigger_loop price id s.orders v.orders v.distinct),
  (λ id. lookup-trigger_loop price id s.orders),
)

-- Two well-formed stores with the same orders give the same open orders, the same snapshot and, on
-- a positive sample, the same triggered orders, in whatever order their maps are walked.
pub listing_independent :
    (price : ℤ) (s t : Store)
    → IsValid s
    → IsValid t
    → is_positive price ≡ true
    → ((id : ℕ) → get id s ≡ get id t)
    → (open_orders s ≡ open_orders t)
      × (snapshot s ≡ snapshot t)
      × ((triggered_orders (some price) s).0 ≡ (triggered_orders (some price) t).0)
listing_independent price s t v w p h =
    let os = open_orders_lem s v in
    let ot = open_orders_lem t w in
    let ss = snapshot_lem s v in
    let st = snapshot_lem t w in
    let ts = triggered_orders_lem price s v p in
    let tt' = triggered_orders_lem price t w p in
    (
      sorted_ext _ _ os.0 ot.0 (λ id. os.1 id ∙ ap only_open (h id) ∙ sym (ot.1 id)),
      sorted_ext _ _ ss.0 st.0 (λ id. ss.1 id ∙ h id ∙ sym (st.1 id)),
      sorted_ext _ _ ts.0 tt'.0 (λ id. ts.1 id ∙ ap (fired price) (h id) ∙ sym (tt'.1 id)),
    )
