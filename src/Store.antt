-- ===== src/Store.antt =====
-- internal/extension/store.go: the enclave's order book. Each method is a function of the store under
-- its lock; a method that writes returns the new store. A time is the number of nanoseconds since
-- Go's zero time, so the zero time is 0.
mod Examples
pub mod Valid
pub mod History
pub mod Placing
pub mod Ratchet
pub mod Triggers
pub mod Listing
pub mod Sorting
use darkstop.Base.{
  ℕ, ◌+◌, ◌-◌, ◌%◌, ◌^◌, Bool, true, false, not, ◌&&◌, ◌||◌, Option, none, some, List, [], ◌∷◌, ltb,
  leb, ◌==◌, if◌then◌else◌, is_some,
}
use darkstop.Base.Big.{ℤ, leb_ℤ, ltb_ℤ, is_positive, bit_len_le, mul_ℕ, div_ℕ}
use darkstop.Base.Map.{Map, lookup, insert, delete, contains}

pub data Status : Type 0 where
  status_open status_executed status_cancelled : Status

abbrev pub is_open : Status → Bool
is_open status_open = true
is_open status_executed = false
is_open status_cancelled = false

pub record Order : Type 0 where
  pub id : ℕ  -- uint64
  pub trigger_price : Option ℤ
  pub trail_bps : ℕ  -- uint16
  pub high_watermark : Option ℤ
  pub status : Status

pub record Store : Type 0 where
  pub orders : Map Order
  pub latest_price : Option ℤ
  pub latest_at : ℕ

abbrev pub new_store : Store
new_store = record { orders = []; latest_price = none; latest_at = 0 }

-- 10 * time.Second
abbrev pub trailing_sample_max_age : ℕ
trailing_sample_max_age = 10_000_000_000

abbrev pub min_trail_bps : ℕ
min_trail_bps = 25

abbrev pub max_trail_bps : ℕ
max_trail_bps = 5000

-- trailingReadyLocked
unfoldable pub trailing_ready : ℕ → Store → Bool
trailing_ready now s =
    if not (is_some s.latest_price) || s.latest_at == 0
    then false
    else (leb s.latest_at now && leb (now - s.latest_at) trailing_sample_max_age)

pub data PutError : Type 0 where
  already_exists invalid_identity invalid_policy : PutError

-- The test that o.TriggerPrice is a positive uint256.
abbrev pub is_trigger : Option ℤ → Bool
is_trigger none = false
is_trigger (some p) = is_positive p && bit_len_le p 256

unfoldable pub is_fixed : Order → Bool
is_fixed o = is_trigger o.trigger_price && o.trail_bps == 0 && not (is_some o.high_watermark)

unfoldable pub is_trailing : ℕ → Store → Order → Bool
unfolding trailing_ready
is_trailing now s o =
    not (is_some o.trigger_price)
    && leb min_trail_bps o.trail_bps
    && leb o.trail_bps max_trail_bps
    && not (is_some o.high_watermark)
    && trailing_ready now s

-- The high-watermark that a new order starts from.
unfoldable pub seeded : ℕ → Store → Order → Order
seeded now s o =
    if is_trailing now s o && is_some s.latest_price
    then record o { high_watermark = s.latest_price }
    else o

unfoldable pub put : ℕ → Order → Store → Option PutError × Store
put now o s =
    if contains o.id s.orders
    then (some already_exists, s)
    else if o.id == 0 || not (is_open o.status)
    then (some invalid_identity, s)
    else if not (is_fixed o) && not (is_trailing now s o)
    then (some invalid_policy, s)
    else (none, record s { orders = insert o.id (seeded now s o) s.orders })

unfoldable pub get : ℕ → Store → Option Order
get id s = lookup id s.orders

-- Delete
unfoldable pub remove : ℕ → Store → Bool × Store
remove id s =
    if not (contains id s.orders)
    then (false, s)
    else (true, record s { orders = delete id s.orders })

executed_order : Order → Order
executed_order o = record o { status = status_executed }

mark_found : ℕ → Option Order → Store → Bool × Store
unfolding executed_order
mark_found id none s = (false, s)
mark_found id (some o) s =
    if not (is_open o.status)
    then (false, s)
    else (true, record s { orders = insert id (executed_order o) s.orders })

unfoldable pub mark_executed : ℕ → Store → Bool × Store
unfolding mark_found
mark_executed id s = mark_found id (lookup id s.orders) s

-- sort.Slice by ID
unfoldable pub insert_by_id : Order → List Order → List Order
insert_by_id o [] = o ∷ []
insert_by_id o (x ∷ xs) = if ltb x.id o.id then x ∷ insert_by_id o xs else o ∷ x ∷ xs

unfoldable pub sort_by_id : List Order → List Order
unfolding insert_by_id
sort_by_id [] = []
sort_by_id (o ∷ os) = insert_by_id o (sort_by_id os)

-- The loop of OpenOrders.
unfoldable pub collect_open : Map Order → List Order
collect_open [] = []
collect_open ((id, o) ∷ m) =
    let rest = collect_open m in if is_open o.status then o ∷ rest else rest

unfoldable pub open_orders : Store → List Order
unfolding collect_open sort_by_id
open_orders s = sort_by_id (collect_open s.orders)

-- ObservePrice
unfoldable pub observe_price : Option ℤ → ℕ → Store → Store
observe_price none at s = s
observe_price (some price) at s =
    if is_positive price && not (at == 0)
    then record s { latest_price = some price; latest_at = at }
    else s

pub data Policy : Type 0 where
  fixed trailing : Policy

unfoldable pub supported_policies : ℕ → Store → List Policy
unfolding trailing_ready
supported_policies now s = if trailing_ready now s then fixed ∷ trailing ∷ [] else fixed ∷ []

-- high * (10_000 - TrailBps) / 10_000, where the difference is a uint16
unfoldable pub trailed : ℤ → ℕ → ℤ
trailed high bps = div_ℕ (mul_ℕ high ((10_000 + 2 ^ 16 - bps) % 2 ^ 16)) 10_000

-- o.HighWatermark == nil || price.Cmp(o.HighWatermark) > 0
raised : ℤ → Option ℤ → ℤ
raised price none = price
raised price (some high) = if ltb_ℤ high price then price else high

-- The body of the loop of TriggeredOrders: what it writes back.
unfoldable pub ratcheted : ℤ → Order → Order
unfolding raised
ratcheted price o =
    if is_open o.status && ltb 0 o.trail_bps
    then record o { high_watermark = some (raised price o.high_watermark) }
    else o

trailed_high : Option ℤ → ℕ → Option ℤ
trailed_high none bps = none
trailed_high (some high) bps = some (trailed high bps)

-- The trigger that an order has by its policy and its high-watermark.
unfoldable pub effective_of : Order → Option ℤ
unfolding trailed_high
effective_of o =
    if ltb 0 o.trail_bps then trailed_high o.high_watermark o.trail_bps else o.trigger_price

-- effective != nil && price.Cmp(effective) <= 0
abbrev pub crosses : ℤ → Option ℤ → Bool
crosses price none = false
crosses price (some t) = leb_ℤ price t

unfoldable pub is_triggered : ℤ → Order → Bool
unfolding effective_of
is_triggered price o = is_open o.status && crosses price (effective_of o)

-- The copy that is returned, with the effective trigger for the vault to check.
unfoldable pub revealed : Order → Order
unfolding effective_of
revealed o = record o { trigger_price = effective_of o }

-- The loop of TriggeredOrders: the entries as it leaves them, and the orders that it returns.
unfoldable pub trigger_loop : ℤ → Map Order → Map Order × List Order
unfolding ratcheted is_triggered revealed
trigger_loop price [] = ([], [])
trigger_loop price ((id, o) ∷ m) =
    let rest = trigger_loop price m in
    let o' = ratcheted price o in
    ((id, o') ∷ rest.0, (if is_triggered price o' then revealed o' ∷ rest.1 else rest.1))

unfoldable pub triggered_orders : Option ℤ → Store → List Order × Store
triggered_orders none s = ([], s)
triggered_orders (some price) s = if not (is_positive price) then ([], s) else (
  sort_by_id (trigger_loop price s.orders).1,
  record s { orders = (trigger_loop price s.orders).0 },
)

effective_found : Option Order → Option ℤ
unfolding trailed_high
effective_found none = none
effective_found (some o) =
    if not (is_open o.status)
    then none
    else if o.trail_bps == 0
    then o.trigger_price
    else trailed_high o.high_watermark o.trail_bps

unfoldable pub effective_trigger : ℕ → Store → Option ℤ
unfolding effective_found
effective_trigger id s = effective_found (lookup id s.orders)

-- The loop of Snapshot.
unfoldable pub values : Map Order → List Order
values [] = []
values ((id, o) ∷ m) = o ∷ values m

unfoldable pub snapshot : Store → List Order
unfolding values sort_by_id
snapshot s = sort_by_id (values s.orders)
