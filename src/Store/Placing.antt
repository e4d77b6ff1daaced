-- ===== src/Store/Placing.antt =====
-- What internal/extension/store.go takes into the order book: Put, on every branch, and its agreement
-- with the policies that SupportedPolicies advertises.
use darkstop.Base.{
  ℕ, ◌+◌, ◌^◌, ◌≤◌, ◌<◌, ◌≡◌, ◌≢◌, ◌↔◌, ◌⊎◌, true, Option, none, some, [], ◌∷◌, arith, ◌==◌,
  if◌then◌else◌,
}
use darkstop.Base.Big.{ℤ, pos, negsuc}
use darkstop.Base.Map.{lookup-insert}
use darkstop.Store.{
  Order, Store, fixed, trailing, status_open, put, get, is_fixed, is_trailing, seeded,
  trailing_ready, supported_policies, PutError,
}

-- A sample that may start a trailing order: at most ten seconds old, and not from the future.
abbrev pub IsFresh : ℕ → Store → Type 0
IsFresh now s =
    (s.latest_price ≢ none)
    × (s.latest_at ≢ 0)
    × (s.latest_at ≤ now)
    × (now ≤ s.latest_at + 10_000_000_000)

pub trailing_ready_iff : (now : ℕ) (s : Store) → (trailing_ready now s ≡ true) ↔ IsFresh now s
unfolding trailing_ready
trailing_ready_iff now s = ground arith

-- What a new order must be.
abbrev pub IsTrigger : Option ℤ → Type 0
IsTrigger none = ⊥
IsTrigger (some (pos t)) = (0 < t) × (t < 2 ^ 256)
IsTrigger (some (negsuc t)) = ⊥

abbrev pub IsNewFixed : Order → Type 0
IsNewFixed o = IsTrigger o.trigger_price × (o.trail_bps ≡ 0) × (o.high_watermark ≡ none)

abbrev pub IsNewTrailing : Order → Type 0
IsNewTrailing o =
    (o.trigger_price ≡ none) × (25 ≤ o.trail_bps) × (o.trail_bps ≤ 5000) × (o.high_watermark ≡ none)

pub is_fixed_iff : (o : Order) → (is_fixed o ≡ true) ↔ IsNewFixed o
unfolding is_fixed
is_fixed_iff o = ground arith

pub is_trailing_iff :
    (now : ℕ) (s : Store) (o : Order)
    → (is_trailing now s o ≡ true) ↔ (IsNewTrailing o × IsFresh now s)
unfolding is_trailing
is_trailing_iff now s o = ground arith

-- The order that Put keeps: a trailing one starts from the latest sample.
abbrev pub started : Store → Order → Order
started s o = record o { high_watermark = if o.trail_bps == 0 then none else s.latest_price }

seeded-started :
    (now : ℕ) (s : Store) (o : Order)
    → IsNewFixed o ⊎ (IsNewTrailing o × IsFresh now s)
    → seeded now s o ≡ started s o
unfolding seeded
seeded-started now s o h = ground (arith, is_trailing_iff now s o)

-- Put accepts exactly the open orders under a new id, not 0, that are fixed with a positive uint256
-- trigger, or trailing by 25 to 5000 basis points while a fresh sample is there.
pub put_accepts :
    (now : ℕ) (o : Order) (s : Store)
    → ((put now o s).0 ≡ none) ↔ (
        (get o.id s ≡ none)
        × (o.id ≢ 0)
        × (o.status ≡ status_open)
        × (IsNewFixed o ⊎ (IsNewTrailing o × IsFresh now s)))
unfolding put get
put_accepts now o s = ground (arith, is_trailing_iff now s o, is_fixed_iff o)

-- A refused order changes nothing. An accepted one is held under its id, and a trailing one starts
-- from the latest sample; every other order stays as it was.
pub put_effect :
    (now : ℕ) (o : Order) (s : Store)
    → ((e : PutError) → (put now o s).0 ≡ some e → (put now o s).1 ≡ s)
      × ((put now o s).0 ≡ none
          → (id : ℕ)
          → get id (put now o s).1 ≡ (if o.id == id then some (started s o) else get id s))
unfolding put get
put_effect now o s = (
  (λ e h. ground arith),
  (λ h id. ground (
    arith,
    lookup-insert o.id id (seeded now s o) s.orders,
    seeded-started now s o,
    is_trailing_iff now s o,
    is_fixed_iff o,
  )),
)

-- While a trailing order would be well-formed under a new id, Put accepts it exactly when
-- SupportedPolicies advertises trailing orders.
pub put-supported_policies :
    (now : ℕ) (o : Order) (s : Store)
    → get o.id s ≡ none
    → o.id ≢ 0
    → o.status ≡ status_open
    → IsNewTrailing o
    → ((put now o s).0 ≡ none) ↔ (supported_policies now s ≡ fixed ∷ trailing ∷ [])
unfolding supported_policies
put-supported_policies now o s new nonzero opened t =
    ground (arith, put_accepts now o s, trailing_ready_iff now s)
