-- ===== src/Store/Ratchet.antt =====
-- The moving trigger over a run of samples: internal/extension/store.go, TriggeredOrders and
-- EffectiveTrigger together.
use native.Mathlib.Nat.{mul-le-mul_right}
use Prim.Native.Nat.{max}
use darkstop.Base.{
  ℕ, ◌-◌, ◌*◌, ◌/◌, ◌≤◌, ◌<◌, ◌≡◌, refl, sym, ap, ◌∙◌, inl, inr, true, false, Option, none, some,
  List, [], ◌∷◌, arith, if◌then◌else◌, All, Bool-cases, Option-cases,
}
use darkstop.Base.Big.{ℤ, pos, negsuc, is_positive, ◌≤ℤ◌}
use darkstop.Store.{
  Order, Store, status_open, is_open, get, ratcheted, effective_of, effective_trigger,
  effective_found, triggered_orders,
}
use darkstop.Store.Valid.{IsOrder, IsValid, get-IsOrder, policy_cases, triggered_orders-IsValid}
use darkstop.Store.Listing.{triggered_orders_lem}
use darkstop.Store.Triggers.{trailed_pos, trailing_fires, fixed_fires, effective_high}

-- EffectiveTrigger is the trigger that TriggeredOrders computes, for open orders.
effective_found_lem :
    (o : Order) → effective_found (some o) ≡ (if is_open o.status then effective_of o else none)
unfolding effective_found effective_of
effective_found_lem o = ground arith

effective_found-open :
    (o : Order) → o.status ≡ status_open → effective_found (some o) ≡ effective_of o
effective_found-open o h = ground (arith, effective_found_lem o)

effective_trigger-get : (id : ℕ) (s : Store) → effective_trigger id s ≡ effective_found (get id s)
unfolding effective_trigger get
effective_trigger-get id s = refl

effective_found_open :
    (o : Order) (t : ℤ) → effective_found (some o) ≡ some t → o.status ≡ status_open
unfolding effective_found
effective_found_open o t e = ground arith

-- The moving trigger rises with the high-watermark.
trailed_mono : (h n k : ℕ) → h * k / 10_000 ≤ max h n * k / 10_000
trailed_mono h n k = let m : h * k ≤ max h n * k = mul-le-mul_right k (omega arith) in omega arith

fixed-ratcheted : (n : ℕ) (o : Order) → o.trail_bps ≡ 0 → ratcheted (pos n) o ≡ o
unfolding ratcheted
fixed-ratcheted n o z = ground arith

status-ratcheted : (price : ℤ) (o : Order) → (ratcheted price o).status ≡ o.status
unfolding ratcheted
status-ratcheted price o = ground arith

trailing-ratcheted :
    (n h : ℕ) (o : Order) (t : ℤ)
    → o.high_watermark ≡ some (pos h)
    → 25 ≤ o.trail_bps
    → o.trail_bps ≤ 5000
    → effective_found (some o) ≡ some t
    → (u : ℤ) × (effective_found (some (ratcheted (pos n) o)) ≡ some u) × (t ≤ℤ u)
unfolding effective_of
trailing-ratcheted n h o t high low wide e = (
  pos (max h n * (10_000 - o.trail_bps) / 10_000),
  effective_found-open (ratcheted (pos n) o) (status-ratcheted (pos n) o ∙ opened) ∙ after,
  ground (
    arith,
    effective_found_lem o,
    trailed_pos h o.trail_bps,
    trailed_mono h n (10_000 - o.trail_bps),
  ),
)
  where
    opened : o.status ≡ status_open
    opened = effective_found_open o t e

    after :
        effective_of (ratcheted (pos n) o) ≡ some (pos (max h n * (10_000 - o.trail_bps) / 10_000))
    after = effective_high n o o.trail_bps h opened refl low wide high

effective_found-ratcheted :
    (price : ℤ) (id : ℕ) (o : Order) (t : ℤ)
    → is_positive price ≡ true
    → IsOrder id o
    → effective_found (some o) ≡ some t
    → (u : ℤ) × (effective_found (some (ratcheted price o)) ≡ some u) × (t ≤ℤ u)
effective_found-ratcheted (negsuc n) id o t p v e = cc
effective_found-ratcheted (pos n) id o t p v e =
    elim (policy_cases o.trigger_price o.trail_bps o.high_watermark v.policy) [
      | inl f ↦ rw (fixed-ratcheted n o f.2) (t, e, omega arith)
      | inr k ↦ trailing-ratcheted n k.0 o t k.1 k.3 k.4 e
    ]

triggered_none : (s : Store) → (triggered_orders none s).1 ≡ s
unfolding triggered_orders
triggered_none s = refl

triggered_bad :
    (price : ℤ) (s : Store) → is_positive price ≡ false → (triggered_orders (some price) s).1 ≡ s
unfolding triggered_orders
triggered_bad price s h = rw h

effective_found-none : effective_found none ≡ none
unfolding effective_found
effective_found-none = refl

-- The trigger of an order of a well-formed store after TriggeredOrders is at least what it was
-- before.
pub effective_trigger-triggered_orders :
    (s : Store) (id : ℕ) (price : Option ℤ) (t : ℤ)
    → IsValid s
    → effective_trigger id s ≡ some t
    → (u : ℤ) × (effective_trigger id (triggered_orders price s).1 ≡ some u) × (t ≤ℤ u)
effective_trigger-triggered_orders s id none t v e = (t, rw triggered_none e, omega arith)
effective_trigger-triggered_orders s id (some price) t v e = elim (Bool-cases (is_positive price)) [
  | inr bad ↦ (t, rw (triggered_bad price s bad) e, omega arith)
  | inl good ↦ elim (Option-cases (get id s)) [
    | inl n ↦ cc (e, effective_trigger-get id s, ap effective_found n, effective_found-none)
    | inr (o, f) ↦
        rw (effective_trigger-get, (triggered_orders_lem price s v good).2 id, f)
          (effective_found-ratcheted price id o t good (get-IsOrder id o s v f)
            (sym (effective_trigger-get id s ∙ ap effective_found f) ∙ e))
  ]
]

-- TriggeredOrders at each of a run of samples, oldest first.
pub watched : List ℕ → Store → Store
watched [] s = s
watched (p ∷ ps) s = watched ps (triggered_orders (some (pos p)) s).1

-- The highest of a run of samples and a price before it.
pub highest : ℕ → List ℕ → ℕ
highest h [] = h
highest h (p ∷ ps) = highest (max h p) ps

pub watched-IsValid : (ps : List ℕ) (s : Store) → IsValid s → IsValid (watched ps s)
unfolding watched
watched-IsValid [] s v = v
watched-IsValid (p ∷ ps) s v = watched-IsValid ps _ (triggered_orders-IsValid (some (pos p)) s v)

record_high :
    (o : Order) (h : ℕ)
    → o.high_watermark ≡ some (pos h)
    → o ≡ record o { high_watermark = some (pos h) }
record_high o h e = ground arith

-- After any run of positive samples, in a well-formed store, the high-watermark of an open order
-- that has one is the highest of them and the price that it started from, and nothing else of the
-- order has changed.
pub get-watched :
    (ps : List ℕ) (s : Store) (id h : ℕ) (o : Order)
    → IsValid s
    → All (λ p. 0 < p) ps
    → get id s ≡ some o
    → o.status ≡ status_open
    → o.high_watermark ≡ some (pos h)
    → get id (watched ps s) ≡ some (record o { high_watermark = some (pos (highest h ps)) })
unfolding watched highest
get-watched [] s id h o v a e opened high = e ∙ ap some (record_high o h high)
get-watched (p ∷ ps) s id h o v a e opened high =
    get-watched ps _ id (max h p) _ (triggered_orders-IsValid (some (pos p)) s v) a.1
      (trailing_fires s id p o v a.0 e opened h high).1 opened refl

-- A run of positive samples leaves an open fixed order as it is.
pub get-watched_fixed :
    (ps : List ℕ) (s : Store) (id t : ℕ) (o : Order)
    → IsValid s
    → All (λ p. 0 < p) ps
    → get id s ≡ some o
    → o.status ≡ status_open
    → o.trigger_price ≡ some (pos t)
    → get id (watched ps s) ≡ some o
unfolding watched
get-watched_fixed [] s id t o v a e opened trigger = e
get-watched_fixed (p ∷ ps) s id t o v a e opened trigger =
    get-watched_fixed ps _ id t o (triggered_orders-IsValid (some (pos p)) s v) a.1
      (fixed_fires s id p o v a.0 e opened t trigger).1 opened trigger
