-- ===== src/Store/Triggers.antt =====
-- When an order of internal/extension/store.go fires, in terms of prices: fixed triggers, and the
-- moving trigger of a trailing stop.
use darkstop.Base.{
  ℕ, ◌+◌, ◌-◌, ◌*◌, ◌/◌, ◌%◌, ◌^◌, ◌≤◌, ◌<◌, ◌≡◌, ◌≢◌, ◌↔◌, refl, ap, ◌∙◌, inl, inr, true, none,
  some, arith, Bool-cases, Option-cases,
}
use darkstop.Base.Big.{ℤ, pos, is_positive}
use Prim.Native.Nat.{max}
use darkstop.Store.{
  Order, Store, status_open, get, ratcheted, is_triggered, trailed, effective_of, triggered_orders,
}
use darkstop.Store.Valid.{IsOrder, IsValid, get-IsOrder}
use native.Mathlib.Nat.{le_trans, mul-le-mul_left}
use darkstop.Store.Sorting.{find_by_id}
use darkstop.Store.Listing.{fired, triggered_orders_lem}

-- The factor, for a distance in range.
keep_bps : (bps : ℕ) → bps ≤ 5000 → (10_000 + 2 ^ 16 - bps) % 2 ^ 16 ≡ 10_000 - bps
keep_bps bps h = omega arith

pub trailed_pos : (h bps : ℕ) → bps ≤ 5000 → trailed (pos h) bps ≡ pos (h * (10_000 - bps) / 10_000)
unfolding trailed
trailed_pos h bps k = rw (keep_bps bps k)

-- A quotient rounded down is reached exactly by the multiples below.
le-div : (p x : ℕ) → (p ≤ x / 10_000) ↔ (p * 10_000 ≤ x)
le-div p x = (λ h. omega arith, λ h. omega arith)

module _ (price : ℕ) (o : Order) (bps h : ℕ) (is_opened : o.status ≡ status_open)
    (trail : o.trail_bps ≡ bps) (low : 25 ≤ bps) (wide : bps ≤ 5000)
    (high : o.high_watermark ≡ some (pos h)) where
  pub ratcheted_high :
      ratcheted (pos price) o ≡ record o { high_watermark = some (pos (max h price)) }
  unfolding ratcheted
  ratcheted_high = ground arith

  pub effective_high :
      effective_of (ratcheted (pos price) o) ≡ some (pos (max h price * (10_000 - bps) / 10_000))
  unfolding effective_of
  effective_high = rw ratcheted_high (ground (arith, trailed_pos (max h price) bps wide))

  is_triggered_high :
      (is_triggered (pos price) (ratcheted (pos price) o) ≡ true)
      ↔ (price * 10_000 ≤ max h price * (10_000 - bps))
  unfolding is_triggered
  is_triggered_high = rw effective_high (
      rw ratcheted_high (
        let d = le-div price (max h price * (10_000 - bps)) in
        ((λ e. d.0 (ground arith)), (λ e. ground (arith, d.1 e)))))

fired_iff :
    (price : ℤ) (o : Order)
    → (fired price (some o) ≢ none) ↔ (is_triggered price (ratcheted price o) ≡ true)
fired_iff price o = elim (Bool-cases (is_triggered price (ratcheted price o))) [
  | inl e ↦ rw e ((λ _. refl), (λ _ k. cc))
  | inr e ↦ rw e ((λ k. absurd (k refl)), (λ k. cc))
]

-- The policy of a well-formed order with a high-watermark is a trailing one.
trailing_bounds :
    (o : Order) (id h : ℕ)
    → IsOrder id o
    → o.high_watermark ≡ some (pos h)
    → (25 ≤ o.trail_bps) × (o.trail_bps ≤ 5000) × (0 < h) × (o.trigger_price ≡ none)
trailing_bounds o id h v e = ground arith

fixed_bounds :
    (o : Order) (id t : ℕ) → IsOrder id o → o.trigger_price ≡ some (pos t) → o.trail_bps ≡ 0
fixed_bounds o id t v e = ground arith

fixed_plain :
    (p t : ℕ) (o : Order)
    → o.status ≡ status_open
    → o.trail_bps ≡ 0
    → o.trigger_price ≡ some (pos t)
    → (ratcheted (pos p) o ≡ o) × ((is_triggered (pos p) (ratcheted (pos p) o) ≡ true) ↔ (p ≤ t))
unfolding ratcheted is_triggered
fixed_plain p t o e z k = ground arith

-- A price is not its own distance below itself.
below_own : (bps p h : ℕ) → 0 < p → 25 ≤ bps → h ≤ p → p * 10_000 ≤ max h p * (10_000 - bps) → ⊥
below_own bps p h pos' low above fall = omega (arith, scaled)
  where
    highest : max h p ≡ p
    highest = omega arith

    factor : 10_000 - bps ≤ 9_975
    factor = omega arith

    scaled : p * 10_000 ≤ p * 9_975
    scaled = le_trans (rw highest at fall) (mul-le-mul_left p factor)

module _ (s : Store) (id p : ℕ) (o : Order) (valid : IsValid s) (sampled : 0 < p)
    (found : get id s ≡ some o) (opened : o.status ≡ status_open) where
  positive : is_positive (pos p) ≡ true
  positive = ground arith

  fires_iff :
      {B : Type 0}
      → (is_triggered (pos p) (ratcheted (pos p) o) ≡ true) ↔ B
      → (find_by_id id (triggered_orders (some (pos p)) s).0 ≢ none) ↔ B
  fires_iff b =
      rw ((triggered_orders_lem (pos p) s valid positive).1 id, found)
        ((λ k. b.0 ((fired_iff (pos p) o).0 k)), (λ k. (fired_iff (pos p) o).1 (b.1 k)))

  kept : get id (triggered_orders (some (pos p)) s).1 ≡ some (ratcheted (pos p) o)
  kept = rw ((triggered_orders_lem (pos p) s valid positive).2 id, found)

  -- An open trailing order of a well-formed store with a high-watermark fires on a positive sample
  -- exactly if the sample is at or below the trail under the higher of the two, and its
  -- high-watermark becomes that higher price.
  pub trailing_fires :
      (h : ℕ)
      → o.high_watermark ≡ some (pos h)
      → let r = triggered_orders (some (pos p)) s in
        ((find_by_id id r.0 ≢ none) ↔ (p * 10_000 ≤ max h p * (10_000 - o.trail_bps)))
        × (get id r.1 ≡ some (record o { high_watermark = some (pos (max h p)) }))
  trailing_fires h high =
      let b = trailing_bounds o id h (get-IsOrder id o s valid found) high in
      (
        fires_iff (is_triggered_high p o o.trail_bps h opened refl b.0 b.1 high),
        kept ∙ ap some (ratcheted_high p o o.trail_bps h opened refl b.0 b.1 high),
      )

  -- An open fixed order of a well-formed store fires on a positive sample exactly if the sample is
  -- at or below its trigger, and stays as it was.
  pub fixed_fires :
      (t : ℕ)
      → o.trigger_price ≡ some (pos t)
      → let r = triggered_orders (some (pos p)) s in
        ((find_by_id id r.0 ≢ none) ↔ (p ≤ t)) × (get id r.1 ≡ some o)
  fixed_fires t trigger =
      let f =
        fixed_plain p t o opened (fixed_bounds o id t (get-IsOrder id o s valid found) trigger)
          trigger in
      (fires_iff f.1, kept ∙ ap some f.0)

  -- A positive sample at or above an open trailing order's high-watermark never fires it, in a
  -- well-formed store.
  pub fresh_high_rests :
      (h : ℕ)
      → o.high_watermark ≡ some (pos h)
      → h ≤ p
      → find_by_id id (triggered_orders (some (pos p)) s).0 ≡ none
  fresh_high_rests h high above =
      elim (Option-cases (find_by_id id (triggered_orders (some (pos p)) s).0)) [
        | inl e ↦ e
        | inr (x, e) ↦
            let b = trailing_bounds o id h (get-IsOrder id o s valid found) high in
            absurd (
              below_own (o.trail_bps) p h sampled b.0 above ((trailing_fires h high).0.0 (λ n. cc)))
      ]
