-- ===== src/Store/Valid.antt =====
-- The well-formedness of the order book of internal/extension/store.go, and its lemmas.
use darkstop.Base.{
  ℕ, ◌^◌, ◌≤◌, ◌<◌, ◌≡◌, refl, ◌⊎◌, inl, inr, true, false, Option, none, some, [], ◌∷◌, arith, ◌==◌,
  Option-cases,
}
use darkstop.Base.Big.{ℤ, pos, negsuc, is_positive}
use darkstop.Base.Map.{
  Map, lookup, insert, Absent, IsMap, Entries, insert-IsMap, delete-IsMap, insert-Entries,
  delete-Entries, Entries-lookup,
}
use darkstop.Store.{
  Order, Store, Status, status_open, status_executed, status_cancelled, new_store, get, put, remove,
  mark_executed, mark_found, observe_price, triggered_orders, ratcheted, trigger_loop, is_fixed,
  is_trailing, seeded, executed_order,
}

-- One fixed trigger, or one trailing distance with a high-watermark.
abbrev pub IsPolicy : Option ℤ → ℕ → Option ℤ → Type 0
IsPolicy (some (pos p)) bps none = (0 < p) × (p < 2 ^ 256) × (bps ≡ 0)
IsPolicy none bps (some (pos h)) = (0 < h) × (25 ≤ bps) × (bps ≤ 5000)
IsPolicy _ _ _ = ⊥

-- Cancelled orders are not held.
abbrev pub IsHeld : Status → Type 0
IsHeld status_open = Unit
IsHeld status_executed = Unit
IsHeld status_cancelled = ⊥

pub record IsOrder (id : ℕ) (o : Order) : Type 0 where
  pub keyed : o.id ≡ id
  pub nonzero : 0 < id
  pub held : IsHeld o.status
  pub policy : IsPolicy o.trigger_price o.trail_bps o.high_watermark

-- The sample that seeds a trailing order is positive and has a time.
abbrev pub IsSample : Option ℤ → ℕ → Type 0
IsSample none at = Unit
IsSample (some (pos p)) at = (0 < p) × (0 < at)
IsSample (some (negsuc p)) at = ⊥

pub record IsValid (s : Store) : Type 0 where
  pub orders : Entries IsOrder s.orders
  pub distinct : IsMap s.orders
  pub sample : IsSample s.latest_price s.latest_at

pub new_store-IsValid : IsValid new_store
new_store-IsValid = record { orders = tt; distinct = tt; sample = tt }

seeded-IsOrder :
    (now : ℕ) (o : Order) (s : Store)
    → IsSample s.latest_price s.latest_at
    → (o.id == 0) ≡ false
    → o.status ≡ status_open
    → (is_fixed o ≡ true) ⊎ (is_trailing now s o ≡ true)
    → IsOrder o.id (seeded now s o)
unfolding seeded is_fixed is_trailing
seeded-IsOrder now o s v n e h = ground arith

insert-IsValid :
    (id : ℕ) (o : Order) (s : Store)
    → IsOrder id o
    → IsValid s
    → IsValid (record s { orders = insert id o s.orders })
insert-IsValid id o s h v = record {
  orders = insert-Entries IsOrder id o s.orders h v.orders;
  distinct = insert-IsMap id o s.orders v.distinct;
  sample = v.sample;
}

pub put-IsValid : (now : ℕ) (o : Order) (s : Store) → IsValid s → IsValid (put now o s).1
unfolding put
put-IsValid now o s v =
    ground (arith, insert-IsValid o.id (seeded now s o) s, seeded-IsOrder now o s v.sample)

pub remove-IsValid : (id : ℕ) (s : Store) → IsValid s → IsValid (remove id s).1
unfolding remove
remove-IsValid id s v =
    ground (arith, delete-IsMap id s.orders v.distinct, delete-Entries IsOrder id s.orders v.orders)

executed-IsOrder : (id : ℕ) (o : Order) → IsOrder id o → IsOrder id (executed_order o)
unfolding executed_order
executed-IsOrder id o h = ground arith

pub mark_executed-IsValid : (id : ℕ) (s : Store) → IsValid s → IsValid (mark_executed id s).1
unfolding mark_executed
mark_executed-IsValid id s v = elim (Option-cases (lookup id s.orders)) [
  | inl e ↦ rw (e, mark_found) v
  | inr (o, e) ↦
      rw (e, mark_found)
        (ground (
          arith,
          insert-IsValid id (executed_order o) s,
          executed-IsOrder id o (Entries-lookup IsOrder id o s.orders v.orders e),
        ))
]

pub observe_price-IsValid :
    (price : Option ℤ) (at : ℕ) (s : Store) → IsValid s → IsValid (observe_price price at s)
unfolding observe_price
observe_price-IsValid none at s v = v
observe_price-IsValid (some price) at s v = ground arith

pub ratcheted-IsOrder :
    (price : ℤ) (id : ℕ) (o : Order)
    → is_positive price ≡ true
    → IsOrder id o
    → IsOrder id (ratcheted price o)
unfolding ratcheted
ratcheted-IsOrder price id o p h = ground arith

trigger_loop-Absent :
    (price : ℤ) (k : ℕ) (m : Map Order) → Absent k m → Absent k (trigger_loop price m).0
unfolding trigger_loop
trigger_loop-Absent price k [] h = tt
trigger_loop-Absent price k ((id, o) ∷ m) h = (h.0, trigger_loop-Absent price k m h.1)

trigger_loop-IsMap : (price : ℤ) (m : Map Order) → IsMap m → IsMap (trigger_loop price m).0
unfolding trigger_loop
trigger_loop-IsMap price [] h = tt
trigger_loop-IsMap price ((id, o) ∷ m) h =
    (trigger_loop-Absent price id m h.0, trigger_loop-IsMap price m h.1)

trigger_loop-Entries :
    (price : ℤ) (m : Map Order)
    → is_positive price ≡ true
    → Entries IsOrder m
    → Entries IsOrder (trigger_loop price m).0
unfolding trigger_loop
trigger_loop-Entries price [] p h = tt
trigger_loop-Entries price ((id, o) ∷ m) p h =
    (ratcheted-IsOrder price id o p h.0, trigger_loop-Entries price m p h.1)

pub triggered_orders-IsValid :
    (price : Option ℤ) (s : Store) → IsValid s → IsValid (triggered_orders price s).1
unfolding triggered_orders
triggered_orders-IsValid none s v = v
triggered_orders-IsValid (some price) s v =
    ground (arith, trigger_loop-Entries price s.orders, trigger_loop-IsMap price s.orders)

pub get-IsOrder : (id : ℕ) (o : Order) (s : Store) → IsValid s → get id s ≡ some o → IsOrder id o
unfolding get
get-IsOrder id o s v e = Entries-lookup IsOrder id o s.orders v.orders e

-- What an order with a policy is: fixed, with its trigger, or trailing, with its high-watermark.
abbrev pub IsFixedAt : Option ℤ → ℕ → Option ℤ → Type 0
IsFixedAt trigger bps high = (t : ℕ) × (trigger ≡ some (pos t)) × (bps ≡ 0) × (high ≡ none)

abbrev pub IsTrailingAt : Option ℤ → ℕ → Option ℤ → Type 0
IsTrailingAt trigger bps high =
    (h : ℕ) × (high ≡ some (pos h)) × (trigger ≡ none) × (25 ≤ bps) × (bps ≤ 5000)

pub policy_cases :
    (trigger : Option ℤ) (bps : ℕ) (high : Option ℤ)
    → IsPolicy trigger bps high
    → IsFixedAt trigger bps high ⊎ IsTrailingAt trigger bps high
policy_cases (some (pos p)) bps none v = inl (p, refl, v.2, refl)
policy_cases none bps (some (pos h)) v = inr (h, refl, refl, v.1, v.2)
policy_cases none bps none v = absurd v
policy_cases none bps (some (negsuc h)) v = absurd v
policy_cases (some (pos p)) bps (some h) v = absurd v
policy_cases (some (negsuc p)) bps high v = absurd v
