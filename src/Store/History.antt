-- ===== src/Store/History.antt =====
-- Calls of the order book of internal/extension/store.go, as the handlers and the watcher make them,
-- in any order.
use darkstop.Base.{ℕ, ◌≡◌, refl, inl, inr, Option, none, some, List, [], ◌∷◌, arith, Option-cases}
use darkstop.Base.Map.{lookup-insert, lookup-delete, lookup}
use darkstop.Store.{
  Order, Store, status_executed, new_store, get, put, seeded, remove, mark_executed, mark_found,
  observe_price, triggered_orders, ratcheted, executed_order,
}
use darkstop.Base.Big.{ℤ}
use darkstop.Store.Valid.{
  IsValid, new_store-IsValid, put-IsValid, remove-IsValid, mark_executed-IsValid,
  observe_price-IsValid, triggered_orders-IsValid,
}
use darkstop.Store.Listing.{lookup-trigger_loop}

-- One call that writes, with the time of the call where it reads the clock.
pub data Call : Type 0 where
  puts : ℕ → Order → Call
  removes : ℕ → Call
  marks : ℕ → Call
  observes : Option ℤ → ℕ → Call
  triggers : Option ℤ → Call

unfoldable pub called : Call → Store → Store
called (puts now o) s = (put now o s).1
called (removes id) s = (remove id s).1
called (marks id) s = (mark_executed id s).1
called (observes price at) s = observe_price price at s
called (triggers price) s = (triggered_orders price s).1

unfoldable pub called_all : List Call → Store → Store
unfolding called
called_all [] s = s
called_all (c ∷ cs) s = called_all cs (called c s)

pub called-IsValid : (c : Call) (s : Store) → IsValid s → IsValid (called c s)
unfolding called
called-IsValid (puts now o) s v = put-IsValid now o s v
called-IsValid (removes id) s v = remove-IsValid id s v
called-IsValid (marks id) s v = mark_executed-IsValid id s v
called-IsValid (observes price at) s v = observe_price-IsValid price at s v
called-IsValid (triggers price) s v = triggered_orders-IsValid price s v

-- Every call keeps the order book well-formed.
pub called_all-IsValid : (cs : List Call) (s : Store) → IsValid s → IsValid (called_all cs s)
unfolding called_all
called_all-IsValid [] s v = v
called_all-IsValid (c ∷ cs) s v = called_all-IsValid cs (called c s) (called-IsValid c s v)

-- The order book is well-formed after any calls from the empty one.
pub called_all-new_store : (cs : List Call) → IsValid (called_all cs new_store)
called_all-new_store cs = called_all-IsValid cs new_store new_store-IsValid

abbrev IsRemoval : ℕ → Call → Type 0
IsRemoval id (removes j) = j ≡ id
IsRemoval id (puts now o) = ⊥
IsRemoval id (marks j) = ⊥
IsRemoval id (observes price at) = ⊥
IsRemoval id (triggers price) = ⊥

-- No call of the list deletes the id.
abbrev pub Keeps : ℕ → List Call → Type 0
Keeps id [] = Unit
Keeps id (c ∷ cs) = (¬ (IsRemoval id c)) × Keeps id cs

mark_executed-ne :
    (j id : ℕ) (s : Store) (o : Order)
    → get id s ≡ some o
    → o.status ≡ status_executed
    → get id (mark_executed j s).1 ≡ some o
unfolding mark_executed get
mark_executed-ne j id s o e x = elim (Option-cases (lookup j s.orders)) [
  | inl n ↦ rw (n, mark_found) e
  | inr (m, f) ↦ rw (f, mark_found) (ground (arith, lookup-insert j id (executed_order m) s.orders))
]

orders-observe_price :
    (price : Option ℤ) (at : ℕ) (s : Store) → (observe_price price at s).orders ≡ s.orders
unfolding observe_price
orders-observe_price none at s = refl
orders-observe_price (some price) at s = ground arith

executed-ratcheted : (price : ℤ) (o : Order) → o.status ≡ status_executed → ratcheted price o ≡ o
unfolding ratcheted
executed-ratcheted price o x = ground arith

executed-triggered :
    (price : Option ℤ) (s : Store) (id : ℕ) (o : Order)
    → get id s ≡ some o
    → o.status ≡ status_executed
    → get id (triggered_orders price s).1 ≡ some o
unfolding triggered_orders get
executed-triggered none s id o e x = e
executed-triggered (some price) s id o e x =
    ground (arith, lookup-trigger_loop price id s.orders, executed-ratcheted price o x)

executed-called :
    (c : Call) (s : Store) (id : ℕ) (o : Order)
    → get id s ≡ some o
    → o.status ≡ status_executed
    → ¬ (IsRemoval id c)
    → get id (called c s) ≡ some o
unfolding called get put remove
executed-called (puts now n) s id o e x k =
    ground (arith, lookup-insert n.id id (seeded now s n) s.orders)
executed-called (removes j) s id o e x k = ground (arith, lookup-delete j id s.orders)
executed-called (marks j) s id o e x k = ground (arith, mark_executed-ne j id s o e x)
executed-called (observes price at) s id o e x k = ground (arith, orders-observe_price price at s)
executed-called (triggers price) s id o e x k = executed-triggered price s id o e x

-- An executed order stays as it is under every call but a deletion of its id: it is never open
-- again, no order takes its id, and no sample moves its trigger.
pub executed_final :
    (cs : List Call) (s : Store) (id : ℕ) (o : Order)
    → get id s ≡ some o
    → o.status ≡ status_executed
    → Keeps id cs
    → get id (called_all cs s) ≡ some o
unfolding called_all
executed_final [] s id o e x k = e
executed_final (c ∷ cs) s id o e x k =
    executed_final cs (called c s) id o (executed-called c s id o e x k.0) x k.1
