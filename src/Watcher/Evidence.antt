-- ===== src/Watcher/Evidence.antt =====
-- internal/extension/watcher.go: the evidence from the chain on which an order is marked executed.
use darkstop.Base.{
  ℕ, ◌≡◌, ◌≢◌, sym, subst, Bool, true, Option, none, some, List, [], ◌∷◌, All, arith,
}
use darkstop.Base.Big.{ℤ}
use darkstop.Base.Map.{Map, Entries, insert, delete, insert-Entries, delete-Entries}
use darkstop.Store.{
  Order, Store, is_open, put, remove, observe_price, triggered_orders, trigger_loop, ratcheted,
  seeded,
}
use darkstop.Store.History.{Call, puts, removes, marks, observes, triggers, called, called_all}
use darkstop.Watcher.State.{Env, Watcher, ok}
use darkstop.Watcher.Exec.{awaited}
use darkstop.Watcher.Logic.{Keeps, keeps_rules}
use darkstop.Watcher.Chain.{ftso_address, current_price, ensure_chain_id, chain_id_or_fetched}
use darkstop.Watcher.Nonce.{
  reserve_nonce, reserve_unless, reserve_found, reserved, release_nonce, release_order_nonce,
  Search, free, exhausted, unfinished,
}

-- No order of the book is executed.
pub record IsUnexecuted (s : Store) : Type 0 where
  pub opened : Entries (λ id o. is_open o.status ≡ true) s.orders

-- The handlers place and cancel orders, and do not mark them.
abbrev pub IsUnmarking : Call → Type 0
IsUnmarking (marks id) = ⊥
IsUnmarking (puts now o) = Unit
IsUnmarking (removes id) = Unit
IsUnmarking (observes price at) = Unit
IsUnmarking (triggers price) = Unit

ratcheted-open :
    (price : ℤ) (o : Order) → is_open o.status ≡ true → is_open (ratcheted price o).status ≡ true
unfolding ratcheted
ratcheted-open price o h = ground arith

trigger_loop-open :
    (price : ℤ) (m : Map Order)
    → Entries (λ id o. is_open o.status ≡ true) m
    → Entries (λ id o. is_open o.status ≡ true) (trigger_loop price m).0
unfolding trigger_loop
trigger_loop-open price [] h = tt
trigger_loop-open price ((id, o) ∷ m) h =
    (ratcheted-open price o h.0, trigger_loop-open price m h.1)

looped-IsUnexecuted :
    (price : ℤ) (s : Store)
    → IsUnexecuted s
    → IsUnexecuted (record s { orders = (trigger_loop price s.orders).0 })
looped-IsUnexecuted price s h = record { opened = trigger_loop-open price s.orders h.opened }

pub triggered_orders-IsUnexecuted :
    (price : Option ℤ) (s : Store) → IsUnexecuted s → IsUnexecuted (triggered_orders price s).1
unfolding triggered_orders
triggered_orders-IsUnexecuted none s h = h
triggered_orders-IsUnexecuted (some price) s h = ground (arith, looped-IsUnexecuted price s h)

seeded-open :
    (now : ℕ) (s : Store) (o : Order)
    → is_open o.status ≡ true
    → is_open (seeded now s o).status ≡ true
unfolding seeded
seeded-open now s o h = ground arith

insert-IsUnexecuted :
    (id : ℕ) (o : Order) (s : Store)
    → is_open o.status ≡ true
    → IsUnexecuted s
    → IsUnexecuted (record s { orders = insert id o s.orders })
insert-IsUnexecuted id o s e h = record {
  opened = insert-Entries (λ id o. is_open o.status ≡ true) id o s.orders e h.opened;
}

delete-IsUnexecuted :
    (id : ℕ) (s : Store) → IsUnexecuted s → IsUnexecuted (record s { orders = delete id s.orders })
delete-IsUnexecuted id s h = record {
  opened = delete-Entries (λ id o. is_open o.status ≡ true) id s.orders h.opened;
}

sampled-IsUnexecuted :
    (price : ℤ) (at : ℕ) (s : Store)
    → IsUnexecuted s
    → IsUnexecuted (record s { latest_price = some price; latest_at = at })
sampled-IsUnexecuted price at s h = record { opened = h.opened }

put-IsUnexecuted : (now : ℕ) (o : Order) (s : Store) → IsUnexecuted s → IsUnexecuted (put now o s).1
unfolding put
put-IsUnexecuted now o s h =
    ground (arith, insert-IsUnexecuted o.id (seeded now s o) s, seeded-open now s o)

pub remove-IsUnexecuted : (id : ℕ) (s : Store) → IsUnexecuted s → IsUnexecuted (remove id s).1
unfolding remove
remove-IsUnexecuted id s h = ground (arith, delete-IsUnexecuted id s h)

pub observe_price-IsUnexecuted :
    (price : Option ℤ) (at : ℕ) (s : Store)
    → IsUnexecuted s
    → IsUnexecuted (observe_price price at s)
unfolding observe_price
observe_price-IsUnexecuted none at s h = h
observe_price-IsUnexecuted (some price) at s h = ground (arith, sampled-IsUnexecuted price at s h)

called_all-IsUnexecuted :
    (cs : List Call) (s : Store)
    → All IsUnmarking cs
    → IsUnexecuted s
    → IsUnexecuted (called_all cs s)
unfolding called_all called
called_all-IsUnexecuted [] s u h = h
called_all-IsUnexecuted (puts now o ∷ cs) s u h =
    called_all-IsUnexecuted cs _ u.1 (put-IsUnexecuted now o s h)
called_all-IsUnexecuted (removes id ∷ cs) s u h =
    called_all-IsUnexecuted cs _ u.1 (remove-IsUnexecuted id s h)
called_all-IsUnexecuted (marks id ∷ cs) s u h = absurd u.0
called_all-IsUnexecuted (observes price at ∷ cs) s u h =
    called_all-IsUnexecuted cs _ u.1 (observe_price-IsUnexecuted price at s h)
called_all-IsUnexecuted (triggers price ∷ cs) s u h =
    called_all-IsUnexecuted cs _ u.1 (triggered_orders-IsUnexecuted price s h)

store-release_nonce_eq :
    (id n : ℕ) (c : Bool) (w : Watcher) → (release_nonce id n c w).store ≡ w.store
unfolding release_nonce
store-release_nonce_eq id n c w = ground arith

store-release_order_nonce_eq :
    (id : ℕ) (c : Bool) (w : Watcher) → (release_order_nonce id c w).store ≡ w.store
unfolding release_order_nonce release_nonce
store-release_order_nonce_eq id c w = ground arith

-- A chain on which no receipt reports success and no order has the status 2, and handlers that do not
-- mark orders.
pub record IsSilent (env : Env) : Type 0 where
  pub unmarking : (k : ℕ) → All IsUnmarking (env.handlers k)
  pub no_receipt : (k hash : ℕ) → env.transaction_receipt k hash ≢ ok 1
  pub no_status : (output : List ℕ) → env.unpack_orders output ≢ ok (some 2)

-- The property of the state.
abbrev pub P : Watcher → Type 0
P w = IsUnexecuted w.store

module _ (env : Env) (silent_env : IsSilent env) where
  pub stable : (w : Watcher) → P w → P (awaited env w)
  unfolding awaited
  stable w h =
      called_all-IsUnexecuted (env.handlers w.calls) w.store (silent_env.unmarking w.calls) h

  pub open-release_nonce : (id n : ℕ) (c : Bool) (w : Watcher) → P w → P (release_nonce id n c w)
  open-release_nonce id n c w h = subst IsUnexecuted (sym (store-release_nonce_eq id n c w)) h

  pub open-release_order_nonce :
      (id : ℕ) (c : Bool) (w : Watcher) → P w → P (release_order_nonce id c w)
  open-release_order_nonce id c w h =
      subst IsUnexecuted (sym (store-release_order_nonce_eq id c w)) h

  ruleset steps = (keeps_rules, stable, open-release_nonce, open-release_order_nonce)

  chain_id_or_fetched-Keeps : (known : Option ℤ) → Keeps P (chain_id_or_fetched env known)
  unfolding chain_id_or_fetched
  chain_id_or_fetched-Keeps (some id) = search steps
  chain_id_or_fetched-Keeps none = search steps depth 8

  pub ensure_chain_id-Keeps : Keeps P (ensure_chain_id env)
  unfolding ensure_chain_id
  ensure_chain_id-Keeps = search (steps, chain_id_or_fetched-Keeps)

  ftso_address-Keeps : Keeps P (ftso_address env)
  unfolding ftso_address
  ftso_address-Keeps = search steps depth 12

  pub current_price-Keeps : Keeps P (current_price env)
  unfolding current_price
  current_price-Keeps = search (steps, ftso_address-Keeps) depth 14

  reserve_found-Keeps : (id : ℕ) (s : Search) → Keeps P (reserve_found id s)
  unfolding reserve_found reserved
  reserve_found-Keeps id (free candidate) = search steps depth 8
  reserve_found-Keeps id exhausted = search steps
  reserve_found-Keeps id unfinished = search steps

  reserve_unless-Keeps : (id : ℕ) (owned : Option ℕ) → Keeps P (reserve_unless env id owned)
  unfolding reserve_unless
  reserve_unless-Keeps id (some nonce) = search steps
  reserve_unless-Keeps id none = search (steps, reserve_found-Keeps) depth 8

  pub reserve_nonce-Keeps : (id : ℕ) → Keeps P (reserve_nonce env id)
  unfolding reserve_nonce
  reserve_nonce-Keeps id = search (steps, reserve_unless-Keeps)
