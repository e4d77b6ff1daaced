-- ===== src/Store/Sorting.antt =====
-- Lists of orders by id: what sort.Slice leaves in internal/extension/store.go.
use darkstop.Base.{
  ℕ, ◌≤◌, ◌<◌, ◌≡◌, ◌≢◌, refl, inl, inr, Option, none, some, List, [], ◌∷◌, arith, ltb, ◌==◌,
  if◌then◌else◌, All, Bool-cases,
}
use darkstop.Store.{Order, insert_by_id, sort_by_id}

-- The order with an id, in a list.
unfoldable pub find_by_id : ℕ → List Order → Option Order
find_by_id id [] = none
find_by_id id (o ∷ os) = if o.id == id then some o else find_by_id id os

-- Ids rise strictly along the list.
abbrev pub IsSorted : List Order → Type 0
IsSorted [] = Unit
IsSorted (o ∷ os) = All (λ x. o.id < x.id) os × IsSorted os

-- No two orders of the list have the same id.
abbrev pub IsDistinct : List Order → Type 0
IsDistinct [] = Unit
IsDistinct (o ∷ os) = All (λ x. x.id ≢ o.id) os × IsDistinct os

module _ (P : Order → Type 0) where
  insert_by_id-All : (o : Order) (os : List Order) → P o → All P os → All P (insert_by_id o os)
  unfolding insert_by_id
  insert_by_id-All o [] p h = (p, tt)
  insert_by_id-All o (x ∷ xs) p h = ground (arith, insert_by_id-All o xs p h.1)

  pub sort_by_id-All : (os : List Order) → All P os → All P (sort_by_id os)
  unfolding sort_by_id
  sort_by_id-All [] h = tt
  sort_by_id-All (o ∷ os) h = insert_by_id-All o (sort_by_id os) h.0 (sort_by_id-All os h.1)

All-lt_trans : (a b : ℕ) (os : List Order) → a < b → All (λ x. b < x.id) os → All (λ x. a < x.id) os
All-lt_trans a b [] h k = tt
All-lt_trans a b (o ∷ os) h k = (omega arith, All-lt_trans a b os h k.1)

insert_by_id-IsSorted :
    (o : Order) (os : List Order)
    → All (λ x. x.id ≢ o.id) os
    → IsSorted os
    → IsSorted (insert_by_id o os)
unfolding insert_by_id
insert_by_id-IsSorted o [] n s = (tt, tt)
insert_by_id-IsSorted o (x ∷ xs) n s = elim (Bool-cases (ltb x.id o.id)) [
  | inl below ↦ rw below (
    insert_by_id-All (λ y. x.id < y.id) o xs (ground arith) s.0,
    insert_by_id-IsSorted o xs n.1 s.1,
  )
  | inr above ↦
      let lower : o.id < x.id = ground arith in
      rw above ((lower, All-lt_trans o.id x.id xs lower s.0), s)
]

pub sort_by_id-IsSorted : (os : List Order) → IsDistinct os → IsSorted (sort_by_id os)
unfolding sort_by_id
sort_by_id-IsSorted [] d = tt
sort_by_id-IsSorted (o ∷ os) d =
    insert_by_id-IsSorted o (sort_by_id os) (sort_by_id-All (λ x. x.id ≢ o.id) os d.0)
      (sort_by_id-IsSorted os d.1)

find_by_id-insert_by_id :
    (id : ℕ) (o : Order) (os : List Order)
    → find_by_id id (insert_by_id o os) ≡ (if o.id == id then some o else find_by_id id os)
unfolding find_by_id insert_by_id
find_by_id-insert_by_id id o [] = refl
find_by_id-insert_by_id id o (x ∷ xs) = ground (arith, find_by_id-insert_by_id id o xs)

-- Sorting loses no order and adds none.
pub find_by_id-sort_by_id :
    (id : ℕ) (os : List Order) → find_by_id id (sort_by_id os) ≡ find_by_id id os
unfolding find_by_id sort_by_id
find_by_id-sort_by_id id [] = refl
find_by_id-sort_by_id id (o ∷ os) =
    rw (find_by_id-insert_by_id id o (sort_by_id os), find_by_id-sort_by_id id os)

pub find_by_id-none :
    (id k : ℕ) (os : List Order) → id ≤ k → All (λ x. k < x.id) os → find_by_id id os ≡ none
unfolding find_by_id
find_by_id-none id k [] h a = refl
find_by_id-none id k (o ∷ os) h a = ground (arith, find_by_id-none id k os h a.1)

-- A sorted list is determined by the orders that it holds.
pub sorted_ext :
    (xs ys : List Order)
    → IsSorted xs
    → IsSorted ys
    → ((id : ℕ) → find_by_id id xs ≡ find_by_id id ys)
    → xs ≡ ys
unfolding find_by_id
sorted_ext [] [] s t h = refl
sorted_ext [] (y ∷ ys) s t h = ground (arith, h y.id)
sorted_ext (x ∷ xs) [] s t h = ground (arith, h x.id)
sorted_ext (x ∷ xs) (y ∷ ys) s t h = ground (arith, same, sorted_ext xs ys s.1 t.1 tails)
  where
    same : x ≡ y
    same =
        ground (arith, h x.id, h y.id, find_by_id-none x.id y.id ys, find_by_id-none y.id x.id xs)

    tails : (id : ℕ) → find_by_id id xs ≡ find_by_id id ys
    tails id = ground (arith, h id, same, find_by_id-none id x.id xs, find_by_id-none id y.id ys)
