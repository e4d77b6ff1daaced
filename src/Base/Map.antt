-- ===== src/Base/Map.antt =====
-- Go maps with integer keys. A range over a map goes through the entries in the order in which they
-- stand here; that order is arbitrary, as in Go, and no theorem fixes it.
use darkstop.Base.Tests.{◌==◌, if◌then◌else◌, is_some}
use Prim.Native.Nat.{ℕ}
use mathlib.Core.Path.{◌≡◌, refl}
use mathlib.Core.Logic.{◌≢◌}
use mathlib.Core.Bool.{Bool}
use mathlib.Core.Option.{Option, none, some}
use mathlib.Core.List.{List, [], ◌∷◌}
use native.Mathlib.Omega.{arith}

abbrev pub Map {ℓ} : Type ℓ → Type ℓ
Map V = List (ℕ × V)

module _ {ℓ} {V : Type ℓ} where
  -- v, ok := m[k]
  unfoldable pub lookup : ℕ → Map V → Option V
  lookup k [] = none
  lookup k ((j, v) ∷ m) = if j == k then some v else lookup k m

  -- delete(m, k)
  unfoldable pub delete : ℕ → Map V → Map V
  delete k [] = []
  delete k ((j, v) ∷ m) = let rest = delete k m in if j == k then rest else (j, v) ∷ rest

  -- m[k] = v
  unfoldable pub insert : ℕ → V → Map V → Map V
  insert k v m = (k, v) ∷ delete k m

  abbrev pub contains : ℕ → Map V → Bool
  contains k m = is_some (lookup k m)

  pub lookup-delete :
      (k j : ℕ) (m : Map V) → lookup j (delete k m) ≡ (if k == j then none else lookup j m)
  unfolding lookup delete
  lookup-delete k j [] = ground arith
  lookup-delete k j ((i, v) ∷ m) = ground (arith, lookup-delete k j m)

  pub lookup-insert :
      (k j : ℕ) (v : V) (m : Map V)
      → lookup j (insert k v m) ≡ (if k == j then some v else lookup j m)
  unfolding lookup insert
  lookup-insert k j v m = ground (arith, lookup-delete k j m)

  -- No entry has the key.
  abbrev pub Absent : ℕ → Map V → Type 0
  Absent k [] = Unit
  Absent k ((j, v) ∷ m) = (j ≢ k) × Absent k m

  -- No two entries have the same key.
  abbrev pub IsMap : Map V → Type 0
  IsMap [] = Unit
  IsMap ((j, v) ∷ m) = Absent j m × IsMap m

  pub Absent-lookup : (k : ℕ) (m : Map V) → Absent k m → lookup k m ≡ none
  unfolding lookup
  Absent-lookup k [] h = refl
  Absent-lookup k ((j, v) ∷ m) h = ground (arith, Absent-lookup k m h.1)

  pub delete-Absent_self : (k : ℕ) (m : Map V) → Absent k (delete k m)
  unfolding delete
  delete-Absent_self k [] = tt
  delete-Absent_self k ((j, v) ∷ m) = ground (arith, delete-Absent_self k m)

  pub delete-Absent : (k j : ℕ) (m : Map V) → Absent j m → Absent j (delete k m)
  unfolding delete
  delete-Absent k j [] h = tt
  delete-Absent k j ((i, v) ∷ m) h = ground (arith, delete-Absent k j m h.1)

  pub delete-IsMap : (k : ℕ) (m : Map V) → IsMap m → IsMap (delete k m)
  unfolding delete
  delete-IsMap k [] h = tt
  delete-IsMap k ((j, v) ∷ m) h = ground (arith, delete-IsMap k m h.1, delete-Absent k j m h.0)

  pub insert-IsMap : (k : ℕ) (v : V) (m : Map V) → IsMap m → IsMap (insert k v m)
  unfolding insert
  insert-IsMap k v m h = (delete-Absent_self k m, delete-IsMap k m h)

module _ {ℓ κ} {V : Type ℓ} (P : ℕ → V → Type κ) where
  -- Every entry has the property.
  abbrev pub Entries : Map V → Type κ
  Entries [] = Unit
  Entries ((k, v) ∷ m) = P k v × Entries m

  pub Entries-lookup : (k : ℕ) (v : V) (m : Map V) → Entries m → lookup k m ≡ some v → P k v
  unfolding lookup
  Entries-lookup k v [] h e = cc
  Entries-lookup k v ((j, w) ∷ m) h e = ground (arith, Entries-lookup k v m h.1)

  pub delete-Entries : (k : ℕ) (m : Map V) → Entries m → Entries (delete k m)
  unfolding delete
  delete-Entries k [] h = tt
  delete-Entries k ((j, w) ∷ m) h = ground (arith, delete-Entries k m h.1)

  pub insert-Entries : (k : ℕ) (v : V) (m : Map V) → P k v → Entries m → Entries (insert k v m)
  unfolding insert
  insert-Entries k v m p h = (p, delete-Entries k m h)

pub ruleset map_laws = (lookup-delete, lookup-insert)
