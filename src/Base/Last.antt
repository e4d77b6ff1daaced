-- ===== src/Base/Last.antt =====
-- The last value in a list, where an element may have none.
use darkstop.Base.Tests.{All, Option-cases}
use Prim.Native.Nat.{ℕ}
use mathlib.Core.Path.{◌≡◌, refl, ◌∙◌}
use mathlib.Core.Logic.{◌↔◌, ◌⊎◌, inl, inr}
use mathlib.Core.Option.{Option, none, some}
use mathlib.Core.List.{List, [], ◌∷◌}

abbrev pub or_found : Option ℕ → Option ℕ → Option ℕ
or_found (some v) o = some v
or_found none o = o

module _ {L : Type 0} (parse : L → Option ℕ) where
  -- The value is that of the last log that has one.
  abbrev pub IsLast : List L → ℕ → Type 0
  IsLast [] v = ⊥
  IsLast (l ∷ ls) v = IsLast ls v ⊎ ((parse l ≡ some v) × All (λ x. parse x ≡ none) ls)

  unfoldable pub last_value : Option ℕ → List L → Option ℕ
  last_value o [] = o
  last_value o (l ∷ ls) = last_value (or_found (parse l) o) ls

  pub none_found : (o : Option ℕ) (ls : List L) → All (λ x. parse x ≡ none) ls → last_value o ls ≡ o
  unfolding last_value
  none_found o [] h = refl
  none_found o (l ∷ ls) h = rw (h.0) (none_found o ls h.1)

  pub last_value_of : (o : Option ℕ) (ls : List L) (v : ℕ) → IsLast ls v → last_value o ls ≡ some v
  unfolding last_value
  last_value_of o [] v h = absurd h
  last_value_of o (l ∷ ls) v (inl h) = last_value_of (or_found (parse l) o) ls v h
  last_value_of o (l ∷ ls) v (inr h) = rw (h.0) (none_found (some v) ls h.1)

  of_last_value :
      (o : Option ℕ) (ls : List L) (v : ℕ)
      → last_value o ls ≡ some v
      → IsLast ls v ⊎ ((o ≡ some v) × All (λ x. parse x ≡ none) ls)
  unfolding last_value
  of_last_value o [] v h = inr (h, tt)
  of_last_value o (l ∷ ls) v h = elim (Option-cases (parse l)) [
    | inl nothing ↦ elim (of_last_value o ls v (rw nothing at h)) [
      | inl later ↦ inl (inl later)
      | inr before ↦ inr (before.0, (nothing, before.1))
    ]
    | inr (w, found) ↦ elim (of_last_value (some w) ls v (rw found at h)) [
      | inl later ↦ inl (inl later)
      | inr here ↦ inl (inr (found ∙ here.0, here.1))
    ]
  ]

  pub last_value_iff : (ls : List L) (v : ℕ) → (last_value none ls ≡ some v) ↔ IsLast ls v
  last_value_iff ls v = (
    λ h. elim (of_last_value none ls v h) [ inl found ↦ found | inr (e, _) ↦ cc ],
    last_value_of none ls v,
  )
