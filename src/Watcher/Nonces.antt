-- ===== src/Watcher/Nonces.antt =====
-- internal/extension/watcher.go: the contracts of reserveNonce and releaseNonce, as predicates and lemmas.
use darkstop.Base.{
  ℕ, zero, suc, ◌+◌, ◌≤◌, ◌<◌, ◌≡◌, ◌≢◌, ◌↔◌, refl, sym, ap, ◌∙◌, ◌⊎◌, inl, inr, Bool, true, false,
  Option, none, some, [], ◌∷◌, Bool-cases, ltb, ◌==◌, if◌then◌else◌, length, arith, ==_iff,
}
use native.Mathlib.Nat.{le_refl}
use native.Mathlib.Decide.{dec_lt}
use darkstop.Base.Map.{Map, lookup, contains, lookup-insert, lookup-delete, IsMap, Absent}
use darkstop.Watcher.State.{Env, Watcher, ok, err, Error}
use darkstop.Watcher.Exec.{awaited, attempt, gets, modify, pure, raise, rpc}
use darkstop.Watcher.Logic.{Result-cases}
use darkstop.Watcher.Nonce.{
  Search, free, exhausted, unfinished, next_free, find_free, owned_by, first_candidate, reserved,
  reserve_found, reserve_unless, reserve_nonce, release_nonce, max_uint64,
}

-- The owned nonces from a candidate on.
ahead : ℕ → Map ℕ → ℕ
ahead c [] = 0
ahead c ((n, owner) ∷ m) = if ltb n c then ahead c m else suc (ahead c m)

ahead-le : (c : ℕ) (m : Map ℕ) → ahead c m ≤ length m
unfolding ahead
ahead-le c [] = omega arith
ahead-le c ((n, owner) ∷ m) = ground (arith, ahead-le c m)

ahead-suc-le : (c : ℕ) (m : Map ℕ) → ahead (c + 1) m ≤ ahead c m
unfolding ahead
ahead-suc-le c [] = omega arith
ahead-suc-le c ((n, owner) ∷ m) = ground (arith, ahead-suc-le c m)

-- An occupied candidate is one fewer ahead.
ahead-lt : (c : ℕ) (m : Map ℕ) → contains c m ≡ true → ahead (c + 1) m < ahead c m
unfolding ahead lookup
ahead-lt c [] h = cc
ahead-lt c ((n, owner) ∷ m) h = ground (arith, ahead-lt c m, ahead-suc-le c m)

-- What the search for a nonce finds: the first from the candidate on that no order owns; and it fails
-- only if the last uint64 is owned too.
abbrev pub Finds : ℕ → Map ℕ → Search → Type 0
Finds c m (free n) = (c ≤ n) × (lookup n m ≡ none) × ((k : ℕ) → c ≤ k → k < n → contains k m ≡ true)
Finds c m exhausted = (k : ℕ) → c ≤ k → k ≤ max_uint64 → contains k m ≡ true
Finds c m unfinished = ⊥

lookup-vacant : (c : ℕ) (m : Map ℕ) → contains c m ≡ false → lookup c m ≡ none
lookup-vacant c m h = ground arith

occupied_from :
    (c k : ℕ) (m : Map ℕ)
    → contains c m ≡ true
    → c ≤ k
    → (c + 1 ≤ k → contains k m ≡ true)
    → contains k m ≡ true
occupied_from c k m h p f = elim (dec_lt c k) [
  | yes q ↦ f (omega arith)
  | no q ↦ let e : c ≡ k = omega arith in rw (← e) h
]

Finds-suc : (c : ℕ) (m : Map ℕ) (s : Search) → contains c m ≡ true → Finds (c + 1) m s → Finds c m s
Finds-suc c m (free n) h f = (omega arith, f.1, λ k p q. occupied_from c k m h p (λ r. f.2 k r q))
Finds-suc c m exhausted h f = λ k p q. occupied_from c k m h p (λ r. f k r q)
Finds-suc c m unfinished h f = f

next_free-Finds :
    (fuel c : ℕ) (m : Map ℕ) → c ≤ max_uint64 → ahead c m < fuel → Finds c m (next_free fuel c m)
unfolding next_free
next_free-Finds zero c m b h = absurd (omega arith)
next_free-Finds (suc fuel) c m b h = elim (Bool-cases (contains c m)) [
  | inr vacant ↦ rw vacant (le_refl c, lookup-vacant c m vacant, λ k p q. absurd (omega arith))
  | inl occupied ↦ elim (Bool-cases (c == max_uint64)) [
    | inl last ↦
        rw (occupied, last)
          (λ k p q.
            let e : c ≡ k = omega (arith, (==_iff c max_uint64).0 last) in rw (← e) occupied)
    | inr more ↦
        rw (occupied, more)
          (Finds-suc c m (next_free fuel (c + 1) m) occupied
            (next_free-Finds fuel (c + 1) m (ground arith) (omega (arith, ahead-lt c m occupied))))
  ]
]

-- With one round more than there are owned nonces the search for a nonce always ends: it finds the
-- first nonce from the candidate on that no order owns, or all of them up to the last uint64 are
-- owned.
pub find_free-Finds : (c : ℕ) (m : Map ℕ) → c ≤ max_uint64 → Finds c m (find_free c m)
unfolding find_free
find_free-Finds c m b = next_free-Finds (suc (length m)) c m b (omega (arith, ahead-le c m))

Absent-owned_by : (id n : ℕ) (m : Map ℕ) → Absent n m → owned_by id m ≢ some n
unfolding owned_by
Absent-owned_by id n [] a e = cc
Absent-owned_by id n ((k, owner) ∷ m) a e = ground (arith, Absent-owned_by id n m a.1)

owned_by-lookup : (id n : ℕ) (m : Map ℕ) → IsMap m → owned_by id m ≡ some n → lookup n m ≡ some id
unfolding owned_by lookup
owned_by-lookup id n [] d e = cc
owned_by-lookup id n ((k, owner) ∷ m) d e =
    ground (arith, owned_by-lookup id n m d.1, Absent-owned_by id k m d.0)

-- What a reservation leaves: the order owns the nonce, which it had before or nobody had, and the
-- owners of all other nonces are as they were.
abbrev pub Reserves : ℕ → ℕ → Map ℕ → Map ℕ → Type 0
Reserves id n before after =
    (lookup n after ≡ some id)
    × ((lookup n before ≡ some id) ⊎ (lookup n before ≡ none))
    × ((m : ℕ) → m ≢ n → lookup m after ≡ lookup m before)

next_free-vacant : (fuel c n : ℕ) (m : Map ℕ) → next_free fuel c m ≡ free n → lookup n m ≡ none
unfolding next_free
next_free-vacant zero c n m e = cc
next_free-vacant (suc fuel) c n m e =
    ground (arith, next_free-vacant fuel (c + 1) n m, lookup-vacant c m)

err_ok : {x : Error} {n : ℕ} → ¬ (err x ≡ ok n)
err_ok e = cc

reserve_found-Reserves :
    (id n : ℕ) (s : Search) (w : Watcher)
    → ((k : ℕ) → s ≡ free k → lookup k w.nonce_owners ≡ none)
    → (reserve_found id s w).0 ≡ ok n
    → Reserves id n w.nonce_owners (reserve_found id s w).1.nonce_owners
unfolding reserve_found attempt modify pure raise reserved
reserve_found-Reserves id n exhausted w f e = cc
reserve_found-Reserves id n unfinished w f e = cc
reserve_found-Reserves id n (free k) w f e = (
  ground (arith, lookup-insert k n id w.nonce_owners),
  ground (arith, f k),
  λ m q. ground (arith, lookup-insert k m id w.nonce_owners),
)

-- With the chain's answer, the reservation is that of the first free nonce.
searching :
    (env : Env) (id remote : ℕ) (w : Watcher)
    → (rpc env env.pending_nonce_at w).0 ≡ ok remote
    → reserve_unless env id none w
      ≡ reserve_found id
          (find_free (first_candidate remote (awaited env w)) w.nonce_owners)
          (awaited env w)
unfolding reserve_unless rpc attempt gets awaited
searching env id remote w h = rw (h, attempt, gets)

unanswered :
    (env : Env) (id : ℕ) (e : Error) (w : Watcher)
    → (rpc env env.pending_nonce_at w).0 ≡ err e
    → (reserve_unless env id none w).0 ≡ err e
unfolding reserve_unless rpc attempt gets raise
unanswered env id e w h = rw (h, attempt, raise)

reserve_unless-Reserves :
    (env : Env) (id n : ℕ) (owned : Option ℕ) (w : Watcher)
    → IsMap w.nonce_owners
    → owned_by id w.nonce_owners ≡ owned
    → (reserve_unless env id owned w).0 ≡ ok n
    → Reserves id n w.nonce_owners (reserve_unless env id owned w).1.nonce_owners
unfolding reserve_unless awaited find_free pure
reserve_unless-Reserves env id n (some k) w d o e = (
  ground (arith, owned_by-lookup id k w.nonce_owners d),
  ground (arith, owned_by-lookup id k w.nonce_owners d),
  λ m q. refl,
)
reserve_unless-Reserves env id n none w d o e =
    elim (Result-cases (rpc env env.pending_nonce_at w).0) [
      | inr (x, h) ↦ absurd (err_ok (sym (unanswered env id x w h) ∙ e))
      | inl (remote, h) ↦
          let step = searching env id remote w h in
          let v = awaited env w in
          let c = first_candidate remote v in
          rw step (
            reserve_found-Reserves id n (find_free c v.nonce_owners) v
              (λ k q. next_free-vacant (suc (length v.nonce_owners)) c k v.nonce_owners q)
              (sym (ap (λ r. r.0) step) ∙ e))
    ]

-- An order that reserves a nonce gets one that it owned before or that no order owned, never
-- another order's, and takes nothing from the others.
pub reserve_nonce-Reserves :
    (env : Env) (id n : ℕ) (w : Watcher)
    → IsMap w.nonce_owners
    → (reserve_nonce env id w).0 ≡ ok n
    → Reserves id n w.nonce_owners (reserve_nonce env id w).1.nonce_owners
unfolding reserve_nonce attempt gets
reserve_nonce-Reserves env id n w d e =
    reserve_unless-Reserves env id n (owned_by id w.nonce_owners) w d refl e

-- A release takes the nonce from the order, if it owns it, and from no other order; a nonce that
-- was not consumed is not skipped by the local floor.
pub release_nonce_lem :
    (id n : ℕ) (consumed : Bool) (w : Watcher)
    → (lookup n (release_nonce id n consumed w).nonce_owners ≢ some id)
      × ((m owner : ℕ)
          → owner ≢ id
          → (lookup m (release_nonce id n consumed w).nonce_owners ≡ some owner)
            ↔ (lookup m w.nonce_owners ≡ some owner))
      × (lookup n w.nonce_owners ≡ some id
          → consumed ≡ false
          → (release_nonce id n consumed w).next_nonce ≤ n)
unfolding release_nonce
release_nonce_lem id n consumed w = (
  λ e. ground (arith, lookup-delete n n w.nonce_owners, e),
  λ m owner q. (
    λ e. ground (arith, lookup-delete n m w.nonce_owners, e, q),
    λ e. ground (arith, lookup-delete n m w.nonce_owners, e, q),
  ),
  λ o c. ground (arith, o, c),
)
