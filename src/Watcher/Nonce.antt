-- ===== src/Watcher/Nonce.antt =====
-- internal/extension/watcher.go: the executor's nonces (reserveNonce, releaseNonce,
-- releaseOrderNonce).
use darkstop.Base.{
  ℕ, zero, suc, ◌+◌, ◌-◌, ◌^◌, Bool, true, not, ◌&&◌, ◌||◌, Option, none, some, [], ◌∷◌, ltb, ◌==◌,
  if◌then◌else◌, length,
}
use darkstop.Base.Map.{Map, lookup, insert, delete, contains}
use darkstop.Watcher.State.{Env, Watcher, failed}
use darkstop.Watcher.Exec.{Exec, pure, raise, gets, modify, rpc, ◌>>=◌, ◌>>◌}

-- ^uint64(0)
abbrev pub max_uint64 : ℕ
max_uint64 = 2 ^ 64 - 1

-- A nonce that an order owns, if there is one.
unfoldable pub owned_by : ℕ → Map ℕ → Option ℕ
owned_by id [] = none
owned_by id ((nonce, owner) ∷ m) = if owner == id then some nonce else owned_by id m

-- How the search for a free nonce ends; `unfinished` says that the fuel ran out.
pub data Search : Type 0 where
  free : ℕ → Search
  exhausted unfinished : Search

-- The loop of reserveNonce.
unfoldable pub next_free : ℕ → ℕ → Map ℕ → Search
next_free zero candidate owners = unfinished
next_free (suc fuel) candidate owners =
    let rest = next_free fuel (candidate + 1) owners in
    if not (contains candidate owners)
    then free candidate
    else if candidate == max_uint64
    then exhausted
    else rest

-- As many rounds as there are owners, and one more.
unfoldable pub find_free : ℕ → Map ℕ → Search
find_free candidate owners = next_free (suc (length owners)) candidate owners

-- The local floor, if it is ahead of the chain's answer.
unfoldable pub first_candidate : ℕ → Watcher → ℕ
first_candidate remote w = if w.nonce_ready && ltb remote w.next_nonce then w.next_nonce else remote

unfoldable pub reserved : ℕ → ℕ → Watcher → Watcher
reserved id nonce w = record w {
  nonce_owners = insert nonce id w.nonce_owners;
  next_nonce = nonce + 1;
  nonce_ready = true;
}

unfoldable pub reserve_found : ℕ → Search → Exec ℕ
reserve_found id (free candidate) =
    if candidate == max_uint64
    then raise failed
    else (modify (reserved id candidate) >> pure candidate)
reserve_found id exhausted = raise failed
reserve_found id unfinished = raise failed

unfoldable pub release_nonce : ℕ → ℕ → Bool → Watcher → Watcher
release_nonce id nonce consumed w = elim (lookup nonce w.nonce_owners) [
  | none ↦ w
  | some owner ↦
      if not (owner == id)
      then w
      else if not consumed && (not w.nonce_ready || ltb nonce w.next_nonce)
      then record w {
        nonce_owners = delete nonce w.nonce_owners;
        next_nonce = nonce;
        nonce_ready = true;
      }
      else record w { nonce_owners = delete nonce w.nonce_owners }
]

unfoldable pub release_order_nonce : ℕ → Bool → Watcher → Watcher
release_order_nonce id consumed w = elim (owned_by id w.nonce_owners) [
  | none ↦ w
  | some nonce ↦ release_nonce id nonce consumed w
]

module _ (env : Env) where
  unfoldable pub reserve_unless : ℕ → Option ℕ → Exec ℕ
  reserve_unless id (some nonce) = pure nonce
  reserve_unless id none = do
    remote ← rpc env env.pending_nonce_at
    search ← gets (λ w. find_free (first_candidate remote w) w.nonce_owners)
    reserve_found id search

  unfoldable pub reserve_nonce : ℕ → Exec ℕ
  reserve_nonce id = do owned ← gets (λ w. owned_by id w.nonce_owners); reserve_unless id owned
