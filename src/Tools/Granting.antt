-- ===== src/Tools/Granting.antt =====
-- The contracts of the tools: what they may allow, which transactions ask for it, and what they promise.
use darkstop.Base.{ℕ, ◌≡◌, ◌≢◌, ◌⊎◌, Bool, true, List, [], ◌∷◌}
use darkstop.Policy.{String}
use darkstop.Tools.{
  Result, ok, Answer, gives, refuses, Message, allow_machine_owners, allow_project_owners,
  add_key_types, add_tee_version, Request, Receipt, Net, Run, sends, transact, accepted,
}
use darkstop.Tools.Support.{check_tx}
use darkstop.Tools.Rules.{Moves, check_tx-Moves}
use darkstop.Tools.Mined.{check_tx_iff, check_tx_state}

-- What the contracts may allow: an owner of machines or of wallet projects of an extension, a key type,
-- or a version, by its extension, code hash and platform.
pub data Grant : Type 0 where
  machine_owner project_owner key_type : ℕ → ℕ → Grant
  version : ℕ → ℕ → ℕ → Grant

abbrev pub Among : ℕ → List ℕ → Type 0
Among x [] = ⊥
Among x (y ∷ ys) = (y ≡ x) ⊎ Among x ys

-- The message asks for the grant.
pub data Grants : Message → Grant → Type 0 where
  grants_machine_owner :
      (id o : ℕ) (os : List ℕ)
      → Among o os
      → Grants (allow_machine_owners id os) (machine_owner id o)
  grants_project_owner :
      (id o : ℕ) (os : List ℕ)
      → Among o os
      → Grants (allow_project_owners id os) (project_owner id o)
  grants_key_type :
      (id t : ℕ) (ts : List ℕ) → Among t ts → Grants (add_key_types id ts) (key_type id t)
  grants_version :
      (id code p governance : ℕ) (v : String) (ps : List ℕ)
      → Among p ps
      → Grants (add_tee_version id v code ps governance) (version id code p)

module _ {W L : Type 0} (net : Net W L) where
  abbrev pub granted : Grant → W → Result Bool
  granted (machine_owner id o) w = net.is_machine_owner id o w
  granted (project_owner id o) w = net.is_project_owner id o w
  granted (key_type id t) w = net.is_key_type_supported id t w
  granted (version id code p) w = net.is_version_supported id code p w

  -- The grant holds now.
  abbrev pub Has : Grant → Run W → Type 0
  Has g run = granted g run.world ≡ ok true

  -- A transaction that was mined without a revert has done what it asks for, and what is allowed stays
  -- so while the tool runs.
  pub record IsContract : Type 0 where
    pub does :
        (r : Request) (g : Grant) (w : W) (t : ℕ × ℕ) (receipt : Receipt L)
        → Grants r.message g
        → (net.send r w).0 ≡ gives t
        → (net.wait_mined t.0 (net.send r w).1).0 ≡ ok receipt
        → receipt.status ≢ 0
        → granted g (net.wait_mined t.0 (net.send r w).1).1 ≡ ok true
    pub send_keeps :
        (r : Request) (g : Grant) (w : W)
        → granted g w ≡ ok true
        → granted g (net.send r w).1 ≡ ok true
    pub wait_keeps :
        (t : ℕ) (g : Grant) (w : W)
        → granted g w ≡ ok true
        → granted g (net.wait_mined t w).1 ≡ ok true

pub accepted_gives : (a : Answer (ℕ × ℕ)) (t : ℕ × ℕ) → accepted a ≡ ok t → a ≡ gives t
accepted_gives (gives u) t h = cc
accepted_gives (refuses e) t h = cc

module _ {W L : Type 0} (net : Net W L) (c : IsContract net) where
  pub check_tx-Has : (g : Grant) (tx : ℕ) → Moves (Has net g) (Has net g) (check_tx net tx)
  check_tx-Has g tx = check_tx-Moves net (Has net g) tx (λ run h. c.wait_keeps tx g run.world h)

  -- A transaction that comes through has done what it asks for.
  pub comes_through :
      (g : Grant) (r : Request) (run : Run W) (t : ℕ × ℕ) (receipt : Receipt L)
      → Grants r.message g
      → (transact net r run).0 ≡ ok t
      → (check_tx net t.0 (transact net r run).1).0 ≡ ok receipt
      → Has net g (check_tx net t.0 (transact net r run).1).1
  unfolding transact sends
  comes_through g r run t receipt h sent mined =
      let wait = (check_tx_iff net t.0 _ receipt).0 mined in
      rw (check_tx_state net t.0 (record { world = (net.send r run.world).1; sent = r ∷ run.sent }))
        (c.does r g run.world t receipt h (accepted_gives _ t sent) wait.0 wait.1)
