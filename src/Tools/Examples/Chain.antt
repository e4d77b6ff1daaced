-- ===== src/Tools/Examples/Chain.antt =====
-- A chain for the examples of tools/, on which a transaction is mined at once.
use darkstop.Base.{
  ℕ, ◌+◌, ◌≡◌, refl, ap, inl, inr, Bool, true, false, ◌&&◌, ◌||◌, none, some, List, [], ◌∷◌, ◌==◌,
  if◌then◌else◌, length, ==_refl, arith,
}
use darkstop.Tools.{
  ok, err, gives, Message, allow_machine_owners, allow_project_owners, add_key_types,
  add_tee_version, Net, Run,
}
use darkstop.Tools.Support.{Support, no_addresses}
use darkstop.Tools.Granting.{
  Grant, machine_owner, project_owner, key_type, version, Among, Grants, grants_machine_owner,
  grants_project_owner, grants_key_type, grants_version, granted, IsContract,
}

abbrev pub among : ℕ → List ℕ → Bool
among x [] = false
among x (y ∷ ys) = y == x || among x ys

among-Among : (x : ℕ) (ys : List ℕ) → Among x ys → among x ys ≡ true
among-Among x [] h = absurd h
among-Among x (y ∷ ys) (inl e) = ground arith
among-Among x (y ∷ ys) (inr h) = ground (arith, among-Among x ys h)

-- Whether a message asks for something.
abbrev pub asks_machine : ℕ → ℕ → Message → Bool
asks_machine id o (allow_machine_owners i os) = i == id && among o os
asks_machine id o m = false

abbrev pub asks_project : ℕ → ℕ → Message → Bool
asks_project id o (allow_project_owners i os) = i == id && among o os
asks_project id o m = false

abbrev pub asks_type : ℕ → ℕ → Message → Bool
asks_type id t (add_key_types i ts) = i == id && among t ts
asks_type id t m = false

abbrev pub asks_version : ℕ → ℕ → ℕ → Message → Bool
asks_version id code p (add_tee_version i v c ps g) = i == id && (c == code && among p ps)
asks_version id code p m = false

-- Whether a message of the past does.
abbrev pub asked : (Message → Bool) → List Message → Bool
asked asks [] = false
asked asks (m ∷ w) = asks m || asked asks w

-- A log is a number; 0 is the vault's.
abbrev pub net : Net (List Message) ℕ
net = record {
  send = λ r w. (gives (length w, 100 + length w), r.message ∷ w);
  wait_mined = λ tx w. (ok (record { status = 1; logs = 0 ∷ 1 ∷ []; tx_hash = tx }), w);
  find_transaction = λ tx w. ok 9;
  replay = λ tx from w. gives [];
  call_contract = λ m w. gives [];
  is_machine_owner = λ id o w. ok (asked (asks_machine id o) w);
  is_project_owner = λ id o w. ok (asked (asks_project id o) w);
  is_key_type_supported = λ id t w. ok (asked (asks_type id t) w);
  is_version_supported = λ id c p w. ok (asked (asks_version id c p) w);
  get_tee_machine = λ id w. ok id;
  parse_extension_registered = λ l. ok 5;
  parse_contracts_set = λ l. ok tt;
  parse_machine_owners_added = λ l. ok tt;
  parse_project_owners_added = λ l. ok tt;
  parse_attestation_requested = λ l. ok 31;
  parse_instructions_sent = λ l. ok 77;
  parse_order_placed = λ l. if l == 0 then ok 42 else err [];
  unpack_revert = λ bs. none;
}

or_right : (a b : Bool) → b ≡ true → (a || b) ≡ true
or_right true b h = refl
or_right false b h = h

or_left : (a b : Bool) → a ≡ true → (a || b) ≡ true
or_left true b h = refl
or_left false b h = cc

both : (a b : Bool) → a ≡ true → b ≡ true → (a && b) ≡ true
both true b h k = k
both false b h k = cc

Grants-now :
    (m : Message) (g : Grant) (w : List Message) → Grants m g → granted net g (m ∷ w) ≡ ok true
Grants-now m g w (grants_machine_owner id o os h) =
    ap ok (or_left _ _ (both _ _ (==_refl id) (among-Among o os h)))
Grants-now m g w (grants_project_owner id o os h) =
    ap ok (or_left _ _ (both _ _ (==_refl id) (among-Among o os h)))
Grants-now m g w (grants_key_type id t ts h) =
    ap ok (or_left _ _ (both _ _ (==_refl id) (among-Among t ts h)))
Grants-now m g w (grants_version id code p governance v ps h) =
    ap ok (or_left _ _ (both _ _ (==_refl id) (both _ _ (==_refl code) (among-Among p ps h))))

ok_true : (b : Bool) → ok b ≡ ok true → b ≡ true
ok_true true h = refl
ok_true false h = cc

Grants-still :
    (m : Message) (g : Grant) (w : List Message)
    → granted net g w ≡ ok true
    → granted net g (m ∷ w) ≡ ok true
Grants-still m (machine_owner id o) w h = ap ok (or_right _ _ (ok_true _ h))
Grants-still m (project_owner id o) w h = ap ok (or_right _ _ (ok_true _ h))
Grants-still m (key_type id o) w h = ap ok (or_right _ _ (ok_true _ h))
Grants-still m (version id c p) w h = ap ok (or_right _ _ (ok_true _ h))

pub net-IsContract : IsContract net
net-IsContract = record {
  does = λ r g w t receipt h sent mined good. Grants-now r.message g w h;
  send_keeps = λ r g w h. Grants-still r.message g w h;
  wait_keeps = λ t g w h. h;
}

abbrev pub support : Support
support = record { prv = 9; addresses = no_addresses; chain_id = some 114 }

abbrev pub start : Run (List Message)
start = record { world = []; sent = [] }
