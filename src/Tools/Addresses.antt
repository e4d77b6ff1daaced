-- ===== src/Tools/Addresses.antt =====
-- tools/pkg/support/support.go: the contracts' addresses, from a list of contracts or from an object, and
-- the support that the tools start from. The JSON decoder and go-ethereum's HexToAddress are parameters.
use darkstop.Base.{
  ℕ, ◌≡◌, refl, sym, ap, subst, ◌∙◌, true, false, Option, none, some, List, [], ◌∷◌, if◌then◌else◌,
  All, arith,
}
use darkstop.Base.Last.{IsLast, or_found, last_value, none_found, last_value_of}
use darkstop.Policy.{String, eq_string}
use darkstop.Policy.Equality.{eq_string_sound}
use darkstop.Tools.{Result, ok, err, then_result}
use darkstop.Tools.Text.{text}
use darkstop.Tools.Support.{Addresses, no_addresses, Support, default_private_key}

-- RawContract
pub record RawContract : Type 0 where
  pub name : String
  pub contract_name : String
  pub address : String

-- The fields of Addresses that fieldMap points to: all three are addresses.
pub data Field : Type 0 where
  system_manager hub tee_manager : Field

-- The json tag of a field.
unfoldable pub key_of : Field → String
key_of system_manager = text "FlareSystemsManager"
key_of hub = text "Fdc2Hub"
key_of tee_manager = text "FlareTeeManager"

-- fieldMap
abbrev pub field_map : List (String × Field)
field_map =
    (key_of system_manager, system_manager)
    ∷ (key_of hub, hub)
    ∷ (key_of tee_manager, tee_manager)
    ∷ []

-- targets[name]
unfoldable pub target : String → List (String × Field) → Option Field
target name [] = none
target name ((key, f) ∷ fields) = if eq_string name key then some f else target name fields

-- *dest = a
unfoldable pub set_address : Option Field → ℕ → Addresses → Addresses
set_address none a addrs = addrs
set_address (some system_manager) a addrs = record addrs { flare_system_manager = a }
set_address (some hub) a addrs = record addrs { fdc2_hub = a }
set_address (some tee_manager) a addrs = record addrs { flare_tee_manager = a }

unfoldable pub get_address : Field → Addresses → ℕ
get_address system_manager addrs = addrs.flare_system_manager
get_address hub addrs = addrs.fdc2_hub
get_address tee_manager addrs = addrs.flare_tee_manager

module _ (hex_to_address : String → ℕ) where
  -- The loop of ParseAddresses.
  unfoldable pub fill : Addresses → List RawContract → Addresses
  fill addrs [] = addrs
  fill addrs (c ∷ cs) =
      fill (set_address (target c.name field_map) (hex_to_address c.address) addrs) cs

  -- ParseAddresses, from the decoded list on
  unfoldable pub parse_addresses : Result (List RawContract) → Result Addresses
  parse_addresses (err e) = err e
  parse_addresses (ok raw) = ok (fill no_addresses raw)

  abbrev read_addresses : Result Addresses → Result (List RawContract) → Result Addresses
  read_addresses (ok addrs) raw = ok addrs
  read_addresses (err e) raw = parse_addresses raw

  -- The bindings of NewSupport: what it binds to the diamond, to the system manager and to the hub.
  unfoldable pub bindings : Addresses → List ℕ
  bindings addrs =
      let diamond = addrs.flare_tee_manager in
      diamond ∷ diamond ∷ diamond ∷ diamond ∷ addrs.flare_system_manager ∷ addrs.fdc2_hub ∷ diamond
      ∷ diamond ∷ diamond ∷ []

  unfoldable pub bind_all : (ℕ → Result (Unit {0})) → List ℕ → Result (Unit {0})
  bind_all bind [] = ok tt
  bind_all bind (a ∷ as_) = then_result (bind a) (λ u. bind_all bind as_)

  -- NewSupport, where `bind` makes a binding at an address
  unfoldable pub new_support : (ℕ → Result (Unit {0})) → Result ℕ → ℕ → Addresses → Result Support
  new_support bind chain_id prv addrs = then_result (bind_all bind (bindings addrs)) λ u.
      then_result chain_id λ id. ok (record { prv = prv; addresses = addrs; chain_id = some id })

  -- DefaultSupport: `object` and `raw` are what the file decodes to, and `dialed` is the client
  unfoldable pub default_support :
      Result Addresses
      → Result (List RawContract)
      → Result (Unit {0})
      → (String → Result ℕ)
      → ℕ
      → String
      → (ℕ → Result (Unit {0}))
      → Result ℕ
      → Result Support
  default_support object raw dialed parse dev_key variable bind chain_id =
      then_result (read_addresses object raw) λ addrs. then_result dialed λ u.
        then_result (default_private_key parse dev_key variable)
          λ prv. new_support bind chain_id prv addrs

  -- The address that an entry gives to a field, if it has the field's name.
  abbrev pub named : Field → RawContract → Option ℕ
  named f c = if eq_string c.name (key_of f) then some (hex_to_address c.address) else none

apart : (s a b : String) → eq_string a b ≡ false → eq_string s a ≡ true → eq_string s b ≡ false
apart s a b h e = subst (λ t. eq_string t b ≡ false) (sym (eq_string_sound s a e)) h

system_hub : eq_string (key_of system_manager) (key_of hub) ≡ false
unfolding key_of text eq_string
system_hub = refl

system_tee : eq_string (key_of system_manager) (key_of tee_manager) ≡ false
unfolding key_of text eq_string
system_tee = refl

hub_tee : eq_string (key_of hub) (key_of tee_manager) ≡ false
unfolding key_of text eq_string
hub_tee = refl

module _ (hex_to_address : String → ℕ) where
  abbrev or_now : Option ℕ → ℕ → ℕ
  or_now none now = now
  or_now (some v) now = v

  -- An entry goes to the field of its name, and to no other.
  entry_lem :
      (f : Field) (c : RawContract) (addrs : Addresses)
      → get_address f (set_address (target c.name field_map) (hex_to_address c.address) addrs)
        ≡ or_now (named hex_to_address f c) (get_address f addrs)
  unfolding get_address set_address target
  entry_lem system_manager c addrs = ground arith
  entry_lem hub c addrs =
      ground (arith, apart c.name (key_of system_manager) (key_of hub) system_hub)
  entry_lem tee_manager c addrs = ground (
    arith,
    apart c.name (key_of system_manager) (key_of tee_manager) system_tee,
    apart c.name (key_of hub) (key_of tee_manager) hub_tee,
  )

  fill_lem :
      (f : Field) (o : Option ℕ) (addrs : Addresses) (cs : List RawContract)
      → get_address f addrs ≡ or_now o 0
      → get_address f (fill hex_to_address addrs cs)
        ≡ or_now (last_value (named hex_to_address f) o cs) 0
  unfolding fill last_value
  fill_lem f o addrs [] h = h
  fill_lem f o addrs (c ∷ cs) h =
      fill_lem f (or_found (named hex_to_address f c) o)
        (set_address (target c.name field_map) (hex_to_address c.address) addrs) cs
        (entry_lem f c addrs ∙ rw h (later (named hex_to_address f c) o))
    where
      later : (a o : Option ℕ) → or_now a (or_now o 0) ≡ or_now (or_found a o) 0
      later (some v) o = refl
      later none o = refl

  -- ParseAddresses gives each contract the address of the last entry with its name, whatever else the list
  -- holds, and the zero address if there is none.
  pub parse_addresses_lem :
      (f : Field) (cs : List RawContract)
      → (addrs : Addresses) × (parse_addresses hex_to_address (ok cs) ≡ ok addrs)
        × (All (λ c. named hex_to_address f c ≡ none) cs → get_address f addrs ≡ 0)
        × ((a : ℕ) → IsLast (named hex_to_address f) cs a → get_address f addrs ≡ a)
  unfolding parse_addresses get_address
  parse_addresses_lem f cs =
      let filled = fill_lem f none no_addresses cs (nothing f) in
      (
        fill hex_to_address no_addresses cs,
        refl,
        (λ h. filled ∙ ap (λ o. or_now o 0) (none_found (named hex_to_address f) none cs h)),
        (λ a h. filled ∙ ap (λ o. or_now o 0) (last_value_of (named hex_to_address f) none cs a h)),
      )
    where
      nothing : (f : Field) → get_address f no_addresses ≡ 0
      nothing system_manager = refl
      nothing hub = refl
      nothing tee_manager = refl
