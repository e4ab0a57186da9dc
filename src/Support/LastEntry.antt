-- ===== src/Support/LastEntry.antt =====
-- Which entry of the file an address comes from.
use mindorr.Prelude.{
  sym, ℕ, ne_of_str_eq, Bool, ◌≢◌, ◌≡◌, refl, ap, ◌∙◌, Option, none, some, String, ok, List, [],
  ◌∷◌, ◌==◌, if◌then◌else◌, eq_iff, true, false,
}
use mindorr.Checks.Deploy.{Address}
use mindorr.Support.{
  RawContract, Addresses, Field, system_manager, hub, tee_manager, key, get, set, take_contract,
  addresses_from, no_addresses, zero_address, AddressFile, parse_addresses,
}

-- The last entry of a name.
abbrev pub last_entry : String → List RawContract → Option RawContract
last_entry name [] = none
last_entry name (c ∷ raw) =
    let later = last_entry name raw in
    elim later [ some d ↦ some d | none ↦ if name == c.name then some c else none ]

-- The address of an entry, the other address if there is none.
abbrev pub address_or : (String → Address) → Address → Option RawContract → Address
address_or hex_to_address other none = other
address_or hex_to_address other (some c) = hex_to_address c.address

-- Two different names are not both the name of an entry.
exclusive : (k l name : String) → k ≢ l → (k == name) ≡ true → (l == name) ≡ true → ⊥
exclusive k l name ne a b = ne ((eq_iff k name).0 a ∙ sym ((eq_iff l name).0 b))

module _ (x : Address) (addrs : Addresses) where
  -- What `target` makes of the three comparisons, and what is stored then.
  abbrev picked : Bool → Bool → Bool → Option Field
  picked is_system is_hub is_tee =
      if is_system
      then some system_manager
      else if is_hub
      then some hub
      else if is_tee
      then some tee_manager
      else none

  abbrev stored : Option Field → Addresses
  stored o = elim o [ none ↦ addrs | some f ↦ set f x addrs ]

  abbrev asked : Field → Bool → Bool → Bool → Bool
  asked system_manager is_system is_hub is_tee = is_system
  asked hub is_system is_hub is_tee = is_hub
  asked tee_manager is_system is_hub is_tee = is_tee

  get-stored :
      (f : Field) (a b c : Bool)
      → (a ≡ true → b ≡ true → ⊥)
      → (a ≡ true → c ≡ true → ⊥)
      → (b ≡ true → c ≡ true → ⊥)
      → get f (stored (picked a b c)) ≡ (if asked f a b c then x else get f addrs)
  get-stored system_manager true b c ab ac bc = refl
  get-stored system_manager false true c ab ac bc = refl
  get-stored system_manager false false true ab ac bc = refl
  get-stored system_manager false false false ab ac bc = refl
  get-stored hub true true c ab ac bc = absurd (ab refl refl)
  get-stored hub true false c ab ac bc = refl
  get-stored hub false true c ab ac bc = refl
  get-stored hub false false true ab ac bc = refl
  get-stored hub false false false ab ac bc = refl
  get-stored tee_manager true b true ab ac bc = absurd (ac refl refl)
  get-stored tee_manager true b false ab ac bc = refl
  get-stored tee_manager false true true ab ac bc = absurd (bc refl refl)
  get-stored tee_manager false true false ab ac bc = refl
  get-stored tee_manager false false true ab ac bc = refl
  get-stored tee_manager false false false ab ac bc = refl

asked-key :
    (f : Field) (name : String) (x : Address) (addrs : Addresses)
    → (if asked x addrs f (key system_manager == name) (key hub == name) (key tee_manager == name)
        then x
        else get f addrs)
      ≡ (if key f == name then x else get f addrs)
asked-key system_manager name x addrs = refl
asked-key hub name x addrs = refl
asked-key tee_manager name x addrs = refl

-- A field that an entry names is set by it, and the others are left.
get-take_contract :
    (hex_to_address : String → Address) (f : Field) (c : RawContract) (addrs : Addresses)
    → get f (take_contract hex_to_address c addrs)
      ≡ (if key f == c.name then hex_to_address c.address else get f addrs)
get-take_contract hex_to_address f c addrs =
    let name = c.name in
    let x = hex_to_address c.address in
    get-stored x addrs f (key system_manager == name) (key hub == name) (key tee_manager == name)
      (exclusive (key system_manager) (key hub) name (ne_of_str_eq _ _ refl))
      (exclusive (key system_manager) (key tee_manager) name (ne_of_str_eq _ _ refl))
      (exclusive (key hub) (key tee_manager) name (ne_of_str_eq _ _ refl))
    ∙ asked-key f name x addrs

address_or-last :
    (hex_to_address : String → Address) (b : Bool) (c : RawContract) (x : Address)
    (later : Option RawContract)
    → address_or hex_to_address (if b then hex_to_address c.address else x) later
      ≡ address_or hex_to_address x
          (elim later [ some d ↦ some d | none ↦ if b then some c else none ])
address_or-last hex_to_address true c x none = refl
address_or-last hex_to_address false c x none = refl
address_or-last hex_to_address b c x (some d) = refl

module _ (hex_to_address : String → Address) where
  get-addresses_from :
      (f : Field) (raw : List RawContract) (addrs : Addresses)
      → get f (addresses_from hex_to_address addrs raw)
        ≡ address_or hex_to_address (get f addrs) (last_entry (key f) raw)
  unfolding addresses_from
  get-addresses_from f [] addrs = refl
  get-addresses_from f (c ∷ raw) addrs =
      get-addresses_from f raw (take_contract hex_to_address c addrs)
      ∙ ap (λ x. address_or hex_to_address x (last_entry (key f) raw))
          (get-take_contract hex_to_address f c addrs)
      ∙ address_or-last hex_to_address (key f == c.name) c (get f addrs) (last_entry (key f) raw)

none_named : (f : Field) → get f no_addresses ≡ zero_address
none_named system_manager = refl
none_named hub = refl
none_named tee_manager = refl

-- A file of entries that can be read gives each address from the last entry that its key names, and
-- the zero address where there is no such entry.
pub parse_addresses-last_entry :
    (file : AddressFile) (bytes : List ℕ) (raw : List RawContract)
    → file.content ≡ ok bytes
    → file.decode_raw bytes ≡ ok raw
    → (addrs : Addresses) × (parse_addresses file ≡ ok addrs)
      × ((f : Field)
          → get f addrs ≡ address_or file.hex_to_address zero_address (last_entry (key f) raw))
unfolding parse_addresses
parse_addresses-last_entry file bytes raw read decoded = (
  addresses_from file.hex_to_address no_addresses raw,
  rw (read, decoded) refl,
  λ f.
      get-addresses_from file.hex_to_address f raw no_addresses
      ∙ ap (λ x. address_or file.hex_to_address x (last_entry (key f) raw)) (none_named f),
)
