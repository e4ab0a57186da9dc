-- ===== src/Support/Tests.antt =====
-- A file that names the manager twice, and no hub.
use mindorr.Prelude.{◌≡◌, refl, List, String, ok, err, [], ◌∷◌}
use mindorr.Checks.Deploy.{Address}
use mindorr.Support.{
  AddressFile, RawContract, Addresses, Field, get, key, parse_addresses, zero_address, strip_either,
}
use mindorr.Support.LastEntry.{parse_addresses-last_entry, last_entry, address_or}
use mindorr.Wire.{utf8}

abbrev entries : List RawContract
entries =
    record { name = "FlareTeeManager"; address = "1" }
    ∷ record { name = "Relay"; address = "2" }
    ∷ record { name = "FlareTeeManager"; address = "3" }
    ∷ []

abbrev one_char : String → Address
one_char s = utf8 s

abbrev file : AddressFile
file = record {
  content = ok [];
  decode_raw = λ b. ok entries;
  decode_addresses = λ b. err "cannot unmarshal array";
  hex_to_address = one_char;
}

parsed :
    parse_addresses file
    ≡ ok (record {
      flare_system_manager = zero_address;
      fdc2_hub = zero_address;
      flare_tee_manager = 51 ∷ [];
    })
unfolding parse_addresses utf8
parsed = refl

stripped : strip_either "0Xab" ≡ "ab"
unfolding strip_either
stripped = refl

parse_addresses-last_entry_example :
    (addrs : Addresses) × (parse_addresses file ≡ ok addrs)
    × ((f : Field) → get f addrs ≡ address_or one_char zero_address (last_entry (key f) entries))
parse_addresses-last_entry_example = parse_addresses-last_entry file [] entries refl refl
