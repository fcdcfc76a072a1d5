-- ===== src/Pulumi/Client/Addresses/Order.antt =====
-- What is read from a map of addresses does not depend on the order in which it is visited.
use nobus_csi.Common.{◌≡◌, refl, ap, ◌∙◌, String, List, [], ◌∷◌}
use nobus_csi.Common.Assoc.{lookup}
use nobus_csi.Common.Sort.{sort_by}
use nobus_csi.Common.Sort.Unique.{sort_by_unique}
use mathlib.Core.List.{Perm}
use nobus_csi.Pulumi.Client.Shapes.{AddressEntry, Addresses}
use nobus_csi.Pulumi.Client.Addresses.{
  ParsedAddresses, names_of, parse_addresses, add_networks, add_entries, entries_of, with_defaults,
  nothing,
}

module _ (raw raw' : Addresses) (same : (name : String) → lookup name raw ≡ lookup name raw') where
  entries-same : (name : String) → entries_of raw name ≡ entries_of raw' name
  entries-same name = rw (same name, entries_of) refl

  add_networks-same :
      (names : List String) (out : ParsedAddresses)
      → add_networks raw names out ≡ add_networks raw' names out
  unfolding add_networks
  add_networks-same [] out = refl
  add_networks-same (name ∷ names) out =
      ap (λ (l : List AddressEntry). add_networks raw names (add_entries l out)) (entries-same name)
      ∙ add_networks-same names (add_entries (entries_of raw' name) out)

  -- Two maps with the same networks, visited in any order, and the same entries for each network are
  -- read alike: the networks, the addresses of both versions in their order, and the private and the
  -- public address.
  pub parse_addresses-perm :
      Perm (names_of raw) (names_of raw') → parse_addresses raw ≡ parse_addresses raw'
  unfolding parse_addresses
  parse_addresses-perm p =
      ap (λ (l : List String). with_defaults (add_networks raw l (nothing l))) (sort_by_unique p)
      ∙ (let names = sort_by (λ (n : String). n) (names_of raw') in
          ap with_defaults (add_networks-same names (nothing names)))
