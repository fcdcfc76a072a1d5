-- ===== src/Pulumi/Client/Addresses.antt =====
-- addresses.go: the addresses of an instance, by the names of its networks.
pub mod Order
use nobus_csi.Common.{
  ◌||◌, eqb, Bool, false, String, List, [], ◌∷◌, ◌++◌, map, Option, none, some, ◌==◌, if◌then◌else◌,
}
use nobus_csi.Common.Int.{ℤ, pos, negsuc}
use nobus_csi.Common.Assoc.{Assoc, lookup}
use nobus_csi.Common.Text.{or_else}
use nobus_csi.Common.Sort.{sort_by}
use nobus_csi.Cloud.Errors.{Sentinel, Result, ok, err, wrap, sentinel}
use nobus_csi.Pulumi.Client.Shapes.{AddressEntry, Addresses}

-- What a network's value is: nothing or null, an array, or another value, with what decoding gives.
pub data RawEntries : Type 0 where
  blank : RawEntries
  array : Option (List AddressEntry) → RawEntries
  single : Option AddressEntry → RawEntries

-- The addresses as they arrive: nothing or null, no object, or an object.
pub data RawAddresses : Type 0 where
  no_addresses : RawAddresses
  undecodable : RawAddresses
  networks : Assoc RawEntries → RawAddresses

one_entry : AddressEntry → Result (List AddressEntry)
one_entry one = if one.addr == "" then err (sentinel Sentinel.invalid) else ok (one ∷ [])

unfoldable pub decode_address_entries : RawEntries → Result (List AddressEntry)
unfolding one_entry
decode_address_entries blank = ok []
decode_address_entries (array none) = err (wrap [])
decode_address_entries (array (some entries)) = ok entries
decode_address_entries (single none) = err (wrap [])
decode_address_entries (single (some one)) = one_entry one

add_network : String → Result (List AddressEntry) → Result Addresses → Result Addresses
add_network name (err e) rest = err e
add_network name (ok entries) (err e) = err e
add_network name (ok entries) (ok rest) = ok ((name, entries) ∷ rest)

decode_networks : Assoc RawEntries → Result Addresses
unfolding add_network decode_address_entries
decode_networks [] = ok []
decode_networks ((name, payload) ∷ raw) =
    add_network name (decode_address_entries payload) (decode_networks raw)

unfoldable pub unmarshal_addresses : RawAddresses → Result Addresses
unfolding decode_networks
unmarshal_addresses no_addresses = ok []
unmarshal_addresses undecodable = err (wrap [])
unmarshal_addresses (networks raw) = decode_networks raw

pub record ParsedAddresses : Type 0 where
  pub networks : List String
  pub ipv4 : List String
  pub ipv6 : List String
  pub private_ipv4 : String
  pub public_ipv4 : String

abbrev is_six : ℤ → Bool
is_six (pos n) = eqb n 6
is_six (negsuc n) = false

abbrev is_public : AddressEntry → Bool
is_public e = e.kind == "floating" || e.kind == "public"

-- The first public address, and the first other one.
abbrev with_ipv4 : AddressEntry → ParsedAddresses → ParsedAddresses
with_ipv4 e out =
    if is_public e
    then record out {
      ipv4 = out.ipv4 ++ e.addr ∷ [];
      public_ipv4 = if out.public_ipv4 == "" then e.addr else out.public_ipv4;
    }
    else record out {
      ipv4 = out.ipv4 ++ e.addr ∷ [];
      private_ipv4 = if out.private_ipv4 == "" then e.addr else out.private_ipv4;
    }

unfoldable pub add_entry : AddressEntry → ParsedAddresses → ParsedAddresses
add_entry e out =
    if is_six e.version then record out { ipv6 = out.ipv6 ++ e.addr ∷ [] } else with_ipv4 e out

unfoldable pub add_entries : List AddressEntry → ParsedAddresses → ParsedAddresses
unfolding add_entry
add_entries [] out = out
add_entries (e ∷ es) out = add_entries es (add_entry e out)

module _ (raw : Addresses) where
  abbrev entries_of : String → List AddressEntry
  entries_of name = elim (lookup name raw) [ none ↦ [] | some entries ↦ entries ]

  -- The entries of the networks, a network after the other.
  unfoldable pub add_networks : List String → ParsedAddresses → ParsedAddresses
  unfolding add_entries
  add_networks [] out = out
  add_networks (name ∷ names) out = add_networks names (add_entries (entries_of name) out)

-- The last of several addresses.
last_of_several : List String → String
last_of_several [] = ""
last_of_several (x ∷ []) = ""
last_of_several (x ∷ y ∷ []) = y
last_of_several (x ∷ y ∷ z ∷ rest) = last_of_several (y ∷ z ∷ rest)

first_of : List String → String
first_of [] = ""
first_of (x ∷ rest) = x

-- Where no entry told the addresses: the first is the private one, the last of several the public one.
unfoldable pub with_defaults : ParsedAddresses → ParsedAddresses
unfolding last_of_several first_of
with_defaults out = record out {
  private_ipv4 = or_else out.private_ipv4 (first_of out.ipv4);
  public_ipv4 = or_else out.public_ipv4 (last_of_several out.ipv4);
}

abbrev nothing : List String → ParsedAddresses
nothing names = record {
  networks = names;
  ipv4 = [];
  ipv6 = [];
  private_ipv4 = "";
  public_ipv4 = "";
}

-- The networks' names, in the order of a `range`.
abbrev pub names_of : Addresses → List String
names_of [] = []
names_of ((name, entries) ∷ raw) = name ∷ names_of raw

unfoldable pub parse_addresses : Addresses → ParsedAddresses
unfolding add_networks with_defaults
parse_addresses raw =
    let names = sort_by (λ (n : String). n) (names_of raw) in
    with_defaults (add_networks raw names (nothing names))
