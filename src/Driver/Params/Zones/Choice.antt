-- ===== src/Driver/Params/Zones/Choice.antt =====
-- The zone that a request is given.
use nobus_csi.Common.{
  Bool, true, false, ◌||◌, ◌≡◌, refl, ap, ◌∙◌, eq_refl, ◌≢◌, ◌⊎◌, inl, inr, String, List, [], ◌∷◌,
  ◌++◌, none, some, arith, ◌==◌, eq_iff, Option-cases,
}
use nobus_csi.Common.Text.{contains}
use nobus_csi.Common.Assoc.{Dict}
use nobus_csi.Driver.Csi.{TopologyRequirement}
use nobus_csi.Driver.Params.Zones.{
  zone_of, note_zone, zones_from, topology_zones, admits, preferred_zone, fallback_zone,
  choose_zone, selected_zone,
}

contains-append :
    (xs : List String) (a k : String) → contains (xs ++ (a ∷ [])) k ≡ (contains xs k || k == a)
contains-append [] a k = ground arith
contains-append (x ∷ xs) a k = ground (arith, contains-append xs a k)

-- Some topology of the list has the zone.
abbrev pub mentions : List Dict → String → Bool
mentions [] zone = false
mentions (t ∷ ts) zone = zone == zone_of t || mentions ts zone

contains-zones_from :
    (ts : List Dict) (zones : List String) (zone : String)
    → zone ≢ ""
    → contains (zones_from ts zones) zone ≡ (contains zones zone || mentions ts zone)
unfolding zones_from
contains-zones_from [] zones zone h = ground arith
contains-zones_from (t ∷ ts) zones zone h = ground (
  arith,
  contains-zones_from ts (note_zone (zone_of t) zones) zone h,
  contains-append zones (zone_of t) zone,
  eq_iff (zone_of t) "",
  eq_iff zone (zone_of t),
)

no_empty :
    (ts : List Dict) (zones : List String)
    → contains zones "" ≡ false
    → contains (zones_from ts zones) "" ≡ false
unfolding zones_from
no_empty [] zones h = h
no_empty (t ∷ ts) zones h = no_empty ts (note_zone (zone_of t) zones) (
    ground
      (arith, contains-append zones (zone_of t) "", eq_iff (zone_of t) "", eq_iff "" (zone_of t)))

preferred_zone-admits :
    (ts : List Dict) (requisite : List String) {zone : String}
    → preferred_zone ts requisite ≡ some zone
    → (admits requisite zone ≡ true) × (mentions ts zone ≡ true) × (zone ≢ "")
unfolding preferred_zone
preferred_zone-admits [] requisite h = cc
preferred_zone-admits (t ∷ ts) requisite {zone} h = ground (
  arith,
  preferred_zone-admits ts requisite {zone = zone},
  eq_iff zone (zone_of t),
  eq_iff (zone_of t) "",
)

-- A zone of the list is chosen wherever the list of requisite zones is not empty.
choose_zone-contains :
    (preferred : List Dict) (z : String) (zs : List String) (fallback : String)
    → contains (z ∷ zs) (choose_zone (preferred_zone preferred (z ∷ zs)) (z ∷ zs) fallback) ≡ true
unfolding choose_zone
choose_zone-contains preferred z zs fallback =
    elim (Option-cases (preferred_zone preferred (z ∷ zs))) [
      | inl nothing ↦ rw nothing (ground (arith, eq_iff z z))
      | inr (zone, found) ↦ rw found (preferred_zone-admits preferred (z ∷ zs) found).0
    ]

chosen_in_requisite :
    (zones : List String) (preferred : List Dict) (zone fallback : String)
    → contains zones zone ≡ true
    → contains zones (choose_zone (preferred_zone preferred zones) zones fallback) ≡ true
chosen_in_requisite [] preferred zone fallback h = cc
chosen_in_requisite (z ∷ zs) preferred zone fallback h =
    choose_zone-contains preferred z zs fallback

requisite_zone :
    (ts : List Dict) (zone : String)
    → contains (topology_zones ts) zone ≡ true
    → (zone ≢ "") × (mentions ts zone ≡ true)
unfolding topology_zones
requisite_zone ts zone h = (filled, ground (arith, contains-zones_from ts [] zone filled))
  where
    filled : zone ≢ ""
    filled e = cc (no_empty ts [] refl, ap (contains (zones_from ts [])) e, h)

-- Where a requisite topology of the request names a zone, the chosen zone is not empty and is one
-- that a requisite topology names.
pub selected_zone-requisite :
    (r : TopologyRequirement) (fallback zone : String)
    → zone ≢ ""
    → mentions r.requisite zone ≡ true
    → (selected_zone r fallback ≢ "") × (mentions r.requisite (selected_zone r fallback) ≡ true)
unfolding selected_zone topology_zones
selected_zone-requisite r fallback zone filled h =
    requisite_zone r.requisite (selected_zone r fallback) (
      chosen_in_requisite (topology_zones r.requisite) r.preferred zone fallback
        (contains-zones_from r.requisite [] zone filled ∙ h))

no_preferred_zone :
    (ts : List Dict) (requisite : List String)
    → ((zone : String) → zone ≢ "" → mentions ts zone ≡ false)
    → preferred_zone ts requisite ≡ none
unfolding preferred_zone
no_preferred_zone [] requisite h = refl
no_preferred_zone (t ∷ ts) requisite h = ground (
  arith,
  no_preferred_zone ts requisite (λ zone filled. ground (arith, h zone filled)),
  h (zone_of t),
  eq_refl (zone_of t),
  eq_iff (zone_of t) "",
)

fallback_zone_admitted :
    (zones : List String) (fallback : String)
    → (fallback ≢ "" × (contains zones fallback ≡ true)) ⊎ (zones ≡ [])
    → fallback_zone zones fallback ≡ fallback
unfolding fallback_zone
fallback_zone_admitted [] fallback h = refl
fallback_zone_admitted (z ∷ zs) fallback (inl h) = ground (arith, eq_iff fallback "")
fallback_zone_admitted (z ∷ zs) fallback (inr h) = cc

-- Where the request prefers no zone, and the fallback is requisite and not empty or no zone is
-- requisite, the fallback is chosen.
selected_zone-fallback :
    (r : TopologyRequirement) (fallback : String)
    → ((zone : String) → zone ≢ "" → mentions r.preferred zone ≡ false)
    → ((fallback ≢ "") × (mentions r.requisite fallback ≡ true)) ⊎ (topology_zones r.requisite ≡ [])
    → selected_zone r fallback ≡ fallback
unfolding selected_zone choose_zone topology_zones
selected_zone-fallback r fallback h (inl k) =
    rw (no_preferred_zone r.preferred (topology_zones r.requisite) h) (
      fallback_zone_admitted (topology_zones r.requisite) fallback
        (inl (k.0, contains-zones_from r.requisite [] fallback k.0 ∙ k.1)))
selected_zone-fallback r fallback h (inr k) =
    rw (no_preferred_zone r.preferred (topology_zones r.requisite) h)
      (fallback_zone_admitted (topology_zones r.requisite) fallback (inr k))
