-- ===== src/Driver/Params/Zones.antt =====
-- `selectedZone` and `topologyZones` of internal/driver/params.go.
pub mod Choice
use nobus_csi.Common.{
  Bool, true, false, not, ◌&&◌, ◌||◌, String, List, [], ◌∷◌, ◌++◌, Option, none, some,
}
use nobus_csi.Common.{◌==◌, if◌then◌else◌}
use nobus_csi.Common.Text.{contains}
use nobus_csi.Common.Assoc.{Dict, get_or_empty}
use nobus_csi.Driver.Csi.{TopologyRequirement}

abbrev pub topology_zone_key : String
topology_zone_key = "topology.csi.nobus.io/zone"

abbrev pub zone_of : Dict → String
zone_of segments = get_or_empty topology_zone_key segments

abbrev pub note_zone : String → List String → List String
note_zone zone zones =
    if not (zone == "") && not (contains zones zone) then zones ++ (zone ∷ []) else zones

-- The loop over the topologies, with the zones found so far.
zones_from : List Dict → List String → List String
zones_from [] zones = zones
zones_from (t ∷ ts) zones = zones_from ts (note_zone (zone_of t) zones)

unfoldable pub topology_zones : List Dict → List String
unfolding zones_from
topology_zones topologies = zones_from topologies []

-- A preferred zone is passed over where there are requisite zones and it is none of them.
abbrev pub admits : List String → String → Bool
admits [] zone = true
admits (z ∷ zs) zone = contains (z ∷ zs) zone

-- The first preferred zone that serves.
unfoldable pub preferred_zone : List Dict → List String → Option String
preferred_zone [] requisite = none
preferred_zone (t ∷ ts) requisite =
    let rest = preferred_zone ts requisite in
    if not (zone_of t == "") && admits requisite (zone_of t) then some (zone_of t) else rest

-- Without a preferred zone: the fallback if it is requisite, else the first requisite zone.
unfoldable pub fallback_zone : List String → String → String
fallback_zone [] fallback = fallback
fallback_zone (z ∷ zs) fallback =
    if not (fallback == "") && contains (z ∷ zs) fallback then fallback else z

choose_zone : Option String → List String → String → String
unfolding fallback_zone
choose_zone (some zone) requisite fallback = zone
choose_zone none requisite fallback = fallback_zone requisite fallback

unfoldable pub selected_zone : TopologyRequirement → String → String
unfolding choose_zone
selected_zone requirements fallback =
    let requisite = topology_zones requirements.requisite in
    choose_zone (preferred_zone requirements.preferred requisite) requisite fallback
