-- ===== src/Contracts/Combat/Battlefield.antt =====
-- `validateZoneGraph` of packages/contracts/src/domains/combat.ts.
pub mod Search
pub mod Fuel
use lldm.Prelude.{
  ℕ, zero, suc, ◌+◌, ◌*◌, Bool, true, false, not, Option, none, some, List, [], ◌∷◌, ◌++◌, map,
  ◌==◌, if◌then◌else◌, includes, length,
}
use mathlib.Core.List.{reverse}
use lldm.Contracts.Ids.{OpaqueId}
use lldm.Contracts.Validation.{ValidationIssue, issue_if, issues_of_each}
use lldm.Contracts.Combat.{Zone}

-- `new Map(zones.map((zone) => [zone.zone_id, zone])).get(id)`: the last zone of that name.
unfoldable pub zone_by_id : List Zone → OpaqueId → Option Zone
zone_by_id [] id = none
zone_by_id (z ∷ zs) id =
    let later = zone_by_id zs id in
    elim later [ some w ↦ some w | none ↦ if z.zone_id == id then some z else none ]

-- The body of the inner loop, for the connection of `zone_id` to the zone that was looked up.
abbrev pub connection_issue : OpaqueId → Option Zone → List ValidationIssue
connection_issue zone_id none = issue_if true "zone.missing_connection"
connection_issue zone_id (some other) =
    issue_if (not (includes zone_id other.connections)) "zone.asymmetric_connection"

unfoldable pub zone_issues : List Zone → Zone → List ValidationIssue
zone_issues zones z =
    issue_if (includes z.zone_id z.connections) "zone.self_connection"
    ++ issues_of_each (λ connection. connection_issue z.zone_id (zone_by_id zones connection))
        z.connections

abbrev pub connections_of : Option Zone → List OpaqueId
connections_of none = []
connections_of (some z) = z.connections

-- The search `while (pending.length > 0)`. The head of the list is the end of the array, where
-- `pop` takes and `push` puts; `visited` holds each name once. The fuel bounds the rounds.
unfoldable pub visit : ℕ → List Zone → List OpaqueId → List OpaqueId → List OpaqueId
visit zero zones visited pending = visited
visit (suc fuel) zones visited [] = visited
visit (suc fuel) zones visited (current ∷ pending) = elim (includes current visited) [
  | true ↦ visit fuel zones visited pending
  | false ↦
      visit fuel zones (current ∷ visited)
        (reverse (connections_of (zone_by_id zones current)) ++ pending)
]

unfoldable pub total_connections : List Zone → ℕ
total_connections [] = 0
total_connections (z ∷ zs) = length z.connections + total_connections zs

-- Each round takes one name off, and each zone's connections are put on at most once.
abbrev pub search_fuel : List Zone → ℕ
search_fuel zones = 2 + total_connections zones

abbrev pub connectivity_issues : List Zone → List ValidationIssue
connectivity_issues [] = []
connectivity_issues (first ∷ rest) =
    issue_if
      (not (
        length (visit (search_fuel (first ∷ rest)) (first ∷ rest) [] (first.zone_id ∷ []))
        == length (first ∷ rest)))
      "zone.disconnected_graph"

unfoldable pub zone_graph_issues : List Zone → List ValidationIssue
zone_graph_issues zones = issues_of_each (zone_issues zones) zones ++ connectivity_issues zones
