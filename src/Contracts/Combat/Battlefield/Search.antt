-- ===== src/Contracts/Combat/Battlefield/Search.antt =====
-- The search over the zones in `validateZoneGraph`, and the graph of their connections.
use lldm.Prelude.{
  ℕ, zero, suc, ◌≡◌, ◌≤◌, refl, ap, arith, true, false, ◌||◌, some, List, [], ◌∷◌, ◌++◌, map, ◌==◌,
  includes, length, find, append-eq_nil, Bool-cases, inl, inr, ◌⊎◌, ==_iff, Option-cases,
}
use mathlib.Core.Path.{subst⁻¹}
use mathlib.Core.List.{reverse, reverse_aux}
use lldm.Prelude.Names.{Distinct, counted}
use lldm.Contracts.Ids.{OpaqueId}
use lldm.Contracts.Validation.{ValidationIssue, issue_if, issues_of_each}
use lldm.Contracts.Combat.{Zone}
use lldm.Contracts.Combat.Battlefield.{
  zone_by_id, connection_issue, zone_issues, connections_of, visit, search_fuel, zone_graph_issues,
  connectivity_issues,
}

-- There is a way from the first zone to the other along connections.
pub data Reaches (zones : List Zone) (start : OpaqueId) : OpaqueId → Type 0 where
  here : Reaches zones start start
  along :
      {a b : OpaqueId}
      → Reaches zones start a
      → includes b (connections_of (zone_by_id zones a)) ≡ true
      → Reaches zones start b

abbrev pub zone_names : List Zone → List OpaqueId
zone_names zones = map (λ z. z.zone_id) zones

includes-reverse_aux :
    (a : ℕ) (xs ys : List ℕ) → includes a (reverse_aux xs ys) ≡ (includes a xs || includes a ys)
includes-reverse_aux a [] ys = refl
includes-reverse_aux a (x ∷ xs) ys = ground (arith, includes-reverse_aux a xs (x ∷ ys))

includes-append :
    (a : ℕ) (xs ys : List ℕ) → includes a (xs ++ ys) ≡ (includes a xs || includes a ys)
includes-append a [] ys = refl
includes-append a (x ∷ xs) ys = ground (arith, includes-append a xs ys)

-- A name that stands on top of the stack of the search comes from the zone or was there.
pushed :
    (a : ℕ) (xs ys : List ℕ)
    → includes a (reverse xs ++ ys) ≡ true
    → (includes a xs ≡ true) ⊎ (includes a ys ≡ true)
pushed a xs ys h = elim (Bool-cases (includes a xs)) [
  | inl e ↦ inl e
  | inr e ↦ inr (ground (arith, e, includes-append a (reverse xs) ys, includes-reverse_aux a xs []))
]

-- The names of a list all have a property.
abbrev Each : (OpaqueId → Type 0) → List OpaqueId → Type 0
Each Q xs = (a : OpaqueId) → includes a xs ≡ true → Q a

Each-cons :
    (Q : OpaqueId → Type 0) (x : OpaqueId) (xs : List OpaqueId) → Q x → Each Q xs → Each Q (x ∷ xs)
Each-cons Q x xs q each a h = elim (Bool-cases (a == x)) [
  | inl e ↦ rw ((==_iff a x).0 e) q
  | inr e ↦ each a (ground (arith, e))
]

abbrev Sound : (OpaqueId → Type 0) → List OpaqueId → Type 0
Sound Q xs = Distinct xs × Each Q xs

pub visit-old :
    (fuel : ℕ) (zones : List Zone) (current : OpaqueId) (visited pending : List OpaqueId)
    → includes current visited ≡ true
    → visit (suc fuel) zones visited (current ∷ pending) ≡ visit fuel zones visited pending
unfolding visit
visit-old fuel zones current visited pending e = ground (arith, e)

pub visit-new :
    (fuel : ℕ) (zones : List Zone) (current : OpaqueId) (visited pending : List OpaqueId)
    → includes current visited ≡ false
    → visit (suc fuel) zones visited (current ∷ pending)
      ≡ visit fuel zones
          (current ∷ visited)
          (reverse (connections_of (zone_by_id zones current)) ++ pending)
unfolding visit
visit-new fuel zones current visited pending e = ground (arith, e)

visit-Each :
    (Q : OpaqueId → Type 0) (fuel : ℕ) (zones : List Zone) (visited pending : List OpaqueId)
    → ((a b : OpaqueId) → Q a → includes b (connections_of (zone_by_id zones a)) ≡ true → Q b)
    → Distinct visited
    → Each Q visited
    → Each Q pending
    → Sound Q (visit fuel zones visited pending)
unfolding visit
visit-Each Q zero zones visited pending closed d v p = (d, v)
visit-Each Q (suc fuel) zones visited [] closed d v p = (d, v)
visit-Each Q (suc fuel) zones visited (current ∷ pending) closed d v p =
    elim (Bool-cases (includes current visited)) [
      | inl e ↦
          subst⁻¹ (Sound Q) (visit-old fuel zones current visited pending e)
            (visit-Each Q fuel zones visited pending closed d v (λ a h. p a (ground (arith, h))))
      | inr e ↦ subst⁻¹ (Sound Q) (visit-new fuel zones current visited pending e) (
          visit-Each Q fuel zones (current ∷ visited)
            (reverse (connections_of (zone_by_id zones current)) ++ pending) closed (e, d)
            (Each-cons Q current visited (p current (ground arith)) v)
            (λ a h. elim (pushed a (connections_of (zone_by_id zones current)) pending h) [
              | inl new ↦ closed current a (p current (ground arith)) new
              | inr old ↦ p a (ground (arith, old))
            ]))
    ]

issues_of_each-includes :
    (f : OpaqueId → List ValidationIssue) (a : OpaqueId) (xs : List OpaqueId)
    → issues_of_each f xs ≡ []
    → includes a xs ≡ true
    → f a ≡ []
unfolding issues_of_each
issues_of_each-includes f a [] h m = ground arith
issues_of_each-includes f a (x ∷ xs) h m =
    let (first, later) = append-eq_nil (f x) _ h in
    elim (Bool-cases (a == x)) [
      | inl e ↦ rw ((==_iff a x).0 e) first
      | inr e ↦ issues_of_each-includes f a xs later (ground (arith, e))
    ]

issues_of_each-by_id :
    (f : Zone → List ValidationIssue) (id : OpaqueId) (zs : List Zone) {z : Zone}
    → issues_of_each f zs ≡ []
    → zone_by_id zs id ≡ some z
    → (f z ≡ []) × (z.zone_id ≡ id)
unfolding issues_of_each zone_by_id
issues_of_each-by_id f id [] {z} h m = ground arith
issues_of_each-by_id f id (x ∷ xs) {z} h m =
    let (first, later) = append-eq_nil (f x) _ h in
    elim (Option-cases (zone_by_id xs id)) [
      | inl e ↦ ground (arith, e, first, (==_iff x.zone_id id).0)
      | inr (w, e) ↦ issues_of_each-by_id f id xs later (ground (arith, e))
    ]

zone_by_id-named :
    (id : OpaqueId) (zs : List Zone) (z : Zone)
    → zone_by_id zs id ≡ some z
    → includes id (zone_names zs) ≡ true
unfolding zone_by_id
zone_by_id-named id [] z h = ground arith
zone_by_id-named id (x ∷ xs) z h = ground (arith, zone_by_id-named id xs z)

connection-known :
    (zone_id b : OpaqueId) (zones : List Zone)
    → connection_issue zone_id (zone_by_id zones b) ≡ []
    → includes b (zone_names zones) ≡ true
connection-known zone_id b zones h = elim (Option-cases (zone_by_id zones b)) [
  | inl e ↦ absurd (ground (arith, e, h))
  | inr (z, e) ↦ zone_by_id-named b zones z e
]

zone_issues-connections :
    (zones : List Zone) (z : Zone)
    → zone_issues zones z ≡ []
    → issues_of_each
        (λ connection. connection_issue z.zone_id (zone_by_id zones connection))
        z.connections
      ≡ []
unfolding zone_issues
zone_issues-connections zones z h =
    (append-eq_nil (issue_if (includes z.zone_id z.connections) "zone.self_connection") _ h).1

-- Every connection of a zone without issues leads to a zone.
connections-known :
    (zones : List Zone) (a b : OpaqueId)
    → issues_of_each (zone_issues zones) zones ≡ []
    → includes b (connections_of (zone_by_id zones a)) ≡ true
    → includes b (zone_names zones) ≡ true
connections-known zones a b h m = elim (Option-cases (zone_by_id zones a)) [
  | inl e ↦ absurd (ground (arith, e, m))
  | inr (z, e) ↦
      let (sound, _) = issues_of_each-by_id (zone_issues zones) a zones h e in
      connection-known z.zone_id b zones (
        issues_of_each-includes
          (λ connection. connection_issue z.zone_id (zone_by_id zones connection)) b z.connections
          (zone_issues-connections zones z sound) (ground (arith, e, m)))
]

length-zone_names : (zones : List Zone) → length (zone_names zones) ≡ length zones
length-zone_names [] = refl
length-zone_names (z ∷ zs) = ap suc (length-zone_names zs)

connectivity-counts :
    (first : Zone) (rest : List Zone)
    → connectivity_issues (first ∷ rest) ≡ []
    → length (zone_names (first ∷ rest))
      ≤ length (visit (search_fuel (first ∷ rest)) (first ∷ rest) [] (first.zone_id ∷ []))
connectivity-counts first rest h = ground (arith, length-zone_names (first ∷ rest), h)

-- The search keeps to a property of the first name that connections carry on.
search-Each :
    (Q : OpaqueId → Type 0) (first : Zone) (rest : List Zone)
    → ((a b : OpaqueId)
        → Q a
        → includes b (connections_of (zone_by_id (first ∷ rest) a)) ≡ true
        → Q b)
    → Q first.zone_id
    → Sound Q (visit (search_fuel (first ∷ rest)) (first ∷ rest) [] (first.zone_id ∷ []))
search-Each Q first rest closed q =
    visit-Each Q (search_fuel (first ∷ rest)) (first ∷ rest) [] (first.zone_id ∷ []) closed tt
      (λ a e. absurd (ground (arith, e)))
      (Each-cons Q first.zone_id [] q (λ a e. absurd (ground (arith, e))))

-- In a battlefield without issues the names are distinct, and every zone is reached from the first.
pub zone_graph_issues-connected :
    (first : Zone) (rest : List Zone)
    → zone_graph_issues (first ∷ rest) ≡ []
    → Distinct (zone_names (first ∷ rest))
      × ((id : OpaqueId)
          → includes id (zone_names (first ∷ rest)) ≡ true
          → Reaches (first ∷ rest) first.zone_id id)
unfolding zone_graph_issues
zone_graph_issues-connected first rest h =
    let (each, all) =
      append-eq_nil (issues_of_each (zone_issues (first ∷ rest)) (first ∷ rest)) _ h in
    let (d, inside) =
      search-Each (λ a. includes a (zone_names (first ∷ rest)) ≡ true) first rest
        (λ a b q e. connections-known (first ∷ rest) a b each e) (ground arith) in
    let (_, reached) =
      search-Each (Reaches (first ∷ rest) first.zone_id) first rest (λ a b r e. along r e) here in
    let (distinct, found) =
      counted _ (zone_names (first ∷ rest)) d inside (connectivity-counts first rest all) in
    (distinct, λ id e. reached id (found id e))

-- Where the names are distinct, the first zone of a name is the last one.
pub find-zone_by_id :
    (zones : List Zone) (id : OpaqueId)
    → Distinct (zone_names zones)
    → find (λ z. z.zone_id == id) zones ≡ zone_by_id zones id
unfolding find zone_by_id
find-zone_by_id [] id d = refl
find-zone_by_id (z ∷ zs) id d = elim (Option-cases (zone_by_id zs id)) [
  | inl e ↦ ground (arith, e, find-zone_by_id zs id d.1)
  | inr (w, e) ↦ ground (arith, e, find-zone_by_id zs id d.1, zone_by_id-named id zs w e, d.0)
]

-- A battlefield without issues names no zone twice.
pub zone_graph_issues-find :
    (zones : List Zone) (id : OpaqueId)
    → zone_graph_issues zones ≡ []
    → find (λ z. z.zone_id == id) zones ≡ zone_by_id zones id
zone_graph_issues-find [] id h = find-zone_by_id [] id tt
zone_graph_issues-find (z ∷ zs) id h =
    find-zone_by_id (z ∷ zs) id (zone_graph_issues-connected z zs h).0
