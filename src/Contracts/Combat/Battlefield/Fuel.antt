-- ===== src/Contracts/Combat/Battlefield/Fuel.antt =====
-- The rounds of the search in `validateZoneGraph`.
use lldm.Prelude.{
  ℕ, zero, suc, ◌+◌, ◌≤◌, ◌<◌, ◌≡◌, refl, sym, ◌∙◌, arith, false, List, [], ◌∷◌, ◌++◌,
  if◌then◌else◌, includes, length, length-append, Bool-cases, Option-cases, inl, inr,
}
use mathlib.Core.List.{reverse, reverse_aux}
use lldm.Contracts.Ids.{OpaqueId}
use lldm.Contracts.Combat.{Zone}
use lldm.Contracts.Combat.Battlefield.{
  zone_by_id, connections_of, visit, search_fuel, total_connections,
}
use lldm.Contracts.Combat.Battlefield.Search.{visit-old, visit-new}

-- The connections that the search can still push.
remaining : List Zone → List OpaqueId → ℕ
remaining [] visited = 0
remaining (z ∷ zs) visited =
    let rest = remaining zs visited in
    if includes z.zone_id visited then rest else length z.connections + rest

remaining-nil : (zones : List Zone) → remaining zones [] ≡ total_connections zones
unfolding remaining total_connections
remaining-nil [] = refl
remaining-nil (z ∷ zs) = ground (arith, remaining-nil zs)

remaining-cons :
    (zones : List Zone) (a : OpaqueId) (visited : List OpaqueId)
    → remaining zones (a ∷ visited) ≤ remaining zones visited
unfolding remaining
remaining-cons [] a visited = omega arith
remaining-cons (z ∷ zs) a visited = ground (arith, remaining-cons zs a visited)

-- A name that is visited takes the connections of its zone away.
remaining-visit :
    (zones : List Zone) (a : OpaqueId) (visited : List OpaqueId)
    → includes a visited ≡ false
    → length (connections_of (zone_by_id zones a)) + remaining zones (a ∷ visited)
      ≤ remaining zones visited
unfolding remaining zone_by_id
remaining-visit [] a visited new = omega arith
remaining-visit (z ∷ zs) a visited new = elim (Option-cases (zone_by_id zs a)) [
  | inl e ↦ ground (arith, e, remaining-visit zs a visited new, remaining-cons zs a visited)
  | inr (w, e) ↦ ground (arith, e, remaining-visit zs a visited new, remaining-cons zs a visited)
]

length-reverse_aux : (xs ys : List OpaqueId) → length (reverse_aux xs ys) ≡ length xs + length ys
length-reverse_aux [] ys = omega arith
length-reverse_aux (x ∷ xs) ys = omega (arith, length-reverse_aux xs (x ∷ ys))

visit-stable :
    (f g : ℕ) (zones : List Zone) (visited pending : List OpaqueId)
    → length pending + remaining zones visited < f
    → length pending + remaining zones visited < g
    → visit f zones visited pending ≡ visit g zones visited pending
visit-stable zero g zones visited pending hf hg = absurd (omega (arith, hf))
visit-stable (suc f) zero zones visited pending hf hg = absurd (omega (arith, hg))
visit-stable (suc f) (suc g) zones visited [] hf hg = unfold visit in refl
visit-stable (suc f) (suc g) zones visited (current ∷ pending) hf hg =
    elim (Bool-cases (includes current visited)) [
      | inl e ↦
          visit-old f zones current visited pending e
          ∙ visit-stable f g zones visited pending (omega (arith, hf)) (omega (arith, hg))
          ∙ sym (visit-old g zones current visited pending e)
      | inr e ↦
          let next = reverse (connections_of (zone_by_id zones current)) ++ pending in
          let smaller : length next + remaining zones (current ∷ visited)
              ≤ length pending + remaining zones visited =
            omega (
              arith,
              length-append (reverse (connections_of (zone_by_id zones current))) pending,
              length-reverse_aux (connections_of (zone_by_id zones current)) [],
              remaining-visit zones current visited e,
            ) in
          visit-new f zones current visited pending e
          ∙ visit-stable f g zones (current ∷ visited) next (omega (arith, hf, smaller))
              (omega (arith, hg, smaller))
          ∙ sym (visit-new g zones current visited pending e)
    ]

-- The fuel of the search over the zones is enough: more of it changes nothing, on any battlefield.
pub search_fuel-enough :
    (zones : List Zone) (start : OpaqueId) (more : ℕ)
    → visit (search_fuel zones + more) zones [] (start ∷ [])
      ≡ visit (search_fuel zones) zones [] (start ∷ [])
search_fuel-enough zones start more =
    visit-stable (search_fuel zones + more) (search_fuel zones) zones [] (start ∷ [])
      (omega (arith, remaining-nil zones)) (omega (arith, remaining-nil zones))
