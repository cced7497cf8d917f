-- ===== src/Contracts/Combat/Facts.antt =====
-- The issues of `validateCombatState` of packages/contracts/src/domains/combat.ts, one by one.
use lldm.Prelude.{
  ◌≤◌, ◌≡◌, refl, arith, Bool, true, false, not, ◌&&◌, Option, none, some, List, [], ◌∷◌, ◌==◌,
  includes, is_some, find, any, append-eq_nil, String,
}
use lldm.Contracts.Ids.{OpaqueId}
use lldm.Contracts.Validation.{issue_if}
use lldm.Contracts.Combat.{CombatState, CombatParticipant, CombatSide, side_of, Zone}
use lldm.Contracts.Combat.Battlefield.{zone_by_id, zone_graph_issues}
use lldm.Contracts.Combat.Validity.{
  combat_issues, participant_issues, active_actor_issues, capacity_issues, occupancy, over_capacity,
  same_side,
}

pub record HasNoIssues (c : CombatState) : Type 0 where
  pub battlefield_sound : zone_graph_issues c.battlefield ≡ []
  pub participants_sound : participant_issues c [] c.participants ≡ []
  pub active_sound : active_actor_issues c c.active_actor_id ≡ []
  pub capacity_sound : capacity_issues c [] c.participants ≡ []

pub combat_issues-eq_nil : (c : CombatState) → combat_issues c ≡ [] → HasNoIssues c
unfolding combat_issues
combat_issues-eq_nil c h =
    let (h8, _) = append-eq_nil _ _ h in
    let (h7, _) = append-eq_nil _ _ h8 in
    let (h6, _) = append-eq_nil _ _ h7 in
    let (h5, _) = append-eq_nil _ _ h6 in
    let (h4, _) = append-eq_nil _ _ h5 in
    let (h3, cap_ok) = append-eq_nil _ _ h4 in
    let (h2, active_ok) = append-eq_nil _ _ h3 in
    let (h1, parts_ok) = append-eq_nil _ _ h2 in
    record {
      battlefield_sound = h1;
      participants_sound = parts_ok;
      active_sound = active_ok;
      capacity_sound = cap_ok;
    }

same_side-eq : (a b : CombatSide) → same_side a b ≡ true → a ≡ b
same_side-eq a b h = ground arith

-- The active actor stands on the active side and has not spent its activation.
pub active_facts :
    (c : CombatState) (id : OpaqueId) (p : CombatParticipant)
    → HasNoIssues c
    → c.active_actor_id ≡ some id
    → find (λ q. q.actor_id == id) c.participants ≡ some p
    → (side_of p ≡ c.active_side) × (p.activation_spent ≡ false)
active_facts c id p v a f = ground (arith, same_side-eq (side_of p) c.active_side, v.active_sound)

issue_if-eq_nil : (b : Bool) (code : String) → issue_if b code ≡ [] → b ≡ false
issue_if-eq_nil b code h = ground arith

capacity_issues-cons :
    (c : CombatState) (done : List OpaqueId) (p : CombatParticipant) (ps : List CombatParticipant)
    → capacity_issues c done (p ∷ ps) ≡ []
    → ((not (includes p.zone_id done)
          && over_capacity
              (occupancy p.zone_id c.participants)
              (zone_by_id c.battlefield p.zone_id))
        ≡ false)
      × (capacity_issues c (p.zone_id ∷ done) ps ≡ [])
unfolding capacity_issues
capacity_issues-cons c done p ps h =
    let (here, later) = append-eq_nil _ _ h in (issue_if-eq_nil _ _ here, later)

-- A zone in which somebody stands is not over its capacity.
capacity_issues-within :
    (c : CombatState) (zone : OpaqueId) (done : List OpaqueId) (ps : List CombatParticipant)
    → capacity_issues c done ps ≡ []
    → includes zone done ≡ false
    → any (λ q. q.zone_id == zone) ps ≡ true
    → over_capacity (occupancy zone c.participants) (zone_by_id c.battlefield zone) ≡ false
unfolding any
capacity_issues-within c zone done [] h d a = ground arith
capacity_issues-within c zone done (p ∷ ps) h d a =
    let (here, later) = capacity_issues-cons c done p ps h in
    ground (arith, here, later, capacity_issues-within c zone (p.zone_id ∷ done) ps)

pub find-any :
    (id zone : OpaqueId) (ps : List CombatParticipant) (p : CombatParticipant)
    → find (λ q. q.actor_id == id) ps ≡ some p
    → p.zone_id ≡ zone
    → any (λ q. q.zone_id == zone) ps ≡ true
unfolding find any
find-any id zone [] p f z = ground arith
find-any id zone (q ∷ ps) p f z = ground (arith, find-any id zone ps p)

participant_issues-cons :
    (c : CombatState) (seen : List OpaqueId) (p : CombatParticipant) (ps : List CombatParticipant)
    → participant_issues c seen (p ∷ ps) ≡ []
    → (includes p.actor_id seen ≡ false)
      × (not (is_some (zone_by_id c.battlefield p.zone_id)) ≡ false)
      × (participant_issues c (p.actor_id ∷ seen) ps ≡ [])
unfolding participant_issues
participant_issues-cons c seen p ps h =
    let (front, later) = append-eq_nil _ _ h in
    let (front', _) = append-eq_nil _ _ front in
    let (first, known) = append-eq_nil _ _ front' in
    (issue_if-eq_nil _ _ first, issue_if-eq_nil _ _ known, later)

participant_issues-known :
    (c : CombatState) (zone : OpaqueId) (seen : List OpaqueId) (ps : List CombatParticipant)
    → participant_issues c seen ps ≡ []
    → any (λ q. q.zone_id == zone) ps ≡ true
    → is_some (zone_by_id c.battlefield zone) ≡ true
unfolding any
participant_issues-known c zone seen [] h a = ground arith
participant_issues-known c zone seen (p ∷ ps) h a =
    let (_, known, later) = participant_issues-cons c seen p ps h in
    ground (arith, known, later, participant_issues-known c zone (p.actor_id ∷ seen) ps)

-- Whoever stands in a fight without issues stands in a zone that is there and not over its capacity.
pub zone_facts :
    (c : CombatState) (zone : OpaqueId)
    → HasNoIssues c
    → any (λ q. q.zone_id == zone) c.participants ≡ true
    → (z : Zone) × (zone_by_id c.battlefield zone ≡ some z)
      × (occupancy zone c.participants ≤ z.capacity)
zone_facts c zone v a = stands (zone_by_id c.battlefield zone) refl
  where
    stands :
        (o : Option Zone)
        → zone_by_id c.battlefield zone ≡ o
        → (z : Zone) × (zone_by_id c.battlefield zone ≡ some z)
          × (occupancy zone c.participants ≤ z.capacity)
    stands none e = absurd (
        ground (arith, e, participant_issues-known c zone [] c.participants v.participants_sound a))
    stands (some z) e = (
      z,
      e,
      ground (arith, e, capacity_issues-within c zone [] c.participants v.capacity_sound refl a),
    )
