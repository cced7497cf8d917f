-- ===== src/Engine/Compensation/Fights.antt =====
-- The inverses of the events of a fight, and of a requested roll.
use lldm.Prelude.{
  suc, ◌≤◌, ◌≡◌, ◌≢◌, refl, arith, Bool, true, false, not, Option, none, some, List, [], ◌∷◌, ◌==◌,
  ◌||◌, if◌then◌else◌, find, modify, filter, any, same_id, ok, find-holds, find-modify, find-append,
  modify-modify, modify_same, filter-append_last, Bool-cases, inl, inr,
}
use lldm.Contracts.Ids.{OpaqueId}
use lldm.Contracts.Checks.{PhysicalRollDisclosure}
use lldm.Contracts.Combat.{
  CombatState, combat_active, PendingCheck, CombatParticipant, side_of, Zone,
}
use lldm.Contracts.Combat.Validity.{occupancy}
use lldm.Contracts.GameState.{GameState}
use lldm.Contracts.Events.{SlotUse, Movement}
use lldm.Engine.Apply.Access.{is_pending, is_actor, participant}
use lldm.Engine.Apply.Checks.{apply_roll_requested, apply_roll_cancelled, is_death_reason}
use lldm.Engine.Apply.Combat.{
  apply_slot_spent, apply_slot_restored, spend_slot, restore_slot, is_reaction, apply_actor_moved,
  move_to, zone_named,
}

-- The combat does not wait for the check, and a death test finds it waiting for nothing.
abbrev pub Unclaimed : OpaqueId → Bool → Option CombatState → Type 0
Unclaimed id deadly none = Unit
Unclaimed id deadly (some c) =
    (same_id c.pending_death_check_id id ≡ false)
    × (same_id c.pending_action_check_id id ≡ false)
    × (deadly ≡ true → (c.status ≡ combat_active) × (c.pending_death_check_id ≡ none))

any-find :
    (id nonce : OpaqueId) (ps : List PendingCheck)
    → any (λ p. p.pending_check_id == id || p.submission_nonce == nonce) ps ≡ false
    → (find (is_pending id) ps ≡ none)
      × (any (λ p. not (not (p.pending_check_id == id))) ps ≡ false)
unfolding any find
any-find id nonce [] h = (refl, refl)
any-find id nonce (p ∷ ps) h = ground (arith, any-find id nonce ps)

pub roll_undo :
    (s : GameState) (id nonce : OpaqueId) (d : PhysicalRollDisclosure) {t : GameState}
    → Unclaimed id (is_death_reason d.reason) s.combat
    → apply_roll_requested s id nonce d ≡ ok t
    → apply_roll_cancelled t id ≡ ok s
unfolding apply_roll_requested apply_roll_cancelled
roll_undo s id nonce d {t} u h = ground (
  arith,
  any-find id nonce s.pending_physical_checks,
  find-append (is_pending id) s.pending_physical_checks (record {
    pending_check_id = id;
    submission_nonce = nonce;
    disclosure = d;
    continuation = none;
  }),
  filter-append_last (λ p. not (p.pending_check_id == id)) s.pending_physical_checks
      (record {
        pending_check_id = id;
        submission_nonce = nonce;
        disclosure = d;
        continuation = none;
      }),
)

pub slot_undo :
    (s : GameState) (c : CombatState) (p : CombatParticipant) (e : SlotUse) {t : GameState}
    → s.combat ≡ some c
    → participant c e.actor_id ≡ some p
    → is_reaction e.slot ≡ false
    → p.activation_spent ≡ false
    → c.active_side ≡ side_of p
    → apply_slot_spent s e ≡ ok t
    → apply_slot_restored t e ≡ ok s
unfolding apply_slot_spent apply_slot_restored
slot_undo s c p e {t} sc pc r sp side h = ground (
  arith,
  find-holds (is_actor e.actor_id) _ p pc,
  find-modify (is_actor e.actor_id) (spend_slot e.slot) c.participants p pc,
  modify-modify (is_actor e.actor_id) (spend_slot e.slot) (restore_slot e.slot) c.participants p pc,
)

occupancy-cons :
    (zone : OpaqueId) (p : CombatParticipant) (ps : List CombatParticipant)
    → occupancy zone (p ∷ ps)
      ≡ (if p.zone_id == zone then suc (occupancy zone ps) else occupancy zone ps)
unfolding occupancy filter
occupancy-cons zone p ps = ground arith

-- A participant that leaves a zone for another one leaves one place free.
occupancy-modify :
    (id source target : OpaqueId) (ps : List CombatParticipant) (p : CombatParticipant)
    → find (is_actor id) ps ≡ some p
    → p.zone_id ≡ source
    → source ≢ target
    → suc (occupancy source (modify (is_actor id) (move_to target) ps)) ≡ occupancy source ps
unfolding find modify
occupancy-modify id source target [] p f z n = ground arith
occupancy-modify id source target (q ∷ ps) p f z n = ground (
  arith,
  occupancy-cons source q ps,
  occupancy-cons source (move_to target q) ps,
  occupancy-cons source q (modify (is_actor id) (move_to target) ps),
  occupancy-modify id source target ps p,
)

abbrev pub back : Movement → Movement
back e = record e { from_zone_id = e.to_zone_id; to_zone_id = e.from_zone_id }

-- Where the zone that is left was not over its capacity, the way back is open.
pub move_undo :
    (s : GameState) (c : CombatState) (p : CombatParticipant) (z : Zone) (e : Movement)
    {t : GameState}
    → s.combat ≡ some c
    → participant c e.actor_id ≡ some p
    → zone_named c e.from_zone_id ≡ some z
    → occupancy e.from_zone_id c.participants ≤ z.capacity
    → apply_actor_moved s e ≡ ok t
    → apply_actor_moved t (back e) ≡ ok s
unfolding apply_actor_moved
move_undo s c p z e {t} sc pc zc fits h = elim (Bool-cases (e.from_zone_id == e.to_zone_id)) [
  | inl same ↦ ground (
    arith,
    same,
    find-holds (is_actor e.actor_id) c.participants p pc,
    modify_same (is_actor e.actor_id) (move_to e.to_zone_id) c.participants p pc,
    modify_same (is_actor e.actor_id) (move_to e.from_zone_id) c.participants p pc,
  )
  | inr other ↦ ground (
    arith,
    other,
    occupancy-modify e.actor_id e.from_zone_id e.to_zone_id c.participants p,
    find-holds (is_actor e.actor_id) c.participants p pc,
    find-modify (is_actor e.actor_id) (move_to e.to_zone_id) c.participants p pc,
    modify-modify (is_actor e.actor_id) (move_to e.to_zone_id) (move_to e.from_zone_id)
        c.participants p pc,
  )
]
