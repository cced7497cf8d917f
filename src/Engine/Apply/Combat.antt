-- ===== src/Engine/Apply/Combat.antt =====
-- The cases of `applyGameEvent` for the flow of a fight: its start, activations, slots, movement and
-- reactions.
use lldm.Prelude.{
  ℕ, Bool, true, false, ◌&&◌, ◌||◌, not, Option, none, some, ◌==◌, leb, if◌then◌else◌, find,
  same_id, is_some, Result, ok, ◌>>=◌, ◌>>◌, guard, refuse_if, require,
}
use lldm.Contracts.Ids.{OpaqueId}
use lldm.Contracts.Combat.{
  CombatState, combat_over, CombatParticipant, CombatSide, hero, enemy, side_of, ActionSlot, action,
  maneuver, reaction, Zone, ReactionWindow,
}
use lldm.Contracts.Combat.Validity.{same_side, occupancy}
use lldm.Contracts.GameState.{GameState}
use lldm.Contracts.Events.{SlotUse, Movement}
use lldm.Engine.Apply.Access.{set_combat, combat_named, participant, update_participant}

unfoldable pub apply_combat_started : GameState → CombatState → Result GameState
apply_combat_started s combat = do
  refuse_if (is_some s.combat) "A combat is already present."
  ok (set_combat s combat)

unfoldable pub apply_activation_started :
    GameState → OpaqueId → OpaqueId → CombatSide → Result GameState
apply_activation_started s combat_id actor side = do
  c ← require (combat_named s.combat combat_id) "No combat is active."
  refuse_if (is_some c.active_actor_id) "Another actor is already active."
  p ← require (participant c actor) "Activation actor is unavailable."
  refuse_if (not (same_side (side_of p) side) || p.activation_spent)
      "Activation actor is unavailable."
  ok (set_combat s (record c { active_side = side; active_actor_id = some actor }))

abbrev pub slot_available : ActionSlot → CombatParticipant → Bool
slot_available action p = p.action_available
slot_available maneuver p = p.maneuver_available
slot_available reaction p = p.reaction_available

abbrev pub is_reaction : ActionSlot → Bool
is_reaction reaction = true
is_reaction _ = false

abbrev pub set_slot : ActionSlot → Bool → CombatParticipant → CombatParticipant
set_slot action b p = record p { action_available = b }
set_slot maneuver b p = record p { maneuver_available = b }
set_slot reaction b p = record p { reaction_available = b }

abbrev derive_spent : CombatParticipant → CombatParticipant
derive_spent p = record p { activation_spent = not p.action_available && not p.maneuver_available }

abbrev pub spend_slot : ActionSlot → CombatParticipant → CombatParticipant
spend_slot slot p = derive_spent (set_slot slot false p)

abbrev pub other_side : CombatSide → CombatSide
other_side hero = enemy
other_side enemy = hero

-- The turn passes where this slot was the last of the activation.
abbrev pub pass_turn : Bool → CombatParticipant → CombatState → CombatState
pass_turn ends p c =
    if ends then record c { active_actor_id = none; active_side = other_side (side_of p) } else c

unfoldable pub apply_slot_spent : GameState → SlotUse → Result GameState
apply_slot_spent s e = do
  c ← require (combat_named s.combat e.combat_id) "Combat slot event names another combat."
  p ← require (participant c e.actor_id) "Combat participant was not found."
  guard (slot_available e.slot p) "Combat slot is already spent."
  guard (is_reaction e.slot || same_id c.active_actor_id p.actor_id)
      "Only the active actor may spend activation slots."
  let ends =
      not (is_reaction e.slot) && (not p.activation_spent && (spend_slot e.slot p).activation_spent)
  ok (set_combat s (pass_turn ends p (update_participant c e.actor_id (spend_slot e.slot))))

abbrev pub restore_slot : ActionSlot → CombatParticipant → CombatParticipant
restore_slot slot p = record (set_slot slot true p) { activation_spent = false }

unfoldable pub apply_slot_restored : GameState → SlotUse → Result GameState
apply_slot_restored s e = do
  c ← require (combat_named s.combat e.combat_id) "Combat slot owner is unavailable."
  p ← require (participant c e.actor_id) "Combat slot owner is unavailable."
  let restored = update_participant c e.actor_id (restore_slot e.slot)
  ok (set_combat s (record restored { active_actor_id = some p.actor_id; active_side = side_of p }))

abbrev pub has_room : ℕ → Option Zone → Bool
has_room count none = false
has_room count (some z) = not (leb z.capacity count)

abbrev pub move_to : OpaqueId → CombatParticipant → CombatParticipant
move_to zone p = record p { zone_id = zone }

abbrev pub zone_named : CombatState → OpaqueId → Option Zone
zone_named c id = find (λ z. z.zone_id == id) c.battlefield

unfoldable pub apply_actor_moved : GameState → Movement → Result GameState
apply_actor_moved s e = do
  c ← require (combat_named s.combat e.combat_id) "Movement event names another combat."
  p ← require (participant c e.actor_id) "Moving participant was not found."
  guard
      (p.zone_id == e.from_zone_id
        && has_room (occupancy e.to_zone_id c.participants) (zone_named c e.to_zone_id))
      "Recorded movement facts are invalid."
  ok (set_combat s (update_participant c e.actor_id (move_to e.to_zone_id)))

-- Another window than the event's is open.
abbrev other_window : Option ReactionWindow → OpaqueId → Bool
other_window none id = false
other_window (some w) id = not (w.reaction_window_id == id)

unfoldable pub apply_reaction_opened : GameState → ReactionWindow → Result GameState
apply_reaction_opened s window = do
  c ← require s.combat "No combat is active."
  refuse_if (other_window c.reaction_window window.reaction_window_id)
      "A different reaction window is already open."
  ok (set_combat s (record c { reaction_window = some window }))

unfoldable pub apply_reaction_closed : GameState → Result GameState
apply_reaction_closed s = do
  c ← require s.combat "No combat is active."
  ok (set_combat s (record c { reaction_window = none }))

unfoldable pub apply_reaction_restored : GameState → OpaqueId → Result GameState
apply_reaction_restored s actor = do
  c ← require s.combat "Reaction cannot be restored."
  p ← require (participant c actor) "Reaction cannot be restored."
  refuse_if p.reaction_available "Reaction cannot be restored."
  ok (set_combat s (update_participant c actor (set_slot reaction true)))

unfoldable pub apply_combat_resolved : GameState → Result GameState
apply_combat_resolved s = do
  c ← require s.combat "No combat is active."
  ok (set_combat s (record c { status = combat_over }))
