-- ===== src/Engine/Compensation/Plan.antt =====
-- The inverse of one event in a valid state, for every kind of event.
use lldm.Prelude.{
  ◌≡◌, refl, sym, ◌∙◌, ◌≤◌, find-holds, arith, true, false, Option, none, some, List, [], ◌∷◌, ◌++◌,
  inl, inr, ok, Option-cases, append-eq_nil,
}
use mathlib.Core.Path.{subst}
use lldm.Contracts.Ids.{OpaqueId}
use lldm.Contracts.Validation.{ValidationIssue, success, conclude-eq-success}
use lldm.Contracts.Combat.{CombatState, CombatParticipant, Zone}
use lldm.Contracts.Combat.Validity.{occupancy}
use lldm.Contracts.Combat.Battlefield.Search.{zone_graph_issues-find}
use lldm.Contracts.Combat.Facts.{
  HasNoIssues, combat_issues-eq_nil, active_facts, zone_facts, find-any,
}
use lldm.Contracts.GameState.{
  GameState, SchemaChecks, validate_game_state, game_state_issues, behind, validate_combat,
}
use lldm.Contracts.Events.{
  EventBody, SlotUse, Movement, command_accepted, command_rejected, simulated_check_resolved,
  physical_roll_requested, spark_spent, resource_changed, condition_applied, action_slot_spent,
  actor_moved, enemy_action_selected, combat_action_pending, death_test_pending,
  challenge_check_pending, social_check_pending, social_stance_changed, leverage_created,
  ritual_check_pending, transaction_compensated,
}
use lldm.Engine.Apply.Access.{combat_named, participant, is_actor}
use lldm.Engine.Apply.Checks.{is_death_reason}
use lldm.Engine.Apply.Combat.{
  apply_slot_spent, apply_slot_restored, apply_actor_moved, is_reaction, zone_named,
}
use lldm.Engine.Apply.Reducer.{apply_body}
use lldm.Engine.Compensation.{classify_event_for_undo, inverse_event, non_state_changing}
use lldm.Engine.Compensation.Events.{
  spark_undo, resource_undo, condition_undo, leverage_undo, stance_undo,
}
use lldm.Engine.Compensation.Fights.{Unclaimed, roll_undo, slot_undo, move_undo, back}

-- What an event of a transaction has to be so that its inverse takes it back exactly: a slot that is
-- spent is not a reaction; a check that is requested is not yet what the combat waits for, and one on
-- a permanent death finds the combat active and without a death check; no check gets a continuation.
abbrev pub Restorable : GameState → EventBody → Type 0
Restorable s (action_slot_spent e) = is_reaction e.slot ≡ false
Restorable s (physical_roll_requested id nonce d) = Unclaimed id (is_death_reason d.reason) s.combat
Restorable s (combat_action_pending combat id candidate impact) = true ≡ false
Restorable s (death_test_pending combat id character) = true ≡ false
Restorable s (challenge_check_pending challenge id) = true ≡ false
Restorable s (social_check_pending e) = true ≡ false
Restorable s (ritual_check_pending ritual id) = true ≡ false
Restorable s _ = Unit

behind-eq_nil :
    (first second : List ValidationIssue) → behind first second ≡ [] → (first ≡ []) × (second ≡ [])
behind-eq_nil [] second h = (refl, h)
behind-eq_nil (i ∷ is) second h = ground arith

front : {xs : List ValidationIssue} (ys : List ValidationIssue) → xs ++ ys ≡ [] → xs ≡ []
front {xs} ys h = (append-eq_nil xs ys h).0

combat_valid :
    (schema : SchemaChecks) (s : GameState)
    → game_state_issues schema s ≡ []
    → validate_combat schema s.combat ≡ []
unfolding game_state_issues
combat_valid schema s h =
    let through_rituals =
      front _ (front _ (front _ (front _ (front _ (front _ (front _ (front _ (front _ h)))))))) in
    (append-eq_nil _ _ (front _ (front _ (front _ through_rituals)))).1

Valid-combat :
    (schema : SchemaChecks) (s : GameState) (c : CombatState)
    → validate_game_state schema s ≡ success s
    → s.combat ≡ some c
    → HasNoIssues c
unfolding validate_game_state
Valid-combat schema s c v e =
    let (none_left, _) = conclude-eq-success s _ v in
    let (_, semantic) = behind-eq_nil (schema.game_state s) _ none_left in
    let there : validate_combat schema (some c) ≡ [] =
      subst (λ o. validate_combat schema o ≡ []) e (combat_valid schema s semantic) in
    combat_issues-eq_nil c (behind-eq_nil (schema.combat_state c) _ there).1

combat_named-some :
    (o : Option CombatState) (id : OpaqueId) (c : CombatState)
    → combat_named o id ≡ some c
    → o ≡ some c
combat_named-some none id c h = ground arith
combat_named-some (some d) id c h = ground arith

-- What a spent slot that is no reaction was spent by: the active actor.
slot_spent-facts :
    (s : GameState) (e : SlotUse) (t : GameState)
    → is_reaction e.slot ≡ false
    → apply_slot_spent s e ≡ ok t
    → (c : CombatState) × (p : CombatParticipant) × (s.combat ≡ some c)
      × (participant c e.actor_id ≡ some p)
      × (c.active_actor_id ≡ some e.actor_id)
unfolding apply_slot_spent
slot_spent-facts s e t r h = elim (Option-cases (combat_named s.combat e.combat_id)) [
  | inl q ↦ absurd (ground (arith, q))
  | inr (c, q) ↦ elim (Option-cases (participant c e.actor_id)) [
    | inl n ↦ absurd (ground (arith, q, n))
    | inr (p, m) ↦ (
      c,
      p,
      combat_named-some s.combat e.combat_id c q,
      m,
      ground (arith, q, m, find-holds (is_actor e.actor_id) c.participants p m),
    )
  ]
]

slot_step :
    (schema : SchemaChecks) (s : GameState) (e : SlotUse) {t : GameState}
    → validate_game_state schema s ≡ success s
    → is_reaction e.slot ≡ false
    → apply_slot_spent s e ≡ ok t
    → apply_slot_restored t e ≡ ok s
slot_step schema s e {t} v r h =
    let (c, p, there, who, active) = slot_spent-facts s e t r h in
    let (side, unspent) =
      active_facts c e.actor_id p (Valid-combat schema s c v there) active who in
    slot_undo s c p e there who r unspent (sym side) h

-- What a movement was made in: the zone that is left is not over its capacity.
moved-facts :
    (schema : SchemaChecks) (s : GameState) (e : Movement) (t : GameState)
    → validate_game_state schema s ≡ success s
    → apply_actor_moved s e ≡ ok t
    → (c : CombatState) × (p : CombatParticipant) × (z : Zone) × (s.combat ≡ some c)
      × (participant c e.actor_id ≡ some p)
      × (zone_named c e.from_zone_id ≡ some z)
      × (occupancy e.from_zone_id c.participants ≤ z.capacity)
unfolding apply_actor_moved
moved-facts schema s e t v h = elim (Option-cases (combat_named s.combat e.combat_id)) [
  | inl q ↦ absurd (ground (arith, q))
  | inr (c, q) ↦ elim (Option-cases (participant c e.actor_id)) [
    | inl n ↦ absurd (ground (arith, q, n))
    | inr (p, m) ↦
        let there = combat_named-some s.combat e.combat_id c q in
        let sound = Valid-combat schema s c v there in
        let (z, known, fits) =
          zone_facts c e.from_zone_id sound
            (find-any e.actor_id e.from_zone_id c.participants p m (ground (arith, q, m))) in
        (
          c,
          p,
          z,
          there,
          m,
          zone_graph_issues-find c.battlefield e.from_zone_id sound.battlefield_sound ∙ known,
          fits,
        )
  ]
]

move_step :
    (schema : SchemaChecks) (s : GameState) (e : Movement) {t : GameState}
    → validate_game_state schema s ≡ success s
    → apply_actor_moved s e ≡ ok t
    → apply_actor_moved t (back e) ≡ ok s
move_step schema s e {t} v h =
    let (c, p, z, there, who, zone, fits) = moved-facts schema s e t v h in
    move_undo s c p z e there who zone fits h

abbrev Leads : SchemaChecks → GameState → GameState → Option EventBody → Type 0
Leads schema t s none = Unit
Leads schema t s (some i) = apply_body schema t i ≡ ok s

inverse_event-Leads :
    (schema : SchemaChecks) (s : GameState) (e : EventBody) {t : GameState}
    → validate_game_state schema s ≡ success s
    → Restorable s e
    → apply_body schema s e ≡ ok t
    → Leads schema t s (inverse_event e)
unfolding apply_body inverse_event
inverse_event-Leads schema s (resource_changed e) v r h = resource_undo s e h
inverse_event-Leads schema s (actor_moved e) v r h = move_step schema s e v h
inverse_event-Leads schema s (social_stance_changed e) v r h = stance_undo s e h
inverse_event-Leads schema s (leverage_created npc l) v r h = leverage_undo s npc l h
inverse_event-Leads schema s (condition_applied id d) v r h = condition_undo s id d h
inverse_event-Leads schema s (physical_roll_requested id nonce d) v r h = roll_undo s id nonce d r h
inverse_event-Leads schema s (spark_spent actor) v r h = spark_undo s actor h
inverse_event-Leads schema s (action_slot_spent e) v r h = slot_step schema s e v r h
inverse_event-Leads schema s _ v r h = tt

-- The inverse of an event, applied to the state that the event led to, leads back.
pub inverse_event-undoes :
    (schema : SchemaChecks) (s : GameState) (e i : EventBody) {t : GameState}
    → validate_game_state schema s ≡ success s
    → Restorable s e
    → apply_body schema s e ≡ ok t
    → inverse_event e ≡ some i
    → apply_body schema t i ≡ ok s
inverse_event-undoes schema s e i {t} v r h q =
    subst (Leads schema t s) q (inverse_event-Leads schema s e v r h)

-- An event that the classification takes to change nothing changes nothing.
pub non_state_changing-keeps :
    (schema : SchemaChecks) (s : GameState) (e : EventBody) {t : GameState}
    → Restorable s e
    → apply_body schema s e ≡ ok t
    → classify_event_for_undo e ≡ non_state_changing
    → t ≡ s
unfolding apply_body classify_event_for_undo
non_state_changing-keeps schema s (command_accepted kind hash) r h q = ground arith
non_state_changing-keeps schema s (command_rejected kind hash code detail) r h q = ground arith
non_state_changing-keeps schema s (enemy_action_selected combat candidate) r h q = ground arith
non_state_changing-keeps schema s (transaction_compensated target) r h q = ground arith
non_state_changing-keeps schema s (simulated_check_resolved result) r h q = ground arith
non_state_changing-keeps schema s _ r h q = absurd cc
