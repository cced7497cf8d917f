-- ===== src/Engine/Apply/Kept.antt =====
-- The fields of the state that tell a campaign and its past, under every case of `applyGameEvent`.
use lldm.Prelude.{
  ℕ, ◌≤◌, ◌≡◌, arith, true, ok, some, List, [], ◌∷◌, ◌++◌, includes, Option-cases, inl, inr,
}
use lldm.Contracts.Ids.{OpaqueId}
use lldm.Contracts.Characters.{PlayableCharacter}
use lldm.Engine.Apply.Access.{character_by_id, update_character}
use lldm.Contracts.GameState.{GameState, SchemaChecks}
use lldm.Contracts.Events.{
  SceneReset, EventBody, command_accepted, command_rejected, simulated_check_resolved,
  physical_check_resolved, physical_roll_requested, physical_roll_cancelled, spark_spent,
  spark_restored_by_compensation, character_materialized, significant_gear_spent, resource_changed,
  spark_recovered, costly_rest_completed, scene_resources_reset, rank_advanced, scene_ability_used,
  condition_applied, condition_removed, combat_started, activation_started, action_slot_spent,
  action_slot_restored, actor_moved, enemy_action_selected, combat_action_pending,
  death_test_pending, impact_applied, wound_marked, reaction_window_opened, reaction_window_closed,
  reaction_restored, round_advanced, boss_overlay_activated, objective_advanced,
  death_test_aid_applied, hero_stabilized, permanent_scar_gained, character_died, combat_resolved,
  challenge_started, challenge_check_pending, challenge_tracks_changed, challenge_resolved,
  social_state_established, social_check_pending, social_stance_changed, leverage_created,
  leverage_spent, ritual_started, ritual_check_pending, ritual_contribution, ritual_ready,
  ritual_resolved, ritual_interrupted, transaction_compensated,
}
use lldm.Engine.Apply.Checks.{
  apply_check_resolved, apply_roll_requested, apply_roll_cancelled, apply_spark_spent,
  apply_spark_restored, apply_combat_action_pending, apply_death_test_pending, apply_death_test_aid,
}
use lldm.Engine.Apply.Characters.{
  apply_materialized, apply_gear_spent, apply_resource_changed, apply_spark_recovered,
  apply_costly_rest, apply_scene_reset, for_characters, rest, reset_scene, is_session_start,
}
use lldm.Engine.Apply.Features.{
  apply_rank_advanced, apply_ability_used, apply_condition_applied, apply_condition_removed,
}
use lldm.Engine.Apply.Combat.{
  apply_combat_started, apply_activation_started, apply_slot_spent, apply_slot_restored,
  apply_actor_moved, apply_reaction_opened, apply_reaction_closed, apply_reaction_restored,
  apply_combat_resolved,
}
use lldm.Engine.Apply.Harm.{
  apply_impact, apply_wound_marked, apply_boss_overlay, apply_stabilized, apply_scar, apply_died,
}
use lldm.Engine.Apply.Rounds.{apply_round_advanced, apply_objective_advanced}
use lldm.Engine.Apply.Challenges.{
  apply_challenge_started, apply_challenge_pending, apply_tracks_changed, apply_challenge_resolved,
}
use lldm.Engine.Apply.Social.{
  apply_social_established, apply_social_pending, apply_stance_changed, apply_leverage_created,
  apply_leverage_spent,
}
use lldm.Engine.Apply.Rituals.{
  apply_ritual_started, apply_ritual_pending, apply_ritual_contribution, apply_ritual_ready,
  apply_ritual_resolved, apply_ritual_interrupted,
}
use lldm.Engine.Apply.Reducer.{apply_body}

-- What stays of a state: its campaign, its content, and a session number that never goes back.
abbrev pub Kept : GameState → GameState → Type 0
Kept s t =
    (t.campaign_id ≡ s.campaign_id)
    × (t.content_manifest_hash ≡ s.content_manifest_hash)
    × (s.session_number ≤ t.session_number)

-- Whoever is dead stays dead.
abbrev pub Remembers : OpaqueId → GameState → GameState → Type 0
Remembers id s t = includes id s.permanent_deaths ≡ true → includes id t.permanent_deaths ≡ true

module _ (f : PlayableCharacter → PlayableCharacter) where
  for_characters-keeps :
      (ids : List OpaqueId) (s t : GameState)
      → for_characters f ids s ≡ some t
      → (t.campaign_id ≡ s.campaign_id)
        × (t.content_manifest_hash ≡ s.content_manifest_hash)
        × (t.session_number ≡ s.session_number)
        × (t.permanent_deaths ≡ s.permanent_deaths)
  unfolding for_characters
  for_characters-keeps [] s t h = ground arith
  for_characters-keeps (id ∷ ids) s t h = elim (Option-cases (character_by_id s id)) [
    | inl e ↦ absurd (ground (arith, e))
    | inr (c, e) ↦ for_characters-keeps ids (update_character s id f) t (ground (arith, e))
  ]

-- What the two handlers that loop over characters leave alone.
costly_rest-keeps :
    (s : GameState) (ids : List OpaqueId) (spent : ℕ) (t : GameState)
    → apply_costly_rest s ids spent ≡ ok t
    → Kept s t × (t.permanent_deaths ≡ s.permanent_deaths)
unfolding apply_costly_rest
costly_rest-keeps s ids spent t h = elim (Option-cases (for_characters rest ids s)) [
  | inl e ↦ absurd (ground (arith, e))
  | inr (r, e) ↦ ground (arith, e, for_characters-keeps rest ids s r e)
]

scene_reset-keeps :
    (s : GameState) (e : SceneReset) (t : GameState)
    → apply_scene_reset s e ≡ ok t
    → Kept s t × (t.permanent_deaths ≡ s.permanent_deaths)
unfolding apply_scene_reset
scene_reset-keeps s e t h =
    let moved : GameState = record s { scene_id = some e.next_scene_id } in
    let reset = reset_scene (is_session_start e.boundary) in
    elim (Option-cases (for_characters reset e.reset_character_ids moved)) [
      | inl q ↦ absurd (ground (arith, q))
      | inr (r, q) ↦ ground (arith, q, for_characters-keeps reset e.reset_character_ids moved r q)
    ]

includes-append_left :
    (a : OpaqueId) (xs ys : List OpaqueId) → includes a xs ≡ true → includes a (xs ++ ys) ≡ true
includes-append_left a [] ys h = ground arith
includes-append_left a (x ∷ xs) ys h = ground (arith, includes-append_left a xs ys)

-- Every event kind keeps them.
pub apply_body-Kept :
    (schema : SchemaChecks) (s : GameState) (e : EventBody) {t : GameState}
    → apply_body schema s e ≡ ok t
    → Kept s t
unfolding apply_body apply_check_resolved apply_roll_requested apply_roll_cancelled
    apply_spark_spent apply_spark_restored apply_materialized apply_gear_spent
    apply_resource_changed apply_spark_recovered apply_rank_advanced apply_ability_used
    apply_condition_applied apply_condition_removed apply_combat_started apply_activation_started
    apply_slot_spent apply_slot_restored apply_actor_moved apply_combat_action_pending
    apply_death_test_pending apply_impact apply_wound_marked apply_reaction_opened
    apply_reaction_closed apply_reaction_restored apply_round_advanced apply_boss_overlay
    apply_objective_advanced apply_death_test_aid apply_stabilized apply_scar apply_died
    apply_combat_resolved apply_challenge_started apply_challenge_pending apply_tracks_changed
    apply_challenge_resolved apply_social_established apply_social_pending apply_stance_changed
    apply_leverage_created apply_leverage_spent apply_ritual_started apply_ritual_pending
    apply_ritual_contribution apply_ritual_ready apply_ritual_resolved apply_ritual_interrupted
apply_body-Kept schema s (command_accepted kind hash) h = ground arith
apply_body-Kept schema s (command_rejected kind hash code detail) h = ground arith
apply_body-Kept schema s (enemy_action_selected combat candidate) h = ground arith
apply_body-Kept schema s (transaction_compensated target) h = ground arith
apply_body-Kept schema s (simulated_check_resolved result) h = ground arith
apply_body-Kept schema s (physical_check_resolved id submission result) h = ground arith
apply_body-Kept schema s (physical_roll_requested id nonce d) h = ground arith
apply_body-Kept schema s (physical_roll_cancelled id) h = ground arith
apply_body-Kept schema s (spark_spent actor) h = ground arith
apply_body-Kept schema s (spark_restored_by_compensation actor) h = ground arith
apply_body-Kept schema s (character_materialized c) h = ground arith
apply_body-Kept schema s (significant_gear_spent e) h = ground arith
apply_body-Kept schema s (resource_changed e) h = ground arith
apply_body-Kept schema s (spark_recovered id) h = ground arith
apply_body-Kept schema s (costly_rest_completed ids spent) {t} h =
    (costly_rest-keeps s ids spent t h).0
apply_body-Kept schema s (scene_resources_reset e) {t} h = (scene_reset-keeps s e t h).0
apply_body-Kept schema s (rank_advanced e) h = ground arith
apply_body-Kept schema s (scene_ability_used id ability) h = ground arith
apply_body-Kept schema s (condition_applied id d) h = ground arith
apply_body-Kept schema s (condition_removed id d) h = ground arith
apply_body-Kept schema s (combat_started c) h = ground arith
apply_body-Kept schema s (activation_started c actor side) h = ground arith
apply_body-Kept schema s (action_slot_spent e) h = ground arith
apply_body-Kept schema s (action_slot_restored e) h = ground arith
apply_body-Kept schema s (actor_moved e) h = ground arith
apply_body-Kept schema s (combat_action_pending combat id candidate impact) h = ground arith
apply_body-Kept schema s (death_test_pending combat id character) h = ground arith
apply_body-Kept schema s (impact_applied e) h = ground arith
apply_body-Kept schema s (wound_marked combat id wounds) h = ground arith
apply_body-Kept schema s (reaction_window_opened combat window) h = ground arith
apply_body-Kept schema s (reaction_window_closed combat window actor) h = ground arith
apply_body-Kept schema s (reaction_restored combat actor) h = ground arith
apply_body-Kept schema s (round_advanced combat previous current) h = ground arith
apply_body-Kept schema s (boss_overlay_activated combat overlay before after) h = ground arith
apply_body-Kept schema s (objective_advanced combat e) h = ground arith
apply_body-Kept schema s (death_test_aid_applied combat id aide resource d) h = ground arith
apply_body-Kept schema s (hero_stabilized combat id wounds) h = ground arith
apply_body-Kept schema s (permanent_scar_gained combat character scar name) h = ground arith
apply_body-Kept schema s (character_died combat character) h = ground arith
apply_body-Kept schema s (combat_resolved combat) h = ground arith
apply_body-Kept schema s (challenge_started c) h = ground arith
apply_body-Kept schema s (challenge_check_pending challenge id) h = ground arith
apply_body-Kept schema s (challenge_tracks_changed e) h = ground arith
apply_body-Kept schema s (challenge_resolved id outcome) h = ground arith
apply_body-Kept schema s (social_state_established c) h = ground arith
apply_body-Kept schema s (social_check_pending e) h = ground arith
apply_body-Kept schema s (social_stance_changed e) h = ground arith
apply_body-Kept schema s (leverage_created npc l) h = ground arith
apply_body-Kept schema s (leverage_spent npc id) h = ground arith
apply_body-Kept schema s (ritual_started r) h = ground arith
apply_body-Kept schema s (ritual_check_pending ritual id) h = ground arith
apply_body-Kept schema s (ritual_contribution ritual character index) h = ground arith
apply_body-Kept schema s (ritual_ready id) h = ground arith
apply_body-Kept schema s (ritual_resolved id result outcome) h = ground arith
apply_body-Kept schema s (ritual_interrupted id) h = ground arith

-- No event brings a character back.
pub apply_body-Remembers :
    (schema : SchemaChecks) (s : GameState) (e : EventBody) (id : OpaqueId) {t : GameState}
    → apply_body schema s e ≡ ok t
    → Remembers id s t
unfolding apply_body apply_check_resolved apply_roll_requested apply_roll_cancelled
    apply_spark_spent apply_spark_restored apply_materialized apply_gear_spent
    apply_resource_changed apply_spark_recovered apply_rank_advanced apply_ability_used
    apply_condition_applied apply_condition_removed apply_combat_started apply_activation_started
    apply_slot_spent apply_slot_restored apply_actor_moved apply_combat_action_pending
    apply_death_test_pending apply_impact apply_wound_marked apply_reaction_opened
    apply_reaction_closed apply_reaction_restored apply_round_advanced apply_boss_overlay
    apply_objective_advanced apply_death_test_aid apply_stabilized apply_scar apply_died
    apply_combat_resolved apply_challenge_started apply_challenge_pending apply_tracks_changed
    apply_challenge_resolved apply_social_established apply_social_pending apply_stance_changed
    apply_leverage_created apply_leverage_spent apply_ritual_started apply_ritual_pending
    apply_ritual_contribution apply_ritual_ready apply_ritual_resolved apply_ritual_interrupted
apply_body-Remembers schema s (command_accepted kind hash) x h dead = ground arith
apply_body-Remembers schema s (command_rejected kind hash code detail) x h dead = ground arith
apply_body-Remembers schema s (enemy_action_selected combat candidate) x h dead = ground arith
apply_body-Remembers schema s (transaction_compensated target) x h dead = ground arith
apply_body-Remembers schema s (simulated_check_resolved result) x h dead = ground arith
apply_body-Remembers schema s (physical_check_resolved id submission result) x h dead = ground arith
apply_body-Remembers schema s (physical_roll_requested id nonce d) x h dead = ground arith
apply_body-Remembers schema s (physical_roll_cancelled id) x h dead = ground arith
apply_body-Remembers schema s (spark_spent actor) x h dead = ground arith
apply_body-Remembers schema s (spark_restored_by_compensation actor) x h dead = ground arith
apply_body-Remembers schema s (character_materialized c) x h dead = ground arith
apply_body-Remembers schema s (significant_gear_spent e) x h dead = ground arith
apply_body-Remembers schema s (resource_changed e) x h dead = ground arith
apply_body-Remembers schema s (spark_recovered id) x h dead = ground arith
apply_body-Remembers schema s (costly_rest_completed ids spent) x {t} h dead =
    ground (arith, costly_rest-keeps s ids spent t h)
apply_body-Remembers schema s (scene_resources_reset e) x {t} h dead =
    ground (arith, scene_reset-keeps s e t h)
apply_body-Remembers schema s (rank_advanced e) x h dead = ground arith
apply_body-Remembers schema s (scene_ability_used id ability) x h dead = ground arith
apply_body-Remembers schema s (condition_applied id d) x h dead = ground arith
apply_body-Remembers schema s (condition_removed id d) x h dead = ground arith
apply_body-Remembers schema s (combat_started c) x h dead = ground arith
apply_body-Remembers schema s (activation_started c actor side) x h dead = ground arith
apply_body-Remembers schema s (action_slot_spent e) x h dead = ground arith
apply_body-Remembers schema s (action_slot_restored e) x h dead = ground arith
apply_body-Remembers schema s (actor_moved e) x h dead = ground arith
apply_body-Remembers schema s (combat_action_pending combat id candidate impact) x h dead =
    ground arith
apply_body-Remembers schema s (death_test_pending combat id character) x h dead = ground arith
apply_body-Remembers schema s (impact_applied e) x h dead = ground arith
apply_body-Remembers schema s (wound_marked combat id wounds) x h dead = ground arith
apply_body-Remembers schema s (reaction_window_opened combat window) x h dead = ground arith
apply_body-Remembers schema s (reaction_window_closed combat window actor) x h dead = ground arith
apply_body-Remembers schema s (reaction_restored combat actor) x h dead = ground arith
apply_body-Remembers schema s (round_advanced combat previous current) x h dead = ground arith
apply_body-Remembers schema s (boss_overlay_activated combat overlay before after) x h dead =
    ground arith
apply_body-Remembers schema s (objective_advanced combat e) x h dead = ground arith
apply_body-Remembers schema s (death_test_aid_applied combat id aide resource d) x h dead =
    ground arith
apply_body-Remembers schema s (hero_stabilized combat id wounds) x h dead = ground arith
apply_body-Remembers schema s (permanent_scar_gained combat character scar name) x h dead =
    ground arith
apply_body-Remembers schema s (character_died combat character) x h dead =
    ground (arith, includes-append_left x s.permanent_deaths (character ∷ []))
apply_body-Remembers schema s (combat_resolved combat) x h dead = ground arith
apply_body-Remembers schema s (challenge_started c) x h dead = ground arith
apply_body-Remembers schema s (challenge_check_pending challenge id) x h dead = ground arith
apply_body-Remembers schema s (challenge_tracks_changed e) x h dead = ground arith
apply_body-Remembers schema s (challenge_resolved id outcome) x h dead = ground arith
apply_body-Remembers schema s (social_state_established c) x h dead = ground arith
apply_body-Remembers schema s (social_check_pending e) x h dead = ground arith
apply_body-Remembers schema s (social_stance_changed e) x h dead = ground arith
apply_body-Remembers schema s (leverage_created npc l) x h dead = ground arith
apply_body-Remembers schema s (leverage_spent npc id) x h dead = ground arith
apply_body-Remembers schema s (ritual_started r) x h dead = ground arith
apply_body-Remembers schema s (ritual_check_pending ritual id) x h dead = ground arith
apply_body-Remembers schema s (ritual_contribution ritual character index) x h dead = ground arith
apply_body-Remembers schema s (ritual_ready id) x h dead = ground arith
apply_body-Remembers schema s (ritual_resolved id result outcome) x h dead = ground arith
apply_body-Remembers schema s (ritual_interrupted id) x h dead = ground arith
