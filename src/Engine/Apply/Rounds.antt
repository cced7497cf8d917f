-- ===== src/Engine/Apply/Rounds.antt =====
-- The cases of `applyGameEvent` for the round and the objectives.
use lldm.Prelude.{
  ℕ, ◌+◌, Bool, true, false, ◌&&◌, ◌||◌, not, Option, none, some, map, ◌==◌, ltb, leb,
  if◌then◌else◌, find, modify, filter, any, all, includes, Result, ok, ◌>>=◌, ◌>>◌, guard,
  refuse_if, require,
}
use lldm.Contracts.Ids.{OpaqueId}
use lldm.Contracts.Characters.{PlayableCharacter, CharacterCondition, round_duration}
use lldm.Contracts.Combat.{
  CombatState, CombatParticipant, CombatRole, hero_role, enemy_role, hero, ReinforcementTrigger,
  round_2, objective_progress_2, ObjectiveState, ObjectiveStatus, objective_completed,
}
use lldm.Contracts.GameState.{GameState}
use lldm.Contracts.Events.{ObjectiveAdvance}
use lldm.Engine.Apply.Access.{character_by_actor_id, set_characters, set_combat}

abbrev trigger_ready : CombatState → Option ReinforcementTrigger → Bool
trigger_ready c none = true
trigger_ready c (some round_2) = leb 2 c.round
trigger_ready c (some objective_progress_2) = any (λ o. leb 2 o.progress) c.objectives

abbrev hero_alive : GameState → Option PlayableCharacter → Bool
hero_alive s none = false
hero_alive s (some c) = not (includes c.character_id s.permanent_deaths)

abbrev role_alive : GameState → CombatState → OpaqueId → CombatRole → Bool
role_alive s c actor (enemy_role e) =
    trigger_ready c e.reinforcement_trigger && ltb 0 e.guard_pool.current
role_alive s c actor (hero_role seat) = hero_alive s (character_by_actor_id s actor)

-- `combatParticipantAlive`, with the combat of the state at hand.
unfoldable pub combat_participant_alive : GameState → CombatState → CombatParticipant → Bool
combat_participant_alive s c p = role_alive s c p.actor_id p.role

abbrev is_progress_trigger : Option ReinforcementTrigger → Bool
is_progress_trigger (some objective_progress_2) = true
is_progress_trigger _ = false

abbrev pub waits_for_progress : CombatRole → Bool
waits_for_progress (enemy_role e) = is_progress_trigger e.reinforcement_trigger
waits_for_progress (hero_role seat) = false

abbrev pub refresh : CombatState → CombatParticipant → CombatParticipant
refresh c p = record p {
  action_available = true;
  maneuver_available = true;
  reaction_available = true;
  activation_spent = waits_for_progress p.role && all (λ o. ltb o.progress 2) c.objectives;
}

abbrev is_round_condition : CharacterCondition → Bool
is_round_condition d = elim d.duration [ round_duration ↦ true | _ ↦ false ]

abbrev pub expire_round : PlayableCharacter → PlayableCharacter
expire_round c = record c { conditions = filter (λ d. not (is_round_condition d)) c.conditions }

abbrev pub next_round : CombatState → ℕ → CombatState
next_round c round = record c {
  round = round;
  active_side = hero;
  active_actor_id = none;
  participants = map (refresh c) c.participants;
  reaction_window = none;
}

unfoldable pub apply_round_advanced : GameState → ℕ → ℕ → Result GameState
apply_round_advanced s previous current = do
  c ← require s.combat "No combat is active."
  refuse_if
      (not (c.round == previous)
        || not (current == previous + 1)
        || any (λ p. combat_participant_alive s c p && not p.activation_spent) c.participants)
      "Round cannot advance before all actors are spent."
  ok (set_characters (set_combat s (next_round c current)) (map expire_round s.party.characters))

abbrev pub is_completed : ObjectiveStatus → Bool
is_completed objective_completed = true
is_completed _ = false

abbrev pub is_objective : OpaqueId → ObjectiveState → Bool
is_objective id o = o.objective_id == id

abbrev pub set_progress : ℕ → ObjectiveStatus → ObjectiveState → ObjectiveState
set_progress n status o = record o { progress = n; status = status }

abbrev pub enter_reinforcement : CombatParticipant → CombatParticipant
enter_reinforcement p =
    if waits_for_progress p.role then record p { activation_spent = false } else p

abbrev pub call_reinforcements : ℕ → CombatState → CombatState
call_reinforcements progress c =
    if leb 2 progress then record c { participants = map enter_reinforcement c.participants } else c

abbrev same_test : Bool → Bool → Bool
same_test true b = b
same_test false b = not b

unfoldable pub apply_objective_advanced : GameState → ObjectiveAdvance → Result GameState
apply_objective_advanced s e = do
  c ← require s.combat "Combat objective was not found."
  o ← require (find (is_objective e.objective_id) c.objectives) "Combat objective was not found."
  guard
      (o.progress == e.previous
        && leb e.previous e.current
        && leb e.current o.threshold
        && same_test (is_completed e.status) (e.current == o.threshold))
      "Objective advancement facts are invalid."
  let advanced : CombatState = record c {
    objectives =
        modify (is_objective e.objective_id) (set_progress e.current e.status) c.objectives;
  }
  ok (set_combat s (call_reinforcements e.current advanced))
