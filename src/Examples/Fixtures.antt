-- ===== src/Examples/Fixtures.antt =====
-- A check request, a hero, a fight between a hero and a squad, and the campaign around them.
use lldm.Prelude.{ℕ, Bool, true, false, Option, none, some, List, [], ◌∷◌}
use lldm.Contracts.Ids.{OpaqueId, ContentReference}
use lldm.Contracts.Checks.{
  CheckRequest, target_13, rating_1, rating_2, visible_to_all, OutcomeConsequences, simulated,
  PhysicalRollReason, mandatory, pivotal_scene_conclusion, PhysicalRollDisclosure, ResolvedCheck,
}
use lldm.Contracts.Characters.{PlayableCharacter, WoundSlots, empty_wound, filled_wound}
use lldm.Contracts.Combat.{
  CombatState, CombatParticipant, Zone, no_cover, level, open_view, hero, hero_role, enemy_role,
  squad, combat_active, ObjectiveState, objective_active,
}
use lldm.Contracts.Challenges.{ChallengeState, progress_wins, challenge_active}
use lldm.Contracts.GameState.{GameState, SchemaChecks}
use lldm.Contracts.Events.{EventBody, GameEvent}
use lldm.Engine.PhysicalRolls.{disclosure_for}
use lldm.Engine.Resolution.{resolve_possible}

abbrev pub consequences : OutcomeConsequences
consequences = record {
  on_crisis = "The bridge falls.";
  on_setback = "The bridge shakes.";
  on_success = "You cross.";
  on_triumph = "Everyone crosses.";
}

abbrev pub request : CheckRequest
request = record {
  actor_id = 1;
  attribute = "body";
  attribute_rating = rating_2;
  discipline = "athletics";
  discipline_rating = rating_1;
  target = target_13;
  modifier_state = record { edge = false; hindrance = true };
  visibility = visible_to_all;
  stakes = "The bridge";
  outcome_bands = consequences;
  spark_eligible = true;
  eligible_roller = some 7;
}

abbrev pub pivotal : PhysicalRollReason
pivotal = mandatory pivotal_scene_conclusion

abbrev pub disclosure : PhysicalRollDisclosure
disclosure = disclosure_for request pivotal 7

abbrev pub no_checks : SchemaChecks
no_checks = record {
  game_state = λ s. [];
  playable_character = λ c. [];
  combat_state = λ c. [];
  challenge = λ c. [];
  social_state = λ s. [];
  ritual = λ r. [];
}

abbrev pub reference : ContentReference
reference = record { content_definition_id = 500; definition_revision = 1 }

abbrev pub one_wound : WoundSlots
one_wound = record { slot_1 = filled_wound 90 "Cut"; slot_2 = empty_wound; slot_3 = empty_wound }

abbrev pub two_wounds : WoundSlots
two_wounds = record {
  slot_1 = filled_wound 90 "Cut";
  slot_2 = filled_wound 91 "Burn";
  slot_3 = empty_wound;
}

abbrev pub aria : PlayableCharacter
aria = record {
  character_id = 11;
  foundation = record { character_id = 11; actor_id = 1; significant_gear = [] };
  rank = 1;
  resolved_options = record {
    heritage_gift = reference;
    upbringing = reference;
    archetype = reference;
    path = none;
    talent = none;
    capstone = none;
    signature_technique = reference;
  };
  resources = record {
    guard_pool = record { current = 5; maximum = 6 };
    wounds = one_wound;
    exertion = record { current = 3; maximum = 3 };
    spark = record { available = true; complication_recovery_used = false };
  };
  significant_gear = [];
  resolved_significant_gear = [];
  scene_ability_uses = [];
  conditions = [];
}

abbrev pub zone : OpaqueId → OpaqueId → Zone
zone id other = record {
  zone_id = id;
  name = "Bridge";
  capacity = 2;
  cover = no_cover;
  hazard_tags = [];
  objective_ids = [];
  elevation = level;
  visibility = open_view;
  connections = other ∷ [];
}

abbrev pub hero_participant : Bool → CombatParticipant
hero_participant spent = record {
  actor_id = 1;
  zone_id = 21;
  action_available = true;
  maneuver_available = true;
  reaction_available = true;
  activation_spent = spent;
  role = hero_role 7;
}

abbrev pub squad_participant : Bool → CombatParticipant
squad_participant spent = record {
  actor_id = 2;
  zone_id = 22;
  action_available = true;
  maneuver_available = true;
  reaction_available = true;
  activation_spent = spent;
  role = enemy_role (record {
    kind = squad;
    reinforcement_trigger = none;
    definition = reference;
    guard_pool = record { current = 4; maximum = 4 };
    armor = 1;
  });
}

abbrev pub objective : ObjectiveState
objective = record {
  objective_id = 31;
  definition = reference;
  progress = 1;
  threshold = 3;
  status = objective_active;
}

abbrev pub fight : Option OpaqueId → Bool → CombatState
fight active spent = record {
  combat_id = 40;
  status = combat_active;
  round = 1;
  active_side = hero;
  active_actor_id = active;
  battlefield = zone 21 22 ∷ zone 22 21 ∷ [];
  participants = hero_participant spent ∷ squad_participant spent ∷ [];
  objectives = objective ∷ [];
  boss_overlays = [];
  reaction_window = none;
  pending_death_check_id = none;
  pending_action_check_id = none;
}

abbrev pub challenge : ChallengeState
challenge = record {
  challenge_id = 61;
  definition = reference;
  progress = record { current = 1; maximum = 4 };
  danger = record { current = 0; maximum = 4 };
  tie_rule = progress_wins;
  status = challenge_active;
}

abbrev pub campaign_with : List PlayableCharacter → CombatState → GameState
campaign_with characters combat = record {
  campaign_id = 100;
  content_manifest_hash = 101;
  session_number = 1;
  scene_id = none;
  party = record { supply = 2; supply_maximum = 2; characters = characters };
  pending_physical_checks = [];
  combat = some combat;
  challenges = challenge ∷ [];
  social_states = [];
  rituals = [];
  permanent_scars = [];
  permanent_deaths = [];
}

abbrev pub event : ℕ → EventBody → GameEvent
event revision body = record {
  event_id = 200;
  transaction_id = 300;
  campaign_id = 100;
  caused_by_command_id = 400;
  transaction_index = 0;
  stream_revision = revision;
  body = body;
}

abbrev pub roll : ResolvedCheck
roll = resolve_possible request 12 simulated
