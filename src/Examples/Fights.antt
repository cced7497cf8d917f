-- ===== src/Examples/Fights.antt =====
-- The theorems on a fight, its harm and its rounds at concrete inputs.
use lldm.Prelude.{
  ℕ, ◌≡◌, ◌≤◌, ◌<◌, ◌+◌, refl, true, false, some, none, [], ◌∷◌, ok, any, find, includes,
}
use lldm.Contracts.Combat.{objective_active, CombatState}
use lldm.Contracts.Combat.Battlefield.{
  search_fuel, zone_graph_issues, zone_issues, zone_by_id, visit, total_connections,
}
use lldm.Contracts.Combat.Battlefield.Fuel.{search_fuel-enough}
use lldm.Contracts.Combat.Battlefield.Search.{Reaches, zone_names, zone_graph_issues-connected}
use lldm.Contracts.Validation.{issues_of_each}
use lldm.Contracts.GameState.{GameState}
use lldm.Contracts.Challenges.{
  ChallengeState, challenge_active, challenge_issues, expected_challenge_status,
}
use lldm.Contracts.Events.{Impact, TrackChange, ObjectiveAdvance}
use lldm.Prelude.Names.{Distinct}
use lldm.Engine.Apply.Access.{
  character_by_id, character_by_actor_id, set_combat, is_challenge, update_character,
  update_character_of_actor, update_challenge,
}
use lldm.Engine.Apply.Characters.{set_guard}
use lldm.Engine.Apply.Harm.{apply_wound_marked, apply_impact, set_wounds}
use lldm.Engine.Apply.Wounds.{wound_marked-filled, impact-lowers, OneMore}
use lldm.Engine.Apply.Rounds.{
  apply_round_advanced, next_round, combat_participant_alive, apply_objective_advanced,
  is_objective, call_reinforcements,
}
use lldm.Engine.Apply.Challenges.{apply_tracks_changed, set_tracks}
use lldm.Engine.Apply.Tracks.{Grows, tracks_changed-grow}
use lldm.Engine.Apply.Progress.{
  round_advanced-refreshes, RoundBegins, ObjectiveAdvances, objective_advanced-within,
  with_progress,
}
use lldm.Examples.Fixtures.{
  aria, one_wound, two_wounds, fight, campaign_with, zone, challenge, objective, no_checks, roll,
}

abbrev state : GameState
state = campaign_with (aria ∷ []) (fight (some 1) false)

two_zones_sound : zone_graph_issues (zone 21 22 ∷ zone 22 21 ∷ []) ≡ []
unfolding zone_graph_issues zone_issues zone_by_id visit total_connections issues_of_each
two_zones_sound = refl

zone_graph_issues-connected_example :
    Distinct (zone_names (zone 21 22 ∷ zone 22 21 ∷ []))
    × ((id : ℕ)
        → includes id (zone_names (zone 21 22 ∷ zone 22 21 ∷ [])) ≡ true
        → Reaches (zone 21 22 ∷ zone 22 21 ∷ []) 21 id)
zone_graph_issues-connected_example =
    zone_graph_issues-connected (zone 21 22) (zone 22 21 ∷ []) two_zones_sound

aria_wounded :
    apply_wound_marked state 11 two_wounds ≡ ok (update_character state 11 (set_wounds two_wounds))
unfolding apply_wound_marked character_by_id find
aria_wounded = refl

aria_found : character_by_id state 11 ≡ some aria
unfolding character_by_id find
aria_found = refl

wound_marked-filled_example :
    (character_by_id (update_character state 11 (set_wounds two_wounds)) 11
      ≡ some (set_wounds two_wounds aria))
    × OneMore one_wound two_wounds
wound_marked-filled_example = wound_marked-filled state 11 two_wounds aria aria_found aria_wounded

abbrev impact : Impact
impact = record {
  combat_id = 40;
  source_actor_id = 2;
  target_actor_id = 1;
  base_impact = 3;
  triumph_bonus = 0;
  armor_reduction = 1;
  applied_impact = 2;
  guard_before = 5;
  guard_after = 3;
}

aria_struck : apply_impact state impact ≡ ok (update_character_of_actor state 1 (set_guard 3))
unfolding apply_impact character_by_actor_id find
aria_struck = refl

aria_acts : character_by_actor_id state 1 ≡ some aria
unfolding character_by_actor_id find
aria_acts = refl

impact-lowers_example :
    (character_by_actor_id (update_character_of_actor state 1 (set_guard 3)) 1
      ≡ some (set_guard 3 aria))
    × (1 ≤ 2)
    × (1 ≤ 5 → 3 < 5)
    × (5 ≤ 3 + 2)
    × (5 ≤ 2 → impact.guard_after ≡ 0)
impact-lowers_example = impact-lowers state impact aria aria_acts aria_struck

abbrev spent_state : GameState
spent_state = campaign_with [] (fight none true)

abbrev second_round : GameState
second_round = set_combat spent_state (next_round (fight none true) 2)

round_ends : apply_round_advanced spent_state 1 2 ≡ ok second_round
unfolding apply_round_advanced combat_participant_alive character_by_actor_id any find
round_ends = refl

round_advanced-refreshes_example :
    (n : CombatState) × RoundBegins spent_state second_round (fight none true) n
round_advanced-refreshes_example =
    round_advanced-refreshes spent_state (fight none true) 1 2 refl round_ends

abbrev tracks : TrackChange
tracks = record {
  challenge_id = 61;
  progress_before = 1;
  progress_after = 3;
  danger_before = 0;
  danger_after = 1;
  status = challenge_active;
  result = roll;
}

challenge_found : find (is_challenge 61) state.challenges ≡ some challenge
unfolding find
challenge_found = refl

tracks_grown :
    apply_tracks_changed no_checks state tracks
    ≡ ok (update_challenge state 61 (set_tracks 3 1 challenge_active))
unfolding apply_tracks_changed find challenge_issues expected_challenge_status
tracks_grown = refl

tracks_changed-grow_example :
    let t = update_challenge state 61 (set_tracks 3 1 challenge_active) in
    (d : ChallengeState) × (find (is_challenge 61) t.challenges ≡ some d) × Grows tracks challenge d
tracks_changed-grow_example =
    tracks_changed-grow no_checks state tracks challenge challenge_found tracks_grown

abbrev advance : ObjectiveAdvance
advance = record { objective_id = 31; previous = 1; current = 2; status = objective_active }

abbrev advanced_fight : CombatState
advanced_fight = call_reinforcements 2 (with_progress advance (fight (some 1) false))

objective_found : find (is_objective 31) (fight (some 1) false).objectives ≡ some objective
unfolding find
objective_found = refl

objective_grown : apply_objective_advanced state advance ≡ ok (set_combat state advanced_fight)
unfolding apply_objective_advanced find
objective_grown = refl

objective_advanced-within_example :
    (n : CombatState) × (some advanced_fight ≡ some n)
    × ObjectiveAdvances advance (fight (some 1) false) n objective
objective_advanced-within_example =
    objective_advanced-within state advance (fight (some 1) false) objective refl objective_found
      objective_grown

search_fuel-enough_example :
    visit
      (search_fuel (zone 21 22 ∷ zone 22 21 ∷ []) + 5)
      (zone 21 22 ∷ zone 22 21 ∷ [])
      []
      (21 ∷ [])
    ≡ visit (search_fuel (zone 21 22 ∷ zone 22 21 ∷ [])) (zone 21 22 ∷ zone 22 21 ∷ []) [] (21 ∷ [])
search_fuel-enough_example = search_fuel-enough (zone 21 22 ∷ zone 22 21 ∷ []) 21 5
