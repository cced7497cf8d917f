-- ===== src/Examples/Campaigns.antt =====
-- The theorems on streams of events and on compensation at concrete inputs.
use lldm.Prelude.{
  ◌≡◌, refl, true, false, some, List, [], ◌∷◌, ok, any, all, find, filter, modify, map, String,
  ◌==◌,
}
use lldm.Contracts.Combat.{maneuver}
use lldm.Contracts.Combat.Battlefield.{
  zone_graph_issues, zone_issues, zone_by_id, visit, total_connections,
}
use lldm.Contracts.Combat.Validity.{combat_issues, participant_issues, capacity_issues, occupancy}
use lldm.Contracts.Validation.{success, issues_of_each, duplicate_issues, duplicate_issues_from}
use lldm.Contracts.GameState.{GameState, validate_game_state, game_state_issues}
use lldm.Contracts.Challenges.{challenge_issues, expected_challenge_status}
use lldm.Contracts.Events.{
  EventBody, GameEvent, ResourceChange, SlotUse, Movement, party_scope, supply_resource,
  resource_changed, action_slot_spent, action_slot_restored, actor_moved, transaction_compensated,
  command_accepted,
}
use lldm.Engine.Apply.Access.{set_combat}
use lldm.Engine.Apply.Combat.{apply_slot_spent, apply_actor_moved}
use lldm.Engine.Apply.Characters.{apply_resource_changed}
use lldm.Engine.Apply.Reducer.{apply_body, apply_game_event, apply_events}
use lldm.Engine.Apply.History.{Follows, apply_events-Follows}
use lldm.Engine.Compensation.{
  classify_event_for_undo, inverse_event, plan_reversed, plan_transaction_compensation, accepted,
  body_of, undoable,
}
use lldm.Engine.Compensation.Inverses.{kind_of, inverse_event-fits}
use lldm.Engine.Compensation.Plan.{inverse_event-undoes}
use lldm.Engine.Compensation.Transactions.{RestorableAlong, plan_transaction_compensation-undoes}
use lldm.Examples.Fixtures.{
  fight, campaign_with, no_checks, event, hero_participant, squad_participant,
}

abbrev start : GameState
start = campaign_with [] (fight (some 1) false)

abbrev spend : ResourceChange
spend = record { owner = party_scope; resource = supply_resource; previous = 2; current = 1 }

abbrev regain : ResourceChange
regain = record { owner = party_scope; resource = supply_resource; previous = 1; current = 2 }

abbrev slot : SlotUse
slot = record { combat_id = 40; actor_id = 1; slot = maneuver }

abbrev there : Movement
there = record { combat_id = 40; actor_id = 1; from_zone_id = 21; to_zone_id = 22 }

abbrev back_again : Movement
back_again = record { combat_id = 40; actor_id = 1; from_zone_id = 22; to_zone_id = 21 }

-- A maneuver: its slot, the movement and a Supply.
abbrev transaction : List GameEvent
transaction =
    event 1 (command_accepted "resolve_check" 500)
    ∷ event 2 (action_slot_spent slot)
    ∷ event 3 (actor_moved there)
    ∷ event 4 (resource_changed spend)
    ∷ []

abbrev compensation : List GameEvent
compensation =
    event 5 (resource_changed regain)
    ∷ event 6 (actor_moved back_again)
    ∷ event 7 (action_slot_restored slot)
    ∷ event 8 (transaction_compensated 300)
    ∷ []

abbrev after : GameState
after =
    record (set_combat start (record (fight (some 1) false) {
      participants =
          record (hero_participant false) { zone_id = 22; maneuver_available = false }
          ∷ squad_participant false
          ∷ [];
    })) { party = record { supply = 1; supply_maximum = 2; characters = [] } }

abbrev with_supply : GameState
with_supply = record start { party = record { supply = 1; supply_maximum = 2; characters = [] } }

start_valid : validate_game_state no_checks start ≡ success start
unfolding validate_game_state game_state_issues combat_issues zone_graph_issues zone_issues
    zone_by_id visit total_connections participant_issues capacity_issues occupancy issues_of_each
    duplicate_issues duplicate_issues_from challenge_issues expected_challenge_status find filter
    any all
start_valid = refl

transaction_accepted : apply_events no_checks start transaction ≡ success after
unfolding apply_events apply_game_event apply_body apply_slot_spent apply_actor_moved
    apply_resource_changed validate_game_state game_state_issues combat_issues zone_graph_issues
    zone_issues zone_by_id visit total_connections participant_issues capacity_issues occupancy
    issues_of_each duplicate_issues duplicate_issues_from challenge_issues expected_challenge_status
    find filter any all modify
transaction_accepted = refl

plan_accepted : plan_transaction_compensation 300 transaction ≡ accepted (map body_of compensation)
unfolding plan_transaction_compensation plan_reversed classify_event_for_undo inverse_event
plan_accepted = refl

one_campaign : all (λ e. e.campaign_id == start.campaign_id) compensation ≡ true
unfolding all
one_campaign = refl

transaction_restorable : RestorableAlong no_checks start transaction
transaction_restorable = (tt, λ s1 h1. (refl, λ s2 h2. (tt, λ s3 h3. (tt, λ s4 h4. tt))))

plan_transaction_compensation-undoes_example :
    apply_events no_checks after compensation ≡ success start
plan_transaction_compensation-undoes_example =
    plan_transaction_compensation-undoes no_checks 300 start after transaction compensation
      start_valid transaction_accepted transaction_restorable plan_accepted one_campaign

apply_events-Follows_example : Follows no_checks start after
apply_events-Follows_example =
    apply_events-Follows no_checks start after transaction start_valid transaction_accepted

supply_spent : apply_body no_checks start (resource_changed spend) ≡ ok with_supply
unfolding apply_body apply_resource_changed
supply_spent = refl

spend_inverted : inverse_event (resource_changed spend) ≡ some (resource_changed regain)
unfolding inverse_event
spend_inverted = refl

inverse_event-undoes_example : apply_body no_checks with_supply (resource_changed regain) ≡ ok start
inverse_event-undoes_example =
    inverse_event-undoes no_checks start (resource_changed spend) (resource_changed regain)
      start_valid tt supply_spent spend_inverted

inverse_event-fits_example :
    ((kind : String)
      → classify_event_for_undo (actor_moved there) ≡ undoable kind
      → (i : EventBody) × (inverse_event (actor_moved there) ≡ some i) × (kind_of i ≡ kind))
    × ((i : EventBody)
        → inverse_event (actor_moved there) ≡ some i
        → classify_event_for_undo (actor_moved there) ≡ undoable (kind_of i))
inverse_event-fits_example = inverse_event-fits (actor_moved there)
