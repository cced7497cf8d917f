-- ===== src/Examples/Rooms.antt =====
-- The theorems on rooms at concrete inputs: a room with two seats, whose one participant joins, is
-- approved and claims a seat.
use lldm.Prelude.{ℕ, ◌≡◌, refl, none, some, List, [], ◌∷◌, ok, find, modify}
use lldm.Contracts.Ids.{OpaqueId}
use lldm.Contracts.Validation.{issues_of_each, duplicate_issues, duplicate_issues_from}
use lldm.Contracts.Rooms.{
  RoomState, RoomEvent, RoomEventBody, RoomTransaction, CharacterSeat, normal_mode, room_created,
  participant_join_requested, participant_approved, seat_assigned, approved, lobby, state_change,
  room_state_issues, seat_issues, owners, owned_count, validate_room_state,
}
use lldm.Runtime.RoomChanges.{drop, apply_participant, apply_seat_assigned}
use lldm.Runtime.Rooms.{
  RoomPlatform, apply_room_body, apply_room_event, initial_room_state_from_event,
}
use lldm.Runtime.Rooms.Replay.{
  hash_room_state, replay_room_events, replay_room_transaction, replay_room_transactions,
  replay_room,
}
use lldm.Runtime.Rooms.Folds.{Replays, replay_room-Replays}
use lldm.Runtime.Rooms.Advance.{Advances, apply_room_event-Advances}

abbrev platform : RoomPlatform
platform = record { schema = λ s. []; digest = λ s. s.room_revision; text_of = λ id. "an option" }

abbrev seat : OpaqueId → CharacterSeat
seat id = record { seat_id = id; character_id = id; starter_loadout_id = 70; participant_id = none }

abbrev at : OpaqueId → ℕ → ℕ → RoomEventBody → RoomEvent
at transaction index revision body = record {
  room_session_id = 1;
  room_transaction_id = transaction;
  transaction_index = index;
  room_revision = revision;
  addressed_participant_id = none;
  addressed_seat_id = none;
  body = body;
}

abbrev creating : RoomEvent
creating = at 10 0 1 (
    room_created (record {
      relay_room_id = none;
      mode = normal_mode;
      start_beat_id = 2;
      campaign_id = 100;
      mechanical_manifest_hash = 101;
      presentation_manifest_hash = 102;
      seats = seat 21 ∷ seat 22 ∷ [];
    }))

abbrev events : List RoomEvent
events =
    creating
    ∷ at 11 0 2 (participant_join_requested 31 "Ana")
    ∷ at 12 0 3 (participant_approved 31)
    ∷ at 12 1 4 (seat_assigned 21 31 70)
    ∷ []

abbrev step : OpaqueId → ℕ → ℕ → OpaqueId → OpaqueId → RoomTransaction
step id first count pre post = record {
  room_transaction_id = id;
  first_room_revision = first;
  event_count = count;
  pre_room_state_hash = pre;
  post_room_state_hash = post;
}

abbrev claimed : RoomState
claimed = record {
  room_session_id = 1;
  current_relay_room_id = none;
  campaign_id = 100;
  mechanical_manifest_hash = 101;
  presentation_manifest_hash = 102;
  mode = normal_mode;
  room_revision = 4;
  view_revision = 4;
  mechanical_revision = 0;
  status = lobby;
  participants =
      record {
        participant_id = 31;
        display_name = "Ana";
        status = approved;
        selected_seat_id = some 21;
      }
      ∷ [];
  seats = record (seat 21) { participant_id = some 31 } ∷ seat 22 ∷ [];
  player_host_participant_id = none;
  current_beat_id = 2;
  pending_workflow = none;
  pending_physical = none;
  reaction_deadline = none;
  recoveries = [];
  correction_request = none;
  private_clues = [];
  recent_public_history =
      record {
        room_revision = 4;
        kind = state_change;
        text = "Ana claimed a hero.";
        participant_id = none;
        seat_id = none;
      }
      ∷ [];
  conclusion = none;
}

room_replayed :
    replay_room platform events (step 10 1 1 1 1 ∷ step 11 2 1 1 2 ∷ step 12 3 2 2 4 ∷ []) (some 4)
    ≡ ok claimed
unfolding replay_room replay_room_transactions replay_room_transaction replay_room_events
    hash_room_state apply_room_event apply_room_body initial_room_state_from_event apply_participant
    apply_seat_assigned drop validate_room_state room_state_issues seat_issues owners owned_count
    issues_of_each duplicate_issues duplicate_issues_from find modify
room_replayed = refl

replay_room-Replays_example : Replays platform events claimed
replay_room-Replays_example =
    replay_room-Replays platform events (step 10 1 1 1 1 ∷ step 11 2 1 1 2 ∷ step 12 3 2 2 4 ∷ [])
      (some 4) claimed room_replayed

abbrev waiting : RoomState
waiting = record claimed {
  room_revision = 3;
  view_revision = 3;
  participants =
      record {
        participant_id = 31;
        display_name = "Ana";
        status = approved;
        selected_seat_id = none;
      }
      ∷ [];
  seats = seat 21 ∷ seat 22 ∷ [];
  recent_public_history = [];
}

seat_claimed : apply_room_event platform waiting (at 12 1 4 (seat_assigned 21 31 70)) ≡ ok claimed
unfolding apply_room_event apply_room_body apply_seat_assigned drop validate_room_state
    room_state_issues seat_issues owners owned_count issues_of_each duplicate_issues
    duplicate_issues_from find modify
seat_claimed = refl

apply_room_event-Advances_example : Advances platform waiting claimed
apply_room_event-Advances_example =
    apply_room_event-Advances platform waiting claimed (at 12 1 4 (seat_assigned 21 31 70))
      seat_claimed
