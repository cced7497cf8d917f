-- ===== src/Runtime/Rooms.antt =====
-- packages/runtime/src/application/room-replay.ts: the reducer of a room's events. An exception is the
-- error of a `Result`. The schema of a room, its digest and the text of an identifier are the record
-- `RoomPlatform`.
pub mod Advance
pub mod Replay
pub mod Folds
use Prim.Native.String.{◌++◌ as ◌<>◌}
use lldm.Prelude.{
  ℕ, ◌+◌, ◌-◌, zero, suc, String, Bool, true, false, not, ◌&&◌, ◌||◌, Option, none, some, List, [],
  ◌∷◌, ◌++◌, map, find, modify, filter, length, ◌==◌, same_id, is_some, if◌then◌else◌, Result, ok,
  err, ◌>>=◌, ◌>>◌, guard, refuse_if, require,
}
use lldm.Contracts.Ids.{OpaqueId}
use lldm.Contracts.Validation.{ValidationIssue, ValidationResult, success, failure}
use lldm.Contracts.Rooms.{
  RoomState, RoomEvent, RoomEventBody, RoomCreation, RoomParticipant, CharacterSeat, HistoryKind,
  HistoryEntry, ParticipantStatus, participant_pending, approved, rejected, lobby, completed,
  RecoveryStatus, grace, recovery_is_required, connected, Recovery, ReactionDeadline,
  ReactionResult, reaction_use, reaction_pass, reaction_timeout, PendingWorkflow, narration, choice,
  state_change, player_flavor, CorrectionRequest, named_participant, validate_room_state,
  room_created, room_command_rejected, participant_join_requested, participant_approved,
  participant_rejected, player_host_assigned, seat_assigned, seat_released, selected_seat_changed,
  run_status_changed, guided_beat_changed, mechanical_workflow_started,
  mechanical_workflow_completed, mechanical_workflow_failed, private_clue_presented,
  public_narration_recorded, player_flavor_recorded, reaction_deadline_started,
  reaction_deadline_paused, reaction_deadline_cleared, recovery_status_changed,
  correction_requested, correction_resolved, relay_room_replaced, physical_roll_waiting,
  room_conclusion_recorded,
}
use lldm.Runtime.RoomChanges.{
  drop, last_forty, public_entry, is_participant, is_seat, set_participant, set_seat, with_status,
  select_if_none, apply_seat_assigned, id_of, reselect, released, apply_seat_released,
  apply_participant, is_workflow, fail_workflow, deadline_of_seat, deadline_of_window, pause,
  unpause, cleared_text, is_connected, recovered, is_correction,
}

pub record RoomPlatform : Type 0 where
  pub schema : RoomState → List ValidationIssue
  pub digest : RoomState → OpaqueId
  pub text_of : OpaqueId → String

abbrev chosen : RoomPlatform → RoomState → RoomEvent → Option OpaqueId → RoomState
chosen p s e none = s
chosen p s e (some option) = public_entry s e choice ("The table chose " <> p.text_of option <> ".")

-- The `switch` over the kind of a body, on the state with its new revisions.
unfoldable pub apply_room_body :
    RoomPlatform → RoomState → RoomEvent → RoomEventBody → Result RoomState
apply_room_body p s e (room_created creation) = err "room_created may appear only at revision one."
apply_room_body p s e room_command_rejected = ok s
apply_room_body p s e (participant_join_requested id name) = ok (record s {
  participants =
      s.participants
      ++ record {
        participant_id = id;
        display_name = name;
        status = participant_pending;
        selected_seat_id = none;
      }
        ∷ [];
})
apply_room_body p s e (participant_approved id) =
    apply_participant s id (with_status approved) "Cannot approve a missing participant."
apply_room_body p s e (participant_rejected id) =
    apply_participant s id (with_status rejected) "Cannot reject a missing participant."
apply_room_body p s e (player_host_assigned id) = ok (
    public_entry (record s { player_host_participant_id = some id }) e state_change
      "Player-host authority changed.")
apply_room_body p s e (seat_assigned seat id loadout) = apply_seat_assigned s e seat id loadout
apply_room_body p s e (seat_released seat) = apply_seat_released s seat
apply_room_body p s e (selected_seat_changed id seat) =
    apply_participant s id (λ x. record x { selected_seat_id = some seat })
      "Selected-seat participant is missing."
apply_room_body p s e (run_status_changed status) = ok (record s { status = status })
apply_room_body p s e (guided_beat_changed beat option) =
    ok (chosen p (record s { current_beat_id = beat }) e option)
apply_room_body p s e (mechanical_workflow_started id transaction revision) = do
  refuse_if (is_some s.pending_workflow) "Only one mechanical workflow may be pending."
  ok (record s {
    pending_workflow = some (record {
      workflow_id = id;
      game_transaction_id = transaction;
      expected_mechanical_revision = revision;
      failed = false;
    });
  })
apply_room_body p s e (mechanical_workflow_completed id revision) = do
  guard (is_workflow s.pending_workflow id) "Completed workflow is not pending."
  ok (record s { pending_workflow = none; mechanical_revision = revision; pending_physical = none })
apply_room_body p s e (mechanical_workflow_failed id) = do
  guard (is_workflow s.pending_workflow id) "Failed workflow is not pending."
  ok (record s { pending_workflow = fail_workflow s.pending_workflow })
apply_room_body p s e (private_clue_presented clue) =
    ok (record s { private_clues = s.private_clues ++ clue ∷ [] })
apply_room_body p s e (public_narration_recorded text) = ok (public_entry s e narration text)
apply_room_body p s e (player_flavor_recorded text) = ok (public_entry s e player_flavor text)
apply_room_body p s e (reaction_deadline_started seat window at) = ok (record s {
  reaction_deadline = some (record {
    seat_id = seat;
    reaction_window_id = window;
    deadline_at = at;
    paused = false;
    remaining_ms = none;
  });
})
apply_room_body p s e (reaction_deadline_paused seat remaining) = do
  guard (deadline_of_seat s.reaction_deadline seat) "Paused reaction seat is not pending."
  ok (record s { reaction_deadline = pause s.reaction_deadline remaining })
apply_room_body p s e (reaction_deadline_cleared window result) = do
  guard (deadline_of_window s.reaction_deadline window) "Cleared reaction deadline is not pending."
  ok (public_entry (record s { reaction_deadline = none }) e state_change (cleared_text result))
apply_room_body p s e (recovery_status_changed r) = ok (recovered s r)
apply_room_body p s e (correction_requested c) = ok (record s { correction_request = some c })
apply_room_body p s e (correction_resolved id detail) = do
  guard (is_correction s.correction_request id) "Correction result is not pending."
  ok (public_entry (record s { correction_request = none }) e state_change detail)
apply_room_body p s e (relay_room_replaced id) = ok (record s { current_relay_room_id = some id })
apply_room_body p s e (physical_roll_waiting roll) = ok (record s { pending_physical = some roll })
apply_room_body p s e (room_conclusion_recorded conclusion summary) = ok (
    public_entry (record s { conclusion = some conclusion; status = completed }) e state_change
      summary)

abbrev valid_room : String → ValidationResult RoomState → Result RoomState
valid_room message (success s) = ok s
valid_room message (failure is) = err message

-- The error is without the codes of the issues.
unfoldable pub apply_room_event : RoomPlatform → RoomState → RoomEvent → Result RoomState
apply_room_event p s e = do
  guard (e.room_session_id == s.room_session_id && e.room_revision == s.room_revision + 1)
      "Room event identity or revision is not contiguous."
  next ←
      apply_room_body p
        (record s { room_revision = e.room_revision; view_revision = s.view_revision + 1 }) e e.body
  valid_room "Room event produced invalid state." (validate_room_state p.schema next)

abbrev vacant : CharacterSeat → CharacterSeat
vacant seat = record seat { participant_id = none }

abbrev pub created_from : RoomEvent → RoomCreation → RoomState
created_from e c = record {
  room_session_id = e.room_session_id;
  current_relay_room_id = c.relay_room_id;
  campaign_id = c.campaign_id;
  mechanical_manifest_hash = c.mechanical_manifest_hash;
  presentation_manifest_hash = c.presentation_manifest_hash;
  mode = c.mode;
  room_revision = 1;
  view_revision = 1;
  mechanical_revision = 0;
  status = lobby;
  participants = [];
  seats = map vacant c.seats;
  player_host_participant_id = none;
  current_beat_id = c.start_beat_id;
  pending_workflow = none;
  pending_physical = none;
  reaction_deadline = none;
  recoveries = [];
  correction_request = none;
  private_clues = [];
  recent_public_history = [];
  conclusion = none;
}

abbrev pub creation_of : RoomEventBody → Option RoomCreation
creation_of (room_created creation) = some creation
creation_of _ = none

unfoldable pub initial_room_state_from_event : RoomPlatform → RoomEvent → Result RoomState
initial_room_state_from_event p e = do
  guard (e.room_revision == 1 && e.transaction_index == 0)
      "Room replay must begin with room_created at revision one."
  creation ←
      require (creation_of e.body) "Room replay must begin with room_created at revision one."
  valid_room "room_created produced invalid state."
      (validate_room_state p.schema (created_from e creation))
