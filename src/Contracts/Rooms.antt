-- ===== src/Contracts/Rooms.antt =====
-- packages/contracts/src/room-state.ts, room-events.ts and room-transactions.ts: the state of a room,
-- its events and the semantic validator. Of an event's payload the fields that no replay reads are
-- left out: the reasons and results of a few events, template and client command identifiers.
use lldm.Prelude.{
  ℕ, ◌+◌, String, Bool, true, false, not, Option, none, some, List, [], ◌∷◌, ◌++◌, map, find,
  includes, ◌==◌, ltb, same_id, if◌then◌else◌,
}
use lldm.Contracts.Ids.{OpaqueId}
use lldm.Contracts.Validation.{
  ValidationIssue, ValidationResult, conclude, issue_if, issues_of_each, duplicate_issues,
}
use lldm.Contracts.GameState.{behind}

pub data RoomMode : Type 0 where
  normal_mode rehearsal_mode : RoomMode

pub data ParticipantStatus : Type 0 where
  participant_pending approved rejected : ParticipantStatus

pub record RoomParticipant : Type 0 where
  pub participant_id : OpaqueId
  pub display_name : String
  pub status : ParticipantStatus
  pub selected_seat_id : Option OpaqueId

pub record CharacterSeat : Type 0 where
  pub seat_id : OpaqueId
  pub character_id : OpaqueId
  pub starter_loadout_id : OpaqueId
  pub participant_id : Option OpaqueId

pub data HistoryKind : Type 0 where
  narration choice roll state_change player_flavor recovery : HistoryKind

pub record HistoryEntry : Type 0 where
  pub room_revision : ℕ
  pub kind : HistoryKind
  pub text : String
  pub participant_id : Option OpaqueId
  pub seat_id : Option OpaqueId

pub data RoomStatus : Type 0 where
  lobby active suspended completed : RoomStatus

pub record PendingWorkflow : Type 0 where
  pub workflow_id : OpaqueId
  pub game_transaction_id : OpaqueId
  pub expected_mechanical_revision : ℕ
  pub failed : Bool

pub record PendingPhysical : Type 0 where
  pub seat_id : OpaqueId
  pub pending_check_id : OpaqueId

pub record ReactionDeadline : Type 0 where
  pub seat_id : OpaqueId
  pub reaction_window_id : OpaqueId
  pub deadline_at : OpaqueId
  pub paused : Bool
  pub remaining_ms : Option ℕ

pub data RecoveryStatus : Type 0 where
  grace recovery_is_required connected : RecoveryStatus

pub record Recovery : Type 0 where
  pub seat_id : OpaqueId
  pub status : RecoveryStatus
  pub grace_expires_at : Option OpaqueId

pub record CorrectionRequest : Type 0 where
  pub correction_request_id : OpaqueId
  pub participant_id : OpaqueId
  pub target_transaction_id : Option OpaqueId

pub record PrivateClue : Type 0 where
  pub clue_id : OpaqueId
  pub seat_id : OpaqueId
  pub text : String

pub data Conclusion : Type 0 where
  clean_success success_with_cost withdrawal defeat : Conclusion

pub record RoomState : Type 0 where
  pub room_session_id : OpaqueId
  pub current_relay_room_id : Option OpaqueId
  pub campaign_id : OpaqueId
  pub mechanical_manifest_hash : OpaqueId
  pub presentation_manifest_hash : OpaqueId
  pub mode : RoomMode
  pub room_revision : ℕ
  pub view_revision : ℕ
  pub mechanical_revision : ℕ
  pub status : RoomStatus
  pub participants : List RoomParticipant
  pub seats : List CharacterSeat
  pub player_host_participant_id : Option OpaqueId
  pub current_beat_id : OpaqueId
  pub pending_workflow : Option PendingWorkflow
  pub pending_physical : Option PendingPhysical
  pub reaction_deadline : Option ReactionDeadline
  pub recoveries : List Recovery
  pub correction_request : Option CorrectionRequest
  pub private_clues : List PrivateClue
  pub recent_public_history : List HistoryEntry
  pub conclusion : Option Conclusion

pub record RoomCreation : Type 0 where
  pub relay_room_id : Option OpaqueId
  pub mode : RoomMode
  pub start_beat_id : OpaqueId
  pub campaign_id : OpaqueId
  pub mechanical_manifest_hash : OpaqueId
  pub presentation_manifest_hash : OpaqueId
  pub seats : List CharacterSeat

-- The result of a cleared reaction.
pub data ReactionResult : Type 0 where
  reaction_use reaction_pass reaction_timeout : ReactionResult

pub data RoomEventBody : Type 0 where
  room_created : RoomCreation → RoomEventBody
  room_command_rejected : RoomEventBody
  participant_join_requested : (participant_id : OpaqueId) (display_name : String) → RoomEventBody
  participant_approved participant_rejected : (participant_id : OpaqueId) → RoomEventBody
  player_host_assigned : (participant_id : OpaqueId) → RoomEventBody
  seat_assigned : (seat_id participant_id starter_loadout_id : OpaqueId) → RoomEventBody
  seat_released : (seat_id : OpaqueId) → RoomEventBody
  selected_seat_changed : (participant_id seat_id : OpaqueId) → RoomEventBody
  run_status_changed : RoomStatus → RoomEventBody
  guided_beat_changed : (beat_id : OpaqueId) (selected_option_id : Option OpaqueId) → RoomEventBody
  mechanical_workflow_started :
      (workflow_id game_transaction_id : OpaqueId) (expected_mechanical_revision : ℕ)
      → RoomEventBody
  mechanical_workflow_completed :
      (workflow_id : OpaqueId) (final_mechanical_revision : ℕ) → RoomEventBody
  mechanical_workflow_failed : (workflow_id : OpaqueId) → RoomEventBody
  private_clue_presented : PrivateClue → RoomEventBody
  public_narration_recorded player_flavor_recorded : (text : String) → RoomEventBody
  reaction_deadline_started : (seat_id reaction_window_id deadline_at : OpaqueId) → RoomEventBody
  reaction_deadline_paused : (seat_id : OpaqueId) (remaining_ms : ℕ) → RoomEventBody
  reaction_deadline_cleared : (reaction_window_id : OpaqueId) → ReactionResult → RoomEventBody
  recovery_status_changed : Recovery → RoomEventBody
  correction_requested : CorrectionRequest → RoomEventBody
  correction_resolved : (correction_request_id : OpaqueId) (safe_detail : String) → RoomEventBody
  relay_room_replaced : (new_room_id : OpaqueId) → RoomEventBody
  physical_roll_waiting : PendingPhysical → RoomEventBody
  room_conclusion_recorded : Conclusion → (summary : String) → RoomEventBody

pub record RoomEvent : Type 0 where
  pub room_session_id : OpaqueId
  pub room_transaction_id : OpaqueId
  pub transaction_index : ℕ
  pub room_revision : ℕ
  pub addressed_participant_id : Option OpaqueId
  pub addressed_seat_id : Option OpaqueId
  pub body : RoomEventBody

pub record RoomTransaction : Type 0 where
  pub room_transaction_id : OpaqueId
  pub first_room_revision : ℕ
  pub event_count : ℕ
  pub pre_room_state_hash : OpaqueId
  pub post_room_state_hash : OpaqueId

abbrev is_normal : RoomMode → Bool
is_normal normal_mode = true
is_normal rehearsal_mode = false

abbrev owner_issues : List OpaqueId → Option OpaqueId → List ValidationIssue
owner_issues participants none = []
owner_issues participants (some id) =
    issue_if (not (includes id participants)) "room.unknown_participant"

-- The loop over the seats, with the seats and the characters that it has seen.
unfoldable pub seat_issues :
    (participants seats_seen characters_seen : List OpaqueId)
    → List CharacterSeat
    → List ValidationIssue
seat_issues participants seats_seen characters_seen [] = []
seat_issues participants seats_seen characters_seen (s ∷ seats) =
    issue_if (includes s.seat_id seats_seen) "room.duplicate_seat"
    ++ issue_if (includes s.character_id characters_seen) "room.duplicate_character"
    ++ owner_issues participants s.participant_id
    ++ seat_issues participants (s.seat_id ∷ seats_seen) (s.character_id ∷ characters_seen) seats

-- The keys of the ownership map in the order in which they are set.
unfoldable pub owners : (seen : List OpaqueId) → List CharacterSeat → List OpaqueId
owners seen [] = []
owners seen (s ∷ seats) = elim s.participant_id [
  | none ↦ owners seen seats
  | some id ↦ elim (includes id seen) [
    | true ↦ owners seen seats
    | false ↦ id ∷ owners (id ∷ seen) seats
  ]
]

unfoldable pub owned_count : OpaqueId → List CharacterSeat → ℕ
owned_count id [] = 0
owned_count id (s ∷ seats) = (if same_id s.participant_id id then 1 else 0) + owned_count id seats

abbrev ownership_issues : RoomState → List ValidationIssue
ownership_issues s =
    if is_normal s.mode
    then issues_of_each
        (λ id. issue_if (ltb 1 (owned_count id s.seats)) "room.normal_mode_seat_limit")
        (owners [] s.seats)
    else []

abbrev is_owner : Option CharacterSeat → OpaqueId → Bool
is_owner none id = false
is_owner (some seat) id = same_id seat.participant_id id

abbrev selection_issues : List CharacterSeat → RoomParticipant → List ValidationIssue
selection_issues seats p = elim p.selected_seat_id [
  | none ↦ []
  | some id ↦
      issue_if (not (is_owner (find (λ s. s.seat_id == id) seats) p.participant_id))
        "room.selected_seat_not_owned"
]

abbrev pub is_approved : Option RoomParticipant → Bool
is_approved none = false
is_approved (some p) = elim p.status [ approved ↦ true | _ ↦ false ]

abbrev pub named_participant : List RoomParticipant → OpaqueId → Option RoomParticipant
named_participant participants id = find (λ p. p.participant_id == id) participants

abbrev host_issues : List RoomParticipant → Option OpaqueId → List ValidationIssue
host_issues participants none = []
host_issues participants (some id) =
    issue_if (not (is_approved (named_participant participants id))) "room.player_host_not_approved"

unfoldable pub room_state_issues : RoomState → List ValidationIssue
room_state_issues s =
    let ids = map (λ p. p.participant_id) s.participants in
    duplicate_issues ids "room.duplicate_participant"
    ++ seat_issues ids [] [] s.seats
    ++ ownership_issues s
    ++ issues_of_each (selection_issues s.seats) s.participants
    ++ host_issues s.participants s.player_host_participant_id

-- `schema` stands for the issues that `validateValue` finds.
unfoldable pub validate_room_state :
    (schema : RoomState → List ValidationIssue) → RoomState → ValidationResult RoomState
validate_room_state schema s = conclude s (behind (schema s) (room_state_issues s))
