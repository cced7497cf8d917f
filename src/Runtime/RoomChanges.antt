-- ===== src/Runtime/RoomChanges.antt =====
-- The changes that packages/runtime/src/application/room-replay.ts makes to the parts of a room.
use Prim.Native.String.{◌++◌ as ◌<>◌}
use lldm.Prelude.{
  ℕ, ◌-◌, zero, suc, String, Bool, true, false, not, Option, none, some, List, [], ◌∷◌, ◌++◌, find,
  modify, filter, length, ◌==◌, same_id, if◌then◌else◌, Result, ok, ◌>>=◌, ◌>>◌, guard, require,
}
use lldm.Contracts.Ids.{OpaqueId}
use lldm.Contracts.Rooms.{
  RoomState, RoomEvent, RoomParticipant, CharacterSeat, HistoryKind, HistoryEntry,
  ParticipantStatus, RecoveryStatus, connected, Recovery, ReactionDeadline, ReactionResult,
  reaction_use, reaction_pass, reaction_timeout, PendingWorkflow, state_change, CorrectionRequest,
  named_participant,
}

unfoldable pub drop : {A : Type 0} → ℕ → List A → List A
drop zero xs = xs
drop (suc n) [] = []
drop (suc n) (x ∷ xs) = drop n xs

-- `slice(-40)`.
abbrev pub last_forty : List HistoryEntry → List HistoryEntry
last_forty entries = drop (length entries - 40) entries

abbrev pub public_entry : RoomState → RoomEvent → HistoryKind → String → RoomState
public_entry s e kind text = record s {
  recent_public_history = last_forty (
      s.recent_public_history
      ++ record {
        room_revision = e.room_revision;
        kind = kind;
        text = text;
        participant_id = e.addressed_participant_id;
        seat_id = e.addressed_seat_id;
      }
        ∷ []);
}

abbrev pub is_participant : OpaqueId → RoomParticipant → Bool
is_participant id p = p.participant_id == id

abbrev pub is_seat : OpaqueId → CharacterSeat → Bool
is_seat id s = s.seat_id == id

abbrev pub set_participant : RoomState → OpaqueId → (RoomParticipant → RoomParticipant) → RoomState
set_participant s id change = record s {
  participants = modify (is_participant id) change s.participants;
}

abbrev pub set_seat : RoomState → OpaqueId → Option OpaqueId → RoomState
set_seat s id owner = record s {
  seats = modify (is_seat id) (λ c. record c { participant_id = owner }) s.seats;
}

abbrev pub with_status : ParticipantStatus → RoomParticipant → RoomParticipant
with_status status p = record p { status = status }

-- `participant.selected_seat_id ??= seat.seat_id`.
abbrev pub select_if_none : OpaqueId → RoomParticipant → RoomParticipant
select_if_none seat p = elim p.selected_seat_id [
  | none ↦ record p { selected_seat_id = some seat }
  | some id ↦ p
]

unfoldable pub apply_seat_assigned :
    RoomState → RoomEvent → (seat_id participant_id loadout : OpaqueId) → Result RoomState
apply_seat_assigned s e seat_id id loadout = do
  seat ← require (find (is_seat seat_id) s.seats) "Seat assignment does not match the room roster."
  guard (seat.starter_loadout_id == loadout) "Seat assignment does not match the room roster."
  p ← require (named_participant s.participants id) "Seat owner does not exist."
  ok (
      public_entry (set_participant (set_seat s seat_id (some id)) id (select_if_none seat.seat_id))
        e state_change (p.display_name <> " claimed a hero."))

abbrev pub id_of : Option CharacterSeat → Option OpaqueId
id_of none = none
id_of (some seat) = some seat.seat_id

-- The owner's selection moves to the first of the owner's other seats.
abbrev pub reselect :
    List CharacterSeat → (released owner : OpaqueId) → RoomParticipant → RoomParticipant
reselect seats released owner p =
    if same_id p.selected_seat_id released
    then record p { selected_seat_id = id_of (find (λ c. same_id c.participant_id owner) seats) }
    else p

abbrev pub released : RoomState → OpaqueId → Option OpaqueId → RoomState
released s seat_id none = set_seat s seat_id none
released s seat_id (some owner) =
    let next = set_seat s seat_id none in
    set_participant next owner (reselect next.seats seat_id owner)

unfoldable pub apply_seat_released : RoomState → (seat_id : OpaqueId) → Result RoomState
apply_seat_released s seat_id = do
  seat ← require (find (is_seat seat_id) s.seats) "Released seat does not exist."
  ok (released s seat_id seat.participant_id)

unfoldable pub apply_participant :
    RoomState → OpaqueId → (RoomParticipant → RoomParticipant) → String → Result RoomState
apply_participant s id change message = do
  p ← require (named_participant s.participants id) message
  ok (set_participant s id change)

abbrev pub is_workflow : Option PendingWorkflow → OpaqueId → Bool
is_workflow none id = false
is_workflow (some w) id = w.workflow_id == id

abbrev pub fail_workflow : Option PendingWorkflow → Option PendingWorkflow
fail_workflow none = none
fail_workflow (some w) = some (record w { failed = true })

abbrev pub deadline_of_seat : Option ReactionDeadline → OpaqueId → Bool
deadline_of_seat none id = false
deadline_of_seat (some d) id = d.seat_id == id

abbrev pub deadline_of_window : Option ReactionDeadline → OpaqueId → Bool
deadline_of_window none id = false
deadline_of_window (some d) id = d.reaction_window_id == id

abbrev pub pause : Option ReactionDeadline → ℕ → Option ReactionDeadline
pause none remaining = none
pause (some d) remaining = some (record d { paused = true; remaining_ms = some remaining })

abbrev pub unpause : Option ReactionDeadline → OpaqueId → Option ReactionDeadline
unpause none seat = none
unpause (some d) seat = some (if d.seat_id == seat then record d { paused = false } else d)

abbrev pub cleared_text : ReactionResult → String
cleared_text reaction_timeout = "The connected reaction window expired and recorded a pass."
cleared_text reaction_use = "The reaction was recorded as use."
cleared_text reaction_pass = "The reaction was recorded as pass."

abbrev pub is_connected : RecoveryStatus → Bool
is_connected connected = true
is_connected _ = false

abbrev pub recovered : RoomState → Recovery → RoomState
recovered s r =
    let others = filter (λ x. not (x.seat_id == r.seat_id)) s.recoveries in
    if is_connected r.status
    then record s { recoveries = others; reaction_deadline = unpause s.reaction_deadline r.seat_id }
    else record s { recoveries = others ++ r ∷ [] }

abbrev pub is_correction : Option CorrectionRequest → OpaqueId → Bool
is_correction none id = false
is_correction (some c) id = c.correction_request_id == id
