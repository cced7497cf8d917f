-- ===== src/Runtime/Rooms/Advance.antt =====
-- What an event of packages/runtime/src/application/room-replay.ts leaves of a room.
use lldm.Prelude.{
  ◌+◌, ◌≡◌, ap, sym, ◌∙◌, arith, ok, inl, inr, String, find, Option-cases, Result-cases,
}
use mathlib.Core.Path.{subst}
use lldm.Contracts.Ids.{OpaqueId}
use lldm.Contracts.Validation.{success, ValidationResult-cases, conclude-eq-success}
use lldm.Contracts.Rooms.{
  RoomParticipant, RoomState, RoomEvent, RoomEventBody, room_created, room_command_rejected,
  participant_join_requested, participant_approved, participant_rejected, player_host_assigned,
  seat_assigned, seat_released, selected_seat_changed, run_status_changed, guided_beat_changed,
  mechanical_workflow_started, mechanical_workflow_completed, mechanical_workflow_failed,
  private_clue_presented, public_narration_recorded, player_flavor_recorded,
  reaction_deadline_started, reaction_deadline_paused, reaction_deadline_cleared,
  recovery_status_changed, correction_requested, correction_resolved, relay_room_replaced,
  physical_roll_waiting, room_conclusion_recorded, named_participant, validate_room_state,
}
use lldm.Runtime.RoomChanges.{apply_seat_assigned, apply_seat_released, apply_participant, is_seat}
use lldm.Runtime.Rooms.{RoomPlatform, apply_room_body, apply_room_event}

-- The names of a room and its revisions are those of another state of it.
abbrev pub SameRoom : RoomState → RoomState → Type 0
SameRoom s t =
    (t.room_session_id ≡ s.room_session_id)
    × (t.campaign_id ≡ s.campaign_id)
    × (t.mechanical_manifest_hash ≡ s.mechanical_manifest_hash)
    × (t.presentation_manifest_hash ≡ s.presentation_manifest_hash)
    × (t.mode ≡ s.mode)
    × (t.room_revision ≡ s.room_revision)
    × (t.view_revision ≡ s.view_revision)

apply_participant-SameRoom :
    (s t : RoomState) (id : OpaqueId) (change : RoomParticipant → RoomParticipant)
    (message : String)
    → apply_participant s id change message ≡ ok t
    → SameRoom s t
unfolding apply_participant
apply_participant-SameRoom s t id change message h =
    elim (Option-cases (named_participant s.participants id)) [
      | inl n ↦ absurd (ground (arith, n, h))
      | inr (x, q) ↦ ground (arith, q, h)
    ]

apply_seat_assigned-SameRoom :
    (s t : RoomState) (e : RoomEvent) (seat_id id loadout : OpaqueId)
    → apply_seat_assigned s e seat_id id loadout ≡ ok t
    → SameRoom s t
unfolding apply_seat_assigned
apply_seat_assigned-SameRoom s t e seat_id id loadout h =
    elim (Option-cases (find (is_seat seat_id) s.seats)) [
      | inl n ↦ absurd (ground (arith, n, h))
      | inr (seat, q) ↦ elim (Option-cases (named_participant s.participants id)) [
        | inl n ↦ absurd (ground (arith, q, n, h))
        | inr (x, r) ↦ ground (arith, q, r, h)
      ]
    ]

apply_seat_released-SameRoom :
    (s t : RoomState) (seat_id : OpaqueId) → apply_seat_released s seat_id ≡ ok t → SameRoom s t
unfolding apply_seat_released
apply_seat_released-SameRoom s t seat_id h = elim (Option-cases (find (is_seat seat_id) s.seats)) [
  | inl n ↦ absurd (ground (arith, n, h))
  | inr (seat, q) ↦ elim (Option-cases seat.participant_id) [
    | inl n ↦ ground (arith, q, n, h)
    | inr (owner, r) ↦ ground (arith, q, r, h)
  ]
]

apply_room_body-SameRoom :
    (p : RoomPlatform) (s t : RoomState) (e : RoomEvent) (body : RoomEventBody)
    → apply_room_body p s e body ≡ ok t
    → SameRoom s t
unfolding apply_room_body
apply_room_body-SameRoom p s t e (room_created c) h = absurd cc
apply_room_body-SameRoom p s t e room_command_rejected h = ground (arith, h)
apply_room_body-SameRoom p s t e (participant_join_requested id name) h = ground (arith, h)
apply_room_body-SameRoom p s t e (participant_approved id) h =
    apply_participant-SameRoom s t id _ _ h
apply_room_body-SameRoom p s t e (participant_rejected id) h =
    apply_participant-SameRoom s t id _ _ h
apply_room_body-SameRoom p s t e (player_host_assigned id) h = ground (arith, h)
apply_room_body-SameRoom p s t e (seat_assigned seat id loadout) h =
    apply_seat_assigned-SameRoom s t e seat id loadout h
apply_room_body-SameRoom p s t e (seat_released seat) h = apply_seat_released-SameRoom s t seat h
apply_room_body-SameRoom p s t e (selected_seat_changed id seat) h =
    apply_participant-SameRoom s t id _ _ h
apply_room_body-SameRoom p s t e (run_status_changed status) h = ground (arith, h)
apply_room_body-SameRoom p s t e (guided_beat_changed beat option) h = ground (arith, h)
apply_room_body-SameRoom p s t e (mechanical_workflow_started id transaction revision) h =
    ground (arith, h)
apply_room_body-SameRoom p s t e (mechanical_workflow_completed id revision) h = ground (arith, h)
apply_room_body-SameRoom p s t e (mechanical_workflow_failed id) h = ground (arith, h)
apply_room_body-SameRoom p s t e (private_clue_presented clue) h = ground (arith, h)
apply_room_body-SameRoom p s t e (public_narration_recorded text) h = ground (arith, h)
apply_room_body-SameRoom p s t e (player_flavor_recorded text) h = ground (arith, h)
apply_room_body-SameRoom p s t e (reaction_deadline_started seat window at) h = ground (arith, h)
apply_room_body-SameRoom p s t e (reaction_deadline_paused seat remaining) h = ground (arith, h)
apply_room_body-SameRoom p s t e (reaction_deadline_cleared window result) h = ground (arith, h)
apply_room_body-SameRoom p s t e (recovery_status_changed r) h = ground (arith, h)
apply_room_body-SameRoom p s t e (correction_requested c) h = ground (arith, h)
apply_room_body-SameRoom p s t e (correction_resolved id detail) h = ground (arith, h)
apply_room_body-SameRoom p s t e (relay_room_replaced id) h = ground (arith, h)
apply_room_body-SameRoom p s t e (physical_roll_waiting roll) h = ground (arith, h)
apply_room_body-SameRoom p s t e (room_conclusion_recorded conclusion summary) h = ground (arith, h)

-- A valid state of the same room, one revision on.
pub record Advances (p : RoomPlatform) (s t : RoomState) : Type 0 where
  pub valid : validate_room_state p.schema t ≡ success t
  pub one_on : t.room_revision ≡ s.room_revision + 1
  pub view_on : t.view_revision ≡ s.view_revision + 1
  pub same_session : t.room_session_id ≡ s.room_session_id
  pub same_campaign : t.campaign_id ≡ s.campaign_id
  pub same_mechanics : t.mechanical_manifest_hash ≡ s.mechanical_manifest_hash
  pub same_mode : t.mode ≡ s.mode

valid_room_state-same :
    (p : RoomPlatform) (s v : RoomState) → validate_room_state p.schema s ≡ success v → s ≡ v
unfolding validate_room_state
valid_room_state-same p s v h = (conclude-eq-success s _ h).1

-- An event that is accepted leads from a room to a valid state of the same session, campaign, mechanics
-- and mode, with both revisions one higher.
pub apply_room_event-Advances :
    (p : RoomPlatform) (s t : RoomState) (e : RoomEvent)
    → apply_room_event p s e ≡ ok t
    → Advances p s t
unfolding apply_room_event
apply_room_event-Advances p s t e h =
    let moved = record s { room_revision = e.room_revision; view_revision = s.view_revision + 1 } in
    elim (Result-cases (apply_room_body p moved e e.body)) [
      | inr (m, q) ↦ absurd (ground (arith, q, h))
      | inl (next, q) ↦ elim (ValidationResult-cases (validate_room_state p.schema next)) [
        | inr (is, v) ↦ absurd (ground (arith, q, v, h))
        | inl (u, v) ↦
            let kept = apply_room_body-SameRoom p moved next e e.body q in
            let same : next ≡ t = valid_room_state-same p next u v ∙ ground (arith, q, v, h) in
            record {
              valid =
                  subst (λ x. validate_room_state p.schema x ≡ success x) same
                    (v ∙ ap success (sym (valid_room_state-same p next u v)));
              one_on = ground (arith, q, v, h, kept, same);
              view_on = ground (arith, kept, same);
              same_session = ground (arith, kept, same);
              same_campaign = ground (arith, kept, same);
              same_mechanics = ground (arith, kept, same);
              same_mode = ground (arith, kept, same);
            }
      ]
    ]
