-- ===== src/Runtime/Rooms/Replay.antt =====
-- replayRoom of packages/runtime/src/application/room-replay.ts, with hashRoomState of
-- packages/runtime/src/hashing/room-state-hash.ts. The events from the index on are a list.
use lldm.Prelude.{
  ℕ, ◌+◌, zero, suc, Bool, true, false, not, ◌&&◌, Option, none, some, List, [], ◌∷◌, ◌==◌, Result,
  ok, err, ◌>>=◌, ◌>>◌, guard, require,
}
use lldm.Contracts.Ids.{OpaqueId}
use lldm.Contracts.Validation.{ValidationResult, success, failure}
use lldm.Contracts.Rooms.{RoomState, RoomEvent, RoomTransaction, validate_room_state}
use lldm.Runtime.Rooms.{RoomPlatform, apply_room_event, initial_room_state_from_event}

abbrev digested : RoomPlatform → ValidationResult RoomState → Result OpaqueId
digested p (success s) = ok (p.digest s)
digested p (failure is) = err "Room state failed canonical validation."

unfoldable pub hash_room_state : RoomPlatform → RoomState → Result OpaqueId
hash_room_state p s = digested p (validate_room_state p.schema s)

-- The state of the loop: the room, if there is one, and the events that are left.
pub record RoomRun : Type 0 where
  pub room : Option RoomState
  pub left : List RoomEvent

abbrev pub step_room : RoomPlatform → Option RoomState → RoomEvent → Result RoomState
step_room p none e = initial_room_state_from_event p e
step_room p (some s) e = apply_room_event p s e

-- The inner loop, with the number of rounds that are left.
unfoldable pub replay_room_events :
    RoomPlatform → RoomTransaction → (index count : ℕ) → RoomRun → Result RoomRun
replay_room_events p t index zero run = ok run
replay_room_events p t index (suc count) run = elim run.left [
  | [] ↦ err "Room transaction event range is corrupt."
  | e ∷ es ↦
      guard (e.room_transaction_id == t.room_transaction_id && e.transaction_index == index)
        "Room transaction event range is corrupt."
      >> step_room p run.room e
      >>= λ s. replay_room_events p t (index + 1) count (record { room = some s; left = es })
]

abbrev pub first_of : List RoomEvent → Option RoomEvent
first_of [] = none
first_of (e ∷ es) = some e

abbrev pub boundary :
    RoomPlatform → Option RoomState → RoomEvent → RoomTransaction → Result (Unit {0})
boundary p none first t =
    guard
      (first.room_revision == 1
        && t.first_room_revision == 1
        && t.pre_room_state_hash == t.post_room_state_hash)
      "Room creation boundary mismatch."
boundary p (some s) first t = do
  hash ← hash_room_state p s
  guard (hash == t.pre_room_state_hash) "Room transaction pre-state boundary mismatch."

unfoldable pub replay_room_transaction : RoomPlatform → RoomRun → RoomTransaction → Result RoomRun
replay_room_transaction p run t = do
  first ← require (first_of run.left) "Room transaction first revision mismatch."
  guard (first.room_revision == t.first_room_revision) "Room transaction first revision mismatch."
  bounded ← boundary p run.room first t
  after ← replay_room_events p t 0 t.event_count run
  s ← require after.room "Room transaction post-state boundary mismatch."
  hash ← hash_room_state p s
  guard (hash == t.post_room_state_hash) "Room transaction post-state boundary mismatch."
  ok after

unfoldable pub replay_room_transactions :
    RoomPlatform → RoomRun → List RoomTransaction → Result RoomRun
replay_room_transactions p run [] = ok run
replay_room_transactions p run (t ∷ ts) =
    replay_room_transaction p run t >>= λ next. replay_room_transactions p next ts

abbrev pub is_empty : List RoomEvent → Bool
is_empty [] = true
is_empty (e ∷ es) = false

abbrev pub expected_head : RoomPlatform → RoomState → Option OpaqueId → Result (Unit {0})
expected_head p s none = ok tt
expected_head p s (some expected) = do
  hash ← hash_room_state p s
  guard (hash == expected) "Room replay head hash mismatch."

unfoldable pub replay_room :
    RoomPlatform
    → List RoomEvent
    → List RoomTransaction
    → (expected_head_hash : Option OpaqueId) → Result RoomState
replay_room p events transactions expected = do
  guard (not (is_empty events)) "Room replay requires at least room_created."
  run ← replay_room_transactions p (record { room = none; left = events }) transactions
  s ← require run.room "Room replay did not consume the full stream."
  guard (is_empty run.left) "Room replay did not consume the full stream."
  checked ← expected_head p s expected
  ok s
