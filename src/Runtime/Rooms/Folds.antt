-- ===== src/Runtime/Rooms/Folds.antt =====
-- What a replay of packages/runtime/src/application/room-replay.ts computes, beside its comparisons.
use lldm.Prelude.{
  ℕ, ◌+◌, zero, suc, ◌≡◌, refl, ap, sym, ◌∙◌, arith, true, Option, none, some, List, [], ◌∷◌, ◌++◌,
  length, Result, ok, ◌>>=◌, inl, inr, Option-cases, Result-cases,
}
use mathlib.Core.Path.{subst}
use mathlib.Core.List.{append-nil, append_assoc}
use lldm.Contracts.Ids.{OpaqueId}
use lldm.Contracts.Validation.{success, ValidationResult-cases, conclude-eq-success}
use lldm.Contracts.Rooms.{RoomState, RoomEvent, RoomTransaction, validate_room_state}
use lldm.Runtime.Rooms.{
  RoomPlatform, apply_room_event, initial_room_state_from_event, created_from, creation_of,
}
use lldm.Runtime.Rooms.Advance.{apply_room_event-Advances}
use lldm.Runtime.Rooms.Replay.{
  RoomRun, step_room, boundary, first_of, hash_room_state, replay_room_events,
  replay_room_transaction, replay_room_transactions, expected_head, is_empty, replay_room,
}

-- The events one after the other, without a look at transactions.
unfoldable pub fold_room :
    RoomPlatform → Option RoomState → List RoomEvent → Result (Option RoomState)
fold_room p o [] = ok o
fold_room p o (e ∷ es) = step_room p o e >>= λ s. fold_room p (some s) es

fold_room-append :
    (p : RoomPlatform) (o middle : Option RoomState) (es fs : List RoomEvent)
    → fold_room p o es ≡ ok middle
    → fold_room p o (es ++ fs) ≡ fold_room p middle fs
unfolding fold_room
fold_room-append p o middle [] fs h = ground (arith, h)
fold_room-append p o middle (e ∷ es) fs h = elim (Result-cases (step_room p o e)) [
  | inr (m, q) ↦ absurd (ground (arith, q, h))
  | inl (s, q) ↦ ground (arith, q, fold_room-append p (some s) middle es fs (ground (arith, q, h)))
]

-- A part of a replay took some events off the front and folded them.
record Took (p : RoomPlatform) (run after : RoomRun) : Type 0 where
  used : List RoomEvent
  front : run.left ≡ used ++ after.left
  folds : fold_room p run.room used ≡ ok after.room

Took-nothing : (p : RoomPlatform) (run : RoomRun) → Took p run run
unfolding fold_room
Took-nothing p run = record { used = []; front = refl; folds = refl }

Took-both :
    (p : RoomPlatform) (run middle after : RoomRun)
    → Took p run middle
    → Took p middle after
    → Took p run after
Took-both p run middle after a b = record {
  used = a.used ++ b.used;
  front = a.front ∙ (ap (λ es. a.used ++ es) b.front ∙ sym (append_assoc a.used b.used after.left));
  folds = fold_room-append p run.room middle.room a.used b.used a.folds ∙ b.folds;
}

events-Took :
    (p : RoomPlatform) (t : RoomTransaction) (index count : ℕ) (o : Option RoomState)
    (left : List RoomEvent) (after : RoomRun)
    → replay_room_events p t index count (record { room = o; left = left }) ≡ ok after
    → Took p (record { room = o; left = left }) after
unfolding replay_room_events fold_room
events-Took p t index zero o left after h =
    subst (Took p (record { room = o; left = left })) (ground (arith, h)) (Took-nothing p _)
events-Took p t index (suc count) o [] after h = absurd (ground (arith, h))
events-Took p t index (suc count) o (e ∷ es) after h = elim (Result-cases (step_room p o e)) [
  | inr (m, q) ↦ absurd (ground (arith, q, h))
  | inl (s, q) ↦
      let rest = events-Took p t (index + 1) count (some s) es after (ground (arith, q, h)) in
      record {
        used = e ∷ rest.used;
        front = ap (λ xs. e ∷ xs) rest.front;
        folds = ground (arith, q, rest.folds);
      }
]

transaction-Took :
    (p : RoomPlatform) (run after : RoomRun) (t : RoomTransaction)
    → replay_room_transaction p run t ≡ ok after
    → Took p run after
unfolding replay_room_transaction
transaction-Took p run after t h = elim (Option-cases (first_of run.left)) [
  | inl n ↦ absurd (ground (arith, n, h))
  | inr (first, q) ↦ elim (Result-cases (boundary p run.room first t)) [
    | inr (m, b) ↦ absurd (ground (arith, q, b, h))
    | inl (done, b) ↦ elim (Result-cases (replay_room_events p t 0 t.event_count run)) [
      | inr (m, r) ↦ absurd (ground (arith, q, b, r, h))
      | inl (u, r) ↦ elim (Option-cases u.room) [
        | inl n ↦ absurd (ground (arith, q, b, r, n, h))
        | inr (s, w) ↦ elim (Result-cases (hash_room_state p s)) [
          | inr (m, k) ↦ absurd (ground (arith, q, b, r, w, k, h))
          | inl (hash, k) ↦
              let same : u ≡ after = ground (arith, q, b, r, w, k, h) in
              subst (Took p run) same (events-Took p t 0 t.event_count run.room run.left u r)
        ]
      ]
    ]
  ]
]

transactions-Took :
    (p : RoomPlatform) (run after : RoomRun) (ts : List RoomTransaction)
    → replay_room_transactions p run ts ≡ ok after
    → Took p run after
unfolding replay_room_transactions
transactions-Took p run after [] h = subst (Took p run) (ground (arith, h)) (Took-nothing p run)
transactions-Took p run after (t ∷ ts) h = elim (Result-cases (replay_room_transaction p run t)) [
  | inr (m, q) ↦ absurd (ground (arith, q, h))
  | inl (u, q) ↦
      Took-both p run u after (transaction-Took p run u t q)
        (transactions-Took p u after ts (ground (arith, q, h)))
]

-- A room that a stream leads to.
pub record Replays (p : RoomPlatform) (events : List RoomEvent) (s : RoomState) : Type 0 where
  pub folds : fold_room p none events ≡ ok (some s)
  pub counted : s.room_revision ≡ length events
  pub viewed : s.view_revision ≡ length events
  pub valid : validate_room_state p.schema s ≡ success s

-- A room that was created stands at revision one and is valid.
record Begun (p : RoomPlatform) (s : RoomState) : Type 0 where
  revision_one : s.room_revision ≡ 1
  view_one : s.view_revision ≡ 1
  is_valid : validate_room_state p.schema s ≡ success s

initial-Begun :
    (p : RoomPlatform) (e : RoomEvent) (s : RoomState)
    → initial_room_state_from_event p e ≡ ok s
    → Begun p s
unfolding initial_room_state_from_event validate_room_state
initial-Begun p e s h = elim (Option-cases (creation_of e.body)) [
  | inl n ↦ absurd (ground (arith, n, h))
  | inr (c, q) ↦
      let made = created_from e c in
      elim (ValidationResult-cases (validate_room_state p.schema made)) [
        | inr (is, v) ↦ absurd (ground (arith, q, v, h))
        | inl (u, v) ↦
            let kept : made ≡ u = (conclude-eq-success made _ v).1 in
            let same : made ≡ s = kept ∙ ground (arith, q, v, h) in
            record {
              revision_one = ap (λ x. x.room_revision) (sym same);
              view_one = ap (λ x. x.view_revision) (sym same);
              is_valid =
                  subst (λ x. validate_room_state p.schema x ≡ success x) same
                    (v ∙ ap success (sym kept));
            }
      ]
]

-- The revisions that a stream adds, and the validity that it keeps.
record Grown (p : RoomPlatform) (s t : RoomState) (es : List RoomEvent) : Type 0 where
  revisions : t.room_revision ≡ s.room_revision + length es
  views : t.view_revision ≡ s.view_revision + length es
  still_valid : validate_room_state p.schema t ≡ success t

fold_room-Grown :
    (p : RoomPlatform) (s t : RoomState) (es : List RoomEvent)
    → validate_room_state p.schema s ≡ success s
    → fold_room p (some s) es ≡ ok (some t)
    → Grown p s t es
unfolding fold_room
fold_room-Grown p s t [] v h =
    let same : s ≡ t = ground (arith, h) in
    record {
      revisions = ground (arith, same);
      views = ground (arith, same);
      still_valid = subst (λ x. validate_room_state p.schema x ≡ success x) same v;
    }
fold_room-Grown p s t (e ∷ es) v h = elim (Result-cases (apply_room_event p s e)) [
  | inr (m, q) ↦ absurd (ground (arith, q, h))
  | inl (u, q) ↦
      let advanced = apply_room_event-Advances p s u e q in
      let grown = fold_room-Grown p u t es advanced.valid (ground (arith, q, h)) in
      record {
        revisions = omega (arith, grown.revisions, advanced.one_on);
        views = omega (arith, grown.views, advanced.view_on);
        still_valid = grown.still_valid;
      }
]

fold_room-Replays :
    (p : RoomPlatform) (events : List RoomEvent) (s : RoomState)
    → fold_room p none events ≡ ok (some s)
    → Replays p events s
unfolding fold_room
fold_room-Replays p [] s h = absurd (ground (arith, h))
fold_room-Replays p (e ∷ es) s h = elim (Result-cases (initial_room_state_from_event p e)) [
  | inr (m, q) ↦ absurd (ground (arith, q, h))
  | inl (u, q) ↦
      let begun = initial-Begun p e u q in
      let grown = fold_room-Grown p u s es begun.is_valid (ground (arith, q, h)) in
      record {
        folds = h;
        counted = omega (arith, grown.revisions, begun.revision_one);
        viewed = omega (arith, grown.views, begun.view_one);
        valid = grown.still_valid;
      }
]

no_left : (es : List RoomEvent) → is_empty es ≡ true → es ≡ []
no_left [] h = refl
no_left (e ∷ es) h = absurd (ground (arith, h))

-- A room replay that succeeds is the fold of the whole stream, from the event that created the room:
-- its result is valid, and both of its revisions count the events.
pub replay_room-Replays :
    (p : RoomPlatform) (events : List RoomEvent) (transactions : List RoomTransaction)
    (expected : Option OpaqueId) (s : RoomState)
    → replay_room p events transactions expected ≡ ok s
    → Replays p events s
unfolding replay_room
replay_room-Replays p events transactions expected s h =
    let start : RoomRun = record { room = none; left = events } in
    elim (Result-cases (replay_room_transactions p start transactions)) [
      | inr (m, q) ↦ absurd (ground (arith, q, h))
      | inl (run, q) ↦ elim (Option-cases run.room) [
        | inl n ↦ absurd (ground (arith, q, n, h))
        | inr (u, r) ↦ elim (Result-cases (expected_head p u expected)) [
          | inr (m, w) ↦ absurd (ground (arith, q, r, w, h))
          | inl (done, w) ↦
              let took = transactions-Took p start run transactions q in
              let same : u ≡ s = ground (arith, q, r, w, h) in
              let whole : events ≡ took.used =
                took.front
                ∙ (ap (λ es. took.used ++ es) (no_left run.left (ground (arith, q, r, w, h)))
                    ∙ append-nil took.used) in
              fold_room-Replays p events s
                (ap (fold_room p none) whole ∙ (took.folds ∙ ap ok (r ∙ ap some same)))
        ]
      ]
    ]
