-- ===== src/Engine/Compensation/Transactions.antt =====
-- `planTransactionCompensation` and the reducer along a whole transaction.
use lldm.Prelude.{
  ◌≡◌, refl, sym, ap, ◌∙◌, arith, true, some, List, [], ◌∷◌, ◌++◌, map, ◌==◌, inl, inr, ok,
  Option-cases, all,
}
use mathlib.Core.List.{reverse_aux}
use mathlib.Core.Path.{subst}
use lldm.Contracts.Ids.{OpaqueId}
use lldm.Contracts.Validation.{success, ValidationResult-cases}
use lldm.Contracts.GameState.{GameState, SchemaChecks, validate_game_state}
use lldm.Contracts.Events.{EventBody, GameEvent, transaction_compensated}
use lldm.Engine.Apply.Reducer.{apply_body, apply_game_event, apply_events}
use lldm.Engine.Apply.History.{apply_game_event-eq-success}
use lldm.Engine.Apply.Kept.{apply_body-Kept}
use lldm.Engine.Compensation.{
  EventUndoClassification, classify_event_for_undo, inverse_event, non_state_changing, undoable,
  non_undoable, accepted, finish_plan, plan_reversed, plan_transaction_compensation, body_of,
}
use lldm.Engine.Compensation.Plan.{Restorable, inverse_event-undoes, non_state_changing-keeps}

-- Each event of a stream is restorable in the state that it meets.
abbrev pub RestorableAlong : SchemaChecks → GameState → List GameEvent → Type 0
RestorableAlong schema s [] = Unit
RestorableAlong schema s (e ∷ es) =
    Restorable s e.body
    × ((next : GameState)
        → apply_game_event schema s e ≡ success next
        → RestorableAlong schema next es)

-- A run through valid states of one campaign, with its events from the last to the first.
data Ran (schema : SchemaChecks) (start : GameState) : List EventBody → GameState → Type 0 where
  begin : validate_game_state schema start ≡ success start → Ran schema start [] start
  and_then :
      {es : List EventBody} {s t : GameState} (e : EventBody)
      → Ran schema start es s
      → Restorable s e
      → apply_body schema s e ≡ ok t
      → validate_game_state schema t ≡ success t
      → Ran schema start (e ∷ es) t

Ran-valid :
    {schema : SchemaChecks} {start t : GameState} {es : List EventBody}
    → Ran schema start es t
    → (validate_game_state schema t ≡ success t) × (t.campaign_id ≡ start.campaign_id)
Ran-valid (begin v) = (v, refl)
Ran-valid {schema} (and_then {s = s} e ran r h v) =
    (v, (apply_body-Kept schema s e h).0 ∙ (Ran-valid ran).1)

-- The bodies in their order, through valid states of the start's campaign.
abbrev Back : SchemaChecks → GameState → GameState → List EventBody → Type 0
Back schema s start [] = s ≡ start
Back schema s start (b ∷ bs) =
    (next : GameState) × (apply_body schema s b ≡ ok next)
    × (validate_game_state schema next ≡ success next)
    × (next.campaign_id ≡ start.campaign_id)
    × Back schema next start bs

abbrev Planned : SchemaChecks → GameState → GameState → List EventBody → List EventBody → Type 0
Planned schema t start inverses bodies =
    (rest : List EventBody) × (bodies ≡ inverses ++ rest) × Back schema t start rest

append-snoc : (xs ys : List EventBody) (x : EventBody) → (xs ++ x ∷ []) ++ ys ≡ xs ++ x ∷ ys
append-snoc [] ys x = refl
append-snoc (y ∷ xs) ys x = ap (λ zs. y ∷ zs) (append-snoc xs ys x)

finish_plan-accepted :
    (target : OpaqueId) (inverses bodies : List EventBody)
    → finish_plan target inverses ≡ accepted bodies
    → bodies ≡ inverses ++ transaction_compensated target ∷ []
finish_plan-accepted target [] bodies h = absurd cc
finish_plan-accepted target (i ∷ is) bodies h = cc

-- One round of the loop over an accepted plan: the event is passed over, or its inverse is added.
data Round (target : OpaqueId) (inverses : List EventBody) (e : EventBody)
    (es bodies : List EventBody) : Type 0 where
  passed :
      classify_event_for_undo e ≡ non_state_changing
      → plan_reversed target inverses es ≡ accepted bodies
      → Round target inverses e es bodies
  inverted :
      (i : EventBody)
      → inverse_event e ≡ some i
      → plan_reversed target (inverses ++ i ∷ []) es ≡ accepted bodies
      → Round target inverses e es bodies

round :
    (target : OpaqueId) (inverses : List EventBody) (e : EventBody) (es bodies : List EventBody)
    → plan_reversed target inverses (e ∷ es) ≡ accepted bodies
    → Round target inverses e es bodies
unfolding plan_reversed
round target inverses e es bodies h = by_class (classify_event_for_undo e) refl
  where
    by_class :
        (k : EventUndoClassification)
        → classify_event_for_undo e ≡ k
        → Round target inverses e es bodies
    by_class non_state_changing q = passed q (ground (arith, q, h))
    by_class (non_undoable code reason) q = absurd (ground (arith, q, h))
    by_class (undoable kind) q = elim (Option-cases (inverse_event e)) [
      | inl n ↦ absurd (ground (arith, q, n, h))
      | inr (i, m) ↦ inverted i m (ground (arith, q, m, h))
    ]

marker_keeps :
    (schema : SchemaChecks) (s : GameState) (target : OpaqueId)
    → apply_body schema s (transaction_compensated target) ≡ ok s
unfolding apply_body
marker_keeps schema s target = refl

plan_reversed-Planned :
    (schema : SchemaChecks) (target : OpaqueId) {start t : GameState} (inverses : List EventBody)
    {es : List EventBody} (bodies : List EventBody)
    → Ran schema start es t
    → plan_reversed target inverses es ≡ accepted bodies
    → Planned schema t start inverses bodies
unfolding plan_reversed
plan_reversed-Planned schema target {start} inverses bodies (begin v) h = (
  transaction_compensated target ∷ [],
  finish_plan-accepted target inverses bodies h,
  (start, marker_keeps schema start target, v, refl, refl),
)
plan_reversed-Planned schema target {start} inverses bodies (and_then {es = es} {s = s} e ran r a v)
      h =
    elim (round target inverses e es bodies h) [
      | passed q rest ↦
          subst (λ x. Planned schema x start inverses bodies)
            (sym (non_state_changing-keeps schema s e r a q))
            (plan_reversed-Planned schema target inverses bodies ran rest)
      | inverted i q rest ↦
          let (valid, same) = Ran-valid ran in
          let (later, whole, back) =
            plan_reversed-Planned schema target (inverses ++ i ∷ []) bodies ran rest in
          (
            i ∷ later,
            whole ∙ append-snoc inverses later i,
            (s, inverse_event-undoes schema s e i valid r a q, valid, same, back),
          )
    ]

-- An event of the state's campaign is accepted where its handler succeeds in a valid state.
apply_game_event-accepted :
    (schema : SchemaChecks) (s t : GameState) (e : GameEvent)
    → e.campaign_id ≡ s.campaign_id
    → apply_body schema s e.body ≡ ok t
    → validate_game_state schema t ≡ success t
    → apply_game_event schema s e ≡ success t
unfolding apply_game_event
apply_game_event-accepted schema s t e c h v = ground (arith, c, h, v)

apply_events-Back :
    (schema : SchemaChecks) (t start : GameState) (events : List GameEvent)
    → all (λ e. e.campaign_id == start.campaign_id) events ≡ true
    → t.campaign_id ≡ start.campaign_id
    → Back schema t start (map body_of events)
    → apply_events schema t events ≡ success start
unfolding apply_events all
apply_events-Back schema t start [] c q back = ap success back
apply_events-Back schema t start (e ∷ events) c q (next, h, v, same, back) = ground (
  arith,
  apply_game_event-accepted schema t next e (ground (arith, c, q)) h v,
  apply_events-Back schema next start events (ground (arith, c)) same back,
)

success_injective : {s t : GameState} → success s ≡ success t → s ≡ t
success_injective h = cc

accepted-Ran :
    (schema : SchemaChecks) (start s t : GameState) (before : List EventBody)
    (events : List GameEvent)
    → Ran schema start before s
    → apply_events schema s events ≡ success t
    → RestorableAlong schema s events
    → Ran schema start (reverse_aux (map body_of events) before) t
unfolding apply_events
accepted-Ran schema start s t before [] ran h r =
    subst (Ran schema start before) (success_injective h) ran
accepted-Ran schema start s t before (e ∷ events) ran h r =
    elim (ValidationResult-cases (apply_game_event schema s e)) [
      | inl (next, q) ↦
          let (applied, valid, _) = apply_game_event-eq-success schema s e next q in
          accepted-Ran schema start next t (e.body ∷ before) events
            (and_then e.body ran r.0 applied valid) (ground (arith, q, h)) (r.1 next q)
      | inr (is, q) ↦ absurd (ground (arith, q, h))
    ]

-- A transaction that a valid state accepted and whose events are restorable is taken back by its plan:
-- when the compensation is accepted for the transaction, the events that carry it out are all accepted
-- after the transaction, and they end in the state before it.
pub plan_transaction_compensation-undoes :
    (schema : SchemaChecks) (target : OpaqueId) (start t : GameState)
    (events compensation : List GameEvent)
    → validate_game_state schema start ≡ success start
    → apply_events schema start events ≡ success t
    → RestorableAlong schema start events
    → plan_transaction_compensation target events ≡ accepted (map body_of compensation)
    → all (λ e. e.campaign_id == start.campaign_id) compensation ≡ true
    → apply_events schema t compensation ≡ success start
unfolding plan_transaction_compensation
plan_transaction_compensation-undoes schema target start t events compensation v h r plan c =
    let ran = accepted-Ran schema start start t [] events (begin v) h r in
    let (rest, whole, back) =
      plan_reversed-Planned schema target [] (map body_of compensation) ran plan in
    apply_events-Back schema t start compensation c (Ran-valid ran).1
      (subst (Back schema t start) (sym whole) back)
