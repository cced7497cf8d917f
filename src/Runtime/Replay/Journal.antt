-- ===== src/Runtime/Replay/Journal.antt =====
-- A history as packages/runtime/src/application/replay.ts reads it, transaction by transaction.
use lldm.Prelude.{
  ℕ, ◌+◌, ◌≡◌, refl, ap, sym, ◌∙◌, arith, Bool, true, false, not, ◌||◌, List, [], ◌∷◌, ◌++◌, map,
  length, includes, ◌==◌, filter, all,
}
use mathlib.Core.Path.{subst}
use mathlib.Core.List.{append-nil, append_assoc}
use lldm.Contracts.Ids.{OpaqueId}
use lldm.Contracts.GameState.{GameState}
use lldm.Contracts.Transactions.{TransactionRecord}
use lldm.Contracts.Events.{GameEvent}
use lldm.Runtime.Replay.{replayed, ReplayPlatform, events_of, replay_from}
use lldm.Runtime.Replay.Transactions.{
  revision_after, revision_after-append, Recorded, replay_from-append, replay_from-Recorded,
}

abbrev pub ids_of : List TransactionRecord → List OpaqueId
ids_of = map (λ t. t.transaction_id)

-- No event, or every event, belongs to one of the transactions.
abbrev pub apart : List OpaqueId → List GameEvent → Bool
apart ids = all (λ e. not (includes e.transaction_id ids))

abbrev within : List OpaqueId → List GameEvent → Bool
within ids = all (λ e. includes e.transaction_id ids)

-- A journal: transactions, their events, and the revision and the state that they lead to.
pub data Journal (p : ReplayPlatform) (campaign : OpaqueId) (start : GameState)
    : List TransactionRecord → List GameEvent → ℕ → GameState → Type 0 where
  opens : Journal p campaign start [] [] 0 start
  records :
      {ts : List TransactionRecord} {es : List GameEvent} {revision : ℕ} {s : GameState}
      (next : GameState) (t : TransactionRecord) (own : List GameEvent)
      → Journal p campaign start ts es revision s
      → Recorded p campaign revision s next t own
      → includes t.transaction_id (ids_of ts) ≡ false
      → Journal p campaign start (ts ++ t ∷ []) (es ++ own) (revision + length own) next

ids_of-snoc :
    (ts : List TransactionRecord) (t : TransactionRecord) (id : OpaqueId)
    → includes id (ids_of (ts ++ t ∷ [])) ≡ (includes id (ids_of ts) || id == t.transaction_id)
ids_of-snoc [] t id = ground arith
ids_of-snoc (u ∷ ts) t id = ground (arith, ids_of-snoc ts t id)

all-append-true :
    (q : GameEvent → Bool) (es fs : List GameEvent)
    → all q es ≡ true
    → all q fs ≡ true
    → all q (es ++ fs) ≡ true
unfolding all
all-append-true q [] fs h k = k
all-append-true q (e ∷ es) fs h k = ground (arith, h, all-append-true q es fs, k)

events_of-append :
    (id : OpaqueId) (es fs : List GameEvent)
    → events_of id (es ++ fs) ≡ events_of id es ++ events_of id fs
unfolding filter
events_of-append id [] fs = refl
events_of-append id (e ∷ es) fs = ground (arith, events_of-append id es fs)

events_of-own :
    (id : OpaqueId) (es : List GameEvent)
    → all (λ e. e.transaction_id == id) es ≡ true
    → events_of id es ≡ es
unfolding filter all
events_of-own id [] h = refl
events_of-own id (e ∷ es) h = ground (arith, h, events_of-own id es)

-- The events of other transactions are passed over.
events_of-within :
    (id : OpaqueId) (ids : List OpaqueId) (es : List GameEvent)
    → within ids es ≡ true
    → includes id ids ≡ false
    → events_of id es ≡ []
unfolding filter all
events_of-within id ids [] h n = refl
events_of-within id ids (e ∷ es) h n = ground (arith, h, n, events_of-within id ids es)

events_of-apart :
    (id : OpaqueId) (ids : List OpaqueId) (es : List GameEvent)
    → apart ids es ≡ true
    → includes id ids ≡ true
    → events_of id es ≡ []
unfolding filter all
events_of-apart id ids [] h n = refl
events_of-apart id ids (e ∷ es) h n = ground (arith, h, n, events_of-apart id ids es)

events_found :
    (id : OpaqueId) (es own more : List GameEvent)
    → events_of id es ≡ []
    → events_of id own ≡ own
    → events_of id more ≡ []
    → events_of id ((es ++ own) ++ more) ≡ own
events_found id es own more h k l =
    events_of-append id (es ++ own) more
    ∙ (ap (λ xs. xs ++ events_of id more) (events_of-append id es own)
        ∙ ground (arith, h, k, l, append-nil own))

within-snoc :
    (ts : List TransactionRecord) (t : TransactionRecord) (es : List GameEvent)
    → within (ids_of ts) es ≡ true
    → within (ids_of (ts ++ t ∷ [])) es ≡ true
unfolding all
within-snoc ts t [] h = refl
within-snoc ts t (e ∷ es) h =
    ground (arith, h, ids_of-snoc ts t e.transaction_id, within-snoc ts t es)

own-within :
    (ts : List TransactionRecord) (t : TransactionRecord) (es : List GameEvent)
    → all (λ e. e.transaction_id == t.transaction_id) es ≡ true
    → within (ids_of (ts ++ t ∷ [])) es ≡ true
unfolding all
own-within ts t [] h = refl
own-within ts t (e ∷ es) h =
    ground (arith, h, ids_of-snoc ts t e.transaction_id, own-within ts t es)

own-apart :
    (ids : List OpaqueId) (id : OpaqueId) (es : List GameEvent)
    → all (λ e. e.transaction_id == id) es ≡ true
    → includes id ids ≡ false
    → apart ids es ≡ true
unfolding all
own-apart ids id [] h n = refl
own-apart ids id (e ∷ es) h n = ground (arith, h, n, own-apart ids id es)

apart-shrinks :
    (ts : List TransactionRecord) (t : TransactionRecord) (es : List GameEvent)
    → apart (ids_of (ts ++ t ∷ [])) es ≡ true
    → apart (ids_of ts) es ≡ true
unfolding all
apart-shrinks ts t [] h = refl
apart-shrinks ts t (e ∷ es) h =
    ground (arith, h, ids_of-snoc ts t e.transaction_id, apart-shrinks ts t es)

module _ (p : ReplayPlatform) (campaign : OpaqueId) (start : GameState) where
  Journal-within :
      {ts : List TransactionRecord} {es : List GameEvent} {revision : ℕ} {s : GameState}
      → Journal p campaign start ts es revision s
      → within (ids_of ts) es ≡ true
  unfolding all
  Journal-within opens = refl
  Journal-within (records {ts = ts} {es = es} next t own j r n) =
      all-append-true (λ e. includes e.transaction_id (ids_of (ts ++ t ∷ []))) es own
        (within-snoc ts t es (Journal-within j)) (own-within ts t own r.owned)

  Journal-revision :
      {ts : List TransactionRecord} {es : List GameEvent} {revision : ℕ} {s : GameState}
      → Journal p campaign start ts es revision s
      → revision_after 0 0 ts ≡ revision
  unfolding revision_after
  Journal-revision opens = refl
  Journal-revision (records {ts = ts} {revision = revision} next t own j r n) =
      ground
        (arith, revision_after-append 0 0 ts (t ∷ []), Journal-revision j, r.last_is, r.some_event)

  replays_along :
      {ts : List TransactionRecord} {es : List GameEvent} {revision : ℕ} {s : GameState}
      (more : List GameEvent)
      → Journal p campaign start ts es revision s
      → apart (ids_of ts) more ≡ true
      → replay_from p campaign 0 (es ++ more) start 0 ts ≡ replayed s
  unfolding replay_from
  replays_along more opens a = refl
  replays_along more (records {ts = ts} {es = es} {revision = revision} {s = s} next t own j r n)
        a =
      let id = t.transaction_id in
      let whole = (es ++ own) ++ more in
      let before : replay_from p campaign 0 whole start 0 ts ≡ replayed s =
        subst (λ x. replay_from p campaign 0 x start 0 ts ≡ replayed s)
          (sym (append_assoc es own more))
          (replays_along (own ++ more) j (
            all-append-true (λ e. not (includes e.transaction_id (ids_of ts))) own more
              (own-apart (ids_of ts) id own r.owned n) (apart-shrinks ts t more a))) in
      let listed : includes id (ids_of (ts ++ t ∷ [])) ≡ true =
        ground (arith, ids_of-snoc ts t id) in
      let found =
        events_found id es own more (events_of-within id (ids_of ts) es (Journal-within j) n)
          (events_of-own id own r.owned)
          (events_of-apart id (ids_of (ts ++ t ∷ [])) more a listed) in
      replay_from-append p campaign 0 whole start s 0 ts (t ∷ []) before
      ∙ subst (λ m. replay_from p campaign 0 whole s m (t ∷ []) ≡ replayed next)
          (sym (Journal-revision j))
          (replay_from-Recorded p campaign whole own s next revision t r found)

  -- The replay of a journal from its start ends in its state.
  pub Journal-replays :
      {ts : List TransactionRecord} {es : List GameEvent} {revision : ℕ} {s : GameState}
      → Journal p campaign start ts es revision s
      → replay_from p campaign 0 es start 0 ts ≡ replayed s
  Journal-replays {ts} {es} {revision} {s} j =
      subst (λ x. replay_from p campaign 0 x start 0 ts ≡ replayed s) (append-nil es)
        (replays_along [] j (unfold all in refl))
