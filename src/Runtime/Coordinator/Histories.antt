-- ===== src/Runtime/Coordinator/Histories.antt =====
-- The transactions of a campaign among the commands of the store of
-- packages/runtime/src/application/in-memory-store.ts.
use lldm.Prelude.{
  ◌≡◌, refl, arith, false, List, [], ◌∷◌, ◌++◌, map, filter, ◌==◌, includes, inl, inr, ◌||◌,
  Bool-cases,
}
use lldm.Prelude.Names.{Within}
use lldm.Contracts.Ids.{OpaqueId}
use lldm.Contracts.Transactions.{TransactionRecord}
use lldm.Runtime.Store.{StoredCommand}
use lldm.Runtime.Replay.Journal.{ids_of}

abbrev pub transactions_in : OpaqueId → List StoredCommand → List TransactionRecord
transactions_in id commands =
    map (λ s. s.commit.transaction) (filter (λ s. s.commit.transaction.campaign_id == id) commands)

abbrev pub names_in : List StoredCommand → List OpaqueId
names_in = map (λ s. s.commit.transaction.transaction_id)

pub transactions_in-same :
    (id : OpaqueId) (commands : List StoredCommand) (s : StoredCommand)
    → s.commit.transaction.campaign_id ≡ id
    → transactions_in id (commands ++ s ∷ [])
      ≡ transactions_in id commands ++ s.commit.transaction ∷ []
unfolding filter
transactions_in-same id [] s h = ground (arith, h)
transactions_in-same id (x ∷ commands) s h =
    elim (Bool-cases (x.commit.transaction.campaign_id == id)) [
      | inl b ↦ ground (arith, b, transactions_in-same id commands s h)
      | inr b ↦ ground (arith, b, transactions_in-same id commands s h)
    ]

pub transactions_in-other :
    (id : OpaqueId) (commands : List StoredCommand) (s : StoredCommand)
    → (s.commit.transaction.campaign_id == id) ≡ false
    → transactions_in id (commands ++ s ∷ []) ≡ transactions_in id commands
unfolding filter
transactions_in-other id [] s h = ground (arith, h)
transactions_in-other id (x ∷ commands) s h =
    elim (Bool-cases (x.commit.transaction.campaign_id == id)) [
      | inl b ↦ ground (arith, b, transactions_in-other id commands s h)
      | inr b ↦ ground (arith, b, transactions_in-other id commands s h)
    ]

-- A transaction of one campaign is a transaction of the store.
pub ids_of-within :
    (id campaign : OpaqueId) (commands : List StoredCommand)
    → includes id (names_in commands) ≡ false
    → includes id (ids_of (transactions_in campaign commands)) ≡ false
unfolding filter
ids_of-within id campaign [] h = refl
ids_of-within id campaign (x ∷ commands) h =
    elim (Bool-cases (x.commit.transaction.campaign_id == campaign)) [
      | inl b ↦ ground (arith, b, h, ids_of-within id campaign commands)
      | inr b ↦ ground (arith, b, h, ids_of-within id campaign commands)
    ]

pub includes-names_in-snoc :
    (id : OpaqueId) (commands : List StoredCommand) (s : StoredCommand)
    → includes id (names_in (commands ++ s ∷ []))
      ≡ (includes id (names_in commands) || id == s.commit.transaction.transaction_id)
includes-names_in-snoc id [] s = ground arith
includes-names_in-snoc id (x ∷ commands) s = ground (arith, includes-names_in-snoc id commands s)

pub includes-snoc :
    (id new : OpaqueId) (ids : List OpaqueId)
    → includes id (ids ++ new ∷ []) ≡ (includes id ids || id == new)
includes-snoc id new [] = ground arith
includes-snoc id new (x ∷ ids) = ground (arith, includes-snoc id new ids)

pub not_named :
    (id : OpaqueId) (names ids : List OpaqueId)
    → Within names ids
    → includes id ids ≡ false
    → includes id names ≡ false
not_named id names ids w h = elim (Bool-cases (includes id names)) [
  | inl b ↦ absurd (ground (arith, w id b, h))
  | inr b ↦ b
]
