-- ===== src/Runtime/Store/Undo.antt =====
-- The readers of the store's draft: what `transact` of the in-memory store gives to an operation.
use lldm.Prelude.{
  ℕ, ◌≡◌, refl, arith, Bool, true, false, not, ◌&&◌, ◌||◌, Option, none, some, List, [], ◌∷◌, map,
  find, filter, any, all, includes, leb, ◌==◌, if◌then◌else◌, Bool-cases, inl, inr,
}
use mathlib.Core.Path.{subst⁻¹}
use lldm.Contracts.Ids.{OpaqueId}
use lldm.Contracts.GameState.{GameState}
use lldm.Contracts.Events.{GameEvent}
use lldm.Contracts.Transactions.{TransactionRecord, TransactionOutcome, undo_outcome, is_rejected}
use lldm.Runtime.Store.{
  StoreData, StoredCommand, Campaign, CommittedCommand, is_campaign, is_command,
}

abbrev pub find_command : StoreData → OpaqueId → Option StoredCommand
find_command draft id = find (is_command id) draft.commands

abbrev pub transaction_id_exists : StoreData → OpaqueId → Bool
transaction_id_exists draft id = includes id draft.transaction_ids

pub record CampaignHead : Type 0 where
  pub campaign_id : OpaqueId
  pub revision : ℕ
  pub state : GameState
  pub state_hash : OpaqueId

abbrev pub head_of : Option Campaign → Option CampaignHead
head_of none = none
head_of (some c) = some (record {
  campaign_id = c.campaign_id;
  revision = c.revision;
  state = c.state;
  state_hash = c.state_hash;
})

abbrev pub load_campaign : StoreData → OpaqueId → Option CampaignHead
load_campaign draft id = head_of (find (is_campaign id) draft.campaigns)

abbrev seed_of : Option Campaign → Option (List ℕ)
seed_of none = none
seed_of (some c) = some c.seed

abbrev pub read_campaign_seed : StoreData → OpaqueId → Option (List ℕ)
read_campaign_seed draft id = seed_of (find (is_campaign id) draft.campaigns)

pub record UndoCandidate : Type 0 where
  pub transaction : TransactionRecord
  pub events : List GameEvent
  pub already_compensated : Bool

pub data UndoLookup : Type 0 where
  no_transaction : UndoLookup
  target_not_latest : (latest_transaction_id : OpaqueId) → UndoLookup
  undo_found : UndoCandidate → UndoLookup

-- The filter: a commit of the campaign that was not rejected and that changed the state.
abbrev pub can_undo : OpaqueId → CommittedCommand → Bool
can_undo campaign k =
    k.transaction.campaign_id == campaign
    && not (is_rejected k.transaction.outcome)
    && not (k.transaction.pre_state_hash == k.transaction.post_state_hash)

-- A stable sort from the highest last revision to the lowest.
unfoldable pub insert_by_revision : CommittedCommand → List CommittedCommand → List CommittedCommand
insert_by_revision k [] = k ∷ []
insert_by_revision k (l ∷ ls) =
    let rest = l ∷ insert_by_revision k ls in
    if leb l.transaction.last_revision k.transaction.last_revision then k ∷ l ∷ ls else rest

unfoldable pub sort_by_revision : List CommittedCommand → List CommittedCommand
sort_by_revision [] = []
sort_by_revision (k ∷ ks) = insert_by_revision k (sort_by_revision ks)

abbrev compensates : OpaqueId → TransactionOutcome → Bool
compensates id (undo_outcome target) = target == id
compensates id _ = false

abbrev is_other_target : Option OpaqueId → OpaqueId → Bool
is_other_target none id = false
is_other_target (some target) id = not (target == id)

abbrev pub look_up_latest : Option OpaqueId → List CommittedCommand → UndoLookup
look_up_latest target [] = no_transaction
look_up_latest target (latest ∷ commits) =
    if is_other_target target latest.transaction.transaction_id
    then target_not_latest latest.transaction.transaction_id
    else undo_found (record {
      transaction = latest.transaction;
      events = latest.events;
      already_compensated =
          any (λ k. compensates latest.transaction.transaction_id k.transaction.outcome)
            (latest ∷ commits);
    })

abbrev pub commits_of : StoreData → OpaqueId → List CommittedCommand
commits_of draft campaign = filter (can_undo campaign) (map (λ c. c.commit) draft.commands)

unfoldable pub load_undo_candidate : StoreData → OpaqueId → Option OpaqueId → UndoLookup
load_undo_candidate draft campaign target =
    look_up_latest target (sort_by_revision (commits_of draft campaign))

-- No commit of the list has a higher last revision.
abbrev pub is_latest : ℕ → List CommittedCommand → Bool
is_latest revision = all (λ k. leb k.transaction.last_revision revision)

all-weaken :
    (m n : ℕ) (ks : List CommittedCommand)
    → leb m n ≡ true
    → is_latest m ks ≡ true
    → is_latest n ks ≡ true
unfolding all
all-weaken m n [] le h = refl
all-weaken m n (k ∷ ks) le h = ground (arith, all-weaken m n ks)

any-insert :
    (p : CommittedCommand → Bool) (k : CommittedCommand) (ls : List CommittedCommand)
    → any p (insert_by_revision k ls) ≡ (p k || any p ls)
unfolding insert_by_revision any
any-insert p k [] = ground arith
any-insert p k (l ∷ ls) = ground (arith, any-insert p k ls)

any-sort :
    (p : CommittedCommand → Bool) (ks : List CommittedCommand)
    → any p (sort_by_revision ks) ≡ any p ks
unfolding sort_by_revision any
any-sort p [] = refl
any-sort p (k ∷ ks) = ground (arith, any-insert p k (sort_by_revision ks), any-sort p ks)

abbrev FirstIsLatest : List CommittedCommand → List CommittedCommand → Type 0
FirstIsLatest [] ks = ks ≡ []
FirstIsLatest (l ∷ ls) ks = is_latest l.transaction.last_revision ks ≡ true

insert-front :
    (k l : CommittedCommand) (ls : List CommittedCommand)
    → leb l.transaction.last_revision k.transaction.last_revision ≡ true
    → insert_by_revision k (l ∷ ls) ≡ k ∷ l ∷ ls
unfolding insert_by_revision
insert-front k l ls h = ground (arith, h)

insert-behind :
    (k l : CommittedCommand) (ls : List CommittedCommand)
    → leb l.transaction.last_revision k.transaction.last_revision ≡ false
    → insert_by_revision k (l ∷ ls) ≡ l ∷ insert_by_revision k ls
unfolding insert_by_revision
insert-behind k l ls h = ground (arith, h)

insert-FirstIsLatest :
    (k : CommittedCommand) (ls ks : List CommittedCommand)
    → FirstIsLatest ls ks
    → FirstIsLatest (insert_by_revision k ls) (k ∷ ks)
unfolding insert_by_revision all
insert-FirstIsLatest k [] ks h = ground (arith, h)
insert-FirstIsLatest k (l ∷ ls) ks h =
    let m = l.transaction.last_revision in
    let n = k.transaction.last_revision in
    elim (Bool-cases (leb m n)) [
      | inl e ↦
          subst⁻¹ (λ xs. FirstIsLatest xs (k ∷ ks)) (insert-front k l ls e)
            (ground (arith, all-weaken m n ks e h))
      | inr e ↦
          subst⁻¹ (λ xs. FirstIsLatest xs (k ∷ ks)) (insert-behind k l ls e) (ground (arith, h, e))
    ]

sort-FirstIsLatest : (ks : List CommittedCommand) → FirstIsLatest (sort_by_revision ks) ks
unfolding sort_by_revision
sort-FirstIsLatest [] = refl
sort-FirstIsLatest (k ∷ ks) =
    insert-FirstIsLatest k (sort_by_revision ks) ks (sort-FirstIsLatest ks)

-- What an undo candidate is, among the commits that can be undone.
pub record LatestOf (target : Option OpaqueId) (ks : List CommittedCommand) (c : UndoCandidate)
    : Type 0 where
  pub commit : CommittedCommand
  pub is_commit : (c.transaction ≡ commit.transaction) × (c.events ≡ commit.events)
  pub is_listed : (p : CommittedCommand → Bool) → p commit ≡ true → any p ks ≡ true
  pub is_last : is_latest commit.transaction.last_revision ks ≡ true
  pub is_target : is_other_target target commit.transaction.transaction_id ≡ false
  pub tells_compensated :
      c.already_compensated
      ≡ any (λ k. compensates commit.transaction.transaction_id k.transaction.outcome) ks

look_up-LatestOf :
    (target : Option OpaqueId) (ks sorted : List CommittedCommand) (c : UndoCandidate)
    → FirstIsLatest sorted ks
    → ((p : CommittedCommand → Bool) → any p sorted ≡ any p ks)
    → look_up_latest target sorted ≡ undo_found c
    → LatestOf target ks c
unfolding any
look_up-LatestOf target ks [] c first same h = absurd cc
look_up-LatestOf target ks (l ∷ ls) c first same h = record {
  commit = l;
  is_commit = ground (arith, h);
  is_listed = λ p holds. ground (arith, same p, holds);
  is_last = first;
  is_target = ground (arith, h);
  tells_compensated =
      ground (arith, h, same (λ k. compensates l.transaction.transaction_id k.transaction.outcome));
}

-- A candidate for an undo is a commit of the campaign that was not rejected and changed the state,
-- with the highest last revision of all of them; it is the target that was named, where one was; and
-- it counts as compensated where one of these commits is an undo of it.
pub load_undo_candidate-LatestOf :
    (draft : StoreData) (campaign : OpaqueId) (target : Option OpaqueId) (c : UndoCandidate)
    → load_undo_candidate draft campaign target ≡ undo_found c
    → LatestOf target (commits_of draft campaign) c
unfolding load_undo_candidate
load_undo_candidate-LatestOf draft campaign target c h =
    look_up-LatestOf target (commits_of draft campaign)
      (sort_by_revision (commits_of draft campaign)) c
      (sort-FirstIsLatest (commits_of draft campaign)) (λ p. any-sort p (commits_of draft campaign))
      h
