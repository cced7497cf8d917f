-- ===== src/Runtime/Coordinator/Answers.antt =====
-- The answers to a submission: packages/runtime/src/application/coordinator.ts by its branches.
use lldm.Prelude.{
  ◌≡◌, refl, arith, Option, none, some, ok, ◌==◌, inl, inr, Bool-cases, Result-cases,
}
use mathlib.Core.Path.{subst}
use lldm.Contracts.Ids.{OpaqueId}
use lldm.Runtime.Ports.{GameCommand, Ports}
use lldm.Runtime.Store.{
  StoreData, StoredCommand, CommittedCommand, Readiness, current, recovery_required,
  migration_required, incompatible, hash_game_state, Draft,
}
use lldm.Runtime.Store.Undo.{CampaignHead, transaction_id_exists, load_campaign}
use lldm.Runtime.Commitment.{Verdict, accepting, rejecting, undoing, commit_decision}
use lldm.Runtime.Commitment.Made.{Made, commit_decision-Made}
use lldm.Runtime.Coordinator.{
  Submission, committed_acceptance, committed_rejection, idempotent_replay, failed, reported,
  concluded, verdict_on, submit_with, submit_to, submit_new, submit_found,
}

-- The commit of an answer that makes one.
abbrev pub new_commit : Submission → Option CommittedCommand
new_commit (committed_acceptance commit) = some commit
new_commit (committed_rejection commit) = some commit
new_commit (idempotent_replay commit) = none
new_commit (failed code detail issues) = none

pub new_commit-reported :
    (v : Verdict) (commit : CommittedCommand) → new_commit (reported v commit) ≡ some commit
new_commit-reported (accepting events) commit = refl
new_commit-reported (rejecting code detail) commit = refl
new_commit-reported (undoing target events) commit = refl

module _ {Raw Payload Catalog : Type 0} (p : Ports Raw Payload Catalog) where
  -- A commit that answers a command: the head, the verdict and the steps of the commit.
  pub record Commits (now : OpaqueId) (store : StoreData) (c : GameCommand Payload)
      (d : Draft Submission) : Type 0 where
    pub head : CampaignHead
    pub catalog : Catalog
    pub verdict : Verdict
    pub commit : CommittedCommand
    pub loaded : load_campaign store c.campaign_id ≡ some head
    pub decided_as : verdict_on p store c head catalog ≡ ok verdict
    pub made : Made p store c head now verdict (record { draft = d.draft; value = commit })
    pub answers : d.value ≡ reported verdict commit

  pub data Answer (now : OpaqueId) (store : StoreData) (c : GameCommand Payload)
      (d : Draft Submission) : Type 0 where
    kept : d.draft ≡ store → new_commit d.value ≡ none → Answer now store c d
    commits : Commits now store c d → Answer now store c d

  concluded-Commits :
      (now : OpaqueId) (store : StoreData) (c : GameCommand Payload) (head : CampaignHead)
      (catalog : Catalog) (v : Verdict) (d : Draft Submission)
      → load_campaign store c.campaign_id ≡ some head
      → verdict_on p store c head catalog ≡ ok v
      → concluded p store c head now catalog v ≡ ok d
      → Commits now store c d
  unfolding concluded
  concluded-Commits now store c head catalog v d l q h =
      elim (Result-cases (commit_decision p store c head now catalog v)) [
        | inr (e, r) ↦ absurd (ground (arith, r, h))
        | inl (made, r) ↦
            let same : record { draft = made.draft; value = reported v made.value } ≡ d =
              ground (arith, r, h) in
            subst (Commits now store c) same (record {
              head = head;
              catalog = catalog;
              verdict = v;
              commit = made.value;
              loaded = l;
              decided_as = q;
              made = commit_decision-Made p store c head now catalog v made r;
              answers = refl;
            })
      ]

  submit_with-Answer :
      (now : OpaqueId) (store : StoreData) (c : GameCommand Payload) (head : CampaignHead)
      (content : Option Catalog) (d : Draft Submission)
      → load_campaign store c.campaign_id ≡ some head
      → submit_with p now store c head content ≡ ok d
      → Answer now store c d
  unfolding submit_with
  submit_with-Answer now store c head none d l h = kept (ground (arith, h)) (ground (arith, h))
  submit_with-Answer now store c head (some catalog) d l h =
      elim (Bool-cases (p.is_rfc3339_milliseconds now)) [
        | inr b ↦ absurd (ground (arith, b, h))
        | inl b ↦ elim (Result-cases (verdict_on p store c head catalog)) [
          | inr (e, q) ↦ absurd (ground (arith, b, q, h))
          | inl (v, q) ↦
              commits (concluded-Commits now store c head catalog v d l q (ground (arith, b, q, h)))
        ]
      ]

  submit_to-Answer :
      (now : OpaqueId) (store : StoreData) (c : GameCommand Payload) (head : Option CampaignHead)
      (d : Draft Submission)
      → load_campaign store c.campaign_id ≡ head
      → submit_to p now store c head ≡ ok d
      → Answer now store c d
  unfolding submit_to
  submit_to-Answer now store c none d l h = kept (ground (arith, h)) (ground (arith, h))
  submit_to-Answer now store c (some head) d l h =
      elim (Result-cases (hash_game_state p.schema p.digest head.state)) [
        | inr (e, q) ↦ absurd (ground (arith, q, h))
        | inl (hash, q) ↦ elim (Bool-cases (head.state_hash == hash)) [
          | inr b ↦ kept (ground (arith, q, b, h)) (ground (arith, q, b, h))
          | inl b ↦
              submit_with-Answer now store c head
                (p.resolve_content head.state.content_manifest_hash) d l (ground (arith, q, b, h))
        ]
      ]

  submit_new-Answer :
      (now : OpaqueId) (store : StoreData) (c : GameCommand Payload) (r : Readiness)
      (d : Draft Submission)
      → submit_new p now store c r ≡ ok d
      → Answer now store c d
  unfolding submit_new
  submit_new-Answer now store c current d h =
      submit_to-Answer now store c (load_campaign store c.campaign_id) d refl h
  submit_new-Answer now store c (recovery_required detail) d h =
      kept (ground (arith, h)) (ground (arith, h))
  submit_new-Answer now store c (migration_required detail) d h =
      kept (ground (arith, h)) (ground (arith, h))
  submit_new-Answer now store c (incompatible detail) d h =
      kept (ground (arith, h)) (ground (arith, h))

  pub submit_found-Answer :
      (now : OpaqueId) (store : StoreData) (c : GameCommand Payload)
      (existing : Option StoredCommand) (d : Draft Submission)
      → submit_found p now store c existing ≡ ok d
      → Answer now store c d
  unfolding submit_found
  submit_found-Answer now store c (some existing) d h = kept (ground (arith, h)) (ground (arith, h))
  submit_found-Answer now store c none d h =
      elim (Bool-cases (transaction_id_exists store c.transaction_id)) [
        | inl b ↦ kept (ground (arith, b, h)) (ground (arith, b, h))
        | inr b ↦ submit_new-Answer now store c store.readiness d (ground (arith, b, h))
      ]
