-- ===== src/Runtime/Coordinator/Effects.antt =====
-- What a submission of packages/runtime/src/application/coordinator.ts does to the store.
use lldm.Prelude.{◌≡◌, refl, arith, none, some, ok, inl, inr, ◌⊎◌, Result-cases, find, find-append}
use mathlib.Core.Path.{subst⁻¹}
use lldm.Contracts.Ids.{OpaqueId}
use lldm.Contracts.Validation.{success, ValidationResult-cases}
use lldm.Runtime.Ports.{GameCommand, Ports}
use lldm.Runtime.Store.{StoreData, StoredCommand, Draft, transact, is_command, CommittedCommand}
use lldm.Runtime.Store.Invariant.{StoreSound}
use lldm.Runtime.Store.Commits.{commit_draft-StoreSound, commit_draft-Commits}
use lldm.Runtime.Store.Undo.{find_command}
use lldm.Runtime.Commitment.{input_of, stored_of}
use lldm.Runtime.Coordinator.{Submission, idempotent_replay, submit_found, submit}
use lldm.Runtime.Coordinator.Answers.{
  new_commit, new_commit-reported, Commits, kept, commits, submit_found-Answer,
}

module _ {Raw Payload Catalog : Type 0} (p : Ports Raw Payload Catalog) where
  -- A submission that commits: the command and the draft that takes the place of the data.
  pub record Committing (now : OpaqueId) (store : StoreData) (raw : Raw) : Type 0 where
    pub command : GameCommand Payload
    pub drafted : Draft Submission
    pub parsed : p.parse_command raw ≡ success command
    pub commits_it : Commits p now store command drafted
    pub settles :
        submit p now store raw ≡ record { data_after = drafted.draft; result = drafted.value }

  pub submit-cases :
      (now : OpaqueId) (store : StoreData) (raw : Raw)
      → (((submit p now store raw).data_after ≡ store)
          × (new_commit (submit p now store raw).result ≡ none))
        ⊎ Committing now store raw
  unfolding submit transact
  submit-cases now store raw = elim (ValidationResult-cases (p.parse_command raw)) [
    | inr (is, q) ↦ inl (ground (arith, q), ground (arith, q))
    | inl (c, q) ↦
        elim (Result-cases (submit_found p now store c (find_command store c.command_id))) [
          | inr (e, r) ↦ inl (ground (arith, q, r), ground (arith, q, r))
          | inl (d, r) ↦
              elim (submit_found-Answer p now store c (find_command store c.command_id) d r) [
                | kept same not_committed ↦
                    inl (ground (arith, q, r, same), ground (arith, q, r, not_committed))
                | commits k ↦ inr (record {
                  command = c;
                  drafted = d;
                  parsed = q;
                  commits_it = k;
                  settles = ground (arith, q, r);
                })
              ]
        ]
  ]

  -- A submission that is not answered with a commit leaves the store as it was: a malformed command,
  -- a collision of identities, an incompatible store, a failed recovery test, a replay, and whatever
  -- is thrown on the way.
  pub submit-unchanged :
      (now : OpaqueId) (store : StoreData) (raw : Raw)
      → new_commit (submit p now store raw).result ≡ none
      → (submit p now store raw).data_after ≡ store
  submit-unchanged now store raw h = elim (submit-cases now store raw) [
    | inl (same, q) ↦ same
    | inr k ↦ absurd (
        ground (
          arith,
          h,
          k.settles,
          k.commits_it.answers,
          new_commit-reported k.commits_it.verdict k.commits_it.commit,
        ))
  ]

  -- A submission keeps the invariant of the store, whatever the command and the answer.
  pub submit-StoreSound :
      (now : OpaqueId) (store : StoreData) (raw : Raw)
      → StoreSound p.digest store
      → StoreSound p.digest (submit p now store raw).data_after
  submit-StoreSound now store raw sound = elim (submit-cases now store raw) [
    | inl (same, q) ↦ subst⁻¹ (StoreSound p.digest) same sound
    | inr k ↦
        let made = k.commits_it.made in
        subst⁻¹ (λ s. StoreSound p.digest s.data_after) k.settles
          (commit_draft-StoreSound p.schema p.digest store k.drafted.draft
            (input_of p k.command made.pre made.post k.commits_it.commit) sound made.stored)
  ]

  find-replay :
      (now : OpaqueId) (store : StoreData) (c : GameCommand Payload) (existing : StoredCommand)
      → existing.command_hash ≡ p.tagged_sha256 (p.canonical_json c)
      → existing.command_canonical_json ≡ p.canonical_json c
      → submit_found p now store c (some existing)
        ≡ ok (record { draft = store; value = idempotent_replay existing.commit })
  unfolding submit_found
  find-replay now store c existing h k = ground (arith, h, k)

  -- After a command was committed, submitting it again, at whatever time, is answered with the same
  -- commit as a replay and changes nothing.
  pub submit-again :
      (now later : OpaqueId) (store : StoreData) (raw : Raw) (commit : CommittedCommand)
      → new_commit (submit p now store raw).result ≡ some commit
      → submit p later (submit p now store raw).data_after raw ≡ record {
        data_after = (submit p now store raw).data_after;
        result = idempotent_replay commit;
      }
  unfolding submit transact
  submit-again now later store raw commit h = elim (submit-cases now store raw) [
    | inl (same, q) ↦ absurd (ground (arith, h, q))
    | inr k ↦
        let made = k.commits_it.made in
        let c = k.command in
        let stored = stored_of p c k.commits_it.commit in
        let facts =
          commit_draft-Commits p.schema p.digest store k.drafted.draft
            (input_of p c made.pre made.post k.commits_it.commit) made.stored in
        let there : find (is_command c.command_id) k.drafted.draft.commands ≡ some stored = ground (
          arith,
          facts.after_is,
          find-append (is_command c.command_id) store.commands stored,
          facts.new_command,
        ) in
        subst⁻¹
          (λ s.
            submit p later s.data_after raw
            ≡ record { data_after = s.data_after; result = idempotent_replay commit })
          k.settles
          (ground (
            arith,
            k.parsed,
            there,
            find-replay later k.drafted.draft c stored refl refl,
            h,
            k.settles,
            k.commits_it.answers,
            new_commit-reported k.commits_it.verdict k.commits_it.commit,
          ))
  ]
