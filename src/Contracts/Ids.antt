-- ===== src/Contracts/Ids.antt =====
-- packages/contracts/src/ids.ts. An opaque identifier is a string that the program compares by `===`
-- and by nothing else, so a number stands for it.
use lldm.Prelude.{ℕ, Bool, ◌&&◌, ◌==◌}

abbrev pub OpaqueId : Type 0
OpaqueId = ℕ

-- domains/playable-characters.ts, `ResolvedContentReferenceSchema`.
pub record ContentReference : Type 0 where
  pub content_definition_id : OpaqueId
  pub definition_revision : ℕ

-- The pair of comparisons that the sources write out at each use.
abbrev pub same_reference : ContentReference → ContentReference → Bool
same_reference a b =
    a.content_definition_id == b.content_definition_id
    && a.definition_revision == b.definition_revision
