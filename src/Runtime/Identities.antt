-- ===== src/Runtime/Identities.antt =====
-- IdentityPort of packages/runtime/src/ports/index.ts, and deterministicIdentityPort and eventIdFrom of
-- packages/runtime/src/application/defaults.ts. An identifier is opaque, so the digest of the text that
-- is made of the four arguments and the text with a prefix are the record `IdentityTexts`, a parameter.
use lldm.Prelude.{ℕ, String}
use lldm.Contracts.Ids.{OpaqueId}

pub data IdentityKind : Type 0 where
  event_identity pending_check_identity physical_roll_nonce_identity : IdentityKind
  legal_action_identity wound_identity death_pending_check_identity : IdentityKind
  death_physical_roll_nonce_identity condition_identity scar_identity : IdentityKind

abbrev pub IdentityPort : Type 0
IdentityPort =
    IdentityKind → (transaction_id : OpaqueId) (local_index : ℕ) (stable_key : String) → OpaqueId

pub record IdentityTexts : Type 0 where
  pub digest_of : IdentityPort
  pub with_prefix : (prefix : IdentityKind) (digest : OpaqueId) → OpaqueId

abbrev pub prefix_of : IdentityKind → IdentityKind
prefix_of death_pending_check_identity = pending_check_identity
prefix_of death_physical_roll_nonce_identity = physical_roll_nonce_identity
prefix_of kind = kind

abbrev pub deterministic_identity_port : IdentityTexts → IdentityPort
deterministic_identity_port texts kind transaction index key =
    texts.with_prefix (prefix_of kind) (texts.digest_of kind transaction index key)

abbrev pub event_id_from :
    IdentityPort → (transaction_id : OpaqueId) (transaction_index : ℕ) → OpaqueId
event_id_from identity transaction index = identity event_identity transaction index ""
