-- ===== src/Examples/Commands.antt =====
-- A campaign without a fight, a command that spends Supply and its undo, and a store around them. The
-- digest of a state is its Supply.
use lldm.Prelude.{ℕ, ◌+◌, false, none, some, List, [], ◌∷◌, ok, ◌==◌}
use lldm.Contracts.Ids.{OpaqueId}
use lldm.Contracts.Validation.{success}
use lldm.Contracts.GameState.{GameState}
use lldm.Contracts.Transactions.{accepted_outcome, undo_outcome}
use lldm.Contracts.Events.{
  EventBody, GameEvent, party_scope, supply_resource, resource_changed, transaction_compensated,
  command_accepted,
}
use lldm.Prelude.Int.{pos}
use lldm.Runtime.Identities.{IdentityTexts, deterministic_identity_port}
use lldm.Runtime.Ports.{GameCommand, undo_transaction, decided_command, accepted_decision, Ports}
use lldm.Runtime.Store.{StoreData, CommittedCommand, current}
use lldm.Runtime.Store.Undo.{UndoCandidate}
use lldm.Examples.Fixtures.{no_checks}

abbrev pub calm : ℕ → GameState
calm supply = record {
  campaign_id = 100;
  content_manifest_hash = 101;
  session_number = 1;
  scene_id = none;
  party = record { supply = supply; supply_maximum = 2; characters = [] };
  pending_physical_checks = [];
  combat = none;
  challenges = [];
  social_states = [];
  rituals = [];
  permanent_scars = [];
  permanent_deaths = [];
}

abbrev pub spending : EventBody
spending =
    resource_changed
      (record { owner = party_scope; resource = supply_resource; previous = 2; current = 1 })

abbrev pub regaining : EventBody
regaining =
    resource_changed
      (record { owner = party_scope; resource = supply_resource; previous = 1; current = 2 })

abbrev pub texts : IdentityTexts
texts = record {
  digest_of = λ kind transaction index key. transaction + index;
  with_prefix = λ kind digest. digest;
}

abbrev pub ports : Ports (GameCommand ℕ) ℕ ℕ
ports = record {
  parse_command = λ c. success c;
  canonical_json = λ c. c.command_id + 1000;
  tagged_sha256 = λ text. text + 1000;
  schema = no_checks;
  event_schema = λ e. [];
  transaction_schema = λ t. [];
  digest = λ s. s.party.supply;
  text_of = λ n. "a number";
  is_rfc3339_milliseconds = λ now. now == 600;
  campaign_scope = λ id. id;
  resolve_content = λ hash. some 7;
  allocate = deterministic_identity_port texts;
  draw = λ seed campaign command request. ok (record {
    seed_fingerprint = "seed";
    campaign_id = "campaign";
    command_id = "command";
    purpose = request.purpose;
    purpose_local_index = request.purpose_local_index;
    minimum = request.minimum;
    maximum = request.maximum;
    realized_value = pos 1;
    rejection_count = 0;
  });
  decide = λ input. ok (accepted_decision (spending ∷ []));
  project = λ s revision catalog legal_action_id. ok tt;
}

abbrev pub spend : GameCommand ℕ
spend = record {
  command_id = 400;
  transaction_id = 300;
  campaign_id = 100;
  expected_revision = 0;
  body = decided_command "change_resource" 1;
}

abbrev pub undo : GameCommand ℕ
undo = record {
  command_id = 401;
  transaction_id = 310;
  campaign_id = 100;
  expected_revision = 2;
  body = undo_transaction none;
}

abbrev pub fresh : StoreData
fresh = record {
  readiness = current;
  campaigns =
      record {
        campaign_id = 100;
        revision = 0;
        state = calm 2;
        state_hash = 2;
        seed = [];
        events = [];
      }
      ∷ [];
  commands = [];
  transaction_ids = [];
}

abbrev pub at : OpaqueId → OpaqueId → ℕ → ℕ → EventBody → GameEvent
at transaction command index revision body = record {
  event_id = transaction + index;
  transaction_id = transaction;
  campaign_id = 100;
  caused_by_command_id = command;
  transaction_index = index;
  stream_revision = revision;
  body = body;
}

abbrev pub spent_events : List GameEvent
spent_events =
    at 300 400 0 1 (command_accepted "change_resource" 2400) ∷ at 300 400 1 2 spending ∷ []

abbrev pub spent : CommittedCommand
spent = record {
  command_canonical_json = 1400;
  transaction = record {
    campaign_id = 100;
    command_id = 400;
    command_hash = 2400;
    transaction_id = 300;
    first_revision = 1;
    last_revision = 2;
    event_count = 2;
    pre_state_hash = 2;
    post_state_hash = 1;
    committed_at = 600;
    outcome = accepted_outcome;
  };
  events = spent_events;
  post_state = calm 1;
}

abbrev pub store_with_spent : StoreData
store_with_spent = record {
  readiness = current;
  campaigns =
      record {
        campaign_id = 100;
        revision = 2;
        state = calm 1;
        state_hash = 1;
        seed = [];
        events = spent_events;
      }
      ∷ [];
  commands =
      record {
        command_id = 400;
        transaction_id = 300;
        command_hash = 2400;
        command_canonical_json = 1400;
        commit = spent;
      }
      ∷ [];
  transaction_ids = 300 ∷ [];
}

abbrev pub undone : CommittedCommand
undone = record {
  command_canonical_json = 1401;
  transaction = record {
    campaign_id = 100;
    command_id = 401;
    command_hash = 2401;
    transaction_id = 310;
    first_revision = 3;
    last_revision = 5;
    event_count = 3;
    pre_state_hash = 1;
    post_state_hash = 2;
    committed_at = 600;
    outcome = undo_outcome 300;
  };
  events =
      at 310 401 0 3 (command_accepted "undo_transaction" 2401)
      ∷ at 310 401 1 4 regaining
      ∷ at 310 401 2 5 (transaction_compensated 300)
      ∷ [];
  post_state = calm 2;
}

abbrev pub candidate : UndoCandidate
candidate = record {
  transaction = spent.transaction;
  events = spent_events;
  already_compensated = false;
}
