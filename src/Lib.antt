-- ===== src/Lib.antt =====
-- A verification library for lldm, a table-top campaign engine whose canonical state is the fold of
-- a stream of events.
--
-- Parts of the program and the files that model them:
--   * packages/contracts/src: the canonical state of a campaign, its events and the semantic
--     validators, in Contracts and the modules below it. A validator is the list of the issues that
--     it finds (combat_issues for validateCombatState, game_state_issues for validateGameState), and
--     `validate_game_state` is its result. The schema library that checks the structure of a value
--     is the record `SchemaChecks`, a parameter. An issue keeps its code, not its path and text.
--   * packages/engine/src/resolution.ts, probability.ts and physical-rolls.ts: a d20 check from its
--     request to its degree, the counts of the faces, and which checks are rolled physically, in
--     Engine/Resolution, Engine/Probability and Engine/PhysicalRolls.
--   * packages/engine/src/apply-event.ts: the reducer, in Engine/Apply. Each case of the switch is a
--     function of its own into `Result`, whose error is the message of the source; `apply_body` is
--     the switch, `apply_game_event` is applyGameEvent, and `apply_events` folds a stream.
--   * packages/engine/src/compensation.ts: the plan that takes a transaction back, in
--     Engine/Compensation.
--   * packages/runtime/src/randomness/hmac-sha256-v1.ts: draws from a campaign seed, in
--     Runtime/Randomness. The digest, the hash of a seed, the text encoder and the schema of a record
--     are the record `RandomPlatform`, a parameter. Sums that the source makes in doubles are rounded
--     (Runtime/Doubles). The record of a draw and its validator, of packages/contracts/src/randomness.ts,
--     are in Contracts/Randomness.
--   * packages/runtime/src/application/in-memory-store.ts: the store of campaigns and commands, in
--     Runtime/Store. The digest of a state's canonical text is a parameter.
--   * packages/runtime/src/ports/index.ts and application/coordinator.ts: the submission of a command,
--     in Runtime/Ports, Runtime/Commitment (commitDecision) and Runtime/Coordinator (submit). The ports,
--     the schemas of the contracts and their digests are the record `Ports`, a parameter; an exception
--     is the error of a `Result`; a verdict stands for the arguments that submit passes to a commit.
--   * packages/runtime/src/application/replay.ts: the replay of a stored campaign, in full or from a
--     snapshot, in Runtime/Replay. What the store is asked for is the record `History`. Its event
--     identities are those of the deterministic port of packages/runtime/src/application/defaults.ts, in
--     Runtime/Identities; the digest in them is a parameter, and the coordinator has its identity port
--     among its `Ports`.
--   * packages/contracts/src/room-state.ts and room-events.ts: rooms, in Contracts/Rooms; the reducer and
--     the replay of packages/runtime/src/application/room-replay.ts, in Runtime/RoomChanges (the changes
--     of single parts) and Runtime/Rooms (applyRoomEvent, replayRoom).
--   * Prelude holds shared helpers on lists, results, look-ups and integers; Examples holds concrete
--     inputs.
--
-- How they interact: the engine reads and writes the state of the contracts; the reducer runs the
-- contracts' validator on the state that an event leads to; a compensation plan is a list of events
-- for the same reducer; the store keeps the events and the state that they lead to. The coordinator
-- finds a verdict on a command from the decider or the compensation plan, runs the reducer over its
-- events and commits them to the store on a draft; the replay runs the reducer over what was stored.
--
-- Correspondence: an opaque identifier is a string that the program only compares, and is a number
-- here. A map is a list of its values, each with its key. Objects that the reducer changes are
-- changed through the same look-up (`modify` beside `find`), and the copy of the state that the
-- source makes is the value that a function returns. Prose fields that nothing reads are left out.
--
-- Bounds and fuel: the search over the zones of a battlefield takes one name off its stack in each
-- round and pushes each zone's connections at most once, so `search_fuel` allows for every
-- connection and the first name. The sampling loop runs through the block counters 0 to 2 ^ 32 - 1,
-- as the source's does, and fails behind them.
--
-- Not modelled: the decisions on commands (packages/engine/src/decide-command.ts,
-- combat-decisions.ts, subsystem-decisions.ts), the audit that executes stored commands again, the
-- projections, the room commands and workflows and the reaction deadlines of the runtime, the SQLite
-- stores, and the relay, host, web and command-line applications; transport messages and generated
-- types.
pub mod Prelude
pub mod Contracts
pub mod Engine
pub mod Runtime
pub mod Examples
