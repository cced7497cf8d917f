-- ===== src/Contracts.antt =====
-- packages/contracts: the records that the engine and the runtime exchange, and their validators.
pub mod Ids
pub mod Validation
pub mod Checks
pub mod Characters
pub mod Combat
pub mod Social
pub mod Challenges
pub mod Rituals
pub mod GameState
pub mod Transactions
pub mod Randomness
pub mod Events
pub mod Rooms
