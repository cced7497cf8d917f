-- ===== src/Runtime.antt =====
-- The runtime around the engine: packages/runtime.
pub mod Doubles
pub mod Randomness
pub mod Identities
pub mod Ports
pub mod Store
pub mod Commitment
pub mod Coordinator
pub mod Replay
pub mod RoomChanges
pub mod Rooms
