-- ===== src/Engine/Apply.antt =====
-- packages/engine/src/apply-event.ts: the reducer of the event stream.
pub mod Access
pub mod Checks
pub mod Characters
pub mod Features
pub mod Combat
pub mod Harm
pub mod Rounds
pub mod Challenges
pub mod Social
pub mod Rituals
pub mod Reducer
pub mod Kept
pub mod History
pub mod Wounds
pub mod Progress
pub mod Tracks
