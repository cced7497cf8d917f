-- ===== src/Examples.antt =====
-- Concrete inputs for the theorems: a check, a fight, a campaign and its store.
mod Fixtures
mod Checks
mod Fights
mod Campaigns
mod Stores
mod Commands
mod Submissions
mod Replays
mod Journals
mod Rooms
mod Draws
