-- ===== src/Async.antt =====
-- src/models/asyncs.rs with the database; and what changes asynchronous races and runs: the buttons
-- and modals of src/discord/bot.rs, the commands of
-- src/discord/interaction_handlers/application_commands.rs, `notify_racer` of src/discord/mod.rs, and
-- the sweeps of src/workers/async_race_worker.rs and src/workers/forfeit_own_races.rs.
pub mod Store
pub mod Handlers
pub mod Worker
pub mod Cancelling
pub mod Sweeping
pub mod Owners
pub mod Keeping
pub mod Progress
pub mod Consistency
pub mod Actions
