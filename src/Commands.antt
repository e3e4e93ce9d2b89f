-- ===== src/Commands.antt =====
-- src/discord/interaction_handlers/application_commands.rs: the commands of the league's Discord
-- server, with the reading of their options.
pub mod Options
pub mod Requests
pub mod Seasons
pub mod Reports
pub mod Times
pub mod Steps
pub mod Scheduling
pub mod Registration
pub mod Staff
pub mod UserInfo
pub mod Dispatch
