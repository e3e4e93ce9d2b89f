-- ===== src/Examples.antt =====
-- Small leagues on which the theorems are applied, and tests.
mod Values
mod Races
mod Brackets
mod Seasons
mod Asyncs
mod Rooms
mod Commands
mod Reactions
mod Auth
mod Api
mod Guilds
