-- ===== src/Lib.antt =====
-- The league bot: a Discord bot and a web site that run seasons of a racing league. This library
-- models the league itself: the rows of the database (src/models), what their methods do, the
-- commands of the Discord server and the reactions to its messages, the handlers and workers that
-- change asynchronous races or store results of racetime.gg, and the login and the API of the web
-- site. A season has brackets; a bracket has players and rounds; a round has races; a race has results,
-- an info for its schedule, and signups of commentators. An asynchronous race has two runs, which
-- racers start, finish and report by buttons and modals, and which a worker sweeps.
--
-- Files:
--   Base, Serde       shared names; results, methods in do blocks; serde_json as a parameter
--   Tables            the rows of src/schema.rs and a connection
--   Race              src/models/bracket_races.rs, `BracketRaceState` of src/lib.rs; Race/Sheet is the
--                     specification of a race with no text in it
--   Pairing           the pairing loops of src/models/brackets.rs
--   Bracket           src/models/brackets.rs and src/models/bracket_rounds.rs over the database;
--                     Bracket/Generation is `generate_pairings`, Bracket/Finishing is `finish`
--   Standings         `Bracket::standings` of src/models/brackets.rs
--   RaceInfo          src/models/bracket_race_infos.rs, and `BracketRace::schedule`
--   Season            src/models/season.rs
--   Times             `format_hms` and `parse_hms` of src/utils.rs
--   Runs, Async       src/models/asyncs.rs; the handlers of src/discord/bot.rs, the commands of
--                     src/discord/interaction_handlers/application_commands.rs, `notify_racer` of
--                     src/discord/mod.rs, src/workers/async_race_worker.rs and
--                     src/workers/forfeit_own_races.rs
--   Scanner           src/worker_funcs.rs, src/racetime_types.rs and
--                     src/workers/racetime_scanner_worker.rs
--   Criteria          src/models/guild_race_criteria.rs
--   Sessions          src/web/session_manager.rs
--   Players           src/models/player.rs and src/models/player_bracket_entries.rs
--   Commands          the commands of the Discord server: `find_opt` and its macros, `schedule_race` of
--                     src/discord/mod.rs, src/discord/interactions_utils.rs, `parse_race_result` of
--                     src/utils.rs, src/models/qualifer_submission.rs, and
--                     src/discord/interaction_handlers/application_commands.rs;
--                     Commands/Options reads options, Commands/Dispatch chooses the handler
--   Reactions         src/discord/reaction_handlers.rs, `race_to_nice_embeds` of src/utils.rs and
--                     `comm_ids_and_names` of src/discord/mod.rs
--   Auth              src/web/auth.rs: logins, and the guard for admins
--   Api               src/web/api.rs
--   Guilds            the criteria commands of src/discord/helper_bot/bot.rs
--   Examples          small leagues on which the theorems are applied
--
-- A method that changes its receiver is a function from the state to a result and the state; what was
-- written before an error stays written. diesel and SQLite are not code of the repository: a
-- connection is the rows of the tables and, for the statements to come, whether the database refuses
-- each. A refused statement changes nothing and gives the caller's error; a transaction that ends in an
-- error puts the tables back. Theorems that say nothing of refusals hold for every sequence of them.
-- serde_json is a codec for each enum column, with the hypothesis that a text it prints is read back;
-- `shuffle` of rand and the crate swiss_pairings are functions that the theorems take. Clocks, random
-- values, answers of Discord and what users type are arguments. A handler runs as one step: handlers
-- that the runtime interleaves between their statements are not modelled, except that the decision after
-- the question of the cancel command is a step of its own. Panics are modelled in the worker for
-- asynchronous races, where they end the sweep.
--
-- The options of a command are a list of names and values, of a type that the models take with what
-- the source reads of it. The answers of Discord, twitch.tv and racetime.gg that a command asks for
-- are inputs. Ids of users are texts. SQL's LIKE is a function that the models take.
--
-- Numbers: ids, timestamps and sums are natural numbers; seconds of a parsed time and sums of times
-- wrap at 2 ^ 32 as in a release build; an i32 that a cast makes is kept as its bits. Points in the standings are never negative in the code either. The sort of the
-- standings and of player ids is an insertion sort, which is the one stable result that the library's
-- sort has too. Texts of times and file names are lists of ASCII codes.
--
-- Fuel: the digits of a number are made with one more step than the number, and a number has fewer
-- digits than that. `find_opt` looks at one option more than there are, and stops there.
-- Everything else is structural.
--
-- Not modelled: the texts that errors carry, the rendering of messages and pages, the clients of
-- Discord, racetime.gg and Twitch, configuration and start-up, and the command line tools.
pub mod Base
pub mod Serde
pub mod Race
pub mod Tables
pub mod Pairing
pub mod Bracket
pub mod RaceInfo
pub mod Season
pub mod Standings
pub mod Times
pub mod Runs
pub mod Async
pub mod Scanner
pub mod Criteria
pub mod Sessions
pub mod Players
pub mod Commands
pub mod Reactions
pub mod Auth
pub mod Guilds
pub mod Api
pub mod Examples
