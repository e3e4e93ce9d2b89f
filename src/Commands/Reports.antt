-- ===== src/Commands/Reports.antt =====
-- The commands that report results: `parse_race_result` of src/utils.rs,
-- `get_race_finish_opts_from_command_opts`, `handle_report_race` and `handle_rereport_race`.
pub mod Loading
pub mod Reported
use Prim.Native.Char.{code}
use nmg_league_bot.Base.{
  ℕ, String, Option, none, some, Bool, true, false, [], ◌∷◌, Result, ok, err, ok_or, str_eq,
  if◌then◌else◌,
}
use nmg_league_bot.Base.Methods.{pure, throw, lift, map_err, ◌>>=◌, ◌>>◌}
use nmg_league_bot.Times.{Text, parse_hms}
use nmg_league_bot.Race.{
  BracketRace, BracketRaceState, BracketRaceStateError, invalid_state, PlayerResult, forfeit,
  finish_time, RaceJson, state,
}
use nmg_league_bot.Tables.{BracketRaceInfo, Player}
use nmg_league_bot.RaceInfo.Queries.{get_by_id, info, players}
use nmg_league_bot.Scanner.Storing.{trigger_race_finish}
use nmg_league_bot.Commands.Options.{OptionValues, as_i32}
use nmg_league_bot.Commands.Requests.{
  CommandError, Command, db, get_string, get_integer, maybe_string, parse_error,
  parse_finish_time_error, not_found, database_error, race_error, not_reported, reported_already,
}

-- the characters of a text
unfoldable pub text_of : String → Text
text_of String.[] = []
text_of (String.◌∷◌ c s) = code c ∷ text_of s

unfoldable pub parse_race_result : String → Option PlayerResult
unfolding text_of parse_hms
parse_race_result r =
    if str_eq r "forfeit"
    then some forfeit
    else elim (parse_hms (text_of r)) [ none ↦ none | some t ↦ some (finish_time t) ]

-- `RaceFinishOptions`
pub record RaceFinishOptions : Type 0 where
  pub bracket_race : BracketRace
  pub info : BracketRaceInfo
  pub player_1 : Player
  pub player_1_result : PlayerResult
  pub player_2 : Player
  pub player_2_result : PlayerResult
  pub force_update : Bool

abbrev with_url : Option String → BracketRaceInfo → BracketRaceInfo
with_url none i = i
with_url (some url) i = record i { racetime_gg_url = some url }

-- `InvalidState` is told apart from the other errors
abbrev report_error : BracketRaceStateError → CommandError
report_error (invalid_state _) = reported_already
report_error e = race_error e

module _ {V : Type 0} (views : OptionValues V) (json : RaceJson) where
  -- the rows, once the options are read
  unfoldable pub load_race_finish_opts :
      Bool → ℕ → PlayerResult → PlayerResult → Option String → Command V RaceFinishOptions
  unfolding get_by_id info players
  load_race_finish_opts force race_id r1 r2 racetime_url = do
    race ← db (get_by_id database_error not_found (as_i32 race_id))
    i ← db (info database_error race)
    ps ← db (players database_error not_found race)
    pure (record {
      bracket_race = race;
      info = with_url racetime_url i;
      player_1 = ps.0;
      player_1_result = r1;
      player_2 = ps.1;
      player_2_result = r2;
      force_update = force;
    })

  unfoldable pub get_race_finish_opts_from_command_opts : Bool → Command V RaceFinishOptions
  unfolding parse_race_result load_race_finish_opts
  get_race_finish_opts_from_command_opts force = do
    race_id ← get_integer views "race_id"
    p1_res ← get_string views "p1_result"
    p2_res ← get_string views "p2_result"
    racetime_url ← maybe_string views "racetime_url"
    r1 ← lift (ok_or (parse_race_result p1_res) parse_finish_time_error)
    r2 ← lift (ok_or (parse_race_result p2_res) parse_finish_time_error)
    load_race_finish_opts force race_id r1 r2 racetime_url

  -- `trigger_race_finish` of the options; the post in #match-results changes no table
  unfoldable pub finish_race :
      (BracketRaceStateError → CommandError) → RaceFinishOptions → Command V Unit
  unfolding trigger_race_finish
  finish_race on_error o = db (
      map_err on_error (
        trigger_race_finish json o.bracket_race o.player_1_result o.player_2_result o.force_update))

  unfoldable pub handle_report_race : Command V Unit
  unfolding get_race_finish_opts_from_command_opts finish_race
  handle_report_race = do
    opts ← get_race_finish_opts_from_command_opts false
    finish_race report_error opts

  abbrev pub require_reported : Result BracketRaceStateError BracketRaceState → Command V Unit
  require_reported (err e) = throw parse_error
  require_reported (ok BracketRaceState.finished) = pure tt
  require_reported (ok _) = throw not_reported

  unfoldable pub handle_rereport_race : Command V Unit
  unfolding get_race_finish_opts_from_command_opts state finish_race
  handle_rereport_race = do
    opts ← get_race_finish_opts_from_command_opts true
    require_reported (state json opts.bracket_race)
    finish_race race_error opts
