-- ===== src/Examples/Commands.antt =====
-- Commands of the Discord server: options, times, results, schedules, qualifiers and admins.
use nmg_league_bot.Base.{
  ◌+◌, suc, ℕ, ◌≡◌, ◌<◌, ◌↔◌, ◌*◌, refl, String, Option, none, some, true, false, List, [], ◌∷◌, ok,
  arith, str_eq, length, get_elem?, swap_remove,
}
use nmg_league_bot.Base.Texts.{to_lowercase}
use nmg_league_bot.Race.{BracketRace}
use nmg_league_bot.Tables.{Tables, next_id, first_where}
use nmg_league_bot.Season.{SeasonState}
use nmg_league_bot.Players.{User, conflicts, row_of, new_user, get_or_create_from_discord_user}
use nmg_league_bot.Async.Handlers.{Contact}
use nmg_league_bot.Players.Registered.{has_id, get_or_create_from_discord_user_lem}
use nmg_league_bot.Commands.Options.{
  CommandOptionType, CommandDataOption, OptionValues, string, integer, user, search, find_opt,
}
use nmg_league_bot.Commands.Options.Finding.{index_of, search-index_of, Found, find_opt-Found}
use nmg_league_bot.Commands.Requests.{CommandSession}
use nmg_league_bot.Commands.Times.{parse_day, Eastern}
use nmg_league_bot.Commands.Times.Days.{parse_day-bounds, parse_day-format_day, format_day}
use nmg_league_bot.Commands.Reports.{handle_report_race, handle_rereport_race, text_of}
use nmg_league_bot.Commands.Reports.Loading.{race_with}
use nmg_league_bot.Commands.Reports.Reported.{
  handle_report_race-finished, handle_rereport_race-unfinished,
}
use nmg_league_bot.Commands.Scheduling.{Posting, handle_schedule_race_cmd}
use nmg_league_bot.Commands.Scheduling.Own.{player_of, OwnRace, handle_schedule_race_cmd-OwnRace}
use nmg_league_bot.Commands.Registration.{handle_submit_qualifier}
use nmg_league_bot.Commands.Registration.Qualifying.{OnlyOpen, handle_submit_qualifier-OnlyOpen}
use nmg_league_bot.Commands.UserInfo.{failed}
use nmg_league_bot.Commands.Dispatch.{
  Interaction, application_command, Outside, handle_application_interaction,
}
use nmg_league_bot.Commands.Dispatch.Admins.{of_admins}
use nmg_league_bot.Commands.Dispatch.Everyone.{handle_application_interaction-Keeps}
use nmg_league_bot.Examples.Values.{race_json, season_json, crates, season_in, league, connected}

-- the values of options, without subcommands
data Value : Type 0 where
  a_text : String → Value
  a_number : ℕ → Value
  a_user : String → Value

abbrev kind_of : Value → CommandOptionType
kind_of (a_text t) = string
kind_of (a_number n) = integer
kind_of (a_user u) = user

abbrev text_in : Value → Option String
text_in (a_text t) = some t
text_in _ = none

abbrev number_in : Value → Option ℕ
number_in (a_number n) = some n
number_in _ = none

abbrev user_in : Value → Option String
user_in (a_user u) = some u
user_in _ = none

abbrev values : OptionValues Value
values = record {
  kind = kind_of;
  as_string = text_in;
  as_integer = number_in;
  as_user = user_in;
  as_sub_command = λ _. none;
  as_focused = λ _. none;
}

abbrev option : String → Value → CommandDataOption Value
option n v = record { name = n; value = v }

abbrev session : List (CommandDataOption Value) → Tables → CommandSession Value
session opts t = record { options = opts; conn = connected t }

abbrev when_options : List (CommandDataOption Value)
when_options =
    option "day" (a_text "on 2023/04/09")
    ∷ option "hour" (a_number 9)
    ∷ option "minute" (a_number 30)
    ∷ option "am_pm" (a_text "PM")
    ∷ option "opponent" (a_user "b")
    ∷ []

search-index_of_example :
    search (suc (length when_options)) "minute" 0 when_options
    ≡ some (index_of "minute" when_options)
search-index_of_example = search-index_of "minute" when_options

find_opt-Found_example :
    Found values "hour" integer when_options (find_opt values "hour" integer when_options)
find_opt-Found_example = find_opt-Found values "hour" integer when_options

-- `swap_remove` moves the last option to the place of the one that is taken
find_opt_moves : find_opt values "day" string when_options ≡ (
  ok (some (a_text "on 2023/04/09")),
  option "opponent" (a_user "b")
      ∷ option "hour" (a_number 9)
      ∷ option "minute" (a_number 30)
      ∷ option "am_pm" (a_text "PM")
      ∷ [],
)
unfolding find_opt get_elem? swap_remove
find_opt_moves = refl

parse_day-bounds_example : (2023 < 10000) × (4 < 100) × (9 < 100)
unfolding parse_day text_of
parse_day-bounds_example = parse_day-bounds (text_of "on 2023/04/09") refl

parse_day-format_day_example : parse_day (format_day 2023 4 9) ≡ some (2023, 4, 9)
parse_day-format_day_example =
    parse_day-format_day 2023 4 9 (omega arith) (omega arith) (omega arith)

abbrev race_in : String → BracketRace
race_in st = record {
  id = 1;
  bracket_id = 1;
  round_id = 1;
  player_1_id = 1;
  player_2_id = 2;
  async_race_id = none;
  state = st;
  player_1_result = none;
  player_2_result = none;
  outcome = none;
}

abbrev with_race : String → Tables
with_race st = record league { races = race_in st ∷ [] }

abbrev results : List (CommandDataOption Value)
results =
    option "race_id" (a_number 1)
    ∷ option "p1_result" (a_text "1:23:45")
    ∷ option "p2_result" (a_text "forfeit")
    ∷ []

handle_report_race-finished_example :
    race_with 1
      (handle_report_race values race_json (session results (with_race "||"))).1.conn.tables.races
    ≡ some (race_in "||")
unfolding first_where
handle_report_race-finished_example =
    handle_report_race-finished values race_json (session results (with_race "||")) 1 refl refl

handle_rereport_race-unfinished_example :
    race_with 1
      (handle_rereport_race values race_json (session results (with_race "|"))).1.conn.tables.races
    ≡ some (race_in "|")
unfolding first_where
handle_rereport_race-unfinished_example =
    handle_rereport_race-unfinished values race_json (session results (with_race "|")) 1 refl refl
      refl

-- a time zone that counts minutes
abbrev eastern : Eastern
eastern y m d h minute = some (y * 535680 + m * 44640 + d * 1440 + h * 60 + minute)

abbrev posting : Posting
posting = record { commportunities_deleted = true; tentative_deleted = true; posted = some "m" }

handle_schedule_race_cmd-OwnRace_example :
    OwnRace race_json posting values eastern
      (race_in "" ∷ [])
      league.players
      (player_of "a" league.players)
      (handle_schedule_race_cmd race_json posting values eastern
        (some "a")
        (session when_options (with_race ""))).1
handle_schedule_race_cmd-OwnRace_example =
    handle_schedule_race_cmd-OwnRace race_json posting values eastern "a"
      (session when_options (with_race ""))

abbrev newcomer : User
newcomer = record { id = "z"; name = "zed"; global_name = none }

get_or_create_from_discord_user_lem_example :
    (str_eq "z" "z" ≡ true)
    × ((first_where (has_id "z") league.players ≡ none) ↔ (true ≡ true))
    × (get_or_create_from_discord_user tt newcomer
          (get_or_create_from_discord_user tt newcomer (connected league)).1
        ≡ (
          ok (row_of (new_user newcomer) 4, false),
          (get_or_create_from_discord_user tt newcomer (connected league)).1,
        ))
unfolding get_or_create_from_discord_user first_where conflicts to_lowercase next_id
get_or_create_from_discord_user_lem_example =
    get_or_create_from_discord_user_lem tt newcomer (connected league) refl refl

abbrev open_league : Tables
open_league = record league { seasons = season_in SeasonState.qualifiers_open ∷ [] }

abbrev qualifier : List (CommandDataOption Value)
qualifier = option "qualifier_time" (a_text "1:23:45") ∷ option "vod" (a_text "https://vod") ∷ []

handle_submit_qualifier-OnlyOpen_example :
    OnlyOpen season_json crates 500 [] open_league.seasons newcomer
      (handle_submit_qualifier values season_json crates 500
        (some newcomer)
        (session qualifier open_league)).1.conn
handle_submit_qualifier-OnlyOpen_example =
    handle_submit_qualifier-OnlyOpen season_json crates 500 values newcomer
      (session qualifier open_league)

abbrev outside : Outside
outside = record {
  json = season_json;
  crates = crates;
  now = 500;
  eastern = eastern;
  posting = posting;
  sites = record { twitch = λ _. failed; racetime = λ _ _. failed };
  known = λ _. none;
  scheme_of = λ _. none;
  uuid = "u";
  fresh_1 = record { uuid = "u1"; filenames = []; now = 500 };
  fresh_2 = record { uuid = "u2"; filenames = []; now = 500 };
  contact_1 = Contact.failed;
  contact_2 = Contact.failed;
  told = true;
}

-- someone who is no admin asks for a new state of the season
abbrev no_admin : Interaction
no_admin = record {
  name = "set_season_state";
  kind = application_command;
  user = some newcomer;
  target = none;
  by_admin = some false;
}

handle_application_interaction-Keeps_example :
    of_admins
      (handle_application_interaction values outside no_admin
        (session (option "new_state" (a_text "||||") ∷ []) league)).1.conn.tables
    ≡ of_admins league
handle_application_interaction-Keeps_example =
    handle_application_interaction-Keeps values outside no_admin
      (session (option "new_state" (a_text "||||") ∷ []) league) (λ e. cc)
