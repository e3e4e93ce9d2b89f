-- ===== src/Commands/Requests.antt =====
-- What a command works on: its options and the connection.
use nmg_league_bot.Base.{ℕ, String, Option, none, some, List, Result, ok, err, Method}
use nmg_league_bot.Base.Methods.{map_err}
use nmg_league_bot.Race.{BracketRaceStateError}
use nmg_league_bot.Tables.{Connection, on_conn}
use nmg_league_bot.Season.{SeasonError}
use nmg_league_bot.Async.Store.{AsyncError}
use nmg_league_bot.Bracket.{BracketError}
use nmg_league_bot.Commands.Options.{
  CommandDataOption, OptionValues, get_opt, integer, string, user,
}

-- The errors of the handlers, without their texts. `not_reported` and `reported_already` are what the
-- two commands for results say of a race that is not theirs.
pub data CommandError : Type 0 where
  invalid_option : String → CommandError
  invalid_day invalid_am_pm invalid_datetime : CommandError
  parse_error parse_finish_time_error not_found database_error race_finished : CommandError
  not_reported reported_already unknown_command user_not_found no_member site_error : CommandError
  race_error : BracketRaceStateError → CommandError
  season_error : SeasonError → CommandError
  bracket_error : BracketError → CommandError
  async_error : AsyncError → CommandError

-- `CommandData`, as far as the options that are left, and the connection
pub record CommandSession (V : Type 0) : Type 0 where
  pub options : List (CommandDataOption V)
  pub conn : Connection

abbrev pub Command : Type 0 → Type 0 → Type 0
Command V A = Method (CommandSession V) CommandError A

module _ {V : Type 0} where
  abbrev pub db : {A : Type 0} → Method Connection CommandError A → Command V A
  db = on_conn (λ s. s.conn) (λ c s. record s { conn = c })

  abbrev pub on_options :
      {A : Type 0} → Method (List (CommandDataOption V)) CommandError A → Command V A
  on_options m s = let (r, opts) = m s.options in (r, record s { options = opts })

  module _ (views : OptionValues V) where
    open views use {as_string, as_integer, as_user}

    -- `get_opt_s!` at the three kinds that the commands ask for
    unfoldable pub get_string : String → Command V String
    unfolding get_opt
    get_string name =
        on_options (map_err (λ e. invalid_option name) (get_opt views as_string name string))

    unfoldable pub get_integer : String → Command V ℕ
    unfolding get_opt
    get_integer name =
        on_options (map_err (λ e. invalid_option name) (get_opt views as_integer name integer))

    unfoldable pub get_user : String → Command V String
    unfolding get_opt
    get_user name =
        on_options (map_err (λ e. invalid_option name) (get_opt views as_user name user))

    abbrev ok_of : {A : Type 0} → Result CommandError A → Option A
    ok_of (ok a) = some a
    ok_of (err e) = none

    -- `get_opt_s!(…).ok()`
    unfoldable pub maybe_string : String → Command V (Option String)
    unfolding get_string
    maybe_string name s = let (r, t) = get_string name s in (ok (ok_of r), t)
