-- ===== src/Commands/Dispatch.antt =====
-- `handle_application_interaction` and `admin_command_wrapper`: which handler a command goes to, and
-- which are for admins only. What `long_command_wrapper` does later, it does here at once: the
-- deferred answer is followed by the handler's.
pub mod Admins
pub mod General
pub mod Everyone
use nmg_league_bot.Base.{
  ℕ, String, Option, none, some, Bool, true, false, List, [], ◌∷◌, Result, ok, err, Method, str_eq,
  if◌then◌else◌,
}
use nmg_league_bot.Base.Methods.{pure, throw, lift, map_err, ◌>>=◌, ◌>>◌}
use nmg_league_bot.Race.{BracketRace}
use nmg_league_bot.Tables.{Player, Connection}
use nmg_league_bot.Season.{SeasonJson}
use nmg_league_bot.Bracket.{PairingCrates}
use nmg_league_bot.Runs.{AsyncRace}
use nmg_league_bot.Async.Store.{Fresh}
use nmg_league_bot.Async.Handlers
use nmg_league_bot.Async.Handlers.{Contact, CancelReply}
use nmg_league_bot.Players.{User}
use nmg_league_bot.Commands.Options.{OptionValues, OptionError, get_focused_opt, as_i32}
use nmg_league_bot.Commands.Requests.{
  CommandError, CommandSession, Command, db, on_options, get_integer, get_user, maybe_string,
  invalid_option, unknown_command, async_error, database_error,
}
use nmg_league_bot.Commands.Times.{Eastern}
use nmg_league_bot.Commands.Seasons.{
  SeasonReply, handle_set_season_state, handle_create_season, handle_create_bracket,
  handle_finish_bracket, handle_generate_pairings,
}
use nmg_league_bot.Commands.Reports.{handle_report_race, handle_rereport_race}
use nmg_league_bot.Commands.Scheduling.{
  Posting, ScheduleReply, handle_schedule_race_cmd, handle_reschedule_race_cmd,
}
use nmg_league_bot.Commands.Registration.{
  PlayerReply, handle_create_player, handle_add_player_to_bracket_submit, handle_submit_qualifier,
}
use nmg_league_bot.Commands.Staff.{
  StaffReply, handle_see_unscheduled_races, handle_commentator_command, handle_set_restream,
  scheduled_races_autocomplete, handle_add_player_to_bracket_autocomplete,
}
use nmg_league_bot.Commands.UserInfo.{Sites, handle_update_user_info, show_user}

pub data InteractionType : Type 0 where
  application_command application_command_autocomplete other : InteractionType

-- The interaction, less its options. `by_admin` is what `application_command_run_by_admin` says.
pub record Interaction : Type 0 where
  pub name : String
  pub kind : InteractionType
  pub user : Option User
  pub target : Option User
  pub by_admin : Option Bool

-- Everything outside of the program that a handler may ask.
pub record Outside : Type 0 where
  pub json : SeasonJson
  pub crates : PairingCrates
  pub now : ℕ
  pub eastern : Eastern
  pub posting : Posting
  pub sites : Sites
  -- the users that the bot has seen
  pub known : String → Option User
  pub scheme_of : String → Option String
  pub uuid : String
  pub fresh_1 : Fresh
  pub fresh_2 : Fresh
  pub contact_1 : Contact
  pub contact_2 : Contact
  pub told : Bool

pub data Reply : Type 0 where
  admin_only unhandled unexpected_type race_updated days_offered unexpected_option : Reply
  failed : CommandError → Reply
  schedule : ScheduleReply → Reply
  season : SeasonReply → Reply
  player : PlayerReply → Reply
  staff : StaffReply → Reply
  shown : Option Player → Reply
  brackets_offered : List String → Reply
  races_offered : List (String × String × ℕ) → Reply
  unscheduled_races : List (String × String × String) → Reply
  async_race : Option AsyncRace → Reply
  async_cancel : CancelReply → Reply

abbrev user_id : Option User → Option String
user_id none = none
user_id (some u) = some u.id

abbrev name_of_user : Option User → Option String
name_of_user none = none
name_of_user (some u) = some u.name

abbrev reply_of : Result CommandError Reply → Reply
reply_of (ok r) = r
reply_of (err e) = failed e

module _ {V : Type 0} where
  abbrev pub answering : {A : Type 0} → (A → Reply) → Command V A → Command V Reply
  answering f m = do a ← m; pure (f a)

  -- an error is an answer too
  abbrev pub admin_command_wrapper : Command V Reply → Command V Reply
  admin_command_wrapper m s = let (r, t) = m s in (ok (reply_of r), t)

module _ {V : Type 0} (views : OptionValues V) (out : Outside) where
  open out use {json, crates, now, eastern, posting, sites, known, scheme_of}

  unfoldable pub handle_schedule_race_autocomplete : Command V Reply
  unfolding get_focused_opt
  handle_schedule_race_autocomplete = do
    on_options (map_err (λ e. invalid_option "day") (get_focused_opt views "day"))
    pure days_offered

  -- the `create_async` and `cancel_async` commands, with their options
  unfoldable pub handle_create_race : Command V Reply
  unfolding get_user maybe_string Handlers.handle_create_race
  handle_create_race = do
    p1 ← get_user views "p1"
    p2 ← get_user views "p2"
    message ← maybe_string views "on_start_message"
    race ← db (
        map_err async_error (
          Handlers.handle_create_race p1 p2 message out.uuid now out.fresh_1 out.fresh_2
            out.contact_1 out.contact_2))
    pure (async_race race)

  abbrev if_no_options : Command V Reply → Command V Reply
  if_no_options m s = elim s.options [ [] ↦ m s | o ∷ rest ↦ (ok unexpected_option, s) ]

  unfoldable pub handle_cancel_race : Command V Reply
  unfolding get_integer Handlers.handle_cancel_race
  handle_cancel_race = do
    race_id ← get_integer views "race_id"
    if_no_options (
        answering async_cancel
          (db (map_err async_error (Handlers.handle_cancel_race (as_i32 race_id) out.told))))

  unfoldable pub schedule_command : Interaction → InteractionType → Command V Reply
  unfolding handle_schedule_race_cmd handle_schedule_race_autocomplete
  schedule_command i application_command =
      answering schedule (
        handle_schedule_race_cmd json.bracket_json.race_json posting views eastern (user_id i.user))
  schedule_command i application_command_autocomplete = handle_schedule_race_autocomplete
  schedule_command i other = throw unknown_command

  -- the commands of everyone; `none` if the name is not one of theirs
  unfoldable pub general_command : Interaction → Option (Command V Reply)
  unfolding schedule_command handle_submit_qualifier handle_update_user_info show_user
  general_command i =
      if str_eq i.name "schedule_race"
      then some (schedule_command i i.kind)
      else if str_eq i.name "submit_qualifier"
      then some (answering player (handle_submit_qualifier views json crates now i.user))
      else if str_eq i.name "update_user_info"
      then some (answering shown (handle_update_user_info views sites i.user))
      else if str_eq i.name "check_user_info"
      then some (answering (λ p. shown (some p)) (show_user views i.user))
      else if str_eq i.name "See user profile"
      then some (answering (λ p. shown (some p)) (show_user views i.target))
      else none

  unfoldable pub admin_command : Interaction → Command V Reply
  unfolding handle_create_player handle_add_player_to_bracket_submit
      handle_add_player_to_bracket_autocomplete handle_create_race handle_generate_pairings
      handle_reschedule_race_cmd handle_schedule_race_autocomplete handle_cancel_race
      handle_create_season handle_set_season_state handle_create_bracket handle_finish_bracket
      handle_report_race handle_rereport_race handle_see_unscheduled_races
      handle_commentator_command handle_set_restream scheduled_races_autocomplete
  admin_command i =
      if str_eq i.name "create_player"
      then answering player (handle_create_player views (λ u. name_of_user (known u)))
      else if str_eq i.name "add_player_to_bracket"
      then elim i.kind [
        | application_command ↦ answering player (handle_add_player_to_bracket_submit views known)
        | application_command_autocomplete ↦
            answering brackets_offered (handle_add_player_to_bracket_autocomplete views)
        | other ↦ pure unexpected_type
      ]
      else if str_eq i.name "create_async"
      then handle_create_race
      else if str_eq i.name "generate_pairings"
      then answering season (handle_generate_pairings views json crates now)
      else if str_eq i.name "reschedule_race"
      then elim i.kind [
        | application_command ↦
            answering (λ _. schedule ScheduleReply.is_scheduled)
              (handle_reschedule_race_cmd json.bracket_json.race_json posting views eastern)
        | application_command_autocomplete ↦ handle_schedule_race_autocomplete
        | other ↦ pure unexpected_type
      ]
      else if str_eq i.name "cancel_async"
      then handle_cancel_race
      else if str_eq i.name "create_season"
      then answering season (handle_create_season views json crates now)
      else if str_eq i.name "set_season_state"
      then answering season (handle_set_season_state views json crates now)
      else if str_eq i.name "create_bracket"
      then answering season (handle_create_bracket views json crates now)
      else if str_eq i.name "finish_bracket"
      then answering season (handle_finish_bracket views json crates now)
      else if str_eq i.name "report_race"
      then answering (λ _. race_updated) (handle_report_race views json.bracket_json.race_json)
      else if str_eq i.name "update_finished_race"
      then answering (λ _. race_updated) (handle_rereport_race views json.bracket_json.race_json)
      else if str_eq i.name "unscheduled_races"
      then answering unscheduled_races
          (handle_see_unscheduled_races views json.bracket_json.race_json)
      else if str_eq i.name "commentators"
      then elim i.kind [
        | application_command ↦ answering staff (handle_commentator_command views)
        | application_command_autocomplete ↦
            answering races_offered (scheduled_races_autocomplete views json.bracket_json.race_json)
        | other ↦ pure unexpected_type
      ]
      else if str_eq i.name "set_restream"
      then elim i.kind [
        | application_command ↦ answering staff (handle_set_restream views scheme_of)
        | application_command_autocomplete ↦
            answering races_offered (scheduled_races_autocomplete views json.bracket_json.race_json)
        | other ↦ pure unexpected_type
      ]
      else pure unhandled

  abbrev if_admin : Option Bool → Command V Reply → Command V Reply
  if_admin none m = throw unknown_command
  if_admin (some false) m = pure admin_only
  if_admin (some true) m = admin_command_wrapper m

  abbrev general_or : Option (Command V Reply) → Command V Reply → Command V Reply
  general_or none m = m
  general_or (some general) m = general

  unfoldable pub handle_application_interaction : Interaction → Command V Reply
  unfolding general_command admin_command
  handle_application_interaction i =
      general_or (general_command i) (if_admin i.by_admin (admin_command i))
