-- ===== src/Commands/Staff.antt =====
-- The commands on commentators and restreams, and the autocompletions. Whether a text is a url, and of
-- which scheme, is what the url crate says.
use Prim.Native.Char.{code}
use nmg_league_bot.Base.{
  ℕ, String, Option, none, some, Bool, true, false, ◌&&◌, List, [], ◌∷◌, map, Result, ok, err, leb,
  ◌==◌, str_eq, if◌then◌else◌,
}
use nmg_league_bot.Base.Methods.{pure, lift, map_err, ◌>>=◌, ◌>>◌}
use nmg_league_bot.Race.{BracketRace, RaceJson}
use nmg_league_bot.Tables.{BracketRaceInfo, Player}
use nmg_league_bot.RaceInfo.{new_commentator_signup, remove_commentator, update_info}
use nmg_league_bot.RaceInfo.Queries.{get_by_id, info, players, scheduled, unscheduled}
use nmg_league_bot.Season.{brackets}
use nmg_league_bot.Players.{by_id}
use nmg_league_bot.Commands.Options.{OptionValues, get_subcommand_options, get_focused_opt, as_i32}
use nmg_league_bot.Commands.Requests.{
  CommandError, Command, db, on_options, get_integer, get_user, get_string, unknown_command,
  invalid_option, not_found, database_error, season_error,
}
use nmg_league_bot.Commands.Seasons.{active_season, get_bracket_by_id}

pub data StaffReply : Type 0 where
  commentators_updated already_signed_up not_signed_up restream_updated bad_url : StaffReply

pub data CommentatorCommand : Type 0 where
  add remove : CommentatorCommand

abbrev commentator_command : String → Option CommentatorCommand
commentator_command name =
    if str_eq name "add" then some add else if str_eq name "remove" then some remove else none

unfoldable pub starts_with : String → String → Bool
starts_with String.[] s = true
starts_with (String.◌∷◌ c p) String.[] = false
starts_with (String.◌∷◌ c p) (String.◌∷◌ d s) = code c == code d && starts_with p s

module _ {V : Type 0} (views : OptionValues V) where
  abbrev signup_answer : Bool → StaffReply
  signup_answer true = commentators_updated
  signup_answer false = already_signed_up

  abbrev removal_answer : ℕ → StaffReply
  removal_answer n = if n == 0 then not_signed_up else commentators_updated

  abbrev run_commentator : CommentatorCommand → BracketRaceInfo → String → Command V StaffReply
  unfolding new_commentator_signup remove_commentator
  run_commentator add i user = do
    fresh ← db (new_commentator_signup database_error i user)
    pure (signup_answer fresh)
  run_commentator remove i user = do
    n ← db (remove_commentator database_error i user)
    pure (removal_answer n)

  -- the subcommand, whose options take the place of the command's
  abbrev take_subcommand : Command V String
  unfolding get_subcommand_options
  take_subcommand s = elim (get_subcommand_options views s.options) [
    | err e ↦ (err (invalid_option "subcommand"), s)
    | ok (name, opts) ↦ (ok name, record s { options = opts })
  ]

  unfoldable pub handle_commentator_command : Command V StaffReply
  unfolding take_subcommand get_user get_integer get_by_id info run_commentator
  handle_commentator_command = do
    cmd_s ← take_subcommand
    cmd ← lift (elim (commentator_command cmd_s) [ none ↦ err unknown_command | some c ↦ ok c ])
    user ← get_user views "commentator"
    race_id ← get_integer views "race"
    race ← db (get_by_id database_error not_found (as_i32 race_id))
    i ← db (info database_error race)
    run_commentator cmd i user

  module _ (scheme_of : String → Option String) where
    -- the channel that a text stands for: none, or a url; `none` is a text that is refused
    abbrev restream_channel : String → Option (Option String)
    unfolding starts_with
    restream_channel channel =
        if str_eq channel "none" then some none else elim (scheme_of channel) [
          | none ↦ none
          | some scheme ↦ if starts_with "http" scheme then some (some channel) else none
        ]

    abbrev store_restream : BracketRaceInfo → Option (Option String) → Command V StaffReply
    unfolding update_info
    store_restream i none = pure bad_url
    store_restream i (some c) = do
      db (update_info database_error (record i { restream_channel = c }))
      pure restream_updated

    unfoldable pub handle_set_restream : Command V StaffReply
    unfolding get_integer get_string get_by_id info restream_channel store_restream
    handle_set_restream = do
      race_id ← get_integer views "race"
      channel ← get_string views "channel"
      race ← db (get_by_id database_error not_found (as_i32 race_id))
      i ← db (info database_error race)
      store_restream i (restream_channel channel)

  abbrev name_of : List (ℕ × Player) → ℕ → String
  name_of [] i = "Unknown"
  name_of ((j, p) ∷ ps) i = if j == i then p.name else name_of ps i

  abbrev ids_of : List BracketRace → List ℕ
  ids_of [] = []
  ids_of (r ∷ rs) = r.player_1_id ∷ r.player_2_id ∷ ids_of rs

  -- `scheduled_races_autocomplete`: the names of the players, and the id of the race
  unfoldable pub scheduled_races_autocomplete : RaceJson → Command V (List (String × String × ℕ))
  unfolding scheduled by_id
  scheduled_races_autocomplete json = do
    races ← db (scheduled database_error json)
    involved ← db (by_id database_error (some (ids_of races)))
    pure (map (λ r. (name_of involved r.player_1_id, name_of involved r.player_2_id, r.id)) races)

  unfoldable pub get_bracket_autocompletes : Command V (List String)
  unfolding get_focused_opt active_season brackets
  get_bracket_autocompletes = do
    on_options (map_err (λ e. invalid_option "bracket") (get_focused_opt views "bracket"))
    szn ← active_season
    bs ← db (map_err season_error (brackets szn))
    pure (map (λ b. b.name) bs)

  abbrev or_nothing : {A : Type 0} → Result CommandError (List A) → List A
  or_nothing (ok xs) = xs
  or_nothing (err e) = []

  -- an error is an empty list of choices
  unfoldable pub handle_add_player_to_bracket_autocomplete : Command V (List String)
  unfolding get_bracket_autocompletes
  handle_add_player_to_bracket_autocomplete s =
      let (r, t) = get_bracket_autocompletes s in (ok (or_nothing r), t)

  -- `sort_by_key`, which is stable
  abbrev insert_by_bracket : BracketRace → List BracketRace → List BracketRace
  insert_by_bracket r [] = r ∷ []
  insert_by_bracket r (q ∷ qs) =
      if leb r.bracket_id q.bracket_id then r ∷ q ∷ qs else q ∷ insert_by_bracket r qs

  abbrev sort_by_bracket : List BracketRace → List BracketRace
  sort_by_bracket [] = []
  sort_by_bracket (r ∷ rs) = insert_by_bracket r (sort_by_bracket rs)

  -- the names of both players and of the bracket, for every race
  unfoldable pub race_fields : List BracketRace → Command V (List (String × String × String))
  unfolding players get_bracket_by_id
  race_fields [] = pure []
  race_fields (r ∷ rs) = do
    ps ← db (players database_error not_found r)
    b ← get_bracket_by_id r.bracket_id
    rest ← race_fields rs
    pure ((ps.0.name, ps.1.name, b.name) ∷ rest)

  unfoldable pub handle_see_unscheduled_races :
      RaceJson → Command V (List (String × String × String))
  unfolding unscheduled race_fields
  handle_see_unscheduled_races json = do
    races ← db (unscheduled database_error json)
    race_fields (sort_by_bracket races)
