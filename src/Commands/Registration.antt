-- ===== src/Commands/Registration.antt =====
-- The commands on players and qualifiers, and src/models/qualifer_submission.rs. What twitch.tv and
-- racetime.gg answer is an input.
pub mod Qualifying
use nmg_league_bot.Base.{
  ℕ, String, Option, none, some, Bool, true, false, not, ◌&&◌, ◌||◌, List, [], ◌∷◌, ◌++◌, Result,
  ok, err, ok_or, Method, filter, ◌==◌, str_eq, is_some, if◌then◌else◌,
}
use nmg_league_bot.Base.Methods.{pure, throw, lift, map_err, ◌>>=◌, ◌>>◌}
use nmg_league_bot.Times.{parse_hms}
use nmg_league_bot.Tables.{
  Player, PlayerBracketEntry, Season, Bracket, QualifierSubmission, Connection, Tables, select,
  write, insert, first_where, next_id,
}
use nmg_league_bot.Bracket.{PairingCrates}
use nmg_league_bot.Season.{
  SeasonError, SeasonJson, are_qualifiers_open, safe_to_delete_qualifiers, get_active_season,
  brackets,
}
use nmg_league_bot.Players.{
  User, NewPlayer, save, update, save_entry, get_or_create_from_discord_user,
}
use nmg_league_bot.Commands.Options.{OptionValues, as_i32}
use nmg_league_bot.Commands.Reports.{text_of}
use nmg_league_bot.Commands.Requests.{
  CommandError, CommandSession, Command, db, get_string, get_user, maybe_string, user_not_found,
  no_member, not_found, database_error, season_error,
}
use nmg_league_bot.Commands.Seasons.{active_season}

-- `NewQualifierSubmission::new`, as the row with its id; the time, `as i32`, is kept as its bits
unfoldable pub new_qualifier : Player → Season → ℕ → String → ℕ → QualifierSubmission
unfolding as_i32
new_qualifier p s secs vod i = record {
  id = i;
  player_id = p.id;
  season_id = s.id;
  reported_time = as_i32 secs;
  vod_link = vod;
}

abbrev pub qualifier_row : Player → Season → ℕ → String → Tables → QualifierSubmission
qualifier_row p s secs vod t = new_qualifier p s secs vod (next_id (λ q. q.id) t.qualifiers)

abbrev pub add_qualifier : QualifierSubmission → Tables → Tables
add_qualifier row t = record t { qualifiers = t.qualifiers ++ row ∷ [] }

-- what the handlers answer
pub data PlayerReply : Type 0 where
  player_added added_to_bracket thanks not_open invalid_time nothing_given : PlayerReply
  missing : CommandError → PlayerReply
  profile : Player → PlayerReply

module _ (json : SeasonJson) (crates : PairingCrates) (now : ℕ) where
  abbrev if_open : Option Season → Result SeasonError (Option Season)
  unfolding are_qualifiers_open
  if_open none = ok none
  if_open (some s) = elim (are_qualifiers_open json crates now s) [
    | err e ↦ err e
    | ok true ↦ ok (some s)
    | ok false ↦ ok none
  ]

  unfoldable pub active_season_with_quals_open : Method Connection SeasonError (Option Season)
  unfolding get_active_season are_qualifiers_open
  active_season_with_quals_open = do s ← get_active_season; lift (if_open s)

  -- `QualifierSubmission::safe_to_delete`
  unfoldable pub safe_to_delete : QualifierSubmission → Method Connection SeasonError Bool
  unfolding select safe_to_delete_qualifiers
  safe_to_delete q = do
    s ← select SeasonError.database_error (λ t. first_where (λ s. s.id == q.season_id) t.seasons)
    season ← lift (ok_or s SeasonError.not_found)
    lift (safe_to_delete_qualifiers json crates now season)

  unfoldable pub delete_qualifier : QualifierSubmission → Method Connection SeasonError Unit
  unfolding write
  delete_qualifier q =
      write SeasonError.database_error
        (λ t. record t { qualifiers = filter (λ x. not (x.id == q.id)) t.qualifiers })

module _ {V : Type 0} (views : OptionValues V) where
  -- `handle_create_player`; the name of a user that the bot has seen, if it has
  unfoldable pub handle_create_player : (String → Option String) → Command V PlayerReply
  unfolding get_user get_string maybe_string save
  handle_create_player known = do
    discord_user ← get_user views "user"
    rt_un ← get_string views "rtgg_username"
    twitch_name ← get_string views "twitch_username"
    name_override ← maybe_string views "name"
    name ←
        lift (
          ok_or (elim name_override [ some n ↦ some n | none ↦ known discord_user ]) user_not_found)
    db (
        save database_error (record {
          name = name;
          discord_id = discord_user;
          racetime_username = some rt_un;
          twitch_user_login = some twitch_name;
          racetime_user_id = none;
        }))
    pure player_added

  abbrev named : String → List Bracket → Option Bracket
  named n [] = none
  named n (b ∷ bs) = if str_eq b.name n then some b else named n bs

  unfoldable pub handle_add_player_to_bracket_submit :
      (String → Option User) → Command V PlayerReply
  unfolding get_user get_string get_or_create_from_discord_user active_season brackets save_entry
  handle_add_player_to_bracket_submit known = do
    discord_id ← get_user views "user"
    bracket_name ← get_string views "bracket"
    user ← lift (ok_or (known discord_id) user_not_found)
    player ← db (get_or_create_from_discord_user database_error user)
    szn ← active_season
    bs ← db (map_err season_error (brackets szn))
    bracket ← lift (ok_or (named bracket_name bs) not_found)
    db (save_entry database_error bracket player.0)
    pure added_to_bracket

  module _ (json : SeasonJson) (crates : PairingCrates) (now : ℕ) where
    unfoldable pub save_qualifier : Player → ℕ → String → Option Season → Command V PlayerReply
    unfolding insert new_qualifier
    save_qualifier p secs vod none = pure not_open
    save_qualifier p secs vod (some s) = do
      db (insert database_error (qualifier_row p s secs vod) add_qualifier)
      pure thanks

    -- the submission, once its options are read
    unfoldable pub submit_qualifier : User → ℕ → String → Command V PlayerReply
    unfolding get_or_create_from_discord_user active_season_with_quals_open save_qualifier
    submit_qualifier user secs vod = do
      player ← db (get_or_create_from_discord_user database_error user)
      season ← db (map_err season_error (active_season_with_quals_open json crates now))
      save_qualifier player.0 secs vod season

    abbrev attempt : {A : Type 0} → Command V A → Command V (Result CommandError A)
    attempt m s = let (r, t) = m s in (ok r, t)

    unfoldable pub submit_read : User → ℕ → Result CommandError String → Command V PlayerReply
    unfolding submit_qualifier
    submit_read user secs (err e) = pure (missing e)
    submit_read user secs (ok vod) = submit_qualifier user secs vod

    unfoldable pub submit_time : User → Option ℕ → Command V PlayerReply
    unfolding submit_read get_string
    submit_time user none = pure invalid_time
    submit_time user (some secs) = do
      vod ← attempt (get_string views "vod")
      submit_read user secs vod

    unfoldable pub submit_timed : User → Result CommandError String → Command V PlayerReply
    unfolding submit_time text_of parse_hms
    submit_timed user (err e) = pure (missing e)
    submit_timed user (ok time) = submit_time user (parse_hms (text_of time))

    -- `handle_submit_qualifier`, by the user who sent it, if there is one
    unfoldable pub handle_submit_qualifier : Option User → Command V PlayerReply
    unfolding get_string submit_timed
    handle_submit_qualifier none = throw no_member
    handle_submit_qualifier (some user) = do
      time ← attempt (get_string views "qualifier_time")
      submit_timed user time
