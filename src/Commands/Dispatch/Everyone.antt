-- ===== src/Commands/Dispatch/Everyone.antt =====
-- A user who is no admin changes none of the tables of admins.
use nmg_league_bot.Base.{
  ℕ, ◌≡◌, ◌≢◌, refl, ap, String, ◌||◌, is_some, Option, none, some, Bool, true, false, Result, ok,
  err, arith, if◌then◌else◌, str_eq,
}
use nmg_league_bot.Base.Methods.{map_err, pure, throw}
use nmg_league_bot.Base.Triples.{Keeps, bind-Keeps, if-Keeps}
use nmg_league_bot.Tables.{Player, Season, insert}
use nmg_league_bot.Tables.Steps.{select-tables}
use nmg_league_bot.Bracket.{PairingCrates}
use nmg_league_bot.Season.{SeasonJson, get_active_season}
use nmg_league_bot.Players.{User, get_or_create_from_discord_user, update}
use nmg_league_bot.Commands.Options.{OptionValues, get_focused_opt}
use nmg_league_bot.Commands.Requests.{
  CommandError, CommandSession, Command, db, on_options, get_string, maybe_string, invalid_option,
  database_error, season_error, site_error,
}
use nmg_league_bot.Commands.Scheduling.{handle_schedule_race_cmd}
use nmg_league_bot.Commands.Registration.{
  thanks, qualifier_row, add_qualifier, active_season_with_quals_open, save_qualifier,
  submit_qualifier, submit_read, submit_time, submit_timed, handle_submit_qualifier,
}
use nmg_league_bot.Commands.UserInfo.{
  Sites, Edit, edit_player, save_edit, answer_edit, update_user, update_given, update_if_given,
  handle_update_user_info, show_user,
}
use nmg_league_bot.Commands.Dispatch.{
  Interaction, InteractionType, application_command, application_command_autocomplete, other,
  Outside, Reply, answering, handle_schedule_race_autocomplete, user_id, schedule_command,
  general_command, handle_application_interaction, if_admin, general_or, admin_command,
}
use nmg_league_bot.Commands.Dispatch.Admins.{of_admins, of_conn, register-Keeps, update-Keeps}
use nmg_league_bot.Commands.Dispatch.General.{of_session, schedule_cmd-Keeps}

open_season-Keeps :
    (json : SeasonJson) (crates : PairingCrates) (now : ℕ)
    → Keeps of_conn (active_season_with_quals_open json crates now)
unfolding active_season_with_quals_open get_active_season
open_season-Keeps json crates now =
    bind-Keeps of_conn get_active_season _ (λ c. ap of_admins (select-tables _ _ c)) λ o c. refl

insert-Keeps :
    (p : Player) (s : Season) (secs : ℕ) (vod : String)
    → Keeps of_conn
        (insert {E = CommandError} database_error (qualifier_row p s secs vod) add_qualifier)
unfolding insert
insert-Keeps p s secs vod c = ground arith

module _ {V : Type 0} (views : OptionValues V) where
  module _ (json : SeasonJson) (crates : PairingCrates) (now : ℕ) where
    save-Keeps :
        (p : Player) (secs : ℕ) (vod : String) (o : Option Season)
        → Keeps of_session (save_qualifier views json crates now p secs vod o)
    unfolding save_qualifier
    save-Keeps p secs vod none = λ s. refl
    save-Keeps p secs vod (some x) =
        bind-Keeps of_session
          (db (insert database_error (qualifier_row p x secs vod) add_qualifier)) (λ _. pure thanks)
          (λ s. insert-Keeps p x secs vod s.conn) λ _ s. refl

    submit-Keeps :
        (user : User) (secs : ℕ) (vod : String)
        → Keeps of_session (submit_qualifier views json crates now user secs vod)
    unfolding submit_qualifier
    submit-Keeps user secs vod =
        bind-Keeps of_session (db (get_or_create_from_discord_user database_error user)) _
          (λ s. register-Keeps _ user s.conn)
          λ pr.
            bind-Keeps of_session
              (db (map_err season_error (active_season_with_quals_open json crates now))) _
              (λ s. open_season-Keeps json crates now s.conn) λ o. save-Keeps pr.0 secs vod o

    read-Keeps :
        (user : User) (secs : ℕ) (vod : Result CommandError String)
        → Keeps of_session (submit_read views json crates now user secs vod)
    unfolding submit_read
    read-Keeps user secs (err e) = λ s. refl
    read-Keeps user secs (ok vod) = submit-Keeps user secs vod

    time-Keeps :
        (user : User) (secs : Option ℕ)
        → Keeps of_session (submit_time views json crates now user secs)
    unfolding submit_time get_string
    time-Keeps user none = λ s. refl
    time-Keeps user (some secs) = λ s. read-Keeps user secs _ _

    timed-Keeps :
        (user : User) (time : Result CommandError String)
        → Keeps of_session (submit_timed views json crates now user time)
    unfolding submit_timed
    timed-Keeps user (err e) = λ s. refl
    timed-Keeps user (ok time) = time-Keeps user _

    submit_cmd-Keeps :
        (user : Option User) → Keeps of_session (handle_submit_qualifier views json crates now user)
    unfolding handle_submit_qualifier get_string
    submit_cmd-Keeps none = λ s. refl
    submit_cmd-Keeps (some user) = λ s. timed-Keeps user _ _

  save_edit-Keeps : (e : Edit) → Keeps of_session (save_edit views e)
  unfolding save_edit
  save_edit-Keeps e =
      if-Keeps of_session e.save (db (update database_error e.player)) (pure tt)
        (λ s. update-Keeps _ e.player s.conn) λ s. refl

  answer-Keeps : (e : Edit) → Keeps of_session (answer_edit views e)
  unfolding answer_edit
  answer-Keeps e =
      if-Keeps of_session e.failed_lookup (throw site_error) (pure e.player) (λ s. refl) λ s. refl

  update_user-Keeps :
      (sites : Sites) (user : User) (nickname twitch racetime : Option String)
      → Keeps of_session (update_user views sites user nickname twitch racetime)
  unfolding update_user
  update_user-Keeps sites user nickname twitch racetime =
      bind-Keeps of_session (db (get_or_create_from_discord_user database_error user)) _
        (λ s. register-Keeps _ user s.conn)
        λ pr.
          bind-Keeps of_session (save_edit views (edit_player sites nickname twitch racetime pr.0))
            _ (save_edit-Keeps (edit_player sites nickname twitch racetime pr.0))
            λ _. answer-Keeps (edit_player sites nickname twitch racetime pr.0)

  given-Keeps :
      (sites : Sites) (user : Option User) (nickname twitch racetime : Option String)
      → Keeps of_session (update_given views sites user nickname twitch racetime)
  unfolding update_given
  given-Keeps sites none nickname twitch racetime = λ s. refl
  given-Keeps sites (some user) nickname twitch racetime =
      bind-Keeps of_session (update_user views sites user nickname twitch racetime) _
        (update_user-Keeps sites user nickname twitch racetime) λ p s. refl

  if_given-Keeps :
      (sites : Sites) (user : Option User) (nickname twitch racetime : Option String)
      → Keeps of_session (update_if_given views sites user nickname twitch racetime)
  unfolding update_if_given
  if_given-Keeps sites user nickname twitch racetime =
      if-Keeps of_session (is_some nickname || is_some twitch || is_some racetime)
        (update_given views sites user nickname twitch racetime) (pure none)
        (given-Keeps sites user nickname twitch racetime) λ s. refl

  update_cmd-Keeps :
      (sites : Sites) (user : Option User)
      → Keeps of_session (handle_update_user_info views sites user)
  unfolding handle_update_user_info maybe_string get_string
  update_cmd-Keeps sites user s = if_given-Keeps sites user _ _ _ _

  show-Keeps : (user : Option User) → Keeps of_session (show_user views user)
  unfolding show_user
  show-Keeps none = λ s. refl
  show-Keeps (some user) =
      bind-Keeps of_session (db (get_or_create_from_discord_user database_error user)) _
        (λ s. register-Keeps _ user s.conn) λ pr s. refl

module _ {V : Type 0} (views : OptionValues V) (out : Outside) where
  abbrev IfAny : Option (Command V Reply) → Type 0
  IfAny none = Unit
  IfAny (some m) = Keeps of_session m

  if-IfAny :
      (b : Bool) (x y : Option (Command V Reply)) → IfAny x → IfAny y → IfAny (if b then x else y)
  if-IfAny true x y h k = h
  if-IfAny false x y h k = k

  answering-Keeps :
      {A : Type 0} (f : A → Reply) (m : Command V A)
      → Keeps of_session m
      → Keeps of_session (answering f m)
  answering-Keeps f m h = bind-Keeps of_session m _ h λ a s. refl

  scheduling-Keeps :
      (i : Interaction) (kind : InteractionType)
      → Keeps of_session (schedule_command views out i kind)
  unfolding schedule_command handle_schedule_race_autocomplete
  scheduling-Keeps i application_command =
      answering-Keeps Reply.schedule
        (handle_schedule_race_cmd out.json.bracket_json.race_json out.posting views out.eastern
          (user_id i.user))
        (schedule_cmd-Keeps out.json.bracket_json.race_json out.posting views out.eastern
          (user_id i.user))
  scheduling-Keeps i application_command_autocomplete =
      bind-Keeps of_session
        (on_options (map_err (λ e. invalid_option "day") (get_focused_opt views "day"))) _
        (λ s. refl) λ _ s. refl
  scheduling-Keeps i other = λ s. refl

  general-IfAny : (i : Interaction) → IfAny (general_command views out i)
  unfolding general_command
  general-IfAny i = if-IfAny (str_eq i.name "schedule_race") _ _ (scheduling-Keeps i i.kind) (
      if-IfAny (str_eq i.name "submit_qualifier") _ _
        (answering-Keeps Reply.player
          (handle_submit_qualifier views out.json out.crates out.now i.user)
          (submit_cmd-Keeps views out.json out.crates out.now i.user))
        (if-IfAny (str_eq i.name "update_user_info") _ _
          (answering-Keeps Reply.shown (handle_update_user_info views out.sites i.user)
            (update_cmd-Keeps views out.sites i.user))
          (if-IfAny (str_eq i.name "check_user_info") _ _
            (answering-Keeps (λ p. Reply.shown (some p)) (show_user views i.user)
              (show-Keeps views i.user))
            (if-IfAny (str_eq i.name "See user profile") _ none
              (answering-Keeps (λ p. Reply.shown (some p)) (show_user views i.target)
                (show-Keeps views i.target))
              tt))))

  not_admin-Keeps :
      (a : Option Bool) (m : Command V Reply)
      → a ≢ some true
      → Keeps of_session (if_admin views out a m)
  not_admin-Keeps none m h = λ s. refl
  not_admin-Keeps (some false) m h = λ s. refl
  not_admin-Keeps (some true) m h = λ s. absurd (h refl)

  dispatch-Keeps :
      (o : Option (Command V Reply)) (m : Command V Reply)
      → IfAny o
      → Keeps of_session m
      → Keeps of_session (general_or views out o m)
  dispatch-Keeps none m h k = k
  dispatch-Keeps (some g) m h k = h

  -- Whatever the command is, and however the database answers: for a user of whom it is not found
  -- that they are an admin, `handle_application_interaction` leaves the seasons, brackets, rounds,
  -- entries, asynchronous races with their runs, and the criteria of the guilds as they are.
  pub handle_application_interaction-Keeps :
      (i : Interaction) (s : CommandSession V)
      → i.by_admin ≢ some true
      → of_admins (handle_application_interaction views out i s).1.conn.tables
        ≡ of_admins s.conn.tables
  unfolding handle_application_interaction
  handle_application_interaction-Keeps i s h =
      dispatch-Keeps (general_command views out i)
        (if_admin views out i.by_admin (admin_command views out i)) (general-IfAny i)
        (not_admin-Keeps i.by_admin (admin_command views out i) h) s
