-- ===== src/Commands/UserInfo.antt =====
-- What users change of their own row: `handle_update_user_info`, and the two commands that only show
-- it. What twitch.tv and racetime.gg say of a name is an input.
use Prim.Native.Char.{code}
use nmg_league_bot.Base.{
  ℕ, String, Option, none, some, Bool, true, false, ◌&&◌, ◌||◌, leb, ◌==◌, is_some, if◌then◌else◌,
}
use nmg_league_bot.Base.Methods.{pure, throw, ◌>>=◌, ◌>>◌}
use nmg_league_bot.Times.{is_digit}
use nmg_league_bot.Tables.{Player}
use nmg_league_bot.Players.{User, update, get_or_create_from_discord_user}
use nmg_league_bot.Commands.Options.{OptionValues}
use nmg_league_bot.Commands.Requests.{
  Command, db, maybe_string, no_member, site_error, database_error,
}

-- what is found out about a name: it is kept in some form, refused with a message, or not looked up
pub data Lookup (A : Type 0) : Type 0 where
  found : A → Lookup A
  refused failed : Lookup A

pub record Sites : Type 0 where
  -- `validate_twitch_username`: the login as twitch.tv spells it
  pub twitch : String → Lookup String
  -- `validate_racetime_username`, with the twitch login of the player: the id of the user
  pub racetime : String → Option String → Lookup String

-- the ASCII characters of `\s`
abbrev is_blank : ℕ → Bool
is_blank c = c == 32 || leb 9 c && leb c 13

unfoldable pub skip_blanks : String → String
skip_blanks String.[] = String.[]
skip_blanks (String.◌∷◌ c s) =
    let rest = skip_blanks s in if is_blank (code c) then rest else String.◌∷◌ c s

-- `\d*$`
unfoldable pub only_digits : String → Bool
only_digits String.[] = true
only_digits (String.◌∷◌ c s) = is_digit (code c) && only_digits s

-- `#\d+$`
unfoldable pub is_tag : String → Bool
unfolding only_digits
is_tag (String.◌∷◌ h (String.◌∷◌ c s)) = code h == b'#' && is_digit (code c) && only_digits s
is_tag _ = false

-- `normalize_racetime_name`: the blanks before a number sign and digits at the end are taken out
unfoldable pub normalize_racetime_name : String → String
unfolding skip_blanks is_tag
normalize_racetime_name String.[] = String.[]
normalize_racetime_name (String.◌∷◌ c s) =
    let later = normalize_racetime_name s in
    if is_blank (code c) && is_tag (skip_blanks s) then skip_blanks s else String.◌∷◌ c later

-- the row in memory, whether it is to be saved, and whether a site could not be asked
pub record Edit : Type 0 where
  pub player : Player
  pub save : Bool
  pub failed_lookup : Bool

abbrev edit_name : Option String → Edit → Edit
edit_name none e = e
edit_name (some n) e = record e { player = record e.player { name = n }; save = true }

abbrev keep_twitch : Lookup String → Edit → Edit
keep_twitch (found login) e = record e {
  player = record e.player { twitch_user_login = some login };
  save = true;
}
keep_twitch refused e = e
keep_twitch failed e = record e { failed_lookup = true }

abbrev edit_twitch : Sites → Option String → Edit → Edit
edit_twitch sites none e = e
edit_twitch sites (some t) e = keep_twitch (sites.twitch t) e

abbrev keep_racetime : String → Lookup String → Edit → Edit
keep_racetime name (found uid) e = record e {
  player = record e.player { racetime_username = some name; racetime_user_id = some uid };
  save = true;
}
keep_racetime name refused e = e
keep_racetime name failed e = record e { failed_lookup = true }

-- the racetime name is checked against the twitch login that the row has by now
abbrev edit_racetime : Sites → Option String → Edit → Edit
unfolding normalize_racetime_name
edit_racetime sites none e = e
edit_racetime sites (some r) e =
    keep_racetime (normalize_racetime_name r)
      (sites.racetime (normalize_racetime_name r) e.player.twitch_user_login) e

unfoldable pub edit_player : Sites → Option String → Option String → Option String → Player → Edit
unfolding edit_racetime
edit_player sites nickname twitch racetime p = edit_racetime sites racetime (
    edit_twitch sites twitch
      (edit_name nickname (record { player = p; save = false; failed_lookup = false })))

module _ {V : Type 0} (views : OptionValues V) where
  unfoldable pub save_edit : Edit → Command V Unit
  unfolding update
  save_edit e = if e.save then db (update database_error e.player) else pure tt

  unfoldable pub answer_edit : Edit → Command V Player
  answer_edit e = if e.failed_lookup then throw site_error else pure e.player

  unfoldable pub update_user :
      Sites → User → Option String → Option String → Option String → Command V Player
  unfolding get_or_create_from_discord_user edit_player save_edit answer_edit
  update_user sites user nickname twitch racetime = do
    player ← db (get_or_create_from_discord_user database_error user)
    save_edit (edit_player sites nickname twitch racetime player.0)
    answer_edit (edit_player sites nickname twitch racetime player.0)

  unfoldable pub update_given :
      Sites
      → Option User
      → Option String
      → Option String
      → Option String
      → Command V (Option Player)
  unfolding update_user
  update_given sites none nickname twitch racetime = throw no_member
  update_given sites (some user) nickname twitch racetime = do
    p ← update_user sites user nickname twitch racetime
    pure (some p)

  unfoldable pub update_if_given :
      Sites
      → Option User
      → Option String
      → Option String
      → Option String
      → Command V (Option Player)
  unfolding update_given
  update_if_given sites user nickname twitch racetime =
      if is_some nickname || is_some twitch || is_some racetime
      then update_given sites user nickname twitch racetime
      else pure none

  -- the player is shown; `none` is the answer that nothing was given
  unfoldable pub handle_update_user_info : Sites → Option User → Command V (Option Player)
  unfolding maybe_string update_if_given
  handle_update_user_info sites user = do
    nickname ← maybe_string views "nickname"
    twitch ← maybe_string views "twitch"
    racetime ← maybe_string views "racetime"
    update_if_given sites user nickname twitch racetime

  -- `handle_check_user_info` by the sender, and `handle_user_profile` by the user it is about
  unfoldable pub show_user : Option User → Command V Player
  unfolding get_or_create_from_discord_user
  show_user none = throw no_member
  show_user (some user) = do
    player ← db (get_or_create_from_discord_user database_error user)
    pure player.0
