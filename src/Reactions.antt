-- ===== src/Reactions.antt =====
-- src/discord/reaction_handlers.rs: what reactions to the messages about a race do, with
-- `race_to_nice_embeds` of src/utils.rs and `comm_ids_and_names` of src/discord/mod.rs. Discord's
-- answers are inputs; ids are texts.

pub mod Reads
pub mod Effects
pub mod Reacting
use Prim.Native.String.{◌++◌}
use nmg_league_bot.Base.{
  ℕ, String, Option, none, some, Bool, true, false, List, map, Method, str_eq, if◌then◌else◌, [],
  ◌∷◌, ◌&&◌, ◌==◌,
}
use nmg_league_bot.Base.Methods.{pure, throw, ◌>>=◌}
use nmg_league_bot.Tables.{BracketRaceInfo, Connection}
use nmg_league_bot.RaceInfo.{
  update_info, new_commentator_signup, remove_commentator, commentator_signups,
}
use nmg_league_bot.RaceInfo.Queries.{
  race, players, bracket, title, get_by_commportunities_message_id,
  get_by_restream_request_message_id,
}
use nmg_league_bot.Times.{Text}
use nmg_league_bot.Commands.Reports.{text_of}
use nmg_league_bot.Commands.Scheduling.{clear_message}

-- `EmojiReactionType`
pub data EmojiReactionType : Type 0 where
  custom : Option String → EmojiReactionType
  unicode : String → EmojiReactionType

-- `ReactionAdd`, with the id of the member's user
pub record ReactionAdd : Type 0 where
  pub message_id : String
  pub user_id : String
  pub guild_id : Option String
  pub member : Option String
  pub emoji : EmojiReactionType

-- `ReactionRemove`
pub record ReactionRemove : Type 0 where
  pub message_id : String
  pub user_id : String

-- `ReactionAddError`
pub data ReactionAddError : Type 0 where
  inexplicably_missing_member database_error not_found http_error : ReactionAddError

-- What Discord answers: the bot's own id, if it is known; who is an admin, if it is found out; the
-- ids of messages that are posted; and which are gone.
pub record Discord : Type 0 where
  pub current_user : Option String
  pub has_admin_role : String → String → Option Bool
  pub best_name_for : String → String
  pub tentative_posted : Option String
  pub request_posted : Option String
  pub assignment_posted : Option String
  pub signup_posted : Bool
  pub commportunities_deleted : Bool
  pub tentative_deleted : Bool

-- `race_to_nice_embeds`, less the format of the time
pub record RaceFields : Type 0 where
  pub division : String
  pub scheduled_for : Option ℕ
  pub title : String

unfoldable pub race_to_nice_embeds : BracketRaceInfo → Method Connection ReactionAddError RaceFields
unfolding race bracket title
race_to_nice_embeds info = do
  r ← race database_error not_found info
  b ← bracket database_error not_found r
  t ← title database_error not_found r
  pure (record { division = b.name; scheduled_for = info.scheduled_for; title = t })

abbrev is_linkbot : EmojiReactionType → Bool
is_linkbot (custom none) = false
is_linkbot (custom (some name)) = str_eq name "Linkbot"
is_linkbot (unicode _) = false

-- the digit, U+FE0F and U+20E3
abbrev is_keycap : ℕ → Text → Bool
is_keycap digit (a ∷ b ∷ c ∷ []) = a == digit && b == 65039 && c == 8419
is_keycap digit _ = false

abbrev keycap_channel : Text → Option String
keycap_channel name =
    if is_keycap b'1' name
    then some "zeldaspeedruns"
    else if is_keycap b'2' name
    then some "zeldaspeedruns2"
    else if is_keycap b'3' name
    then some "zeldaspeedruns_3"
    else if is_keycap b'4' name
    then some "zeldaspeedruns_4"
    else none

unfoldable pub emoji_to_restream_channel : EmojiReactionType → Option String
unfolding text_of
emoji_to_restream_channel (custom none) = none
emoji_to_restream_channel (custom (some name)) =
    if str_eq name "greenham" then some "FGfm" else none
emoji_to_restream_channel (unicode name) = keycap_channel (text_of name)

abbrev pub channel_url : String → String
channel_url chan = "https://twitch.tv/" ++ chan

abbrev set_message : Option String → Option String → Option String
set_message none old = old
set_message (some mid) old = some mid

module _ (discord : Discord) where
  abbrev pub admin_answer : EmojiReactionType → Option Bool → Bool
  admin_answer emoji none = false
  admin_answer emoji (some false) = false
  admin_answer emoji (some true) = is_linkbot emoji

  unfoldable pub is_admin_confirmation_reaction : ReactionAdd → Bool
  is_admin_confirmation_reaction r = elim r.guild_id [
    | none ↦ false
    | some gid ↦ admin_answer r.emoji (discord.has_admin_role r.user_id gid)
  ]

  unfoldable pub comm_ids_and_names :
      BracketRaceInfo → Method Connection ReactionAddError (List (String × String))
  unfolding commentator_signups
  comm_ids_and_names info = do
    comms ← commentator_signups database_error info
    pure (map (λ x. (x.discord_id, discord.best_name_for x.discord_id)) comms)

  -- the messages that are posted and deleted when commentators are confirmed
  unfoldable pub confirmed : BracketRaceInfo → BracketRaceInfo
  unfolding clear_message
  confirmed info = record info {
    tentative_commentary_assignment_message_id =
        set_message discord.tentative_posted info.tentative_commentary_assignment_message_id;
    restream_request_message_id =
        set_message discord.request_posted info.restream_request_message_id;
    commportunities_message_id =
        clear_message discord.commportunities_deleted info.commportunities_message_id;
  }

  unfoldable pub handle_commentary_confirmation :
      BracketRaceInfo → Method Connection ReactionAddError Unit
  unfolding comm_ids_and_names race_to_nice_embeds confirmed update_info
  handle_commentary_confirmation info = do
    names ← comm_ids_and_names info
    fields ← race_to_nice_embeds info
    update_info database_error (confirmed info)

  unfoldable pub create_commentator_signup_post :
      BracketRaceInfo → Method Connection ReactionAddError Unit
  unfolding race title
  create_commentator_signup_post info = do
    r ← race database_error not_found info
    t ← title database_error not_found r
    if discord.signup_posted then pure tt else throw http_error

  unfoldable pub post_if_fresh : BracketRaceInfo → Bool → Method Connection ReactionAddError Unit
  unfolding commentator_signups create_commentator_signup_post
  post_if_fresh info false = pure tt
  post_if_fresh info true = do
    commentators ← commentator_signups database_error info
    create_commentator_signup_post info

  unfoldable pub handle_commentary_signup :
      BracketRaceInfo → String → Method Connection ReactionAddError Unit
  unfolding new_commentator_signup post_if_fresh
  handle_commentary_signup info user = do
    fresh ← new_commentator_signup database_error info user
    post_if_fresh info fresh

  unfoldable pub handle_commportunities_reaction :
      BracketRaceInfo → ReactionAdd → Method Connection ReactionAddError Unit
  unfolding is_admin_confirmation_reaction handle_commentary_confirmation handle_commentary_signup
  handle_commportunities_reaction info r =
      if is_admin_confirmation_reaction r
      then handle_commentary_confirmation info
      else handle_commentary_signup info r.user_id

  -- the info once its commentary is assigned to a channel
  unfoldable pub assigned : String → BracketRaceInfo → BracketRaceInfo
  unfolding clear_message
  assigned chan info = record info {
    restream_channel = some (channel_url chan);
    commentary_assignment_message_id =
        set_message discord.assignment_posted info.commentary_assignment_message_id;
    tentative_commentary_assignment_message_id =
        clear_message discord.tentative_deleted info.tentative_commentary_assignment_message_id;
  }

  unfoldable pub assign : BracketRaceInfo → Option String → Method Connection ReactionAddError Unit
  unfolding comm_ids_and_names race_to_nice_embeds race players assigned update_info
  assign info none = pure tt
  assign info (some chan) = do
    comms ← comm_ids_and_names info
    fields ← race_to_nice_embeds info
    r ← race database_error not_found info
    ps ← players database_error not_found r
    update_info database_error (assigned chan info)

  unfoldable pub handle_restream_request_reaction :
      BracketRaceInfo → ReactionAdd → Method Connection ReactionAddError Unit
  unfolding emoji_to_restream_channel assign
  handle_restream_request_reaction info r = assign info (emoji_to_restream_channel r.emoji)

  unfoldable pub restream_request :
      ReactionAdd → Option BracketRaceInfo → Method Connection ReactionAddError Unit
  unfolding handle_restream_request_reaction
  restream_request r none = pure tt
  restream_request r (some i) = handle_restream_request_reaction i r

  unfoldable pub interesting :
      ReactionAdd → Option BracketRaceInfo → Method Connection ReactionAddError Unit
  unfolding get_by_restream_request_message_id handle_commportunities_reaction restream_request
  interesting r (some i) = handle_commportunities_reaction i r
  interesting r none = do
    found ← get_by_restream_request_message_id database_error r.message_id
    restream_request r found

  abbrev pub is_self : Option String → String → Bool
  is_self none u = false
  is_self (some me) u = str_eq u me

  unfoldable pub by_member : ReactionAdd → Option String → Method Connection ReactionAddError Unit
  unfolding get_by_commportunities_message_id interesting
  by_member r none = throw inexplicably_missing_member
  by_member r (some u) = if is_self discord.current_user u then pure tt else (do
    found ← get_by_commportunities_message_id database_error r.message_id
    interesting r found)

  -- `_handle_reaction_add`
  unfoldable pub handle_reaction_add : ReactionAdd → Method Connection ReactionAddError Unit
  unfolding by_member
  handle_reaction_add r = by_member r r.member

-- `_handle_reaction_remove`: how many signups are removed
unfoldable pub handle_reaction_remove : ReactionRemove → Method Connection ReactionAddError ℕ
unfolding get_by_commportunities_message_id remove_commentator
handle_reaction_remove r = do
  found ← get_by_commportunities_message_id database_error r.message_id
  elim found [ none ↦ pure 0 | some info ↦ remove_commentator database_error info r.user_id ]
