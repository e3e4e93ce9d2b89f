-- ===== src/Guilds.antt =====
-- The commands of other guilds for their criteria, of src/discord/helper_bot/bot.rs, with the queries of
-- src/models/guild_race_criteria.rs that they make.
pub mod Owners
pub mod Own
use Prim.Native.String.{◌++◌ as join}
use nmg_league_bot.Base.{
  ℕ, zero, suc, ◌^◌, String, Option, none, some, Bool, true, not, ◌&&◌, List, [], ◌∷◌, ◌++◌, map,
  filter, Result, ok, err, ltb, leb, ◌==◌, str_eq, if◌then◌else◌,
}
use nmg_league_bot.Base.Methods.{pure, throw, map_err, ◌>>=◌, ◌>>◌}
use nmg_league_bot.Times.{Text, is_digit, value_from}
use nmg_league_bot.Tables.{Player, GuildRaceCriteria, select, write, insert, first_where, next_id}
use nmg_league_bot.Players
use nmg_league_bot.Criteria.{
  RestreamStatusCriterion, has_restream, has_no_restream, any_status, new_criteria,
}
use nmg_league_bot.Commands.Options.{
  CommandDataOption, OptionValues, OptionError, missing_option, get_opt, get_focused_opt,
  get_subcommand_options, string,
}
use nmg_league_bot.Commands.Requests.{
  Command, db, on_options, get_string, get_integer, invalid_option, database_error, unknown_command,
}
use nmg_league_bot.Commands.Reports.{text_of}
use nmg_league_bot.Commands.Dispatch.{
  InteractionType, application_command, application_command_autocomplete, other,
}

-- `parse::<i32>`, as far as a row can have the id
pub data ParsedId : Type 0 where
  not_a_number negative : ParsedId
  an_id : ℕ → ParsedId

all_digits : Text → Bool
all_digits [] = true
all_digits (c ∷ cs) = is_digit c && all_digits cs

abbrev below : ℕ → ℕ → ParsedId
below limit n = if ltb n limit then an_id n else not_a_number

abbrev negated : ℕ → ParsedId
negated n = if n == 0 then an_id 0 else if leb n (2 ^ 31) then negative else not_a_number

abbrev digits_or : (ℕ → ParsedId) → Text → ParsedId
unfolding all_digits value_from
digits_or f [] = not_a_number
digits_or f (c ∷ cs) = if all_digits (c ∷ cs) then f (value_from 0 (c ∷ cs)) else not_a_number

unfoldable pub parse_i32 : Text → ParsedId
unfolding all_digits value_from
parse_i32 [] = not_a_number
parse_i32 (c ∷ cs) =
    if c == b'-'
    then digits_or negated cs
    else if c == b'+'
    then digits_or (below (2 ^ 31)) cs
    else digits_or (below (2 ^ 31)) (c ∷ cs)

pub data CriteriaReply : Type 0 where
  only_in_servers main_guild bad_autocomplete no_player internal_error : CriteriaReply
  invalid_restream deleted no_criteria added unrecognized : CriteriaReply
  offered : List (String × ℕ) → CriteriaReply
  criteria : List (GuildRaceCriteria × Option Player) → CriteriaReply

abbrev pub of_guild : String → GuildRaceCriteria → Bool
of_guild g x = str_eq x.guild_id g

abbrev surrounded : String → String
surrounded t = join "%" (join t "%")

-- `limit`
unfoldable pub limit : {A : Type 0} → ℕ → List A → List A
limit zero xs = []
limit (suc n) [] = []
limit (suc n) (x ∷ xs) = x ∷ limit n xs

-- `like` is SQL's LIKE, of a text and a pattern
module _ {V : Type 0} (views : OptionValues V) (like : String → String → Bool) where
  -- the player that `display` names, for each criterion of the guild; the ids that are NULL name none
  abbrev player_in : List Player → Option ℕ → Option Player
  unfolding first_where
  player_in ps none = none
  player_in ps (some i) = first_where (λ p. p.id == i) ps

  unfoldable pub grfs_with_display : String → Command V (List (GuildRaceCriteria × Option Player))
  unfolding select first_where
  grfs_with_display g = do
    grfs ← db (select database_error (λ t. filter (of_guild g) t.criteria))
    players ← db (select database_error (λ t. t.players))
    pure (map (λ x. (x, player_in players x.player_id)) grfs)

  unfoldable pub delete_found : Option GuildRaceCriteria → Command V CriteriaReply
  unfolding write
  delete_found none = pure no_criteria
  delete_found (some x) = do
    db (
        write database_error
          (λ t. record t { criteria = filter (λ y. not (y.id == x.id)) t.criteria }))
    pure deleted

  unfoldable pub find_criterion : String → ParsedId → Command V (Option GuildRaceCriteria)
  unfolding select first_where
  find_criterion g (an_id i) =
      db (select database_error (λ t. first_where (λ x. x.id == i && of_guild g x) t.criteria))
  find_criterion g _ = db (select database_error (λ t. none))

  unfoldable pub remove_parsed : String → ParsedId → Command V CriteriaReply
  unfolding find_criterion delete_found
  remove_parsed g not_a_number = pure bad_autocomplete
  remove_parsed g i = do found ← find_criterion g i; delete_found found

  unfoldable pub handle_remove_criteria : String → Command V CriteriaReply
  unfolding get_string remove_parsed parse_i32 text_of
  handle_remove_criteria g = do
    text ← get_string views "criteria"
    remove_parsed g (parse_i32 (text_of text))

  abbrev restream_of : ℕ → Option RestreamStatusCriterion
  restream_of n =
      if n == 1
      then some has_restream
      else if n == 2
      then some has_no_restream
      else if n == 3
      then some any_status
      else none

  unfoldable pub save_criteria :
      String → Option Player → Option RestreamStatusCriterion → Command V CriteriaReply
  unfolding insert new_criteria
  save_criteria g p none = pure invalid_restream
  save_criteria g p (some status) = do
    db (
        insert database_error (λ t. new_criteria (next_id (λ x. x.id) t.criteria) g p status)
          (λ x t. record t { criteria = t.criteria ++ x ∷ [] }))
    pure added

  -- the player, if the command can go on
  pub data Named : Type 0 where
    go_on : Option Player → Named
    stop : CriteriaReply → Named

  unfoldable pub named_player : ParsedId → Command V Named
  unfolding Players.get_by_id
  named_player not_a_number = pure (stop bad_autocomplete)
  named_player negative = do db (select database_error (λ t. tt)); pure (stop no_player)
  named_player (an_id i) = do
    found ← db (Players.get_by_id database_error i)
    pure (elim found [ none ↦ stop no_player | some p ↦ go_on (some p) ])

  unfoldable pub player_option : Result OptionError String → Command V Named
  unfolding parse_i32 text_of named_player
  player_option (ok text) = named_player (parse_i32 (text_of text))
  player_option (err (missing_option n)) = pure (go_on none)
  player_option (err e) = pure (stop internal_error)

  unfoldable pub add_for : String → Named → Command V CriteriaReply
  unfolding get_integer save_criteria
  add_for g (stop reply) = pure reply
  add_for g (go_on p) = do
    restream ← get_integer views "restream"
    save_criteria g p (restream_of restream)

  unfoldable pub try_player : Command V (Result OptionError String)
  unfolding get_opt
  try_player s =
      let (r, opts) = get_opt views views.as_string "player" string s.options in
      (ok r, record s { options = opts })

  unfoldable pub handle_add_criteria : String → Command V CriteriaReply
  unfolding try_player player_option add_for
  handle_add_criteria g = do text ← try_player; named ← player_option text; add_for g named

  unfoldable pub handle_show_criteria : String → Command V CriteriaReply
  unfolding grfs_with_display
  handle_show_criteria g = do grfs ← grfs_with_display g; pure (criteria grfs)

  unfoldable pub handle_remove_criteria_autocomplete : String → Command V CriteriaReply
  unfolding grfs_with_display get_focused_opt
  handle_remove_criteria_autocomplete g = do
    on_options (map_err (λ e. invalid_option "criteria") (get_focused_opt views "criteria"))
    grfs ← grfs_with_display g
    pure (criteria grfs)

  unfoldable pub handle_add_criteria_autocomplete : Command V CriteriaReply
  unfolding get_focused_opt select limit
  handle_add_criteria_autocomplete = do
    partial_name ←
        on_options (map_err (λ e. invalid_option "player") (get_focused_opt views "player"))
    ps ← db (
        select database_error (λ t. limit 25 (
          if str_eq partial_name ""
          then t.players
          else filter (λ p. like p.name (surrounded partial_name)) t.players)))
    pure (offered (map (λ p. (p.name, p.id)) ps))

  -- `handle_criteria_commands`, for the guild of the interaction, once the main guild is told apart
  unfoldable pub criteria_command : String → InteractionType → String → Command V CriteriaReply
  unfolding handle_add_criteria handle_remove_criteria handle_show_criteria
      handle_add_criteria_autocomplete handle_remove_criteria_autocomplete
  criteria_command g application_command name =
      if str_eq name "add"
      then handle_add_criteria g
      else if str_eq name "remove"
      then handle_remove_criteria g
      else if str_eq name "show"
      then handle_show_criteria g
      else pure unrecognized
  criteria_command g application_command_autocomplete name =
      if str_eq name "add"
      then handle_add_criteria_autocomplete
      else if str_eq name "remove"
      then handle_remove_criteria_autocomplete g
      else pure (offered [])
  criteria_command g other name = throw unknown_command

  unfoldable pub with_subcommand :
      String
      → InteractionType
      → Result OptionError (String × List (CommandDataOption V))
      → Command V CriteriaReply
  unfolding criteria_command
  with_subcommand g kind (err e) s = (err (invalid_option "subcommand"), s)
  with_subcommand g kind (ok (name, opts)) s =
      criteria_command g kind name (record s { options = opts })

  abbrev pub main_reply : InteractionType → CriteriaReply
  main_reply application_command_autocomplete = offered []
  main_reply _ = main_guild

  -- `main` is the guild of the league
  unfoldable pub handle_criteria_commands :
      String → Option String → InteractionType → Command V CriteriaReply
  unfolding get_subcommand_options with_subcommand
  handle_criteria_commands main none kind s = (ok only_in_servers, s)
  handle_criteria_commands main (some g) kind s =
      if str_eq main g
      then (ok (main_reply kind), s)
      else with_subcommand g kind (get_subcommand_options views s.options) s
