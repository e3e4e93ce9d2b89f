-- ===== src/Examples/Guilds.antt =====
-- A guild that deletes one of its criteria.
use nmg_league_bot.Base.{
  ℕ, ◌≡◌, refl, String, Option, none, some, false, List, [], ◌∷◌, filter, ◌==◌, if◌then◌else◌,
}
use nmg_league_bot.Tables.{GuildRaceCriteria, Tables}
use nmg_league_bot.Commands.Dispatch.{application_command}
use nmg_league_bot.Commands.Options.{CommandDataOption, OptionValues, string, sub_command}
use nmg_league_bot.Commands.Requests.{CommandSession}
use nmg_league_bot.Guilds.{of_guild, handle_criteria_commands}
use nmg_league_bot.Guilds.Own.{handle_criteria_commands-others}
use nmg_league_bot.Examples.Values.{league, connected}

-- an option is a text, or the subcommand `remove` for an id
data Value : Type 0 where
  a_text removal : String → Value

abbrev text_in : Value → Option String
text_in (a_text t) = some t
text_in (removal t) = none

abbrev options_in : Value → Option (List (CommandDataOption Value))
options_in (a_text t) = none
options_in (removal t) = some (record { name = "criteria"; value = a_text t } ∷ [])

abbrev values : OptionValues Value
values = record {
  kind = λ v. elim v [ a_text _ ↦ string | removal _ ↦ sub_command ];
  as_string = text_in;
  as_integer = λ _. none;
  as_user = λ _. none;
  as_sub_command = options_in;
  as_focused = λ _. none;
}

abbrev criterion : ℕ → String → GuildRaceCriteria
criterion i g = record { id = i; guild_id = g; player_id = none; restream_status = none }

abbrev guilds : Tables
guilds = record league { criteria = criterion 1 "g" ∷ criterion 2 "h" ∷ [] }

abbrev session : CommandSession Value
session = record {
  options = record { name = "remove"; value = removal "1" } ∷ [];
  conn = connected guilds;
}

abbrev owner : ℕ → String
owner i = if i == 1 then "g" else "h"

handle_criteria_commands-others_example :
    filter
      (of_guild "h")
      (handle_criteria_commands values
        (λ a b. false)
        "m"
        (some "g")
        application_command
        session).1.conn.tables.criteria
    ≡ filter (of_guild "h") guilds.criteria
handle_criteria_commands-others_example =
    handle_criteria_commands-others owner values (λ a b. false) "m" "g" "h" application_command
      session refl (refl, (refl, tt))
