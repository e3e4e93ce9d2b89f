-- ===== src/Examples/Reactions.antt =====
-- Reactions to a call for commentators.
use nmg_league_bot.Base.{true, some, none, [], ◌∷◌}
use nmg_league_bot.Tables.{BracketRaceInfo, Tables}
use nmg_league_bot.Reactions.{custom, Discord, ReactionAdd, handle_reaction_add}
use nmg_league_bot.Reactions.Effects.{Reacted}
use nmg_league_bot.Reactions.Reacting.{handle_reaction_add-Reacted}
use nmg_league_bot.Examples.Values.{league, connected}

abbrev call : BracketRaceInfo
call = record {
  id = 1;
  bracket_race_id = 1;
  scheduled_for = some 1000;
  commportunities_message_id = some "m";
  restream_request_message_id = none;
  racetime_gg_url = none;
  tentative_commentary_assignment_message_id = none;
  commentary_assignment_message_id = none;
  restream_channel = none;
}

abbrev called : Tables
called = record league { infos = call ∷ [] }

abbrev discord : Discord
discord = record {
  current_user = some "bot";
  has_admin_role = λ u g. some true;
  best_name_for = λ u. u;
  tentative_posted = some "t";
  request_posted = some "q";
  assignment_posted = none;
  signup_posted = true;
  commportunities_deleted = true;
  tentative_deleted = true;
}

abbrev linkbot : ReactionAdd
linkbot = record {
  message_id = "m";
  user_id = "a";
  guild_id = some "g";
  member = some "a";
  emoji = custom (some "Linkbot");
}

handle_reaction_add-Reacted_example :
    Reacted discord linkbot called (handle_reaction_add discord linkbot (connected called)).1.tables
handle_reaction_add-Reacted_example = handle_reaction_add-Reacted discord linkbot (connected called)
