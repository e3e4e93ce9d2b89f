-- ===== src/Reactions/Reads.antt =====
-- The queries of the reactions change no table.
use nmg_league_bot.Base.{refl, Bool, true, false, ok_or, ◌==◌}
use nmg_league_bot.Base.Methods.{pure, throw}
use nmg_league_bot.Base.Triples.{Keeps, bind-Keeps, lift-Keeps, if-Keeps}
use nmg_league_bot.Race.{BracketRace}
use nmg_league_bot.Tables.{BracketRaceInfo, Connection, Tables, first_where, select}
use nmg_league_bot.Tables.Steps.{select-tables}
use nmg_league_bot.RaceInfo.{commentator_signups}
use nmg_league_bot.RaceInfo.Queries.{
  players_of_race, race, players, players_of_race, bracket, title, get_by_id,
}
use nmg_league_bot.Reactions.{
  ReactionAddError, database_error, not_found, http_error, Discord, race_to_nice_embeds,
  comm_ids_and_names, create_commentator_signup_post, post_if_fresh,
}

abbrev pub of_conn : Connection → Tables
of_conn c = c.tables

-- the queries
pub race-Keeps :
    (info : BracketRaceInfo)
    → Keeps of_conn (race {E = ReactionAddError} database_error not_found info)
unfolding race get_by_id
race-Keeps info =
    bind-Keeps of_conn
      (select database_error (λ t. first_where (λ r. r.id == info.bracket_race_id) t.races)) _
      (select-tables database_error _) λ o. lift-Keeps of_conn (ok_or o not_found)

pub players-Keeps :
    (r : BracketRace) → Keeps of_conn (players {E = ReactionAddError} database_error not_found r)
unfolding players
players-Keeps r =
    bind-Keeps of_conn (select database_error (players_of_race r)) _
      (select-tables database_error _) λ o. lift-Keeps of_conn (ok_or o not_found)

pub title-Keeps :
    (r : BracketRace) → Keeps of_conn (title {E = ReactionAddError} database_error not_found r)
unfolding title
title-Keeps r =
    bind-Keeps of_conn (players database_error not_found r) _ (players-Keeps r) λ ps s. refl

pub bracket-Keeps :
    (r : BracketRace) → Keeps of_conn (bracket {E = ReactionAddError} database_error not_found r)
unfolding bracket
bracket-Keeps r =
    bind-Keeps of_conn
      (select database_error (λ t. first_where (λ b. b.id == r.bracket_id) t.brackets)) _
      (select-tables database_error _) λ o. lift-Keeps of_conn (ok_or o not_found)

pub embeds-Keeps : (info : BracketRaceInfo) → Keeps of_conn (race_to_nice_embeds info)
unfolding race_to_nice_embeds
embeds-Keeps info = bind-Keeps of_conn (race database_error not_found info) _ (race-Keeps info) λ r.
    bind-Keeps of_conn (bracket database_error not_found r) _ (bracket-Keeps r)
      λ b. bind-Keeps of_conn (title database_error not_found r) _ (title-Keeps r) λ t s. refl

module _ (discord : Discord) where
  pub comms-Keeps : (info : BracketRaceInfo) → Keeps of_conn (comm_ids_and_names discord info)
  unfolding comm_ids_and_names commentator_signups
  comms-Keeps info =
      bind-Keeps of_conn (commentator_signups database_error info) _
        (select-tables database_error _) λ cs s. refl

  pub post-Keeps :
      (info : BracketRaceInfo) → Keeps of_conn (create_commentator_signup_post discord info)
  unfolding create_commentator_signup_post
  post-Keeps info = bind-Keeps of_conn (race database_error not_found info) _ (race-Keeps info) λ r.
      bind-Keeps of_conn (title database_error not_found r) _ (title-Keeps r) λ t.
        if-Keeps of_conn discord.signup_posted (pure tt) (throw http_error) (λ s. refl) λ s. refl

  pub fresh-Keeps :
      (info : BracketRaceInfo) (fresh : Bool) → Keeps of_conn (post_if_fresh discord info fresh)
  unfolding commentator_signups post_if_fresh
  fresh-Keeps info false = λ s. refl
  fresh-Keeps info true =
      bind-Keeps of_conn (commentator_signups database_error info) _
        (select-tables database_error _) λ cs. post-Keeps info
