-- ===== src/Examples/Races.antt =====
-- Races of a bracket: results, scheduling, signups, standings and times.
use nmg_league_bot.Base.{
  map, ℕ, ◌≡◌, refl, none, some, Bool, true, false, List, [], ◌∷◌, ok, err, All, arith, filter,
}
use nmg_league_bot.Race.{
  BracketRace, BracketRaceState, forfeit, finish_time, tie, p1_win, state_text, database_error,
}
use nmg_league_bot.Race.Sheet.{Sheet}
use nmg_league_bot.Race.Refinement.{Represents, Refines, add_results-Refines}
use nmg_league_bot.Tables.{first_where, BracketRaceInfo, Tables}
use nmg_league_bot.RaceInfo.{
  get_or_create_for_bracket, reschedule, RaceSession, schedule, new_commentator_signup,
}
use nmg_league_bot.RaceInfo.Scheduling.{
  Stored, Rescheduled, schedule_lem, schedule_loses_signups, of_info,
}
use nmg_league_bot.RaceInfo.Signups.{signups_of, new_commentator_signup_lem}
use mathlib.Core.List.{Perm}
use nmg_league_bot.Standings.{StandingsRace, rank_players, build, score, add_races}
use nmg_league_bot.Standings.Points.{IsCounted, rank_players-IsCounted}
use nmg_league_bot.Standings.Totals.{total_points, total_points-rank_players}
use nmg_league_bot.Standings.Order.{InOrder, rank_players-InOrder}
use nmg_league_bot.Times.{parse_hms, format_hms}
use nmg_league_bot.Times.RoundTrip.{parse_hms-format_hms}
use nmg_league_bot.Examples.Values.{race_json, race_json-RaceFaithful, league, connected}

-- a scheduled race in which player 1 has forfeited
abbrev half_done : BracketRace
half_done = record {
  id = 1;
  bracket_id = 1;
  round_id = 1;
  player_1_id = 1;
  player_2_id = 2;
  async_race_id = none;
  state = "|";
  player_1_result = some "";
  player_2_result = none;
  outcome = none;
}

abbrev half_sheet : Sheet
half_sheet = record {
  state = BracketRaceState.scheduled;
  result_1 = some forfeit;
  result_2 = none;
  outcome = none;
}

half_done-Represents : Represents race_json half_done half_sheet
half_done-Represents = record {
  state_is = refl;
  result_1_is = refl;
  result_2_is = refl;
  outcome_is = refl;
}

add_results-Refines_example :
    Refines race_json race_json-RaceFaithful half_done half_sheet none
      (some (finish_time 5000))
      false
add_results-Refines_example =
    add_results-Refines race_json race_json-RaceFaithful half_done half_sheet none
      (some (finish_time 5000)) false half_done-Represents

abbrev info_of_race : BracketRaceInfo
info_of_race = record {
  id = 7;
  bracket_race_id = 1;
  scheduled_for = some 1000;
  commportunities_message_id = some "m";
  restream_request_message_id = none;
  racetime_gg_url = some "u";
  tentative_commentary_assignment_message_id = none;
  commentary_assignment_message_id = none;
  restream_channel = none;
}

abbrev signed_up : Tables
signed_up = record league {
  races = half_done ∷ [];
  infos = info_of_race ∷ [];
  signups = record { id = 1; bracket_race_info_id = 7; discord_id = "a" } ∷ [];
}

abbrev race_session : List Bool → RaceSession
race_session refused = record {
  race = half_done;
  conn = record { tables = signed_up; refused = refused };
}

abbrev moved : BracketRaceInfo
moved = record info_of_race { scheduled_for = some 2000; racetime_gg_url = none }

scheduling_succeeds : (schedule race_json 2000 (race_session [])).0 ≡ ok (info_of_race, moved)
unfolding schedule reschedule get_or_create_for_bracket first_where
scheduling_succeeds = refl

schedule_lem_example :
    Rescheduled 2000 info_of_race moved
    × (filter (of_info moved) (schedule race_json 2000 (race_session [])).1.conn.tables.signups
        ≡ [])
    × ((schedule race_json 2000 (race_session [])).1.race.state
        ≡ state_text race_json BracketRaceState.scheduled)
    × Stored half_done
        (state_text race_json BracketRaceState.scheduled)
        moved
        (race_session []).conn.tables
        (schedule race_json 2000 (race_session [])).1.conn.tables
schedule_lem_example = schedule_lem race_json 2000 (race_session []) scheduling_succeeds

abbrev refused_begin : List Bool
refused_begin = false ∷ false ∷ false ∷ false ∷ true ∷ []

schedule_loses_signups_example :
    ((schedule race_json 2000 (race_session refused_begin)).0 ≡ err database_error)
    × ((schedule race_json 2000 (race_session refused_begin)).1.conn.tables.infos
        ≡ info_of_race ∷ [])
    × ((schedule race_json 2000 (race_session refused_begin)).1.conn.tables.races ≡ half_done ∷ [])
    × (filter
          (of_info info_of_race)
          (schedule race_json 2000 (race_session refused_begin)).1.conn.tables.signups
        ≡ [])
unfolding first_where
schedule_loses_signups_example =
    schedule_loses_signups race_json 2000 (race_session refused_begin)
      {now = BracketRaceState.scheduled} refl refl refl refl

new_commentator_signup_lem_example :
    (signups_of info_of_race "b"
        (new_commentator_signup database_error info_of_race "b"
          (connected signed_up)).1.tables.signups
      ≡ 1)
    × (signups_of info_of_race "b" signed_up.signups ≡ 0)
new_commentator_signup_lem_example =
    new_commentator_signup_lem database_error info_of_race "b" (connected signed_up) {fresh = true}
      (unfold signups_of in omega arith) (unfold new_commentator_signup in refl)

abbrev played : List StandingsRace
played =
    record {
      player_1_id = 1;
      player_2_id = 2;
      player_1_result = finish_time 5000;
      player_2_result = forfeit;
      outcome = p1_win;
    }
    ∷ record {
      player_1_id = 3;
      player_2_id = 2;
      player_1_result = finish_time 5500;
      player_2_result = finish_time 5500;
      outcome = tie;
    }
    ∷ []

standings_points : map {B = ℕ} (λ p. p.points) (rank_players played) ≡ 2 ∷ 1 ∷ 1 ∷ []
unfolding rank_players
standings_points = refl

rank_players-IsCounted_example : All (IsCounted played) (rank_players played)
rank_players-IsCounted_example = rank_players-IsCounted played

total_points-rank_players_example : total_points (rank_players played) ≡ 4
total_points-rank_players_example = total_points-rank_players played

rank_players-InOrder_example :
    InOrder (rank_players played)
    × Perm (rank_players played) (map (build (score (add_races played []))) (add_races played []))
rank_players-InOrder_example = rank_players-InOrder played

parse_hms-format_hms_example : parse_hms (format_hms 5025) ≡ some 5025
parse_hms-format_hms_example = parse_hms-format_hms 5025 (omega arith) (omega arith)
