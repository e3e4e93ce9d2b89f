-- ===== src/Examples/Seasons.antt =====
-- A season goes through its states, and lookups of seasons.
use nmg_league_bot.Base.{filter, true, ℕ, ◌≡◌, refl, none, some, List, [], ◌∷◌, ok, err, All, arith}
use nmg_league_bot.Tables.{next_id, BracketRaceInfo, Connection, Season}
use nmg_league_bot.Bracket.{BracketType}
use nmg_league_bot.Bracket.Finishing.{is_finished}
use nmg_league_bot.Season.{
  SeasonState, SeasonSession, finish, set_state, season_brackets, create_season,
  get_from_bracket_race_info, not_found,
}
use nmg_league_bot.Season.Steps.{
  IsConsistent, finish_needs_brackets, requests, Passes, requests-Passes,
}
use nmg_league_bot.Season.Lookup.{get_from_bracket_race_info-misses}
use nmg_league_bot.Examples.Values.{
  season_json, season_json-IsFaithful, crates, season_in, league, connected, bracket_of,
}

abbrev in_state : SeasonState → SeasonSession
in_state st = record { season = season_in st; conn = connected league }

in_state-IsConsistent : IsConsistent season_json SeasonState.created (in_state SeasonState.created)
in_state-IsConsistent = record { in_state = refl; stamped = tt }

-- the second request skips a state, and is refused
abbrev asked : List (ℕ × SeasonState)
asked =
    (200, SeasonState.qualifiers_open)
    ∷ (201, SeasonState.started)
    ∷ (202, SeasonState.qualifiers_closed)
    ∷ []

asked_ends :
    (requests season_json crates asked (in_state SeasonState.created)).season
    ≡ season_in SeasonState.qualifiers_closed
unfolding requests set_state
asked_ends = refl

requests-Passes_example :
    (last : SeasonState) × IsConsistent season_json last
      (requests season_json crates asked (in_state SeasonState.created))
    × Passes SeasonState.created asked last
requests-Passes_example =
    requests-Passes season_json crates season_json-IsFaithful asked SeasonState.created
      (in_state SeasonState.created) in_state-IsConsistent

-- a season whose only bracket is finished
abbrev played_out : SeasonSession
played_out = record {
  season = season_in SeasonState.started;
  conn = connected (record league {
    brackets = record (bracket_of 1 "R" BracketType.round_robin) { state = "||" } ∷ [];
  });
}

played_out_finishes : (set_state season_json crates 300 SeasonState.finished played_out).0 ≡ ok tt
unfolding set_state finish filter is_finished
played_out_finishes = refl

finish_needs_brackets_example :
    All
      (λ b. is_finished season_json.bracket_json crates b ≡ ok true)
      (season_brackets played_out.season played_out.conn.tables)
finish_needs_brackets_example =
    finish_needs_brackets season_json crates 300 season_json-IsFaithful played_out refl
      played_out_finishes

abbrev second_season : Season
second_season = record (season_in SeasonState.created) { id = 2; started = 400; ordinal = 2 }

second_created :
    (create_season season_json crates 400 "open" "alttp" "nmg" (connected league)).0
    ≡ ok second_season
unfolding create_season next_id
second_created = refl

abbrev info_of_race : BracketRaceInfo
info_of_race = record {
  id = 7;
  bracket_race_id = 1;
  scheduled_for = some 1000;
  commportunities_message_id = none;
  restream_request_message_id = none;
  racetime_gg_url = none;
  tentative_commentary_assignment_message_id = none;
  commentary_assignment_message_id = none;
  restream_channel = none;
}

abbrev with_info : Connection
with_info = connected (record league { infos = info_of_race ∷ [] })

get_from_bracket_race_info-misses_example :
    (get_from_bracket_race_info info_of_race with_info).0 ≡ err not_found
get_from_bracket_race_info-misses_example =
    get_from_bracket_race_info-misses info_of_race with_info refl ((λ e. omega arith), tt)
