-- ===== src/Examples/Rooms.antt =====
-- A room of racetime.gg, sessions of the web site, and criteria of a guild.
use nmg_league_bot.Base.{ℕ, ◌*◌, ◌^◌, ◌≡◌, refl, String, none, some, false, List, [], ◌∷◌, err}
use nmg_league_bot.Base.Maps.{get, insert, remove}
use nmg_league_bot.Base.Texts.{to_lowercase}
use nmg_league_bot.Race.{BracketRace}
use nmg_league_bot.Tables.{Player, BracketRaceInfo, GuildRaceCriteria, Season}
use nmg_league_bot.Scanner.{
  Candidate, Crates, Entrant, RacetimeRace, interesting_race, races_by_player_rtgg,
}
use nmg_league_bot.Scanner.Matching.{Reads, interesting_race_lem}
use nmg_league_bot.Scanner.Storing.{Stored, maybe_do_race_stuff, maybe_do_race_stuff_lem}
use nmg_league_bot.Sessions.{Event, get_user, after_all, get_user_lem, token_expired, session_of}
use nmg_league_bot.Criteria.{
  matches, new_criteria, has_restream, race_is_interesting, criteria_of, race_criteria_by_guild_id,
  race_criteria_by_guild_id_lem,
}
use nmg_league_bot.Season.{SeasonState}
use nmg_league_bot.Examples.Values.{race_json, player, season_in, league, connected}

abbrev racer : ℕ → String → Player
racer i name = record (player i name) { racetime_username = some name }

abbrev race_of : ℕ → ℕ → String → BracketRace
race_of p1 p2 state = record {
  id = p1;
  bracket_id = 1;
  round_id = 1;
  player_1_id = p1;
  player_2_id = p2;
  async_race_id = none;
  state = state;
  player_1_result = none;
  player_2_result = none;
  outcome = none;
}

abbrev info_of : ℕ → BracketRaceInfo
info_of i = record {
  id = i;
  bracket_race_id = i;
  scheduled_for = some 6000;
  commportunities_message_id = none;
  restream_request_message_id = none;
  racetime_gg_url = none;
  tentative_commentary_assignment_message_id = none;
  commentary_assignment_message_id = none;
  restream_channel = none;
}

abbrev two_candidates : String → List (String × Candidate)
two_candidates state =
    races_by_player_rtgg (racer 1 "Ann#1" ∷ racer 2 "Bob#2" ∷ racer 3 "Cat#3" ∷ [])
      ((info_of 1, race_of 1 2 state) ∷ (info_of 3, race_of 3 1 state) ∷ [])

abbrev rooms : Crates
rooms = record {
  parse_duration = λ text. some (some 5000);
  parse_date = λ text. some (6000 * 10 ^ 9);
  order = λ keys. keys;
}

abbrev entrant : String → Entrant
entrant name = record { full_name = name; status = "done"; finish_time = some "P0DT01H23M20S" }

abbrev room : String → String → RacetimeRace
room first second = record {
  status = "finished";
  url = "/room";
  entrants = entrant first ∷ entrant second ∷ [];
  started_at = "2022-10-23T18:45:05.135Z";
  goal_name = "nmg";
}

abbrev season : Season
season = season_in SeasonState.started

abbrev first_candidate : String → Candidate
first_candidate state = record {
  info = info_of 1;
  race = race_of 1 2 state;
  player_1 = racer 1 "Ann#1";
  player_2 = racer 2 "Bob#2";
}

found_room :
    (state : String)
    → interesting_race rooms (two_candidates state) season (room "ann#1" "bob#2")
      ≡ some (first_candidate state, entrant "ann#1", entrant "bob#2")
unfolding interesting_race races_by_player_rtgg get insert remove to_lowercase
found_room state = refl

-- Cat and Ann have a race, and both are in the room; the look at the race of Ann and Bob takes Ann out.
missed_room : interesting_race rooms (two_candidates "") season (room "cat#3" "ann#1") ≡ none
unfolding interesting_race races_by_player_rtgg get insert remove to_lowercase
missed_room = refl

interesting_race_lem_example :
    Reads rooms
      (two_candidates "")
      season
      (room "ann#1" "bob#2")
      (first_candidate "", entrant "ann#1", entrant "bob#2")
interesting_race_lem_example =
    interesting_race_lem rooms (two_candidates "") season (room "ann#1" "bob#2") (found_room "")

maybe_do_race_stuff_lem_example :
    Stored rooms race_json
      (connected league)
      (maybe_do_race_stuff rooms race_json
        (λ url. url)
        (two_candidates "")
        season
        (room "ann#1" "bob#2")
        (connected league)).1
      (interesting_race rooms (two_candidates "") season (room "ann#1" "bob#2"))
maybe_do_race_stuff_lem_example =
    maybe_do_race_stuff_lem rooms race_json (λ url. url) (two_candidates "") season
      (room "ann#1" "bob#2") (connected league)

abbrev log : List (Event ℕ)
log = Event.logs_in "s" 7 100 ∷ Event.logs_out "t" ∷ []

get_user_lem_example : get_user 101 "s" (after_all log []) ≡ err token_expired
unfolding session_of
get_user_lem_example = get_user_lem 101 "s" log

abbrev rows : List GuildRaceCriteria
rows =
    new_criteria 1 "g" (some (player 1 "a")) has_restream
    ∷ new_criteria 2 "h" none has_restream
    ∷ []

race_criteria_by_guild_id_lem_example :
    race_is_interesting
      (race_of 1 2 "")
      (info_of 1)
      (criteria_of "h" (race_criteria_by_guild_id ("g" ∷ "h" ∷ []) rows))
    ≡ false
unfolding new_criteria matches
race_criteria_by_guild_id_lem_example =
    race_criteria_by_guild_id_lem "h" (race_of 1 2 "") (info_of 1) ("g" ∷ "h" ∷ []) rows refl
