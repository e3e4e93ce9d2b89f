-- ===== src/Examples/Brackets.antt =====
-- The first round of small brackets, and the next round of a swiss bracket.
use nmg_league_bot.Base.{
  some, none, false, filter, ℕ, ◌≤◌, ◌≡◌, refl, List, [], ◌∷◌, length, ok, err, true, arith,
}
use nmg_league_bot.Tables.{first_where, Player}
use nmg_league_bot.Pairing.RoundRobin.{pairings, Pair}
use nmg_league_bot.Pairing.RoundRobin.Complete.{entered, Distinct}
use nmg_league_bot.Pairing.Swiss.{assign, by_id, remove}
use nmg_league_bot.Pairing.Swiss.Matching.{count_id, appearances, next_round_matching}
use nmg_league_bot.Bracket.{rounds, BracketType, Session, db_error, entered_players}
use nmg_league_bot.Bracket.Generation.{generate_pairings}
use nmg_league_bot.Bracket.Finishing.{finish}
use nmg_league_bot.Bracket.Finished.{Finished, finish-Finished}
use nmg_league_bot.Race.{BracketRace}
use nmg_league_bot.Bracket.Rows.{rows_between, places}
use nmg_league_bot.Bracket.Effects.{IsReady, AreNew, first_round, generate_pairings-atomic}
use nmg_league_bot.Bracket.Rounds.{Shuffles, round_robin_generates, swiss_generates}
use nmg_league_bot.Examples.Values.{
  race_json-RaceFaithful, bracket_json-IsFaithful, bracket_json, crates, bracket_of, league,
  connected, player,
}

abbrev session : ℕ → BracketType → Session
session i kind = record { bracket = bracket_of i "R" kind; conn = connected league }

abbrev round_robin_session : Session
round_robin_session = session 1 BracketType.round_robin

abbrev swiss_session : Session
swiss_session = session 2 BracketType.swiss

abbrev odd_session : Session
odd_session = session 3 BracketType.swiss

ready : (i : ℕ) (kind : BracketType) → IsReady bracket_json crates (session i kind) kind "|"
unfolding filter
ready i BracketType.swiss = record {
  unrefused = refl;
  is_unstarted = refl;
  is_kind = refl;
  no_round = refl;
  started_text = refl;
}
ready i BracketType.round_robin = record {
  unrefused = refl;
  is_unstarted = refl;
  is_kind = refl;
  no_round = refl;
  started_text = refl;
}

all-Distinct : Distinct (entered_players round_robin_session.bracket league)
unfolding entered_players filter first_where
all-Distinct = ground arith

unshuffled : Shuffles crates
unshuffled = record { same_ids = λ i ps. refl; same_length = λ ps. refl }

round_robin_generates_example :
    (new : List BracketRace) × (generate_pairings bracket_json crates round_robin_session
      ≡ (ok tt, first_round bracket_json crates round_robin_session "|" new))
    × AreNew bracket_json crates round_robin_session new
    × (length new ≡ 3)
    × (rows_between 1 3 new ≡ 1)
unfolding entered entered_players filter first_where
round_robin_generates_example =
    round_robin_generates bracket_json crates round_robin_session "|" 1 3
      (ready 1 BracketType.round_robin) all-Distinct (omega arith)

swiss_generates_example :
    (new : List BracketRace) × (generate_pairings bracket_json crates swiss_session
      ≡ (ok tt, first_round bracket_json crates swiss_session "|" new))
    × AreNew bracket_json crates swiss_session new
    × (length new ≡ 1)
    × ((i : ℕ) → places i new ≡ count_id i (entered_players swiss_session.bracket league))
unfolding entered_players filter first_where
swiss_generates_example =
    swiss_generates bracket_json crates swiss_session "|" 1 unshuffled (ready 2 BracketType.swiss)
      refl

-- the database refuses the sixth statement
abbrev refusing : Session
refusing = record round_robin_session {
  conn = record { tables = league; refused = false ∷ false ∷ false ∷ false ∷ false ∷ true ∷ [] };
}

refused_round : (generate_pairings bracket_json crates refusing).0 ≡ err db_error
unfolding generate_pairings filter first_where pairings
refused_round = refl

generate_pairings-atomic_example :
    (generate_pairings bracket_json crates refusing).1.conn.tables ≡ league
generate_pairings-atomic_example =
    generate_pairings-atomic bracket_json crates refusing refused_round

abbrev two_races : List Pair
two_races = (player 1 "a", player 4 "d") ∷ (player 3 "c", player 2 "b") ∷ []

abbrev four : List Player
four = player 1 "a" ∷ player 2 "b" ∷ player 3 "c" ∷ player 4 "d" ∷ []

four_assigned : assign db_error ((1, 4) ∷ (3, 2) ∷ []) (by_id four) ≡ ok two_races
unfolding assign by_id remove
four_assigned = refl

next_round_matching_example : (appearances 3 two_races ≤ 1) × (length two_races ≡ 2)
next_round_matching_example =
    next_round_matching db_error ((1, 4) ∷ (3, 2) ∷ []) four four_assigned 3

-- a race that is over, in the only round of the round robin
abbrev over : BracketRace
over = record {
  id = 1;
  bracket_id = 1;
  round_id = 5;
  player_1_id = 1;
  player_2_id = 2;
  async_race_id = none;
  state = "||";
  player_1_result = some "";
  player_2_result = some "";
  outcome = some "";
}

abbrev played : Session
played = record round_robin_session {
  conn = connected (record league {
    rounds = record { id = 5; round_num = 1; bracket_id = 1 } ∷ [];
    races = over ∷ [];
  });
}

played_finishes : (finish bracket_json crates played).0 ≡ ok true
unfolding finish rounds filter
played_finishes = refl

finish-Finished_example :
    Finished bracket_json crates race_json-RaceFaithful.state_ok played
      (finish bracket_json crates played)
finish-Finished_example =
    finish-Finished bracket_json crates race_json-RaceFaithful.state_ok bracket_json-IsFaithful
      played
