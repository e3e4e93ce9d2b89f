-- ===== src/Bracket/Generation.antt =====
-- Generation of the rounds of a bracket: `generate_pairings` of src/models/brackets.rs and what it
-- calls.
use mathlib.Core.List.{reverse}
use nmg_league_bot.Base.{
  ℕ, ◌+◌, Option, none, some, List, [], ◌∷◌, Result, ok, err, ok_or, Method, ltb, if◌then◌else◌,
}
use nmg_league_bot.Base.Methods.{pure, throw, lift, modify, gets, ◌>>=◌, ◌>>◌}
use nmg_league_bot.Race.{BracketRace, MatchResult, try_into_match_result}
use nmg_league_bot.Tables.{
  update_bracket, Player, Bracket, BracketRound, Connection, write, transaction_on,
}
use nmg_league_bot.Pairing.RoundRobin.{Pair, pairings}
use nmg_league_bot.Pairing.Swiss.{pair_up, by_id, assign}
use nmg_league_bot.Bracket.{
  BracketState, unstarted, started, finished, BracketType, swiss, round_robin, BracketError,
  invalid_state, odd_player_count, db_error, other, match_result_error, pairing_error,
  round_robin_error, panicked, BracketJson, PairingCrates, Session, set_conn, db, players, rounds,
  current_round, races, save_round, state, bracket_type, insert_bulk,
}

module _ (json : BracketJson) (crates : PairingCrates) where
  open json use {race_json, state_json, type_json}
  open crates use {shuffle, swiss_pairings}

  -- `set_state(…).map_err(|e| e.to_string())?`, then `update`: a column that is `None` is left alone
  unfoldable pub start_bracket : Method Session BracketError Unit
  unfolding write
  start_bracket = do
    text ← lift (ok_or (state_json.to_string started) other)
    modify (λ s. record s { bracket = record s.bracket { state = text } })
    λ s. db (write db_error (λ t. record t { brackets = update_bracket s.bracket t.brackets })) s

  abbrev insert_if_even :
      Bracket → BracketRound → List Pair × List Player → Method Session BracketError Unit
  insert_if_even b round (pairs, []) = db (insert_bulk json crates b round pairs)
  insert_if_even b round (pairs, p ∷ left) = throw odd_player_count

  -- `pop` takes from the end of the shuffled players
  unfoldable pub generate_initial_pairings_swiss : Method Session BracketError Unit
  unfolding save_round players insert_bulk start_bracket
  generate_initial_pairings_swiss = do
    b ← gets (λ s. s.bracket)
    round ← db (save_round b 1)
    ps ← db (players b)
    insert_if_even b round (pair_up (reverse (shuffle ps)))
    start_bracket

  -- with `generate_pairings_round_robin`, which it calls, written out
  unfoldable pub generate_initial_pairings_round_robin : Method Session BracketError Unit
  unfolding save_round players insert_bulk start_bracket
  generate_initial_pairings_round_robin = do
    b ← gets (λ s. s.bracket)
    round ← db (save_round b 1)
    ps ← db (players b)
    found ← lift (pairings other ps)
    db (insert_bulk json crates b round found)
    start_bracket

  unfoldable pub generate_initial : BracketType → Method Session BracketError Unit
  unfolding generate_initial_pairings_swiss generate_initial_pairings_round_robin
  generate_initial swiss = generate_initial_pairings_swiss
  generate_initial round_robin = generate_initial_pairings_round_robin

  abbrev require_no_round : Option BracketRound → Method Session BracketError Unit
  require_no_round none = pure tt
  require_no_round (some _) = throw invalid_state

  abbrev require_unstarted : BracketState → Method Session BracketError Unit
  require_unstarted unstarted = pure tt
  require_unstarted _ = throw invalid_state

  unfoldable pub generate_initial_pairings : Method Session BracketError Unit
  unfolding state bracket_type current_round generate_initial
  generate_initial_pairings = do
    b ← gets (λ s. s.bracket)
    now ← lift (state json crates b)
    require_unstarted now
    round ← db (current_round b)
    require_no_round round
    kind ← lift (bracket_type json crates b)
    generate_initial kind

  abbrev assert_above : ℕ → ℕ → Method Connection BracketError Unit
  assert_above highest n = if ltb highest n then pure tt else throw panicked

  -- the loop over the rounds: the highest round number, and the races of each round
  unfoldable pub collect_races :
      ℕ → List BracketRound → Method Connection BracketError (ℕ × List (List BracketRace))
  unfolding races
  collect_races highest [] = pure (highest, [])
  collect_races highest (r ∷ rs) = do
    here ← races r
    assert_above highest r.round_num
    rest ← collect_races r.round_num rs
    pure (rest.0, here ∷ rest.1)

  -- `try_into_match_result()?` on each race
  unfoldable pub round_results : List BracketRace → Result BracketError (List MatchResult)
  round_results [] = ok []
  round_results (r ∷ rs) =
      let rest = round_results rs in
      elim (try_into_match_result race_json r) [
        | err e ↦ err (match_result_error e)
        | ok m ↦ elim rest [ err e ↦ err e | ok ms ↦ ok (m ∷ ms) ]
      ]

  unfoldable pub all_results :
      List (List BracketRace) → Result BracketError (List (List MatchResult))
  unfolding round_results
  all_results [] = ok []
  all_results (r ∷ rs) =
      let rest = all_results rs in
      elim (round_results r) [
        | err e ↦ err e
        | ok m ↦ elim rest [ err e ↦ err e | ok ms ↦ ok (m ∷ ms) ]
      ]

  unfoldable pub generate_next_round_pairings_swiss : Bracket → Method Connection BracketError Unit
  unfolding rounds collect_races all_results players save_round insert_bulk
  generate_next_round_pairings_swiss b = do
    rs ← rounds b
    collected ← collect_races 0 rs
    results ← lift (all_results collected.1)
    next ← lift (ok_or (swiss_pairings results) pairing_error)
    ps ← players b
    round ← save_round b (collected.0 + 1)
    found ← lift (assign other next (by_id ps))
    insert_bulk json crates b round found

  unfoldable pub generate_next : BracketType → Bracket → Method Connection BracketError Unit
  unfolding generate_next_round_pairings_swiss
  generate_next swiss b = generate_next_round_pairings_swiss b
  generate_next round_robin b = throw round_robin_error

  abbrev require_started : BracketState → Method Session BracketError Unit
  require_started started = pure tt
  require_started _ = throw invalid_state

  unfoldable pub generate_next_round_pairings : Method Session BracketError Unit
  unfolding state bracket_type generate_next
  generate_next_round_pairings = do
    b ← gets (λ s. s.bracket)
    now ← lift (state json crates b)
    require_started now
    kind ← lift (bracket_type json crates b)
    db (generate_next kind b)

  abbrev pub in_transaction : Method Session BracketError Unit → Method Session BracketError Unit
  in_transaction = transaction_on (λ s. s.conn) set_conn db_error

  unfoldable pub generate_in : Result BracketError BracketState → Method Session BracketError Unit
  unfolding generate_initial_pairings generate_next_round_pairings transaction_on
  generate_in (err _) = throw invalid_state
  generate_in (ok unstarted) = in_transaction generate_initial_pairings
  generate_in (ok started) = in_transaction generate_next_round_pairings
  generate_in (ok finished) = throw invalid_state

  unfoldable pub generate_pairings : Method Session BracketError Unit
  unfolding state generate_in
  generate_pairings s = generate_in (state json crates s.bracket) s
