-- ===== src/Bracket/Finishing.antt =====
-- When a bracket is finished: `Bracket::finish` and `is_finished` of src/models/brackets.rs, and
-- `all_races_finished` of src/models/bracket_rounds.rs.
use nmg_league_bot.Base.{
  ◌&&◌, Bool, true, false, not, List, [], ◌∷◌, Result, ok, err, ok_or, Method, all, ◌==◌, str_eq,
  if◌then◌else◌,
}
use nmg_league_bot.Base.Methods.{pure, lift, modify, gets, ◌>>=◌, ◌>>◌}
use nmg_league_bot.Race.{BracketRaceState}
use nmg_league_bot.Tables.{Bracket, BracketRound, Connection, select}
use nmg_league_bot.Bracket.{
  BracketState, finished, BracketError, db_error, serialization_error, panicked, BracketJson,
  PairingCrates, Session, db, rounds, state,
}

module _ (json : BracketJson) (crates : PairingCrates) where
  open json use {race_json, state_json, type_json}

  -- `BracketRound::all_races_finished`; its `unwrap` panics if the state has no text
  unfoldable pub all_races_finished : BracketRound → Method Connection BracketError Bool
  unfolding select
  all_races_finished r = do
    text ← lift (ok_or (race_json.state_json.to_string BracketRaceState.finished) panicked)
    select db_error (λ t. all (λ x. not (x.round_id == r.id && not (str_eq x.state text))) t.races)

  unfoldable pub rounds_finished : List BracketRound → Method Connection BracketError Bool
  unfolding all_races_finished
  rounds_finished [] = pure true
  rounds_finished (r ∷ rs) = do
    done ← all_races_finished r
    λ c. let rest = rounds_finished rs in if done then rest c else (ok false, c)

  abbrev finish_bracket_if : Bool → Method Session BracketError Bool
  finish_bracket_if false = pure false
  finish_bracket_if true = do
    text ← lift (ok_or (state_json.to_string finished) serialization_error)
    modify (λ s. record s { bracket = record s.bracket { state = text } })
    pure true

  -- `finish` changes the bracket in memory and does not save it
  unfoldable pub finish : Method Session BracketError Bool
  unfolding rounds rounds_finished
  finish = do
    b ← gets (λ s. s.bracket)
    rs ← db (rounds b)
    done ← db (rounds_finished rs)
    finish_bracket_if done

  abbrev finished_state : Result BracketError BracketState → Result BracketError Bool
  finished_state (err e) = err e
  finished_state (ok finished) = ok true
  finished_state (ok _) = ok false

  unfoldable pub is_finished : Bracket → Result BracketError Bool
  unfolding state
  is_finished b = finished_state (state json crates b)
