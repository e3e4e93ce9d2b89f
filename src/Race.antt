-- ===== src/Race.antt =====
-- src/models/bracket_races.rs and `BracketRaceState` of src/lib.rs: one race of a bracket, its
-- results and its outcome.
pub mod Sheet
pub mod Refinement
use nmg_league_bot.Base.{
  is_some, ℕ, ◌*◌, String, Option, none, some, Bool, true, false, not, ◌&&◌, ◌||◌, Result, ok, err,
  ok_or, Method, ltb, ◌==◌, if◌then◌else◌,
}
use nmg_league_bot.Base.Methods.{pure, throw, lift, gets, modify, ◌>>=◌, ◌>>◌}
use nmg_league_bot.Serde.{Codec}

pub data BracketRaceState : Type 0 where
  new scheduled finished : BracketRaceState

-- the payloads of `ParseError` and `DatabaseError` are the crates' own errors, and are left out
pub data BracketRaceStateError : Type 0 where
  invalid_state : BracketRaceState → BracketRaceStateError
  parse_error : BracketRaceStateError
  missing_result : BracketRaceStateError
  database_error : BracketRaceStateError

-- a finish time is a u32 number of seconds
pub data PlayerResult : Type 0 where
  forfeit : PlayerResult
  finish_time : ℕ → PlayerResult

pub data Outcome : Type 0 where
  tie p1_win p2_win : Outcome

-- finish time if given, 3:00:00 if forfeit
unfoldable pub time : PlayerResult → ℕ
time forfeit = 3 * 3600
time (finish_time t) = t

-- `From<(&PlayerResult, &PlayerResult)> for Outcome`
unfoldable pub outcome_of : PlayerResult → PlayerResult → Outcome
outcome_of forfeit forfeit = tie
outcome_of forfeit (finish_time t) = p2_win
outcome_of (finish_time t) forfeit = p1_win
outcome_of (finish_time t) (finish_time u) =
    if ltb t u then p1_win else if ltb u t then p2_win else tie

pub record BracketRace : Type 0 where
  pub id : ℕ
  pub bracket_id : ℕ
  pub round_id : ℕ
  pub player_1_id : ℕ
  pub player_2_id : ℕ
  pub async_race_id : Option ℕ
  pub state : String
  pub player_1_result : Option String
  pub player_2_result : Option String
  pub outcome : Option String

-- `MatchResult` of the swiss_pairings crate, over player ids
pub data MatchResult : Type 0 where
  player_1_win player_2_win draw : ℕ → ℕ → MatchResult

pub data MatchResultError : Type 0 where
  invalid_outcome race_not_finished : MatchResultError

abbrev pub is_finished_state : BracketRaceState → Bool
is_finished_state finished = true
is_finished_state _ = false

-- The codecs of the three columns that hold JSON.
pub record RaceJson : Type 0 where
  pub state_json : Codec BracketRaceState
  pub result_json : Codec PlayerResult
  pub outcome_json : Codec Outcome

module _ (json : RaceJson) where
  open json use {state_json, result_json, outcome_json}

  unfoldable pub state : BracketRace → Result BracketRaceStateError BracketRaceState
  state r = ok_or (state_json.from_str r.state) parse_error

  abbrev pub state_text : BracketRaceState → String
  state_text s = elim (state_json.to_string s) [ none ↦ "Unknown" | some t ↦ t ]

  unfoldable pub set_state : BracketRaceState → Method BracketRace BracketRaceStateError Unit
  set_state s = modify (λ r. record r { state = state_text s })

  -- `outcome()`: `ok none` while the race is not complete
  unfoldable pub outcome : BracketRace → Result BracketRaceStateError (Option Outcome)
  outcome r = elim r.outcome [
    | none ↦ ok none
    | some o ↦ elim (outcome_json.from_str o) [ none ↦ err parse_error | some x ↦ ok (some x) ]
  ]

  abbrev is_ok_some : Result BracketRaceStateError (Option Outcome) → Bool
  is_ok_some (ok (some _)) = true
  is_ok_some _ = false

  unfoldable pub is_complete : BracketRace → Bool
  unfolding outcome
  is_complete r = is_ok_some (outcome r)

  abbrev parse_result : Option String → Option (Result BracketRaceStateError PlayerResult)
  parse_result none = none
  parse_result (some s) = some (ok_or (result_json.from_str s) parse_error)

  unfoldable pub player_1_result : BracketRace → Option (Result BracketRaceStateError PlayerResult)
  player_1_result r = parse_result r.player_1_result

  unfoldable pub player_2_result : BracketRace → Option (Result BracketRaceStateError PlayerResult)
  player_2_result r = parse_result r.player_2_result

  abbrev both_results :
      Option (Result BracketRaceStateError PlayerResult)
      → Option (Result BracketRaceStateError PlayerResult)
      → Result BracketRaceStateError (PlayerResult × PlayerResult)
  both_results (some (ok p1)) (some (ok p2)) = ok (p1, p2)
  both_results (some (ok p1)) (some (err e)) = err e
  both_results (some (err e)) (some _) = err e
  both_results _ _ = err missing_result

  -- `finish` (private in the source)
  unfoldable pub finish : Method BracketRace BracketRaceStateError Unit
  unfolding set_state player_1_result player_2_result
  finish = do
    results ← λ r. (both_results (player_1_result r) (player_2_result r), r)
    text ← lift (ok_or (outcome_json.to_string (outcome_of results.0 results.1)) parse_error)
    modify (λ r. record r { outcome = some text })
    set_state finished

  store_player_1 : Option PlayerResult → Method BracketRace BracketRaceStateError Unit
  store_player_1 none = pure tt
  store_player_1 (some p) = do
    text ← lift (ok_or (result_json.to_string p) parse_error)
    modify (λ r. record r { player_1_result = some text })

  store_player_2 : Option PlayerResult → Method BracketRace BracketRaceStateError Unit
  store_player_2 none = pure tt
  store_player_2 (some p) = do
    text ← lift (ok_or (result_json.to_string p) parse_error)
    modify (λ r. record r { player_2_result = some text })

  -- the guard of `add_results`; the error names the state that was found
  abbrev refuse_finished : Bool → BracketRaceState → Method BracketRace BracketRaceStateError Unit
  refuse_finished force s =
      if not force && is_finished_state s then throw (invalid_state s) else pure tt

  abbrev finish_if_complete : Method BracketRace BracketRaceStateError Unit
  unfolding finish
  finish_if_complete r =
      if is_some r.player_1_result && is_some r.player_2_result then finish r else (ok tt, r)

  unfoldable pub add_results :
      Option PlayerResult
      → Option PlayerResult
      → Bool
      → Method BracketRace BracketRaceStateError Unit
  unfolding state finish store_player_1 store_player_2
  add_results p1 p2 force = do
    s ← λ r. (state r, r)
    refuse_finished force s
    store_player_1 p1
    store_player_2 p2
    finish_if_complete

  abbrev match_result : Outcome → ℕ → ℕ → MatchResult
  match_result tie p1 p2 = draw p1 p2
  match_result p1_win p1 p2 = player_1_win p1 p2
  match_result p2_win p1 p2 = player_2_win p1 p2

  abbrev known_outcome :
      Result BracketRaceStateError (Option Outcome) → Result MatchResultError Outcome
  known_outcome (err _) = err invalid_outcome
  known_outcome (ok none) = err race_not_finished
  known_outcome (ok (some o)) = ok o

  abbrev match_of_finished :
      Result MatchResultError Outcome → ℕ → ℕ → Result MatchResultError MatchResult
  match_of_finished (err e) p1 p2 = err e
  match_of_finished (ok o) p1 p2 = ok (match_result o p1 p2)

  abbrev match_of :
      Result BracketRaceStateError BracketRaceState
      → BracketRace
      → Result MatchResultError MatchResult
  unfolding outcome
  match_of (ok finished) r =
      match_of_finished (known_outcome (outcome r)) r.player_1_id r.player_2_id
  match_of _ r = err race_not_finished

  unfoldable pub try_into_match_result : BracketRace → Result MatchResultError MatchResult
  unfolding state outcome
  try_into_match_result r = match_of (state r) r

unfoldable pub involves_player : BracketRace → ℕ → Bool
involves_player r player_id = r.player_1_id == player_id || r.player_2_id == player_id
