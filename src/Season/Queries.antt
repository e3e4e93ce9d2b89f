-- ===== src/Season/Queries.antt =====
-- The queries of src/models/season.rs for races, and `Bracket::bracket_races`.
use nmg_league_bot.Base.{
  ℕ, ◌-◌, ◌*◌, String, none, some, Bool, true, false, not, ◌&&◌, List, [], ◌∷◌, ok_or, Method, any,
  filter, ltb, ◌==◌, str_eq, if◌then◌else◌,
}
use nmg_league_bot.Base.Methods.{lift, ◌>>=◌}
use nmg_league_bot.Race.{BracketRace, BracketRaceState, RaceJson}
use nmg_league_bot.Tables.{
  Season, Bracket, BracketRaceInfo, Tables, Connection, select, first_where,
}
use nmg_league_bot.Season.{SeasonError, serde_error, database_error}

unfoldable pub bracket_races : Bracket → Method Connection SeasonError (List BracketRace)
unfolding select
bracket_races b = select database_error (λ t. filter (λ r. r.bracket_id == b.id) t.races)

-- a time that is NULL is not less than any
abbrev pub starts_before : ℕ → BracketRaceInfo → Bool
starts_before at i = elim i.scheduled_for [ none ↦ false | some time ↦ ltb time at ]

-- the race is in a bracket of the season, and its state has another text
abbrev pub is_unfinished : String → Season → Tables → BracketRace → Bool
is_unfinished finished_state s t r =
    any (λ b. b.id == r.bracket_id && b.season_id == s.id) t.brackets
    && not (str_eq r.state finished_state)

-- the infos that the test takes, each with its race
unfoldable pub joined_races :
    (BracketRaceInfo → Bool)
    → String
    → Season
    → Tables
    → List BracketRaceInfo
    → List (BracketRaceInfo × BracketRace)
unfolding first_where
joined_races test finished_state s t [] = []
joined_races test finished_state s t (i ∷ is) =
    let rest = joined_races test finished_state s t is in
    elim (first_where (λ r. r.id == i.bracket_race_id) t.races) [
      | none ↦ rest
      | some r ↦ if test i && is_unfinished finished_state s t r then (i, r) ∷ rest else rest
    ]

module _ (json : RaceJson) where
  -- the text of the state is unwrapped, which panics where it is an error here
  unfoldable pub unfinished_where :
      (BracketRaceInfo → Bool)
      → Season
      → Method Connection SeasonError (List (BracketRaceInfo × BracketRace))
  unfolding select joined_races
  unfinished_where test s = do
    text ← lift (ok_or (json.state_json.to_string BracketRaceState.finished) serde_error)
    select database_error (λ t. joined_races test text s t t.infos)

  unfoldable pub get_unfinished_races :
      Season → Method Connection SeasonError (List (BracketRaceInfo × BracketRace))
  unfolding unfinished_where
  get_unfinished_races = unfinished_where (λ i. true)

  unfoldable pub get_unfinished_races_starting_before :
      ℕ → Season → Method Connection SeasonError (List (BracketRaceInfo × BracketRace))
  unfolding unfinished_where
  get_unfinished_races_starting_before at = unfinished_where (starts_before at)

  -- at the time `now`, for races that started more than 70 minutes ago
  unfoldable pub get_races_that_should_be_finishing_soon :
      ℕ → Season → Method Connection SeasonError (List (BracketRaceInfo × BracketRace))
  unfolding unfinished_where
  get_races_that_should_be_finishing_soon now = unfinished_where (starts_before (now - 70 * 60))
