-- ===== src/Api/Races.antt =====
-- The routes of src/web/api.rs for the races of a season and their commentators.
use nmg_league_bot.Base.{
  ℕ, String, Option, none, some, Bool, true, ◌&&◌, List, [], ◌∷◌, ◌++◌, map, any, filter, Method,
  Result, ok, err, ◌==◌, str_eq, if◌then◌else◌,
}
use nmg_league_bot.Base.Methods.{lift, ◌>>=◌, ◌>>◌}
use nmg_league_bot.Race.{
  BracketRace, BracketRaceState, PlayerResult, Outcome, state, outcome, player_1_result,
  player_2_result,
}
use nmg_league_bot.Tables.{
  BracketRound, BracketRaceInfo, CommentatorSignup, Connection, Tables, select, first_where,
}
use nmg_league_bot.Season.{SeasonJson}
use nmg_league_bot.Api.{
  ApiError, bad_request, league_bot_error, in_season, ids_or_all, db_objs_to_api_objs, api,
  transposed,
}

pub record ApiRace : Type 0 where
  pub id : ℕ
  pub bracket_id : ℕ
  pub round : ℕ
  pub player_1_id : ℕ
  pub player_2_id : ℕ
  pub state : BracketRaceState
  pub player_1_result : Option PlayerResult
  pub player_2_result : Option PlayerResult
  pub outcome : Option Outcome
  pub scheduled_for : Option ℕ
  pub racetime_gg_url : Option String
  pub restream_channel : Option String

pub record ApiCommentatorSignup : Type 0 where
  pub bracket_race_id : ℕ
  pub discord_id : String

abbrev info_field : {A : Type 0} → (BracketRaceInfo → Option A) → Option BracketRaceInfo → Option A
info_field f none = none
info_field f (some i) = f i

-- a table joined with the infos of each race; a race without one stays
abbrev left_join : BracketRace → List BracketRaceInfo → List (Option BracketRaceInfo)
left_join r infos = or_null (map some (filter (λ i. i.bracket_race_id == r.id) infos))
  where
    or_null : List (Option BracketRaceInfo) → List (Option BracketRaceInfo)
    or_null [] = none ∷ []
    or_null is = is

module _ (json : SeasonJson) where
  -- the fields of a race, once its columns are read
  abbrev race_fields :
      BracketRace
      → Option BracketRaceInfo
      → BracketRound
      → BracketRaceState
      → Option PlayerResult
      → Option PlayerResult
      → Option Outcome
      → ApiRace
  race_fields r info round st p1 p2 o = record {
    id = r.id;
    bracket_id = r.bracket_id;
    round = round.round_num;
    player_1_id = r.player_1_id;
    player_2_id = r.player_2_id;
    state = st;
    player_1_result = p1;
    player_2_result = p2;
    outcome = o;
    scheduled_for = info_field (λ i. i.scheduled_for) info;
    racetime_gg_url = info_field (λ i. i.racetime_gg_url) info;
    restream_channel = info_field (λ i. i.restream_channel) info;
  }

  unfoldable pub api_race :
      BracketRace × Option BracketRaceInfo × BracketRound → Result ApiError ApiRace
  unfolding player_1_result player_2_result state outcome
  api_race (r, info, round) = elim (transposed (player_1_result json.bracket_json.race_json r)) [
    | err e ↦ err e
    | ok p1 ↦ elim (transposed (player_2_result json.bracket_json.race_json r)) [
      | err e ↦ err e
      | ok p2 ↦ elim (api (state json.bracket_json.race_json r)) [
        | err e ↦ err e
        | ok st ↦ elim (api (outcome json.bracket_json.race_json r)) [
          | err e ↦ err e
          | ok o ↦ ok (race_fields r info round st p1 p2 o)
        ]
      ]
    ]
  ]

  -- the rows of a race: its round and its season must be there
  unfoldable pub rows_of :
      ℕ → Tables → BracketRace → List (BracketRace × Option BracketRaceInfo × BracketRound)
  unfolding first_where
  rows_of ordinal t r =
      if any (λ b. b.id == r.bracket_id && in_season ordinal t b.season_id) t.brackets
      then elim (first_where (λ x. x.id == r.round_id) t.rounds) [
        | none ↦ []
        | some round ↦ map (λ info. (r, info, round)) (left_join r t.infos)
      ]
      else []

  unfoldable pub all_rows :
      ℕ → Tables → List BracketRace → List (BracketRace × Option BracketRaceInfo × BracketRound)
  unfolding rows_of
  all_rows ordinal t [] = []
  all_rows ordinal t (r ∷ rs) = rows_of ordinal t r ++ all_rows ordinal t rs

  abbrev has_state : Option String → BracketRace → Bool
  has_state none r = true
  has_state (some text) r = str_eq r.state text

  -- the text of a state is only tried, and then compared as it is
  abbrev check_state : Option String → Result ApiError Unit
  check_state none = ok tt
  check_state (some text) = elim (json.bracket_json.race_json.state_json.from_str text) [
    | none ↦ err bad_request
    | some st ↦ ok tt
  ]

  unfoldable pub get_season_races : ℕ → Option String → Method Connection ApiError (List ApiRace)
  unfolding select db_objs_to_api_objs api_race all_rows
  get_season_races ordinal text = do
    lift (check_state text)
    rows ← select league_bot_error (λ t. all_rows ordinal t (filter (has_state text) t.races))
    lift (db_objs_to_api_objs api_race rows)

  -- a signup with the race of its info, if that is a race of the season
  abbrev signup_of :
      ℕ → List ℕ → Tables → CommentatorSignup → Option BracketRaceInfo → Option ApiCommentatorSignup
  unfolding first_where
  signup_of ordinal ids t x none = none
  signup_of ordinal ids t x (some i) = elim (first_where (λ r. r.id == i.bracket_race_id) t.races) [
    | none ↦ none
    | some r ↦
        if any (λ b. b.id == r.bracket_id && in_season ordinal t b.season_id) t.brackets
          && ids_or_all ids r.id
        then some (record { bracket_race_id = r.id; discord_id = x.discord_id })
        else none
  ]

  unfoldable pub signups_of :
      ℕ → List ℕ → Tables → List CommentatorSignup → List ApiCommentatorSignup
  unfolding first_where
  signups_of ordinal ids t [] = []
  signups_of ordinal ids t (x ∷ xs) =
      let rest = signups_of ordinal ids t xs in
      elim (signup_of ordinal ids t x (first_where (λ i. i.id == x.bracket_race_info_id) t.infos)) [
        | none ↦ rest
        | some y ↦ y ∷ rest
      ]

  unfoldable pub get_season_commentator_signups :
      ℕ → List ℕ → Method Connection ApiError (List ApiCommentatorSignup)
  unfolding select signups_of
  get_season_commentator_signups ordinal ids =
      select league_bot_error (λ t. signups_of ordinal ids t t.signups)
