-- ===== src/Api.antt =====
-- src/web/api.rs: what the routes of the API answer and change.
pub mod Deleting
pub mod Races
use nmg_league_bot.Base.{
  ℕ, String, Option, none, some, Bool, true, false, ◌&&◌, List, [], ◌∷◌, ◌++◌, map, any, filter,
  Method, Result, ok, err, ok_or, leb, ◌==◌, str_eq, is_some, if◌then◌else◌,
}
use nmg_league_bot.Base.Methods.{pure, throw, lift, map_err, ◌>>=◌, ◌>>◌}
use nmg_league_bot.Race.{
  BracketRace, BracketRaceState, PlayerResult, Outcome, RaceJson, BracketRaceStateError, state,
  outcome, player_1_result, player_2_result,
}
use nmg_league_bot.Tables.{
  Bracket, BracketRound, BracketRaceInfo, CommentatorSignup, Player, QualifierSubmission, Season,
  Connection, Tables, select, first_where,
}
use nmg_league_bot.Bracket.{
  BracketState, BracketType, PairingCrates, bracket_type, state as bracket_state,
}
use nmg_league_bot.Season.{SeasonError, SeasonJson}
use nmg_league_bot.Commands.Registration
use nmg_league_bot.Commands.Registration.{safe_to_delete}

-- `ApiError`, less what it passes through
pub data ApiError : Type 0 where
  cannot_delete_past_qualifiers bad_request league_bot_error : ApiError

pub record ApiBracket : Type 0 where
  pub id : ℕ
  pub name : String
  pub season_id : ℕ
  pub state : BracketState
  pub bracket_type : BracketType

pub record ApiQualifier : Type 0 where
  pub id : ℕ
  pub player_id : ℕ
  pub player_name : String
  pub time : ℕ
  pub vod : String

-- the rows of a table that a row is joined with
abbrev joined : {A : Type 0} → (A → Option ApiQualifier) → List A → List ApiQualifier
joined f [] = []
joined f (x ∷ xs) = elim (f x) [ none ↦ joined f xs | some q ↦ q ∷ joined f xs ]

abbrev pub in_season : ℕ → Tables → ℕ → Bool
in_season ordinal t season_id = any (λ s. s.id == season_id && s.ordinal == ordinal) t.seasons

abbrev with_player : QualifierSubmission → Option Player → Option ApiQualifier
with_player q none = none
with_player q (some p) = some (record {
  id = q.id;
  player_id = q.player_id;
  player_name = p.name;
  time = q.reported_time;
  vod = q.vod_link;
})

abbrev qualifier_of : ℕ → Tables → QualifierSubmission → Option ApiQualifier
unfolding first_where
qualifier_of ordinal t q =
    if in_season ordinal t q.season_id
    then with_player q (first_where (λ p. p.id == q.player_id) t.players)
    else none

-- by time, rows of the same time in the order of the table
abbrev insert_by_time : ApiQualifier → List ApiQualifier → List ApiQualifier
insert_by_time q [] = q ∷ []
insert_by_time q (x ∷ xs) = if leb q.time x.time then q ∷ x ∷ xs else x ∷ insert_by_time q xs

abbrev pub sort_by_time : List ApiQualifier → List ApiQualifier
sort_by_time [] = []
sort_by_time (x ∷ xs) = insert_by_time x (sort_by_time xs)

unfoldable pub get_qualifiers : ℕ → Method Connection ApiError (List ApiQualifier)
unfolding select first_where
get_qualifiers ordinal =
    select league_bot_error (λ t. sort_by_time (joined (qualifier_of ordinal t) t.qualifiers))

abbrev pub ids_or_all : List ℕ → ℕ → Bool
ids_or_all [] i = true
ids_or_all ids i = any (λ j. j == i) ids

-- `get_players`, of the ids if there are any
unfoldable pub get_players : List ℕ → Method Connection ApiError (List Player)
unfolding select
get_players ids = select league_bot_error (λ t. filter (λ p. ids_or_all ids p.id) t.players)

-- `db_objs_to_api_objs`: the first that cannot be converted is an error of all
unfoldable pub db_objs_to_api_objs :
    {A B : Type 0} → (A → Result ApiError B) → List A → Result ApiError (List B)
db_objs_to_api_objs f [] = ok []
db_objs_to_api_objs f (x ∷ xs) =
    let rest = db_objs_to_api_objs f xs in
    elim (f x) [ err e ↦ err e | ok y ↦ elim rest [ err e ↦ err e | ok ys ↦ ok (y ∷ ys) ] ]

abbrev pub api : {E A : Type 0} → Result E A → Result ApiError A
api (ok a) = ok a
api (err e) = err league_bot_error

-- `transpose` of an optional column
abbrev pub transposed : {E A : Type 0} → Option (Result E A) → Result ApiError (Option A)
transposed none = ok none
transposed (some (ok a)) = ok (some a)
transposed (some (err e)) = err league_bot_error

module _ (json : SeasonJson) (crates : PairingCrates) (now : ℕ) where
  unfoldable pub api_bracket : Bracket → Result ApiError ApiBracket
  unfolding bracket_type
  api_bracket b = elim (api (bracket_state json.bracket_json crates b)) [
    | err e ↦ err e
    | ok st ↦ elim (api (bracket_type json.bracket_json crates b)) [
      | err e ↦ err e
      | ok kind ↦ ok (record {
        id = b.id;
        name = b.name;
        season_id = b.season_id;
        state = st;
        bracket_type = kind;
      })
    ]
  ]

  unfoldable pub get_season_brackets : ℕ → Method Connection ApiError (List ApiBracket)
  unfolding select db_objs_to_api_objs api_bracket
  get_season_brackets ordinal = do
    bs ← select league_bot_error (λ t. filter (λ b. in_season ordinal t b.season_id) t.brackets)
    lift (db_objs_to_api_objs api_bracket bs)

  unfoldable pub delete_if : ℕ → QualifierSubmission → Bool → Method Connection ApiError Unit
  unfolding Registration.delete_qualifier
  delete_if i q true =
      map_err (λ e. league_bot_error) (Registration.delete_qualifier json crates now q)
  delete_if i q false = throw cannot_delete_past_qualifiers

  -- `delete_qualifier`, behind the guard `Admin`
  unfoldable pub delete_qualifier : ℕ → Method Connection ApiError Unit
  unfolding select safe_to_delete delete_if
  delete_qualifier i = do
    found ← select league_bot_error (λ t. first_where (λ q. q.id == i) t.qualifiers)
    q ← lift (ok_or found league_bot_error)
    safe ← map_err (λ e. league_bot_error) (safe_to_delete json crates now q)
    delete_if i q safe
