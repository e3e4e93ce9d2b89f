-- ===== src/Season.antt =====
-- src/models/season.rs: seasons and their states.
pub mod Steps
pub mod Lookup
pub mod Queries
use Prim.Native.Nat.{max}
use nmg_league_bot.Base.{
  ℕ, ◌+◌, String, Option, none, some, Bool, true, false, List, [], ◌∷◌, Result, ok, err, ok_or,
  Method, filter, ltb, ◌==◌, ◌++◌, if◌then◌else◌,
}
use nmg_league_bot.Base.Methods.{pure, throw, lift, modify, gets, ◌>>=◌, ◌>>◌}
use nmg_league_bot.Serde.{Codec}
use nmg_league_bot.Race.{BracketRace}
use nmg_league_bot.Tables.{
  Season, Bracket, BracketRaceInfo, Tables, Connection, select, insert, on_conn, first_where,
  next_id,
}
use nmg_league_bot.Bracket.{BracketJson, PairingCrates, BracketError}
use nmg_league_bot.Bracket.Finishing.{is_finished}

pub data SeasonState : Type 0 where
  created qualifiers_open qualifiers_closed started finished : SeasonState

-- the errors of `NMGLeagueBotError` that the methods of a season give, without their payloads
pub data SeasonError : Type 0 where
  state_error serde_error database_error not_found : SeasonError

pub record SeasonJson : Type 0 where
  pub season_json : Codec SeasonState
  pub bracket_json : BracketJson

-- `&mut Season` and the connection
pub record SeasonSession : Type 0 where
  pub season : Season
  pub conn : Connection

abbrev pub db : {A : Type 0} → Method Connection SeasonError A → Method SeasonSession SeasonError A
db = on_conn (λ s. s.conn) (λ c s. record s { conn = c })

-- ORDER BY id
insert_bracket : Bracket → List Bracket → List Bracket
insert_bracket b [] = b ∷ []
insert_bracket b (x ∷ xs) = if ltb x.id b.id then x ∷ insert_bracket b xs else b ∷ x ∷ xs

order_brackets : List Bracket → List Bracket
unfolding insert_bracket
order_brackets [] = []
order_brackets (b ∷ bs) = insert_bracket b (order_brackets bs)

unfoldable pub season_brackets : Season → Tables → List Bracket
unfolding order_brackets
season_brackets s t = order_brackets (filter (λ b. b.season_id == s.id) t.brackets)

unfoldable pub brackets : Season → Method Connection SeasonError (List Bracket)
unfolding select season_brackets
brackets s = select database_error (season_brackets s)

-- SELECT … WHERE finished IS NULL
unfoldable pub get_active_season : Method Connection SeasonError (Option Season)
unfolding select
get_active_season =
    select database_error
      (λ t. first_where (λ s. elim s.finished [ none ↦ true | some _ ↦ false ]) t.seasons)

-- the join of an info to its race, the race's bracket and the bracket's season
unfoldable pub season_of : Tables → BracketRaceInfo → Option Season
season_of t i = elim (first_where (λ r. r.id == i.bracket_race_id) t.races) [
  | none ↦ none
  | some r ↦ elim (first_where (λ b. b.id == r.bracket_id) t.brackets) [
    | none ↦ none
    | some b ↦ first_where (λ s. s.id == b.season_id) t.seasons
  ]
]

first_joined : Tables → ℕ → List BracketRaceInfo → Option Season
first_joined t i [] = none
first_joined t i (x ∷ xs) =
    let rest = first_joined t i xs in
    if x.bracket_race_id == i then elim (season_of t x) [ none ↦ rest | some s ↦ some s ] else rest

-- The filter of the source compares the column `bracket_race_id` with the id of the info.
unfoldable pub get_from_bracket_race_info : BracketRaceInfo → Method Connection SeasonError Season
unfolding select season_of first_joined
get_from_bracket_race_info bri = do
  found ← select database_error (λ t. first_joined t bri.id t.infos)
  lift (ok_or found not_found)

highest_ordinal : List Season → ℕ
highest_ordinal [] = 0
highest_ordinal (s ∷ ss) = max s.ordinal (highest_ordinal ss)

module _ (json : SeasonJson) (crates : PairingCrates) (now : ℕ) where
  open json use {season_json, bracket_json}

  unfoldable pub get_state : Season → Result SeasonError SeasonState
  get_state s = ok_or (season_json.from_str s.state) serde_error

  abbrev is_open : Result SeasonError SeasonState → Result SeasonError Bool
  is_open (err e) = err e
  is_open (ok qualifiers_open) = ok true
  is_open (ok _) = ok false

  unfoldable pub are_qualifiers_open : Season → Result SeasonError Bool
  unfolding get_state
  are_qualifiers_open s = is_open (get_state s)

  abbrev may_delete : Result SeasonError SeasonState → Result SeasonError Bool
  may_delete (err e) = err e
  may_delete (ok qualifiers_open) = ok true
  may_delete (ok qualifiers_closed) = ok true
  may_delete (ok _) = ok false

  unfoldable pub safe_to_delete_qualifiers : Season → Result SeasonError Bool
  unfolding get_state
  safe_to_delete_qualifiers s = may_delete (get_state s)

  abbrev bracket_done : Result BracketError Bool → Method SeasonSession SeasonError Unit
  bracket_done (err _) = throw serde_error
  bracket_done (ok false) = throw state_error
  bracket_done (ok true) = pure tt

  unfoldable pub require_finished : List Bracket → Method SeasonSession SeasonError Unit
  require_finished [] = pure tt
  require_finished (b ∷ bs) = do
    bracket_done (is_finished bracket_json crates b)
    require_finished bs

  unfoldable pub finish : Method SeasonSession SeasonError Unit
  unfolding brackets require_finished
  finish = do
    s ← gets (λ x. x.season)
    bs ← db (brackets s)
    require_finished bs
    modify (λ x. record x { season = record x.season { finished = some now } })

  -- the `match` of `set_state`, with `expect_state!` written out
  unfoldable pub check_transition :
      SeasonState → SeasonState → Method SeasonSession SeasonError Unit
  check_transition current created = throw state_error
  check_transition created qualifiers_open = pure tt
  check_transition qualifiers_open qualifiers_closed = pure tt
  check_transition qualifiers_closed started = pure tt
  check_transition started finished = finish
  check_transition _ _ = throw state_error

  abbrev pub same_state : SeasonState → SeasonState → Bool
  same_state created created = true
  same_state qualifiers_open qualifiers_open = true
  same_state qualifiers_closed qualifiers_closed = true
  same_state started started = true
  same_state finished finished = true
  same_state _ _ = false

  unfoldable pub store_state : SeasonState → Method SeasonSession SeasonError Unit
  store_state target = do
    text ← lift (ok_or (season_json.to_string target) serde_error)
    modify (λ x. record x { season = record x.season { state = text } })

  unfoldable pub set_state : SeasonState → Method SeasonSession SeasonError Unit
  unfolding get_state check_transition store_state
  set_state target = do
    current ← λ x. (get_state x.season, x)
    λ x.
        if same_state current target
        then (ok tt, x)
        else (do check_transition current target; store_state target) x

  -- `NewSeason::new` and `save`; MAX(ordinal) of no rows is NULL, read as 0
  unfoldable pub create_season : String → String → String → Method Connection SeasonError Season
  unfolding select insert highest_ordinal
  create_season format category goal = do
    ordinal ← select database_error (λ t. highest_ordinal t.seasons + 1)
    text ← lift (ok_or (season_json.to_string created) serde_error)
    insert database_error
        (λ t. record {
          id = next_id (λ s. s.id) t.seasons;
          started = now;
          finished = none;
          format = format;
          ordinal = ordinal;
          state = text;
          rtgg_category_name = category;
          rtgg_goal_name = goal;
        })
        (λ row t. record t { seasons = t.seasons ++ row ∷ [] })
