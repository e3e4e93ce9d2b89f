-- ===== src/Bracket.antt =====
-- src/models/brackets.rs (`Bracket`, pairing generation, `finish`), src/models/bracket_rounds.rs, and
-- the insertion of races of src/models/bracket_races.rs.
pub mod Generation
pub mod Finishing
pub mod Finished
pub mod Rows
pub mod Effects
pub mod Rounds
use mathlib.Core.List.{reverse}
use nmg_league_bot.Base.{
  ◌&&◌, ℕ, suc, ◌+◌, Option, none, some, Bool, true, false, not, List, [], ◌∷◌, ◌++◌, Result, ok,
  err, ok_or, Method, filter, all, ◌==◌, ltb, str_eq, if◌then◌else◌,
}
use nmg_league_bot.Base.Methods.{pure, throw, lift, modify, gets, ◌>>=◌, ◌>>◌}
use nmg_league_bot.Serde.{Codec}
use nmg_league_bot.Race.{
  BracketRace, BracketRaceState, MatchResult, MatchResultError, RaceJson, state_text,
  try_into_match_result,
}
use nmg_league_bot.Tables.{
  Tables, update_bracket, insert, Player, PlayerBracketEntry, Bracket, BracketRound, Connection,
  select, write, on_conn, transaction_on, next_id, first_where,
}
use nmg_league_bot.Pairing.RoundRobin.{Pair, pairings}
use nmg_league_bot.Pairing.Swiss.{pair_up, by_id, assign}

pub data BracketState : Type 0 where
  unstarted started finished : BracketState

pub data BracketType : Type 0 where
  swiss round_robin : BracketType

-- Texts and foreign errors that an error carries are left out. `panicked` stands for the `assert!`.
pub data BracketError : Type 0 where
  invalid_state odd_player_count db_error other serialization_error : BracketError
  match_result_error : MatchResultError → BracketError
  pairing_error round_robin_error panicked : BracketError

pub record BracketJson : Type 0 where
  pub race_json : RaceJson
  pub state_json : Codec BracketState
  pub type_json : Codec BracketType

-- The two crates that the pairing functions call.
pub record PairingCrates : Type 0 where
  -- `shuffle` of rand
  pub shuffle : List Player → List Player
  -- `swiss_pairings` on the results of the rounds so far; `none` is a `PairingError`
  pub swiss_pairings : List (List MatchResult) → Option (List (ℕ × ℕ))

-- `&mut Bracket` and the connection
pub record Session : Type 0 where
  pub bracket : Bracket
  pub conn : Connection

abbrev pub set_conn : Connection → Session → Session
set_conn c s = record s { conn = c }

abbrev pub db : {A : Type 0} → Method Connection BracketError A → Method Session BracketError A
db = on_conn (λ s. s.conn) set_conn

-- SELECT of a bracket's players: the entries of the bracket, joined to their players
players_of : List PlayerBracketEntry → List Player → List Player
players_of [] ps = []
players_of (e ∷ es) ps =
    let rest = players_of es ps in
    elim (first_where (λ p. p.id == e.player_id) ps) [ none ↦ rest | some p ↦ p ∷ rest ]

unfoldable pub entered_players : Bracket → Tables → List Player
unfolding players_of
entered_players b t = players_of (filter (λ e. e.bracket_id == b.id) t.entries) t.players

unfoldable pub players : Bracket → Method Connection BracketError (List Player)
unfolding entered_players select
players b = select db_error (entered_players b)

-- ORDER BY round_num
insert_round : BracketRound → List BracketRound → List BracketRound
insert_round r [] = r ∷ []
insert_round r (q ∷ qs) = if ltb q.round_num r.round_num then q ∷ insert_round r qs else r ∷ q ∷ qs

order_rounds : List BracketRound → List BracketRound
unfolding insert_round
order_rounds [] = []
order_rounds (r ∷ rs) = insert_round r (order_rounds rs)

unfoldable pub rounds : Bracket → Method Connection BracketError (List BracketRound)
unfolding order_rounds select
rounds b = select db_error (λ t. order_rounds (filter (λ r. r.bracket_id == b.id) t.rounds))

abbrev last : {A : Type 0} → List A → Option A
last [] = none
last (x ∷ []) = some x
last (x ∷ y ∷ ys) = last (y ∷ ys)

-- ORDER BY round_num DESC LIMIT 1
unfoldable pub current_round : Bracket → Method Connection BracketError (Option BracketRound)
unfolding order_rounds select
current_round b =
    select db_error (λ t. last (order_rounds (filter (λ r. r.bracket_id == b.id) t.rounds)))

-- `BracketRound::races`
unfoldable pub races : BracketRound → Method Connection BracketError (List BracketRace)
unfolding select
races r = select db_error (λ t. filter (λ x. x.round_id == r.id) t.races)

-- `NewBracketRound::new` and `save`
unfoldable pub save_round : Bracket → ℕ → Method Connection BracketError BracketRound
unfolding insert
save_round b n =
    insert db_error
      (λ t. record { id = next_id (λ r. r.id) t.rounds; round_num = n; bracket_id = b.id })
      (λ row t. record t { rounds = t.rounds ++ row ∷ [] })

module _ (json : BracketJson) (crates : PairingCrates) where
  open json use {race_json, state_json, type_json}

  unfoldable pub state : Bracket → Result BracketError BracketState
  state b = ok_or (state_json.from_str b.state) serialization_error

  unfoldable pub bracket_type : Bracket → Result BracketError BracketType
  bracket_type b = ok_or (type_json.from_str b.bracket_type) serialization_error

  -- `NewBracketRace::new`, as the row with the id that the insertion gives it
  unfoldable pub new_bracket_race : Bracket → BracketRound → Pair → ℕ → BracketRace
  new_bracket_race b round (p1, p2) i = record {
    id = i;
    bracket_id = b.id;
    round_id = round.id;
    player_1_id = p1.id;
    player_2_id = p2.id;
    async_race_id = none;
    state = state_text race_json BracketRaceState.new;
    player_1_result = none;
    player_2_result = none;
    outcome = none;
  }

  -- the rows of one INSERT have consecutive ids
  unfoldable pub number_races : Bracket → BracketRound → ℕ → List Pair → List BracketRace
  unfolding new_bracket_race
  number_races b round i [] = []
  number_races b round i (x ∷ xs) = new_bracket_race b round x i ∷ number_races b round (suc i) xs

  unfoldable pub insert_bulk :
      Bracket → BracketRound → List Pair → Method Connection BracketError Unit
  unfolding write number_races
  insert_bulk b round xs =
      write db_error
        (λ t. record t { races = t.races ++ number_races b round (next_id (λ r. r.id) t.races) xs })
