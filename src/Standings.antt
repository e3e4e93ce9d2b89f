-- ===== src/Standings.antt =====
-- `Bracket::standings` of src/models/brackets.rs, with its builder and its order.
pub mod Entries
pub mod Points
pub mod Totals
pub mod Order
use nmg_league_bot.Base.{
  ℕ, ◌+◌, ◌%◌, ◌^◌, Option, none, some, Bool, true, false, not, ◌&&◌, ◌||◌, List, [], ◌∷◌, ◌++◌,
  map, all, Result, ok, err, Method, ltb, ◌==◌, if◌then◌else◌,
}
use nmg_league_bot.Base.Methods.{pure, throw, lift, ◌>>=◌, ◌>>◌}
use nmg_league_bot.Race.{
  BracketRace, BracketRaceStateError, PlayerResult, time, Outcome, tie, p1_win, p2_win, RaceJson,
  is_complete, player_1_result, player_2_result, outcome,
}
use nmg_league_bot.Tables.{Bracket, BracketRound, Connection}
use nmg_league_bot.Bracket.{
  BracketState, unstarted, BracketType, swiss, round_robin, BracketError, invalid_state,
  BracketJson, PairingCrates, rounds, races, state, bracket_type,
}

pub record StandingsRace : Type 0 where
  pub player_1_id : ℕ
  pub player_2_id : ℕ
  pub player_1_result : PlayerResult
  pub player_2_result : PlayerResult
  pub outcome : Outcome

pub record PlayerInfoBuilder : Type 0 where
  pub id : ℕ
  pub points : ℕ
  pub opponents : List ℕ
  pub results : List PlayerResult

-- points are twice the points of the league
pub record PlayerInfo : Type 0 where
  pub id : ℕ
  pub points : ℕ
  pub opponent_points : ℕ
  pub results : List PlayerResult

-- `try_from(…).ok()`: a race with a missing or unreadable column is not counted
abbrev pub standings_race :
    ℕ
    → ℕ
    → Option (Result BracketRaceStateError PlayerResult)
    → Option (Result BracketRaceStateError PlayerResult)
    → Result BracketRaceStateError (Option Outcome)
    → Option StandingsRace
standings_race p1 p2 (some (ok r1)) (some (ok r2)) (ok (some o)) = some (record {
  player_1_id = p1;
  player_2_id = p2;
  player_1_result = r1;
  player_2_result = r2;
  outcome = o;
})
standings_race p1 p2 _ _ _ = none

unfoldable pub try_from : RaceJson → BracketRace → Option StandingsRace
unfolding player_1_result player_2_result outcome
try_from json r =
    standings_race r.player_1_id r.player_2_id (player_1_result json r) (player_2_result json r)
      (outcome json r)

abbrev pub counted : RaceJson → List BracketRace → List StandingsRace
unfolding try_from
counted json [] = []
counted json (r ∷ rs) =
    let rest = counted json rs in elim (try_from json r) [ none ↦ rest | some x ↦ x ∷ rest ]

abbrev pub new_builder : ℕ → PlayerInfoBuilder
new_builder i = record { id = i; points = 0; opponents = []; results = [] }

-- the points of the two players
unfoldable pub adjust : Outcome → ℕ × ℕ
adjust tie = (1, 1)
adjust p1_win = (2, 0)
adjust p2_win = (0, 2)

-- one race in the entry of one player
abbrev pub push : PlayerResult → ℕ → ℕ → PlayerInfoBuilder → PlayerInfoBuilder
push result points opponent b = record b {
  points = b.points + points;
  opponents = b.opponents ++ opponent ∷ [];
  results = b.results ++ result ∷ [];
}

-- `info.entry(id).or_insert(new(id))`, and the change of the entry; the map has one entry for an id
unfoldable pub upsert :
    ℕ → (PlayerInfoBuilder → PlayerInfoBuilder) → List PlayerInfoBuilder → List PlayerInfoBuilder
upsert i f [] = f (new_builder i) ∷ []
upsert i f (b ∷ bs) = if b.id == i then f b ∷ bs else b ∷ upsert i f bs

unfoldable pub add_race : StandingsRace → List PlayerInfoBuilder → List PlayerInfoBuilder
unfolding adjust upsert
add_race r bs =
    let (p1, p2) = adjust r.outcome in
    upsert r.player_2_id (push r.player_2_result p2 r.player_1_id)
      (upsert r.player_1_id (push r.player_1_result p1 r.player_2_id) bs)

unfoldable pub add_races : List StandingsRace → List PlayerInfoBuilder → List PlayerInfoBuilder
unfolding add_race
add_races [] bs = bs
add_races (r ∷ rs) bs = add_races rs (add_race r bs)

unfoldable pub find : ℕ → List PlayerInfoBuilder → Option PlayerInfoBuilder
find i [] = none
find i (b ∷ bs) = if b.id == i then some b else find i bs

-- `points.get(id)`; a player without an entry counts 0
unfoldable pub score : List PlayerInfoBuilder → ℕ → ℕ
unfolding find
score bs i = elim (find i bs) [ none ↦ 0 | some b ↦ b.points ]

unfoldable pub sum_scores : (ℕ → ℕ) → List ℕ → ℕ
sum_scores f [] = 0
sum_scores f (i ∷ is) = f i + sum_scores f is

unfoldable pub build : (ℕ → ℕ) → PlayerInfoBuilder → PlayerInfo
unfolding sum_scores
build scores b = record {
  id = b.id;
  points = b.points;
  opponent_points = sum_scores scores b.opponents;
  results = b.results;
}

unfoldable pub total_time : List PlayerResult → ℕ
unfolding time
total_time [] = 0
total_time (r ∷ rs) = time r + total_time rs

-- the sum of u32 values, which wraps around in a release build
unfoldable pub time_adjusted : PlayerInfo → ℕ
unfolding total_time
time_adjusted p = total_time p.results % 2 ^ 32

-- the order of the key (-points, -opponent_points, time, id)
unfoldable pub ranks_before : PlayerInfo → PlayerInfo → Bool
unfolding time_adjusted
ranks_before p q =
    if ltb q.points p.points
    then true
    else if ltb p.points q.points
    then false
    else if ltb q.opponent_points p.opponent_points
    then true
    else if ltb p.opponent_points q.opponent_points
    then false
    else if ltb (time_adjusted p) (time_adjusted q)
    then true
    else if ltb (time_adjusted q) (time_adjusted p)
    then false
    else ltb p.id q.id

unfoldable pub insert_info : PlayerInfo → List PlayerInfo → List PlayerInfo
unfolding ranks_before
insert_info p [] = p ∷ []
insert_info p (q ∷ qs) = if ranks_before q p then q ∷ insert_info p qs else p ∷ q ∷ qs

-- `sorted_by_cached_key`
unfoldable pub sort_infos : List PlayerInfo → List PlayerInfo
unfolding insert_info
sort_infos [] = []
sort_infos (p ∷ ps) = insert_info p (sort_infos ps)

-- the standings of the races that count
unfoldable pub rank_players : List StandingsRace → List PlayerInfo
unfolding add_races build score sort_infos
rank_players rs = let bs = add_races rs [] in sort_infos (map (build (score bs)) bs)

module _ (json : BracketJson) (crates : PairingCrates) where
  -- The loop over the rounds. A swiss bracket stops at the first round that is not complete.
  unfoldable pub races_that_count :
      Bool → List BracketRound → Method Connection BracketError (List StandingsRace)
  unfolding races
  races_that_count is_rr [] = pure []
  races_that_count is_rr (r ∷ rs) = do
    here ← races r
    if not is_rr && not (all (is_complete json.race_json) here)
        then pure []
        else (do later ← races_that_count is_rr rs; pure (counted json.race_json here ++ later))

  abbrev is_round_robin : BracketType → Bool
  is_round_robin swiss = false
  is_round_robin round_robin = true

  abbrev refuse_unstarted : BracketState → Method Connection BracketError Unit
  refuse_unstarted unstarted = throw invalid_state
  refuse_unstarted _ = pure tt

  unfoldable pub standings : Bracket → Method Connection BracketError (List PlayerInfo)
  unfolding state bracket_type rounds races_that_count rank_players
  standings b = do
    now ← lift (state json crates b)
    refuse_unstarted now
    rs ← rounds b
    kind ← lift (bracket_type json crates b)
    counting ← races_that_count (is_round_robin kind) rs
    pure (rank_players counting)
