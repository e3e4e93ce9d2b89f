-- ===== src/Bracket/Rows.antt =====
-- The rows of the races that a new round gets.
use nmg_league_bot.Base.{
  ℕ, suc, ◌+◌, ◌≡◌, refl, ap, none, ◌&&◌, ◌||◌, ◌==◌, List, [], ◌∷◌, All, arith, length,
  if◌then◌else◌,
}
use nmg_league_bot.Race.{BracketRace, BracketRaceState, state_text}
use nmg_league_bot.Pairing.RoundRobin.{Pair}
use nmg_league_bot.Pairing.RoundRobin.Complete.{meetings}
use nmg_league_bot.Pairing.Swiss.Matching.{appearances}
use nmg_league_bot.Bracket.{
  Bracket, BracketRound, BracketJson, PairingCrates, number_races, new_bracket_race,
}

-- how many races are between the players with ids `a` and `b`
pub rows_between : ℕ → ℕ → List BracketRace → ℕ
rows_between a b [] = 0
rows_between a b (r ∷ rs) =
    (if (r.player_1_id == a && r.player_2_id == b) || (r.player_1_id == b && r.player_2_id == a)
      then 1
      else 0)
    + rows_between a b rs

-- how many places in races the player with id `i` has
pub places : ℕ → List BracketRace → ℕ
places i [] = 0
places i (r ∷ rs) =
    (if r.player_1_id == i then 1 else 0) + (if r.player_2_id == i then 1 else 0) + places i rs

module _ (json : BracketJson) where
  -- a race of the bracket and the round that has not been run
  pub record IsUnplayed (b : Bracket) (round : BracketRound) (r : BracketRace) : Type 0 where
    pub in_bracket : r.bracket_id ≡ b.id
    pub in_round : r.round_id ≡ round.id
    pub is_new : r.state ≡ state_text json.race_json BracketRaceState.new
    pub not_async : r.async_race_id ≡ none
    pub no_result_1 : r.player_1_result ≡ none
    pub no_result_2 : r.player_2_result ≡ none
    pub no_outcome : r.outcome ≡ none

-- ids that follow each other, from `i`
abbrev pub Numbered : ℕ → List BracketRace → Type 0
Numbered i [] = Unit
Numbered i (r ∷ rs) = (r.id ≡ i) × Numbered (suc i) rs

module _ (json : BracketJson) (crates : PairingCrates) (b : Bracket) (round : BracketRound) where
  abbrev rows : ℕ → List Pair → List BracketRace
  rows = number_races json crates b round

  pub rows-IsUnplayed : (i : ℕ) (xs : List Pair) → All (IsUnplayed json b round) (rows i xs)
  unfolding number_races new_bracket_race
  rows-IsUnplayed i [] = tt
  rows-IsUnplayed i (x ∷ xs) = (ground arith, rows-IsUnplayed (suc i) xs)

  pub rows-Numbered : (i : ℕ) (xs : List Pair) → Numbered i (rows i xs)
  unfolding number_races new_bracket_race
  rows-Numbered i [] = tt
  rows-Numbered i (x ∷ xs) = (refl, rows-Numbered (suc i) xs)

  pub length-rows : (i : ℕ) (xs : List Pair) → length (rows i xs) ≡ length xs
  unfolding number_races
  length-rows i [] = refl
  length-rows i (x ∷ xs) = ap suc (length-rows (suc i) xs)

  pub rows_between-rows :
      (a c i : ℕ) (xs : List Pair) → rows_between a c (rows i xs) ≡ meetings a c xs
  unfolding number_races new_bracket_race rows_between meetings
  rows_between-rows a c i [] = refl
  rows_between-rows a c i (x ∷ xs) = ground (arith, rows_between-rows a c (suc i) xs)

  pub places-rows : (j i : ℕ) (xs : List Pair) → places j (rows i xs) ≡ appearances j xs
  unfolding number_races new_bracket_race places appearances
  places-rows j i [] = refl
  places-rows j i (x ∷ xs) = ground (arith, places-rows j (suc i) xs)
