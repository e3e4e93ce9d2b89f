-- ===== src/Examples/Values.antt =====
-- Concrete values of what the models take as parameters, and a small league.
use nmg_league_bot.Base.{
  ◌∙◌, ℕ, zero, suc, ◌≡◌, refl, ap, String, Option, none, some, List, [], ◌∷◌,
}
use nmg_league_bot.Serde.{Codec, IsFaithful}
use nmg_league_bot.Race.{
  BracketRaceState, PlayerResult, Outcome, RaceJson, forfeit, finish_time, tie, p1_win, p2_win,
}
use nmg_league_bot.Race.Refinement.{RaceFaithful}
use nmg_league_bot.Tables.{Tables, Connection, Player, PlayerBracketEntry, Bracket, Season}
use nmg_league_bot.Bracket.{BracketState, BracketType, BracketJson, PairingCrates}
use nmg_league_bot.Season.{SeasonState, SeasonJson}

-- a number as a text of so many strokes
abbrev strokes : ℕ → String
strokes zero = ""
strokes (suc n) = String.◌∷◌ "|" (strokes n)

abbrev count_strokes : String → ℕ
count_strokes String.[] = 0
count_strokes (String.◌∷◌ c s) = suc (count_strokes s)

count-strokes : (n : ℕ) → count_strokes (strokes n) ≡ n
count-strokes zero = refl
count-strokes (suc n) = ap suc (count-strokes n)

-- A codec from a numbering.
abbrev numbered : {A : Type 0} → (A → ℕ) → (ℕ → Option A) → Codec A
numbered number value = record {
  to_string = λ x. some (strokes (number x));
  from_str = λ s. value (count_strokes s);
}

abbrev numbered-IsFaithful :
    {A : Type 0} (number : A → ℕ) (value : ℕ → Option A)
    → ((x : A) → value (number x) ≡ some x)
    → IsFaithful (numbered number value)
numbered-IsFaithful number value h = record {
  text = λ x. strokes (number x);
  to_string_text = λ x. refl;
  from_str_text = λ x. ap value (count-strokes (number x)) ∙ h x;
}

abbrev nth : {A : Type 0} → List A → ℕ → Option A
nth [] n = none
nth (x ∷ xs) zero = some x
nth (x ∷ xs) (suc n) = nth xs n

abbrev race_state_number : BracketRaceState → ℕ
race_state_number BracketRaceState.new = 0
race_state_number BracketRaceState.scheduled = 1
race_state_number BracketRaceState.finished = 2

abbrev race_state_of : ℕ → Option BracketRaceState
race_state_of =
    nth (BracketRaceState.new ∷ BracketRaceState.scheduled ∷ BracketRaceState.finished ∷ [])

abbrev result_number : PlayerResult → ℕ
result_number forfeit = 0
result_number (finish_time t) = suc t

abbrev result_of : ℕ → Option PlayerResult
result_of zero = some forfeit
result_of (suc t) = some (finish_time t)

abbrev outcome_number : Outcome → ℕ
outcome_number tie = 0
outcome_number p1_win = 1
outcome_number p2_win = 2

abbrev outcome_value : ℕ → Option Outcome
outcome_value = nth (tie ∷ p1_win ∷ p2_win ∷ [])

abbrev pub race_json : RaceJson
race_json = record {
  state_json = numbered race_state_number race_state_of;
  result_json = numbered result_number result_of;
  outcome_json = numbered outcome_number outcome_value;
}

race_state_back : (x : BracketRaceState) → race_state_of (race_state_number x) ≡ some x
race_state_back BracketRaceState.new = refl
race_state_back BracketRaceState.scheduled = refl
race_state_back BracketRaceState.finished = refl

result_back : (x : PlayerResult) → result_of (result_number x) ≡ some x
result_back forfeit = refl
result_back (finish_time t) = refl

outcome_back : (x : Outcome) → outcome_value (outcome_number x) ≡ some x
outcome_back tie = refl
outcome_back p1_win = refl
outcome_back p2_win = refl

pub race_json-RaceFaithful : RaceFaithful race_json
race_json-RaceFaithful = record {
  state_ok = numbered-IsFaithful race_state_number race_state_of race_state_back;
  result_ok = numbered-IsFaithful result_number result_of result_back;
  outcome_ok = numbered-IsFaithful outcome_number outcome_value outcome_back;
}

abbrev bracket_state_number : BracketState → ℕ
bracket_state_number BracketState.unstarted = 0
bracket_state_number BracketState.started = 1
bracket_state_number BracketState.finished = 2

abbrev bracket_state_of : ℕ → Option BracketState
bracket_state_of = nth (BracketState.unstarted ∷ BracketState.started ∷ BracketState.finished ∷ [])

abbrev bracket_type_number : BracketType → ℕ
bracket_type_number BracketType.swiss = 0
bracket_type_number BracketType.round_robin = 1

abbrev bracket_type_of : ℕ → Option BracketType
bracket_type_of = nth (BracketType.swiss ∷ BracketType.round_robin ∷ [])

abbrev pub bracket_json : BracketJson
bracket_json = record {
  race_json = race_json;
  state_json = numbered bracket_state_number bracket_state_of;
  type_json = numbered bracket_type_number bracket_type_of;
}

bracket_state_back : (x : BracketState) → bracket_state_of (bracket_state_number x) ≡ some x
bracket_state_back BracketState.unstarted = refl
bracket_state_back BracketState.started = refl
bracket_state_back BracketState.finished = refl

pub bracket_json-IsFaithful : IsFaithful bracket_json.state_json
bracket_json-IsFaithful =
    numbered-IsFaithful bracket_state_number bracket_state_of bracket_state_back

abbrev season_state_number : SeasonState → ℕ
season_state_number SeasonState.created = 0
season_state_number SeasonState.qualifiers_open = 1
season_state_number SeasonState.qualifiers_closed = 2
season_state_number SeasonState.started = 3
season_state_number SeasonState.finished = 4

abbrev season_state_of : ℕ → Option SeasonState
season_state_of = nth (
    SeasonState.created ∷ SeasonState.qualifiers_open ∷ SeasonState.qualifiers_closed
    ∷ SeasonState.started ∷ SeasonState.finished ∷ [])

season_state_back : (x : SeasonState) → season_state_of (season_state_number x) ≡ some x
season_state_back SeasonState.created = refl
season_state_back SeasonState.qualifiers_open = refl
season_state_back SeasonState.qualifiers_closed = refl
season_state_back SeasonState.started = refl
season_state_back SeasonState.finished = refl

abbrev pub season_json : SeasonJson
season_json = record {
  season_json = numbered season_state_number season_state_of;
  bracket_json = bracket_json;
}

pub season_json-IsFaithful : IsFaithful season_json.season_json
season_json-IsFaithful = numbered-IsFaithful season_state_number season_state_of season_state_back

-- no shuffling, and pairings that are not computed
abbrev pub crates : PairingCrates
crates = record { shuffle = λ ps. ps; swiss_pairings = λ results. none }

abbrev pub player : ℕ → String → Player
player i name = record {
  id = i;
  name = name;
  discord_id = name;
  racetime_username = none;
  twitch_user_login = none;
  racetime_user_id = none;
}

abbrev entry : ℕ → ℕ → ℕ → PlayerBracketEntry
entry i b p = record { id = i; bracket_id = b; player_id = p }

abbrev pub bracket_of : ℕ → String → BracketType → Bracket
bracket_of i name kind = record {
  id = i;
  name = name;
  season_id = 1;
  state = strokes (bracket_state_number BracketState.unstarted);
  bracket_type = strokes (bracket_type_number kind);
  backfill_note = none;
}

abbrev pub season_in : SeasonState → Season
season_in st = record {
  id = 1;
  started = 100;
  finished = none;
  format = "open";
  ordinal = 1;
  state = strokes (season_state_number st);
  rtgg_category_name = "alttp";
  rtgg_goal_name = "nmg";
}

-- three players in a round robin, two in an even swiss bracket, one in an odd one
abbrev pub league : Tables
league = record {
  players = player 3 "c" ∷ player 1 "a" ∷ player 2 "b" ∷ [];
  entries = entry 1 1 3 ∷ entry 2 1 1 ∷ entry 3 1 2 ∷ entry 4 2 2 ∷ entry 5 2 1 ∷ entry 6 3 3 ∷ [];
  seasons = season_in SeasonState.started ∷ [];
  brackets =
      bracket_of 1 "R" BracketType.round_robin
      ∷ bracket_of 2 "S" BracketType.swiss
      ∷ bracket_of 3 "T" BracketType.swiss
      ∷ [];
  rounds = [];
  races = [];
  infos = [];
  signups = [];
  async_races = [];
  runs = [];
  qualifiers = [];
  criteria = [];
}

abbrev pub connected : Tables → Connection
connected t = record { tables = t; refused = [] }
