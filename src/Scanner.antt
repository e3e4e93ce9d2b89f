-- ===== src/Scanner.antt =====
-- src/worker_funcs.rs, `Entrant::result` of src/racetime_types.rs, and `maybe_do_race_stuff` of
-- src/workers/racetime_scanner_worker.rs: which rooms of racetime.gg are races of the league, and what
-- is stored of them. What the iso8601_duration and chrono crates make of a text, and the order in which
-- a `HashMap` gives its keys, are parameters. Messages to Discord change no table.
pub mod Matching
pub mod Storing
use nmg_league_bot.Base.{
  ℕ, ◌+◌, ◌-◌, ◌*◌, ◌/◌, ◌^◌, String, Option, none, some, Bool, true, false, not, ◌&&◌, ◌||◌, List,
  [], ◌∷◌, Result, ok, err, Method, map, leb, ltb, ◌==◌, str_eq, if◌then◌else◌,
}
use nmg_league_bot.Base.Methods.{pure, throw, lift, ◌>>=◌, ◌>>◌}
use nmg_league_bot.Base.Texts.{to_lowercase}
use nmg_league_bot.Base.Maps.{get, remove, insert}
use nmg_league_bot.Race.{
  BracketRace, PlayerResult, forfeit, finish_time, RaceJson, BracketRaceStateError, database_error,
  add_results,
}
use nmg_league_bot.Tables.{Player, BracketRaceInfo, Season, Connection, write, update_race}
use nmg_league_bot.RaceInfo.{update_info}

-- `Entrant`, with its user's name and the value of its status
pub record Entrant : Type 0 where
  pub full_name : String
  pub status : String
  pub finish_time : Option String

-- `RacetimeRace`, as far as it is read
pub record RacetimeRace : Type 0 where
  pub status : String
  pub url : String
  pub entrants : List Entrant
  pub started_at : String
  pub goal_name : String

pub data PlayerResultError : Type 0 where
  no_finish_time parse_error cant_convert_to_seconds : PlayerResultError

-- Names beyond ASCII, which racetime.gg allows, are not put in lower case here.
-- What other crates make of texts.
pub record Crates : Type 0 where
  -- `iso8601_duration::Duration::parse`, and `num_seconds` of what it gives, which is a float: its whole
  -- part, and 0 for a negative one
  pub parse_duration : String → Option (Option ℕ)
  -- `DateTime::parse_from_rfc3339`, in nanoseconds
  pub parse_date : String → Option ℕ
  -- the order of the keys of a `HashMap`
  pub order : List String → List String

-- `as u32` of a float stays within the type
abbrev pub as_u32 : ℕ → ℕ
as_u32 secs = if leb (2 ^ 32) secs then 2 ^ 32 - 1 else secs

module _ (crates : Crates) where
  abbrev read_duration : Option (Option ℕ) → Result PlayerResultError PlayerResult
  read_duration none = err parse_error
  read_duration (some none) = err cant_convert_to_seconds
  read_duration (some (some secs)) = ok (finish_time (as_u32 secs))

  abbrev finish_of : Option String → Result PlayerResultError PlayerResult
  finish_of none = err no_finish_time
  finish_of (some text) = read_duration (crates.parse_duration text)

  -- `Entrant::result`
  unfoldable pub result : Entrant → Result PlayerResultError PlayerResult
  result e =
      if str_eq e.status "dnf" || str_eq e.status "dq"
      then ok forfeit
      else if str_eq e.status "done"
      then finish_of e.finish_time
      else err no_finish_time

-- a race that is looked for, with its players
pub record Candidate : Type 0 where
  pub info : BracketRaceInfo
  pub race : BracketRace
  pub player_1 : Player
  pub player_2 : Player

-- the map from ids to players: of two players with one id the later one is in it
unfoldable pub lookup_player : ℕ → List Player → Option Player
lookup_player i [] = none
lookup_player i (p ∷ ps) = elim (lookup_player i ps) [
  | none ↦ if p.id == i then some p else none
  | some q ↦ some q
]

abbrev pub add_candidate :
    BracketRaceInfo
    → BracketRace
    → Option Player
    → Option Player
    → List (String × Candidate)
    → List (String × Candidate)
add_candidate info race (some p1) (some p2) m = elim p1.racetime_username [
  | none ↦ m
  | some name ↦ elim p2.racetime_username [
    | none ↦ m
    | some _ ↦
        insert (to_lowercase name)
          (record { info = info; race = race; player_1 = p1; player_2 = p2 }) m
  ]
]
add_candidate info race _ _ m = m

unfoldable pub add_candidates :
    List Player
    → List (BracketRaceInfo × BracketRace)
    → List (String × Candidate)
    → List (String × Candidate)
unfolding lookup_player
add_candidates players [] m = m
add_candidates players ((info, race) ∷ rest) m = add_candidates players rest (
    add_candidate info race (lookup_player race.player_1_id players)
      (lookup_player race.player_2_id players) m)

unfoldable pub races_by_player_rtgg :
    List Player → List (BracketRaceInfo × BracketRace) → List (String × Candidate)
unfolding add_candidates
races_by_player_rtgg players races = add_candidates players races []

-- the map from names to entrants
unfoldable pub by_name : List Entrant → List (String × Entrant) → List (String × Entrant)
by_name [] m = m
by_name (e ∷ es) m = by_name es (insert (to_lowercase e.full_name) e m)

-- more than 180 whole minutes before the scheduled time; a start after it gives 0 here and a negative
-- number in the source
abbrev pub is_old : ℕ → ℕ → Bool
is_old scheduled started = ltb 180 ((scheduled * 10 ^ 9 - started) / (60 * 10 ^ 9))

abbrev pub Match : Type 0
Match = Candidate × Entrant × Entrant

abbrev pub Entrants : Type 0
Entrants = List (String × Entrant)

abbrev pub both : Candidate → Option Entrant → Option Entrant → Option Match → Option Match
both c (some e1) (some e2) later = some (c, e1, e2)
both c _ _ later = later

-- The players of a candidate are taken out of the entrants; if one is missing the search goes on.
abbrev pub take_players :
    Candidate → Option String → Option String → Entrants → (Entrants → Option Match) → Option Match
take_players c (some u1) (some u2) es next =
    let es1 = remove (to_lowercase u1) es in
    both c (get (to_lowercase u1) es) (get (to_lowercase u2) es1)
      (next (remove (to_lowercase u2) es1))
take_players c _ _ es next = next es

abbrev pub check_time :
    ℕ → Candidate → Option ℕ → Entrants → (Entrants → Option Match) → Option Match
check_time started c none es next = next es
check_time started c (some scheduled) es next =
    if is_old scheduled started
    then next es
    else take_players c c.player_1.racetime_username c.player_2.racetime_username es next

abbrev pub examine : ℕ → Option Candidate → Entrants → (Entrants → Option Match) → Option Match
examine started none es next = next es
examine started (some c) es next = check_time started c c.info.scheduled_for es next

-- the loop over the names of the entrants
unfoldable pub look : List (String × Candidate) → ℕ → List String → Entrants → Option Match
look candidates started [] es = none
look candidates started (id ∷ ids) es =
    examine started (get id candidates) es (look candidates started ids)

unfoldable pub interesting_race :
    Crates → List (String × Candidate) → Season → RacetimeRace → Option Match
unfolding look by_name
interesting_race crates candidates season race =
    if not (str_eq race.goal_name season.rtgg_goal_name) || not (str_eq race.status "finished")
    then none
    else elim (crates.parse_date race.started_at) [
      | none ↦ none
      | some started ↦
          let es = by_name race.entrants [] in
          look candidates started (crates.order (map (λ p. p.0) es)) es
    ]
