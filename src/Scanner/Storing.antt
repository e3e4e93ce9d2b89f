-- ===== src/Scanner/Storing.antt =====
-- What is stored of a room: `trigger_race_finish` of src/worker_funcs.rs and `maybe_do_race_stuff` of
-- src/workers/racetime_scanner_worker.rs.
use nmg_league_bot.Base.{
  subst, ◌≡◌, refl, String, Option, none, some, Bool, false, List, ok, err, Method, arith, ◌⊎◌, inl,
  inr,
}
use nmg_league_bot.Base.Methods.{reported, pure, lift, ◌>>=◌, ◌>>◌}
use nmg_league_bot.Race.{
  BracketRace, BracketRaceState, PlayerResult, RaceJson, BracketRaceStateError, database_error,
  invalid_state, add_results,
}
use nmg_league_bot.Tables.{BracketRaceInfo, Season, Connection, write, update_race}
use nmg_league_bot.RaceInfo.{update_info}
use nmg_league_bot.Scanner.{
  Candidate, Entrant, RacetimeRace, Crates, Match, PlayerResultError, result, interesting_race,
}

-- `trigger_race_finish`: the results that are given are stored, and an error of `add_results` stores
-- nothing; what follows posts and deletes messages
unfoldable pub trigger_race_finish :
    RaceJson
    → BracketRace
    → PlayerResult
    → PlayerResult
    → Bool
    → Method Connection BracketRaceStateError Unit
unfolding write
trigger_race_finish json race r1 r2 force = do
  lift (add_results json (some r1) (some r2) force race).0
  write database_error (λ t. record t {
    races = update_race (add_results json (some r1) (some r2) force race).1 t.races;
  })

-- the info with the url of its room, and the results; errors of the database are only reported
abbrev pub store_results :
    RaceJson
    → BracketRaceInfo
    → BracketRace
    → PlayerResult
    → PlayerResult
    → Method Connection PlayerResultError Unit
store_results json info race r1 r2 c =
    (ok tt, reported (trigger_race_finish json race r1 r2 false) (reported (update_info tt info) c))

abbrev pub store_match :
    Crates
    → RaceJson
    → (String → String)
    → RacetimeRace
    → Option Match
    → Method Connection PlayerResultError Unit
store_match crates json room_url room none = pure tt
store_match crates json room_url room (some (c, e1, e2)) = do
  r1 ← lift (result crates e1)
  r2 ← lift (result crates e2)
  store_results json (record c.info { racetime_gg_url = some (room_url room.url) }) c.race r1 r2

-- `maybe_do_race_stuff`; `room_url` puts the base url before the room's
unfoldable pub maybe_do_race_stuff :
    Crates
    → RaceJson
    → (String → String)
    → List (String × Candidate)
    → Season
    → RacetimeRace
    → Method Connection PlayerResultError Unit
unfolding trigger_race_finish update_info interesting_race
maybe_do_race_stuff crates json room_url candidates season room =
    store_match crates json room_url room (interesting_race crates candidates season room)

module _ (crates : Crates) (json : RaceJson) where
  -- the races after a room: as before, or with the results of both entrants in the candidate's race
  abbrev pub Stored : Connection → Connection → Option Match → Type 0
  Stored c d none = d.tables ≡ c.tables
  Stored c d (some (found, e1, e2)) =
      (d.tables.races ≡ c.tables.races)
      ⊎ ((r1 r2 : PlayerResult) × (result crates e1 ≡ ok r1)
          × (result crates e2 ≡ ok r2)
          × ((add_results json (some r1) (some r2) false found.race).0 ≡ ok tt)
          × (d.tables.races
              ≡ update_race (add_results json (some r1) (some r2) false found.race).1
                  c.tables.races))

  store_results_lem :
      (info : BracketRaceInfo) (found : Candidate) (e1 e2 : Entrant) (r1 r2 : PlayerResult)
      (c : Connection)
      → result crates e1 ≡ ok r1
      → result crates e2 ≡ ok r2
      → Stored c (store_results json info found.race r1 r2 c).1 (some (found, e1, e2))
  unfolding trigger_race_finish update_info
  store_results_lem info found e1 e2 r1 r2 c h k = ground arith

  store_match_lem :
      (room_url : String → String) (room : RacetimeRace) (found : Option Match) (c : Connection)
      → Stored c (store_match crates json room_url room found c).1 found
  store_match_lem room_url room none c = refl
  store_match_lem room_url room (some (found, e1, e2)) c = grind (arith, store_results_lem)

  -- However the database answers: a room that is no race of the league changes nothing; for one that
  -- is, the races stay as they are, or the candidate's race gets the results of its two entrants, and
  -- then `add_results` without force has taken them.
  pub maybe_do_race_stuff_lem :
      (room_url : String → String) (candidates : List (String × Candidate)) (season : Season)
      (room : RacetimeRace) (c : Connection)
      → Stored c
          (maybe_do_race_stuff crates json room_url candidates season room c).1
          (interesting_race crates candidates season room)
  unfolding maybe_do_race_stuff
  maybe_do_race_stuff_lem room_url candidates season room c =
      store_match_lem room_url room (interesting_race crates candidates season room) c

  finished_refuses :
      (race : BracketRace) (r1 r2 : PlayerResult)
      → json.state_json.from_str race.state ≡ some BracketRaceState.finished
      → (add_results json (some r1) (some r2) false race).0
        ≡ err (invalid_state BracketRaceState.finished)
  unfolding add_results
  finished_refuses race r1 r2 k = ground arith

  -- A room that is found to be for a race that is finished already changes no race.
  pub finished_race_stays :
      (room_url : String → String) (candidates : List (String × Candidate)) (season : Season)
      (room : RacetimeRace) (c : Connection) {found : Candidate} {e1 e2 : Entrant}
      → interesting_race crates candidates season room ≡ some (found, e1, e2)
      → json.state_json.from_str found.race.state ≡ some BracketRaceState.finished
      → (maybe_do_race_stuff crates json room_url candidates season room c).1.tables.races
        ≡ c.tables.races
  finished_race_stays room_url candidates season room c {found} {e1} {e2} h k =
      elim (subst (Stored c (maybe_do_race_stuff crates json room_url candidates season room c).1) h
        (maybe_do_race_stuff_lem room_url candidates season room c)) [
          | inl same ↦ same
          | inr (r1, r2, h1, h2, taken, stored) ↦ cc (taken, finished_refuses found.race r1 r2 k)
        ]
