-- ===== src/Async/Store.antt =====
-- The queries of src/models/asyncs.rs. Random and time values of new rows are inputs.
use nmg_league_bot.Base.{
  ℕ, String, Option, none, some, Bool, false, List, [], ◌∷◌, ◌++◌, Result, ok, err, Method, filter,
  ◌==◌, str_eq, if◌then◌else◌,
}
use nmg_league_bot.Base.Methods.{pure, throw, ◌>>=◌, ◌>>◌}
use nmg_league_bot.Times.{Text}
use nmg_league_bot.Runs.{AsyncRace, AsyncRaceRun, RaceState, RaceRunState}
use nmg_league_bot.Tables.{
  Connection, select, write, insert, transaction, next_id, first_where, changed,
}

-- what can go wrong; the texts that tell the user are not kept
pub data AsyncError : Type 0 where
  database : AsyncError
  same_racers : AsyncError
  not_two_runs : AsyncError
  no_run : AsyncError
  no_race : AsyncError
  not_contacted : AsyncError
  panicked : AsyncError
  wrong_state : RaceState → AsyncError

-- `NewAsyncRace::new`, as the row with its id
unfoldable pub new_race : String → ℕ → Option String → ℕ → AsyncRace
new_race uuid now message i = record {
  id = i;
  uuid = uuid;
  created = now;
  state = RaceState.created;
  on_start_message = message;
}

-- what `NewAsyncRaceRun::new` draws and reads from the clock
pub record Fresh : Type 0 where
  pub uuid : String
  pub filenames : Text
  pub now : ℕ

-- `NewAsyncRaceRun::new`, as the row with its id
unfoldable pub new_run : Fresh → AsyncRace → String → ℕ → AsyncRaceRun
new_run fresh race racer i = record {
  id = i;
  uuid = fresh.uuid;
  race_id = race.id;
  racer_id = racer;
  filenames = fresh.filenames;
  created = fresh.now;
  state = RaceRunState.created;
  run_started = none;
  run_finished = none;
  reported_run_time = none;
  reported_at = none;
  message_id = none;
  vod = none;
}

-- the changesets `UpdateRace` and `UpdateAsyncRaceRun`, which skip a column that is `None`
unfoldable pub update_async_race : AsyncRace → List AsyncRace → List AsyncRace
update_async_race r [] = []
update_async_race r (x ∷ xs) =
    (if x.id == r.id
      then record r { on_start_message = changed r.on_start_message x.on_start_message }
      else x)
    ∷ update_async_race r xs

abbrev changed_run : AsyncRaceRun → AsyncRaceRun → AsyncRaceRun
changed_run r x = record r {
  run_started = changed r.run_started x.run_started;
  run_finished = changed r.run_finished x.run_finished;
  reported_run_time = changed r.reported_run_time x.reported_run_time;
  reported_at = changed r.reported_at x.reported_at;
  message_id = changed r.message_id x.message_id;
  vod = changed r.vod x.vod;
}

unfoldable pub update_run : AsyncRaceRun → List AsyncRaceRun → List AsyncRaceRun
update_run r [] = []
update_run r (x ∷ xs) = (if x.id == r.id then changed_run r x else x) ∷ update_run r xs

unfoldable pub get_by_id : ℕ → Method Connection AsyncError AsyncRace
unfolding select
get_by_id i = do
  found ← select database (λ t. first_where (λ r. r.id == i) t.async_races)
  elim found [ none ↦ throw no_race | some r ↦ pure r ]

unfoldable pub save_new_race : String → ℕ → Option String → Method Connection AsyncError AsyncRace
unfolding insert new_race
save_new_race uuid now message =
    insert database (λ t. new_race uuid now message (next_id (λ r. r.id) t.async_races))
      (λ r t. record t { async_races = t.async_races ++ r ∷ [] })

unfoldable pub save_race : AsyncRace → Method Connection AsyncError Unit
unfolding write
save_race r = write database (λ t. record t { async_races = update_async_race r t.async_races })

unfoldable pub save_run : AsyncRaceRun → Method Connection AsyncError Unit
unfolding write
save_run r = write database (λ t. record t { runs = update_run r t.runs })

unfoldable pub add_run : AsyncRace → String → Fresh → Method Connection AsyncError AsyncRaceRun
unfolding insert new_run
add_run race racer fresh =
    insert database (λ t. new_run fresh race racer (next_id (λ r. r.id) t.runs))
      (λ r t. record t { runs = t.runs ++ r ∷ [] })

unfoldable pub select_racers :
    AsyncRace
    → String
    → String
    → Fresh
    → Fresh
    → Method Connection AsyncError (AsyncRaceRun × AsyncRaceRun)
unfolding add_run
select_racers race p1 p2 fresh1 fresh2 =
    if str_eq p1 p2
    then throw same_racers
    else do r1 ← add_run race p1 fresh1; r2 ← add_run race p2 fresh2; pure (r1, r2)

-- UPDATE … SET state = 'CANCELLED_BY_ADMIN'
unfoldable pub cancel_races : ℕ → List AsyncRace → List AsyncRace
cancel_races i [] = []
cancel_races i (x ∷ xs) =
    (if x.id == i then record x { state = RaceState.cancelled_by_admin } else x) ∷ cancel_races i xs

unfoldable pub cancel_runs : ℕ → List AsyncRaceRun → List AsyncRaceRun
cancel_runs i [] = []
cancel_runs i (x ∷ xs) =
    (if x.race_id == i then record x { state = RaceRunState.cancelled_by_admin } else x)
    ∷ cancel_runs i xs

unfoldable pub cancel : AsyncRace → Method Connection AsyncError Unit
unfolding transaction write
cancel race = transaction database (do
  write database (λ t. record t { async_races = cancel_races race.id t.async_races })
  write database (λ t. record t { runs = cancel_runs race.id t.runs }))

-- `pop` takes the last row first
abbrev pub exactly_two : List AsyncRaceRun → Result AsyncError (AsyncRaceRun × AsyncRaceRun)
exactly_two (a ∷ b ∷ []) = ok (b, a)
exactly_two _ = err not_two_runs

unfoldable pub get_runs : AsyncRace → Method Connection AsyncError (AsyncRaceRun × AsyncRaceRun)
unfolding select
get_runs race = do
  rows ← select database (λ t. filter (λ r. r.race_id == race.id) t.runs)
  λ c. (exactly_two rows, c)

abbrev pub has_message : String → AsyncRaceRun → Bool
has_message mid run = elim run.message_id [ none ↦ false | some m ↦ str_eq m mid ]

-- `Vec::pop`
abbrev pub last_of : {A : Type 0} → List A → Option A
last_of [] = none
last_of (x ∷ xs) = elim (last_of xs) [ none ↦ some x | some y ↦ some y ]

unfoldable pub search_by_message_id : String → Method Connection AsyncError (Option AsyncRaceRun)
unfolding select
search_by_message_id mid = do
  rows ← select database (λ t. filter (has_message mid) t.runs)
  pure (last_of rows)

unfoldable pub get_by_message_id : String → Method Connection AsyncError AsyncRaceRun
unfolding search_by_message_id
get_by_message_id mid = do
  found ← search_by_message_id mid
  elim found [ none ↦ throw no_run | some run ↦ pure run ]
