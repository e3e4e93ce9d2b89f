-- ===== src/Async/Consistency.antt =====
-- When the row of a run holds what its state says that it does, and that the statements of
-- src/models/asyncs.rs keep it so.
use nmg_league_bot.Base.Methods.{continue, ◌>>=◌}
use nmg_league_bot.Base.{
  is_some, if◌then◌else◌, Method, ℕ, ◌≡◌, refl, String, Option, some, none, Bool, true, false, ◌&&◌,
  List, [], ◌∷◌, ◌++◌, all, arith, Result, ok, err,
}
use nmg_league_bot.Runs.{AsyncRace, AsyncRaceRun, RaceRunState}
use nmg_league_bot.Tables.{Tables, select, next_id, Connection}
use nmg_league_bot.Async.Store.{
  database, save_new_race, new_run, AsyncError, save_race, Fresh, update_run, cancel_runs, save_run,
  cancel, add_run,
}

-- the columns that a state promises
abbrev pub is_consistent : AsyncRaceRun → Bool
is_consistent run = elim run.state [
  | RaceRunState.started ↦ is_some run.run_started
  | RaceRunState.finished ↦ is_some run.run_finished
  | RaceRunState.time_submitted ↦ is_some run.reported_run_time && is_some run.reported_at
  | RaceRunState.vod_submitted ↦ is_some run.vod
  | _ ↦ true
]

abbrev pub Consistent : Connection → Type 0
Consistent c = all is_consistent c.tables.runs ≡ true

update_run-consistent :
    (r : AsyncRaceRun) (xs : List AsyncRaceRun)
    → is_consistent r ≡ true
    → all is_consistent xs ≡ true
    → all is_consistent (update_run r xs) ≡ true
unfolding update_run
update_run-consistent r [] h k = refl
update_run-consistent r (x ∷ xs) h k = ground (arith, update_run-consistent r xs)

cancel_runs-consistent :
    (i : ℕ) (xs : List AsyncRaceRun)
    → all is_consistent xs ≡ true
    → all is_consistent (cancel_runs i xs) ≡ true
unfolding cancel_runs
cancel_runs-consistent i [] k = refl
cancel_runs-consistent i (x ∷ xs) k = ground (arith, cancel_runs-consistent i xs)

all-snoc :
    (x : AsyncRaceRun) (xs : List AsyncRaceRun)
    → all is_consistent xs ≡ true
    → is_consistent x ≡ true
    → all is_consistent (xs ++ x ∷ []) ≡ true
all-snoc x [] h k = ground arith
all-snoc x (y ∷ xs) h k = ground (arith, all-snoc x xs)

-- a method that keeps the runs consistent, whether it succeeds or fails
abbrev pub Keeps : {A : Type 0} → Method Connection AsyncError A → Type 0
Keeps m = (c : Connection) → Consistent c → Consistent (m c).1

pub bind-Keeps :
    {A B : Type 0} (m : Method Connection AsyncError A) (f : A → Method Connection AsyncError B)
    → Keeps m
    → ((a : A) → Keeps (f a))
    → Keeps (m >>= f)
bind-Keeps {A} m f km kf c h = go (m c).0 (m c).1 (km c h)
  where
    go : (r : Result AsyncError A) (d : Connection) → Consistent d → Consistent (continue r f d).1
    go (ok a) d k = kf a d k
    go (err e) d k = k

pub select-Keeps : {A : Type 0} (f : Tables → A) → Keeps (select database f)
unfolding select
select-Keeps f c h = ground arith

-- what is done with a row that a query may find
pub found-Keeps :
    {A B : Type 0} (m : Method Connection AsyncError B) (f : A → Method Connection AsyncError B)
    → Keeps m
    → ((a : A) → Keeps (f a))
    → (found : Option A) → Keeps (elim found [ none ↦ m | some a ↦ f a ])
found-Keeps m f km kf none = km
found-Keeps m f km kf (some a) = kf a

pub if-Keeps :
    {A : Type 0} (b : Bool) (m n : Method Connection AsyncError A)
    → Keeps m
    → Keeps n
    → Keeps (if b then m else n)
if-Keeps true m n km kn = km
if-Keeps false m n km kn = kn

pub save_run-Keeps : (r : AsyncRaceRun) → is_consistent r ≡ true → Keeps (save_run r)
unfolding save_run
save_run-Keeps r h c k = ground (arith, update_run-consistent r c.tables.runs)

pub save_race-Keeps : (race : AsyncRace) → Keeps (save_race race)
unfolding save_race
save_race-Keeps race c k = ground arith

pub cancel-Keeps : (race : AsyncRace) → Keeps (cancel race)
unfolding cancel
cancel-Keeps race c k = ground (arith, cancel_runs-consistent race.id c.tables.runs)

pub save_new_race-Keeps :
    (uuid : String) (now : ℕ) (message : Option String) → Keeps (save_new_race uuid now message)
unfolding save_new_race
save_new_race-Keeps uuid now message c k = ground arith

pub add_run-Keeps :
    (race : AsyncRace) (racer : String) (fresh : Fresh) → Keeps (add_run race racer fresh)
unfolding add_run new_run
add_run-Keeps race racer fresh c k =
    ground
      (arith, all-snoc (new_run fresh race racer (next_id (λ r. r.id) c.tables.runs)) c.tables.runs)
