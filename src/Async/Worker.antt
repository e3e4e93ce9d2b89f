-- ===== src/Async/Worker.antt =====
-- The sweeps of src/workers/async_race_worker.rs and src/workers/forfeit_own_races.rs. A panic ends the
-- sweep where it happens, and the worker's task with it.
use nmg_league_bot.Base.{
  ℕ, ◌^◌, ltb, ◌∷◌, String, Bool, true, false, ◌&&◌, ◌||◌, not, ◌==◌, List, [], Result, ok, err,
  Method, filter, str_eq, if◌then◌else◌,
}
use nmg_league_bot.Base.Methods.{reported, pure, throw, ◌>>=◌, ◌>>◌}
use nmg_league_bot.Times.{Text, value_from, is_digit}
use nmg_league_bot.Runs.{AsyncRace, AsyncRaceRun, RaceState, RaceRunState, is_created}
use nmg_league_bot.Runs.Steps
use nmg_league_bot.Tables.{Connection, select}
use nmg_league_bot.Async.Store.{AsyncError, database, panicked, save_race, save_run, get_runs}
use nmg_league_bot.Async.Handlers.{Contact, notify_racer, is_created_race}
use Prim.Native.Char.{code}

-- what becomes of a racer's id when it is read; `Id::new` panics on zero
pub data RacerId : Type 0 where
  readable unreadable zero_id : RacerId

unfoldable pub text_of : String → Text
text_of String.[] = []
text_of (String.◌∷◌ c s) = code c ∷ text_of s

unfoldable pub all_digits : Text → Bool
all_digits [] = true
all_digits (c ∷ cs) = is_digit c && all_digits cs

abbrev pub id_of : ℕ → RacerId
id_of n =
    if n == 0
    then RacerId.zero_id
    else if ltb n (2 ^ 64)
    then RacerId.readable
    else RacerId.unreadable

-- digits, one at least
unfoldable pub digits_id : Text → RacerId
unfolding all_digits value_from
digits_id [] = RacerId.unreadable
digits_id (c ∷ cs) =
    if all_digits (c ∷ cs) then id_of (value_from 0 (c ∷ cs)) else RacerId.unreadable

-- `parse::<u64>`, which takes a plus sign first, and `Id::new`
unfoldable pub parse_id : Text → RacerId
unfolding digits_id
parse_id [] = RacerId.unreadable
parse_id (c ∷ cs) = if c == b'+' then digits_id cs else digits_id (c ∷ cs)

-- `racer_id`, on the column
unfoldable pub racer_id : String → RacerId
unfolding text_of parse_id
racer_id t = parse_id (text_of t)

abbrev pub is_readable : RacerId → Bool
is_readable RacerId.readable = true
is_readable _ = false

abbrev pub is_zero : RacerId → Bool
is_zero RacerId.zero_id = true
is_zero _ = false

-- how messages to racers go, and whether the message about a finished race is valid as it is
pub record Discord : Type 0 where
  pub contact : AsyncRaceRun → Contact
  pub fits : AsyncRace → Bool

-- where `format_finisher` panics: on a zero, and on a forfeit in `unwrap`
abbrev pub format_finisher_panics : AsyncRaceRun → Bool
format_finisher_panics run = elim run.state [
  | RaceRunState.vod_submitted ↦ is_zero (racer_id run.racer_id)
  | RaceRunState.forfeit ↦ not (is_readable (racer_id run.racer_id))
  | _ ↦ false
]

-- a message that is not valid is made anew from the two racers, whose ids are unwrapped
abbrev pub finished_panics : Bool → AsyncRaceRun → AsyncRaceRun → Bool
finished_panics fits r1 r2 =
    format_finisher_panics r1
    || format_finisher_panics r2
    || (not fits && not (is_readable (racer_id r1.racer_id) && is_readable (racer_id r2.racer_id)))

-- `AsyncRace::abandon` and `AsyncRace::finish`
abbrev pub abandon : AsyncRace → AsyncRace
abandon race = record race { state = RaceState.abandoned }

abbrev pub finish_race : AsyncRace → AsyncRace
finish_race race = record race { state = RaceState.finished }

-- an error is logged
abbrev pub logged :
    {A : Type 0} → Method Connection AsyncError A → Method Connection AsyncError Unit
logged m c = (ok tt, reported m c)

abbrev pub handle_finished_race :
    Discord → AsyncRace → AsyncRaceRun → AsyncRaceRun → Method Connection AsyncError Unit
handle_finished_race d race r1 r2 =
    if finished_panics (d.fits race) r1 r2
    then throw panicked
    else logged (save_race (finish_race race))

abbrev pub notify_created : Contact → AsyncRaceRun → Method Connection AsyncError Unit
notify_created contact run =
    if is_created run.state
    then if is_zero (racer_id run.racer_id)
      then throw panicked
      else logged (notify_racer contact run)
    else pure tt

abbrev pub handle_runs :
    Discord
    → AsyncRace
    → Result AsyncError (AsyncRaceRun × AsyncRaceRun)
    → Method Connection AsyncError Unit
handle_runs d race (err e) = logged (save_race (abandon race))
handle_runs d race (ok (r1, r2)) =
    if Steps.is_finished r1 && Steps.is_finished r2
    then handle_finished_race d race r1 r2
    else (do notify_created (d.contact r1) r1; notify_created (d.contact r2) r2)

-- `handle_race`, which fails only in a panic
unfoldable pub handle_race : Discord → AsyncRace → Method Connection AsyncError Unit
unfolding get_runs
handle_race d race c = let (r, c1) = get_runs race c in handle_runs d race r c1

unfoldable pub handle_races : Discord → List AsyncRace → Method Connection AsyncError Unit
unfolding handle_race
handle_races d [] = pure tt
handle_races d (r ∷ rs) = do handle_race d r; handle_races d rs

-- `sweep` of src/workers/async_race_worker.rs
unfoldable pub sweep : Discord → Method Connection AsyncError Unit
unfolding select handle_races
sweep d = do
  active ← select database (λ t. filter (λ r. is_created_race r.state) t.async_races)
  handle_races d active

abbrev is_contacted : RaceRunState → Bool
is_contacted RaceRunState.contacted = true
is_contacted _ = false

unfoldable pub forfeit_all : List AsyncRaceRun → Connection → Connection
unfolding save_run
forfeit_all [] c = c
forfeit_all (r ∷ rs) c = forfeit_all rs (reported (save_run (Steps.forfeit r)) c)

-- `sweep` of src/workers/forfeit_own_races.rs, as the user that the bot is
unfoldable pub forfeit_own_races : String → Method Connection AsyncError Unit
unfolding select forfeit_all
forfeit_own_races user = do
  runs ← select database (λ t. filter (λ r. str_eq r.racer_id user && is_contacted r.state) t.runs)
  λ c. (ok tt, forfeit_all runs c)
