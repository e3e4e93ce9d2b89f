-- ===== src/Async/Actions.antt =====
-- Whatever is clicked, typed, commanded and swept, in whatever order, a run's row holds what its state
-- says that it does.
use nmg_league_bot.Base.{
  Method, filter, ◌&&◌, str_eq, arith, ℕ, ◌≡◌, refl, String, Option, Bool, true, List, [], ◌∷◌,
  Result, ok, err, ◌&&◌, str_eq,
}
use nmg_league_bot.Base.Methods.{reported, ◌>>=◌, pure}
use nmg_league_bot.Times.{Text}
use nmg_league_bot.Runs.{is_created, AsyncRace, AsyncRaceRun}
use nmg_league_bot.Runs.Steps
use nmg_league_bot.Tables.{select, Connection}
use nmg_league_bot.Async.Consistency.{
  save_new_race-Keeps, add_run-Keeps, save_race-Keeps, cancel-Keeps, select-Keeps, if-Keeps,
  save_run-Keeps, is_consistent, Keeps, bind-Keeps, Consistent,
}
use nmg_league_bot.Async.Store.{
  save_race, database, save_new_race, add_run, select_racers, get_runs, get_by_id,
  get_by_message_id, search_by_message_id, Fresh, AsyncError,
}
use nmg_league_bot.Async.Handlers.{
  add_racers, notify_both, is_created_race, Contact, handle_async_run_start,
  handle_run_forfeit_modal, handle_async_run_finish, handle_user_time_modal, handle_vod_modal,
  handle_create_race, handle_cancel_race, actually_cancel_race, Decision,
  handle_cancel_race_started, update_race_run, notify_racer, cancel_or_ask, cancel_found,
}
use nmg_league_bot.Async.Worker.{
  Discord, finish_race, abandon, logged, handle_runs, notify_created, sweep, forfeit_own_races,
  handle_race, handle_races, forfeit_all, handle_finished_race, finished_panics, is_zero, racer_id,
}

-- what happens to asynchronous races
pub data Action : Type 0 where
  click_start : (mid : String) (now : ℕ) → Action
  submit_forfeit : (mid : String) (input : Text) → Action
  click_finish : (mid : String) (now : ℕ) → Action
  submit_time : (mid : String) (now : ℕ) (time : String) → Action
  submit_vod : (mid : String) (vod : String) → Action
  create_command :
      (p1 p2 : String) (message : Option String) (uuid : String) (now : ℕ) (fresh1 fresh2 : Fresh)
      (contact1 contact2 : Contact)
      → Action
  cancel_command : (race_id : ℕ) (told : Bool) → Action
  decide : (race : AsyncRace) (decision : Decision) (told : Bool) → Action
  sweep_races : Discord → Action
  sweep_own : (user : String) → Action

-- an action's error is reported to the user or in the log, or is a panic, and the next action goes on
unfoldable pub perform : Action → Connection → Connection
perform (click_start mid now) = reported (handle_async_run_start mid now)
perform (submit_forfeit mid input) = reported (handle_run_forfeit_modal mid input)
perform (click_finish mid now) = reported (handle_async_run_finish mid now)
perform (submit_time mid now time) = reported (handle_user_time_modal mid now time)
perform (submit_vod mid vod) = reported (handle_vod_modal mid vod)
perform (create_command p1 p2 message uuid now fresh1 fresh2 contact1 contact2) =
    reported (handle_create_race p1 p2 message uuid now fresh1 fresh2 contact1 contact2)
perform (cancel_command race_id told) = reported (handle_cancel_race race_id told)
perform (decide race decision told) = reported (handle_cancel_race_started race decision told)
perform (sweep_races discord) = reported (sweep discord)
perform (sweep_own user) = reported (forfeit_own_races user)

unfoldable pub perform_all : List Action → Connection → Connection
unfolding perform
perform_all [] c = c
perform_all (a ∷ rest) c = perform_all rest (perform a c)

get_by_id-Keeps : (i : ℕ) → Keeps (get_by_id i)
unfolding get_by_id
get_by_id-Keeps i c h = ground arith

get_runs-Keeps : (race : AsyncRace) → Keeps (get_runs race)
unfolding get_runs
get_runs-Keeps race c h = ground arith

update_race_run-Keeps :
    (mid : String) (f : AsyncRaceRun → AsyncRaceRun)
    → ((r : AsyncRaceRun) → is_consistent (f r) ≡ true)
    → Keeps (update_race_run mid f)
unfolding update_race_run search_by_message_id
update_race_run-Keeps mid f h c k = grind (arith, save_run-Keeps)

start-Keeps : (mid : String) (now : ℕ) → Keeps (handle_async_run_start mid now)
unfolding handle_async_run_start get_by_message_id search_by_message_id get_by_id
start-Keeps mid now c k = grind (arith, save_run-Keeps)

forfeit_modal-Keeps : (mid : String) (input : Text) → Keeps (handle_run_forfeit_modal mid input)
unfolding handle_run_forfeit_modal get_by_message_id search_by_message_id get_by_id
forfeit_modal-Keeps mid input c k =
    grind (arith, update_race_run-Keeps mid Steps.forfeit (λ r. refl) c k)

finish_consistent : (now : ℕ) (r : AsyncRaceRun) → is_consistent (Steps.finish now r) ≡ true
finish_consistent now r = ground arith

notify_racer-Keeps : (contact : Contact) (r : AsyncRaceRun) → Keeps (notify_racer contact r)
unfolding notify_racer
notify_racer-Keeps Contact.myself r c k = save_run-Keeps _ refl c k
notify_racer-Keeps (Contact.sent mid) r c k = save_run-Keeps _ refl c k
notify_racer-Keeps Contact.failed r c k = k

logged-Keeps : (m : Method Connection AsyncError Unit) → Keeps m → Keeps (logged m)
logged-Keeps m k c h = k c h

notify_created-Keeps : (contact : Contact) (r : AsyncRaceRun) → Keeps (notify_created contact r)
notify_created-Keeps contact r =
    if-Keeps (is_created r.state) _ _
      (if-Keeps (is_zero (racer_id r.racer_id)) _ _ (λ c h. h)
        (logged-Keeps (notify_racer contact r) (notify_racer-Keeps contact r)))
      (λ c h. h)

handle_finished_race-Keeps :
    (d : Discord) (race : AsyncRace) (r1 r2 : AsyncRaceRun)
    → Keeps (handle_finished_race d race r1 r2)
handle_finished_race-Keeps d race r1 r2 =
    if-Keeps (finished_panics (d.fits race) r1 r2) _ _ (λ c h. h)
      (logged-Keeps (save_race (finish_race race)) (save_race-Keeps (finish_race race)))

handle_runs-Keeps :
    (d : Discord) (race : AsyncRace) (found : Result AsyncError (AsyncRaceRun × AsyncRaceRun))
    → Keeps (handle_runs d race found)
handle_runs-Keeps d race (err e) =
    logged-Keeps (save_race (abandon race)) (save_race-Keeps (abandon race))
handle_runs-Keeps d race (ok (r1, r2)) =
    if-Keeps (Steps.is_finished r1 && Steps.is_finished r2) _ _
      (handle_finished_race-Keeps d race r1 r2)
      (bind-Keeps (notify_created (d.contact r1) r1) (λ _. notify_created (d.contact r2) r2)
        (notify_created-Keeps (d.contact r1) r1) (λ _. notify_created-Keeps (d.contact r2) r2))

handle_race-Keeps : (d : Discord) (race : AsyncRace) → Keeps (handle_race d race)
unfolding handle_race
handle_race-Keeps d race c h =
    handle_runs-Keeps d race (get_runs race c).0 (get_runs race c).1 (get_runs-Keeps race c h)

handle_races-Keeps : (d : Discord) (rs : List AsyncRace) → Keeps (handle_races d rs)
unfolding handle_races
handle_races-Keeps d [] = λ c k. k
handle_races-Keeps d (r ∷ rs) =
    bind-Keeps (handle_race d r) (λ _. handle_races d rs) (handle_race-Keeps d r)
      (λ _. handle_races-Keeps d rs)

sweep-Keeps : (d : Discord) → Keeps (sweep d)
unfolding sweep
sweep-Keeps d =
    bind-Keeps (select database (λ t. filter (λ r. is_created_race r.state) t.async_races))
      (handle_races d) (select-Keeps _) (handle_races-Keeps d)

forfeit_all-Consistent :
    (rs : List AsyncRaceRun) (c : Connection) → Consistent c → Consistent (forfeit_all rs c)
unfolding forfeit_all
forfeit_all-Consistent [] c k = k
forfeit_all-Consistent (r ∷ rs) c k =
    forfeit_all-Consistent rs _ (save_run-Keeps (Steps.forfeit r) refl c k)

forfeit_own-Keeps : (user : String) → Keeps (forfeit_own_races user)
unfolding forfeit_own_races
forfeit_own-Keeps user c h = grind (arith, forfeit_all-Consistent)

select_racers-Keeps :
    (race : AsyncRace) (p1 p2 : String) (fresh1 fresh2 : Fresh)
    → Keeps (select_racers race p1 p2 fresh1 fresh2)
unfolding select_racers
select_racers-Keeps race p1 p2 fresh1 fresh2 =
    if-Keeps (str_eq p1 p2) _ _ (λ c h. h)
      (bind-Keeps (add_run race p1 fresh1) (λ r1. do r2 ← add_run race p2 fresh2; pure (r1, r2))
        (add_run-Keeps race p1 fresh1)
        (λ r1.
          bind-Keeps (add_run race p2 fresh2) (λ r2. pure (r1, r2)) (add_run-Keeps race p2 fresh2)
            (λ r2 c h. h)))

notify_both-Keeps :
    (contact1 contact2 : Contact) (race : AsyncRace) (runs : AsyncRaceRun × AsyncRaceRun)
    → Keeps (notify_both contact1 contact2 race runs)
notify_both-Keeps contact1 contact2 race (r1, r2) c h =
    notify_racer-Keeps contact2 r2 (reported (notify_racer contact1 r1) c)
      (notify_racer-Keeps contact1 r1 c h)

create-Keeps :
    (p1 p2 : String) (message : Option String) (uuid : String) (now : ℕ) (fresh1 fresh2 : Fresh)
    (contact1 contact2 : Contact)
    → Keeps (handle_create_race p1 p2 message uuid now fresh1 fresh2 contact1 contact2)
unfolding handle_create_race
create-Keeps p1 p2 message uuid now fresh1 fresh2 contact1 contact2 =
    if-Keeps (str_eq p1 p2) _ _ (λ c h. h)
      (bind-Keeps (save_new_race uuid now message)
        (add_racers p1 p2 fresh1 fresh2 contact1 contact2) (save_new_race-Keeps uuid now message)
        (λ race.
          bind-Keeps (select_racers race p1 p2 fresh1 fresh2) (notify_both contact1 contact2 race)
            (select_racers-Keeps race p1 p2 fresh1 fresh2)
            (notify_both-Keeps contact1 contact2 race)))

actually_cancel-Keeps : (race : AsyncRace) (told : Bool) → Keeps (actually_cancel_race race told)
unfolding actually_cancel_race
actually_cancel-Keeps race told c h = ground (arith, cancel-Keeps race c h)

cancel_started-Keeps :
    (race : AsyncRace) (decision : Decision) (told : Bool)
    → Keeps (handle_cancel_race_started race decision told)
unfolding handle_cancel_race_started
cancel_started-Keeps race Decision.really_cancel told = actually_cancel-Keeps race told
cancel_started-Keeps race Decision.other_button told = λ c h. h
cancel_started-Keeps race Decision.no_button told = λ c h. h
cancel_started-Keeps race Decision.no_decision told = λ c h. h

cancel_or_ask-Keeps :
    (race : AsyncRace) (told : Bool) (runs : AsyncRaceRun × AsyncRaceRun)
    → Keeps (cancel_or_ask race told runs)
cancel_or_ask-Keeps race told (r1, r2) c h = ground (arith, actually_cancel-Keeps race told c h)

cancel_found-Keeps : (told : Bool) (race : AsyncRace) → Keeps (cancel_found told race)
cancel_found-Keeps told race =
    if-Keeps (is_created_race race.state) _ _
      (bind-Keeps (get_runs race) (cancel_or_ask race told) (get_runs-Keeps race)
        (cancel_or_ask-Keeps race told))
      (λ c h. h)

cancel_command-Keeps : (race_id : ℕ) (told : Bool) → Keeps (handle_cancel_race race_id told)
unfolding handle_cancel_race
cancel_command-Keeps race_id told =
    bind-Keeps (get_by_id race_id) (cancel_found told) (get_by_id-Keeps race_id)
      (cancel_found-Keeps told)

perform-Consistent : (a : Action) (c : Connection) → Consistent c → Consistent (perform a c)
unfolding perform handle_async_run_finish handle_user_time_modal handle_vod_modal
perform-Consistent (click_start mid now) = start-Keeps mid now
perform-Consistent (submit_forfeit mid input) = forfeit_modal-Keeps mid input
perform-Consistent (click_finish mid now) =
    update_race_run-Keeps mid (Steps.finish now) (finish_consistent now)
perform-Consistent (submit_time mid now time) =
    update_race_run-Keeps mid (Steps.report_user_time now time) (λ r. refl)
perform-Consistent (submit_vod mid vod) = update_race_run-Keeps mid (Steps.set_vod vod) (λ r. refl)
perform-Consistent (create_command p1 p2 message uuid now fresh1 fresh2 contact1 contact2) =
    create-Keeps p1 p2 message uuid now fresh1 fresh2 contact1 contact2
perform-Consistent (cancel_command race_id told) = cancel_command-Keeps race_id told
perform-Consistent (decide race decision told) = cancel_started-Keeps race decision told
perform-Consistent (sweep_races discord) = sweep-Keeps discord
perform-Consistent (sweep_own user) = forfeit_own-Keeps user

-- Whatever is clicked, typed, commanded and swept, in whatever order, and however the database and
-- Discord answer: if every run's row holds what its state says that it does, this is so afterwards.
pub perform_all-Consistent :
    (actions : List Action) (c : Connection) → Consistent c → Consistent (perform_all actions c)
unfolding perform_all
perform_all-Consistent [] c h = h
perform_all-Consistent (a ∷ rest) c h =
    perform_all-Consistent rest (perform a c) (perform-Consistent a c h)
