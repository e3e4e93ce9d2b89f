-- ===== src/Examples/Asyncs.antt =====
-- An asynchronous race from its creation to its end, and to its cancellation.
use nmg_league_bot.Base.{ℕ, filter, map, ◌≡◌, refl, String, none, some, true, List, [], ◌∷◌}
use nmg_league_bot.Runs.{AsyncRace, AsyncRaceRun, RaceState, RaceRunState}
use nmg_league_bot.Runs.Filenames.{
  Filenames, IsCapital, from_str, to_str, new_random, from_str-to_str, new_random_lem,
}
use nmg_league_bot.Tables.{next_id, first_where, Connection}
use nmg_league_bot.Times.{value_from}
use nmg_league_bot.Async.Worker.{
  Discord, sweep, handle_race, racer_id, text_of, parse_id, digits_id, all_digits,
}
use nmg_league_bot.Async.Store.{update_run, save_race, select_racers, Fresh, update_async_race}
use nmg_league_bot.Async.Handlers.{
  Decision, handle_run_forfeit_modal, says_forfeit, handle_async_run_start, handle_vod_modal,
  handle_user_time_modal, handle_async_run_finish, handle_create_race, notify_racer, sent, failed,
  handle_cancel_race,
}
use nmg_league_bot.Async.Cancelling.{Replied, handle_cancel_race_lem}
use nmg_league_bot.Async.Sweeping.{Fate, handle_race-Fate}
use nmg_league_bot.Async.Consistency.{Consistent}
use nmg_league_bot.Async.Owners.{race_with, IsDone}
use nmg_league_bot.Async.Progress.{sweep-IsFinished}
use nmg_league_bot.Async.Actions.{Action, perform, perform_all, perform_all-Consistent}
use nmg_league_bot.Examples.Values.{league, connected}

abbrev capitals : Filenames
capitals = record { one = b'A'; three = (b'F', b'A', b'G'); four = (b'W', b'X', b'Y', b'Z') }

capitals-IsCapital : IsCapital capitals
capitals-IsCapital = record { in_one = refl; in_three = refl; in_four = refl }

from_str-to_str_example : from_str (to_str capitals) ≡ some capitals
from_str-to_str_example = from_str-to_str capitals capitals-IsCapital

new_random_lem_example : new_random (capitals ∷ []) ≡ some (capitals, [])
new_random_lem_example = new_random_lem capitals [] capitals-IsCapital

abbrev fresh : String → Fresh
fresh uuid = record {
  uuid = uuid;
  filenames = b'A' ∷ b' ' ∷ b'B' ∷ b'C' ∷ b'D' ∷ b' ' ∷ b'E' ∷ b'F' ∷ b'G' ∷ b'H' ∷ [];
  now = 1;
}

abbrev created_by : Action
created_by =
    Action.create_command "1234" "5678" none "race" 1 (fresh "r1") (fresh "r2") (sent "m1")
      (sent "m2")

abbrev silent : Discord
silent = record { contact = λ run. failed; fits = λ race. true }

abbrev life : List Action
life =
    created_by
    ∷ Action.click_start "m1" 10
    ∷ Action.click_finish "m1" 20
    ∷ Action.submit_time "m1" 21 "0:00:10"
    ∷ Action.submit_vod "m1" "v"
    ∷ Action.click_start "m2" 15
    ∷ Action.submit_forfeit "m2" (b'F' ∷ b'o' ∷ b'r' ∷ b'F' ∷ b'e' ∷ b'i' ∷ b't' ∷ [])
    ∷ Action.sweep_races silent
    ∷ []

life_finishes :
    map (λ r. r.state) (perform_all life (connected league)).tables.async_races
    ≡ RaceState.finished ∷ []
unfolding perform_all sweep handle_run_forfeit_modal says_forfeit handle_async_run_start
    handle_vod_modal handle_user_time_modal handle_async_run_finish handle_create_race select_racers
    notify_racer racer_id filter update_run next_id first_where save_race update_async_race
life_finishes = refl

perform_all-Consistent_example : Consistent (perform_all life (connected league))
perform_all-Consistent_example = perform_all-Consistent life (connected league) refl

abbrev underway : Connection
underway = perform_all (created_by ∷ []) (connected league)

abbrev the_race : AsyncRace
the_race = record {
  id = 1;
  uuid = "race";
  created = 1;
  state = RaceState.created;
  on_start_message = none;
}

-- the first racer clicks start, the user is asked, and is sure when the run has been finished
abbrev asked : Connection
asked = perform (Action.click_start "m1" 10) underway

abbrev finished_since : Connection
finished_since = perform (Action.click_finish "m1" 20) asked

handle_cancel_race_lem_example :
    Replied 1 true asked Decision.really_cancel finished_since (handle_cancel_race 1 true asked)
handle_cancel_race_lem_example =
    handle_cancel_race_lem 1 true asked Decision.really_cancel finished_since

handle_race-Fate_example : Fate the_race underway (handle_race silent the_race underway).1
handle_race-Fate_example = handle_race-Fate silent the_race underway

abbrev forfeited : ℕ → AsyncRaceRun
forfeited i = record {
  id = i;
  uuid = "run";
  race_id = 1;
  racer_id = "1234";
  filenames = [];
  created = 1;
  state = RaceRunState.forfeit;
  run_started = none;
  run_finished = none;
  reported_run_time = none;
  reported_at = none;
  message_id = none;
  vod = none;
}

abbrev both_done : Connection
both_done =
    connected (record league { async_races = the_race ∷ []; runs = forfeited 1 ∷ forfeited 2 ∷ [] })

sweep-IsFinished_example : IsDone (race_with 1 (sweep silent both_done).1.tables.async_races)
unfolding first_where filter racer_id text_of parse_id digits_id all_digits value_from
sweep-IsFinished_example =
    sweep-IsFinished (λ i. 1) 1 silent both_done refl ((refl, refl), ((refl, refl), tt))
      (refl, refl) refl refl
