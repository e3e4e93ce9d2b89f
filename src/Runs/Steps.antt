-- ===== src/Runs/Steps.antt =====
-- The methods of `AsyncRaceRun` in src/models/asyncs.rs that mutate it, as what happens to a run over
-- its life.
use nmg_league_bot.Base.{ℕ, String, Option, none, some, Bool, true, false}
use nmg_league_bot.Runs.{AsyncRaceRun, RaceRunState}

abbrev pub is_finished : AsyncRaceRun → Bool
is_finished run = elim run.state [
  | RaceRunState.vod_submitted ↦ true
  | RaceRunState.forfeit ↦ true
  | _ ↦ false
]

abbrev pub contact_succeeded : AsyncRaceRun → AsyncRaceRun
contact_succeeded run = record run { state = RaceRunState.contacted }

abbrev pub start : ℕ → AsyncRaceRun → AsyncRaceRun
start now run = record run { state = RaceRunState.started; run_started = some now }

abbrev first_time : Option ℕ → ℕ → Option ℕ
first_time none now = some now
first_time (some t) now = some t

abbrev pub finish : ℕ → AsyncRaceRun → AsyncRaceRun
finish now run = record run {
  state = RaceRunState.finished;
  run_finished = first_time run.run_finished now;
}

abbrev pub forfeit : AsyncRaceRun → AsyncRaceRun
forfeit run = record run { state = RaceRunState.forfeit }

abbrev pub report_user_time : ℕ → String → AsyncRaceRun → AsyncRaceRun
report_user_time now time run = record run {
  state = RaceRunState.time_submitted;
  reported_at = some now;
  reported_run_time = some time;
}

abbrev pub set_vod : String → AsyncRaceRun → AsyncRaceRun
set_vod vod run = record run { state = RaceRunState.vod_submitted; vod = some vod }

abbrev pub set_message_id : String → AsyncRaceRun → AsyncRaceRun
set_message_id mid run = record run { message_id = some mid }
