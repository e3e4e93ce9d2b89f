-- ===== src/Runs.antt =====
-- src/models/asyncs.rs, without the database: the race and run rows of asynchronous races, and the
-- file names that a racer has to enter. A column that the code reads into an enum holds the enum, and
-- a Discord id is the text that its column holds.
pub mod Steps
pub mod Filenames
use nmg_league_bot.Base.{ℕ, String, Option, Bool, true, false}
use nmg_league_bot.Times.{Text}

-- `RaceState`
pub data RaceState : Type 0 where
  created : RaceState
  finished : RaceState
  abandoned : RaceState
  cancelled_by_admin : RaceState

-- `AsyncRace`; `created` is a timestamp
pub record AsyncRace : Type 0 where
  pub id : ℕ
  pub uuid : String
  pub created : ℕ
  pub state : RaceState
  pub on_start_message : Option String

-- `RaceRunState`
pub data RaceRunState : Type 0 where
  created : RaceRunState
  contacted : RaceRunState
  started : RaceRunState
  finished : RaceRunState
  time_submitted : RaceRunState
  vod_submitted : RaceRunState
  forfeit : RaceRunState
  cancelled_by_admin : RaceRunState

abbrev pub is_created : RaceRunState → Bool
is_created RaceRunState.created = true
is_created _ = false

abbrev pub is_pre_start : RaceRunState → Bool
is_pre_start RaceRunState.created = true
is_pre_start RaceRunState.contacted = true
is_pre_start _ = false

-- `AsyncRaceRun`
pub record AsyncRaceRun : Type 0 where
  pub id : ℕ
  pub uuid : String
  pub race_id : ℕ
  pub racer_id : String
  pub filenames : Text
  pub created : ℕ
  pub state : RaceRunState
  pub run_started : Option ℕ
  pub run_finished : Option ℕ
  pub reported_run_time : Option String
  pub reported_at : Option ℕ
  pub message_id : Option String
  pub vod : Option String
