-- ===== src/Async/Handlers.antt =====
-- What changes the rows of asynchronous races: the buttons and modals of src/discord/bot.rs, the
-- commands of src/discord/interaction_handlers/application_commands.rs, `notify_racer` of
-- src/discord/mod.rs. Clocks, random values, Discord's answers and what
-- users type are inputs.
use nmg_league_bot.Base.{
  ℕ, String, Option, none, some, Bool, true, false, ◌&&◌, ◌||◌, ◌==◌, ◌+◌, [], ◌∷◌, Result, ok, err,
  Method, str_eq, if◌then◌else◌,
}
use nmg_league_bot.Base.Methods.{reported, pure, throw, lift, ◌>>=◌, ◌>>◌}
use nmg_league_bot.Times.{Text}
use nmg_league_bot.Runs.{AsyncRace, AsyncRaceRun, RaceState, is_pre_start}
use nmg_league_bot.Runs.Steps
use nmg_league_bot.Runs.Filenames.{Filenames, from_str}
use nmg_league_bot.Tables.{Connection}
use nmg_league_bot.Async.Store.{
  AsyncError, not_contacted, wrong_state, no_run, Fresh, get_by_id, save_new_race, save_run,
  select_racers, cancel, get_runs, search_by_message_id, get_by_message_id,
}

-- what the racer is shown once the run has started
pub record RunStarted : Type 0 where
  pub filenames : Filenames
  pub on_start_message : Option String
  pub uuid : String

-- `run_started_interaction_response`
abbrev pub run_started_response : AsyncRace → AsyncRaceRun → Result AsyncError RunStarted
run_started_response race run = elim (from_str run.filenames) [
  | none ↦ err no_run
  | some names ↦
      ok (record { filenames = names; on_start_message = race.on_start_message; uuid = run.uuid })
]

unfoldable pub handle_async_run_start : String → ℕ → Method Connection AsyncError RunStarted
unfolding get_by_message_id get_by_id save_run
handle_async_run_start mid now = do
  run ← get_by_message_id mid
  race ← get_by_id run.race_id
  save_run (Steps.start now run)
  lift (run_started_response race (Steps.start now run))

-- `f`, on the run that the message is about
unfoldable pub update_race_run :
    String → (AsyncRaceRun → AsyncRaceRun) → Method Connection AsyncError Unit
unfolding search_by_message_id save_run
update_race_run mid f = do
  found ← search_by_message_id mid
  elim found [ none ↦ throw no_run | some run ↦ save_run (f run) ]

abbrev same_letter : ℕ → ℕ → Bool
same_letter lower c = c == lower || c + 32 == lower

unfoldable pub starts_with : Text → Text → Bool
starts_with [] t = true
starts_with (x ∷ xs) [] = false
starts_with (x ∷ xs) (c ∷ cs) = same_letter x c && starts_with xs cs

-- `FORFEIT_REGEX`: since `\s*` matches nothing too, the word anywhere, in either case
unfoldable pub says_forfeit : Text → Bool
unfolding starts_with
says_forfeit [] = false
says_forfeit (c ∷ cs) =
    starts_with (b'f' ∷ b'o' ∷ b'r' ∷ b'f' ∷ b'e' ∷ b'i' ∷ b't' ∷ []) (c ∷ cs) || says_forfeit cs

-- `none` is the confirmation; otherwise the run goes on
unfoldable pub handle_run_forfeit_modal :
    String → Text → Method Connection AsyncError (Option RunStarted)
unfolding update_race_run get_by_message_id get_by_id
handle_run_forfeit_modal mid input =
    if says_forfeit input then (do update_race_run mid Steps.forfeit; pure none) else (do
      run ← get_by_message_id mid
      race ← get_by_id run.race_id
      shown ← lift (run_started_response race run)
      pure (some shown))

unfoldable pub handle_async_run_finish : String → ℕ → Method Connection AsyncError Unit
unfolding update_race_run
handle_async_run_finish mid now = update_race_run mid (Steps.finish now)

unfoldable pub handle_user_time_modal : String → ℕ → String → Method Connection AsyncError Unit
unfolding update_race_run
handle_user_time_modal mid now time = update_race_run mid (Steps.report_user_time now time)

unfoldable pub handle_vod_modal : String → String → Method Connection AsyncError Unit
unfolding update_race_run
handle_vod_modal mid vod = update_race_run mid (Steps.set_vod vod)

-- how a message to a racer goes: the racer is the bot, the message has an id, or it is not sent
pub data Contact : Type 0 where
  myself : Contact
  sent : String → Contact
  failed : Contact

unfoldable pub notify_racer : Contact → AsyncRaceRun → Method Connection AsyncError Unit
unfolding save_run
notify_racer myself run = save_run (Steps.contact_succeeded run)
notify_racer (sent mid) run = save_run (Steps.contact_succeeded (Steps.set_message_id mid run))
notify_racer failed run = throw not_contacted

-- The racers are notified concurrently; here the first is notified first.
abbrev pub notify_both :
    Contact
    → Contact
    → AsyncRace
    → AsyncRaceRun × AsyncRaceRun
    → Method Connection AsyncError (Option AsyncRace)
notify_both contact1 contact2 race (r1, r2) c =
    (ok (some race), reported (notify_racer contact2 r2) (reported (notify_racer contact1 r1) c))

abbrev pub add_racers :
    String
    → String
    → Fresh
    → Fresh
    → Contact
    → Contact
    → AsyncRace
    → Method Connection AsyncError (Option AsyncRace)
add_racers p1 p2 fresh1 fresh2 contact1 contact2 race = do
  runs ← select_racers race p1 p2 fresh1 fresh2
  notify_both contact1 contact2 race runs

-- `handle_create_race`, for two users: `none` if they are the same
unfoldable pub handle_create_race :
    String
    → String
    → Option String
    → String
    → ℕ
    → Fresh
    → Fresh
    → Contact
    → Contact
    → Method Connection AsyncError (Option AsyncRace)
unfolding save_new_race
handle_create_race p1 p2 message uuid now fresh1 fresh2 contact1 contact2 =
    if str_eq p1 p2 then pure none else (do
      race ← save_new_race uuid now message
      add_racers p1 p2 fresh1 fresh2 contact1 contact2 race)

-- `actually_cancel_race`; `told` is whether both racers' messages could be updated
unfoldable pub actually_cancel_race : AsyncRace → Bool → Method Connection AsyncError Unit
unfolding cancel
actually_cancel_race race told = do cancel race; lift (if told then ok tt else err not_contacted)

-- whether the race is cancelled, or the user is asked first, since a run has been started
pub data CancelReply : Type 0 where
  cancelled : CancelReply
  are_you_sure : AsyncRace → CancelReply

abbrev pub is_created_race : RaceState → Bool
is_created_race RaceState.created = true
is_created_race _ = false

abbrev pub cancel_or_ask :
    AsyncRace → Bool → AsyncRaceRun × AsyncRaceRun → Method Connection AsyncError CancelReply
cancel_or_ask race told (r1, r2) =
    if is_pre_start r1.state && is_pre_start r2.state
    then (do actually_cancel_race race told; pure cancelled)
    else pure (are_you_sure race)

abbrev pub cancel_found : Bool → AsyncRace → Method Connection AsyncError CancelReply
cancel_found told race =
    if is_created_race race.state
    then (do runs ← get_runs race; cancel_or_ask race told runs)
    else throw (wrong_state race.state)

-- `handle_cancel_race`, up to its answer or its question; an error of this model is also a reply that
-- nothing is cancelled
unfoldable pub handle_cancel_race : ℕ → Bool → Method Connection AsyncError CancelReply
unfolding get_by_id
handle_cancel_race race_id told = do race ← get_by_id race_id; cancel_found told race

-- what comes of the question: `REALLY_CANCEL_ID`, another button, a component without an id, or an
-- error, such as the time that runs out
pub data Decision : Type 0 where
  really_cancel other_button no_button no_decision : Decision

-- `handle_cancel_race_started`, from the decision on, with the race as `handle_cancel_race` read it
unfoldable pub handle_cancel_race_started :
    AsyncRace → Decision → Bool → Method Connection AsyncError Unit
unfolding actually_cancel_race
handle_cancel_race_started race Decision.really_cancel told = actually_cancel_race race told
handle_cancel_race_started race _ told = pure tt
