-- ===== src/Commands/Scheduling.antt =====
-- The scheduling commands: `schedule_race` of src/discord/mod.rs, `_handle_schedule_race_cmd` and
-- `_handle_reschedule_race_cmd`. Discord's answers to the messages that are deleted and posted are
-- inputs.
pub mod Chosen
pub mod Effects
pub mod Own
use nmg_league_bot.Base.{
  ℕ, String, Option, none, some, Bool, true, false, List, [], ◌∷◌, Result, ok, err, Method, str_eq,
  if◌then◌else◌,
}
use nmg_league_bot.Base.Methods.{pure, throw, lift, map_err, map_err_of, reported, ◌>>=◌, ◌>>◌}
use nmg_league_bot.Race.{
  BracketRace, BracketRaceState, BracketRaceStateError, RaceJson, state, involves_player,
}
use nmg_league_bot.Tables.{BracketRaceInfo, Player, Connection}
use nmg_league_bot.RaceInfo.{RaceSession, schedule, update_info}
use nmg_league_bot.RaceInfo.Queries.{get_by_id, get_unfinished_races_for_player}
use nmg_league_bot.Players
use nmg_league_bot.Players.{get_by_discord_id}
use nmg_league_bot.Commands.Options.{OptionValues, find_opt_as, user, as_i32}
use nmg_league_bot.Commands.Requests.{
  CommandError, CommandSession, Command, db, on_options, get_integer, invalid_option, race_error,
  race_finished, no_member, not_found, database_error,
}
use nmg_league_bot.Commands.Times.{Eastern, get_datetime_from_scheduling_cmd}

-- What Discord answers: whether the two messages of the info are gone, and the new one.
pub record Posting : Type 0 where
  pub commportunities_deleted : Bool
  pub tentative_deleted : Bool
  pub posted : Option String

-- `clear_bracket_race_info_message!` of src/worker_funcs.rs: a deleted message leaves the info
unfoldable pub clear_message : Bool → Option String → Option String
clear_message true mid = none
clear_message false mid = mid

abbrev new_post : Option String → Option String → Option String
new_post none old = old
new_post (some mid) old = some mid

unfoldable pub post_schedule : Posting → BracketRaceInfo → BracketRaceInfo
unfolding clear_message
post_schedule p info = record info {
  commportunities_message_id =
      new_post p.posted (clear_message p.commportunities_deleted info.commportunities_message_id);
  tentative_commentary_assignment_message_id =
      clear_message p.tentative_deleted info.tentative_commentary_assignment_message_id;
}

-- what the command answers to its user
pub data ScheduleReply : Type 0 where
  is_scheduled not_registered not_yourself unknown_opponent no_active_race : ScheduleReply
  other_opponent none_against more_than_one already_finished : ScheduleReply
  bad_time : CommandError → ScheduleReply

-- `find_matching_race`
unfoldable pub find_matching_race : Player → List BracketRace → Option BracketRace
unfolding involves_player
find_matching_race vs_whomst [] = none
find_matching_race vs_whomst (r ∷ rs) =
    let rest = find_matching_race vs_whomst rs in
    if involves_player r vs_whomst.id then some r else rest

-- the `match` on the number of the player's races
unfoldable pub choose_race : List BracketRace → Option Player → Result ScheduleReply BracketRace
unfolding find_matching_race involves_player
choose_race [] opp = err no_active_race
choose_race (r ∷ []) none = ok r
choose_race (r ∷ []) (some opp) = if involves_player r opp.id then ok r else err other_opponent
choose_race (r ∷ q ∷ rs) none = err more_than_one
choose_race (r ∷ q ∷ rs) (some opp) = elim (find_matching_race opp (r ∷ q ∷ rs)) [
  | none ↦ err none_against
  | some x ↦ ok x
]

abbrev pub both_found : {E : Type 0} → Result E (Option Player) → Result E (Option Player) → Bool
both_found (ok (some _)) (ok (some _)) = true
both_found _ _ = false

module _ {V : Type 0} (json : RaceJson) (posting : Posting) where
  -- `the_race.schedule(&when, conn)`, on a race that the command holds
  unfoldable pub schedule_row : BracketRace → ℕ → Command V (BracketRaceInfo × BracketRaceInfo)
  unfolding schedule
  schedule_row race at s =
      let (r, x) = schedule json at (record { race = race; conn = s.conn }) in
      (map_err_of race_error r, record s { conn = x.conn })

  -- a query of which only the answer is looked at
  abbrev pub try_player :
      ℕ → CommandSession V → Result CommandError (Option Player) × CommandSession V
  try_player i s = db (Players.get_by_id database_error i) s

  unfoldable pub store_post : BracketRaceInfo → Command V Unit
  unfolding update_info post_schedule
  store_post info s =
      (ok tt, reported (db (update_info database_error (post_schedule posting info))) s)

  -- the messages, and the info again, when both players are found
  unfoldable pub announce : BracketRace → BracketRaceInfo → Command V Unit
  unfolding store_post
  announce race info s =
      let (p1, s1) = try_player race.player_1_id s in
      let (p2, s2) = try_player race.player_2_id s1 in
      if both_found p1 p2 then store_post info s2 else (ok tt, s2)

  abbrev pub refuse_finished : Result BracketRaceStateError BracketRaceState → Command V Unit
  refuse_finished (err e) = throw (race_error e)
  refuse_finished (ok BracketRaceState.finished) = throw race_finished
  refuse_finished (ok _) = pure tt

  unfoldable pub schedule_race : BracketRace → ℕ → Command V Unit
  unfolding state schedule_row announce
  schedule_race race at = do
    refuse_finished (state json race)
    infos ← schedule_row race at
    announce race infos.1

  module _ (views : OptionValues V) (eastern : Eastern) where
    abbrev answer : Result CommandError Unit → Result CommandError ScheduleReply
    answer (ok _) = ok is_scheduled
    answer (err race_finished) = ok already_finished
    answer (err e) = err e

    unfoldable pub schedule_chosen : ℕ → Result ScheduleReply BracketRace → Command V ScheduleReply
    unfolding schedule_race
    schedule_chosen at (err reply) s = (ok reply, s)
    schedule_chosen at (ok race) s = let (r, t) = schedule_race race at s in (answer r, t)

    unfoldable pub against : Player → ℕ → Option (Option Player) → Command V ScheduleReply
    unfolding get_unfinished_races_for_player choose_race schedule_chosen
    against player at none = pure unknown_opponent
    against player at (some opp) = do
      races ← db (get_unfinished_races_for_player database_error json player)
      schedule_chosen at (choose_race races opp)

    -- the opponent that is named: none, one who is not registered, or a player
    unfoldable pub find_opponent : Option String → Command V (Option (Option Player))
    unfolding get_by_discord_id
    find_opponent none = pure (some none)
    find_opponent (some o) = do
      found ← db (get_by_discord_id database_error o)
      pure (elim found [ none ↦ none | some p ↦ some (some p) ])

    abbrev is_self : String → Option String → Bool
    is_self u none = false
    is_self u (some o) = str_eq o u

    unfoldable pub against_named : String → Player → ℕ → Option String → Command V ScheduleReply
    unfolding find_opponent against
    against_named uid player at opponent =
        if is_self uid opponent
        then pure not_yourself
        else (do opp ← find_opponent opponent; against player at opp)

    unfoldable pub for_player : String → ℕ → Option Player → Command V ScheduleReply
    unfolding find_opt_as against_named
    for_player uid at none = pure not_registered
    for_player uid at (some player) = do
      opponent ← on_options (
          map_err (λ e. invalid_option "opponent")
            (find_opt_as views views.as_user "opponent" user))
      against_named uid player at opponent

    abbrev pub attempt : {A : Type 0} → Command V A → Command V (Result CommandError A)
    attempt m s = let (r, t) = m s in (ok r, t)

    unfoldable pub with_time : String → Result CommandError ℕ → Command V ScheduleReply
    unfolding get_by_discord_id for_player
    with_time uid (err e) = pure (bad_time e)
    with_time uid (ok at) = do
      player ← db (get_by_discord_id database_error uid)
      for_player uid at player

    -- `_handle_schedule_race_cmd` for the id of the member who sent it, if there is one
    unfoldable pub handle_schedule_race_cmd : Option String → Command V ScheduleReply
    unfolding get_datetime_from_scheduling_cmd with_time
    handle_schedule_race_cmd none = throw no_member
    handle_schedule_race_cmd (some uid) = do
      at ← attempt (get_datetime_from_scheduling_cmd eastern views)
      with_time uid at

    unfoldable pub handle_reschedule_race_cmd : Command V Unit
    unfolding get_by_id get_datetime_from_scheduling_cmd schedule_race get_integer
    handle_reschedule_race_cmd = do
      race_id ← get_integer views "race_id"
      race ← db (get_by_id database_error not_found (as_i32 race_id))
      at ← get_datetime_from_scheduling_cmd eastern views
      schedule_race race at
