-- ===== src/Commands/Dispatch/General.antt =====
-- What the commands that are not for admins only leave alone.
use nmg_league_bot.Base.{
  ℕ, refl, ap, ◌∙◌, String, Option, none, some, Bool, true, false, Result, ok, err, if◌then◌else◌,
}
use nmg_league_bot.Base.Methods.{◌>>=◌, map_err, pure}
use nmg_league_bot.Base.Triples.{Keeps, bind-Keeps}
use nmg_league_bot.Race.{BracketRace, BracketRaceStateError, BracketRaceState, RaceJson, state}
use nmg_league_bot.Tables.{BracketRaceInfo, Player}
use nmg_league_bot.Players.{get_by_discord_id}
use nmg_league_bot.Commands.Options.{OptionValues, find_opt_as, user}
use nmg_league_bot.Commands.Requests.{
  CommandError, CommandSession, db, on_options, invalid_option, database_error,
}
use nmg_league_bot.Commands.Times.{Eastern}
use nmg_league_bot.Commands.Scheduling
use nmg_league_bot.Commands.Scheduling.{
  Posting, post_schedule, ScheduleReply, not_yourself, choose_race, both_found, store_post,
  announce, try_player, schedule_row, schedule_race, schedule_chosen, against, find_opponent,
  against_named, for_player, with_time, handle_schedule_race_cmd,
}
use nmg_league_bot.RaceInfo.Queries.{get_unfinished_races_for_player}
use nmg_league_bot.Commands.Scheduling.Own.{datetime-conn}
use nmg_league_bot.Commands.Dispatch.Admins.{
  Admins, of_conn, schedule-Keeps, player-Keeps, discord-Keeps, update_info-Keeps, unfinished-Keeps,
}

abbrev pub of_session : {V : Type 0} → CommandSession V → Admins
of_session s = of_conn s.conn

module _ {V : Type 0} (json : RaceJson) (posting : Posting) where
  store_if :
      (b : Bool) (i : BracketRaceInfo)
      → Keeps of_session (λ t. if b then store_post {V = V} json posting i t else (ok tt, t))
  unfolding store_post
  store_if true i t = update_info-Keeps database_error (post_schedule posting i) t.conn
  store_if false i t = refl

  announce-Keeps :
      (r : BracketRace) (i : BracketRaceInfo) → Keeps of_session (announce {V = V} json posting r i)
  unfolding announce
  announce-Keeps r i t =
      let a = try_player json posting r.player_1_id t in
      let b = try_player json posting r.player_2_id a.1 in
      store_if (both_found a.0 b.0) i b.1
      ∙ player-Keeps _ r.player_2_id a.1.conn
      ∙ player-Keeps _ r.player_1_id t.conn

  schedule_race-Keeps :
      (r : BracketRace) (at : ℕ) → Keeps of_session (schedule_race {V = V} json posting r at)
  unfolding schedule_race schedule_row
  schedule_race-Keeps r at =
      bind-Keeps of_session (Scheduling.refuse_finished json posting (state json r)) _
        (refused (state json r))
        λ _.
          bind-Keeps of_session (schedule_row json posting r at) _
            (λ s. schedule-Keeps json at (record { race = r; conn = s.conn }))
            λ infos. announce-Keeps r infos.1
    where
      refused :
          (st : Result BracketRaceStateError BracketRaceState)
          → Keeps of_session (Scheduling.refuse_finished {V = V} json posting st)
      refused (err e) s = refl
      refused (ok BracketRaceState.new) s = refl
      refused (ok BracketRaceState.scheduled) s = refl
      refused (ok BracketRaceState.finished) s = refl

  module _ (views : OptionValues V) (eastern : Eastern) where
    chosen-Keeps :
        (at : ℕ) (c : Result ScheduleReply BracketRace)
        → Keeps of_session (schedule_chosen json posting views eastern at c)
    unfolding schedule_chosen
    chosen-Keeps at (err e) s = refl
    chosen-Keeps at (ok r) s = schedule_race-Keeps r at s

    against-Keeps :
        (p : Player) (at : ℕ) (o : Option (Option Player))
        → Keeps of_session (against json posting views eastern p at o)
    unfolding against
    against-Keeps p at none = λ s. refl
    against-Keeps p at (some opp) =
        bind-Keeps of_session (db (get_unfinished_races_for_player database_error json p)) _
          (λ s. unfinished-Keeps _ json p s.conn) λ races. chosen-Keeps at (choose_race races opp)

    opponent-Keeps :
        (o : Option String) → Keeps of_session (find_opponent json posting views eastern o)
    unfolding find_opponent
    opponent-Keeps none = λ s. refl
    opponent-Keeps (some o) =
        bind-Keeps of_session (db (get_by_discord_id database_error o)) _
          (λ s. discord-Keeps _ o s.conn) λ found s. refl

    named-Keeps :
        (uid : String) (p : Player) (at : ℕ) (o : Option String) (self : Bool)
        → Keeps of_session (
            if self then pure not_yourself else (do
              opp ← find_opponent json posting views eastern o
              against json posting views eastern p at opp))
    named-Keeps uid p at o true = λ s. refl
    named-Keeps uid p at o false =
        bind-Keeps of_session (find_opponent json posting views eastern o) _ (opponent-Keeps o)
          λ opp. against-Keeps p at opp

    for_player-Keeps :
        (uid : String) (at : ℕ) (o : Option Player)
        → Keeps of_session (for_player json posting views eastern uid at o)
    unfolding for_player against_named
    for_player-Keeps uid at none = λ s. refl
    for_player-Keeps uid at (some p) =
        bind-Keeps of_session
          (on_options (
            map_err (λ e. invalid_option "opponent")
              (find_opt_as views views.as_user "opponent" user)))
          _ (λ s. refl) λ o. named-Keeps uid p at o _

    with_time-Keeps :
        (uid : String) (at : Result CommandError ℕ)
        → Keeps of_session (with_time json posting views eastern uid at)
    unfolding with_time
    with_time-Keeps uid (err e) = λ s. refl
    with_time-Keeps uid (ok at) =
        bind-Keeps of_session (db (get_by_discord_id database_error uid)) _
          (λ s. discord-Keeps _ uid s.conn) λ o. for_player-Keeps uid at o

    pub schedule_cmd-Keeps :
        (uid : Option String)
        → Keeps of_session (handle_schedule_race_cmd json posting views eastern uid)
    unfolding handle_schedule_race_cmd
    schedule_cmd-Keeps none s = refl
    schedule_cmd-Keeps (some uid) s =
        with_time-Keeps uid _ _ ∙ ap of_conn (datetime-conn views eastern s)
