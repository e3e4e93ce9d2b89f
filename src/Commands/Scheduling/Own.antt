-- ===== src/Commands/Scheduling/Own.antt =====
-- A member schedules only a race of theirs.
use mathlib.Core.List.{Memᴰ}
use nmg_league_bot.Base.{
  ℕ, ◌≡◌, ◌≢◌, refl, subst, ap, ◌∙◌, String, ok_or, Option, none, some, Bool, true, false, List,
  Result, ok, err, arith, ◌⊎◌, inl, inr, not, ◌&&◌, filter, if◌then◌else◌, str_eq,
}
use nmg_league_bot.Base.Methods.{◌>>=◌, lift, pure, map_err}
use nmg_league_bot.Base.Triples.{After, after, weaken, map-After, same-After, bind-After, After-of}
use nmg_league_bot.Race.{BracketRace, BracketRaceState, RaceJson, state, involves_player}
use nmg_league_bot.Tables.{Connection, Player, first_where}
use nmg_league_bot.Tables.Steps.{select-After}
use nmg_league_bot.RaceInfo.Queries.{get_unfinished_races_for_player}
use nmg_league_bot.Players.{get_by_discord_id}
use nmg_league_bot.Commands.Options.{OptionValues, find_opt_as, user}
use nmg_league_bot.Commands.Requests.{
  CommandError, CommandSession, on_options, invalid_option, db, database_error,
}
use nmg_league_bot.Commands.Steps.{db-After, string_then, integer_then}
use nmg_league_bot.Commands.Times.{Eastern, get_datetime_from_scheduling_cmd, datetime_from_options}
use nmg_league_bot.Commands.Scheduling.{
  Posting, ScheduleReply, not_yourself, against, find_opponent, against_named, for_player,
  with_time, handle_schedule_race_cmd, choose_race, schedule_chosen,
}
use nmg_league_bot.Commands.Scheduling.Chosen.{choose_race_lem, mem-filter}
use nmg_league_bot.Commands.Scheduling.Effects.{Marked, schedule_race_lem}

abbrev pub player_of : String → List Player → Option Player
player_of uid ps = first_where (λ p. str_eq p.discord_id uid) ps

and_right : (a b : Bool) → (a && b) ≡ true → b ≡ true
and_right a b h = ground arith

module _ {V : Type 0} (json : RaceJson) (posting : Posting) (views : OptionValues V)
    (eastern : Eastern) (rs : List BracketRace) (ps : List Player) where
  abbrev Same : Connection → Type 0
  Same c = (c.tables.races ≡ rs) × (c.tables.players ≡ ps)

  -- The races are as they were, or one is marked: it stands in the table, it is not finished, and it
  -- is a race of the player.
  abbrev pub OwnRace : Option Player → CommandSession V → Type 0
  OwnRace none t = t.conn.tables.races ≡ rs
  OwnRace (some p) t =
      (t.conn.tables.races ≡ rs)
      ⊎ ((r : BracketRace) × Memᴰ r rs
          × (involves_player r p.id ≡ true)
          × (state json r ≢ ok BracketRaceState.finished)
          × Marked json rs r t.conn.tables.races)

  same_OwnRace : (o : Option Player) (t : CommandSession V) → t.conn.tables.races ≡ rs → OwnRace o t
  same_OwnRace none t h = h
  same_OwnRace (some p) t h = inl h

  unfinished_lem :
      (p : Player) (c : Connection)
      → Same c
      → After
          (λ races d.
            Same d
            × ((r : BracketRace) → Memᴰ r races → Memᴰ r rs × (involves_player r p.id ≡ true)))
          Same
          (get_unfinished_races_for_player {E = CommandError} database_error json p c)
  unfolding get_unfinished_races_for_player
  unfinished_lem p c h =
      bind-After (λ text d. Same d)
        (lift (ok_or (json.state_json.to_string BracketRaceState.finished) database_error)) _ c
        (same-After {I = Same} _ (go (json.state_json.to_string BracketRaceState.finished)))
        λ text d k.
          map-After
            (λ races u m. (
              m.0,
              λ r within.
                  let (stands, both) =
                    mem-filter (λ r. not (str_eq r.state text) && involves_player r p.id) rs
                      (subst (Memᴰ r)
                        (m.1
                          ∙ ap (filter (λ r. not (str_eq r.state text) && involves_player r p.id))
                              m.0.0)
                        within) in
                  (stands, and_right (not (str_eq r.state text)) (involves_player r p.id) both),
            ))
            (select-After database_error
              (λ t. filter (λ r. not (str_eq r.state text) && involves_player r p.id) t.races) d
              (λ t. (t.races ≡ rs) × (t.players ≡ ps)) k)
    where
      go : (x : Option String) → Same (lift {E = CommandError} (ok_or x database_error) c).1
      go x = h

  discord_lem :
      (uid : String) (c : Connection)
      → Same c
      → After
          (λ o d. Same d × (o ≡ player_of uid ps))
          Same
          (get_by_discord_id {E = CommandError} database_error uid c)
  unfolding get_by_discord_id
  discord_lem uid c h =
      After-of (get_by_discord_id {E = CommandError} database_error uid c) (λ o e. ground arith)
        (λ e k. ground arith)

  chosen_lem :
      (p : Player) (at : ℕ) (races : List BracketRace) (opp : Option Player) (t : CommandSession V)
      → Same t.conn
      → ((r : BracketRace) → Memᴰ r races → Memᴰ r rs × (involves_player r p.id ≡ true))
      → OwnRace (some p) (schedule_chosen json posting views eastern at (choose_race races opp) t).1
  unfolding schedule_chosen
  chosen_lem p at races opp t h own = go (choose_race races opp) refl
    where
      go :
          (c : Result ScheduleReply BracketRace)
          → choose_race races opp ≡ c
          → OwnRace (some p) (schedule_chosen json posting views eastern at c t).1
      go (err reply) e = inl h.0
      go (ok r) e =
          let (m, against) = choose_race_lem races opp e in
          let (stands, involved) = own r m in
          elim (schedule_race_lem json posting rs r at t h.0) [
            | inl same ↦ inl same
            | inr (stored, unfinished) ↦ inr (r, stands, involved, unfinished, stored)
          ]

  against_lem :
      (p : Player) (at : ℕ) (opp : Option (Option Player)) (t : CommandSession V)
      → Same t.conn
      → OwnRace (some p) (against json posting views eastern p at opp t).1
  unfolding against
  against_lem p at none t h = inl h.0
  against_lem p at (some opp) t h = after (
      bind-After
        (λ races u.
          Same u.conn
          × ((r : BracketRace) → Memᴰ r races → Memᴰ r rs × (involves_player r p.id ≡ true)))
        (db (get_unfinished_races_for_player database_error json p)) _ t
        (weaken (λ u k. inl k.0)
          (db-After _ Same (get_unfinished_races_for_player database_error json p) t
            (unfinished_lem p t.conn h)))
        λ races u k. same-After {I = OwnRace (some p)} _ (chosen_lem p at races opp u k.0 k.1))

  opponent_lem :
      (o : Option String) (t : CommandSession V)
      → Same t.conn
      → Same (find_opponent json posting views eastern o t).1.conn
  unfolding find_opponent get_by_discord_id
  opponent_lem none t h = h
  opponent_lem (some o) t h = ground arith

  named_lem :
      (uid : String) (p : Player) (at : ℕ) (o : Option String) (self : Bool) (t : CommandSession V)
      → Same t.conn
      → OwnRace
          (some p)
          ((if self then pure not_yourself else (do
            opp ← find_opponent json posting views eastern o
            against json posting views eastern p at opp))
            t).1
  named_lem uid p at o true t h = inl h.0
  named_lem uid p at o false t h = after (
      bind-After (λ _ u. Same u.conn) (find_opponent json posting views eastern o) _ t
        (weaken (λ u k. inl k.0) (same-After {I = λ u. Same u.conn} _ (opponent_lem o t h)))
        λ opp u k. same-After {I = OwnRace (some p)} _ (against_lem p at opp u k))

  for_player_lem :
      (uid : String) (at : ℕ) (o : Option Player) (t : CommandSession V)
      → Same t.conn
      → OwnRace o (for_player json posting views eastern uid at o t).1
  unfolding for_player against_named
  for_player_lem uid at none t h = h.0
  for_player_lem uid at (some p) t h = after (
      bind-After (λ _ u. Same u.conn)
        (on_options (
          map_err (λ e. invalid_option "opponent")
            (find_opt_as views views.as_user "opponent" user)))
        _ t (weaken (λ u k. inl k.0) (same-After {I = λ u. Same u.conn} _ h))
        λ o u k. same-After {I = OwnRace (some p)} _ (named_lem uid p at o _ u k))

  with_time_lem :
      (uid : String) (at : Result CommandError ℕ) (t : CommandSession V)
      → Same t.conn
      → OwnRace (player_of uid ps) (with_time json posting views eastern uid at t).1
  unfolding with_time
  with_time_lem uid (err e) t h = same_OwnRace (player_of uid ps) t h.0
  with_time_lem uid (ok at) t h = after (
      bind-After (λ o u. Same u.conn × (o ≡ player_of uid ps))
        (db (get_by_discord_id database_error uid)) _ t
        (weaken (λ u k. same_OwnRace (player_of uid ps) u k.0)
          (db-After (λ o c. Same c × (o ≡ player_of uid ps)) Same
            (get_by_discord_id database_error uid) t (discord_lem uid t.conn h)))
        λ o u k.
          same-After {I = OwnRace (player_of uid ps)}
            (for_player json posting views eastern uid at o u)
            (subst (λ x. OwnRace x (for_player json posting views eastern uid at o u).1) k.1
              (for_player_lem uid at o u k.0)))

pub datetime-conn :
    {V : Type 0} (views : OptionValues V) (eastern : Eastern) (s : CommandSession V)
    → (get_datetime_from_scheduling_cmd eastern views s).1.conn ≡ s.conn
unfolding get_datetime_from_scheduling_cmd
datetime-conn {V} views eastern s = after (
    string_then views I "day" _ s refl λ day s1 h1.
      integer_then views I "hour" _ s1 h1 λ hour s2 h2.
        integer_then views I "minute" _ s2 h2 λ minute s3 h3.
          string_then views I "am_pm" _ s3 h3 λ ampm s4 h4.
            same-After {I = λ t. I t.conn}
              (lift (datetime_from_options eastern day hour minute ampm) s4) h4)
  where
    I : Connection → Type 0
    I c = c ≡ s.conn

-- Whoever sends the command, whatever its options are and however the database answers: the races
-- are as they were, or exactly the rows of one race are marked as scheduled; that race stands in
-- the table, it is not finished, and it is a race of the registered player who sent the command.
pub handle_schedule_race_cmd-OwnRace :
    {V : Type 0} (json : RaceJson) (posting : Posting) (views : OptionValues V) (eastern : Eastern)
    (uid : String) (s : CommandSession V)
    → OwnRace json posting views eastern s.conn.tables.races s.conn.tables.players
        (player_of uid s.conn.tables.players)
        (handle_schedule_race_cmd json posting views eastern (some uid) s).1
unfolding handle_schedule_race_cmd
handle_schedule_race_cmd-OwnRace json posting views eastern uid s =
    with_time_lem json posting views eastern s.conn.tables.races s.conn.tables.players uid
      (get_datetime_from_scheduling_cmd eastern views s).0
      (get_datetime_from_scheduling_cmd eastern views s).1
      (
        ap (λ c. c.tables.races) (datetime-conn views eastern s),
        ap (λ c. c.tables.players) (datetime-conn views eastern s),
      )
