-- ===== src/Commands/Scheduling/Effects.antt =====
-- What the scheduling command does to the races.
use nmg_league_bot.Base.{
  ℕ, ◌≡◌, ◌≢◌, refl, ap, ◌∙◌, Bool, true, false, List, Result, ok, err, arith, ◌⊎◌, inl, inr,
  if◌then◌else◌,
}
use nmg_league_bot.Base.Triples.{weaken, After, succeeded, failed, after, same-After, bind-After}
use nmg_league_bot.Race.{
  BracketRace, BracketRaceState, BracketRaceStateError, RaceJson, state, state_text,
}
use nmg_league_bot.Tables.{BracketRaceInfo, Connection, update_race}
use nmg_league_bot.RaceInfo.{update_info}
use nmg_league_bot.RaceInfo.Effects.{schedule_races}
use nmg_league_bot.Players.{get_by_discord_id}
use nmg_league_bot.Players
use nmg_league_bot.Commands.Requests.{CommandError, CommandSession, database_error}
use nmg_league_bot.Commands.Scheduling.{
  Posting, schedule_row, announce, schedule_race, store_post, both_found, try_player,
  refuse_finished,
}

-- the races after scheduling one of them, if it succeeds
abbrev pub Marked : RaceJson → List BracketRace → BracketRace → List BracketRace → Type 0
Marked json rs race later =
    later ≡ update_race (record race { state = state_text json BracketRaceState.scheduled }) rs

lookup-tables :
    (i : ℕ) (c : Connection)
    → (Players.get_by_id {E = CommandError} database_error i c).1.tables ≡ c.tables
unfolding Players.get_by_id
lookup-tables i c = ground arith

module _ {V : Type 0} (json : RaceJson) (posting : Posting) (rs : List BracketRace) where
  abbrev Untouched : CommandSession V → Type 0
  Untouched t = t.conn.tables.races ≡ rs

  abbrev MarkedOrNot : BracketRace → CommandSession V → Type 0
  MarkedOrNot race t = Untouched t ⊎ Marked json rs race t.conn.tables.races

  store_if :
      (b : Bool) (info : BracketRaceInfo) (t : CommandSession V)
      → (if b then store_post json posting info t else (ok tt, t)).1.conn.tables.races
        ≡ t.conn.tables.races
  unfolding store_post update_info
  store_if true info t = ground arith
  store_if false info t = refl

  announce_lem :
      (race : BracketRace) (info : BracketRaceInfo) (t : CommandSession V)
      → (announce json posting race info t).1.conn.tables.races ≡ t.conn.tables.races
  unfolding announce
  announce_lem race info t =
      let a = try_player json posting race.player_1_id t in
      let b = try_player json posting race.player_2_id a.1 in
      store_if (both_found a.0 b.0) info b.1
      ∙ ap (λ x. x.races)
          (lookup-tables race.player_2_id a.1.conn ∙ lookup-tables race.player_1_id t.conn)

  schedule_row_lem :
      (race : BracketRace) (at : ℕ) (t : CommandSession V)
      → Untouched t
      → MarkedOrNot race (schedule_row json posting race at t).1
  unfolding schedule_row
  schedule_row_lem race at t h =
      elim (schedule_races json at (record { race = race; conn = t.conn })) [
        | inl same ↦ inl (same ∙ h)
        | inr stored ↦ inr (stored ∙ ap (update_race _) h)
      ]

  refuse_lem :
      (st : Result BracketRaceStateError BracketRaceState) (t : CommandSession V)
      → Untouched t
      → After
          (λ _ u. Untouched u × (st ≢ ok BracketRaceState.finished))
          Untouched
          (refuse_finished json posting st t)
  refuse_lem (err e) t h = failed h
  refuse_lem (ok BracketRaceState.new) t h = succeeded (h, λ e. cc)
  refuse_lem (ok BracketRaceState.scheduled) t h = succeeded (h, λ e. cc)
  refuse_lem (ok BracketRaceState.finished) t h = failed h

  -- the race is not finished if it is marked
  abbrev pub MarkedUnfinished : BracketRace → CommandSession V → Type 0
  MarkedUnfinished race t =
      Untouched t
      ⊎ (Marked json rs race t.conn.tables.races × (state json race ≢ ok BracketRaceState.finished))

  pub schedule_race_lem :
      (race : BracketRace) (at : ℕ) (t : CommandSession V)
      → Untouched t
      → MarkedUnfinished race (schedule_race json posting race at t).1
  unfolding schedule_race
  schedule_race_lem race at t h = after (
      bind-After (λ _ u. Untouched u × (state json race ≢ ok BracketRaceState.finished))
        (refuse_finished json posting (state json race)) _ t
        (weaken (λ _ u. inl u) (refuse_lem (state json race) t h))
        λ _ u k.
          bind-After (λ _. MarkedUnfinished race) (schedule_row json posting race at) _ u
            (same-After {I = MarkedUnfinished race} (schedule_row json posting race at u)
              (elim (schedule_row_lem race at u k.0) [
                | inl same ↦ inl same
                | inr stored ↦ inr (stored, k.1)
              ]))
            λ infos v m.
              same-After {I = MarkedUnfinished race} (announce json posting race infos.1 v)
                (elim m [
                  | inl same ↦ inl (announce_lem race infos.1 v ∙ same)
                  | inr (stored, unfinished) ↦
                      inr (announce_lem race infos.1 v ∙ stored, unfinished)
                ]))
