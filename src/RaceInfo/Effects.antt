-- ===== src/RaceInfo/Effects.antt =====
-- What scheduling does to the races.
use nmg_league_bot.Base.{ℕ, ◌≡◌, refl, ◌∙◌, arith, ◌⊎◌, inl}
use nmg_league_bot.Race.{BracketRace, BracketRaceState, RaceJson, state, database_error, state_text}
use nmg_league_bot.Tables.{BracketRaceInfo, Connection, update_race}
use nmg_league_bot.Base.Methods.{◌>>=◌}
use nmg_league_bot.Base.Triples.{After, after, weaken, same-After, bind-After}
use nmg_league_bot.RaceInfo.{
  on_race, db, refuse_finished, RaceSession, schedule, reschedule, get_or_create_for_bracket,
}

get_or_create-races :
    (race : BracketRace) (c : Connection)
    → (get_or_create_for_bracket database_error race c).1.tables.races ≡ c.tables.races
unfolding get_or_create_for_bracket
get_or_create-races race c = ground arith

module _ (json : RaceJson) (at : ℕ) (s : RaceSession) where
  abbrev Before : RaceSession → Type 0
  Before t = (t.race ≡ s.race) × (t.conn.tables.races ≡ s.conn.tables.races)

  abbrev pub Scheduled : RaceSession → Type 0
  Scheduled t =
      (t.conn.tables.races ≡ s.conn.tables.races)
      ⊎ (t.conn.tables.races
          ≡ update_race (record s.race { state = state_text json BracketRaceState.scheduled })
              s.conn.tables.races)

  reschedule_races :
      (first : BracketRaceInfo) (t : RaceSession)
      → Before t
      → Scheduled (reschedule json at first t).1
  unfolding reschedule
  reschedule_races first t h = ground arith

  refuse_Before :
      (st : BracketRaceState) (t : RaceSession) → Before t → Before (refuse_finished json st t).1
  refuse_Before BracketRaceState.new t h = h
  refuse_Before BracketRaceState.scheduled t h = h
  refuse_Before BracketRaceState.finished t h = h

  with_info :
      (t : RaceSession)
      → Before t
      → After
          (λ _. Scheduled)
          Scheduled
          ((do
            prior ← db (get_or_create_for_bracket database_error t.race)
            reschedule json at prior)
            t)
  with_info t h =
      bind-After (λ _. Before) (db (get_or_create_for_bracket database_error t.race)) _ t
        (weaken (λ t h. inl h.1)
          (same-After {I = Before} (db (get_or_create_for_bracket database_error t.race) t)
            (h.0, get_or_create-races t.race t.conn ∙ h.1)))
        λ prior t h.
          same-After {I = Scheduled} (reschedule json at prior t) (reschedule_races prior t h)

  pub schedule_races : Scheduled (schedule json at s).1
  unfolding schedule
  schedule_races = after (
      bind-After (λ _. Before) (on_race (λ r. (state json r, r))) _ s
        (weaken (λ t h. inl h.1)
          (same-After {I = Before} (on_race (λ r. (state json r, r)) s) (refl, refl)))
        λ st t h.
          bind-After (λ _. Before) (refuse_finished json st) _ t
            (weaken (λ t h. inl h.1)
              (same-After {I = Before} (refuse_finished json st t) (refuse_Before st t h)))
            λ u t h. with_info t h)
