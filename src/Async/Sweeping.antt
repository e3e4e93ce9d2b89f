-- ===== src/Async/Sweeping.antt =====
-- What the worker of src/workers/async_race_worker.rs makes of a race.
use nmg_league_bot.Base.Methods.{continue, ◌>>◌}
use nmg_league_bot.Base.{
  inl, refl, ◌∙◌, ◌&&◌, Result, ok, err, if◌then◌else◌, false, ◌⊎◌, ◌≡◌, Bool, true, List, [], ◌∷◌,
  arith, ◌==◌, filter,
}
use nmg_league_bot.Runs.{AsyncRace, AsyncRaceRun}
use nmg_league_bot.Runs.Steps
use nmg_league_bot.Tables.{Connection, Tables}
use nmg_league_bot.Async.Store.{
  AsyncError, exactly_two, save_run, save_race, get_runs, update_async_race,
}
use nmg_league_bot.Async.Handlers.{notify_racer, Contact}
use nmg_league_bot.Async.Worker.{
  Discord, notify_created, handle_runs, handle_finished_race, handle_race, finish_race, abandon,
}

abbrev pub runs_of : AsyncRace → Tables → List AsyncRaceRun
runs_of race t = filter (λ r. r.race_id == race.id) t.runs

-- two runs, both with a video or forfeited
abbrev pub BothFinished : List AsyncRaceRun → Type 0
BothFinished (a ∷ b ∷ []) = (Steps.is_finished a ≡ true) × (Steps.is_finished b ≡ true)
BothFinished _ = ⊥

abbrev NotTwo : List AsyncRaceRun → Type 0
NotTwo (a ∷ b ∷ []) = ⊥
NotTwo _ = Unit

abbrev RefusedFirst : Connection → Type 0
RefusedFirst c = (rest : List Bool) × (c.refused ≡ true ∷ rest)

-- the ways in which the worker leaves the races of the tables
abbrev pub Fate : AsyncRace → Connection → Connection → Type 0
Fate race c d =
    (d.tables.async_races ≡ c.tables.async_races)
    ⊎ ((BothFinished (runs_of race c.tables)
          × (d.tables ≡ record c.tables {
            async_races = update_async_race (finish_race race) c.tables.async_races;
          }))
        ⊎ ((NotTwo (runs_of race c.tables) ⊎ RefusedFirst c)
            × (d.tables ≡ record c.tables {
              async_races = update_async_race (abandon race) c.tables.async_races;
            })))

module _ (discord : Discord) (race : AsyncRace) where
  notified_same :
      (contact : Contact) (run : AsyncRaceRun) (c : Connection)
      → (notify_created contact run c).1.tables.async_races ≡ c.tables.async_races
  unfolding notify_racer save_run
  notified_same contact run c = ground arith

  both_notified :
      (r1 r2 : AsyncRaceRun) (c : Connection)
      → ((do notify_created (discord.contact r1) r1; notify_created (discord.contact r2) r2)
          c).1.tables.async_races
        ≡ c.tables.async_races
  both_notified r1 r2 c = go (notify_created (discord.contact r1) r1 c) (notified_same _ r1 c)
    where
      go :
          (x : Result AsyncError Unit × Connection)
          → x.1.tables.async_races ≡ c.tables.async_races
          → (continue x.0 (λ _. notify_created (discord.contact r2) r2) x.1).1.tables.async_races
            ≡ c.tables.async_races
      go (ok u, d) h = notified_same _ r2 d ∙ h
      go (err e, d) h = h

  -- the same, for a race with these runs
  abbrev FateOf : List AsyncRaceRun → Connection → Connection → Type 0
  FateOf rows c d =
      (d.tables.async_races ≡ c.tables.async_races)
      ⊎ ((BothFinished rows
            × (d.tables ≡ record c.tables {
              async_races = update_async_race (finish_race race) c.tables.async_races;
            }))
          ⊎ (NotTwo rows
              × (d.tables ≡ record c.tables {
                async_races = update_async_race (abandon race) c.tables.async_races;
              })))

  two-FateOf :
      (b : Bool) (r1 r2 : AsyncRaceRun) (c : Connection)
      → (Steps.is_finished r1 && Steps.is_finished r2) ≡ b
      → FateOf
          (r2 ∷ r1 ∷ [])
          c
          ((if b then handle_finished_race discord race r1 r2 else (do
            notify_created (discord.contact r1) r1
            notify_created (discord.contact r2) r2))
            c).1
  unfolding save_race
  two-FateOf true r1 r2 c h = ground arith
  two-FateOf false r1 r2 c h = inl (both_notified r1 r2 c)

  runs-FateOf :
      (rows : List AsyncRaceRun) (c : Connection)
      → FateOf rows c (handle_runs discord race (exactly_two rows) c).1
  unfolding save_race
  runs-FateOf [] c = ground arith
  runs-FateOf (x ∷ []) c = ground arith
  runs-FateOf (x ∷ y ∷ []) c = two-FateOf (Steps.is_finished y && Steps.is_finished x) y x c refl
  runs-FateOf (x ∷ y ∷ z ∷ rows) c = ground arith

  abbrev at : Tables → List Bool → Connection
  at t bs = record { tables = t; refused = bs }

  weaker :
      (t : Tables) (bs cs : List Bool) (e : Connection)
      → FateOf (runs_of race t) (at t bs) e
      → Fate race (at t cs) e
  weaker t bs cs e k = ground (arith, k)

  refused-Fate :
      (bs : List Bool) (t : Tables) → Fate race (at t bs) (handle_race discord race (at t bs)).1
  unfolding handle_race get_runs save_race
  refused-Fate [] t =
      weaker t [] [] (handle_race discord race (at t [])).1 (runs-FateOf (runs_of race t) (at t []))
  refused-Fate (false ∷ bs) t =
      weaker t bs (false ∷ bs) (handle_race discord race (at t (false ∷ bs))).1
        (runs-FateOf (runs_of race t) (at t bs))
  refused-Fate (true ∷ bs) t = ground arith

-- However the database and Discord answer, and also if the worker panics: it leaves the races as they
-- are; or it marks the race as finished, which it does only if the race has two runs that both have a
-- video or are forfeited; or it abandons the race, only if there are not two runs or the query for
-- them is refused.
pub handle_race-Fate :
    (discord : Discord) (race : AsyncRace) (c : Connection)
    → Fate race c (handle_race discord race c).1
handle_race-Fate discord race c = refused-Fate discord race c.refused c.tables

-- If the database refuses the query for the runs and then takes the update, the race is abandoned,
-- whatever runs it has.
pub refused_query_abandons :
    (discord : Discord) (race : AsyncRace) (c : Connection) {rest : List Bool}
    → c.refused ≡ true ∷ false ∷ rest
    → (handle_race discord race c).1.tables
      ≡ record c.tables { async_races = update_async_race (abandon race) c.tables.async_races }
unfolding handle_race get_runs save_race
refused_query_abandons discord race c h = ground arith
