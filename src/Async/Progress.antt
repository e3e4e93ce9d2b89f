-- ===== src/Async/Progress.antt =====
-- A race whose runs are both done is finished by the next sweep.
use nmg_league_bot.Base.{
  ℕ, ◌≡◌, refl, sym, subst, ◌∙◌, Option, none, some, true, false, List, [], ◌∷◌, All, any, filter,
  arith, ◌==◌, ◌⊎◌, inl, inr, Bool-cases, Result, ok,
}
use nmg_league_bot.Runs.{AsyncRace, AsyncRaceRun, RaceState}
use nmg_league_bot.Tables.{Connection, first_where, select}
use nmg_league_bot.Async.Store.{AsyncError, save_race, exactly_two}
use nmg_league_bot.Async.Sweeping.{BothFinished}
use nmg_league_bot.Async.Handlers.{is_created_race}
use nmg_league_bot.Async.Worker.{
  handle_race, handle_races, handle_runs, finish_race, sweep, Discord,
}
use nmg_league_bot.Async.Owners.{
  race_with, runs_with, IsDone, Known, AllKnown, runs_with-AllKnown, race_with-update_same,
  IsFinished,
}
use nmg_league_bot.Async.Keeping.{Inv, calm, found_runs, other_lem}

module _ (owner : ℕ → ℕ) where
  module _ (i : ℕ) where
    abbrev Finishes : Result AsyncError Unit × Connection → Type 0
    Finishes x = (x.0 ≡ ok tt) × Inv owner i x.1 × IsFinished i x.1.tables.async_races

    finished_lem :
        (d : Discord) (q : AsyncRace) (rs : List AsyncRaceRun) (c : Connection) {x : AsyncRace}
        → Inv owner i c
        → q.id ≡ i
        → BothFinished rs
        → All (λ x. Known owner x × (x.race_id ≡ q.id)) rs
        → race_with i c.tables.async_races ≡ some x
        → Finishes (handle_runs d q (exactly_two rs) c)
    unfolding save_race
    finished_lem d q [] c h same f a found = absurd f
    finished_lem d q (x ∷ []) c h same f a found = absurd f
    finished_lem d q (y ∷ z ∷ []) c {x} h same f a found = ground (
      arith,
      h,
      f,
      calm (d.fits q) z y a.1.0.0.1 a.0.0.1,
      race_with-update_same i (finish_race q) c.tables.async_races {x = x} same refl found,
    )
    finished_lem d q (x ∷ y ∷ z ∷ rs) c h same f a found = absurd f

    same_lem :
        (d : Discord) (q : AsyncRace) (c : Connection) {x : AsyncRace}
        → Inv owner i c
        → q.id ≡ i
        → race_with i c.tables.async_races ≡ some x
        → Finishes (handle_race d q c)
    same_lem d q c {x} h same found = subst Finishes (sym (found_runs owner i d q c h)) (
        finished_lem d q (runs_with q.id c.tables.runs) c {x = x} h same
          (subst (λ j. BothFinished (runs_with j c.tables.runs)) (sym same) h.2)
          (runs_with-AllKnown owner q.id c.tables.runs h.1) found)

    -- the race is finished already, or it is there and still to come
    abbrev Coming : List AsyncRace → Connection → Type 0
    Coming qs c =
        IsFinished i c.tables.async_races
        ⊎ ((any (λ q. q.id == i) qs ≡ true)
            × ((x : AsyncRace) × (race_with i c.tables.async_races ≡ some x)))

    present : (rs : List AsyncRace) → IsFinished i rs → (x : AsyncRace) × (race_with i rs ≡ some x)
    present rs h = go (race_with i rs) h
      where
        go : (o : Option AsyncRace) → IsDone o → (x : AsyncRace) × (o ≡ some x)
        go none h = absurd h
        go (some x) h = (x, refl)

    there :
        (qs : List AsyncRace) (c : Connection)
        → Coming qs c
        → (x : AsyncRace) × (race_with i c.tables.async_races ≡ some x)
    there qs c (inl done) = present c.tables.async_races done
    there qs c (inr k) = k.1

    still :
        (q : AsyncRace) (qs : List AsyncRace) (c d : Connection)
        → (q.id == i) ≡ false
        → race_with i d.tables.async_races ≡ race_with i c.tables.async_races
        → Coming (q ∷ qs) c
        → Coming qs d
    still q qs c d other e (inl done) = inl (subst IsDone (sym e) done)
    still q qs c d other e (inr (k, (x, f))) = inr (ground arith, (x, e ∙ f))

    handled_lem :
        (d : Discord) (qs : List AsyncRace) (c : Connection)
        → Inv owner i c
        → Coming qs c
        → IsFinished i (handle_races d qs c).1.tables.async_races
    unfolding handle_races
    handled_lem d [] c h (inl done) = done
    handled_lem d [] c h (inr k) = cc
    handled_lem d (q ∷ qs) c h k = elim (Bool-cases (q.id == i)) [
      | inl same ↦
          let found = there (q ∷ qs) c k in
          let (fine, inv, done) = same_lem d q c {x = found.0} h (ground arith) found.1 in
          rw fine (handled_lem d qs (handle_race d q c).1 inv (inl done))
      | inr other ↦
          let (fine, (inv, e)) = other_lem owner i d q c h other in
          rw fine (
            handled_lem d qs (handle_race d q c).1 inv
              (still q qs c (handle_race d q c).1 other e k))
    ]

    coming :
        (rs : List AsyncRace) {r : AsyncRace}
        → race_with i rs ≡ some r
        → r.state ≡ RaceState.created
        → any (λ q. q.id == i) (filter (λ x. is_created_race x.state) rs) ≡ true
    unfolding first_where filter
    coming [] h k = cc
    coming (y ∷ rs) {r} h k = ground (arith, coming rs {r = r})

-- If nothing is refused, the id of a run says which race it belongs to, the racers' ids in the runs can
-- be read, and both runs of a race in its first state have a video or are forfeited: however Discord
-- answers, the next `sweep` marks the race as finished.
pub sweep-IsFinished :
    (owner : ℕ → ℕ) (i : ℕ) (d : Discord) (c : Connection) {r : AsyncRace}
    → c.refused ≡ []
    → AllKnown owner c.tables.runs
    → BothFinished (runs_with i c.tables.runs)
    → race_with i c.tables.async_races ≡ some r
    → r.state ≡ RaceState.created
    → IsDone (race_with i (sweep d c).1.tables.async_races)
unfolding sweep select
sweep-IsFinished owner i d c {r} accepted known done found created =
    subst
      (λ refused.
        IsDone (race_with i (sweep d (record c { refused = refused })).1.tables.async_races))
      (sym accepted)
      (handled_lem owner i d (filter (λ x. is_created_race x.state) c.tables.async_races)
        (record c { refused = [] }) (refl, known, done)
        (inr (coming owner i c.tables.async_races {r = r} found created, (r, found))))
