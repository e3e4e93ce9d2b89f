-- ===== src/Async/Owners.antt =====
-- Runs that stay with their races, and rows found by their ids.
use nmg_league_bot.Base.{
  ℕ, ◌≡◌, refl, Option, none, some, false, List, [], ◌∷◌, All, filter, arith, ◌==◌,
}
use nmg_league_bot.Runs.{AsyncRace, AsyncRaceRun, RaceState}
use nmg_league_bot.Tables.{first_where}
use nmg_league_bot.Async.Worker.{RacerId, racer_id}
use nmg_league_bot.Async.Store.{update_async_race, update_run}

abbrev pub race_with : ℕ → List AsyncRace → Option AsyncRace
race_with i = first_where (λ r. r.id == i)

abbrev pub runs_with : ℕ → List AsyncRaceRun → List AsyncRaceRun
runs_with i = filter (λ r. r.race_id == i)

abbrev pub IsDone : Option AsyncRace → Type 0
IsDone none = ⊥
IsDone (some r) = r.state ≡ RaceState.finished

module _ (owner : ℕ → ℕ) where
  -- the run's id says which race it belongs to, and its racer's id can be read
  abbrev pub Known : AsyncRaceRun → Type 0
  Known x = (owner x.id ≡ x.race_id) × (racer_id x.racer_id ≡ RacerId.readable)

  abbrev pub AllKnown : List AsyncRaceRun → Type 0
  AllKnown = All Known

  pub update_run-AllKnown :
      (r : AsyncRaceRun) (rs : List AsyncRaceRun)
      → Known r
      → AllKnown rs
      → AllKnown (update_run r rs)
  unfolding update_run
  update_run-AllKnown r [] h k = tt
  update_run-AllKnown r (x ∷ rs) h k = ground (arith, update_run-AllKnown r rs h)

  pub runs_with-update_run :
      (i : ℕ) (r : AsyncRaceRun) (rs : List AsyncRaceRun)
      → Known r
      → (r.race_id == i) ≡ false
      → AllKnown rs
      → runs_with i (update_run r rs) ≡ runs_with i rs
  unfolding update_run filter
  runs_with-update_run i r [] h k o = refl
  runs_with-update_run i r (x ∷ rs) h k o = ground (arith, runs_with-update_run i r rs h k)

  pub runs_with-AllKnown :
      (q : ℕ) (rs : List AsyncRaceRun)
      → AllKnown rs
      → All (λ x. Known x × (x.race_id ≡ q)) (runs_with q rs)
  unfolding filter
  runs_with-AllKnown q [] o = tt
  runs_with-AllKnown q (x ∷ rs) o = ground (arith, runs_with-AllKnown q rs)

module _ (i : ℕ) where
  pub race_with-update_other :
      (r : AsyncRace) (rs : List AsyncRace)
      → (r.id == i) ≡ false
      → race_with i (update_async_race r rs) ≡ race_with i rs
  unfolding first_where update_async_race
  race_with-update_other r [] h = refl
  race_with-update_other r (x ∷ rs) h = ground (arith, race_with-update_other r rs h)

  abbrev pub IsFinished : List AsyncRace → Type 0
  IsFinished rs = IsDone (race_with i rs)

  pub race_with-update_same :
      (r : AsyncRace) (rs : List AsyncRace) {x : AsyncRace}
      → r.id ≡ i
      → r.state ≡ RaceState.finished
      → race_with i rs ≡ some x
      → IsFinished (update_async_race r rs)
  unfolding first_where update_async_race
  race_with-update_same r [] h k e = cc
  race_with-update_same r (y ∷ rs) {x} h k e =
      ground (arith, race_with-update_same r rs {x = x} h k)
