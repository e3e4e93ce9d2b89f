-- ===== src/Async/Keeping.antt =====
-- A step of the sweep of asynchronous races leaves the other races as they are, and does not panic.
use nmg_league_bot.Base.{
  ℕ, ◌≡◌, refl, sym, subst, ◌∙◌, Bool, true, false, ◌&&◌, List, [], ◌∷◌, All, arith, ◌==◌, Result,
  ok, err, Method, if◌then◌else◌,
}
use nmg_league_bot.Base.Methods.{reported, continue, pure, throw, ◌>>◌}
use nmg_league_bot.Runs.{AsyncRace, AsyncRaceRun, is_created}
use nmg_league_bot.Runs.Steps
use nmg_league_bot.Tables.{Connection}
use nmg_league_bot.Async.Store.{AsyncError, panicked, save_run, save_race, get_runs, exactly_two}
use nmg_league_bot.Async.Sweeping.{BothFinished}
use nmg_league_bot.Async.Handlers.{notify_racer, myself, sent, failed, Contact}
use nmg_league_bot.Async.Worker.{
  handle_race, handle_runs, notify_created, finish_race, abandon, Discord, RacerId, racer_id,
  finished_panics, handle_finished_race, logged, is_zero,
}
use nmg_league_bot.Async.Owners.{
  race_with, runs_with, Known, AllKnown, update_run-AllKnown, runs_with-update_run,
  runs_with-AllKnown, race_with-update_other,
}

-- racers that can be read are reported without a panic
pub calm :
    (fits : Bool) (r1 r2 : AsyncRaceRun)
    → racer_id r1.racer_id ≡ RacerId.readable
    → racer_id r2.racer_id ≡ RacerId.readable
    → finished_panics fits r1 r2 ≡ false
calm fits r1 r2 h k = ground arith

module _ (owner : ℕ → ℕ) where
  module _ (i : ℕ) where
    -- what the sweep keeps: nothing is refused, runs stay with their races, and the race is done
    abbrev pub Inv : Connection → Type 0
    Inv c =
        (c.refused ≡ []) × AllKnown owner c.tables.runs × BothFinished (runs_with i c.tables.runs)

    abbrev pub Kept : Connection → Connection → Type 0
    Kept c d = Inv d × (race_with i d.tables.async_races ≡ race_with i c.tables.async_races)

    saved_lem :
        (run : AsyncRaceRun) (c : Connection)
        → Inv c
        → Known owner run
        → (run.race_id == i) ≡ false
        → Kept c (reported (save_run run) c)
    unfolding save_run
    saved_lem run c h k other = ground (
      arith,
      h,
      update_run-AllKnown owner run c.tables.runs,
      runs_with-update_run owner i run c.tables.runs,
    )

    notify_lem :
        (contact : Contact) (run : AsyncRaceRun) (c : Connection)
        → Inv c
        → Known owner run
        → (run.race_id == i) ≡ false
        → Kept c (reported (notify_racer contact run) c)
    unfolding notify_racer
    notify_lem myself run c h k other = saved_lem (Steps.contact_succeeded run) c h k other
    notify_lem (sent mid) run c h k other =
        saved_lem (Steps.contact_succeeded (Steps.set_message_id mid run)) c h k other
    notify_lem failed run c h k other = (h, refl)

    -- a step that ends without a panic and keeps this
    abbrev pub Went : Connection → Result AsyncError Unit × Connection → Type 0
    Went c x = (x.0 ≡ ok tt) × Kept c x.1

    then_lem :
        (m n : Method Connection AsyncError Unit) (c : Connection)
        → Went c (m c)
        → ((d : Connection) → Inv d → Went d (n d))
        → Went c ((m >> n) c)
    then_lem m n c h k = go (m c).0 (m c).1 h
      where
        go :
            (r : Result AsyncError Unit) (d : Connection)
            → Went c (r, d)
            → Went c (continue r (λ _. n) d)
        go (ok x) d h = let (fine, (inv, e)) = k d h.1.0 in (fine, (inv, e ∙ h.1.1))
        go (err x) d h = cc

    if_created_lem :
        (b : Bool) (z : RacerId) (contact : Contact) (run : AsyncRaceRun) (c : Connection)
        → z ≡ RacerId.readable
        → Inv c
        → Known owner run
        → (run.race_id == i) ≡ false
        → Went c (
            (if b
                then if is_zero z then throw panicked else logged (notify_racer contact run)
                else pure tt)
              c)
    if_created_lem true RacerId.readable contact run c e h k other =
        (refl, notify_lem contact run c h k other)
    if_created_lem true RacerId.unreadable contact run c e h k other = cc
    if_created_lem true RacerId.zero_id contact run c e h k other = cc
    if_created_lem false z contact run c e h k other = (refl, (h, refl))

    created_lem :
        (contact : Contact) (run : AsyncRaceRun) (c : Connection)
        → Inv c
        → Known owner run
        → (run.race_id == i) ≡ false
        → Went c (notify_created contact run c)
    created_lem contact run c h k other =
        if_created_lem (is_created run.state) (racer_id run.racer_id) contact run c k.1 h k other

    race_lem :
        (q : AsyncRace) (c : Connection)
        → Inv c
        → (q.id == i) ≡ false
        → Kept c (reported (save_race q) c)
    unfolding save_race
    race_lem q c h other = ground (arith, h, race_with-update_other i q c.tables.async_races other)

    both_lem :
        (b : Bool) (d : Discord) (q : AsyncRace) (r1 r2 : AsyncRaceRun) (c : Connection)
        → Inv c
        → (q.id == i) ≡ false
        → Known owner r1 × (r1.race_id ≡ q.id)
        → Known owner r2 × (r2.race_id ≡ q.id)
        → Went c (
            (if b
                then handle_finished_race d q r1 r2
                else (do notify_created (d.contact r1) r1; notify_created (d.contact r2) r2))
              c)
    both_lem true d q r1 r2 c h other k1 k2 =
        rw (calm (d.fits q) r1 r2 k1.0.1 k2.0.1) (refl, race_lem (finish_race q) c h other)
    both_lem false d q r1 r2 c h other k1 k2 =
        then_lem (notify_created (d.contact r1) r1) (notify_created (d.contact r2) r2) c
          (created_lem (d.contact r1) r1 c h k1.0 (ground (arith, k1, other)))
          (λ e inv. created_lem (d.contact r2) r2 e inv k2.0 (ground (arith, k2, other)))

    runs_lem :
        (d : Discord) (q : AsyncRace) (rs : List AsyncRaceRun) (c : Connection)
        → Inv c
        → (q.id == i) ≡ false
        → All (λ x. Known owner x × (x.race_id ≡ q.id)) rs
        → Went c (handle_runs d q (exactly_two rs) c)
    runs_lem d q [] c h other a = (refl, race_lem (abandon q) c h other)
    runs_lem d q (x ∷ []) c h other a = (refl, race_lem (abandon q) c h other)
    runs_lem d q (x ∷ y ∷ []) c h other a =
        both_lem (Steps.is_finished y && Steps.is_finished x) d q y x c h other a.1.0 a.0
    runs_lem d q (x ∷ y ∷ z ∷ rs) c h other a = (refl, race_lem (abandon q) c h other)

    -- nothing is refused, so that the runs are those of the table
    pub found_runs :
        (d : Discord) (q : AsyncRace) (c : Connection)
        → Inv c
        → handle_race d q c ≡ handle_runs d q (exactly_two (runs_with q.id c.tables.runs)) c
    unfolding handle_race get_runs
    found_runs d q c h =
        subst
          (λ refused.
            handle_race d q (record c { refused = refused })
            ≡ handle_runs d q (exactly_two (runs_with q.id c.tables.runs))
                (record c { refused = refused }))
          (sym h.0) refl

    pub other_lem :
        (d : Discord) (q : AsyncRace) (c : Connection)
        → Inv c
        → (q.id == i) ≡ false
        → Went c (handle_race d q c)
    other_lem d q c h other = subst (Went c) (sym (found_runs d q c h)) (
        runs_lem d q (runs_with q.id c.tables.runs) c h other
          (runs_with-AllKnown owner q.id c.tables.runs h.1))
