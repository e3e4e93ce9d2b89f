-- ===== src/Commands/Reports/Reported.antt =====
-- Which races the two commands for results change.
use nmg_league_bot.Base.Methods.{◌>>=◌, ◌>>◌}
use nmg_league_bot.Base.Triples.{after, bind-After, weaken, after, same-After}
use nmg_league_bot.Base.{
  ◌≢◌, ℕ, ◌≡◌, refl, ap, subst, ◌∙◌, some, Bool, true, false, List, Result, sym, ◌≢◌, ok, err,
  arith, inl, inr, ◌⊎◌,
}
use nmg_league_bot.Race.{
  BracketRace, BracketRaceState, BracketRaceStateError, RaceJson, add_results, PlayerResult, state,
  is_finished_state,
}
use nmg_league_bot.Tables.{update_race}
use nmg_league_bot.Scanner.Storing.{trigger_race_finish}
use nmg_league_bot.Commands.Options.{OptionValues}
use nmg_league_bot.Commands.Requests.{CommandError, Command, CommandSession, race_error}
use nmg_league_bot.Commands.Reports.{
  report_error, BracketRaceStateError, finish_race, trigger_race_finish, require_reported,
  report_error, finish_race, RaceFinishOptions, get_race_finish_opts_from_command_opts,
  handle_report_race, handle_rereport_race,
}
use nmg_league_bot.Commands.Reports.Loading.{
  Races, race_with, race_with-update_race, found_same, OfRace, opts_lem,
}

module _ {V : Type 0} (views : OptionValues V) (json : RaceJson) (s : CommandSession V) where
  abbrev races : List BracketRace
  races = s.conn.tables.races

  -- what storing the results of the options does to the races
  abbrev Stored : RaceFinishOptions → List BracketRace → Type 0
  Stored o rs =
      (rs ≡ races)
      ⊎ (((add_results json (some o.player_1_result) (some o.player_2_result) o.force_update
              o.bracket_race).0
            ≡ ok tt)
          × (rs
              ≡ update_race
                  (add_results json (some o.player_1_result) (some o.player_2_result) o.force_update
                    o.bracket_race).1
                  races))

  finish_race_lem :
      (on_error : BracketRaceStateError → CommandError) (o : RaceFinishOptions)
      (t : CommandSession V)
      → Races races t.conn
      → Stored o (finish_race views json on_error o t).1.conn.tables.races
  unfolding finish_race trigger_race_finish
  finish_race_lem on_error o t h = ground arith

  add_results-id :
      (p1 p2 : PlayerResult) (force : Bool) (r : BracketRace)
      → (add_results json (some p1) (some p2) force r).1.id ≡ r.id
  unfolding add_results
  add_results-id p1 p2 force r = ground arith

  module _ (i : ℕ) {r : BracketRace} (found : race_with i races ≡ some r) where
    -- the race stays if it is not the one of the options
    kept :
        (o : RaceFinishOptions) (rs : List BracketRace)
        → Stored o rs
        → o.bracket_race.id ≢ i
        → race_with i rs ≡ some r
    kept o rs (inl same) other = rw same found
    kept o rs (inr (taken, stored)) other = rw stored (
        race_with-update_race i
          (add_results json (some o.player_1_result) (some o.player_2_result) o.force_update
            o.bracket_race).1
          races found
          (ground (
            arith,
            add_results-id o.player_1_result o.player_2_result o.force_update o.bracket_race,
          )))

    -- a race that `add_results` refuses is not the one that is stored
    kept_refused :
        (o : RaceFinishOptions) (rs : List BracketRace) (j : ℕ)
        → race_with j races ≡ some o.bracket_race
        → (r ≡ o.bracket_race
            → (add_results json
                (some o.player_1_result)
                (some o.player_2_result)
                o.force_update
                o.bracket_race).0
              ≢ ok tt)
        → Stored o rs
        → race_with i rs ≡ some r
    kept_refused o rs j loaded refused (inl same) = rw same found
    kept_refused o rs j loaded refused (inr (taken, stored)) =
        kept o rs (inr (taken, stored)) (λ e. refused (found_same i j races found loaded e) taken)

    finished_refuses :
        (r1 r2 : PlayerResult) (b : BracketRace)
        → json.state_json.from_str b.state ≡ some BracketRaceState.finished
        → (add_results json (some r1) (some r2) false b).0 ≢ ok tt
    unfolding add_results
    finished_refuses r1 r2 b h = ground arith

  -- the race is there after reading the options
  abbrev Kept : ℕ → BracketRace → CommandSession V → Type 0
  Kept i r t = race_with i t.conn.tables.races ≡ some r

  opts_then :
      (force : Bool) (i : ℕ) {r : BracketRace} (f : RaceFinishOptions → Command V Unit)
      → race_with i races ≡ some r
      → ((o : RaceFinishOptions) (t : CommandSession V)
          → OfRace views json races force o t
          → Kept i r (f o t).1)
      → Kept i r ((get_race_finish_opts_from_command_opts views json force >>= f) s).1
  opts_then force i {r = r} f found k = after (
      bind-After (OfRace views json races force)
        (get_race_finish_opts_from_command_opts views json force) f s
        (weaken {Q' = Kept i r} (λ t same. ap (race_with i) same ∙ found)
          (opts_lem views json races force s refl))
        λ o t h. same-After {I = Kept i r} (f o t) (k o t h))

  -- Whatever the options are and however the database answers: `handle_report_race` leaves a race
  -- that is finished already as it is.
  pub handle_report_race-finished :
      (i : ℕ) {r : BracketRace}
      → race_with i s.conn.tables.races ≡ some r
      → json.state_json.from_str r.state ≡ some BracketRaceState.finished
      → race_with i (handle_report_race views json s).1.conn.tables.races ≡ some r
  unfolding handle_report_race
  handle_report_race-finished i {r = r} found fin = opts_then false i _ found λ o t h.
      kept_refused i found o _ h.1.0 h.1.1
        (λ e taken.
          finished_refuses i found o.player_1_result o.player_2_result o.bracket_race
            (subst (λ b. json.state_json.from_str b.state ≡ some BracketRaceState.finished) e fin)
            (subst
              (λ f.
                (add_results json (some o.player_1_result) (some o.player_2_result) f
                  o.bracket_race).0
                ≡ ok tt)
              h.2 taken))
        (finish_race_lem report_error o t h.0)

  finish_reported :
      (o : RaceFinishOptions) (t : CommandSession V) (i : ℕ) {r : BracketRace}
      (st : Result BracketRaceStateError BracketRaceState)
      → race_with i races ≡ some r
      → OfRace views json races true o t
      → state json o.bracket_race ≡ st
      → ((r ≡ o.bracket_race) → st ≢ ok BracketRaceState.finished)
      → Kept i r ((do require_reported views json st; finish_race views json race_error o) t).1
  finish_reported o t i (err e) found h is other = ap (race_with i) h.0 ∙ found
  finish_reported o t i (ok BracketRaceState.new) found h is other = ap (race_with i) h.0 ∙ found
  finish_reported o t i (ok BracketRaceState.scheduled) found h is other =
      ap (race_with i) h.0 ∙ found
  finish_reported o t i (ok BracketRaceState.finished) found h is other =
      kept_refused i found o _ h.1.0 h.1.1 (λ e taken. other e refl)
        (finish_race_lem race_error o t h.0)

  not_finished :
      (r : BracketRace) {st : BracketRaceState}
      → json.state_json.from_str r.state ≡ some st
      → is_finished_state st ≡ false
      → state json r ≢ ok BracketRaceState.finished
  unfolding state
  not_finished r h k = ground arith

  -- Whatever the options are and however the database answers: `handle_rereport_race` leaves a race
  -- that is not finished as it is.
  pub handle_rereport_race-unfinished :
      (i : ℕ) {r : BracketRace} {st : BracketRaceState}
      → race_with i s.conn.tables.races ≡ some r
      → json.state_json.from_str r.state ≡ some st
      → is_finished_state st ≡ false
      → race_with i (handle_rereport_race views json s).1.conn.tables.races ≡ some r
  unfolding handle_rereport_race
  handle_rereport_race-unfinished i {r = r} {st = st} found is other =
      opts_then true i _ found λ o t h.
        finish_reported o t i (state json o.bracket_race) found h refl (λ e done.
          not_finished r is other
            (subst (λ b. state json b ≡ ok BracketRaceState.finished) (sym e) done))
