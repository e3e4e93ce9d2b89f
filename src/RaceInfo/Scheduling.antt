-- ===== src/RaceInfo/Scheduling.antt =====
-- What scheduling a race does to its info, its signups and its row.
use nmg_league_bot.Base.Methods.{bind-eq-ok, ◌>>=◌, gets}
use nmg_league_bot.Base.{
  String, length, sym, ap, subst, Result, Method, ◌∙◌, ℕ, ◌≡◌, refl, Bool, true, false, not, ◌==◌,
  List, [], ◌∷◌, some, none, ok, err, filter, arith,
}
use nmg_league_bot.Tables.{Tables, next_id, BracketRaceInfo, CommentatorSignup, first_where}
use nmg_league_bot.Race.{
  BracketRaceStateError, BracketRace, state, BracketRaceState, invalid_state, database_error,
  is_finished_state, RaceJson, state_text,
}
use nmg_league_bot.RaceInfo.Rows.{
  has_info, other_infos, other_races, AllIn, first-HasFirst, has_last, other_last, first_updated,
  other_updated, race_updated, other_races_updated, length-update_race,
}
use nmg_league_bot.RaceInfo.{
  new_info, on_race, db, refuse_finished, get_or_create_for_bracket, reschedule, RaceSession,
  schedule,
}

abbrev pub of_info : BracketRaceInfo → CommentatorSignup → Bool
of_info info x = x.bracket_race_info_id == info.id

pub record Rescheduled (at : ℕ) (prior info : BracketRaceInfo) : Type 0 where
  pub new_time : info.scheduled_for ≡ some at
  pub no_room : info.racetime_gg_url ≡ none
  pub same_id : info.id ≡ prior.id
  pub same_race : info.bracket_race_id ≡ prior.bracket_race_id
  pub same_commportunities : info.commportunities_message_id ≡ prior.commportunities_message_id
  pub same_restream_channel : info.restream_channel ≡ prior.restream_channel

filter_twice :
    (p : CommentatorSignup → Bool) (xs : List CommentatorSignup)
    → filter p (filter (λ x. not (p x)) xs) ≡ []
unfolding filter
filter_twice p [] = refl
filter_twice p (x ∷ xs) = ground (arith, filter_twice p xs)

-- What is stored: the info is the row with its id, the race's row has the state, and the other rows
-- of both tables are as they were.
pub record Stored (race : BracketRace) (text : String) (info : BracketRaceInfo) (t u : Tables)
    : Type 0 where
  pub info_row : first_where (λ x. x.id == info.id) u.infos ≡ some info
  pub other_info_rows : other_infos info.id u.infos ≡ other_infos info.id t.infos
  pub race_row : AllIn race.id text u.races
  pub other_race_rows : other_races race.id u.races ≡ other_races race.id t.races
  pub same_races : length u.races ≡ length t.races

module _ (json : RaceJson) (at : ℕ) where
  reschedule_lem :
      (s : RaceSession) (first : BracketRaceInfo) {prior info : BracketRaceInfo}
      → has_info first.id s.conn.tables.infos ≡ true
      → (reschedule json at first s).0 ≡ ok (prior, info)
      → (prior ≡ first)
        × Rescheduled at prior info
        × (filter (of_info info) (reschedule json at first s).1.conn.tables.signups ≡ [])
        × ((reschedule json at first s).1.race.state ≡ state_text json BracketRaceState.scheduled)
  unfolding reschedule
  reschedule_lem s first {prior} {info} k h =
      ground (arith, filter_twice (of_info info) s.conn.tables.signups)

  stored_lem :
      (s : RaceSession) (first : BracketRaceInfo) {prior info : BracketRaceInfo}
      → has_info first.id s.conn.tables.infos ≡ true
      → (reschedule json at first s).0 ≡ ok (prior, info)
      → Stored s.race
          (state_text json BracketRaceState.scheduled)
          info
          s.conn.tables
          (reschedule json at first s).1.conn.tables
  unfolding reschedule
  stored_lem s first {prior} {info} k h =
      let new : BracketRaceInfo = record first {
        racetime_gg_url = none;
        scheduled_for = some at;
      } in
      let race = record s.race { state = state_text json BracketRaceState.scheduled } in
      ground (
        arith,
        first_updated new s.conn.tables.infos,
        other_updated new s.conn.tables.infos,
        race_updated race s.conn.tables.races,
        other_races_updated race s.conn.tables.races,
        length-update_race race s.conn.tables.races,
      )

-- the session once the race's info is there
pub record HasInfo (s : RaceSession) (first : BracketRaceInfo) (t : RaceSession) : Type 0 where
  pub same_race : t.race ≡ s.race
  pub same_rows : t.conn.tables.races ≡ s.conn.tables.races
  pub is_there : has_info first.id t.conn.tables.infos ≡ true
  pub others : other_infos first.id t.conn.tables.infos ≡ other_infos first.id s.conn.tables.infos

abbrev HasInfoIn : RaceSession → Result BracketRaceStateError BracketRaceInfo × RaceSession → Type 0
HasInfoIn s (ok first, t) = HasInfo s first t
HasInfoIn s (err e, t) = Unit

created_lem :
    (s : RaceSession) → HasInfoIn s (db (get_or_create_for_bracket database_error s.race) s)
unfolding get_or_create_for_bracket
created_lem s =
    let new : BracketRaceInfo = new_info s.race (next_id (λ x. x.id) s.conn.tables.infos) in
    ground (
      arith,
      first-HasFirst s.race.id s.conn.tables.infos,
      has_last new s.conn.tables.infos,
      other_last new s.conn.tables.infos,
    )

refuse_finished_same :
    (json : RaceJson) (now : BracketRaceState) (s : RaceSession)
    → (refuse_finished json now s).1 ≡ s
refuse_finished_same json BracketRaceState.new s = refl
refuse_finished_same json BracketRaceState.scheduled s = refl
refuse_finished_same json BracketRaceState.finished s = refl

module _ (json : RaceJson) (at : ℕ) (s : RaceSession) where
  abbrev with_race :
      BracketRace → Method RaceSession BracketRaceStateError (BracketRaceInfo × BracketRaceInfo)
  with_race race = db (get_or_create_for_bracket database_error race) >>= reschedule json at

  abbrev after_guard :
      Unit {0} → Method RaceSession BracketRaceStateError (BracketRaceInfo × BracketRaceInfo)
  after_guard _ = gets (λ x. x.race) >>= with_race

  from_start :
      (first info : BracketRaceInfo) (t : RaceSession) (text : String) (u : Tables)
      → HasInfo s first t
      → info.id ≡ first.id
      → Stored t.race text info t.conn.tables u
      → Stored s.race text info s.conn.tables u
  from_start first info t text u h k stored = record {
    info_row = stored.info_row;
    other_info_rows =
        stored.other_info_rows
        ∙ subst (λ i. other_infos i t.conn.tables.infos ≡ other_infos i s.conn.tables.infos) (sym k)
            h.others;
    race_row = subst (λ r. AllIn r.id text u.races) h.same_race stored.race_row;
    other_race_rows =
        subst (λ r. other_races r.id u.races ≡ other_races r.id t.conn.tables.races) h.same_race
          stored.other_race_rows
        ∙ ap (other_races s.race.id) h.same_rows;
    same_races = stored.same_races ∙ ap length h.same_rows;
  }

  schedule-reschedule :
      {infos : BracketRaceInfo × BracketRaceInfo}
      → (schedule json at s).0 ≡ ok infos
      → (first : BracketRaceInfo) × (t : RaceSession) × HasInfo s first t
        × (schedule json at s ≡ reschedule json at first t)
  unfolding schedule
  schedule-reschedule h =
      let (now, s1, e1, f1) =
        bind-eq-ok (on_race (λ r. (state json r, r)))
          (λ now. refuse_finished json now >>= after_guard) s h in
      let (u, s2, e2, f2) = bind-eq-ok (refuse_finished json now) after_guard s1 (rw f1 at h) in
      let (first, t, e3, f3) =
        bind-eq-ok (db (get_or_create_for_bracket database_error s2.race)) (reschedule json at) s2
          (rw (f1 ∙ f2) at h) in
      let same : s2 ≡ s =
        sym (ap (λ x. x.1) e2) ∙ refuse_finished_same json now s1 ∙ sym (ap (λ x. x.1) e1) in
      (
        first,
        t,
        subst (λ x. HasInfo x first t) same (subst (HasInfoIn s2) e3 (created_lem s2)),
        f1 ∙ f2 ∙ f3,
      )

  -- However the database answers: if scheduling succeeds, the info has the new time and no racetime
  -- room, no signup for it is left, and the race is marked as scheduled; the info and the race's new
  -- state are in the tables, where the other infos and the other races are as they were.
  pub schedule_lem :
      {prior info : BracketRaceInfo}
      → (schedule json at s).0 ≡ ok (prior, info)
      → Rescheduled at prior info
        × (filter (of_info info) (schedule json at s).1.conn.tables.signups ≡ [])
        × ((schedule json at s).1.race.state ≡ state_text json BracketRaceState.scheduled)
        × Stored s.race
            (state_text json BracketRaceState.scheduled)
            info
            s.conn.tables
            (schedule json at s).1.conn.tables
  unfolding schedule
  schedule_lem {prior} {info} h =
      let (first, t, there, e) = schedule-reschedule h in
      let k : (reschedule json at first t).0 ≡ ok (prior, info) = rw e at h in
      let known = reschedule_lem json at t first there.is_there k in
      let stored = stored_lem json at t first there.is_there k in
      rw e (
        known.1,
        known.2,
        known.3,
        from_start first info t (state_text json BracketRaceState.scheduled)
            (reschedule json at first t).1.conn.tables there
            (known.1.same_id ∙ ap (λ i. i.id) known.0) stored,
      )

  -- A finished race is not scheduled again, and nothing changes.
  pub schedule_finished :
      json.state_json.from_str s.race.state ≡ some BracketRaceState.finished
      → schedule json at s ≡ (err (invalid_state BracketRaceState.finished), s)
  unfolding schedule
  schedule_finished h = ground arith

  -- For an unfinished race with an info, the signups are deleted before the transaction: if the
  -- database takes the statements before it and then refuses to begin it, the call fails, the race
  -- and its info are as they were in the tables, and the signups are gone.
  pub schedule_loses_signups :
      {now : BracketRaceState} {info : BracketRaceInfo} {rest : List Bool}
      → json.state_json.from_str s.race.state ≡ some now
      → is_finished_state now ≡ false
      → first_where (λ i. i.bracket_race_id == s.race.id) s.conn.tables.infos ≡ some info
      → s.conn.refused ≡ false ∷ false ∷ false ∷ false ∷ true ∷ rest
      → ((schedule json at s).0 ≡ err database_error)
        × ((schedule json at s).1.conn.tables.infos ≡ s.conn.tables.infos)
        × ((schedule json at s).1.conn.tables.races ≡ s.conn.tables.races)
        × (filter (of_info info) (schedule json at s).1.conn.tables.signups ≡ [])
  unfolding schedule reschedule get_or_create_for_bracket
  schedule_loses_signups {now} {info} h k e d =
      ground (arith, filter_twice (of_info info) s.conn.tables.signups)
