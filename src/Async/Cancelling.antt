-- ===== src/Async/Cancelling.antt =====
-- A race is cancelled with all of its runs and nothing else, or not at all.
use nmg_league_bot.Base.{
  inr, false, inl, false, ◌⊎◌, some, ◌==◌, Bool, ℕ, ◌≡◌, List, [], ◌∷◌, Result, ok, err, subst,
  refl, sym, ◌∙◌, ap, arith,
}
use nmg_league_bot.Base.Methods.{continue}
use nmg_league_bot.Runs.{AsyncRace, AsyncRaceRun, RaceState, RaceRunState}
use nmg_league_bot.Tables.{first_where, Connection, Tables}
use nmg_league_bot.Async.Store.{AsyncError, cancel, cancel_races, cancel_runs, get_by_id, get_runs}
use nmg_league_bot.Async.Handlers.{
  CancelReply, cancelled, are_you_sure, actually_cancel_race, handle_cancel_race, cancel_found,
  Decision, handle_cancel_race_started,
}

-- a row before and after: the race is cancelled, any other one is as it was
abbrev RaceRow : ℕ → AsyncRace → AsyncRace → Type 0
RaceRow i x y =
    ((x.id ≡ i) × (y ≡ record x { state = RaceState.cancelled_by_admin }))
    ⊎ (((x.id == i) ≡ false) × (y ≡ x))

abbrev RunRow : ℕ → AsyncRaceRun → AsyncRaceRun → Type 0
RunRow i x y =
    ((x.race_id ≡ i) × (y ≡ record x { state = RaceRunState.cancelled_by_admin }))
    ⊎ (((x.race_id == i) ≡ false) × (y ≡ x))

abbrev Rows : {A : Type 0} → (A → A → Type 0) → List A → List A → Type 0
Rows P [] [] = Unit
Rows P (x ∷ xs) (y ∷ ys) = P x y × Rows P xs ys
Rows P _ _ = ⊥

-- the race and all of its runs are cancelled, and nothing else in the tables changes
pub record Cancelled (i : ℕ) (t u : Tables) : Type 0 where
  pub its_race : Rows (RaceRow i) t.async_races u.async_races
  pub its_runs : Rows (RunRow i) t.runs u.runs
  pub the_rest : u ≡ record t { async_races = u.async_races; runs = u.runs }

cancel_races-Row : (i : ℕ) (xs : List AsyncRace) → Rows (RaceRow i) xs (cancel_races i xs)
unfolding cancel_races
cancel_races-Row i [] = tt
cancel_races-Row i (x ∷ xs) = (ground arith, cancel_races-Row i xs)

cancel_runs-Row : (i : ℕ) (xs : List AsyncRaceRun) → Rows (RunRow i) xs (cancel_runs i xs)
unfolding cancel_runs
cancel_runs-Row i [] = tt
cancel_runs-Row i (x ∷ xs) = (ground arith, cancel_runs-Row i xs)

rows_Cancelled :
    (i : ℕ) (t : Tables)
    → Cancelled i t
        (record t { async_races = cancel_races i t.async_races; runs = cancel_runs i t.runs })
rows_Cancelled i t = record {
  its_race = cancel_races-Row i t.async_races;
  its_runs = cancel_runs-Row i t.runs;
  the_rest = refl;
}

-- a cancellation: done, or not done, or done with a racer who was not told
abbrev pub CancelledOrNot : ℕ → Bool → Connection → Result AsyncError Unit × Connection → Type 0
CancelledOrNot i told c (ok _, d) = Cancelled i c.tables d.tables
CancelledOrNot i told c (err _, d) =
    (d.tables ≡ c.tables) ⊎ ((told ≡ false) × Cancelled i c.tables d.tables)

actually_lem :
    (race : AsyncRace) (told : Bool) (c : Connection)
    → CancelledOrNot race.id told c (actually_cancel_race race told c)
unfolding actually_cancel_race cancel
actually_lem race told c = ground (arith, rows_Cancelled race.id c.tables)

-- only the button cancels
abbrev Decided : ℕ → Decision → Bool → Connection → Result AsyncError Unit × Connection → Type 0
Decided i Decision.really_cancel told c x = CancelledOrNot i told c x
Decided i _ told c x = x.1 ≡ c

decided_lem :
    (race : AsyncRace) (decision : Decision) (told : Bool) (c : Connection)
    → Decided race.id decision told c (handle_cancel_race_started race decision told c)
unfolding handle_cancel_race_started
decided_lem race Decision.really_cancel told c = actually_lem race told c
decided_lem race Decision.other_button told c = refl
decided_lem race Decision.no_button told c = refl
decided_lem race Decision.no_decision told c = refl

-- the race that the command read is in its first state
abbrev Found : ℕ → Connection → AsyncRace → Type 0
Found i c race =
    (first_where (λ r. r.id == i) c.tables.async_races ≡ some race)
    × (race.state ≡ RaceState.created)

module _ (i : ℕ) (told : Bool) (c : Connection) (decision : Decision) (later : Connection) where
  -- `later` is the connection when the decision comes
  abbrev pub Replied : Result AsyncError CancelReply × Connection → Type 0
  Replied (ok cancelled, d) = Cancelled i c.tables d.tables × ((race : AsyncRace) × Found i c race)
  Replied (ok (are_you_sure race), d) =
      (d.tables ≡ c.tables)
      × Found i c race
      × Decided i decision told later (handle_cancel_race_started race decision told later)
  Replied (err _, d) = (d.tables ≡ c.tables) ⊎ ((told ≡ false) × Cancelled i c.tables d.tables)

first_where-id :
    (i : ℕ) (xs : List AsyncRace) {r : AsyncRace}
    → first_where (λ r. r.id == i) xs ≡ some r
    → r.id ≡ i
unfolding first_where
first_where-id i [] h = cc
first_where-id i (x ∷ xs) {r} h = ground (arith, first_where-id i xs {r = r})

-- what the command does with the race that it has read
abbrev RepliedFound :
    Bool → AsyncRace → Connection → Result AsyncError CancelReply × Connection → Type 0
RepliedFound told race c (ok cancelled, d) =
    Cancelled race.id c.tables d.tables × (race.state ≡ RaceState.created)
RepliedFound told race c (ok (are_you_sure asked), d) =
    (d.tables ≡ c.tables) × (asked ≡ race) × (race.state ≡ RaceState.created)
RepliedFound told race c (err _, d) =
    (d.tables ≡ c.tables) ⊎ ((told ≡ false) × Cancelled race.id c.tables d.tables)

cancel_found_lem :
    (told : Bool) (race : AsyncRace) (c : Connection)
    → RepliedFound told race c (cancel_found told race c)
unfolding actually_cancel_race get_runs cancel
cancel_found_lem told race c = ground (arith, rows_Cancelled race.id c.tables)

abbrev Read : ℕ → Connection → Result AsyncError AsyncRace × Connection → Type 0
Read i c (ok race, d) =
    (first_where (λ r. r.id == i) c.tables.async_races ≡ some race)
    × (race.id ≡ i)
    × (d.tables ≡ c.tables)
Read i c (err _, d) = d.tables ≡ c.tables

get_by_id_lem : (i : ℕ) (c : Connection) → Read i c (get_by_id i c)
unfolding get_by_id
get_by_id_lem i c = grind (arith, first_where-id)

module _ (i : ℕ) (told : Bool) (c : Connection) (decision : Decision) (later : Connection) where
  moved :
      (race : AsyncRace) (d e : Connection)
      → Read i c (ok race, d)
      → Cancelled race.id d.tables e.tables
      → Cancelled i c.tables e.tables
  moved race d e h k =
      subst (λ t. Cancelled i t e.tables) h.2 (subst (λ j. Cancelled j d.tables e.tables) h.1 k)

  same_tables :
      (race : AsyncRace) (d : Connection) (x : Result AsyncError CancelReply × Connection)
      → Read i c (ok race, d)
      → RepliedFound told race d x
      → Replied i told c decision later x
  same_tables race d (ok cancelled, e) h k = (moved race d e h k.0, (race, (h.0, k.1)))
  same_tables race d (ok (are_you_sure asked), e) h k = (
    k.0 ∙ h.2,
    (h.0 ∙ ap some (sym k.1), ap (λ r. r.state) k.1 ∙ k.2),
    subst
        (λ j. Decided j decision told later (handle_cancel_race_started asked decision told later))
        (ap (λ r. r.id) k.1 ∙ h.1) (decided_lem asked decision told later),
  )
  same_tables race d (err x, e) h (inl k) = inl (k ∙ h.2)
  same_tables race d (err x, e) h (inr k) = inr (k.0, moved race d e h k.1)

  replied :
      (read : Result AsyncError AsyncRace × Connection)
      → Read i c read
      → Replied i told c decision later (continue read.0 (cancel_found told) read.1)
  replied (err e, d) h = inl h
  replied (ok race, d) h =
      same_tables race d (cancel_found told race d) h (cancel_found_lem told race d)

-- However the database answers, and whatever the tables are when the user decides: if the command says
-- that the race is cancelled, the race that it read was in its first state, and it and all of its runs
-- are cancelled, and nothing else changes; if it asks first, nothing has changed, and then the race
-- that it read and all of its runs are cancelled, in whatever state they are by then, if the user is
-- sure, and else nothing changes; a failure changes nothing, or all is cancelled and a racer was not
-- told.
pub handle_cancel_race_lem :
    (i : ℕ) (told : Bool) (c : Connection) (decision : Decision) (later : Connection)
    → Replied i told c decision later (handle_cancel_race i told c)
unfolding handle_cancel_race
handle_cancel_race_lem i told c decision later =
    replied i told c decision later (get_by_id i c) (get_by_id_lem i c)
