-- ===== src/Commands/Reports/Loading.antt =====
-- The race that the options of a command for results name.
use nmg_league_bot.Base.Triples.{After, succeeded, same-After, After-of}
use nmg_league_bot.Base.{
  ℕ, ◌≡◌, refl, ap, ◌∙◌, Option, some, Bool, false, List, [], ◌∷◌, sym, ok_or, String, arith, ◌==◌,
}
use nmg_league_bot.Race.{BracketRace, RaceJson, PlayerResult}
use nmg_league_bot.Tables.{Connection, first_where, update_race}
use nmg_league_bot.RaceInfo.Queries.{get_by_id, info, players}
use mathlib.Core.Option.{some-injective}
use nmg_league_bot.Commands.Options.{OptionValues, as_i32}
use nmg_league_bot.Commands.Steps.{string_then, integer_then, maybe_then, lift_then, db_then}
use nmg_league_bot.Commands.Requests.{
  CommandError, CommandSession, not_found, database_error, parse_finish_time_error,
}
use nmg_league_bot.Commands.Reports.{
  RaceFinishOptions, load_race_finish_opts, parse_race_result,
  get_race_finish_opts_from_command_opts,
}

abbrev pub race_with : ℕ → List BracketRace → Option BracketRace
race_with i = first_where (λ x. x.id == i)

pub race_with-update_race :
    (i : ℕ) (r : BracketRace) (rs : List BracketRace) {x : BracketRace}
    → race_with i rs ≡ some x
    → (r.id == i) ≡ false
    → race_with i (update_race r rs) ≡ some x
unfolding first_where update_race
race_with-update_race i r [] h k = h
race_with-update_race i r (y ∷ rs) {x = x} h k =
    ground (arith, race_with-update_race i r rs {x = x})

pub race_with-id :
    (i : ℕ) (rs : List BracketRace) {x : BracketRace} → race_with i rs ≡ some x → x.id ≡ i
unfolding first_where
race_with-id i [] h = cc
race_with-id i (y ∷ rs) {x = x} h = ground (arith, race_with-id i rs {x = x})

-- two races that are found, one by the id of the other, are one
pub found_same :
    (i j : ℕ) (rs : List BracketRace) {x y : BracketRace}
    → race_with i rs ≡ some x
    → race_with j rs ≡ some y
    → y.id ≡ i
    → x ≡ y
found_same i j rs {x = x} {y = y} h k e =
    some-injective _ _ (sym h ∙ ap (λ n. race_with n rs) (sym e ∙ race_with-id j rs k) ∙ k)

abbrev pub Races : List BracketRace → Connection → Type 0
Races rs c = c.tables.races ≡ rs

pub get_by_id-Races :
    (rs : List BracketRace) (i : ℕ) (c : Connection)
    → Races rs c
    → After
        (λ r d. Races rs d × (race_with i rs ≡ some r))
        (Races rs)
        (get_by_id database_error not_found i c)
unfolding get_by_id
get_by_id-Races rs i c h =
    After-of (get_by_id database_error not_found i c) (λ r e. ground arith) (λ e k. ground arith)

pub info-Races :
    (rs : List BracketRace) (r : BracketRace) (c : Connection)
    → Races rs c
    → Races rs (info {E = CommandError} database_error r c).1
unfolding info
info-Races rs r c h = ground arith

pub players-Races :
    (rs : List BracketRace) (r : BracketRace) (c : Connection)
    → Races rs c
    → Races rs (players database_error not_found r c).1
unfolding players
players-Races rs r c h = ground arith

module _ {V : Type 0} (views : OptionValues V) (json : RaceJson) (rs : List BracketRace) where
  -- the options are of a race of the table
  abbrev pub OfRace : Bool → RaceFinishOptions → CommandSession V → Type 0
  OfRace force o t =
      Races rs t.conn
      × ((i : ℕ) × (race_with i rs ≡ some o.bracket_race))
      × (o.force_update ≡ force)

  loaded :
      (force : Bool) (i : ℕ) (r1 r2 : PlayerResult) (url : Option String) (s : CommandSession V)
      → Races rs s.conn
      → After
          (OfRace force)
          (λ t. Races rs t.conn)
          (load_race_finish_opts views json force i r1 r2 url s)
  unfolding load_race_finish_opts
  loaded force i r1 r2 url s h =
      db_then (Races rs) (λ r c. Races rs c × (race_with (as_i32 i) rs ≡ some r))
        (get_by_id database_error not_found (as_i32 i)) _ s (get_by_id-Races rs (as_i32 i) s.conn h)
        λ r s1 h1.
          db_then (Races rs) (λ _. Races rs) (info database_error r) _ s1
            (same-After _ (info-Races rs r s1.conn h1.0))
            λ b s2 h2.
              db_then (Races rs) (λ _. Races rs) (players database_error not_found r) _ s2
                (same-After _ (players-Races rs r s2.conn h2))
                λ ps s3 h3. succeeded (h3, (as_i32 i, h1.1), refl)

  pub opts_lem :
      (force : Bool) (s : CommandSession V)
      → Races rs s.conn
      → After
          (OfRace force)
          (λ t. Races rs t.conn)
          (get_race_finish_opts_from_command_opts views json force s)
  unfolding get_race_finish_opts_from_command_opts
  opts_lem force s h = integer_then views (Races rs) "race_id" _ s h λ i s1 h1.
      string_then views (Races rs) "p1_result" _ s1 h1 λ x s2 h2.
        string_then views (Races rs) "p2_result" _ s2 h2 λ y s3 h3.
          maybe_then views (Races rs) "racetime_url" _ s3 h3 λ url s4 h4.
            lift_then (Races rs) (ok_or (parse_race_result x) parse_finish_time_error) _ s4 h4
              λ r1 e1.
                lift_then (Races rs) (ok_or (parse_race_result y) parse_finish_time_error) _ s4 h4
                  λ r2 e2. loaded force i r1 r2 url s4 h4
