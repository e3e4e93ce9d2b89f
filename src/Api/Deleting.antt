-- ===== src/Api/Deleting.antt =====
-- When a submission is deleted.
use nmg_league_bot.Base.{
  ℕ, ◌≡◌, refl, ap, sym, subst, ◌∙◌, Option, none, some, Bool, true, false, not, List, [], ◌∷◌,
  Result, ok, err, filter, ok_or, arith, ◌==◌, ◌⊎◌,
}
use nmg_league_bot.Base.Methods.{lift, map_err, ◌>>=◌}
use nmg_league_bot.Base.Triples.{After, After-of, succeeded, failed, bind-After, map-After}
use nmg_league_bot.Tables.Steps.{select-After}
use nmg_league_bot.Tables.{
  QualifierSubmission, Season, Connection, Tables, select, write, first_where,
}
use nmg_league_bot.Bracket.{PairingCrates}
use nmg_league_bot.Season.{SeasonJson, SeasonState, safe_to_delete_qualifiers}
use nmg_league_bot.Commands.Registration
use nmg_league_bot.Commands.Registration.{safe_to_delete}
use nmg_league_bot.Api.{◌∷◌, ApiError, league_bot_error, delete_if, delete_qualifier}

module _ (json : SeasonJson) (i : ℕ) (t : Tables) where
  -- the season is there, and its state is that of open or of closed qualifiers
  abbrev pub HasQualifiers : Option Season → Type 0
  HasQualifiers none = ⊥
  HasQualifiers (some s) =
      (json.season_json.from_str s.state ≡ some SeasonState.qualifiers_open)
      ⊎ (json.season_json.from_str s.state ≡ some SeasonState.qualifiers_closed)

  -- the submission is there, and it is for such a season
  abbrev pub MayDelete : Option QualifierSubmission → Type 0
  MayDelete none = ⊥
  MayDelete (some q) = HasQualifiers (first_where (λ s. s.id == q.season_id) t.seasons)

  -- An error changes nothing; a success deletes the submission, and it may be deleted.
  abbrev pub Deleted : Result ApiError Unit × Connection → Type 0
  Deleted (err e, c) = c.tables ≡ t
  Deleted (ok _, c) =
      MayDelete (first_where (λ x. x.id == i) t.qualifiers)
      × (c.tables ≡ record t { qualifiers = filter (λ x. not (x.id == i)) t.qualifiers })

  abbrev Same : Connection → Type 0
  Same c = c.tables ≡ t

  safe_lem :
      (crates : PairingCrates) (now : ℕ) (q : QualifierSubmission) (c : Connection)
      → Same c
      → After
          (λ b d.
            Same d × (b ≡ true → HasQualifiers (first_where (λ s. s.id == q.season_id) t.seasons)))
          Same
          (map_err (λ e. league_bot_error) (safe_to_delete json crates now q) c)
  unfolding safe_to_delete select safe_to_delete_qualifiers
  safe_lem crates now q c h =
      After-of (map_err (λ e. league_bot_error) (safe_to_delete json crates now q) c)
        (λ b e. ground (arith, h)) (λ x e. ground (arith, h))

  submission-id :
      (qs : List QualifierSubmission) {q : QualifierSubmission}
      → first_where (λ x. x.id == i) qs ≡ some q
      → q.id ≡ i
  unfolding first_where
  submission-id [] h = cc
  submission-id (x ∷ qs) {q} h = ground (arith, submission-id qs {q = q})

  abbrev Ended : Unit {0} → Connection → Type 0
  Ended _ c = Deleted (ok tt, c)

  to_deleted : (x : Result ApiError Unit × Connection) → After Ended Same x → Deleted x
  to_deleted (ok _, c) (succeeded h) = h
  to_deleted (err e, c) (failed h) = h

  delete_lem :
      (crates : PairingCrates) (now : ℕ) (q : QualifierSubmission) (b : Bool) (c : Connection)
      → Same c
      → first_where (λ x. x.id == i) t.qualifiers ≡ some q
      → (b ≡ true → HasQualifiers (first_where (λ s. s.id == q.season_id) t.seasons))
      → After Ended Same (delete_if json crates now i q b c)
  unfolding delete_if Registration.delete_qualifier write
  delete_lem crates now q false c h found safe = failed h
  delete_lem crates now q true c h found safe =
      After-of (map_err (λ e. league_bot_error) (Registration.delete_qualifier json crates now q) c)
        (λ _ e. (
          subst MayDelete (sym found) (safe refl),
          subst
              (λ j.
                (delete_if json crates now i q true c).1.tables
                ≡ record t { qualifiers = filter (λ x. not (x.id == j)) t.qualifiers })
              (submission-id t.qualifiers found) (ground (arith, h, e)),
        ))
        (λ x e. ground (arith, h, e))

-- However the database answers: the route `delete_qualifier` changes nothing if it fails; if it
-- succeeds, the submission stood in the table and its season was in one of the states
-- `qualifiers_open` and `qualifiers_closed`, and exactly the submissions with its id are gone.
pub delete_qualifier-Deleted :
    (json : SeasonJson) (crates : PairingCrates) (now i : ℕ) (c : Connection)
    → Deleted json i c.tables (delete_qualifier json crates now i c)
unfolding delete_qualifier
delete_qualifier-Deleted json crates now i c =
    to_deleted json i c.tables (delete_qualifier json crates now i c) (
      bind-After
        (λ o d. Same json i c.tables d × (o ≡ first_where (λ q. q.id == i) c.tables.qualifiers))
        (select league_bot_error (λ t. first_where (λ q. q.id == i) t.qualifiers)) _ c
        (map-After (λ o d k. (k.0, k.1 ∙ ap (λ t. first_where (λ q. q.id == i) t.qualifiers) k.0))
          (select-After league_bot_error (λ t. first_where (λ q. q.id == i) t.qualifiers) c
            (λ t. t ≡ c.tables) refl))
        λ o d k. found_then o d k.0 (sym k.1))
  where
    found_then :
        (o : Option QualifierSubmission) (d : Connection)
        → d.tables ≡ c.tables
        → first_where (λ q. q.id == i) c.tables.qualifiers ≡ o
        → After (Ended json i c.tables) (Same json i c.tables) (
            (do
              q ← lift (ok_or o league_bot_error)
              safe ← map_err (λ e. league_bot_error) (safe_to_delete json crates now q)
              delete_if json crates now i q safe)
              d)
    found_then none d h e = failed h
    found_then (some q) d h e =
        bind-After
          (λ b u.
            Same json i c.tables u
            × (b ≡ true
                → HasQualifiers json i c.tables
                    (first_where (λ s. s.id == q.season_id) c.tables.seasons)))
          (map_err (λ e. league_bot_error) (safe_to_delete json crates now q)) _ d
          (safe_lem json i c.tables crates now q d h)
          λ b u k. delete_lem json i c.tables crates now q b u k.0 e k.1
