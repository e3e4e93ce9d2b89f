-- ===== src/Commands/Registration/Qualifying.antt =====
-- Qualifiers are taken only while they are open.
use nmg_league_bot.Base.{
  ℕ, ◌≡◌, refl, sym, ap, ◌∙◌, String, Option, none, some, true, false, List, [], ◌∷◌, ◌++◌, Result,
  ok, err, arith, str_eq, ◌⊎◌, inl, inr,
}
use nmg_league_bot.Base.Methods.{map_err, map_err_of, pure}
use nmg_league_bot.Base.Triples.{
  After, succeeded, failed, after, weaken, map-After, same-After, bind-After, After-of, lift-After,
}
use nmg_league_bot.Tables.{
  Player, Season, QualifierSubmission, Connection, insert, first_where, next_id,
}
use nmg_league_bot.Tables.Steps.{select-After, insert-After}
use nmg_league_bot.Bracket.{PairingCrates}
use nmg_league_bot.Season.{
  SeasonState, SeasonError, SeasonJson, are_qualifiers_open, get_active_season,
}
use nmg_league_bot.Players.Registered.{get_or_create-id}
use nmg_league_bot.Players.{User, get_or_create_from_discord_user}
use nmg_league_bot.Commands.Options.{OptionValues}
use nmg_league_bot.Commands.Requests.{
  CommandError, CommandSession, get_string, db, database_error, season_error,
}
use nmg_league_bot.Commands.Steps.{db-After}
use nmg_league_bot.Commands.Registration.{
  PlayerReply, thanks, qualifier_row, add_qualifier, new_qualifier, if_open,
  active_season_with_quals_open, save_qualifier, submit_qualifier, submit_read, submit_time,
  submit_timed, handle_submit_qualifier,
}

-- the season that is active
abbrev pub active_of : List Season → Option Season
active_of ss = first_where (λ s. elim s.finished [ none ↦ true | some _ ↦ false ]) ss

module _ (json : SeasonJson) (crates : PairingCrates) (now : ℕ) (qs : List QualifierSubmission)
    (ss : List Season) where
  abbrev Same : Connection → Type 0
  Same c = (c.tables.qualifiers ≡ qs) × (c.tables.seasons ≡ ss)

  -- the season is active, and its state is that of open qualifiers
  abbrev pub IsOpen : Season → Type 0
  IsOpen s =
      (active_of ss ≡ some s)
      × (json.season_json.from_str s.state ≡ some SeasonState.qualifiers_open)

  abbrev OpenIfAny : Option Season → Type 0
  OpenIfAny none = Unit
  OpenIfAny (some s) = IsOpen s

  player_lem :
      (user : User) (c : Connection)
      → Same c
      → Same (get_or_create_from_discord_user {E = CommandError} database_error user c).1
  unfolding get_or_create_from_discord_user
  player_lem user c h = ground arith

  if_open_lem :
      (o : Option Season) {s : Season}
      → active_of ss ≡ o
      → if_open json crates now o ≡ ok (some s)
      → IsOpen s
  unfolding if_open are_qualifiers_open
  if_open_lem none h k = cc
  if_open_lem (some x) {s = s} h k = ground arith

  season_lem :
      (c : Connection)
      → Same c
      → After
          (λ o d. Same d × OpenIfAny o)
          Same
          (map_err season_error (active_season_with_quals_open json crates now) c)
  unfolding active_season_with_quals_open get_active_season
  season_lem c h = mapped (active_season_with_quals_open json crates now c) (
      bind-After (λ o d. Same d × (o ≡ active_of ss)) get_active_season _ c
        (map-After (λ o d k. (k.0, k.1 ∙ ap active_of k.0.1))
          (select-After SeasonError.database_error (λ t. active_of t.seasons) c
            (λ t. (t.qualifiers ≡ qs) × (t.seasons ≡ ss)) h))
        λ o d k.
          map-After (λ x d m. (m.1, open_of o x (sym k.1) m.0))
            (lift-After {I = Same} (if_open json crates now o) d k.0))
    where
      open_of :
          (o x : Option Season) → active_of ss ≡ o → if_open json crates now o ≡ ok x → OpenIfAny x
      open_of o none h k = tt
      open_of o (some s) h k = if_open_lem o h k

      mapped :
          (x : Result SeasonError (Option Season) × Connection)
          → After (λ o d. Same d × OpenIfAny o) Same x
          → After (λ o d. Same d × OpenIfAny o) Same (map_err_of season_error x.0, x.1)
      mapped (ok o, d) (succeeded h) = succeeded h
      mapped (err e, d) (failed h) = failed h

  -- no submission is added, or one of the user's for a season that is open
  abbrev pub OnlyOpen : User → Connection → Type 0
  OnlyOpen user c =
      (c.tables.qualifiers ≡ qs)
      ⊎ ((p : Player) × (s : Season) × (secs : ℕ) × (vod : String) × (str_eq p.discord_id user.id
            ≡ true)
          × IsOpen s
          × (c.tables.qualifiers ≡ qs ++ new_qualifier p s secs vod (next_id (λ q. q.id) qs) ∷ []))

  module _ {V : Type 0} (views : OptionValues V) (user : User) where
    abbrev Ends : CommandSession V → Type 0
    Ends t = OnlyOpen user t.conn

    saved_lem :
        (p : Player) (secs : ℕ) (vod : String) (o : Option Season) (t : CommandSession V)
        → str_eq p.discord_id user.id ≡ true
        → Same t.conn
        → OpenIfAny o
        → Ends (save_qualifier views json crates now p secs vod o t).1
    unfolding save_qualifier
    saved_lem p secs vod none t k h m = inl h.0
    saved_lem p secs vod (some s) t k h m = after {A = PlayerReply} {I = Ends} (
        bind-After (λ _. Ends)
          (db (insert database_error (qualifier_row p s secs vod) add_qualifier)) (λ _. pure thanks)
          t
          (map-After
            (λ a u e. inr (
              p,
              s,
              secs,
              vod,
              k,
              m,
              ap (λ x. x.qualifiers) e
                  ∙ ap (λ q. q ++ new_qualifier p s secs vod (next_id (λ x. x.id) q) ∷ []) h.0,
            ))
            (weaken (λ u e. inl (ap (λ x. x.qualifiers) e ∙ h.0))
              (db-After
                (λ a d.
                  d.tables ≡ add_qualifier (qualifier_row p s secs vod t.conn.tables) t.conn.tables)
                (λ d. d.tables ≡ t.conn.tables)
                (insert database_error (qualifier_row p s secs vod) add_qualifier) t
                (insert-After database_error (qualifier_row p s secs vod) add_qualifier t.conn))))
          λ a u e. succeeded e)

    submit_lem :
        (secs : ℕ) (vod : String) (t : CommandSession V)
        → Same t.conn
        → Ends (submit_qualifier views json crates now user secs vod t).1
    unfolding submit_qualifier
    submit_lem secs vod t h = after (
        bind-After (λ pr u. Same u.conn × (str_eq pr.0.discord_id user.id ≡ true))
          (db (get_or_create_from_discord_user database_error user)) _ t
          (weaken (λ u k. inl k.0)
            (db-After (λ pr c. Same c × (str_eq pr.0.discord_id user.id ≡ true)) Same
              (get_or_create_from_discord_user database_error user) t
              (After-of (get_or_create_from_discord_user database_error user t.conn)
                (λ a e. (player_lem user t.conn h, get_or_create-id database_error user t.conn e))
                (λ e k. player_lem user t.conn h))))
          λ pr u k.
            bind-After (λ o v. Same v.conn × OpenIfAny o)
              (db (map_err season_error (active_season_with_quals_open json crates now))) _ u
              (weaken (λ v m. inl m.0)
                (db-After (λ o c. Same c × OpenIfAny o) Same
                  (map_err season_error (active_season_with_quals_open json crates now)) u
                  (season_lem u.conn k.0)))
              λ o v m. same-After {I = Ends} _ (saved_lem pr.0 secs vod o v k.1 m.0 m.1))

    read_lem :
        (secs : ℕ) (vod : Result CommandError String) (t : CommandSession V)
        → Same t.conn
        → Ends (submit_read views json crates now user secs vod t).1
    unfolding submit_read
    read_lem secs (err e) t h = inl h.0
    read_lem secs (ok vod) t h = submit_lem secs vod t h

    time_lem :
        (secs : Option ℕ) (t : CommandSession V)
        → Same t.conn
        → Ends (submit_time views json crates now user secs t).1
    unfolding submit_time get_string
    time_lem none t h = inl h.0
    time_lem (some secs) t h = read_lem secs _ _ h

    timed_lem :
        (time : Result CommandError String) (t : CommandSession V)
        → Same t.conn
        → Ends (submit_timed views json crates now user time t).1
    unfolding submit_timed
    timed_lem (err e) t h = inl h.0
    timed_lem (ok time) t h = time_lem _ t h

-- Whatever the options are and however the database answers: `handle_submit_qualifier` adds no
-- submission, or one of the user who sent it, for the active season, and then the state of that
-- season is that of open qualifiers.
pub handle_submit_qualifier-OnlyOpen :
    {V : Type 0} (json : SeasonJson) (crates : PairingCrates) (now : ℕ) (views : OptionValues V)
    (user : User) (s : CommandSession V)
    → OnlyOpen json crates now s.conn.tables.qualifiers s.conn.tables.seasons user
        (handle_submit_qualifier views json crates now (some user) s).1.conn
unfolding handle_submit_qualifier get_string
handle_submit_qualifier-OnlyOpen json crates now views user s =
    timed_lem json crates now s.conn.tables.qualifiers s.conn.tables.seasons views user _ _
      (refl, refl)
