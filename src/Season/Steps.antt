-- ===== src/Season/Steps.antt =====
-- A season goes through its states in order, and is finished only when its brackets are.
use nmg_league_bot.Base.Methods.{◌>>◌, modify}
use nmg_league_bot.Base.{
  inr, subst, inl, suc, ◌⊎◌, err, Result, ℕ, ◌≡◌, refl, Option, none, some, List, [], ◌∷◌, ok,
  arith, All, true,
}
use nmg_league_bot.Serde.{IsFaithful}
use nmg_league_bot.Tables.{Bracket}
use nmg_league_bot.Bracket.{PairingCrates}
use nmg_league_bot.Bracket.Finishing.{is_finished}
use nmg_league_bot.Season.{
  season_brackets, set_state, finish, SeasonError, SeasonState, created, qualifiers_open,
  qualifiers_closed, started, finished, SeasonJson, SeasonSession, require_finished,
}

-- the place of a state in the order of a season
abbrev pub rank : SeasonState → ℕ
rank created = 0
rank qualifiers_open = 1
rank qualifiers_closed = 2
rank started = 3
rank finished = 4

abbrev pub FinishedIff : SeasonState → Option ℕ → Type 0
FinishedIff finished (some t) = Unit
FinishedIff finished none = ⊥
FinishedIff _ none = Unit
FinishedIff _ (some t) = ⊥

-- The column `state` reads as `st`, and the column `finished` holds a time exactly if `st` is the
-- finished state.
pub record IsConsistent (json : SeasonJson) (st : SeasonState) (x : SeasonSession) : Type 0 where
  pub in_state : json.season_json.from_str x.season.state ≡ some st
  pub stamped : FinishedIff st x.season.finished

module _ (json : SeasonJson) (crates : PairingCrates) (now : ℕ)
    (good : IsFaithful json.season_json) where
  require_finished_lem :
      (bs : List Bracket) (x : SeasonSession) → (require_finished json crates now bs x).1 ≡ x
  unfolding require_finished
  require_finished_lem [] x = refl
  require_finished_lem (b ∷ bs) x = ground (arith, require_finished_lem bs x)

  require_finished_all :
      (bs : List Bracket) (x : SeasonSession)
      → (require_finished json crates now bs x).0 ≡ ok tt
      → All (λ b. is_finished json.bracket_json crates b ≡ ok true) bs
  unfolding require_finished
  require_finished_all [] x h = tt
  require_finished_all (b ∷ bs) x h = ground (arith, require_finished_all bs x)

  -- `finish` fails and leaves the season, or stamps it.
  abbrev FinishSpec : SeasonSession → Result SeasonError Unit × SeasonSession → Type 0
  FinishSpec x (err e, y) = y.season ≡ x.season
  FinishSpec x (ok _, y) = y.season ≡ record x.season { finished = some now }

  finish_brackets :
      (bs : List Bracket) (x : SeasonSession)
      → FinishSpec x (
          (do
            require_finished json crates now bs
            modify (λ y. record y { season = record y.season { finished = some now } }))
            x)
  finish_brackets bs x = ground (arith, require_finished_lem bs x)

  finish_lem : (x : SeasonSession) → FinishSpec x (finish json crates now x)
  unfolding finish
  finish_lem x = grind (arith, finish_brackets)

  abbrev pub Stepped :
      SeasonState → SeasonState → SeasonSession → Result SeasonError Unit × SeasonSession → Type 0
  Stepped st target x (err e, y) = y.season ≡ x.season
  Stepped st target x (ok _, y) =
      IsConsistent json target y × ((target ≡ st) ⊎ (rank target ≡ suc (rank st)))

  -- With a codec that reads back what it prints, for a consistent season and whatever state is
  -- asked for: if `set_state` fails, the season is as it was; if it succeeds, the season is in
  -- that state, with a finish time exactly if it is finished, and the state is the old one or the
  -- next in order.
  pub set_state-steps :
      (st target : SeasonState) (x : SeasonSession)
      → IsConsistent json st x
      → Stepped st target x (set_state json crates now target x)
  unfolding set_state
  set_state-steps st created x h =
      ground (arith, good.to_string_text created, good.from_str_text created)
  set_state-steps st finished x h =
      ground (arith, good.to_string_text finished, good.from_str_text finished, finish_lem x)
  set_state-steps st target x h =
      ground (arith, good.to_string_text target, good.from_str_text target)

  all_brackets_finished :
      (bs : List Bracket) (x : SeasonSession)
      → ((do
        require_finished json crates now bs
        modify (λ y. record y { season = record y.season { finished = some now } }))
          x).0
        ≡ ok tt
      → All (λ b. is_finished json.bracket_json crates b ≡ ok true) bs
  all_brackets_finished bs x h = ground (arith, require_finished_all bs x)

  -- With a codec that reads back what it prints: a started season is set to finished only if all
  -- of its brackets are finished.
  pub finish_needs_brackets :
      (x : SeasonSession)
      → json.season_json.from_str x.season.state ≡ some started
      → (set_state json crates now finished x).0 ≡ ok tt
      → All
          (λ b. is_finished json.bracket_json crates b ≡ ok true)
          (season_brackets x.season x.conn.tables)
  unfolding set_state finish
  finish_needs_brackets x h k = grind (arith, all_brackets_finished)

module _ (json : SeasonJson) (crates : PairingCrates) where
  -- requests to change the state, each with the time at which it is made; a failed one is reported
  -- to its user and leaves the session to the next
  unfoldable pub requests : List (ℕ × SeasonState) → SeasonSession → SeasonSession
  requests [] x = x
  requests ((now, target) ∷ rest) x = requests rest (set_state json crates now target x).1

-- a way through the states: a request is passed over, or it asks for the next state
pub data Passes : SeasonState → List (ℕ × SeasonState) → SeasonState → Type 0 where
  done : {st : SeasonState} → Passes st [] st
  pass_over :
      {st last : SeasonState} {rest : List (ℕ × SeasonState)} (r : ℕ × SeasonState)
      → Passes st rest last
      → Passes st (r ∷ rest) last
  advance :
      {st target last : SeasonState} {rest : List (ℕ × SeasonState)} (now : ℕ)
      → rank target ≡ suc (rank st)
      → Passes target rest last
      → Passes st ((now, target) ∷ rest) last

module _ (json : SeasonJson) (crates : PairingCrates) (good : IsFaithful json.season_json) where
  abbrev Next : SeasonState → SeasonState → SeasonSession → Type 0
  Next st target y =
      IsConsistent json st y ⊎ (IsConsistent json target y × (rank target ≡ suc (rank st)))

  Next-of :
      (now : ℕ) (st target : SeasonState) (x : SeasonSession)
      (out : Result SeasonError Unit × SeasonSession)
      → IsConsistent json st x
      → Stepped json crates now good st target x out
      → Next st target out.1
  Next-of now st target x (err e, y) h k =
      inl (record { in_state = rw k h.in_state; stamped = rw k h.stamped })
  Next-of now st target x (ok u, y) h k = elim k.1 [
    | inl same ↦ inl (subst (λ t. IsConsistent json t y) same k.0)
    | inr next ↦ inr (k.0, next)
  ]

  Passes-Next :
      (now : ℕ) (st target : SeasonState) (rest : List (ℕ × SeasonState)) (y : SeasonSession)
      → ((from : SeasonState)
          → IsConsistent json from y
          → (last : SeasonState) × IsConsistent json last (requests json crates rest y)
            × Passes from rest last)
      → Next st target y
      → (last : SeasonState) × IsConsistent json last (requests json crates rest y)
        × Passes st ((now, target) ∷ rest) last
  Passes-Next now st target rest y ih (inl stays) =
      let (last, c, p) = ih st stays in (last, c, pass_over (now, target) p)
  Passes-Next now st target rest y ih (inr (moves, next)) =
      let (last, c, p) = ih target moves in (last, c, advance now next p)

  -- With a codec that reads back what it prints, from a consistent season, and whatever is
  -- requested in whatever order: the season stays consistent, and it has gone from its first state
  -- to its last by requests for one next state after another.
  pub requests-Passes :
      (rs : List (ℕ × SeasonState)) (st : SeasonState) (x : SeasonSession)
      → IsConsistent json st x
      → (last : SeasonState) × IsConsistent json last (requests json crates rs x)
        × Passes st rs last
  unfolding requests
  requests-Passes [] st x h = (st, h, done)
  requests-Passes ((now, target) ∷ rest) st x h =
      Passes-Next now st target rest (set_state json crates now target x).1
        (λ from c. requests-Passes rest from (set_state json crates now target x).1 c)
        (Next-of now st target x (set_state json crates now target x) h
          (set_state-steps json crates now good st target x h))
