-- ===== src/Bracket/Finished.antt =====
-- A bracket is finished exactly when all of its races are.
use nmg_league_bot.Base.{
  ap, ◌∙◌, if◌then◌else◌, ◌≡◌, refl, String, Bool, true, false, not, ◌&&◌, List, [], ◌∷◌, all,
  filter, ◌==◌, str_eq, Result, ok, err, arith,
}
use nmg_league_bot.Base.Methods.{continue}
use nmg_league_bot.Serde.{IsFaithful}
use nmg_league_bot.Race.{BracketRaceState}
use nmg_league_bot.Tables.{BracketRound, Tables, Connection}
use nmg_league_bot.Bracket.{
  BracketState, rounds, BracketJson, PairingCrates, BracketError, Session, order_rounds,
  insert_round,
}
use nmg_league_bot.Bracket.Finishing.{finish, all_races_finished, rounds_finished, is_finished}

-- every race of the round has the text of the finished state
abbrev pub round_done : String → Tables → BracketRound → Bool
round_done text t r = all (λ x. not (x.round_id == r.id && not (str_eq x.state text))) t.races

all-insert :
    (p : BracketRound → Bool) (r : BracketRound) (rs : List BracketRound)
    → all p (insert_round r rs) ≡ (p r && all p rs)
unfolding insert_round
all-insert p r [] = refl
all-insert p r (q ∷ rs) = ground (arith, all-insert p r rs)

all-order : (p : BracketRound → Bool) (rs : List BracketRound) → all p (order_rounds rs) ≡ all p rs
unfolding order_rounds
all-order p [] = refl
all-order p (r ∷ rs) = ground (arith, all-insert p r (order_rounds rs), all-order p rs)

first_true : (a b : Bool) → true ≡ (a && true) → b ≡ (a && b)
first_true a b h = ground arith

first_false : (a b : Bool) → false ≡ (a && true) → false ≡ (a && b)
first_false a b h = ground arith

module _ (json : BracketJson) (crates : PairingCrates)
    (good : IsFaithful json.race_json.state_json) where
  abbrev text : String
  text = good.text BracketRaceState.finished

  abbrev Looked : Connection → List BracketRound → Result BracketError Bool × Connection → Type 0
  Looked c rs (ok done, d) = (done ≡ all (round_done text c.tables) rs) × (d.tables ≡ c.tables)
  Looked c rs (err e, d) = d.tables ≡ c.tables

  all_races_finished_lem :
      (r : BracketRound) (c : Connection) → Looked c (r ∷ []) (all_races_finished json crates r c)
  unfolding all_races_finished
  all_races_finished_lem r c = ground (arith, good.to_string_text BracketRaceState.finished)

  -- the first round is done, and the others have been looked at
  Looked-others :
      (r : BracketRound) (rs : List BracketRound) (c d : Connection)
      (out : Result BracketError Bool × Connection)
      → true ≡ all (round_done text c.tables) (r ∷ [])
      → d.tables ≡ c.tables
      → Looked d rs out
      → Looked c (r ∷ rs) out
  Looked-others r rs c d (ok done, f) h e k = (
    k.0 ∙ ap (λ t. all (round_done text t) rs) e ∙ first_true (round_done text c.tables r) _ h,
    k.1 ∙ e,
  )
  Looked-others r rs c d (err x, f) h e k = k ∙ e

  Looked-first :
      (r : BracketRound) (rs : List BracketRound) (c : Connection)
      (out : Result BracketError Bool × Connection)
      → Looked c (r ∷ []) out
      → ((d : Connection) → Looked d rs (rounds_finished json crates rs d))
      → Looked c (r ∷ rs) (
          continue out.0
            (λ done d. if done then rounds_finished json crates rs d else (ok false, d))
            out.1)
  Looked-first r rs c (err e, d) h ih = h
  Looked-first r rs c (ok false, d) h ih = (first_false (round_done text c.tables r) _ h.0, h.1)
  Looked-first r rs c (ok true, d) h ih =
      Looked-others r rs c d (rounds_finished json crates rs d) h.0 h.1 (ih d)

  rounds_finished_lem :
      (rs : List BracketRound) (c : Connection) → Looked c rs (rounds_finished json crates rs c)
  unfolding rounds_finished
  rounds_finished_lem [] c = (refl, refl)
  rounds_finished_lem (r ∷ rs) c =
      Looked-first r rs c (all_races_finished json crates r c) (all_races_finished_lem r c)
        (rounds_finished_lem rs)

  -- How `finish` ends: with what it says of the bracket's races, the bracket, and the tables as before.
  abbrev pub Finished : Session → Result BracketError Bool × Session → Type 0
  Finished s (ok true, t) =
      (all (round_done text s.conn.tables)
          (filter (λ r. r.bracket_id == s.bracket.id) s.conn.tables.rounds)
        ≡ true)
      × (is_finished json crates t.bracket ≡ ok true)
      × (t.conn.tables ≡ s.conn.tables)
  Finished s (ok false, t) =
      (all (round_done text s.conn.tables)
          (filter (λ r. r.bracket_id == s.bracket.id) s.conn.tables.rounds)
        ≡ false)
      × (t.bracket ≡ s.bracket)
      × (t.conn.tables ≡ s.conn.tables)
  Finished s (err _, t) = (t.bracket ≡ s.bracket) × (t.conn.tables ≡ s.conn.tables)

  -- With codecs that read back what they print, and however the database answers: if `finish` says
  -- that the bracket is finished, every race of its rounds has the finished state, and the bracket
  -- is in its finished state; if it says that it is not, some race has another state, and the
  -- bracket is as it was, as it is after an error. The tables are not changed.
  pub finish-Finished :
      (good_state : IsFaithful json.state_json) (s : Session) → Finished s (finish json crates s)
  unfolding finish rounds is_finished
  finish-Finished good_state s = ground (
    arith,
    rounds_finished_lem
        (order_rounds (filter (λ r. r.bracket_id == s.bracket.id) s.conn.tables.rounds))
        (rounds s.bracket s.conn).1,
    all-order (round_done text s.conn.tables)
        (filter (λ r. r.bracket_id == s.bracket.id) s.conn.tables.rounds),
    good_state.to_string_text BracketState.finished,
    good_state.from_str_text BracketState.finished,
  )
