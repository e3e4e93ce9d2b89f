-- ===== src/Bracket/Rounds.antt =====
-- The first round of a bracket, from the database to the rows of races that are inserted.
use mathlib.Core.List.{reverse}
use nmg_league_bot.Base.{
  ℕ, ◌+◌, ◌*◌, ◌<◌, ◌≡◌, List, [], ok, err, String, length, arith, if◌then◌else◌, ◌&&◌, ap, ◌∙◌,
}
use nmg_league_bot.Tables.{Player}
use nmg_league_bot.Pairing.RoundRobin.{expected}
use nmg_league_bot.Pairing.RoundRobin.Complete.{Distinct, entered, pairings_complete}
use nmg_league_bot.Pairing.Swiss.{pair_up}
use nmg_league_bot.Pairing.Swiss.Matching.{
  count_id, appearances, pair_up_lem, pair_up-even, pair_up-odd, count_id-reverse, length-reverse,
}
use nmg_league_bot.Bracket.{
  BracketError, BracketJson, PairingCrates, Session, round_robin, swiss, other, odd_player_count,
  entered_players,
}
use nmg_league_bot.Bracket.Generation.{generate_pairings}
use nmg_league_bot.Race.{BracketRace}
use nmg_league_bot.Bracket.Rows.{rows_between, places}
use nmg_league_bot.Bracket.Effects.{
  IsReady, AreNew, rows_for, rows_for-AreNew, length-rows_for, rows_between-rows_for,
  places-rows_for, first_round, round_robin_effect, swiss_effect, swiss_odd,
  generate_pairings-atomic,
}

-- What rand documents of `shuffle`: the same players in another order.
pub record Shuffles (crates : PairingCrates) : Type 0 where
  pub same_ids : (i : ℕ) (ps : List Player) → count_id i (crates.shuffle ps) ≡ count_id i ps
  pub same_length : (ps : List Player) → length (crates.shuffle ps) ≡ length ps

module _ (json : BracketJson) (crates : PairingCrates) where
  -- A round robin bracket that is ready, with players of distinct ids, gets one round, and
  -- n (n - 1) / 2 rows for races are inserted, of this round, not run yet and with the next free ids;
  -- in them two ids a < b meet once if both are entered and else never; the bracket is started, and
  -- nothing else changes.
  pub round_robin_generates :
      (s : Session) (text : String) (a b : ℕ)
      → IsReady json crates s round_robin text
      → Distinct (entered_players s.bracket s.conn.tables)
      → a < b
      → (new : List BracketRace) × (generate_pairings json crates s
          ≡ (ok tt, first_round json crates s text new))
        × AreNew json crates s new
        × (length new ≡ expected (length (entered_players s.bracket s.conn.tables)))
        × (rows_between a b new ≡ (
            if entered a (entered_players s.bracket s.conn.tables)
              && entered b (entered_players s.bracket s.conn.tables)
            then 1
            else 0))
  round_robin_generates s text a b r d lt =
      let ps = entered_players s.bracket s.conn.tables in
      let (found, found_is, count, meet) = pairings_complete {E = BracketError} other ps d in
      (
        rows_for json crates s found,
        round_robin_effect json crates s text found r found_is,
        rows_for-AreNew json crates s found,
        length-rows_for json crates s found ∙ count,
        rows_between-rows_for json crates a b s found ∙ meet a b lt,
      )

  abbrev drawn : Session → List Player
  drawn s = reverse (crates.shuffle (entered_players s.bracket s.conn.tables))

  length-drawn :
      (s : Session)
      → Shuffles crates
      → length (drawn s) ≡ length (entered_players s.bracket s.conn.tables)
  length-drawn s sh = length-reverse _ ∙ sh.same_length _

  appearances-drawn :
      (s : Session)
      → Shuffles crates
      → (i : ℕ) → pair_up (drawn s) ≡ ((pair_up (drawn s)).0, [])
      → appearances i (pair_up (drawn s)).0 ≡ count_id i (entered_players s.bracket s.conn.tables)
  unfolding count_id
  appearances-drawn s sh i whole =
      let nobody : count_id i (pair_up (drawn s)).1 ≡ 0 = ap (λ x. count_id i x.1) whole in
      omega (
        arith,
        (pair_up_lem (drawn s) i).0,
        count_id-reverse i (crates.shuffle (entered_players s.bracket s.conn.tables)),
        sh.same_ids i (entered_players s.bracket s.conn.tables),
      )

  -- If the shuffle keeps the players: a swiss bracket that is ready, with an even number of
  -- players, gets one round, and rows for half as many races are inserted, of this round, not run yet
  -- and with the next free ids; in them every id has as many places as it has entries, so that an
  -- entry has exactly one race; the bracket is started, and nothing else changes.
  pub swiss_generates :
      (s : Session) (text : String) (n : ℕ)
      → Shuffles crates
      → IsReady json crates s swiss text
      → length (entered_players s.bracket s.conn.tables) ≡ 2 * n
      → (new : List BracketRace) × (generate_pairings json crates s
          ≡ (ok tt, first_round json crates s text new))
        × AreNew json crates s new
        × (length new ≡ n)
        × ((i : ℕ) → places i new ≡ count_id i (entered_players s.bracket s.conn.tables))
  swiss_generates s text n sh r even =
      let ps = drawn s in
      let (whole, count) = pair_up-even ps n (length-drawn s sh ∙ even) in
      let found = (pair_up ps).0 in
      (
        rows_for json crates s found,
        swiss_effect json crates s text found r whole,
        rows_for-AreNew json crates s found,
        length-rows_for json crates s found ∙ count,
        λ i. places-rows_for json crates i s found ∙ appearances-drawn s sh i whole,
      )

  -- If the shuffle keeps the players: with an odd number of players a ready swiss bracket gets no
  -- round, the error says so, and the tables are as they were.
  pub swiss_refuses_odd :
      (s : Session) (text : String) (n : ℕ)
      → Shuffles crates
      → IsReady json crates s swiss text
      → length (entered_players s.bracket s.conn.tables) ≡ 2 * n + 1
      → ((generate_pairings json crates s).0 ≡ err odd_player_count)
        × ((generate_pairings json crates s).1.conn.tables ≡ s.conn.tables)
  swiss_refuses_odd s text n sh r odd =
      let ps = drawn s in
      let (p, left, whole) = pair_up-odd ps n (length-drawn s sh ∙ odd) in
      let refused = swiss_odd json crates s text (pair_up ps).0 p left r whole in
      (refused, generate_pairings-atomic json crates s refused)
