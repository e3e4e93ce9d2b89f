-- ===== src/Pairing/Swiss.antt =====
-- The pairing loops of `generate_initial_pairings_swiss` and `generate_next_round_pairings_swiss` of
-- src/models/brackets.rs.
pub mod Matching
use nmg_league_bot.Base.{
  any, Bool, ℕ, List, [], ◌∷◌, Option, none, some, Result, ok, err, ◌==◌, if◌then◌else◌,
}
use nmg_league_bot.Tables.{Player}
use nmg_league_bot.Pairing.RoundRobin.{Pair}

-- `while players.len() > 1 { p1 = pop; p2 = pop; … }`, on the list that `pop` takes from the front
-- of: the pairs, and who is left
unfoldable pub pair_up : List Player → List Pair × List Player
pair_up [] = ([], [])
pair_up (p ∷ []) = ([], p ∷ [])
pair_up (p ∷ q ∷ ps) = let (pairs, left) = pair_up ps in ((p, q) ∷ pairs, left)

abbrev pub has_id : ℕ → List Player → Bool
has_id i ps = any (λ p. p.id == i) ps

-- `HashMap::from_iter`: of two players with one id the later one is in the map
unfoldable pub by_id : List Player → List Player
by_id [] = []
by_id (p ∷ ps) = let rest = by_id ps in if has_id p.id ps then rest else p ∷ rest

-- `players.remove(id)` on the map from ids to players
unfoldable pub remove : ℕ → List Player → Option (Player × List Player)
remove i [] = none
remove i (p ∷ ps) =
    let rest = remove i ps in
    if p.id == i then some (p, ps) else elim rest [ none ↦ none | some (q, qs) ↦ some (q, p ∷ qs) ]

-- the loop over the pairings that swiss_pairings returns
unfoldable pub assign : {E : Type 0} → E → List (ℕ × ℕ) → List Player → Result E (List Pair)
assign cannot_find [] ps = ok []
assign cannot_find ((a, b) ∷ rest) ps = elim (remove a ps) [
  | none ↦ err cannot_find
  | some (p1, ps1) ↦ elim (remove b ps1) [
    | none ↦ err cannot_find
    | some (p2, ps2) ↦ elim (assign cannot_find rest ps2) [
      | err e ↦ err e
      | ok pairs ↦ ok ((p1, p2) ∷ pairs)
    ]
  ]
]
