-- ===== src/Standings/Totals.antt =====
-- The standings share out two points for each race.
use nmg_league_bot.Base.{length, ◌*◌, map, ℕ, ◌+◌, ◌≡◌, refl, List, [], ◌∷◌, arith}
use nmg_league_bot.Standings.{
  Outcome, rank_players, sort_infos, insert_info, build, PlayerInfo, PlayerResult, StandingsRace,
  PlayerInfoBuilder, adjust, push, upsert, add_race, add_races, score,
}

-- the sum of the points of all players
unfoldable pub total_points : List PlayerInfo → ℕ
total_points [] = 0
total_points (p ∷ ps) = p.points + total_points ps

total_built : List PlayerInfoBuilder → ℕ
total_built [] = 0
total_built (b ∷ bs) = b.points + total_built bs

total-upsert :
    (j k opponent : ℕ) (result : PlayerResult) (bs : List PlayerInfoBuilder)
    → total_built (upsert j (push result k opponent) bs) ≡ total_built bs + k
unfolding total_built upsert
total-upsert j k opponent result [] = omega arith
total-upsert j k opponent result (b ∷ bs) = ground (arith, total-upsert j k opponent result bs)

two_points : (o : Outcome) → (adjust o).0 + (adjust o).1 ≡ 2
unfolding adjust
two_points o = ground arith

total-add_races :
    (rs : List StandingsRace) (bs : List PlayerInfoBuilder)
    → total_built (add_races rs bs) ≡ total_built bs + 2 * length rs
unfolding add_races add_race
total-add_races [] bs = omega arith
total-add_races (r ∷ rs) bs = omega (
  arith,
  total-add_races rs (add_race r bs),
  two_points r.outcome,
  total-upsert r.player_1_id (adjust r.outcome).0 r.player_2_id r.player_1_result bs,
  total-upsert r.player_2_id (adjust r.outcome).1 r.player_1_id r.player_2_result
      (upsert r.player_1_id (push r.player_1_result (adjust r.outcome).0 r.player_2_id) bs),
)

total-map :
    (f : ℕ → ℕ) (bs : List PlayerInfoBuilder) → total_points (map (build f) bs) ≡ total_built bs
unfolding total_points total_built build
total-map f [] = refl
total-map f (b ∷ bs) = omega (arith, total-map f bs)

total-insert :
    (p : PlayerInfo) (ps : List PlayerInfo)
    → total_points (insert_info p ps) ≡ p.points + total_points ps
unfolding insert_info total_points
total-insert p [] = refl
total-insert p (q ∷ qs) = ground (arith, total-insert p qs)

total-sort : (ps : List PlayerInfo) → total_points (sort_infos ps) ≡ total_points ps
unfolding sort_infos total_points
total-sort [] = refl
total-sort (p ∷ ps) = omega (arith, total-insert p (sort_infos ps), total-sort ps)

total_nothing : total_built [] ≡ 0
unfolding total_built
total_nothing = refl

-- A race gives two points in all: the standings share out exactly two for each race that counts.
pub total_points-rank_players :
    (rs : List StandingsRace) → total_points (rank_players rs) ≡ 2 * length rs
unfolding rank_players
total_points-rank_players rs = omega (
  arith,
  total-sort (map (build (score (add_races rs []))) (add_races rs [])),
  total-map (score (add_races rs [])) (add_races rs []),
  total-add_races rs [],
  total_nothing,
)
