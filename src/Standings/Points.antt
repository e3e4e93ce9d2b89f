-- ===== src/Standings/Points.antt =====
-- The points of the standings are those of the races.
use nmg_league_bot.Base.{
  fun_ext, ap, sym, map, ◌∙◌, inr, inl, Bool-cases, ℕ, ◌≡◌, refl, some, List, [], ◌∷◌, All, arith,
}
use nmg_league_bot.Standings.{
  ranks_before, rank_players, sort_infos, insert_info, build, PlayerInfo, StandingsRace,
  PlayerInfoBuilder, add_races, find, score, sum_scores,
}
use nmg_league_bot.Standings.Entries.{
  Keyed-add_races, met-add_races, Keyed-find, met, score-add_races, points_of, met_points,
}

-- The points and the opponents' points of a player are those of the races.
pub record IsCounted (rs : List StandingsRace) (p : PlayerInfo) : Type 0 where
  pub own : p.points ≡ points_of p.id rs
  pub opponents : p.opponent_points ≡ met_points p.id (λ j. points_of j rs) rs

score-races : (rs : List StandingsRace) (j : ℕ) → score (add_races rs []) j ≡ points_of j rs
score-races rs j = score-add_races j rs [] ∙ (unfold score find in omega arith)

score-found :
    (i : ℕ) (bs : List PlayerInfoBuilder) {b : PlayerInfoBuilder}
    → find i bs ≡ some b
    → score bs i ≡ b.points
unfolding score
score-found i bs h = ground arith

met-found :
    (f : ℕ → ℕ) (i : ℕ) (bs : List PlayerInfoBuilder) {b : PlayerInfoBuilder}
    → find i bs ≡ some b
    → met f i bs ≡ sum_scores f b.opponents
unfolding met
met-found f i bs h = ground arith

met_of_found :
    (rs : List StandingsRace) (b : PlayerInfoBuilder)
    → find b.id (add_races rs []) ≡ some b
    → sum_scores (score (add_races rs [])) b.opponents
      ≡ met_points b.id (score (add_races rs [])) rs
met_of_found rs b h =
    let f : ℕ → ℕ = score (add_races rs []) in
    let by_id : met f b.id (add_races rs []) ≡ sum_scores f b.opponents =
      met-found f b.id (add_races rs []) h in
    let nothing : met f b.id [] ≡ 0 = unfold met find in refl in
    omega (arith, met-add_races f b.id rs [])

build-IsCounted :
    (rs : List StandingsRace) (b : PlayerInfoBuilder)
    → find b.id (add_races rs []) ≡ some b
    → IsCounted rs (build (score (add_races rs [])) b)
unfolding build
build-IsCounted rs b h =
    let by_id : score (add_races rs []) b.id ≡ b.points = score-found b.id (add_races rs []) h in
    let all : sum_scores (score (add_races rs [])) b.opponents
        ≡ met_points b.id (score (add_races rs [])) rs =
      met_of_found rs b h in
    record {
      own = sym by_id ∙ score-races rs b.id;
      opponents = all ∙ ap (λ f. met_points b.id f rs) (fun_ext (score-races rs));
    }

build-all :
    (rs : List StandingsRace) (bs : List PlayerInfoBuilder)
    → All (λ b. find b.id (add_races rs []) ≡ some b) bs
    → All (IsCounted rs) (map (build (score (add_races rs []))) bs)
build-all rs [] h = tt
build-all rs (b ∷ bs) h = (build-IsCounted rs b h.0, build-all rs bs h.1)

pub All-insert :
    (P : PlayerInfo → Type 0) (p : PlayerInfo) (ps : List PlayerInfo)
    → P p
    → All P ps
    → All P (insert_info p ps)
unfolding insert_info
All-insert P p [] h k = (h, tt)
All-insert P p (q ∷ qs) h k = elim (Bool-cases (ranks_before q p)) [
  | inl e ↦ rw e (k.0, All-insert P p qs h k.1)
  | inr e ↦ rw e (h, k)
]

All-sort : (P : PlayerInfo → Type 0) (ps : List PlayerInfo) → All P ps → All P (sort_infos ps)
unfolding sort_infos
All-sort P [] h = tt
All-sort P (p ∷ ps) h = All-insert P p (sort_infos ps) h.0 (All-sort P ps h.1)

-- Every player in the standings has the points of their races, and the points of their opponents as
-- the races give them, an opponent met twice counted twice.
pub rank_players-IsCounted : (rs : List StandingsRace) → All (IsCounted rs) (rank_players rs)
unfolding rank_players
rank_players-IsCounted rs =
    All-sort (IsCounted rs) _
      (build-all rs (add_races rs []) (Keyed-find _ (Keyed-add_races rs [] tt)))
