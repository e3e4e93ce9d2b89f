-- ===== src/Standings/Entries.antt =====
-- The entries of the standings, by the id of the player.
use nmg_league_bot.Base.{
  inr, inl, Bool-cases, ◌≢◌, ℕ, ◌+◌, ◌≡◌, refl, none, some, List, [], ◌∷◌, ◌++◌, All, arith, ◌==◌,
  if◌then◌else◌,
}
use nmg_league_bot.Race.{Outcome, tie, p1_win, p2_win}
use nmg_league_bot.Standings.{
  PlayerResult, StandingsRace, PlayerInfoBuilder, adjust, push, upsert, add_race, add_races, find,
  score, sum_scores,
}

-- two points for a win, one for a tie
abbrev for_player_1 : Outcome → ℕ
for_player_1 p1_win = 2
for_player_1 p2_win = 0
for_player_1 tie = 1

abbrev for_player_2 : Outcome → ℕ
for_player_2 p1_win = 0
for_player_2 p2_win = 2
for_player_2 tie = 1

adjust_lem : (o : Outcome) → adjust o ≡ (for_player_1 o, for_player_2 o)
unfolding adjust
adjust_lem p1_win = refl
adjust_lem p2_win = refl
adjust_lem tie = refl

-- the points of a player in a list of races
unfoldable pub points_of : ℕ → List StandingsRace → ℕ
points_of i [] = 0
points_of i (r ∷ rs) =
    ((if r.player_1_id == i then for_player_1 r.outcome else 0)
      + (if r.player_2_id == i then for_player_2 r.outcome else 0))
    + points_of i rs

-- the sum of the points of whoever the player met, a player met twice counted twice
unfoldable pub met_points : ℕ → (ℕ → ℕ) → List StandingsRace → ℕ
met_points i f [] = 0
met_points i f (r ∷ rs) =
    ((if r.player_1_id == i then f r.player_2_id else 0)
      + (if r.player_2_id == i then f r.player_1_id else 0))
    + met_points i f rs

score-upsert :
    (i j k opponent : ℕ) (result : PlayerResult) (bs : List PlayerInfoBuilder)
    → score (upsert j (push result k opponent) bs) i ≡ score bs i + (if j == i then k else 0)
unfolding score upsert
score-upsert i j k opponent result [] = ground arith
score-upsert i j k opponent result (b ∷ bs) = ground (arith, score-upsert i j k opponent result bs)

score-add_race :
    (i : ℕ) (r : StandingsRace) (bs : List PlayerInfoBuilder)
    → score (add_race r bs) i
      ≡ score bs i
        + ((if r.player_1_id == i then (adjust r.outcome).0 else 0)
            + (if r.player_2_id == i then (adjust r.outcome).1 else 0))
unfolding add_race
score-add_race i r bs = omega (
  arith,
  score-upsert i r.player_1_id (adjust r.outcome).0 r.player_2_id r.player_1_result bs,
  score-upsert i r.player_2_id (adjust r.outcome).1 r.player_1_id r.player_2_result
      (upsert r.player_1_id (push r.player_1_result (adjust r.outcome).0 r.player_2_id) bs),
)

pub score-add_races :
    (i : ℕ) (rs : List StandingsRace) (bs : List PlayerInfoBuilder)
    → score (add_races rs bs) i ≡ score bs i + points_of i rs
unfolding add_races points_of
score-add_races i [] bs = omega arith
score-add_races i (r ∷ rs) bs =
    ground
      (arith, adjust_lem r.outcome, score-add_race i r bs, score-add_races i rs (add_race r bs))

-- the sum over an entry's opponents, as the map has it
unfoldable pub met : (ℕ → ℕ) → ℕ → List PlayerInfoBuilder → ℕ
met f i bs = elim (find i bs) [ none ↦ 0 | some b ↦ sum_scores f b.opponents ]

sum_scores-append :
    (f : ℕ → ℕ) (xs ys : List ℕ) → sum_scores f (xs ++ ys) ≡ sum_scores f xs + sum_scores f ys
unfolding sum_scores
sum_scores-append f [] ys = omega arith
sum_scores-append f (x ∷ xs) ys = omega (arith, sum_scores-append f xs ys)

sum_scores_nil : (f : ℕ → ℕ) → sum_scores f [] ≡ 0
unfolding sum_scores
sum_scores_nil f = refl

sum_scores-push :
    (f : ℕ → ℕ) (xs : List ℕ) (x : ℕ) → sum_scores f (xs ++ x ∷ []) ≡ sum_scores f xs + f x
sum_scores-push f xs x = rw (sum_scores-append f xs (x ∷ [])) (unfold sum_scores in omega arith)

met-upsert :
    (f : ℕ → ℕ) (i j k opponent : ℕ) (result : PlayerResult) (bs : List PlayerInfoBuilder)
    → met f i (upsert j (push result k opponent) bs)
      ≡ met f i bs + (if j == i then f opponent else 0)
unfolding met find upsert
met-upsert f i j k opponent result [] =
    ground (arith, sum_scores-push f [] opponent, sum_scores_nil f)
met-upsert f i j k opponent result (b ∷ bs) =
    ground (arith, sum_scores-push f b.opponents opponent, met-upsert f i j k opponent result bs)

met-add_race :
    (f : ℕ → ℕ) (i : ℕ) (r : StandingsRace) (bs : List PlayerInfoBuilder)
    → met f i (add_race r bs)
      ≡ met f i bs
        + ((if r.player_1_id == i then f r.player_2_id else 0)
            + (if r.player_2_id == i then f r.player_1_id else 0))
unfolding add_race
met-add_race f i r bs = omega (
  arith,
  met-upsert f i r.player_1_id (adjust r.outcome).0 r.player_2_id r.player_1_result bs,
  met-upsert f i r.player_2_id (adjust r.outcome).1 r.player_1_id r.player_2_result
      (upsert r.player_1_id (push r.player_1_result (adjust r.outcome).0 r.player_2_id) bs),
)

pub met-add_races :
    (f : ℕ → ℕ) (i : ℕ) (rs : List StandingsRace) (bs : List PlayerInfoBuilder)
    → met f i (add_races rs bs) ≡ met f i bs + met_points i f rs
unfolding add_races met_points
met-add_races f i [] bs = omega arith
met-add_races f i (r ∷ rs) bs =
    omega (arith, met-add_race f i r bs, met-add_races f i rs (add_race r bs))

-- no two entries of the map have one id
abbrev pub Absent : ℕ → List PlayerInfoBuilder → Type 0
Absent i bs = All (λ b. b.id ≢ i) bs

abbrev pub Keyed : List PlayerInfoBuilder → Type 0
Keyed [] = Unit
Keyed (b ∷ bs) = Absent b.id bs × Keyed bs

Absent-upsert :
    (h j k opponent : ℕ) (result : PlayerResult) (bs : List PlayerInfoBuilder)
    → j ≢ h
    → Absent h bs
    → Absent h (upsert j (push result k opponent) bs)
unfolding upsert
Absent-upsert h j k opponent result [] ne a = (ne, tt)
Absent-upsert h j k opponent result (b ∷ bs) ne a = elim (Bool-cases (b.id == j)) [
  | inl e ↦ rw e (a.0, a.1)
  | inr e ↦ rw e (a.0, Absent-upsert h j k opponent result bs ne a.1)
]

Keyed-upsert :
    (j k opponent : ℕ) (result : PlayerResult) (bs : List PlayerInfoBuilder)
    → Keyed bs
    → Keyed (upsert j (push result k opponent) bs)
unfolding upsert
Keyed-upsert j k opponent result [] h = (tt, tt)
Keyed-upsert j k opponent result (b ∷ bs) h = elim (Bool-cases (b.id == j)) [
  | inl e ↦ rw e (h.0, h.1)
  | inr e ↦ rw e (
    Absent-upsert b.id j k opponent result bs (ground arith) h.0,
    Keyed-upsert j k opponent result bs h.1,
  )
]

pub Keyed-add_races :
    (rs : List StandingsRace) (bs : List PlayerInfoBuilder) → Keyed bs → Keyed (add_races rs bs)
unfolding add_races add_race
Keyed-add_races [] bs h = h
Keyed-add_races (r ∷ rs) bs h = Keyed-add_races rs (add_race r bs) (
    Keyed-upsert r.player_2_id (adjust r.outcome).1 r.player_1_id r.player_2_result _
      (Keyed-upsert r.player_1_id (adjust r.outcome).0 r.player_2_id r.player_1_result bs h))

found_later :
    (b : PlayerInfoBuilder) (bs xs : List PlayerInfoBuilder)
    → Absent b.id xs
    → All (λ c. find c.id bs ≡ some c) xs
    → All (λ c. find c.id (b ∷ bs) ≡ some c) xs
unfolding find
found_later b bs [] a h = tt
found_later b bs (x ∷ xs) a h = (ground (arith, h.0), found_later b bs xs a.1 h.1)

pub Keyed-find : (bs : List PlayerInfoBuilder) → Keyed bs → All (λ b. find b.id bs ≡ some b) bs
Keyed-find [] h = tt
Keyed-find (b ∷ bs) h = (unfold find in ground arith, found_later b bs bs h.0 (Keyed-find bs h.1))
