-- ===== src/Pairing/RoundRobin.antt =====
-- `generate_pairings_round_robin` of src/models/brackets.rs, up to the insertion of the races.
pub mod Schedule
pub mod Unique
pub mod Complete
use nmg_league_bot.Base.{
  ℕ, ◌-◌, ◌*◌, ◌/◌, String, Bool, not, ◌&&◌, true, false, List, [], ◌∷◌, ◌++◌, map, filter, length,
  any, Result, ok, err, ltb, ◌==◌, if◌then◌else◌,
}
use nmg_league_bot.Tables.{Player}

abbrev pub Pair : Type 0
Pair = Player × Player

-- `sort_unstable_by_key(|p| p.id)`
insert_by_id : Player → List Player → List Player
insert_by_id p [] = p ∷ []
insert_by_id p (q ∷ qs) = if ltb q.id p.id then q ∷ insert_by_id p qs else p ∷ q ∷ qs

unfoldable pub sort_by_id : List Player → List Player
unfolding insert_by_id
sort_by_id [] = []
sort_by_id (p ∷ ps) = insert_by_id p (sort_by_id ps)

unfoldable pub sorted_tuple : Pair → Pair
sorted_tuple (p1, p2) = if ltb p1.id p2.id then (p1, p2) else (p2, p1)

-- `itertools::iproduct!`: the second component moves first
unfoldable pub product : List Player → List Player → List Pair
product [] qs = []
product (p ∷ ps) qs = map (λ q. (p, q)) qs ++ product ps qs

abbrev pub different : Pair → Bool
different (p1, p2) = not (p1.id == p2.id)

-- `Player` compares by its id
abbrev pub same_pair : Pair → Pair → Bool
same_pair (a, b) (c, d) = a.id == c.id && b.id == d.id

-- `Itertools::unique`: the first of equal elements stays
unfoldable pub unique_from : List Pair → List Pair → List Pair
unique_from seen [] = []
unique_from seen (x ∷ xs) = elim (any (same_pair x) seen) [
  | true ↦ unique_from seen xs
  | false ↦ x ∷ unique_from (x ∷ seen) xs
]

unfoldable pub pairs_of : List Player → List Pair
unfolding product unique_from sorted_tuple
pairs_of ps = unique_from [] (map sorted_tuple (filter different (product ps ps)))

-- The source subtracts 1 from a usize: with no player a release build wraps and multiplies by 0, and
-- ℕ gives the same 0; a debug build panics there.
abbrev pub expected : ℕ → ℕ
expected n = n * (n - 1) / 2

unfoldable pub pairings : {E : Type 0} → E → List Player → Result E (List Pair)
unfolding sort_by_id pairs_of
pairings wrong_count ps =
    let sorted = sort_by_id ps in
    let found = pairs_of sorted in
    if length found == expected (length sorted) then ok found else err wrong_count
