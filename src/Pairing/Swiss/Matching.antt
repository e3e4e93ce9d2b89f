-- ===== src/Pairing/Swiss/Matching.antt =====
-- A swiss round is a matching: no player is in two of its races.
use mathlib.Core.List.{reverse, reverse-cons}
use nmg_league_bot.Base.{
  ◌++◌, length-append, inr, inl, err, Option-cases, Result, Option, ℕ, ◌+◌, ◌*◌, ◌≤◌, ◌≡◌, refl,
  false, List, [], ◌∷◌, some, none, ok, length, arith, ◌==◌, if◌then◌else◌,
}
use nmg_league_bot.Tables.{Player}
use nmg_league_bot.Pairing.RoundRobin.{Pair}
use nmg_league_bot.Pairing.Swiss.{pair_up, has_id, by_id, remove, assign}

-- how often the id `i` is in a list of players
unfoldable pub count_id : ℕ → List Player → ℕ
count_id i [] = 0
count_id i (p ∷ ps) = (if p.id == i then 1 else 0) + count_id i ps

-- how often the id `i` is in the races of a round
unfoldable pub appearances : ℕ → List Pair → ℕ
appearances i [] = 0
appearances i ((p, q) ∷ xs) =
    (if p.id == i then 1 else 0) + ((if q.id == i then 1 else 0) + appearances i xs)

-- Pairing up loses nobody: who is in no race is left over, and at most one player is.
pub pair_up_lem :
    (ps : List Player) (i : ℕ)
    → (appearances i (pair_up ps).0 + count_id i (pair_up ps).1 ≡ count_id i ps)
      × (length (pair_up ps).1 ≤ 1)
      × (2 * length (pair_up ps).0 + length (pair_up ps).1 ≡ length ps)
unfolding pair_up appearances count_id
pair_up_lem [] i = omega arith
pair_up_lem (p ∷ []) i = omega arith
pair_up_lem (p ∷ q ∷ ps) i = omega (arith, pair_up_lem ps i)

count_id-has_id : (i : ℕ) (ps : List Player) → has_id i ps ≡ false → count_id i ps ≡ 0
unfolding count_id
count_id-has_id i [] h = refl
count_id-has_id i (p ∷ ps) h = ground (arith, count_id-has_id i ps)

has_id-by_id : (i : ℕ) (ps : List Player) → has_id i (by_id ps) ≡ has_id i ps
unfolding by_id
has_id-by_id i [] = refl
has_id-by_id i (p ∷ ps) = ground (arith, has_id-by_id i ps)

-- The map of the bracket's players has each entered id once.
pub count_id-by_id :
    (i : ℕ) (ps : List Player) → count_id i (by_id ps) ≡ (if has_id i ps then 1 else 0)
unfolding by_id count_id
count_id-by_id i [] = refl
count_id-by_id i (p ∷ ps) = ground (arith, count_id-by_id i ps)

-- what a removal gives: a player with the id, and the others as often as before
abbrev Removed : ℕ → ℕ → List Player → Option (Player × List Player) → Type 0
Removed a i ps none = Unit
Removed a i ps (some (p, rest)) =
    (p.id ≡ a) × (count_id i ps ≡ (if p.id == i then 1 else 0) + count_id i rest)

remove_lem : (a i : ℕ) (ps : List Player) → Removed a i ps (remove a ps)
unfolding remove count_id
remove_lem a i [] = tt
remove_lem a i (q ∷ ps) = ground (arith, remove_lem a i ps)

abbrev Assigned : {E : Type 0} → ℕ → List (ℕ × ℕ) → List Player → Result E (List Pair) → Type 0
Assigned i pairings ps (err _) = Unit
Assigned i pairings ps (ok found) =
    (appearances i found ≤ count_id i ps) × (length found ≡ length pairings)

assign_step :
    {E : Type 0} (cannot_find : E) (a b : ℕ) (rest : List (ℕ × ℕ)) (ps : List Player) (i : ℕ)
    → ((qs : List Player) → Assigned i rest qs (assign cannot_find rest qs))
    → Assigned i ((a, b) ∷ rest) ps (assign cannot_find ((a, b) ∷ rest) ps)
unfolding assign appearances
assign_step cannot_find a b rest ps i ih = elim (Option-cases (remove a ps)) [
  | inl e ↦ ground arith
  | inr ((p, ps1), e) ↦ elim (Option-cases (remove b ps1)) [
    | inl d ↦ ground arith
    | inr ((q, ps2), d) ↦ ground (arith, ih ps2, remove_lem a i ps, remove_lem b i ps1)
  ]
]

-- Whatever list of pairings comes back: if the races of the round can be made, no id is in more of
-- them than in the map of players, and there is a race for each pairing.
pub assign_lem :
    {E : Type 0} (cannot_find : E) (pairings : List (ℕ × ℕ)) (ps : List Player) (i : ℕ)
    → Assigned i pairings ps (assign cannot_find pairings ps)
assign_lem cannot_find [] ps i = unfold assign appearances in omega arith
assign_lem cannot_find ((a, b) ∷ rest) ps i =
    assign_step cannot_find a b rest ps i (λ qs. assign_lem cannot_find rest qs i)

-- Over the players of a bracket: in the next round each entered player has at most one race, and no
-- one else has any.
pub next_round_matching :
    {E : Type 0} (cannot_find : E) (pairings : List (ℕ × ℕ)) (ps : List Player) {found : List Pair}
    → assign cannot_find pairings (by_id ps) ≡ ok found
    → (i : ℕ)
    → (appearances i found ≤ (if has_id i ps then 1 else 0)) × (length found ≡ length pairings)
next_round_matching cannot_find pairings ps h i =
    ground (arith, assign_lem cannot_find pairings (by_id ps) i, count_id-by_id i ps)

count_id-append :
    (i : ℕ) (ps qs : List Player) → count_id i (ps ++ qs) ≡ count_id i ps + count_id i qs
unfolding count_id
count_id-append i [] qs = omega arith
count_id-append i (p ∷ ps) qs = omega (arith, count_id-append i ps qs)

pub count_id-reverse : (i : ℕ) (ps : List Player) → count_id i (reverse ps) ≡ count_id i ps
unfolding count_id
count_id-reverse i [] = refl
count_id-reverse i (p ∷ ps) =
    rw (reverse-cons p ps, count_id-append i (reverse ps) (p ∷ []))
      (omega (arith, count_id-reverse i ps))

pub length-reverse : (ps : List Player) → length (reverse ps) ≡ length ps
length-reverse [] = refl
length-reverse (p ∷ ps) =
    rw (reverse-cons p ps)
      (omega (arith, length-append {0} (reverse ps) (p ∷ []), length-reverse ps))

empty_of_length : {A : Type 0} (xs : List A) → length xs ≡ 0 → xs ≡ []
empty_of_length [] h = refl
empty_of_length (x ∷ xs) h = absurd (omega arith)

head_of_length :
    {A : Type 0} (xs : List A) → length xs ≡ 1 → (x : A) × (rest : List A) × (xs ≡ x ∷ rest)
head_of_length [] h = absurd (omega arith)
head_of_length (x ∷ xs) h = (x, xs, refl)

pub pair_up-even :
    (ps : List Player) (n : ℕ)
    → length ps ≡ 2 * n
    → (pair_up ps ≡ ((pair_up ps).0, [])) × (length (pair_up ps).0 ≡ n)
pair_up-even ps n h =
    let l = pair_up_lem ps 0 in
    let nobody : (pair_up ps).1 ≡ [] = empty_of_length (pair_up ps).1 (omega (arith, l)) in
    (λ i. ((pair_up ps).0, nobody i), omega (arith, l))

pub pair_up-odd :
    (ps : List Player) (n : ℕ)
    → length ps ≡ 2 * n + 1
    → (p : Player) × (left : List Player) × (pair_up ps ≡ ((pair_up ps).0, p ∷ left))
pair_up-odd ps n h =
    let l = pair_up_lem ps 0 in
    let (p, left, e) = head_of_length (pair_up ps).1 (omega (arith, l)) in
    (p, left, λ i. ((pair_up ps).0, e i))
