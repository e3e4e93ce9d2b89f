-- ===== src/Pairing/RoundRobin/Complete.antt =====
-- A round robin is complete: any two players meet exactly once, in whatever order the database
-- returns the players.
use nmg_league_bot.Base.{
  ltb→lt, inr, ◌≤◌, inl, ltb, Bool-cases, ℕ, ◌+◌, ◌<◌, ◌≡◌, ◌≢◌, refl, ap, ◌∙◌, Bool, false, ◌&&◌,
  ◌||◌, List, [], ◌∷◌, ◌++◌, any, All, arith, ◌==◌, if◌then◌else◌, length, suc, ok,
}
use nmg_league_bot.Tables.{Player}
use nmg_league_bot.Pairing.RoundRobin.{expected, Pair, pairings, insert_by_id, sort_by_id}
use nmg_league_bot.Pairing.RoundRobin.Schedule.{
  Below, Ascending, against, schedule, schedule-cons, length-schedule,
}
use nmg_league_bot.Pairing.RoundRobin.Unique.{pairs_of-schedule}

-- No two rows of the list have the same id.
abbrev pub Distinct : List Player → Type 0
Distinct [] = Unit
Distinct (p ∷ ps) = All (λ q. p.id ≢ q.id) ps × Distinct ps

unfoldable pub entered : ℕ → List Player → Bool
entered i ps = any (λ p. p.id == i) ps

-- how many races are between the players with ids `a` and `b`
abbrev is_between : ℕ → ℕ → Pair → Bool
is_between a b (p, q) = (p.id == a && q.id == b) || (p.id == b && q.id == a)

unfoldable pub meetings : ℕ → ℕ → List Pair → ℕ
meetings a b [] = 0
meetings a b (x ∷ xs) = (if is_between a b x then 1 else 0) + meetings a b xs

All-insert :
    (P : Player → Type 0) (p : Player) (qs : List Player)
    → P p
    → All P qs
    → All P (insert_by_id p qs)
unfolding insert_by_id
All-insert P p [] h k = (h, tt)
All-insert P p (q ∷ qs) h k = elim (Bool-cases (ltb q.id p.id)) [
  | inl e ↦ rw e (k.0, All-insert P p qs h k.1)
  | inr e ↦ rw e (h, k)
]

All-sort : (P : Player → Type 0) (ps : List Player) → All P ps → All P (sort_by_id ps)
unfolding sort_by_id
All-sort P [] h = tt
All-sort P (p ∷ ps) h = All-insert P p (sort_by_id ps) h.0 (All-sort P ps h.1)

Below-all : (p q : Player) (qs : List Player) → p.id < q.id → Below q qs → Below p qs
Below-all p q [] h k = tt
Below-all p q (r ∷ qs) h k = (omega arith, Below-all p q qs h k.1)

insert-Ascending :
    (p : Player) (qs : List Player)
    → All (λ q. p.id ≢ q.id) qs
    → Ascending qs
    → Ascending (insert_by_id p qs)
unfolding insert_by_id
insert-Ascending p [] h k = (tt, tt)
insert-Ascending p (q ∷ qs) h k = elim (Bool-cases (ltb q.id p.id)) [
  | inl e ↦
      rw e (All-insert (λ r. q.id < r.id) p qs (ltb→lt _ _ e) k.0, insert-Ascending p qs h.1 k.1)
  | inr e ↦ rw e (let lt : p.id < q.id = ground (arith, h.0) in ((lt, Below-all p q qs lt k.0), k))
]

sort-Ascending : (ps : List Player) → Distinct ps → Ascending (sort_by_id ps)
unfolding sort_by_id
sort-Ascending [] h = tt
sort-Ascending (p ∷ ps) h =
    insert-Ascending p (sort_by_id ps) (All-sort (λ q. p.id ≢ q.id) ps h.0) (sort-Ascending ps h.1)

entered-insert :
    (i : ℕ) (p : Player) (qs : List Player) → entered i (insert_by_id p qs) ≡ entered i (p ∷ qs)
unfolding insert_by_id entered
entered-insert i p [] = refl
entered-insert i p (q ∷ qs) = ground (arith, entered-insert i p qs)

entered-sort : (i : ℕ) (ps : List Player) → entered i (sort_by_id ps) ≡ entered i ps
unfolding sort_by_id entered
entered-sort i [] = refl
entered-sort i (p ∷ ps) =
    entered-insert i p (sort_by_id ps) ∙ ap (λ b. p.id == i || b) (entered-sort i ps)

meetings-append :
    (a b : ℕ) (xs ys : List Pair) → meetings a b (xs ++ ys) ≡ meetings a b xs + meetings a b ys
unfolding meetings
meetings-append a b [] ys = omega arith
meetings-append a b (x ∷ xs) ys = omega (arith, meetings-append a b xs ys)

-- a player below all of the list is not in it
entered-Below :
    (i : ℕ) (p : Player) (ps : List Player) → i ≤ p.id → Below p ps → entered i ps ≡ false
unfolding entered
entered-Below i p [] h k = refl
entered-Below i p (q ∷ ps) h k = ground (arith, entered-Below i p ps h k.1)

meetings-against :
    (a b : ℕ) (p : Player) (ps : List Player)
    → a < b
    → Ascending ps
    → Below p ps
    → meetings a b (against p ps) ≡ (if p.id == a && entered b ps then 1 else 0)
unfolding meetings against entered
meetings-against a b p [] h k l = ground arith
meetings-against a b p (q ∷ ps) h k l =
    ground (arith, meetings-against a b p ps h k.1 l.1, entered-Below b q ps)

meetings-schedule :
    (a b : ℕ) (ps : List Player)
    → a < b
    → Ascending ps
    → meetings a b (schedule ps) ≡ (if entered a ps && entered b ps then 1 else 0)
unfolding entered
meetings-schedule a b [] h k = unfold schedule meetings in refl
meetings-schedule a b (p ∷ ps) h k =
    rw (schedule-cons, meetings-append)
      (ground (
        arith,
        meetings-against a b p ps h k.1 k.0,
        meetings-schedule a b ps h k.1,
        entered-Below a p ps,
        entered-Below b p ps,
      ))

length-insert : (p : Player) (qs : List Player) → length (insert_by_id p qs) ≡ suc (length qs)
unfolding insert_by_id
length-insert p [] = refl
length-insert p (q ∷ qs) = ground (arith, length-insert p qs)

-- The count of races is the expected one, so the pairing succeeds.
pub pairings-succeeds :
    {E : Type 0} (wrong_count : E) (ps : List Player)
    → Distinct ps
    → pairings wrong_count ps ≡ ok (schedule (sort_by_id ps))
unfolding pairings
pairings-succeeds wrong_count ps h =
    rw (pairs_of-schedule (sort_by_id ps) (sort-Ascending ps h))
      (ground (arith, length-schedule (sort_by_id ps)))

length-sort : (ps : List Player) → length (sort_by_id ps) ≡ length ps
unfolding sort_by_id
length-sort [] = refl
length-sort (p ∷ ps) = length-insert p (sort_by_id ps) ∙ ap suc (length-sort ps)

-- In whatever order the players of a bracket are loaded: if no two of them share an id, the round
-- robin has n (n - 1) / 2 races, and two ids meet once if both are entered, and else never.
pub pairings_complete :
    {E : Type 0} (wrong_count : E) (ps : List Player)
    → Distinct ps
    → (found : List Pair) × (pairings wrong_count ps ≡ ok found)
      × (length found ≡ expected (length ps))
      × ((a b : ℕ) → a < b → meetings a b found ≡ (if entered a ps && entered b ps then 1 else 0))
pairings_complete wrong_count ps h = (
  schedule (sort_by_id ps),
  pairings-succeeds wrong_count ps h,
  length-schedule (sort_by_id ps) ∙ ap expected (length-sort ps),
  λ a b lt. rw (
    meetings-schedule a b (sort_by_id ps) lt (sort-Ascending ps h),
    entered-sort a ps,
    entered-sort b ps,
  ),
)
