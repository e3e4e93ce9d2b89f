-- ===== src/Pairing/RoundRobin/Schedule.antt =====
-- The schedule that a round robin stands for: each player against all later ones.
use nmg_league_bot.Base.{
  ℕ, ◌+◌, ◌-◌, ◌*◌, ◌<◌, ◌≡◌, refl, sym, suc, List, [], ◌∷◌, ◌++◌, map, length, ap, ◌∙◌,
  length-append, length-map, All, arith,
}
use nmg_league_bot.Tables.{Player}
use nmg_league_bot.Pairing.RoundRobin.{Pair, expected}

abbrev pub Below : Player → List Player → Type 0
Below p qs = All (λ q. p.id < q.id) qs

abbrev pub Ascending : List Player → Type 0
Ascending [] = Unit
Ascending (p ∷ ps) = Below p ps × Ascending ps

unfoldable pub against : Player → List Player → List Pair
against p qs = map (λ q. (p, q)) qs

unfoldable pub schedule : List Player → List Pair
unfolding against
schedule [] = []
schedule (p ∷ ps) = against p ps ++ schedule ps

length-against : (p : Player) (qs : List Player) → length (against p qs) ≡ length qs
unfolding against
length-against p qs = length-map _ qs

length-schedule_step :
    (p : Player) (ps : List Player) → length (schedule (p ∷ ps)) ≡ length ps + length (schedule ps)
unfolding schedule
length-schedule_step p ps =
    length-append (against p ps) (schedule ps)
    ∙ ap (λ n. n + length (schedule ps)) (length-against p ps)

pub schedule-cons :
    (p : Player) (ps : List Player) → schedule (p ∷ ps) ≡ against p ps ++ schedule ps
unfolding schedule
schedule-cons p ps = refl

triangle_step : (n m k : ℕ) → 2 * m ≡ suc n * n → k ≡ suc n + m → 2 * k ≡ suc (suc n) * suc n
triangle_step n m k h e = omega arith

double_schedule :
    (p : Player) (ps : List Player) → 2 * length (schedule (p ∷ ps)) ≡ suc (length ps) * length ps
double_schedule p [] = unfold schedule in refl
double_schedule p (q ∷ ps) =
    triangle_step (length ps) (length (schedule (q ∷ ps))) _ (double_schedule q ps)
      (length-schedule_step p (q ∷ ps))

half : (n k : ℕ) → 2 * k ≡ suc n * n → k ≡ expected (suc n)
half n k h =
    let e : suc n - 1 ≡ n = omega arith in
    rw e (let d : suc n * n ≡ 2 * k = sym h in rw d (omega arith))

-- n players play n (n - 1) / 2 races.
pub length-schedule : (ps : List Player) → length (schedule ps) ≡ expected (length ps)
length-schedule [] = unfold schedule in refl
length-schedule (p ∷ ps) = half (length ps) _ (double_schedule p ps)
