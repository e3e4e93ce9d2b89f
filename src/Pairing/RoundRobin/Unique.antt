-- ===== src/Pairing/RoundRobin/Unique.antt =====
-- The filtered, ordered and deduplicated product of a sorted list is its schedule.
use mathlib.Core.List.{append_assoc, map-append}
use nmg_league_bot.Base.{
  All-append, ◌<◌, ◌≡◌, refl, ap, true, false, List, [], ◌∷◌, ◌++◌, map, filter, any, All, arith,
}
use nmg_league_bot.Tables.{Player}
use nmg_league_bot.Pairing.RoundRobin.{
  pairs_of, product, Pair, sorted_tuple, different, same_pair, unique_from,
}
use nmg_league_bot.Pairing.RoundRobin.Schedule.{schedule-cons, schedule, Below, Ascending, against}

-- every player of the list is below `p`
abbrev Above : Player → List Player → Type 0
Above p qs = All (λ q. q.id < p.id) qs

abbrev row : Player → List Player → List Pair
row p qs = map sorted_tuple (filter different (map (λ q. (p, q)) qs))

row-Above : (p : Player) (qs : List Player) → Above p qs → row p qs ≡ map (λ q. (q, p)) qs
unfolding sorted_tuple filter
row-Above p [] h = refl
row-Above p (q ∷ qs) h = ground (arith, row-Above p qs h.1)

row-Below : (p : Player) (qs : List Player) → Below p qs → row p qs ≡ against p qs
unfolding sorted_tuple filter against
row-Below p [] h = refl
row-Below p (q ∷ qs) h = ground (arith, row-Below p qs h.1)

filter-append :
    (xs ys : List Pair) → filter different (xs ++ ys) ≡ filter different xs ++ filter different ys
unfolding filter
filter-append [] ys = refl
filter-append (x ∷ xs) ys = ground (arith, filter-append xs ys)

row-append : (p : Player) (qs rs : List Player) → row p (qs ++ rs) ≡ row p qs ++ row p rs
row-append p qs rs = simp (map-append, filter-append)

row_self : (p : Player) (qs : List Player) → row p (p ∷ qs) ≡ row p qs
unfolding filter
row_self p qs = ground arith

-- A row of the product: the opponents before, then those after.
row_lem :
    (p : Player) (before after : List Player)
    → Above p before
    → Below p after
    → row p (before ++ p ∷ after) ≡ map (λ q. (q, p)) before ++ against p after
row_lem p before after h k =
    rw (row-append, row_self p after, row-Above p before h, row-Below p after k)

-- what `unique` has seen after a row of new pairs
abbrev seen_row : Player → List Player → List Pair → List Pair
seen_row p [] seen = seen
seen_row p (q ∷ qs) seen = seen_row p qs ((p, q) ∷ seen)

abbrev Seen : List Pair → Pair → Type 0
Seen seen x = any (same_pair x) seen ≡ true

abbrev New : List Pair → Pair → Type 0
New seen x = any (same_pair x) seen ≡ false

skip :
    (seen xs rest : List Pair)
    → All (Seen seen) xs
    → unique_from seen (xs ++ rest) ≡ unique_from seen rest
unfolding unique_from
skip seen [] rest h = refl
skip seen (x ∷ xs) rest h = rw (h.0, unique_from) (skip seen xs rest h.1)

-- a pair of another first player, or of an earlier second one, is as new as before
still_new :
    (p q : Player) (qs : List Player) (seen : List Pair)
    → Below q qs
    → All (λ r. New seen (p, r)) qs
    → All (λ r. New ((p, q) ∷ seen) (p, r)) qs
still_new p q [] seen h k = tt
still_new p q (r ∷ qs) seen h k = (ground (arith, k.0), still_new p q qs seen h.1 k.1)

take_row :
    (p : Player) (qs : List Player) (seen rest : List Pair)
    → Ascending qs
    → All (λ q. New seen (p, q)) qs
    → unique_from seen (against p qs ++ rest)
      ≡ against p qs ++ unique_from (seen_row p qs seen) rest
unfolding unique_from against
take_row p [] seen rest h k = refl
take_row p (q ∷ qs) seen rest h k =
    rw (k.0, unique_from)
      (ap (λ l. (p, q) ∷ l)
        (take_row p qs ((p, q) ∷ seen) rest h.1 (still_new p q qs seen h.0 k.1)))

-- What `unique` knows before the rows of `after`: it has seen every pair of an earlier player with
-- these, and no pair that begins with one of these.
record Progress (before after : List Player) (seen : List Pair) : Type 0 where
  old : All (λ p. All (λ q. Seen seen (p, q)) after) before
  fresh : All (λ p. (q : Player) → New seen (p, q)) after

Seen-seen_row :
    (x : Pair) (p : Player) (qs : List Player) (seen : List Pair)
    → Seen seen x
    → Seen (seen_row p qs seen) x
Seen-seen_row x p [] seen h = h
Seen-seen_row x p (q ∷ qs) seen h = Seen-seen_row x p qs ((p, q) ∷ seen) (ground arith)

seen_row_self :
    (p : Player) (qs : List Player) (seen : List Pair)
    → All (λ q. Seen (seen_row p qs seen) (p, q)) qs
seen_row_self p [] seen = tt
seen_row_self p (q ∷ qs) seen =
    (Seen-seen_row (p, q) p qs ((p, q) ∷ seen) (ground arith), seen_row_self p qs ((p, q) ∷ seen))

New-seen_row :
    (x : Pair) (p : Player) (qs : List Player) (seen : List Pair)
    → p.id < x.0.id
    → New seen x
    → New (seen_row p qs seen) x
New-seen_row x p [] seen h k = k
New-seen_row x p (q ∷ qs) seen h k = New-seen_row x p qs ((p, q) ∷ seen) h (ground arith)

old_row :
    (r p : Player) (qs xs : List Player) (seen : List Pair)
    → All (λ q. Seen seen (r, q)) xs
    → All (λ q. Seen (seen_row p qs seen) (r, q)) xs
old_row r p qs [] seen h = tt
old_row r p qs (x ∷ xs) seen h = (Seen-seen_row (r, x) p qs seen h.0, old_row r p qs xs seen h.1)

old_rows :
    (rs : List Player) (p : Player) (qs : List Player) (seen : List Pair)
    → All (λ r. All (λ q. Seen seen (r, q)) (p ∷ qs)) rs
    → All (λ r. All (λ q. Seen (seen_row p qs seen) (r, q)) qs) rs
old_rows [] p qs seen h = tt
old_rows (r ∷ rs) p qs seen h = (old_row r p qs qs seen h.0.1, old_rows rs p qs seen h.1)

fresh_rows :
    (xs : List Player) (p : Player) (qs : List Player) (seen : List Pair)
    → Below p xs
    → All (λ r. (q : Player) → New seen (r, q)) xs
    → All (λ r. (q : Player) → New (seen_row p qs seen) (r, q)) xs
fresh_rows [] p qs seen h k = tt
fresh_rows (x ∷ xs) p qs seen h k =
    (λ q. New-seen_row (x, q) p qs seen h.0 (k.0 q), fresh_rows xs p qs seen h.1 k.1)

Progress-step :
    (before : List Player) (p : Player) (after : List Player) (seen : List Pair)
    → Below p after
    → Progress before (p ∷ after) seen
    → Progress (before ++ p ∷ []) after (seen_row p after seen)
Progress-step before p after seen h g = record {
  old =
      All-append _ before (p ∷ []) (old_rows before p after seen g.old)
        (seen_row_self p after seen, tt);
  fresh = fresh_rows after p after seen h g.fresh.1;
}

old_heads :
    (before : List Player) (p : Player) (after : List Player) (seen : List Pair)
    → All (λ r. All (λ q. Seen seen (r, q)) (p ∷ after)) before
    → All (Seen seen) (map (λ q. (q, p)) before)
old_heads [] p after seen h = tt
old_heads (r ∷ before) p after seen h = (h.0.0, old_heads before p after seen h.1)

fresh_heads :
    (p : Player) (qs : List Player) (seen : List Pair)
    → ((q : Player) → New seen (p, q))
    → All (λ q. New seen (p, q)) qs
fresh_heads p [] seen h = tt
fresh_heads p (q ∷ qs) seen h = (h q, fresh_heads p qs seen h)

Above-append :
    (p q : Player) (before : List Player)
    → Above q before
    → p.id < q.id
    → Above q (before ++ p ∷ [])
Above-append p q [] h k = (k, tt)
Above-append p q (r ∷ before) h k = (h.0, Above-append p q before h.1 k)

Above-rest :
    (p : Player) (before after : List Player)
    → Below p after
    → All (λ q. Above q before) after
    → All (λ q. Above q (before ++ p ∷ [])) after
Above-rest p before [] h k = tt
Above-rest p before (q ∷ after) h k =
    (Above-append p q before k.0 h.0, Above-rest p before after h.1 k.1)

abbrev rows : List Player → List Player → List Pair
rows ps whole = map sorted_tuple (filter different (product ps whole))

rows-cons :
    (p : Player) (ps whole : List Player) → rows (p ∷ ps) whole ≡ row p whole ++ rows ps whole
unfolding product
rows-cons p ps whole = simp (filter-append, map-append)

rows_lem :
    (before after : List Player) (seen : List Pair)
    → Ascending after
    → All (λ p. Above p before) after
    → Progress before after seen
    → unique_from seen (rows after (before ++ after)) ≡ schedule after
rows_lem before [] seen h a g = unfold unique_from schedule product filter in refl
rows_lem before (p ∷ after) seen h a g =
    rw (rows-cons p after (before ++ p ∷ after), row_lem p before after a.0 h.0, append_assoc)
      (rw
        (skip seen (map (λ q. (q, p)) before) (against p after ++ rows after (before ++ p ∷ after))
          (old_heads before p after seen g.old))
        (rw
          (take_row p after seen (rows after (before ++ p ∷ after)) h.1
            (fresh_heads p after seen g.fresh.0))
          (rw schedule-cons (
            ap (λ l. against p after ++ l)
              (rw (← append_assoc before (p ∷ []) after) (
                rows_lem (before ++ p ∷ []) after (seen_row p after seen) h.1
                  (Above-rest p before after h.0 a.1)
                  (Progress-step before p after seen h.0 g)))))))

nothing_before : (ps : List Player) → All (λ p. Above p []) ps
nothing_before [] = tt
nothing_before (p ∷ ps) = (tt, nothing_before ps)

nothing_seen : (ps : List Player) → All (λ p. (q : Player) → New [] (p, q)) ps
nothing_seen [] = tt
nothing_seen (p ∷ ps) = (λ q. refl, nothing_seen ps)

-- Of players in ascending order of their ids, the code keeps each player against all later ones.
pub pairs_of-schedule : (ps : List Player) → Ascending ps → pairs_of ps ≡ schedule ps
unfolding pairs_of
pairs_of-schedule ps h =
    rows_lem [] ps [] h (nothing_before ps) (record { old = tt; fresh = nothing_seen ps })
