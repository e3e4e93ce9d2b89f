-- ===== src/Standings/Order.antt =====
-- The standings are sorted, and nobody is lost.
use mathlib.Core.List.{Perm}
use mathlib.Core.List.Perm
use nmg_league_bot.Base.{
  ◌<◌, ◌≤◌, ◌⊎◌, map, ◌≡◌, true, false, List, [], ◌∷◌, All, arith, Bool-cases, inl, inr,
}
use nmg_league_bot.Standings.{
  add_races, score, build, PlayerInfo, StandingsRace, ranks_before, insert_info, sort_infos,
  rank_players, time_adjusted,
}
use nmg_league_bot.Standings.Points.{All-insert}

-- what puts `p` above `q`: more points; or as many, and more opponents' points; or as many of these
-- too, and less time; or the same time, and no greater id
abbrev pub Above : PlayerInfo → PlayerInfo → Type 0
Above p q =
    (q.points < p.points)
    ⊎ ((p.points ≡ q.points)
        × ((q.opponent_points < p.opponent_points)
            ⊎ ((p.opponent_points ≡ q.opponent_points)
                × ((time_adjusted p < time_adjusted q)
                    ⊎ ((time_adjusted p ≡ time_adjusted q) × (p.id ≤ q.id))))))

-- each player is above all that follow
abbrev pub InOrder : List PlayerInfo → Type 0
InOrder [] = Unit
InOrder (p ∷ ps) = All (Above p) ps × InOrder ps

-- sorted by the code's comparison
abbrev NoneBefore : List PlayerInfo → Type 0
NoneBefore [] = Unit
NoneBefore (p ∷ ps) = All (λ q. ranks_before q p ≡ false) ps × NoneBefore ps

ranks_before_asym : (p q : PlayerInfo) → ranks_before p q ≡ true → ranks_before q p ≡ false
unfolding ranks_before
ranks_before_asym p q h = ground arith

ranks_before_trans :
    (p q r : PlayerInfo)
    → ranks_before q p ≡ false
    → ranks_before r q ≡ false
    → ranks_before r p ≡ false
unfolding ranks_before
ranks_before_trans p q r h k = ground arith

All-trans :
    (p q : PlayerInfo) (ps : List PlayerInfo)
    → ranks_before q p ≡ false
    → All (λ r. ranks_before r q ≡ false) ps
    → All (λ r. ranks_before r p ≡ false) ps
All-trans p q [] h k = tt
All-trans p q (r ∷ ps) h k = (ranks_before_trans p q r h k.0, All-trans p q ps h k.1)

insert-NoneBefore :
    (p : PlayerInfo) (ps : List PlayerInfo) → NoneBefore ps → NoneBefore (insert_info p ps)
unfolding insert_info
insert-NoneBefore p [] h = (tt, tt)
insert-NoneBefore p (q ∷ qs) h = elim (Bool-cases (ranks_before q p)) [
  | inl e ↦ rw e (
    All-insert (λ r. ranks_before r q ≡ false) p qs (ranks_before_asym q p e) h.0,
    insert-NoneBefore p qs h.1,
  )
  | inr e ↦ rw e ((e, All-trans p q qs e h.0), h)
]

sort-NoneBefore : (ps : List PlayerInfo) → NoneBefore (sort_infos ps)
unfolding sort_infos
sort-NoneBefore [] = tt
sort-NoneBefore (p ∷ ps) = insert-NoneBefore p (sort_infos ps) (sort-NoneBefore ps)

unranked-Above : (p q : PlayerInfo) → ranks_before q p ≡ false → Above p q
unfolding ranks_before
unranked-Above p q h = ground arith

All-Above :
    (p : PlayerInfo) (ps : List PlayerInfo)
    → All (λ q. ranks_before q p ≡ false) ps
    → All (Above p) ps
All-Above p [] h = tt
All-Above p (q ∷ ps) h = (unranked-Above p q h.0, All-Above p ps h.1)

NoneBefore-InOrder : (ps : List PlayerInfo) → NoneBefore ps → InOrder ps
NoneBefore-InOrder [] h = tt
NoneBefore-InOrder (p ∷ ps) h = (All-Above p ps h.0, NoneBefore-InOrder ps h.1)

insert-Perm : (p : PlayerInfo) (ps : List PlayerInfo) → Perm (insert_info p ps) (p ∷ ps)
unfolding insert_info
insert-Perm p [] = Perm.refl (p ∷ [])
insert-Perm p (q ∷ qs) = elim (Bool-cases (ranks_before q p)) [
  | inl e ↦ rw e (Perm.trans (Perm.cons q (insert-Perm p qs)) (Perm.swap p q qs))
  | inr e ↦ rw e (Perm.refl (p ∷ q ∷ qs))
]

sort-Perm : (ps : List PlayerInfo) → Perm (sort_infos ps) ps
unfolding sort_infos
sort-Perm [] = Perm.refl []
sort-Perm (p ∷ ps) = Perm.trans (insert-Perm p (sort_infos ps)) (Perm.cons p (sort-Perm ps))

-- The standings have the entries of the races, each once, and everyone is above all that follow: by
-- more points, then by more opponents' points, then by less time, modulo 2 ^ 32, then by id.
pub rank_players-InOrder :
    (rs : List StandingsRace)
    → InOrder (rank_players rs)
      × Perm (rank_players rs) (map (build (score (add_races rs []))) (add_races rs []))
unfolding rank_players
rank_players-InOrder rs =
    let infos = map (build (score (add_races rs []))) (add_races rs []) in
    (NoneBefore-InOrder (sort_infos infos) (sort-NoneBefore infos), sort-Perm infos)
