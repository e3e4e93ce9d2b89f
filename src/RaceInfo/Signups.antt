-- ===== src/RaceInfo/Signups.antt =====
-- Commentators sign up at most once for a race.
use text.Mathlib.TextPositions.{eq_refl}
use nmg_league_bot.Base.{
  ok, Bool, ℕ, ◌+◌, ◌≤◌, ◌≡◌, refl, String, true, false, not, List, [], ◌∷◌, ◌++◌, filter, arith,
  if◌then◌else◌, any,
}
use nmg_league_bot.Tables.{BracketRaceInfo, CommentatorSignup}
use nmg_league_bot.RaceInfo.{new_signup, next_id, new_commentator_signup, Connection, is_signup}

-- how many signups of the user for the info there are
unfoldable pub signups_of : BracketRaceInfo → String → List CommentatorSignup → ℕ
unfolding is_signup
signups_of info user [] = 0
signups_of info user (x ∷ xs) = (if is_signup info user x then 1 else 0) + signups_of info user xs

signups_of-append :
    (info : BracketRaceInfo) (user : String) (xs ys : List CommentatorSignup)
    → signups_of info user (xs ++ ys) ≡ signups_of info user xs + signups_of info user ys
unfolding signups_of
signups_of-append info user [] ys = omega arith
signups_of-append info user (x ∷ xs) ys = omega (arith, signups_of-append info user xs ys)

signups_of-none :
    (info : BracketRaceInfo) (user : String) (xs : List CommentatorSignup)
    → any (is_signup info user) xs ≡ false
    → signups_of info user xs ≡ 0
unfolding signups_of
signups_of-none info user [] h = refl
signups_of-none info user (x ∷ xs) h = ground (arith, signups_of-none info user xs)

signups_of-some :
    (info : BracketRaceInfo) (user : String) (xs : List CommentatorSignup)
    → any (is_signup info user) xs ≡ true
    → 1 ≤ signups_of info user xs
unfolding signups_of
signups_of-some info user [] h = cc
signups_of-some info user (x ∷ xs) h = ground (arith, signups_of-some info user xs)

signups_of-filter :
    (info : BracketRaceInfo) (user : String) (xs : List CommentatorSignup)
    → signups_of info user (filter (λ x. not (is_signup info user x)) xs) ≡ 0
unfolding signups_of filter
signups_of-filter info user [] = refl
signups_of-filter info user (x ∷ xs) = ground (arith, signups_of-filter info user xs)

signups_of-new :
    (info : BracketRaceInfo) (user : String) (i : ℕ) (xs : List CommentatorSignup)
    → signups_of info user (xs ++ new_signup info user i ∷ []) ≡ signups_of info user xs + 1
signups_of-new info user i xs =
    rw (signups_of-append info user xs (new_signup info user i ∷ []))
      (unfold signups_of new_signup in ground (arith, eq_refl user))

module _ {E : Type 0} (refusal : E) (info : BracketRaceInfo) (user : String) (c : Connection) where
  -- For a user with at most one signup for the race: signing up, if it succeeds, answers `true`
  -- exactly when the user had not signed up, and then the user is signed up once.
  pub new_commentator_signup_lem :
      {fresh : Bool}
      → signups_of info user c.tables.signups ≤ 1
      → (new_commentator_signup refusal info user c).0 ≡ ok fresh
      → (signups_of info user (new_commentator_signup refusal info user c).1.tables.signups ≡ 1)
        × (signups_of info user c.tables.signups ≡ (if fresh then 0 else 1))
  unfolding new_commentator_signup
  new_commentator_signup_lem {fresh} h e = ground (
    arith,
    signups_of-none info user c.tables.signups,
    signups_of-some info user c.tables.signups,
    signups_of-new info user (next_id (λ x. x.id) c.tables.signups) c.tables.signups,
  )
