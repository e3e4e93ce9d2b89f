-- ===== src/Race/Sheet.antt =====
-- What one race of a bracket means, with no text in it: the specification of `BracketRace`.
use nmg_league_bot.Base.{
  Option, none, some, Bool, true, false, not, ◌&&◌, Result, ok, err, ltb, if◌then◌else◌,
}
use nmg_league_bot.Race.{
  BracketRaceState, finished, BracketRaceStateError, invalid_state, PlayerResult, Outcome,
  is_finished_state, forfeit, finish_time, p1_win, p2_win, tie,
}

pub record Sheet : Type 0 where
  pub state : BracketRaceState
  pub result_1 : Option PlayerResult
  pub result_2 : Option PlayerResult
  pub outcome : Option Outcome

-- A new result replaces an old one, and no result leaves the old one.
abbrev pub update : Option PlayerResult → Option PlayerResult → Option PlayerResult
update none old = old
update (some p) old = some p

-- Who finishes beats who forfeits, and who is later.
abbrev beats : PlayerResult → PlayerResult → Bool
beats forfeit b = false
beats (finish_time t) forfeit = true
beats (finish_time t) (finish_time u) = ltb t u

unfoldable pub winner : PlayerResult → PlayerResult → Outcome
winner a b = if beats a b then p1_win else if beats b a then p2_win else tie

-- With both results in, the race is finished and its outcome is theirs.
abbrev pub close : Option PlayerResult → Option PlayerResult → Sheet → Sheet
close (some a) (some b) s = record {
  state = finished;
  result_1 = some a;
  result_2 = some b;
  outcome = some (winner a b);
}
close a b s = record s { result_1 = a; result_2 = b }

unfoldable pub add :
    Option PlayerResult
    → Option PlayerResult
    → Bool
    → Sheet
    → Result BracketRaceStateError Unit × Sheet
add p1 p2 force s =
    if not force && is_finished_state s.state
    then (err (invalid_state s.state), s)
    else (ok tt, close (update p1 s.result_1) (update p2 s.result_2) s)
