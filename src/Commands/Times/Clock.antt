-- ===== src/Commands/Times/Clock.antt =====
-- The hours of the clock that the scheduling commands ask for.
use nmg_league_bot.Base.{
  ◌/◌, ℕ, ◌*◌, ◌%◌, ◌<◌, ◌≤◌, ◌≡◌, String, Option, none, some, str_eq, arith, if◌then◌else◌,
}
use nmg_league_bot.Commands.Times.{adjust_hour}

-- the half of the day, as its offset
abbrev pub offset : String → Option ℕ
offset ampm = if str_eq ampm "AM" then some 0 else if str_eq ampm "PM" then some 12 else none

-- For an hour from 1 to 12, and if `adjust_hour` takes the text for the half of the day: the hour of
-- the day is below 24, it lies in the half that the text names, and it shows as the hour that was
-- given, where 12 counts as 0.
pub adjust_hour_lem :
    (ampm : String) (hour : ℕ) {h : ℕ}
    → 1 ≤ hour
    → hour ≤ 12
    → adjust_hour ampm hour ≡ some h
    → (h < 24) × (offset ampm ≡ some (h / 12 * 12)) × (h % 12 ≡ hour % 12)
unfolding adjust_hour
adjust_hour_lem ampm hour low high e = ground arith
