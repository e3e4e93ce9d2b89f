-- ===== src/Commands/Times.antt =====
-- The times of the scheduling commands: `parse_day`, `datetime_from_options` and
-- `get_datetime_from_scheduling_cmd`. What chrono-tz makes of a date and a time of day in the eastern
-- time zone is a parameter. A day is the codes of its characters.
pub mod Clock
pub mod Days
use nmg_league_bot.Base.{
  ◌^◌, ◌%◌, ℕ, ◌+◌, String, Option, none, some, ◌&&◌, [], ◌∷◌, Result, err, ok_or, ◌==◌, str_eq,
  if◌then◌else◌,
}
use nmg_league_bot.Base.Methods.{lift, ◌>>=◌}
use nmg_league_bot.Times.{Text, is_digit, value_from}
use nmg_league_bot.Commands.Options.{OptionValues}
use nmg_league_bot.Commands.Reports.{text_of}
use nmg_league_bot.Commands.Requests.{
  CommandError, Command, get_string, get_integer, invalid_day, invalid_am_pm, invalid_datetime,
}

-- `\d{1,2}`, which takes two digits if there are two
abbrev pub one_or_two : Text → Option (Text × Text)
one_or_two [] = none
one_or_two (a ∷ []) = if is_digit a then some (a ∷ [], []) else none
one_or_two (a ∷ b ∷ rest) =
    if is_digit a && is_digit b
    then some (a ∷ b ∷ [], rest)
    else if is_digit a
    then some (a ∷ [], b ∷ rest)
    else none

-- a slash, and `\d{1,2}` after it
abbrev pub slash_then : Text → Option (Text × Text)
slash_then [] = none
slash_then (c ∷ rest) = if c == b'/' then one_or_two rest else none

abbrev pub match_day : Text → Text → Option (Text × Text) → Option (Text × Text × Text)
match_day y m none = none
match_day y m (some (d, rest)) = some (y, m, d)

abbrev pub match_month : Text → Option (Text × Text) → Option (Text × Text × Text)
match_month y none = none
match_month y (some (m, rest)) = match_day y m (slash_then rest)

-- the regex of `parse_day` at one position: a slash must follow the month's digits, so that taking
-- fewer digits than there are never helps
unfoldable pub match_date : Text → Option (Text × Text × Text)
match_date (a ∷ b ∷ c ∷ d ∷ rest) =
    if is_digit a && is_digit b && is_digit c && is_digit d
    then match_month (a ∷ b ∷ c ∷ d ∷ []) (slash_then rest)
    else none
match_date _ = none

-- `captures`: the first position at which it matches
unfoldable pub find_date : Text → Option (Text × Text × Text)
unfolding match_date
find_date [] = none
find_date (c ∷ cs) =
    let later = find_date cs in elim (match_date (c ∷ cs)) [ none ↦ later | some m ↦ some m ]

-- `trim` takes off blanks, and no blank is part of a date, so that it finds the same date without it
unfoldable pub parse_day : Text → Option (ℕ × ℕ × ℕ)
unfolding find_date value_from
parse_day s = elim (find_date s) [
  | none ↦ none
  | some (y, m, d) ↦ some (value_from 0 y, value_from 0 m, value_from 0 d)
]

-- the hour on a clock of 24 hours
unfoldable pub adjust_hour : String → ℕ → Option ℕ
adjust_hour ampm hour =
    if str_eq ampm "AM"
    then some (if hour == 12 then 0 else hour)
    else if str_eq ampm "PM"
    then some (if hour == 12 then hour else hour + 12)
    else none

-- `with_ymd_and_hms(y, m, d, hour, minute, 0).earliest()` of the eastern time zone
abbrev pub Eastern : Type 0
Eastern = ℕ → ℕ → ℕ → ℕ → ℕ → Option ℕ

module _ (eastern : Eastern) where
  abbrev on_day : Option (ℕ × ℕ × ℕ) → Option ℕ → ℕ → Result CommandError ℕ
  on_day none hour minute = err invalid_day
  on_day (some day) none minute = err invalid_am_pm
  on_day (some (y, m, d)) (some hour) minute =
      ok_or (eastern y m d (hour % 2 ^ 32) (minute % 2 ^ 32)) invalid_datetime

  unfoldable pub datetime_from_options : String → ℕ → ℕ → String → Result CommandError ℕ
  unfolding parse_day adjust_hour text_of
  datetime_from_options day hour minute ampm =
      on_day (parse_day (text_of day)) (adjust_hour ampm hour) minute

  unfoldable pub get_datetime_from_scheduling_cmd : {V : Type 0} → OptionValues V → Command V ℕ
  unfolding datetime_from_options
  get_datetime_from_scheduling_cmd views = do
    day ← get_string views "day"
    hour ← get_integer views "hour"
    minute ← get_integer views "minute"
    ampm ← get_string views "am_pm"
    lift (datetime_from_options day hour minute ampm)
