-- ===== src/Commands/Times/Days.antt =====
-- The days that `parse_day` reads.
use nmg_league_bot.Base.{
  ℕ, ◌+◌, ◌/◌, ◌%◌, ◌<◌, ◌≡◌, refl, Option, none, some, true, ◌&&◌, [], ◌∷◌, ◌++◌, inl, inr, arith,
  Option-cases,
}
use nmg_league_bot.Times.{Text, is_digit, value_from}
use nmg_league_bot.Commands.Times.{
  parse_day, find_date, match_date, match_month, match_day, one_or_two, slash_then,
}

two_digits : (t : Text) {m rest : Text} → one_or_two t ≡ some (m, rest) → value_from 0 m < 100
unfolding value_from
two_digits [] h = cc
two_digits (a ∷ []) h = ground arith
two_digits (a ∷ b ∷ t) h = ground arith

after_slash : (t : Text) {m rest : Text} → slash_then t ≡ some (m, rest) → value_from 0 m < 100
after_slash [] h = cc
after_slash (c ∷ t) {m} {rest} h = ground (arith, two_digits t {m = m} {rest = rest})

-- `{:02}` and `{:04}` of numbers that fit
abbrev digit : ℕ → ℕ
digit n = b'0' + n % 10

abbrev pub two : ℕ → Text
two n = digit (n / 10) ∷ digit n ∷ []

-- the value that the autocompletion of a day offers, `%Y/%m/%d`
unfoldable pub format_day : ℕ → ℕ → ℕ → Text
format_day y m d = two (y / 100) ++ two y ++ b'/' ∷ two m ++ b'/' ∷ two d

digit-is_digit : (n : ℕ) → is_digit (digit n) ≡ true
digit-is_digit n = ground arith

two_value : (n : ℕ) → n < 100 → value_from 0 (two n) ≡ n
unfolding value_from
two_value n h = omega arith

four_value : (n : ℕ) → n < 10000 → value_from 0 (two (n / 100) ++ two n) ≡ n
unfolding value_from
four_value n h = omega arith

-- A day that the autocompletion offers, with a year below 10000 and a month and a day of the month
-- below 100, is read back.
pub parse_day-format_day :
    (y m d : ℕ) → y < 10000 → m < 100 → d < 100 → parse_day (format_day y m d) ≡ some (y, m, d)
unfolding parse_day format_day
parse_day-format_day y m d hy hm hd = ground (
  arith,
  digit-is_digit (y / 100 / 10),
  digit-is_digit (y / 100),
  digit-is_digit (y / 10),
  digit-is_digit y,
  digit-is_digit (m / 10),
  digit-is_digit m,
  digit-is_digit (d / 10),
  digit-is_digit d,
  two_value m hm,
  two_value d hd,
  four_value y hy,
)

day_bounds :
    (y m : Text) (o : Option (Text × Text)) {y1 m1 d : Text}
    → ((d rest : Text) → o ≡ some (d, rest) → value_from 0 d < 100)
    → match_day y m o ≡ some (y1, m1, d)
    → (y ≡ y1) × (m ≡ m1) × (value_from 0 d < 100)
day_bounds y m none within h = cc
day_bounds y m (some (d, rest)) within h = ground (arith, within d rest refl)

month_bounds :
    (y : Text) (o : Option (Text × Text)) {y1 m d : Text}
    → ((m rest : Text) → o ≡ some (m, rest) → value_from 0 m < 100)
    → match_month y o ≡ some (y1, m, d)
    → (y ≡ y1) × (value_from 0 m < 100) × (value_from 0 d < 100)
month_bounds y none within h = cc
month_bounds y (some (m, rest)) {y1 = y1} {m = m1} {d = d1} within h = ground (
  arith,
  within m rest refl,
  day_bounds y m (slash_then rest) {y1 = y1} {m1 = m1} {d = d1}
      (λ d r. after_slash rest {m = d} {rest = r}) h,
)

four_digits :
    (a b c d : ℕ)
    → (is_digit a && is_digit b && is_digit c && is_digit d) ≡ true
    → value_from 0 (a ∷ b ∷ c ∷ d ∷ []) < 10000
unfolding value_from
four_digits a b c d h = ground arith

date_bounds :
    (t : Text) {y m d : Text}
    → match_date t ≡ some (y, m, d)
    → (value_from 0 y < 10000) × (value_from 0 m < 100) × (value_from 0 d < 100)
unfolding match_date
date_bounds (a ∷ b ∷ c ∷ d ∷ rest) {y = y} {m = m} {d = e} h = ground (
  arith,
  four_digits a b c d,
  month_bounds (a ∷ b ∷ c ∷ d ∷ []) (slash_then rest) {y1 = y} {m = m} {d = e}
      (λ x r. after_slash rest {m = x} {rest = r}),
)
date_bounds [] h = cc
date_bounds (a ∷ []) h = cc
date_bounds (a ∷ b ∷ []) h = cc
date_bounds (a ∷ b ∷ c ∷ []) h = cc

found_bounds :
    (t : Text) {y m d : Text}
    → find_date t ≡ some (y, m, d)
    → (value_from 0 y < 10000) × (value_from 0 m < 100) × (value_from 0 d < 100)
unfolding find_date
found_bounds [] h = cc
found_bounds (c ∷ t) {y} {m} {d} h =
    ground
      (arith, date_bounds (c ∷ t) {y = y} {m = m} {d = d}, found_bounds t {y = y} {m = m} {d = d})

-- Whatever is typed: a day that `parse_day` reads has a year of at most four digits and a month and a
-- day of at most two, so that the numbers of the source cannot overflow.
pub parse_day-bounds :
    (t : Text) {y m d : ℕ} → parse_day t ≡ some (y, m, d) → (y < 10000) × (m < 100) × (d < 100)
unfolding parse_day
parse_day-bounds t {y} {m} {d} h = elim (Option-cases (find_date t)) [
  | inl none_found ↦ cc
  | inr ((a, b, c), found) ↦ ground (arith, found_bounds t {y = a} {m = b} {d = c} found)
]
