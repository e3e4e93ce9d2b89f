-- ===== src/Runs/Filenames.antt =====
-- `Filenames` of src/models/asyncs.rs, on texts of ASCII characters as lists of their codes. The
-- random characters are inputs.
use nmg_league_bot.Base.{
  ℕ, ◌≡◌, Option, none, some, Bool, true, ◌&&◌, ◌==◌, not, leb, List, [], ◌∷◌, if◌then◌else◌, arith,
}
use nmg_league_bot.Times.{Text}

pub record Filenames : Type 0 where
  pub one : ℕ
  pub three : ℕ × ℕ × ℕ
  pub four : ℕ × ℕ × ℕ × ℕ

-- `[A-Z]`, also what `random_char` draws from
abbrev pub is_capital : ℕ → Bool
is_capital c = leb b'A' c && leb c b'Z'

abbrev validate_four : Filenames → Bool
validate_four f =
    let (a, b, c, d) = f.four in not (a == b'c' && b == b'u' && c == b'n' && d == b't')

abbrev validate_three : Filenames → Bool
validate_three f = let (a, b, c) = f.three in not (a == b'f' && b == b'a' && c == b'g')

abbrev pub validate : Filenames → Bool
validate f = validate_three f && validate_four f

-- The loop of `new_random` on the names that `_new_random` draws, as long as there are any: the one
-- that is returned, and the draws that are left.
unfoldable pub new_random : List Filenames → Option (Filenames × List Filenames)
new_random [] = none
new_random (f ∷ rest) = let later = new_random rest in if validate f then some (f, rest) else later

unfoldable pub to_str : Filenames → Text
to_str f =
    let (a, b, c) = f.three in
    let (p, q, r, s) = f.four in f.one ∷ b' ' ∷ a ∷ b ∷ c ∷ b' ' ∷ p ∷ q ∷ r ∷ s ∷ []

-- `([A-Z]) ([A-Z]{3}) ([A-Z]{4})` at one position; the groups have the lengths that `from_str` tests
unfoldable pub names_here : Text → Option Filenames
names_here (o ∷ x ∷ a ∷ b ∷ c ∷ y ∷ p ∷ q ∷ r ∷ s ∷ rest) =
    if is_capital o
      && x == b' '
      && is_capital a
      && is_capital b
      && is_capital c
      && y == b' '
      && is_capital p
      && is_capital q
      && is_capital r
      && is_capital s
    then some (record { one = o; three = (a, b, c); four = (p, q, r, s) })
    else none
names_here _ = none

-- the first position at which the regex matches
unfoldable pub from_str : Text → Option Filenames
from_str [] = none
from_str (c ∷ cs) =
    let later = from_str cs in elim (names_here (c ∷ cs)) [ none ↦ later | some f ↦ some f ]

-- all eight characters are capital letters
pub record IsCapital (f : Filenames) : Type 0 where
  pub in_one : is_capital f.one ≡ true
  pub in_three : (is_capital f.three.0 && is_capital f.three.1 && is_capital f.three.2) ≡ true
  pub in_four :
      (is_capital f.four.0 && is_capital f.four.1 && is_capital f.four.2 && is_capital f.four.3)
      ≡ true

-- Names of capital letters come back from the text that is stored for them.
pub from_str-to_str : (f : Filenames) → IsCapital f → from_str (to_str f) ≡ some f
unfolding from_str to_str names_here
from_str-to_str f h = ground (arith, h.in_one, h.in_three, h.in_four)

-- Names of capital letters are never rejected, whatever they spell: `new_random` returns the first
-- that it draws.
pub new_random_lem :
    (f : Filenames) (rest : List Filenames) → IsCapital f → new_random (f ∷ rest) ≡ some (f, rest)
unfolding new_random
new_random_lem f rest h = ground (arith, h.in_one, h.in_three, h.in_four)
