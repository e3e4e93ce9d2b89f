-- ===== src/Times/Decimal.antt =====
-- Printing a number in decimal and reading it back.
use nmg_league_bot.Base.{
  ltb→lt, lt→ltb, ◌-◌, ℕ, zero, suc, ◌+◌, ◌*◌, ◌/◌, ◌%◌, ◌<◌, ◌≤◌, ◌≡◌, refl, ◌∙◌, true, false, [],
  ◌∷◌, ◌++◌, All, All-append, arith, ltb, Bool-cases, inl, inr,
}
use nmg_league_bot.Times.{Text, decimal_fuel, decimal, padded, is_digit, span_digits, value_from}

abbrev pub Digits : Text → Type 0
Digits t = All (λ c. is_digit c ≡ true) t

value_from-append :
    (acc : ℕ) (t : Text) (c : ℕ) → value_from acc (t ++ c ∷ []) ≡ value_from acc t * 10 + (c - b'0')
unfolding value_from
value_from-append acc [] c = refl
value_from-append acc (d ∷ t) c = value_from-append (acc * 10 + (d - b'0')) t c

decimal_fuel-value : (f n : ℕ) → n < f → value_from 0 (decimal_fuel f n) ≡ n
unfolding decimal_fuel
decimal_fuel-value zero n h = absurd (omega arith)
decimal_fuel-value (suc f) n h = elim (Bool-cases (ltb n 10)) [
  | inl e ↦ rw e (unfold value_from in omega arith)
  | inr e ↦ rw e (
      value_from-append 0 (decimal_fuel f (n / 10)) (b'0' + n % 10)
      ∙ omega (arith, decimal_fuel-value f (n / 10) (ground arith)))
]

decimal_fuel-Digits : (f n : ℕ) → Digits (decimal_fuel f n)
unfolding decimal_fuel
decimal_fuel-Digits zero n = tt
decimal_fuel-Digits (suc f) n = elim (Bool-cases (ltb n 10)) [
  | inl e ↦ rw e (ground arith, tt)
  | inr e ↦ rw e (
      All-append _ (decimal_fuel f (n / 10)) ((b'0' + n % 10) ∷ []) (decimal_fuel-Digits f (n / 10))
        (ground arith, tt))
]

decimal_fuel-digit : (f n : ℕ) → n < 10 → 0 < f → decimal_fuel f n ≡ (b'0' + n) ∷ []
unfolding decimal_fuel
decimal_fuel-digit zero n h k = absurd (omega arith)
decimal_fuel-digit (suc f) n h k = rw (lt→ltb n 10 h)

-- What is printed reads back.
pub value-decimal : (n : ℕ) → value_from 0 (decimal n) ≡ n
unfolding decimal
value-decimal n = decimal_fuel-value (suc n) n (omega arith)

pub decimal-Digits : (n : ℕ) → Digits (decimal n)
unfolding decimal
decimal-Digits n = decimal_fuel-Digits (suc n) n

snoc_cons : (xs : Text) (x : ℕ) → (d : ℕ) × (ds : Text) × (xs ++ x ∷ [] ≡ d ∷ ds)
snoc_cons [] x = (x, [], refl)
snoc_cons (y ∷ xs) x = (y, xs ++ x ∷ [], refl)

pub decimal_cons : (n : ℕ) → (d : ℕ) × (ds : Text) × (decimal n ≡ d ∷ ds)
unfolding decimal decimal_fuel
decimal_cons n = elim (Bool-cases (ltb n 10)) [
  | inl e ↦ (b'0' + n, [], rw e)
  | inr e ↦ let (d, ds, f) = snoc_cons (decimal_fuel n (n / 10)) (b'0' + n % 10) in (d, ds, rw e f)
]

decimal_fuel_step :
    (f n : ℕ)
    → ltb n 10 ≡ false
    → decimal_fuel (suc f) n ≡ decimal_fuel f (n / 10) ++ (b'0' + n % 10) ∷ []
unfolding decimal_fuel
decimal_fuel_step f n h = rw h

decimal_one : (n : ℕ) → n < 10 → decimal n ≡ (b'0' + n) ∷ []
unfolding decimal
decimal_one n h = decimal_fuel-digit (suc n) n h (omega arith)

two_digits :
    (n : ℕ)
    → n < 10
    → ◌≡◌ {A = Text} (b'0' ∷ (b'0' + n) ∷ []) ((b'0' + n / 10) ∷ (b'0' + n % 10) ∷ [])
two_digits n h = ground arith

decimal_two : (n : ℕ) → 10 ≤ n → n < 100 → decimal n ≡ (b'0' + n / 10) ∷ (b'0' + n % 10) ∷ []
unfolding decimal
decimal_two n h k =
    let big : ltb n 10 ≡ false = ground arith in
    rw (decimal_fuel_step n n big, decimal_fuel-digit n (n / 10) (omega arith) (omega arith))

-- Below 100 the padded form has two digits.
pub padded_two : (n : ℕ) → n < 100 → padded n ≡ (b'0' + n / 10) ∷ (b'0' + n % 10) ∷ []
unfolding padded
padded_two n h = elim (Bool-cases (ltb n 10)) [
  | inl e ↦ rw e (rw (decimal_one n (ltb→lt n 10 e)) (two_digits n (ltb→lt n 10 e)))
  | inr e ↦ rw e (decimal_two n (ground arith) h)
]

pub span-Digits :
    (ds : Text) (c : ℕ) (rest : Text)
    → Digits ds
    → is_digit c ≡ false
    → span_digits (ds ++ c ∷ rest) ≡ (ds, c ∷ rest)
unfolding span_digits
span-Digits [] c rest h k = ground arith
span-Digits (d ∷ ds) c rest h k = ground (arith, span-Digits ds c rest h.1 k)
