-- ===== src/Base/Methods.antt =====
-- Methods that mutate their receiver and may fail, in `do` blocks.
use mathlib.Core.Path.{◌≡◌, refl, ap}
use nmg_league_bot.Base.Outcomes.{Result, ok, err, Method}

module _ {ℓ} {S E A : Type ℓ} where
  abbrev pub pure : A → Method S E A
  pure a s = (ok a, s)

  abbrev pub throw : E → Method S E A
  throw e s = (err e, s)

  -- `r?` for a result that does not touch the receiver
  abbrev pub lift : Result E A → Method S E A
  lift r s = (r, s)

  abbrev pub gets : (S → A) → Method S E A
  gets f s = (ok (f s), s)

-- a call whose error is only reported
abbrev pub reported : {S E A : Type 0} → Method S E A → S → S
reported m s = (m s).1

-- an assignment to fields of the receiver
abbrev pub modify : {S E : Type 0} → (S → S) → Method S E Unit
modify f s = (ok tt, f s)

module _ {ℓ} {S E A B : Type ℓ} where
  abbrev pub continue : Result E A → (A → Method S E B) → Method S E B
  continue (ok a) f s = f a s
  continue (err e) f s = (err e, s)

  infixl 5 ◌>>=◌ ◌>>◌
  abbrev pub ◌>>=◌ : Method S E A → (A → Method S E B) → Method S E B
  ◌>>=◌ m f s = let (r, s') = m s in continue r f s'

  abbrev pub ◌>>◌ : Method S E A → Method S E B → Method S E B
  m >> n = m >>= λ _. n

-- A chain that succeeds is the rest of it, run where its first step ends.
pub bind-eq-ok {ℓ} :
    {S E A B : Type ℓ} (m : Method S E A) (f : A → Method S E B) (s : S) {b : B}
    → ((m >>= f) s).0 ≡ ok b
    → (a : A) × (t : S) × (m s ≡ (ok a, t)) × ((m >>= f) s ≡ f a t)
bind-eq-ok {S} {E} {A} {B} m f s {b} h = go (m s).0 (m s).1 refl h
  where
    go :
        (r : Result E A) (t : S)
        → m s ≡ (r, t)
        → (continue r f t).0 ≡ ok b
        → (a : A) × (u : S) × (m s ≡ (ok a, u)) × ((m >>= f) s ≡ f a u)
    go (ok a) t e k = (a, t, e, ap (λ x. continue x.0 f x.1) e)
    go (err x) t e k = cc

-- an error turned into the caller's
abbrev pub map_err_of : {E F A : Type 0} → (E → F) → Result E A → Result F A
map_err_of f (ok a) = ok a
map_err_of f (err e) = err (f e)

abbrev pub map_err : {S E F A : Type 0} → (E → F) → Method S E A → Method S F A
map_err f m s = let (r, t) = m s in (map_err_of f r, t)
