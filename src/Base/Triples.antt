-- ===== src/Base/Triples.antt =====
-- What holds after a method, whether it succeeds or fails.
use mathlib.Core.Path.{◌≡◌, refl, ◌∙◌}
use mathlib.Core.Bool.{Bool, true, false}
use nmg_league_bot.Base.Tests.{if◌then◌else◌}
use nmg_league_bot.Base.Outcomes.{Result, ok, err, Method}
use nmg_league_bot.Base.Methods.{continue, lift, ◌>>=◌}

module _ {S E A : Type 0} where
  -- `P` of what it gives and the state after a success, `Q` of the state after an error
  pub data After (P : A → S → Type 0) (Q : S → Type 0) : Result E A × S → Type 0 where
    succeeded : {a : A} {t : S} → P a t → After P Q (ok a, t)
    failed : {e : E} {t : S} → Q t → After P Q (err e, t)

  pub success : {P : A → S → Type 0} {Q : S → Type 0} {a : A} {t : S} → After P Q (ok a, t) → P a t
  success (succeeded p) = p

  pub After-of :
      {P : A → S → Type 0} {Q : S → Type 0} (x : Result E A × S)
      → ((a : A) → x.0 ≡ ok a → P a x.1)
      → ((e : E) → x.0 ≡ err e → Q x.1)
      → After P Q x
  After-of (ok a, t) p q = succeeded (p a refl)
  After-of (err e, t) p q = failed (q e refl)

  pub map-After :
      {P P' : A → S → Type 0} {Q : S → Type 0} {x : Result E A × S}
      → ((a : A) (t : S) → P a t → P' a t)
      → After P Q x
      → After P' Q x
  map-After f (succeeded {a = a} {t = t} h) = succeeded (f a t h)
  map-After f (failed h) = failed h

  pub weaken :
      {P : A → S → Type 0} {Q Q' : S → Type 0} {x : Result E A × S}
      → ((t : S) → Q t → Q' t)
      → After P Q x
      → After P Q' x
  weaken f (succeeded h) = succeeded h
  weaken f (failed {t = t} h) = failed (f t h)

  pub after : {I : S → Type 0} {x : Result E A × S} → After (λ _. I) I x → I x.1
  after (succeeded h) = h
  after (failed h) = h

  -- a state that stays the same in part, through a method whose answer does not matter
  pub same-After : {I : S → Type 0} (x : Result E A × S) → I x.1 → After (λ _. I) I x
  same-After (ok a, t) h = succeeded h
  same-After (err e, t) h = failed h

  pub lift-After :
      {I : S → Type 0} (r : Result E A) (s : S) → I s → After (λ a t. (r ≡ ok a) × I t) I (lift r s)
  lift-After (ok a) s h = succeeded (refl, h)
  lift-After (err e) s h = failed h

pub bind-After :
    {S E A B : Type 0} (P : A → S → Type 0) {P' : B → S → Type 0} {Q : S → Type 0}
    (m : Method S E A) (f : A → Method S E B) (s : S)
    → After P Q (m s)
    → ((a : A) (t : S) → P a t → After P' Q (f a t))
    → After P' Q ((m >>= f) s)
bind-After {S} {E} {A} {B} P {P'} {Q} m f s h k = go (m s).0 (m s).1 h
  where
    go : (r : Result E A) (t : S) → After P Q (r, t) → After P' Q (continue r f t)
    go (ok a) t (succeeded h) = k a t h
    go (err e) t (failed h) = failed h

-- A part of the state that a method leaves as it was, whether it succeeds or fails.
module _ {S E X : Type 0} (view : S → X) where
  abbrev pub Keeps : {A : Type 0} → Method S E A → Type 0
  Keeps m = (s : S) → view (m s).1 ≡ view s

  pub if-Keeps :
      {A : Type 0} (b : Bool) (m n : Method S E A)
      → Keeps m
      → Keeps n
      → (s : S) → view ((if b then m else n) s).1 ≡ view s
  if-Keeps true m n km kn = km
  if-Keeps false m n km kn = kn

  pub bind-Keeps :
      {A B : Type 0} (m : Method S E A) (f : A → Method S E B)
      → Keeps m
      → ((a : A) → Keeps (f a))
      → Keeps (m >>= f)
  bind-Keeps {A} {B} m f km kf s = go (m s).0 (m s).1 (km s)
    where
      go : (r : Result E A) (t : S) → view t ≡ view s → view (continue r f t).1 ≡ view s
      go (ok a) t h = kf a t ∙ h
      go (err e) t h = h

  pub lift-Keeps : {A : Type 0} (r : Result E A) → Keeps (lift r)
  lift-Keeps (ok a) = λ s. refl
  lift-Keeps (err e) = λ s. refl
