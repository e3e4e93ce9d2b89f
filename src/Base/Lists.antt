-- ===== src/Base/Lists.antt =====
-- Lists measured by native numbers, under the library's names, and Boolean tests on lists.
use Prim.Native.Nat.{ℕ, zero, suc, ◌+◌, ◌≤◌}
use mathlib.Core.Path.{◌≡◌, refl, ap}
use mathlib.Core.Bool.{Bool, true, false, ◌&&◌, ◌||◌}
use mathlib.Core.List.{List, [], ◌∷◌, ◌++◌, map}
use mathlib.Core.Option.{Option, none, some}
use mathlib.Core.List.{Perm}
use mathlib.Core.List.Perm
use native.Mathlib.Omega.{arith}

module _ {ℓ} {A : Type ℓ} where
  abbrev pub length : List A → ℕ
  length [] = 0
  length (x ∷ xs) = suc (length xs)

  pub length-append : (xs ys : List A) → length (xs ++ ys) ≡ length xs + length ys
  length-append [] ys = omega arith
  length-append (x ∷ xs) ys = omega (arith, length-append xs ys)

  -- `Iterator::all` and `Iterator::any`
  abbrev pub all : (A → Bool) → List A → Bool
  all p [] = true
  all p (x ∷ xs) = p x && all p xs

  abbrev pub any : (A → Bool) → List A → Bool
  any p [] = false
  any p (x ∷ xs) = p x || any p xs

  -- `Iterator::filter`
  abbrev pub keep_if : Bool → A → List A → List A
  keep_if true x xs = x ∷ xs
  keep_if false x xs = xs

  unfoldable pub filter : (A → Bool) → List A → List A
  filter p [] = []
  filter p (x ∷ xs) = keep_if (p x) x (filter p xs)

  pub length-filter : (p : A → Bool) (xs : List A) → length (filter p xs) ≤ length xs
  unfolding filter
  length-filter p [] = omega arith
  length-filter p (x ∷ xs) = ground (arith, length-filter p xs)

  -- A predicate on every element, by recursion.
  abbrev pub All {κ} : (A → Type κ) → List A → Type κ
  All P [] = Unit
  All P (x ∷ xs) = P x × All P xs

  pub All-append {κ} : (P : A → Type κ) (xs ys : List A) → All P xs → All P ys → All P (xs ++ ys)
  All-append P [] ys h k = k
  All-append P (x ∷ xs) ys h k = (h.0, All-append P xs ys h.1 k)

module _ {ℓ κ} {A : Type ℓ} {B : Type κ} where
  pub length-map : (f : A → B) (xs : List A) → length (map f xs) ≡ length xs
  length-map f [] = refl
  length-map f (x ∷ xs) = ap suc (length-map f xs)

module _ {ℓ} {A : Type ℓ} where
  -- indexing with `get`
  unfoldable pub get_elem? : List A → ℕ → Option A
  get_elem? [] n = none
  get_elem? (x ∷ xs) zero = some x
  get_elem? (x ∷ xs) (suc n) = get_elem? xs n

  pub get_elem?-append : (xs ys : List A) → get_elem? (xs ++ ys) (length xs) ≡ get_elem? ys 0
  unfolding get_elem?
  get_elem?-append [] ys = refl
  get_elem?-append (x ∷ xs) ys = get_elem?-append xs ys

  -- the last element in front of the others
  last_first : List A → List A
  last_first [] = []
  last_first (x ∷ xs) = elim (last_first xs) [ [] ↦ x ∷ [] | l ∷ rest ↦ l ∷ x ∷ rest ]

  -- `Vec::swap_remove`, which panics past the end; here nothing is removed then
  unfoldable pub swap_remove : List A → ℕ → List A
  unfolding last_first
  swap_remove [] n = []
  swap_remove (x ∷ xs) zero = last_first xs
  swap_remove (x ∷ xs) (suc n) = x ∷ swap_remove xs n

  last_first_lem : (xs : List A) → Perm (last_first xs) xs
  unfolding last_first
  last_first_lem [] = Perm.refl []
  last_first_lem (x ∷ xs) = go (last_first xs) (last_first_lem xs)
    where
      go :
          (ys : List A)
          → Perm ys xs
          → Perm (elim ys [ [] ↦ x ∷ [] | l ∷ rest ↦ l ∷ x ∷ rest ]) (x ∷ xs)
      go [] h = Perm.cons x h
      go (l ∷ rest) h = Perm.trans (Perm.swap x l rest) (Perm.cons x h)

  pub swap_remove_lem :
      (xs : List A) (x : A) (ys : List A) → Perm (swap_remove (xs ++ x ∷ ys) (length xs)) (xs ++ ys)
  unfolding swap_remove
  swap_remove_lem [] x ys = last_first_lem ys
  swap_remove_lem (y ∷ xs) x ys = Perm.cons y (swap_remove_lem xs x ys)
