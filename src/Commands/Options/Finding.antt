-- ===== src/Commands/Options/Finding.antt =====
-- What `find_opt` takes out of the options, and what it leaves.
use mathlib.Core.List.{Perm}
use nmg_league_bot.Base.{
  sym, subst, ℕ, zero, suc, ◌+◌, ◌<◌, ◌≡◌, refl, ◌∙◌, ap, String, Option, none, some, Bool, true,
  false, List, [], ◌∷◌, ◌++◌, ◌⊎◌, inl, inr, Result, ok, err, All, length, str_eq, get_elem?,
  get_elem?-append, swap_remove_lem, arith, if◌then◌else◌, Bool-cases,
}
use nmg_league_bot.Commands.Options.{
  take_stop, take_kind, CommandDataOption, CommandOptionType, OptionValues, OptionError,
  unexpected_option_kind, search, find_opt, same_kind, take_at,
}

module _ {V : Type 0} where
  -- the first index with the name, or the length
  abbrev pub index_of : String → List (CommandDataOption V) → ℕ
  index_of name [] = 0
  index_of name (o ∷ opts) = if str_eq o.name name then 0 else suc (index_of name opts)

  search_from :
      (name : String) (fuel i : ℕ) (opts ys : List (CommandDataOption V))
      → ((n : ℕ) → get_elem? opts (i + n) ≡ get_elem? ys n)
      → length ys < fuel
      → search fuel name i opts ≡ some (i + index_of name ys)
  unfolding search get_elem?
  search_from name zero i opts ys at h = ground (arith, h)
  search_from name (suc fuel) i opts [] at h = ground (arith, at 0)
  search_from name (suc fuel) i opts (o ∷ ys) at h =
      ground (arith, at 0, search_from name fuel (i + 1) opts ys (λ n. later n))
    where
      later : (n : ℕ) → get_elem? opts (i + 1 + n) ≡ get_elem? ys n
      later n = ap (get_elem? opts) (omega arith) ∙ at (suc n)

  -- The loop of `find_opt`, with fuel for one more round than there are options: it stops, at the
  -- first option with the name or past the last one.
  pub search-index_of :
      (name : String) (opts : List (CommandDataOption V))
      → search (suc (length opts)) name 0 opts ≡ some (index_of name opts)
  search-index_of name opts =
      search_from name (suc (length opts)) 0 opts opts (λ n. ap (get_elem? opts) (omega arith))
        (omega arith)
      ∙ ap some (omega arith)

  -- Options without the name, or the first one with it and what stands before and after it.
  abbrev pub First : String → List (CommandDataOption V) → Type 0
  First name opts =
      (before : List (CommandDataOption V)) × (o : CommandDataOption V) × (after : List
        (CommandDataOption V))
      × (opts ≡ before ++ o ∷ after)
      × (str_eq o.name name ≡ true)
      × All (λ x. str_eq x.name name ≡ false) before

  named_cases :
      (name : String) (opts : List (CommandDataOption V))
      → All (λ x. str_eq x.name name ≡ false) opts ⊎ First name opts
  named_cases name [] = inl tt
  named_cases name (o ∷ opts) = elim (Bool-cases (str_eq o.name name)) [
    | inl named ↦ inr ([], o, opts, refl, named, tt)
    | inr other ↦ elim (named_cases name opts) [
      | inl none_of ↦ inl (other, none_of)
      | inr (before, x, after, e, named, others) ↦
          inr (o ∷ before, x, after, ap (λ l. o ∷ l) e, named, (other, others))
    ]
  ]

  index_of-none :
      (name : String) (opts : List (CommandDataOption V))
      → All (λ x. str_eq x.name name ≡ false) opts
      → get_elem? opts (index_of name opts) ≡ none
  unfolding get_elem?
  index_of-none name [] h = refl
  index_of-none name (o ∷ opts) h = ground (arith, index_of-none name opts)

  index_of-first :
      (name : String) (before : List (CommandDataOption V)) (o : CommandDataOption V)
      (after : List (CommandDataOption V))
      → str_eq o.name name ≡ true
      → All (λ x. str_eq x.name name ≡ false) before
      → index_of name (before ++ o ∷ after) ≡ length before
  index_of-first name [] o after e h = ground arith
  index_of-first name (x ∷ before) o after e h =
      ground (arith, index_of-first name before o after e)

  module _ (views : OptionValues V) where
    -- No option has the name, and they are all left; or the first one with the name has another
    -- kind, and they are all left; or it has the kind, its value is the answer, and the others are
    -- left, in some order.
    abbrev pub Found :
        String
        → CommandOptionType
        → List (CommandDataOption V)
        → Result OptionError (Option V) × List (CommandDataOption V)
        → Type 0
    Found name k opts (ok none, rest) = (rest ≡ opts) × All (λ x. str_eq x.name name ≡ false) opts
    Found name k opts (err e, rest) =
        (rest ≡ opts)
        × ((f : First name opts) × (same_kind (views.kind f.1.value) k ≡ false)
            × (e ≡ unexpected_option_kind k (views.kind f.1.value)))
    Found name k opts (ok (some v), rest) =
        (f : First name opts) × (f.1.value ≡ v)
        × (same_kind (views.kind v) k ≡ true)
        × Perm rest (f.0 ++ f.2)

    take_none :
        (name : String) (k : CommandOptionType) (opts : List (CommandDataOption V)) (i : ℕ)
        → All (λ x. str_eq x.name name ≡ false) opts
        → get_elem? opts i ≡ none
        → Found name k opts (take_at views k (get_elem? opts i) i opts)
    take_none name k opts i h e =
        subst (λ g. Found name k opts (take_at views k g i opts)) (sym e) (refl, h)

    module _ (name : String) (k : CommandOptionType) (before : List (CommandDataOption V))
        (o : CommandDataOption V) (after : List (CommandDataOption V))
        (named : str_eq o.name name ≡ true)
        (others : All (λ x. str_eq x.name name ≡ false) before) where
      take_named :
          (same : Bool)
          → same_kind (views.kind o.value) k ≡ same
          → Found name k
              (before ++ o ∷ after)
              (take_kind views same k o (length before) (before ++ o ∷ after))
      take_named true h =
          ((before, o, after, refl, named, others), refl, h, swap_remove_lem before o after)
      take_named false h = (refl, ((before, o, after, refl, named, others), h, refl))

      take_first : Found name k (before ++ o ∷ after) (
          take_at views k
            (get_elem? (before ++ o ∷ after) (index_of name (before ++ o ∷ after)))
            (index_of name (before ++ o ∷ after))
            (before ++ o ∷ after))
      unfolding get_elem?
      take_first =
          subst
            (λ i.
              Found name k (before ++ o ∷ after)
                (take_at views k (get_elem? (before ++ o ∷ after) i) i (before ++ o ∷ after)))
            (sym (index_of-first name before o after named others))
            (subst
              (λ g.
                Found name k (before ++ o ∷ after)
                  (take_at views k g (length before) (before ++ o ∷ after)))
              (sym (get_elem?-append before (o ∷ after)))
              (take_named (same_kind (views.kind o.value) k) refl))

    -- Whatever the options are: if none has the name, `find_opt` finds none and leaves them; if the
    -- first one with the name has another kind, it is an error that leaves them; and if it has the
    -- kind, its value is the answer and exactly the other options are left, in some order.
    pub find_opt-Found :
        (name : String) (k : CommandOptionType) (opts : List (CommandDataOption V))
        → Found name k opts (find_opt views name k opts)
    unfolding find_opt
    find_opt-Found name k opts =
        subst (λ i. Found name k opts (take_stop views k i opts)) (sym (search-index_of name opts))
          (elim (named_cases name opts) [
            | inl h ↦ take_none name k opts (index_of name opts) h (index_of-none name opts h)
            | inr (before, o, after, e, named, others) ↦
                subst
                  (λ l.
                    Found name k l
                      (take_at views k (get_elem? l (index_of name l)) (index_of name l) l))
                  (sym e) (take_first name k before o after named others)
          ])
