-- ===== src/Tables/Steps.antt =====
-- What statements do to the tables, however the database answers.
use nmg_league_bot.Base.{◌≡◌, arith}
use nmg_league_bot.Base.Triples.{After, After-of}
use nmg_league_bot.Tables.{Tables, Connection, select, write, insert}

module _ {E : Type 0} (e : E) where
  pub select-After :
      {A : Type 0} (f : Tables → A) (c : Connection) (I : Tables → Type 0)
      → I c.tables
      → After (λ a d. I d.tables × (a ≡ f d.tables)) (λ d. I d.tables) (select e f c)
  unfolding select
  select-After f c I h =
      After-of (select e f c) (λ a k. ground (arith, h)) (λ x k. ground (arith, h))

  pub write-After :
      (f : Tables → Tables) (c : Connection)
      → After (λ _ d. d.tables ≡ f c.tables) (λ d. d.tables ≡ c.tables) (write e f c)
  unfolding write
  write-After f c = After-of (write e f c) (λ a k. ground arith) (λ x k. ground arith)

  pub insert-After :
      {A : Type 0} (row : Tables → A) (f : A → Tables → Tables) (c : Connection)
      → After
          (λ a d. d.tables ≡ f (row c.tables) c.tables)
          (λ d. d.tables ≡ c.tables)
          (insert e row f c)
  unfolding insert
  insert-After row f c = After-of (insert e row f c) (λ a k. ground arith) (λ x k. ground arith)

  pub select-tables :
      {A : Type 0} (f : Tables → A) (c : Connection) → (select e f c).1.tables ≡ c.tables
  unfolding select
  select-tables f c = ground arith
