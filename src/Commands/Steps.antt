-- ===== src/Commands/Steps.antt =====
-- Proof rules for the steps of a command, with a condition on the connection that holds throughout.
use nmg_league_bot.Base.{ℕ, ◌≡◌, refl, String, Option, Result, ok, err, Method}
use nmg_league_bot.Base.Methods.{lift, ◌>>=◌}
use nmg_league_bot.Base.Triples.{After, succeeded, failed, bind-After, same-After}
use nmg_league_bot.Tables.{Connection}
use nmg_league_bot.Commands.Options.{OptionValues}
use nmg_league_bot.Commands.Requests.{
  CommandError, CommandSession, Command, db, get_string, get_integer, get_user, maybe_string,
}

module _ {V : Type 0} (views : OptionValues V) (I : Connection → Type 0) where
  -- Reading an option leaves the connection alone.
  module _ {B : Type 0} {P : B → CommandSession V → Type 0} where
    pub string_then :
        (name : String) (f : String → Command V B) (s : CommandSession V)
        → I s.conn
        → ((a : String) (t : CommandSession V) → I t.conn → After P (λ t. I t.conn) (f a t))
        → After P (λ t. I t.conn) ((get_string views name >>= f) s)
    unfolding get_string
    string_then name f s h k =
        bind-After (λ _ t. I t.conn) (get_string views name) f s
          (same-After (get_string views name s) h) k

    pub integer_then :
        (name : String) (f : ℕ → Command V B) (s : CommandSession V)
        → I s.conn
        → ((a : ℕ) (t : CommandSession V) → I t.conn → After P (λ t. I t.conn) (f a t))
        → After P (λ t. I t.conn) ((get_integer views name >>= f) s)
    unfolding get_integer
    integer_then name f s h k =
        bind-After (λ _ t. I t.conn) (get_integer views name) f s
          (same-After (get_integer views name s) h) k

    pub user_then :
        (name : String) (f : String → Command V B) (s : CommandSession V)
        → I s.conn
        → ((a : String) (t : CommandSession V) → I t.conn → After P (λ t. I t.conn) (f a t))
        → After P (λ t. I t.conn) ((get_user views name >>= f) s)
    unfolding get_user
    user_then name f s h k =
        bind-After (λ _ t. I t.conn) (get_user views name) f s
          (same-After (get_user views name s) h) k

    pub maybe_then :
        (name : String) (f : Option String → Command V B) (s : CommandSession V)
        → I s.conn
        → ((a : Option String) (t : CommandSession V) → I t.conn → After P (λ t. I t.conn) (f a t))
        → After P (λ t. I t.conn) ((maybe_string views name >>= f) s)
    unfolding maybe_string get_string
    maybe_then name f s h k =
        bind-After (λ _ t. I t.conn) (maybe_string views name) f s
          (same-After (maybe_string views name s) h) k

-- a statement inside a command
pub db-After :
    {V A : Type 0} (R : A → Connection → Type 0) (I : Connection → Type 0)
    (m : Method Connection CommandError A) (s : CommandSession V)
    → After R I (m s.conn)
    → After {S = CommandSession V} (λ a t. R a t.conn) (λ t. I t.conn) (db m s)
db-After {V} {A} R I m s h = go (m s.conn) h
  where
    go :
        (x : Result CommandError A × Connection)
        → After R I x
        → After {S = CommandSession V}
            (λ a t. R a t.conn)
            (λ t. I t.conn)
            (x.0, record s { conn = x.1 })
    go (ok a, c) (succeeded h) = succeeded h
    go (err e, c) (failed h) = failed h

module _ {V : Type 0} (I : Connection → Type 0) where
  module _ {A B : Type 0} {P : B → CommandSession V → Type 0} where
    pub lift_then :
        (r : Result CommandError A) (f : A → Command V B) (s : CommandSession V)
        → I s.conn
        → ((a : A) → r ≡ ok a → After P (λ t. I t.conn) (f a s))
        → After P (λ t. I t.conn) ((lift r >>= f) s)
    lift_then (ok a) f s h k = k a refl
    lift_then (err e) f s h k = failed h

    -- a statement, and what is done with its answer
    pub db_then :
        (R : A → Connection → Type 0) (m : Method Connection CommandError A) (f : A → Command V B)
        (s : CommandSession V)
        → After R I (m s.conn)
        → ((a : A) (t : CommandSession V) → R a t.conn → After P (λ t. I t.conn) (f a t))
        → After P (λ t. I t.conn) ((db m >>= f) s)
    db_then R m f s h k = bind-After (λ a t. R a t.conn) (db m) f s (db-After R I m s h) k
