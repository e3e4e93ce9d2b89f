-- ===== src/Base/Outcomes.antt =====
-- `Result<A, E>`, and methods that may fail.
use mathlib.Core.Option.{Option, none, some}

pub data Result {ℓ} (E A : Type ℓ) : Type ℓ where
  ok : A → Result E A
  err : E → Result E A

abbrev pub ok_or {ℓ} : {E A : Type ℓ} → Option A → E → Result E A
ok_or none e = err e
ok_or (some a) e = ok a

-- A method that mutates its receiver and may fail. What was written before a failure stays written,
-- so the receiver comes back beside the error too.
abbrev pub Method {ℓ} : Type ℓ → Type ℓ → Type ℓ → Type ℓ
Method S E A = S → Result E A × S
