-- ===== src/Base/Runs.antt =====
-- How a call ends: with a value, by an access outside an array or through a null or freed pointer,
-- or not within its fuel.
use mathlib.Core.Option.{Option, none, some}

pub data Run {ℓ} (A : Type ℓ) : Type ℓ where
  ret : A → Run A
  fault : Run A
  running : Run A

abbrev pub and_then {ℓ κ} : {A : Type ℓ} {B : Type κ} → Run A → (A → Run B) → Run B
and_then (ret a) k = k a
and_then fault k = fault
and_then running k = running

abbrev pub access {ℓ κ} : {A : Type ℓ} {B : Type κ} → Option A → (A → Run B) → Run B
access none k = fault
access (some a) k = k a

-- For `do` blocks of runs.
infixl 5 ◌>>=◌
abbrev pub ◌>>=◌ {ℓ κ} : {A : Type ℓ} {B : Type κ} → Run A → (A → Run B) → Run B
ret a >>= k = k a
fault >>= k = fault
running >>= k = running

abbrev pub reach {ℓ} : {A : Type ℓ} → Option A → Run A
reach none = fault
reach (some a) = ret a
