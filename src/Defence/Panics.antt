-- ===== src/Defence/Panics.antt =====
-- engine/src/defence: code that may panic returns an option, and none is the panic.
use vyse.Prelude.{Option, none, some}

-- A panic ends the function.
infixl 5 ◌>>=◌
abbrev pub ◌>>=◌ {ℓ κ} : {A : Type ℓ} {B : Type κ} → Option A → (A → Option B) → Option B
none >>= f = none
some a >>= f = f a
