-- ===== src/Prelude/Outcome.antt =====
-- What a kernel routine does: it returns, or it calls `panic`, which never returns.
use mathlib.Core.Path.{◌≡◌, refl}
use mathlib.Core.Logic.{◌≢◌}

pub data Outcome {ℓ} (A : Type ℓ) : Type ℓ where
  ok : A → Outcome A
  panic : Outcome A

infixl 5 ◌>>=◌ ◌>>◌
abbrev pub ◌>>=◌ {ℓ κ} : {A : Type ℓ} {B : Type κ} → Outcome A → (A → Outcome B) → Outcome B
ok a >>= f = f a
panic >>= f = panic

abbrev pub ◌>>◌ {ℓ} : {B : Type ℓ} → Outcome (Unit {0}) → Outcome B → Outcome B
m >> k = m >>= λ _. k

pub returns_of_ne_panic {ℓ} : {A : Type ℓ} (m : Outcome A) → m ≢ panic → (a : A) × (m ≡ ok a)
returns_of_ne_panic (ok a) h = (a, refl)
returns_of_ne_panic panic h = absurd (h refl)
