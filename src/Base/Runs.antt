-- ===== src/Base/Runs.antt =====
-- Runs that can fault: what the C++ leaves undefined is a fault here, and a loop on fuel says so
-- when the fuel is out.
use mathlib.Core.Path.{◌≡◌, refl}

pub data Fault : Type 0 where
  -- `it->second` at the end of a map, and a call of a callback that was moved away
  missing_entry null_callback : Fault
  null_pointer empty_optional index_out_of_range unbound_pipe : Fault

pub data Exec {ℓ} (A : Type ℓ) : Type ℓ where
  done : A → Exec A
  fault : Fault → Exec A
  no_fuel : Exec A

infixl 5 ◌>>=◌ ◌>>◌
abbrev pub ◌>>=◌ {ℓ κ} : {A : Type ℓ} {B : Type κ} → Exec A → (A → Exec B) → Exec B
done a >>= k = k a
fault f >>= k = fault f
no_fuel >>= k = no_fuel

abbrev pub ◌>>◌ {ℓ κ} : {A : Type ℓ} {B : Type κ} → Exec A → Exec B → Exec B
m >> n = m >>= λ _. n

-- Total correctness: the run returns, and `P` holds of what it returns.
abbrev pub Returns {ℓ} : {A : Type ℓ} → (A → Type 0) → Exec A → Type 0
Returns P (done a) = P a
Returns P (fault f) = ⊥
Returns P no_fuel = ⊥

pub Returns->>= {ℓ κ} :
    {A : Type ℓ} {B : Type κ} (P : A → Type 0) (Q : B → Type 0) (m : Exec A) (k : A → Exec B)
    → Returns P m
    → ((a : A) → P a → Returns Q (k a))
    → Returns Q (m >>= k)
Returns->>= P Q (done a) k p h = h a p
Returns->>= P Q (fault f) k p h = absurd p
Returns->>= P Q no_fuel k p h = absurd p

pub Returns-weaken {ℓ} :
    {A : Type ℓ} (P Q : A → Type 0) (m : Exec A) → ((a : A) → P a → Q a) → Returns P m → Returns Q m
Returns-weaken P Q (done a) h p = h a p
Returns-weaken P Q (fault f) h p = p
Returns-weaken P Q no_fuel h p = p

-- What a run returns, beside what is known of it if it returns.
pub returned {ℓ} :
    {A : Type ℓ} (P : A → Type 0) (m : Exec A) → Returns P m → (a : A) × (m ≡ done a) × P a
returned P (done a) p = (a, refl, p)
returned P (fault f) p = absurd p
returned P no_fuel p = absurd p
