-- ===== src/Storage/Attempt.antt =====
-- The result of a function of internal/storage/postgres that returns a value or an error.
use mathlib.Core.Path.{◌≡◌, refl}
use mathlib.Core.Logic.{◌⊎◌, inl, inr}
use feeds_server.Base.{String}

-- An error is its message, without the quoted values.
pub data Attempt {ℓ} (A : Type ℓ) : Type ℓ where
  done : A → Attempt A
  failed : String → Attempt A

pub Attempt-cases {ℓ} :
    {A : Type ℓ} (r : Attempt A) → ((a : A) × (r ≡ done a)) ⊎ ((m : String) × (r ≡ failed m))
Attempt-cases (done a) = inl (a, refl)
Attempt-cases (failed m) = inr (m, refl)

pub done-injective {ℓ} : {A : Type ℓ} {a b : A} → done a ≡ done b → a ≡ b
done-injective e = cc
