-- ===== src/Base/Yields.antt =====
-- A property of what a call returns, where it returns.
use mathlib.Core.Path.{◌≡◌, refl, subst}
use remote_executor.Base.Outcome.{Outcome, ok, err, panic, ◌>>=◌, ok-injective}

abbrev pub Yields {ℓ} : {E : Type 0} {A : Type ℓ} → (A → Type 0) → Outcome E A → Type 0
Yields P (ok a) = P a
Yields P (err e) = Unit
Yields P panic = Unit

-- What holds of the result of the rest of a chain holds of the chain.
pub Yields-bind {ℓ κ} :
    {E : Type 0} {A : Type ℓ} {B : Type κ} (Q : B → Type 0) (m : Outcome E A) (f : A → Outcome E B)
    → ((a : A) → m ≡ ok a → Yields Q (f a))
    → Yields Q (m >>= f)
Yields-bind Q (ok a) f k = k a refl
Yields-bind Q (err e) f k = tt
Yields-bind Q panic f k = tt

pub Yields-ok {ℓ} :
    {E : Type 0} {A : Type ℓ} (P : A → Type 0) (m : Outcome E A) {a : A}
    → Yields P m
    → m ≡ ok a
    → P a
Yields-ok P (ok b) h e = subst P (ok-injective e) h
Yields-ok P (err x) h e = cc
Yields-ok P panic h e = cc
