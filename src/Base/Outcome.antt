-- ===== src/Base/Outcome.antt =====
-- The outcome of a fallible call: a value, an error that the caller is given (`Err`), or a panic,
-- which an out-of-range index or slice causes.
use Prim.Native.Nat.{ℕ, ◌+◌}
use native.Mathlib.Omega.{arith}
use mathlib.Core.Path.{◌≡◌, refl, subst}
use mathlib.Core.Logic.{◌≢◌, ◌⊎◌, inl, inr}
use mathlib.Core.Bool.{Bool, true, false}
use mathlib.Core.Option.{Option, none, some}
use mathlib.Core.List.{List, [], ◌∷◌, map}
use remote_executor.Base.Lists.{All, sum}

pub data Outcome {ℓ} (E : Type 0) (A : Type ℓ) : Type ℓ where
  ok : A → Outcome E A
  err : E → Outcome E A
  panic : Outcome E A

infixl 5 ◌>>=◌ ◌>>◌
abbrev pub ◌>>=◌ {ℓ κ} :
    {E : Type 0} {A : Type ℓ} {B : Type κ} → Outcome E A → (A → Outcome E B) → Outcome E B
ok a >>= f = f a
err e >>= f = err e
panic >>= f = panic

abbrev pub ◌>>◌ {ℓ} : {E : Type 0} {B : Type ℓ} → Outcome E (Unit {0}) → Outcome E B → Outcome E B
m >> k = m >>= λ _. k

-- `if b { return Err(e) }`
abbrev pub reject_if : {E : Type 0} → Bool → E → Outcome E (Unit {0})
reject_if true e = err e
reject_if false e = ok tt

-- `option.ok_or_else(|| e)`
abbrev pub ok_or {ℓ} : {E : Type 0} {A : Type ℓ} → Option A → E → Outcome E A
ok_or none e = err e
ok_or (some a) e = ok a

-- an index or a slice that the source takes without a test
abbrev pub or_panic {ℓ} : {E : Type 0} {A : Type ℓ} → Option A → Outcome E A
or_panic none = panic
or_panic (some a) = ok a

-- `result.with_context(|| …)` and `map_err`
abbrev pub map_err {ℓ} : {E F : Type 0} {A : Type ℓ} → (E → F) → Outcome E A → Outcome F A
map_err f (ok a) = ok a
map_err f (err e) = err (f e)
map_err f panic = panic

-- `iter.map(f).collect::<Result<Vec<_>>>()`: the first error ends it
abbrev pub traverse {ℓ κ} :
    {E : Type 0} {A : Type ℓ} {B : Type κ} → (A → Outcome E B) → List A → Outcome E (List B)
traverse f [] = ok []
traverse f (x ∷ xs) = do y ← f x; ys ← traverse f xs; ok (y ∷ ys)

pub bind-eq-ok {ℓ κ} :
    {E : Type 0} {A : Type ℓ} {B : Type κ} (m : Outcome E A) (f : A → Outcome E B) {b : B}
    → (m >>= f) ≡ ok b
    → (a : A) × (m ≡ ok a) × (f a ≡ ok b)
bind-eq-ok (ok a) f h = (a, refl, h)
bind-eq-ok (err e) f h = cc
bind-eq-ok panic f h = cc

-- A chain does not panic if its first step does not and the rest does not after a success.
pub bind-ne-panic {ℓ κ} :
    {E : Type 0} {A : Type ℓ} {B : Type κ} (m : Outcome E A) (f : A → Outcome E B)
    → m ≢ panic
    → ((a : A) → m ≡ ok a → f a ≢ panic)
    → (m >>= f) ≢ panic
bind-ne-panic (ok a) f h k = k a refl
bind-ne-panic (err e) f h k = λ p. cc
bind-ne-panic panic f h k = λ p. h refl

pub map_err-ne-panic {ℓ} :
    {E F : Type 0} {A : Type ℓ} (f : E → F) (m : Outcome E A) → m ≢ panic → map_err f m ≢ panic
map_err-ne-panic f (ok a) h = λ p. cc
map_err-ne-panic f (err e) h = λ p. cc
map_err-ne-panic f panic h = λ p. h refl

pub ok_or-ne-panic {ℓ} : {E : Type 0} {A : Type ℓ} (o : Option A) (e : E) → ok_or o e ≢ panic
ok_or-ne-panic none e = λ p. cc
ok_or-ne-panic (some a) e = λ p. cc

pub reject_if-ne-panic : {E : Type 0} (b : Bool) (e : E) → reject_if b e ≢ panic
reject_if-ne-panic true e = λ p. cc
reject_if-ne-panic false e = λ p. cc

pub traverse-ne-panic {ℓ κ} :
    {E : Type 0} {A : Type ℓ} {B : Type κ} (f : A → Outcome E B) (xs : List A)
    → ((a : A) → f a ≢ panic)
    → traverse f xs ≢ panic
traverse-ne-panic f [] h = λ p. cc
traverse-ne-panic f (x ∷ xs) h =
    bind-ne-panic (f x) _ (h x)
      (λ y e. bind-ne-panic (traverse f xs) _ (traverse-ne-panic f xs h) (λ ys e'. λ p. cc))

pub ok-injective {ℓ} :
    {E : Type 0} {A : Type ℓ} {a b : A} → ◌≡◌ {A = Outcome E A} (ok a) (ok b) → a ≡ b
ok-injective h = cc

-- What holds of each single success holds of all that were collected.
pub traverse-All {ℓ κ μ} :
    {E : Type 0} {A : Type ℓ} {B : Type κ} (Q : B → Type μ) (f : A → Outcome E B) (xs : List A)
    {ys : List B}
    → ((a : A) (b : B) → f a ≡ ok b → Q b)
    → traverse f xs ≡ ok ys
    → All Q ys
traverse-All Q f [] k h = subst (All Q) (ok-injective h) tt
traverse-All Q f (x ∷ xs) k h =
    let (y, e, h') = bind-eq-ok (f x) _ h in
    let (rest, e', h'') = bind-eq-ok (traverse f xs) _ h' in
    subst (All Q) (ok-injective h'') (k x y e, traverse-All Q f xs k e')

-- The same where each input has a property `P`.
pub traverse-All_of {ℓ κ μ ν} :
    {E : Type 0} {A : Type ℓ} {B : Type κ} (P : A → Type ν) (Q : B → Type μ) (f : A → Outcome E B)
    (xs : List A) {ys : List B}
    → ((a : A) (b : B) → P a → f a ≡ ok b → Q b)
    → All P xs
    → traverse f xs ≡ ok ys
    → All Q ys
traverse-All_of P Q f [] k a h = subst (All Q) (ok-injective h) tt
traverse-All_of P Q f (x ∷ xs) k (a, as') h =
    let (y, e, h') = bind-eq-ok (f x) _ h in
    let (rest, e', h'') = bind-eq-ok (traverse f xs) _ h' in
    subst (All Q) (ok-injective h'') (k x y a e, traverse-All_of P Q f xs k as' e')

-- Measures that agree on each input and its result agree in sum.
pub sum-traverse {ℓ κ} :
    {E : Type 0} {A : Type ℓ} {B : Type κ} (g : B → ℕ) (k : A → ℕ) (f : A → Outcome E B)
    (xs : List A) {ys : List B}
    → ((a : A) (b : B) → f a ≡ ok b → g b ≡ k a)
    → traverse f xs ≡ ok ys
    → sum (map g ys) ≡ sum (map k xs)
sum-traverse g k f [] same h = subst (λ zs. sum (map g zs) ≡ 0) (ok-injective h) refl
sum-traverse g k f (x ∷ xs) same h =
    let (y, e, h') = bind-eq-ok (f x) _ h in
    let (rest, e', h'') = bind-eq-ok (traverse f xs) _ h' in
    subst (λ zs. sum (map g zs) ≡ k x + sum (map k xs)) (ok-injective h'')
      (omega (arith, same x y e, sum-traverse g k f xs same e'))

pub bind-eq-err {ℓ κ} :
    {E : Type 0} {A : Type ℓ} {B : Type κ} (m : Outcome E A) (f : A → Outcome E B) {e : E}
    → (m >>= f) ≡ err e
    → (m ≡ err e) ⊎ ((a : A) × (m ≡ ok a) × (f a ≡ err e))
bind-eq-err (ok a) f h = inr (a, refl, h)
bind-eq-err (err e) f h = inl cc
bind-eq-err panic f h = inl cc

-- A call that does not panic returns a value or an error.
pub Outcome-cases {ℓ} :
    {E : Type 0} {A : Type ℓ} (m : Outcome E A)
    → m ≢ panic
    → ((a : A) × (m ≡ ok a)) ⊎ ((e : E) × (m ≡ err e))
Outcome-cases (ok a) h = inl (a, refl)
Outcome-cases (err e) h = inr (e, refl)
Outcome-cases panic h = absurd (h refl)

pub ok_or-eq-ok {ℓ} :
    {E : Type 0} {A : Type ℓ} (o : Option A) (e : E) {a : A} → ok_or o e ≡ ok a → o ≡ some a
ok_or-eq-ok none e h = cc
ok_or-eq-ok (some b) e h = cc

-- The call does not panic, and what it returns has the property.
abbrev pub Ends {ℓ} : {E : Type 0} {A : Type ℓ} → (A → Type 0) → Outcome E A → Type 0
Ends P (ok a) = P a
Ends P (err e) = Unit
Ends P panic = ⊥

pub Ends-bind {ℓ κ} :
    {E : Type 0} {A : Type ℓ} {B : Type κ} (P : A → Type 0) (Q : B → Type 0) (m : Outcome E A)
    (f : A → Outcome E B)
    → Ends P m
    → ((a : A) → m ≡ ok a → P a → Ends Q (f a))
    → Ends Q (m >>= f)
Ends-bind P Q (ok a) f h k = k a refl h
Ends-bind P Q (err e) f h k = tt
Ends-bind P Q panic f h k = absurd h

pub Ends-ok {ℓ} :
    {E : Type 0} {A : Type ℓ} (P : A → Type 0) (m : Outcome E A) {a : A} → Ends P m → m ≡ ok a → P a
Ends-ok P (ok b) h e = subst P (ok-injective e) h
Ends-ok P (err x) h e = cc
Ends-ok P panic h e = cc

pub Ends-ne-panic {ℓ} :
    {E : Type 0} {A : Type ℓ} (P : A → Type 0) (m : Outcome E A) → Ends P m → m ≢ panic
Ends-ne-panic P (ok a) h = λ p. cc
Ends-ne-panic P (err e) h = λ p. cc
Ends-ne-panic P panic h = absurd h

pub Ends-map {ℓ} :
    {E : Type 0} {A : Type ℓ} (P : A → Type 0) (Q : A → Type 0) (m : Outcome E A)
    → ((a : A) → P a → Q a)
    → Ends P m
    → Ends Q m
Ends-map P Q (ok a) k h = k a h
Ends-map P Q (err e) k h = tt
Ends-map P Q panic k h = absurd h

pub Ends-reject_if :
    {E : Type 0} (P : Unit {0} → Type 0) (b : Bool) (e : E)
    → (b ≡ false → P tt)
    → Ends P (reject_if b e)
Ends-reject_if P true e k = tt
Ends-reject_if P false e k = k refl

pub Ends-ok_or {ℓ} :
    {E : Type 0} {A : Type ℓ} (P : A → Type 0) (o : Option A) (e : E)
    → ((a : A) → o ≡ some a → P a)
    → Ends P (ok_or o e)
Ends-ok_or P none e k = tt
Ends-ok_or P (some a) e k = k a refl

pub Ends-map_err {ℓ} :
    {E F : Type 0} {A : Type ℓ} (P : A → Type 0) (f : E → F) (m : Outcome E A)
    → Ends P m
    → Ends P (map_err f m)
Ends-map_err P f (ok a) h = h
Ends-map_err P f (err e) h = tt
Ends-map_err P f panic h = h

pub map_err-eq-ok {ℓ} :
    {E F : Type 0} {A : Type ℓ} (f : E → F) (m : Outcome E A) {a : A}
    → map_err f m ≡ ok a
    → m ≡ ok a
map_err-eq-ok f (ok b) h = cc
map_err-eq-ok f (err e) h = cc
map_err-eq-ok f panic h = cc
