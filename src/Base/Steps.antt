-- ===== src/Base/Steps.antt =====
-- A call that may fail and that changes a state, and what follows it.
use mathlib.Core.Path.{◌≡◌, refl}
use mathlib.Core.Option.{Option, none, some}
use remote_executor.Base.Outcome.{Outcome, ok, err, panic}

abbrev pub continue :
    {S E A B : Type 0} → Outcome E A × S → (A → S → Outcome E B × S) → Outcome E B × S
continue (ok a, st) f = f a st
continue (err e, st) f = (err e, st)
continue (panic, st) f = (panic, st)

-- What holds after each outcome of a call holds of the chain.
pub continue-lem :
    {S E A B : Type 0} (P : Outcome E B × S → Type 0) (m : Outcome E A × S)
    (f : A → S → Outcome E B × S)
    → ((e : E) → P (err e, m.1))
    → P (panic, m.1)
    → ((a : A) → m.0 ≡ ok a → P (f a m.1))
    → P (continue m f)
continue-lem P (ok a, st) f on_err on_panic on_ok = on_ok a refl
continue-lem P (err e, st) f on_err on_panic on_ok = on_err e
continue-lem P (panic, st) f on_err on_panic on_ok = on_panic

-- the same for the end state alone
pub continue-state :
    {S E A B : Type 0} (Q : S → Type 0) (m : Outcome E A × S) (f : A → S → Outcome E B × S)
    → Q m.1
    → ((a : A) → Q (f a m.1).1)
    → Q (continue m f).1
continue-state Q (ok a, st) f q h = h a
continue-state Q (err e, st) f q h = q
continue-state Q (panic, st) f q h = q

-- the same for a call that gives nothing where the rounds of a loop ran out
abbrev pub proceed :
    {S E A B : Type 0}
    → Option (Outcome E A × S)
    → (A → S → Option (Outcome E B × S))
    → Option (Outcome E B × S)
proceed none f = none
proceed (some (ok a, st)) f = f a st
proceed (some (err e, st)) f = some (err e, st)
proceed (some (panic, st)) f = some (panic, st)

-- the call has a result, of which `P` holds
abbrev pub Gives : {R : Type 0} → (R → Type 0) → Option R → Type 0
Gives P o = (r : _) × (o ≡ some r) × P r

pub proceed-Gives :
    {S E A B : Type 0} (P : Outcome E A × S → Type 0) (Q : Outcome E B × S → Type 0)
    (m : Option (Outcome E A × S)) (f : A → S → Option (Outcome E B × S))
    → Gives P m
    → ((e : E) (st : S) → P (err e, st) → Q (err e, st))
    → ((st : S) → P (panic, st) → Q (panic, st))
    → ((a : A) (st : S) → P (ok a, st) → Gives Q (f a st))
    → Gives Q (proceed m f)
proceed-Gives P Q m f ((ok a, st), e, p) on_err on_panic on_ok = rw e (on_ok a st p)
proceed-Gives P Q m f ((err c, st), e, p) on_err on_panic on_ok =
    rw e ((err c, st), refl, on_err c st p)
proceed-Gives P Q m f ((panic, st), e, p) on_err on_panic on_ok =
    rw e ((panic, st), refl, on_panic st p)

pub proceed-some :
    {S E A B : Type 0} (Q : Outcome E B × S → Type 0) (m : Outcome E A × S)
    (f : A → S → Option (Outcome E B × S))
    → ((e : E) → Q (err e, m.1))
    → Q (panic, m.1)
    → ((a : A) → m.0 ≡ ok a → Gives Q (f a m.1))
    → Gives Q (proceed (some m) f)
proceed-some Q (ok a, st) f on_err on_panic on_ok = on_ok a refl
proceed-some Q (err e, st) f on_err on_panic on_ok = ((err e, st), refl, on_err e)
proceed-some Q (panic, st) f on_err on_panic on_ok = ((panic, st), refl, on_panic)

pub Gives-map :
    {R : Type 0} {P Q : R → Type 0} {o : Option R} → ((r : R) → P r → Q r) → Gives P o → Gives Q o
Gives-map f (r, e, p) = (r, e, f r p)
