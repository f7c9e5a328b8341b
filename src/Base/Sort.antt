-- ===== src/Base/Sort.antt =====
-- The standard library's stable `sort_by_key`, with what it leaves: the same elements, in order.
use Prim.Native.Nat.{ℕ, ◌+◌}
use native.Mathlib.Omega.{arith}
use mathlib.Core.Path.{◌≡◌, refl, ap, ◌∙◌}
use mathlib.Core.Logic.{inl, inr}
use mathlib.Core.Bool.{Bool, true, false}
use mathlib.Core.List.{List, [], ◌∷◌, map, Perm}
use mathlib.Core.List.Perm
use remote_executor.Base.Tests.{if◌then◌else◌, Bool-cases}
use remote_executor.Base.Lists.{All, All-map, AllPairs, sum}

module _ {ℓ} {A : Type ℓ} (le : A → A → Bool) where
  -- An element goes in front of the first one that is not smaller.
  unfoldable pub insert_sorted : A → List A → List A
  insert_sorted x [] = x ∷ []
  insert_sorted x (y ∷ ys) = if le x y then x ∷ y ∷ ys else y ∷ insert_sorted x ys

  unfoldable pub stable_sort : List A → List A
  unfolding insert_sorted
  stable_sort [] = []
  stable_sort (x ∷ xs) = insert_sorted x (stable_sort xs)

  insert_sorted-perm : (x : A) (xs : List A) → Perm (insert_sorted x xs) (x ∷ xs)
  unfolding insert_sorted
  insert_sorted-perm x [] = Perm.rfl
  insert_sorted-perm x (y ∷ ys) = elim (Bool-cases (le x y)) [
    | inl e ↦ rw e Perm.rfl
    | inr e ↦ rw e (Perm.trans (Perm.cons y (insert_sorted-perm x ys)) (Perm.swap x y ys))
  ]

  -- A sort only rearranges.
  pub stable_sort-perm : (xs : List A) → Perm (stable_sort xs) xs
  unfolding stable_sort
  stable_sort-perm [] = Perm.rfl
  stable_sort-perm (x ∷ xs) =
      Perm.trans (insert_sorted-perm x (stable_sort xs)) (Perm.cons x (stable_sort-perm xs))

  -- Each element comes before, or is equal in order to, all behind it.
  abbrev pub IsSorted : List A → Type ℓ
  IsSorted [] = Unit
  IsSorted (x ∷ xs) = All (λ y. le x y ≡ true) xs × IsSorted xs

module _ {ℓ} {A : Type ℓ} (le : A → A → Bool) where
  All-insert_sorted {κ} :
      (P : A → Type κ) (x : A) (xs : List A) → P x → All P xs → All P (insert_sorted le x xs)
  unfolding insert_sorted
  All-insert_sorted P x [] px h = (px, tt)
  All-insert_sorted P x (y ∷ ys) px (py, h) = elim (Bool-cases (le x y)) [
    | inl e ↦ rw e (px, (py, h))
    | inr e ↦ rw e (py, All-insert_sorted P x ys px h)
  ]

  pub All-stable_sort {κ} : (P : A → Type κ) (xs : List A) → All P xs → All P (stable_sort le xs)
  unfolding stable_sort
  All-stable_sort P [] h = tt
  All-stable_sort P (x ∷ xs) (px, h) =
      All-insert_sorted P x (stable_sort le xs) px (All-stable_sort P xs h)

module _ {ℓ} {A : Type ℓ} (le : A → A → Bool) (total : (a b : A) → le a b ≡ false → le b a ≡ true)
    (trans : (a b c : A) → le a b ≡ true → le b c ≡ true → le a c ≡ true) where
  insert_sorted-IsSorted :
      (x : A) (xs : List A) → IsSorted le xs → IsSorted le (insert_sorted le x xs)
  unfolding insert_sorted
  insert_sorted-IsSorted x [] s = (tt, tt)
  insert_sorted-IsSorted x (y ∷ ys) (h, s) = elim (Bool-cases (le x y)) [
    | inl e ↦ rw e ((e, All-map ys (λ z. trans x y z e) h), (h, s))
    | inr e ↦ rw e (
      All-insert_sorted le (λ z. le y z ≡ true) x ys (total x y e) h,
      insert_sorted-IsSorted x ys s,
    )
  ]

  -- Under a total and transitive order the result is in order.
  pub stable_sort-IsSorted : (xs : List A) → IsSorted le (stable_sort le xs)
  unfolding stable_sort
  stable_sort-IsSorted [] = tt
  stable_sort-IsSorted (x ∷ xs) =
      insert_sorted-IsSorted x (stable_sort le xs) (stable_sort-IsSorted xs)

-- What is in order already stays as it is.
pub stable_sort-eq_of_sorted {ℓ} :
    {A : Type ℓ} (le : A → A → Bool) (xs : List A) → IsSorted le xs → stable_sort le xs ≡ xs
unfolding stable_sort
stable_sort-eq_of_sorted le [] s = refl
stable_sort-eq_of_sorted le (x ∷ []) s = refl
stable_sort-eq_of_sorted le (x ∷ y ∷ ys) ((h, hs), s) =
    ap (insert_sorted le x) (stable_sort-eq_of_sorted le (y ∷ ys) s) ∙ rw h

module _ {ℓ} {A : Type ℓ} (le : A → A → Bool) where
  All-of_insert_sorted {κ} :
      (P : A → Type κ) (x : A) (xs : List A) → All P (insert_sorted le x xs) → P x × All P xs
  unfolding insert_sorted
  All-of_insert_sorted P x [] h = h
  All-of_insert_sorted P x (y ∷ ys) h = elim (Bool-cases (le x y)) [
    | inl e ↦ rw (e, insert_sorted) at h
    | inr e ↦
        let h' : P y × All P (insert_sorted le x ys) = rw (e, insert_sorted) at h in
        let (px, hs) = All-of_insert_sorted P x ys h'.1 in (px, (h'.0, hs))
  ]

  module _ {κ} (P : A → A → Type κ) (symm : (a b : A) → P a b → P b a) where
    AllPairs-insert_sorted :
        (x : A) (xs : List A) → All (P x) xs → AllPairs P xs → AllPairs P (insert_sorted le x xs)
    unfolding insert_sorted
    AllPairs-insert_sorted x [] h ps = (tt, tt)
    AllPairs-insert_sorted x (y ∷ ys) (p, h) (q, ps) = elim (Bool-cases (le x y)) [
      | inl e ↦ rw e ((p, h), (q, ps))
      | inr e ↦
          rw e (All-insert_sorted le (P y) x ys (symm x y p) q, AllPairs-insert_sorted x ys h ps)
    ]

    AllPairs-of_insert_sorted :
        (x : A) (xs : List A) → AllPairs P (insert_sorted le x xs) → All (P x) xs × AllPairs P xs
    unfolding insert_sorted
    AllPairs-of_insert_sorted x [] h = (tt, tt)
    AllPairs-of_insert_sorted x (y ∷ ys) h = elim (Bool-cases (le x y)) [
      | inl e ↦ rw (e, insert_sorted) at h
      | inr e ↦
          let h' : AllPairs P (y ∷ insert_sorted le x ys) = rw (e, insert_sorted) at h in
          let (p, q) = All-of_insert_sorted (P y) x ys h'.0 in
          let (r, ps) = AllPairs-of_insert_sorted x ys h'.1 in ((symm y x p, r), (q, ps))
    ]

    -- A symmetric relation holds between all pairs before and after a sort.
    pub AllPairs-stable_sort : (xs : List A) → AllPairs P xs → AllPairs P (stable_sort le xs)
    unfolding stable_sort
    AllPairs-stable_sort [] h = tt
    AllPairs-stable_sort (x ∷ xs) (p, ps) =
        AllPairs-insert_sorted x (stable_sort le xs) (All-stable_sort le (P x) xs p)
          (AllPairs-stable_sort xs ps)

    All-of_stable_sort {μ} : (Q : A → Type μ) (xs : List A) → All Q (stable_sort le xs) → All Q xs
    unfolding stable_sort
    All-of_stable_sort Q [] h = tt
    All-of_stable_sort Q (x ∷ xs) h =
        let (p, q) = All-of_insert_sorted Q x (stable_sort le xs) h in
        (p, All-of_stable_sort Q xs q)

    pub AllPairs-of_stable_sort : (xs : List A) → AllPairs P (stable_sort le xs) → AllPairs P xs
    unfolding stable_sort
    AllPairs-of_stable_sort [] h = tt
    AllPairs-of_stable_sort (x ∷ xs) h =
        let (p, q) = AllPairs-of_insert_sorted x (stable_sort le xs) h in
        (All-of_stable_sort (P x) xs p, AllPairs-of_stable_sort xs q)

  sum-insert_sorted :
      (f : A → ℕ) (x : A) (xs : List A) → sum (map f (insert_sorted le x xs)) ≡ f x + sum (map f xs)
  unfolding insert_sorted
  sum-insert_sorted f x [] = refl
  sum-insert_sorted f x (y ∷ ys) = elim (Bool-cases (le x y)) [
    | inl e ↦ rw e
    | inr e ↦ rw e (omega (arith, sum-insert_sorted f x ys))
  ]

  pub sum-stable_sort : (f : A → ℕ) (xs : List A) → sum (map f (stable_sort le xs)) ≡ sum (map f xs)
  unfolding stable_sort
  sum-stable_sort f [] = refl
  sum-stable_sort f (x ∷ xs) =
      omega (arith, sum-insert_sorted f x (stable_sort le xs), sum-stable_sort f xs)
