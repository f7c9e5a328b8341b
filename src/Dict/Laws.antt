-- ===== src/Dict/Laws.antt =====
-- What a lookup finds after each operation.
use remote_executor.Base.{
  ◌≡◌, refl, inl, inr, ◌||◌, none, some, [], ◌∷◌, arith, if◌then◌else◌, Bool-cases, Option-cases,
  All, Option,
}
use mathlib.Core.Path.{subst}
use remote_executor.Text.{Text, text_eq}
use remote_executor.Text.Equality.{text_eq_iff}
use remote_executor.Dict.{Dict, text_lt, lookup, insert, remove, contains_key, or_insert}

module _ {ℓ} {V : Type ℓ} where
  pub lookup-insert :
      (k l : Text) (v : V) (m : Dict V)
      → lookup l (insert k v m) ≡ (if text_eq k l then some v else lookup l m)
  unfolding lookup insert
  lookup-insert k l v [] = refl
  lookup-insert k l v ((j, w) ∷ m) =
      ground (arith, text_eq_iff k l, text_eq_iff j k, text_eq_iff j l, lookup-insert k l v m)

  pub lookup-remove :
      (k l : Text) (m : Dict V) → lookup l (remove k m) ≡ (if text_eq k l then none else lookup l m)
  unfolding lookup remove
  lookup-remove k l [] = ground arith
  lookup-remove k l ((j, w) ∷ m) =
      ground (arith, text_eq_iff k l, text_eq_iff j k, text_eq_iff j l, lookup-remove k l m)

  -- An entry that is there is kept.
  pub lookup-or_insert :
      (k l : Text) (v : V) (m : Dict V)
      → lookup l (or_insert k v m)
        ≡ (if text_eq k l then (if contains_key k m then lookup l m else some v) else lookup l m)
  unfolding or_insert
  lookup-or_insert k l v m = elim (Bool-cases (contains_key k m)) [
    | inl e ↦ rw e (ground arith)
    | inr e ↦ rw e (lookup-insert k l v m)
  ]

  -- What was there before is there after.
  pub contains_key-or_insert :
      (k l : Text) (v : V) (m : Dict V)
      → contains_key l (or_insert k v m) ≡ (text_eq k l || contains_key l m)
  contains_key-or_insert k l v m = rw (lookup-or_insert k l v m) (elim (Bool-cases (text_eq k l)) [
    | inl e ↦ elim (Option-cases (lookup k m)) [
      | inl absent ↦ rw (e, absent) refl
      | inr (w, present) ↦ rw (e, present) (rw (← (text_eq_iff k l).0 e) (rw present refl))
    ]
    | inr e ↦ rw e refl
  ])

  pub contains_key-insert :
      (k l : Text) (v : V) (m : Dict V)
      → contains_key l (insert k v m) ≡ (text_eq k l || contains_key l m)
  contains_key-insert k l v m = rw (lookup-insert k l v m) (ground arith)

  -- What holds of the values holds of them after an operation.
  pub All-insert {κ} :
      (P : V → Type κ) (k : Text) (v : V) (m : Dict V)
      → P v
      → All (λ e. P e.1) m
      → All (λ e. P e.1) (insert k v m)
  unfolding insert
  All-insert P k v [] p h = (p, tt)
  All-insert P k v ((j, w) ∷ m) p (q, h) = elim (Bool-cases (text_eq j k)) [
    | inl e ↦ rw e (p, h)
    | inr e ↦ elim (Bool-cases (text_lt k j)) [
      | inl e' ↦ rw (e, e') (p, (q, h))
      | inr e' ↦ rw (e, e') (q, All-insert P k v m p h)
    ]
  ]

  pub All-remove {κ} :
      (P : V → Type κ) (k : Text) (m : Dict V) → All (λ e. P e.1) m → All (λ e. P e.1) (remove k m)
  unfolding remove
  All-remove P k [] h = tt
  All-remove P k ((j, w) ∷ m) (q, h) = elim (Bool-cases (text_eq j k)) [
    | inl e ↦ rw e (All-remove P k m h)
    | inr e ↦ rw e (q, All-remove P k m h)
  ]

  pub All-lookup {κ} :
      (P : V → Type κ) (k : Text) (m : Dict V) {v : V}
      → All (λ e. P e.1) m
      → lookup k m ≡ some v
      → P v
  unfolding lookup
  All-lookup P k [] h e = cc
  All-lookup P k ((j, w) ∷ m) {v = v} (q, h) e = elim (Bool-cases (text_eq j k)) [
    | inl e' ↦
        let found : ◌≡◌ {A = Option V} (some w) (some v) = rw (e', lookup) at e in
        let same : w ≡ v = cc in subst P same q
    | inr e' ↦ All-lookup P k m h (rw (e', lookup) at e)
  ]

  pub insert-cons :
      (k : Text) (v : V) (m : Dict V) → (e : Text × V) × (rest : Dict V) × (insert k v m ≡ e ∷ rest)
  unfolding insert
  insert-cons k v [] = ((k, v), [], refl)
  insert-cons k v ((j, w) ∷ m) = elim (Bool-cases (text_eq j k)) [
    | inl e ↦ rw e ((k, v), m, refl)
    | inr e ↦ elim (Bool-cases (text_lt k j)) [
      | inl e' ↦ rw (e, e') ((k, v), (j, w) ∷ m, refl)
      | inr e' ↦ rw (e, e') ((j, w), insert k v m, refl)
    ]
  ]
