-- ===== src/Json/Merge.antt =====
-- What `json_merge` keeps and what it replaces, for values whose objects hold each key once.
use mathlib.Core.Path.{subst}
use remote_executor.Base.{
  ◌≡◌, refl, ◌∙◌, inl, inr, Bool, true, false, Option, none, some, List, [], ◌∷◌, arith,
  if◌then◌else◌, Bool-cases, Option-cases,
}
use remote_executor.Text.{Text, text_eq}
use remote_executor.Text.Equality.{text_eq_iff}
use remote_executor.Json.{
  Value, null, bool, number, string, array, object, Fields, end, field, get_field, insert_field,
  value_or_null, get, json_merge, merge_fields,
}

-- each key of the object, and of the objects in it, once
abbrev mutual
  pub IsMap : Value → Type 0
  IsMap (object fs) = AreMaps fs
  IsMap null = Unit
  IsMap (bool b) = Unit
  IsMap (number n) = Unit
  IsMap (string s) = Unit
  IsMap (array xs) = Unit

  pub AreMaps : Fields → Type 0
  AreMaps end = Unit
  AreMaps (field k v fs) = (get_field k fs ≡ none) × IsMap v × AreMaps fs

get_field-insert_field :
    (k l : Text) (v : Value) (fs : Fields)
    → get_field l (insert_field k v fs) ≡ (if text_eq k l then some v else get_field l fs)
unfolding get_field insert_field
get_field-insert_field k l v end = refl
get_field-insert_field k l v (field j w fs) =
    ground
      (arith, text_eq_iff k l, text_eq_iff j k, text_eq_iff j l, get_field-insert_field k l v fs)

-- what stands under a key after a merge of `old` with what the overlay has there
abbrev merged : Option Value → Option Value → Option Value
merged old none = old
merged old (some v) = some (json_merge (value_or_null old) v)

-- A merge of objects merges under each key.
pub get_field-merge_fields :
    (k : Text) (base overlay : Fields)
    → AreMaps overlay
    → get_field k (merge_fields base overlay) ≡ merged (get_field k base) (get_field k overlay)
unfolding json_merge
get_field-merge_fields k base end h = refl
get_field-merge_fields k base (field j v rest) (absent, hv, h) =
    let next = insert_field j (json_merge (value_or_null (get_field j base)) v) base in
    let ih = get_field-merge_fields k next rest h in
    let there = get_field-insert_field j k (json_merge (value_or_null (get_field j base)) v) base in
    elim (Bool-cases (text_eq j k)) [
      | inl e ↦
          let same : j ≡ k = (text_eq_iff j k).0 e in
          let gone : get_field k rest ≡ none = rw (← same) absent in
          rw (e, get_field) (ih ∙ rw (gone, there, e) (rw same refl))
      | inr e ↦ rw (e, get_field) (ih ∙ rw (there, e) refl)
    ]

-- the value at a path of keys
abbrev pub get_path : Value → List Text → Option Value
get_path v [] = some v
get_path v (k ∷ ks) = elim (get k v) [ none ↦ none | some w ↦ get_path w ks ]

abbrev pub is_object : Value → Bool
is_object (object fs) = true
is_object _ = false

get_field-IsMap :
    (k : Text) (fs : Fields) {v : Value} → AreMaps fs → get_field k fs ≡ some v → IsMap v
unfolding get_field
get_field-IsMap k end h e = cc
get_field-IsMap k (field j w fs) {v} (absent, hw, h) e = elim (Bool-cases (text_eq j k)) [
  | inl same ↦
      let found : some w ≡ some v = rw (same, get_field) at e in
      subst (λ o. elim o [ some x ↦ IsMap x | none ↦ ⊥ ]) found hw
  | inr other ↦ get_field-IsMap k fs h (rw (other, get_field) at e)
]

-- Where an overlay whose objects hold each key once has a value that is no object, the merge has that
-- value, whatever the base.
pub get_path-json_merge_overlay :
    (ks : List Text) (base overlay : Value) {v : Value}
    → IsMap overlay
    → get_path overlay ks ≡ some v
    → is_object v ≡ false
    → get_path (json_merge base overlay) ks ≡ some v
unfolding json_merge
get_path-json_merge_overlay [] base (object fo) m h leaf = absurd (ground arith)
get_path-json_merge_overlay [] base null m h leaf = h
get_path-json_merge_overlay [] base (bool b) m h leaf = h
get_path-json_merge_overlay [] base (number n) m h leaf = h
get_path-json_merge_overlay [] base (string s) m h leaf = h
get_path-json_merge_overlay [] base (array xs) m h leaf = h
get_path-json_merge_overlay (k ∷ ks) base null m h leaf = h
get_path-json_merge_overlay (k ∷ ks) base (bool b) m h leaf = h
get_path-json_merge_overlay (k ∷ ks) base (number n) m h leaf = h
get_path-json_merge_overlay (k ∷ ks) base (string s) m h leaf = h
get_path-json_merge_overlay (k ∷ ks) base (array xs) m h leaf = h
get_path-json_merge_overlay (k ∷ ks) null (object fo) m h leaf = h
get_path-json_merge_overlay (k ∷ ks) (bool b) (object fo) m h leaf = h
get_path-json_merge_overlay (k ∷ ks) (number n) (object fo) m h leaf = h
get_path-json_merge_overlay (k ∷ ks) (string s) (object fo) m h leaf = h
get_path-json_merge_overlay (k ∷ ks) (array xs) (object fo) m h leaf = h
get_path-json_merge_overlay (k ∷ ks) (object fb) (object fo) {v} m h leaf =
    elim (Option-cases (get_field k fo)) [
      | inl absent ↦ let none_there : none ≡ some v = rw (absent, get_path) at h in cc
      | inr (w, there) ↦
          rw (get_path, get_field-merge_fields k fb fo m, there)
            (get_path-json_merge_overlay ks (value_or_null (get_field k fb)) w
              (get_field-IsMap k fo m there) (rw (there, get_path) at h) leaf)
    ]

-- The overlay has objects along the path, up to one that does not hold the next key.
abbrev pub LeavesOut : Value → List Text → Type 0
LeavesOut overlay [] = ⊥
LeavesOut overlay (k ∷ ks) = elim overlay [
  | object fs ↦ elim (get_field k fs) [ none ↦ Unit | some w ↦ LeavesOut w ks ]
  | _ ↦ ⊥
]

LeavesOut-get_path :
    (ks : List Text) (overlay : Value) → LeavesOut overlay ks → get_path overlay ks ≡ none
LeavesOut-get_path [] overlay h = absurd h
LeavesOut-get_path (k ∷ ks) (object fo) h = elim (Option-cases (get_field k fo)) [
  | inl absent ↦ rw (absent, get_path) refl
  | inr (w, there) ↦ rw (there, get_path) (LeavesOut-get_path ks w (rw (there, LeavesOut) at h))
]
LeavesOut-get_path (k ∷ ks) null h = absurd h
LeavesOut-get_path (k ∷ ks) (bool b) h = absurd h
LeavesOut-get_path (k ∷ ks) (number n) h = absurd h
LeavesOut-get_path (k ∷ ks) (string s) h = absurd h
LeavesOut-get_path (k ∷ ks) (array xs) h = absurd h

-- At a path that an overlay whose objects hold each key once leaves out, the merge is as the base.
pub get_path-json_merge_base :
    (ks : List Text) (base overlay : Value)
    → IsMap overlay
    → LeavesOut overlay ks
    → get_path (json_merge base overlay) ks ≡ get_path base ks
unfolding json_merge
get_path-json_merge_base [] base overlay m h = absurd h
get_path-json_merge_base (k ∷ ks) base null m h = absurd h
get_path-json_merge_base (k ∷ ks) base (bool b) m h = absurd h
get_path-json_merge_base (k ∷ ks) base (number n) m h = absurd h
get_path-json_merge_base (k ∷ ks) base (string s) m h = absurd h
get_path-json_merge_base (k ∷ ks) base (array xs) m h = absurd h
get_path-json_merge_base (k ∷ ks) null (object fo) m h = LeavesOut-get_path (k ∷ ks) (object fo) h
get_path-json_merge_base (k ∷ ks) (bool b) (object fo) m h =
    LeavesOut-get_path (k ∷ ks) (object fo) h
get_path-json_merge_base (k ∷ ks) (number n) (object fo) m h =
    LeavesOut-get_path (k ∷ ks) (object fo) h
get_path-json_merge_base (k ∷ ks) (string s) (object fo) m h =
    LeavesOut-get_path (k ∷ ks) (object fo) h
get_path-json_merge_base (k ∷ ks) (array xs) (object fo) m h =
    LeavesOut-get_path (k ∷ ks) (object fo) h
get_path-json_merge_base (k ∷ ks) (object fb) (object fo) m h =
    elim (Option-cases (get_field k fo)) [
      | inl absent ↦ rw (get_path, get_field-merge_fields k fb fo m, absent) refl
      | inr (w, there) ↦
          let deep : LeavesOut w ks = rw (there, LeavesOut) at h in
          rw (get_path, get_field-merge_fields k fb fo m, there)
            (get_path-json_merge_base ks (value_or_null (get_field k fb)) w
                (get_field-IsMap k fo m there) deep
              ∙ from_null ks w (get_field k fb) deep)
    ]
  where
    from_null :
        (ks : List Text) (w : Value) (o : Option Value)
        → LeavesOut w ks
        → get_path (value_or_null o) ks ≡ elim o [ none ↦ none | some b ↦ get_path b ks ]
    from_null [] w o d = absurd d
    from_null (k ∷ ks) w none d = refl
    from_null (k ∷ ks) w (some b) d = refl
