-- ===== src/Dict.antt =====
-- Maps from texts, Rust's `BTreeMap<String, V>` and `HashMap<String, V>`: an association list that an
-- insertion keeps in the order of the keys.
pub mod Laws
use remote_executor.Base.{
  ℕ, ◌<◌, Bool, true, false, Option, none, some, List, [], ◌∷◌, ltb, ◌==◌, if◌then◌else◌, is_some,
}
use remote_executor.Text.{Text, text_eq}

-- the order of `str`, by bytes; UTF-8 keeps the order of the characters
unfoldable pub text_lt : Text → Text → Bool
text_lt [] [] = false
text_lt [] (d ∷ b) = true
text_lt (c ∷ a) [] = false
text_lt (c ∷ a) (d ∷ b) =
    let rest = text_lt a b in if ltb c d then true else if c == d then rest else false

abbrev pub Dict {ℓ} : Type ℓ → Type ℓ
Dict V = List (Text × V)

module _ {ℓ} {V : Type ℓ} where
  unfoldable pub lookup : Text → Dict V → Option V
  lookup k [] = none
  lookup k ((j, v) ∷ m) = if text_eq j k then some v else lookup k m

  unfoldable pub insert : Text → V → Dict V → Dict V
  insert k v [] = (k, v) ∷ []
  insert k v ((j, w) ∷ m) =
      let rest = insert k v m in
      if text_eq j k then (k, v) ∷ m else if text_lt k j then (k, v) ∷ (j, w) ∷ m else (j, w) ∷ rest

  unfoldable pub remove : Text → Dict V → Dict V
  remove k [] = []
  remove k ((j, w) ∷ m) = let rest = remove k m in if text_eq j k then rest else (j, w) ∷ rest

  abbrev pub contains_key : Text → Dict V → Bool
  contains_key k m = is_some (lookup k m)

  -- `m.entry(k).or_insert(v)`
  unfoldable pub or_insert : Text → V → Dict V → Dict V
  or_insert k v m = if contains_key k m then m else insert k v m
