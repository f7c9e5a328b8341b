-- ===== src/Tests/Json.antt =====
-- The merge of settings files at concrete values.
use remote_executor.Base.{◌≡◌, refl, some, [], ◌∷◌, true}
use remote_executor.Text.{codes, text_eq}
use remote_executor.Dict.{text_lt}
use remote_executor.Json.{
  Value, bool, string, object, end, field, json_merge, get_field, insert_field,
}
use remote_executor.Json.Merge.{IsMap, get_path, get_path-json_merge_overlay}

abbrev base : Value
base = object (
    field (codes "shells")
      (object (
        field (codes "default") (string (codes "auto"))
          (field (codes "interactive") (string (codes "auto")) end)))
      (field (codes "version") (bool true) end))

abbrev overlay : Value
overlay =
    object
      (field (codes "shells") (object (field (codes "default") (string (codes "zsh")) end)) end)

overlay-IsMap : IsMap overlay
unfolding get_field
overlay-IsMap = (refl, (refl, tt, tt), tt)

get_path-json_merge_overlay_example :
    get_path (json_merge base overlay) (codes "shells" ∷ codes "default" ∷ [])
    ≡ some (string (codes "zsh"))
unfolding get_field text_eq
get_path-json_merge_overlay_example =
    get_path-json_merge_overlay (codes "shells" ∷ codes "default" ∷ []) base overlay overlay-IsMap
      refl refl

merged-test :
    json_merge base overlay
    ≡ object (
        field
          (codes "shells")
          (object (
            field
              (codes "default")
              (string (codes "zsh"))
              (field (codes "interactive") (string (codes "auto")) end)))
          (field (codes "version") (bool true) end))
unfolding json_merge get_field insert_field text_eq text_lt
merged-test = refl
