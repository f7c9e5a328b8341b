-- ===== src/FileAction/Shape/RoundTrip.antt =====
-- A text file that is encoded again with the text it was read as is left as it was.
use mathlib.Core.Path.{subst}
use remote_executor.Base.{
  ℕ, ◌+◌, ◌≡◌, ◌⊎◌, refl, sym, ap, ◌∙◌, true, false, inl, inr, none, some, [], ◌∷◌, arith, All,
  ◌==◌, Bool-cases,
}
use remote_executor.Base.Outcome.{ok, ok_or, ok_or-eq-ok, bind-eq-ok, ok-injective}
use remote_executor.Text.{Text, starts_lf, starts_with, strip_prefix, find, len_utf8}
use remote_executor.Text.Utf8.{from_utf8, into_bytes}
use remote_executor.Text.Utf8.Laws.{into_bytes-from_utf8}
use remote_executor.FileAction.Types.{Bytes, LineEnding, lf, crlf, TextShape, not_utf8}
use remote_executor.FileAction.Shape.{
  binary_byte, choose_line_ending, detect_line_ending, replace_crlf, replace_cr, normalize_to_lf,
  replace_lf, restore_line_endings, byte_order_mark, split_bom, shape_with, shape_of, reject_binary,
  from_bytes, encode,
}

abbrev pub HasNoCr : Text → Type 0
HasNoCr = All (λ c. (c == b'\r') ≡ false)

-- The lines all end in "\n", with no "\r" at all, or all in "\r\n", with no "\r" elsewhere.
abbrev pub IsUniform : Text → Type 0
IsUniform raw = HasNoCr raw ⊎ ((text : Text) × HasNoCr text × (replace_lf text ≡ raw))

find_crlf-none : (s : Text) → HasNoCr s → find (b'\r' ∷ b'\n' ∷ []) s ≡ none
unfolding find starts_with
find_crlf-none [] h = refl
find_crlf-none (c ∷ s) (hc, h) = ground (arith, find_crlf-none s h)

replace_crlf-id : (s : Text) → HasNoCr s → replace_crlf s ≡ s
unfolding replace_crlf
replace_crlf-id [] h = refl
replace_crlf-id (c ∷ s) (hc, h) = ground (arith, replace_crlf-id s h)

replace_cr-id : (s : Text) → HasNoCr s → replace_cr s ≡ s
unfolding replace_cr
replace_cr-id [] h = refl
replace_cr-id (c ∷ s) (hc, h) = ground (arith, replace_cr-id s h)

starts_lf-replace_lf : (s : Text) → starts_lf (replace_lf s) ≡ false
unfolding replace_lf
starts_lf-replace_lf [] = refl
starts_lf-replace_lf (c ∷ s) = ground arith

replace_crlf-replace_lf : (s : Text) → HasNoCr s → replace_crlf (replace_lf s) ≡ s
unfolding replace_crlf replace_lf
replace_crlf-replace_lf [] h = refl
replace_crlf-replace_lf (c ∷ s) (hc, h) = ground (arith, replace_crlf-replace_lf s h)

-- After `replace_lf` either both searches fail and nothing was replaced, or "\r\n" is found first.
find-replace_lf :
    (s : Text)
    → HasNoCr s
    → ((find (b'\r' ∷ b'\n' ∷ []) (replace_lf s) ≡ none) × (replace_lf s ≡ s))
      ⊎ ((i : ℕ) × (find (b'\r' ∷ b'\n' ∷ []) (replace_lf s) ≡ some i)
          × (find (b'\n' ∷ []) (replace_lf s) ≡ some (i + 1)))
unfolding find starts_with replace_lf len_utf8
find-replace_lf [] h = inl (refl, refl)
find-replace_lf (c ∷ s) (hc, h) = elim (Bool-cases (c == b'\n')) [
  | inl e ↦ rw e (inr (0, refl, refl))
  | inr e ↦ elim (find-replace_lf s h) [
    | inl (none_found, same) ↦ rw e (inl (ground arith, ground arith))
    | inr (i, c_at, l_at) ↦ rw e (inr (len_utf8 c + i, ground arith, ground arith))
  ]
]

choose_line_ending-next : (i : ℕ) → choose_line_ending (some i) (some (i + 1)) ≡ crlf
unfolding choose_line_ending
choose_line_ending-next i = ground arith

restore_line_endings-IsUniform :
    (raw : Text)
    → IsUniform raw
    → restore_line_endings (normalize_to_lf raw) (detect_line_ending raw) ≡ raw
unfolding normalize_to_lf detect_line_ending restore_line_endings choose_line_ending
restore_line_endings-IsUniform raw (inl h) =
    rw (find_crlf-none raw h, replace_crlf-id raw h, replace_cr-id raw h) refl
restore_line_endings-IsUniform raw (inr (text, h, e)) =
    let back : replace_cr (replace_crlf (replace_lf text)) ≡ text =
      rw (replace_crlf-replace_lf text h) (replace_cr-id text h) in
    rw (← e) (elim (find-replace_lf text h) [
      | inl (none_found, same) ↦ rw (none_found, back) (sym same)
      | inr (i, c_at, l_at) ↦
          rw (c_at, l_at, back)
            (ap (λ ending. restore_line_endings text ending) (choose_line_ending-next i))
    ])

normalize_to_lf-bom :
    (s : Text) → normalize_to_lf (byte_order_mark ∷ s) ≡ byte_order_mark ∷ normalize_to_lf s
unfolding normalize_to_lf replace_crlf replace_cr
normalize_to_lf-bom s = refl

restore_line_endings-bom :
    (s : Text) (ending : LineEnding)
    → restore_line_endings (byte_order_mark ∷ s) ending
      ≡ byte_order_mark ∷ restore_line_endings s ending
unfolding restore_line_endings replace_lf
restore_line_endings-bom s lf = refl
restore_line_endings-bom s crlf = refl

split_bom-cases :
    (raw : Text)
    → (split_bom raw ≡ (false, raw))
      ⊎ ((s : Text) × (byte_order_mark ∷ s ≡ raw) × (split_bom raw ≡ (true, s)))
unfolding split_bom strip_prefix
split_bom-cases [] = inl refl
split_bom-cases (c ∷ s) = elim (Bool-cases (byte_order_mark == c)) [
  | inl e ↦ inr (s, ap (λ x. x ∷ s) (ground arith), ground arith)
  | inr e ↦ inl (ground arith)
]

encode-shape_with :
    (ending : LineEnding) (raw : Text)
    → encode (shape_with ending (split_bom raw)) ((shape_with ending (split_bom raw)).text)
      ≡ into_bytes (restore_line_endings (normalize_to_lf raw) ending)
unfolding encode
encode-shape_with ending raw = elim (split_bom-cases raw) [
  | inl e ↦ rw e refl
  | inr (s, marked, e) ↦
      rw (e, ← marked, normalize_to_lf-bom s)
        (ap into_bytes (sym (restore_line_endings-bom (normalize_to_lf s) ending)))
]

-- A file that is read as text, and that has either no "\r" at all or one in front of each "\n" and none
-- elsewhere, is what `encode` writes for the text that was read: the byte-order mark and the line endings
-- are put back.
pub encode-from_bytes :
    (bytes : Bytes) (raw : Text) (shape : TextShape)
    → from_utf8 bytes ≡ some raw
    → IsUniform raw
    → from_bytes bytes ≡ ok shape
    → encode shape shape.text ≡ bytes
unfolding from_bytes shape_of
encode-from_bytes bytes raw shape valid uniform h =
    let (u, e, h') = bind-eq-ok (reject_binary (binary_byte bytes)) _ h in
    let (raw', read, h'') = bind-eq-ok (ok_or (from_utf8 bytes) not_utf8) _ h' in
    let same : raw ≡ raw' = cc (ok_or-eq-ok (from_utf8 bytes) not_utf8 read) in
    subst (λ (s : TextShape). encode s s.text ≡ bytes) (ap shape_of same ∙ ok-injective h'')
      (encode-shape_with (detect_line_ending raw) raw
        ∙ ap into_bytes (restore_line_endings-IsUniform raw uniform)
        ∙ into_bytes-from_utf8 bytes raw valid)
