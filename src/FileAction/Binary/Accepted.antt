-- ===== src/FileAction/Binary/Accepted.antt =====
-- What `parse_binary_patch` accepts, and the whole path from patch text to new bytes.
use mathlib.Core.Path.{subst}
use remote_executor.Base.{
  ℕ, suc, ◌+◌, ◌≤◌, ◌<◌, ◌≡◌, ◌≢◌, inl, inr, Option, none, some, List, [], ◌∷◌, map, arith, length,
  All, sum, ◌==◌, Bool-cases,
}
use remote_executor.Base.Outcome.{ok, ◌>>=◌, reject_if, bind-eq-ok, ok-injective}
use remote_executor.Text.{Text, lines, is_empty, trim, trim_end_matches}
use remote_executor.FileAction.Types.{Bytes, BinaryHunk, BinaryPatchApplied, old_envelope}
use remote_executor.FileAction.Binary.{usize_mod, apply_binary_hunks}
use remote_executor.FileAction.Binary.Totals.{HasBody}
use remote_executor.FileAction.Binary.Laws.{apply_binary_hunks-length}
use remote_executor.FileAction.Binary.Parse.{
  ensure_binary_body_len, parse_delete_hunk, parse_append_hunk, parse_replace_hunk,
  dispatch_instruction, parse_instruction, parse_hunks, has_envelope, parse_binary_patch,
}

-- A hunk of instruction number `order` with the body that its instruction declares.
abbrev pub IsAccepted : ℕ → BinaryHunk → Type 0
IsAccepted order hunk = HasBody hunk × (hunk.order ≡ order)

parse_delete_hunk-IsAccepted :
    (rest : Text) (order : ℕ) (hunk : BinaryHunk)
    → parse_delete_hunk rest order ≡ ok hunk
    → IsAccepted order hunk
unfolding parse_delete_hunk
parse_delete_hunk-IsAccepted rest order hunk h = ground arith

parse_append_hunk-IsAccepted :
    (rest line : Text) (order : ℕ) (hunk : BinaryHunk)
    → parse_append_hunk rest line order ≡ ok hunk
    → IsAccepted order hunk
unfolding parse_append_hunk ensure_binary_body_len
parse_append_hunk-IsAccepted rest line order hunk h = ground arith

parse_replace_hunk-IsAccepted :
    (span hex line : Text) (order : ℕ) (hunk : BinaryHunk)
    → parse_replace_hunk span hex line order ≡ ok hunk
    → IsAccepted order hunk
unfolding parse_replace_hunk ensure_binary_body_len
parse_replace_hunk-IsAccepted span hex line order hunk h = ground arith

dispatch_instruction-IsAccepted :
    (d a : Option Text) (r : Option (Text × Text)) (line : Text) (order : ℕ) (hunk : BinaryHunk)
    → dispatch_instruction d a r line order ≡ ok hunk
    → IsAccepted order hunk
unfolding dispatch_instruction
dispatch_instruction-IsAccepted (some rest) a r line order hunk h =
    parse_delete_hunk-IsAccepted rest order hunk h
dispatch_instruction-IsAccepted none (some rest) r line order hunk h =
    parse_append_hunk-IsAccepted rest line order hunk h
dispatch_instruction-IsAccepted none none (some (span, hex)) line order hunk h =
    parse_replace_hunk-IsAccepted span hex line order hunk h
dispatch_instruction-IsAccepted none none none line order hunk h = cc

parse_instruction-IsAccepted :
    (line trimmed : Text) (order : ℕ) (hunk : BinaryHunk)
    → parse_instruction line trimmed order ≡ ok hunk
    → IsAccepted order hunk
unfolding parse_instruction
parse_instruction-IsAccepted line trimmed order hunk h =
    dispatch_instruction-IsAccepted _ _ _ line order hunk h

-- Hunks numbered upwards from `order`, each with its declared body.
abbrev pub AreAccepted : ℕ → List BinaryHunk → Type 0
AreAccepted order [] = Unit
AreAccepted order (hunk ∷ hunks) =
    HasBody hunk × (order ≤ hunk.order) × AreAccepted (suc hunk.order) hunks

AreAccepted-le :
    (hunks : List BinaryHunk) {m n : ℕ} → m ≤ n → AreAccepted n hunks → AreAccepted m hunks
AreAccepted-le [] h a = tt
AreAccepted-le (hunk ∷ hunks) h (b, o, a) = (b, omega arith, a)

AreAccepted-HasBody : (hunks : List BinaryHunk) (n : ℕ) → AreAccepted n hunks → All HasBody hunks
AreAccepted-HasBody [] n a = tt
AreAccepted-HasBody (hunk ∷ hunks) n (b, o, a) = (b, AreAccepted-HasBody hunks (suc hunk.order) a)

parse_hunks-AreAccepted :
    (texts : List Text) (order : ℕ) (hunks : List BinaryHunk)
    → parse_hunks texts order ≡ ok hunks
    → AreAccepted order hunks
unfolding parse_hunks
parse_hunks-AreAccepted [] order hunks h = subst (AreAccepted order) (ok-injective h) tt
parse_hunks-AreAccepted (raw ∷ rest) order hunks h =
    let line = trim_end_matches (λ c. c == b'\r') raw in
    elim (Bool-cases (is_empty (trim line))) [
      | inl blank ↦
          AreAccepted-le hunks (omega arith)
            (parse_hunks-AreAccepted rest (suc order) hunks (rw (blank, parse_hunks) at h))
      | inr full ↦
          let h0 : (do
            hunk ← parse_instruction line (trim line) order
            later ← parse_hunks rest (suc order)
            ok (hunk ∷ later))
              ≡ ok hunks =
            rw (full, parse_hunks) at h in
          let (hunk, e, h') = bind-eq-ok (parse_instruction line (trim line) order) _ h0 in
          let (later, e', h'') = bind-eq-ok (parse_hunks rest (suc order)) _ h' in
          let (body, number) = parse_instruction-IsAccepted line (trim line) order hunk e in
          let next = parse_hunks-AreAccepted rest (suc order) later e' in
          subst (AreAccepted order) (ok-injective h'')
            (body, omega arith, AreAccepted-le later (omega arith) next)
    ]

-- An accepted patch text has at least one hunk; the hunks are numbered upwards, and each holds as
-- many bytes as its instruction declares.
pub parse_binary_patch-AreAccepted :
    (patch_text : Text) (hunks : List BinaryHunk)
    → parse_binary_patch patch_text ≡ ok hunks
    → (hunks ≢ []) × AreAccepted 0 hunks
unfolding parse_binary_patch
parse_binary_patch-AreAccepted patch_text hunks h =
    let (u, envelope, h') =
      bind-eq-ok (reject_if (has_envelope (lines patch_text)) old_envelope) _ h in
    let (found, e, h'') = bind-eq-ok (parse_hunks (lines patch_text) 0) _ h' in
    let same : found ≡ hunks = ground arith in
    (
      ground arith,
      subst (AreAccepted 0) same (parse_hunks-AreAccepted (lines patch_text) 0 found e),
    )

-- From patch text to file: whatever the text, if it parses and applies then the new size is the
-- old size less the reported deletions plus the reported additions. The file and the decoded
-- bodies are below 2 ^ 64 bytes.
pub binary_patch_length :
    (bytes : Bytes) (patch_text : Text) (hunks : List BinaryHunk) (r : BinaryPatchApplied)
    → length bytes < usize_mod
    → sum (map (λ hunk. length hunk.bytes) hunks) < usize_mod
    → parse_binary_patch patch_text ≡ ok hunks
    → apply_binary_hunks bytes hunks ≡ ok r
    → length r.bytes + r.deletions ≡ length bytes + r.additions
binary_patch_length bytes patch_text hunks r small few parsed applied =
    apply_binary_hunks-length bytes hunks small few
      (AreAccepted-HasBody hunks 0 (parse_binary_patch-AreAccepted patch_text hunks parsed).1)
      applied
