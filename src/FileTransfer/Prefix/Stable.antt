-- ===== src/FileTransfer/Prefix/Stable.antt =====
-- The decision between a file transfer and a WebSocket does not change when more bytes arrive.
use remote_executor.Base.{
  ℕ, suc, ◌+◌, ◌≤◌, ◌≡◌, ◌≢◌, refl, sym, ap, Bool, true, false, ◌&&◌, ◌||◌, inl, inr, Option, none,
  some, List, [], ◌∷◌, ◌++◌, take, drop, take-append-drop, length, take-append_le, Bool-cases,
  Option-cases, ◌==◌, arith,
}
use mathlib.Core.Path.{subst}
use remote_executor.Text.{Text, starts_with, strip_prefix}
use remote_executor.FileTransfer.{Bytes, differs, need_more}
use remote_executor.FileTransfer.Prefix.{
  next_position, position, crlf, methods, path_part, is_candidate, is_possible_file_request_prefix,
  if_path, match_line, file_transfer_request_prefix,
}

starts_with-append : (p s t : Text) → starts_with p s ≡ true → starts_with p (s ++ t) ≡ true
unfolding starts_with
starts_with-append [] s t h = refl
starts_with-append (c ∷ p) [] t h = cc
starts_with-append (c ∷ p) (d ∷ s) t h = ground (arith, starts_with-append p s t)

-- Where the window is within the first part, the rest does not matter.
starts_with-append_le :
    (p s t : Text) → length p ≤ length s → starts_with p (s ++ t) ≡ starts_with p s
unfolding starts_with
starts_with-append_le [] s t h = refl
starts_with-append_le (c ∷ p) [] t h = absurd (omega arith)
starts_with-append_le (c ∷ p) (d ∷ s) t h =
    ap (λ b. c == d && b) (starts_with-append_le p s t (omega arith))

starts_with-length_le : (p s : Text) → starts_with p s ≡ true → length p ≤ length s
unfolding starts_with
starts_with-length_le [] s h = omega arith
starts_with-length_le (c ∷ p) [] h = cc
starts_with-length_le (c ∷ p) (d ∷ s) h = ground (arith, starts_with-length_le p s)

-- Of two beginnings of one text, one is a beginning of the other.
starts_with-comparable :
    (p s t : Text) → starts_with p (s ++ t) ≡ true → (starts_with s p || starts_with p s) ≡ true
unfolding starts_with
starts_with-comparable [] [] t h = refl
starts_with-comparable [] (d ∷ s) t h = refl
starts_with-comparable (c ∷ p) [] t h = refl
starts_with-comparable (c ∷ p) (d ∷ s) t h = ground (arith, starts_with-comparable p s t)

starts_with_trans : (s t p : Text) → starts_with (s ++ t) p ≡ true → starts_with s p ≡ true
unfolding starts_with
starts_with_trans [] t p h = refl
starts_with_trans (c ∷ s) t [] h = cc
starts_with_trans (c ∷ s) t (d ∷ p) h = ground (arith, starts_with_trans s t p)

-- A later occurrence is one in the rest.
next_position-cases :
    (o : Option ℕ) (i : ℕ) → next_position o ≡ some i → (j : ℕ) × (o ≡ some j) × (i ≡ suc j)
next_position-cases none i h = cc
next_position-cases (some j) i h = (j, refl, cc)

position-length_le :
    (pat bytes : Bytes) (i : ℕ) → position pat bytes ≡ some i → i + length pat ≤ length bytes
unfolding position
position-length_le pat [] i h = cc
position-length_le pat (b ∷ bytes) i h = elim (Bool-cases (starts_with pat (b ∷ bytes))) [
  | inl e ↦
      let first : ◌≡◌ {A = Option ℕ} (some 0) (some i) = rw e at h in
      let zero_eq : 0 ≡ i = cc in omega (arith, starts_with-length_le pat (b ∷ bytes) e)
  | inr e ↦
      let (j, at, i_eq) = next_position-cases (position pat bytes) i (rw e at h) in
      omega (arith, position-length_le pat bytes j at)
]

-- A first occurrence stays the first one.
position-append :
    (pat bytes more : Bytes) (i : ℕ)
    → position pat bytes ≡ some i
    → position pat (bytes ++ more) ≡ some i
unfolding position
position-append pat [] more i h = cc
position-append pat (b ∷ bytes) more i h = elim (Bool-cases (starts_with pat (b ∷ bytes))) [
  | inl e ↦ rw (starts_with-append pat (b ∷ bytes) more e) (rw e at h)
  | inr e ↦
      let (j, at, i_eq) = next_position-cases (position pat bytes) i (rw e at h) in
      let fits : length pat ≤ length (b ∷ bytes) =
        omega (arith, position-length_le pat bytes j at) in
      rw (starts_with-append_le pat (b ∷ bytes) more fits, e, position-append pat bytes more j at)
        (ap some (sym i_eq))
]

take-append_line :
    (bytes more : Bytes) (i : ℕ)
    → position crlf bytes ≡ some i
    → take i (bytes ++ more) ≡ take i bytes
take-append_line bytes more i h =
    take-append_le i bytes more (omega (arith, position-length_le crlf bytes i h))

-- Bytes that begin like a line with others behind them begin like it without.
touches-append :
    (bytes more line : Bytes)
    → (starts_with (bytes ++ more) line || starts_with line (bytes ++ more)) ≡ true
    → (starts_with bytes line || starts_with line bytes) ≡ true
touches-append bytes more line h = elim (Bool-cases (starts_with (bytes ++ more) line)) [
  | inl longer ↦ rw (starts_with_trans bytes more line longer) refl
  | inr e ↦ starts_with-comparable line bytes more (rw e at h)
]

is_candidate-append :
    (bytes more : Bytes) (words : List Text)
    → is_candidate bytes words ≡ false
    → is_candidate (bytes ++ more) words ≡ false
is_candidate-append bytes more [] h = h
is_candidate-append bytes more (method ∷ words) h =
    ground
      (arith, touches-append bytes more (method ++ path_part), is_candidate-append bytes more words)

starts_with-strip_prefix :
    (p q s after : Text)
    → strip_prefix p s ≡ some after
    → starts_with q after ≡ true
    → starts_with (p ++ q) s ≡ true
unfolding starts_with strip_prefix
starts_with-strip_prefix [] q s after h k = let same : s ≡ after = cc in rw same k
starts_with-strip_prefix (c ∷ p) q [] after h k = cc
starts_with-strip_prefix (c ∷ p) q (d ∷ s) after h k =
    ground (arith, starts_with-strip_prefix p q s after)

if_path-true : (b : Bool) → if_path b ≢ differs → b ≡ true
if_path-true true h = refl
if_path-true false h = absurd (h refl)

or_left : (a b : Bool) → (a || b) ≡ false → a ≡ false
or_left a b h = ground arith

or_right : (a b : Bool) → (a || b) ≡ false → b ≡ false
or_right a b h = ground arith

apart : {a : Bool} → a ≡ false → a ≢ true
apart h = λ p. cc

-- No line of bytes that are no candidate names a file transfer.
match_line-differs :
    (bytes more : Bytes) (i : ℕ) (words : List Text)
    → is_candidate bytes words ≡ false
    → match_line (take i (bytes ++ more)) words ≡ differs
match_line-differs bytes more i [] h = refl
match_line-differs bytes more i (method ∷ words) h =
    let line = take i (bytes ++ more) in
    elim (Option-cases (strip_prefix method line)) [
      | inl e ↦ rw e (match_line-differs bytes more i words (or_right _ _ h))
      | inr (after, e) ↦ elim (Bool-cases (starts_with path_part after)) [
        | inr e' ↦ rw (e, e') refl
        | inl e' ↦
            let whole : starts_with (method ++ path_part) (bytes ++ more) ≡ true =
              subst (λ s. starts_with (method ++ path_part) s ≡ true)
                (take-append-drop i (bytes ++ more))
                (starts_with-append (method ++ path_part) line (drop i (bytes ++ more))
                  (starts_with-strip_prefix method path_part line after e e')) in
            let touches = starts_with-comparable (method ++ path_part) bytes more whole in
            absurd (apart (or_left _ _ h) touches)
      ]
    ]

-- Once the first bytes of a connection decide whether it is a file transfer, those that follow do not change
-- the decision.
pub file_transfer_request_prefix-append :
    (bytes more : Bytes)
    → file_transfer_request_prefix bytes ≢ need_more
    → file_transfer_request_prefix (bytes ++ more) ≡ file_transfer_request_prefix bytes
unfolding file_transfer_request_prefix is_possible_file_request_prefix
file_transfer_request_prefix-append bytes more h = elim (Option-cases (position crlf bytes)) [
  | inr (i, e) ↦
      rw (e, position-append crlf bytes more i e) (rw (take-append_line bytes more i e) refl)
  | inl e ↦ elim (Bool-cases (is_candidate bytes methods)) [
    | inl possible ↦ absurd (h (rw (e, possible) refl))
    | inr e' ↦ elim (Option-cases (position crlf (bytes ++ more))) [
      | inl e'' ↦ rw (e, e', e'', is_candidate-append bytes more methods e') refl
      | inr (i, e'') ↦ rw (e, e', e'') (match_line-differs bytes more i methods e')
    ]
  ]
]
