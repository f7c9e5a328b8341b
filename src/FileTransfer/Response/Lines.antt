-- ===== src/FileTransfer/Response/Lines.antt =====
-- What the head of a response of file_transfer.rs reads as, split at its line ends.
use remote_executor.Base.{
  ℕ, zero, suc, ◌/◌, ◌%◌, ◌≡◌, refl, ap, ◌∙◌, Bool, false, ◌||◌, List, [], ◌∷◌, ◌++◌, map, ◌==◌,
  ltb, if-lem, All, arith,
}
use remote_executor.Text.{Text, codes, cons_head}
use remote_executor.Text.Decimal.{decimal, digits_of, digit_char}
use remote_executor.FileTransfer.Request.{split_crlf_from, split_crlf}
use remote_executor.FileTransfer.Response.{
  sanitize_header_value, reason_phrase, line_end, header_text, header_texts, status_line,
  response_head,
}

unfoldable pub has_return : Text → Bool
has_return [] = false
has_return (c ∷ s) = c == b'\r' || has_return s

has_return-append :
    (s t : Text) → has_return s ≡ false → has_return t ≡ false → has_return (s ++ t) ≡ false
unfolding has_return
has_return-append [] t h k = k
has_return-append (c ∷ s) t h k = ground (arith, has_return-append s t)

sanitize_header_value-has_return : (s : Text) → has_return (sanitize_header_value s) ≡ false
unfolding has_return sanitize_header_value
sanitize_header_value-has_return [] = refl
sanitize_header_value-has_return (c ∷ s) = ground (arith, sanitize_header_value-has_return s)

digit_char-ne_return : (d : ℕ) → (digit_char d == b'\r') ≡ false
digit_char-ne_return d = ground arith

digits_of-has_return :
    (base fuel n : ℕ) (done : Text)
    → has_return done ≡ false
    → has_return (digits_of base fuel n done) ≡ false
unfolding has_return digits_of
digits_of-has_return base zero n done h = h
digits_of-has_return base (suc fuel) n done h =
    if-lem (λ s. has_return s ≡ false) (ltb n base) (ground (arith, digit_char-ne_return n))
      (digits_of-has_return base fuel (n / base) _
        (ground (arith, digit_char-ne_return (n % base))))

decimal-has_return : (n : ℕ) → has_return (decimal n) ≡ false
unfolding decimal has_return
decimal-has_return n = digits_of-has_return 10 39 n [] refl

reason_phrase-has_return : (status : ℕ) → has_return (reason_phrase status) ≡ false
unfolding has_return reason_phrase
reason_phrase-has_return status = if-lem Plain (status == 200) refl (
    if-lem Plain (status == 400) refl (
      if-lem Plain (status == 404) refl (
        if-lem Plain (status == 405) refl (
          if-lem Plain (status == 409) refl
            (if-lem Plain (status == 411) refl (if-lem Plain (status == 416) refl refl))))))
  where
    Plain : Text → Type 0
    Plain s = has_return s ≡ false

split_crlf_from-plain :
    (c : ℕ) (s : Text)
    → (c == b'\r') ≡ false
    → split_crlf_from false (c ∷ s) ≡ cons_head c (split_crlf_from false s)
unfolding split_crlf_from
split_crlf_from-plain c s h = rw (h, split_crlf_from) refl

-- A line that has no carriage return is split off whole.
split_crlf_from-line :
    (line rest : Text)
    → has_return line ≡ false
    → split_crlf_from false (line ++ (line_end ++ rest)) ≡ line ∷ split_crlf_from false rest
unfolding has_return split_crlf_from
split_crlf_from-line [] rest h = refl
split_crlf_from-line (c ∷ line) rest h =
    split_crlf_from-plain c (line ++ (line_end ++ rest)) (ground arith)
    ∙ ap (cons_head c) (split_crlf_from-line line rest (ground arith))

header_texts-lines :
    (headers : List (Text × Text))
    → All (λ header. has_return header.0 ≡ false) headers
    → split_crlf (header_texts headers) ≡ map header_text headers ++ ([] ∷ [] ∷ [])
unfolding split_crlf has_return
header_texts-lines [] h = refl
header_texts-lines ((key, value) ∷ headers) (h, hs) =
    split_crlf_from-line (header_text (key, value)) (header_texts headers) (
      has_return-append key _ h (
        has_return-append (codes ": ") (sanitize_header_value value) refl
          (sanitize_header_value-has_return value)))
    ∙ ap (◌∷◌ (header_text (key, value))) (header_texts-lines headers hs)

status_line-has_return : (status : ℕ) → has_return (status_line status) ≡ false
unfolding has_return
status_line-has_return status =
    has_return-append (codes "HTTP/1.1 ") (decimal status ++ (codes " " ++ reason_phrase status))
      refl
      (has_return-append (decimal status) (codes " " ++ reason_phrase status)
        (decimal-has_return status)
        (has_return-append (codes " ") (reason_phrase status) refl
          (reason_phrase-has_return status)))

-- Split at the line ends, the head of a response is the status line, "Connection: close", one line for each
-- header and the empty line that ends it, whatever the values hold: where no key has a carriage return.
pub response_head-lines :
    (status : ℕ) (headers : List (Text × Text))
    → All (λ header. has_return header.0 ≡ false) headers
    → split_crlf (response_head status headers)
      ≡ status_line status ∷ codes "Connection: close" ∷ (map header_text headers ++ ([] ∷ [] ∷ []))
unfolding response_head split_crlf has_return
response_head-lines status headers h =
    split_crlf_from-line (status_line status) _ (status_line-has_return status)
    ∙ ap (◌∷◌ (status_line status)) (
        split_crlf_from-line (codes "Connection: close") (header_texts headers) refl
        ∙ ap (◌∷◌ (codes "Connection: close")) (header_texts-lines headers h))
