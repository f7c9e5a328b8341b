-- ===== src/FileAction/Hex/Boundaries.antt =====
-- Where `decode_hex` slices its digits: byte offsets that need not be character boundaries.
use mathlib.Core.Path.{subst}
use remote_executor.Base.{
  ℕ, zero, suc, ◌+◌, ◌*◌, ◌/◌, ◌%◌, ◌≤◌, ◌<◌, ◌≡◌, ◌≢◌, refl, ap, ◌∙◌, Bool, false, none, some, inl,
  inr, List, [], ◌∷◌, append-nil, arith, length, length-drop, take, drop, All, All-append,
  Bool-cases, ◌==◌, not,
}
use remote_executor.Base.Outcome.{
  ok, panic, or_panic, ok_or, reject_if, bind-ne-panic, bind-eq-ok, ok_or-ne-panic, ok_or-eq-ok,
  reject_if-ne-panic, ok-injective,
}
use remote_executor.Text.{Text, split, cons_head, byte_len, drop_bytes, take_bytes, slice_bytes}
use remote_executor.Text.Number.{from_str_radix, from_str_radix-le}
use remote_executor.FileAction.Types.{Bytes, invalid_hex_byte, odd_hex_digits}
use remote_executor.FileAction.Hex.{
  is_hex_separator, strip_hex_prefix, join_parts, compact_hex, hex_bytes, decode_hex,
}
use remote_executor.FileAction.Hex.RoundTrip.{IsAscii, byte_len-ascii}

All-drop {ℓ κ} : {A : Type ℓ} (P : A → Type κ) (n : ℕ) (xs : List A) → All P xs → All P (drop n xs)
All-drop P zero xs h = h
All-drop P (suc n) [] h = tt
All-drop P (suc n) (x ∷ xs) (p, h) = All-drop P n xs h

drop_bytes-drop : (n : ℕ) (s : Text) → IsAscii s → n ≤ length s → drop_bytes n s ≡ some (drop n s)
unfolding drop_bytes
drop_bytes-drop zero [] a h = refl
drop_bytes-drop zero (c ∷ s) a h = refl
drop_bytes-drop (suc n) [] a h = absurd (omega arith)
drop_bytes-drop (suc n) (c ∷ s) (ac, a) h = ground (arith, drop_bytes-drop n s a (omega arith))

take_bytes-take : (n : ℕ) (s : Text) → IsAscii s → n ≤ length s → take_bytes n s ≡ some (take n s)
unfolding take_bytes
take_bytes-take zero [] a h = refl
take_bytes-take zero (c ∷ s) a h = refl
take_bytes-take (suc n) [] a h = absurd (omega arith)
take_bytes-take (suc n) (c ∷ s) (ac, a) h = ground (arith, take_bytes-take n s a (omega arith))

slice_bytes-ascii :
    (s : Text) (i k : ℕ)
    → IsAscii s
    → i + k ≤ length s
    → slice_bytes s i (i + k) ≡ some (take k (drop i s))
unfolding slice_bytes
slice_bytes-ascii s i k a h = ground (
  arith,
  drop_bytes-drop i s a (omega arith),
  take_bytes-take k (drop i s) (All-drop _ i s a) (omega (arith, length-drop i s)),
)

hex_bytes-ne-panic :
    (s : Text) (i n : ℕ) → IsAscii s → i + 2 * n ≤ length s → hex_bytes s i n ≢ panic
unfolding hex_bytes
hex_bytes-ne-panic s i zero a h = λ p. cc
hex_bytes-ne-panic s i (suc n) a h = rw (slice_bytes-ascii s i 2 a (omega arith)) (
    bind-ne-panic (ok_or (from_str_radix 16 255 (take 2 (drop i s))) (invalid_hex_byte i)) _
      (ok_or-ne-panic _ _)
      (λ byte e.
        bind-ne-panic (hex_bytes s (i + 2) n) _ (hex_bytes-ne-panic s (i + 2) n a (omega arith))
          (λ rest e'. λ p. cc)))

cons_head-IsAscii :
    (c : ℕ) (ls : List Text) → c < 0x80 → All IsAscii ls → All IsAscii (cons_head c ls)
cons_head-IsAscii c [] h a = ((h, tt), tt)
cons_head-IsAscii c (l ∷ ls) h (al, a) = ((h, al), a)

split-IsAscii : (p : ℕ → Bool) (s : Text) → IsAscii s → All IsAscii (split p s)
unfolding split
split-IsAscii p [] a = (tt, tt)
split-IsAscii p (c ∷ s) (ac, a) = elim (Bool-cases (p c)) [
  | inl e ↦ rw e (tt, split-IsAscii p s a)
  | inr e ↦ rw e (cons_head-IsAscii c (split p s) ac (split-IsAscii p s a))
]

strip_hex_prefix-IsAscii : (s : Text) → IsAscii s → IsAscii (strip_hex_prefix s)
unfolding strip_hex_prefix
strip_hex_prefix-IsAscii [] a = tt
strip_hex_prefix-IsAscii (c ∷ []) a = ground arith
strip_hex_prefix-IsAscii (c ∷ d ∷ s) a = ground arith

join_parts-IsAscii : (parts : List Text) → All IsAscii parts → IsAscii (join_parts parts)
unfolding join_parts
join_parts-IsAscii [] a = tt
join_parts-IsAscii ([] ∷ parts) (ap, a) = join_parts-IsAscii parts a
join_parts-IsAscii ((c ∷ s) ∷ parts) (ap, a) =
    All-append _ (strip_hex_prefix (c ∷ s)) (join_parts parts) (strip_hex_prefix-IsAscii (c ∷ s) ap)
      (join_parts-IsAscii parts a)

-- On ASCII content `decode_hex` returns bytes or an error.
pub decode_hex-ne-panic : (text : Text) → IsAscii text → decode_hex text ≢ panic
unfolding decode_hex compact_hex
decode_hex-ne-panic text a =
    let compact = compact_hex text in
    let ca : IsAscii compact = join_parts-IsAscii _ (split-IsAscii is_hex_separator text a) in
    bind-ne-panic (reject_if (not (byte_len compact % 2 == 0)) odd_hex_digits) _
      (reject_if-ne-panic _ _)
      (λ u e.
        hex_bytes-ne-panic compact 0 (byte_len compact / 2) ca
          (omega (arith, byte_len-ascii compact ca)))

split-none :
    (s : Text) → All (λ c. is_hex_separator c ≡ false) s → split is_hex_separator s ≡ s ∷ []
unfolding split
split-none [] h = refl
split-none (c ∷ s) (hc, h) = ground (arith, split-none s h)

strip_hex_prefix-wide : (c : ℕ) (s : Text) → 0x800 ≤ c → strip_hex_prefix (c ∷ s) ≡ c ∷ s
unfolding strip_hex_prefix
strip_hex_prefix-wide c [] h = ground arith
strip_hex_prefix-wide c (d ∷ s) h = ground arith

slice_bytes-wide : (c : ℕ) (s : Text) → 0x800 ≤ c → slice_bytes (c ∷ s) 0 2 ≡ none
unfolding slice_bytes
slice_bytes-wide c s h = ground arith

compact_hex-wide :
    (c : ℕ) (s : Text)
    → 0x800 ≤ c
    → All (λ d. is_hex_separator d ≡ false) (c ∷ s)
    → compact_hex (c ∷ s) ≡ c ∷ s
unfolding compact_hex
compact_hex-wide c s h ns = rw (split-none (c ∷ s) ns) (append-nil _ ∙ strip_hex_prefix-wide c s h)

byte_len-wide : (c : ℕ) (s : Text) → 0x800 ≤ c → 2 ≤ byte_len (c ∷ s)
unfolding byte_len
byte_len-wide c s h = ground arith

hex_bytes-wide : (c : ℕ) (s : Text) (n : ℕ) → 0x800 ≤ c → 0 < n → hex_bytes (c ∷ s) 0 n ≡ panic
unfolding hex_bytes
hex_bytes-wide c s zero h pos = absurd (omega arith)
hex_bytes-wide c s (suc n) h pos = rw (slice_bytes-wide c s h)

-- Content without separators, of an even number of bytes, that starts with a character of three
-- or four bytes panics: the slice of the first two bytes ends inside that character.
pub decode_hex-panic :
    (c : ℕ) (s : Text)
    → 0x800 ≤ c
    → All (λ d. is_hex_separator d ≡ false) (c ∷ s)
    → byte_len (c ∷ s) % 2 ≡ 0
    → decode_hex (c ∷ s) ≡ panic
unfolding decode_hex
decode_hex-panic c s h ns even =
    rw (compact_hex-wide c s h ns, even)
      (hex_bytes-wide c s (byte_len (c ∷ s) / 2) h (omega (arith, byte_len-wide c s h)))

hex_bytes-bounds :
    (s : Text) (i n : ℕ) (bytes : Bytes)
    → hex_bytes s i n ≡ ok bytes
    → (length bytes ≡ n) × All (λ b. b < 256) bytes
unfolding hex_bytes
hex_bytes-bounds s i zero bytes h =
    subst (λ bs. (length bs ≡ 0) × All (λ b. b < 256) bs) (ok-injective h) (refl, tt)
hex_bytes-bounds s i (suc n) bytes h =
    let (digits, e, h') = bind-eq-ok (or_panic (slice_bytes s i (i + 2))) _ h in
    let (byte, read, h'') =
      bind-eq-ok (ok_or (from_str_radix 16 255 digits) (invalid_hex_byte i)) _ h' in
    let (rest, later, last) = bind-eq-ok (hex_bytes s (i + 2) n) _ h'' in
    let (size, small) = hex_bytes-bounds s (i + 2) n rest later in
    let fits = from_str_radix-le 16 255 digits byte (ok_or-eq-ok _ _ read) in
    subst (λ bs. (length bs ≡ suc n) × All (λ b. b < 256) bs) (ok-injective last)
      (ap suc size, (omega arith, small))

-- What is decoded are bytes, one for each two bytes of compacted text.
pub decode_hex-bytes :
    (text : Text) (bytes : Bytes)
    → decode_hex text ≡ ok bytes
    → (2 * length bytes ≡ byte_len (compact_hex text)) × All (λ b. b < 256) bytes
unfolding decode_hex
decode_hex-bytes text bytes h =
    let compact = compact_hex text in
    let (u, even, h') =
      bind-eq-ok (reject_if (not (byte_len compact % 2 == 0)) odd_hex_digits) _ h in
    let (size, small) = hex_bytes-bounds compact 0 (byte_len compact / 2) bytes h' in
    let parity : byte_len compact % 2 ≡ 0 = ground arith in (omega arith, small)
