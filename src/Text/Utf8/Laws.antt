-- ===== src/Text/Utf8/Laws.antt =====
-- What `from_utf8` reads is encoded again as the bytes it was read from.
use remote_executor.Base.{
  ℕ, zero, suc, ◌+◌, ◌-◌, ◌*◌, ◌≤◌, ◌<◌, ◌≡◌, refl, ap, ◌∙◌, ◌&&◌, Option, none, some, inl, inr,
  List, [], ◌∷◌, ◌++◌, append_assoc, arith, ltb, leb, ◌==◌, Bool-cases,
}
use remote_executor.Text.Utf8.{
  encode_char, into_bytes, Utf8State, boundary, invalid, inside, lead, cons_char, decode, from_utf8,
  IsState, two_bytes, three_bytes, four_bytes,
}

lead-IsState : (b : ℕ) → 0x80 ≤ b → IsState (b ∷ []) (lead b)
unfolding lead
lead-IsState b h = elim (Bool-cases (leb 0xc2 b && leb b 0xdf)) [
  | inl e ↦ rw e (λ c lc hc.
      two_bytes (b - 0xc0) c (ground arith) (ground arith) lc hc
      ∙ ap (λ x. x ∷ c ∷ []) (ground arith))
  | inr e ↦ elim (Bool-cases (b == 0xe0)) [
    | inl e1 ↦
        rw (e, e1)
          (λ c lc hc d ld hd.
            three_bytes 0 c d (omega arith) (omega arith) hc (omega arith) ld hd
            ∙ ap (λ x. x ∷ c ∷ d ∷ []) (ground arith))
    | inr e1 ↦ elim (Bool-cases (b == 0xed)) [
      | inl e2 ↦
          rw (e, e1, e2)
            (λ c lc hc d ld hd.
              three_bytes 0xd c d (omega arith) lc (omega arith) (omega arith) ld hd
              ∙ ap (λ x. x ∷ c ∷ d ∷ []) (ground arith))
      | inr e2 ↦ elim (Bool-cases (leb 0xe1 b && leb b 0xef)) [
        | inl e3 ↦
            rw (e, e1, e2, e3)
              (λ c lc hc d ld hd.
                three_bytes (b - 0xe0) c d (ground arith) lc hc (ground arith) ld hd
                ∙ ap (λ x. x ∷ c ∷ d ∷ []) (ground arith))
        | inr e3 ↦ elim (Bool-cases (b == 0xf0)) [
          | inl e4 ↦
              rw (e, e1, e2, e3, e4)
                (λ c lc hc d ld hd f lf hf.
                  four_bytes 0 c d f (omega arith) (omega arith) hc (omega arith) ld hd lf hf
                  ∙ ap (λ x. x ∷ c ∷ d ∷ f ∷ []) (ground arith))
          | inr e4 ↦ elim (Bool-cases (leb 0xf1 b && leb b 0xf3)) [
            | inl e5 ↦
                rw (e, e1, e2, e3, e4, e5)
                  (λ c lc hc d ld hd f lf hf.
                    four_bytes (b - 0xf0) c d f (ground arith) lc hc (ground arith) ld hd lf hf
                    ∙ ap (λ x. x ∷ c ∷ d ∷ f ∷ []) (ground arith))
            | inr e5 ↦ elim (Bool-cases (b == 0xf4)) [
              | inl e6 ↦
                  rw (e, e1, e2, e3, e4, e5, e6)
                    (λ c lc hc d ld hd f lf hf.
                      four_bytes 4 c d f (omega arith) lc (omega arith) (omega arith) ld hd lf hf
                      ∙ ap (λ x. x ∷ c ∷ d ∷ f ∷ []) (ground arith))
              | inr e6 ↦ rw (e, e1, e2, e3, e4, e5, e6) tt
            ]
          ]
        ]
      ]
    ]
  ]
]

cons_char-eq_some :
    (c : ℕ) (o : Option (List ℕ)) {s : List ℕ}
    → cons_char c o ≡ some s
    → (rest : List ℕ) × (o ≡ some rest) × (c ∷ rest ≡ s)
cons_char-eq_some c none h = cc
cons_char-eq_some c (some rest) h = (rest, refl, cc)

encode_char-ascii : (b : ℕ) → b < 0x80 → encode_char b ≡ b ∷ []
unfolding encode_char
encode_char-ascii b h = ground arith

decode-into_bytes :
    (bytes seen : List ℕ) (state : Utf8State) (s : List ℕ)
    → IsState seen state
    → decode bytes state ≡ some s
    → into_bytes s ≡ seen ++ bytes
unfolding decode into_bytes
decode-into_bytes [] seen boundary s i h = let same : s ≡ [] = cc in rw (same, i) refl
decode-into_bytes [] seen invalid s i h = cc
decode-into_bytes [] seen (inside acc more low high) s i h = cc
decode-into_bytes (b ∷ bytes) seen boundary s i h = elim (Bool-cases (ltb b 0x80)) [
  | inl e ↦
      let (rest, later, same) = cons_char-eq_some b (decode bytes boundary) (rw (e, decode) at h) in
      let ih = decode-into_bytes bytes [] boundary rest refl later in
      rw (← same, i, encode_char-ascii b (ground arith), ih) refl
  | inr e ↦ rw i (
      decode-into_bytes bytes (b ∷ []) (lead b) s (lead-IsState b (ground arith))
        (rw (e, decode) at h))
]
decode-into_bytes (b ∷ bytes) seen invalid s i h = cc
decode-into_bytes (b ∷ bytes) seen (inside acc zero low high) s i h =
    elim (Bool-cases (leb low b && leb b high)) [
      | inl e ↦
          let (rest, later, same) =
            cons_char-eq_some (acc * 64 + (b - 0x80)) (decode bytes boundary)
              (rw (e, decode) at h) in
          let ih = decode-into_bytes bytes [] boundary rest refl later in
          rw (← same, i b (ground arith) (ground arith), ih) (append_assoc seen (b ∷ []) bytes)
      | inr e ↦ let stop : none ≡ some s = rw (e, decode) at h in cc
    ]
decode-into_bytes (b ∷ bytes) seen (inside acc (suc more) low high) s i h =
    elim (Bool-cases (leb low b && leb b high)) [
      | inl e ↦
          decode-into_bytes bytes (seen ++ (b ∷ [])) _ s (i b (ground arith) (ground arith))
            (rw (e, decode) at h)
          ∙ append_assoc seen (b ∷ []) bytes
      | inr e ↦ let stop : none ≡ some s = rw (e, decode) at h in cc
    ]

-- Bytes that are valid UTF-8 are the encoding of the text that they are read as.
pub into_bytes-from_utf8 : (bytes s : List ℕ) → from_utf8 bytes ≡ some s → into_bytes s ≡ bytes
unfolding from_utf8
into_bytes-from_utf8 bytes s h = decode-into_bytes bytes [] boundary s refl h
