-- ===== src/FileTransfer/Body/Received.antt =====
-- What `receive_upload_body` of file_transfer.rs leaves in the temporary file.
use remote_executor.Base.{
  ℕ, ◌-◌, ◌≤◌, ◌≡◌, sym, ap, ◌∙◌, min, inl, inr, Option, some, List, [], ◌∷◌, ◌++◌, append_assoc,
  if◌then◌else◌, ltb, ltb→le, length, take, length-append, length-take, take-append_le, take_all,
  take-append_ge, take-min_le, take-take-append, All, Bool-cases, arith,
}
use remote_executor.Base.Steps.{continue-lem}
use remote_executor.Base.Outcome.{Outcome, ok, err, panic, map_err-eq-ok}
use remote_executor.Text.{Text, codes, is_empty}
use remote_executor.Text.Decimal.{decimal}
use remote_executor.FileTransfer.{
  Bytes, chunk_size, HttpRequest, Read, got, failed, TransferFiles, TransferEnv,
}
use remote_executor.FileTransfer.Laws.{DiskLaws}
use remote_executor.FileTransfer.Response.{sha256_from_digest}
use remote_executor.FileTransfer.Body.{
  receive_rest, receive_initial, receive_upload_body, with_message,
}

-- the bytes that the reads give until one fails
unfoldable pub arrived : List Read → Bytes
arrived [] = []
arrived (got bytes ∷ reads) = bytes ++ arrived reads
arrived (failed e ∷ reads) = []

-- a read fills at most its buffer
abbrev pub FitsBuffer : Read → Type 0
FitsBuffer (got bytes) = length bytes ≤ chunk_size
FitsBuffer (failed e) = Unit

module _ {S : Type 0} (files : TransferFiles S) (content : S → Text → Option Bytes)
    (laws : DiskLaws files content) (env : TransferEnv) (temp : Text) (n : ℕ) where
  -- After a success the temporary file holds the first `n` of `all`, the answer is their hash, and
  -- there are that many.
  abbrev pub Stored : Bytes → Outcome Text Text × S → Type 0
  Stored all (ok sha, st) =
      (content st temp ≡ some (take n all))
      × (sha ≡ sha256_from_digest (env.sha256 (take n all)))
      × (n ≤ length all)
  Stored all (err e, st) = Unit
  Stored all (panic, st) = Unit

  Stored-congr :
      (a b : Bytes) (r : Outcome Text Text × S)
      → take n a ≡ take n b
      → length a ≤ length b
      → Stored a r
      → Stored b r
  Stored-congr a b (ok sha, st) e l (c, h, m) =
      (c ∙ ap some e, h ∙ ap (λ p. sha256_from_digest (env.sha256 p)) e, omega arith)
  Stored-congr a b (err x, st) e l h = tt
  Stored-congr a b (panic, st) e l h = tt

  complete :
      (st : S) (hashed rest : Bytes)
      → content st temp ≡ some hashed
      → length hashed ≤ n
      → n ≤ length hashed
      → Stored (hashed ++ rest) (ok (sha256_from_digest (env.sha256 hashed)), st)
  complete st hashed rest c l m =
      let e : take n (hashed ++ rest) ≡ hashed =
        take-append_le n hashed rest m ∙ take_all n hashed l in
      (
        c ∙ ap some (sym e),
        ap (λ p. sha256_from_digest (env.sha256 p)) (sym e),
        omega (arith, length-append hashed rest),
      )

  chunk_eq :
      (hashed arrived rest : Bytes)
      → length hashed ≤ n
      → length arrived ≤ chunk_size
      → take n ((hashed ++ take (min (n - length hashed) chunk_size) arrived) ++ rest)
        ≡ take n (hashed ++ (arrived ++ rest))
  chunk_eq hashed arrived rest l fits =
      let m = n - length hashed in
      ap (λ c. take n ((hashed ++ c) ++ rest)) (take-min_le m chunk_size arrived fits)
      ∙ ap (take n) (append_assoc hashed (take m arrived) rest)
      ∙ take-append_ge n hashed (take m arrived ++ rest) l
      ∙ ap (hashed ++◌) (take-take-append m arrived rest)
      ∙ sym (take-append_ge n hashed (arrived ++ rest) l)

  length-chunk_le :
      (hashed arrived : Bytes)
      → length hashed ≤ n
      → length (hashed ++ take (min (n - length hashed) chunk_size) arrived) ≤ n
  length-chunk_le hashed arrived l = omega (
    arith,
    length-append hashed (take (min (n - length hashed) chunk_size) arrived),
    length-take (min (n - length hashed) chunk_size) arrived,
  )

  length-chunk_more :
      (hashed arrived rest : Bytes)
      → length ((hashed ++ take (min (n - length hashed) chunk_size) arrived) ++ rest)
        ≤ length (hashed ++ (arrived ++ rest))
  length-chunk_more hashed arrived rest =
      let chunk = take (min (n - length hashed) chunk_size) arrived in
      omega (
        arith,
        length-append (hashed ++ chunk) rest,
        length-append hashed chunk,
        length-append hashed (arrived ++ rest),
        length-append arrived rest,
        length-take (min (n - length hashed) chunk_size) arrived,
      )

  receive_rest-Stored :
      (st : S) (hashed : Bytes) (reads : List Read)
      → All FitsBuffer reads
      → content st temp ≡ some hashed
      → length hashed ≤ n
      → Stored (hashed ++ arrived reads) (receive_rest files env temp n st hashed reads)
  unfolding receive_rest arrived
  receive_rest-Stored st hashed [] fits c l = elim (Bool-cases (ltb (length hashed) n)) [
    | inl e ↦ rw e tt
    | inr e ↦ rw e (complete st hashed [] c l (ltb→le (length hashed) n e))
  ]
  receive_rest-Stored st hashed (failed x ∷ reads) fits c l =
      elim (Bool-cases (ltb (length hashed) n)) [
        | inl e ↦ rw e tt
        | inr e ↦ rw e (complete st hashed [] c l (ltb→le (length hashed) n e))
      ]
  receive_rest-Stored st hashed (got piece ∷ reads) (fit, fits) c l =
      elim (Bool-cases (ltb (length hashed) n)) [
        | inr e ↦
            rw e (complete st hashed (piece ++ arrived reads) c l (ltb→le (length hashed) n e))
        | inl e ↦
            let chunk = take (min (n - length hashed) chunk_size) piece in
            elim (Bool-cases (is_empty chunk)) [
              | inl e' ↦ rw (e, e') tt
              | inr e' ↦
                  rw (e, e')
                    (continue-lem (Stored (hashed ++ (piece ++ arrived reads)))
                      (files.append st temp chunk) _ (λ x. tt) tt
                      (λ u ok'.
                        Stored-congr ((hashed ++ chunk) ++ arrived reads)
                          (hashed ++ (piece ++ arrived reads)) _
                          (chunk_eq hashed piece (arrived reads) l fit)
                          (length-chunk_more hashed piece (arrived reads))
                          (receive_rest-Stored (files.append st temp chunk).1 (hashed ++ chunk)
                            reads fits (laws.append_new st temp chunk hashed c ok')
                            (length-chunk_le hashed piece l))))
            ]
      ]

  receive_initial-content :
      (st : S) (bytes : Bytes)
      → content st temp ≡ some []
      → (receive_initial files env temp n st bytes).0 ≡ ok tt
      → content (receive_initial files env temp n st bytes).1 temp ≡ some bytes
  receive_initial-content st [] c h = c
  receive_initial-content st (b ∷ bytes) c h = laws.append_new st temp (b ∷ bytes) [] c h

  receive_initial-Stored :
      (st : S) (body_start : Bytes) (reads : List Read)
      → All FitsBuffer reads
      → content st temp ≡ some (take n body_start)
      → Stored (body_start ++ arrived reads) (
          if ltb n (length body_start)
          then (
            err (codes "request body contains more bytes than Content-Length " ++ decimal n),
            st,
          )
          else receive_rest files env temp n st (take n body_start) reads)
  receive_initial-Stored st body_start reads fits c =
      elim (Bool-cases (ltb n (length body_start))) [
        | inl e ↦ rw e tt
        | inr e ↦
            let whole = take_all n body_start (ltb→le n (length body_start) e) in
            rw e (
              rw whole (
                receive_rest-Stored st body_start reads fits (c ∙ ap some whole)
                  (ltb→le n (length body_start) e)))
      ]

  -- After a success the temporary file holds exactly the first `n` bytes of what was sent, there were
  -- as many, and the answer is their hash.
  pub receive_upload_body-Stored :
      (st : S) (request : HttpRequest) (reads : List Read)
      → All FitsBuffer reads
      → Stored
          (request.body_start ++ arrived reads)
          (receive_upload_body files env temp n st request reads)
  unfolding receive_upload_body
  receive_upload_body-Stored st request reads fits =
      let initial = take n request.body_start in
      let created = files.create st temp in
      let begun = receive_initial files env temp n created.1 initial in
      continue-lem (Stored (request.body_start ++ arrived reads)) (with_message _ created) _
        (λ e. tt) tt
        (λ u e.
          continue-lem (Stored (request.body_start ++ arrived reads)) begun _ (λ e'. tt) tt
            (λ v e'. receive_initial-Stored begun.1 request.body_start reads fits (
              receive_initial-content created.1 initial
                (laws.create_new st temp (map_err-eq-ok _ created.0 e)) e')))
