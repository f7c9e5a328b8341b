-- ===== src/FileTransfer/Body.antt =====
-- `receive_upload_body` of file_transfer.rs. A read gives no more bytes than its buffer holds.
pub mod Received
pub mod Kept
use Prim.Native.String.{String}
use remote_executor.Base.{
  ℕ, ◌+◌, ◌-◌, min, Bool, true, false, Option, none, some, List, [], ◌∷◌, ◌++◌, if◌then◌else◌, ltb,
  length, take,
}
use remote_executor.Base.Steps.{continue}
use remote_executor.Base.Outcome.{Outcome, ok, err, panic, map_err}
use remote_executor.Text.{Text, codes, is_empty}
use remote_executor.Text.Decimal.{decimal}
use remote_executor.FileTransfer.{
  Bytes, chunk_size, HttpRequest, Read, got, failed, TransferFiles, TransferEnv,
}
use remote_executor.FileTransfer.Response.{sha256_from_digest}

-- the error whose `to_string` is its last context
abbrev pub with_message : {S A : Type 0} → Text → Outcome Text A × S → Outcome Text A × S
with_message message result = (map_err (λ e. message) result.0, result.1)

abbrev pub closed_early : ℕ → ℕ → Text
closed_early received content_length =
    codes "connection closed after "
    ++ (decimal received ++ (codes " bytes; expected " ++ decimal content_length))

module _ {S : Type 0} (files : TransferFiles S) (env : TransferEnv) (temp : Text)
    (content_length : ℕ) where
  -- The loop. `hashed` is what the hasher was given, which is what was received.
  unfoldable pub receive_rest : S → Bytes → List Read → Outcome Text Text × S
  receive_rest st hashed [] =
      if ltb (length hashed) content_length
      then (err (closed_early (length hashed) content_length), st)
      else (ok (sha256_from_digest (env.sha256 hashed)), st)
  receive_rest st hashed (failed e ∷ reads) =
      if ltb (length hashed) content_length
      then (err e, st)
      else (ok (sha256_from_digest (env.sha256 hashed)), st)
  receive_rest st hashed (got arrived ∷ reads) =
      let chunk = take (min (content_length - length hashed) chunk_size) arrived in
      let next : Unit {0} → S → Outcome Text Text × S =
        λ u st'. receive_rest st' (hashed ++ chunk) reads in
      if ltb (length hashed) content_length
      then (if is_empty chunk
          then (err (closed_early (length hashed) content_length), st)
          else continue (files.append st temp chunk) next)
      else (ok (sha256_from_digest (env.sha256 hashed)), st)

  -- the bytes that came with the headers
  abbrev pub receive_initial : S → Bytes → Outcome Text (Unit {0}) × S
  receive_initial st [] = (ok tt, st)
  receive_initial st (b ∷ bytes) = files.append st temp (b ∷ bytes)

  unfoldable pub receive_upload_body : S → HttpRequest → List Read → Outcome Text Text × S
  receive_upload_body st request reads =
      let initial = take content_length request.body_start in
      continue (with_message (codes "failed to create temp file " ++ temp) (files.create st temp))
        (λ u st1. continue (receive_initial st1 initial) (λ v st2.
          if ltb content_length (length request.body_start)
          then (
            err (
                codes "request body contains more bytes than Content-Length "
                ++ decimal content_length),
            st2,
          )
          else receive_rest st2 initial reads))
