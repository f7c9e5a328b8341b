-- ===== src/FileTransfer/Handle/Answers.antt =====
-- What an answer to an upload says of the target.
use remote_executor.Base.{
  ℕ, ◌≤◌, ◌≡◌, ◌≢◌, refl, sym, ◌∙◌, true, false, not, ◌&&◌, ◌⊎◌, inl, inr, Option, none, some, List,
  ◌++◌, length, take, All, Bool-cases, if-lem, arith,
}
use remote_executor.Base.Options.{unwrap_or}
use remote_executor.Base.Outcome.{Outcome, ok, err, panic, ◌>>=◌}
use remote_executor.Text.{Text, codes, text_eq}
use remote_executor.Text.Equality.{text_eq-eq}
use remote_executor.Dict.{lookup}
use remote_executor.Paths.{parent}
use remote_executor.Settings.{Chain, or_cause}
use remote_executor.FileTransfer.{Bytes, HttpRequest, Read, Reply, TransferFiles, TransferEnv}
use remote_executor.FileTransfer.Laws.{DiskLaws}
use remote_executor.FileTransfer.Request.{
  parse_bool_header, resolve_request_path, parse_content_length,
}
use remote_executor.FileTransfer.Response.{sha256_from_digest, json_reply, error_reply}
use remote_executor.FileTransfer.Body.{receive_upload_body}
use remote_executor.FileTransfer.Body.Received.{
  arrived, FitsBuffer, Stored, receive_upload_body-Stored,
}
use remote_executor.FileTransfer.Body.Kept.{receive_upload_body-other}
use remote_executor.FileTransfer.Handle.{
  Upload, upload_temp_path, check_upload, store_upload, handle_upload, after_receive, is_mismatch,
  parent_exists, store_checked,
}
use remote_executor.FileTransfer.Handle.Placed.{Placed, place_upload-Placed}

module _ {S : Type 0} (files : TransferFiles S) (content : S → Text → Option Bytes)
    (laws : DiskLaws files content) (env : TransferEnv) where
  module _ (request : HttpRequest) (reads : List Read) (fits : All FitsBuffer reads) where
    abbrev pub sent : Bytes
    sent = request.body_start ++ arrived reads

    -- the bytes that the client has announced are in the file, and have the hash that it may have named
    abbrev pub Complete : Text → ℕ → Option Text → S → Type 0
    Complete path n expected st =
        (content st path ≡ some (take n sent))
        × (n ≤ length sent)
        × ((sha : Text) → expected ≡ some sha → sha ≡ sha256_from_digest (env.sha256 (take n sent)))

    -- what an answer says of the target: 200 that it is complete, any other that it is untouched
    abbrev pub Answers : S → Text → ℕ → Option Text → Outcome Chain Reply × S → Type 0
    Answers before path n expected (ok reply, st) =
        (reply.status ≡ 200 → Complete path n expected st)
        × (reply.status ≢ 200 → content st path ≡ content before path)
    Answers before path n expected (err e, st) = Unit
    Answers before path n expected (panic, st) = Unit

    Answers-untouched :
        (before : S) (path : Text) (n : ℕ) (expected : Option Text) (reply : Reply) (st : S)
        → reply.status ≢ 200
        → content st path ≡ content before path
        → Answers before path n expected (ok reply, st)
    Answers-untouched before path n expected reply st ne kept = ((λ e. absurd (ne e)), (λ h. kept))

    Placed-Answers :
        (before : S) (upload : Upload) (temp : Text) (apart : temp ≢ upload.path) (n : ℕ)
        (expected : Option Text) (r : Outcome Chain Reply × S)
        → n ≤ length sent
        → ((sha : Text) → expected ≡ some sha → sha ≡ sha256_from_digest (env.sha256 (take n sent)))
        → Placed files content laws env upload temp apart (take n sent) r
        → Answers before upload.path n expected r
    Placed-Answers before upload temp apart n expected (ok reply, st) l agree (e, c) =
        ((λ e'. (c, l, agree)), (λ ne. absurd (ne e)))
    Placed-Answers before upload temp apart n expected (err e, st) l agree p = tt
    Placed-Answers before upload temp apart n expected (panic, st) l agree p = tt

    agrees :
        (expected : Option Text) (actual : Text)
        → is_mismatch files env expected actual ≡ false
        → (sha : Text) → expected ≡ some sha
        → sha ≡ actual
    agrees none actual h sha e = cc
    agrees (some expected) actual h sha e = elim (Bool-cases (text_eq actual expected)) [
      | inl e' ↦ (let same = text_eq-eq actual expected e' in cc)
      | inr e' ↦ (let impossible : true ≡ false = rw e' at h in cc)
    ]

    error_reply-Answers :
        (before : S) (upload : Upload) (temp : Text) (st : S) (status : ℕ) (message : Text)
        → temp ≢ upload.path
        → status ≢ 200
        → content st upload.path ≡ content before upload.path
        → Answers before upload.path upload.content_length upload.expected_sha
            (ok (error_reply env status message), (files.remove st temp).1)
    unfolding error_reply json_reply
    error_reply-Answers before upload temp st status message apart ne kept =
        Answers-untouched before upload.path upload.content_length upload.expected_sha
          (error_reply env status message) (files.remove st temp).1 ne
          (laws.remove_other st temp upload.path (λ e. apart (sym e)) ∙ kept)

    after_receive-Answers :
        (before : S) (upload : Upload) (temp : Text) (apart : temp ≢ upload.path)
        (r : Outcome Text Text × S)
        → content r.1 upload.path ≡ content before upload.path
        → Stored files content laws env temp upload.content_length sent r
        → Answers before upload.path upload.content_length upload.expected_sha
            (after_receive files env upload temp r)
    after_receive-Answers before upload temp apart (err e, st) kept stored =
        error_reply-Answers before upload temp st 400 e apart (omega arith) kept
    after_receive-Answers before upload temp apart (panic, st) kept stored = tt
    after_receive-Answers before upload temp apart (ok actual, st) kept (c, e, l) =
        elim (Bool-cases (is_mismatch files env upload.expected_sha actual)) [
          | inl mismatch ↦
              rw mismatch (error_reply-Answers before upload temp st 409 _ apart (omega arith) kept)
          | inr match ↦ rw match (
              Placed-Answers before upload temp apart upload.content_length upload.expected_sha _ l
                (λ sha e'. agrees upload.expected_sha actual match sha e' ∙ e)
                (place_upload-Placed files content laws env upload temp apart st actual
                  (take upload.content_length sent) c))
        ]

    store_upload-Answers :
        (st : S) (upload : Upload)
        → upload_temp_path env upload.path ≢ upload.path
        → Answers st upload.path upload.content_length upload.expected_sha
            (store_upload files env st upload request reads)
    unfolding store_upload
    store_upload-Answers st upload apart =
        let temp = upload_temp_path env upload.path in
        after_receive-Answers st upload temp apart
          (receive_upload_body files env temp upload.content_length st request reads)
          (receive_upload_body-other files content laws env temp upload.content_length upload.path
            (λ e. apart (sym e)) st request reads)
          (receive_upload_body-Stored files content laws env temp upload.content_length st request
            reads fits)

    -- what the checks have found in the request
    abbrev Checked : Text → ℕ → Outcome Chain (Reply ⊎ Upload) → Type 0
    Checked path n (ok (inl reply)) = reply.status ≢ 200
    Checked path n (ok (inr upload)) =
        (upload.path ≡ path)
        × (upload.content_length ≡ n)
        × (upload.expected_sha ≡ lookup (codes "x-re-sha256") request.headers)
    Checked path n (err e) = Unit
    Checked path n panic = Unit

    Checked-bind :
        {A : Type 0} (path : Text) (n : ℕ) (m : Outcome Chain A)
        (f : A → Outcome Chain (Reply ⊎ Upload))
        → ((a : A) → Checked path n (f a))
        → Checked path n (m >>= f)
    Checked-bind path n (ok a) f h = h a
    Checked-bind path n (err e) f h = tt
    Checked-bind path n panic f h = tt

    parent_exists-Checked :
        (st : S) (upload : Upload) (directory : Option Text)
        → upload.expected_sha ≡ lookup (codes "x-re-sha256") request.headers
        → Checked upload.path upload.content_length (parent_exists files env st upload directory)
    unfolding error_reply json_reply
    parent_exists-Checked st upload none e = omega arith
    parent_exists-Checked st upload (some directory) e =
        Checked-bind upload.path upload.content_length (or_cause (files.try_exists st directory)) _
          (λ exists.
            if-lem (λ r. Checked upload.path upload.content_length (ok r)) exists (refl, refl, e)
              (omega arith))

    check_upload-Checked :
        (st : S) (path : Text) (n : ℕ)
        → resolve_request_path env request ≡ ok path
        → parse_content_length request.headers ≡ ok n
        → Checked path n (check_upload files env st request)
    unfolding check_upload error_reply json_reply
    check_upload-Checked st path n e e' =
        rw (e, e')
          (Checked-bind path n
            (or_cause (parse_bool_header request.headers (codes "x-re-overwrite"))) _
            (λ overwrite. Checked-bind path n (or_cause (files.try_exists st path)) _ (λ exists.
              if-lem (Checked path n) (exists && not (unwrap_or false overwrite)) (omega arith)
                (parent_exists-Checked st _ (parent path) refl))))

    store_checked-Answers :
        (st : S) (path : Text) (n : ℕ) (r : Outcome Chain (Reply ⊎ Upload))
        → upload_temp_path env path ≢ path
        → Checked path n r
        → Answers st path n
            (lookup (codes "x-re-sha256") request.headers)
            (store_checked files env st request reads r)
    store_checked-Answers st path n (ok (inl reply)) apart ne =
        Answers-untouched st path n (lookup (codes "x-re-sha256") request.headers) reply st ne refl
    store_checked-Answers st path n (ok (inr upload)) apart (e, e', e'') =
        rw (sym e, sym e', sym e'') (store_upload-Answers st upload (λ p. apart (rw e at p)))
    store_checked-Answers st path n (err x) apart c = tt
    store_checked-Answers st path n panic apart c = tt

    pub handle_upload-Answers :
        (st : S) (path : Text) (n : ℕ)
        → resolve_request_path env request ≡ ok path
        → parse_content_length request.headers ≡ ok n
        → upload_temp_path env path ≢ path
        → Answers st path n
            (lookup (codes "x-re-sha256") request.headers)
            (handle_upload files env st request reads)
    unfolding handle_upload
    handle_upload-Answers st path n e e' apart =
        store_checked-Answers st path n (check_upload files env st request) apart
          (check_upload-Checked st path n e e')
