-- ===== src/FileTransfer/Laws.antt =====
-- What file_transfer.rs relies on a disk to do: `tokio::fs` on files that nobody else writes.
use remote_executor.Base.{◌≡◌, ◌≢◌, Option, some, ◌++◌, []}
use remote_executor.Base.Outcome.{ok}
use remote_executor.Text.{Text}
use remote_executor.FileTransfer.{Bytes, TransferFiles}

-- Each call, `content` being what a file holds: what it leaves in its own file, and that it leaves the others.
pub record DiskLaws {S : Type 0} (files : TransferFiles S) (content : S → Text → Option Bytes)
    : Type 0 where
  pub create_new :
      (st : S) (p : Text)
      → (files.create st p).0 ≡ ok tt
      → content (files.create st p).1 p ≡ some []
  pub create_other : (st : S) (p q : Text) → q ≢ p → content (files.create st p).1 q ≡ content st q
  pub append_new :
      (st : S) (p : Text) (bytes before : Bytes)
      → content st p ≡ some before
      → (files.append st p bytes).0 ≡ ok tt
      → content (files.append st p bytes).1 p ≡ some (before ++ bytes)
  pub append_other :
      (st : S) (p : Text) (bytes : Bytes) (q : Text)
      → q ≢ p
      → content (files.append st p bytes).1 q ≡ content st q
  pub remove_other : (st : S) (p q : Text) → q ≢ p → content (files.remove st p).1 q ≡ content st q
  pub rename_new :
      (st : S) (p q : Text)
      → (files.rename st p q).0 ≡ ok tt
      → content (files.rename st p q).1 q ≡ content st p
