-- ===== src/Fs/Read/Listing.antt =====
-- Reading of a whole directory with the tool `read` of tools/fs/mod.rs, page after page.
use remote_executor.Base.{
  ℕ, Bool, false, ltb, arith, ◌-◌, ◌≤◌, ◌≡◌, refl, List, [], ◌∷◌, ◌++◌, drop, length,
}
use remote_executor.Base.Outcome.{ok}
use remote_executor.Text.{Text, codes, join}
use remote_executor.Text.Decimal.{decimal}
use remote_executor.Protocol.{ToolResult, json_object, tool_output_full}
use remote_executor.Fs.{FileStamp, Disk}
use remote_executor.Fs.Stamp.{stamp_value}
use remote_executor.Fs.Page.{sliced, Reads, Reads-drop, next_offset-ge, last, more}
use remote_executor.Fs.Read.{sorted_names, read_dir}

-- the result that shows these names, with this text below them
abbrev pub shows : FileStamp → List Text → Text → ToolResult
shows file page info = record {
  metadata = json_object ((codes "file", stamp_value file) ∷ []);
  output = tool_output_full [] (join (b'\n' ∷ []) page) info;
}

-- A reader calls `read_dir` with an offset, and then with the one that the text below the names tells it to
-- use, until the text gives the total instead.
pub data Listing (disk : Disk) (path : Text) (file : FileStamp) (limit total : ℕ)
    : ℕ → List Text → Type 0 where
  ends :
      (offset : ℕ) (page : List Text)
      → read_dir disk path file offset limit
        ≡ ok (shows file page (codes "total " ++ (decimal total ++ codes " entries")))
      → Listing disk path file limit total offset page
  goes_on :
      (offset next : ℕ) (page rest : List Text)
      → read_dir disk path file offset limit
        ≡ ok (
            shows file page (
              codes "Showing entries "
              ++ (decimal offset
                  ++ (b'-' ∷ decimal (next - 1)
                      ++ (codes " of "
                          ++ (decimal total
                              ++ (codes ". Use offset="
                                  ++ (decimal next ++ codes " to continue."))))))))
      → Listing disk path file limit total next rest
      → Listing disk path file limit total offset (page ++ rest)

module _ (disk : Disk) (path : Text) (file : FileStamp) (entries : List (Text × Bool))
    (readable : disk.entries path ≡ ok entries) where
  Reads-Listing :
      {limit offset : ℕ} {shown : List Text}
      → 1 ≤ offset
      → Reads (sorted_names entries) limit offset shown
      → Listing disk path file limit (length (sorted_names entries)) offset shown
  unfolding read_dir
  Reads-Listing {limit} h (last offset e) =
      let allowed : ltb offset 1 ≡ false = ground arith in
      ends offset (sliced (sorted_names entries) offset limit) (rw (allowed, readable, e) refl)
  Reads-Listing {limit} h (more offset next rest e r) =
      let allowed : ltb offset 1 ≡ false = ground arith in
      goes_on offset next (sliced (sorted_names entries) offset limit) rest
        (rw (allowed, readable, e) refl)
        (Reads-Listing (omega (arith, h, next_offset-ge (sorted_names entries) offset limit next e))
          r)

  -- From any offset from 1 on, with any limit, in a directory that can be read and that does not change:
  -- calling `read_dir` with the offset that the text of each page says to use comes to a page that gives the
  -- total instead, and the names of the pages together are the sorted names from the first offset on, each
  -- once and in order.
  pub read_dir-Listing :
      (limit offset : ℕ)
      → 1 ≤ offset
      → Listing disk path file limit
          (length (sorted_names entries))
          offset
          (drop (offset - 1) (sorted_names entries))
  read_dir-Listing limit offset h =
      Reads-Listing h (Reads-drop (sorted_names entries) limit offset h)
