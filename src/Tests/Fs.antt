-- ===== src/Tests/Fs.antt =====
-- Reading of a directory of two names, pages of text, and a walk over 120 entries.
use remote_executor.Base.{
  ◌-◌, drop, length, true, false, none, ◌≡◌, refl, List, [], ◌∷◌, arith, replicate,
}
use remote_executor.Text.{Text, codes}
use remote_executor.Text.Decimal.{decimal, digits_of}
use remote_executor.Text.Lossy.{from_utf8_lossy, lossy_from, lossy_step, first_byte}
use remote_executor.Text.Utf8.{lead}
use remote_executor.Base.Outcome.{ok, err}
use remote_executor.Base.Yields.{Yields}
use remote_executor.SoftTimeout.{SoftTimeout}
use remote_executor.Fs.Glob.{Entry, Walk, walk_entries, IsBounded, walk_entries-IsBounded}
use remote_executor.Fs.{FileStamp, Disk, not_found, directory}
use remote_executor.Fs.Read.{numbered, sorted_names}
use remote_executor.Fs.Read.Listing.{Listing, read_dir-Listing}

lossy-test :
    from_utf8_lossy (0x61 ∷ 0xe2 ∷ 0x82 ∷ 0x62 ∷ 0xff ∷ 0xe2 ∷ 0x82 ∷ 0xac ∷ 0xc3 ∷ [])
    ≡ 0x61 ∷ 0xfffd ∷ 0x62 ∷ 0xfffd ∷ 0x20ac ∷ 0xfffd ∷ []
unfolding from_utf8_lossy lossy_from lossy_step first_byte lead
lossy-test = refl

numbered-test : numbered 9 (codes "a" ∷ codes "b" ∷ []) ≡ codes "9: a" ∷ codes "10: b" ∷ []
unfolding numbered decimal digits_of
numbered-test = refl

abbrev never : SoftTimeout
never = record { deadline = none; timed_out = false }

abbrev entry : Entry
entry = record { now = 0; path = ok (codes "/w/a"); is_file = true; matches = true; mtime_ms = 5 }

abbrev new_walk : Walk
new_walk = record { deadline = never; files = []; truncated = false; files_walked = 0 }

walk_entries-IsBounded_example : Yields IsBounded (walk_entries (replicate 120 entry) new_walk)
walk_entries-IsBounded_example =
    walk_entries-IsBounded (replicate 120 entry) new_walk refl (omega arith)

-- a directory of two names, one of them that of a directory
abbrev small_disk : Disk
small_disk = record {
  metadata = λ path. not_found (codes "no such file");
  read = λ path. err (codes "is a directory");
  entries = λ path. ok ((codes "src", true) ∷ (codes "a.txt", false) ∷ []);
  canonicalize = λ path. none;
  file_id = λ path. none;
  sha256 = λ bytes. bytes;
}

abbrev stamp : FileStamp
stamp = record {
  file_key = codes "/w";
  canonical_path = codes "/w";
  kind = directory;
  size = none;
  mtime_ms = none;
}

abbrev two_names : List Text
two_names = sorted_names ((codes "src", true) ∷ (codes "a.txt", false) ∷ [])

read_dir-Listing_example :
    Listing small_disk (codes "/w") stamp 1 (length two_names) 1 (drop (1 - 1) two_names)
read_dir-Listing_example =
    read_dir-Listing small_disk (codes "/w") stamp
      ((codes "src", true) ∷ (codes "a.txt", false) ∷ []) refl 1 1 (omega arith)
