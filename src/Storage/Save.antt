-- ===== src/Storage/Save.antt =====
-- `_save_upload` of server/app/core/storage.py, with the disk and the upload as parameters that may fail in
-- any round.
use Prim.Native.String.{String}
use corella.Prelude.{
  ℕ, zero, suc, ◌+◌, ◌*◌, Bool, not, Option, none, some, List, [], ◌++◌, ◌==◌, ltb, if◌then◌else◌,
  length, take, drop, Text, codes,
}
use corella.Http.{Result, ok, http_exception}
use corella.Storage.{chunk_size}
use corella.Storage.Upload.{safe_upload_suffix}

-- What happens in one round of the loop: all goes well; the read raises; or the write, or the close of the
-- file, raises an OSError when that many bytes of the file are on the disk.
pub data Round : Type 0 where
  fine read_fails : Round
  write_fails : ℕ → Round

-- What is at the destination before, and which calls raise: mkdir and open, the rounds of the loop, the
-- close of the upload, and the unlink.
pub record Disk : Type 0 where
  pub old : Option (List ℕ)
  pub opens : Bool
  pub round : ℕ → Round
  pub closes : Bool
  pub unlinks : Bool

-- How the loop ends, with what is in the file: at the end of the upload, with the HTTPException, or with
-- another exception.
pub data Written : Type 0 where
  finished : ℕ → List ℕ → Written
  over raises : List ℕ → Written

abbrev pub on_round : Round → ℕ → List ℕ → ℕ → List ℕ → Written → Written
on_round fine max_bytes chunk written f more =
    if length chunk == 0
    then finished written f
    else if ltb max_bytes (written + length chunk)
    then over f
    else more
on_round read_fails max_bytes chunk written f more = raises f
on_round (write_fails n) max_bytes chunk written f more =
    raises (take n (if ltb max_bytes (written + length chunk) then f else f ++ chunk))

-- The loop, from the round `i` on: `rest` is still to be read, `f` is written. Every round takes a byte at
-- least off `rest`, so its length and one more is fuel enough.
unfoldable pub write_from : ℕ → (ℕ → Round) → ℕ → ℕ → List ℕ → ℕ → List ℕ → Written
write_from zero round i max_bytes rest written f = finished written f
write_from (suc fuel) round i max_bytes rest written f =
    let chunk = take chunk_size rest in
    let more =
      write_from fuel round (i + 1) max_bytes (drop chunk_size rest) (written + length chunk)
        (f ++ chunk) in
    on_round (round i) max_bytes chunk written f more

-- What is at the destination afterwards, and the name there or the HTTPException; none is another
-- exception.
abbrev pub Saved : Type 0
Saved = Option (List ℕ) × Option (Result Text)

-- `unlink`, and then the exception.
abbrev pub unlinked : Disk → List ℕ → ℕ → String → Saved
unlinked disk f code detail =
    if disk.unlinks then (none, some (http_exception code detail)) else (some f, none)

-- The `finally`.
abbrev pub closed : Disk → Saved → Saved
closed disk (left, outcome) = if disk.closes then (left, outcome) else (left, none)

abbrev pub settle : Disk → Text → Written → Saved
settle disk ext (raises f) = (some f, none)
settle disk ext (over f) = closed disk (unlinked disk f 413 "File exceeds the limit")
settle disk ext (finished written f) =
    if not disk.closes
    then (some f, none)
    else if written == 0
    then unlinked disk f 400 "Empty file"
    else (some f, some (ok (codes "original" ++ ext)))

module _ (lower : Text → Text) where
  unfoldable pub save_upload : Disk → Option Text → List ℕ → ℕ → Saved
  unfolding write_from safe_upload_suffix
  save_upload disk filename content max_mb =
      if disk.opens
      then settle disk (safe_upload_suffix lower filename)
          (write_from (length content + 1) disk.round 0 (max_mb * 1024 * 1024) content 0 [])
      else (disk.old, none)
