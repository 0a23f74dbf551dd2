-- ===== src/Storage/Tests.antt =====
-- Examples for the stored files: a file of ten bytes.
use corella.Prelude.{
  ℕ, ◌*◌, ◌≡◌, refl, true, none, some, List, [], ◌∷◌, take, drop, Text, codes, is_space, arith, pos,
}
use corella.Http.{ok, http_exception}
use corella.Transcript.{str, digits}
use corella.Storage.{respond, int, partial, range_not_satisfiable, iter_file}
use corella.Storage.Ranges.{IsFaithful, respond-IsFaithful}
use corella.Storage.Headers.{range_header, respond-range_header, respond_suffix}
use corella.Storage.Upload.{safe_upload_suffix}
use corella.Storage.Save.{fine, write_fails, Disk, save_upload}
use corella.Storage.Saved.{IsSaved, save_upload-IsSaved}

abbrev file : List ℕ
file = 10 ∷ 11 ∷ 12 ∷ 13 ∷ 14 ∷ 15 ∷ 16 ∷ 17 ∷ 18 ∷ 19 ∷ []

middle :
    respond file (some (codes "bytes=2-4"))
    ≡ partial (pos 2) (pos 4) 10 (pos 3) ((12 ∷ 13 ∷ 14 ∷ []) ∷ [])
unfolding respond take drop is_space
middle = refl

to_the_end :
    respond file (some (codes "bytes=7-"))
    ≡ partial (pos 7) (pos 9) 10 (pos 3) ((17 ∷ 18 ∷ 19 ∷ []) ∷ [])
unfolding respond take drop is_space
to_the_end = refl

crossed : respond file (some (codes "bytes=4-2")) ≡ range_not_satisfiable 10
unfolding respond is_space
crossed = refl

garbled : respond file (some (codes "bytes=x-2")) ≡ range_not_satisfiable 10
unfolding respond is_space
garbled = refl

underscores : int (codes " +1_0 ") ≡ some (pos 10)
unfolding int is_space
underscores = refl

respond_example : IsFaithful file (respond file (some (codes "bytes=2-40")))
respond_example = respond-IsFaithful file (some (codes "bytes=2-40"))

range_header_example :
    respond file (some (range_header (str 2) (str 40)))
    ≡ partial (pos 2) (pos 9) 10 (pos 8) (iter_file file 2 (pos 9))
unfolding str digits
range_header_example =
    respond-range_header file 2 40 (omega arith) (omega arith) (omega arith) (omega arith)

suffix_example :
    respond file (some (range_header [] (str 3)))
    ≡ partial (pos 0) (pos 3) 10 (pos 4) (iter_file file 0 (pos 3))
unfolding str digits
suffix_example = respond_suffix file 3 (omega arith) (omega arith)

same : Text → Text
same s = s

suffix_kept : safe_upload_suffix same (some (codes "../a/talk.mp3")) ≡ codes ".mp3"
unfolding safe_upload_suffix same
suffix_kept = refl

suffix_dropped : safe_upload_suffix same (some (codes "talk.mp3/..")) ≡ codes ".bin"
unfolding safe_upload_suffix same
suffix_dropped = refl

abbrev calm : Disk
calm = record { old = none; opens = true; round = λ i. fine; closes = true; unlinks = true }

-- The disk is full after four bytes, and the file cannot be closed properly.
abbrev full : Disk
full = record calm { round = λ i. write_fails 4 }

save_upload-IsSaved_example :
    IsSaved full file
      (1 * 1024 * 1024)
      (safe_upload_suffix same none)
      (save_upload same full none file 1)
save_upload-IsSaved_example = save_upload-IsSaved same full none file 1

stored_whole :
    save_upload same calm (some (codes "a.mp3")) file 1
    ≡ (some file, some (ok (codes "original.mp3")))
unfolding save_upload same take drop
stored_whole = refl

too_long :
    save_upload same calm none file 0 ≡ (none, some (http_exception 413 "File exceeds the limit"))
unfolding save_upload same take drop
too_long = refl

part_left : save_upload same full none file 1 ≡ (some (10 ∷ 11 ∷ 12 ∷ 13 ∷ []), none)
unfolding save_upload same take drop
part_left = refl
