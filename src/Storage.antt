-- ===== src/Storage.antt =====
-- The range requests and the uploads of server/app/core/storage.py. A file is the list of its bytes.
pub mod Upload
pub mod Save
pub mod Saved
pub mod Slices
pub mod Ranges
pub mod Headers
mod Tests
use corella.Prelude.{
  ℕ, zero, suc, ◌+◌, ◌-◌, ◌*◌, min, Bool, true, false, not, ◌&&◌, ◌||◌, Option, none, some, List,
  [], ◌∷◌, ◌++◌, ◌==◌, ltb, leb, if◌then◌else◌, length, take, drop, tally, Text, codes, text_eq,
  nonempty, strip, ℤ, pos, negsuc, pos_part, neg_part, ltb_ℤ, min_ℤ, sub_ℕ,
}

abbrev pub chunk_size : ℕ
chunk_size = 1024 * 1024

-- The loop of `_iter_file`. `f` is what is left of the file at the position that was sought; `remaining`
-- is fuel enough, since a chunk that is not empty takes at least a byte off it.
unfoldable pub iter_from : ℕ → ℕ → List ℕ → List (List ℕ)
iter_from zero remaining f = []
iter_from (suc fuel) remaining f =
    let chunk = take (min chunk_size remaining) f in
    let rest =
      chunk ∷ iter_from fuel (remaining - length chunk) (drop (min chunk_size remaining) f) in
    if ltb 0 remaining then if length chunk == 0 then [] else rest else []

-- `_iter_file`, where `end` may be -1.
unfoldable pub iter_file : List ℕ → ℕ → ℤ → List (List ℕ)
unfolding iter_from
iter_file file start end =
    let remaining : ℕ = pos_part (sub_ℕ (pos_part end + 1) (start + neg_part end)) in
    iter_from remaining remaining (drop start file)

-- `s.partition(c)`, without the middle part.
abbrev pub partition : ℕ → Text → Text × Text
partition c [] = ([], [])
partition c (d ∷ s) = let rest = partition c s in if d == c then ([], s) else (d ∷ rest.0, rest.1)

abbrev pub is_digit : ℕ → Bool
is_digit c = leb 48 c && leb c 57

-- The digits of an integer literal, with an underscore between two of them allowed; `last` says whether
-- the character before was a digit.
unfoldable pub scan_digits : Text → ℕ → Bool → Option ℕ
scan_digits [] v last = if last then some v else none
scan_digits (c ∷ s) v last = elim (is_digit c) [
  | true ↦ scan_digits s (v * 10 + (c - 48)) true
  | false ↦ elim (c == b'_' && last) [ true ↦ scan_digits s v false | false ↦ none ]
]

-- Python does not read more digits than these.
abbrev pub max_str_digits : ℕ
max_str_digits = 4300

unfoldable pub unsigned : Text → Option ℕ
unfolding scan_digits tally
unsigned s = if ltb max_str_digits (tally is_digit s) then none else scan_digits s 0 false

abbrev pub negated : Option ℕ → Option ℤ
negated none = none
negated (some n) = some (sub_ℕ 0 n)

abbrev pub counted : Option ℕ → Option ℤ
counted none = none
counted (some n) = some (pos n)

abbrev pub signed : Text → Option ℤ
signed [] = none
signed (c ∷ s) =
    if c == b'-'
    then negated (unsigned s)
    else if c == b'+'
    then counted (unsigned s)
    else counted (unsigned (c ∷ s))

-- `int(s)`, for a text of Latin-1 characters, which a header is; `none` is the ValueError.
unfoldable pub int : Text → Option ℤ
unfolding unsigned strip
int s = signed (strip s)

pub data Response : Type 0 where
  -- Headers Content-Length; the body.
  whole : ℕ → List (List ℕ) → Response
  -- Content-Range start, end and size; Content-Length; the body.
  partial : ℤ → ℤ → ℕ → ℤ → List (List ℕ) → Response
  not_found : Response
  -- Content-Range `bytes */size`.
  range_not_satisfiable : ℕ → Response

abbrev pub start_of : Text → Option ℤ
start_of s = if nonempty s then int s else some (pos 0)

-- `file_size - 1`
abbrev pub last_byte : ℕ → ℤ
last_byte size = sub_ℕ size 1

abbrev pub min_with : ℤ → Option ℤ → Option ℤ
min_with last none = none
min_with last (some end) = some (min_ℤ end last)

abbrev pub end_of : Text → ℕ → Option ℤ
end_of s size = if nonempty s then min_with (last_byte size) (int s) else some (last_byte size)

-- The `try`: both ends, or -1 twice.
abbrev pub ends : Option ℤ → Option ℤ → ℤ × ℤ
ends none end = (negsuc 0, negsuc 0)
ends (some start) none = (negsuc 0, negsuc 0)
ends (some start) (some end) = (start, end)

unfoldable pub serve : Bool → ℤ × ℤ → List ℕ → Response
unfolding iter_file
serve units (start, end) file =
    if not units || ltb_ℤ start (pos 0) || ltb_ℤ end start
    then range_not_satisfiable (length file)
    else partial start end (length file)
        (sub_ℕ (pos_part end + 1 + neg_part start) (pos_part start + neg_part end))
        (iter_file file (pos_part start) end)

abbrev pub range_spec : Text → Text × Text
range_spec header = partition b'-' (partition b'=' header).1

unfoldable pub respond : List ℕ → Option Text → Response
unfolding serve int iter_file
respond file none = whole (length file) (iter_file file 0 (last_byte (length file)))
respond file (some header) =
    serve (text_eq (partition b'=' header).0 (codes "bytes"))
      (ends (start_of (range_spec header).0) (end_of (range_spec header).1 (length file))) file

-- `range_response`; `none` is a path that is no file.
unfoldable pub range_response : Option (List ℕ) → Option Text → Response
unfolding respond
range_response none header = not_found
range_response (some file) header = respond file header
