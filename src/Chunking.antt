-- ===== src/Chunking.antt =====
-- Cutting texts for the search index: server/app/services/embeddings/chunking.py.
pub mod Transcript
pub mod Windows
mod Tests
use corella.Prelude.{
  ℕ, zero, suc, ◌+◌, ◌-◌, ◌≤◌, Bool, true, false, ◌&&◌, Option, none, some, List, [], ◌∷◌, ◌++◌,
  ltb, leb, if◌then◌else◌, length, take, drop, Text, strip, nonempty,
}

pub record Segment : Type 0 where
  pub start_ms : ℕ
  pub end_ms : ℕ
  pub text : Text

pub record Chunk : Type 0 where
  pub text : Text
  pub start_ms : ℕ
  pub end_ms : ℕ

abbrev pub space : ℕ
space = 32

-- `" ".join(texts)`
abbrev pub join : List Text → Text
join [] = []
join (t ∷ []) = t
join (t ∷ u ∷ ts) = t ++ space ∷ join (u ∷ ts)

-- `chunk_transcript` between two segments: the texts of the open chunk, in order, with their times.
pub record Current : Type 0 where
  pub texts : List Text
  pub len : ℕ
  pub start : ℕ
  pub end : ℕ

-- `flush` of an open chunk; none is open at the start of the transcript.
abbrev pub close : Option Current → List Chunk
close none = []
close (some c) = record { text = join c.texts; start_ms = c.start; end_ms = c.end } ∷ []

-- A segment in a chunk of its own, and one more in an open chunk.
abbrev pub begin : Text → Segment → Current
begin text seg = record {
  texts = text ∷ [];
  len = length text + 1;
  start = seg.start_ms;
  end = seg.end_ms;
}

abbrev pub extend : Current → Text → Segment → Current
extend c text seg = record c {
  texts = c.texts ++ text ∷ [];
  len = c.len + (length text + 1);
  end = seg.end_ms;
}

-- What a segment with a text does: the chunks that it closes, and the open one.
abbrev pub put : ℕ → Option Current → Text → Segment → List Chunk × Current
put chunk_size none text seg = ([], begin text seg)
put chunk_size (some c) text seg =
    if ltb chunk_size (c.len + length text + 1)
    then (close (some c), begin text seg)
    else ([], extend c text seg)

unfoldable pub chunk_from : ℕ → Option Current → List Segment → List Chunk
chunk_from chunk_size current [] = close current
chunk_from chunk_size current (seg ∷ segs) =
    let text = strip seg.text in
    let rest = chunk_from chunk_size current segs in
    let placed = put chunk_size current text seg in
    let more = chunk_from chunk_size (some placed.1) segs in
    if nonempty text then placed.0 ++ more else rest

unfoldable pub chunk_transcript : ℕ → List Segment → List Chunk
unfolding chunk_from
chunk_transcript chunk_size segments = chunk_from chunk_size none segments

-- `if chunk: chunks.append(chunk)`
abbrev pub append_if : Text → List Text → List Text
append_if chunk rest = if nonempty chunk then chunk ∷ rest else rest

abbrev pub append_to : Text → Option (List Text) → Option (List Text)
append_to chunk none = none
append_to chunk (some rest) = some (append_if chunk rest)

-- The loop of `chunk_text`; none says that the fuel does not suffice. `start + chunk_size - overlap` is
-- what the source computes where `overlap ≤ chunk_size`.
unfoldable pub chunks_from : ℕ → ℕ → ℕ → ℕ → Text → Option (List Text)
chunks_from zero chunk_size overlap start text = none
chunks_from (suc fuel) chunk_size overlap start text =
    let chunk = strip (take chunk_size (drop start text)) in
    let rest = chunks_from fuel chunk_size overlap (start + chunk_size - overlap) text in
    if ltb start (length text)
    then if leb (length text) (start + chunk_size)
      then some (append_if chunk [])
      else append_to chunk rest
    else some []

unfoldable pub chunk_text : ℕ → ℕ → Text → Option (List Text)
unfolding chunks_from
chunk_text chunk_size overlap text =
    let stripped = strip text in
    if nonempty stripped
    then chunks_from (length stripped) chunk_size overlap 0 stripped
    else some []
