-- ===== src/Storage/Ranges.antt =====
-- What a client gets for a Range header.
use corella.Prelude.{
  ℕ, ◌+◌, ◌-◌, ◌≡◌, refl, ap, Bool, true, false, ◌||◌, Option, none, some, List, [], ◌∷◌, length,
  take, drop, concat, Text, codes, text_eq, length-take, length-drop, arith, if-elim, pos_part,
  neg_part, sub_ℕ, ℤ, pos, negsuc, ltb_ℤ, ◌≤ℤ◌,
}
use corella.Storage.{
  Response, whole, partial, not_found, range_not_satisfiable, serve, ends, end_of, start_of,
  last_byte, min_with, respond, iter_file, int, range_spec, partition,
}
use corella.Storage.Slices.{iter_file-take, iter_file-whole}

-- What an answer says of the file that it is from.
abbrev pub IsFaithful : List ℕ → Response → Type 0
IsFaithful file (whole content_length body) = (content_length ≡ length file) × (concat body ≡ file)
IsFaithful file (partial start end size content_length body) =
    (pos 0 ≤ℤ start)
    × (start ≤ℤ end)
    × (end ≤ℤ last_byte (length file))
    × (size ≡ length file)
    × (content_length ≡ pos (length (concat body)))
    × (concat body ≡ take (pos_part end + 1 - pos_part start) (drop (pos_part start) file))
IsFaithful file not_found = Unit
IsFaithful file (range_not_satisfiable size) = size ≡ length file

length-part :
    (s e : ℕ) (file : List ℕ)
    → pos e ≤ℤ last_byte (length file)
    → ltb_ℤ (pos e) (pos s) ≡ false
    → sub_ℕ (e + 1 + 0) (s + 0) ≡ pos (length (concat (iter_file file s (pos e))))
length-part s e file h fits =
    let whole_part = ap length (iter_file-take file s e) in
    ground (arith, whole_part, length-take (e + 1 - s) (drop s file), length-drop s file)

serve-IsFaithful :
    (units : Bool) (start end : ℤ) (file : List ℕ)
    → end ≤ℤ last_byte (length file)
    → IsFaithful file (serve units (start, end) file)
unfolding serve
serve-IsFaithful false start end file h = refl
serve-IsFaithful true (negsuc s) end file h =
    if-elim (IsFaithful file) (ltb_ℤ (negsuc s) (pos 0) || ltb_ℤ end (negsuc s)) _ _
      (λ refused. refl) (λ fits. absurd (ground arith))
serve-IsFaithful true (pos s) end file h =
    if-elim (IsFaithful file) (ltb_ℤ (pos s) (pos 0) || ltb_ℤ end (pos s)) _ _ (λ refused. refl)
      (λ fits. within s end file h (ground arith))
  where
    within :
        (s : ℕ) (end : ℤ) (file : List ℕ)
        → end ≤ℤ last_byte (length file)
        → ltb_ℤ end (pos s) ≡ false
        → IsFaithful file (
            partial
              (pos s)
              end
              (length file)
              (sub_ℕ (pos_part end + 1 + 0) (s + neg_part end))
              (iter_file file s end))
    within s (negsuc e) file h fits = absurd (ground arith)
    within s (pos e) file h fits =
        (omega arith, ground arith, h, refl, length-part s e file h fits, iter_file-take file s e)

ends-le :
    (a b : Option ℤ) (size : ℕ)
    → ((e : ℤ) → b ≡ some e → e ≤ℤ last_byte size)
    → (ends a b).1 ≤ℤ last_byte size
ends-le none b size h = ground arith
ends-le (some a) none size h = ground arith
ends-le (some a) (some e) size h = h e refl

end_of-le : (s : Text) (size : ℕ) (e : ℤ) → end_of s size ≡ some e → e ≤ℤ last_byte size
end_of-le [] size e h = ground arith
end_of-le (c ∷ s) size e h = from-int (int (c ∷ s)) h
  where
    from-int : (o : Option ℤ) → min_with (last_byte size) o ≡ some e → e ≤ℤ last_byte size
    from-int none h = cc
    from-int (some a) h = ground arith

-- Whatever the header: a whole answer has the whole file; a partial one has the bytes from a start to an
-- end, both within the file and both included, and Content-Length is their number; Content-Range names
-- the file's size, also where the range is refused.
pub respond-IsFaithful :
    (file : List ℕ) (header : Option Text) → IsFaithful file (respond file header)
unfolding respond
respond-IsFaithful file none = (refl, iter_file-whole file)
respond-IsFaithful file (some header) =
    let range = range_spec header in
    let limits = ends (start_of range.0) (end_of range.1 (length file)) in
    serve-IsFaithful (text_eq (partition b'=' header).0 (codes "bytes")) limits.0 limits.1 file (
      ends-le (start_of range.0) (end_of range.1 (length file)) (length file)
        (end_of-le range.1 (length file)))
