-- ===== src/Storage/Saved.antt =====
-- What `_save_upload` of server/app/core/storage.py leaves at the destination, whatever raises.
use corella.Prelude.{
  ℕ, zero, suc, ◌+◌, ◌*◌, ◌≤◌, ◌<◌, ◌≡◌, refl, sym, ap, ◌∙◌, Bool, true, false, not, Option, none,
  some, List, [], ◌∷◌, ◌++◌, append-nil, append_assoc, ◌==◌, ltb, if-elim, length, length-take,
  length-drop, length-append, take, drop, take-append-drop, Text, codes, arith, ◌⊎◌, inl, inr,
}
use corella.Http.{ok, http_exception}
use corella.Storage.{chunk_size}
use corella.Storage.Upload.{safe_upload_suffix}
use corella.Storage.Save.{
  Round, fine, read_fails, write_fails, Disk, Written, finished, over, raises, on_round, write_from,
  Saved, closed, settle, save_upload,
}

abbrev pub IsPrefix : List ℕ → List ℕ → Type 0
IsPrefix content f = (rest : List ℕ) × (content ≡ f ++ rest)

-- No call raises.
abbrev pub IsFine : (ℕ → Round) → Type 0
IsFine round = (i : ℕ) → round i ≡ fine

-- How the loop may end for a content.
abbrev IsEnd : (ℕ → Round) → List ℕ → ℕ → Written → Type 0
IsEnd round content max_bytes (finished written f) =
    (f ≡ content) × (written ≡ length content) × (length content ≤ max_bytes)
IsEnd round content max_bytes (over f) = (max_bytes < length content) × IsPrefix content f
IsEnd round content max_bytes (raises f) = IsPrefix content f × (IsFine round → ⊥)

no_items : (xs : List ℕ) → length xs ≡ 0 → xs ≡ []
no_items [] h = refl
no_items (x ∷ xs) h = absurd (omega (arith, h))

no_rest : (rest : List ℕ) → (length (take chunk_size rest) == 0) ≡ true → rest ≡ []
no_rest rest h = no_items rest (ground (arith, length-take chunk_size rest))

clash : (b : Bool) → b ≡ true → b ≡ false → ⊥
clash b h g = cc

take-IsPrefix :
    (n : ℕ) (f rest content : List ℕ) → content ≡ f ++ rest → IsPrefix content (take n f)
take-IsPrefix n f rest content h = (
  drop n f ++ rest,
  h ∙ ap (λ s. s ++ rest) (sym (take-append-drop n f)) ∙ append_assoc (take n f) (drop n f) rest,
)

on_round-IsEnd :
    (round : ℕ → Round) (i : ℕ) (r : Round) (max_bytes : ℕ) (chunk rest f content : List ℕ)
    (written : ℕ) (more : Written)
    → round i ≡ r
    → content ≡ (f ++ chunk) ++ rest
    → written ≡ length f
    → written ≤ max_bytes
    → ((length chunk == 0) ≡ true → f ≡ content)
    → ((length chunk == 0) ≡ false
        → ltb max_bytes (written + length chunk) ≡ false
        → IsEnd round content max_bytes more)
    → IsEnd round content max_bytes (on_round r max_bytes chunk written f more)
on_round-IsEnd round i fine max_bytes chunk rest f content written more e whole count fits done
      next =
    if-elim (IsEnd round content max_bytes) (length chunk == 0) _ _
      (λ h. (done h, count ∙ ap length (done h), omega (arith, ap length (done h))))
      (λ h.
        if-elim (IsEnd round content max_bytes) (ltb max_bytes (written + length chunk)) _ _
          (λ k. (
            ground (arith, ap length whole, length-append (f ++ chunk) rest, length-append f chunk),
            (chunk ++ rest, whole ∙ append_assoc f chunk rest),
          ))
          (λ k. next h k))
on_round-IsEnd round i read_fails max_bytes chunk rest f content written more e whole count fits
      done next =
    ((chunk ++ rest, whole ∙ append_assoc f chunk rest), λ all_fine. cc (all_fine i))
on_round-IsEnd round i (write_fails n) max_bytes chunk rest f content written more e whole count
      fits done next =
    (
      if-elim (λ g. IsPrefix content (take n g)) (ltb max_bytes (written + length chunk)) f
          (f ++ chunk)
          (λ k. take-IsPrefix n f (chunk ++ rest) content (whole ∙ append_assoc f chunk rest))
          (λ k. take-IsPrefix n (f ++ chunk) rest content whole),
      λ all_fine. cc (all_fine i),
    )

write_from-IsEnd :
    (fuel : ℕ) (round : ℕ → Round) (i max_bytes : ℕ) (rest : List ℕ) (written : ℕ)
    (f content : List ℕ)
    → length rest < fuel
    → written ≡ length f
    → written ≤ max_bytes
    → content ≡ f ++ rest
    → IsEnd round content max_bytes (write_from fuel round i max_bytes rest written f)
unfolding write_from
write_from-IsEnd zero round i max_bytes rest written f content enough count fits whole =
    absurd (omega arith)
write_from-IsEnd (suc fuel) round i max_bytes rest written f content enough count fits whole =
    let chunk : List ℕ = take chunk_size rest in
    let split : content ≡ (f ++ chunk) ++ drop chunk_size rest =
      whole
      ∙ ap (λ s. f ++ s) (sym (take-append-drop chunk_size rest))
      ∙ sym (append_assoc f chunk (drop chunk_size rest)) in
    on_round-IsEnd round i (round i) max_bytes chunk (drop chunk_size rest) f content written
      (write_from fuel round (i + 1) max_bytes (drop chunk_size rest) (written + length chunk)
        (f ++ chunk))
      refl split count fits (λ h. sym (whole ∙ ap (λ s. f ++ s) (no_rest rest h) ∙ append-nil f))
      (λ h k.
        write_from-IsEnd fuel round (i + 1) max_bytes (drop chunk_size rest)
          (written + length chunk) (f ++ chunk) content
          (ground (arith, length-take chunk_size rest, length-drop chunk_size rest))
          (ap (λ n. n + length chunk) count ∙ sym (length-append f chunk)) (ground arith) split)

-- A file that is left where the call raises: a first part of the content, or what was there before.
abbrev pub IsLeftover : Disk → List ℕ → Option (List ℕ) → Type 0
IsLeftover disk content none = Unit
IsLeftover disk content (some f) = IsPrefix content f ⊎ (disk.old ≡ some f)

abbrev pub NothingRaises : Disk → Type 0
NothingRaises disk =
    (disk.opens ≡ true) × (disk.closes ≡ true) × (disk.unlinks ≡ true) × IsFine disk.round

abbrev pub IsSaved : Disk → List ℕ → ℕ → Text → Saved → Type 0
IsSaved disk content max_bytes ext (left, some (ok name)) =
    (left ≡ some content)
    × (0 < length content)
    × (length content ≤ max_bytes)
    × (name ≡ codes "original" ++ ext)
IsSaved disk content max_bytes ext (left, some (http_exception code detail)) =
    (left ≡ none)
    × (((code ≡ 413) × (max_bytes < length content)) ⊎ ((code ≡ 400) × (length content ≡ 0)))
IsSaved disk content max_bytes ext (left, none) =
    IsLeftover disk content left × (NothingRaises disk → ⊥)

settle-IsSaved :
    (disk : Disk) (content : List ℕ) (max_bytes : ℕ) (ext : Text) (w : Written)
    → IsEnd disk.round content max_bytes w
    → IsSaved disk content max_bytes ext (settle disk ext w)
settle-IsSaved disk content max_bytes ext (raises f) h = (inl h.0, λ calm. h.1 calm.3)
settle-IsSaved disk content max_bytes ext (over f) h =
    let P : Saved → Type 0 = IsSaved disk content max_bytes ext in
    if-elim (λ r. P (closed disk r)) disk.unlinks _ _
      (λ u.
        if-elim P disk.closes _ _ (λ c. (refl, inl (refl, h.0)))
          (λ c. (tt, λ calm. clash disk.closes calm.1 c)))
      (λ u.
        if-elim P disk.closes _ _ (λ c. (inl h.1, λ calm. clash disk.unlinks calm.2 u))
          (λ c. (inl h.1, λ calm. clash disk.closes calm.1 c)))
settle-IsSaved disk content max_bytes ext (finished written f) h =
    let P : Saved → Type 0 = IsSaved disk content max_bytes ext in
    let all_of_it : IsPrefix content f = ([], sym (append-nil f ∙ h.0)) in
    if-elim P (not disk.closes) _ _
      (λ c. (inl all_of_it, λ calm. clash (not disk.closes) c (ap not calm.1)))
      (λ c.
        if-elim P (written == 0) _ _
          (λ z.
            if-elim P disk.unlinks _ _ (λ u. (refl, inr (refl, ground (arith, h.1))))
              (λ u. (inl all_of_it, λ calm. clash disk.unlinks calm.2 u)))
          (λ z. (ap some h.0, ground (arith, h.1), h.2, refl)))

-- Whatever the upload, the limit and the calls that raise are: a name is returned only if the whole upload
-- is stored, it is not empty and it is within the limit; a refusal is a 413 for an upload over the limit or
-- a 400 for an empty one, and nothing is left of it; and another exception comes only of a call that
-- raises, and leaves nothing, a first part of the upload, or what was there before.
pub save_upload-IsSaved :
    (lower : Text → Text) (disk : Disk) (filename : Option Text) (content : List ℕ) (max_mb : ℕ)
    → IsSaved disk content
        (max_mb * 1024 * 1024)
        (safe_upload_suffix lower filename)
        (save_upload lower disk filename content max_mb)
unfolding save_upload
save_upload-IsSaved lower disk filename content max_mb =
    let max_bytes : ℕ = max_mb * 1024 * 1024 in
    let ext : Text = safe_upload_suffix lower filename in
    if-elim (IsSaved disk content max_bytes ext) disk.opens _ _
      (λ o. settle-IsSaved disk content max_bytes ext _ (
        write_from-IsEnd (length content + 1) disk.round 0 max_bytes content 0 [] content
          (omega arith) refl (omega arith) refl))
      (λ o. (old disk.old refl, λ calm. clash disk.opens calm.0 o))
  where
    old : (left : Option (List ℕ)) → disk.old ≡ left → IsLeftover disk content left
    old none h = tt
    old (some f) h = inr h
