-- ===== src/Storage/Upload.antt =====
-- The suffix that server/app/core/storage.py keeps of the name of an uploaded file.
use corella.Prelude.{
  ℕ, ◌≡◌, refl, Bool, true, false, not, ◌&&◌, ◌||◌, Option, none, some, [], ◌∷◌, ◌++◌, ◌==◌, leb,
  if◌then◌else◌, length, all, Text, codes, text_eq, nonempty, Bool-cases, inl, inr,
}

-- The parts of a path, without the empty ones and `.`; `part` is read so far.
unfoldable pub name_from : Text → Text → Text → Text
name_from last part [] = if nonempty part && not (text_eq part (codes ".")) then part else last
name_from last part (c ∷ s) =
    let kept = if nonempty part && not (text_eq part (codes ".")) then part else last in
    let next = name_from kept [] s in
    let more = name_from last (part ++ c ∷ []) s in if c == b'/' then next else more

-- `Path(filename).name`
unfoldable pub name : Text → Text
unfolding name_from
name filename = name_from [] [] filename

unfoldable pub from_last_dot : Text → Option Text
from_last_dot [] = none
from_last_dot (c ∷ s) = elim (from_last_dot s) [
  | some t ↦ some t
  | none ↦ if c == b'.' then some (c ∷ s) else none
]

abbrev pub dotted : ℕ → Option Text → Text
dotted n none = []
dotted n (some t) = if length t == n || length t == 1 then [] else t

-- `Path(name).suffix`
unfoldable pub suffix : Text → Text
unfolding from_last_dot
suffix s = dotted (length s) (from_last_dot s)

abbrev pub is_safe_char : ℕ → Bool
is_safe_char c = (leb b'a' c && leb c b'z') || (leb b'0' c && leb c b'9')

-- `_SAFE_SUFFIX.fullmatch`
unfoldable pub safe_suffix : Text → Bool
unfolding all
safe_suffix [] = false
safe_suffix (c ∷ s) = c == b'.' && leb 1 (length s) && leb (length s) 10 && all is_safe_char s

abbrev pub or_empty : Option Text → Text
or_empty none = []
or_empty (some s) = s

module _ (lower : Text → Text) where
  unfoldable pub safe_upload_suffix : Option Text → Text
  unfolding suffix name safe_suffix
  safe_upload_suffix filename =
      let s = lower (suffix (name (or_empty filename))) in if safe_suffix s then s else codes ".bin"

  -- What is kept of a name is a dot and one to ten small letters or digits, whatever the name.
  pub safe_upload_suffix_lem :
      (filename : Option Text) → safe_suffix (safe_upload_suffix filename) ≡ true
  unfolding safe_upload_suffix
  safe_upload_suffix_lem filename =
      elim (Bool-cases (safe_suffix (lower (suffix (name (or_empty filename)))))) [
        | inl safe ↦ rw safe safe
        | inr bad ↦ rw bad refl
      ]
