-- ===== src/CallHooks/Redact.antt =====
-- `redact_text` and `redact_headers` of server/app/services/admin/call_hooks.py. A header's name is ASCII
-- and has no line break.
use corella.Prelude.{
  ℕ, zero, suc, ◌+◌, ◌-◌, Bool, true, false, not, ◌&&◌, ◌||◌, Option, none, some, List, [], ◌∷◌,
  ◌++◌, ◌==◌, ltb, leb, if◌then◌else◌, length, take, keep, any, Text, codes, nonempty, is_space,
  starts_with, contains,
}
use mathlib.Core.List.{reverse}

abbrev pub bullet : ℕ
bullet = 8226

-- `_REDACTED`
abbrev pub redacted : Text
redacted = bullet ∷ bullet ∷ bullet ∷ bullet ∷ []

abbrev pub max_log_chars : ℕ
max_log_chars = 20000

-- `s.replace(old, new)` for an `old` that is not empty, with `skip` characters of a hit to go.
unfoldable pub replace_from : Text → Text → ℕ → Text → Text
unfolding starts_with
replace_from old new skip [] = []
replace_from old new (suc skip) (c ∷ s) = replace_from old new skip s
replace_from old new zero (c ∷ s) =
    let hit = new ++ replace_from old new (length old - 1) s in
    let miss = c ∷ replace_from old new 0 s in if starts_with old (c ∷ s) then hit else miss

abbrev pub replace : Text → Text → Text → Text
replace s old new = replace_from old new 0 s

abbrev pub lower_ascii : ℕ → ℕ
lower_ascii c = if leb b'A' c && leb c b'Z' then c + 32 else c

-- Does a text begin with a word, in letters of either case?
unfoldable pub begins_word : Text → Text → Bool
begins_word [] s = true
begins_word (p ∷ ps) [] = false
begins_word (p ∷ ps) (c ∷ s) =
    let rest = begins_word ps s in if lower_ascii c == p then rest else false

-- How many characters from the start pass a test.
unfoldable pub span : (ℕ → Bool) → Text → ℕ
span test [] = 0
span test (c ∷ s) = let rest = span test s in if test c then suc rest else 0

abbrev pub drop_chars : ℕ → Text → Text
drop_chars zero s = s
drop_chars (suc n) [] = []
drop_chars (suc n) (c ∷ s) = drop_chars n s

abbrev pub spaces_at : Text → ℕ
spaces_at s = span is_space (drop_chars 6 s)

abbrev pub token_at : Text → ℕ
token_at s = span (λ c. not (is_space c)) (drop_chars (6 + spaces_at s) s)

-- Does `_BEARER` match here?
unfoldable pub bearer_at : Text → Bool
unfolding begins_word span
bearer_at s = begins_word (codes "bearer") s && ltb 0 (spaces_at s) && ltb 0 (token_at s)

-- `_BEARER.sub`: the word and the spaces stay.
unfoldable pub hide_bearers : ℕ → Text → Text
unfolding bearer_at take
hide_bearers skip [] = []
hide_bearers (suc skip) (c ∷ s) = hide_bearers skip s
hide_bearers zero (c ∷ s) =
    let kept : ℕ = 6 + spaces_at (c ∷ s) in
    let hit = take kept (c ∷ s) ++ (redacted ++ hide_bearers (kept + token_at (c ∷ s) - 1) s) in
    let miss = c ∷ hide_bearers 0 s in if bearer_at (c ∷ s) then hit else miss

-- `sorted(..., key=len, reverse=True)`: the longest first, in their order where the lengths are equal.
abbrev pub insert_longest : Text → List Text → List Text
insert_longest s [] = s ∷ []
insert_longest s (t ∷ ts) =
    let rest = insert_longest s ts in if leb (length t) (length s) then s ∷ t ∷ ts else t ∷ rest

unfoldable pub longest_first : List Text → List Text
longest_first [] = []
longest_first (s ∷ ss) = insert_longest s (longest_first ss)

unfoldable pub replace_all : Text → List Text → Text
unfolding replace_from
replace_all s [] = s
replace_all s (secret ∷ secrets) = replace_all (replace s secret redacted) secrets

unfoldable pub redact : Text → List Text → Text
unfolding replace_all longest_first keep hide_bearers take
redact text secret_values =
    take max_log_chars
      (hide_bearers 0 (replace_all text (longest_first (keep nonempty secret_values))))

unfoldable pub redact_text : Option Text → List Text → Option Text
unfolding redact
redact_text none secret_values = none
redact_text (some text) secret_values = some (redact text secret_values)

-- `_contains_secret`
unfoldable pub contains_secret : Text → List Text → Bool
unfolding contains any
contains_secret text secret_values =
    any (λ secret. nonempty secret && contains secret text) secret_values

unfoldable pub ends_with : Text → Text → Bool
unfolding begins_word
ends_with word s = begins_word (reverse word) (reverse s)

unfoldable pub is_word : Text → Text → Bool
unfolding begins_word
is_word word s = begins_word word s && length s == length word

-- `_SENSITIVE_HEADER.match`; a name that ends in one of the last four words matches with or without the
-- prefix `x-`, and `key` and an `x-` before it are asked for together.
unfoldable pub sensitive_header : Text → Bool
unfolding ends_with is_word
sensitive_header name =
    is_word (codes "cookie") name
    || is_word (codes "set-cookie") name
    || is_word (codes "x-api-key") name
    || (begins_word (codes "x-") name && leb 5 (length name) && ends_with (codes "key") name)
    || ends_with (codes "secret") name
    || ends_with (codes "token") name
    || ends_with (codes "password") name
    || ends_with (codes "authorization") name

abbrev pub mask_header : List Text → Text × Text → Text × Text
mask_header secret_values (key, value) =
    (key, if sensitive_header key || contains_secret value secret_values then redacted else value)

-- The dict that `redact_headers` fills.
unfoldable pub masked_headers : List (Text × Text) → List Text → List (Text × Text)
unfolding sensitive_header contains_secret
masked_headers [] secret_values = []
masked_headers (header ∷ headers) secret_values =
    mask_header secret_values header ∷ masked_headers headers secret_values

-- `escape` is `json.dumps` of a string, without the quotes.
module _ (escape : Text → Text) where
  abbrev pub json_member : Text × Text → Text
  json_member (key, value) =
      codes "\"" ++ (escape key ++ (codes "\": \"" ++ (escape value ++ codes "\"")))

  abbrev pub json_members : List (Text × Text) → Text
  json_members [] = []
  json_members (header ∷ headers) = codes ", " ++ (json_member header ++ json_members headers)

  -- `json.dumps` of a dict of strings.
  unfoldable pub json_object : List (Text × Text) → Text
  json_object [] = codes "{}"
  json_object (header ∷ headers) =
      codes "{" ++ (json_member header ++ (json_members headers ++ codes "}"))

  unfoldable pub redact_headers : List (Text × Text) → List Text → Text
  unfolding json_object masked_headers
  redact_headers headers secret_values = json_object (masked_headers headers secret_values)
