-- ===== src/CallHooks/Secrets.antt =====
-- The custom headers of a hook: `resolve_custom_headers` and `_secret_values_for_headers` of
-- server/app/services/admin/call_hooks.py. `load` is `json.loads(decrypt_secret(...))` and `decrypt` is
-- `decrypt_secret`, which may raise.
use corella.Prelude.{
  ℕ, zero, suc, ◌+◌, Bool, false, ◌&&◌, ◌||◌, Option, none, some, List, [], ◌∷◌, ◌++◌, ◌==◌, leb,
  if◌then◌else◌, take, drop, keep, any, all, Text, codes, text_eq, nonempty, starts_with, is_some,
}
use corella.CallHooks.Redact.{span}

-- A `dict` of texts, in the order of insertion.
abbrev pub Dict : Type 0
Dict = List (Text × Text)

abbrev pub get : Text → Dict → Option Text
get key [] = none
get key ((k, v) ∷ dict) = let rest = get key dict in if text_eq k key then some v else rest

-- `dict[key] = value`
abbrev pub put : Text → Text → Dict → Dict
put key value [] = (key, value) ∷ []
put key value ((k, v) ∷ dict) =
    let rest = put key value dict in if text_eq k key then (k, value) ∷ dict else (k, v) ∷ rest

-- `{**dict, **other}`
abbrev pub merge : Dict → Dict → Dict
merge dict [] = dict
merge dict ((k, v) ∷ other) = merge (put k v dict) other

abbrev pub is_letter : ℕ → Bool
is_letter c = (leb b'A' c && leb c b'Z') || (leb b'a' c && leb c b'z')

abbrev pub is_name_char : ℕ → Bool
is_name_char c = is_letter c || (leb b'0' c && leb c b'9') || c == b'_'

abbrev pub name_length : Text → ℕ
name_length s = span is_name_char (drop 9 s)

abbrev pub begins_with_letter : Text → Bool
begins_with_letter [] = false
begins_with_letter (c ∷ s) = is_letter c

-- Does `_SECRET_REF` match here? Its length is that of the name and of what stands around it.
unfoldable pub ref_at : Text → Bool
unfolding span drop starts_with
ref_at s =
    starts_with (codes "{{secret.") s
    && begins_with_letter (drop 9 s)
    && starts_with (codes "}}") (drop (9 + name_length s) s)

abbrev pub name_at : Text → Text
name_at s = take (name_length s) (drop 9 s)

-- `_SECRET_REF.findall`, with `skip` characters of a match to go.
unfoldable pub find_names : ℕ → Text → List Text
unfolding ref_at take
find_names skip [] = []
find_names (suc skip) (c ∷ s) = find_names skip s
find_names zero (c ∷ s) =
    let hit = name_at (c ∷ s) ∷ find_names (name_length (c ∷ s) + 10) s in
    let miss = find_names 0 s in if ref_at (c ∷ s) then hit else miss

-- A part that is put in, before the rest of the text; `none` is a KeyError.
abbrev pub before : Option Text → Option Text → Option Text
before none rest = none
before (some value) none = none
before (some value) (some rest) = some (value ++ rest)

-- `_SECRET_REF.sub(lambda match: values[match.group(1)], text)`
unfoldable pub interpolate : Dict → ℕ → Text → Option Text
unfolding ref_at take
interpolate values skip [] = some []
interpolate values (suc skip) (c ∷ s) = interpolate values skip s
interpolate values zero (c ∷ s) =
    let hit =
      before (get (name_at (c ∷ s)) values) (interpolate values (name_length (c ∷ s) + 10) s) in
    let miss = before (some (c ∷ [])) (interpolate values 0 s) in
    if ref_at (c ∷ s) then hit else miss

-- A value of the headers' JSON: a string, or what `str` makes of another value.
pub data HeaderValue : Type 0 where
  string : Text → HeaderValue
  other : Text → HeaderValue

pub data Loaded : Type 0 where
  unreadable : Loaded
  not_an_object : Loaded
  object : List (Text × HeaderValue) → Loaded

pub record AppSecret : Type 0 where
  pub organization_id : ℕ
  pub name : Text
  pub value_encrypted : Text

abbrev pub names_in : HeaderValue → List Text
names_in (string text) = find_names 0 text
names_in (other text) = []

unfoldable pub referenced : List (Text × HeaderValue) → List Text
unfolding find_names
referenced [] = []
referenced ((key, value) ∷ parsed) = names_in value ++ referenced parsed

-- The query on the secrets of the organization.
unfoldable pub secrets_named : List Text → ℕ → List AppSecret → List AppSecret
unfolding keep any
secrets_named names organization_id rows =
    keep (λ r. any (λ n. text_eq n r.name) names && r.organization_id == organization_id) rows

pub data Resolved : Type 0 where
  resolved : Dict → Resolved
  -- `return None`
  refused : Resolved
  key_error : Resolved

abbrev pub text_of : HeaderValue → Text
text_of (string text) = text
text_of (other text) = text

abbrev pub with_header : Text → Option Text → Option Dict → Option Dict
with_header key none rest = none
with_header key (some value) none = none
with_header key (some value) (some rest) = some ((key, value) ∷ rest)

-- The last loop. The keys of a JSON object are distinct texts.
unfoldable pub resolve_all : Dict → List (Text × HeaderValue) → Option Dict
unfolding interpolate
resolve_all values [] = some []
resolve_all values ((key, value) ∷ parsed) =
    with_header key (interpolate values 0 (text_of value)) (resolve_all values parsed)

abbrev pub finished : Option Dict → Resolved
finished none = key_error
finished (some dict) = resolved dict

module _ (decrypt : Text → Option Text) where
  abbrev pub put_decrypted : Text → Option Text → Option Dict → Option Dict
  put_decrypted name value none = none
  put_decrypted name none (some values) = none
  put_decrypted name (some value) (some values) = some (put name value values)

  -- The values by name; `none` is a secret that cannot be decrypted.
  unfoldable pub decrypt_all : List AppSecret → Option Dict → Option Dict
  decrypt_all [] values = values
  decrypt_all (row ∷ rows) values =
      decrypt_all rows (put_decrypted row.name (decrypt row.value_encrypted) values)

  abbrev pub with_value : Option Text → List Text → List Text
  with_value none values = values
  with_value (some value) values = value ∷ values

  -- A secret that cannot be decrypted is passed over.
  unfoldable pub decrypted : List AppSecret → List Text
  decrypted [] = []
  decrypted (row ∷ rows) = with_value (decrypt row.value_encrypted) (decrypted rows)

module _ (decrypt : Text → Option Text) (load : Text → Loaded) where
  unfoldable pub resolve_with : List (Text × HeaderValue) → List Text → Option Dict → Resolved
  unfolding resolve_all all
  resolve_with parsed names none = refused
  resolve_with parsed names (some values) =
      if all (λ n. is_some (get n values)) names
      then finished (resolve_all values parsed)
      else refused

  abbrev pub resolve_loaded : List AppSecret → ℕ → Loaded → Resolved
  resolve_loaded rows organization_id unreadable = refused
  resolve_loaded rows organization_id not_an_object = refused
  resolve_loaded rows organization_id (object parsed) =
      resolve_with parsed (referenced parsed)
        (decrypt_all decrypt (secrets_named (referenced parsed) organization_id rows) (some []))

  unfoldable pub resolve_custom_headers : List AppSecret → Option Text → ℕ → Resolved
  unfolding resolve_with decrypt_all secrets_named referenced
  resolve_custom_headers rows none organization_id = resolved []
  resolve_custom_headers rows (some encrypted) organization_id =
      if nonempty encrypted
      then resolve_loaded rows organization_id (load encrypted)
      else resolved []

  abbrev pub values_loaded : List AppSecret → ℕ → Loaded → List Text
  values_loaded rows organization_id unreadable = []
  values_loaded rows organization_id not_an_object = []
  values_loaded rows organization_id (object parsed) =
      decrypted decrypt (secrets_named (referenced parsed) organization_id rows)

  -- `_secret_values_for_headers`
  unfoldable pub secret_values_for_headers : List AppSecret → Option Text → ℕ → List Text
  unfolding decrypted secrets_named referenced
  secret_values_for_headers rows none organization_id = []
  secret_values_for_headers rows (some encrypted) organization_id =
      if nonempty encrypted then values_loaded rows organization_id (load encrypted) else []
