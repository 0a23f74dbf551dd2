-- ===== src/CallHooks/Lacks.antt =====
-- What `redact_text` leaves of a text contains no secret value.
use corella.Prelude.{
  ◌≡◌, true, false, List, [], ◌∷◌, leb, if-elim, length, take, drop, keep, All, Text, nonempty,
  contains,
}
use corella.CallHooks.Redact.{
  redacted, replace, replace_all, longest_first, insert_longest, hide_bearers, redact,
  max_log_chars,
}
use corella.CallHooks.Masked.{
  Masked, IsPlain, lacks-Masked, replace-lacks, replace-Masked, hide_bearers-Masked, take-Masked,
}

replace_all-lacks :
    (w : Text) (secrets : List Text) (s : Text)
    → nonempty w ≡ true
    → IsPlain w
    → contains w s ≡ false
    → contains w (replace_all s secrets) ≡ false
unfolding replace_all
replace_all-lacks w [] s n p h = h
replace_all-lacks w (secret ∷ secrets) s n p h =
    replace_all-lacks w secrets (replace s secret redacted) n p
      (lacks-Masked w s (replace s secret redacted) n p (replace-Masked s secret) h)

-- A text lacks a secret that is worth the name and has no bullet in it.
abbrev pub Lacks : Text → Text → Type 0
Lacks s secret = nonempty secret ≡ true → IsPlain secret → contains secret s ≡ false

replace_all-Lacks : (secrets : List Text) (s : Text) → All (Lacks (replace_all s secrets)) secrets
unfolding replace_all
replace_all-Lacks [] s = tt
replace_all-Lacks (secret ∷ secrets) s = (
  λ n p.
      replace_all-lacks secret secrets (replace s secret redacted) n p (replace-lacks secret s n p),
  replace_all-Lacks secrets (replace s secret redacted),
)

All-insert_longest :
    (P : Text → Type 0) (s : Text) (ts : List Text) → All P (insert_longest s ts) → P s × All P ts
All-insert_longest P s [] h = h
All-insert_longest P s (t ∷ ts) h =
    if-elim (λ ss. All P ss → P s × All P (t ∷ ts)) (leb (length t) (length s)) (s ∷ t ∷ ts)
      (t ∷ insert_longest s ts) (λ e k. k)
      (λ e k. let both = All-insert_longest P s ts k.1 in (both.0, (k.0, both.1))) h

All-longest_first : (P : Text → Type 0) (ss : List Text) → All P (longest_first ss) → All P ss
unfolding longest_first
All-longest_first P [] h = tt
All-longest_first P (s ∷ ss) h =
    let both = All-insert_longest P s (longest_first ss) h in
    (both.0, All-longest_first P ss both.1)

All-keep-nonempty :
    (s : Text) (ss : List Text) → All (Lacks s) (keep nonempty ss) → All (Lacks s) ss
unfolding keep
All-keep-nonempty s [] h = tt
All-keep-nonempty s ([] ∷ ss) h = (λ n p. cc, All-keep-nonempty s ss h)
All-keep-nonempty s ((c ∷ t) ∷ ss) h = (h.0, All-keep-nonempty s ss h.1)

All-Lacks : (s t : Text) (ss : List Text) → Masked s t → All (Lacks s) ss → All (Lacks t) ss
All-Lacks s t [] m h = tt
All-Lacks s t (w ∷ ss) m h = (λ n p. lacks-Masked w s t n p m (h.0 n p), All-Lacks s t ss m h.1)

-- Whatever a text and the secret values are: what the redaction leaves of the text contains none of those
-- values that are not empty and have no bullet in them.
pub redact-Lacks :
    (text : Text) (secret_values : List Text)
    → All (Lacks (redact text secret_values)) secret_values
unfolding redact drop
redact-Lacks text secret_values =
    let replaced = replace_all text (longest_first (keep nonempty secret_values)) in
    All-Lacks (hide_bearers 0 replaced) (take max_log_chars (hide_bearers 0 replaced)) secret_values
      (take-Masked max_log_chars (hide_bearers 0 replaced))
      (All-Lacks replaced (hide_bearers 0 replaced) secret_values (hide_bearers-Masked 0 replaced) (
        All-keep-nonempty replaced secret_values (
          All-longest_first (Lacks replaced) (keep nonempty secret_values)
            (replace_all-Lacks (longest_first (keep nonempty secret_values)) text))))
