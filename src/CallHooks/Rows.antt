-- ===== src/CallHooks/Rows.antt =====
-- What `persist_hook_log` and the end of the calls write into a row.
use corella.Prelude.{
  ℕ, ◌≡◌, refl, Bool, true, false, ◌||◌, Option, none, some, List, [], ◌∷◌, leb, if-elim, All, Text,
  contains, starts_with, arith,
}
use corella.CallHooks.Redact.{
  redacted, redact_text, masked_headers, redact_headers, json_object, contains_secret,
  sensitive_header,
}
use corella.CallHooks.Masked.{IsPlain}
use corella.CallHooks.Lacks.{Lacks, redact-Lacks}
use corella.CallHooks.Secrets.{Dict}
use corella.CallHooks.Dispatch.{
  Request, Outcome, request_error, exception, response, HookLog, Dispatched, Attempt,
  persist_hook_log, redacted_headers, conclude,
}

abbrev pub TextLacks : List Text → Option Text → Type 0
TextLacks secrets none = Unit
TextLacks secrets (some s) = All (Lacks s) secrets

-- The text of the headers is that of a dict with no secret in any of its values.
abbrev pub HeadersLack : (Text → Text) → List Text → Option Text → Type 0
HeadersLack escape secrets none = Unit
HeadersLack escape secrets (some s) =
    (headers : Dict) × (s ≡ json_object escape headers)
    × All (λ header. All (Lacks header.1) secrets) headers

-- A row shows no secret value in a value of the headers before it is escaped for JSON, in the body of the
-- request or in that of the response.
abbrev pub IsRedacted : (Text → Text) → List Text → HookLog → Type 0
IsRedacted escape secrets row =
    HeadersLack escape secrets row.request_headers
    × TextLacks secrets row.request_body
    × TextLacks secrets row.response_body

bullets-Lack : (x : ℕ) (w : Text) → IsPlain (x ∷ w) → contains (x ∷ w) redacted ≡ false
unfolding contains starts_with
bullets-Lack x w p = ground (arith, p.0)

redacted-Lacks : (secrets : List Text) → All (Lacks redacted) secrets
redacted-Lacks [] = tt
redacted-Lacks (secret ∷ secrets) = (bullets secret, redacted-Lacks secrets)
  where
    bullets : (secret : Text) → Lacks redacted secret
    bullets [] n p = cc
    bullets (x ∷ w) n p = bullets-Lack x w p

contains_secret-Lacks :
    (value : Text) (secrets : List Text)
    → contains_secret value secrets ≡ false
    → All (Lacks value) secrets
unfolding contains_secret
contains_secret-Lacks value [] h = tt
contains_secret-Lacks value (secret ∷ secrets) h =
    (λ n p. ground arith, contains_secret-Lacks value secrets (ground arith))

or-false : (a b : Bool) → (a || b) ≡ false → b ≡ false
or-false true b h = cc
or-false false b h = h

masked_headers-Lacks :
    (secrets : List Text) (headers : Dict)
    → All (λ header. All (Lacks header.1) secrets) (masked_headers headers secrets)
unfolding masked_headers
masked_headers-Lacks secrets [] = tt
masked_headers-Lacks secrets ((key, value) ∷ headers) = (
  if-elim (λ v. All (Lacks v) secrets) (sensitive_header key || contains_secret value secrets)
      redacted value (λ hidden. redacted-Lacks secrets)
      (λ shown.
        contains_secret-Lacks value secrets
          (or-false (sensitive_header key) (contains_secret value secrets) shown)),
  masked_headers-Lacks secrets headers,
)

redact_text-Lacks :
    (secrets : List Text) (s : Option Text) → TextLacks secrets (redact_text s secrets)
unfolding redact_text
redact_text-Lacks secrets none = tt
redact_text-Lacks secrets (some s) = redact-Lacks s secrets

redacted_headers-Lack :
    (escape : Text → Text) (secrets : List Text) (headers : Option Dict)
    → HeadersLack escape secrets (redacted_headers escape headers secrets)
unfolding redact_headers
redacted_headers-Lack escape secrets none = tt
redacted_headers-Lack escape secrets (some headers) =
    (masked_headers headers secrets, refl, masked_headers-Lacks secrets headers)

pub persist_hook_log-IsRedacted :
    (escape : Text → Text) (phase : Text) (ran_async : Bool) (method url : Text) (attempt : Attempt)
    (secrets : List Text)
    → IsRedacted escape secrets (persist_hook_log escape phase ran_async method url attempt secrets)
unfolding persist_hook_log
persist_hook_log-IsRedacted escape phase ran_async method url attempt secrets = (
  redacted_headers-Lack escape secrets attempt.headers,
  redact_text-Lacks secrets attempt.request_body,
  redact_text-Lacks secrets attempt.response_body,
)

pub conclude-logs :
    (P : HookLog → Type 0) (log : Attempt → HookLog) (context : Text → Text)
    (result : Text → Option Text) (request : Request) (outcome : Outcome)
    → ((attempt : Attempt) → P (log attempt))
    → All P (conclude log context result request outcome).logs
unfolding conclude
conclude-logs P log context result request (request_error message duration) h = (h _, tt)
conclude-logs P log context result request exception h = tt
conclude-logs P log context result request (response status answer duration) h =
    if-elim (λ (d : Dispatched). All P d.logs) (leb 400 status) _ _ (λ e. (h _, tt))
      (λ e. (h _, tt))
