-- ===== src/CallHooks/Dispatch.antt =====
-- `dispatch_pre_call` and `dispatch_post_call` of server/app/services/admin/call_hooks.py, with the rows
-- that `persist_hook_log` adds. `send` is the request that httpx makes.
use corella.Prelude.{
  ℕ, Bool, true, false, Option, none, some, List, [], ◌∷◌, ◌++◌, leb, if◌then◌else◌, take, Text,
  codes, nonempty,
}
use corella.Transcript.{str}
use corella.CallHooks.Redact.{replace, redact_text, redact_headers, max_log_chars}
use corella.CallHooks.Secrets.{Dict}

-- The columns of a call type that the hooks read.
pub record CallType : Type 0 where
  pub name : Text
  pub pre_call_enabled : Bool
  pub pre_call_url : Text
  pub pre_call_method : Text
  pub pre_call_headers_encrypted : Option Text
  pub pre_call_body_template : Text
  pub pre_call_async : Bool
  pub pre_call_use_as_context : Bool
  pub post_call_enabled : Bool
  pub post_call_url : Text
  pub post_call_method : Text
  pub post_call_headers_encrypted : Option Text
  pub post_call_body_template : Text
  pub post_call_send_full_payload : Bool
  pub post_call_async : Bool

-- A value of a payload.
pub data JsonValue : Type 0 where
  text : Text → JsonValue
  null : JsonValue
  -- Another value, as `json.dumps` writes it.
  written : Text → JsonValue

-- The columns of a meeting that the hooks read, dates and enums as texts.
pub record HookMeeting : Type 0 where
  pub id : Text
  pub owner_id : Text
  pub organization_id : ℕ
  pub owner_name : JsonValue
  pub title : JsonValue
  pub capture_mode : Text
  pub capture_app : JsonValue
  pub status : Text
  pub created_at : JsonValue
  pub call_type : Option CallType

pub record Settings : Type 0 where
  pub public_app_url : Text
  pub pre_call_context_max_chars : ℕ

pub record Request : Type 0 where
  pub method : Text
  pub url : Text
  pub headers : Dict
  pub content : Option Text

-- What comes of a request: an httpx.RequestError with the message that is made of it, another exception,
-- or a response with its status and text; and how long it took.
pub data Outcome : Type 0 where
  request_error : Text → ℕ → Outcome
  exception : Outcome
  response : ℕ → Text → ℕ → Outcome

pub record HookLog : Type 0 where
  pub phase : Text
  pub succeeded : Bool
  pub method : Text
  pub url : Text
  pub request_headers : Option Text
  pub request_body : Option Text
  pub response_status : Option ℕ
  pub response_body : Option Text
  pub error : Option Text
  pub duration_ms : Option ℕ
  pub ran_async : Bool

-- What a call leaves: the requests that were sent, the rows that were added, and what it returns; `none`
-- is an exception that goes through it.
pub record Dispatched : Type 0 where
  pub sent : List Request
  pub logs : List HookLog
  pub returned : Option (Option Text)

abbrev pub or_text : Text → Text → Text
or_text s default = if nonempty s then s else default

-- What a row is made of, before the redaction.
pub record Attempt : Type 0 where
  pub succeeded : Bool
  pub headers : Option Dict
  pub request_body : Option Text
  pub response_status : Option ℕ
  pub response_body : Option Text
  pub error : Option Text
  pub duration_ms : Option ℕ

abbrev pub redacted_headers : (Text → Text) → Option Dict → List Text → Option Text
redacted_headers escape none secrets = none
redacted_headers escape (some headers) secrets = some (redact_headers escape headers secrets)

abbrev pub capped : Option Text → Option Text
capped none = none
capped (some s) = if nonempty s then some (take max_log_chars s) else none

-- `persist_hook_log`, with the `escape` of JSON texts.
unfoldable pub persist_hook_log :
    (Text → Text) → Text → Bool → Text → Text → Attempt → List Text → HookLog
unfolding redact_headers redact_text take
persist_hook_log escape phase ran_async method url attempt secrets = record {
  phase = phase;
  succeeded = attempt.succeeded;
  method = method;
  url = url;
  request_headers = redacted_headers escape attempt.headers secrets;
  request_body = redact_text attempt.request_body secrets;
  response_status = attempt.response_status;
  response_body = redact_text attempt.response_body secrets;
  error = capped attempt.error;
  duration_ms = attempt.duration_ms;
  ran_async = ran_async;
}

-- An attempt that ended before a request was sent.
abbrev pub not_sent : Option Dict → Option Text → Text → Attempt
not_sent headers body error = record {
  succeeded = false;
  headers = headers;
  request_body = body;
  response_status = none;
  response_body = none;
  error = some error;
  duration_ms = none;
}

-- `_mandatory_headers`
unfoldable pub mandatory_headers : Settings → HookMeeting → Dict
unfolding str
mandatory_headers settings meeting =
    (codes "X-Corella-App-Url", settings.public_app_url)
    ∷ (codes "X-Corella-Meeting-Id", meeting.id)
    ∷ (codes "X-Corella-User-Id", meeting.owner_id)
    ∷ (codes "X-Corella-Org-Id", str meeting.organization_id)
    ∷ []

-- `escape` is `json.dumps` of a string, without the quotes.
module _ (escape : Text → Text) where
  -- `_json_value`
  abbrev pub json_value : JsonValue → Text
  json_value (text s) = escape s
  json_value null = codes "null"
  json_value (written s) = s

  -- `_apply_placeholders`
  unfoldable pub apply_placeholders : Text → List (Text × JsonValue) → Text
  apply_placeholders rendered [] = rendered
  apply_placeholders rendered ((key, value) ∷ values) =
      apply_placeholders
        (replace rendered (codes "{{corella." ++ (key ++ codes "}}")) (json_value value)) values

  abbrev pub type_name : Option CallType → JsonValue
  type_name none = null
  type_name (some call_type) = text call_type.name

  unfoldable pub render_pre_call_template : Text → HookMeeting → Text
  unfolding apply_placeholders
  render_pre_call_template template meeting = apply_placeholders template (
      (codes "meeting_id", text meeting.id)
      ∷ (codes "owner_id", text meeting.owner_id)
      ∷ (codes "owner_name", meeting.owner_name)
      ∷ (codes "title", meeting.title)
      ∷ (codes "call_type", type_name meeting.call_type)
      ∷ (codes "capture_mode", text meeting.capture_mode)
      ∷ (codes "capture_app", meeting.capture_app)
      ∷ (codes "status", text meeting.status)
      ∷ (codes "created_at", meeting.created_at)
      ∷ [])

-- What is logged of a response, and what is returned of it.
abbrev pub answered : Bool → Dict → Option Text → ℕ → Text → Text → ℕ → Attempt
answered succeeded headers body status logged error duration = record {
  succeeded = succeeded;
  headers = some headers;
  request_body = body;
  response_status = some status;
  response_body = some logged;
  error = if succeeded then none else some error;
  duration_ms = some duration;
}

abbrev pub failed : Dict → Option Text → Text → ℕ → Attempt
failed headers body error duration = record {
  succeeded = false;
  headers = some headers;
  request_body = body;
  response_status = none;
  response_body = none;
  error = some error;
  duration_ms = some duration;
}

-- The part of both functions from the request on: `log` makes a row, and `context` is what is logged and
-- returned of a response that is no error.
unfoldable pub conclude :
    (Attempt → HookLog) → (Text → Text) → (Text → Option Text) → Request → Outcome → Dispatched
unfolding str
conclude log context result request (request_error message duration) = record {
  sent = request ∷ [];
  logs = log (failed request.headers request.content message duration) ∷ [];
  returned = some none;
}
conclude log context result request exception = record {
  sent = request ∷ [];
  logs = [];
  returned = none;
}
conclude log context result request (response status answer duration) =
    if leb 400 status
    then record {
      sent = request ∷ [];
      logs =
          log (
            answered false request.headers request.content status answer
              (codes "HTTP " ++ str status) duration)
          ∷ [];
      returned = some none;
    }
    else record {
      sent = request ∷ [];
      logs =
          log (answered true request.headers request.content status (context answer) [] duration)
          ∷ [];
      returned = some (result (context answer));
    }

-- A call that logs an attempt and sends nothing.
abbrev pub gave_up : HookLog → Dispatched
gave_up row = record { sent = []; logs = row ∷ []; returned = some none }

abbrev pub nothing : Dispatched
nothing = record { sent = []; logs = []; returned = some none }

abbrev pub stopped : Dispatched
stopped = record { sent = []; logs = []; returned = none }
