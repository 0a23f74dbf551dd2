-- ===== src/CallHooks/Calls.antt =====
-- `dispatch_pre_call`, `dispatch_post_call` and `record_hook_queue_failure` of
-- server/app/services/admin/call_hooks.py. `payload` is what `build_full_payload` collects, which may
-- raise; `dumps_object` is `json.dumps` of it. `encodable` says which texts UTF-8 can encode.
use corella.Prelude.{
  Bool, true, not, ◌||◌, Option, none, some, List, [], ◌∷◌, ◌++◌, if◌then◌else◌, take, Text, codes,
  nonempty,
}
use corella.CallHooks.Secrets.{
  Dict, merge, AppSecret, Loaded, Resolved, resolved, refused, key_error, resolve_custom_headers,
  secret_values_for_headers,
}
use corella.CallHooks.Dispatch.{
  CallType, HookMeeting, JsonValue, written, Settings, Request, Outcome, HookLog, Dispatched,
  Attempt, persist_hook_log, not_sent, mandatory_headers, render_pre_call_template,
  apply_placeholders, conclude, gave_up, nothing, stopped, or_text,
}

abbrev pub unresolved : Text
unresolved = codes "Headers could not be resolved (missing or unknown secret)."

-- `record_hook_queue_failure`, for a call type that is set.
unfoldable pub record_hook_queue_failure : (Text → Text) → Bool → CallType → HookLog
unfolding persist_hook_log
record_hook_queue_failure escape pre call_type =
    let attempt =
      not_sent none none
        (codes "Could not queue this hook — the background worker is unreachable.") in
    if pre
    then persist_hook_log escape (codes "pre") call_type.pre_call_async
        (or_text call_type.pre_call_method (codes "GET")) call_type.pre_call_url attempt []
    else persist_hook_log escape (codes "post") call_type.post_call_async
        (or_text call_type.post_call_method (codes "POST")) call_type.post_call_url attempt []

-- What the calls meet: the decryption and the parse of the headers, the stored secrets, the writing of
-- JSON, the encoding, the network and the settings.
pub record World : Type 0 where
  pub decrypt : Text → Option Text
  pub load : Text → Loaded
  pub rows : List AppSecret
  pub escape : Text → Text
  pub dumps_object : List (Text × JsonValue) → Text
  pub encodable : Text → Bool
  pub send : Request → Outcome
  pub settings : Settings

module _ (world : World) where
  abbrev pub pre_secrets : HookMeeting → CallType → List Text
  pre_secrets meeting call_type =
      secret_values_for_headers world.decrypt world.load world.rows
        call_type.pre_call_headers_encrypted meeting.organization_id

  abbrev pub pre_log : HookMeeting → CallType → Attempt → HookLog
  pre_log meeting call_type attempt =
      persist_hook_log world.escape (codes "pre") call_type.pre_call_async
        (or_text call_type.pre_call_method (codes "GET")) call_type.pre_call_url attempt
        (pre_secrets meeting call_type)

  abbrev pub pre_body : HookMeeting → CallType → Option Text
  pre_body meeting call_type =
      if nonempty call_type.pre_call_body_template
      then some (render_pre_call_template world.escape call_type.pre_call_body_template meeting)
      else none

  abbrev pub can_encode : Option Text → Bool
  can_encode none = true
  can_encode (some body) = world.encodable body

  abbrev pub pre_request : HookMeeting → CallType → Dict → Request
  pre_request meeting call_type custom = record {
    method = or_text call_type.pre_call_method (codes "GET");
    url = call_type.pre_call_url;
    headers = merge custom (mandatory_headers world.settings meeting);
    content = pre_body meeting call_type;
  }

  abbrev pub pre_sent : HookMeeting → CallType → Dict → Dispatched
  pre_sent meeting call_type custom =
      conclude (pre_log meeting call_type) (take world.settings.pre_call_context_max_chars) some
        (pre_request meeting call_type custom) (world.send (pre_request meeting call_type custom))

  abbrev pub pre_unencodable : HookMeeting → CallType → Dict → Attempt
  pre_unencodable meeting call_type custom =
      not_sent (some (merge custom (mandatory_headers world.settings meeting))) none
        (codes "Failed to render body template.")

  -- From the headers on.
  unfoldable pub pre_call_with : HookMeeting → CallType → Resolved → Dispatched
  unfolding persist_hook_log render_pre_call_template conclude mandatory_headers take
  pre_call_with meeting call_type refused =
      gave_up (pre_log meeting call_type (not_sent none none unresolved))
  pre_call_with meeting call_type key_error = stopped
  pre_call_with meeting call_type (resolved custom) =
      if can_encode (pre_body meeting call_type)
      then pre_sent meeting call_type custom
      else gave_up (pre_log meeting call_type (pre_unencodable meeting call_type custom))

  abbrev pub pre_call_of : HookMeeting → Option CallType → Dispatched
  pre_call_of meeting none = nothing
  pre_call_of meeting (some call_type) =
      if not call_type.pre_call_enabled || not (nonempty call_type.pre_call_url)
      then nothing
      else pre_call_with meeting call_type (
          resolve_custom_headers world.decrypt world.load world.rows
            call_type.pre_call_headers_encrypted meeting.organization_id)

  unfoldable pub dispatch_pre_call : HookMeeting → Dispatched
  unfolding pre_call_with secret_values_for_headers resolve_custom_headers
  dispatch_pre_call meeting = pre_call_of meeting meeting.call_type

  abbrev pub post_secrets : HookMeeting → CallType → List Text
  post_secrets meeting call_type =
      secret_values_for_headers world.decrypt world.load world.rows
        call_type.post_call_headers_encrypted meeting.organization_id

  abbrev pub post_log : HookMeeting → CallType → Attempt → HookLog
  post_log meeting call_type attempt =
      persist_hook_log world.escape (codes "post") call_type.post_call_async
        (or_text call_type.post_call_method (codes "POST")) call_type.post_call_url attempt
        (post_secrets meeting call_type)

  -- The body; `none` is an exception, in the payload or in its encoding.
  unfoldable pub post_body : CallType → Option (List (Text × JsonValue)) → Option Text
  unfolding apply_placeholders
  post_body call_type none = none
  post_body call_type (some payload) =
      if call_type.post_call_send_full_payload
      then some (world.dumps_object payload)
      else some (
          apply_placeholders world.escape (or_text call_type.post_call_body_template (codes "{}"))
            (payload ++ (codes "full_payload", written (world.dumps_object payload)) ∷ []))

  abbrev pub post_request : HookMeeting → CallType → Text → Dict → Request
  post_request meeting call_type body custom = record {
    method = or_text call_type.post_call_method (codes "POST");
    url = call_type.post_call_url;
    headers =
        merge (merge ((codes "Content-Type", codes "application/json") ∷ []) custom)
          (mandatory_headers world.settings meeting);
    content = some body;
  }

  abbrev pub post_sent : HookMeeting → CallType → Text → Dict → Dispatched
  post_sent meeting call_type body custom =
      conclude (post_log meeting call_type) (λ answer. answer) (λ answer. none)
        (post_request meeting call_type body custom)
        (world.send (post_request meeting call_type body custom))

  -- From the headers on. A body that cannot be encoded raises where the request is made.
  unfoldable pub post_call_with : HookMeeting → CallType → Text → Resolved → Dispatched
  unfolding persist_hook_log conclude mandatory_headers
  post_call_with meeting call_type body refused =
      gave_up (post_log meeting call_type (not_sent none (some body) unresolved))
  post_call_with meeting call_type body key_error = stopped
  post_call_with meeting call_type body (resolved custom) =
      if world.encodable body then post_sent meeting call_type body custom else stopped

  abbrev pub post_call_body : HookMeeting → CallType → Option Text → Dispatched
  post_call_body meeting call_type none =
      gave_up
        (post_log meeting call_type (not_sent none none (codes "Failed to build request body.")))
  post_call_body meeting call_type (some body) = post_call_with meeting call_type body (
      resolve_custom_headers world.decrypt world.load world.rows
        call_type.post_call_headers_encrypted meeting.organization_id)

  abbrev pub post_call_of :
      HookMeeting → Option (List (Text × JsonValue)) → Option CallType → Dispatched
  post_call_of meeting payload none = nothing
  post_call_of meeting payload (some call_type) =
      if not call_type.post_call_enabled || not (nonempty call_type.post_call_url)
      then nothing
      else post_call_body meeting call_type (post_body call_type payload)

  unfoldable pub dispatch_post_call : HookMeeting → Option (List (Text × JsonValue)) → Dispatched
  unfolding post_body post_call_with secret_values_for_headers resolve_custom_headers
  dispatch_post_call meeting payload = post_call_of meeting payload meeting.call_type
