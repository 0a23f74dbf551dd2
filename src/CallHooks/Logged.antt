-- ===== src/CallHooks/Logged.antt =====
-- What the rows of the hooks' log show.
use corella.Prelude.{
  not, ◌||◌, Option, none, some, List, [], if-elim, take, All, Text, codes, nonempty,
}
use corella.CallHooks.Secrets.{
  Resolved, resolved, refused, key_error, resolve_custom_headers, secret_values_for_headers,
}
use corella.CallHooks.Dispatch.{
  CallType, HookMeeting, JsonValue, Dispatched, Attempt, gave_up, nothing, stopped, not_sent,
  or_text,
}
use corella.CallHooks.Calls.{
  World, dispatch_pre_call, dispatch_post_call, pre_call_of, pre_call_with, pre_secrets, pre_log,
  post_log, post_call_of, post_call_with, post_call_body, post_secrets, post_body, pre_request,
  pre_sent, pre_unencodable, pre_body, can_encode, post_request, post_sent, unresolved,
}
use corella.CallHooks.Rows.{IsRedacted, persist_hook_log-IsRedacted, conclude-logs}

module _ (world : World) where
  -- The secret values of the hook's headers, none where there is no call type.
  abbrev pub hook_secrets : (CallType → Option Text) → HookMeeting → Option CallType → List Text
  hook_secrets headers meeting none = []
  hook_secrets headers meeting (some call_type) =
      secret_values_for_headers world.decrypt world.load world.rows (headers call_type)
        meeting.organization_id

  pre_row-IsRedacted :
      (meeting : HookMeeting) (call_type : CallType) (attempt : Attempt)
      → IsRedacted world.escape
          (pre_secrets world meeting call_type)
          (pre_log world meeting call_type attempt)
  pre_row-IsRedacted meeting call_type attempt =
      persist_hook_log-IsRedacted world.escape (codes "pre") call_type.pre_call_async
        (or_text call_type.pre_call_method (codes "GET")) call_type.pre_call_url attempt
        (pre_secrets world meeting call_type)

  pre_call_with-IsRedacted :
      (meeting : HookMeeting) (call_type : CallType) (headers : Resolved)
      → All
          (IsRedacted world.escape (pre_secrets world meeting call_type))
          (pre_call_with world meeting call_type headers).logs
  unfolding pre_call_with
  pre_call_with-IsRedacted meeting call_type refused =
      (pre_row-IsRedacted meeting call_type (not_sent none none unresolved), tt)
  pre_call_with-IsRedacted meeting call_type key_error = tt
  pre_call_with-IsRedacted meeting call_type (resolved custom) =
      let P = IsRedacted world.escape (pre_secrets world meeting call_type) in
      let log = pre_log world meeting call_type in
      let request = pre_request world meeting call_type custom in
      if-elim (λ (d : Dispatched). All P d.logs)
        (can_encode world (pre_body world meeting call_type))
        (pre_sent world meeting call_type custom)
        (gave_up (log (pre_unencodable world meeting call_type custom)))
        (λ e.
          conclude-logs P log (take world.settings.pre_call_context_max_chars) some request
            (world.send request) (pre_row-IsRedacted meeting call_type))
        (λ e. (
          pre_row-IsRedacted meeting call_type (pre_unencodable world meeting call_type custom),
          tt,
        ))

  pre_call_of-IsRedacted :
      (meeting : HookMeeting) (call_type : Option CallType)
      → All
          (IsRedacted world.escape
            (hook_secrets (λ c. c.pre_call_headers_encrypted) meeting call_type))
          (pre_call_of world meeting call_type).logs
  pre_call_of-IsRedacted meeting none = tt
  pre_call_of-IsRedacted meeting (some call_type) =
      let headers =
        resolve_custom_headers world.decrypt world.load world.rows
          call_type.pre_call_headers_encrypted meeting.organization_id in
      if-elim
        (λ (d : Dispatched).
          All (IsRedacted world.escape (pre_secrets world meeting call_type)) d.logs)
        (not call_type.pre_call_enabled || not (nonempty call_type.pre_call_url)) nothing
        (pre_call_with world meeting call_type headers) (λ e. tt)
        (λ e. pre_call_with-IsRedacted meeting call_type headers)

  post_row-IsRedacted :
      (meeting : HookMeeting) (call_type : CallType) (attempt : Attempt)
      → IsRedacted world.escape
          (post_secrets world meeting call_type)
          (post_log world meeting call_type attempt)
  post_row-IsRedacted meeting call_type attempt =
      persist_hook_log-IsRedacted world.escape (codes "post") call_type.post_call_async
        (or_text call_type.post_call_method (codes "POST")) call_type.post_call_url attempt
        (post_secrets world meeting call_type)

  post_call_with-IsRedacted :
      (meeting : HookMeeting) (call_type : CallType) (body : Text) (headers : Resolved)
      → All
          (IsRedacted world.escape (post_secrets world meeting call_type))
          (post_call_with world meeting call_type body headers).logs
  unfolding post_call_with
  post_call_with-IsRedacted meeting call_type body refused =
      (post_row-IsRedacted meeting call_type (not_sent none (some body) unresolved), tt)
  post_call_with-IsRedacted meeting call_type body key_error = tt
  post_call_with-IsRedacted meeting call_type body (resolved custom) =
      let P = IsRedacted world.escape (post_secrets world meeting call_type) in
      let request = post_request world meeting call_type body custom in
      if-elim (λ (d : Dispatched). All P d.logs) (world.encodable body)
        (post_sent world meeting call_type body custom) stopped
        (λ e.
          conclude-logs P (post_log world meeting call_type) (λ answer. answer) (λ answer. none)
            request (world.send request) (post_row-IsRedacted meeting call_type))
        (λ e. tt)

  post_call_body-IsRedacted :
      (meeting : HookMeeting) (call_type : CallType) (body : Option Text)
      → All
          (IsRedacted world.escape (post_secrets world meeting call_type))
          (post_call_body world meeting call_type body).logs
  post_call_body-IsRedacted meeting call_type none = (
    post_row-IsRedacted meeting call_type
        (not_sent none none (codes "Failed to build request body.")),
    tt,
  )
  post_call_body-IsRedacted meeting call_type (some body) =
      post_call_with-IsRedacted meeting call_type body (
        resolve_custom_headers world.decrypt world.load world.rows
          call_type.post_call_headers_encrypted meeting.organization_id)

  post_call_of-IsRedacted :
      (meeting : HookMeeting) (payload : Option (List (Text × JsonValue)))
      (call_type : Option CallType)
      → All
          (IsRedacted world.escape
            (hook_secrets (λ c. c.post_call_headers_encrypted) meeting call_type))
          (post_call_of world meeting payload call_type).logs
  post_call_of-IsRedacted meeting payload none = tt
  post_call_of-IsRedacted meeting payload (some call_type) =
      if-elim
        (λ (d : Dispatched).
          All (IsRedacted world.escape (post_secrets world meeting call_type)) d.logs)
        (not call_type.post_call_enabled || not (nonempty call_type.post_call_url)) nothing
        (post_call_body world meeting call_type (post_body world call_type payload)) (λ e. tt)
        (λ e. post_call_body-IsRedacted meeting call_type (post_body world call_type payload))

  -- Whatever a meeting, its call type, the stored headers, the network and the payload are: no row that
  -- the two hooks add shows a secret value of the hook's headers that is not empty and has no bullet in it,
  -- neither in the body of the request, nor in that of the response, nor in a value of the headers before
  -- it is escaped for JSON. The names of the headers, which are not masked, and what the escapes of JSON
  -- spell are left out.
  pub dispatch-IsRedacted :
      (meeting : HookMeeting) (payload : Option (List (Text × JsonValue)))
      → All
          (IsRedacted world.escape
            (hook_secrets (λ c. c.pre_call_headers_encrypted) meeting meeting.call_type))
          (dispatch_pre_call world meeting).logs
        × All
            (IsRedacted world.escape
              (hook_secrets (λ c. c.post_call_headers_encrypted) meeting meeting.call_type))
            (dispatch_post_call world meeting payload).logs
  unfolding dispatch_pre_call dispatch_post_call
  dispatch-IsRedacted meeting payload = (
    pre_call_of-IsRedacted meeting meeting.call_type,
    post_call_of-IsRedacted meeting payload meeting.call_type,
  )
