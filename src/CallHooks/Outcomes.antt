-- ===== src/CallHooks/Outcomes.antt =====
-- What a hook does, whatever the far side answers: one request at most, one row, and no context without
-- an answer that is no error.
use mathlib.Core.Path.{subst}
use corella.Prelude.{
  ℕ, ◌≤◌, ◌≡◌, refl, sym, ap, ◌∙◌, Bool, true, false, not, ◌||◌, Option, none, some, List, leb,
  if◌then◌else◌, if-elim, is_some, length, length-take, take, All, Text, nonempty, arith,
}
use corella.CallHooks.Secrets.{Resolved, resolved, refused, key_error, resolve_custom_headers}
use corella.CallHooks.Dispatch.{
  CallType, HookMeeting, JsonValue, Request, Outcome, request_error, exception, response, HookLog,
  Dispatched, Attempt, conclude, gave_up, nothing, stopped,
}
use corella.CallHooks.Calls.{
  World, dispatch_pre_call, dispatch_post_call, pre_call_of, pre_call_with, pre_log, post_log,
  post_call_of, post_call_with, post_call_body, post_body, pre_request, pre_sent, pre_unencodable,
  pre_body, can_encode, post_request, post_sent,
}

abbrev pub IsRecorded : ℕ → List HookLog → Option (Option Text) → Type 0
IsRecorded cap logs none = length logs ≡ 0
IsRecorded cap logs (some none) = (length logs ≡ 1) × All (λ row. row.succeeded ≡ false) logs
IsRecorded cap logs (some (some context)) =
    (length logs ≡ 1) × All (λ row. row.succeeded ≡ true) logs × (length context ≤ cap)

-- At most one request; one row unless an exception went through; a context exactly with a success.
abbrev pub IsAccounted : ℕ → Dispatched → Type 0
IsAccounted cap d = (length d.sent ≤ 1) × IsRecorded cap d.logs d.returned

abbrev pub IsLogged : Dispatched → Type 0
IsLogged d = (length d.sent ≤ 1) × (length d.logs ≡ (if is_some d.returned then 1 else 0))

length-take-le : (n : ℕ) (s : Text) → length (take n s) ≤ n
length-take-le n s = omega (arith, length-take n s)

conclude-IsAccounted :
    (log : Attempt → HookLog) (cap : ℕ) (request : Request) (outcome : Outcome)
    → ((attempt : Attempt) → (log attempt).succeeded ≡ attempt.succeeded)
    → IsAccounted cap (conclude log (take cap) some request outcome)
unfolding conclude
conclude-IsAccounted log cap request (request_error message duration) h =
    (omega arith, (refl, (h _, tt)))
conclude-IsAccounted log cap request exception h = (omega arith, refl)
conclude-IsAccounted log cap request (response status answer duration) h =
    if-elim (IsAccounted cap) (leb 400 status) _ _ (λ e. (omega arith, (refl, (h _, tt))))
      (λ e. (omega arith, (refl, (h _, tt), length-take-le cap answer)))

conclude-IsLogged :
    (log : Attempt → HookLog) (context : Text → Text) (result : Text → Option Text)
    (request : Request) (outcome : Outcome)
    → IsLogged (conclude log context result request outcome)
unfolding conclude
conclude-IsLogged log context result request (request_error message duration) = (omega arith, refl)
conclude-IsLogged log context result request exception = (omega arith, refl)
conclude-IsLogged log context result request (response status answer duration) =
    if-elim IsLogged (leb 400 status) _ _ (λ e. (omega arith, refl)) (λ e. (omega arith, refl))

enabled-part :
    (a b : Bool) (x y : Dispatched) → a ≡ true → b ≡ true → (if not a || not b then x else y) ≡ y
enabled-part true true x y p q = refl
enabled-part true false x y p q = cc
enabled-part false b x y p q = cc

module _ (world : World) where
  abbrev pre_headers : HookMeeting → CallType → Resolved
  pre_headers meeting call_type =
      resolve_custom_headers world.decrypt world.load world.rows
        call_type.pre_call_headers_encrypted meeting.organization_id

  dispatch_pre_call_enabled :
      (meeting : HookMeeting) (call_type : CallType)
      → meeting.call_type ≡ some call_type
      → call_type.pre_call_enabled ≡ true
      → nonempty call_type.pre_call_url ≡ true
      → dispatch_pre_call world meeting
        ≡ pre_call_with world meeting call_type (pre_headers meeting call_type)
  unfolding dispatch_pre_call
  dispatch_pre_call_enabled meeting call_type e on url =
      ap (pre_call_of world meeting) e
      ∙ enabled-part call_type.pre_call_enabled (nonempty call_type.pre_call_url) nothing
          (pre_call_with world meeting call_type (pre_headers meeting call_type)) on url

  pre_call_with-IsAccounted :
      (meeting : HookMeeting) (call_type : CallType) (headers : Resolved)
      → IsAccounted world.settings.pre_call_context_max_chars
          (pre_call_with world meeting call_type headers)
  unfolding pre_call_with
  pre_call_with-IsAccounted meeting call_type refused = (omega arith, (refl, (refl, tt)))
  pre_call_with-IsAccounted meeting call_type key_error = (omega arith, refl)
  pre_call_with-IsAccounted meeting call_type (resolved custom) =
      let request = pre_request world meeting call_type custom in
      if-elim (IsAccounted world.settings.pre_call_context_max_chars)
        (can_encode world (pre_body world meeting call_type))
        (pre_sent world meeting call_type custom)
        (gave_up (pre_log world meeting call_type (pre_unencodable world meeting call_type custom)))
        (λ e.
          conclude-IsAccounted (pre_log world meeting call_type)
            world.settings.pre_call_context_max_chars request (world.send request)
            (λ attempt. refl))
        (λ e. (omega arith, (refl, (refl, tt))))

  post_call_with-IsLogged :
      (meeting : HookMeeting) (call_type : CallType) (body : Text) (headers : Resolved)
      → IsLogged (post_call_with world meeting call_type body headers)
  unfolding post_call_with
  post_call_with-IsLogged meeting call_type body refused = (omega arith, refl)
  post_call_with-IsLogged meeting call_type body key_error = (omega arith, refl)
  post_call_with-IsLogged meeting call_type body (resolved custom) =
      let request = post_request world meeting call_type body custom in
      if-elim IsLogged (world.encodable body) (post_sent world meeting call_type body custom)
        stopped
        (λ e.
          conclude-IsLogged (post_log world meeting call_type) (λ answer. answer) (λ answer. none)
            request (world.send request))
        (λ e. (omega arith, refl))

  post_call_body-IsLogged :
      (meeting : HookMeeting) (call_type : CallType) (body : Option Text)
      → IsLogged (post_call_body world meeting call_type body)
  post_call_body-IsLogged meeting call_type none = (omega arith, refl)
  post_call_body-IsLogged meeting call_type (some body) =
      post_call_with-IsLogged meeting call_type body (
        resolve_custom_headers world.decrypt world.load world.rows
          call_type.post_call_headers_encrypted meeting.organization_id)

  -- A pre-call that is enabled and has a URL sends one request at most, and adds one row unless an
  -- exception goes through it; it returns a context exactly where the row says success, and the context
  -- is within the cap.
  pub dispatch_pre_call-IsAccounted :
      (meeting : HookMeeting) (call_type : CallType)
      → meeting.call_type ≡ some call_type
      → call_type.pre_call_enabled ≡ true
      → nonempty call_type.pre_call_url ≡ true
      → IsAccounted world.settings.pre_call_context_max_chars (dispatch_pre_call world meeting)
  dispatch_pre_call-IsAccounted meeting call_type e on url =
      subst (IsAccounted world.settings.pre_call_context_max_chars)
        (sym (dispatch_pre_call_enabled meeting call_type e on url))
        (pre_call_with-IsAccounted meeting call_type (pre_headers meeting call_type))

  -- A post-call that is enabled and has a URL sends one request at most, and adds one row exactly where it
  -- returns.
  pub dispatch_post_call-IsLogged :
      (meeting : HookMeeting) (call_type : CallType) (payload : Option (List (Text × JsonValue)))
      → meeting.call_type ≡ some call_type
      → call_type.post_call_enabled ≡ true
      → nonempty call_type.post_call_url ≡ true
      → IsLogged (dispatch_post_call world meeting payload)
  unfolding dispatch_post_call
  dispatch_post_call-IsLogged meeting call_type payload e on url =
      let whole : Dispatched =
        post_call_body world meeting call_type (post_body world call_type payload) in
      subst IsLogged
        (sym (
          ap (post_call_of world meeting payload) e
          ∙ enabled-part call_type.post_call_enabled (nonempty call_type.post_call_url) nothing
              whole on url))
        (post_call_body-IsLogged meeting call_type (post_body world call_type payload))
