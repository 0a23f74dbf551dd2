-- ===== src/CallHooks/Tests.antt =====
-- Examples for the hooks: an organization with one secret, and a far side that sends it back.
use corella.Prelude.{
  ◌≡◌, refl, true, false, Option, none, some, List, [], ◌∷◌, ◌++◌, take, keep, any, all, All, Text,
  codes, contains, is_space,
}
use corella.CallHooks.Redact.{redacted, redact_headers, hide_bearers}
use corella.CallHooks.Secrets.{
  Dict, get, AppSecret, Loaded, object, string, other, resolved, key_error, resolve_custom_headers,
}
use corella.CallHooks.Dispatch.{
  CallType, HookMeeting, null, Request, Outcome, response, exception, mandatory_headers,
}
use corella.CallHooks.Calls.{
  World, pre_request, post_request, dispatch_pre_call, dispatch_post_call,
}
use corella.CallHooks.Rows.{IsRedacted}
use corella.CallHooks.Logged.{hook_secrets, dispatch-IsRedacted}
use corella.CallHooks.Sent.{first_of, content_type, get-merge}
use corella.CallHooks.Outcomes.{IsAccounted, dispatch_pre_call-IsAccounted}

abbrev call_type : CallType
call_type = record {
  name = codes "Sales";
  pre_call_enabled = true;
  pre_call_url = codes "https://crm";
  pre_call_method = [];
  pre_call_headers_encrypted = some (codes "E");
  pre_call_body_template = codes "{{corella.owner_id}}";
  pre_call_async = false;
  pre_call_use_as_context = true;
  post_call_enabled = true;
  post_call_url = codes "https://crm";
  post_call_method = [];
  post_call_headers_encrypted = none;
  post_call_body_template = [];
  post_call_send_full_payload = true;
  post_call_async = false;
}

abbrev meeting : HookMeeting
meeting = record {
  id = codes "m1";
  owner_id = codes "u1";
  organization_id = 7;
  owner_name = null;
  title = null;
  capture_mode = codes "open_mic";
  capture_app = null;
  status = codes "recording";
  created_at = null;
  call_type = some call_type;
}

abbrev rows : List AppSecret
rows = record { organization_id = 7; name = codes "K"; value_encrypted = codes "s3cret" } ∷ []

abbrev decrypt : Text → Option Text
decrypt s = some s

abbrev custom : Dict
custom = (codes "X-Note", codes "s3cret!") ∷ (codes "x-corella-meeting-id", codes "m2") ∷ []

abbrev load : Text → Loaded
load s = object (
    (codes "X-Note", string (codes "{{secret.K}}!"))
    ∷ (codes "x-corella-meeting-id", string (codes "m2"))
    ∷ [])

abbrev world_with : (Request → Outcome) → World
world_with send = record {
  decrypt = decrypt;
  load = load;
  rows = rows;
  escape = λ s. s;
  dumps_object = λ pairs. codes "{}";
  encodable = λ s. true;
  send = send;
  settings = record { public_app_url = codes "https://app"; pre_call_context_max_chars = 4 };
}

abbrev echo : Request → Outcome
echo request = response 200 (codes "s3cret") 12

abbrev bad_url : Request → Outcome
bad_url request = exception

interpolated : resolve_custom_headers decrypt load rows (some (codes "E")) 7 ≡ resolved custom
unfolding resolve_custom_headers keep any all
interpolated = refl

bearer_hidden :
    hide_bearers 0 (codes "auth: BEARER  abc.d, x")
    ≡ codes "auth: BEARER  " ++ (redacted ++ codes " x")
unfolding hide_bearers is_space
bearer_hidden = refl

headers_masked :
    redact_headers
      (λ s. s)
      ((codes "X-My-Key", codes "a")
        ∷ (codes "X-Note", codes "as3cret")
        ∷ (codes "Accept", codes "b")
        ∷ [])
      (codes "s3cret" ∷ [])
    ≡ codes "{\"X-My-Key\": \""
      ++ (redacted ++ (codes "\", \"X-Note\": \"" ++ (redacted ++ codes "\", \"Accept\": \"b\"}")))
unfolding redact_headers contains any
headers_masked = refl

-- A reference inside a list is not looked up, and is then missed.
listed_reference :
    resolve_custom_headers decrypt
      (λ s. object ((codes "X-A", other (codes "['{{secret.K}}']")) ∷ []))
      rows
      (some (codes "E"))
      7
    ≡ key_error
unfolding resolve_custom_headers keep any all
listed_reference = refl

pre_call_context :
    (dispatch_pre_call (world_with echo) meeting).returned ≡ some (some (codes "s3cr"))
unfolding dispatch_pre_call keep any all take
pre_call_context = refl

dispatch-IsRedacted_example :
    All
      (IsRedacted
        (λ s. s)
        (hook_secrets
          (world_with echo)
          (λ c. c.pre_call_headers_encrypted)
          meeting
          (some call_type)))
      (dispatch_pre_call (world_with echo) meeting).logs
    × All
        (IsRedacted
          (λ s. s)
          (hook_secrets
            (world_with echo)
            (λ c. c.post_call_headers_encrypted)
            meeting
            (some call_type)))
        (dispatch_post_call (world_with echo) meeting (some [])).logs
dispatch-IsRedacted_example = dispatch-IsRedacted (world_with echo) meeting (some [])

get-merge_example :
    let world : World = world_with echo in
    let mandatory : Dict = mandatory_headers world.settings meeting in
    let pre : Dict = (pre_request world meeting call_type custom).headers in
    let post : Dict = (post_request world meeting call_type [] custom).headers in
    let key : Text = codes "x-corella-meeting-id" in
    (get key pre ≡ first_of (get key mandatory) (get key custom))
    × (get key post
        ≡ first_of (get key mandatory) (first_of (get key custom) (get key content_type)))
    × All
        (λ header. (get header.0 pre ≡ some header.1) × (get header.0 post ≡ some header.1))
        mandatory
get-merge_example =
    get-merge (world_with echo) meeting call_type [] (codes "x-corella-meeting-id") custom
      (refl, (refl, tt))

-- The custom header is sent beside the mandatory one.
both_ids :
    let pre : Dict = (pre_request (world_with echo) meeting call_type custom).headers in
    (get (codes "x-corella-meeting-id") pre ≡ some (codes "m2"))
    × (get (codes "X-Corella-Meeting-Id") pre ≡ some (codes "m1"))
unfolding mandatory_headers
both_ids = (refl, refl)

dispatch_pre_call_example : IsAccounted 4 (dispatch_pre_call (world_with echo) meeting)
dispatch_pre_call_example =
    dispatch_pre_call-IsAccounted (world_with echo) meeting call_type refl refl refl

-- An exception that is no httpx.RequestError, such as the InvalidURL of a malformed URL: no row tells of it.
bad_url_raises :
    ((dispatch_pre_call (world_with bad_url) meeting).returned ≡ none)
    × ((dispatch_pre_call (world_with bad_url) meeting).logs ≡ [])
unfolding dispatch_pre_call keep any all take
bad_url_raises = (refl, refl)
