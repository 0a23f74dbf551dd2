-- ===== src/Providers.antt =====
-- Which provider a user's calls go to: server/app/services/llm/resolve.py and
-- server/app/services/asr/resolve.py. `decrypt` is `decrypt_secret` of server/app/core/security.py,
-- which a cipher of a library does.
pub mod Choice
mod Tests
use corella.Prelude.{
  ℕ, Bool, true, false, not, ◌&&◌, ◌||◌, Option, none, some, List, [], ◌∷◌, if◌then◌else◌, find,
  is_some, Text, text_eq, nonempty, codes,
}

pub data LlmProvider : Type 0 where
  anthropic openai gemini ollama : LlmProvider

abbrev pub same_provider : LlmProvider → LlmProvider → Bool
same_provider anthropic anthropic = true
same_provider openai openai = true
same_provider gemini gemini = true
same_provider ollama ollama = true
same_provider _ _ = false

abbrev pub priority : List LlmProvider
priority = anthropic ∷ openai ∷ gemini ∷ ollama ∷ []

-- A row of `provider_credentials`. An owner has at most one for a provider.
pub record ProviderCredential : Type 0 where
  pub provider : LlmProvider
  pub api_key_encrypted : Option Text
  pub base_url : Option Text

-- What the resolution reads of the settings.
pub record Settings : Type 0 where
  pub default_model_anthropic : Text
  pub default_model_openai : Text
  pub default_model_gemini : Text
  pub default_model_ollama : Text
  pub anthropic_api_key : Option Text
  pub openai_api_key : Option Text
  pub gemini_api_key : Option Text
  pub ollama_base_url : Option Text
  pub deepgram_api_key : Option Text
  pub whisper_model : Text
  pub default_model_deepgram : Text

-- The preferences of a user's row.
pub record Preferences : Type 0 where
  pub preferred_llm_provider : Option LlmProvider
  pub preferred_llm_model : Option Text
  pub preferred_stt_provider : Option Text
  pub preferred_stt_model : Option Text
  pub preferred_stt_language : Option Text

pub record ResolvedProvider : Type 0 where
  pub provider : LlmProvider
  pub model : Text
  pub api_key : Option Text
  pub base_url : Option Text

-- `if x:` and `x or fallback`, for an optional text
abbrev pub truthy : Option Text → Bool
truthy none = false
truthy (some t) = nonempty t

abbrev pub or_text : Option Text → Text → Text
or_text none fallback = fallback
or_text (some t) fallback = if nonempty t then t else fallback

abbrev pub default_model : LlmProvider → Settings → Text
default_model anthropic settings = settings.default_model_anthropic
default_model openai settings = settings.default_model_openai
default_model gemini settings = settings.default_model_gemini
default_model ollama settings = settings.default_model_ollama

abbrev pub env_credential : LlmProvider → Settings → Option Text × Option Text
env_credential anthropic settings = (settings.anthropic_api_key, none)
env_credential openai settings = (settings.openai_api_key, none)
env_credential gemini settings = (settings.gemini_api_key, none)
env_credential ollama settings = (none, settings.ollama_base_url)

abbrev pub is_credential : LlmProvider → ProviderCredential → Bool
is_credential p c = same_provider c.provider p

pub data SttProvider : Type 0 where
  deepgram whisper : SttProvider

pub data SttSource : Type 0 where
  from_user from_env from_local : SttSource

pub record ResolvedStt : Type 0 where
  pub provider : SttProvider
  pub model : Text
  pub api_key : Option Text
  pub source : Option SttSource
  pub language : Text

abbrev pub or_resolved : Option ResolvedProvider → Option ResolvedProvider → Option ResolvedProvider
or_resolved none rest = rest
or_resolved (some r) rest = some r

-- `user.x if user else None`
abbrev pub field : (Preferences → Option Text) → Option Preferences → Option Text
field get none = none
field get (some user) = get user

abbrev pub is_text : Text → Option Text → Bool
is_text t none = false
is_text t (some s) = text_eq s t

module _ (decrypt : Text → Text) where
  abbrev decrypted : Option Text → Option Text
  decrypted none = none
  decrypted (some t) = if nonempty t then some (decrypt t) else none

  abbrev pub resolve_with :
      LlmProvider → Option ProviderCredential → Settings → Option Text → Option ResolvedProvider
  resolve_with provider (some c) settings model_override = some (record {
    provider = provider;
    model = or_text model_override (default_model provider settings);
    api_key = decrypted c.api_key_encrypted;
    base_url = c.base_url;
  })
  resolve_with provider none settings model_override =
      let env = env_credential provider settings in
      if truthy env.0 || truthy env.1
      then some (record {
        provider = provider;
        model = or_text model_override (default_model provider settings);
        api_key = env.0;
        base_url = env.1;
      })
      else none

  unfoldable pub resolve_one :
      LlmProvider → List ProviderCredential → Settings → Option Text → Option ResolvedProvider
  resolve_one provider credentials settings model_override =
      resolve_with provider (find (is_credential provider) credentials) settings model_override

  abbrev preferred_in :
      Option LlmProvider
      → Option Text
      → List ProviderCredential
      → Settings
      → Option ResolvedProvider
  preferred_in none model credentials settings = none
  preferred_in (some p) model credentials settings = resolve_one p credentials settings model

  -- The loop over the priorities.
  unfoldable pub first_of :
      List LlmProvider → List ProviderCredential → Settings → Option ResolvedProvider
  unfolding resolve_one
  first_of [] credentials settings = none
  first_of (p ∷ ps) credentials settings =
      let rest = first_of ps credentials settings in
      or_resolved (resolve_one p credentials settings none) rest

  abbrev pub preferred_of :
      Option Preferences → List ProviderCredential → Settings → Option ResolvedProvider
  preferred_of none credentials settings = none
  preferred_of (some user) credentials settings =
      preferred_in user.preferred_llm_provider user.preferred_llm_model credentials settings

  -- `user` is the owner's row, if there is one.
  unfoldable pub resolve_provider :
      Option Preferences → List ProviderCredential → Settings → Option ResolvedProvider
  unfolding first_of
  resolve_provider user credentials settings =
      or_resolved (preferred_of user credentials settings) (first_of priority credentials settings)

  -- The Deepgram key and where it is from: the owner's credential, if there is one, or the settings.
  abbrev pub deepgram_key : Option Text → Settings → Option Text × Option SttSource
  deepgram_key (some encrypted) settings = (some (decrypt encrypted), some from_user)
  deepgram_key none settings =
      if truthy settings.deepgram_api_key
      then (settings.deepgram_api_key, some from_env)
      else (none, none)

  unfoldable pub resolve_stt_provider : Option Preferences → Option Text → Settings → ResolvedStt
  resolve_stt_provider user credential settings =
      let key = deepgram_key credential settings in
      let language = or_text (field (λ u. u.preferred_stt_language) user) (codes "multi") in
      let preferred = field (λ u. u.preferred_stt_provider) user in
      let by_whisper : ResolvedStt = record {
        provider = whisper;
        model = settings.whisper_model;
        api_key = none;
        source = some from_local;
        language = codes "multi";
      } in
      if is_text (codes "whisper") preferred
      then by_whisper
      else if is_text (codes "deepgram") preferred && truthy key.0
      then record {
        provider = deepgram;
        model = or_text (field (λ u. u.preferred_stt_model) user) settings.default_model_deepgram;
        api_key = key.0;
        source = key.1;
        language = language;
      }
      else if truthy key.0
      then record {
        provider = deepgram;
        model = settings.default_model_deepgram;
        api_key = key.0;
        source = key.1;
        language = language;
      }
      else by_whisper
