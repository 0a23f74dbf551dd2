-- ===== src/Providers/Choice.antt =====
-- The provider that server/app/services/llm/resolve.py and server/app/services/asr/resolve.py choose.
use corella.Prelude.{
  ◌≡◌, refl, ap, ◌∙◌, Bool, true, false, not, ◌&&◌, ◌||◌, Option, none, some, List, [], ◌∷◌, ◌++◌,
  if◌then◌else◌, find, is_some, Text, codes, Option-cases, inl, inr,
}
use corella.Providers.{
  LlmProvider, ProviderCredential, Settings, Preferences, ResolvedProvider, ResolvedStt, deepgram,
  whisper, priority, is_credential, env_credential, truthy, or_resolved, field, is_text,
  resolve_one, first_of, resolve_provider, deepgram_key, resolve_stt_provider,
}

-- A provider is connected by the user's credential or by the settings.
abbrev pub connected : List ProviderCredential → Settings → LlmProvider → Bool
connected credentials settings p =
    is_some (find (is_credential p) credentials)
    || (truthy (env_credential p settings).0 || truthy (env_credential p settings).1)

abbrev pub provider_of : Option ResolvedProvider → Option LlmProvider
provider_of none = none
provider_of (some r) = some r.provider

-- The providers in the order in which they are tried.
abbrev preference : Option LlmProvider → List LlmProvider
preference none = []
preference (some p) = p ∷ []

abbrev pub candidates : Option Preferences → List LlmProvider
candidates none = priority
candidates (some user) = preference user.preferred_llm_provider ++ priority

module _ (decrypt : Text → Text) (credentials : List ProviderCredential) (settings : Settings) where
  resolved-provider :
      (p : LlmProvider) (model : Option Text)
      → provider_of (resolve_one decrypt p credentials settings model)
        ≡ (if connected credentials settings p then some p else none)
  unfolding resolve_one
  resolved-provider p model = elim (Option-cases (find (is_credential p) credentials)) [
    | inl absent ↦
        rw absent
          (by_env (truthy (env_credential p settings).0 || truthy (env_credential p settings).1) _)
    | inr (c, found) ↦ rw found refl
  ]
    where
      by_env :
          (b : Bool) (r : ResolvedProvider)
          → provider_of (if b then some r else none) ≡ (if b then some r.provider else none)
      by_env true r = refl
      by_env false r = refl

  or_resolved-provider :
      (r rest : Option ResolvedProvider) (b : Bool) (p : LlmProvider)
      → provider_of r ≡ (if b then some p else none)
      → provider_of (or_resolved r rest) ≡ (if b then some p else provider_of rest)
  or_resolved-provider none rest true p h = cc
  or_resolved-provider none rest false p h = refl
  or_resolved-provider (some r) rest true p h = h
  or_resolved-provider (some r) rest false p h = cc

  first-provider :
      (ps : List LlmProvider)
      → provider_of (first_of decrypt ps credentials settings)
        ≡ find (connected credentials settings) ps
  unfolding first_of find
  first-provider [] = refl
  first-provider (p ∷ ps) =
      or_resolved-provider (resolve_one decrypt p credentials settings none)
        (first_of decrypt ps credentials settings) (connected credentials settings p) p
        (resolved-provider p none)
      ∙ ap (λ rest. if connected credentials settings p then some p else rest) (first-provider ps)

  -- The provider that is chosen is the first one connected among the user's preference and then, in
  -- order, Anthropic, OpenAI, Gemini and Ollama; and none is chosen where none is connected.
  pub resolve_provider-find :
      (user : Option Preferences)
      → provider_of (resolve_provider decrypt user credentials settings)
        ≡ find (connected credentials settings) (candidates user)
  unfolding resolve_provider find
  resolve_provider-find none = first-provider priority
  resolve_provider-find (some user) = elim (Option-cases user.preferred_llm_provider) [
    | inl absent ↦ rw absent (first-provider priority)
    | inr (p, wanted) ↦ rw wanted (
        or_resolved-provider (resolve_one decrypt p credentials settings user.preferred_llm_model)
          (first_of decrypt priority credentials settings) (connected credentials settings p) p
          (resolved-provider p user.preferred_llm_model)
        ∙ ap (λ rest. if connected credentials settings p then some p else rest)
            (first-provider priority))
  ]

-- The three answers of the speech resolution behind its three tests.
tested :
    (w d t : Bool) (local asked auto : ResolvedStt) {key : Option Text}
    → (local.provider ≡ whisper) × (local.api_key ≡ none)
    → (asked.provider ≡ deepgram) × (asked.api_key ≡ key)
    → (auto.provider ≡ deepgram) × (auto.api_key ≡ key)
    → let r = (if w then local else if d && t then asked else if t then auto else local) in
      (r.provider ≡ (if t && not w then deepgram else whisper))
      × (r.api_key ≡ (if t && not w then key else none))
tested true d true local asked auto l a u = l
tested true d false local asked auto l a u = l
tested false true true local asked auto l a u = a
tested false true false local asked auto l a u = l
tested false false true local asked auto l a u = u
tested false false false local asked auto l a u = l

-- Speech goes to Deepgram if there is a key for it and the user has not asked for Whisper, and only with
-- a key; else to the local Whisper, which has none.
pub resolve_stt_provider_lem :
    (decrypt : Text → Text) (user : Option Preferences) (credential : Option Text)
    (settings : Settings)
    → let r = resolve_stt_provider decrypt user credential settings in
      let key = (deepgram_key decrypt credential settings).0 in
      let metered =
        truthy key
        && not (is_text (codes "whisper") (field (λ u. u.preferred_stt_provider) user)) in
      (r.provider ≡ (if metered then deepgram else whisper))
      × (r.api_key ≡ (if metered then key else none))
unfolding resolve_stt_provider
resolve_stt_provider_lem decrypt user credential settings =
    tested (is_text (codes "whisper") (field (λ u. u.preferred_stt_provider) user))
      (is_text (codes "deepgram") (field (λ u. u.preferred_stt_provider) user))
      (truthy (deepgram_key decrypt credential settings).0) _ _ _ (refl, refl) (refl, refl)
      (refl, refl)
