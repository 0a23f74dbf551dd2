-- ===== src/Providers/Tests.antt =====
-- Examples for the choice of a provider.
use corella.Prelude.{◌≡◌, refl, none, some, [], find, Text, codes}
use corella.Providers.{openai, ollama, Settings, Preferences, resolve_provider}
use corella.Providers.Choice.{provider_of}

abbrev settings : Settings
settings = record {
  default_model_anthropic = codes "a";
  default_model_openai = codes "o";
  default_model_gemini = codes "g";
  default_model_ollama = codes "l";
  anthropic_api_key = none;
  openai_api_key = some (codes "k");
  gemini_api_key = some [];
  ollama_base_url = some (codes "u");
  deepgram_api_key = some (codes "d");
  whisper_model = codes "small";
  default_model_deepgram = codes "nova-2";
}

abbrev user : Preferences
user = record {
  preferred_llm_provider = some ollama;
  preferred_llm_model = none;
  preferred_stt_provider = some (codes "whisper");
  preferred_stt_model = none;
  preferred_stt_language = none;
}

abbrev decrypt : Text → Text
decrypt t = t

-- The preferred provider first, and without a preference the first of the connected ones.
by_preference : provider_of (resolve_provider decrypt (some user) [] settings) ≡ some ollama
unfolding resolve_provider find
by_preference = refl

by_priority : provider_of (resolve_provider decrypt none [] settings) ≡ some openai
unfolding resolve_provider find
by_priority = refl
