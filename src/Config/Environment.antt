-- ===== src/Config/Environment.antt =====
-- `ChatConfig` of assets/backend/models.py, and what assets/backend/config.py makes of `MODELS`.
use rag_agent_chatbot.Prelude.{
  ℕ, Bool, false, not, ◌&&◌, Option, none, some, List, [], ◌∷◌, map, if◌then◌else◌, ◌==◌, any_of,
  keep_if,
}
use rag_agent_chatbot.Text.{Text, text_eq, is_empty_text, strip}

-- `ChatConfig` of models.py
pub record ChatConfig : Type 0 where
  pub sources : List Text
  pub models : List Text
  pub selected_model : Option Text
  pub selected_sources : Option (List Text)
  pub current_chat_id : Option Text

-- `t.split(",")`
abbrev pub into_first : ℕ → List Text → List Text
into_first c [] = (c ∷ []) ∷ []
into_first c (t ∷ ts) = (c ∷ t) ∷ ts

unfoldable pub split_commas : Text → List Text
split_commas [] = [] ∷ []
split_commas (c ∷ t) = if c == 44 then [] ∷ split_commas t else into_first c (split_commas t)

-- The list that is read off `MODELS`.
unfoldable pub env_models : Text → List Text
unfolding split_commas
env_models env = keep_if (λ t. not (is_empty_text t)) (map strip (split_commas env))

-- `models[0] if models else …`
abbrev pub first_or : Option Text → List Text → Option Text
first_or d [] = d
first_or d (m ∷ ms) = some m

-- `ChatConfig(models=models, …)`: without `MODELS`, `models` is the text "", which the class refuses.
unfoldable pub default_config : Text → Option Text → Option Text → Option ChatConfig
default_config [] model chat_id = none
default_config (c ∷ env) model chat_id = some (record {
  sources = [];
  models = env_models (c ∷ env);
  selected_model = first_or model (env_models (c ∷ env));
  selected_sources = some [];
  current_chat_id = chat_id;
})

abbrev pub is_among : List Text → Option Text → Bool
is_among models none = false
is_among models (some m) = not (is_empty_text m) && any_of (text_eq m) models

-- The models of the environment replace those of the file, if there are some.
unfoldable pub with_models : List Text → ChatConfig → ChatConfig
with_models [] c = c
with_models (m ∷ ms) c = record c {
  models = m ∷ ms;
  selected_model = if is_among (m ∷ ms) c.selected_model then c.selected_model else some m;
}

abbrev pub models_or_none : Text → List Text
models_or_none [] = []
models_or_none (c ∷ env) = env_models (c ∷ env)
