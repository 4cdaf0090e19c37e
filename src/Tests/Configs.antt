-- ===== src/Tests/Configs.antt =====
-- A configuration of assets/backend/config.py.
use rag_agent_chatbot.Prelude.{◌≡◌, refl, true, Option, none, some, [], ◌∷◌}
use rag_agent_chatbot.Text.{Text, codes, lstrip, rstrip}
use rag_agent_chatbot.Config.{
  ConfigFile, Configured, Moment, init, get_selected_model, updated_selected_model,
}
use rag_agent_chatbot.Config.Environment.{ChatConfig, env_models}
use rag_agent_chatbot.Config.Reads.{read_at, updated_selected_model-get}
use rag_agent_chatbot.Config.Start.{Starts, init-Starts}

abbrev small : Text
small = codes "nemotron"

abbrev env : Text
env = codes "nemotron, llama"

abbrev chosen : ChatConfig
chosen = record {
  sources = [];
  models = small ∷ codes "llama" ∷ [];
  selected_model = some (codes "gone");
  selected_sources = some [];
  current_chat_id = none;
}

abbrev saved_file : Option ConfigFile
saved_file = some (record { content = some chosen; mtime = 100 })

abbrev running : Configured
running = record {
  manager = record { config = some chosen; last_modified = 100; last_freshness_check = 5 };
  file = saved_file;
}

abbrev moment : Moment
moment = record { now = 20; stamp = some 120 }

env_models_example : env_models env ≡ small ∷ codes "llama" ∷ []
unfolding env_models rstrip lstrip
env_models_example = refl

init-Starts_example : Starts (small ∷ codes "llama" ∷ []) (init env moment saved_file)
init-Starts_example =
    init-Starts env small (codes "llama" ∷ []) moment 120 saved_file env_models_example refl refl

updated_selected_model-get_example :
    ((updated_selected_model (codes "llama") env moment running).1 ≡ true)
    × ((get_selected_model env 200 (
          read_at env
            (25 ∷ 90 ∷ [])
            (updated_selected_model (codes "llama") env moment running).0)).1
        ≡ some (some (codes "llama")))
updated_selected_model-get_example =
    updated_selected_model-get env (codes "llama") moment 120 chosen running refl refl
      (25 ∷ 90 ∷ []) 200
