-- ===== src/Main/Models.antt =====
-- The endpoints of assets/backend/main.py on the model of the server.
use rag_agent_chatbot.Prelude.{ℕ, Bool, true, false, Option, none, some, List}
use rag_agent_chatbot.Text.{Text}
use rag_agent_chatbot.Http.{Response, returned, internal_error}
use rag_agent_chatbot.Config.{
  Configured, Moment, get_selected_model, get_available_models, updated_selected_model,
}

-- `except Exception: raise HTTPException(500, …)`, of a getter
abbrev pub answer : {A : Type 0} → Configured × Option A → Configured × Response A
answer (s, some a) = (s, returned a)
answer (s, none) = (s, internal_error)

-- The same, of an updater.
abbrev pub success : Configured × Bool → Configured × Response (Unit {0})
success (s, true) = (s, returned tt)
success (s, false) = (s, internal_error)

unfoldable pub selected_model : Text → ℕ → Configured → Configured × Response (Option Text)
selected_model env now s = answer (get_selected_model env now s)

unfoldable pub update_selected_model :
    Text → Text → Moment → Configured → Configured × Response (Unit {0})
update_selected_model model env moment s = success (updated_selected_model model env moment s)

unfoldable pub available_models : Text → ℕ → Configured → Configured × Response (List Text)
available_models env now s = answer (get_available_models env now s)
