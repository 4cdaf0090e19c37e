-- ===== src/Http.antt =====
-- What a handler of assets/backend/main.py or auth.py does: it returns a value, or raises
-- `HTTPException(status_code, detail)`.
use rag_agent_chatbot.Prelude.{ℕ, String}

pub data Response {ℓ} (A : Type ℓ) : Type ℓ where
  returned : A → Response A
  http_error : ℕ → String → Response A

abbrev pub internal_error {ℓ} : {A : Type ℓ} → Response A
internal_error = http_error 500 "An internal error occurred"
