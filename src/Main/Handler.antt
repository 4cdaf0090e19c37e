-- ===== src/Main/Handler.antt =====
-- The form that the handlers of assets/backend/main.py share.
use rag_agent_chatbot.Storage.State.{L2Cache, Storage, Result, Action}
use rag_agent_chatbot.Http.{Response, internal_error}

module _ (l2 : L2Cache) where
  -- A handler and the storage after it.
  abbrev pub Handler : Type 0 → Type 0
  Handler A = Storage l2.State → Storage l2.State × Response A

  -- `except HTTPException: raise`, `except Exception: raise HTTPException(500, …)`
  unfoldable pub respond :
      {A : Type 0} → Storage l2.State × Result (Response A) → Storage l2.State × Response A
  respond (s, Result.ok response) = (s, response)
  respond (s, Result.raise error) = (s, internal_error)

  unfoldable pub handle : {A : Type 0} → Action l2 (Response A) → Handler A
  unfolding respond
  handle body s = respond (body s)
