-- ===== src/Main/Chats.antt =====
-- The chat endpoints of assets/backend/main.py. `new_chat_id` is the `uuid4` that the handler draws,
-- and `default_name` the text `f"Chat {chat_id[:8]}"`.
use rag_agent_chatbot.Prelude.{
  ℕ, suc, String, Bool, true, false, Option, none, some, List, [], ◌∷◌, str_eq, if◌then◌else◌,
}
use rag_agent_chatbot.Http.{Response, returned, http_error}
use rag_agent_chatbot.Storage.State.{L2Cache, MetadataDict, pure, ◌>>=◌, ◌>>◌, Action}
use rag_agent_chatbot.Storage.Conversations.{exists, create_empty_chat, delete_conversation}
use rag_agent_chatbot.Storage.Listing.{list_conversations, get_chat_metadata, set_chat_metadata}
use rag_agent_chatbot.Storage.Sources.{get_user_preferences, update_user_current_chat_id}
use rag_agent_chatbot.Main.Handler.{Handler, handle}

module _ (l2 : L2Cache) (default_name : String → String) where
  -- The three calls by which a handler makes a chat and sets it current.
  unfoldable pub make_chat : ℕ → String → String → Action l2 (Unit {0})
  make_chat now new_chat_id current_user = do
    create_empty_chat l2 now current_user new_chat_id
    set_chat_metadata l2 now current_user new_chat_id (default_name new_chat_id)
    update_user_current_chat_id l2 current_user (some new_chat_id)

  unfoldable pub list_chats : ℕ → String → Handler l2 (List String)
  list_chats now current_user =
      handle l2 (do chat_ids ← list_conversations l2 now current_user; pure (returned chat_ids))

  -- `current_chat_id and await postgres_storage.exists(…)`
  unfoldable pub is_current : ℕ → String → Option String → Action l2 Bool
  is_current now current_user none = pure false
  is_current now current_user (some chat_id) =
      if str_eq chat_id "" then pure false else exists l2 now current_user chat_id

  unfoldable pub current_or_new :
      ℕ → String → String → Option String → Bool → Action l2 (Response String)
  current_or_new now new_chat_id current_user (some chat_id) true = pure (returned chat_id)
  current_or_new now new_chat_id current_user (some chat_id) false = do
    make_chat now new_chat_id current_user
    pure (returned new_chat_id)
  current_or_new now new_chat_id current_user none found = do
    make_chat now new_chat_id current_user
    pure (returned new_chat_id)

  unfoldable pub get_chat_id : ℕ → String → String → Handler l2 String
  get_chat_id now new_chat_id current_user = handle l2 (do
    prefs ← get_user_preferences l2 current_user
    found ← is_current now current_user prefs.current_chat_id
    current_or_new now new_chat_id current_user prefs.current_chat_id found)

  -- `raise HTTPException(404)` where the chat is not the caller's, or the rest of the handler.
  unfoldable pub if_owned : {A : Type 0} → Bool → Action l2 A → Action l2 (Response A)
  if_owned false rest = pure (http_error 404 "Chat not found")
  if_owned true rest = do a ← rest; pure (returned a)

  unfoldable pub update_chat_id : ℕ → String → String → Handler l2 (Unit {0})
  update_chat_id now chat_id current_user = handle l2 (do
    owned ← exists l2 now current_user chat_id
    if_owned owned (update_user_current_chat_id l2 current_user (some chat_id)))

  unfoldable pub chat_metadata : ℕ → String → String → Handler l2 MetadataDict
  chat_metadata now chat_id current_user = handle l2 (do
    metadata ← get_chat_metadata l2 default_name now current_user chat_id
    pure (returned metadata))

  unfoldable pub rename_chat : ℕ → String → String → String → Handler l2 (Unit {0})
  rename_chat now chat_id new_name current_user = handle l2 (do
    owned ← exists l2 now current_user chat_id
    if_owned owned (set_chat_metadata l2 now current_user chat_id new_name))

  unfoldable pub create_new_chat : ℕ → String → String → Handler l2 String
  create_new_chat now new_chat_id current_user =
      handle l2 (do make_chat now new_chat_id current_user; pure (returned new_chat_id))

  unfoldable pub deleted_or_404 : Bool → Response (Unit {0})
  deleted_or_404 true = returned tt
  deleted_or_404 false = http_error 404 "Chat not found"

  -- The endpoint's `delete_chat`.
  unfoldable pub delete_chat : String → String → Handler l2 (Unit {0})
  delete_chat chat_id current_user =
      handle l2
        (do success ← delete_conversation l2 current_user chat_id; pure (deleted_or_404 success))

  -- The loop of `clear_all_chats`: how many chats it deleted.
  unfoldable pub delete_each : String → List String → Action l2 ℕ
  delete_each current_user [] = pure 0
  delete_each current_user (chat_id ∷ chat_ids) = do
    deleted ← delete_conversation l2 current_user chat_id
    cleared_count ← delete_each current_user chat_ids
    pure (if deleted then suc cleared_count else cleared_count)

  unfoldable pub clear_all_chats : ℕ → String → String → Handler l2 ℕ
  clear_all_chats now new_chat_id current_user = handle l2 (do
    chat_ids ← list_conversations l2 now current_user
    cleared_count ← delete_each current_user chat_ids
    make_chat now new_chat_id current_user
    pure (returned cleared_count))
