-- ===== src/Storage/Conversations.antt =====
-- The conversations of `PostgreSQLConversationStorage`: their messages, through the two caches.
use rag_agent_chatbot.Prelude.{
  ℕ, String, Bool, true, false, Option, none, some, List, [], ◌∷◌, ◌++◌, map, if◌then◌else◌,
}
use rag_agent_chatbot.Dict
use rag_agent_chatbot.Lru
use rag_agent_chatbot.Lru.{CacheEntry, LruCache, is_expired}
use rag_agent_chatbot.Cache.{cache_key}
use rag_agent_chatbot.Storage.Messages.{
  Message, MessageDict, row_to_message, message_to_dict, dict_to_message, row_to_dict,
}
use rag_agent_chatbot.Storage.Sql.{
  conversation_exists, insert_conversation, select_messages, append_transaction, delete_chat,
}
use rag_agent_chatbot.Storage.State.{
  L2Cache, Storage, Result, pure, gets, recache, with_conn, ◌>>=◌, ◌>>◌, last_of, reading, writing,
  has_messages, Action, l2_read, l2_write,
}

module _ (l2 : L2Cache) where
  -- `_get_cached_messages`: a read that changes the order and the counters of the cache.
  unfoldable pub get_cached_messages : ℕ → String → String → Action l2 (Option (List Message))
  get_cached_messages now user_id chat_id = do
    found ← gets (λ s. (Lru.get now s.message_cache (cache_key user_id chat_id)).1)
    recache (λ s. record s {
      message_cache = (Lru.get now s.message_cache (cache_key user_id chat_id)).0;
    })
    pure found

  -- `_cache_messages`
  unfoldable pub cache_messages : ℕ → String → String → List Message → Action l2 (Unit {0})
  cache_messages now user_id chat_id messages = recache λ s. record s {
    message_cache = Lru.put now s.message_cache (cache_key user_id chat_id) messages none;
  }

  -- `_invalidate_cache`
  unfoldable pub invalidate_cache : String → String → Action l2 (Unit {0})
  invalidate_cache user_id chat_id = recache λ s. record s {
    message_cache = Lru.remove s.message_cache (cache_key user_id chat_id);
    metadata_cache = Lru.remove s.metadata_cache (cache_key user_id chat_id);
    chat_list_cache = Dict.without user_id s.chat_list_cache;
  }

  -- `self._chat_list_cache.pop(user_id, None)`
  unfoldable pub forget_chat_list : String → Action l2 (Unit {0})
  forget_chat_list user_id =
      recache λ s. record s { chat_list_cache = Dict.without user_id s.chat_list_cache }

  unfoldable pub exists : ℕ → String → String → Action l2 Bool
  unfolding get_cached_messages
  exists now user_id chat_id = do
    cached ← get_cached_messages now user_id chat_id
    if has_messages cached
        then pure true
        else with_conn (reading (conversation_exists user_id chat_id))

  -- `_reload_messages_from_db`
  unfoldable pub reload_messages_from_db : String → String → Action l2 (List Message)
  reload_messages_from_db user_id chat_id = do
    rows ← with_conn (reading (select_messages user_id chat_id))
    pure (map row_to_message rows)

  -- The database branch of `get_messages`.
  unfoldable pub fetch_messages : ℕ → String → String → Option ℕ → Action l2 (List Message)
  fetch_messages now user_id chat_id limit = do
    rows ← with_conn (reading (select_messages user_id chat_id))
    let messages = map row_to_message rows
    cache_messages now user_id chat_id messages
    l2_write l2 (l2.set_messages (cache_key user_id chat_id) (map message_to_dict messages))
    pure (last_of limit messages)

  unfoldable pub messages_from_l2 :
      ℕ → String → String → Option ℕ → Option (List MessageDict) → Action l2 (List Message)
  messages_from_l2 now user_id chat_id limit none = fetch_messages now user_id chat_id limit
  messages_from_l2 now user_id chat_id limit (some dicts) = do
    let messages = map dict_to_message dicts
    cache_messages now user_id chat_id messages
    pure (last_of limit messages)

  unfoldable pub messages_from_cache :
      ℕ → String → String → Option ℕ → Option (List Message) → Action l2 (List Message)
  messages_from_cache now user_id chat_id limit (some messages) = pure (last_of limit messages)
  messages_from_cache now user_id chat_id limit none = do
    found ← l2_read l2 (l2.get_messages (cache_key user_id chat_id))
    messages_from_l2 now user_id chat_id limit found

  unfoldable pub get_messages : ℕ → String → String → Option ℕ → Action l2 (List Message)
  get_messages now user_id chat_id limit = do
    cached ← get_cached_messages now user_id chat_id
    messages_from_cache now user_id chat_id limit cached

  -- The database branch of `get_history_dicts`.
  unfoldable pub fetch_dicts : ℕ → String → String → Option ℕ → Action l2 (List MessageDict)
  fetch_dicts now user_id chat_id limit = do
    rows ← with_conn (reading (select_messages user_id chat_id))
    let dicts = map row_to_dict rows
    cache_messages now user_id chat_id (map dict_to_message dicts)
    l2_write l2 (l2.set_messages (cache_key user_id chat_id) dicts)
    pure (last_of limit dicts)

  unfoldable pub dicts_from_l2 :
      ℕ → String → String → Option ℕ → Option (List MessageDict) → Action l2 (List MessageDict)
  dicts_from_l2 now user_id chat_id limit none = fetch_dicts now user_id chat_id limit
  dicts_from_l2 now user_id chat_id limit (some dicts) = do
    cache_messages now user_id chat_id (map dict_to_message dicts)
    pure (last_of limit dicts)

  unfoldable pub dicts_from_cache :
      ℕ → String → String → Option ℕ → Option (List Message) → Action l2 (List MessageDict)
  dicts_from_cache now user_id chat_id limit (some messages) =
      pure (last_of limit (map message_to_dict messages))
  dicts_from_cache now user_id chat_id limit none = do
    found ← l2_read l2 (l2.get_messages (cache_key user_id chat_id))
    dicts_from_l2 now user_id chat_id limit found

  unfoldable pub get_history_dicts : ℕ → String → String → Option ℕ → Action l2 (List MessageDict)
  get_history_dicts now user_id chat_id limit = do
    cached ← get_cached_messages now user_id chat_id
    dicts_from_cache now user_id chat_id limit cached

  unfoldable pub create_empty_chat : ℕ → String → String → Action l2 (Unit {0})
  create_empty_chat now user_id chat_id = do
    with_conn (writing (insert_conversation now chat_id user_id))
    cache_messages now user_id chat_id []
    forget_chat_list user_id
    l2_write l2 (l2.set_messages (cache_key user_id chat_id) [])
    l2_write l2 (l2.delete_chats user_id)

  -- `cached + new_messages`, or a reload where the cache is cold
  unfoldable pub combine :
      String → String → List Message → Option (List Message) → Action l2 (List Message)
  combine user_id chat_id new_messages none = reload_messages_from_db user_id chat_id
  combine user_id chat_id new_messages (some cached) = pure (cached ++ new_messages)

  -- What follows the transaction of `append_messages_to_chat`.
  unfoldable pub after_append : ℕ → String → String → List Message → Bool → Action l2 (List Message)
  after_append now user_id chat_id new_messages false = get_messages now user_id chat_id none
  after_append now user_id chat_id new_messages true = do
    cached ← get_cached_messages now user_id chat_id
    combined ← combine user_id chat_id new_messages cached
    cache_messages now user_id chat_id combined
    forget_chat_list user_id
    l2_write l2 (l2.set_messages (cache_key user_id chat_id) (map message_to_dict combined))
    l2_write l2 (l2.delete_chats user_id)
    pure combined

  unfoldable pub append_messages_to_chat :
      ℕ → String → String → List Message → Action l2 (List Message)
  append_messages_to_chat now user_id chat_id [] = get_messages now user_id chat_id none
  append_messages_to_chat now user_id chat_id (m ∷ ms) = do
    owned ← with_conn (append_transaction now user_id chat_id (m ∷ ms))
    after_append now user_id chat_id (m ∷ ms) owned

  -- The body of the `try` of `delete_conversation`.
  unfoldable pub delete_and_forget : String → String → Action l2 Bool
  delete_and_forget user_id chat_id = do
    deleted ← with_conn (delete_chat user_id chat_id)
    invalidate_cache user_id chat_id
    l2_write l2 (l2.delete_messages (cache_key user_id chat_id))
    l2_write l2 (l2.delete_partial (cache_key user_id chat_id))
    l2_write l2 (l2.delete_chats user_id)
    pure deleted

  -- `except Exception: return False`
  unfoldable pub or_false : Storage l2.State × Result Bool → Storage l2.State × Result Bool
  or_false (s, Result.ok b) = (s, Result.ok b)
  or_false (s, Result.raise e) = (s, Result.ok false)

  unfoldable pub delete_conversation : String → String → Action l2 Bool
  unfolding delete_and_forget or_false
  delete_conversation user_id chat_id s = or_false (delete_and_forget user_id chat_id s)
