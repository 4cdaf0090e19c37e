-- ===== src/Storage/Listing.antt =====
-- The chat list and the chats' metadata of `PostgreSQLConversationStorage`.
use rag_agent_chatbot.Prelude.{
  ℕ, String, Bool, true, false, not, Option, none, some, List, if◌then◌else◌, keep_if,
}
use rag_agent_chatbot.Dict
use rag_agent_chatbot.Lru
use rag_agent_chatbot.Lru.{CacheEntry, LruCache, is_expired}
use rag_agent_chatbot.Cache.{cache_key}
use rag_agent_chatbot.Storage.Sql.{
  Tables, Metadata, conversation_exists, select_chats, metadata_in, upsert_metadata,
}
use rag_agent_chatbot.Storage.State.{
  L2Cache, MetadataDict, pure, gets, recache, with_conn, ◌>>=◌, ◌>>◌, reading, Action, l2_read,
  l2_write,
}

abbrev pub metadata_dict : (String → String) → String → Option Metadata → MetadataDict
metadata_dict default_name chat_id (some m) = record {
  name = m.name;
  created_at = some m.created_at;
}
metadata_dict default_name chat_id none = record { name = default_name chat_id; created_at = none }

-- The two statements of `set_chat_metadata`, on one connection.
abbrev pub write_metadata : ℕ → String → String → String → Tables → Tables × Bool
write_metadata now user_id chat_id name t =
    if conversation_exists user_id chat_id t
    then (
      record t {
        metadata =
            upsert_metadata
              (record { chat_id = chat_id; user_id = user_id; name = name; created_at = now })
              t.metadata;
      },
      true,
    )
    else (t, false)

-- `if cached_entry and not cached_entry.is_expired()`
unfoldable pub fresh_chats : ℕ → Option (CacheEntry (List String)) → Option (List String)
unfolding is_expired
fresh_chats now none = none
fresh_chats now (some e) = if is_expired now e then none else some e.content

module _ (l2 : L2Cache) where
  -- `self._chat_list_cache[user_id] = CacheEntry(data=…, timestamp=time.time(), ttl=60)`
  unfoldable pub remember_chats : ℕ → String → List String → Action l2 (Unit {0})
  remember_chats now user_id chat_ids = recache λ s. record s {
    chat_list_cache =
        Dict.assign user_id (record { content = chat_ids; timestamp = now; ttl = 60 })
          s.chat_list_cache;
  }

  -- `list_conversations` where neither cache has the list.
  unfoldable pub fetch_chats : ℕ → String → Action l2 (List String)
  fetch_chats now user_id = do
    chat_ids ← with_conn (reading (select_chats user_id))
    remember_chats now user_id chat_ids
    l2_write l2 (l2.set_chats user_id chat_ids 60)
    pure chat_ids

  unfoldable pub chats_from_l2 : ℕ → String → Option (List String) → Action l2 (List String)
  chats_from_l2 now user_id none = fetch_chats now user_id
  chats_from_l2 now user_id (some chat_ids) = do remember_chats now user_id chat_ids; pure chat_ids

  unfoldable pub chats_from_cache : ℕ → String → Option (List String) → Action l2 (List String)
  chats_from_cache now user_id (some chat_ids) = pure chat_ids
  chats_from_cache now user_id none = do
    found ← l2_read l2 (l2.get_chats user_id)
    chats_from_l2 now user_id found

  unfoldable pub list_conversations : ℕ → String → Action l2 (List String)
  unfolding fresh_chats
  list_conversations now user_id = do
    cached ← gets (λ s. fresh_chats now (Dict.lookup user_id s.chat_list_cache))
    chats_from_cache now user_id cached

  unfoldable pub remember_metadata : ℕ → String → String → MetadataDict → Action l2 (Unit {0})
  remember_metadata now user_id chat_id found = recache λ s. record s {
    metadata_cache = Lru.put now s.metadata_cache (cache_key user_id chat_id) found none;
  }

  -- `default_name` is `f"Chat {chat_id[:8]}"`.
  unfoldable pub metadata_from_cache :
      (String → String) → ℕ → String → String → Option MetadataDict → Action l2 MetadataDict
  metadata_from_cache default_name now user_id chat_id (some found) = pure found
  metadata_from_cache default_name now user_id chat_id none = do
    row ← with_conn (reading (λ t. metadata_in user_id chat_id t.metadata))
    let found = metadata_dict default_name chat_id row
    remember_metadata now user_id chat_id found
    pure found

  unfoldable pub get_chat_metadata :
      (String → String) → ℕ → String → String → Action l2 MetadataDict
  unfolding metadata_from_cache
  get_chat_metadata default_name now user_id chat_id = do
    cached ← gets (λ s. (Lru.get now s.metadata_cache (cache_key user_id chat_id)).1)
    recache (λ s. record s {
      metadata_cache = (Lru.get now s.metadata_cache (cache_key user_id chat_id)).0;
    })
    metadata_from_cache default_name now user_id chat_id cached

  -- `if not owned: return`, then the cache.
  unfoldable pub after_metadata : ℕ → String → String → String → Bool → Action l2 (Unit {0})
  after_metadata now user_id chat_id name false = pure tt
  after_metadata now user_id chat_id name true =
      remember_metadata now user_id chat_id (record { name = name; created_at = none })

  unfoldable pub set_chat_metadata : ℕ → String → String → String → Action l2 (Unit {0})
  set_chat_metadata now user_id chat_id name = do
    owned ← with_conn (write_metadata now user_id chat_id name)
    after_metadata now user_id chat_id name owned

  -- `_cache_eviction_worker`, one round.
  unfoldable pub evict_round : ℕ → Action l2 (Unit {0})
  evict_round now = recache λ s. record s {
    message_cache = (Lru.evict_expired now s.message_cache).0;
    metadata_cache = (Lru.evict_expired now s.metadata_cache).0;
    chat_list_cache = keep_if (λ e. not (is_expired now e.1)) s.chat_list_cache;
  }
