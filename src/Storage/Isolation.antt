-- ===== src/Storage/Isolation.antt =====
-- The methods of `PostgreSQLConversationStorage` (assets/backend/postgres_storage.py) by what they do to
-- the rows of other users, whatever the caches hold and whichever connections fail.
pub mod Methods
use rag_agent_chatbot.Prelude.{
  ℕ, String, ◌≡◌, ◌≢◌, refl, Bool, true, false, Option, none, some, List, [], ◌∷◌, ◌++◌,
  if◌then◌else◌, Bool-cases, inl, inr, any_of,
}
use rag_agent_chatbot.Storage.Messages.{Message, MessageDict}
use rag_agent_chatbot.Storage.Sql.{
  Source, Tables, Metadata, append_transaction, delete_chat, insert_conversation, owns_chat,
  conversation_exists, upsert_source, delete_source_row,
}
use rag_agent_chatbot.Storage.Sql.Owners.{
  Spares, Spares-refl, Spares-trans, SparesBy, IsConsistent, IsSame, insert_conversation-Spares,
}
use rag_agent_chatbot.Storage.Sql.Appends.{append_transaction-Spares}
use rag_agent_chatbot.Storage.Sql.Removals.{delete_chat-Spares, owner_of_exists}
use rag_agent_chatbot.Storage.Sql.Upserts.{
  upsert_metadata-Spares, upsert_selected-Spares, upsert_current_chat-Spares,
}
use rag_agent_chatbot.Storage.State.{
  L2Cache, MetadataDict, Storage, Error, Result, M, pure, fail, continue, gets, recache, with_conn,
  next_fault, ◌>>=◌, ◌>>◌, reading, writing, has_messages, Action, l2_read, l2_write,
}
use rag_agent_chatbot.Storage.Conversations.{
  get_cached_messages, cache_messages, exists, reload_messages_from_db, fetch_messages,
  messages_from_l2, messages_from_cache, get_messages, fetch_dicts, dicts_from_l2, dicts_from_cache,
  get_history_dicts, create_empty_chat, forget_chat_list, combine, after_append,
  append_messages_to_chat, invalidate_cache, delete_and_forget, or_false, delete_conversation,
}
use rag_agent_chatbot.Storage.Listing.{
  write_metadata, remember_metadata, after_metadata, set_chat_metadata,
}
use rag_agent_chatbot.Storage.Sources.{
  is_visibility, add_document_source, delete_document_source, update_user_selected_sources,
  update_user_current_chat_id,
}

module _ {L : Type 0} (v : String) where
  -- An action that spares the user `v`.
  abbrev pub IsHarmless : {A : Type 0} → M L A → Type 0
  IsHarmless m = (s : Storage L) → Spares v s.tables (m s).0.tables

  abbrev tables_of : {A : Type 0} → Storage L × Result A → Tables
  tables_of r = r.0.tables

  pub pure-IsHarmless : {A : Type 0} (a : A) → IsHarmless (pure {L = L} a)
  pure-IsHarmless a s = Spares-refl v s.tables

  pub gets-IsHarmless : {A : Type 0} (f : Storage L → A) → IsHarmless (gets f)
  unfolding gets
  gets-IsHarmless f s = Spares-refl v s.tables

  pub recache-IsHarmless : (f : Storage L → Storage L) → IsHarmless (recache f)
  unfolding recache
  recache-IsHarmless f s = Spares-refl v s.tables

  pub bind-IsHarmless :
      {A B : Type 0} (m : M L A) (f : A → M L B)
      → IsHarmless m
      → ((a : A) → IsHarmless (f a))
      → IsHarmless (m >>= f)
  unfolding ◌>>=◌
  bind-IsHarmless {A} {B} m f h k s = cases (m s) (h s)
    where
      cases :
          (r : Storage L × Result A)
          → Spares v s.tables r.0.tables
          → Spares v s.tables (continue f r).0.tables
      cases (s', Result.ok a) e = Spares-trans v s.tables s'.tables (f a s').0.tables e (k a s')
      cases (s', Result.raise error) e = e

  pub seq-IsHarmless :
      {A B : Type 0} (m : M L A) (k : M L B) → IsHarmless m → IsHarmless k → IsHarmless (m >> k)
  unfolding ◌>>◌
  seq-IsHarmless m k h g = bind-IsHarmless m (λ _. k) h (λ _. g)

  pub with_conn-IsHarmless :
      {A : Type 0} (query : Tables → Tables × A)
      → ((t : Tables) → Spares v t (query t).0)
      → IsHarmless (with_conn query)
  unfolding with_conn
  with_conn-IsHarmless {A} query h s = cases (next_fault s.faults).0
    where
      cases :
          (b : Bool)
          → Spares v s.tables (
              tables_of (
                if b
                then (
                  record s { faults = (next_fault s.faults).1 },
                  Result.raise Error.connection_error,
                )
                else (
                  record s { tables = (query s.tables).0; faults = (next_fault s.faults).1 },
                  Result.ok (query s.tables).1,
                )))
      cases true = Spares-refl v s.tables
      cases false = h s.tables
