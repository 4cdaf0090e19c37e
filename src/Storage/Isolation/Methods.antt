-- ===== src/Storage/Isolation/Methods.antt =====
-- Each method of `PostgreSQLConversationStorage` (assets/backend/postgres_storage.py) that writes to the
-- tables, and sequences of them: the rows of other users stay.
use rag_agent_chatbot.Prelude.{
  ℕ, String, ◌≡◌, ◌≢◌, refl, Bool, true, false, Option, none, some, List, [], ◌∷◌, if◌then◌else◌,
  any_of, All,
}
use rag_agent_chatbot.Storage.Messages.{Message, MessageDict}
use rag_agent_chatbot.Storage.Sql.{
  Tables, Metadata, owns_chat, conversation_exists, upsert_metadata,
}
use rag_agent_chatbot.Storage.Sql.Owners.{
  Spares, Spares-refl, Spares-trans, SparesBy, IsConsistent, IsSame, insert_conversation-Spares,
}
use rag_agent_chatbot.Storage.Sql.Appends.{append_transaction-Spares}
use rag_agent_chatbot.Storage.Sql.Removals.{delete_chat-Spares, owner_of_exists}
use rag_agent_chatbot.Storage.Sql.Upserts.{
  upsert_metadata-Spares, upsert_selected-Spares, upsert_current_chat-Spares,
}
use rag_agent_chatbot.Storage.State.{
  L2Cache, Storage, Result, with_conn, reading, l2_read, l2_write,
}
use rag_agent_chatbot.Storage.Conversations.{
  get_cached_messages, cache_messages, reload_messages_from_db, fetch_messages, messages_from_l2,
  messages_from_cache, get_messages, create_empty_chat, forget_chat_list, combine, after_append,
  append_messages_to_chat, invalidate_cache, delete_and_forget, or_false, delete_conversation,
}
use rag_agent_chatbot.Storage.Listing.{
  write_metadata, remember_metadata, after_metadata, set_chat_metadata,
}
use rag_agent_chatbot.Storage.Sources.{update_user_selected_sources, update_user_current_chat_id}
use rag_agent_chatbot.Storage.Isolation.{
  IsHarmless, pure-IsHarmless, gets-IsHarmless, recache-IsHarmless, bind-IsHarmless, seq-IsHarmless,
  with_conn-IsHarmless,
}

module _ (l2 : L2Cache) (v user_id : String) where
  get_cached_messages-IsHarmless :
      (now : ℕ) (chat_id : String) → IsHarmless v (get_cached_messages l2 now user_id chat_id)
  unfolding get_cached_messages
  get_cached_messages-IsHarmless now chat_id =
      bind-IsHarmless v _ _ (gets-IsHarmless v _)
        λ found. seq-IsHarmless v _ _ (recache-IsHarmless v _) (pure-IsHarmless v found)

  cache_messages-IsHarmless :
      (now : ℕ) (chat_id : String) (ms : List Message)
      → IsHarmless v (cache_messages l2 now user_id chat_id ms)
  unfolding cache_messages
  cache_messages-IsHarmless now chat_id ms = recache-IsHarmless v _

  l2_read-IsHarmless :
      {A : Type 0} (read : l2.State → l2.State × Option A) → IsHarmless v (l2_read l2 read)
  unfolding l2_read
  l2_read-IsHarmless read =
      bind-IsHarmless v _ _ (gets-IsHarmless v _)
        λ found. seq-IsHarmless v _ _ (recache-IsHarmless v _) (pure-IsHarmless v found)

  l2_write-IsHarmless : (write : l2.State → l2.State) → IsHarmless v (l2_write l2 write)
  unfolding l2_write
  l2_write-IsHarmless write = recache-IsHarmless v _

  reading-IsHarmless :
      {A : Type 0} (f : Tables → A) → IsHarmless v (with_conn {L = l2.State} (reading f))
  reading-IsHarmless f = with_conn-IsHarmless v (reading f) (Spares-refl v)

  fetch_messages-IsHarmless :
      (now : ℕ) (chat_id : String) (limit : Option ℕ)
      → IsHarmless v (fetch_messages l2 now user_id chat_id limit)
  unfolding fetch_messages
  fetch_messages-IsHarmless now chat_id limit = bind-IsHarmless v _ _ (reading-IsHarmless _) λ rows.
      seq-IsHarmless v _ _ (cache_messages-IsHarmless now chat_id _)
        (seq-IsHarmless v _ _ (l2_write-IsHarmless _) (λ s. Spares-refl v s.tables))

  messages_from_l2-IsHarmless :
      (now : ℕ) (chat_id : String) (limit : Option ℕ) (found : Option (List MessageDict))
      → IsHarmless v (messages_from_l2 l2 now user_id chat_id limit found)
  unfolding messages_from_l2
  messages_from_l2-IsHarmless now chat_id limit none = fetch_messages-IsHarmless now chat_id limit
  messages_from_l2-IsHarmless now chat_id limit (some dicts) =
      seq-IsHarmless v _ _ (cache_messages-IsHarmless now chat_id _) (λ s. Spares-refl v s.tables)

  messages_from_cache-IsHarmless :
      (now : ℕ) (chat_id : String) (limit : Option ℕ) (found : Option (List Message))
      → IsHarmless v (messages_from_cache l2 now user_id chat_id limit found)
  unfolding messages_from_cache
  messages_from_cache-IsHarmless now chat_id limit (some messages) = λ s. Spares-refl v s.tables
  messages_from_cache-IsHarmless now chat_id limit none =
      bind-IsHarmless v _ _ (l2_read-IsHarmless _) (messages_from_l2-IsHarmless now chat_id limit)

  pub get_messages-IsHarmless :
      (now : ℕ) (chat_id : String) (limit : Option ℕ)
      → IsHarmless v (get_messages l2 now user_id chat_id limit)
  unfolding get_messages
  get_messages-IsHarmless now chat_id limit =
      bind-IsHarmless v _ _ (get_cached_messages-IsHarmless now chat_id)
        (messages_from_cache-IsHarmless now chat_id limit)

  forget_chat_list-IsHarmless : IsHarmless v (forget_chat_list l2 user_id)
  unfolding forget_chat_list
  forget_chat_list-IsHarmless = recache-IsHarmless v _

  pub create_empty_chat-IsHarmless :
      (now : ℕ) (chat_id : String)
      → user_id ≢ v
      → IsHarmless v (create_empty_chat l2 now user_id chat_id)
  unfolding create_empty_chat
  create_empty_chat-IsHarmless now chat_id n =
      seq-IsHarmless v _ _
        (with_conn-IsHarmless v _ (λ t. insert_conversation-Spares v now chat_id user_id t n))
        (seq-IsHarmless v _ _ (cache_messages-IsHarmless now chat_id []) (
          seq-IsHarmless v _ _ forget_chat_list-IsHarmless
            (seq-IsHarmless v _ _ (l2_write-IsHarmless _) (l2_write-IsHarmless _))))

  combine-IsHarmless :
      (chat_id : String) (ms : List Message) (found : Option (List Message))
      → IsHarmless v (combine l2 user_id chat_id ms found)
  unfolding combine reload_messages_from_db
  combine-IsHarmless chat_id ms none =
      bind-IsHarmless v _ _ (reading-IsHarmless _) λ rows. λ s. Spares-refl v s.tables
  combine-IsHarmless chat_id ms (some cached) = λ s. Spares-refl v s.tables

  after_append-IsHarmless :
      (now : ℕ) (chat_id : String) (ms : List Message) (owned : Bool)
      → IsHarmless v (after_append l2 now user_id chat_id ms owned)
  unfolding after_append
  after_append-IsHarmless now chat_id ms false = get_messages-IsHarmless now chat_id none
  after_append-IsHarmless now chat_id ms true =
      bind-IsHarmless v _ _ (get_cached_messages-IsHarmless now chat_id) λ cached.
        bind-IsHarmless v _ _ (combine-IsHarmless chat_id ms cached) λ combined.
          seq-IsHarmless v _ _ (cache_messages-IsHarmless now chat_id combined) (
            seq-IsHarmless v _ _ forget_chat_list-IsHarmless (
              seq-IsHarmless v _ _ (l2_write-IsHarmless _)
                (seq-IsHarmless v _ _ (l2_write-IsHarmless _) (pure-IsHarmless v combined))))

  pub append_messages_to_chat-IsHarmless :
      (now : ℕ) (chat_id : String) (ms : List Message)
      → user_id ≢ v
      → IsHarmless v (append_messages_to_chat l2 now user_id chat_id ms)
  unfolding append_messages_to_chat
  append_messages_to_chat-IsHarmless now chat_id [] n = get_messages-IsHarmless now chat_id none
  append_messages_to_chat-IsHarmless now chat_id (m ∷ ms) n =
      bind-IsHarmless v _ _
        (with_conn-IsHarmless v _
          (λ t. append_transaction-Spares v now user_id chat_id (m ∷ ms) t n))
        (after_append-IsHarmless now chat_id (m ∷ ms))

  or_false-Spares :
      (s : Storage l2.State) (r : Storage l2.State × Result Bool)
      → Spares v s.tables r.0.tables
      → Spares v s.tables (or_false l2 r).0.tables
  unfolding or_false
  or_false-Spares s (s', Result.ok b) h = h
  or_false-Spares s (s', Result.raise e) h = h

  pub delete_conversation-IsHarmless :
      (chat_id : String) → user_id ≢ v → IsHarmless v (delete_conversation l2 user_id chat_id)
  unfolding delete_conversation delete_and_forget invalidate_cache
  delete_conversation-IsHarmless chat_id n s =
      or_false-Spares s (delete_and_forget l2 user_id chat_id s) (
        bind-IsHarmless v _ _
          (with_conn-IsHarmless v _ (λ t. delete_chat-Spares v user_id chat_id t n))
          (λ deleted. seq-IsHarmless v _ _ (recache-IsHarmless v _) (
            seq-IsHarmless v _ _ (l2_write-IsHarmless _) (
              seq-IsHarmless v _ _ (l2_write-IsHarmless _)
                (seq-IsHarmless v _ _ (l2_write-IsHarmless _) (pure-IsHarmless v deleted)))))
          s)

  write_metadata-Spares :
      (now : ℕ) (chat_id name : String) (t : Tables)
      → user_id ≢ v
      → SparesBy v t (write_metadata now user_id chat_id name t)
  unfolding conversation_exists
  write_metadata-Spares now chat_id name t n =
      cases (any_of (owns_chat user_id chat_id) t.conversations) refl
    where
      new : Metadata
      new = record { chat_id = chat_id; user_id = user_id; name = name; created_at = now }

      cases :
          (b : Bool)
          → any_of (owns_chat user_id chat_id) t.conversations ≡ b
          → SparesBy v t (
              if b
              then (record t { metadata = upsert_metadata new t.metadata }, true)
              else (t, false))
      cases true e = upsert_metadata-Spares v new t n (λ i.
          owner_of_exists user_id chat_id t.conversations t.conversations i.conversations_owned e)
      cases false e = Spares-refl v t

  after_metadata-IsHarmless :
      (now : ℕ) (chat_id name : String) (owned : Bool)
      → IsHarmless v (after_metadata l2 now user_id chat_id name owned)
  unfolding after_metadata remember_metadata
  after_metadata-IsHarmless now chat_id name false = pure-IsHarmless v tt
  after_metadata-IsHarmless now chat_id name true = recache-IsHarmless v _

  pub set_chat_metadata-IsHarmless :
      (now : ℕ) (chat_id name : String)
      → user_id ≢ v
      → IsHarmless v (set_chat_metadata l2 now user_id chat_id name)
  unfolding set_chat_metadata
  set_chat_metadata-IsHarmless now chat_id name n =
      bind-IsHarmless v _ _
        (with_conn-IsHarmless v _ (λ t. write_metadata-Spares now chat_id name t n))
        (after_metadata-IsHarmless now chat_id name)

  pub update_user_selected_sources-IsHarmless :
      (selected : List String)
      → user_id ≢ v
      → IsHarmless v (update_user_selected_sources l2 user_id selected)
  unfolding update_user_selected_sources
  update_user_selected_sources-IsHarmless selected n =
      with_conn-IsHarmless v _ (λ t. upsert_selected-Spares v user_id selected t n)

  pub update_user_current_chat_id-IsHarmless :
      (chat_id : Option String)
      → user_id ≢ v
      → IsHarmless v (update_user_current_chat_id l2 user_id chat_id)
  unfolding update_user_current_chat_id
  update_user_current_chat_id-IsHarmless chat_id n =
      with_conn-IsHarmless v _ (λ t. upsert_current_chat-Spares v user_id chat_id t n)

-- A call of the storage by a user.
pub data Call : Type 0 where
  read : String → Call
  append_to : String → List Message → Call
  create remove : String → Call
  rename : String → String → Call
  select : List String → Call
  visit : Option String → Call

module _ (l2 : L2Cache) where
  -- A call at a time by a user. A call that raises ends in the state that it leaves.
  unfoldable pub perform : ℕ × String × Call → Storage l2.State → Storage l2.State
  perform (now, user_id, read chat_id) s = (get_messages l2 now user_id chat_id none s).0
  perform (now, user_id, append_to chat_id ms) s =
      (append_messages_to_chat l2 now user_id chat_id ms s).0
  perform (now, user_id, create chat_id) s = (create_empty_chat l2 now user_id chat_id s).0
  perform (now, user_id, remove chat_id) s = (delete_conversation l2 user_id chat_id s).0
  perform (now, user_id, rename chat_id name) s =
      (set_chat_metadata l2 now user_id chat_id name s).0
  perform (now, user_id, select selected) s = (update_user_selected_sources l2 user_id selected s).0
  perform (now, user_id, visit chat_id) s = (update_user_current_chat_id l2 user_id chat_id s).0

  unfoldable pub perform_all : List (ℕ × String × Call) → Storage l2.State → Storage l2.State
  unfolding perform
  perform_all [] s = s
  perform_all (call ∷ calls) s = perform_all calls (perform call s)

  perform-Spares :
      (v : String) (call : ℕ × String × Call) (s : Storage l2.State)
      → call.1 ≢ v
      → Spares v s.tables (perform call s).tables
  unfolding perform
  perform-Spares v (now, user_id, read chat_id) s n =
      get_messages-IsHarmless l2 v user_id now chat_id none s
  perform-Spares v (now, user_id, append_to chat_id ms) s n =
      append_messages_to_chat-IsHarmless l2 v user_id now chat_id ms n s
  perform-Spares v (now, user_id, create chat_id) s n =
      create_empty_chat-IsHarmless l2 v user_id now chat_id n s
  perform-Spares v (now, user_id, remove chat_id) s n =
      delete_conversation-IsHarmless l2 v user_id chat_id n s
  perform-Spares v (now, user_id, rename chat_id name) s n =
      set_chat_metadata-IsHarmless l2 v user_id now chat_id name n s
  perform-Spares v (now, user_id, select selected) s n =
      update_user_selected_sources-IsHarmless l2 v user_id selected n s
  perform-Spares v (now, user_id, visit chat_id) s n =
      update_user_current_chat_id-IsHarmless l2 v user_id chat_id n s

  -- From tables in which each conversation, message and name belongs to the owner of its chat, any
  -- sequence of calls by users other than `v`, on any chats, whatever the caches hold and whichever
  -- connections fail, leads to such tables again, and leaves the conversations, the messages, the
  -- names of chats and the preferences of `v` as they were.
  pub perform_all-Spares :
      (v : String) (calls : List (ℕ × String × Call)) (s : Storage l2.State)
      → All (λ (call : ℕ × String × Call). call.1 ≢ v) calls
      → IsConsistent s.tables
      → IsConsistent (perform_all calls s).tables × IsSame v s.tables (perform_all calls s).tables
  unfolding perform_all
  perform_all-Spares v [] s n i = Spares-refl v s.tables i
  perform_all-Spares v (call ∷ calls) s (n, ns) i =
      Spares-trans v s.tables (perform call s).tables _ (perform-Spares v call s n)
        (perform_all-Spares v calls (perform call s) ns) i
