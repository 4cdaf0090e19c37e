-- ===== src/Storage/Coherence.antt =====
-- The two caches of messages in assets/backend/postgres_storage.py, against the database: the steps
-- that `get_messages` and `append_messages_to_chat` are made of.
pub mod Messaging
pub mod Appends
pub mod Shared
use rag_agent_chatbot.Prelude.{
  ℕ, ◌<◌, String, ◌≡◌, refl, ap, sym, ◌∙◌, Bool, true, false, Option, none, some, List, [], ◌∷◌,
  ◌++◌, All, All-append, map, str_eq, if◌then◌else◌,
}
use mathlib.Core.Path.{subst}
use rag_agent_chatbot.Cache.{cache_key}
use rag_agent_chatbot.Lru
use rag_agent_chatbot.Lru.Holding.{Holds, get-Holds, put-Holds, max_size-put, max_size-get}
use rag_agent_chatbot.Storage.Messages.{
  Message, MessageDict, Row, ai, human, system, tool, calls_of, text_or_empty, restored,
  row_to_message, message_to_dict, dict_to_message, dict_to_message-restored,
}
use rag_agent_chatbot.Storage.Sql.{Tables, select_messages}
use rag_agent_chatbot.Storage.Sql.Histories.{history, Restores}
use rag_agent_chatbot.Storage.State.{
  L2Cache, Storage, Result, M, Action, pure, continue, gets, recache, with_conn, reading,
  next_fault, ◌>>=◌, ◌>>◌, connection_error, l2_read, l2_write,
}
use rag_agent_chatbot.Storage.Conversations.{get_cached_messages, cache_messages, forget_chat_list}

-- A message of a row comes back from the database as it is.
row_to_message-restored : (r : Row) → restored (row_to_message r) ≡ row_to_message r
unfolding row_to_message
row_to_message-restored r =
    go (str_eq r.role "ai") (str_eq r.role "human") (str_eq r.role "system") (str_eq r.role "tool")
  where
    message : Bool → Bool → Bool → Bool → Message
    message b b₁ b₂ b₃ =
        if b
        then ai r.content (calls_of r.tool_calls)
        else if b₁
        then human r.content
        else if b₂
        then system r.content
        else if b₃
        then tool r.content (text_or_empty r.tool_call_id) (some (text_or_empty r.name))
        else human r.content

    go : (b b₁ b₂ b₃ : Bool) → restored (message b b₁ b₂ b₃) ≡ message b b₁ b₂ b₃
    go true b₁ b₂ b₃ = refl
    go false true b₂ b₃ = refl
    go false false true b₃ = refl
    go false false false true = refl
    go false false false false = refl

map-row_to_message-Restores : (rows : List Row) → Restores (map row_to_message rows)
map-row_to_message-Restores [] = tt
map-row_to_message-Restores (r ∷ rows) =
    (row_to_message-restored r, map-row_to_message-Restores rows)

pub history-Restores :
    (user_id chat_id : String) (t : Tables) → Restores (history user_id chat_id t)
unfolding history
history-Restores user_id chat_id t = map-row_to_message-Restores (select_messages user_id chat_id t)

-- Such messages go through the dicts of the Redis cache unchanged.
pub dicts_of_Restores :
    (ms : List Message) → Restores ms → map dict_to_message (map message_to_dict ms) ≡ ms
dicts_of_Restores [] h = refl
dicts_of_Restores (m ∷ ms) (e, h) =
    rw (sym (ap (λ x. dict_to_message (message_to_dict x)) e) ∙ dict_to_message-restored m ∙ e)
      (ap (λ l. m ∷ l) (dicts_of_Restores ms h))

-- What the messages in Redis may show: what was set last under their key, or nothing. A read may only
-- lose them, and the lists of chats are elsewhere.
pub record MessagesLaws (l2 : L2Cache) : Type 0 where
  pub set_lem :
      (key : String) (ds ds' : List MessageDict) (s : l2.State)
      → (l2.get_messages key (l2.set_messages key ds s)).1 ≡ some ds'
      → ds' ≡ ds
  pub get_lem :
      (key : String) (ds : List MessageDict) (s : l2.State)
      → (l2.get_messages key (l2.get_messages key s).0).1 ≡ some ds
      → (l2.get_messages key s).1 ≡ some ds
  pub chats_lem :
      (key user_id : String) (ds : List MessageDict) (s : l2.State)
      → (l2.get_messages key (l2.delete_chats user_id s)).1 ≡ some ds
      → (l2.get_messages key s).1 ≡ some ds

module _ {L A : Type 0} (calm : Bool) (Post : A → Storage L → Type 0) where
  -- What holds of the result and the state, where the action returns; with calm connections it does.
  abbrev pub Settles : Storage L × Result A → Type 0
  Settles (s, Result.ok a) = Post a s
  Settles (s, Result.raise e) = calm ≡ false

module _ {L A B : Type 0} (calm : Bool) (Mid : A → Storage L → Type 0)
    (Post : B → Storage L → Type 0) where
  pub Settles->>= :
      (m : M L A) (f : A → M L B) (s : Storage L)
      → Settles calm Mid (m s)
      → ((a : A) (t : Storage L) → Mid a t → Settles calm Post (f a t))
      → Settles calm Post ((m >>= f) s)
  unfolding ◌>>=◌
  Settles->>= m f s h k = go (m s) h
    where
      go : (r : Storage L × Result A) → Settles calm Mid r → Settles calm Post (continue f r)
      go (t, Result.ok a) p = k a t p
      go (t, Result.raise e) p = p

module _ (calm : Bool) (l2 : L2Cache) (user_id chat_id : String) where
  -- One chat: the cache holds `near` or nothing, Redis `far` or nothing, and the database `stored`.
  pub record Coherent (near far stored : List Message) (s : Storage l2.State) : Type 0 where
    pub room : 0 < s.message_cache.max_size
    pub held : Holds s.message_cache (cache_key user_id chat_id) near
    pub shown :
        (ds : List MessageDict)
        → (l2.get_messages (cache_key user_id chat_id) s.l2).1 ≡ some ds
        → map dict_to_message ds ≡ far
    pub rows : history user_id chat_id s.tables ≡ stored
    pub quiet : calm ≡ true → s.faults ≡ []

-- A connection fails only where it may.
pub raised_unless_calm :
    (calm : Bool) (faults : List Bool)
    → (calm ≡ true → faults ≡ [])
    → (next_fault faults).0 ≡ true
    → calm ≡ false
raised_unless_calm true faults quiet e = absurd (cc (ap (λ f. (next_fault f).0) (quiet refl), e))
raised_unless_calm false faults quiet e = refl

pub still_quiet : (faults : List Bool) → faults ≡ [] → (next_fault faults).1 ≡ []
still_quiet faults e = ap (λ f. (next_fault f).1) e

module _ (calm : Bool) (l2 : L2Cache) (laws : MessagesLaws l2) (user_id chat_id : String) where
  abbrev key : String
  key = cache_key user_id chat_id

  pub get_cached-Coherent :
      (now : ℕ) (near far stored : List Message) (s : Storage l2.State)
      → Coherent calm l2 user_id chat_id near far stored s
      → Settles calm
          (λ found t.
            Coherent calm l2 user_id chat_id near far stored t
            × ((ms : List Message) → found ≡ some ms → ms ≡ near))
          (get_cached_messages l2 now user_id chat_id s)
  unfolding get_cached_messages ◌>>=◌ ◌>>◌ gets recache
  get_cached-Coherent now near far stored s h =
      let (held, answer) = get-Holds now s.message_cache key near h.held in
      (
        record {
          room = subst (λ n. 0 < n) (sym (max_size-get now s.message_cache key)) h.room;
          held = held;
          shown = h.shown;
          rows = h.rows;
          quiet = h.quiet;
        },
        answer,
      )

  pub cache_messages-Coherent :
      (now : ℕ) (near far stored ms : List Message) (s : Storage l2.State)
      → Coherent calm l2 user_id chat_id near far stored s
      → Settles calm
          (λ _ t. Coherent calm l2 user_id chat_id ms far stored t)
          (cache_messages l2 now user_id chat_id ms s)
  unfolding cache_messages recache
  cache_messages-Coherent now near far stored ms s h = record {
    room = subst (λ n. 0 < n) (sym (max_size-put now s.message_cache key ms none)) h.room;
    held = put-Holds now s.message_cache key ms none h.room;
    shown = h.shown;
    rows = h.rows;
    quiet = h.quiet;
  }

  pub set_messages-Coherent :
      (near far stored ms : List Message) (s : Storage l2.State)
      → Restores ms
      → Coherent calm l2 user_id chat_id near far stored s
      → Settles calm
          (λ _ t. Coherent calm l2 user_id chat_id near ms stored t)
          (l2_write l2 (l2.set_messages key (map message_to_dict ms)) s)
  unfolding l2_write recache
  set_messages-Coherent near far stored ms s r h = record {
    room = h.room;
    held = h.held;
    shown =
        λ ds e. ap (map dict_to_message) (laws.set_lem key _ ds s.l2 e) ∙ dicts_of_Restores ms r;
    rows = h.rows;
    quiet = h.quiet;
  }

  pub forget_chats-Coherent :
      (near far stored : List Message) (s : Storage l2.State)
      → Coherent calm l2 user_id chat_id near far stored s
      → Settles calm
          (λ _ t. Coherent calm l2 user_id chat_id near far stored t)
          (l2_write l2 (l2.delete_chats user_id) s)
  unfolding l2_write recache
  forget_chats-Coherent near far stored s h = record {
    room = h.room;
    held = h.held;
    shown = λ ds e. h.shown ds (laws.chats_lem key user_id ds s.l2 e);
    rows = h.rows;
    quiet = h.quiet;
  }

  pub read_messages-Coherent :
      (near far stored : List Message) (s : Storage l2.State)
      → Coherent calm l2 user_id chat_id near far stored s
      → Settles calm
          (λ found t.
            Coherent calm l2 user_id chat_id near far stored t
            × ((ds : List MessageDict) → found ≡ some ds → map dict_to_message ds ≡ far))
          (l2_read l2 (l2.get_messages key) s)
  unfolding l2_read recache gets ◌>>=◌ ◌>>◌
  read_messages-Coherent near far stored s h = (
    record {
      room = h.room;
      held = h.held;
      shown = λ ds e. h.shown ds (laws.get_lem key ds s.l2 e);
      rows = h.rows;
      quiet = h.quiet;
    },
    h.shown,
  )

  -- `SELECT` of the chat's rows.
  pub select-Coherent :
      (near far stored : List Message) (s : Storage l2.State)
      → Coherent calm l2 user_id chat_id near far stored s
      → Settles calm
          (λ rows t.
            Coherent calm l2 user_id chat_id near far stored t × (map row_to_message rows ≡ stored))
          (with_conn (reading (select_messages user_id chat_id)) s)
  unfolding with_conn history
  select-Coherent near far stored s h = go (next_fault s.faults).0 refl
    where
      Post : List Row → Storage l2.State → Type 0
      Post rows t =
          Coherent calm l2 user_id chat_id near far stored t × (map row_to_message rows ≡ stored)

      go :
          (b : Bool)
          → (next_fault s.faults).0 ≡ b
          → Settles calm Post (
              if b
              then (record s { faults = (next_fault s.faults).1 }, Result.raise connection_error)
              else (
                record s { faults = (next_fault s.faults).1 },
                Result.ok (select_messages user_id chat_id s.tables),
              ))
      go true e = raised_unless_calm calm s.faults h.quiet e
      go false e = (
        record {
          room = h.room;
          held = h.held;
          shown = h.shown;
          rows = h.rows;
          quiet = λ q. still_quiet s.faults (h.quiet q);
        },
        h.rows,
      )

  pub forget_list-Coherent :
      (near far stored : List Message) (s : Storage l2.State)
      → Coherent calm l2 user_id chat_id near far stored s
      → Settles calm
          (λ _ t. Coherent calm l2 user_id chat_id near far stored t)
          (forget_chat_list l2 user_id s)
  unfolding forget_chat_list recache
  forget_list-Coherent near far stored s h = record {
    room = h.room;
    held = h.held;
    shown = h.shown;
    rows = h.rows;
    quiet = h.quiet;
  }
