-- ===== src/Storage/Coherence/Shared.antt =====
-- The cache in Redis that assets/backend/postgres_storage.py uses: `redis_cache` of
-- assets/backend/cache.py, at the namespaces `messages`, `chats_list` and `partial`.
use Prim.Native.Char.{Char, code}
use text.Mathlib.TextLemmas.{cons-append, cons-eq-cons}
use rag_agent_chatbot.Prelude.{
  ℕ, String, ◌≡◌, ◌≢◌, refl, ap, sym, ◌∙◌, Bool, true, false, Option, none, some, List, arith,
}
use rag_agent_chatbot.Cache.{
  Codec, Settings, RedisCache, key_of, load_reply, get_json, set_json, delete,
}
use rag_agent_chatbot.Cache.Client.{Reply, done, raised, Redis}
use rag_agent_chatbot.Cache.Keys.{append-cancel}
use rag_agent_chatbot.Storage.Messages.{Message, MessageDict}
use rag_agent_chatbot.Storage.Sql.{owner_of}
use rag_agent_chatbot.Storage.Sql.Histories.{Restores}
use rag_agent_chatbot.Storage.Guards.{may_append, append_transaction_owned}
use rag_agent_chatbot.Storage.State.{L2Cache, Storage, last_of, ◌>>=◌}
use rag_agent_chatbot.Storage.Conversations.{append_messages_to_chat, get_messages}
use rag_agent_chatbot.Storage.Coherence.{MessagesLaws, Settles}
use rag_agent_chatbot.Storage.Coherence.Messaging.{IsCoherent, Returns}
use rag_agent_chatbot.Storage.Coherence.Appends.{grown, append_get-Returns}
use mathlib.Core.Path.{subst}

module _ (redis : Redis) (settings : Settings) (messages : Codec (List MessageDict))
    (chats : Codec (List String)) where
  abbrev pub redis_l2 : L2Cache
  redis_l2 = record {
    State = RedisCache redis;
    get_messages = λ key c. get_json redis settings messages "messages" key c;
    set_messages =
        λ key ds c. set_json redis settings messages "messages" key ds settings.l2_ttl_seconds c;
    delete_messages = λ key c. delete redis settings "messages" key c;
    delete_partial = λ key c. delete redis settings "partial" key c;
    get_chats = λ key c. get_json redis settings chats "chats_list" key c;
    set_chats = λ key cs ttl c. set_json redis settings chats "chats_list" key cs ttl c;
    delete_chats = λ key c. delete redis settings "chats_list" key c;
  }

-- What a Redis does that takes each value it is given: what a key shows, where it shows a text, is
-- the one set last under it; reads and the deletion of another key leave it. And orjson, where it reads
-- what it has written, reads the same.
pub record TakesValues (redis : Redis) (messages : Codec (List MessageDict)) : Type 0 where
  pub set_lem :
      (k v w : String) (ttl : ℕ) (s : redis.Server)
      → (redis.get k (redis.set_ex k v ttl s).0).1 ≡ done (some w)
      → w ≡ v
  pub get_lem :
      (k w : String) (s : redis.Server)
      → (redis.get k (redis.get k s).0).1 ≡ done (some w)
      → (redis.get k s).1 ≡ done (some w)
  pub delete_lem :
      (k j w : String) (s : redis.Server)
      → j ≢ k
      → (redis.get k (redis.delete j s).0).1 ≡ done (some w)
      → (redis.get k s).1 ≡ done (some w)
  pub loads_lem :
      (ds ds' : List MessageDict) → messages.loads (messages.dumps ds) ≡ some ds' → ds' ≡ ds

letter_m : Char
letter_m = "m"

letter_c : Char
letter_c = "c"

letters_differ : letter_c ≡ letter_m → ⊥
unfolding letter_m letter_c
letters_differ h = let codes : b'c' ≡ b'm' = ap code h in absurd (omega (arith, codes))

-- The messages of a chat are under no key of a list of chats.
key_of-chats-messages :
    (settings : Settings) (user_id key : String)
    → key_of settings "chats_list" user_id ≢ key_of settings "messages" key
unfolding key_of letter_m letter_c
key_of-chats-messages settings user_id key h =
    let rest = append-cancel ":" _ _ (append-cancel settings.key_prefix _ _ h) in
    letters_differ
      (cons-eq-cons.0 (sym (cons-append "c" "hats_list" _) ∙ rest ∙ cons-append "m" "essages" _)).0

module _ (redis : Redis) (settings : Settings) (messages : Codec (List MessageDict))
    (chats : Codec (List String)) (takes : TakesValues redis messages) where
  -- Where a reply loads, it holds a text.
  loaded :
      (r : Reply (Option String)) (ds : List MessageDict)
      → load_reply redis messages r ≡ some ds
      → (w : String) × (r ≡ done (some w)) × (messages.loads w ≡ some ds)
  unfolding load_reply
  loaded (done (some w)) ds h = (w, refl, h)
  loaded (done none) ds h = absurd (cc)
  loaded raised ds h = absurd (cc)

  set_lem :
      (key : String) (ds ds' : List MessageDict) (b : Bool) (s : redis.Server)
      → (get_json redis settings messages "messages" key (
          set_json redis settings messages "messages" key ds settings.l2_ttl_seconds
            (record { connected = b; server = s }))).1
        ≡ some ds'
      → ds' ≡ ds
  unfolding get_json set_json
  set_lem key ds ds' false s h = absurd (cc)
  set_lem key ds ds' true s h =
      let (w, shown, read) = loaded _ ds' h in
      let same = takes.set_lem (key_of settings "messages" key) (messages.dumps ds) w _ s shown in
      takes.loads_lem ds ds' (ap messages.loads (sym same) ∙ read)

  get_lem :
      (key : String) (ds : List MessageDict) (b : Bool) (s : redis.Server)
      → (get_json redis settings messages "messages" key
          (get_json redis settings messages "messages" key
            (record { connected = b; server = s })).0).1
        ≡ some ds
      → (get_json redis settings messages "messages" key (record { connected = b; server = s })).1
        ≡ some ds
  unfolding get_json
  get_lem key ds false s h = absurd (cc)
  get_lem key ds true s h =
      let (w, shown, read) = loaded _ ds h in
      ap (load_reply redis messages) (takes.get_lem (key_of settings "messages" key) w s shown)
      ∙ unfold load_reply in read

  chats_lem :
      (key user_id : String) (ds : List MessageDict) (b : Bool) (s : redis.Server)
      → (get_json redis settings messages "messages" key
          (delete redis settings "chats_list" user_id (record { connected = b; server = s }))).1
        ≡ some ds
      → (get_json redis settings messages "messages" key (record { connected = b; server = s })).1
        ≡ some ds
  unfolding get_json delete
  chats_lem key user_id ds false s h = absurd (cc)
  chats_lem key user_id ds true s h =
      let (w, shown, read) = loaded _ ds h in
      ap (load_reply redis messages) (
        takes.delete_lem (key_of settings "messages" key) (key_of settings "chats_list" user_id) w s
          (key_of-chats-messages settings user_id key) shown)
      ∙ unfold load_reply in read

  -- `redis_cache` over such a Redis keeps the laws that the coherence of the caches relies on.
  pub redis_l2-MessagesLaws : MessagesLaws (redis_l2 redis settings messages chats)
  redis_l2-MessagesLaws = record {
    set_lem = λ key ds ds' c h. set_lem key ds ds' c.connected c.server h;
    get_lem = λ key ds c h. get_lem key ds c.connected c.server h;
    chats_lem = λ key user_id ds c h. chats_lem key user_id ds c.connected c.server h;
  }

  -- With a Redis that takes each value it is given, caches that agree with the database on the chat,
  -- warm or cold, and messages that a row gives back as they were: an append and a later read of the
  -- last `limit` messages return where no connection to the database fails (`calm`), and where they
  -- return, failures or not, the read is the end of the old messages and the new ones behind them
  -- where the chat is the user's or no one's before the append, and of the old ones alone where it is
  -- another user's; and the caches agree with the database on that list.
  pub append_get_messages :
      (calm : Bool) (user_id chat_id : String) (now later : ℕ) (limit : Option ℕ)
      (old new : List Message) (s : Storage (RedisCache redis))
      → Restores new
      → IsCoherent calm
          (redis_l2 redis settings messages chats)
          redis_l2-MessagesLaws
          user_id
          chat_id
          old
          s
      → let l2 = redis_l2 redis settings messages chats in
        let h =
          grown calm l2 redis_l2-MessagesLaws user_id chat_id old new
            (may_append user_id (owner_of chat_id s.tables)) in
        Settles calm (Returns calm l2 redis_l2-MessagesLaws user_id chat_id (last_of limit h) h) (
          (append_messages_to_chat l2 now user_id chat_id new
              >>= (λ _. get_messages l2 later user_id chat_id limit))
            s)
  append_get_messages calm user_id chat_id now later limit old new s r c =
      let l2 = redis_l2 redis settings messages chats in
      subst
        (λ owned.
          let h = grown calm l2 redis_l2-MessagesLaws user_id chat_id old new owned in
          Settles calm (Returns calm l2 redis_l2-MessagesLaws user_id chat_id (last_of limit h) h) (
            (append_messages_to_chat l2 now user_id chat_id new
                >>= (λ _. get_messages l2 later user_id chat_id limit))
              s))
        (append_transaction_owned now user_id chat_id new s.tables)
        (append_get-Returns calm l2 redis_l2-MessagesLaws user_id chat_id now later limit old new s
          r c)
