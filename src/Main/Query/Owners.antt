-- ===== src/Main/Query/Owners.antt =====
-- Whose chats `stream_chat_query` of assets/backend/main.py lets a user query.
use rag_agent_chatbot.Prelude.{
  ℕ, String, ◌≡◌, ◌≢◌, refl, sym, ap, ◌∙◌, Bool, true, false, not, ◌&&◌, Option, some, str_eq,
  eq_iff, if◌then◌else◌, ltb,
}
use mathlib.Core.Path.{subst}
use rag_agent_chatbot.Text.{Text}
use rag_agent_chatbot.Http.{Response, returned, http_error}
use rag_agent_chatbot.Lru
use rag_agent_chatbot.Storage.Sql.{conversation_exists, owner_of}
use rag_agent_chatbot.Storage.State.{
  L2Cache, Storage, Result, pure, with_conn, ◌>>=◌, ◌>>◌, gets, recache, has_messages, next_fault,
  continue, connection_error,
}
use rag_agent_chatbot.Storage.Conversations.{exists, get_cached_messages}
use rag_agent_chatbot.Cache.{Settings, RedisCache, cache_key}
use rag_agent_chatbot.Cache.Client.{Redis}
use rag_agent_chatbot.Main.Query.{
  is_blank, max_query_bytes, utf8_length, owner_response, check_owner, check_query, admit,
  stream_chat_query,
}

owner_response-other :
    (user owner : String)
    → owner ≢ user
    → owner ≢ ""
    → owner_response user (some owner) ≡ http_error 404 "Chat not found"
unfolding owner_response
owner_response-other user owner other named = go (str_eq owner "") (str_eq owner user) refl refl
  where
    go :
        (b b' : Bool)
        → str_eq owner "" ≡ b
        → str_eq owner user ≡ b'
        → if◌then◌else◌ {A = Response (Unit {0})}
            (not b && not b')
            (http_error 404 "Chat not found")
            (returned tt)
          ≡ http_error 404 "Chat not found"
    go true b' e e' = absurd (named ((eq_iff owner "").0 e))
    go false true e e' = absurd (other ((eq_iff owner user).0 e'))
    go false false e e' = refl

-- Not let in: an exception or an HTTP error.
abbrev pub IsRefused : Result (Response (Unit {0})) → Type 0
IsRefused (Result.raise e) = Unit
IsRefused (Result.ok (http_error status detail)) = Unit
IsRefused (Result.ok (returned _)) = ⊥

module _ (l2 : L2Cache) where
  check_owner-other :
      (chat_id user owner : String) (s : Storage l2.State)
      → owner_of chat_id s.tables ≡ some owner
      → owner ≢ user
      → owner ≢ ""
      → IsRefused (check_owner l2 chat_id user false s).1
  unfolding check_owner with_conn ◌>>=◌
  check_owner-other chat_id user owner s owned other named =
      go (next_fault s.faults).0 _ _ (owner_of chat_id s.tables) owned
    where
      go :
          (b : Bool) (t u : Storage l2.State) (o : Option String)
          → o ≡ some owner
          → IsRefused
              (continue
                (λ o. pure (owner_response user o))
                (if b then (t, Result.raise connection_error) else (u, Result.ok o))).1
      go true t u o e = tt
      go false t u o e =
          subst (λ r. IsRefused (Result.ok r))
            (sym (ap (owner_response user) e ∙ owner_response-other user owner other named)) tt

  -- The chat is not found, with the tables as they were; or the connection fails.
  abbrev Missing : Storage l2.State → Storage l2.State × Result Bool → Type 0
  Missing s (t, Result.raise e) = Unit
  Missing s (t, Result.ok found) = (found ≡ false) × (t.tables ≡ s.tables)

  exists-Missing :
      (now : ℕ) (user chat_id : String) (s : Storage l2.State)
      → has_messages (Lru.get now s.message_cache (cache_key user chat_id)).1 ≡ false
      → conversation_exists user chat_id s.tables ≡ false
      → Missing s (exists l2 now user chat_id s)
  unfolding exists get_cached_messages with_conn ◌>>=◌ ◌>>◌ gets recache
  exists-Missing now user chat_id s uncached absent =
      rw uncached (go (next_fault s.faults).0 _ _ _ absent refl)
    where
      go :
          (b : Bool) (t u : Storage l2.State) (found : Bool)
          → found ≡ false
          → u.tables ≡ s.tables
          → Missing s (if b then (t, Result.raise connection_error) else (u, Result.ok found))
      go true t u found e same = tt
      go false t u found e same = (e, same)

  refuses :
      (chat_id user owner : String) (s : Storage l2.State) (r : Storage l2.State × Result Bool)
      → owner_of chat_id s.tables ≡ some owner
      → owner ≢ user
      → owner ≢ ""
      → Missing s r
      → IsRefused (continue (check_owner l2 chat_id user) r).1
  refuses chat_id user owner s (t, Result.raise e) owned other named missing = tt
  refuses chat_id user owner s (t, Result.ok true) owned other named (found, same) =
      absurd (cc found)
  refuses chat_id user owner s (t, Result.ok false) owned other named (found, same) =
      check_owner-other chat_id user owner t (ap (owner_of chat_id) same ∙ owned) other named

  check_query-other :
      (now : ℕ) (user chat_id owner : String) (message : Text) (s : Storage l2.State)
      → owner_of chat_id s.tables ≡ some owner
      → owner ≢ user
      → owner ≢ ""
      → conversation_exists user chat_id s.tables ≡ false
      → has_messages (Lru.get now s.message_cache (cache_key user chat_id)).1 ≡ false
      → IsRefused (check_query l2 now chat_id message user s).1
  unfolding check_query ◌>>=◌
  check_query-other now user chat_id owner message s owned other named absent uncached =
      go (is_blank message) (ltb max_query_bytes (utf8_length message))
    where
      go :
          (blank long : Bool)
          → IsRefused
              ((if blank
                  then pure (http_error 400 "message is required")
                  else if long
                  then pure (http_error 413 "Message too large")
                  else (do found ← exists l2 now user chat_id; check_owner l2 chat_id user found))
                s).1
      go true long = tt
      go false true = tt
      go false false =
          refuses chat_id user owner s _ owned other named
            (exists-Missing now user chat_id s uncached absent)

  module _ (redis : Redis) (settings : Settings) where
    admit-IsRefused :
        (user : String) (c : RedisCache redis) (r : Storage l2.State × Result (Response (Unit {0})))
        → IsRefused r.1
        → ((admit redis settings l2 user c r).0.1 ≡ c)
          × IsRefused (admit redis settings l2 user c r).1
    unfolding admit
    admit-IsRefused user c (s, Result.raise e) h = (refl, tt)
    admit-IsRefused user c (s, Result.ok (http_error status detail)) h = (refl, tt)
    admit-IsRefused user c (s, Result.ok (returned u)) h = absurd h

    -- For a chat that another user owns, where the caller has no row of it and no messages of it in
    -- the cache: whatever the message and whatever connections fail, the query is refused and takes no
    -- slot.
    pub stream_chat_query-other :
        (now : ℕ) (user chat_id owner : String) (message : Text) (s : Storage l2.State)
        (c : RedisCache redis)
        → owner_of chat_id s.tables ≡ some owner
        → owner ≢ user
        → owner ≢ ""
        → conversation_exists user chat_id s.tables ≡ false
        → has_messages (Lru.get now s.message_cache (cache_key user chat_id)).1 ≡ false
        → ((stream_chat_query redis settings l2 now chat_id message user (s, c)).0.1 ≡ c)
          × IsRefused (stream_chat_query redis settings l2 now chat_id message user (s, c)).1
    unfolding stream_chat_query
    stream_chat_query-other now user chat_id owner message s c owned other named absent uncached =
        admit-IsRefused user c (check_query l2 now chat_id message user s)
          (check_query-other now user chat_id owner message s owned other named absent uncached)
