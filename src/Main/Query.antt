-- ===== src/Main/Query.antt =====
-- `stream_chat_query` of assets/backend/main.py: its guards, the stream's slot, and the events that
-- it passes on. The events of `agent.query` are given, each with whether the client is gone behind
-- it; the agent may end by an exception. Logging is left out.
pub mod Slots
pub mod Owners
use Prim.Native.String.{◌++◌ as ◌<>◌}
use rag_agent_chatbot.Prelude.{
  ℕ, ◌+◌, ◌*◌, String, Bool, true, false, not, ◌&&◌, Option, none, some, List, [], ◌∷◌, str_eq, ltb,
  if◌then◌else◌,
}
use rag_agent_chatbot.Text.{Text, lstrip}
use rag_agent_chatbot.Http.{Response, returned, http_error}
use rag_agent_chatbot.Storage.Sql.{owner_of}
use rag_agent_chatbot.Storage.State.{
  L2Cache, Storage, Result, pure, with_conn, reading, ◌>>=◌, Action,
}
use rag_agent_chatbot.Storage.Conversations.{exists}
use rag_agent_chatbot.Cache.{
  Codec, Settings, RedisCache, acquire_stream_slot, release_stream_slot, Partial,
  save_partial_response, clear_partial_response,
}
use rag_agent_chatbot.Cache.Client.{Redis}

abbrev pub max_query_bytes : ℕ
max_query_bytes = 64 * 1024

abbrev pub max_streams_per_user : ℕ
max_streams_per_user = 5

abbrev pub stream_slot_ttl_seconds : ℕ
stream_slot_ttl_seconds = 600

-- `len(s.encode("utf-8"))`
abbrev pub utf8_width : ℕ → ℕ
utf8_width c = if ltb c 128 then 1 else if ltb c 2048 then 2 else if ltb c 65536 then 3 else 4

unfoldable pub utf8_length : Text → ℕ
utf8_length [] = 0
utf8_length (c ∷ s) = utf8_width c + utf8_length s

abbrev pub is_empty : Text → Bool
is_empty [] = true
is_empty (c ∷ s) = false

-- `not message or not message.strip()`
abbrev pub is_blank : Text → Bool
is_blank message = is_empty (lstrip message)

-- `if other_owner and other_owner != current_user`
unfoldable pub owner_response : String → Option String → Response (Unit {0})
owner_response current_user none = returned tt
owner_response current_user (some owner) =
    if not (str_eq owner "") && not (str_eq owner current_user)
    then http_error 404 "Chat not found"
    else returned tt

module _ (l2 : L2Cache) where
  unfoldable pub check_owner : String → String → Bool → Action l2 (Response (Unit {0}))
  unfolding owner_response
  check_owner chat_id current_user true = pure (returned tt)
  check_owner chat_id current_user false = do
    other_owner ← with_conn (reading (owner_of chat_id))
    pure (owner_response current_user other_owner)

  -- The guards before the slot.
  unfoldable pub check_query : ℕ → String → Text → String → Action l2 (Response (Unit {0}))
  check_query now chat_id message current_user =
      if is_blank message
      then pure (http_error 400 "message is required")
      else if ltb max_query_bytes (utf8_length message)
      then pure (http_error 413 "Message too large")
      else (do found ← exists l2 now current_user chat_id; check_owner chat_id current_user found)

-- `data` of a token may be absent; of the other events only that they are passed on matters.
pub data Event : Type 0 where
  token : Option String → Event
  progress : String → Event
  error_event : Event

-- How `event_stream` ends: by itself, or cancelled, with what it collected.
pub data Ending : Type 0 where
  completed : Ending
  cancelled : String → Ending

abbrev pub collected : String → Event → String
collected partial_buffer (token (some data_text)) = partial_buffer <> data_text
collected partial_buffer (token none) = partial_buffer
collected partial_buffer (progress kind) = partial_buffer
collected partial_buffer error_event = partial_buffer

-- What comes behind the last event of the agent: its end, an exception of it, or a cancellation while
-- `event_stream` waits for it.
pub data Last : Type 0 where
  finished raising interrupted : Last

-- Each event comes with what stops the stream behind it, at `yield` or by the check of the client.
unfoldable pub pass_on : Last → String → List (Event × Bool) → List Event × Ending
pass_on finished partial_buffer [] = ([], completed)
pass_on raising partial_buffer [] = (error_event ∷ [], completed)
pass_on interrupted partial_buffer [] = ([], cancelled partial_buffer)
pass_on last partial_buffer ((event, is_disconnected) ∷ events) =
    let (rest, ending) = pass_on last (collected partial_buffer event) events in
    if is_disconnected
    then (event ∷ [], cancelled (collected partial_buffer event))
    else (event ∷ rest, ending)

module _ (redis : Redis) (settings : Settings) (codec : Codec Partial) where
  unfoldable pub keep_partial : String → String → Ending → RedisCache redis → RedisCache redis
  keep_partial current_user chat_id completed c = c
  keep_partial current_user chat_id (cancelled partial_text) c =
      save_partial_response redis settings codec current_user chat_id partial_text c

  unfoldable pub event_stream :
      String
      → String
      → Last
      → List (Event × Bool)
      → RedisCache redis
      → RedisCache redis × List Event
  unfolding pass_on keep_partial
  event_stream current_user chat_id last events c =
      let c₁ = clear_partial_response redis settings current_user chat_id c in
      let (sent, ending) = pass_on last "" events in
      (
        release_stream_slot redis settings current_user
            (keep_partial current_user chat_id ending c₁),
        sent,
      )

module _ (redis : Redis) (settings : Settings) (l2 : L2Cache) where
  -- The slot, where the guards let the query pass.
  unfoldable pub admit :
      String
      → RedisCache redis
      → Storage l2.State × Result (Response (Unit {0}))
      → (Storage l2.State × RedisCache redis) × Result (Response (Unit {0}))
  admit current_user c (s, Result.raise e) = ((s, c), Result.raise e)
  admit current_user c (s, Result.ok (http_error status detail)) =
      ((s, c), Result.ok (http_error status detail))
  admit current_user c (s, Result.ok (returned _)) =
      let (c₁, acquired) =
        acquire_stream_slot redis settings current_user max_streams_per_user stream_slot_ttl_seconds
          c in
      (
        (s, c₁),
        Result.ok (if acquired then returned tt else http_error 429 "Too many active streams"),
      )

  unfoldable pub stream_chat_query :
      ℕ
      → String
      → Text
      → String
      → Storage l2.State × RedisCache redis
      → (Storage l2.State × RedisCache redis) × Result (Response (Unit {0}))
  unfolding admit
  stream_chat_query now chat_id message current_user (s, c) =
      admit current_user c (check_query l2 now chat_id message current_user s)

module _ (redis : Redis) (settings : Settings) (codec : Codec Partial) (l2 : L2Cache) where
  -- The events of a query that is let in; of another, none.
  unfoldable pub stream_if_admitted :
      String
      → String
      → Last
      → List (Event × Bool)
      → (Storage l2.State × RedisCache redis) × Result (Response (Unit {0}))
      → (Storage l2.State × RedisCache redis) × List Event
  unfolding event_stream
  stream_if_admitted current_user chat_id last events ((s, c), Result.raise e) = ((s, c), [])
  stream_if_admitted current_user chat_id last events
        ((s, c), Result.ok (http_error status detail)) =
      ((s, c), [])
  stream_if_admitted current_user chat_id last events ((s, c), Result.ok (returned _)) =
      let (c₁, sent) = event_stream redis settings codec current_user chat_id last events c in
      ((s, c₁), sent)

  -- A query, to the end of its stream.
  unfoldable pub stream_response_of :
      ℕ
      → String
      → Text
      → String
      → Last
      → List (Event × Bool)
      → Storage l2.State × RedisCache redis
      → (Storage l2.State × RedisCache redis) × List Event
  unfolding stream_chat_query stream_if_admitted
  stream_response_of now chat_id message current_user last events s =
      stream_if_admitted current_user chat_id last events
        (stream_chat_query redis settings l2 now chat_id message current_user s)
