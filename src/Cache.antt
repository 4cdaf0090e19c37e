-- ===== src/Cache.antt =====
-- assets/backend/cache.py: `RedisCache` and the partial responses, over a Redis client that is a
-- parameter. Logging is left out.
pub mod Client
pub mod Soft
pub mod Slots
pub mod Keys
use Prim.Native.String
use Prim.Native.String.{◌++◌}
use rag_agent_chatbot.Prelude.{
  ℕ, String, Bool, true, false, Option, none, some, str_eq, if◌then◌else◌,
}
use rag_agent_chatbot.Prelude.Int.{ℤ, exceeds, is_negative}
use rag_agent_chatbot.Cache.Client.{Reply, done, raised, Redis}

-- `orjson`: how the values of one namespace are written and read. A text that is no JSON raises.
pub record Codec (A : Type 0) : Type 0 where
  pub dumps : A → String
  pub loads : String → Option A

-- The settings read from the environment at start.
pub record Settings : Type 0 where
  pub key_prefix : String
  pub l2_ttl_seconds : ℕ

module _ (redis : Redis) where
  -- `RedisCache`: whether there is a client, beside the server that it speaks to.
  pub record RedisCache : Type 0 where
    pub connected : Bool
    pub server : redis.Server

-- `f"{REDIS_KEY_PREFIX}:{namespace}:{key}"`
unfoldable pub key_of : Settings → String → String → String
key_of settings namespace key = settings.key_prefix ++ (":" ++ (namespace ++ (":" ++ key)))

module _ (redis : Redis) where
  -- `ping` decides: a client that cannot reach the master is given up.
  unfoldable pub connect_after :
      RedisCache redis → redis.Server × Reply (Unit {0}) → RedisCache redis
  connect_after c (server, done _) = record { connected = true; server = server }
  connect_after c (server, raised) = record { connected = false; server = server }

  unfoldable pub connect : RedisCache redis → RedisCache redis
  unfolding connect_after
  connect c = if c.connected then c else connect_after c (redis.ping c.server)

  -- `_json_loads` of a reply: nothing stored is `None`.
  unfoldable pub load_reply : {A : Type 0} → Codec A → Reply (Option String) → Option A
  load_reply codec (done (some raw)) = codec.loads raw
  load_reply codec (done none) = none
  load_reply codec raised = none

  unfoldable pub get_json :
      {A : Type 0}
      → Settings
      → Codec A
      → String
      → String
      → RedisCache redis
      → RedisCache redis × Option A
  unfolding key_of load_reply
  get_json settings codec namespace key c =
      let (server, reply) = redis.get (key_of settings namespace key) c.server in
      if c.connected then (record c { server = server }, load_reply codec reply) else (c, none)

  unfoldable pub set_json :
      {A : Type 0}
      → Settings
      → Codec A
      → String
      → String
      → A
      → ℕ
      → RedisCache redis
      → RedisCache redis
  unfolding key_of
  set_json settings codec namespace key value ttl_seconds c =
      if c.connected
      then record c {
        server =
            (redis.set_ex (key_of settings namespace key) (codec.dumps value) ttl_seconds
              c.server).0;
      }
      else c

  unfoldable pub delete : Settings → String → String → RedisCache redis → RedisCache redis
  unfolding key_of
  delete settings namespace key c =
      if c.connected
      then record c { server = (redis.delete (key_of settings namespace key) c.server).0 }
      else c

  -- `if count > max_concurrent`, behind the `expire`. A `decr` that raises fails open.
  unfoldable pub undo_claim : redis.Server × Reply ℤ → redis.Server × Bool
  undo_claim (server, done _) = (server, false)
  undo_claim (server, raised) = (server, true)

  unfoldable pub check_cap : String → ℕ → ℤ → redis.Server × Reply (Unit {0}) → redis.Server × Bool
  unfolding undo_claim
  check_cap key max_concurrent count (server, raised) = (server, true)
  check_cap key max_concurrent count (server, done _) =
      if exceeds count max_concurrent then undo_claim (redis.decr key server) else (server, true)

  unfoldable pub claim : String → ℕ → ℕ → redis.Server × Reply ℤ → redis.Server × Bool
  unfolding check_cap
  claim key max_concurrent ttl_seconds (server, raised) = (server, true)
  claim key max_concurrent ttl_seconds (server, done count) =
      check_cap key max_concurrent count (redis.expire key ttl_seconds server)

  unfoldable pub acquire_stream_slot :
      Settings → String → ℕ → ℕ → RedisCache redis → RedisCache redis × Bool
  unfolding claim key_of
  acquire_stream_slot settings user_id max_concurrent ttl_seconds c =
      let key = key_of settings "streams" user_id in
      let (server, granted) = claim key max_concurrent ttl_seconds (redis.incr key c.server) in
      if c.connected then (record c { server = server }, granted) else (c, true)

  -- `if new_count < 0`
  unfoldable pub floor_at_zero : String → redis.Server × Reply ℤ → redis.Server
  floor_at_zero key (server, raised) = server
  floor_at_zero key (server, done new_count) =
      if is_negative new_count then (redis.reset_existing key server).0 else server

  unfoldable pub release_stream_slot : Settings → String → RedisCache redis → RedisCache redis
  unfolding floor_at_zero key_of
  release_stream_slot settings user_id c =
      let key = key_of settings "streams" user_id in
      if c.connected then record c { server = floor_at_zero key (redis.decr key c.server) } else c

-- `f"{user_id}|{chat_id}"`, here and in postgres_storage.py
unfoldable pub cache_key : String → String → String
cache_key user_id chat_id = user_id ++ ("|" ++ chat_id)

-- `{"content": content, "truncated": True}`
pub record Partial : Type 0 where
  pub content : String
  pub truncated : Bool

module _ (redis : Redis) where
  unfoldable pub save_partial_response :
      Settings → Codec Partial → String → String → String → RedisCache redis → RedisCache redis
  unfolding set_json cache_key
  save_partial_response settings codec user_id chat_id content c =
      if str_eq content ""
      then c
      else set_json redis settings codec "partial" (cache_key user_id chat_id)
          (record { content = content; truncated = true }) settings.l2_ttl_seconds c

  unfoldable pub get_partial_response :
      Settings
      → Codec Partial
      → String
      → String
      → RedisCache redis
      → RedisCache redis × Option Partial
  unfolding get_json cache_key
  get_partial_response settings codec user_id chat_id c =
      get_json redis settings codec "partial" (cache_key user_id chat_id) c

  unfoldable pub clear_partial_response :
      Settings → String → String → RedisCache redis → RedisCache redis
  unfolding delete cache_key
  clear_partial_response settings user_id chat_id c =
      delete redis settings "partial" (cache_key user_id chat_id) c
