-- ===== src/Main/Query/Slots.antt =====
-- The slot of a stream, from `stream_chat_query` to the end of `event_stream`, in
-- assets/backend/main.py.
use rag_agent_chatbot.Prelude.{
  ℕ, suc, ◌-◌, ◌<◌, String, ◌≡◌, ◌≢◌, refl, ◌∙◌, Bool, true, false, List, arith, ltb, ltb→lt,
  if◌then◌else◌, str_eq,
}
use mathlib.Core.Path.{subst}
use rag_agent_chatbot.Text.{Text}
use rag_agent_chatbot.Http.{Response, returned, http_error}
use rag_agent_chatbot.Storage.State.{L2Cache, Storage, Result}
use rag_agent_chatbot.Cache.Client.{Redis, CounterLaws}
use rag_agent_chatbot.Cache.{
  Codec, Settings, RedisCache, Partial, key_of, cache_key, delete, set_json, save_partial_response,
  clear_partial_response,
}
use rag_agent_chatbot.Cache.Slots.{
  Answers, Counts, acquire_stream_slot_lem, release_stream_slot_lem,
}
use rag_agent_chatbot.Cache.Keys.{key_of-streams-partial}
use rag_agent_chatbot.Main.Query.{
  max_streams_per_user, stream_slot_ttl_seconds, Event, Last, Ending, completed, cancelled,
  check_query, pass_on, keep_partial, event_stream, admit, stream_chat_query, stream_if_admitted,
  stream_response_of,
}

-- A value that is set or deleted under another key leaves a counter.
pub record OtherKeys (redis : Redis) (laws : CounterLaws redis) : Type 0 where
  pub set_lem :
      (k j value : String) (ttl : ℕ) (s : redis.Server)
      → j ≢ k
      → laws.counter (redis.set_ex j value ttl s).0 k ≡ laws.counter s k
  pub delete_lem :
      (k j : String) (s : redis.Server)
      → j ≢ k
      → laws.counter (redis.delete j s).0 k ≡ laws.counter s k

module _ (redis : Redis) (laws : CounterLaws redis) (others : OtherKeys redis laws)
    (settings : Settings) (codec : Codec Partial) (user : String)
    (answers : Answers redis (key_of settings "streams" user)) where
  abbrev pub Running : RedisCache redis → ℕ → Type 0
  Running = Counts redis laws settings user answers max_streams_per_user stream_slot_ttl_seconds

  clear-Running :
      (chat_id : String) (n : ℕ) (c : RedisCache redis)
      → Running c n
      → Running (clear_partial_response redis settings user chat_id c) n
  unfolding clear_partial_response delete
  clear-Running chat_id n c h = go c.connected c.server h
    where
      go :
          (b : Bool) (s : redis.Server)
          → Running (record { connected = b; server = s }) n
          → Running
              (clear_partial_response redis settings user chat_id
                (record { connected = b; server = s }))
              n
      go false s h = h
      go true s h = record {
        up = refl;
        count = others.delete_lem _ _ s (key_of-streams-partial settings user _) ∙ h.count;
      }

  save-Running :
      (chat_id content : String) (n : ℕ) (c : RedisCache redis)
      → Running c n
      → Running (save_partial_response redis settings codec user chat_id content c) n
  unfolding save_partial_response set_json
  save-Running chat_id content n c h = go (str_eq content "") c.connected c.server h
    where
      go :
          (empty b : Bool) (s : redis.Server)
          → Running (record { connected = b; server = s }) n
          → Running
              (if empty
                then record { connected = b; server = s }
                else set_json redis settings codec "partial"
                    (cache_key user chat_id)
                    (record { content = content; truncated = true })
                    settings.l2_ttl_seconds
                    (record { connected = b; server = s }))
              n
      go true b s h = h
      go false false s h = h
      go false true s h = record {
        up = refl;
        count = others.set_lem _ _ _ _ s (key_of-streams-partial settings user _) ∙ h.count;
      }

  keep-Running :
      (chat_id : String) (ending : Ending) (n : ℕ) (c : RedisCache redis)
      → Running c n
      → Running (keep_partial redis settings codec user chat_id ending c) n
  unfolding keep_partial
  keep-Running chat_id completed n c h = h
  keep-Running chat_id (cancelled content) n c h = save-Running chat_id content n c h

  event_stream-Running :
      (chat_id : String) (last : Last) (events : List (Event × Bool)) (n : ℕ) (c : RedisCache redis)
      → Running c n
      → Running (event_stream redis settings codec user chat_id last events c).0 (n - 1)
  unfolding event_stream
  event_stream-Running chat_id last events n c h =
      release_stream_slot_lem redis laws settings user answers max_streams_per_user
        stream_slot_ttl_seconds n _
        (keep-Running chat_id (pass_on last "" events).1 n _ (clear-Running chat_id n c h))

  module _ (l2 : L2Cache) where
    -- What the guards and the claim leave of the count `n`.
    abbrev pub Admitted :
        ℕ → (Storage l2.State × RedisCache redis) × Result (Response (Unit {0})) → Type 0
    Admitted n ((s, c), Result.raise e) = Running c n
    Admitted n ((s, c), Result.ok (http_error status detail)) = Running c n
    Admitted n ((s, c), Result.ok (returned _)) = (n < max_streams_per_user) × Running c (suc n)

    admit-Admitted :
        (n : ℕ) (c : RedisCache redis) (r : Storage l2.State × Result (Response (Unit {0})))
        → Running c n
        → Admitted n (admit redis settings l2 user c r)
    unfolding admit
    admit-Admitted n c (s, Result.raise e) h = h
    admit-Admitted n c (s, Result.ok (http_error status detail)) h = h
    admit-Admitted n c (s, Result.ok (returned u)) h =
        let (granted, now, _) =
          acquire_stream_slot_lem redis laws settings user answers max_streams_per_user
            stream_slot_ttl_seconds n c h in
        go _ (ltb n max_streams_per_user) refl granted now
      where
        go :
            (acquired b : Bool)
            → ltb n max_streams_per_user ≡ b
            → acquired ≡ ltb n max_streams_per_user
            → {c₁ : RedisCache redis} → Running c₁ (if ltb n max_streams_per_user then suc n else n)
            → Admitted n (
              (s, c₁),
              Result.ok
                  (if acquired then returned tt else http_error 429 "Too many active streams"),
            )
        go true true e g now = (ltb→lt n max_streams_per_user e, rw e at now)
        go true false e g now = absurd (cc (e, g))
        go false true e g now = absurd (cc (e, g))
        go false false e g now = rw e at now

    stream_if_admitted-Running :
        (chat_id : String) (last : Last) (events : List (Event × Bool)) (n : ℕ)
        (r : (Storage l2.State × RedisCache redis) × Result (Response (Unit {0})))
        → Admitted n r
        → Running (stream_if_admitted redis settings codec l2 user chat_id last events r).0.1 n
    unfolding stream_if_admitted
    stream_if_admitted-Running chat_id last events n ((s, c), Result.raise e) h = h
    stream_if_admitted-Running chat_id last events n ((s, c), Result.ok (http_error status detail))
          h =
        h
    stream_if_admitted-Running chat_id last events n ((s, c), Result.ok (returned u)) (room, h) =
        subst (λ m. Running (event_stream redis settings codec user chat_id last events c).0 m)
          (omega arith) (event_stream-Running chat_id last events (suc n) c h)

    -- Where Redis answers, its commands on other keys leave a counter, and the user has `n` streams:
    -- a query that is let in had fewer than the cap
    -- and counts as one more, any other leaves the count; and at the end of its stream, by itself, by an
    -- exception of the agent or cancelled, the count is `n` again.
    pub stream_response_of_lem :
        (now : ℕ) (chat_id : String) (message : Text) (last : Last) (events : List (Event × Bool))
        (s : Storage l2.State) (n : ℕ) (c : RedisCache redis)
        → Running c n
        → Admitted n (stream_chat_query redis settings l2 now chat_id message user (s, c))
          × Running
              (stream_response_of redis settings codec l2 now chat_id message user last events
                (s, c)).0.1
              n
    unfolding stream_chat_query stream_response_of
    stream_response_of_lem now chat_id message last events s n c h =
        let admitted = admit-Admitted n c (check_query l2 now chat_id message user s) h in
        (admitted, stream_if_admitted-Running chat_id last events n _ admitted)
