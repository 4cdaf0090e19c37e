-- ===== src/Cache/Soft.antt =====
-- Redis errors stay inside the cache: what each method answers on every kind of reply.
use mathlib.Core.Bool.{false≢true}
use rag_agent_chatbot.Prelude.{ℕ, String, ◌≡◌, refl, Bool, true, false, inl, inr, sym, Bool-cases}
use rag_agent_chatbot.Prelude.Int.{ℤ, exceeds}
use rag_agent_chatbot.Cache.Client.{Reply, done, raised, Redis}
use rag_agent_chatbot.Cache.{Settings, RedisCache, key_of, acquire_stream_slot, claim, check_cap}

module _ (redis : Redis) (settings : Settings) where
  check_refused :
      (key : String) (max_concurrent : ℕ) (n : ℤ) (q : redis.Server × Reply (Unit {0}))
      → (check_cap redis key max_concurrent n q).1 ≡ false
      → exceeds n max_concurrent ≡ true
  unfolding check_cap
  check_refused key max_concurrent n (t, raised) h = absurd (cc)
  check_refused key max_concurrent n (t, done _) h = elim (Bool-cases (exceeds n max_concurrent)) [
    | inl over ↦ over
    | inr under ↦ absurd (false≢true (sym (rw under at h)))
  ]

  claim_refused :
      (key : String) (max_concurrent ttl : ℕ) (p : redis.Server × Reply ℤ)
      → (claim redis key max_concurrent ttl p).1 ≡ false
      → (t : redis.Server) × (n : ℤ) × (p ≡ (t, done n)) × (exceeds n max_concurrent ≡ true)
  unfolding claim
  claim_refused key max_concurrent ttl (t, raised) h = absurd (cc)
  claim_refused key max_concurrent ttl (t, done n) h =
      (t, n, refl, check_refused key max_concurrent n _ h)

  connected_refused :
      (user_id : String) (max_concurrent ttl : ℕ) (b : Bool) (s : redis.Server)
      → (acquire_stream_slot redis settings user_id max_concurrent ttl
          (record { connected = b; server = s })).1
        ≡ false
      → (b ≡ true)
        × (t : redis.Server) × (n : ℤ) × (redis.incr (key_of settings "streams" user_id) s
            ≡ (t, done n))
        × (exceeds n max_concurrent ≡ true)
  unfolding acquire_stream_slot
  connected_refused user_id max_concurrent ttl false s h = absurd (cc)
  connected_refused user_id max_concurrent ttl true s h =
      let (t, n, counted, over) =
        claim_refused (key_of settings "streams" user_id) max_concurrent ttl _ h in
      (refl, t, n, counted, over)

  -- A stream is refused only where Redis has counted it and found the count over the cap: with no
  -- client, or where any of the three commands raises, the request may go on.
  pub refused_only_over_cap :
      (user_id : String) (max_concurrent ttl : ℕ) (c : RedisCache redis)
      → (acquire_stream_slot redis settings user_id max_concurrent ttl c).1 ≡ false
      → (c.connected ≡ true)
        × (t : redis.Server) × (n : ℤ) × (redis.incr (key_of settings "streams" user_id) c.server
            ≡ (t, done n))
        × (exceeds n max_concurrent ≡ true)
  refused_only_over_cap user_id max_concurrent ttl c h =
      connected_refused user_id max_concurrent ttl c.connected c.server h
