-- ===== src/Cache/Slots.antt =====
-- The stream slots of a user, where Redis answers: `acquire_stream_slot` and `release_stream_slot`
-- as operations on a counter.
use mathlib.Core.Bool.{false≢true}
use rag_agent_chatbot.Prelude.{
  ℕ, zero, suc, ◌-◌, ◌≤◌, String, ◌≡◌, refl, ap, ◌∙◌, Bool, true, false, not, some, List, [], ◌∷◌,
  arith, if◌then◌else◌, ltb, Bool-cases, inl, inr,
}
use rag_agent_chatbot.Prelude.Int.{ℤ, pos, succ, pred, exceeds}
use rag_agent_chatbot.Cache.Client.{done, Redis, CounterLaws}
use rag_agent_chatbot.Cache.{
  Settings, RedisCache, key_of, claim, check_cap, undo_claim, acquire_stream_slot, floor_at_zero,
  release_stream_slot,
}

-- The commands on one key return.
pub record Answers (redis : Redis) (key : String) : Type 0 where
  pub incr : (s : redis.Server) → (t : redis.Server) × (n : ℤ) × (redis.incr key s ≡ (t, done n))
  pub decr : (s : redis.Server) → (t : redis.Server) × (n : ℤ) × (redis.decr key s ≡ (t, done n))
  pub expire :
      (ttl : ℕ) (s : redis.Server) → (t : redis.Server) × (redis.expire key ttl s ≡ (t, done tt))
  pub reset : (s : redis.Server) → (t : redis.Server) × (redis.reset_existing key s ≡ (t, done tt))

-- The count with one more is over the cap where the count was not under it.
cap_over : (n cap : ℕ) → exceeds (pos (suc n)) cap ≡ not (ltb n cap)
cap_over n cap = ground arith

module _ (redis : Redis) (laws : CounterLaws redis) (key : String)
    (answers : Answers redis key) where
  -- The outcome of a claim from the count `n`.
  pub claim_lem :
      (max_concurrent ttl n : ℕ) (s : redis.Server)
      → laws.counter s key ≡ pos n
      → (t : redis.Server) × (claim redis key max_concurrent ttl (redis.incr key s)
          ≡ (t, ltb n max_concurrent))
        × (laws.counter t key ≡ pos (if ltb n max_concurrent then suc n else n))
        × (laws.ttl_of t key ≡ some ttl)
  unfolding claim check_cap undo_claim
  claim_lem max_concurrent ttl n s at =
      let (t₁, m, counted) = answers.incr s in
      let (t₂, kept) = answers.expire ttl t₁ in
      let (t₃, k, undone) = answers.decr t₂ in
      let (new, now) = laws.incr_lem key s t₁ m counted in
      let (same, armed) = laws.expire_lem key ttl t₁ t₂ kept in
      let (less, back, still) = laws.decr_lem key t₂ t₃ k undone in
      let is_next : m ≡ pos (suc n) = new ∙ ap succ at in
      elim (Bool-cases (ltb n max_concurrent)) [
        | inl room ↦ (
          t₂,
          rw (counted, kept, is_next) (rw (cap_over n max_concurrent, room) refl),
          rw room (same ∙ now ∙ is_next),
          armed,
        )
        | inr full ↦ (
          t₃,
          rw (counted, kept, is_next) (rw (cap_over n max_concurrent, full) (rw undone refl)),
          rw full (back ∙ less ∙ ap pred (same ∙ now ∙ is_next)),
          still ∙ armed,
        )
      ]

  floor_lem :
      (n : ℕ) (s : redis.Server)
      → laws.counter s key ≡ pos n
      → laws.counter (floor_at_zero redis key (redis.decr key s)) key ≡ pos (n - 1)
  unfolding floor_at_zero
  floor_lem zero s at =
      let (t, m, counted) = answers.decr s in
      let (u, set) = answers.reset t in
      let (less, now, same) = laws.decr_lem key s t m counted in
      rw (counted, less ∙ ap pred at) (rw set (laws.reset_lem key t u set))
  floor_lem (suc n) s at =
      let (t, m, counted) = answers.decr s in
      let (less, now, same) = laws.decr_lem key s t m counted in
      let is_pred : n ≡ suc n - 1 = omega arith in
      rw (counted, less ∙ ap pred at) (now ∙ less ∙ ap pred at ∙ ap pos is_pred)

-- A user's calls, one at a time.
pub data Call : Type 0 where
  acquire release : Call

module _ (redis : Redis) (settings : Settings) (user_id : String) (max_concurrent ttl : ℕ) where
  unfoldable pub after_call : Call → RedisCache redis → RedisCache redis
  after_call acquire c = (acquire_stream_slot redis settings user_id max_concurrent ttl c).0
  after_call release c = release_stream_slot redis settings user_id c

  unfoldable pub after_calls : List Call → RedisCache redis → RedisCache redis
  after_calls [] c = c
  after_calls (call ∷ calls) c = after_calls calls (after_call call c)

module _ (redis : Redis) (laws : CounterLaws redis) (settings : Settings) (user_id : String)
    (answers : Answers redis (key_of settings "streams" user_id)) (max_concurrent ttl : ℕ) where
  -- The count of the user's streams is `n`, behind a client.
  pub record Counts (c : RedisCache redis) (n : ℕ) : Type 0 where
    pub up : c.connected ≡ true
    pub count : laws.counter c.server (key_of settings "streams" user_id) ≡ pos n

  acquire_up :
      (n : ℕ) (b : Bool) (s : redis.Server)
      → Counts (record { connected = b; server = s }) n
      → let c : RedisCache redis = record { connected = b; server = s } in
        ((acquire_stream_slot redis settings user_id max_concurrent ttl c).1 ≡ ltb n max_concurrent)
        × Counts
            (acquire_stream_slot redis settings user_id max_concurrent ttl c).0
            (if ltb n max_concurrent then suc n else n)
        × (laws.ttl_of
              (acquire_stream_slot redis settings user_id max_concurrent ttl c).0.server
              (key_of settings "streams" user_id)
            ≡ some ttl)
  unfolding acquire_stream_slot
  acquire_up n false s h = absurd (false≢true h.up)
  acquire_up n true s h =
      let (t, run, count, armed) =
        claim_lem redis laws (key_of settings "streams" user_id) answers max_concurrent ttl n s
          h.count in
      (
        ap (λ p. p.1) run,
        record {
          up = refl;
          count = ap (λ p. laws.counter p.0 (key_of settings "streams" user_id)) run ∙ count;
        },
        ap (λ p. laws.ttl_of p.0 (key_of settings "streams" user_id)) run ∙ armed,
      )

  -- Where Redis answers, a slot is granted exactly while the user has fewer than the cap; a grant
  -- counts one stream more and a refusal leaves the count; and both, the refusal too, give the
  -- counter its whole time to live again.
  pub acquire_stream_slot_lem :
      (n : ℕ) (c : RedisCache redis)
      → Counts c n
      → ((acquire_stream_slot redis settings user_id max_concurrent ttl c).1 ≡ ltb n max_concurrent)
        × Counts
            (acquire_stream_slot redis settings user_id max_concurrent ttl c).0
            (if ltb n max_concurrent then suc n else n)
        × (laws.ttl_of
              (acquire_stream_slot redis settings user_id max_concurrent ttl c).0.server
              (key_of settings "streams" user_id)
            ≡ some ttl)
  acquire_stream_slot_lem n c h = acquire_up n c.connected c.server h

  release_up :
      (n : ℕ) (b : Bool) (s : redis.Server)
      → Counts (record { connected = b; server = s }) n
      → Counts
          (release_stream_slot redis settings user_id (record { connected = b; server = s }))
          (n - 1)
  unfolding release_stream_slot
  release_up n false s h = absurd (false≢true h.up)
  release_up n true s h = record {
    up = refl;
    count = floor_lem redis laws (key_of settings "streams" user_id) answers n s h.count;
  }

  -- A release counts one stream less, and never goes below none.
  pub release_stream_slot_lem :
      (n : ℕ) (c : RedisCache redis)
      → Counts c n
      → Counts (release_stream_slot redis settings user_id c) (n - 1)
  release_stream_slot_lem n c h = release_up n c.connected c.server h

  after_call-within :
      (call : Call) (n : ℕ) (c : RedisCache redis)
      → Counts c n
      → n ≤ max_concurrent
      → (m : ℕ) × Counts (after_call redis settings user_id max_concurrent ttl call c) m
        × (m ≤ max_concurrent)
  unfolding after_call
  after_call-within acquire n c h within =
      (if ltb n max_concurrent then suc n else n, (acquire_stream_slot_lem n c h).1, ground arith)
  after_call-within release n c h within = (n - 1, release_stream_slot_lem n c h, omega arith)

  -- With a Redis whose INCR, DECR, EXPIRE and SET on the counter never fail and do what they document:
  -- from a count of at most the cap, whatever a user's claims and releases, in any number and order,
  -- releases without a claim among them, the count at the end is between zero and the cap.
  pub after_calls-within :
      (calls : List Call) (n : ℕ) (c : RedisCache redis)
      → Counts c n
      → n ≤ max_concurrent
      → (m : ℕ) × Counts (after_calls redis settings user_id max_concurrent ttl calls c) m
        × (m ≤ max_concurrent)
  unfolding after_calls
  after_calls-within [] n c h within = (n, h, within)
  after_calls-within (call ∷ calls) n c h within =
      let (m, next, still) = after_call-within call n c h within in
      after_calls-within calls m (after_call redis settings user_id max_concurrent ttl call c) next
        still
