-- ===== src/Tests/Redis.antt =====
-- assets/backend/cache.py over a server of one counter and one value.
use rag_agent_chatbot.Prelude.{
  ℕ, ◌≤◌, String, ◌≡◌, refl, ap, sym, ◌∙◌, true, false, Option, none, some, [], ◌∷◌, arith,
}
use rag_agent_chatbot.Prelude.Int.{ℤ, pos, succ, pred}
use rag_agent_chatbot.Cache.{
  Codec, Settings, RedisCache, key_of, get_json, set_json, acquire_stream_slot, release_stream_slot,
  cache_key,
}
use rag_agent_chatbot.Cache.Client.{done, Redis, CounterLaws}
use rag_agent_chatbot.Cache.Slots.{
  Answers, Counts, acquire, release, after_calls, acquire_stream_slot_lem, after_calls-within,
}
use rag_agent_chatbot.Cache.Keys.{cache_key_injective}

pub record Server : Type 0 where
  pub number : ℤ
  pub left : Option ℕ
  pub value : Option String

abbrev pub one_key : Redis
one_key = record {
  Server = Server;
  ping = λ s. (s, done tt);
  get = λ k s. (s, done s.value);
  set_ex = λ k v ttl s. (record s { value = some v }, done tt);
  delete = λ k s. (record s { value = none }, done tt);
  incr = λ k s. (record s { number = succ s.number }, done (succ s.number));
  decr = λ k s. (record s { number = pred s.number }, done (pred s.number));
  expire = λ k ttl s. (record s { left = some ttl }, done tt);
  reset_existing = λ k s. (record s { number = pos 0 }, done tt);
}

pub done_eq : (a b : ℤ) → done a ≡ done b → a ≡ b
done_eq a b h = (cc)

abbrev pub one_key_laws : CounterLaws one_key
one_key_laws = record {
  counter = λ s k. s.number;
  ttl_of = λ s k. s.left;
  incr_lem = λ k s t n h. (
    sym (done_eq _ n (ap (λ p. p.1) h)),
    ap (λ p. p.0.number) (sym h) ∙ done_eq _ n (ap (λ p. p.1) h),
  );
  decr_lem = λ k s t n h. (
    sym (done_eq _ n (ap (λ p. p.1) h)),
    ap (λ p. p.0.number) (sym h) ∙ done_eq _ n (ap (λ p. p.1) h),
    ap (λ p. p.0.left) (sym h),
  );
  expire_lem = λ k ttl s t h. (ap (λ p. p.0.number) (sym h), ap (λ p. p.0.left) (sym h));
  reset_lem = λ k s t h. ap (λ p. p.0.number) (sym h);
}

abbrev pub settings : Settings
settings = record { key_prefix = "chat"; l2_ttl_seconds = 300 }

pub one_key_answers : Answers one_key (key_of settings "streams" "ann")
one_key_answers = record {
  incr = λ s. (record s { number = succ s.number }, succ s.number, refl);
  decr = λ s. (record s { number = pred s.number }, pred s.number, refl);
  expire = λ ttl s. (record s { left = some ttl }, refl);
  reset = λ s. (record s { number = pos 0 }, refl);
}

abbrev pub two_streams : RedisCache one_key
two_streams = record {
  connected = true;
  server = record { number = pos 2; left = none; value = none };
}

two_streams-Counts : Counts one_key one_key_laws settings "ann" one_key_answers 2 600 two_streams 2
two_streams-Counts = record { up = refl; count = refl }

acquire_stream_slot_example :
    ((acquire_stream_slot one_key settings "ann" 2 600 two_streams).1 ≡ false)
    × Counts one_key one_key_laws settings "ann" one_key_answers 2 600
        (acquire_stream_slot one_key settings "ann" 2 600 two_streams).0
        2
    × (one_key_laws.ttl_of
          (acquire_stream_slot one_key settings "ann" 2 600 two_streams).0.server
          (key_of settings "streams" "ann")
        ≡ some 600)
acquire_stream_slot_example =
    acquire_stream_slot_lem one_key one_key_laws settings "ann" one_key_answers 2 600 2 two_streams
      two_streams-Counts

after_calls_example :
    (m : ℕ) × Counts one_key one_key_laws settings "ann" one_key_answers 2 600
      (after_calls one_key settings "ann" 2 600
        (release ∷ release ∷ release ∷ acquire ∷ [])
        two_streams)
      m
    × (m ≤ 2)
after_calls_example =
    after_calls-within one_key one_key_laws settings "ann" one_key_answers 2 600
      (release ∷ release ∷ release ∷ acquire ∷ []) 2 two_streams two_streams-Counts (omega arith)

abbrev ann : String
ann = "ann"

abbrev chat : String
chat = "1|2"

cache_key_injective_example : (ann ≡ ann) × (chat ≡ chat)
unfolding rag_agent_chatbot.Cache.Keys.has_no_bar
cache_key_injective_example = cache_key_injective ann ann chat chat refl refl refl
