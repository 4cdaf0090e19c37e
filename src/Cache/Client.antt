-- ===== src/Cache/Client.antt =====
-- The part of `redis.asyncio` that cache.py calls, and what it relies on.
use rag_agent_chatbot.Prelude.{ℕ, String, ◌≡◌, Option, some}
use rag_agent_chatbot.Prelude.Int.{ℤ, pos, succ, pred}

-- A call returns, or raises an exception. The server may have changed in both cases.
pub data Reply {ℓ} (A : Type ℓ) : Type ℓ where
  done : A → Reply A
  raised : Reply A

pub record Redis : Type 1 where
  pub Server : Type 0
  pub ping : Server → Server × Reply (Unit {0})
  pub get : String → Server → Server × Reply (Option String)
  -- `set(key, value, ex=ttl)`
  pub set_ex : String → String → ℕ → Server → Server × Reply (Unit {0})
  pub delete : String → Server → Server × Reply (Unit {0})
  pub incr : String → Server → Server × Reply ℤ
  pub decr : String → Server → Server × Reply ℤ
  pub expire : String → ℕ → Server → Server × Reply (Unit {0})
  -- `set(key, 0, xx=True)`
  pub reset_existing : String → Server → Server × Reply (Unit {0})

-- The documented behaviour of the counter commands, where they return: `counter` is the integer
-- at a key, 0 if the key is absent, and `ttl_of` the seconds that the key has left, if it expires.
pub record CounterLaws (redis : Redis) : Type 1 where
  pub counter : redis.Server → String → ℤ
  pub ttl_of : redis.Server → String → Option ℕ
  pub incr_lem :
      (k : String) (s t : redis.Server) (n : ℤ)
      → redis.incr k s ≡ (t, done n)
      → (n ≡ succ (counter s k)) × (counter t k ≡ n)
  pub decr_lem :
      (k : String) (s t : redis.Server) (n : ℤ)
      → redis.decr k s ≡ (t, done n)
      → (n ≡ pred (counter s k)) × (counter t k ≡ n) × (ttl_of t k ≡ ttl_of s k)
  pub expire_lem :
      (k : String) (ttl : ℕ) (s t : redis.Server)
      → redis.expire k ttl s ≡ (t, done tt)
      → (counter t k ≡ counter s k) × (ttl_of t k ≡ some ttl)
  pub reset_lem :
      (k : String) (s t : redis.Server)
      → redis.reset_existing k s ≡ (t, done tt)
      → counter t k ≡ pos 0
