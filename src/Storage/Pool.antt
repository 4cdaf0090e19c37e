-- ===== src/Storage/Pool.antt =====
-- `__init__`, `init_pool` and `close` of assets/backend/postgres_storage.py: the attempts to open the
-- connection pool, with their delays. What an attempt meets is given, by its number.
use rag_agent_chatbot.Prelude.{
  ℕ, zero, suc, ◌+◌, ◌*◌, ◌≤◌, ◌≡◌, refl, ap, arith, Bool, true, false, ◌||◌, Option, none, some,
  List, [], ◌∷◌,
}
use rag_agent_chatbot.Lru
use rag_agent_chatbot.Storage.Sql.{Tables}
use rag_agent_chatbot.Storage.State.{Storage}

abbrev pub max_cache_entries : ℕ
max_cache_entries = 200

-- `__init__`: empty caches, beside the database and the cache in Redis as they are.
unfoldable pub init_storage : {L : Type 0} → ℕ → Tables → L → List Bool → Storage L
unfolding Lru.init
init_storage cache_ttl tables l2 faults = record {
  tables = tables;
  message_cache = Lru.init max_cache_entries cache_ttl;
  metadata_cache = Lru.init max_cache_entries cache_ttl;
  chat_list_cache = [];
  l2 = l2;
  faults = faults;
}

-- The pool is not opened; it is, but the tables cannot be created; or both succeed.
pub data Attempt : Type 0 where
  refused no_tables up : Attempt

-- Pools are known by their numbers: `opened` of them have been opened. `closed` lists those that were
-- closed, and `slept` counts the seconds of the delays.
pub record Pool : Type 0 where
  pub pool : Option ℕ
  pub opened : ℕ
  pub closed : List ℕ
  pub eviction_running : Bool
  pub attempts : ℕ
  pub slept : ℕ

abbrev pub pool_connect_max_retries : ℕ
pool_connect_max_retries = 5

-- `2 ** attempt`
unfoldable pub power_of_two : ℕ → ℕ
power_of_two zero = 1
power_of_two (suc n) = 2 * power_of_two n

abbrev pub no_pool : Pool
no_pool = record {
  pool = none;
  opened = 0;
  closed = [];
  eviction_running = false;
  attempts = 0;
  slept = 0;
}

abbrev pub open_pool : Pool → Pool
open_pool p = record p { pool = some p.opened; opened = p.opened + 1 }

-- The body of the `try`; whether it returns.
unfoldable pub attempt_pool : Attempt → Pool → Pool × Bool
attempt_pool refused p = (record p { attempts = p.attempts + 1 }, false)
attempt_pool no_tables p = (record (open_pool p) { attempts = p.attempts + 1 }, false)
attempt_pool up p =
    (record (open_pool p) { attempts = p.attempts + 1; eviction_running = true }, true)

-- The delay before the next attempt; the last one has none.
abbrev pub wait_after : ℕ → ℕ → Pool → Pool
wait_after zero attempt p = p
wait_after (suc left) attempt p = record p { slept = p.slept + power_of_two attempt }

abbrev pub or_retry : ℕ → ℕ → (Pool → Pool × Bool) → Pool × Bool → Pool × Bool
or_retry left attempt retry (p, true) = (p, true)
or_retry left attempt retry (p, false) = retry (wait_after left attempt p)

-- The loop, with `left` attempts to come; `false` is the exception at its end.
unfoldable pub pool_loop : (ℕ → Attempt) → ℕ → ℕ → Pool → Pool × Bool
unfolding attempt_pool power_of_two
pool_loop outcomes zero attempt p = (p, false)
pool_loop outcomes (suc left) attempt p =
    or_retry left attempt (pool_loop outcomes left (suc attempt))
      (attempt_pool (outcomes attempt) p)

unfoldable pub init_pool : (ℕ → Attempt) → Pool → Pool × Bool
unfolding pool_loop
init_pool outcomes p = pool_loop outcomes pool_connect_max_retries 0 p

-- `close`
unfoldable pub close : Pool → Pool
close p = record p {
  eviction_running = false;
  closed = elim p.pool [ none ↦ p.closed | some n ↦ n ∷ p.closed ];
}

abbrev pub is_up : Attempt → Bool
is_up refused = false
is_up no_tables = false
is_up up = true

-- One of the attempts from `attempt` on succeeds.
abbrev pub any_up : (ℕ → Attempt) → ℕ → ℕ → Bool
any_up outcomes zero attempt = false
any_up outcomes (suc left) attempt = is_up (outcomes attempt) || any_up outcomes left (suc attempt)

abbrev pub IsOpen : Bool → Pool → Type 0
IsOpen false q = Unit
IsOpen true q = (q.eviction_running ≡ true) × (n : ℕ) × (q.pool ≡ some n) × (q.opened ≡ suc n)

-- What the loop does, with one attempt and `left` more.
abbrev Ends : (ℕ → Attempt) → ℕ → ℕ → Pool → Pool × Bool → Type 0
Ends outcomes left attempt p (q, returned) =
    (returned ≡ any_up outcomes (suc left) attempt)
    × (q.attempts ≤ p.attempts + suc left)
    × (q.slept + power_of_two attempt ≤ p.slept + power_of_two (attempt + left))
    × IsOpen returned q

power_of_two_grows : (m n : ℕ) → power_of_two m ≤ power_of_two (m + n)
unfolding power_of_two
power_of_two_grows m zero =
    let index : m + zero ≡ m = omega arith in
    let same : power_of_two (m + zero) ≡ power_of_two m = ap power_of_two index in
    omega (arith, same)
power_of_two_grows m (suc n) =
    let index : m + suc n ≡ suc (m + n) = omega arith in
    let same : power_of_two (m + suc n) ≡ 2 * power_of_two (m + n) = ap power_of_two index in
    omega (arith, same, power_of_two_grows m n)

-- An attempt adds no delay where none follows.
no_delay :
    (p : Pool) (attempt left : ℕ)
    → p.slept + power_of_two attempt ≤ p.slept + power_of_two (attempt + left)
no_delay p attempt left = omega (arith, power_of_two_grows attempt left)

-- After an attempt that fails, the rest of the loop decides.
Ends-retry :
    (outcomes : ℕ → Attempt) (left attempt : ℕ) (p : Pool) (r : Pool × Bool)
    → is_up (outcomes attempt) ≡ false
    → Ends outcomes left
        (suc attempt)
        (record p { attempts = p.attempts + 1; slept = p.slept + power_of_two attempt })
        r
    → Ends outcomes (suc left) attempt p r
unfolding power_of_two
Ends-retry outcomes left attempt p (q, returned) down (e, n, s, o) =
    let index : attempt + suc left ≡ suc attempt + left = omega arith in
    let same : power_of_two (attempt + suc left) ≡ power_of_two (suc attempt + left) =
      ap power_of_two index in
    (rw down e, omega (arith, n), omega (arith, s, same), o)

pool_loop-Ends :
    (outcomes : ℕ → Attempt) (left attempt : ℕ) (p : Pool)
    → Ends outcomes left attempt p (pool_loop outcomes (suc left) attempt p)
unfolding pool_loop attempt_pool
pool_loop-Ends outcomes zero attempt p = last (outcomes attempt) refl
  where
    last :
        (o : Attempt)
        → outcomes attempt ≡ o
        → Ends outcomes zero attempt p
            (or_retry zero attempt (pool_loop outcomes zero (suc attempt)) (attempt_pool o p))
    last refused e = (rw e, omega arith, no_delay p attempt zero, tt)
    last no_tables e = (rw e, omega arith, no_delay p attempt zero, tt)
    last up e = (rw e, omega arith, no_delay p attempt zero, (refl, p.opened, refl, omega arith))
pool_loop-Ends outcomes (suc left) attempt p =
    next (outcomes attempt) refl (λ q. pool_loop-Ends outcomes left (suc attempt) q)
  where
    next :
        (o : Attempt)
        → outcomes attempt ≡ o
        → ((q : Pool)
            → Ends outcomes left (suc attempt) q (pool_loop outcomes (suc left) (suc attempt) q))
        → Ends outcomes (suc left) attempt p (
            or_retry
              (suc left)
              attempt
              (pool_loop outcomes (suc left) (suc attempt))
              (attempt_pool o p))
    next refused e ih = Ends-retry outcomes left attempt p _ (ap is_up e) (ih _)
    next no_tables e ih = Ends-retry outcomes left attempt p _ (ap is_up e) (ih _)
    next up e ih =
        (rw e, omega arith, no_delay p attempt (suc left), (refl, p.opened, refl, omega arith))

abbrev pub Connects : (ℕ → Attempt) → Pool → Pool × Bool → Type 0
Connects outcomes p (q, returned) =
    (returned ≡ any_up outcomes pool_connect_max_retries 0)
    × (q.attempts ≤ p.attempts + pool_connect_max_retries)
    × (q.slept ≤ p.slept + 15)
    × IsOpen returned q

-- `init_pool` ends after at most five attempts and fifteen seconds of delays, whatever they meet. It
-- returns exactly if one of the first five succeeds, then with the pool that was opened last and with
-- the eviction task running; else it raises.
pub init_pool-Connects :
    (outcomes : ℕ → Attempt) (p : Pool) → Connects outcomes p (init_pool outcomes p)
unfolding init_pool power_of_two
init_pool-Connects outcomes p = go (init_pool outcomes p) (pool_loop-Ends outcomes 4 0 p)
  where
    go : (r : Pool × Bool) → Ends outcomes 4 0 p r → Connects outcomes p r
    go (q, returned) (e, n, s, o) = (e, omega (arith, n), omega (arith, s), o)
