-- ===== src/Storage/State.antt =====
-- The state of `PostgreSQLConversationStorage`, and actions on it: each returns or raises, and
-- leaves a state in both cases.
use rag_agent_chatbot.Prelude.{
  ℕ, String, Bool, true, false, Option, none, some, List, [], ◌∷◌, if◌then◌else◌, ◌==◌, ◌-◌, length,
  drop,
}
use rag_agent_chatbot.Lru.{CacheEntry, LruCache}
use rag_agent_chatbot.Storage.Messages.{Message, MessageDict}
use rag_agent_chatbot.Storage.Sql.{Tables}

-- `redis_cache` as the storage calls it: `get_json`, `set_json` and `delete` of cache.py at the
-- namespaces `messages` and `chats_list`, and `delete` at `partial`. None of them raises.
pub record L2Cache : Type 1 where
  pub State : Type 0
  pub get_messages : String → State → State × Option (List MessageDict)
  pub set_messages : String → List MessageDict → State → State
  pub delete_messages : String → State → State
  pub delete_partial : String → State → State
  pub get_chats : String → State → State × Option (List String)
  pub set_chats : String → List String → ℕ → State → State
  pub delete_chats : String → State → State

pub record MetadataDict : Type 0 where
  pub name : String
  pub created_at : Option ℕ

-- `faults` says of each coming use of a connection whether it fails; past its end none does.
-- The statistic `_db_operations` is left out.
pub record Storage (L : Type 0) : Type 0 where
  pub tables : Tables
  pub message_cache : LruCache (List Message)
  pub metadata_cache : LruCache MetadataDict
  pub chat_list_cache : List (String × CacheEntry (List String))
  pub l2 : L
  pub faults : List Bool

pub data Error : Type 0 where
  connection_error value_error : Error

pub data Result {ℓ} (A : Type ℓ) : Type ℓ where
  ok : A → Result A
  raise : Error → Result A

abbrev pub M : Type 0 → Type 0 → Type 0
M L A = Storage L → Storage L × Result A

abbrev pub next_fault : List Bool → Bool × List Bool
next_fault [] = (false, [])
next_fault (b ∷ bs) = (b, bs)

module _ {L : Type 0} where
  abbrev pub pure : {A : Type 0} → A → M L A
  pure a s = (s, ok a)

  abbrev pub fail : {A : Type 0} → Error → M L A
  fail e s = (s, raise e)

  abbrev pub continue : {A B : Type 0} → (A → M L B) → Storage L × Result A → Storage L × Result B
  continue f (s, ok a) = f a s
  continue f (s, raise e) = (s, raise e)

  infixl 5 ◌>>=◌ ◌>>◌
  unfoldable pub ◌>>=◌ : {A B : Type 0} → M L A → (A → M L B) → M L B
  ◌>>=◌ m f s = continue f (m s)

  unfoldable pub ◌>>◌ : {A B : Type 0} → M L A → M L B → M L B
  unfolding ◌>>=◌
  m >> k = m >>= λ _. k

  -- Reads the state.
  unfoldable pub gets : {A : Type 0} → (Storage L → A) → M L A
  gets f s = (s, ok (f s))

  -- A change of the caches, which cannot raise and leaves the tables alone.
  unfoldable pub recache : (Storage L → Storage L) → M L (Unit {0})
  recache f s = (record (f s) { tables = s.tables; faults = s.faults }, ok tt)

  -- `async with self.pool.acquire() as conn`: one statement or transaction. A failure leaves the
  -- tables as they were, since a transaction that raises is rolled back.
  unfoldable pub with_conn : {A : Type 0} → (Tables → Tables × A) → M L A
  with_conn query s =
      let (fails, faults) = next_fault s.faults in
      let (tables, a) = query s.tables in
      if fails
      then (record s { faults = faults }, raise connection_error)
      else (record s { tables = tables; faults = faults }, ok a)

-- `xs[-limit:] if limit else xs`
unfoldable pub last_of {ℓ} : {A : Type ℓ} → Option ℕ → List A → List A
last_of none xs = xs
last_of (some limit) xs = if limit == 0 then xs else drop (length xs - limit) xs

-- What a query reads, with the tables unchanged.
abbrev pub reading : {A : Type 0} → (Tables → A) → Tables → Tables × A
reading f t = (t, f t)

abbrev pub writing : (Tables → Tables) → Tables → Tables × Unit {0}
writing f t = (f t, tt)

-- `len(cached_messages) > 0`, of what the cache has
abbrev pub has_messages : Option (List Message) → Bool
has_messages none = false
has_messages (some []) = false
has_messages (some (m ∷ ms)) = true

module _ (l2 : L2Cache) where
  abbrev pub Action : Type 0 → Type 0
  Action A = M l2.State A

  -- A read of the cache in Redis.
  unfoldable pub l2_read : {A : Type 0} → (l2.State → l2.State × Option A) → Action (Option A)
  l2_read read = do
    found ← gets (λ s. (read s.l2).1)
    recache (λ s. record s { l2 = (read s.l2).0 })
    pure found

  unfoldable pub l2_write : (l2.State → l2.State) → Action (Unit {0})
  l2_write write = recache λ s. record s { l2 = write s.l2 }
