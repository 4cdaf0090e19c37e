-- ===== src/Vectors/Migration.antt =====
-- The connection, the migration of a legacy collection and the flush of `VectorStore` of
-- assets/backend/vector_store.py. The schema's check is the flag `user_scoped`.
use rag_agent_chatbot.Prelude.{
  ℕ, zero, suc, Bool, true, false, Option, none, some, List, [], ◌∷◌, ◌++◌, map, if◌then◌else◌,
  length, take, drop, ltb, ◌+◌,
}
use rag_agent_chatbot.Text.{codes}
use rag_agent_chatbot.Vectors.State.{
  Chunk, Collection, VectorStore, Action, pure, gets, modify, call, attempt, ◌>>=◌, ◌>>◌,
}

abbrev pub disconnected : VectorStore → VectorStore
disconnected s = record s { milvus_connected = false }

unfoldable pub ensure_milvus_connection : Action (Unit {0})
ensure_milvus_connection = do
  connected ← gets (λ s. s.milvus_connected)
  if connected
      then pure tt
      else call (λ c. (c, tt)) >> modify (λ s. record s { milvus_connected = true })

-- `_get_store`: the constructor of the wrapper connects.
unfoldable pub get_store : Action (Unit {0})
get_store = do
  built ← gets (λ s. s.has_store)
  if built then pure tt else call (λ c. (c, tt)) >> modify (λ s. record s { has_store = true })

-- The entity that is inserted for a legacy one.
abbrev pub as_public : Chunk → Chunk
as_public c = record c { user_id = []; visibility = codes "public" }

abbrev pub chunks_of : Option Collection → List Chunk
chunks_of none = []
chunks_of (some c) = c.chunks

unfoldable pub insert_chunks : List Chunk → Option Collection → Option Collection × Unit {0}
insert_chunks new none = (some (record { user_scoped = true; chunks = new }), tt)
insert_chunks new (some c) = (some (record c { chunks = c.chunks ++ new }), tt)

-- The loop over the batches of 256, by fuel: one for each chunk is enough.
unfoldable pub insert_batches : ℕ → List Chunk → Action (Unit {0})
insert_batches zero chunks = pure tt
insert_batches (suc fuel) [] = pure tt
insert_batches (suc fuel) (c ∷ chunks) =
    call (insert_chunks (map as_public (take 256 (c ∷ chunks))))
    >> insert_batches fuel (drop 256 (c ∷ chunks))

-- What follows the reading of a legacy collection.
unfoldable pub move_chunks : List Chunk → Action (Unit {0})
unfolding insert_batches
move_chunks [] = call (λ c. (none, tt))
move_chunks (r ∷ results) = do
  call (λ c. (none, tt))
  call (λ c. (some (record { user_scoped = true; chunks = [] }), tt))
  call (λ c. (c, tt))
  insert_batches (length (r ∷ results)) (r ∷ results)
  call (λ c. (c, tt))
  call (λ c. (c, tt))

-- `limit=max(chunk_count + 100, 1000)`
abbrev pub query_limit : ℕ → ℕ
query_limit chunk_count = if ltb (chunk_count + 100) 1000 then 1000 else chunk_count + 100

unfoldable pub migrate_found : Option Collection → Action (Unit {0})
migrate_found none = pure tt
migrate_found (some c) = if c.user_scoped then pure tt else (do
  call (λ x. (x, tt))
  chunk_count ← call (λ x. (x, length (chunks_of x)))
  results ← call (λ x. (x, take (query_limit chunk_count) (chunks_of x)))
  move_chunks results)

-- `_migrate_collection_if_needed`: `has_collection` and the schema, the load, the number of entities,
-- which is that of the chunks, the query with its limit, the drop,
-- the new collection with its index, the batches, and the flush and load at the end.
unfoldable pub migrate_collection_if_needed : Action (Unit {0})
migrate_collection_if_needed = do
  ensure_milvus_connection
  found ← call (λ c. (c, c))
  migrate_found found

-- The body of the `try` of `_ensure_migrated`.
unfoldable pub migrate_and_build : Action Bool
migrate_and_build = do
  migrate_collection_if_needed
  get_store
  modify (λ s. record s { migration_done = true })
  pure true

abbrev pub lost_store : VectorStore → VectorStore
lost_store s = record s { milvus_connected = false; has_store = false }

unfoldable pub ensure_migrated : Action Bool
unfolding attempt
ensure_migrated = do
  migrated ← gets (λ s. s.migration_done)
  if migrated then pure true else attempt migrate_and_build lost_store false

unfoldable pub flush_store : Action (Unit {0})
unfolding attempt
flush_store = attempt (ensure_milvus_connection >> call (λ c. (c, tt))) disconnected tt
