-- ===== src/Lib.antt =====
-- A verification library for the backend of the RAG chatbot (assets/backend, Python).
--
-- The backend is a FastAPI service. main.py answers requests: auth.py turns the token of a request
-- into a user, postgres_storage.py keeps chats, documents and preferences in PostgreSQL behind two
-- caches in memory and one in Redis, cache.py speaks to Redis and counts the streams of a user,
-- vector_store.py keeps the chunks of the documents in Milvus, and agent.py answers a query from
-- the chunks that it retrieves, turns those of a model's completion into the tokens that the
-- client sees, and saves the turn. The handlers call the storage and the vector store with the
-- user's id, which scopes every statement and every filter.
--
-- Files and code:
-- - Prelude, Dict, Text, Regex: native numbers, lists, dictionaries in order of insertion, the
--   methods of Python's str over code points, and those regular expressions of Python's re that the
--   program writes, matched with backtracking. What re knows of the characters is a record,
--   Alphabet.
-- - Lru (assets/backend/postgres_storage.py, CacheEntry and LRUCache): a record of the ordered
--   entries, a function per method. Lru/Bounds has the invariant, Lru/Recency what readers see,
--   Lru/Holding what is held under one key.
-- - Prompt (assets/backend/agent.py, _PROMPT_BREAKOUT_PATTERNS, _neutralize_doc_content and the
--   head of generate): the patterns, the frames of the documents and the context. Prompt/Neutral and
--   Prompt/Clean have patterns of this kind in general, Prompt/Breakouts the eight, Prompt/Barriers
--   and Prompt/Frames the closing tags of a context, and Prompt/Supply the context of a retrieval.
--   Prompt/Templates has assets/backend/prompts.py.
-- - Think and Stream (assets/backend/agent.py, _stream_response): the inner loop over the pending
--   text is `drain`, by recursion on fuel, and `feed` gives it one more than the length of the text,
--   which is enough since each round that goes on cuts a whole tag off. Think/Strip has the
--   independent description, a walk over the whole text; Stream/Received the text that the chunks
--   carry.
-- - Cache (assets/backend/cache.py): RedisCache over a client in Cache/Client, whose commands may
--   raise. CounterLaws states what Redis documents of the counters.
-- - Storage (assets/backend/postgres_storage.py): Messages has the conversions, Sql the tables and
--   one function for each statement, State the state with its faults of connections, and
--   Conversations, Listing and Sources the public methods as actions that return or raise. A
--   transaction that fails leaves the tables. Sql/Owners, Sql/Appends, Sql/Removals and Sql/Upserts
--   show statement by statement which users a statement concerns, and Isolation lifts this to the
--   methods. Guards has what is refused or swallowed, Takeover the upsert of document sources.
--   Sql/Histories has the order of a chat's messages, Coherence the two caches against the database
--   on one chat, Coherence/Shared with the cache in Redis as RedisCache, and Pool the opening of the
--   connection pool: its five attempts are a recursion on the attempts that are left.
-- - Auth (assets/backend/auth.py): the keys by their ids, fetched from a provider that stands for
--   HTTP, RSA and PyJWT. Auth/Refresh has the background refresh, its start and its end.
-- - Agent (assets/backend/agent.py, query, generate, _run_graph and _persist_conversation): a
--   query is a phase that advances by segments, from one suspension to the next, on the fields of
--   the one shared agent, and a schedule says which query runs its next segment. Turns and Serial
--   have a query alone, Overlap and Mixup two at once. Retrieval and the completion come with the
--   query.
-- - Vectors (assets/backend/vector_store.py): State has the store with its server, whose calls may
--   raise, and the actions on it; Filter the expressions for Milvus, Migration the move of a legacy
--   collection in batches of 256, by one unit of fuel for each chunk, and Vectors the methods. Expr
--   says how an expression is read and Reading what that makes of the filters; Outcomes has the
--   rules for what actions return and leave, and Retrieval, Deletion, Indexing, Moves and Progress
--   use them. Loading has the reading of uploaded files, Embeddings the client of the embedding
--   service in batches of 32, on fuel as above. A call that raises has had no effect. Milvus, the
--   splitter and the embeddings are a record, and so are the readers of files.
-- - Config (assets/backend/config.py): the manager with its file, whose time stamps and failures
--   of writing come with each call. Environment has the models of MODELS; Reads, Start and Failure
--   show what readers see.
-- - Ingestion (assets/backend/utils.py, process_and_ingest_files_background): the task over the
--   vector store and the storage, with the statuses that it tells; Ends shows how it ends.
-- - Openai (assets/backend/utils.py): convert_langgraph_messages_to_openai.
-- - Main (assets/backend/main.py): Handler has the shared form of a handler, Tasks, Chats,
--   Documents, Models, Query and Uploads the handlers. Files on disk are a list of paths.
--   Query/Slots follows the slot of a stream from the handler to the end of the stream, Query/Owners
--   has the guard of the chat's owner, Uploads/Sizes the limits and Uploads/Magic the check of a
--   file's first bytes.
-- - Tests: the theorems at concrete inputs.
--
-- Bounds: numbers have no bound, as in Python. The limits read from the environment stand with
-- their defaults. Clocks count whole ticks, and a clock that has gone back gives an age of zero,
-- which decides each test as the negative age does.
--
-- Left out: the rendering of the system prompt, the migrations of PostgreSQL, timers, logging,
-- tracing, and the frontend. What the handlers take from the vector store and what the upload loop
-- takes from the check of a file's bytes are parameters. One request runs at a time, except in
-- Agent.
pub mod Prelude
pub mod Dict
pub mod Lru
pub mod Text
pub mod Regex
pub mod Prompt
pub mod Openai
pub mod Think
pub mod Stream
pub mod Cache
pub mod Storage
pub mod Http
pub mod Auth
pub mod Agent
pub mod Vectors
pub mod Config
pub mod Ingestion
pub mod Main
pub mod Tests
