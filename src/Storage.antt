-- ===== src/Storage.antt =====
-- `PostgreSQLConversationStorage` of assets/backend/postgres_storage.py: its public methods, over
-- the tables, the caches of the process, and the cache in Redis, which is a parameter
-- that Coherence/Shared fills with `RedisCache`. `now` is the
-- clock at the call. The schema's migrations and the timer of the eviction task are left out.
pub mod Messages
pub mod Sql
pub mod State
pub mod Conversations
pub mod Coherence
pub mod Listing
pub mod Sources
pub mod Isolation
pub mod Guards
pub mod Takeover
pub mod Pool
