-- ===== src/Main.antt =====
-- assets/backend/main.py: the handlers of its endpoints, over the storage and the caches. A handler
-- that raises another exception than `HTTPException` answers with 500 where its source says so.
pub mod Handler
pub mod Tasks
pub mod Chats
pub mod Documents
pub mod Models
pub mod Query
pub mod Uploads
