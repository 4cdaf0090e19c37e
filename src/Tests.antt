-- ===== src/Tests.antt =====
-- The theorems applied at concrete inputs.
mod Lru
mod Redis
mod Replies
mod Tables
mod Requests
mod Agents
mod Milvuses
mod Prompts
mod Queries
mod Configs
mod Ingestions
