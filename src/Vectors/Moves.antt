-- ===== src/Vectors/Moves.antt =====
-- What the migration of assets/backend/vector_store.py makes of a legacy collection.
use rag_agent_chatbot.Prelude.{
  ◌≡◌, ap, Bool, true, false, Option, none, some, List, ◌++◌, map, if◌then◌else◌, ◌⊎◌,
}
use rag_agent_chatbot.Vectors.State.{Chunk, Collection, VectorStore, pure, gets, attempt, ◌>>=◌}
use rag_agent_chatbot.Vectors.Migration.{
  chunks_of, as_public, migrate_and_build, lost_store, ensure_migrated,
}

abbrev scoped : List Chunk → Option Collection
scoped chunks = some (record { user_scoped = true; chunks = chunks })

-- The collection before the migration.
abbrev pub IsLegacy : List Chunk → Option Collection → Type 0
IsLegacy chunks c = c ≡ some (record { user_scoped = false; chunks = chunks })

-- What a migration that fails leaves: the legacy collection, or the first of the moved chunks, which
-- may be none of them.
abbrev pub Torn : List Chunk → Option Collection → Type 0
Torn chunks c =
    IsLegacy chunks c
    ⊎ (moved lost : List Chunk) × (map as_public chunks ≡ moved ++ lost) × (chunks_of c ≡ moved)

-- The chunks are moved. A collection without chunks is only dropped.
abbrev pub Moved : List Chunk → Option Collection → Type 0
Moved chunks c = chunks_of c ≡ map as_public chunks

abbrev IsMissing : Option Collection → Type 0
IsMissing c = c ≡ none

-- Where the migration is reported as done, the chunks are moved.
abbrev pub IsMigrated : List Chunk → Bool → Option Collection → Type 0
IsMigrated chunks true c = Moved chunks c
IsMigrated chunks false c = Torn chunks c

pub ensure_migrated_fresh :
    (s : VectorStore)
    → s.migration_done ≡ false
    → ensure_migrated s ≡ attempt migrate_and_build lost_store false s
unfolding ensure_migrated ◌>>=◌ gets
ensure_migrated_fresh s m =
    ap (λ b. (if b then pure true else attempt migrate_and_build lost_store false) s) m
