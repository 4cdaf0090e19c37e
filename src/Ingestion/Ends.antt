-- ===== src/Ingestion/Ends.antt =====
-- How the background ingestion of assets/backend/utils.py ends.
use rag_agent_chatbot.Prelude.{ℕ, String, ◌≡◌, false, some, List, [], ◌∷◌, ◌⊎◌}
use rag_agent_chatbot.Text.{codes}
use rag_agent_chatbot.Storage.Sql.{Source, upsert_source}
use rag_agent_chatbot.Storage.State.{L2Cache, Storage, Result, ok, raise}
use rag_agent_chatbot.Vectors.State.{Chunk, VectorStore}
use rag_agent_chatbot.Vectors.Loading.{Readers, load_documents}
use rag_agent_chatbot.Vectors.Indexing.{Indexed}
use rag_agent_chatbot.Vectors.{Milvus, count_file, index_documents}
use rag_agent_chatbot.Vectors as Vectors
use rag_agent_chatbot.Ingestion.{
  loading_documents, indexing_documents, completed, failed_during_indexing, Ingested,
}

module _ (l2 : L2Cache) (milvus : Milvus) (readers : Readers) (now : ℕ)
    (user_id visibility task_id : String) where
  abbrev source_of : String → List Chunk → Source
  source_of path chunks = record {
    source_name = readers.basename path;
    user_id = some user_id;
    visibility = visibility;
    file_path = some path;
    task_id = some task_id;
    chunk_count = count_file milvus (codes (readers.basename path)) chunks;
    created_at = now;
  }

  -- The sources after all paths are recorded.
  abbrev pub upsert_all : List String → List Chunk → List Source → List Source
  upsert_all [] chunks sources = sources
  upsert_all (path ∷ paths) chunks sources =
      upsert_all paths chunks (upsert_source (source_of path chunks) sources)

  abbrev Recorded : List Source → Storage l2.State × Result (Unit {0}) → Type 0
  Recorded sources (s, ok u) = s.tables.sources ≡ sources
  Recorded sources (s, raise e) = Unit

  -- The ends of a task on a store and a storage: all is indexed and recorded, or a failure is told.
  abbrev pub Ends : List String → VectorStore → Storage l2.State → Ingested l2.State → Type 0
  Ends paths store storage t =
      (t.raised ≡ false)
      × (((t.statuses ≡ loading_documents ∷ indexing_documents ∷ completed ∷ [])
            × ((chunks : List Chunk) × (Indexed milvus (load_documents readers paths)
                    (codes user_id) (codes visibility) store.collection chunks t.store.collection
                  × (t.storage.tables.sources ≡ upsert_all paths chunks storage.tables.sources))))
          ⊎ (t.statuses ≡ loading_documents ∷ indexing_documents ∷ failed_during_indexing ∷ []))
