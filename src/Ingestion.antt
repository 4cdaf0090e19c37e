-- ===== src/Ingestion.antt =====
-- `process_and_ingest_files_background` of assets/backend/utils.py: the load of the uploaded files,
-- their indexing and the records of the sources. `update_status` is told by the statuses that it is
-- called with, in order.
pub mod Ends
use rag_agent_chatbot.Prelude.{
  ℕ, String, Bool, true, false, Option, none, some, List, [], ◌∷◌, str_eq, ◌||◌, if◌then◌else◌,
}
use rag_agent_chatbot.Text.{codes}
use rag_agent_chatbot.Storage.State.{L2Cache, Storage, Result, ok, raise, pure, Action, ◌>>=◌, ◌>>◌}
use rag_agent_chatbot.Storage.Sources.{add_document_source, is_visibility}
use rag_agent_chatbot.Vectors.State.{Chunk, VectorStore}
use rag_agent_chatbot.Vectors.Loading.{Readers, load_documents}
use rag_agent_chatbot.Vectors.{Milvus, count_file, index_documents}

-- The argument of `update_status`; the messages of exceptions are left out.
pub data Status : Type 0 where
  loading_documents indexing_documents completed failed_during_indexing : Status

-- What the task leaves: the store, the storage, the statuses, and whether it raised.
pub record Ingested (L : Type 0) : Type 0 where
  pub store : VectorStore
  pub storage : Storage L
  pub statuses : List Status
  pub raised : Bool

abbrev pub last_status : {A : Type 0} → Result A → Status
last_status (ok a) = completed
last_status (raise e) = failed_during_indexing

module _ (l2 : L2Cache) (milvus : Milvus) (readers : Readers) where
  -- The loop over the paths.
  unfoldable pub record_sources :
      ℕ → List String → String → String → String → List Chunk → Action l2 (Unit {0})
  record_sources now [] user_id visibility task_id chunks = pure tt
  record_sources now (path ∷ paths) user_id visibility task_id chunks =
      let file_name = readers.basename path in
      add_document_source l2 now file_name user_id visibility (some path) (some task_id)
        (count_file milvus (codes file_name) chunks)
      >> record_sources now paths user_id visibility task_id chunks

  -- What follows `index_documents`.
  unfoldable pub after_index :
      ℕ
      → List String
      → String
      → String
      → String
      → Storage l2.State
      → VectorStore × Option (List Chunk)
      → Ingested l2.State
  unfolding record_sources
  after_index now file_paths user_id visibility task_id storage (store, none) = record {
    store = store;
    storage = storage;
    statuses = loading_documents ∷ indexing_documents ∷ failed_during_indexing ∷ [];
    raised = false;
  }
  after_index now file_paths user_id visibility task_id storage (store, some chunks) =
      let (left, result) =
        record_sources now file_paths user_id visibility task_id chunks storage in
      record {
        store = store;
        storage = left;
        statuses = loading_documents ∷ indexing_documents ∷ last_status result ∷ [];
        raised = false;
      }

  unfoldable pub process_and_ingest_files_background :
      ℕ
      → List String
      → String
      → String
      → String
      → VectorStore
      → Storage l2.State
      → Ingested l2.State
  unfolding after_index
  process_and_ingest_files_background now file_paths user_id visibility task_id store storage =
      if is_visibility visibility
      then after_index now file_paths user_id visibility task_id storage (
          index_documents milvus (load_documents readers file_paths) (codes user_id)
            (codes visibility) store)
      else record { store = store; storage = storage; statuses = []; raised = true }
