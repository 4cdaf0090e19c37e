-- ===== src/Vectors.antt =====
-- `VectorStore` of assets/backend/vector_store.py: what it indexes, retrieves, deletes and lists.
-- Milvus and its wrapper are a record of what the code takes from them. Logging is left out.
pub mod State
pub mod Loading
pub mod Embeddings
pub mod Migration
pub mod Filter
pub mod Expr
pub mod Reading
pub mod Outcomes
pub mod Retrieval
pub mod Deletion
pub mod Moves
pub mod Indexing
pub mod Progress
use rag_agent_chatbot.Prelude.{
  ℕ, Bool, true, false, not, ◌||◌, Option, none, some, List, [], ◌∷◌, ◌++◌, map, if◌then◌else◌,
  any_of, keep_if, length, take,
}
use rag_agent_chatbot.Text.{Text, codes, text_eq}
use rag_agent_chatbot.Vectors.State.{
  Document, Chunk, Collection, VectorStore, Action, pure, raise, gets, modify, call, recover,
  attempt, ◌>>=◌, ◌>>◌,
}
use rag_agent_chatbot.Vectors.Migration.{
  ensure_milvus_connection, ensure_migrated, flush_store, chunks_of, insert_chunks,
}
use rag_agent_chatbot.Vectors.Filter.{build_visibility_filter, selected_filter, delete_filter}

-- What is taken from Milvus, langchain and the embedding service: which chunks an expression
-- selects, the best `k` of the candidates for a query with their scores, whether a score is at least
-- `RELEVANCE_SCORE_THRESHOLD`, the pieces of a text, the embedding of one, and the requests in which
-- `add_documents` of the wrapper inserts chunks.
pub record Milvus : Type 1 where
  pub Score : Type 0
  pub selects : Text → Chunk → Bool
  pub rank : Text → ℕ → List Chunk → List (Chunk × Score)
  pub is_relevant : Score → Bool
  pub split_text : Text → List Text
  pub embed : Text → ℕ
  pub requests : List Chunk → List (List Chunk)

-- `visibility not in ("public", "private")`
abbrev pub is_visibility : Text → Bool
is_visibility v = text_eq v (codes "public") || text_eq v (codes "private")

-- The filter of `get_documents`.
abbrev pub filter_expr : Text → List Text → Text
filter_expr user_id [] = build_visibility_filter user_id
filter_expr user_id (s ∷ selected) =
    selected_filter (build_visibility_filter user_id) (s ∷ selected)

abbrev pub is_allowed : List Text → Chunk → Bool
is_allowed [] c = true
is_allowed (s ∷ selected) c = any_of (text_eq c.source) (s ∷ selected)

-- `add_documents`, by its requests: where one raises, those before it have taken effect.
unfoldable pub insert_requests : List (List Chunk) → Action (Unit {0})
insert_requests [] = pure tt
insert_requests (new ∷ requests) = call (insert_chunks new) >> insert_requests requests

module _ (milvus : Milvus) where
  -- The chunks of a document, tagged with the uploader.
  unfoldable pub chunks_from : Text → Text → Document → List Chunk
  chunks_from user_id visibility d =
      map
        (λ t. record {
          text = t;
          vector = milvus.embed t;
          source = d.source;
          file_path = d.file_path;
          filename = d.filename;
          user_id = user_id;
          visibility = visibility;
        })
        (milvus.split_text d.page_content)

  unfoldable pub split_documents : Text → Text → List Document → List Chunk
  unfolding chunks_from
  split_documents user_id visibility [] = []
  split_documents user_id visibility (d ∷ ds) =
      chunks_from user_id visibility d ++ split_documents user_id visibility ds

  -- `index_documents`; the counter by filename is read off the chunks that it returns.
  unfoldable pub index_documents : List Document → Text → Text → Action (List Chunk)
  unfolding split_documents insert_requests
  index_documents documents user_id visibility =
      let splits = split_documents user_id visibility documents in
      if is_visibility visibility
      then (do
        ready ← ensure_migrated
        if ready
            then (do insert_requests (milvus.requests splits); flush_store; pure splits)
            else raise)
      else raise

  -- `dict(chunks_per_file).get(filename, 0)`
  unfoldable pub count_file : Text → List Chunk → ℕ
  count_file filename splits = length (keep_if (λ (c : Chunk). text_eq c.filename filename) splits)

  -- What is kept of the candidates.
  unfoldable pub keep_results : List Text → List (Chunk × milvus.Score) → List Chunk
  keep_results selected results = keep_if (is_allowed selected) (
      map (λ (r : Chunk × milvus.Score). r.0)
        (keep_if (λ (r : Chunk × milvus.Score). milvus.is_relevant r.1) results))

  unfoldable pub get_documents : Text → Text → ℕ → List Text → Action (List Chunk)
  unfolding keep_results attempt
  get_documents query user_id k selected = do
    ready ← ensure_migrated
    if ready
        then attempt
            (do
              results ← call (λ c. (
                c,
                milvus.rank query k
                    (keep_if (milvus.selects (filter_expr user_id selected)) (chunks_of c)),
              ))
              pure (keep_results selected results))
            (λ s. s) []
        else pure []

  unfoldable pub remove_chunks : Text → Option Collection → Option Collection × Unit {0}
  remove_chunks expr none = (none, tt)
  remove_chunks expr (some c) =
      (some (record c { chunks = keep_if (λ x. not (milvus.selects expr x)) c.chunks }), tt)

  -- The deletion, where some chunks are found.
  unfoldable pub delete_found : Text → List Chunk → Action (Option ℕ)
  delete_found expr [] = pure (some 0)
  delete_found expr (c ∷ results) = do
    call (remove_chunks expr)
    call (λ x. (x, tt))
    pure (some (length (c ∷ results)))

  unfoldable pub delete_in : Text → Option Collection → Action (Option ℕ)
  unfolding delete_found remove_chunks
  delete_in expr none = pure (some 0)
  delete_in expr (some c) = do
    call (λ x. (x, tt))
    results ← call (λ x. (x, keep_if (milvus.selects expr) (chunks_of x)))
    delete_found expr results

  -- `delete_documents_by_source`, with none for -1.
  unfoldable pub delete_documents_by_source : Text → Text → Action (Option ℕ)
  unfolding delete_in attempt
  delete_documents_by_source source_name user_id = do
    ready ← ensure_migrated
    if ready
        then attempt
            (do
              ensure_milvus_connection
              found ← call (λ c. (c, c))
              delete_in (delete_filter source_name user_id) found)
            (λ s. s) none
        else pure none

  -- `r.get("source")` of the first 10000 that the query yields; the order of a Python set is not
  -- told, so that this is the list before it.
  unfoldable pub sources_in : Text → Option Collection → Action (List Text)
  sources_in user_id none = pure []
  sources_in user_id (some c) = do
    call (λ x. (x, tt))
    results ← call (λ x.
        (x, take 10000 (keep_if (milvus.selects (build_visibility_filter user_id)) (chunks_of x))))
    pure (keep_if (λ s. not (text_eq s [])) (map (λ (c : Chunk). c.source) results))

  unfoldable pub get_sources_visible_to : Text → Action (List Text)
  unfolding sources_in attempt
  get_sources_visible_to user_id = do
    ready ← ensure_migrated
    if ready
        then attempt
            (do ensure_milvus_connection; found ← call (λ c. (c, c)); sources_in user_id found)
            (λ s. s) []
        else pure []
