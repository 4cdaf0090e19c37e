-- ===== src/Prompt/Supply.antt =====
-- What `generate` of assets/backend/agent.py gives the model as its context.
use rag_agent_chatbot.Prelude.{◌≡◌, refl, none, List, length}
use rag_agent_chatbot.Text.{Text}
use rag_agent_chatbot.Vectors.State.{Chunk, VectorStore, pure}
use rag_agent_chatbot.Vectors.Outcomes.{Returned, Returns->>=}
use rag_agent_chatbot.Vectors.Retrieval.{
  ReadsFilters, RanksCandidates, IsRetrieved, get_documents_lem,
}
use rag_agent_chatbot.Vectors.{Milvus, get_documents}
use rag_agent_chatbot.Regex.{Alphabet, IsAlphabet, count_matches}
use rag_agent_chatbot.Prompt.{closing_document, format_context, k_target, retrieve_context}
use rag_agent_chatbot.Prompt.Frames.{format_context_lem}

-- The frames of documents that the user may see, closed as often as there are documents.
abbrev pub IsContext : Alphabet → Text → List Text → Text → Type 0
IsContext a user sources context =
    (docs : List Chunk) × IsRetrieved user k_target sources docs
    × (context ≡ format_context a docs)
    × (count_matches a (closing_document a) none context ≡ length docs)

module _ (a : Alphabet) (laws : IsAlphabet a) (milvus : Milvus) (reads : ReadsFilters milvus)
    (ranks : RanksCandidates milvus) where
  -- With a Milvus that takes an expression for what its tokens say and returns at most `k` of the
  -- candidates, and an alphabet with the listed laws, the retrieval never raises, whatever calls of
  -- the server fail, and the context is that of at most five chunks, each of them public, of a legacy
  -- visibility or the user's, and of a selected source where some are selected. It has as many closing
  -- document tags as chunks, whatever their texts and sources hold.
  pub retrieve_context_lem :
      (query user : Text) (sources : List Text) (s : VectorStore)
      → Returned (IsContext a user sources) (retrieve_context a milvus query user sources s).1
  unfolding retrieve_context
  retrieve_context_lem query user sources =
      Returns->>= (IsRetrieved user k_target sources) (IsContext a user sources)
        (get_documents milvus query user k_target sources) (λ docs. pure (format_context a docs))
        (get_documents_lem milvus reads ranks query user k_target sources)
        (λ docs retrieved s. (docs, retrieved, refl, format_context_lem a laws docs))
