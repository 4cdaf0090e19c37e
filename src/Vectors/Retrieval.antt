-- ===== src/Vectors/Retrieval.antt =====
-- What `get_documents` of assets/backend/vector_store.py returns.
use rag_agent_chatbot.Prelude.{
  ℕ, ◌≤◌, ◌≡◌, refl, sym, ◌∙◌, Bool, true, false, ◌&&◌, some, List, [], ◌∷◌, map, arith, All,
  All-keep_if, All-kept, keep_if, length, length-keep_if-le, length-map, All-map,
}
use rag_agent_chatbot.Text.{Text}
use rag_agent_chatbot.Vectors.State.{Chunk, VectorStore, pure, gets, call, attempt}
use rag_agent_chatbot.Vectors.Migration.{chunks_of, ensure_migrated, migrate_and_build, lost_store}
use rag_agent_chatbot.Vectors.Expr.{
  Wanted, visible, visible_in, between, tokens_from, tokens_of, is_wanted, is_visible_to,
}
use rag_agent_chatbot.Vectors.Reading.{tokens_from-filters}
use rag_agent_chatbot.Vectors.Outcomes.{
  Returned, Returns, Gives->>=, Returns->>=, Gives-call, Returns-attempt, Returns-if, Gives-any,
}
use rag_agent_chatbot.Vectors.{Milvus, filter_expr, is_allowed, keep_results, get_documents}

-- Milvus takes an expression for what its tokens say.
abbrev pub ReadsFilters : Milvus → Type 0
ReadsFilters milvus =
    (w : Wanted) (text : Text)
    → tokens_from between text ≡ some (tokens_of w)
    → (c : Chunk) → milvus.selects text c ≡ is_wanted w c

-- A search returns at most `k` results, each of them a candidate.
abbrev pub RanksCandidates : Milvus → Type 0
RanksCandidates milvus =
    (query : Text) (k : ℕ) (candidates : List Chunk)
    → (length (milvus.rank query k candidates) ≤ k)
      × ((P : Chunk → Bool)
          → All (λ c. P c ≡ true) candidates
          → All (λ (r : Chunk × milvus.Score). P r.0 ≡ true) (milvus.rank query k candidates))

pub ensure_migrated-Returns : Returns (λ _. Unit {0}) ensure_migrated
unfolding ensure_migrated gets
ensure_migrated-Returns =
    Returns->>= (λ _. Unit {0}) (λ _. Unit {0}) (gets (λ s. s.migration_done)) _ (λ s. tt)
      (λ b _.
        Returns-if (λ _. Unit {0}) b (pure true) (attempt migrate_and_build lost_store false)
          (λ s. tt)
          (Returns-attempt (λ _. Unit {0}) migrate_and_build lost_store false
            (Gives-any migrate_and_build) tt))

-- What holds of the retrieved chunks.
abbrev pub IsRetrieved : Text → ℕ → List Text → List Chunk → Type 0
IsRetrieved user k selected docs =
    (length docs ≤ k)
    × All (λ c. (is_visible_to user c ≡ true) × (is_allowed selected c ≡ true)) docs

module _ (milvus : Milvus) (reads : ReadsFilters milvus) (ranks : RanksCandidates milvus) where
  selects-visible :
      (user : Text) (selected : List Text) (c : Chunk)
      → milvus.selects (filter_expr user selected) c ≡ true
      → is_visible_to user c ≡ true
  selects-visible user [] c h =
      sym (reads (visible user) _ (tokens_from-filters user [] [] []).0 c) ∙ h
  selects-visible user (s ∷ ss) c h =
      go (is_visible_to user c) _
        (sym (reads (visible_in user s ss) _ (tokens_from-filters user [] s ss).1 c) ∙ h)
    where
      go : (a b : Bool) → a && b ≡ true → a ≡ true
      go true b e = refl
      go false b e = e

  abbrev is_relevant_result : Chunk × milvus.Score → Bool
  is_relevant_result r = milvus.is_relevant r.1

  abbrev chunk_of : Chunk × milvus.Score → Chunk
  chunk_of r = r.0

  length-keep_results :
      (k : ℕ) (selected : List Text) (results : List (Chunk × milvus.Score))
      → length results ≤ k
      → length (keep_results milvus selected results) ≤ k
  unfolding keep_results
  length-keep_results k selected results h = omega (
    arith,
    h,
    length-keep_if-le is_relevant_result results,
    length-map chunk_of (keep_if is_relevant_result results),
    length-keep_if-le (is_allowed selected) (map chunk_of (keep_if is_relevant_result results)),
  )

  All-keep_results :
      (P : Chunk → Type 0) (selected : List Text) (results : List (Chunk × milvus.Score))
      → All (λ (r : Chunk × milvus.Score). P r.0) results
      → All (λ c. P c × (is_allowed selected c ≡ true)) (keep_results milvus selected results)
  unfolding keep_results
  All-keep_results P selected results h =
      All-kept P _ (is_allowed selected) (map chunk_of (keep_if is_relevant_result results))
        (λ c p e. (p, e))
        (All-map P chunk_of (keep_if is_relevant_result results) (
          All-kept (λ r. P (chunk_of r)) (λ r. P (chunk_of r)) is_relevant_result results
            (λ r p e. p) h))

  keep_results-IsRetrieved :
      (query user : Text) (k : ℕ) (selected : List Text) (chunks : List Chunk)
      → IsRetrieved user k selected (
          keep_results milvus selected
            (milvus.rank query k (keep_if (milvus.selects (filter_expr user selected)) chunks)))
  keep_results-IsRetrieved query user k selected chunks =
      let found : List Chunk = keep_if (milvus.selects (filter_expr user selected)) chunks in
      let (few, among) = ranks query k found in
      (
        length-keep_results k selected (milvus.rank query k found) few,
        All-keep_results (λ c. is_visible_to user c ≡ true) selected (milvus.rank query k found)
            (among (is_visible_to user) (
              All-keep_if (λ c. is_visible_to user c ≡ true)
                (milvus.selects (filter_expr user selected)) chunks
                (selects-visible user selected))),
      )

  -- With a Milvus that takes an expression for what its tokens say and returns at most `k` of the
  -- candidates, `get_documents` never raises, whatever calls of the server fail, and returns at most
  -- `k` chunks, each of them public, of a legacy visibility or the user's, and of a selected source
  -- where some are selected.
  pub get_documents_lem :
      (query user : Text) (k : ℕ) (selected : List Text) (s : VectorStore)
      → Returned (IsRetrieved user k selected) (get_documents milvus query user k selected s).1
  unfolding get_documents
  get_documents_lem query user k selected =
      Returns->>= (λ _. Unit {0}) (IsRetrieved user k selected) ensure_migrated _
        ensure_migrated-Returns
        (λ ready _.
          Returns-if (IsRetrieved user k selected) ready _ (pure [])
            (Returns-attempt (IsRetrieved user k selected) _ (λ s. s) []
              (Gives->>=
                (λ (rs : List (Chunk × milvus.Score)).
                  IsRetrieved user k selected (keep_results milvus selected rs))
                (IsRetrieved user k selected)
                (call (λ c. (
                  c,
                  milvus.rank query k
                      (keep_if (milvus.selects (filter_expr user selected)) (chunks_of c)),
                )))
                (λ rs. pure (keep_results milvus selected rs))
                (Gives-call _ _ (λ c. keep_results-IsRetrieved query user k selected (chunks_of c)))
                (λ rs h s. h))
              (omega arith, tt))
            (λ s. (omega arith, tt)))
