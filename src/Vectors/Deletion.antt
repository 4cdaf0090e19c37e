-- ===== src/Vectors/Deletion.antt =====
-- What `delete_documents_by_source` of assets/backend/vector_store.py removes and reports.
use rag_agent_chatbot.Prelude.{
  ℕ, ◌≡◌, refl, ap, sym, ◌∙◌, Bool, true, not, Option, none, some, List, [], ◌∷◌, keep_if, length,
  keep_if_twice, keep_if-not,
}
use rag_agent_chatbot.Text.{Text}
use rag_agent_chatbot.Vectors.State.{
  Chunk, Collection, VectorStore, Action, pure, gets, call, attempt, ◌>>=◌, ◌>>◌,
}
use rag_agent_chatbot.Vectors.Migration.{chunks_of, ensure_milvus_connection, ensure_migrated}
use rag_agent_chatbot.Vectors.Filter.{delete_filter}
use rag_agent_chatbot.Vectors.Expr.{owned, is_owned}
use rag_agent_chatbot.Vectors.Reading.{tokens_from-filters}
use rag_agent_chatbot.Vectors.Outcomes.{
  Settled, Meets, Meets->>=, Meets-call, Meets-attempt, Meets-if, Meets-gets, Meets-modify,
  Meets-look, Meets->>,
}
use rag_agent_chatbot.Vectors.Retrieval.{ReadsFilters}
use rag_agent_chatbot.Vectors.{
  Milvus, delete_documents_by_source, delete_in, delete_found, remove_chunks,
}

pub connection-Meets :
    (Q Fail : Option Collection → Type 0)
    → ((c : Option Collection) → Q c → Fail c)
    → Meets (λ _. Q) Fail Q ensure_milvus_connection
unfolding ensure_milvus_connection
connection-Meets Q Fail h =
    Meets->>= Q (λ _. Q) (λ _. Q) Fail (gets (λ s. s.milvus_connected)) _ (Meets-gets Q Fail _)
      (λ b.
        Meets-if Q (λ _. Q) Fail b (pure tt) _ (λ s q. q)
          (Meets->> Q Fail Q (λ _. Q) (call (λ c. (c, tt))) _ (Meets-look Q Fail tt h)
            (Meets-modify Q Fail _)))

abbrev pub is_spared : Text → Text → Chunk → Bool
is_spared source user c = not (is_owned source user c)

module _ (source user : Text) (before : Option Collection) where
  -- The chunks that are not the user's of the source are as before.
  abbrev pub Spares : Option Collection → Type 0
  Spares after =
      keep_if (is_spared source user) (chunks_of after)
      ≡ keep_if (is_spared source user) (chunks_of before)

  -- With a count, it is of the user's chunks of the source, and these are gone. -1 tells nothing.
  abbrev pub Reports : Option ℕ → Option Collection → Type 0
  Reports none after = Spares after
  Reports (some n) after =
      (n ≡ length (keep_if (is_owned source user) (chunks_of before)))
      × (chunks_of after ≡ keep_if (is_spared source user) (chunks_of before))

  -- Nothing happened yet.
  abbrev Untouched : Option Collection → Type 0
  Untouched after = after ≡ before

  abbrev Removed : Option Collection → Type 0
  Removed after = chunks_of after ≡ keep_if (is_spared source user) (chunks_of before)

  Untouched-Spares : (c : Option Collection) → Untouched c → Spares c
  Untouched-Spares c h = ap (λ x. keep_if (is_spared source user) (chunks_of x)) h

  Removed-Spares : (c : Option Collection) → Removed c → Spares c
  Removed-Spares c h =
      ap (keep_if (is_spared source user)) h
      ∙ keep_if_twice (is_spared source user) (chunks_of before)

module _ (milvus : Milvus) (reads : ReadsFilters milvus) (source user : Text)
    (before : Option Collection) where
  selects-owned : milvus.selects (delete_filter source user) ≡ is_owned source user
  selects-owned = λ i c. reads (owned source user) _ (tokens_from-filters user source [] []).2 c i

  remove_chunks-Removed :
      (c : Option Collection)
      → (Untouched source user before) c
      → (Removed source user before) (remove_chunks milvus (delete_filter source user) c).0
  unfolding remove_chunks
  remove_chunks-Removed none h = ap (λ x. keep_if (is_spared source user) (chunks_of x)) h
  remove_chunks-Removed (some c) h =
      ap (λ (test : Chunk → Bool). keep_if (λ x. not (test x)) c.chunks) selects-owned
      ∙ (Untouched-Spares source user before) (some c) h

  delete_found-Meets :
      (results : List Chunk)
      → keep_if (is_owned source user) (chunks_of before) ≡ results
      → Meets
          (Reports source user before)
          (Spares source user before)
          (Untouched source user before)
          (delete_found milvus (delete_filter source user) results)
  unfolding delete_found
  delete_found-Meets [] e = λ s q. (
    ap length (sym e),
    ap chunks_of q ∙ sym (keep_if-not (is_owned source user) (chunks_of before) e),
  )
  delete_found-Meets (c ∷ results) e =
      Meets->> (Untouched source user before) (Spares source user before)
        (Removed source user before) (Reports source user before)
        (call (remove_chunks milvus (delete_filter source user))) _
        (Meets-call (Untouched source user before) (λ _. (Removed source user before))
          (Spares source user before) (remove_chunks milvus (delete_filter source user))
          (λ x q. (remove_chunks-Removed x q, (Untouched-Spares source user before) x q)))
        (Meets->> (Removed source user before) (Spares source user before)
          (Removed source user before) (Reports source user before) (call (λ x. (x, tt))) _
          (Meets-look (Removed source user before) (Spares source user before) tt
            (Removed-Spares source user before))
          (λ s q. (ap length (sym e), q)))

  abbrev look : Option Collection → Option Collection × List Chunk
  look x = (x, keep_if (milvus.selects (delete_filter source user)) (chunks_of x))

  abbrev Found : List Chunk → Option Collection → Type 0
  Found results x =
      (keep_if (is_owned source user) (chunks_of before) ≡ results)
      × (Untouched source user before) x

  delete_in-Meets :
      (found : Option Collection)
      → found ≡ before
      → Meets
          (Reports source user before)
          (Spares source user before)
          (Untouched source user before)
          (delete_in milvus (delete_filter source user) found)
  unfolding delete_in
  delete_in-Meets none e = λ s q. (
    ap (λ x. length (keep_if (is_owned source user) (chunks_of x))) e,
    ap chunks_of q
        ∙ (ap chunks_of (sym e) ∙ ap (λ x. keep_if (is_spared source user) (chunks_of x)) e),
  )
  delete_in-Meets (some c) e =
      Meets->> (Untouched source user before) (Spares source user before)
        (Untouched source user before) (Reports source user before) (call (λ x. (x, tt))) _
        (Meets-look (Untouched source user before) (Spares source user before) tt
          (Untouched-Spares source user before))
        (Meets->>= (Untouched source user before) Found (Reports source user before)
          (Spares source user before) (call look) (delete_found milvus (delete_filter source user))
          (Meets-call (Untouched source user before) Found (Spares source user before) look (λ x q.
            (
              (
                sym (ap (λ y. keep_if (is_owned source user) (chunks_of y)) q)
                    ∙ ap (λ test. keep_if test (chunks_of x)) (sym selects-owned),
                q,
              ),
              (Untouched-Spares source user before) x q,
            )))
          (λ results s q. delete_found-Meets results q.0 s q.1))

  delete_now : Action (Option ℕ)
  delete_now =
      attempt
        (do
          ensure_milvus_connection
          found ← call (λ c. (c, c))
          delete_in milvus (delete_filter source user) found)
        (λ s. s) none

  delete_now-Meets :
      Meets (Reports source user before) (λ _. ⊥) (Untouched source user before) delete_now
  unfolding delete_now
  delete_now-Meets =
      Meets-attempt (Untouched source user before) (Reports source user before)
        (Spares source user before) _ (λ s. s) none
        (Meets->> (Untouched source user before) (Spares source user before)
          (Untouched source user before) (Reports source user before) ensure_milvus_connection _
          (connection-Meets (Untouched source user before) (Spares source user before)
            (Untouched-Spares source user before))
          (Meets->>= (Untouched source user before)
            (λ found x. (found ≡ before) × (Untouched source user before) x)
            (Reports source user before) (Spares source user before) (call (λ c. (c, c)))
            (delete_in milvus (delete_filter source user))
            (Meets-call (Untouched source user before)
              (λ found x. (found ≡ before) × (Untouched source user before) x)
              (Spares source user before) (λ c. (c, c))
              (λ x q. ((q, q), (Untouched-Spares source user before) x q)))
            (λ found s q. delete_in-Meets found q.0 s q.1)))
        (λ c h. h)

pub ensure_migrated_done :
    (s : VectorStore) → s.migration_done ≡ true → ensure_migrated s ≡ (s, some true)
unfolding ensure_migrated ◌>>=◌ gets
ensure_migrated_done s m = rw m refl

-- For a store that is migrated, on a Milvus that takes an expression for what its tokens say, whatever calls of the server fail: the chunks that are not both of
-- the source and the user's stay as they are, `delete_documents_by_source` never raises, and a
-- count that it returns, unlike -1, is the number of the user's chunks of the source, all of which
-- are gone.
pub delete_documents_by_source_lem :
    (milvus : Milvus)
    → ReadsFilters milvus
    → (source user : Text) (s : VectorStore) → s.migration_done ≡ true
    → Settled
        (Reports source user s.collection)
        (λ _. ⊥)
        (delete_documents_by_source milvus source user s)
unfolding delete_documents_by_source ◌>>=◌ delete_now
delete_documents_by_source_lem milvus reads source user s m =
    rw (ensure_migrated_done s m) (delete_now-Meets milvus reads source user s.collection s refl)
