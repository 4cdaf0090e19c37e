-- ===== src/Vectors/Indexing.antt =====
-- What `index_documents` of assets/backend/vector_store.py adds to the collection.
use rag_agent_chatbot.Prelude.{
  ◌≡◌, refl, ap, ◌∙◌, Bool, true, false, Option, none, some, List, [], ◌∷◌, ◌++◌, map,
  if◌then◌else◌, All, All-append, sym, append-nil, append_assoc,
}
use mathlib.Core.Path.{subst}
use rag_agent_chatbot.Text.{Text}
use rag_agent_chatbot.Vectors.State.{
  Document, Chunk, Collection, VectorStore, Action, pure, raise, call, attempt, ◌>>=◌, ◌>>◌,
}
use rag_agent_chatbot.Vectors.Migration.{
  chunks_of, insert_chunks, flush_store, ensure_milvus_connection, disconnected, ensure_migrated,
}
use rag_agent_chatbot.Vectors.Outcomes.{
  Settled, Meets, Meets-call, Meets-attempt, Meets-look, Meets->>,
}
use rag_agent_chatbot.Vectors.Deletion.{connection-Meets, ensure_migrated_done}
use rag_agent_chatbot.Vectors.{
  Milvus, chunks_from, split_documents, is_visibility, index_documents, insert_requests,
}

-- A flush leaves the collection and never raises.
flush_store-Meets : (Q Fail : Option Collection → Type 0) → Meets (λ _. Q) Fail Q flush_store
unfolding flush_store
flush_store-Meets Q Fail s q =
    settle (attempt (ensure_milvus_connection >> call (λ c. (c, tt))) disconnected tt s) (body s q)
  where
    body :
        Meets
          (λ _. Q)
          (λ _. ⊥)
          Q
          (attempt (ensure_milvus_connection >> call (λ c. (c, tt))) disconnected tt)
    body =
        Meets-attempt Q (λ _. Q) Q (ensure_milvus_connection >> call (λ c. (c, tt))) disconnected tt
          (Meets->> Q Q Q (λ _. Q) ensure_milvus_connection _ (connection-Meets Q Q (λ c q. q))
            (Meets-look Q Q tt (λ c q. q)))
          (λ c q. q)

    settle :
        (r : VectorStore × Option (Unit {0}))
        → Settled (λ _. Q) (λ _. ⊥) r
        → Settled (λ _. Q) Fail r
    settle (t, some a) q = q
    settle (t, none) q = absurd q

insert_chunks-adds :
    (new : List Chunk) (c : Option Collection)
    → chunks_of (insert_chunks new c).0 ≡ chunks_of c ++ new
unfolding insert_chunks
insert_chunks-adds new none = refl
insert_chunks-adds new (some c) = refl

-- The requests of an insertion, put together.
abbrev pub all_of : List (List Chunk) → List Chunk
all_of [] = []
all_of (new ∷ requests) = new ++ all_of requests

-- The wrapper inserts the chunks that it is given, in their order.
abbrev pub InsertsAll : Milvus → Type 0
InsertsAll milvus = (chunks : List Chunk) → all_of (milvus.requests chunks) ≡ chunks

abbrev Partly : List Chunk → List Chunk → Option Collection → Type 0
Partly old total c =
    (added left : List Chunk) × (total ≡ added ++ left) × (chunks_of c ≡ old ++ added)

insert_requests-Meets :
    (old added : List Chunk) (requests : List (List Chunk))
    → Meets
        (λ _ c. chunks_of c ≡ old ++ (added ++ all_of requests))
        (Partly old (added ++ all_of requests))
        (λ c. chunks_of c ≡ old ++ added)
        (insert_requests requests)
unfolding insert_requests
insert_requests-Meets old added [] = λ s q. q ∙ ap (λ l. old ++ l) (sym (append-nil added))
insert_requests-Meets old added (new ∷ requests) =
    Meets->> (λ c. chunks_of c ≡ old ++ added) (Partly old (added ++ (new ++ all_of requests)))
      (λ c. chunks_of c ≡ old ++ (added ++ new))
      (λ _ c. chunks_of c ≡ old ++ (added ++ (new ++ all_of requests))) (call (insert_chunks new))
      (insert_requests requests)
      (Meets-call (λ c. chunks_of c ≡ old ++ added) (λ _ c. chunks_of c ≡ old ++ (added ++ new))
        (Partly old (added ++ (new ++ all_of requests))) (insert_chunks new)
        (λ c q. (
          insert_chunks-adds new c ∙ ap (λ l. l ++ new) q ∙ append_assoc old added new,
          (added, new ++ all_of requests, refl, q),
        )))
      (subst
        (λ total.
          Meets (λ _ c. chunks_of c ≡ old ++ total) (Partly old total)
            (λ c. chunks_of c ≡ old ++ (added ++ new)) (insert_requests requests))
        (append_assoc added new (all_of requests))
        (insert_requests-Meets old (added ++ new) requests))

-- What is asked of a chunk that is indexed.
abbrev pub IsTagged : Text → Text → Chunk → Type 0
IsTagged user visibility c = (c.user_id ≡ user) × (c.visibility ≡ visibility)

module _ (milvus : Milvus) (documents : List Document) (user visibility : Text) where
  split_documents-All :
      (ds : List Document)
      → All (IsTagged user visibility) (split_documents milvus user visibility ds)
  unfolding split_documents chunks_from
  split_documents-All [] = tt
  split_documents-All (d ∷ ds) =
      All-append (IsTagged user visibility) (chunks_from milvus user visibility d) _
        (go (milvus.split_text d.page_content)) (split_documents-All ds)
    where
      go :
          (ts : List Text)
          → All (IsTagged user visibility) (
              map
                (λ t. record {
                  text = t;
                  vector = milvus.embed t;
                  source = d.source;
                  file_path = d.file_path;
                  filename = d.filename;
                  user_id = user;
                  visibility = visibility;
                })
                ts)
      go [] = tt
      go (t ∷ ts) = ((refl, refl), go ts)

  -- What a call that returns has added, behind what was there.
  abbrev pub Indexed : Option Collection → List Chunk → Option Collection → Type 0
  Indexed before added after =
      (chunks_of after ≡ chunks_of before ++ added)
      × ((added ≡ split_documents milvus user visibility documents)
          × All (IsTagged user visibility) added)

  -- What a call that raises has added: a part of the pieces, from the first on.
  abbrev pub PartlyIndexed : Option Collection → Option Collection → Type 0
  PartlyIndexed before after =
      (added left : List Chunk) × (split_documents milvus user visibility documents ≡ added ++ left)
      × (chunks_of after ≡ chunks_of before ++ added)

  abbrev Outcome : Option Collection → List Chunk → Option Collection → Type 0
  Outcome before added after = Indexed before added after × (is_visibility visibility ≡ true)

  store : Bool → Action (List Chunk)
  store ready =
      let splits = split_documents milvus user visibility documents in
      if ready
      then (do insert_requests (milvus.requests splits); flush_store; pure splits)
      else raise

  store-Meets :
      (before : Option Collection)
      → InsertsAll milvus
      → is_visibility visibility ≡ true
      → Meets (Outcome before) (PartlyIndexed before) (λ x. x ≡ before) (store true)
  unfolding store
  store-Meets before all v =
      Meets->> (λ x. x ≡ before) (PartlyIndexed before) Added (Outcome before)
        (insert_requests (milvus.requests splits)) _ inserted
        (Meets->> Added (PartlyIndexed before) Added (Outcome before) flush_store (pure splits)
          (flush_store-Meets Added (PartlyIndexed before))
          (λ s q. ((q, (refl, split_documents-All documents)), v)))
    where
      splits : List Chunk
      splits = split_documents milvus user visibility documents

      Added : Option Collection → Type 0
      Added x = chunks_of x ≡ chunks_of before ++ splits

      inserted :
          Meets
            (λ _. Added)
            (PartlyIndexed before)
            (λ x. x ≡ before)
            (insert_requests (milvus.requests splits))
      inserted s q =
          subst
            (λ total.
              Settled (λ _ c. chunks_of c ≡ chunks_of before ++ total)
                (Partly (chunks_of before) total) (insert_requests (milvus.requests splits) s))
            (all splits)
            (insert_requests-Meets (chunks_of before) [] (milvus.requests splits) s
              (ap chunks_of q ∙ sym (append-nil (chunks_of before))))

  -- On a store that is migrated, with a wrapper that inserts what it is given, whatever calls of the
  -- server fail: `index_documents` either raises, and has then added a part of the pieces of the
  -- documents, from the first on; or it adds exactly those pieces, each of which carries the uploader
  -- and the visibility, which is then public or private.
  pub index_documents_lem :
      (s : VectorStore)
      → InsertsAll milvus
      → s.migration_done ≡ true
      → Settled
          (λ added after. Indexed s.collection added after × (is_visibility visibility ≡ true))
          (PartlyIndexed s.collection)
          (index_documents milvus documents user visibility s)
  unfolding index_documents ◌>>=◌ store
  index_documents_lem s all m = go (is_visibility visibility) refl
    where
      go :
          (b : Bool)
          → is_visibility visibility ≡ b
          → Settled
              (Outcome s.collection)
              (PartlyIndexed s.collection)
              (if◌then◌else◌ {A = Action (List Chunk)} b (ensure_migrated >>= store) raise s)
      go true v = rw (ensure_migrated_done s m) (store-Meets s.collection all v s refl)
      go false v = (
        [],
        split_documents milvus user visibility documents,
        refl,
        sym (append-nil (chunks_of s.collection)),
      )
