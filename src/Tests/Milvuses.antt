-- ===== src/Tests/Milvuses.antt =====
-- A server that reads the filters of assets/backend/vector_store.py by their literals, and a store on
-- it, for each method of `VectorStore`.
use rag_agent_chatbot.Prelude.{
  ℕ, zero, suc, ◌≤◌, ◌≡◌, refl, ap, ◌∙◌, Bool, true, false, ◌&&◌, Option, none, some, List, [], ◌∷◌,
  ◌++◌, map, any_of, arith, All, length, take,
}
use rag_agent_chatbot.Text.{Text, codes, text_eq}
use rag_agent_chatbot.Vectors.Embeddings.{
  Service, Shuffled, same, swap, numbered, embed_documents, embed_query, AnswersBatches,
  embed_documents_lem,
}
use rag_agent_chatbot.Vectors.State.{Document, Chunk, VectorStore}
use rag_agent_chatbot.Vectors.Migration.{ensure_migrated}
use rag_agent_chatbot.Vectors.Filter.{build_visibility_filter, selected_filter, delete_filter}
use rag_agent_chatbot.Vectors.Expr.{
  Token, literal, other, Wanted, visible, visible_in, owned, between, tokens_from, tokens_of,
  list_tokens, others, is_wanted, is_visible_to, is_owned,
}
use rag_agent_chatbot.Vectors.Reading.{tokens_from-filters}
use rag_agent_chatbot.Vectors.Outcomes.{Returned, Settled}
use rag_agent_chatbot.Vectors.Retrieval.{
  ReadsFilters, RanksCandidates, IsRetrieved, get_documents_lem,
}
use rag_agent_chatbot.Vectors.Deletion.{Reports, delete_documents_by_source_lem}
use rag_agent_chatbot.Vectors.Progress.{Ended, ensure_migrated-Ended}
use rag_agent_chatbot.Vectors.Indexing.{Indexed, InsertsAll, PartlyIndexed, index_documents_lem}
use rag_agent_chatbot.Vectors.{
  Milvus, get_documents, delete_documents_by_source, index_documents, is_visibility,
}

abbrev literals : List Token → List Text
literals [] = []
literals (literal t ∷ ts) = t ∷ literals ts
literals (other c ∷ ts) = literals ts

-- A filter with two literals is of a deletion, one with more of a search.
abbrev by_literals : List Text → Chunk → Bool
by_literals (source ∷ user ∷ []) c = is_owned source user c
by_literals (a ∷ b ∷ user ∷ []) c = is_visible_to user c
by_literals (a ∷ b ∷ user ∷ s ∷ ss) c = is_visible_to user c && any_of (text_eq c.source) (s ∷ ss)
by_literals ts c = false

abbrev by_tokens : Option (List Token) → Chunk → Bool
by_tokens none c = false
by_tokens (some ts) c = by_literals (literals ts) c

abbrev scored : List Chunk → List (Chunk × ℕ)
scored = map (λ c. (c, 1))

-- One request for each chunk.
abbrev singly : List Chunk → List (List Chunk)
singly [] = []
singly (c ∷ cs) = (c ∷ []) ∷ singly cs

abbrev pub bench : Milvus
bench = record {
  Score = ℕ;
  selects = λ text c. by_tokens (tokens_from between text) c;
  rank = λ query k cs. take k (scored cs);
  is_relevant = λ score. true;
  split_text = λ t. t ∷ [];
  embed = λ t. 0;
  requests = singly;
}

pub bench-InsertsAll : InsertsAll bench
bench-InsertsAll [] = refl
bench-InsertsAll (c ∷ cs) = ap (◌∷◌ c) (bench-InsertsAll cs)

literals_of_list :
    (s : Text) (ss : List Text) → literals (list_tokens s ss ++ others (codes "]")) ≡ s ∷ ss
literals_of_list s [] = refl
literals_of_list s (t ∷ ts) = ap (◌∷◌ s) (literals_of_list t ts)

by_literals-tokens_of :
    (w : Wanted) (c : Chunk) → by_literals (literals (tokens_of w)) c ≡ is_wanted w c
by_literals-tokens_of (visible user) c = refl
by_literals-tokens_of (visible_in user s ss) c =
    ap (λ ts. by_literals (codes "public" ∷ [] ∷ user ∷ ts) c) (literals_of_list s ss)
by_literals-tokens_of (owned source user) c = refl

pub bench-ReadsFilters : ReadsFilters bench
bench-ReadsFilters w text e c = ap (λ ts. by_tokens ts c) e ∙ by_literals-tokens_of w c

length-take-scored : (k : ℕ) (cs : List Chunk) → length (take k (scored cs)) ≤ k
length-take-scored zero cs = omega arith
length-take-scored (suc k) [] = omega arith
length-take-scored (suc k) (c ∷ cs) = omega (arith, length-take-scored k cs)

All-take-scored :
    (P : Chunk → Bool) (k : ℕ) (cs : List Chunk)
    → All (λ c. P c ≡ true) cs
    → All (λ (r : Chunk × ℕ). P r.0 ≡ true) (take k (scored cs))
All-take-scored P zero cs h = tt
All-take-scored P (suc k) [] h = tt
All-take-scored P (suc k) (c ∷ cs) (h, hs) = (h, All-take-scored P k cs hs)

pub bench-RanksCandidates : RanksCandidates bench
bench-RanksCandidates query k cs = (length-take-scored k cs, λ P. All-take-scored P k cs)

abbrev pub ann : Text
ann = codes "ann\""

abbrev pub notes : Text
notes = codes "notes.pdf"

abbrev chunk : Text → Text → Chunk
chunk user visibility = record {
  text = codes "text";
  vector = 7;
  source = notes;
  file_path = codes "/uploads/notes.pdf";
  filename = notes;
  user_id = user;
  visibility = visibility;
}

abbrev stored : List Chunk
stored = chunk ann (codes "private") ∷ chunk (codes "bob") (codes "private") ∷ chunk [] [] ∷ []

-- The second call of the server fails.
abbrev pub ready : VectorStore
ready = record {
  collection = some (record { user_scoped = true; chunks = stored });
  migration_done = true;
  milvus_connected = true;
  has_store = true;
  faults = false ∷ true ∷ [];
}

abbrev legacy : List Bool → VectorStore
legacy faults = record {
  collection = some (record { user_scoped = false; chunks = stored });
  migration_done = false;
  milvus_connected = false;
  has_store = false;
  faults = faults;
}

tokens_from-filters_example :
    (tokens_from between (build_visibility_filter ann) ≡ some (tokens_of (visible ann)))
    × (tokens_from between (selected_filter (build_visibility_filter ann) (notes ∷ ann ∷ []))
        ≡ some (tokens_of (visible_in ann notes (ann ∷ []))))
    × (tokens_from between (delete_filter notes ann) ≡ some (tokens_of (owned notes ann)))
tokens_from-filters_example = tokens_from-filters ann notes notes (ann ∷ [])

get_documents_example :
    Returned
      (IsRetrieved ann 2 (notes ∷ []))
      (get_documents bench (codes "what?") ann 2 (notes ∷ []) ready).1
get_documents_example =
    get_documents_lem bench bench-ReadsFilters bench-RanksCandidates (codes "what?") ann 2
      (notes ∷ []) ready

delete_documents_by_source_example :
    Settled
      (Reports notes ann (some (record { user_scoped = true; chunks = stored })))
      (λ _. ⊥)
      (delete_documents_by_source bench notes ann ready)
delete_documents_by_source_example =
    delete_documents_by_source_lem bench bench-ReadsFilters notes ann ready refl

-- The server fails where the new collection is created: the call reports false, and all is open.
ensure_migrated-Ended_example :
    let faults = false ∷ false ∷ false ∷ false ∷ false ∷ false ∷ true ∷ [] in
    Ended faults (ensure_migrated (legacy faults))
ensure_migrated-Ended_example =
    ensure_migrated-Ended (legacy (false ∷ false ∷ false ∷ false ∷ false ∷ false ∷ true ∷ [])) refl

abbrev upload : List Document
upload =
    record {
      page_content = codes "text";
      source = notes;
      file_path = codes "/uploads/notes.pdf";
      filename = notes;
    }
    ∷ []

index_documents_example :
    Settled
      (λ added after.
        Indexed bench upload ann
          (codes "private")
          (some (record { user_scoped = true; chunks = stored }))
          added
          after
        × (is_visibility (codes "private") ≡ true))
      (PartlyIndexed bench upload ann
        (codes "private")
        (some (record { user_scoped = true; chunks = stored })))
      (index_documents bench upload ann (codes "private") ready)
index_documents_example =
    index_documents_lem bench upload ann (codes "private") ready bench-InsertsAll refl

-- A service that answers with the lengths of the texts, the second one first.
abbrev second_first : List (ℕ × ℕ) → List (ℕ × ℕ)
second_first [] = []
second_first (x ∷ []) = x ∷ []
second_first (x ∷ y ∷ xs) = y ∷ x ∷ xs

abbrev measuring : Service
measuring = record {
  Vector = ℕ;
  post = λ batch. some (second_first (numbered 0 (map length batch)));
}

measuring-AnswersBatches : AnswersBatches measuring length
measuring-AnswersBatches batch h =
    (second_first (numbered 0 (map length batch)), (refl, shuffled (map length batch)))
  where
    shuffled : (vs : List ℕ) → Shuffled (second_first (numbered 0 vs)) (numbered 0 vs)
    shuffled [] = same []
    shuffled (v ∷ []) = same ((0, v) ∷ [])
    shuffled (v ∷ w ∷ vs) = swap (1, w) (0, v) (numbered 2 vs) refl

embed_documents_example :
    (embed_documents measuring (ann ∷ notes ∷ [] ∷ []) ≡ some (4 ∷ 9 ∷ 0 ∷ []))
    × (embed_query measuring ann ≡ some 4)
embed_documents_example =
    embed_documents_lem measuring length measuring-AnswersBatches (ann ∷ notes ∷ [] ∷ []) ann
