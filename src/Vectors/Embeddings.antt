-- ===== src/Vectors/Embeddings.antt =====
-- `CustomEmbeddings` of assets/backend/vector_store.py: the texts go to the embedding service in
-- batches, and the answers are put in order by their indices.
use rag_agent_chatbot.Prelude.{
  ℕ, zero, suc, ◌≤◌, ◌≡◌, refl, ap, sym, ◌∙◌, true, false, Option, none, some, List, [], ◌∷◌, ◌++◌,
  map, ◌==◌, leb, if◌then◌else◌, arith, length, take, drop, length-drop, length-take-le,
  take-append-drop, map-append,
}
use rag_agent_chatbot.Text.{Text}

-- The service: `data` of its answer, as indices and embeddings, or an exception.
pub record Service : Type 1 where
  pub Vector : Type 0
  pub post : List Text → Option (List (ℕ × Vector))

abbrev pub embedding_batch_size : ℕ
embedding_batch_size = 32

leb-suc : (k : ℕ) → leb k (suc k) ≡ true
leb-suc k = ground arith

module _ {V : Type 0} where
  -- `sorted(data, key=lambda x: x["index"])`
  unfoldable pub insert_item : ℕ × V → List (ℕ × V) → List (ℕ × V)
  insert_item x [] = x ∷ []
  insert_item x (y ∷ ys) =
      let rest = insert_item x ys in if leb x.0 y.0 then x ∷ y ∷ ys else y ∷ rest

  unfoldable pub sort_items : List (ℕ × V) → List (ℕ × V)
  unfolding insert_item
  sort_items [] = []
  sort_items (x ∷ xs) = insert_item x (sort_items xs)

  -- An answer in another order: items of different indices change places.
  pub data Shuffled : List (ℕ × V) → List (ℕ × V) → Type 0 where
    same : (xs : List (ℕ × V)) → Shuffled xs xs
    keep : (x : ℕ × V) (xs ys : List (ℕ × V)) → Shuffled xs ys → Shuffled (x ∷ xs) (x ∷ ys)
    swap :
        (x y : ℕ × V) (xs : List (ℕ × V))
        → (x.0 == y.0) ≡ false
        → Shuffled (x ∷ y ∷ xs) (y ∷ x ∷ xs)
    follow : (xs ys zs : List (ℕ × V)) → Shuffled xs ys → Shuffled ys zs → Shuffled xs zs

  -- A list with its indices.
  abbrev pub numbered : ℕ → List V → List (ℕ × V)
  numbered k [] = []
  numbered k (v ∷ vs) = (k, v) ∷ numbered (suc k) vs

  insert_item_commute :
      (x y : ℕ × V) (l : List (ℕ × V))
      → (x.0 == y.0) ≡ false
      → insert_item x (insert_item y l) ≡ insert_item y (insert_item x l)
  unfolding insert_item
  insert_item_commute x y [] h = ground arith
  insert_item_commute x y (z ∷ zs) h = ground (arith, insert_item_commute x y zs h)

  sort_items-Shuffled : (xs ys : List (ℕ × V)) → Shuffled xs ys → sort_items xs ≡ sort_items ys
  unfolding sort_items
  sort_items-Shuffled _ _ (same xs) = refl
  sort_items-Shuffled _ _ (keep x xs ys s) = ap (insert_item x) (sort_items-Shuffled xs ys s)
  sort_items-Shuffled _ _ (swap x y xs h) = insert_item_commute x y (sort_items xs) h
  sort_items-Shuffled _ _ (follow xs ys zs s u) =
      sort_items-Shuffled xs ys s ∙ sort_items-Shuffled ys zs u

  sort_items-numbered : (k : ℕ) (vs : List V) → sort_items (numbered k vs) ≡ numbered k vs
  unfolding sort_items insert_item
  sort_items-numbered k [] = refl
  sort_items-numbered k (v ∷ []) = refl
  sort_items-numbered k (v ∷ w ∷ vs) =
      ap (insert_item (k, v)) (sort_items-numbered (suc k) (w ∷ vs)) ∙ rw (leb-suc k) refl

  map-numbered : (k : ℕ) (vs : List V) → map (λ (x : ℕ × V). x.1) (numbered k vs) ≡ vs
  map-numbered k [] = refl
  map-numbered k (v ∷ vs) = ap (◌∷◌ v) (map-numbered (suc k) vs)

module _ (service : Service) where
  abbrev pub vectors_of : List (ℕ × service.Vector) → List service.Vector
  vectors_of data_ = map (λ (x : ℕ × service.Vector). x.1) (sort_items data_)

  abbrev pub extended :
      Option (List (ℕ × service.Vector))
      → Option (List service.Vector)
      → Option (List service.Vector)
  extended none rest = none
  extended (some items) none = none
  extended (some items) (some rest) = some (vectors_of items ++ rest)

  -- The loop over the batches, by fuel: one for each text is enough.
  unfoldable pub embed_batches : ℕ → List Text → Option (List service.Vector)
  unfolding sort_items
  embed_batches zero texts = some []
  embed_batches (suc fuel) [] = some []
  embed_batches (suc fuel) (t ∷ ts) =
      extended (service.post (take embedding_batch_size (t ∷ ts)))
        (embed_batches fuel (drop embedding_batch_size (t ∷ ts)))

  -- `__call__`, and `_acall` with the other client
  unfoldable pub embed_documents : List Text → Option (List service.Vector)
  unfolding embed_batches
  embed_documents texts = embed_batches (length texts) texts

  -- `self.__call__([text])[0]`
  abbrev pub first_of : Option (List service.Vector) → Option service.Vector
  first_of none = none
  first_of (some []) = none
  first_of (some (v ∷ vs)) = some v

  unfoldable pub embed_query : Text → Option service.Vector
  unfolding embed_documents
  embed_query text = first_of (embed_documents (text ∷ []))

  module _ (embedding : Text → service.Vector) where
    -- Each batch of at most 32 texts is answered, in any order.
    abbrev pub AnswersBatches : Type 0
    AnswersBatches =
        (batch : List Text)
        → length batch ≤ 32
        → (items : List (ℕ × service.Vector)) × ((service.post batch ≡ some items)
            × Shuffled items (numbered 0 (map embedding batch)))

    embed_batches_lem :
        AnswersBatches
        → (fuel : ℕ) (texts : List Text) → length texts ≤ fuel
        → embed_batches fuel texts ≡ some (map embedding texts)
    unfolding embed_batches
    embed_batches_lem answers zero [] h = refl
    embed_batches_lem answers zero (t ∷ ts) h = absurd (omega arith)
    embed_batches_lem answers (suc fuel) [] h = refl
    embed_batches_lem answers (suc fuel) (t ∷ ts) h =
        let (items, (answered, shuffled)) =
          answers (take 32 (t ∷ ts)) (length-take-le 32 (t ∷ ts)) in
        let rest =
          embed_batches_lem answers fuel (drop 32 (t ∷ ts)) (omega (arith, h, length-drop 31 ts)) in
        rw (answered, rest)
          (ap some (
            ap (λ vs. vs ++ map embedding (drop 32 (t ∷ ts)))
              (sorted items (take 32 (t ∷ ts)) shuffled)
            ∙ sym (map-append embedding (take 32 (t ∷ ts)) (drop 32 (t ∷ ts)))
            ∙ ap (map embedding) (take-append-drop 32 (t ∷ ts))))
      where
        sorted :
            (items : List (ℕ × service.Vector)) (batch : List Text)
            → Shuffled items (numbered 0 (map embedding batch))
            → vectors_of items ≡ map embedding batch
        sorted items batch s =
            ap (map (λ (x : ℕ × service.Vector). x.1)) (
              sort_items-Shuffled items (numbered 0 (map embedding batch)) s
              ∙ sort_items-numbered 0 (map embedding batch))
            ∙ map-numbered 0 (map embedding batch)

    -- With a service that answers each batch of at most 32 texts with their embeddings, in any order of
    -- their indices, `embed_documents` ends and returns the embedding of each text in the order of the
    -- texts, however many there are, and `embed_query` the embedding of its text.
    pub embed_documents_lem :
        AnswersBatches
        → (texts : List Text) (text : Text)
        → (embed_documents texts ≡ some (map embedding texts))
          × (embed_query text ≡ some (embedding text))
    unfolding embed_documents embed_query
    embed_documents_lem answers texts text = (
      embed_batches_lem answers (length texts) texts (omega arith),
      ap first_of (embed_batches_lem answers 1 (text ∷ []) (omega arith)),
    )
