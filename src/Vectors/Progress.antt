-- ===== src/Vectors/Progress.antt =====
-- What `_ensure_migrated` of assets/backend/vector_store.py leaves of the object's own fields: the
-- connection, the store and the mark of the migration.
use rag_agent_chatbot.Prelude.{
  ℕ, zero, suc, ◌≡◌, refl, ap, sym, Bool, true, false, Option, none, some, List, [], ◌∷◌, ◌≢◌,
  if◌then◌else◌, length, drop, ◌⊎◌, inl, inr, take,
}
use mathlib.Core.Path.{subst}
use rag_agent_chatbot.Vectors.Moves.{ensure_migrated_fresh}
use rag_agent_chatbot.Vectors.State.{
  Chunk, Collection, VectorStore, Action, pure, gets, modify, call, attempt, recover, continue,
  next_fault, ◌>>=◌, ◌>>◌,
}
use rag_agent_chatbot.Vectors.Migration.{
  chunks_of, query_limit, ensure_milvus_connection, get_store, insert_batches, move_chunks,
  migrate_found, migrate_collection_if_needed, migrate_and_build, lost_store, ensure_migrated,
}

-- The three fields.
pub record Fields (connected stored done : Bool) (s : VectorStore) : Type 0 where
  pub milvus_connected : s.milvus_connected ≡ connected
  pub has_store : s.has_store ≡ stored
  pub migration_done : s.migration_done ≡ done

-- `Calm` stands for a start on which no call of the server fails.
module _ (Calm : Type 0) where
  -- A state on the way, with the faults that are left.
  record Before (P : VectorStore → Type 0) (s : VectorStore) : Type 0 where
    pub holds : P s
    pub quiet : Calm → s.faults ≡ []

  -- An action leads from `P` to `Q`; an exception leaves the migration open, and is of a failed call.
  abbrev Ran : {A : Type 0} → (A → VectorStore → Type 0) → VectorStore × Option A → Type 0
  Ran Q (s, some a) = Before (Q a) s
  Ran Q (s, none) = (s.migration_done ≡ false) × (Calm → ⊥)

  abbrev Runs :
      {A : Type 0} → (VectorStore → Type 0) → (A → VectorStore → Type 0) → Action A → Type 0
  Runs P Q m = (s : VectorStore) → Before P s → Ran Q (m s)

  module _ {A B : Type 0} (P : VectorStore → Type 0) where
    Runs->>= :
        (Q : A → VectorStore → Type 0) (R : B → VectorStore → Type 0) (m : Action A)
        (f : A → Action B)
        → Runs P Q m
        → ((a : A) → Runs (Q a) R (f a))
        → Runs P R (m >>= f)
    unfolding ◌>>=◌
    Runs->>= Q R m f h k s e = go (m s) (h s e)
      where
        go : (r : VectorStore × Option A) → Ran Q r → Ran R (continue f r)
        go (t, some a) q = k a t q
        go (t, none) q = q

    Runs->> :
        (Q : VectorStore → Type 0) (R : B → VectorStore → Type 0) (m : Action A) (k : Action B)
        → Runs P (λ _. Q) m
        → Runs Q R k
        → Runs P R (m >> k)
    unfolding ◌>>◌
    Runs->> Q R m k h g = Runs->>= (λ _. Q) R m (λ _. k) h (λ _. g)

  abbrev Open : Bool → Bool → VectorStore → Type 0
  Open connected stored s =
      (connected ≡ true → s.milvus_connected ≡ true)
      × (stored ≡ true → s.has_store ≡ true)
      × (s.migration_done ≡ false)

  module _ (connected stored : Bool) where
    Runs-call :
        {A : Type 0} (f : Option Collection → Option Collection × A)
        → Runs (Open connected stored) (λ _. Open connected stored) (call f)
    unfolding call
    Runs-call {A} f s e = go s.faults (λ c. e.quiet c)
      where
        go :
            (l : List Bool)
            → (Calm → l ≡ [])
            → Ran
                (λ _. Open connected stored)
                (if◌then◌else◌ {A = VectorStore × Option A}
                  (next_fault l).0
                  (record s { faults = (next_fault l).1 }, none)
                  (
                    record s { collection = (f s.collection).0; faults = (next_fault l).1 },
                    some (f s.collection).1,
                  ))
        go [] q = record { holds = e.holds; quiet = λ c. refl }
        go (true ∷ l) q = (e.holds.2, λ c. absurd (cc (q c)))
        go (false ∷ l) q = record { holds = e.holds; quiet = λ c. absurd (cc (q c)) }

    Runs-pure :
        {A : Type 0} (a : A) → Runs (Open connected stored) (λ _. Open connected stored) (pure a)
    Runs-pure a s e = e

    Calls :
        {A B : Type 0} (f : Option Collection → Option Collection × A) (k : Action B)
        → Runs (Open connected stored) (λ _. Open connected stored) k
        → Runs (Open connected stored) (λ _. Open connected stored) (call f >> k)
    Calls f k h =
        Runs->> (Open connected stored) (Open connected stored) (λ _. Open connected stored)
          (call f) k (Runs-call f) h

    insert_batches-Runs :
        (fuel : ℕ) (chunks : List Chunk)
        → Runs (Open connected stored) (λ _. Open connected stored) (insert_batches fuel chunks)
    unfolding insert_batches
    insert_batches-Runs zero chunks = Runs-pure tt
    insert_batches-Runs (suc fuel) [] = Runs-pure tt
    insert_batches-Runs (suc fuel) (c ∷ chunks) =
        Calls _ (insert_batches fuel (drop 256 (c ∷ chunks)))
          (insert_batches-Runs fuel (drop 256 (c ∷ chunks)))

    move_chunks-Runs :
        (chunks : List Chunk)
        → Runs (Open connected stored) (λ _. Open connected stored) (move_chunks chunks)
    unfolding move_chunks
    move_chunks-Runs [] = Runs-call _
    move_chunks-Runs (r ∷ results) = Calls _ _ (
        Calls _ _ (
          Calls _ _ (
            Runs->> (Open connected stored) (Open connected stored) (λ _. Open connected stored)
              (insert_batches (length (r ∷ results)) (r ∷ results)) _
              (insert_batches-Runs (length (r ∷ results)) (r ∷ results))
              (Calls _ _ (Runs-call _)))))

    migrate_found-Runs :
        (found : Option Collection)
        → Runs (Open connected stored) (λ _. Open connected stored) (migrate_found found)
    unfolding migrate_found
    migrate_found-Runs none = Runs-pure tt
    migrate_found-Runs (some c) = go c.user_scoped
      where
        O : VectorStore → Type 0
        O = Open connected stored

        go :
            (b : Bool)
            → Runs O
                (λ _. O)
                (if◌then◌else◌ {A = Action (Unit {0})} b (pure tt) (
                  call (λ x. (x, tt))
                  >> (call (λ x. (x, length (chunks_of x))) >>= (λ n.
                      call (λ x. (x, take (query_limit n) (chunks_of x))) >>= move_chunks))))
        go true = Runs-pure tt
        go false = Calls _ _ (
            Runs->>= O (λ _. O) (λ _. O) (call (λ x. (x, length (chunks_of x)))) _ (Runs-call _)
              (λ n.
                Runs->>= O (λ _. O) (λ _. O) (call (λ x. (x, take (query_limit n) (chunks_of x))))
                  move_chunks (Runs-call _) move_chunks-Runs))

  connection-Runs : Runs (Open false false) (λ _. Open true false) ensure_milvus_connection
  unfolding ensure_milvus_connection gets ◌>>=◌
  connection-Runs s e = go s.milvus_connected refl
    where
      connect :
          Runs
            (Open false false)
            (λ _. Open true false)
            (call (λ c. (c, tt)) >> modify (λ t. record t { milvus_connected = true }))
      connect =
          Calls-to (Open false false) (modify (λ t. record t { milvus_connected = true }))
            (Runs-call false false (λ c. (c, tt)))
            (unfold modify in
              λ t h. record { holds = (λ _. refl, h.holds.1, h.holds.2); quiet = h.quiet })
        where
          Calls-to :
              (P : VectorStore → Type 0) (k : Action (Unit {0}))
              → Runs P (λ _. P) (call (λ c. (c, tt)))
              → Runs P (λ _. Open true false) k
              → Runs P (λ _. Open true false) (call (λ c. (c, tt)) >> k)
          Calls-to P k h g = Runs->> P P (λ _. Open true false) (call (λ c. (c, tt))) k h g

      go :
          (b : Bool)
          → s.milvus_connected ≡ b
          → Ran
              (λ _. Open true false)
              (if◌then◌else◌ {A = Action (Unit {0})} b
                (pure tt)
                (call (λ c. (c, tt)) >> modify (λ t. record t { milvus_connected = true }))
                s)
      go true h = record { holds = (λ _. h, e.holds.1, e.holds.2); quiet = e.quiet }
      go false h = connect s e

  get_store-Runs : Runs (Open true false) (λ _. Open true true) get_store
  unfolding get_store gets ◌>>=◌
  get_store-Runs s e = go s.has_store refl
    where
      build :
          Runs
            (Open true false)
            (λ _. Open true true)
            (call (λ c. (c, tt)) >> modify (λ t. record t { has_store = true }))
      build =
          Runs->> (Open true false) (Open true false) (λ _. Open true true) (call (λ c. (c, tt)))
            (modify (λ t. record t { has_store = true })) (Runs-call true false (λ c. (c, tt)))
            (unfold modify in
              λ t h. record { holds = (h.holds.0, λ _. refl, h.holds.2); quiet = h.quiet })

      go :
          (b : Bool)
          → s.has_store ≡ b
          → Ran
              (λ _. Open true true)
              (if◌then◌else◌ {A = Action (Unit {0})} b
                (pure tt)
                (call (λ c. (c, tt)) >> modify (λ t. record t { has_store = true }))
                s)
      go true h = record { holds = (e.holds.0, λ _. h, e.holds.2); quiet = e.quiet }
      go false h = build s e

  migrate_collection-Runs :
      Runs (Open false false) (λ _. Open true false) migrate_collection_if_needed
  unfolding migrate_collection_if_needed
  migrate_collection-Runs =
      Runs->> (Open false false) (Open true false) (λ _. Open true false) ensure_milvus_connection _
        connection-Runs
        (Runs->>= (Open true false) (λ _. Open true false) (λ _. Open true false)
          (call (λ c. (c, c))) migrate_found (Runs-call true false (λ c. (c, c)))
          (migrate_found-Runs true false))

  abbrev Migrated : Bool → VectorStore → Type 0
  Migrated b s = (b ≡ true) × Fields true true true s

  migrate_and_build-Runs : Runs (Open false false) Migrated migrate_and_build
  unfolding migrate_and_build
  migrate_and_build-Runs =
      Runs->> (Open false false) (Open true false) Migrated migrate_collection_if_needed _
        migrate_collection-Runs
        (Runs->> (Open true false) (Open true true) Migrated get_store _ get_store-Runs (
          Runs->> (Open true true) (Fields true true true) Migrated
            (modify (λ s. record s { migration_done = true })) (pure true)
            (unfold modify in
              λ s h. record {
                holds = record {
                  milvus_connected = h.holds.0 refl;
                  has_store = h.holds.1 refl;
                  migration_done = refl;
                };
                quiet = h.quiet;
              })
            (λ s h. record { holds = (refl, h.holds); quiet = h.quiet })))

-- How `_ensure_migrated` ends, by the faults that it started with.
abbrev pub Ended : List Bool → VectorStore × Option Bool → Type 0
Ended faults (t, r) =
    (r ≡ some true) × Fields true true true t
    ⊎ (r ≡ some false) × Fields false false false t × (faults ≢ [])

-- On a store whose migration is not marked as done, from whatever collection, connection and store,
-- `_ensure_migrated` never raises. It reports true, and is then connected, with a store, and marks
-- the migration as done; or it reports false, and has then given up connection and store, so that the
-- next call makes both anew, and left the migration open. It reports false only where a call fails.
pub ensure_migrated-Ended :
    (s : VectorStore) → s.migration_done ≡ false → Ended s.faults (ensure_migrated s)
unfolding attempt recover
ensure_migrated-Ended s m =
    subst (λ r. Ended s.faults r) (sym (ensure_migrated_fresh s m))
      (go (migrate_and_build s) (
        migrate_and_build-Runs (s.faults ≡ []) s
          (record { holds = (λ h. absurd (cc h), λ h. absurd (cc h), m); quiet = λ h. h })))
  where
    go :
        (r : VectorStore × Option Bool)
        → Ran (s.faults ≡ []) (Migrated (s.faults ≡ [])) r
        → Ended s.faults (recover lost_store false r)
    go (t, some b) h = inl (ap some h.holds.0, h.holds.1)
    go (t, none) h =
        inr (refl, record { milvus_connected = refl; has_store = refl; migration_done = h.0 }, h.1)
