-- ===== src/Vectors/State.antt =====
-- The state of `VectorStore` of assets/backend/vector_store.py, with the collection `context` on the
-- server, and the actions on it: each call of the server may raise.
use rag_agent_chatbot.Prelude.{ℕ, Bool, false, Option, none, some, List, [], ◌∷◌, if◌then◌else◌}
use rag_agent_chatbot.Text.{Text}

-- An entity of the collection. `vector` stands for the embedding.
pub record Chunk : Type 0 where
  pub text : Text
  pub vector : ℕ
  pub source : Text
  pub file_path : Text
  pub filename : Text
  pub user_id : Text
  pub visibility : Text

-- A collection; a legacy one has no fields for users.
pub record Collection : Type 0 where
  pub user_scoped : Bool
  pub chunks : List Chunk

-- A langchain document: the metadata that `_load_documents` leaves.
pub record Document : Type 0 where
  pub page_content : Text
  pub source : Text
  pub file_path : Text
  pub filename : Text

-- The fields of the store, and the collection on the server. `faults` says of each coming call of
-- the server whether it raises; past its end none does.
pub record VectorStore : Type 0 where
  pub collection : Option Collection
  pub migration_done : Bool
  pub milvus_connected : Bool
  pub has_store : Bool
  pub faults : List Bool

-- An action returns, or raises with `none`.
abbrev pub Action : Type 0 → Type 0
Action A = VectorStore → VectorStore × Option A

abbrev pub pure : {A : Type 0} → A → Action A
pure a s = (s, some a)

abbrev pub raise : {A : Type 0} → Action A
raise s = (s, none)

abbrev pub continue :
    {A B : Type 0} → (A → Action B) → VectorStore × Option A → VectorStore × Option B
continue f (s, some a) = f a s
continue f (s, none) = (s, none)

infixl 5 ◌>>=◌ ◌>>◌
unfoldable pub ◌>>=◌ : {A B : Type 0} → Action A → (A → Action B) → Action B
◌>>=◌ m f s = continue f (m s)

unfoldable pub ◌>>◌ : {A B : Type 0} → Action A → Action B → Action B
unfolding ◌>>=◌
m >> k = m >>= λ _. k

abbrev pub next_fault : List Bool → Bool × List Bool
next_fault [] = (false, [])
next_fault (b ∷ bs) = (b, bs)

unfoldable pub gets : {A : Type 0} → (VectorStore → A) → Action A
gets f s = (s, some (f s))

-- A change of the object's own fields.
unfoldable pub modify : (VectorStore → VectorStore) → Action (Unit {0})
modify f s = (record (f s) { collection = s.collection; faults = s.faults }, some tt)

-- One request to the server: it raises and has no effect, or it takes effect as a whole and returns.
-- A fault stands for whatever makes it raise, a connection that is lost among them.
unfoldable pub call : {A : Type 0} → (Option Collection → Option Collection × A) → Action A
call f s =
    let (fails, faults) = next_fault s.faults in
    let (collection, a) = f s.collection in
    if fails
    then (record s { faults = faults }, none)
    else (record s { collection = collection; faults = faults }, some a)

-- `try: … except Exception: …`
unfoldable pub recover :
    {A : Type 0} → (VectorStore → VectorStore) → A → VectorStore × Option A → VectorStore × Option A
recover f a (s, some b) = (s, some b)
recover f a (s, none) = (record (f s) { collection = s.collection; faults = s.faults }, some a)

unfoldable pub attempt : {A : Type 0} → Action A → (VectorStore → VectorStore) → A → Action A
unfolding recover
attempt body f a s = recover f a (body s)
