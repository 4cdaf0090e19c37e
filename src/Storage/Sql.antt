-- ===== src/Storage/Sql.antt =====
-- The tables of postgres_storage.py, and its SQL statements as functions on them, one for each.
-- A table is a list of rows in the order of insertion. Of the timestamps only those stand here that
-- a query sorts by, in ticks of the database's clock; a query's ties keep the table's order.
pub mod Owners
pub mod Appends
pub mod Histories
pub mod Removals
pub mod Upserts
use rag_agent_chatbot.Prelude.{
  ℕ, suc, ◌+◌, String, Bool, true, false, not, ◌&&◌, ◌||◌, Option, none, some, List, [], ◌∷◌, ◌++◌,
  map, str_eq, leb, if◌then◌else◌, keep_if, any_of, length,
}
use Prim.Native.Nat.{max}
use rag_agent_chatbot.Storage.Messages.{Message, Row, row_of}

pub record Conversation : Type 0 where
  pub chat_id : String
  pub user_id : String
  pub message_count : ℕ
  pub updated_at : ℕ

pub record Metadata : Type 0 where
  pub chat_id : String
  pub user_id : String
  pub name : String
  pub created_at : ℕ

-- A row of `document_sources`; legacy rows have no user.
pub record Source : Type 0 where
  pub source_name : String
  pub user_id : Option String
  pub visibility : String
  pub file_path : Option String
  pub task_id : Option String
  pub chunk_count : ℕ
  pub created_at : ℕ

pub record Preferences : Type 0 where
  pub user_id : String
  pub selected_sources : List String
  pub current_chat_id : Option String

pub record Tables : Type 0 where
  pub conversations : List Conversation
  pub messages : List Row
  pub metadata : List Metadata
  pub sources : List Source
  pub preferences : List Preferences

-- `ORDER BY position ASC`
unfoldable pub insert_row : Row → List Row → List Row
insert_row r [] = r ∷ []
insert_row r (q ∷ rows) =
    let rest = insert_row r rows in if leb r.position q.position then r ∷ q ∷ rows else q ∷ rest

unfoldable pub sort_rows : List Row → List Row
unfolding insert_row
sort_rows [] = []
sort_rows (r ∷ rows) = insert_row r (sort_rows rows)

-- `ORDER BY <timestamp> DESC`
module _ {A : Type 0} (time : A → ℕ) where
  unfoldable pub insert_newest : A → List A → List A
  insert_newest a [] = a ∷ []
  insert_newest a (b ∷ l) =
      let rest = insert_newest a l in if leb (time b) (time a) then a ∷ b ∷ l else b ∷ rest

  unfoldable pub newest_first : List A → List A
  unfolding insert_newest
  newest_first [] = []
  newest_first (a ∷ l) = insert_newest a (newest_first l)

-- `WHERE user_id = $1 AND chat_id = $2`
abbrev pub owns_chat : String → String → Conversation → Bool
owns_chat user_id chat_id c = str_eq c.user_id user_id && str_eq c.chat_id chat_id

unfoldable pub conversation_exists : String → String → Tables → Bool
conversation_exists user_id chat_id t = any_of (owns_chat user_id chat_id) t.conversations

-- `SELECT user_id FROM conversations WHERE chat_id = $1`
unfoldable pub owner_in : String → List Conversation → Option String
owner_in chat_id [] = none
owner_in chat_id (c ∷ cs) = if str_eq c.chat_id chat_id then some c.user_id else owner_in chat_id cs

unfoldable pub owner_of : String → Tables → Option String
unfolding owner_in
owner_of chat_id t = owner_in chat_id t.conversations

-- `INSERT INTO conversations … ON CONFLICT (chat_id) DO NOTHING`
unfoldable pub insert_conversation : ℕ → String → String → Tables → Tables
insert_conversation now chat_id user_id t =
    if any_of (λ (c : Conversation). str_eq c.chat_id chat_id) t.conversations
    then t
    else record t {
      conversations =
          t.conversations
          ++ (record { chat_id = chat_id; user_id = user_id; message_count = 0; updated_at = now })
            ∷ [];
    }

unfoldable pub select_messages : String → String → Tables → List Row
unfolding sort_rows
select_messages user_id chat_id t =
    sort_rows
      (keep_if (λ (r : Row). str_eq r.user_id user_id && str_eq r.chat_id chat_id) t.messages)

-- `SELECT COALESCE(MAX(position), -1) + 1 FROM messages WHERE chat_id = $1`
unfoldable pub next_position_in : String → List Row → ℕ
next_position_in chat_id [] = 0
next_position_in chat_id (r ∷ rows) =
    let rest = next_position_in chat_id rows in
    if str_eq r.chat_id chat_id then max (r.position + 1) rest else rest

-- The rows of the new messages, from `next_pos` on.
unfoldable pub new_rows : String → String → ℕ → List Message → List Row
new_rows chat_id user_id next_pos [] = []
new_rows chat_id user_id next_pos (m ∷ ms) =
    row_of chat_id user_id next_pos m ∷ new_rows chat_id user_id (suc next_pos) ms

unfoldable pub count_messages : ℕ → String → ℕ → List Conversation → List Conversation
count_messages now chat_id added = map λ (c : Conversation).
    if str_eq c.chat_id chat_id
    then record c { message_count = c.message_count + added; updated_at = now }
    else c

-- The transaction of `append_messages_to_chat`, up to its early return: whether the chat is the
-- user's, and the tables after it.
unfoldable pub append_transaction : ℕ → String → String → List Message → Tables → Tables × Bool
unfolding insert_conversation owner_of next_position_in new_rows count_messages
append_transaction now user_id chat_id new_messages t =
    let t₁ = insert_conversation now chat_id user_id t in
    let next_pos = next_position_in chat_id t₁.messages in
    elim (owner_of chat_id t₁) [
      | none ↦ (t₁, false)
      | some owner ↦
          if str_eq owner user_id
          then (
            record t₁ {
              messages = t₁.messages ++ new_rows chat_id user_id next_pos new_messages;
              conversations = count_messages now chat_id (length new_messages) t₁.conversations;
            },
            true,
          )
          else (t₁, false)
    ]

-- `DELETE FROM conversations WHERE user_id = $1 AND chat_id = $2`, with the rows that reference the
-- chat: `ON DELETE CASCADE`.
unfoldable pub delete_chat : String → String → Tables → Tables × Bool
delete_chat user_id chat_id t =
    if any_of (owns_chat user_id chat_id) t.conversations
    then (
      record t {
        conversations =
            keep_if (λ (c : Conversation). not (owns_chat user_id chat_id c)) t.conversations;
        messages = keep_if (λ (r : Row). not (str_eq r.chat_id chat_id)) t.messages;
        metadata = keep_if (λ (m : Metadata). not (str_eq m.chat_id chat_id)) t.metadata;
      },
      true,
    )
    else (t, false)

unfoldable pub select_chats : String → Tables → List String
unfolding newest_first
select_chats user_id t =
    map (λ (c : Conversation). c.chat_id)
      (newest_first (λ (c : Conversation). c.updated_at)
        (keep_if (λ (c : Conversation). str_eq c.user_id user_id) t.conversations))

unfoldable pub metadata_in : String → String → List Metadata → Option Metadata
metadata_in user_id chat_id [] = none
metadata_in user_id chat_id (m ∷ ms) =
    if str_eq m.user_id user_id && str_eq m.chat_id chat_id
    then some m
    else metadata_in user_id chat_id ms

-- `INSERT INTO chat_metadata … ON CONFLICT (chat_id) DO UPDATE … WHERE user_id = EXCLUDED.user_id`
unfoldable pub upsert_metadata : Metadata → List Metadata → List Metadata
upsert_metadata new [] = new ∷ []
upsert_metadata new (m ∷ ms) =
    let rest = upsert_metadata new ms in
    if str_eq m.chat_id new.chat_id
    then (if str_eq m.user_id new.user_id then record m { name = new.name } else m) ∷ ms
    else m ∷ rest

-- `COALESCE(EXCLUDED.x, document_sources.x)`
abbrev pub coalesce : Option String → Option String → Option String
coalesce (some a) old = some a
coalesce none old = old

-- `INSERT INTO document_sources … ON CONFLICT (source_name) DO UPDATE`
unfoldable pub upsert_source : Source → List Source → List Source
upsert_source new [] = new ∷ []
upsert_source new (s ∷ ss) =
    let rest = upsert_source new ss in
    if str_eq s.source_name new.source_name
    then (record s {
      user_id = new.user_id;
      visibility = new.visibility;
      file_path = coalesce new.file_path s.file_path;
      task_id = coalesce new.task_id s.task_id;
      chunk_count = new.chunk_count;
    })
      ∷ ss
    else s ∷ rest

-- `user_id = $1`: NULL is equal to nothing.
abbrev pub owned_by : String → Source → Bool
owned_by user_id s = elim s.user_id [ none ↦ false | some owner ↦ str_eq owner user_id ]

-- `WHERE visibility = 'public' OR user_id = $1`
abbrev pub visible_to : String → Source → Bool
visible_to user_id s = str_eq s.visibility "public" || owned_by user_id s

unfoldable pub select_sources : String → Tables → List Source
unfolding newest_first
select_sources user_id t =
    newest_first (λ (s : Source). s.created_at) (keep_if (visible_to user_id) t.sources)

abbrev pub is_source_of : String → String → Source → Bool
is_source_of source_name user_id s = str_eq s.source_name source_name && owned_by user_id s

unfoldable pub delete_source_row : String → String → Tables → Tables × Bool
delete_source_row source_name user_id t = (
  record t {
    sources = keep_if (λ (s : Source). not (is_source_of source_name user_id s)) t.sources;
  },
  any_of (is_source_of source_name user_id) t.sources,
)

unfoldable pub source_visible : String → String → Tables → Bool
source_visible source_name user_id t =
    any_of (λ (s : Source). str_eq s.source_name source_name && visible_to user_id s) t.sources

unfoldable pub preferences_in : String → List Preferences → Option Preferences
preferences_in user_id [] = none
preferences_in user_id (p ∷ ps) =
    if str_eq p.user_id user_id then some p else preferences_in user_id ps

-- `INSERT INTO user_preferences … ON CONFLICT (user_id) DO UPDATE SET selected_sources = …`
unfoldable pub upsert_selected : String → List String → List Preferences → List Preferences
upsert_selected user_id selected [] =
    (record { user_id = user_id; selected_sources = selected; current_chat_id = none }) ∷ []
upsert_selected user_id selected (p ∷ ps) =
    let rest = upsert_selected user_id selected ps in
    if str_eq p.user_id user_id then (record p { selected_sources = selected }) ∷ ps else p ∷ rest

-- The same statement for `current_chat_id`; `selected_sources` is `[]` by default.
unfoldable pub upsert_current_chat : String → Option String → List Preferences → List Preferences
upsert_current_chat user_id chat_id [] =
    (record { user_id = user_id; selected_sources = []; current_chat_id = chat_id }) ∷ []
upsert_current_chat user_id chat_id (p ∷ ps) =
    let rest = upsert_current_chat user_id chat_id ps in
    if str_eq p.user_id user_id then (record p { current_chat_id = chat_id }) ∷ ps else p ∷ rest
