-- ===== src/Storage/Sql/Histories.antt =====
-- The messages of a chat in the tables of assets/backend/postgres_storage.py: an append puts its rows
-- behind those that `ORDER BY position` returns.
use rag_agent_chatbot.Prelude.{
  ℕ, suc, ◌+◌, ◌≤◌, ◌<◌, String, ◌≡◌, refl, ap, ◌∙◌, any_of, arith, Bool, true, false, ◌&&◌, Option,
  none, some, List, [], ◌∷◌, ◌++◌, All, keep_if, keep_if-append, str_eq, if◌then◌else◌, map,
  map-append,
}
use Prim.Native.Nat.{max}
use text.Mathlib.TextPositions.{eq_refl}
use rag_agent_chatbot.Storage.Messages.{
  Message, Row, row_of, row_to_message, restored, row_to_message-row_of,
}
use rag_agent_chatbot.Storage.Sql.{
  Conversation, Tables, owner_in, owner_of, insert_conversation, next_position_in, new_rows,
  append_transaction, insert_row, sort_rows, select_messages,
}
use rag_agent_chatbot.Storage.Sql.Appends.{appended}

-- Positions that do not decrease, none under a bound.
abbrev Ascends : ℕ → List Row → Type 0
Ascends low [] = Unit
Ascends low (r ∷ rows) = (low ≤ r.position) × Ascends r.position rows

abbrev AllUnder : ℕ → List Row → Type 0
AllUnder high rows = All (λ (r : Row). r.position < high) rows

new_rows-Ascends :
    (chat_id user_id : String) (low n : ℕ) (ms : List Message)
    → low ≤ n
    → Ascends low (new_rows chat_id user_id n ms)
unfolding new_rows row_of
new_rows-Ascends chat_id user_id low n [] h = tt
new_rows-Ascends chat_id user_id low n (m ∷ ms) h =
    (h, new_rows-Ascends chat_id user_id n (suc n) ms (omega arith))

insert_row-Ascends :
    (r : Row) (rows : List Row) → Ascends r.position rows → insert_row r rows ≡ r ∷ rows
unfolding insert_row
insert_row-Ascends r [] h = refl
insert_row-Ascends r (q ∷ rows) (h, _) = ground arith

sort_rows-Ascends : (low : ℕ) (rows : List Row) → Ascends low rows → sort_rows rows ≡ rows
unfolding sort_rows
sort_rows-Ascends low [] h = refl
sort_rows-Ascends low (r ∷ rows) (_, h) =
    rw (sort_rows-Ascends r.position rows h) (insert_row-Ascends r rows h)

insert_row-append :
    (r : Row) (high : ℕ) (rows new : List Row)
    → r.position < high
    → Ascends high new
    → insert_row r (rows ++ new) ≡ insert_row r rows ++ new
unfolding insert_row
insert_row-append r high [] [] h k = refl
insert_row-append r high [] (q ∷ new) h (k, _) = ground arith
insert_row-append r high (q ∷ rows) new h k = ground (arith, insert_row-append r high rows new h k)

sort_rows-append :
    (high : ℕ) (rows new : List Row)
    → AllUnder high rows
    → Ascends high new
    → sort_rows (rows ++ new) ≡ sort_rows rows ++ new
unfolding sort_rows
sort_rows-append high [] new h k = sort_rows-Ascends high new k
sort_rows-append high (r ∷ rows) new (h, hs) k =
    ap (insert_row r) (sort_rows-append high rows new hs k)
    ∙ insert_row-append r high (sort_rows rows) new h k

-- The rows of a user's chat stand under the next position of the chat.
kept-AllUnder :
    (user_id chat_id : String) (high : ℕ) (rows : List Row)
    → next_position_in chat_id rows ≤ high
    → AllUnder high
        (keep_if (λ (r : Row). str_eq r.user_id user_id && str_eq r.chat_id chat_id) rows)
unfolding next_position_in
kept-AllUnder user_id chat_id high [] h = tt
kept-AllUnder user_id chat_id high (r ∷ rows) h =
    go (str_eq r.user_id user_id) (str_eq r.chat_id chat_id) h
      (kept-AllUnder user_id chat_id high rows)
  where
    go :
        (b b' : Bool)
        → (if b'
            then max (r.position + 1) (next_position_in chat_id rows)
            else next_position_in chat_id rows)
          ≤ high
        → (next_position_in chat_id rows ≤ high
            → AllUnder high
                (keep_if (λ (r : Row). str_eq r.user_id user_id && str_eq r.chat_id chat_id) rows))
        → AllUnder high (
            if b && b'
            then r
              ∷ keep_if (λ (r : Row). str_eq r.user_id user_id && str_eq r.chat_id chat_id) rows
            else keep_if (λ (r : Row). str_eq r.user_id user_id && str_eq r.chat_id chat_id) rows)
    go true true k ih = (omega arith, ih (omega arith))
    go true false k ih = ih k
    go false true k ih = ih (omega arith)
    go false false k ih = ih k

new_rows-kept :
    (user_id chat_id : String) (n : ℕ) (ms : List Message)
    → keep_if
        (λ (r : Row). str_eq r.user_id user_id && str_eq r.chat_id chat_id)
        (new_rows chat_id user_id n ms)
      ≡ new_rows chat_id user_id n ms
unfolding new_rows row_of
new_rows-kept user_id chat_id n [] = refl
new_rows-kept user_id chat_id n (m ∷ ms) =
    rw (eq_refl user_id, eq_refl chat_id)
      (ap (λ rs. row_of chat_id user_id n m ∷ rs) (new_rows-kept user_id chat_id (suc n) ms))

select_messages-appended :
    (now : ℕ) (user_id chat_id : String) (ms : List Message) (t : Tables)
    → select_messages user_id chat_id (appended now user_id chat_id ms t)
      ≡ select_messages user_id chat_id t
        ++ new_rows chat_id user_id (next_position_in chat_id t.messages) ms
unfolding select_messages
select_messages-appended now user_id chat_id ms t =
    let n = next_position_in chat_id t.messages in
    ap sort_rows (
      keep_if-append (λ (r : Row). str_eq r.user_id user_id && str_eq r.chat_id chat_id) t.messages
        (new_rows chat_id user_id n ms))
    ∙ ap
        (λ l. sort_rows (
          keep_if (λ (r : Row). str_eq r.user_id user_id && str_eq r.chat_id chat_id) t.messages
          ++ l))
        (new_rows-kept user_id chat_id n ms)
    ∙ sort_rows-append n _ (new_rows chat_id user_id n ms)
        (kept-AllUnder user_id chat_id n t.messages (omega arith))
        (new_rows-Ascends chat_id user_id n n ms (omega arith))

-- The messages of a user's chat, as the database has them.
unfoldable pub history : String → String → Tables → List Message
history user_id chat_id t = map row_to_message (select_messages user_id chat_id t)

-- The messages come back from a row as they were.
abbrev pub Restores : List Message → Type 0
Restores ms = All (λ m. restored m ≡ m) ms

messages_of_new_rows :
    (chat_id user_id : String) (n : ℕ) (ms : List Message)
    → Restores ms
    → map row_to_message (new_rows chat_id user_id n ms) ≡ ms
unfolding new_rows
messages_of_new_rows chat_id user_id n [] h = refl
messages_of_new_rows chat_id user_id n (m ∷ ms) (e, h) =
    rw (row_to_message-row_of chat_id user_id n m, e)
      (ap (λ l. m ∷ l) (messages_of_new_rows chat_id user_id (suc n) ms h))

history-insert_conversation :
    (now : ℕ) (chat_id user_id : String) (t : Tables)
    → history user_id chat_id (insert_conversation now chat_id user_id t)
      ≡ history user_id chat_id t
unfolding history select_messages insert_conversation
history-insert_conversation now chat_id user_id t =
    go (any_of (λ (c : Conversation). str_eq c.chat_id chat_id) t.conversations)
  where
    new : Conversation
    new = record { chat_id = chat_id; user_id = user_id; message_count = 0; updated_at = now }

    go :
        (b : Bool)
        → history user_id chat_id
            (if b then t else record t { conversations = t.conversations ++ new ∷ [] })
          ≡ history user_id chat_id t
    go true = refl
    go false = refl

history-appended :
    (now : ℕ) (user_id chat_id : String) (ms : List Message) (t : Tables)
    → Restores ms
    → history user_id chat_id (appended now user_id chat_id ms t) ≡ history user_id chat_id t ++ ms
unfolding history
history-appended now user_id chat_id ms t h =
    ap (map row_to_message) (select_messages-appended now user_id chat_id ms t)
    ∙ map-append row_to_message (select_messages user_id chat_id t) _
    ∙ ap (λ l. map row_to_message (select_messages user_id chat_id t) ++ l)
        (messages_of_new_rows chat_id user_id _ ms h)

-- Where the chat is the user's, its history becomes longer by the messages; where it is not, the
-- history stays.
abbrev pub Extends : String → String → List Message → Tables → Tables × Bool → Type 0
Extends user_id chat_id ms t (t', owned) =
    history user_id chat_id t'
    ≡ (if owned then history user_id chat_id t ++ ms else history user_id chat_id t)

pub append_transaction-Extends :
    (now : ℕ) (user_id chat_id : String) (ms : List Message) (t : Tables)
    → Restores ms
    → Extends user_id chat_id ms t (append_transaction now user_id chat_id ms t)
unfolding append_transaction owner_of
append_transaction-Extends now user_id chat_id ms t h = cases (owner_in chat_id t₁.conversations)
  where
    t₁ : Tables
    t₁ = insert_conversation now chat_id user_id t

    same : history user_id chat_id t₁ ≡ history user_id chat_id t
    same = history-insert_conversation now chat_id user_id t

    split :
        (b : Bool)
        → Extends user_id chat_id ms t
            (if b then (appended now user_id chat_id ms t₁, true) else (t₁, false))
    split true = history-appended now user_id chat_id ms t₁ h ∙ ap (λ l. l ++ ms) same
    split false = same

    cases :
        (o : Option String)
        → Extends user_id chat_id ms t (elim o [
          | none ↦ (t₁, false)
          | some owner ↦
              if str_eq owner user_id
              then (appended now user_id chat_id ms t₁, true)
              else (t₁, false)
        ])
    cases none = same
    cases (some owner) = split (str_eq owner user_id)
