-- ===== src/Storage/Sql/Appends.antt =====
-- `append_messages_to_chat` of assets/backend/postgres_storage.py on the tables: its transaction spares
-- the other users.
use rag_agent_chatbot.Prelude.{
  ℕ, suc, ◌+◌, String, ◌≡◌, ◌≢◌, refl, ap, sym, ◌∙◌, Bool, true, false, Option, none, some, List,
  [], ◌∷◌, ◌++◌, All, append-nil, keep_if, str_eq, eq_iff, if◌then◌else◌, All-imp, All-append,
  keep_if-append, keep_if_none, length,
}
use rag_agent_chatbot.Storage.Messages.{Message, Row, row_of}
use rag_agent_chatbot.Storage.Sql.{
  Conversation, Tables, owner_in, owner_of, insert_conversation, next_position_in, new_rows,
  count_messages, append_transaction,
}
use rag_agent_chatbot.Storage.Sql.Owners.{
  OwnedConversation, OwnedRow, Spares, Spares-trans, other_user, insert_conversation-Spares,
  messages_of, Spares-refl, SparesBy,
}

module _ (now : ℕ) (changed : String) (added : ℕ) where
  abbrev counted : Conversation → Conversation
  counted c =
      if str_eq c.chat_id changed
      then record c { message_count = c.message_count + added; updated_at = now }
      else c

  owner_in-count_messages :
      (chat_id : String) (cs : List Conversation)
      → owner_in chat_id (count_messages now changed added cs) ≡ owner_in chat_id cs
  unfolding owner_in count_messages
  owner_in-count_messages chat_id [] = refl
  owner_in-count_messages chat_id (c ∷ cs) =
      cases (str_eq c.chat_id changed) (owner_in-count_messages chat_id cs)
    where
      cases :
          (b : Bool)
          → owner_in chat_id (count_messages now changed added cs) ≡ owner_in chat_id cs
          → owner_in chat_id (
              (if b
                then record c { message_count = c.message_count + added; updated_at = now }
                else c)
              ∷ count_messages now changed added cs)
            ≡ owner_in chat_id (c ∷ cs)
      cases true h = ap (λ o. if str_eq c.chat_id chat_id then some c.user_id else o) h
      cases false h = ap (λ o. if str_eq c.chat_id chat_id then some c.user_id else o) h

  All-count_messages :
      (ds cs : List Conversation)
      → All (OwnedConversation ds) cs
      → All (OwnedConversation ds) (count_messages now changed added cs)
  unfolding count_messages
  All-count_messages ds [] h = tt
  All-count_messages ds (c ∷ cs) (h, hs) =
      (cases (str_eq c.chat_id changed), All-count_messages ds cs hs)
    where
      cases :
          (b : Bool)
          → OwnedConversation ds (
              if b
              then record c { message_count = c.message_count + added; updated_at = now }
              else c)
      cases true = h
      cases false = h

  keep_if-count_messages :
      (v : String) (cs : List Conversation)
      → All (λ (c : Conversation). str_eq c.chat_id changed ≡ true → str_eq c.user_id v ≡ false) cs
      → keep_if (λ (c : Conversation). str_eq c.user_id v) (count_messages now changed added cs)
        ≡ keep_if (λ (c : Conversation). str_eq c.user_id v) cs
  unfolding count_messages
  keep_if-count_messages v [] h = refl
  keep_if-count_messages v (c ∷ cs) (h, hs) =
      cases (str_eq c.chat_id changed) (str_eq c.user_id v) refl h (keep_if-count_messages v cs hs)
    where
      kept : List Conversation → List Conversation
      kept = keep_if (λ (d : Conversation). str_eq d.user_id v)

      cases :
          (b k : Bool)
          → str_eq c.user_id v ≡ k
          → (b ≡ true → k ≡ false)
          → kept (count_messages now changed added cs) ≡ kept cs
          → kept (
              (if b
                then record c { message_count = c.message_count + added; updated_at = now }
                else c)
              ∷ count_messages now changed added cs)
            ≡ (if k then c ∷ kept cs else kept cs)
      cases true true e g rest = absurd (cc (g refl))
      cases true false e g rest = rw e rest
      cases false true e g rest = rw e (ap (◌∷◌ c) rest)
      cases false false e g rest = rw e rest

new_rows-owned :
    (cs : List Conversation) (chat_id user_id : String) (n : ℕ) (ms : List Message)
    → owner_in chat_id cs ≡ some user_id
    → All (OwnedRow cs) (new_rows chat_id user_id n ms)
unfolding new_rows row_of
new_rows-owned cs chat_id user_id n [] h = tt
new_rows-owned cs chat_id user_id n (m ∷ ms) h = (h, new_rows-owned cs chat_id user_id (suc n) ms h)

new_rows-of :
    (v chat_id user_id : String) (n : ℕ) (ms : List Message)
    → str_eq user_id v ≡ false
    → All (λ (r : Row). str_eq r.user_id v ≡ false) (new_rows chat_id user_id n ms)
unfolding new_rows row_of
new_rows-of v chat_id user_id n [] h = tt
new_rows-of v chat_id user_id n (m ∷ ms) h = (h, new_rows-of v chat_id user_id (suc n) ms h)

-- The rows that go in for the owner of a chat.
abbrev pub appended : ℕ → String → String → List Message → Tables → Tables
appended now user_id chat_id ms t = record t {
  messages = t.messages ++ new_rows chat_id user_id (next_position_in chat_id t.messages) ms;
  conversations = count_messages now chat_id (length ms) t.conversations;
}

appended-Spares :
    (v : String) (now : ℕ) (user_id chat_id : String) (ms : List Message) (t : Tables)
    → user_id ≢ v
    → owner_in chat_id t.conversations ≡ some user_id
    → Spares v t (appended now user_id chat_id ms t)
appended-Spares v now user_id chat_id ms t n o i =
    let k = length ms in
    let cs = t.conversations in
    let rows = new_rows chat_id user_id (next_position_in chat_id t.messages) ms in
    (
      record {
        conversations_owned =
            All-imp _ _ (count_messages now chat_id k cs)
              (λ c h. owner_in-count_messages now chat_id k c.chat_id cs ∙ h)
              (All-count_messages now chat_id k cs cs i.conversations_owned);
        messages_owned =
            All-imp _ _ (t.messages ++ rows)
              (λ r h. owner_in-count_messages now chat_id k r.chat_id cs ∙ h)
              (All-append _ t.messages rows i.messages_owned
                (new_rows-owned cs chat_id user_id _ ms o));
        metadata_owned =
            All-imp _ _ t.metadata (λ m h. owner_in-count_messages now chat_id k m.chat_id cs ∙ h)
              i.metadata_owned;
      },
      record {
        same_chats = keep_if-count_messages now chat_id k v cs (
            All-imp _ _ cs
              (λ c h e.
                let same : some c.user_id ≡ some user_id =
                  sym h ∙ ap (λ x. owner_in x cs) ((eq_iff c.chat_id chat_id).0 e) ∙ o in
                let user : c.user_id ≡ user_id = (cc) in other_user c.user_id user_id v user n)
              i.conversations_owned);
        same_messages =
            keep_if-append _ t.messages rows
            ∙ ap (λ l. messages_of v t ++ l)
                (keep_if_none (λ (r : Row). str_eq r.user_id v) rows
                  (new_rows-of v chat_id user_id _ ms (other_user user_id user_id v refl n)))
            ∙ append-nil (messages_of v t);
        same_metadata = refl;
        same_preferences = refl;
      },
    )

-- What follows the insertion, by the answer of the owner's query.
appended-Spares_if :
    (v : String) (now : ℕ) (user_id chat_id owner : String) (ms : List Message) (t : Tables)
    (b : Bool)
    → user_id ≢ v
    → owner_in chat_id t.conversations ≡ some owner
    → str_eq owner user_id ≡ b
    → SparesBy v t (if b then (appended now user_id chat_id ms t, true) else (t, false))
appended-Spares_if v now user_id chat_id owner ms t true n o e =
    appended-Spares v now user_id chat_id ms t n (o ∙ ap some ((eq_iff owner user_id).0 e))
appended-Spares_if v now user_id chat_id owner ms t false n o e = Spares-refl v t

pub append_transaction-Spares :
    (v : String) (now : ℕ) (user_id chat_id : String) (ms : List Message) (t : Tables)
    → user_id ≢ v
    → Spares v t (append_transaction now user_id chat_id ms t).0
unfolding append_transaction owner_of
append_transaction-Spares v now user_id chat_id ms t n =
    cases (owner_in chat_id t₁.conversations) refl
  where
    t₁ : Tables
    t₁ = insert_conversation now chat_id user_id t

    cases :
        (o : Option String)
        → owner_in chat_id t₁.conversations ≡ o
        → SparesBy v t (elim o [
          | none ↦ (t₁, false)
          | some owner ↦
              if str_eq owner user_id
              then (appended now user_id chat_id ms t₁, true)
              else (t₁, false)
        ])
    cases none e = insert_conversation-Spares v now chat_id user_id t n
    cases (some owner) e =
        Spares-trans v t t₁ _ (insert_conversation-Spares v now chat_id user_id t n)
          (appended-Spares_if v now user_id chat_id owner ms t₁ (str_eq owner user_id) n e refl)
