-- ===== src/Storage/Sql/Owners.antt =====
-- The owners of the chats in the tables of assets/backend/postgres_storage.py: an invariant, and
-- that a statement of one user leaves the rows of every other user as they are.
use rag_agent_chatbot.Prelude.{
  ℕ, String, ◌≡◌, ◌≢◌, refl, ap, sym, ◌∙◌, Bool, true, false, some, List, [], ◌∷◌, ◌++◌, arith, All,
  append-nil, keep_if, any_of, str_eq, eq_iff, eq_refl, if◌then◌else◌, Bool-cases, inl, inr,
  All-imp, All-append, keep_if-append, keep_if_none,
}
use rag_agent_chatbot.Storage.Messages.{Row}
use rag_agent_chatbot.Storage.Sql.{
  Conversation, Metadata, Tables, owner_in, insert_conversation, preferences_in,
}

-- Each row that names a chat and a user names the owner of that chat.
abbrev pub OwnedConversation : List Conversation → Conversation → Type 0
OwnedConversation cs c = owner_in c.chat_id cs ≡ some c.user_id

abbrev pub OwnedRow : List Conversation → Row → Type 0
OwnedRow cs r = owner_in r.chat_id cs ≡ some r.user_id

abbrev pub OwnedMetadata : List Conversation → Metadata → Type 0
OwnedMetadata cs m = owner_in m.chat_id cs ≡ some m.user_id

pub record IsConsistent (t : Tables) : Type 0 where
  pub conversations_owned : All (OwnedConversation t.conversations) t.conversations
  pub messages_owned : All (OwnedRow t.conversations) t.messages
  pub metadata_owned : All (OwnedMetadata t.conversations) t.metadata

-- The rows of a user.
abbrev pub chats_of : String → Tables → List Conversation
chats_of user_id t = keep_if (λ (c : Conversation). str_eq c.user_id user_id) t.conversations

abbrev pub messages_of : String → Tables → List Row
messages_of user_id t = keep_if (λ (r : Row). str_eq r.user_id user_id) t.messages

abbrev pub metadata_of : String → Tables → List Metadata
metadata_of user_id t = keep_if (λ (m : Metadata). str_eq m.user_id user_id) t.metadata

pub record IsSame (user_id : String) (t t' : Tables) : Type 0 where
  pub same_chats : chats_of user_id t' ≡ chats_of user_id t
  pub same_messages : messages_of user_id t' ≡ messages_of user_id t
  pub same_metadata : metadata_of user_id t' ≡ metadata_of user_id t
  pub same_preferences :
      preferences_in user_id t'.preferences ≡ preferences_in user_id t.preferences

-- The tables stay consistent, and the rows of the user stay.
abbrev pub Spares : String → Tables → Tables → Type 0
Spares user_id t t' = IsConsistent t → IsConsistent t' × IsSame user_id t t'

-- The same of a transaction's result.
abbrev pub SparesBy : String → Tables → Tables × Bool → Type 0
SparesBy user_id t r = Spares user_id t r.0

pub Spares-refl : (v : String) (t : Tables) → Spares v t t
Spares-refl v t i = (
  i,
  record { same_chats = refl; same_messages = refl; same_metadata = refl; same_preferences = refl },
)

pub Spares-trans : (v : String) (t u w : Tables) → Spares v t u → Spares v u w → Spares v t w
Spares-trans v t u w f g i =
    let (j, a) = f i in
    let (k, b) = g j in
    (
      k,
      record {
        same_chats = b.same_chats ∙ a.same_chats;
        same_messages = b.same_messages ∙ a.same_messages;
        same_metadata = b.same_metadata ∙ a.same_metadata;
        same_preferences = b.same_preferences ∙ a.same_preferences;
      },
    )

-- Two users with one chat are one.
pub other_user : (a u v : String) → a ≡ u → u ≢ v → str_eq a v ≡ false
other_user a u v e n = elim (Bool-cases (str_eq a v)) [
  | inl h ↦ absurd (n (sym e ∙ (eq_iff a v).0 h))
  | inr h ↦ h
]

pub owner_in-append :
    (chat_id owner : String) (cs ds : List Conversation)
    → owner_in chat_id cs ≡ some owner
    → owner_in chat_id (cs ++ ds) ≡ some owner
unfolding owner_in
owner_in-append chat_id owner [] ds h = absurd (cc)
owner_in-append chat_id owner (c ∷ cs) ds h = ground (arith, owner_in-append chat_id owner cs ds)

-- The owner of a chat that was not there.
owner_in-concat :
    (c : Conversation) (cs : List Conversation)
    → any_of (λ (d : Conversation). str_eq d.chat_id c.chat_id) cs ≡ false
    → owner_in c.chat_id (cs ++ c ∷ []) ≡ some c.user_id
unfolding owner_in
owner_in-concat c [] h = rw (eq_refl c.chat_id) refl
owner_in-concat c (d ∷ cs) h = ground (arith, owner_in-concat c cs)

pub IsConsistent-concat :
    (c : Conversation) (t : Tables)
    → any_of (λ (d : Conversation). str_eq d.chat_id c.chat_id) t.conversations ≡ false
    → IsConsistent t
    → IsConsistent (record t { conversations = t.conversations ++ c ∷ [] })
IsConsistent-concat c t h i = record {
  conversations_owned =
      All-append _ t.conversations (c ∷ [])
        (All-imp _ _ t.conversations (λ d. owner_in-append d.chat_id d.user_id t.conversations _)
          i.conversations_owned)
        (owner_in-concat c t.conversations h, tt);
  messages_owned =
      All-imp _ _ t.messages (λ r. owner_in-append r.chat_id r.user_id t.conversations _)
        i.messages_owned;
  metadata_owned =
      All-imp _ _ t.metadata (λ m. owner_in-append m.chat_id m.user_id t.conversations _)
        i.metadata_owned;
}

pub insert_conversation-Spares :
    (v : String) (now : ℕ) (chat_id user_id : String) (t : Tables)
    → user_id ≢ v
    → Spares v t (insert_conversation now chat_id user_id t)
unfolding insert_conversation
insert_conversation-Spares v now chat_id user_id t n =
    cases (any_of (λ (c : Conversation). str_eq c.chat_id chat_id) t.conversations) refl
  where
    new : Conversation
    new = record { chat_id = chat_id; user_id = user_id; message_count = 0; updated_at = now }

    cases :
        (b : Bool)
        → any_of (λ (c : Conversation). str_eq c.chat_id chat_id) t.conversations ≡ b
        → Spares v t (if b then t else record t { conversations = t.conversations ++ new ∷ [] })
    cases true e = Spares-refl v t
    cases false e = λ i. (
      IsConsistent-concat new t e i,
      record {
        same_chats =
            keep_if-append _ t.conversations (new ∷ [])
            ∙ ap (λ l. chats_of v t ++ l)
                (keep_if_none (λ (c : Conversation). str_eq c.user_id v) (new ∷ [])
                  (other_user user_id user_id v refl n, tt))
            ∙ append-nil (chats_of v t);
        same_messages = refl;
        same_metadata = refl;
        same_preferences = refl;
      },
    )
