-- ===== src/Storage/Sql/Removals.antt =====
-- The deletion of a chat and the writing of its name in assets/backend/postgres_storage.py, on the
-- tables: they spare the other users.
use rag_agent_chatbot.Prelude.{
  String, ◌≡◌, ◌≢◌, refl, ap, sym, ◌∙◌, Bool, true, false, not, some, List, [], ◌∷◌, arith, All,
  keep_if, any_of, str_eq, eq_iff, if◌then◌else◌, Bool-cases, inl, inr, All-imp, All-kept,
  keep_if-keep_if,
}
use mathlib.Core.Bool.{false≢true}
use rag_agent_chatbot.Storage.Messages.{Row}
use rag_agent_chatbot.Storage.Sql.{Conversation, Metadata, Tables, owns_chat, owner_in, delete_chat}
use rag_agent_chatbot.Storage.Sql.Owners.{
  OwnedConversation, IsConsistent, IsSame, Spares, Spares-refl, SparesBy,
}

-- A chat that the user has is owned by the user.
pub owner_of_exists :
    (user_id chat_id : String) (ds cs : List Conversation)
    → All (OwnedConversation ds) cs
    → any_of (owns_chat user_id chat_id) cs ≡ true
    → owner_in chat_id ds ≡ some user_id
owner_of_exists user_id chat_id ds [] h e = absurd (cc)
owner_of_exists user_id chat_id ds (c ∷ cs) (h, hs) e =
    elim (Bool-cases (owns_chat user_id chat_id c)) [
      | inl f ↦
          let user : c.user_id ≡ user_id = (eq_iff c.user_id user_id).0 (ground arith) in
          let chat : c.chat_id ≡ chat_id = (eq_iff c.chat_id chat_id).0 (ground arith) in
          ap (λ x. owner_in x ds) (sym chat) ∙ h ∙ ap some user
      | inr f ↦ owner_of_exists user_id chat_id ds cs hs (ground arith)
    ]

owner_in-keep_if :
    (user_id chat_id x : String) (cs : List Conversation)
    → str_eq x chat_id ≡ false
    → owner_in x (keep_if (λ (c : Conversation). not (owns_chat user_id chat_id c)) cs)
      ≡ owner_in x cs
unfolding owner_in
owner_in-keep_if user_id chat_id x [] h = refl
owner_in-keep_if user_id chat_id x (c ∷ cs) h =
    cases (owns_chat user_id chat_id c) (str_eq c.chat_id x) refl refl
      (owner_in-keep_if user_id chat_id x cs h)
  where
    kept : List Conversation
    kept = keep_if (λ (d : Conversation). not (owns_chat user_id chat_id d)) cs

    cases :
        (a b : Bool)
        → owns_chat user_id chat_id c ≡ a
        → str_eq c.chat_id x ≡ b
        → owner_in x kept ≡ owner_in x cs
        → owner_in x (if not a then c ∷ kept else kept)
          ≡ (if b then some c.user_id else owner_in x cs)
    cases true true e f rest =
        let chat : c.chat_id ≡ chat_id = (eq_iff c.chat_id chat_id).0 (ground arith) in
        absurd (
          false≢true (
            sym h
            ∙ ap (λ z. str_eq z chat_id) (sym ((eq_iff c.chat_id x).0 f))
            ∙ (eq_iff c.chat_id chat_id).1 chat))
    cases true false e f rest = rest
    cases false true e f rest = rw f refl
    cases false false e f rest = rw f rest

-- Rows of the chat are the user's, where the user owns it.
same_owner :
    (a b : String) (cs : List Conversation) (user_id owner : String)
    → owner_in a cs ≡ some owner
    → owner_in b cs ≡ some user_id
    → str_eq a b ≡ true
    → owner ≡ user_id
same_owner a b cs user_id owner h o e =
    let same : some owner ≡ some user_id = sym h ∙ ap (λ x. owner_in x cs) ((eq_iff a b).0 e) ∙ o in
    (cc)

abbrev IsSparedBy : String → Tables → Tables × Bool → Type 0
IsSparedBy v t r = IsConsistent r.0 × IsSame v t r.0

-- The tables without a chat.
abbrev without_chat : String → String → Tables → Tables
without_chat user_id chat_id t = record t {
  conversations = keep_if (λ (c : Conversation). not (owns_chat user_id chat_id c)) t.conversations;
  messages = keep_if (λ (r : Row). not (str_eq r.chat_id chat_id)) t.messages;
  metadata = keep_if (λ (m : Metadata). not (str_eq m.chat_id chat_id)) t.metadata;
}

-- A conversation that stays is of another chat, since the chat has one owner.
stays_owned :
    (user_id chat_id : String) (cs : List Conversation) (c : Conversation)
    → owner_in chat_id cs ≡ some user_id
    → owner_in c.chat_id cs ≡ some c.user_id
    → not (owns_chat user_id chat_id c) ≡ true
    → str_eq c.chat_id chat_id ≡ false
stays_owned user_id chat_id cs c o h e = elim (Bool-cases (str_eq c.chat_id chat_id)) [
  | inl f ↦
      let user : str_eq c.user_id user_id ≡ true =
        (eq_iff c.user_id user_id).1 (same_owner c.chat_id chat_id cs user_id c.user_id h o f) in
      absurd (ground arith)
  | inr f ↦ f
]

without_chat-Spares :
    (v user_id chat_id : String) (t : Tables)
    → user_id ≢ v
    → owner_in chat_id t.conversations ≡ some user_id
    → Spares v t (without_chat user_id chat_id t)
without_chat-Spares v user_id chat_id t n o i =
    let cs = t.conversations in
    (
      record {
        conversations_owned =
            All-kept _ _ (λ (c : Conversation). not (owns_chat user_id chat_id c)) cs
              (λ c h e.
                owner_in-keep_if user_id chat_id c.chat_id cs
                  (stays_owned user_id chat_id cs c o h e)
                ∙ h)
              i.conversations_owned;
        messages_owned =
            All-kept _ _ (λ (r : Row). not (str_eq r.chat_id chat_id)) t.messages
              (λ r h e. owner_in-keep_if user_id chat_id r.chat_id cs (ground arith) ∙ h)
              i.messages_owned;
        metadata_owned =
            All-kept _ _ (λ (m : Metadata). not (str_eq m.chat_id chat_id)) t.metadata
              (λ m h e. owner_in-keep_if user_id chat_id m.chat_id cs (ground arith) ∙ h)
              i.metadata_owned;
      },
      record {
        same_chats = keep_if-keep_if _ _ cs (
            All-imp _ _ cs
              (λ c h e. elim (Bool-cases (str_eq c.user_id user_id)) [
                | inl f ↦
                    absurd (n (sym ((eq_iff c.user_id user_id).0 f) ∙ (eq_iff c.user_id v).0 e))
                | inr f ↦ ground arith
              ])
              i.conversations_owned);
        same_messages = keep_if-keep_if _ _ t.messages (
            All-imp _ _ t.messages
              (λ r h e. elim (Bool-cases (str_eq r.chat_id chat_id)) [
                | inl f ↦ absurd (
                    n (
                      sym (same_owner r.chat_id chat_id cs user_id r.user_id h o f)
                      ∙ (eq_iff r.user_id v).0 e))
                | inr f ↦ ground arith
              ])
              i.messages_owned);
        same_metadata = keep_if-keep_if _ _ t.metadata (
            All-imp _ _ t.metadata
              (λ m h e. elim (Bool-cases (str_eq m.chat_id chat_id)) [
                | inl f ↦ absurd (
                    n (
                      sym (same_owner m.chat_id chat_id cs user_id m.user_id h o f)
                      ∙ (eq_iff m.user_id v).0 e))
                | inr f ↦ ground arith
              ])
              i.metadata_owned);
        same_preferences = refl;
      },
    )

pub delete_chat-Spares :
    (v user_id chat_id : String) (t : Tables)
    → user_id ≢ v
    → SparesBy v t (delete_chat user_id chat_id t)
unfolding delete_chat
delete_chat-Spares v user_id chat_id t n i =
    cases (any_of (owns_chat user_id chat_id) t.conversations) refl
  where
    cases :
        (b : Bool)
        → any_of (owns_chat user_id chat_id) t.conversations ≡ b
        → IsSparedBy v t (if b then (without_chat user_id chat_id t, true) else (t, false))
    cases true e =
        without_chat-Spares v user_id chat_id t n
          (owner_of_exists user_id chat_id t.conversations t.conversations i.conversations_owned e)
          i
    cases false e = Spares-refl v t i
