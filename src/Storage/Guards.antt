-- ===== src/Storage/Guards.antt =====
-- What `PostgreSQLConversationStorage` (assets/backend/postgres_storage.py) refuses and swallows.
use rag_agent_chatbot.Prelude.{
  ◌++◌, ℕ, String, ◌≡◌, ◌≢◌, refl, ap, sym, ◌∙◌, Bool, true, false, Option, none, some, List, [],
  ◌∷◌, arith, any_of, str_eq, eq_iff, if◌then◌else◌, Bool-cases, inl, inr,
}
use rag_agent_chatbot.Storage.Messages.{Message}
use rag_agent_chatbot.Storage.Sql.{
  Conversation, Tables, owner_in, owner_of, insert_conversation, append_transaction,
}
use rag_agent_chatbot.Storage.Sql.Appends.{appended}
use rag_agent_chatbot.Storage.State.{L2Cache, Storage, Result}
use rag_agent_chatbot.Storage.Conversations.{delete_and_forget, or_false, delete_conversation}

chat_of_owner :
    (chat_id owner : String) (cs : List Conversation)
    → owner_in chat_id cs ≡ some owner
    → any_of (λ (c : Conversation). str_eq c.chat_id chat_id) cs ≡ true
unfolding owner_in
chat_of_owner chat_id owner [] h = absurd (cc)
chat_of_owner chat_id owner (c ∷ cs) h = elim (Bool-cases (str_eq c.chat_id chat_id)) [
  | inl e ↦ ground arith
  | inr e ↦ ground (arith, chat_of_owner chat_id owner cs (rw e at h))
]

insert_conversation-present :
    (now : ℕ) (chat_id user_id : String) (t : Tables)
    → any_of (λ (c : Conversation). str_eq c.chat_id chat_id) t.conversations ≡ true
    → insert_conversation now chat_id user_id t ≡ t
unfolding insert_conversation
insert_conversation-present now chat_id user_id t h = rw h refl

-- Who may append to a chat: its owner, and anyone where it has none.
abbrev pub may_append : String → Option String → Bool
may_append user_id none = true
may_append user_id (some owner) = str_eq owner user_id

owner_in-new :
    (now : ℕ) (chat_id user_id : String) (cs : List Conversation)
    → owner_in chat_id cs ≡ none
    → owner_in chat_id (
        cs
        ++ (record { chat_id = chat_id; user_id = user_id; message_count = 0; updated_at = now })
          ∷ [])
      ≡ some user_id
unfolding owner_in
owner_in-new now chat_id user_id [] h = rw ((eq_iff chat_id chat_id).1 refl) refl
owner_in-new now chat_id user_id (c ∷ cs) h = elim (Bool-cases (str_eq c.chat_id chat_id)) [
  | inl e ↦ absurd (cc (rw e at h))
  | inr e ↦ rw e (owner_in-new now chat_id user_id cs (rw e at h))
]

no_chat_of_owner :
    (chat_id : String) (cs : List Conversation)
    → owner_in chat_id cs ≡ none
    → any_of (λ (c : Conversation). str_eq c.chat_id chat_id) cs ≡ false
unfolding owner_in
no_chat_of_owner chat_id [] h = refl
no_chat_of_owner chat_id (c ∷ cs) h = elim (Bool-cases (str_eq c.chat_id chat_id)) [
  | inl e ↦ absurd (cc (rw e at h))
  | inr e ↦ rw e (no_chat_of_owner chat_id cs (rw e at h))
]

-- The owner of the chat behind the insertion of its conversation.
owner_in-insert :
    (now : ℕ) (chat_id user_id : String) (t : Tables) (o : Option String)
    → owner_in chat_id t.conversations ≡ o
    → (owner : String) × (owner_in chat_id (insert_conversation now chat_id user_id t).conversations
        ≡ some owner)
      × (str_eq owner user_id ≡ may_append user_id o)
unfolding insert_conversation
owner_in-insert now chat_id user_id t none h = (
  user_id,
  rw (no_chat_of_owner chat_id t.conversations h)
      (owner_in-new now chat_id user_id t.conversations h),
  (eq_iff user_id user_id).1 refl,
)
owner_in-insert now chat_id user_id t (some owner) h =
    (owner, rw (chat_of_owner chat_id owner t.conversations h) h, refl)

-- The transaction that appends reports whether the caller may append to the chat.
pub append_transaction_owned :
    (now : ℕ) (user_id chat_id : String) (ms : List Message) (t : Tables)
    → (append_transaction now user_id chat_id ms t).1 ≡ may_append user_id (owner_of chat_id t)
unfolding append_transaction owner_of
append_transaction_owned now user_id chat_id ms t =
    let (owner, found, allowed) =
      owner_in-insert now chat_id user_id t (owner_in chat_id t.conversations) refl in
    cases owner (owner_in chat_id t₁.conversations) found ∙ allowed
  where
    t₁ : Tables
    t₁ = insert_conversation now chat_id user_id t

    split :
        (b : Bool)
        → (if◌then◌else◌ {A = Tables × Bool} b
            (appended now user_id chat_id ms t₁, true)
            (t₁, false)).1
          ≡ b
    split true = refl
    split false = refl

    Flag : String → Tables × Bool → Type 0
    Flag owner r = r.1 ≡ str_eq owner user_id

    cases :
        (owner : String) (o : Option String)
        → o ≡ some owner
        → Flag owner (elim o [
          | none ↦ (t₁, false)
          | some other ↦
              if str_eq other user_id
              then (appended now user_id chat_id ms t₁, true)
              else (t₁, false)
        ])
    cases owner none f = absurd (cc)
    cases owner (some other) f =
        let same : other ≡ owner = (cc) in
        split (str_eq other user_id) ∙ ap (λ x. str_eq x user_id) same

abbrev IsRefused : Tables → Tables × Bool → Type 0
IsRefused t r = r ≡ (t, false)

-- The transaction that appends messages to a chat of another user changes no table, and says that
-- the chat is not the caller's.
pub append_transaction-other :
    (now : ℕ) (user_id chat_id owner : String) (ms : List Message) (t : Tables)
    → owner_of chat_id t ≡ some owner
    → owner ≢ user_id
    → append_transaction now user_id chat_id ms t ≡ (t, false)
unfolding append_transaction owner_of
append_transaction-other now user_id chat_id owner ms t h n =
    cases (owner_in chat_id t₁.conversations)
      (ap (λ (x : Tables). owner_in chat_id x.conversations) same ∙ h)
  where
    t₁ : Tables
    t₁ = insert_conversation now chat_id user_id t

    same : t₁ ≡ t
    same =
        insert_conversation-present now chat_id user_id t
          (chat_of_owner chat_id owner t.conversations h)

    cases :
        (o : Option String)
        → o ≡ some owner
        → IsRefused t (elim o [
          | none ↦ (t₁, false)
          | some other ↦
              if str_eq other user_id
              then (appended now user_id chat_id ms t₁, true)
              else (t₁, false)
        ])
    cases none f = absurd (cc)
    cases (some other) f =
        let user : other ≡ owner = (cc) in
        elim (Bool-cases (str_eq other user_id)) [
          | inl e ↦ absurd (n (sym user ∙ (eq_iff other user_id).0 e))
          | inr e ↦ rw e (ap (λ x. (x, false)) same)
        ]

module _ (l2 : L2Cache) where
  or_false-returns :
      (r : Storage l2.State × Result Bool)
      → (deleted : Bool) × ((or_false l2 r).1 ≡ Result.ok deleted)
  unfolding or_false
  or_false-returns (s, Result.ok b) = (b, refl)
  or_false-returns (s, Result.raise e) = (false, refl)

  -- The deletion of a conversation always returns whether it deleted something, also where the
  -- connection fails: it never raises.
  pub delete_conversation-returns :
      (user_id chat_id : String) (s : Storage l2.State)
      → (deleted : Bool) × ((delete_conversation l2 user_id chat_id s).1 ≡ Result.ok deleted)
  unfolding delete_conversation
  delete_conversation-returns user_id chat_id s =
      or_false-returns (delete_and_forget l2 user_id chat_id s)
