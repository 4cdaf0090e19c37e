-- ===== src/Storage/Sql/Upserts.antt =====
-- The upserts of assets/backend/postgres_storage.py: a name of a chat, and the preferences of a user.
use rag_agent_chatbot.Prelude.{
  String, ◌≡◌, ◌≢◌, refl, ap, ◌∙◌, Bool, true, false, Option, some, List, [], ◌∷◌, All, keep_if,
  str_eq, eq_iff, if◌then◌else◌,
}
use rag_agent_chatbot.Storage.Sql.{
  Conversation, Metadata, Preferences, Tables, upsert_metadata, preferences_in, upsert_selected,
  upsert_current_chat,
}
use rag_agent_chatbot.Storage.Sql.Owners.{OwnedMetadata, IsConsistent, Spares, other_user}

upsert_metadata-owned :
    (cs : List Conversation) (new : Metadata) (ms : List Metadata)
    → OwnedMetadata cs new
    → All (OwnedMetadata cs) ms
    → All (OwnedMetadata cs) (upsert_metadata new ms)
unfolding upsert_metadata
upsert_metadata-owned cs new [] o h = (o, tt)
upsert_metadata-owned cs new (m ∷ ms) o (h, hs) =
    cases (str_eq m.chat_id new.chat_id) (str_eq m.user_id new.user_id)
      (upsert_metadata-owned cs new ms o hs)
  where
    cases :
        (a b : Bool)
        → All (OwnedMetadata cs) (upsert_metadata new ms)
        → All (OwnedMetadata cs) (
            if a
            then (if b then record m { name = new.name } else m) ∷ ms
            else m ∷ upsert_metadata new ms)
    cases true true rest = (h, hs)
    cases true false rest = (h, hs)
    cases false b rest = (h, rest)

upsert_metadata-kept :
    (v : String) (new : Metadata) (ms : List Metadata)
    → str_eq new.user_id v ≡ false
    → keep_if (λ (m : Metadata). str_eq m.user_id v) (upsert_metadata new ms)
      ≡ keep_if (λ (m : Metadata). str_eq m.user_id v) ms
unfolding upsert_metadata
upsert_metadata-kept v new [] n = rw n refl
upsert_metadata-kept v new (m ∷ ms) n =
    cases (str_eq m.chat_id new.chat_id) (str_eq m.user_id new.user_id) refl
      (upsert_metadata-kept v new ms n)
  where
    kept : List Metadata → List Metadata
    kept = keep_if (λ (d : Metadata). str_eq d.user_id v)

    cases :
        (a b : Bool)
        → str_eq m.user_id new.user_id ≡ b
        → kept (upsert_metadata new ms) ≡ kept ms
        → kept (
            if a
            then (if b then record m { name = new.name } else m) ∷ ms
            else m ∷ upsert_metadata new ms)
          ≡ kept (m ∷ ms)
    cases true true e rest =
        let f : str_eq m.user_id v ≡ false =
          ap (λ z. str_eq z v) ((eq_iff m.user_id new.user_id).0 e) ∙ n in
        rw f refl
    cases true false e rest = refl
    cases false b e rest = ap (λ l. if str_eq m.user_id v then m ∷ l else l) rest

pub upsert_metadata-Spares :
    (v : String) (new : Metadata) (t : Tables)
    → new.user_id ≢ v
    → (IsConsistent t → OwnedMetadata t.conversations new)
    → Spares v t (record t { metadata = upsert_metadata new t.metadata })
upsert_metadata-Spares v new t n o i = (
  record {
    conversations_owned = i.conversations_owned;
    messages_owned = i.messages_owned;
    metadata_owned = upsert_metadata-owned t.conversations new t.metadata (o i) i.metadata_owned;
  },
  record {
    same_chats = refl;
    same_messages = refl;
    same_metadata =
        upsert_metadata-kept v new t.metadata (other_user new.user_id new.user_id v refl n);
    same_preferences = refl;
  },
)

preferences_in-upsert_selected :
    (v user_id : String) (selected : List String) (ps : List Preferences)
    → str_eq user_id v ≡ false
    → preferences_in v (upsert_selected user_id selected ps) ≡ preferences_in v ps
unfolding preferences_in upsert_selected
preferences_in-upsert_selected v user_id selected [] n = rw n refl
preferences_in-upsert_selected v user_id selected (p ∷ ps) n =
    cases (str_eq p.user_id user_id) refl (preferences_in-upsert_selected v user_id selected ps n)
  where
    cases :
        (b : Bool)
        → str_eq p.user_id user_id ≡ b
        → preferences_in v (upsert_selected user_id selected ps) ≡ preferences_in v ps
        → preferences_in v (
            if b
            then (record p { selected_sources = selected }) ∷ ps
            else p ∷ upsert_selected user_id selected ps)
          ≡ preferences_in v (p ∷ ps)
    cases true e rest =
        let f : str_eq p.user_id v ≡ false =
          ap (λ z. str_eq z v) ((eq_iff p.user_id user_id).0 e) ∙ n in
        rw f refl
    cases false e rest = ap (λ o. if str_eq p.user_id v then some p else o) rest

preferences_in-upsert_current_chat :
    (v user_id : String) (chat_id : Option String) (ps : List Preferences)
    → str_eq user_id v ≡ false
    → preferences_in v (upsert_current_chat user_id chat_id ps) ≡ preferences_in v ps
unfolding preferences_in upsert_current_chat
preferences_in-upsert_current_chat v user_id chat_id [] n = rw n refl
preferences_in-upsert_current_chat v user_id chat_id (p ∷ ps) n =
    cases (str_eq p.user_id user_id) refl
      (preferences_in-upsert_current_chat v user_id chat_id ps n)
  where
    cases :
        (b : Bool)
        → str_eq p.user_id user_id ≡ b
        → preferences_in v (upsert_current_chat user_id chat_id ps) ≡ preferences_in v ps
        → preferences_in v (
            if b
            then (record p { current_chat_id = chat_id }) ∷ ps
            else p ∷ upsert_current_chat user_id chat_id ps)
          ≡ preferences_in v (p ∷ ps)
    cases true e rest =
        let f : str_eq p.user_id v ≡ false =
          ap (λ z. str_eq z v) ((eq_iff p.user_id user_id).0 e) ∙ n in
        rw f refl
    cases false e rest = ap (λ o. if str_eq p.user_id v then some p else o) rest

preferences-Spares :
    (v : String) (t : Tables) (ps : List Preferences)
    → preferences_in v ps ≡ preferences_in v t.preferences
    → Spares v t (record t { preferences = ps })
preferences-Spares v t ps e i = (
  record {
    conversations_owned = i.conversations_owned;
    messages_owned = i.messages_owned;
    metadata_owned = i.metadata_owned;
  },
  record { same_chats = refl; same_messages = refl; same_metadata = refl; same_preferences = e },
)

pub upsert_selected-Spares :
    (v user_id : String) (selected : List String) (t : Tables)
    → user_id ≢ v
    → Spares v t (record t { preferences = upsert_selected user_id selected t.preferences })
upsert_selected-Spares v user_id selected t n = preferences-Spares v t _ (
    preferences_in-upsert_selected v user_id selected t.preferences
      (other_user user_id user_id v refl n))

pub upsert_current_chat-Spares :
    (v user_id : String) (chat_id : Option String) (t : Tables)
    → user_id ≢ v
    → Spares v t (record t { preferences = upsert_current_chat user_id chat_id t.preferences })
upsert_current_chat-Spares v user_id chat_id t n = preferences-Spares v t _ (
    preferences_in-upsert_current_chat v user_id chat_id t.preferences
      (other_user user_id user_id v refl n))
