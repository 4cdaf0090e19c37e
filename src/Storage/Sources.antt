-- ===== src/Storage/Sources.antt =====
-- Document sources and user preferences of `PostgreSQLConversationStorage`.
use rag_agent_chatbot.Prelude.{
  ℕ, String, Bool, ◌||◌, Option, none, some, List, [], map, str_eq, if◌then◌else◌,
}
use rag_agent_chatbot.Storage.Sql.{
  Source, Preferences, upsert_source, select_sources, delete_source_row, source_visible,
  preferences_in, upsert_selected, upsert_current_chat, owned_by,
}
use rag_agent_chatbot.Storage.State.{
  L2Cache, value_error, pure, fail, with_conn, ◌>>=◌, reading, writing, Action,
}

-- The result of `get_user_preferences`.
pub record PreferencesDict : Type 0 where
  pub selected_sources : List String
  pub current_chat_id : Option String

-- An entry of `get_visible_sources`.
pub record SourceDict : Type 0 where
  pub source_name : String
  pub ownership : String
  pub can_delete : Bool
  pub chunk_count : ℕ
  pub created_at : ℕ

-- `if visibility not in ("public", "private")`
abbrev pub is_visibility : String → Bool
is_visibility v = str_eq v "public" || str_eq v "private"

abbrev pub source_dict : String → Source → SourceDict
source_dict user_id s = record {
  source_name = s.source_name;
  ownership = if str_eq s.visibility "private" then "private" else "public";
  can_delete = owned_by user_id s;
  chunk_count = s.chunk_count;
  created_at = s.created_at;
}

abbrev pub preferences_dict : Option Preferences → PreferencesDict
preferences_dict none = record { selected_sources = []; current_chat_id = none }
preferences_dict (some p) = record {
  selected_sources = p.selected_sources;
  current_chat_id = p.current_chat_id;
}

module _ (l2 : L2Cache) where
  unfoldable pub add_document_source :
      ℕ → String → String → String → Option String → Option String → ℕ → Action l2 (Unit {0})
  add_document_source now source_name user_id visibility file_path task_id chunk_count =
      let new : Source = record {
        source_name = source_name;
        user_id = some user_id;
        visibility = visibility;
        file_path = file_path;
        task_id = task_id;
        chunk_count = chunk_count;
        created_at = now;
      } in
      if is_visibility visibility
      then with_conn (writing (λ t. record t { sources = upsert_source new t.sources }))
      else fail value_error

  unfoldable pub get_visible_sources : String → Action l2 (List SourceDict)
  get_visible_sources user_id = do
    rows ← with_conn (reading (select_sources user_id))
    pure (map (source_dict user_id) rows)

  unfoldable pub get_visible_source_names : String → Action l2 (List String)
  get_visible_source_names user_id = do
    rows ← with_conn (reading (select_sources user_id))
    pure (map (λ (s : Source). s.source_name) rows)

  unfoldable pub delete_document_source : String → String → Action l2 Bool
  delete_document_source source_name user_id = with_conn (delete_source_row source_name user_id)

  unfoldable pub source_is_visible_to : String → String → Action l2 Bool
  source_is_visible_to source_name user_id =
      with_conn (reading (source_visible source_name user_id))

  unfoldable pub get_user_preferences : String → Action l2 PreferencesDict
  get_user_preferences user_id = do
    row ← with_conn (reading (λ t. preferences_in user_id t.preferences))
    pure (preferences_dict row)

  unfoldable pub update_user_selected_sources : String → List String → Action l2 (Unit {0})
  update_user_selected_sources user_id selected =
      with_conn
        (writing (λ t. record t { preferences = upsert_selected user_id selected t.preferences }))

  unfoldable pub update_user_current_chat_id : String → Option String → Action l2 (Unit {0})
  update_user_current_chat_id user_id chat_id =
      with_conn (
        writing (λ t. record t { preferences = upsert_current_chat user_id chat_id t.preferences }))
