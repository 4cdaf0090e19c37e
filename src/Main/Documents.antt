-- ===== src/Main/Documents.antt =====
-- The document endpoints of assets/backend/main.py.
use rag_agent_chatbot.Prelude.{
  ℕ, String, Bool, true, false, Option, none, some, List, [], ◌∷◌, str_eq, if◌then◌else◌, keep_if,
  any_of,
}
use rag_agent_chatbot.Http.{Response, returned, http_error}
use rag_agent_chatbot.Storage.State.{L2Cache, pure, ◌>>=◌, ◌>>◌, Action}
use rag_agent_chatbot.Storage.Sources.{
  SourceDict, get_visible_sources, get_visible_source_names, delete_document_source,
  get_user_preferences, update_user_selected_sources,
}
use rag_agent_chatbot.Main.Handler.{Handler, handle}

-- `x in xs`
abbrev pub is_in : List String → String → Bool
is_in xs x = any_of (str_eq x) xs

-- `xs.remove(x)`, of an element
unfoldable pub remove_first : String → List String → List String
remove_first x [] = []
remove_first x (y ∷ ys) = let rest = remove_first x ys in if str_eq y x then ys else y ∷ rest

module _ (l2 : L2Cache) where
  unfoldable pub get_sources : String → Handler l2 (List SourceDict)
  get_sources current_user =
      handle l2 (do sources ← get_visible_sources l2 current_user; pure (returned sources))

  unfoldable pub drop_selected : String → String → List String → Action l2 (Unit {0})
  unfolding remove_first
  drop_selected source_name current_user selected =
      if is_in selected source_name
      then update_user_selected_sources l2 current_user (remove_first source_name selected)
      else pure tt

  -- What follows `delete_documents_by_source`, which answers with a count, or with none for a
  -- negative one.
  unfoldable pub after_embeddings : String → String → Option ℕ → Action l2 (Response ℕ)
  after_embeddings source_name current_user none =
      pure (http_error 500 "Error deleting embeddings for source")
  after_embeddings source_name current_user (some deleted_count) = do
    prefs ← get_user_preferences l2 current_user
    drop_selected source_name current_user prefs.selected_sources
    pure (returned deleted_count)

  unfoldable pub after_record : String → String → Option ℕ → Bool → Action l2 (Response ℕ)
  after_record source_name current_user embeddings false =
      pure (http_error 404 "Source not found or not owned by you")
  after_record source_name current_user embeddings true =
      after_embeddings source_name current_user embeddings

  -- `embeddings` is what the vector store answers, if it is called.
  unfoldable pub delete_source : String → Option ℕ → String → Handler l2 ℕ
  delete_source source_name embeddings current_user = handle l2 (do
    deleted_record ← delete_document_source l2 source_name current_user
    after_record source_name current_user embeddings deleted_record)

  unfoldable pub get_selected_sources : String → Handler l2 (List String)
  get_selected_sources current_user =
      handle l2
        (do prefs ← get_user_preferences l2 current_user; pure (returned prefs.selected_sources))

  unfoldable pub update_selected_sources : List String → String → Handler l2 (List String)
  update_selected_sources selected_sources current_user = handle l2 (do
    visible ← get_visible_source_names l2 current_user
    let filtered = keep_if (is_in visible) selected_sources
    update_user_selected_sources l2 current_user filtered
    pure (returned filtered))
