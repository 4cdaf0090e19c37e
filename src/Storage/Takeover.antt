-- ===== src/Storage/Takeover.antt =====
-- The upsert of `add_document_source` (assets/backend/postgres_storage.py): whose source a name is.
use rag_agent_chatbot.Prelude.{
  String, ◌≡◌, refl, ap, sym, ◌∙◌, Bool, true, false, Option, none, some, List, [], ◌∷◌, str_eq,
  eq_iff, if◌then◌else◌, Bool-cases, inl, inr,
}
use rag_agent_chatbot.Storage.Sql.{Source, upsert_source, coalesce}

-- The user of the row with a name, and its visibility.
unfoldable pub entry_of : String → List Source → Option (Option String × String)
entry_of name [] = none
entry_of name (s ∷ ss) =
    let rest = entry_of name ss in
    if str_eq s.source_name name then some (s.user_id, s.visibility) else rest

-- Whoever had a source of this name, the upload makes it the uploader's, with the visibility of the
-- upload; and it changes the user and the visibility of no other name.
pub entry_of-upsert_source :
    (new : Source) (name : String) (ss : List Source)
    → entry_of name (upsert_source new ss) ≡ (
        if str_eq new.source_name name
        then some (new.user_id, new.visibility)
        else entry_of name ss)
unfolding entry_of upsert_source
entry_of-upsert_source new name [] = refl
entry_of-upsert_source new name (s ∷ ss) =
    cases (str_eq s.source_name new.source_name) refl (entry_of-upsert_source new name ss)
  where
    goal : List Source → Type 0
    goal l = entry_of name l ≡ (
        if str_eq new.source_name name
        then some (new.user_id, new.visibility)
        else entry_of name (s ∷ ss))

    cases :
        (b : Bool)
        → str_eq s.source_name new.source_name ≡ b
        → entry_of name (upsert_source new ss) ≡ (
            if str_eq new.source_name name
            then some (new.user_id, new.visibility)
            else entry_of name ss)
        → goal (
            if b
            then (record s {
              user_id = new.user_id;
              visibility = new.visibility;
              file_path = coalesce new.file_path s.file_path;
              task_id = coalesce new.task_id s.task_id;
              chunk_count = new.chunk_count;
            })
              ∷ ss
            else s ∷ upsert_source new ss)
    cases true e rest =
        let same : str_eq s.source_name name ≡ str_eq new.source_name name =
          ap (λ x. str_eq x name) ((eq_iff s.source_name new.source_name).0 e) in
        elim (Bool-cases (str_eq new.source_name name)) [
          | inl f ↦ rw (same, f) refl
          | inr f ↦ rw (same, f) refl
        ]
    cases false e rest = elim (Bool-cases (str_eq new.source_name name)) [
      | inl f ↦
          let other : str_eq s.source_name name ≡ false =
            ap (λ x. str_eq s.source_name x) (sym ((eq_iff new.source_name name).0 f)) ∙ e in
          rw (other, f)
            (rest ∙ ap (λ b. if b then some (new.user_id, new.visibility) else entry_of name ss) f)
      | inr f ↦ rw f (
          ap (λ o. if str_eq s.source_name name then some (s.user_id, s.visibility) else o)
            (rest ∙ ap (λ b. if b then some (new.user_id, new.visibility) else entry_of name ss) f))
    ]
