-- ===== src/Vectors/Filter.antt =====
-- The filter expressions that assets/backend/vector_store.py sends to Milvus.
use rag_agent_chatbot.Prelude.{ℕ, List, [], ◌∷◌, ◌++◌, ◌==◌, if◌then◌else◌}
use rag_agent_chatbot.Text.{Text, codes}

-- `t.replace(c, by)`, of one character
unfoldable pub replace : ℕ → Text → Text → Text
replace c by [] = []
replace c by (d ∷ t) = (if d == c then by else d ∷ []) ++ replace c by t

-- `value.replace('\\', '\\\\').replace('"', '\\"')`
unfoldable pub sanitize_milvus_string : Text → Text
unfolding replace
sanitize_milvus_string value = replace 34 (92 ∷ 34 ∷ []) (replace 92 (92 ∷ 92 ∷ []) value)

unfoldable pub build_visibility_filter : Text → Text
build_visibility_filter user_id =
    codes "(visibility == \"public\" || visibility == \"\" || user_id == \""
    ++ (sanitize_milvus_string user_id ++ codes "\")")

abbrev pub quoted : Text → Text
quoted s = 34 ∷ (sanitize_milvus_string s ++ 34 ∷ [])

-- `", ".join(…)`
unfoldable pub quoted_list : List Text → Text
quoted_list [] = []
quoted_list (s ∷ []) = quoted s
quoted_list (s ∷ t ∷ ts) = quoted s ++ (codes ", " ++ quoted_list (t ∷ ts))

-- `f"({filter_expr}) && source in [{quoted}]"`
unfoldable pub selected_filter : Text → List Text → Text
unfolding quoted_list
selected_filter filter_expr selected =
    codes "(" ++ (filter_expr ++ (codes ") && source in [" ++ (quoted_list selected ++ codes "]")))

-- `f'source == "{safe_source}" && user_id == "{safe_user}"'`
unfoldable pub delete_filter : Text → Text → Text
delete_filter source_name user_id =
    codes "source == \""
    ++ (sanitize_milvus_string source_name
        ++ (codes "\" && user_id == \"" ++ (sanitize_milvus_string user_id ++ codes "\"")))
