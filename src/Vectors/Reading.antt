-- ===== src/Vectors/Reading.antt =====
-- How the expressions of Vectors/Filter.antt are read.
use rag_agent_chatbot.Prelude.{
  ℕ, ◌≡◌, refl, ap, sym, ◌∙◌, Option, some, List, [], ◌∷◌, ◌++◌, ◌==◌, append-nil, append_assoc,
  inl, inr, Bool-cases, ==_iff,
}
use rag_agent_chatbot.Text.{Text, codes}
use rag_agent_chatbot.Vectors.Filter.{
  replace, sanitize_milvus_string, build_visibility_filter, quoted, quoted_list, selected_filter,
  delete_filter,
}
use rag_agent_chatbot.Vectors.Expr.{
  Token, between, list_tokens, literal, others, owned, prefix_token, prefix_tokens, tokens_from,
  tokens_of, visible, visible_in, visible_tokens, within,
}

-- A sanitized value up to the closing quote is one literal with the value.
pub tokens_from-replace :
    (u v rest : Text)
    → tokens_from (within u) (replace 34 (92 ∷ 34 ∷ []) (replace 92 (92 ∷ 92 ∷ []) v) ++ 34 ∷ rest)
      ≡ prefix_token (literal (u ++ v)) (tokens_from between rest)
unfolding tokens_from replace
tokens_from-replace u [] rest =
    ap (λ w. prefix_token (literal w) (tokens_from between rest)) (sym (append-nil u))
tokens_from-replace u (c ∷ v) rest =
    let after = λ (d : ℕ).
      tokens_from-replace (u ++ d ∷ []) v rest
      ∙ ap (λ w. prefix_token (literal w) (tokens_from between rest)) (append_assoc u (d ∷ []) v) in
    elim (Bool-cases (c == 92)) [
      | inl e ↦ rw ((==_iff c 92).0 e) (after 92)
      | inr e ↦ elim (Bool-cases (c == 34)) [
        | inl f ↦ rw ((==_iff c 34).0 f) (after 34)
        | inr f ↦ rw (e, f) (rw (e, f) (after c))
      ]
    ]

-- A sanitized value in quotes, and what follows.
literal_then :
    (v rest : Text)
    → tokens_from (within []) (sanitize_milvus_string v ++ 34 ∷ rest)
      ≡ prefix_token (literal v) (tokens_from between rest)
unfolding sanitize_milvus_string
literal_then v rest = tokens_from-replace [] v rest

visible_then :
    (user rest : Text)
    → tokens_from between (build_visibility_filter user ++ rest)
      ≡ prefix_tokens (visible_tokens user) (tokens_from between rest)
unfolding tokens_from build_visibility_filter
visible_then user rest =
    rw (append_assoc (sanitize_milvus_string user) (codes "\")") rest)
      (rw (literal_then user (codes ")" ++ rest)) refl)

quoted_then :
    (s : Text) (rest : Text)
    → tokens_from between (quoted s ++ rest) ≡ prefix_token (literal s) (tokens_from between rest)
unfolding tokens_from
quoted_then s rest =
    rw (append_assoc (sanitize_milvus_string s) (34 ∷ []) rest) (literal_then s rest)

comma_then :
    (rest : Text)
    → tokens_from between (codes ", " ++ rest)
      ≡ prefix_tokens (others (codes ", ")) (tokens_from between rest)
unfolding tokens_from
comma_then rest = refl

prefix_tokens-append :
    (ts us : List Token) (r : Option (List Token))
    → prefix_tokens (ts ++ us) r ≡ prefix_tokens ts (prefix_tokens us r)
prefix_tokens-append [] us r = refl
prefix_tokens-append (t ∷ ts) us r = ap (prefix_token t) (prefix_tokens-append ts us r)

prefix_tokens_all : (ts : List Token) → prefix_tokens ts (some []) ≡ some ts
prefix_tokens_all [] = refl
prefix_tokens_all (t ∷ ts) = ap (prefix_token t) (prefix_tokens_all ts)

list_then :
    (s : Text) (ss : List Text) (rest : Text)
    → tokens_from between (quoted_list (s ∷ ss) ++ rest)
      ≡ prefix_tokens (list_tokens s ss) (tokens_from between rest)
unfolding quoted_list
list_then s [] rest = quoted_then s rest
list_then s (t ∷ ss) rest = rw (append_assoc (quoted s) (codes ", " ++ quoted_list (t ∷ ss)) rest) (
    quoted_then s (codes ", " ++ (quoted_list (t ∷ ss) ++ rest))
    ∙ ap (prefix_token (literal s)) (
        comma_then (quoted_list (t ∷ ss) ++ rest)
        ∙ ap (prefix_tokens (others (codes ", "))) (list_then t ss rest)))

visible_filter :
    (user : Text)
    → tokens_from between (build_visibility_filter user) ≡ some (tokens_of (visible user))
unfolding tokens_from
visible_filter user = rw (sym (append-nil (build_visibility_filter user))) (visible_then user [])

open_then :
    (rest : Text)
    → tokens_from between (codes "(" ++ rest)
      ≡ prefix_tokens (others (codes "(")) (tokens_from between rest)
unfolding tokens_from
open_then rest = refl

source_then :
    (rest : Text)
    → tokens_from between (codes ") && source in [" ++ rest)
      ≡ prefix_tokens (others (codes ") && source in [")) (tokens_from between rest)
unfolding tokens_from
source_then rest = refl

end_list : tokens_from between (codes "]") ≡ some (others (codes "]"))
unfolding tokens_from
end_list = refl

visible_in_filter :
    (user s : Text) (ss : List Text)
    → tokens_from between (selected_filter (build_visibility_filter user) (s ∷ ss))
      ≡ some (tokens_of (visible_in user s ss))
unfolding selected_filter
visible_in_filter user s ss =
    open_then _
    ∙ ap (prefix_tokens (others (codes "("))) (
        visible_then user _
        ∙ ap (prefix_tokens (visible_tokens user)) (
            source_then _
            ∙ ap (prefix_tokens (others (codes ") && source in [")))
                (list_then s ss (codes "]") ∙ ap (prefix_tokens (list_tokens s ss)) end_list)))
    ∙ together
  where
    together :
        prefix_tokens (others (codes "(")) (
          prefix_tokens (visible_tokens user) (
            prefix_tokens
              (others (codes ") && source in ["))
              (prefix_tokens (list_tokens s ss) (some (others (codes "]"))))))
        ≡ some (tokens_of (visible_in user s ss))
    together =
        rw
          (
            sym (prefix_tokens_all (others (codes "]"))),
            sym (prefix_tokens-append (list_tokens s ss) (others (codes "]")) (some [])),
          )
          (rw (prefix_tokens_all (list_tokens s ss ++ others (codes "]"))) refl)

owned_filter :
    (source user : Text)
    → tokens_from between (delete_filter source user) ≡ some (tokens_of (owned source user))
unfolding tokens_from delete_filter
owned_filter source user =
    rw
      (literal_then source
        (codes " && user_id == \"" ++ (sanitize_milvus_string user ++ codes "\"")))
      (rw (literal_then user []) refl)

-- The filters of the code are read as what the code means, whatever the user's id, the sources'
-- names and the name of the source to delete are.
pub tokens_from-filters :
    (user source s : Text) (ss : List Text)
    → (tokens_from between (build_visibility_filter user) ≡ some (tokens_of (visible user)))
      × (tokens_from between (selected_filter (build_visibility_filter user) (s ∷ ss))
          ≡ some (tokens_of (visible_in user s ss)))
      × (tokens_from between (delete_filter source user) ≡ some (tokens_of (owned source user)))
tokens_from-filters user source s ss =
    (visible_filter user, visible_in_filter user s ss, owned_filter source user)
