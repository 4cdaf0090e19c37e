-- ===== src/Vectors/Expr.antt =====
-- How an expression of Vectors/Filter.antt is read: its string literals, with their escapes, and the
-- characters between them. The expressions that the code means have fixed tokens around them.
use rag_agent_chatbot.Prelude.{
  ℕ, Bool, ◌||◌, ◌&&◌, Option, none, some, List, [], ◌∷◌, ◌++◌, ◌==◌, map, if◌then◌else◌, any_of,
}
use rag_agent_chatbot.Text.{Text, codes, text_eq}
use rag_agent_chatbot.Vectors.State.{Chunk}

-- A token: a string literal with its value, or any other character.
pub data Token : Type 0 where
  literal : Text → Token
  other : ℕ → Token

-- Where the reader is: between literals, in one, or after a backslash in one.
pub data Place : Type 0 where
  between : Place
  within : Text → Place
  escaped : Text → Place

abbrev pub prefix_token : Token → Option (List Token) → Option (List Token)
prefix_token t none = none
prefix_token t (some ts) = some (t ∷ ts)

-- A literal ends at a quote; after a backslash stands a quote or a backslash. A literal that does not
-- end is an error.
unfoldable pub tokens_from : Place → Text → Option (List Token)
tokens_from between [] = some []
tokens_from between (c ∷ t) =
    if c == 34 then tokens_from (within []) t else prefix_token (other c) (tokens_from between t)
tokens_from (within v) [] = none
tokens_from (within v) (c ∷ t) =
    if c == 34
    then prefix_token (literal v) (tokens_from between t)
    else if c == 92
    then tokens_from (escaped v) t
    else tokens_from (within (v ++ c ∷ [])) t
tokens_from (escaped v) [] = none
tokens_from (escaped v) (c ∷ t) =
    if c == 34 || c == 92 then tokens_from (within (v ++ c ∷ [])) t else none

abbrev pub prefix_tokens : List Token → Option (List Token) → Option (List Token)
prefix_tokens [] r = r
prefix_tokens (t ∷ ts) r = prefix_token t (prefix_tokens ts r)

-- What the code means to ask for: the chunks that a user sees, those of some sources too, or the
-- chunks of a source that a user owns.
pub data Wanted : Type 0 where
  visible : Text → Wanted
  visible_in : Text → Text → List Text → Wanted
  owned : Text → Text → Wanted

abbrev pub others : Text → List Token
others = map other

abbrev pub visible_tokens : Text → List Token
visible_tokens user =
    others (codes "(visibility == ")
    ++ (literal (codes "public")
        ∷ (others (codes " || visibility == ")
            ++ (literal []
                ∷ (others (codes " || user_id == ") ++ (literal user ∷ others (codes ")"))))))

abbrev pub list_tokens : Text → List Text → List Token
list_tokens s [] = literal s ∷ []
list_tokens s (t ∷ ts) = literal s ∷ (others (codes ", ") ++ list_tokens t ts)

abbrev pub tokens_of : Wanted → List Token
tokens_of (visible user) = visible_tokens user
tokens_of (visible_in user s ss) =
    others (codes "(")
    ++ (visible_tokens user
        ++ (others (codes ") && source in [") ++ (list_tokens s ss ++ others (codes "]"))))
tokens_of (owned source user) =
    others (codes "source == ")
    ++ (literal source ∷ (others (codes " && user_id == ") ++ (literal user ∷ [])))

abbrev pub is_visible_to : Text → Chunk → Bool
is_visible_to user c =
    text_eq c.visibility (codes "public") || (text_eq c.visibility [] || text_eq c.user_id user)

abbrev pub is_owned : Text → Text → Chunk → Bool
is_owned source user c = text_eq c.source source && text_eq c.user_id user

abbrev pub is_wanted : Wanted → Chunk → Bool
is_wanted (visible user) c = is_visible_to user c
is_wanted (visible_in user s ss) c = is_visible_to user c && any_of (text_eq c.source) (s ∷ ss)
is_wanted (owned source user) c = is_owned source user c
