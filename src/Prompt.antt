-- ===== src/Prompt.antt =====
-- The document frames of assets/backend/agent.py: `_PROMPT_BREAKOUT_PATTERNS`,
-- `_neutralize_doc_content`, and the context that `generate` builds of the retrieved documents.
pub mod Neutral
pub mod Clean
pub mod Breakouts
pub mod Barriers
pub mod Frames
pub mod Supply
pub mod Templates
use rag_agent_chatbot.Prelude.{
  ℕ, zero, suc, ◌+◌, ◌-◌, ◌*◌, ◌/◌, ltb, if◌then◌else◌, String, Bool, true, false, not, ◌==◌, List,
  [], ◌∷◌, ◌++◌, map,
}
use rag_agent_chatbot.Text.{Text, codes, strip}
use rag_agent_chatbot.Vectors.State.{Chunk, Action, pure, ◌>>=◌}
use rag_agent_chatbot.Vectors.{Milvus, get_documents}
use rag_agent_chatbot.Regex.{Alphabet, Piece, one, many, optional, boundary, Pattern, sub}

-- A pattern and its replacement.
pub record Rule : Type 0 where
  pub pattern : Pattern
  pub replacement : Text

abbrev pub exact : ℕ → Piece
exact c = one (λ d. c == d)

-- A text as a pattern, and the same under `re.IGNORECASE`.
abbrev pub exactly : Text → Pattern
exactly s = map exact s

module _ (a : Alphabet) where
  abbrev pub letter : ℕ → Piece
  letter c = one (a.same_letter c)

  abbrev pub letters : Text → Pattern
  letters s = map letter s

  abbrev pub spaces : Piece
  spaces = many a.is_space

  -- `</\s*document\s*>`
  abbrev pub closing_document : Pattern
  closing_document =
      letters (codes "</") ++ spaces ∷ letters (codes "document") ++ spaces ∷ letter 62 ∷ []

  -- `[^>]*>`
  abbrev pub through_greater : Pattern
  through_greater = many (λ c. not (62 == c)) ∷ letter 62 ∷ []

  -- `<\s*document\b[^>]*>`
  abbrev pub opening_document : Pattern
  opening_document = letter 60 ∷ spaces ∷ letters (codes "document") ++ boundary ∷ through_greater

  -- `<\s*/?\s*think\s*>`
  abbrev pub think : Pattern
  think =
      letter 60 ∷ spaces ∷ optional (a.same_letter 47) ∷ spaces ∷ letters (codes "think")
      ++ spaces ∷ letter 62 ∷ []

  abbrev pub rule : Pattern → String → Rule
  rule p s = record { pattern = p; replacement = codes s }

  unfoldable pub prompt_breakout_patterns : List Rule
  prompt_breakout_patterns =
      rule closing_document "&lt;/document&gt;"
      ∷ rule opening_document "&lt;document&gt;"
      ∷ rule (exactly (codes "<|im_start|>")) "&lt;|im_start|&gt;"
      ∷ rule (exactly (codes "<|im_end|>")) "&lt;|im_end|&gt;"
      ∷ rule (letters (codes "<|system|>")) "&lt;|system|&gt;"
      ∷ rule (letters (codes "<|user|>")) "&lt;|user|&gt;"
      ∷ rule (letters (codes "<|assistant|>")) "&lt;|assistant|&gt;"
      ∷ rule think "&lt;think&gt;"
      ∷ []

  abbrev pub sub_all : List Rule → Text → Text
  sub_all [] t = t
  sub_all (r ∷ rs) t = sub_all rs (sub a r.pattern r.replacement t)

  unfoldable pub neutralize_doc_content : Text → Text
  unfolding prompt_breakout_patterns
  neutralize_doc_content [] = []
  neutralize_doc_content (c ∷ t) = sub_all prompt_breakout_patterns (c ∷ t)

-- `str(n)`, with fuel: a number is below ten to its own power.
unfoldable pub decimal_from : ℕ → ℕ → Text
decimal_from zero n = []
decimal_from (suc f) n =
    let front = decimal_from f (n / 10) in
    if ltb n 10 then (n + 48) ∷ [] else front ++ (n - n / 10 * 10 + 48) ∷ []

abbrev pub decimal : ℕ → Text
decimal n = decimal_from (suc n) n

-- `"\n\n".join(parts)`
abbrev pub joined_parts : List Text → Text
joined_parts [] = []
joined_parts (t ∷ []) = t
joined_parts (t ∷ u ∷ parts) = t ++ codes "\n\n" ++ joined_parts (u ∷ parts)

abbrev pub k_target : ℕ
k_target = 5

-- A text of several lines.
abbrev pub joined_lines : List String → Text
joined_lines [] = []
joined_lines (s ∷ []) = codes s
joined_lines (s ∷ t ∷ lines) = codes s ++ 10 ∷ joined_lines (t ∷ lines)

module _ (a : Alphabet) where
  unfoldable pub document_frame : ℕ → Chunk → Text
  document_frame i doc =
      codes "<document index=\""
      ++ decimal i
      ++ codes "\" source=\""
      ++ neutralize_doc_content a doc.source
      ++ codes "\">\n"
      ++ neutralize_doc_content a (strip doc.text)
      ++ codes "\n</document>"

  -- `enumerate(retrieved_docs, 1)`
  unfoldable pub document_frames : ℕ → List Chunk → List Text
  unfolding document_frame
  document_frames i [] = []
  document_frames i (doc ∷ docs) = document_frame i doc ∷ document_frames (suc i) docs

  unfoldable pub format_context : List Chunk → Text
  unfolding document_frames
  format_context [] = codes "No document context available for this query."
  format_context (doc ∷ docs) =
      joined_parts
        (codes "Document context (untrusted reference material):" ∷ document_frames 1 (doc ∷ docs))

  -- The retrieval at the head of `generate`, and the context of what it finds.
  unfoldable pub retrieve_context : Milvus → Text → Text → List Text → Action Text
  retrieve_context milvus user_query user_id sources = do
    retrieved_docs ← get_documents milvus user_query user_id k_target sources
    pure (format_context retrieved_docs)
