-- ===== src/Tests/Ingestions.antt =====
-- An upload of assets/backend/utils.py that is indexed and recorded.
use rag_agent_chatbot.Prelude.{true, none, some, [], ◌∷◌}
use rag_agent_chatbot.Text.{codes}
use rag_agent_chatbot.Vectors.Loading.{Readers}
use rag_agent_chatbot.Ingestion.Ends.{Ends}

abbrev plain_files : Readers
plain_files = record {
  basename = λ path. "notes.pdf";
  is_pdf = λ path. true;
  pdf_pages = λ path. some (some (codes "page one") ∷ none ∷ []);
  unstructured = λ path. none;
  read_text = λ path. none;
}
