-- ===== src/Vectors/Loading.antt =====
-- `_load_documents` of assets/backend/vector_store.py, over the files that were uploaded; no caller
-- gives it a directory. The readers of files are a record, each of which may raise.
use rag_agent_chatbot.Prelude.{
  String, Bool, Option, none, some, List, [], ◌∷◌, ◌++◌, map, if◌then◌else◌,
}
use rag_agent_chatbot.Text.{Text, codes, is_empty_text, strip}
use rag_agent_chatbot.Vectors.State.{Document}

-- `os.path`, `PdfReader` with the text of each page, `UnstructuredLoader` with the contents of its
-- documents, and the reading of a file as text.
pub record Readers : Type 0 where
  pub basename : String → String
  pub is_pdf : String → Bool
  pub pdf_pages : String → Option (List (Option Text))
  pub unstructured : String → Option (List Text)
  pub read_text : String → Option Text

-- `page.extract_text() or ""`, and "" for a page that raises
abbrev pub page_text : Option Text → Text
page_text none = []
page_text (some t) = t

-- `"\n\n".join(…)`
unfoldable pub join_pages : List Text → Text
join_pages [] = []
join_pages (p ∷ []) = p
join_pages (p ∷ q ∷ ps) = p ++ 10 ∷ 10 ∷ join_pages (q ∷ ps)

unfoldable pub pages_text : Option (List (Option Text)) → Text
unfolding join_pages
pages_text none = []
pages_text (some pages) = strip (join_pages (map page_text pages))

module _ (readers : Readers) where
  abbrev pub document_of : String → Text → Document
  document_of path content = record {
    page_content = content;
    source = codes (readers.basename path);
    file_path = codes path;
    filename = codes (readers.basename path);
  }

  -- A document with the text, or one that names the file.
  unfoldable pub text_document : String → Text → Document
  text_document path file_text =
      if is_empty_text (strip file_text)
      then document_of path (codes "Document: " ++ codes (readers.basename path))
      else document_of path file_text

  -- Without text from a PDF: the loader's documents, which may be none at all, or the raw text.
  unfoldable pub load_other : String → Option (List Text) → List Document
  unfolding text_document
  load_other path none = text_document path (page_text (readers.read_text path)) ∷ []
  load_other path (some contents) = map (document_of path) contents

  -- The body of the loop.
  unfoldable pub load_file : String → List Document
  unfolding pages_text text_document load_other
  load_file path =
      let file_text = if readers.is_pdf path then pages_text (readers.pdf_pages path) else [] in
      if is_empty_text file_text
      then load_other path (readers.unstructured path)
      else text_document path file_text ∷ []

  unfoldable pub load_documents : List String → List Document
  unfolding load_file
  load_documents [] = []
  load_documents (path ∷ paths) = load_file path ++ load_documents paths
