-- ===== src/Tests/Requests.antt =====
-- Requests to assets/backend/main.py and tokens of assets/backend/auth.py.
use rag_agent_chatbot.Prelude.{
  ℕ, String, ◌≡◌, ◌≢◌, refl, true, ◌==◌, none, some, List, [], ◌∷◌, if◌then◌else◌,
}
use rag_agent_chatbot.Dict
use rag_agent_chatbot.Text.{codes}
use rag_agent_chatbot.Http.{http_error}
use rag_agent_chatbot.Auth.{
  Jwk, Sub, text, Decoded, claims, expired, invalid, Provider, Auth, has_keys, collect, fetch_jwks,
  pick_key_for_token, decode_jwt_token, get_current_user, is_fresh,
}
use rag_agent_chatbot.Auth.Tokens.{Verifies, get_current_user-verified}
use rag_agent_chatbot.Main.Tasks.{record_task, update_task_status, get_indexing_status}
use rag_agent_chatbot.Main.Tasks.Access.{get_indexing_status-update}
use rag_agent_chatbot.Main.Uploads.{chunk, UploadFile, Checks, sanitize_filename, ingest_files}
use rag_agent_chatbot.Main.Uploads.Names.{IsSafeName, sanitize_filename-IsSafeName}
use rag_agent_chatbot.Main.Uploads.Cleanup.{Answer, ingest_files-Answer}

-- Keys and tokens are numbers: a key verifies the token that is equal to it. The service has one
-- key, 2.
abbrev numbers : Provider
numbers = record {
  World = ℕ;
  Material = ℕ;
  Key = ℕ;
  Token = ℕ;
  time = λ w. w;
  get = λ w. (w, some ((record { kty = some "RSA"; usage = none; kid = none; material = 2 }) ∷ []));
  jwk_to_public_key = λ m. some m;
  header_kid = λ token. some none;
  decode_with_key = λ now token key. if token == key then claims (text "ann") else invalid;
}

abbrev old_keys : Auth numbers
old_keys = record { keys_by_kid = ("", 1) ∷ []; last_fetch = 90; world = 100 }

abbrev ann : String
ann = "ann"

get_current_user_example : Verifies numbers 1 old_keys (text ann) × (ann ≢ "")
unfolding get_current_user decode_jwt_token pick_key_for_token Dict.lookup
    rag_agent_chatbot.Auth.ensure_keys
get_current_user_example = get_current_user-verified numbers 1 old_keys old_keys ann refl

get_indexing_status_example :
    get_indexing_status "t" "bob"
      (update_task_status 9 "t" "done" (record_task 5 "t" "queued" "ann" []))
    ≡ http_error 404 "Task not found"
get_indexing_status_example = get_indexing_status-update 5 9 "t" "queued" "done" "ann" "bob" []

sanitize_filename_example : IsSafeName (sanitize_filename (some (codes "../..\\x.txt")))
sanitize_filename_example = sanitize_filename-IsSafeName (some (codes "../..\\x.txt"))

abbrev pub lenient : Checks
lenient = record {
  extension_allowed = λ name. true;
  is_inside = λ path. true;
  magic_accepted = λ upload. true;
}

abbrev pub two_files : List UploadFile
two_files =
    (record { filename = some (codes "a.txt"); reads = chunk 5 ∷ chunk 0 ∷ [] })
    ∷ (record { filename = none; reads = chunk 60000000 ∷ [] })
    ∷ []

ingest_files_example :
    Answer lenient
      (codes "up")
      []
      two_files
      (ingest_files lenient (codes "up") two_files "private" [])
ingest_files_example = ingest_files-Answer lenient (codes "up") two_files "private" []
