-- ===== src/Tests/Tables.antt =====
-- The storage of assets/backend/postgres_storage.py with one chat of each of two users.
use rag_agent_chatbot.Prelude.{
  ℕ, String, ◌≡◌, ◌≢◌, refl, true, false, none, some, List, [], ◌∷◌, eq_iff,
}
use mathlib.Core.Bool.{false≢true}
use rag_agent_chatbot.Storage.Messages.{human}
use rag_agent_chatbot.Storage.Sql.{
  Tables, owner_in, owner_of, append_transaction, Source, upsert_source,
}
use rag_agent_chatbot.Storage.Sql.Owners.{IsConsistent, IsSame}
use rag_agent_chatbot.Storage.State.{L2Cache, Storage}
use rag_agent_chatbot.Storage.Isolation.Methods.{
  Call, append_to, remove, perform_all, perform_all-Spares,
}
use rag_agent_chatbot.Storage.Takeover.{entry_of, entry_of-upsert_source}
use rag_agent_chatbot.Storage.Guards.{append_transaction-other}

-- A cache in Redis that keeps nothing.
abbrev pub empty_l2 : L2Cache
empty_l2 = record {
  State = Unit;
  get_messages = λ k s. (s, none);
  set_messages = λ k ms s. s;
  delete_messages = λ k s. s;
  delete_partial = λ k s. s;
  get_chats = λ k s. (s, none);
  set_chats = λ k cs ttl s. s;
  delete_chats = λ k s. s;
}

abbrev ann : String
ann = "ann"

abbrev bob : String
bob = "bob"

bob≢ann : bob ≢ ann
bob≢ann h = false≢true ((eq_iff bob ann).1 h)

abbrev pub two_chats : Tables
two_chats = record {
  conversations =
      (record { chat_id = "1"; user_id = ann; message_count = 1; updated_at = 7 })
      ∷ (record { chat_id = "2"; user_id = bob; message_count = 0; updated_at = 8 })
      ∷ [];
  messages =
      (record {
        chat_id = "1";
        user_id = ann;
        position = 0;
        role = "human";
        content = "hi";
        tool_calls = none;
        tool_call_id = none;
        name = none;
      })
      ∷ [];
  metadata = [];
  sources = [];
  preferences = [];
}

two_chats-IsConsistent : IsConsistent two_chats
unfolding owner_in
two_chats-IsConsistent = record {
  conversations_owned = (refl, (refl, tt));
  messages_owned = (refl, tt);
  metadata_owned = tt;
}

-- The second use of a connection fails.
abbrev pub two_users : Storage Unit
two_users = record {
  tables = two_chats;
  message_cache = record { entries = []; max_size = 2; default_ttl = 300; hits = 0; misses = 0 };
  metadata_cache = record { entries = []; max_size = 2; default_ttl = 300; hits = 0; misses = 0 };
  chat_list_cache = [];
  l2 = tt;
  faults = false ∷ true ∷ [];
}

abbrev calls_of_bob : List (ℕ × String × Call)
calls_of_bob =
    (9, bob, append_to "1" (human "mine?" ∷ [])) ∷ (9, bob, remove "1") ∷ (9, bob, remove "2") ∷ []

perform_all_example :
    IsConsistent (perform_all empty_l2 calls_of_bob two_users).tables
    × IsSame ann two_chats (perform_all empty_l2 calls_of_bob two_users).tables
perform_all_example =
    perform_all-Spares empty_l2 ann calls_of_bob two_users (bob≢ann, (bob≢ann, (bob≢ann, tt)))
      two_chats-IsConsistent

append_transaction-other_example :
    append_transaction 9 ann "2" (human "mine?" ∷ []) two_chats ≡ (two_chats, false)
unfolding owner_of
append_transaction-other_example =
    append_transaction-other 9 ann "2" bob (human "mine?" ∷ []) two_chats refl bob≢ann

abbrev report_of : String → Source
report_of owner = record {
  source_name = "report.pdf";
  user_id = some owner;
  visibility = "private";
  file_path = none;
  task_id = none;
  chunk_count = 4;
  created_at = 3;
}

upsert_source_example :
    entry_of "report.pdf" (upsert_source (report_of bob) (report_of ann ∷ []))
    ≡ some (some bob, "private")
upsert_source_example = entry_of-upsert_source (report_of bob) "report.pdf" (report_of ann ∷ [])
