-- ===== src/Main/Tasks.antt =====
-- The ingestion tasks of assets/backend/main.py: `indexing_tasks` and the endpoint that reads it.
pub mod Access
use rag_agent_chatbot.Prelude.{
  ℕ, String, ◌-◌, Bool, not, Option, none, some, List, str_eq, ltb, keep_if, if◌then◌else◌,
}
use rag_agent_chatbot.Dict
use rag_agent_chatbot.Http.{Response, returned, http_error}

pub record Task : Type 0 where
  pub status : String
  pub timestamp : ℕ
  pub owner : String

abbrev pub task_ttl_seconds : ℕ
task_ttl_seconds = 3600

abbrev pub is_stale : ℕ → String × Task → Bool
is_stale now e = ltb task_ttl_seconds (now - e.1.timestamp)

-- `_record_task`
unfoldable pub record_task :
    ℕ → String → String → String → List (String × Task) → List (String × Task)
record_task now task_id status owner tasks =
    Dict.assign task_id (record { status = status; timestamp = now; owner = owner })
      (keep_if (λ e. not (is_stale now e)) tasks)

unfoldable pub update_entry :
    ℕ → String → String → Option Task → List (String × Task) → List (String × Task)
update_entry now task_id status none tasks = tasks
update_entry now task_id status (some entry) tasks =
    Dict.assign task_id (record { status = status; timestamp = now; owner = entry.owner }) tasks

-- `_update_task_status`
unfoldable pub update_task_status :
    ℕ → String → String → List (String × Task) → List (String × Task)
unfolding update_entry
update_task_status now task_id status tasks =
    update_entry now task_id status (Dict.lookup task_id tasks) tasks

unfoldable pub status_of : String → Option Task → Response String
status_of current_user none = http_error 404 "Task not found"
status_of current_user (some task) =
    if str_eq task.owner current_user then returned task.status else http_error 404 "Task not found"

unfoldable pub get_indexing_status : String → String → List (String × Task) → Response String
unfolding status_of
get_indexing_status task_id current_user tasks = status_of current_user (Dict.lookup task_id tasks)
