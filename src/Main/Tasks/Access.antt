-- ===== src/Main/Tasks/Access.antt =====
-- Who reads the status of an ingestion task of assets/backend/main.py, and which one.
use rag_agent_chatbot.Prelude.{
  ℕ, String, ◌≡◌, refl, not, some, List, str_eq, eq_refl, if◌then◌else◌, keep_if,
}
use rag_agent_chatbot.Dict
use rag_agent_chatbot.Http.{returned, http_error}
use rag_agent_chatbot.Main.Tasks.{
  Task, is_stale, record_task, update_entry, update_task_status, status_of, get_indexing_status,
}

lookup-record_task_self :
    (now : ℕ) (task_id status owner : String) (tasks : List (String × Task))
    → Dict.lookup task_id (record_task now task_id status owner tasks)
      ≡ some (record { status = status; timestamp = now; owner = owner })
unfolding record_task
lookup-record_task_self now task_id status owner tasks =
    rw
      (
        Dict.lookup-assign task_id task_id _ (keep_if (λ e. not (is_stale now e)) tasks),
        eq_refl task_id,
      )
      refl

lookup-update_self :
    (now : ℕ) (task_id status : String) (task : Task) (tasks : List (String × Task))
    → Dict.lookup task_id tasks ≡ some task
    → Dict.lookup task_id (update_task_status now task_id status tasks)
      ≡ some (record { status = status; timestamp = now; owner = task.owner })
unfolding update_task_status update_entry
lookup-update_self now task_id status task tasks h =
    rw (h, Dict.lookup-assign task_id task_id _ tasks, eq_refl task_id) refl

-- A task that was recorded for an owner and then updated shows the last status to its owner, and to
-- every other user the answer for a task that does not exist.
pub get_indexing_status-update :
    (now later : ℕ) (task_id status next owner user_id : String) (tasks : List (String × Task))
    → get_indexing_status task_id user_id
        (update_task_status later task_id next (record_task now task_id status owner tasks))
      ≡ (if str_eq owner user_id then returned next else http_error 404 "Task not found")
unfolding get_indexing_status status_of
get_indexing_status-update now later task_id status next owner user_id tasks =
    rw
      (lookup-update_self later task_id next _ (record_task now task_id status owner tasks)
        (lookup-record_task_self now task_id status owner tasks))
      refl
