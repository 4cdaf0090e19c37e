-- ===== src/Auth/Refresh.antt =====
-- The background refresh of assets/backend/auth.py: `init_jwks`, the rounds of `_refresh_loop`, and
-- `close_jwks`, with the task and the HTTP client that they start and end.
use rag_agent_chatbot.Prelude.{◌≡◌, ap, ◌∙◌, Bool, true, false, List, [], ◌∷◌, inl, inr}
use rag_agent_chatbot.Auth.{Provider, Auth, has_keys, fetch_jwks, ensure_keys}
use rag_agent_chatbot.Auth.Rotation.{fetch_jwks-has_keys}

pub data RefreshTask : Type 0 where
  absent running ended : RefreshTask

module _ (p : Provider) where
  pub record Subsystem : Type 0 where
    pub auth : Auth p
    pub refresh_task : RefreshTask
    pub client_open : Bool

  -- `if _refresh_task is None or _refresh_task.done()`: a running task stays.
  unfoldable pub init_jwks : Subsystem → Subsystem
  unfolding ensure_keys
  init_jwks s = record {
    auth = ensure_keys p true s.auth;
    refresh_task = running;
    client_open = true;
  }

  -- A round of the loop, behind its sleep; a task that is not there does nothing.
  unfoldable pub refresh_round : RefreshTask → Subsystem → Subsystem
  unfolding fetch_jwks
  refresh_round running s = record s { auth = fetch_jwks p s.auth; client_open = true }
  refresh_round absent s = s
  refresh_round ended s = s

  unfoldable pub close_jwks : Subsystem → Subsystem
  close_jwks s = record s { refresh_task = absent; client_open = false }

  pub data Step : Type 0 where
    init slept close : Step

  unfoldable pub after_step : Step → Subsystem → Subsystem
  unfolding init_jwks refresh_round close_jwks
  after_step init s = init_jwks s
  after_step slept s = refresh_round s.refresh_task s
  after_step close s = close_jwks s

  unfoldable pub after_steps : List Step → Subsystem → Subsystem
  unfolding after_step
  after_steps [] s = s
  after_steps (step ∷ steps) s = after_steps steps (after_step step s)

  fetch_keeps :
      (s : Auth p)
      → has_keys p s.keys_by_kid ≡ true
      → has_keys p (fetch_jwks p s).keys_by_kid ≡ true
  fetch_keeps s h = elim (fetch_jwks-has_keys p s) [
    | inl same ↦ ap (has_keys p) same ∙ h
    | inr (new, rest) ↦ new
  ]

  -- Once there are keys, no sequence of starts, rounds and shutdowns leaves the verifier without.
  after_steps-has_keys :
      (steps : List Step) (s : Subsystem)
      → has_keys p s.auth.keys_by_kid ≡ true
      → has_keys p (after_steps steps s).auth.keys_by_kid ≡ true
  unfolding after_steps after_step init_jwks ensure_keys refresh_round close_jwks
  after_steps-has_keys [] s h = h
  after_steps-has_keys (init ∷ steps) s h =
      after_steps-has_keys steps (init_jwks s) (fetch_keeps s.auth h)
  after_steps-has_keys (slept ∷ steps) s h = go s.refresh_task (after_steps-has_keys steps)
    where
      go :
          (t : RefreshTask)
          → ((u : Subsystem)
              → has_keys p u.auth.keys_by_kid ≡ true
              → has_keys p (after_steps steps u).auth.keys_by_kid ≡ true)
          → has_keys p (after_steps steps (refresh_round t s)).auth.keys_by_kid ≡ true
      go running next = next (refresh_round running s) (fetch_keeps s.auth h)
      go absent next = next s h
      go ended next = next s h
  after_steps-has_keys (close ∷ steps) s h = after_steps-has_keys steps (close_jwks s) h
