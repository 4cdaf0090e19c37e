-- ===== src/Config.antt =====
-- `ConfigManager` of assets/backend/config.py.
-- The file of the configuration is read and written as a whole; the clock, and the time stamp
-- that a write would get, come with each call. The lock and logging are left out.
pub mod Environment
pub mod Reads
pub mod Start
pub mod Failure
use rag_agent_chatbot.Prelude.{
  ℕ, ◌-◌, Bool, true, false, not, ◌||◌, ◌&&◌, Option, none, some, List, [], ◌∷◌, map, if◌then◌else◌,
  ltb, ◌==◌, any_of, keep_if,
}
use rag_agent_chatbot.Text.{Text, codes, text_eq, is_empty_text, strip}
use rag_agent_chatbot.Http.{Response, returned, internal_error}
use rag_agent_chatbot.Config.Environment.{
  ChatConfig, default_config, env_models, first_or, into_first, is_among, models_or_none,
  split_commas, with_models,
}

-- config.json: `content` is none where it does not load as a configuration.
pub record ConfigFile : Type 0 where
  pub content : Option ChatConfig
  pub mtime : ℕ

pub record ConfigManager : Type 0 where
  pub config : Option ChatConfig
  pub last_modified : ℕ
  pub last_freshness_check : ℕ

-- The manager and the file, if it exists.
pub record Configured : Type 0 where
  pub manager : ConfigManager
  pub file : Option ConfigFile

-- The time of a call, and the stamp of a write in it: none if the file cannot be written.
pub record Moment : Type 0 where
  pub now : ℕ
  pub stamp : Option ℕ

-- `CONFIG_FRESHNESS_CHECK_INTERVAL`
abbrev pub config_freshness_check_interval : ℕ
config_freshness_check_interval = 30

abbrev pub write_file : Option ℕ → Option ChatConfig → Option ConfigFile
write_file none c = none
write_file (some t) none = none
write_file (some t) (some c) = some (record { content = some c; mtime = t })

-- What `_ensure_config_exists` writes, if it can be built.
unfoldable pub refreshed : Text → Option ChatConfig → Option ChatConfig
unfolding with_models default_config
refreshed env none = default_config env none none
refreshed env (some c) = some (with_models (models_or_none env) c)

unfoldable pub config_to_write : Text → Option ConfigFile → Option ChatConfig
unfolding refreshed
config_to_write env none = default_config env none none
config_to_write env (some f) = refreshed env f.content

-- `_ensure_config_exists`: the file after it, or none where it raises.
unfoldable pub ensure_config_exists : Text → Moment → Option ConfigFile → Option ConfigFile
ensure_config_exists env moment file = write_file moment.stamp (config_to_write env file)

abbrev pub is_none : Option ChatConfig → Bool
is_none none = true
is_none (some c) = false

abbrev pub checked : ℕ → ConfigManager → ConfigManager
checked now m = record m { last_freshness_check = now }

-- The configuration where the file cannot be read: the one in memory, or a default, or an exception.
abbrev pub or_default : Text → Option ChatConfig → Option ChatConfig
or_default env none = default_config env (some (codes "nemotron-nano-8b")) (some (codes "1"))
or_default env (some c) = some c

unfoldable pub fall_back : Text → ℕ → ConfigManager → ConfigManager × Option ChatConfig
fall_back env now m =
    let config = or_default env m.config in
    (
      record {
        config = config;
        last_modified = m.last_modified;
        last_freshness_check = if is_none config then m.last_freshness_check else now;
      },
      config,
    )

-- The loading of a file that changed.
unfoldable pub reload :
    Text → ℕ → ℕ → Option ChatConfig → ConfigManager → ConfigManager × Option ChatConfig
unfolding fall_back
reload env now mtime none m = fall_back env now m
reload env now mtime (some c) m =
    (record { config = some c; last_modified = mtime; last_freshness_check = now }, some c)

-- The `try` of `read_config`.
unfoldable pub load :
    Text → ℕ → Option ConfigFile → ConfigManager → ConfigManager × Option ChatConfig
unfolding reload
load env now none m = fall_back env now m
load env now (some f) m =
    if is_none m.config || ltb m.last_modified f.mtime
    then reload env now f.mtime f.content m
    else (checked now m, m.config)

-- `read_config`, none where it raises.
unfoldable pub read_config :
    Text → ℕ → Option ConfigFile → ConfigManager → ConfigManager × Option ChatConfig
unfolding load
read_config env now file m =
    if not (is_none m.config) && ltb (now - m.last_freshness_check) config_freshness_check_interval
    then (m, m.config)
    else load env now file m

-- `write_config`: an answer of false is an exception.
abbrev pub write_stamped : Option ℕ → ℕ → ChatConfig → Configured → Configured × Bool
write_stamped none now new s = (s, false)
write_stamped (some t) now new s = (
  record {
    manager = record { config = some new; last_modified = t; last_freshness_check = now };
    file = some (record { content = some new; mtime = t });
  },
  true,
)

unfoldable pub write_config : Moment → ChatConfig → Configured → Configured × Bool
write_config moment = write_stamped moment.stamp moment.now

-- The `read_config` of `__init__`, on the file that is ensured.
unfoldable pub start_from : Text → ℕ → Option ConfigFile → Option Configured
unfolding read_config
start_from env now none = none
start_from env now (some f) = some (record {
  manager =
      (read_config env now (some f)
        (record { config = none; last_modified = 0; last_freshness_check = 0 })).0;
  file = some f;
})

-- `__init__`
unfoldable pub init : Text → Moment → Option ConfigFile → Option Configured
unfolding ensure_config_exists start_from
init env moment file = start_from env moment.now (ensure_config_exists env moment file)

-- A getter: `self.config = self.read_config()`, and a field of it.
abbrev pub get_field : {A : Type 0} → (ChatConfig → A) → Option ChatConfig → Option A
get_field f none = none
get_field f (some c) = some (f c)

unfoldable pub getter :
    {A : Type 0} → (ChatConfig → A) → Text → ℕ → Configured → Configured × Option A
unfolding read_config
getter f env now s =
    let (manager, config) = read_config env now s.file s.manager in
    (record s { manager = manager }, get_field f config)

unfoldable pub get_sources : Text → ℕ → Configured → Configured × Option (List Text)
unfolding getter
get_sources = getter (λ c. c.sources)

unfoldable pub get_selected_sources :
    Text → ℕ → Configured → Configured × Option (Option (List Text))
unfolding getter
get_selected_sources = getter (λ c. c.selected_sources)

unfoldable pub get_current_chat_id : Text → ℕ → Configured → Configured × Option (Option Text)
unfolding getter
get_current_chat_id = getter (λ c. c.current_chat_id)

unfoldable pub get_available_models : Text → ℕ → Configured → Configured × Option (List Text)
unfolding getter
get_available_models = getter (λ c. c.models)

unfoldable pub get_selected_model : Text → ℕ → Configured → Configured × Option (Option Text)
unfolding getter
get_selected_model = getter (λ c. c.selected_model)

-- An updater: the copy is assigned to `self.config` before it is written.
unfoldable pub updater : (ChatConfig → ChatConfig) → Text → Moment → Configured → Configured × Bool
unfolding read_config write_config
updater f env moment s =
    let (manager, config) = read_config env moment.now s.file s.manager in
    elim config as (λ _. Configured × Bool) [
      | none ↦ (record s { manager = manager }, false)
      | some c ↦
          write_config moment (f c) (record s { manager = record manager { config = some (f c) } })
    ]

unfoldable pub updated_selected_model : Text → Text → Moment → Configured → Configured × Bool
unfolding updater
updated_selected_model new_model = updater (λ c. record c { selected_model = some new_model })

unfoldable pub updated_selected_sources : List Text → Text → Moment → Configured → Configured × Bool
unfolding updater
updated_selected_sources new_sources =
    updater (λ c. record c { selected_sources = some new_sources })

unfoldable pub updated_current_chat_id : Text → Text → Moment → Configured → Configured × Bool
unfolding updater
updated_current_chat_id new_chat_id = updater (λ c. record c { current_chat_id = some new_chat_id })
