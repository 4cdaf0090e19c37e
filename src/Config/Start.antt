-- ===== src/Config/Start.antt =====
-- How a `ConfigManager` of assets/backend/config.py starts.
use rag_agent_chatbot.Prelude.{
  ℕ, ◌≡◌, refl, ap, sym, ◌∙◌, Bool, true, false, not, ◌||◌, ◌&&◌, Option, none, some, List, [], ◌∷◌,
  if◌then◌else◌, any_of,
}
use mathlib.Core.Path.{subst}
use rag_agent_chatbot.Text.{Text, text_eq, text_eq_refl}
use rag_agent_chatbot.Config.{
  ConfigFile, Configured, Moment, refreshed, config_to_write, ensure_config_exists, write_file,
  load, reload, read_config, start_from, init, is_empty_text,
}
use rag_agent_chatbot.Config.Environment.{
  ChatConfig, env_models, default_config, with_models, is_among, first_or,
}

-- A choice of one of the models.
abbrev pub IsChoice : List Text → ChatConfig → Type 0
IsChoice models c =
    (c.models ≡ models)
    × ((x : Text) × ((c.selected_model ≡ some x) × (any_of (text_eq x) models ≡ true)))

-- A manager that has started with a choice.
abbrev pub Starts : List Text → Option Configured → Type 0
Starts models none = ⊥
Starts models (some s) = (c : ChatConfig) × ((s.manager.config ≡ some c) × IsChoice models c)

first-IsChoice : (m : Text) (ms : List Text) → any_of (text_eq m) (m ∷ ms) ≡ true
first-IsChoice m ms = rw (text_eq_refl m) refl

with_models-IsChoice :
    (m : Text) (ms : List Text) (c : ChatConfig) → IsChoice (m ∷ ms) (with_models (m ∷ ms) c)
unfolding with_models
with_models-IsChoice m ms c = (refl, selected c.selected_model)
  where
    selected :
        (o : Option Text)
        → (x : Text) × (((if is_among (m ∷ ms) o then o else some m) ≡ some x)
            × (any_of (text_eq x) (m ∷ ms) ≡ true))
    selected none = (m, (refl, first-IsChoice m ms))
    selected (some x) = kept (not (is_empty_text x)) (any_of (text_eq x) (m ∷ ms)) refl
      where
        kept :
            (a b : Bool)
            → any_of (text_eq x) (m ∷ ms) ≡ b
            → (y : Text) × (((if a && b then some x else some m) ≡ some y)
                × (any_of (text_eq y) (m ∷ ms) ≡ true))
        kept true true e = (x, (refl, e))
        kept true false e = (m, (refl, first-IsChoice m ms))
        kept false b e = (m, (refl, first-IsChoice m ms))

-- What is written is a choice.
IsWritten : List Text → Option ChatConfig → Type 0
IsWritten models none = ⊥
IsWritten models (some c) = IsChoice models c

default-IsWritten :
    (env m : Text) (ms : List Text)
    → env_models env ≡ m ∷ ms
    → is_empty_text env ≡ false
    → IsWritten (m ∷ ms) (default_config env none none)
unfolding default_config IsWritten
default-IsWritten [] m ms e h = absurd (cc)
default-IsWritten (c ∷ env) m ms e h = (e, (m, (ap (first_or none) e, first-IsChoice m ms)))

refreshed-IsWritten :
    (env m : Text) (ms : List Text) (content : Option ChatConfig)
    → env_models env ≡ m ∷ ms
    → is_empty_text env ≡ false
    → IsWritten (m ∷ ms) (refreshed env content)
unfolding refreshed IsWritten
refreshed-IsWritten env m ms none e h = default-IsWritten env m ms e h
refreshed-IsWritten [] m ms (some d) e h = absurd (cc)
refreshed-IsWritten (c ∷ env) m ms (some d) e h =
    subst (λ (models : List Text). IsChoice (m ∷ ms) (with_models models d)) (sym e)
      (with_models-IsChoice m ms d)

config_to_write-IsWritten :
    (env m : Text) (ms : List Text) (file : Option ConfigFile)
    → env_models env ≡ m ∷ ms
    → is_empty_text env ≡ false
    → IsWritten (m ∷ ms) (config_to_write env file)
unfolding config_to_write
config_to_write-IsWritten env m ms none e h = default-IsWritten env m ms e h
config_to_write-IsWritten env m ms (some f) e h = refreshed-IsWritten env m ms f.content e h

start_from-Starts :
    (env : Text) (now : ℕ) (models : List Text) (writes : Option ℕ) (stamp : ℕ)
    (o : Option ChatConfig)
    → writes ≡ some stamp
    → IsWritten models o
    → Starts models (start_from env now (write_file writes o))
unfolding start_from read_config load reload IsWritten
start_from-Starts env now models none stamp o p h = absurd (cc)
start_from-Starts env now models (some t) stamp none p h = absurd h
start_from-Starts env now models (some t) stamp (some c) p h = (c, (refl, h))

-- With models in the environment and a file that can be written, the manager starts, whatever the
-- file was: with exactly these models, and with one of them selected.
pub init-Starts :
    (env m : Text) (ms : List Text) (moment : Moment) (stamp : ℕ) (file : Option ConfigFile)
    → env_models env ≡ m ∷ ms
    → is_empty_text env ≡ false
    → moment.stamp ≡ some stamp
    → Starts (m ∷ ms) (init env moment file)
unfolding init ensure_config_exists
init-Starts env m ms moment stamp file e h p =
    start_from-Starts env moment.now (m ∷ ms) moment.stamp stamp _ p
      (config_to_write-IsWritten env m ms file e h)

abbrev pub is_none : {A : Type 0} → Option A → Bool
is_none none = true
is_none (some a) = false

abbrev pub is_unreadable : Option ConfigFile → Bool
is_unreadable none = true
is_unreadable (some f) = is_none f.content

is_none-start_from :
    (env : Text) (now : ℕ) (writes : Option ℕ) (o : Option ChatConfig)
    → is_none (start_from env now (write_file writes o)) ≡ is_none writes || is_none o
unfolding start_from
is_none-start_from env now none o = refl
is_none-start_from env now (some t) none = refl
is_none-start_from env now (some t) (some c) = refl

is_none-refreshed :
    (env : Text) (content : Option ChatConfig)
    → is_none (refreshed env content) ≡ is_empty_text env && is_none content
unfolding refreshed default_config
is_none-refreshed [] none = refl
is_none-refreshed (c ∷ env) none = refl
is_none-refreshed [] (some d) = refl
is_none-refreshed (c ∷ env) (some d) = refl

is_none-config_to_write :
    (env : Text) (file : Option ConfigFile)
    → is_none (config_to_write env file) ≡ is_empty_text env && is_unreadable file
unfolding config_to_write default_config
is_none-config_to_write [] none = refl
is_none-config_to_write (c ∷ env) none = refl
is_none-config_to_write env (some f) = is_none-refreshed env f.content

-- The manager raises when it starts exactly where the file cannot be written, or where `MODELS` is
-- empty or not set and there is no file that can be read.
pub init-raises :
    (env : Text) (moment : Moment) (file : Option ConfigFile)
    → is_none (init env moment file)
      ≡ is_none moment.stamp || (is_empty_text env && is_unreadable file)
unfolding init ensure_config_exists
init-raises env moment file =
    is_none-start_from env moment.now moment.stamp (config_to_write env file)
    ∙ ap (λ b. is_none moment.stamp || b) (is_none-config_to_write env file)
