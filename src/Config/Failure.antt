-- ===== src/Config/Failure.antt =====
-- What an update of assets/backend/config.py leaves where the file cannot be written.
use rag_agent_chatbot.Prelude.{
  ℕ, ◌-◌, ◌≡◌, refl, Bool, true, false, Option, none, some, if◌then◌else◌, ltb, arith,
}
use rag_agent_chatbot.Text.{Text}
use rag_agent_chatbot.Config.{
  ConfigFile, ConfigManager, Configured, Moment, load, reload, fall_back, read_config, write_config,
  write_stamped, updater, updated_selected_model, getter, get_selected_model, checked,
}
use rag_agent_chatbot.Config.Environment.{ChatConfig}
use rag_agent_chatbot.Config.Reads.{seen, read_config_lem}

-- A check of the file that the next reading at this time takes for fresh.
abbrev IsFresh : ℕ → ConfigManager → Type 0
IsFresh now m = ltb (now - m.last_freshness_check) 30 ≡ true

just_now : (now : ℕ) → ltb (now - now) 30 ≡ true
just_now now = ground arith

load-IsFresh :
    (env : Text) (now : ℕ) (file : Option ConfigFile) (c : ChatConfig) (t u : ℕ)
    → IsFresh now
        (load env now file
          (record { config = some c; last_modified = t; last_freshness_check = u })).0
unfolding load reload fall_back
load-IsFresh env now none c t u = just_now now
load-IsFresh env now (some f) c t u = newer (ltb t f.mtime) f.content
  where
    m : ConfigManager
    m = record { config = some c; last_modified = t; last_freshness_check = u }

    newer :
        (b : Bool) (content : Option ChatConfig)
        → IsFresh now
            (if◌then◌else◌ {A = ConfigManager × Option ChatConfig} b
              (reload env now f.mtime content m)
              (checked now m, some c)).0
    newer true none = just_now now
    newer true (some d) = just_now now
    newer false content = just_now now

read_config-IsFresh :
    (env : Text) (now : ℕ) (file : Option ConfigFile) (c : ChatConfig) (t u : ℕ)
    → IsFresh now
        (read_config env now file
          (record { config = some c; last_modified = t; last_freshness_check = u })).0
unfolding read_config
read_config-IsFresh env now file c t u = fresh (ltb (now - u) 30) refl
  where
    m : ConfigManager
    m = record { config = some c; last_modified = t; last_freshness_check = u }

    fresh :
        (b : Bool)
        → ltb (now - u) 30 ≡ b
        → IsFresh now
            (if◌then◌else◌ {A = ConfigManager × Option ChatConfig} b
              (m, some c)
              (load env now file m)).0
    fresh true e = e
    fresh false e = load-IsFresh env now file c t u

-- What an update that is not written leaves.
abbrev IsUnwritten : Text → ℕ → Text → Option ConfigFile → Configured × Bool → Type 0
IsUnwritten env now new_model file (s, ok) =
    (ok ≡ false) × ((s.file ≡ file) × ((get_selected_model env now s).1 ≡ some (some new_model)))

-- Where the file cannot be written, `updated_selected_model` raises and leaves the file, and yet the
-- next reader of the model gets the new one.
pub updated_selected_model-IsUnwritten :
    (env new_model : Text) (moment : Moment) (file : Option ConfigFile) (c : ChatConfig) (t u : ℕ)
    → moment.stamp ≡ none
    → let s : Configured = record {
      manager = record { config = some c; last_modified = t; last_freshness_check = u };
      file = file;
    } in
      IsUnwritten env moment.now new_model file (updated_selected_model new_model env moment s)
unfolding updated_selected_model updater write_config get_selected_model getter read_config
updated_selected_model-IsUnwritten env new_model moment file c t u p =
    unwritten moment.stamp (read_config env moment.now file m) p
      (read_config_lem env moment.now file c t u).0 (read_config-IsFresh env moment.now file c t u)
  where
    m : ConfigManager
    m = record { config = some c; last_modified = t; last_freshness_check = u }

    s : Configured
    s = record { manager = m; file = file }

    unwritten :
        (writes : Option ℕ) (r : ConfigManager × Option ChatConfig)
        → writes ≡ none
        → r.1 ≡ some (seen c t u moment.now file)
        → IsFresh moment.now r.0
        → IsUnwritten env moment.now new_model file (elim r.1 as (λ _. Configured × Bool) [
          | none ↦ (record s { manager = r.0 }, false)
          | some x ↦
              write_stamped writes moment.now
                (record x { selected_model = some new_model })
                (record s {
                  manager = record (r.0) {
                    config = some (record x { selected_model = some new_model });
                  };
                })
        ])
    unwritten (some w) r e g h = absurd (cc)
    unwritten none (n, none) e g h = absurd (cc)
    unwritten none (n, some x) e g h = (refl, (refl, rw h refl))
