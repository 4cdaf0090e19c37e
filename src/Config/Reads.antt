-- ===== src/Config/Reads.antt =====
-- What the readers of the configuration see, after writes and while time passes.
use rag_agent_chatbot.Prelude.{
  ℕ, ◌-◌, ◌≡◌, refl, ap, sym, ◌∙◌, Bool, true, false, Option, none, some, List, [], ◌∷◌,
  if◌then◌else◌, ltb,
}
use mathlib.Core.Path.{subst}
use rag_agent_chatbot.Text.{Text}
use rag_agent_chatbot.Config.{
  ConfigFile, ConfigManager, Configured, Moment, config_freshness_check_interval, fall_back, reload,
  load, read_config, write_config, write_stamped, getter, updater, get_selected_model,
  get_available_models, updated_selected_model, checked, get_field,
}
use rag_agent_chatbot.Config.Environment.{ChatConfig}

-- The manager and the file agree, as a write leaves them.
abbrev pub IsStored : ChatConfig → Configured → Type 0
IsStored c s =
    (s.manager.config ≡ some c)
    × (s.file ≡ some (record { content = some c; mtime = s.manager.last_modified }))

-- What a read leaves and returns, for a configuration and its file.
abbrev IsRead : ChatConfig → ℕ → ConfigManager × Option ChatConfig → Type 0
IsRead c t (manager, config) =
    (config ≡ some c) × ((manager.config ≡ some c) × (manager.last_modified ≡ t))

read_config-stored :
    (env : Text) (now : ℕ) (c : ChatConfig) (t u : ℕ)
    → IsRead c t (
        read_config env now
          (some (record { content = some c; mtime = t }))
          (record { config = some c; last_modified = t; last_freshness_check = u }))
unfolding read_config load reload
read_config-stored env now c t u = go (ltb (now - u) 30) (ltb t t)
  where
    go :
        (fresh newer : Bool)
        → IsRead c t (
            if◌then◌else◌ {A = ConfigManager × Option ChatConfig} fresh
              (record { config = some c; last_modified = t; last_freshness_check = u }, some c)
              (if◌then◌else◌ {A = ConfigManager × Option ChatConfig} newer
                (record { config = some c; last_modified = t; last_freshness_check = now }, some c)
                (
                  record { config = some c; last_modified = t; last_freshness_check = now },
                  some c,
                )))
    go true newer = (refl, (refl, refl))
    go false true = (refl, (refl, refl))
    go false false = (refl, (refl, refl))

read_config-IsRead :
    (env : Text) (now : ℕ) (c : ChatConfig) (s : Configured)
    → IsStored c s
    → IsRead c s.manager.last_modified (read_config env now s.file s.manager)
read_config-IsRead env now c s (e, g) =
    subst
      (λ (file : Option ConfigFile).
        IsRead c s.manager.last_modified (read_config env now file s.manager))
      (sym g)
      (subst
        (λ (config : Option ChatConfig). IsRead c s.manager.last_modified (
          read_config env now (some (record { content = some c; mtime = s.manager.last_modified }))
            (record {
              config = config;
              last_modified = s.manager.last_modified;
              last_freshness_check = s.manager.last_freshness_check;
            })))
        (sym e)
        (read_config-stored env now c s.manager.last_modified s.manager.last_freshness_check))

getter-IsStored :
    {A : Type 0} (f : ChatConfig → A) (env : Text) (now : ℕ) (c : ChatConfig) (s : Configured)
    → IsStored c s
    → ((getter f env now s).1 ≡ some (f c)) × IsStored c (getter f env now s).0
unfolding getter
getter-IsStored f env now c s (e, g) =
    let (read, (kept, time)) = read_config-IsRead env now c s (e, g) in
    (
      ap (get_field f) read,
      (kept, g ∙ ap (λ u. some (record { content = some c; mtime = u })) (sym time)),
    )

-- Readers at some times, one after the other.
abbrev pub read_at : Text → List ℕ → Configured → Configured
read_at env [] s = s
read_at env (now ∷ times) s = read_at env times (get_available_models env now s).0

read_at-IsStored :
    (env : Text) (times : List ℕ) (c : ChatConfig) (s : Configured)
    → IsStored c s
    → IsStored c (read_at env times s)
unfolding get_available_models
read_at-IsStored env [] c s h = h
read_at-IsStored env (now ∷ times) c s h =
    read_at-IsStored env times c _ (getter-IsStored (λ c. c.models) env now c s h).1

-- The configuration that a reader should see: the one in memory, unless the interval has passed
-- since the last check and a newer file can be read.
abbrev pub content_or : ChatConfig → Option ChatConfig → ChatConfig
content_or c none = c
content_or c (some d) = d

abbrev pub newest : ChatConfig → ℕ → Option ConfigFile → ChatConfig
newest c t none = c
newest c t (some f) = if ltb t f.mtime then content_or c f.content else c

abbrev pub seen : ChatConfig → ℕ → ℕ → ℕ → Option ConfigFile → ChatConfig
seen c t u now file = if ltb (now - u) config_freshness_check_interval then c else newest c t file

-- `read_config` with a configuration in memory never raises, and returns and keeps the configuration
-- that a reader should see.
pub read_config_lem :
    (env : Text) (now : ℕ) (file : Option ConfigFile) (c : ChatConfig) (t u : ℕ)
    → let m : ConfigManager = record {
      config = some c;
      last_modified = t;
      last_freshness_check = u;
    } in
      ((read_config env now file m).1 ≡ some (seen c t u now file))
      × ((read_config env now file m).0.config ≡ some (seen c t u now file))
unfolding read_config load reload fall_back
read_config_lem env now file c t u = fresh (ltb (now - u) 30) (loaded file)
  where
    m : ConfigManager
    m = record { config = some c; last_modified = t; last_freshness_check = u }

    Sees : ChatConfig → ConfigManager × Option ChatConfig → Type 0
    Sees d (n, o) = (o ≡ some d) × (n.config ≡ some d)

    read :
        (content : Option ChatConfig) (mtime : ℕ)
        → Sees (content_or c content) (reload env now mtime content m)
    read none mtime = (refl, refl)
    read (some d) mtime = (refl, refl)

    newer :
        (f : ConfigFile) (b : Bool)
        → Sees (if b then content_or c f.content else c) (
            if◌then◌else◌ {A = ConfigManager × Option ChatConfig} b
              (reload env now f.mtime f.content m)
              (checked now m, some c))
    newer f true = read f.content f.mtime
    newer f false = (refl, refl)

    loaded : (file : Option ConfigFile) → Sees (newest c t file) (load env now file m)
    loaded none = (refl, refl)
    loaded (some f) = newer f (ltb t f.mtime)

    fresh :
        (b : Bool)
        → Sees (newest c t file) (load env now file m)
        → Sees (if b then c else newest c t file) (
            if◌then◌else◌ {A = ConfigManager × Option ChatConfig} b
              (m, some c)
              (load env now file m))
    fresh true h = (refl, refl)
    fresh false h = h

-- A reader of a manager with a configuration gets one.
read_config-some :
    (env : Text) (now : ℕ) (c : ChatConfig) (s : Configured)
    → s.manager.config ≡ some c
    → (d : ChatConfig) × ((read_config env now s.file s.manager).1 ≡ some d)
read_config-some env now c s q =
    subst
      (λ (config : Option ChatConfig).
        (d : ChatConfig) × ((read_config env now s.file (record {
          config = config;
          last_modified = s.manager.last_modified;
          last_freshness_check = s.manager.last_freshness_check;
        })).1
          ≡ some d))
      (sym q)
      (
        seen c s.manager.last_modified s.manager.last_freshness_check now s.file,
        (read_config_lem env now s.file c s.manager.last_modified s.manager.last_freshness_check).0,
      )

-- What an update that is written leaves.
abbrev IsUpdated : (ChatConfig → ChatConfig) → Configured × Bool → Type 0
IsUpdated f (s, ok) = (ok ≡ true) × ((d : ChatConfig) × IsStored (f d) s)

updater-IsUpdated :
    (f : ChatConfig → ChatConfig) (env : Text) (moment : Moment) (stamp : ℕ) (c : ChatConfig)
    (s : Configured)
    → moment.stamp ≡ some stamp
    → s.manager.config ≡ some c
    → IsUpdated f (updater f env moment s)
unfolding updater write_config
updater-IsUpdated f env moment stamp c s p q =
    let (d, e) = read_config-some env moment.now c s q in
    written moment.stamp (read_config env moment.now s.file s.manager) d p e
  where
    written :
        (writes : Option ℕ) (r : ConfigManager × Option ChatConfig) (d : ChatConfig)
        → writes ≡ some stamp
        → r.1 ≡ some d
        → IsUpdated f (elim r.1 as (λ _. Configured × Bool) [
          | none ↦ (record s { manager = r.0 }, false)
          | some x ↦
              write_stamped writes moment.now
                (f x)
                (record s { manager = record (r.0) { config = some (f x) } })
        ])
    written none r d w e = absurd (cc)
    written (some u) (m, none) d w e = absurd (cc)
    written (some u) (m, some x) d w e = (refl, (x, (refl, refl)))

-- With a configuration in memory and a file that can be written, `updated_selected_model` succeeds,
-- and every later reader of the model, at whatever times others read in between, gets the new one as
-- long as only the server writes the file.
pub updated_selected_model-get :
    (env new_model : Text) (moment : Moment) (stamp : ℕ) (c : ChatConfig) (s : Configured)
    → moment.stamp ≡ some stamp
    → s.manager.config ≡ some c
    → (times : List ℕ) (now : ℕ)
    → ((updated_selected_model new_model env moment s).1 ≡ true)
      × ((get_selected_model env now
            (read_at env times (updated_selected_model new_model env moment s).0)).1
          ≡ some (some new_model))
unfolding updated_selected_model get_selected_model
updated_selected_model-get env new_model moment stamp c s p q times now =
    let (ok, (d, stored)) =
      updater-IsUpdated (λ d. record d { selected_model = some new_model }) env moment stamp c s p
        q in
    let later =
      read_at-IsStored env times (record d { selected_model = some new_model }) _ stored in
    (ok, (getter-IsStored (λ d. d.selected_model) env now _ _ later).0)
