-- ===== src/Agent/Turns.antt =====
-- The turns of one query of assets/backend/agent.py, apart from the others.
use rag_agent_chatbot.Prelude.{ℕ, zero, suc, ◌≡◌, refl, ap, ◌∙◌, Bool, List, [], ◌∷◌, ==_iff}
use rag_agent_chatbot.Agent.{ChatAgent, Query, Phase, update, advance, System, turn, run}

-- The segments of one query, apart from the system.
unfoldable pub steps : Bool → ℕ → Query → ℕ → Phase × ChatAgent → Phase × ChatAgent
steps emits_input i q zero s = s
steps emits_input i q (suc n) (phase, agent) =
    steps emits_input i q n (advance emits_input i q phase agent)

-- A schedule of one query.
abbrev pub alone : ℕ → ℕ → List ℕ
alone zero i = []
alone (suc n) i = i ∷ alone n i

pub update_self {ℓ} : {A : Type ℓ} (f : ℕ → A) (i : ℕ) (a : A) → update f i a i ≡ a
update_self f i a = rw ((==_iff i i).1 refl) refl

-- The turns of one query are its segments.
pub run-alone :
    (emits_input : Bool) (queries : ℕ → Query) (n i : ℕ) (s : System) (phase : Phase)
    → s.phases i ≡ phase
    → let t = run emits_input queries (alone n i) s in
      (t.phases i, t.agent) ≡ steps emits_input i (queries i) n (phase, s.agent)
unfolding run turn steps
run-alone emits_input queries zero i s phase e = ap (λ p. (p, s.agent)) e
run-alone emits_input queries (suc n) i s phase e =
    let next = λ (p : Phase). advance emits_input i (queries i) p s.agent in
    run-alone emits_input queries n i (turn emits_input queries i s) (next phase).0
      (update_self s.phases i (next (s.phases i)).0 ∙ ap (λ p. (next p).0) e)
    ∙ ap (λ p. steps emits_input i (queries i) n ((next phase).0, (next p).1)) e

-- `n + m`, by recursion on the first.
abbrev pub total_of : ℕ → ℕ → ℕ
total_of zero m = m
total_of (suc n) m = suc (total_of n m)

-- Segments in two parts.
pub steps_add :
    (emits_input : Bool) (i : ℕ) (q : Query) (n m : ℕ) (s : Phase × ChatAgent)
    → steps emits_input i q (total_of n m) s ≡ steps emits_input i q m (steps emits_input i q n s)
unfolding steps
steps_add emits_input i q zero m s = refl
steps_add emits_input i q (suc n) m (phase, a) =
    steps_add emits_input i q n m (advance emits_input i q phase a)

pub then_steps :
    (emits_input : Bool) (i : ℕ) (q : Query) (n : ℕ) (phase phase' : Phase) (a a' : ChatAgent)
    → advance emits_input i q phase a ≡ (phase', a')
    → steps emits_input i q (suc n) (phase, a) ≡ steps emits_input i q n (phase', a')
unfolding steps
then_steps emits_input i q n phase phase' a a' e = ap (steps emits_input i q n) e
