-- ===== src/Agent/Overlap.antt =====
-- Two queries of assets/backend/agent.py at once, on the one `ChatAgent` of the process.
use rag_agent_chatbot.Prelude.{
  ℕ, ◌≡◌, ◌≢◌, refl, ap, ◌∙◌, Bool, true, false, Option, none, some, List, [], ◌∷◌, ◌++◌, ◌==◌,
  str_eq, map, any_of, arith,
}
use rag_agent_chatbot.Stream.{Chunk, Stream, stream_response}
use rag_agent_chatbot.Agent.{
  node_start, token, ChatAgent, Query, Phase, waiting, launched, started, streaming, streamed,
  ended, update, put_items, open_stream, put_tokens, advance, System, turn, run,
}
use rag_agent_chatbot.Agent.Serial.{after_launch, after_start, launch-available, start_node-named}
use rag_agent_chatbot.Agent.Turns.{update_self}

pub update_ne {ℓ} :
    {A : Type ℓ} (f : ℕ → A) (i j : ℕ) (a : A) → (i == j) ≡ false → update f i a j ≡ f j
update_ne f i j a h = rw h refl

-- One turn, from what its segment does.
pub turn_lem :
    (emits_input : Bool) (queries : ℕ → Query) (i : ℕ) (s : System) (p p' : Phase) (a' : ChatAgent)
    → s.phases i ≡ p
    → advance emits_input i (queries i) p s.agent ≡ (p', a')
    → turn emits_input queries i s ≡ record { agent = a'; phases = update s.phases i p' }
unfolding turn
turn_lem emits_input queries i s p p' a' e h =
    let next : (advance emits_input i (queries i) (s.phases i) s.agent) ≡ (p', a') =
      ap (λ x. advance emits_input i (queries i) x s.agent) e ∙ h in
    ap (λ (r : Phase × ChatAgent). record { agent = r.1; phases = update s.phases i r.0 }) next

module _ (emits_input : Bool) (queries : ℕ → Query) (i j : ℕ) (s : System) (chunks : List Chunk)
    (out : Stream) (apart : (i == j) ≡ false) (apart' : (j == i) ≡ false)
    (idle_i : s.phases i ≡ waiting) (idle_j : s.phases j ≡ waiting)
    (listed_i : any_of (str_eq (queries i).selected_model) (queries i).available_models ≡ true)
    (listed_j : any_of (str_eq (queries j).selected_model) (queries j).available_models ≡ true)
    (named_i : str_eq (queries i).user_id "" ≡ false)
    (completes : (queries i).completion ≡ some chunks)
    (streams : stream_response chunks ≡ some out) where
  abbrev s₂ : System
  s₂ = record {
    agent = after_start emits_input i (queries i) s.agent out;
    phases = update (update s.phases i launched) i started;
  }

  abbrev s₃ : System
  s₃ = record {
    agent = after_launch emits_input j (queries j) s₂.agent out;
    phases = update s₂.phases j launched;
  }

  abbrev s₅ : System
  s₅ = record {
    agent = put_items j (map token out.output) s₃.agent;
    phases = update (update s₃.phases i (streaming j chunks)) i (streamed (some out));
  }

  runs : run emits_input queries (i ∷ i ∷ j ∷ i ∷ i ∷ []) s ≡ s₅
  unfolding run advance open_stream put_tokens put_items
  runs =
      let s₁ : System = record {
        agent = after_launch emits_input i (queries i) s.agent out;
        phases = update s.phases i launched;
      } in
      let s₄ : System = record {
        agent = s₃.agent;
        phases = update s₃.phases i (streaming j chunks);
      } in
      let step = turn emits_input queries in
      let i_started : s₃.phases i ≡ started =
        update_ne s₂.phases j i launched apart'
        ∙ update_self (update s.phases i launched) i started in
      ap (λ t. step i (step i (step j (step i t))))
        (turn_lem emits_input queries i s waiting launched s₁.agent idle_i
          (launch-available emits_input i (queries i) s.agent out listed_i))
      ∙ ap (λ t. step i (step i (step j t)))
          (turn_lem emits_input queries i s₁ launched started s₂.agent
            (update_self s.phases i launched)
            (start_node-named emits_input i (queries i) s.agent out named_i))
      ∙ ap (λ t. step i (step i t))
          (turn_lem emits_input queries j s₂ waiting launched s₃.agent
            (update_ne (update s.phases i launched) i j started apart
              ∙ update_ne s.phases i j launched apart
              ∙ idle_j)
            (launch-available emits_input j (queries j) s₂.agent out listed_j))
      ∙ ap (λ t. step i t)
          (turn_lem emits_input queries i s₃ started (streaming j chunks) s₃.agent i_started (
            ap
              (λ (c : Option (List Chunk)). elim c as (λ _. Phase × ChatAgent) [
                | none ↦ (ended true, s₃.agent)
                | some chunks' ↦ (streaming j chunks', s₃.agent)
              ])
              completes))
      ∙ turn_lem emits_input queries i s₄ (streaming j chunks) (streamed (some out)) s₅.agent
          (update_self s₃.phases i (streaming j chunks))
          (ap (λ r. (streamed r, put_tokens j r s₃.agent)) streams)

-- Two queries, in any state of the agent in which neither has run: the first starts, the second is
-- launched, and the first goes on to stream its reply. Then every token of the first query's reply
-- stands in the queue of the second, and its own queue holds its start alone.
pub run-overlap_tokens :
    (emits_input : Bool) (queries : ℕ → Query) (i j : ℕ) (s : System) (chunks : List Chunk)
    (out : Stream)
    → i ≢ j
    → s.phases i ≡ waiting
    → s.phases j ≡ waiting
    → any_of (str_eq (queries i).selected_model) (queries i).available_models ≡ true
    → any_of (str_eq (queries j).selected_model) (queries j).available_models ≡ true
    → str_eq (queries i).user_id "" ≡ false
    → (queries i).completion ≡ some chunks
    → stream_response chunks ≡ some out
    → let t = run emits_input queries (i ∷ i ∷ j ∷ i ∷ i ∷ []) s in
      (t.agent.queues j ≡ map token out.output) × (t.agent.queues i ≡ node_start ∷ [])
unfolding put_items
run-overlap_tokens emits_input queries i j s chunks out n a b c d e f g =
    let apart : (i == j) ≡ false = ground arith in
    let apart' : (j == i) ≡ false = ground arith in
    let last = runs emits_input queries i j s chunks out apart apart' a b c d e f g in
    let t₂ = after_start emits_input i (queries i) s.agent out in
    let t₃ = after_launch emits_input j (queries j) t₂ out in
    (
      ap (λ (x : System). x.agent.queues j) last
          ∙ update_self t₃.queues j (t₃.queues j ++ map token out.output)
          ∙ ap (λ l. l ++ map token out.output) (update_self t₂.queues j []),
      ap (λ (x : System). x.agent.queues i) last
          ∙ update_ne t₃.queues j i _ apart'
          ∙ update_ne t₂.queues j i [] apart'
          ∙ update_self (update s.agent.queues i []) i
              (update s.agent.queues i [] i ++ node_start ∷ [])
          ∙ ap (λ l. l ++ node_start ∷ []) (update_self s.agent.queues i []),
    )
