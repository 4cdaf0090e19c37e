-- ===== src/Stream/Shown.antt =====
-- What the streamed output shows: the received text without its `<think>` blocks.
use rag_agent_chatbot.Prelude.{
  ℕ, String, ◌<◌, ◌≡◌, refl, ap, ◌∙◌, sym, Bool, true, false, Option, none, some, List, [], ◌∷◌,
  ◌++◌, arith, if◌then◌else◌, take, Bool-cases, inl, inr, append-nil, All,
}
use rag_agent_chatbot.Text.{Text, joined}
use rag_agent_chatbot.Think.{open_tag}
use rag_agent_chatbot.Think.Strip.{strip_from, strip_think}
use rag_agent_chatbot.Think.Drain.{IsSettled, strip_held}
use rag_agent_chatbot.Stream.{
  Delta, Choice, Chunk, Stream, start, is_tool_finish, merge_tool_calls, finish_choice, take_choice,
  take_delta, take_choices, record_usage, take_chunks, stream_response, Usage,
}
use rag_agent_chatbot.Stream.Received.{
  Received, receive, receive_delta, receive_choices, receive_chunks, received, NoToolFinish,
}
use rag_agent_chatbot.Stream.Content.{buffer, HasRead, Follows, take_content-Follows}

finish_choice-Follows :
    (a : Received) (s : Stream) (d : Delta) (reason : Option String)
    → is_tool_finish reason ≡ false
    → Follows a s
    → (u : Stream) × (finish_choice s d reason ≡ (u, true)) × Follows a u
unfolding finish_choice
finish_choice-Follows a s d reason h f =
    let u : Stream = record s { tool_calls = merge_tool_calls s.tool_calls d.tool_calls } in
    (
      u,
      rw h,
      record {
        reads = record { kept = f.reads.kept; settled = f.reads.settled; fresh = f.reads.fresh };
        seen = f.seen;
        going_on = f.going_on;
      },
    )

take_choice-Follows :
    (a : Received) (s : Stream) (delta : Option Delta) (reason : Option String)
    → is_tool_finish reason ≡ false
    → Follows a s
    → (u : Stream) × (take_choice s delta reason ≡ some (u, true))
      × Follows (receive_delta a delta) u
unfolding take_choice take_delta receive_delta
take_choice-Follows a s none reason h f = (s, refl, f)
take_choice-Follows a s (some d) reason h f =
    let (t, go_on, run, g) = take_content-Follows a s d.content f in
    let (u, done, g') = finish_choice-Follows (receive a d.content) t d reason h g in
    elim (Bool-cases go_on) [
      | inl on ↦ (u, rw (run, take_delta) (rw on (ap some done)), g')
      | inr off ↦ (t, rw (run, take_delta) (rw off refl), g)
    ]

take_choices-Follows :
    (a : Received) (s : Stream) (choices : List Choice)
    → All (λ (x : Choice). is_tool_finish x.finish_reason ≡ false) choices
    → Follows a s
    → (u : Stream) × (take_choices s choices ≡ some u) × Follows (receive_choices a choices) u
unfolding take_choices receive_choices
take_choices-Follows a s [] h f = (s, refl, f)
take_choices-Follows a s (c ∷ choices) h f =
    let (t, run, g) = take_choice-Follows a s c.delta c.finish_reason h.0 f in
    let (u, rest, g') = take_choices-Follows (receive_delta a c.delta) t choices h.1 g in
    (u, rw (run, take_choices) rest, g')

record_usage-Follows :
    (a : Received) (s : Stream) (u : Option Usage) → Follows a s → Follows a (record_usage s u)
unfolding record_usage
record_usage-Follows a s none f = f
record_usage-Follows a s (some u) f = record {
  reads = record { kept = f.reads.kept; settled = f.reads.settled; fresh = f.reads.fresh };
  seen = f.seen;
  going_on = f.going_on;
}

take_chunks-Follows :
    (a : Received) (s : Stream) (chunks : List Chunk)
    → NoToolFinish chunks
    → Follows a s
    → (u : Stream) × (take_chunks s chunks ≡ some u) × Follows (receive_chunks a chunks) u
unfolding take_chunks receive_chunks
take_chunks-Follows a s [] h f = (s, refl, f)
take_chunks-Follows a s (c ∷ chunks) h f =
    let g = record_usage-Follows a s c.usage f in
    let (t, run, g') = take_choices-Follows a (record_usage s c.usage) c.choices h.0 g in
    let (u, rest, g'') = take_chunks-Follows (receive_choices a c.choices) t chunks h.1 g' in
    (u, rw (g.going_on, take_chunks) (rw (run, take_chunks) rest), g'')

start-Follows : Follows (record { started = false; text = [] }) start
unfolding strip_from
start-Follows = record {
  reads = record {
    kept = λ r. refl;
    settled = record { held = λ _. (0, omega arith, refl); hidden = λ _. refl };
    fresh = λ _. (refl, refl, refl, refl);
  };
  seen = refl;
  going_on = refl;
}

-- What is left in the buffer at the end of the stream, and would still be shown.
unfoldable pub unshown : Stream → Text
unshown s = if s.in_think then [] else s.pending

unshown-part :
    (s : Stream) → IsSettled (buffer s) → (k : ℕ) × (k < 7) × (unshown s ≡ take k open_tag)
unfolding unshown
unshown-part s h = elim (Bool-cases s.in_think) [
  | inl inside ↦ (0, omega arith, ap (λ (b : Bool). if b then [] else s.pending) inside)
  | inr outside ↦
      let (k, small, part) = h.held outside in
      (k, small, ap (λ (b : Bool). if b then [] else s.pending) outside ∙ part)
]

strip-unshown :
    (a : Received) (s : Stream)
    → HasRead a.text s
    → strip_from s.in_think 0 (s.pending ++ []) ≡ unshown s
unfolding unshown
strip-unshown a s h = elim (Bool-cases s.in_think) [
  | inl inside ↦
      ap (λ b. strip_from b 0 (s.pending ++ [])) inside
      ∙ ap (strip_from true 0) (append-nil s.pending)
      ∙ h.settled.hidden inside
      ∙ sym (ap (λ (b : Bool). if b then [] else s.pending) inside)
  | inr outside ↦
      let (k, small, part) = h.settled.held outside in
      ap (λ b. strip_from b 0 (s.pending ++ [])) outside
      ∙ ap strip_think (append-nil s.pending ∙ part)
      ∙ strip_held k small
      ∙ sym part
      ∙ sym (ap (λ (b : Bool). if b then [] else s.pending) outside)
]

-- On every stream in which no choice ends in tool calls, whatever the cuts between its chunks, the
-- method returns, and the tokens sent, with what is left unshown, are together exactly the
-- received text without its `<think>` blocks; and what is left unshown is a proper beginning of
-- the tag `<think>`.
pub stream_response_lem :
    (chunks : List Chunk)
    → NoToolFinish chunks
    → (s : Stream) × (stream_response chunks ≡ some s)
      × (joined s.output ++ unshown s ≡ strip_think (received chunks))
      × ((k : ℕ) × (k < 7) × (unshown s ≡ take k open_tag))
unfolding stream_response received
stream_response_lem chunks h =
    let a : Received = record { started = false; text = [] } in
    let (s, run, f) = take_chunks-Follows a start chunks h start-Follows in
    let b = receive_chunks a chunks in
    (
      s,
      run,
      sym (
          ap strip_think (sym (append-nil b.text))
          ∙ f.reads.kept []
          ∙ ap (λ t. joined s.output ++ t) (strip-unshown b s f.reads)),
      unshown-part s f.reads.settled,
    )
