-- ===== src/Stream/Content.antt =====
-- One content of the stream: the filter's state follows the text received so far.
use mathlib.Core.Bool.{false≢true}
use rag_agent_chatbot.Prelude.{
  ◌≡◌, refl, ap, ◌∙◌, sym, Bool, true, false, some, [], ◌∷◌, ◌++◌, if◌then◌else◌, drop, Bool-cases,
  inl, inr, append_assoc, append-nil,
}
use rag_agent_chatbot.Text.{Text, starts_with, lstrip, starts_with_split, joined, joined-concat}
use rag_agent_chatbot.Think.{open_tag, Buffer}
use rag_agent_chatbot.Think.Strip.{strip_from, strip_think}
use rag_agent_chatbot.Think.Drain.{IsSettled, IsDrained, feed_lem}
use rag_agent_chatbot.Stream.{
  Stream, append_emit, absorb, filter_content, enter_block, push_content, take_content,
}
use rag_agent_chatbot.Stream.Received.{lead, Received, receive}

-- The buffer of a stream.
abbrev pub buffer : Stream → Buffer
buffer s = record { emit = []; in_think = s.in_think; pending = s.pending }

-- `s` has been reached by the text `t`.
pub record HasRead (t : Text) (s : Stream) : Type 0 where
  pub kept :
      (r : Text)
      → strip_think (t ++ r) ≡ joined s.output ++ strip_from s.in_think 0 (s.pending ++ r)
  pub settled : IsSettled (buffer s)
  pub fresh :
      s.seen_first_content ≡ false
      → (t ≡ []) × (s.output ≡ []) × (s.in_think ≡ false) × (s.pending ≡ [])

joined-append_emit :
    (s : Stream) (e : Text)
    → (joined (append_emit s e).output ≡ joined s.output ++ e)
      × ((append_emit s e).in_think ≡ s.in_think)
      × ((append_emit s e).pending ≡ s.pending)
      × ((append_emit s e).seen_first_content ≡ s.seen_first_content)
      × ((append_emit s e).saw_tool_finish ≡ s.saw_tool_finish)
unfolding append_emit
joined-append_emit s [] = (sym (append-nil (joined s.output)), refl, refl, refl, refl)
joined-append_emit s (c ∷ cs) = (joined-concat s.output (c ∷ cs), refl, refl, refl, refl)

absorb-HasRead :
    (t : Text) (s : Stream) (content : Text) (b : Buffer)
    → HasRead t s
    → s.seen_first_content ≡ true
    → IsDrained s.in_think (s.pending ++ content) [] b
    → HasRead (t ++ content) (absorb s b)
      × ((absorb s b).seen_first_content ≡ true)
      × ((absorb s b).saw_tool_finish ≡ s.saw_tool_finish)
unfolding absorb
absorb-HasRead t s content b h seen done =
    let s' : Stream = record s { in_think = b.in_think; pending = b.pending } in
    let (out, think, pend, first, saw) = joined-append_emit s' b.emit in
    (
      record {
        kept = λ r.
            ap strip_think (append_assoc t content r)
            ∙ h.kept (content ++ r)
            ∙ ap (λ x. joined s.output ++ strip_from s.in_think 0 x)
                (sym (append_assoc s.pending content r))
            ∙ ap (λ x. joined s.output ++ x) (done.kept r)
            ∙ sym (append_assoc (joined s.output) b.emit _)
            ∙ rw (out, think, pend);
        settled = record {
          held = λ e. rw pend (done.settled.held (sym think ∙ e));
          hidden = λ e. rw pend (done.settled.hidden (sym think ∙ e));
        };
        fresh = λ e. absurd (false≢true (sym e ∙ first ∙ seen));
      },
      first ∙ seen,
      saw,
    )

filter_content_lem :
    (t : Text) (s : Stream) (content : Text)
    → HasRead t s
    → s.seen_first_content ≡ true
    → (u : Stream) × (filter_content s content ≡ some (u, true))
      × HasRead (t ++ content) u
      × (u.seen_first_content ≡ true)
      × (u.saw_tool_finish ≡ s.saw_tool_finish)
unfolding filter_content
filter_content_lem t s content h seen =
    let (b, run, done) = feed_lem s.in_think s.pending content in
    let (reads, first, saw) = absorb-HasRead t s content b h seen done in
    (absorb s b, rw (run, filter_content), reads, first, saw)

-- The state behind an opening tag at the very start.
entered :
    (s : Stream)
    → HasRead [] s
    → s.seen_first_content ≡ false
    → HasRead open_tag (record s { seen_first_content = true; in_think = true })
unfolding strip_from starts_with
entered s h new =
    let (none_read, nothing, outside, empty) = h.fresh new in
    record {
      kept = λ r. rw (nothing, empty) refl;
      settled = record { held = λ e. absurd (false≢true (sym e)); hidden = λ _. rw empty refl };
      fresh = λ e. absurd (false≢true (sym e));
    }

-- The stream has read what is received so far, and no tool call has ended it.
pub record Follows (a : Received) (s : Stream) : Type 0 where
  pub reads : HasRead a.text s
  pub seen : s.seen_first_content ≡ a.started
  pub going_on : s.saw_tool_finish ≡ false

lead_open :
    (c : Text) → starts_with open_tag (lstrip c) ≡ true → lead c ≡ open_tag ++ drop 7 (lstrip c)
unfolding lead
lead_open c h = rw h (sym (starts_with_split open_tag (lstrip c) h))

enter_block-Follows :
    (s : Stream) (rest : Text)
    → HasRead [] s
    → s.seen_first_content ≡ false
    → s.saw_tool_finish ≡ false
    → (u : Stream) × (go_on : Bool) × (enter_block
          (record s { seen_first_content = true; in_think = true })
          rest
        ≡ some (u, go_on))
      × Follows (record { started = true; text = open_tag ++ rest }) u
unfolding enter_block
enter_block-Follows s [] h new saw = (
  record s { seen_first_content = true; in_think = true },
  false,
  refl,
  record { reads = entered s h new; seen = refl; going_on = saw },
)
enter_block-Follows s (c ∷ cs) h new saw =
    let s' : Stream = record s { seen_first_content = true; in_think = true } in
    let (u, run, reads, first, same) =
      filter_content_lem open_tag s' (c ∷ cs) (entered s h new) refl in
    (u, true, run, record { reads = reads; seen = first; going_on = same ∙ saw })

plain_start : (s : Stream) → HasRead [] s → HasRead [] (record s { seen_first_content = true })
plain_start s h = record {
  kept = h.kept;
  settled = h.settled;
  fresh = λ e. absurd (false≢true (sym e));
}

-- The three ways of a content, under the state's flag.
push_later :
    (s : Stream) (c : Text) → s.seen_first_content ≡ true → push_content s c ≡ filter_content s c
unfolding push_content
push_later s c h =
    ap
      (λ b.
        if b
        then filter_content s c
        else if starts_with open_tag (lstrip c)
        then enter_block (record s { seen_first_content = true; in_think = true })
            (drop 7 (lstrip c))
        else filter_content (record s { seen_first_content = true }) c)
      h

push_first :
    (s : Stream) (c : Text)
    → s.seen_first_content ≡ false
    → push_content s c ≡ (
        if starts_with open_tag (lstrip c)
        then enter_block
            (record s { seen_first_content = true; in_think = true })
            (drop 7 (lstrip c))
        else filter_content (record s { seen_first_content = true }) c)
unfolding push_content
push_first s c h =
    ap
      (λ b.
        if b
        then filter_content s c
        else if starts_with open_tag (lstrip c)
        then enter_block (record s { seen_first_content = true; in_think = true })
            (drop 7 (lstrip c))
        else filter_content (record s { seen_first_content = true }) c)
      h

pub take_content-Follows :
    (a : Received) (s : Stream) (c : Text)
    → Follows a s
    → (u : Stream) × (go_on : Bool) × (take_content s c ≡ some (u, go_on)) × Follows (receive a c) u
unfolding take_content receive
take_content-Follows a s [] f = (s, true, refl, f)
take_content-Follows a s (c ∷ cs) f = elim (Bool-cases a.started) [
  | inl old ↦
      let (u, run, reads, first, same) =
        filter_content_lem a.text s (c ∷ cs) f.reads (f.seen ∙ old) in
      (
        u,
        true,
        push_later s (c ∷ cs) (f.seen ∙ old) ∙ run,
        record { reads = rw old reads; seen = first; going_on = same ∙ f.going_on },
      )
  | inr new ↦
      let unseen : s.seen_first_content ≡ false = f.seen ∙ new in
      let none_read : a.text ≡ [] = (f.reads.fresh unseen).0 in
      let h : HasRead [] s = rw none_read at f.reads in
      elim (Bool-cases (starts_with open_tag (lstrip (c ∷ cs)))) [
        | inl tag ↦
            let (u, go_on, run, done) =
              enter_block-Follows s (drop 7 (lstrip (c ∷ cs))) h unseen f.going_on in
            (
              u,
              go_on,
              push_first s (c ∷ cs) unseen ∙ rw tag run,
              record {
                reads = rw (none_read, new, lead_open (c ∷ cs) tag) done.reads;
                seen = done.seen;
                going_on = done.going_on;
              },
            )
        | inr plain ↦
            let (u, run, reads, first, same) =
              filter_content_lem [] (record s { seen_first_content = true }) (c ∷ cs)
                (plain_start s h) refl in
            (
              u,
              true,
              push_first s (c ∷ cs) unseen ∙ rw plain run,
              record {
                reads = rw (none_read, new) (unfold lead in rw plain reads);
                seen = first;
                going_on = same ∙ f.going_on;
              },
            )
      ]
]
