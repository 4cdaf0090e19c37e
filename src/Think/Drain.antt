-- ===== src/Think/Drain.antt =====
-- The buffer loop against the specification: its fuel is enough, and what it emits and keeps
-- says the same of every continuation as the text that it was given.
use rag_agent_chatbot.Prelude.{
  ℕ, zero, suc, ◌+◌, ◌<◌, ◌≡◌, refl, ap, ◌∙◌, sym, Bool, true, false, Option, none, some, [], ◌∷◌,
  ◌++◌, arith, length, take, drop, Bool-cases, Option-cases, inl, inr, length-drop, length-take,
  append_assoc,
}
use mathlib.Core.Bool.{false≢true}
use rag_agent_chatbot.Text.{Text, text_eq, text_eq_iff, starts_with, find}
use rag_agent_chatbot.Think.{
  open_tag, close_tag, held_close, held_open, hold_back, Buffer, drain, feed,
}
use rag_agent_chatbot.Think.Tags.{
  each_under, each_under_member, held_open-none, held_open-some, ends_with_split,
}
use rag_agent_chatbot.Think.Strip.{
  strip_from, strip_think, strip_found_open, strip_found_close, strip_forget, strip_flush,
  strip_hold, find-none,
}

-- What the loop leaves in the buffer: outside a block a proper beginning of the opening tag,
-- inside one nothing that would be shown.
pub record IsSettled (b : Buffer) : Type 0 where
  pub held : b.in_think ≡ false → (k : ℕ) × (k < 7) × (b.pending ≡ take k open_tag)
  pub hidden : b.in_think ≡ true → strip_from true 0 b.pending ≡ []

pub record IsDrained (in_think : Bool) (pending emit : Text) (b : Buffer) : Type 0 where
  pub kept :
      (r : Text)
      → emit ++ strip_from in_think 0 (pending ++ r)
        ≡ b.emit ++ strip_from b.in_think 0 (b.pending ++ r)
  pub settled : IsSettled b

strip_unclosed : (p : Text) → find close_tag p ≡ none → strip_from true 0 p ≡ []
unfolding strip_from
strip_unclosed [] h = refl
strip_unclosed (c ∷ p) h =
    let (miss, rest) = find-none close_tag c p h in rw (miss, strip_from) (strip_unclosed p rest)

-- The result, where nothing is held.
IsSettled-empty :
    (emit : Text) (in_think : Bool)
    → IsSettled (record { emit = emit; in_think = in_think; pending = [] })
unfolding strip_from
IsSettled-empty emit in_think = record { held = λ _. (0, omega arith, refl); hidden = λ _. refl }

hold_back-IsDrained :
    (pending emit : Text) (o : Option ℕ)
    → find open_tag pending ≡ none
    → held_open pending ≡ o
    → IsDrained false pending emit (hold_back emit pending o)
unfolding hold_back
hold_back-IsDrained pending emit none h scan = record {
  kept = λ r.
      ap (λ t. emit ++ t) (strip_flush pending r h (held_open-none pending scan))
      ∙ sym (append_assoc emit pending _);
  settled = IsSettled-empty _ false;
}
hold_back-IsDrained pending emit (some i) h scan =
    let (hit, lo, hi) = held_open-some pending i scan in
    let cut = (ends_with_split (take i open_tag) pending hit).1 in
    let size : length (take i open_tag) ≡ i = length-take i open_tag (omega arith) in
    record {
      kept = λ r.
          ap (λ t. emit ++ t) (strip_hold pending r i h lo hi hit) ∙ sym (append_assoc emit _ _);
      settled = record { held = λ _. (i, hi, rw size at cut); hidden = λ e. absurd (false≢true e) };
    }

-- The loop ends within its fuel, and its result stands for the same text.
pub drain_lem :
    (fuel : ℕ) (in_think : Bool) (pending emit : Text)
    → length pending < fuel
    → (b : Buffer) × (drain fuel in_think pending emit ≡ some b) × IsDrained in_think pending emit b
unfolding drain
drain_lem zero in_think pending emit h = absurd (omega arith)
drain_lem (suc fuel) true [] emit h = (
  record { emit = emit; in_think = true; pending = [] },
  refl,
  record { kept = λ r. refl; settled = IsSettled-empty emit true },
)
drain_lem (suc fuel) false [] emit h = (
  record { emit = emit; in_think = false; pending = [] },
  refl,
  record { kept = λ r. refl; settled = IsSettled-empty emit false },
)
drain_lem (suc fuel) true (c ∷ cs) emit h = elim (Option-cases (find close_tag (c ∷ cs))) [
  | inl miss ↦ elim (Bool-cases (held_close (c ∷ cs))) [
    | inl part ↦ (
      record { emit = emit; in_think = true; pending = c ∷ cs },
      rw (miss, part, drain),
      record {
        kept = λ r. refl;
        settled = record {
          held = λ e. absurd (false≢true (sym e));
          hidden = λ _. strip_unclosed (c ∷ cs) miss;
        };
      },
    )
    | inr gone ↦ (
      record { emit = emit; in_think = true; pending = [] },
      rw (miss, gone, drain),
      record {
        kept = λ r. ap (λ t. emit ++ t) (strip_forget (c ∷ cs) r miss gone);
        settled = IsSettled-empty emit true;
      },
    )
  ]
  | inr (i, hit) ↦
      let pending : Text = c ∷ cs in
      let (b, run, done) =
        drain_lem fuel false (drop (i + 8) pending) emit
          (omega (arith, length-drop (i + 8) pending)) in
      (
        b,
        rw (hit, drain) run,
        record {
          kept = λ r. ap (λ t. emit ++ t) (strip_found_close pending r i hit) ∙ done.kept r;
          settled = done.settled;
        },
      )
]
drain_lem (suc fuel) false (c ∷ cs) emit h = elim (Option-cases (find open_tag (c ∷ cs))) [
  | inl miss ↦ (
    hold_back emit (c ∷ cs) (held_open (c ∷ cs)),
    rw (miss, drain),
    hold_back-IsDrained (c ∷ cs) emit (held_open (c ∷ cs)) miss refl,
  )
  | inr (i, hit) ↦
      let pending : Text = c ∷ cs in
      let (b, run, done) =
        drain_lem fuel true (drop (i + 7) pending) (emit ++ take i pending)
          (omega (arith, length-drop (i + 7) pending)) in
      (
        b,
        rw (hit, drain) run,
        record {
          kept = λ r.
              ap (λ t. emit ++ t) (strip_found_open pending r i hit)
              ∙ sym (append_assoc emit (take i pending) _)
              ∙ done.kept r;
          settled = done.settled;
        },
      )
]

-- The fuel that `feed` gives is enough for every buffer and every content.
pub feed_lem :
    (in_think : Bool) (pending content : Text)
    → (b : Buffer) × (feed in_think pending content ≡ some b)
      × IsDrained in_think (pending ++ content) [] b
unfolding feed
feed_lem in_think pending content =
    drain_lem (suc (length (pending ++ content))) in_think (pending ++ content) [] (omega arith)

held_table : each_under 7 (λ k. text_eq (strip_think (take k open_tag)) (take k open_tag)) ≡ true
unfolding each_under text_eq strip_from starts_with
held_table = refl

-- A proper beginning of the opening tag is shown as it is.
pub strip_held : (k : ℕ) → k < 7 → strip_think (take k open_tag) ≡ take k open_tag
strip_held k h = text_eq_iff _ _ (
    each_under_member 7 (λ (k : ℕ). text_eq (strip_think (take k open_tag)) (take k open_tag)) k
      held_table h)
