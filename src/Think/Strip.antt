-- ===== src/Think/Strip.antt =====
-- The filter's specification: a text without its `<think>` blocks, read in one pass, and how it
-- behaves at the places where the buffer loop cuts a text.
use rag_agent_chatbot.Prelude.{
  ℕ, zero, suc, ◌+◌, ◌-◌, ◌≤◌, ◌<◌, ◌≡◌, refl, ap, ◌∙◌, sym, Bool, true, false, Option, none, some,
  [], ◌∷◌, ◌++◌, arith, ◌⊎◌, length, take, drop, Bool-cases, inl, inr, length-take,
}
use mathlib.Core.Bool.{false≢true}
use native.Mathlib.Decide.{dec_lt}
use rag_agent_chatbot.Text.{
  Text, starts_with, ends_with, find, later, starts_with-append, starts_with_beyond, length_of_find,
  length_of_starts_with, drop-append,
}
use rag_agent_chatbot.Think.{open_tag, close_tag, held_close}
use rag_agent_chatbot.Think.Tags.{
  held_close-take, held_close_tail, open_inside, ends_with_split, ends_with_tail,
  ends_with_tail_false, ends_with_self,
}

-- The characters left to show: `in_think` says whether the text starts inside a block, and `skip`
-- how many characters of a tag are still to pass over. A block that is never closed shows nothing.
unfoldable pub strip_from : Bool → ℕ → Text → Text
strip_from in_think skip [] = []
strip_from in_think (suc skip) (c ∷ t) = strip_from in_think skip t
strip_from false zero (c ∷ t) = elim (starts_with open_tag (c ∷ t)) [
  | true ↦ strip_from true 6 t
  | false ↦ c ∷ strip_from false zero t
]
strip_from true zero (c ∷ t) = elim (starts_with close_tag (c ∷ t)) [
  | true ↦ strip_from false 7 t
  | false ↦ strip_from true zero t
]

-- The text without its blocks.
abbrev pub strip_think : Text → Text
strip_think t = strip_from false 0 t

strip_skip : (b : Bool) (n : ℕ) (t : Text) → strip_from b n t ≡ strip_from b 0 (drop n t)
unfolding strip_from
strip_skip true zero t = refl
strip_skip false zero t = refl
strip_skip true (suc n) [] = refl
strip_skip false (suc n) [] = refl
strip_skip true (suc n) (c ∷ t) = strip_skip true n t
strip_skip false (suc n) (c ∷ t) = strip_skip false n t

pub strip_open :
    (c : ℕ) (t : Text)
    → starts_with open_tag (c ∷ t) ≡ true
    → strip_from false 0 (c ∷ t) ≡ strip_from true 0 (drop 6 t)
unfolding strip_from
strip_open c t h = rw (h, strip_from) (strip_skip true 6 t)

pub strip_shown :
    (c : ℕ) (t : Text)
    → starts_with open_tag (c ∷ t) ≡ false
    → strip_from false 0 (c ∷ t) ≡ c ∷ strip_from false 0 t
unfolding strip_from
strip_shown c t h = rw (h, strip_from)

pub strip_close :
    (c : ℕ) (t : Text)
    → starts_with close_tag (c ∷ t) ≡ true
    → strip_from true 0 (c ∷ t) ≡ strip_from false 0 (drop 7 t)
unfolding strip_from
strip_close c t h = rw (h, strip_from) (strip_skip false 7 t)

pub strip_hidden :
    (c : ℕ) (t : Text)
    → starts_with close_tag (c ∷ t) ≡ false
    → strip_from true 0 (c ∷ t) ≡ strip_from true 0 t
unfolding strip_from
strip_hidden c t h = rw (h, strip_from)

-- What `find` says of the first character.
find_cases :
    (s : Text) (c : ℕ) (t : Text) (i : ℕ)
    → find s (c ∷ t) ≡ some i
    → ((starts_with s (c ∷ t) ≡ true) × (i ≡ 0))
      ⊎ ((j : ℕ) × (starts_with s (c ∷ t) ≡ false) × (find s t ≡ some j) × (i ≡ suc j))
unfolding find
find_cases s c t i h = elim (Bool-cases (starts_with s (c ∷ t))) [
  | inl here ↦ inl (here, ground arith)
  | inr beyond ↦ inr (go (find s t) refl beyond (rw beyond at h))
]
  where
    go :
        (o : Option ℕ)
        → find s t ≡ o
        → starts_with s (c ∷ t) ≡ false
        → later o ≡ some i
        → (j : ℕ) × (starts_with s (c ∷ t) ≡ false) × (find s t ≡ some j) × (i ≡ suc j)
    go none e b g = absurd (cc)
    go (some j) e b g = (j, b, e, ground arith)

pub find-none :
    (s : Text) (c : ℕ) (t : Text)
    → find s (c ∷ t) ≡ none
    → (starts_with s (c ∷ t) ≡ false) × (find s t ≡ none)
unfolding find
find-none s c t h = ground arith

-- The opening tag found: what stands before it is shown, and the block begins behind it.
pub strip_found_open :
    (p r : Text) (i : ℕ)
    → find open_tag p ≡ some i
    → strip_from false 0 (p ++ r) ≡ take i p ++ strip_from true 0 (drop (i + 7) p ++ r)
strip_found_open [] r i h = absurd (unfold find in cc h)
strip_found_open (c ∷ p) r i h = elim (find_cases open_tag c p i h) [
  | inl (here, first) ↦
      let fits = length_of_starts_with open_tag (c ∷ p) here in
      rw first (
        strip_open c (p ++ r) (starts_with-append open_tag (c ∷ p) r fits ∙ here)
        ∙ ap (strip_from true 0) (drop-append 6 p r (omega arith)))
  | inr (j, beyond, found, next) ↦
      let fits = length_of_find open_tag p j found in
      let step : suc j + 7 ≡ suc (j + 7) = omega arith in
      rw next (
        rw step (
          strip_shown c (p ++ r) (starts_with-append open_tag (c ∷ p) r (omega arith) ∙ beyond)
          ∙ ap (◌∷◌ c) (strip_found_open p r j found)))
]

-- The closing tag found: nothing before it is shown, and the text goes on behind it.
pub strip_found_close :
    (p r : Text) (i : ℕ)
    → find close_tag p ≡ some i
    → strip_from true 0 (p ++ r) ≡ strip_from false 0 (drop (i + 8) p ++ r)
strip_found_close [] r i h = absurd (unfold find in cc h)
strip_found_close (c ∷ p) r i h = elim (find_cases close_tag c p i h) [
  | inl (here, first) ↦
      let fits = length_of_starts_with close_tag (c ∷ p) here in
      rw first (
        strip_close c (p ++ r) (starts_with-append close_tag (c ∷ p) r fits ∙ here)
        ∙ ap (strip_from false 0) (drop-append 7 p r (omega arith)))
  | inr (j, beyond, found, next) ↦
      let fits = length_of_find close_tag p j found in
      let step : suc j + 8 ≡ suc (j + 8) = omega arith in
      rw next (
        rw step (
          strip_hidden c (p ++ r) (starts_with-append close_tag (c ∷ p) r (omega arith) ∙ beyond)
          ∙ strip_found_close p r j found))
]

-- Where a tag does not start in `p` and `p` is no beginning of it, it does not start in `p ++ r`.
starts_later :
    (s p r : Text)
    → starts_with s p ≡ false
    → (length p < length s → p ≡ take (length p) s → ⊥)
    → starts_with s (p ++ r) ≡ false
starts_later s p r miss open_end = elim (Bool-cases (starts_with s (p ++ r))) [
  | inr no_start ↦ no_start
  | inl start ↦ elim (dec_lt (length p) (length s)) [
    | yes short ↦ absurd (open_end short (starts_with_beyond s p r start short))
    | no long ↦ starts_with-append s p r (omega arith) ∙ miss
  ]
]

-- No closing tag, and no part of one at the end: the buffer can be forgotten.
pub strip_forget :
    (p r : Text)
    → find close_tag p ≡ none
    → held_close p ≡ false
    → strip_from true 0 (p ++ r) ≡ strip_from true 0 r
strip_forget [] r h k = refl
strip_forget (c ∷ p) r h k =
    let (miss, rest) = find-none close_tag c p h in
    strip_hidden c (p ++ r) (
      starts_later close_tag (c ∷ p) r miss λ short whole. false≢true (
        sym k ∙ ap held_close whole ∙ held_close-take (length (c ∷ p)) (omega arith) (omega arith)))
    ∙ strip_forget p r rest (held_close_tail c p k)

-- No opening tag, and no part of one at the end: the whole buffer is shown.
pub strip_flush :
    (p r : Text)
    → find open_tag p ≡ none
    → ((k : ℕ) → 1 ≤ k → k < 7 → ends_with (take k open_tag) p ≡ false)
    → strip_from false 0 (p ++ r) ≡ p ++ strip_from false 0 r
strip_flush [] r h k = refl
strip_flush (c ∷ p) r h k =
    let (miss, rest) = find-none open_tag c p h in
    let n = length (c ∷ p) in
    strip_shown c (p ++ r) (
      starts_later open_tag (c ∷ p) r miss λ short whole. false≢true (
        sym (k n (omega arith) (omega arith))
        ∙ ap (ends_with (take n open_tag)) whole
        ∙ ends_with_self (take n open_tag)))
    ∙ ap (◌∷◌ c) (strip_flush p r rest (λ j lo hi. ends_with_tail_false _ c p (k j lo hi)))

-- No opening tag, and a part of one at the end: what stands before that part is shown.
pub strip_hold :
    (p r : Text) (i : ℕ)
    → find open_tag p ≡ none
    → 1 ≤ i
    → i < 7
    → ends_with (take i open_tag) p ≡ true
    → strip_from false 0 (p ++ r)
      ≡ take (length p - i) p ++ strip_from false 0 (drop (length p - i) p ++ r)
strip_hold [] r i h lo hi e = absurd (
    omega (arith, (ends_with_split (take i open_tag) [] e).0, length-take i open_tag (omega arith)))
strip_hold (c ∷ p) r i h lo hi e =
    let size : length (take i open_tag) ≡ i = length-take i open_tag (omega arith) in
    let fits : i ≤ suc (length p) =
      omega (arith, (ends_with_split (take i open_tag) (c ∷ p) e).0) in
    elim (dec_lt (length p) i) [
      | yes all ↦ let nothing : suc (length p) - i ≡ 0 = omega arith in rw nothing
      | no more ↦
          let (miss, rest) = find-none open_tag c p h in
          let next : suc (length p) - i ≡ suc (length p - i) = omega arith in
          let n = length (c ∷ p) in
          rw next (
            strip_shown c (p ++ r) (
              starts_later open_tag (c ∷ p) r miss λ short whole. false≢true (
                sym (open_inside n i lo (omega arith) (omega arith))
                ∙ ap (ends_with (take i open_tag)) (sym whole)
                ∙ e))
            ∙ ap (◌∷◌ c) (
                strip_hold p r i rest lo hi (ends_with_tail (take i open_tag) c p (omega arith) e)))
    ]
