-- ===== src/Think/Tags.antt =====
-- The two tags, what it means that a buffer ends in a part of one, and the checks for it.
use Prim.Native.Nat.{min}
use rag_agent_chatbot.Prelude.{
  ℕ, zero, suc, ◌+◌, ◌-◌, ◌≤◌, ◌<◌, ◌≡◌, refl, ap, Bool, true, false, not, none, some, List, [],
  ◌∷◌, arith, ==_iff, ◌==◌, ◌||◌, length, take, drop, length-take, any_of, Bool-cases,
  if◌then◌else◌, inl, inr,
}
use rag_agent_chatbot.Text.{Text, text_eq, text_eq_iff, text_eq_refl, ends_with}
use rag_agent_chatbot.Think.{open_tag, close_tag, close_partials, held_close, scan_open, held_open}

-- Whether a test holds of each number under a bound.
unfoldable pub each_under : ℕ → (ℕ → Bool) → Bool
each_under (suc bound) test = if test bound then each_under bound test else false
each_under zero test = true

pub each_under_member :
    (bound : ℕ) (test : ℕ → Bool) (k : ℕ) → each_under bound test ≡ true → k < bound → test k ≡ true
unfolding each_under
each_under_member (suc bound) test k all small = ground (arith, each_under_member bound test k)
each_under_member zero test k all small = absurd (omega arith)

close_table : each_under 9 (λ k. k == 0 || held_close (take k close_tag)) ≡ true
unfolding each_under held_close ends_with
close_table = refl

-- A nonempty prefix of the closing tag is held back.
pub held_close-take : (k : ℕ) → 0 < k → k < 9 → held_close (take k close_tag) ≡ true
held_close-take k pos h =
    ground (
      arith,
      each_under_member 9 (λ (k : ℕ). k == 0 || held_close (take k close_tag)) k close_table,
    )

open_table :
    each_under 7
      (λ k. each_under k (λ i. i == 0 || not (ends_with (take i open_tag) (take k open_tag))))
    ≡ true
unfolding each_under ends_with
open_table = refl

-- No proper prefix of the opening tag ends in a shorter one.
pub open_inside :
    (k i : ℕ) → 0 < i → i < k → k < 7 → ends_with (take i open_tag) (take k open_tag) ≡ false
open_inside k i pos inner h =
    let row =
      each_under_member 7
        (λ (k : ℕ).
          each_under k (λ i. i == 0 || not (ends_with (take i open_tag) (take k open_tag))))
        k open_table h in
    let entry =
      each_under_member k (λ (i : ℕ). i == 0 || not (ends_with (take i open_tag) (take k open_tag)))
        i row inner in
    ground arith

-- A text that ends in `s` is cut there by its lengths.
pub ends_with_split :
    (s p : Text) → ends_with s p ≡ true → (length s ≤ length p) × (drop (length p - length s) p ≡ s)
unfolding ends_with
ends_with_split [] [] h = (omega arith, refl)
ends_with_split (d ∷ s) [] h = absurd (unfold text_eq in cc h)
ends_with_split s (c ∷ p) h = elim (Bool-cases (text_eq (c ∷ p) s)) [
  | inl whole ↦
      let same : c ∷ p ≡ s = text_eq_iff (c ∷ p) s whole in
      let none_left : suc (length p) - length s ≡ 0 = omega (arith, ap length same) in
      (omega (arith, ap length same), rw none_left same)
  | inr inner ↦
      let (fits, cut) = ends_with_split s p (ground arith) in
      let next : suc (length p) - length s ≡ suc (length p - length s) = omega arith in
      (omega arith, rw next cut)
]

pub ends_with_tail :
    (s : Text) (c : ℕ) (p : Text)
    → length s ≤ length p
    → ends_with s (c ∷ p) ≡ true
    → ends_with s p ≡ true
unfolding ends_with
ends_with_tail s c p fits h = elim (Bool-cases (text_eq (c ∷ p) s)) [
  | inl whole ↦ absurd (omega (arith, ap length (text_eq_iff (c ∷ p) s whole)))
  | inr inner ↦ rw inner at h
]

pub ends_with_tail_false :
    (s : Text) (c : ℕ) (p : Text) → ends_with s (c ∷ p) ≡ false → ends_with s p ≡ false
unfolding ends_with
ends_with_tail_false s c p h = ground arith

pub ends_with_self : (s : Text) → ends_with s s ≡ true
unfolding ends_with
ends_with_self [] = text_eq_refl []
ends_with_self (c ∷ s) = ground (arith, text_eq_refl (c ∷ s))

any_ends_with_tail :
    (c : ℕ) (p : Text) (l : List Text)
    → any_of (λ s. ends_with s (c ∷ p)) l ≡ false
    → any_of (λ s. ends_with s p) l ≡ false
unfolding ends_with
any_ends_with_tail c p [] h = refl
any_ends_with_tail c p (s ∷ l) h = ground (arith, any_ends_with_tail c p l)

pub held_close_tail : (c : ℕ) (p : Text) → held_close (c ∷ p) ≡ false → held_close p ≡ false
unfolding held_close
held_close_tail c p h = any_ends_with_tail c p close_partials h

pub scan_open-none :
    (rounds i : ℕ) (p : Text)
    → scan_open rounds i p ≡ none
    → (k : ℕ) → i ≤ k
    → k < i + rounds
    → ends_with (take k open_tag) p ≡ false
unfolding scan_open
scan_open-none zero i p h k lo hi = absurd (omega arith)
scan_open-none (suc rounds) i p h k lo hi = elim (Bool-cases (ends_with (take i open_tag) p)) [
  | inl hit ↦ absurd (ground arith)
  | inr miss ↦ elim (Bool-cases (k == i)) [
    | inl same ↦ rw ((==_iff k i).0 same) miss
    | inr other ↦ scan_open-none rounds (suc i) p (rw miss at h) k (ground arith) (omega arith)
  ]
]

pub scan_open-some :
    (rounds i : ℕ) (p : Text) (k : ℕ)
    → scan_open rounds i p ≡ some k
    → (ends_with (take k open_tag) p ≡ true) × (i ≤ k) × (k < i + rounds)
unfolding scan_open
scan_open-some zero i p k h = absurd (cc)
scan_open-some (suc rounds) i p k h = ground (arith, scan_open-some rounds (suc i) p k)

-- Nothing held outside a block: the text ends in no proper beginning of the opening tag.
pub held_open-none :
    (p : Text)
    → held_open p ≡ none
    → (k : ℕ) → 1 ≤ k
    → k < 7
    → ends_with (take k open_tag) p ≡ false
unfolding held_open
held_open-none p h k lo hi = elim (Bool-cases (ends_with (take k open_tag) p)) [
  | inr miss ↦ miss
  | inl hit ↦
      let fits = (ends_with_split (take k open_tag) p hit).0 in
      let size = length-take k open_tag (omega arith) in
      scan_open-none (min 7 (length p + 1) - 1) 1 p h k lo (omega arith)
]

pub held_open-some :
    (p : Text) (i : ℕ)
    → held_open p ≡ some i
    → (ends_with (take i open_tag) p ≡ true) × (1 ≤ i) × (i < 7)
unfolding held_open
held_open-some p i h =
    let (hit, lo, hi) = scan_open-some (min 7 (length p + 1) - 1) 1 p i h in (hit, lo, omega arith)
