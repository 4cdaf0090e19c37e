-- ===== src/Prompt/Neutral.antt =====
-- `_neutralize_doc_content` of assets/backend/agent.py.
use rag_agent_chatbot.Prelude.{
  ℕ, zero, suc, ◌≡◌, refl, sym, ap, ◌∙◌, Bool, true, false, Option, none, some, [], ◌∷◌, ◌++◌,
  if◌then◌else◌, map, inl, inr, All, ◌⊎◌, ◌≢◌,
}
use rag_agent_chatbot.Text.{Text}
use rag_agent_chatbot.Regex.{
  Alphabet, IsAlphabet, one, many, optional, boundary, Pattern, longer, or_else, match_one,
  match_many, match_optional, match_boundary, word_before, differs, place, match_here, sub_from,
  has_match,
}

module _ (a : Alphabet) where
  -- A pattern that fails on every text fails on what `sub` makes of it.
  abbrev pub Keeps : Pattern → Pattern → Text → Type 0
  Keeps q p replacement =
      (t : Text) (before before' : Option ℕ)
      → match_here a q before t ≡ none
      → match_here a q before (sub_from a p replacement before' zero t) ≡ none

abbrev pub Heads : (ℕ → Bool) → Type 0
Heads test = (c : ℕ) → test c ≡ true → c ≡ 60

-- Where a repetition fails: what follows fails here, and behind one more character of the class.
pub tries_none :
    (b : Bool) (x y : Option ℕ)
    → (if b then or_else (longer x) y else y) ≡ none
    → (y ≡ none) × (b ≡ true → x ≡ none)
tries_none true none y h = (h, λ _. refl)
tries_none true (some n) y h = absurd (cc h)
tries_none false x y h = (h, λ e. absurd (cc e))

pub none_tries :
    (b : Bool) (x y : Option ℕ)
    → y ≡ none
    → (b ≡ true → x ≡ none)
    → (if b then or_else (longer x) y else y) ≡ none
none_tries true x y e h = rw (h refl, e)
none_tries false x y e h = e

pub needs_none :
    (b : Bool) (x : Option ℕ) → (if b then longer x else none) ≡ none → b ≡ true → x ≡ none
needs_none true none h e = refl
needs_none true (some n) h e = absurd (cc h)
needs_none false x h e = absurd (cc e)

pub none_needs :
    (b : Bool) (x : Option ℕ) → (b ≡ true → x ≡ none) → (if b then longer x else none) ≡ none
none_needs true x h = rw (h refl)
none_needs false x h = refl

longer_suc : (b : Bool) (x : Option ℕ) (n : ℕ) → (if b then longer x else none) ≡ some n → b ≡ true
longer_suc true x n h = refl
longer_suc false x n h = absurd (cc h)

no_empty : (b : Bool) (x : Option ℕ) → (if b then longer x else none) ≢ some zero
no_empty true none h = cc h
no_empty true (some n) h = cc h
no_empty false x h = cc h

-- A pattern that begins with `<`, and a replacement that begins with `&`.
module _ (a : Alphabet) (head : ℕ → Bool) (heads : Heads head) (p : Pattern) (r : Text) where
  -- A character is copied, or it is a `<` and `&` takes its place.
  sub_step :
      (before : Option ℕ) (c : ℕ) (t : Text)
      → (sub_from a (one head ∷ p) (38 ∷ r) before zero (c ∷ t)
          ≡ c ∷ sub_from a (one head ∷ p) (38 ∷ r) (some c) zero t)
        ⊎ ((c ≡ 60)
            × ((u : Text) × (sub_from a (one head ∷ p) (38 ∷ r) before zero (c ∷ t) ≡ 38 ∷ u)))
  unfolding sub_from match_here match_one
  sub_step before c t = go (match_here a (one head ∷ p) before (c ∷ t)) refl
    where
      go :
          (o : Option ℕ)
          → match_here a (one head ∷ p) before (c ∷ t) ≡ o
          → (place c (38 ∷ r) (λ n. sub_from a (one head ∷ p) (38 ∷ r) (some c) n t) o
              ≡ c ∷ sub_from a (one head ∷ p) (38 ∷ r) (some c) zero t)
            ⊎ ((c ≡ 60)
                × ((u : Text) × (place c
                        (38 ∷ r)
                        (λ n. sub_from a (one head ∷ p) (38 ∷ r) (some c) n t)
                        o
                      ≡ 38 ∷ u)))
      go none e = inl refl
      go (some zero) e = inl refl
      go (some (suc n)) e = inr (
        heads c (longer_suc (head c) _ _ e),
        (r ++ sub_from a (one head ∷ p) (38 ∷ r) (some c) n t, refl),
      )

  pub Keeps-one :
      (test : ℕ → Bool) (q : Pattern)
      → test 38 ≡ false
      → Keeps a q (one head ∷ p) (38 ∷ r)
      → Keeps a (one test ∷ q) (one head ∷ p) (38 ∷ r)
  unfolding match_here match_one sub_from
  Keeps-one test q safe keeps [] before before' h = h
  Keeps-one test q safe keeps (c ∷ t) before before' h = elim (sub_step before' c t) [
    | inl e ↦
        rw e
          (none_needs (test c) _ (λ hit. keeps t (some c) (some c) (needs_none (test c) _ h hit)))
    | inr (less, (u, e)) ↦ rw (e, safe)
  ]

  pub Keeps-many :
      (test : ℕ → Bool) (q : Pattern)
      → test 38 ≡ false
      → Keeps a q (one head ∷ p) (38 ∷ r)
      → Keeps a (many test ∷ q) (one head ∷ p) (38 ∷ r)
  unfolding match_here match_many sub_from
  Keeps-many test q safe keeps [] before before' h = keeps [] before before' h
  Keeps-many test q safe keeps (c ∷ t) before before' h =
      let parts = tries_none (test c) _ _ h in
      let here = keeps (c ∷ t) before before' (parts.0) in
      elim (sub_step before' c t) [
        | inl e ↦ rw e (
            none_tries (test c) _ _ (rw e at here)
              (λ hit. Keeps-many test q safe keeps t (some c) (some c) (parts.1 hit)))
        | inr (less, (u, e)) ↦
            rw e (none_tries (test 38) _ _ (rw e at here) (λ hit. absurd (cc (hit, safe))))
      ]

  pub Keeps-optional :
      (test : ℕ → Bool) (q : Pattern)
      → test 38 ≡ false
      → Keeps a q (one head ∷ p) (38 ∷ r)
      → Keeps a (optional test ∷ q) (one head ∷ p) (38 ∷ r)
  unfolding match_here match_optional sub_from
  Keeps-optional test q safe keeps [] before before' h = keeps [] before before' h
  Keeps-optional test q safe keeps (c ∷ t) before before' h =
      let parts = tries_none (test c) _ _ h in
      let here = keeps (c ∷ t) before before' (parts.0) in
      elim (sub_step before' c t) [
        | inl e ↦ rw e (
            none_tries (test c) _ _ (rw e at here) (λ hit. keeps t (some c) (some c) (parts.1 hit)))
        | inr (less, (u, e)) ↦
            rw e (none_tries (test 38) _ _ (rw e at here) (λ hit. absurd (cc (hit, safe))))
      ]

  pub Keeps-boundary :
      (laws : IsAlphabet a) (q : Pattern)
      → Keeps a q (one head ∷ p) (38 ∷ r)
      → Keeps a (boundary ∷ q) (one head ∷ p) (38 ∷ r)
  unfolding match_here match_boundary sub_from
  Keeps-boundary laws q keeps [] before before' h = h
  Keeps-boundary laws q keeps (c ∷ t) before before' h = elim (sub_step before' c t) [
    | inl e ↦
        rw e (go _ _ _ _ refl h (λ g. let kept = keeps (c ∷ t) before before' g in rw e at kept))
    | inr (less, (u, e)) ↦ rw e (
        go _ _ _ _
          (ap (λ d. differs (word_before a.is_word before) (a.is_word d)) less
            ∙ ap (differs (word_before a.is_word before))
                (laws.less_no_word ∙ sym laws.and_no_word))
          h (λ g. let kept = keeps (c ∷ t) before before' g in rw e at kept))
  ]
    where
      go :
          (b b' : Bool) (x y : Option ℕ)
          → b ≡ b'
          → (if b then x else none) ≡ none
          → (x ≡ none → y ≡ none)
          → (if b' then y else none) ≡ none
      go true true x y same e f = f e
      go true false x y same e f = refl
      go false true x y same e f = absurd (cc same)
      go false false x y same e f = refl

  pub Keeps-letters :
      (test : ℕ → ℕ → Bool) (w : Text) (q : Pattern)
      → All (λ c. test c 38 ≡ false) w
      → Keeps a q (one head ∷ p) (38 ∷ r)
      → Keeps a (map (λ c. one (test c)) w ++ q) (one head ∷ p) (38 ∷ r)
  Keeps-letters test [] q safe keeps = keeps
  Keeps-letters test (c ∷ w) q (safe, rest) keeps =
      Keeps-one (test c) (map (λ d. one (test d)) w ++ q) safe (Keeps-letters test w q rest keeps)

  -- For the failure of `q` at each character that `p` leaves: what `sub` makes of the text has no
  -- match of `q`.
  unfoldable pub Clear : (ℕ → Bool) → Pattern → Text → Type 0
  Clear test q [] = Unit
  Clear test q (c ∷ t) =
      (match_here a (one head ∷ p) none (c ∷ t) ≡ none
        → match_here a (one test ∷ q) none (c ∷ t) ≡ none)
      × Clear test q t

  has_match_past :
      (test : ℕ → Bool) (q : Pattern) (before : Option ℕ) (w u : Text)
      → All (λ c. test c ≡ false) w
      → ((b : Option ℕ) → has_match a (one test ∷ q) b u ≡ false)
      → has_match a (one test ∷ q) before (w ++ u) ≡ false
  unfolding has_match match_here match_one
  has_match_past test q before [] u none_head h = h before
  has_match_past test q before (c ∷ w) u (e, es) h = rw e (has_match_past test q (some c) w u es h)

  pub sub-Clear :
      (test : ℕ → Bool) (q : Pattern) (n : ℕ) (before before' : Option ℕ) (t : Text)
      → All (λ c. test c ≡ false) (38 ∷ r)
      → Keeps a q (one head ∷ p) (38 ∷ r)
      → Clear test q t
      → has_match a (one test ∷ q) before (sub_from a (one head ∷ p) (38 ∷ r) before' n t) ≡ false
  unfolding has_match match_here match_one sub_from Clear
  sub-Clear test q n before before' [] plain keeps clear = refl
  sub-Clear test q (suc n) before before' (c ∷ t) plain keeps (_, clear) =
      sub-Clear test q n before (some c) t plain keeps clear
  sub-Clear test q zero before before' (c ∷ t) plain keeps (here, clear) =
      go (λ n b. sub-Clear test q n b (some c) t plain keeps clear)
        (match_here a (one head ∷ p) before' (c ∷ t)) refl
    where
      go :
          ((n : ℕ) (b : Option ℕ)
            → has_match a (one test ∷ q) b (sub_from a (one head ∷ p) (38 ∷ r) (some c) n t)
              ≡ false)
          → (o : Option ℕ) → match_here a (one head ∷ p) before' (c ∷ t) ≡ o
          → has_match a
              (one test ∷ q)
              before
              (place c (38 ∷ r) (λ n. sub_from a (one head ∷ p) (38 ∷ r) (some c) n t) o)
            ≡ false
      go ih none e =
          rw
            (none_needs (test c) _
              (λ hit. keeps t (some c) (some c) (needs_none (test c) _ (here e) hit)))
            (ih zero (some c))
      go ih (some zero) e = absurd (no_empty (head c) _ e)
      go ih (some (suc n)) e = has_match_past test q before (38 ∷ r) _ plain (ih n)
