-- ===== src/Prompt/Clean.antt =====
-- All the patterns of `_PROMPT_BREAKOUT_PATTERNS`, in assets/backend/agent.py.
use rag_agent_chatbot.Prelude.{
  ℕ, zero, suc, ◌≡◌, refl, ap, ◌∙◌, arith, Bool, true, false, not, ◌==◌, ◌||◌, Option, none, some,
  List, [], ◌∷◌, ◌++◌, if◌then◌else◌, map, All, any_of,
}
use rag_agent_chatbot.Text.{Text}
use rag_agent_chatbot.Regex.{
  Alphabet, IsAlphabet, one, Pattern, match_one, match_many, place, match_here, sub_from, sub,
  is_match, has_match,
}
use rag_agent_chatbot.Prompt.{Rule, through_greater, sub_all}
use rag_agent_chatbot.Prompt.Neutral.{Keeps, Heads, tries_none, none_tries, Clear, sub-Clear}

abbrev pub Avoids : ℕ → Text → Type 0
Avoids d t = All (λ c. (d == c) ≡ false) t

pub Avoids-append : (d : ℕ) (s t : Text) → Avoids d s → Avoids d t → Avoids d (s ++ t)
Avoids-append d [] t h k = k
Avoids-append d (c ∷ s) t (e, h) k = (e, Avoids-append d s t h k)

pub any_of-Avoids : (d : ℕ) (t : Text) → any_of (λ c. d == c) t ≡ false → Avoids d t
any_of-Avoids d [] h = tt
any_of-Avoids d (c ∷ t) h = go (any_of-Avoids d t) (d == c) refl h
  where
    go :
        (any_of (λ x. d == x) t ≡ false → Avoids d t)
        → (b : Bool) → (d == c) ≡ b
        → (b || any_of (λ x. d == x) t) ≡ false
        → Avoids d (c ∷ t)
    go ih true e g = absurd (cc g)
    go ih false e g = (e, ih g)

module _ (a : Alphabet) where
  pub Avoids-sub_from :
      (d : ℕ) (p : Pattern) (r : Text) (before : Option ℕ) (n : ℕ) (t : Text)
      → Avoids d r
      → Avoids d t
      → Avoids d (sub_from a p r before n t)
  unfolding sub_from
  Avoids-sub_from d p r before n [] h k = tt
  Avoids-sub_from d p r before (suc n) (c ∷ t) h (e, k) = Avoids-sub_from d p r (some c) n t h k
  Avoids-sub_from d p r before zero (c ∷ t) h (e, k) =
      go (match_here a p before (c ∷ t)) (λ n. Avoids-sub_from d p r (some c) n t h k)
    where
      go :
          (o : Option ℕ)
          → ((n : ℕ) → Avoids d (sub_from a p r (some c) n t))
          → Avoids d (place c r (λ n. sub_from a p r (some c) n t) o)
      go none ih = (e, ih zero)
      go (some zero) ih = (e, ih zero)
      go (some (suc n)) ih = Avoids-append d r _ h (ih n)

  through_greater-Avoids :
      (laws : IsAlphabet a) (t : Text) (before : Option ℕ)
      → match_here a (through_greater a) before t ≡ none
      → Avoids 62 t
  unfolding match_here match_one match_many
  through_greater-Avoids laws [] before h = tt
  through_greater-Avoids laws (c ∷ t) before h =
      go (λ k. through_greater-Avoids laws t (some c) k) (62 == c) refl
        (tries_none (not (62 == c)) _ _ h)
    where
      go :
          (match_here a (through_greater a) (some c) t ≡ none → Avoids 62 t)
          → (b : Bool) → (62 == c) ≡ b
          → (if◌then◌else◌ {A = Option ℕ} (a.same_letter 62 c) (some 1) none ≡ none)
            × (not (62 == c) ≡ true → match_here a (through_greater a) (some c) t ≡ none)
          → Avoids 62 (c ∷ t)
      go ih true e (h, _) = absurd (cc (rw (laws.caseless_left 62 c (omega arith), e) at h))
      go ih false e (_, k) = (e, ih (k (rw e)))

  Avoids-through_greater :
      (laws : IsAlphabet a) (t : Text) (before : Option ℕ)
      → Avoids 62 t
      → match_here a (through_greater a) before t ≡ none
  unfolding match_here match_one match_many
  Avoids-through_greater laws [] before h = refl
  Avoids-through_greater laws (c ∷ t) before (e, h) =
      none_tries (not (62 == c)) _ _ (rw (laws.caseless_left 62 c (omega arith), e))
        (λ hit. Avoids-through_greater laws t (some c) h)

  pub Keeps-through_greater :
      (laws : IsAlphabet a) (p : Pattern) (r : Text) → Avoids 62 r → Keeps a (through_greater a) p r
  Keeps-through_greater laws p r plain t before before' h =
      Avoids-through_greater laws (sub_from a p r before' zero t) before
        (Avoids-sub_from 62 p r before' zero t plain (through_greater-Avoids laws t before h))

  -- For any pattern that begins with `<`, and any replacement that has no `>` behind its `&`.
  abbrev pub Kept : Pattern → Type 0
  Kept q =
      (h : ℕ → Bool) (p : Pattern) (r : Text)
      → Heads h
      → Avoids 62 r
      → Keeps a q (one h ∷ p) (38 ∷ r)

  -- A rule whose pattern begins with `<`, and whose replacement has no angle bracket.
  pub record Fence : Type 0 where
    pub head : ℕ → Bool
    pub tail : Pattern
    pub rest : Text
    pub heads : Heads head
    pub no_less : Avoids 60 rest
    pub no_greater : Avoids 62 rest
    pub keeps : Kept tail

  abbrev pub rule_of : Fence → Rule
  rule_of f = record { pattern = one f.head ∷ f.tail; replacement = 38 ∷ f.rest }

  -- Whatever stands before the text.
  abbrev pub Lacks : Fence → Text → Type 0
  Lacks f t = (before : Option ℕ) → has_match a (rule_of f).pattern before t ≡ false

  pub misses : (f : Fence) (r : Text) → Avoids 60 r → All (λ c. f.head c ≡ false) r
  misses f [] h = tt
  misses f (c ∷ r) (e, h) = (go (f.head c) refl, misses f r h)
    where
      go : (b : Bool) → f.head c ≡ b → f.head c ≡ false
      go true g = absurd (ground (arith, f.heads c g))
      go false g = g

  -- What stands before a text matters to no pattern of this kind.
  pub any_before :
      (f : Fence) (t : Text) (b b' : Option ℕ)
      → has_match a (rule_of f).pattern b t ≡ has_match a (rule_of f).pattern b' t
  unfolding has_match match_here match_one
  any_before f [] b b' = refl
  any_before f (c ∷ t) b b' = refl

  pub Lacks-Clear :
      (f g : Fence) (t : Text) → Lacks g t → Clear a f.head f.heads f.tail f.rest g.head g.tail t
  unfolding has_match match_here Clear
  Lacks-Clear f g [] h = tt
  Lacks-Clear f g (c ∷ t) h =
      let (first, later) = go (match_here a (rule_of g).pattern none (c ∷ t)) _ (h none) in
      (λ _. first, Lacks-Clear f g t (λ b. any_before g t b (some c) ∙ later))
    where
      go : (o : Option ℕ) (b : Bool) → (is_match o || b) ≡ false → (o ≡ none) × (b ≡ false)
      go none b e = (refl, e)
      go (some n) b e = absurd (cc e)

  pub self-Clear : (f : Fence) (t : Text) → Clear a f.head f.heads f.tail f.rest f.head f.tail t
  unfolding Clear
  self-Clear f [] = tt
  self-Clear f (c ∷ t) = (λ h. h, self-Clear f t)

  pub sub-Lacks :
      (f g : Fence) (t : Text)
      → Clear a f.head f.heads f.tail f.rest g.head g.tail t
      → Lacks g (sub a (rule_of f).pattern (rule_of f).replacement t)
  sub-Lacks f g t clear before =
      sub-Clear a f.head f.heads f.tail f.rest g.head g.tail zero before none t
        (misses g (38 ∷ f.rest) (refl, f.no_less))
        (g.keeps f.head f.tail f.rest f.heads f.no_greater) clear

  sub_all-Lacks :
      (g : Fence) (fs : List Fence) (t : Text) → Lacks g t → Lacks g (sub_all a (map rule_of fs) t)
  sub_all-Lacks g [] t h = h
  sub_all-Lacks g (f ∷ fs) t h = sub_all-Lacks g fs _ (sub-Lacks f g t (Lacks-Clear f g t h))

  pub sub_all-lem :
      (fs : List Fence) (t : Text) → All (λ g. Lacks g (sub_all a (map rule_of fs) t)) fs
  sub_all-lem [] t = tt
  sub_all-lem (f ∷ fs) t =
      (sub_all-Lacks f fs _ (sub-Lacks f f t (self-Clear f t)), sub_all-lem fs _)

  -- Where a pattern has no match, `sub` returns the text as it is.
  pub Lacks-sub :
      (p : Pattern) (r : Text) (before : Option ℕ) (t : Text)
      → has_match a p before t ≡ false
      → sub_from a p r before zero t ≡ t
  unfolding has_match sub_from
  Lacks-sub p r before [] h = refl
  Lacks-sub p r before (c ∷ t) h = go (Lacks-sub p r (some c) t) (match_here a p before (c ∷ t)) h
    where
      go :
          (has_match a p (some c) t ≡ false → sub_from a p r (some c) zero t ≡ t)
          → (o : Option ℕ) → (is_match o || has_match a p (some c) t) ≡ false
          → place c r (λ n. sub_from a p r (some c) n t) o ≡ c ∷ t
      go ih none e = ap (◌∷◌ c) (ih e)
      go ih (some n) e = absurd (cc e)

  pub sub_all_idem :
      (rs : List Rule) (t : Text)
      → All (λ r. has_match a r.pattern none t ≡ false) rs
      → sub_all a rs t ≡ t
  sub_all_idem [] t h = refl
  sub_all_idem (r ∷ rs) t (e, h) =
      rw (Lacks-sub r.pattern r.replacement none t e) (sub_all_idem rs t h)
