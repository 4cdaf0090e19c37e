-- ===== src/Prompt/Barriers.antt =====
-- What ends a match: a pattern of letters and blanks, as the closing tag of
-- assets/backend/agent.py is, does not reach beyond `"`, nor beyond a line's end and `<`.
use rag_agent_chatbot.Prelude.{
  ℕ, ◌<◌, ◌≡◌, refl, arith, Bool, true, false, ◌==◌, Option, none, some, [], ◌∷◌, ◌++◌,
}
use rag_agent_chatbot.Text.{Text, codes}
use rag_agent_chatbot.Regex.{
  Alphabet, IsAlphabet, one, many, Pattern, match_one, match_many, match_here,
}
use rag_agent_chatbot.Prompt.{letter, letters, spaces}
use rag_agent_chatbot.Prompt.Neutral.{tries_none, none_tries, needs_none, none_needs}
use rag_agent_chatbot.Prompt.Clean.{Avoids, any_of-Avoids}

module _ (a : Alphabet) where
  -- A pattern fails on a text.
  abbrev pub Stops : Pattern → Text → Type 0
  Stops q u = (before : Option ℕ) → match_here a q before u ≡ none

  -- Where a pattern fails, it fails too with a text behind.
  abbrev pub Extends : Pattern → Text → Type 0
  Extends q u =
      (before : Option ℕ) (s : Text)
      → match_here a q before s ≡ none
      → match_here a q before (s ++ u) ≡ none

  pub Stops-one :
      (test : ℕ → Bool) (q : Pattern) (d : ℕ) (u : Text)
      → test d ≡ false
      → Stops (one test ∷ q) (d ∷ u)
  unfolding match_here match_one
  Stops-one test q d u e before = rw e

  Stops-many :
      (test : ℕ → Bool) (q : Pattern) (d : ℕ) (u : Text)
      → (test d ≡ true → Stops (many test ∷ q) u)
      → Stops q (d ∷ u)
      → Stops (many test ∷ q) (d ∷ u)
  unfolding match_here match_many
  Stops-many test q d u later here before =
      none_tries (test d) _ _ (here before) (λ e. later e (some d))

  Extends-end : (u : Text) → Extends [] u
  unfolding match_here
  Extends-end u before s e = absurd (cc e)

  Extends-one :
      (test : ℕ → Bool) (q : Pattern) (u : Text)
      → Stops (one test ∷ q) u
      → Extends q u
      → Extends (one test ∷ q) u
  unfolding match_here match_one
  Extends-one test q u stops extends before [] e = stops before
  Extends-one test q u stops extends before (c ∷ s) e =
      none_needs (test c) _ (λ hit. extends (some c) s (needs_none (test c) _ e hit))

  Extends-many :
      (test : ℕ → Bool) (q : Pattern) (u : Text)
      → Stops (many test ∷ q) u
      → Extends q u
      → Extends (many test ∷ q) u
  unfolding match_here match_many
  Extends-many test q u stops extends before [] e = stops before
  Extends-many test q u stops extends before (c ∷ s) e =
      let parts = tries_none (test c) _ _ e in
      none_tries (test c) _ _ (extends before (c ∷ s) (parts.0))
        (λ hit. Extends-many test q u stops extends (some c) s (parts.1 hit))

  module _ (laws : IsAlphabet a) where
    Extends-letters :
        (w : Text) (q : Pattern) (d : ℕ) (u : Text)
        → d < 65
        → Avoids d w
        → Extends q (d ∷ u)
        → Extends (letters a w ++ q) (d ∷ u)
    Extends-letters [] q d u small h extends = extends
    Extends-letters (c ∷ w) q d u small (e, h) extends =
        Extends-one (a.same_letter c) (letters a w ++ q) (d ∷ u)
          (Stops-one (a.same_letter c) (letters a w ++ q) d u
            (let same = laws.caseless_right c d small in ground arith))
          (Extends-letters w q d u small h extends)

    -- `\s*` and a letter fail at a character that is neither.
    Stops-blanks :
        (c : ℕ) (q : Pattern) (d : ℕ) (u : Text)
        → d < 65
        → (d == c) ≡ false
        → (a.is_space d ≡ true → Stops (spaces a ∷ letter a c ∷ q) u)
        → Stops (spaces a ∷ letter a c ∷ q) (d ∷ u)
    Stops-blanks c q d u small e later = Stops-many a.is_space (letter a c ∷ q) d u later (
        Stops-one (a.same_letter c) q d u
          (let same = laws.caseless_right c d small in ground arith))

    -- The closing tag behind its `<`.
    abbrev pub closing_tail : Pattern
    closing_tail =
        letters a (codes "/")
        ++ spaces a ∷ letters a (codes "document")
        ++ spaces a ∷ letter a 62 ∷ []

    closing_tail-Extends :
        (d : ℕ) (u : Text)
        → d < 65
        → Avoids d (codes "/document>")
        → ((c : ℕ) (q : Pattern)
            → (60 == c) ≡ false
            → a.is_space d ≡ true
            → Stops (spaces a ∷ letter a c ∷ q) u)
        → Extends closing_tail (d ∷ u)
    closing_tail-Extends d u small (s, (e, (e₁, (e₂, (e₃, (e₄, (e₅, (e₆, (e₇, (g, _))))))))))
          later =
        Extends-letters (codes "/") _ d u small (s, tt)
          (Extends-many a.is_space _ (d ∷ u) (Stops-blanks 100 _ d u small e (later 100 _ refl)) (
            Extends-letters (codes "document") _ d u small
              (e, (e₁, (e₂, (e₃, (e₄, (e₅, (e₆, (e₇, tt))))))))
              (Extends-many a.is_space _ (d ∷ u) (Stops-blanks 62 [] d u small g (later 62 [] refl))
                (Extends-letters (codes ">") [] d u small (g, tt) (Extends-end (d ∷ u))))))

    pub quote-Extends : (u : Text) → Extends closing_tail (34 ∷ u)
    quote-Extends u =
        closing_tail-Extends 34 u (omega arith) (any_of-Avoids 34 (codes "/document>") refl)
          (λ c q e blank. absurd (cc (blank, laws.quote_no_space)))

    pub line_end-Extends : (u : Text) → Extends closing_tail (10 ∷ 60 ∷ u)
    line_end-Extends u =
        closing_tail-Extends 10 (60 ∷ u) (omega arith) (any_of-Avoids 10 (codes "/document>") refl)
          (λ c q e blank.
            Stops-blanks c q 60 u (omega arith) e
              (λ blank. absurd (cc (blank, laws.less_no_space))))
