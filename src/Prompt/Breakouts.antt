-- ===== src/Prompt/Breakouts.antt =====
-- The eight patterns of `_PROMPT_BREAKOUT_PATTERNS`, in assets/backend/agent.py, and
-- `_neutralize_doc_content`.
use rag_agent_chatbot.Prelude.{
  ℕ, ◌≡◌, refl, sym, ◌∙◌, arith, Bool, false, ◌==◌, none, List, [], ◌∷◌, ◌++◌, map, All, All-imp,
  All-map, any_of,
}
use mathlib.Core.Path.{subst}
use rag_agent_chatbot.Text.{Text, codes}
use rag_agent_chatbot.Regex.{
  Alphabet, IsAlphabet, one, optional, boundary, Pattern, match_here, sub_from, has_match,
}
use rag_agent_chatbot.Prompt.{
  Rule, exactly, letter, letters, spaces, prompt_breakout_patterns, sub_all, neutralize_doc_content,
}
use rag_agent_chatbot.Prompt.Neutral.{
  Heads, Keeps-one, Keeps-many, Keeps-optional, Keeps-boundary, Keeps-letters,
}
use rag_agent_chatbot.Prompt.Clean.{
  Avoids, any_of-Avoids, Kept, Fence, rule_of, Lacks, sub_all-lem, sub_all_idem,
  Keeps-through_greater,
}

module _ (a : Alphabet) (laws : IsAlphabet a) where
  less_head : Heads (a.same_letter 60)
  less_head c e = let same = sym (laws.caseless_left 60 c (omega arith)) ∙ e in ground arith

  exact_head : Heads (λ c. 60 == c)
  exact_head c e = ground (arith)

  no_and : (c : ℕ) → (38 == c) ≡ false → a.same_letter c 38 ≡ false
  no_and c e = let same = laws.caseless_right c 38 (omega arith) in ground arith

  Kept-end : Kept a []
  unfolding match_here
  Kept-end h p r heads plain t before before' e = absurd (cc e)

  Kept-letters :
      (w : Text) (q : Pattern)
      → any_of (λ c. 38 == c) w ≡ false
      → Kept a q
      → Kept a (letters a w ++ q)
  Kept-letters w q plain kept h p r heads no_greater =
      Keeps-letters a h heads p r a.same_letter w q
        (All-imp _ _ w no_and (any_of-Avoids 38 w plain)) (kept h p r heads no_greater)

  Kept-exactly : (w : Text) → Avoids 38 w → Kept a (exactly w)
  Kept-exactly [] plain h p r heads no_greater = Kept-end h p r heads no_greater
  Kept-exactly (c ∷ w) (e, plain) h p r heads no_greater =
      Keeps-one a h heads p r (λ d. c == d) (exactly w) (ground arith)
        (Kept-exactly w plain h p r heads no_greater)

  Kept-spaces : (q : Pattern) → Kept a q → Kept a (spaces a ∷ q)
  Kept-spaces q kept h p r heads no_greater =
      Keeps-many a h heads p r a.is_space q laws.and_no_space (kept h p r heads no_greater)

  Kept-optional :
      (c : ℕ) (q : Pattern) → (38 == c) ≡ false → Kept a q → Kept a (optional (a.same_letter c) ∷ q)
  Kept-optional c q plain kept h p r heads no_greater =
      Keeps-optional a h heads p r (a.same_letter c) q (no_and c plain)
        (kept h p r heads no_greater)

  Kept-boundary : (q : Pattern) → Kept a q → Kept a (boundary ∷ q)
  Kept-boundary q kept h p r heads no_greater =
      Keeps-boundary a h heads p r laws q (kept h p r heads no_greater)

  -- `>` behind blanks
  Kept-closing : Kept a (spaces a ∷ letter a 62 ∷ [])
  Kept-closing = Kept-spaces (letter a 62 ∷ []) (Kept-letters (62 ∷ []) [] refl Kept-end)

  abbrev fence :
      (s : Text) (head : ℕ → Bool) (tail : Pattern)
      → any_of (λ c. 60 == c) s ≡ false
      → any_of (λ c. 62 == c) s ≡ false
      → Heads head
      → Kept a tail
      → Fence a
  fence s head tail no_less no_greater heads kept = record {
    head = head;
    tail = tail;
    rest = s;
    heads = heads;
    no_less = any_of-Avoids 60 s no_less;
    no_greater = any_of-Avoids 62 s no_greater;
    keeps = kept;
  }

  abbrev fences : List (Fence a)
  fences =
      fence (codes "lt;/document&gt;") (a.same_letter 60) _ refl refl less_head (
        Kept-letters (codes "/") _ refl
          (Kept-spaces _ (Kept-letters (codes "document") _ refl Kept-closing)))
      ∷ fence (codes "lt;document&gt;") (a.same_letter 60) _ refl refl less_head (
          Kept-spaces _ (
            Kept-letters (codes "document") _ refl (
              Kept-boundary _ (λ h p r heads plain.
                Keeps-through_greater a laws (one h ∷ p) (38 ∷ r) (refl, plain)))))
      ∷ fence (codes "lt;|im_start|&gt;") _ _ refl refl exact_head
          (Kept-exactly (codes "|im_start|>") (any_of-Avoids 38 (codes "|im_start|>") refl))
      ∷ fence (codes "lt;|im_end|&gt;") _ _ refl refl exact_head
          (Kept-exactly (codes "|im_end|>") (any_of-Avoids 38 (codes "|im_end|>") refl))
      ∷ fence (codes "lt;|system|&gt;") _ _ refl refl less_head
          (Kept-letters (codes "|system|>") [] refl Kept-end)
      ∷ fence (codes "lt;|user|&gt;") _ _ refl refl less_head
          (Kept-letters (codes "|user|>") [] refl Kept-end)
      ∷ fence (codes "lt;|assistant|&gt;") _ _ refl refl less_head
          (Kept-letters (codes "|assistant|>") [] refl Kept-end)
      ∷ fence (codes "lt;think&gt;") _ _ refl refl less_head (
          Kept-spaces _ (
            Kept-optional 47 _ refl
              (Kept-spaces _ (Kept-letters (codes "think") _ refl Kept-closing))))
      ∷ []

  breakouts : prompt_breakout_patterns a ≡ map (rule_of a) fences
  unfolding prompt_breakout_patterns
  breakouts = refl

  sub_all-neutralize :
      (t : Text) → neutralize_doc_content a t ≡ sub_all a (prompt_breakout_patterns a) t
  unfolding neutralize_doc_content sub_from
  sub_all-neutralize [] = refl
  sub_all-neutralize (c ∷ t) = refl

  abbrev pub Free : Text → Rule → Type 0
  Free t r = has_match a r.pattern none t ≡ false

  Free-fences :
      (t : Text) → All (Free (sub_all a (map (rule_of a) fences) t)) (map (rule_of a) fences)
  Free-fences t = All-map (Free (sub_all a (map (rule_of a) fences) t)) (rule_of a) fences (
      All-imp (λ f. Lacks a f (sub_all a (map (rule_of a) fences) t))
        (λ f. Free (sub_all a (map (rule_of a) fences) t) (rule_of a f)) fences (λ f h. h none)
        (sub_all-lem a fences t))

  pub neutralized :
      (t : Text) → All (Free (neutralize_doc_content a t)) (prompt_breakout_patterns a)
  neutralized t =
      rw (sub_all-neutralize t)
        (subst (λ (rs : List Rule). All (Free (sub_all a rs t)) rs) (sym breakouts) (Free-fences t))

  -- For an alphabet with the listed laws: of what `_neutralize_doc_content` returns, none of the eight patterns has a match, and it returns
  -- that text as it is.
  pub neutralize_doc_content_lem :
      (t : Text)
      → All
          (λ r. has_match a r.pattern none (neutralize_doc_content a t) ≡ false)
          (prompt_breakout_patterns a)
        × (neutralize_doc_content a (neutralize_doc_content a t) ≡ neutralize_doc_content a t)
  neutralize_doc_content_lem t = (
    neutralized t,
    sub_all-neutralize (neutralize_doc_content a t)
        ∙ sub_all_idem a (prompt_breakout_patterns a) (neutralize_doc_content a t) (neutralized t),
  )
