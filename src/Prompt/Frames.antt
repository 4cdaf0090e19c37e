-- ===== src/Prompt/Frames.antt =====
-- The context that `generate` of assets/backend/agent.py builds: its frames, and who closes them.
use rag_agent_chatbot.Prelude.{
  ℕ, zero, suc, ◌+◌, ◌-◌, ◌*◌, ◌/◌, ◌<◌, ◌≡◌, refl, sym, ap, ◌∙◌, arith, Bool, true, false, ◌||◌,
  Option, none, some, List, [], ◌∷◌, ◌++◌, if◌then◌else◌, length, append-nil, append_assoc, ltb,
}
use rag_agent_chatbot.Text.{Text, codes, strip}
use rag_agent_chatbot.Vectors.State.{Chunk}
use rag_agent_chatbot.Regex.{
  Alphabet, IsAlphabet, one, many, Pattern, longer, or_else, match_one, match_many, match_here,
  is_match, has_match, count_matches,
}
use rag_agent_chatbot.Prompt.{
  letter, letters, spaces, closing_document, decimal_from, decimal, joined_parts, document_frame,
  document_frames, format_context, neutralize_doc_content, prompt_breakout_patterns,
}
use rag_agent_chatbot.Prompt.Neutral.{needs_none, none_needs}
use rag_agent_chatbot.Prompt.Clean.{Avoids, any_of-Avoids, Avoids-append}
use rag_agent_chatbot.Prompt.Barriers.{
  Extends, Stops-one, closing_tail, quote-Extends, line_end-Extends,
}
use rag_agent_chatbot.Prompt.Breakouts.{neutralized}

-- No digit is an angle bracket.
decimal_from-Avoids : (f n : ℕ) → Avoids 60 (decimal_from f n)
unfolding decimal_from
decimal_from-Avoids zero n = tt
decimal_from-Avoids (suc f) n = go (ltb n 10) (ground arith) (decimal_from-Avoids f (n / 10))
  where
    go :
        (b : Bool)
        → (b ≡ true → n < 10)
        → Avoids 60 (decimal_from f (n / 10))
        → Avoids 60
            (if b then (n + 48) ∷ [] else decimal_from f (n / 10) ++ (n - n / 10 * 10 + 48) ∷ [])
    go true small front = (ground (arith, small refl), tt)
    go false small front = Avoids-append 60 _ _ front (ground arith, tt)

module _ (a : Alphabet) (laws : IsAlphabet a) where
  abbrev closings : Option ℕ → Text → ℕ
  closings before t = count_matches a (closing_document a) before t

  counts_plain :
      (before : Option ℕ) (w u : Text) → Avoids 60 w → closings before (w ++ u) ≡ closings none u
  unfolding count_matches match_here match_one
  counts_plain before [] [] h = refl
  counts_plain before [] (c ∷ u) h = refl
  counts_plain before (c ∷ w) u (e, h) =
      rw (laws.caseless_left 60 c (omega arith), e) (counts_plain (some c) w u h)

  -- A text with no closing tag adds none, whatever follows its barrier.
  counts_free :
      (before : Option ℕ) (s : Text) (d : ℕ) (u : Text)
      → Extends a (closing_tail a laws) (d ∷ u)
      → has_match a (closing_document a) before s ≡ false
      → closings before (s ++ d ∷ u) ≡ closings none (d ∷ u)
  unfolding count_matches has_match match_here match_one
  counts_free before [] d u extends h = refl
  counts_free before (c ∷ s) d u extends h =
      let (here, later) = parts (match_here a (closing_document a) before (c ∷ s)) _ h in
      let here' =
        none_needs (a.same_letter 60 c) (match_here a (closing_tail a laws) (some c) (s ++ d ∷ u))
          (λ hit. extends (some c) s (needs_none (a.same_letter 60 c) _ here hit)) in
      ap
        (λ o.
          if is_match o
          then suc (closings (some c) (s ++ d ∷ u))
          else closings (some c) (s ++ d ∷ u))
        here'
      ∙ counts_free (some c) s d u extends later
    where
      parts : (o : Option ℕ) (b : Bool) → (is_match o || b) ≡ false → (o ≡ none) × (b ≡ false)
      parts none b e = (refl, e)
      parts (some n) b e = absurd (cc e)

  hits_one :
      (test : ℕ → Bool) (q : Pattern) (before : Option ℕ) (c : ℕ) (u : Text)
      → test c ≡ true
      → is_match (match_here a q (some c) u) ≡ true
      → is_match (match_here a (one test ∷ q) before (c ∷ u)) ≡ true
  unfolding match_here match_one
  hits_one test q before c u e h = rw e (go (match_here a q (some c) u) h)
    where
      go : (o : Option ℕ) → is_match o ≡ true → is_match (longer o) ≡ true
      go none h = h
      go (some n) h = refl

  hits_many :
      (test : ℕ → Bool) (q : Pattern) (before : Option ℕ) (u : Text)
      → is_match (match_here a q before u) ≡ true
      → is_match (match_here a (many test ∷ q) before u) ≡ true
  unfolding match_here match_many
  hits_many test q before [] h = h
  hits_many test q before (c ∷ u) h = go (test c) _ (match_here a q before (c ∷ u)) h
    where
      go :
          (b : Bool) (o o' : Option ℕ)
          → is_match o' ≡ true
          → is_match (if b then or_else (longer o) o' else o') ≡ true
      go true none o' h = h
      go true (some n) o' h = refl
      go false o o' h = h

  hits_letters :
      (w : Text) (q : Pattern) (u : Text)
      → ((b : Option ℕ) → is_match (match_here a q b u) ≡ true)
      → (b : Option ℕ) → is_match (match_here a (letters a w ++ q) b (w ++ u)) ≡ true
  hits_letters [] q u h b = h b
  hits_letters (c ∷ w) q u h b =
      hits_one (a.same_letter c) (letters a w ++ q) b c (w ++ u) (laws.same_self c)
        (hits_letters w q u h (some c))

  matches_end : (u : Text) (b : Option ℕ) → is_match (match_here a [] b u) ≡ true
  unfolding match_here
  matches_end u b = refl

  hits_closing :
      (u : Text) (b : Option ℕ)
      → is_match (match_here a (closing_document a) b (codes "</document>" ++ u)) ≡ true
  hits_closing u = hits_letters (codes "</") _ (codes "document>" ++ u) (λ b.
      hits_many a.is_space _ b (codes "document>" ++ u) (
        hits_letters (codes "document") _ (62 ∷ u)
          (λ b. hits_many a.is_space _ b (62 ∷ u) (hits_letters (62 ∷ []) [] u (matches_end u) b))
          b))

  counts_closing :
      (before : Option ℕ) (u : Text)
      → closings before (codes "</document>" ++ u) ≡ suc (closings none u)
  unfolding count_matches
  counts_closing before u = rw (hits_closing u before) (
      ap suc (
        counts_plain (some 60) (codes "/document>") u (any_of-Avoids 60 (codes "/document>") refl)))

  opening_misses :
      (before : Option ℕ) (v : Text)
      → match_here a (closing_document a) before (60 ∷ 100 ∷ v) ≡ none
  unfolding match_here match_one
  opening_misses before v =
      none_needs (a.same_letter 60 60) (match_here a (closing_tail a laws) (some 60) (100 ∷ v))
        (λ _.
          Stops-one a (a.same_letter 47)
            (spaces a ∷ letters a (codes "document") ++ spaces a ∷ letter a 62 ∷ []) 100 v
            (laws.caseless_left 47 100 (omega arith)) (some 60))

  counts_opening :
      (before : Option ℕ) (u : Text)
      → closings before (codes "<document index=\"" ++ u) ≡ closings none u
  unfolding count_matches
  counts_opening before u =
      ap
        (λ o.
          if is_match o
          then suc (closings (some 60) (codes "document index=\"" ++ u))
          else closings (some 60) (codes "document index=\"" ++ u))
        (opening_misses before (codes "ocument index=\"" ++ u))
      ∙ counts_plain (some 60) (codes "document index=\"") u
          (any_of-Avoids 60 (codes "document index=\"") refl)

  neutral_free :
      (t : Text) → has_match a (closing_document a) none (neutralize_doc_content a t) ≡ false
  unfolding prompt_breakout_patterns
  neutral_free t = (neutralized a laws t).0

  frame_text :
      (i : ℕ) (doc : Chunk) (u : Text)
      → document_frame a i doc ++ u
        ≡ codes "<document index=\""
          ++ (decimal i
              ++ (codes "\" source=\""
                  ++ (neutralize_doc_content a doc.source
                      ++ (codes "\">\n"
                          ++ (neutralize_doc_content a (strip doc.text)
                              ++ (codes "\n</document>" ++ u))))))
  unfolding document_frame
  frame_text i doc u = simp append_assoc

  -- A frame has one closing tag, whatever its document holds.
  counts_frame :
      (before : Option ℕ) (i : ℕ) (doc : Chunk) (u : Text)
      → closings before (document_frame a i doc ++ u) ≡ suc (closings none u)
  counts_frame before i doc u =
      let inner = neutralize_doc_content a (strip doc.text) in
      let closed = codes "</document>" ++ u in
      ap (closings before) (frame_text i doc u)
      ∙ counts_opening before _
      ∙ counts_plain none (decimal i) _ (decimal_from-Avoids (suc i) i)
      ∙ counts_plain none (codes "\" source=\"") _ (any_of-Avoids 60 (codes "\" source=\"") refl)
      ∙ counts_free none (neutralize_doc_content a doc.source) 34 _ (quote-Extends a laws _)
          (neutral_free doc.source)
      ∙ counts_plain none (codes "\">\n") _ (any_of-Avoids 60 (codes "\">\n") refl)
      ∙ counts_free none inner 10 closed (line_end-Extends a laws _) (neutral_free (strip doc.text))
      ∙ counts_plain none (10 ∷ []) closed (any_of-Avoids 60 (10 ∷ []) refl)
      ∙ counts_closing none u

  abbrev tails : List Text → Text
  tails [] = []
  tails (t ∷ parts) = codes "\n\n" ++ (t ++ tails parts)

  joined-tails : (t : Text) (parts : List Text) → joined_parts (t ∷ parts) ≡ t ++ tails parts
  joined-tails t [] = sym (append-nil t)
  joined-tails t (u ∷ parts) =
      append_assoc t (codes "\n\n") (joined_parts (u ∷ parts))
      ∙ ap (λ s. t ++ (codes "\n\n" ++ s)) (joined-tails u parts)

  counts_frames :
      (before : Option ℕ) (i : ℕ) (docs : List Chunk)
      → closings before (tails (document_frames a i docs)) ≡ length docs
  unfolding document_frames count_matches
  counts_frames before i [] = refl
  counts_frames before i (doc ∷ docs) =
      counts_plain before (codes "\n\n")
        (document_frame a i doc ++ tails (document_frames a (suc i) docs))
        (any_of-Avoids 60 (codes "\n\n") refl)
      ∙ counts_frame none i doc (tails (document_frames a (suc i) docs))
      ∙ ap suc (counts_frames none (suc i) docs)

  -- The context has as many closing document tags as documents, whatever their texts and their
  -- sources hold: no document closes its frame.
  pub format_context_lem :
      (docs : List Chunk)
      → count_matches a (closing_document a) none (format_context a docs) ≡ length docs
  unfolding format_context document_frames count_matches
  format_context_lem [] =
      counts_plain none (codes "No document context available for this query.") []
        (any_of-Avoids 60 (codes "No document context available for this query.") refl)
  format_context_lem (doc ∷ docs) =
      ap (closings none) (
        joined-tails (codes "Document context (untrusted reference material):")
          (document_frames a 1 (doc ∷ docs)))
      ∙ counts_plain none (codes "Document context (untrusted reference material):")
          (tails (document_frames a 1 (doc ∷ docs)))
          (any_of-Avoids 60 (codes "Document context (untrusted reference material):") refl)
      ∙ counts_frames none 1 (doc ∷ docs)
