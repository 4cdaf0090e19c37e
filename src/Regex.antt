-- ===== src/Regex.antt =====
-- Python's `re`, as far as assets/backend/agent.py uses it: sequences of single characters,
-- greedy repetitions of one class, one optional character and `\b`, matched with backtracking, and
-- `Pattern.sub`. No pattern of the program matches the empty text, so `sub` copies a character
-- there.
use rag_agent_chatbot.Prelude.{
  ℕ, zero, suc, ◌<◌, ◌≡◌, Bool, true, false, not, ◌==◌, ◌||◌, Option, none, some, List, [], ◌∷◌,
  ◌++◌, if◌then◌else◌,
}
use rag_agent_chatbot.Text.{Text}

-- What `re` knows of the characters: `\s`, `\w`, and which letters are one under `re.IGNORECASE`.
pub record Alphabet : Type 0 where
  pub is_space : ℕ → Bool
  pub is_word : ℕ → Bool
  pub same_letter : ℕ → ℕ → Bool

-- A character below `A` has no case; `<`, `&` and `"` are no blanks, and `<` and `&` no part of a word.
pub record IsAlphabet (a : Alphabet) : Type 0 where
  pub same_self : (c : ℕ) → a.same_letter c c ≡ true
  pub caseless_left : (c d : ℕ) → c < 65 → a.same_letter c d ≡ (c == d)
  pub caseless_right : (c d : ℕ) → d < 65 → a.same_letter c d ≡ (c == d)
  pub less_no_space : a.is_space 60 ≡ false
  pub and_no_space : a.is_space 38 ≡ false
  pub less_no_word : a.is_word 60 ≡ false
  pub and_no_word : a.is_word 38 ≡ false
  pub quote_no_space : a.is_space 34 ≡ false

pub data Piece : Type 0 where
  one many optional : (ℕ → Bool) → Piece
  boundary : Piece

abbrev pub Pattern : Type 0
Pattern = List Piece

-- The length of a match that has one more character.
abbrev pub longer : Option ℕ → Option ℕ
longer none = none
longer (some n) = some (suc n)

abbrev pub or_else : Option ℕ → Option ℕ → Option ℕ
or_else none other = other
or_else (some n) other = some n

-- What follows a piece is a matcher: given the character before, it says how much it matches.
abbrev pub Matcher : Type 0
Matcher = Option ℕ → Text → Option ℕ

unfoldable pub match_one : (ℕ → Bool) → Matcher → Matcher
match_one test next before [] = none
match_one test next before (c ∷ t) = if test c then longer (next (some c) t) else none

unfoldable pub match_many : (ℕ → Bool) → Matcher → Matcher
match_many test next before [] = next before []
match_many test next before (c ∷ t) =
    let rest = match_many test next (some c) t in
    if test c then or_else (longer rest) (next before (c ∷ t)) else next before (c ∷ t)

unfoldable pub match_optional : (ℕ → Bool) → Matcher → Matcher
match_optional test next before [] = next before []
match_optional test next before (c ∷ t) =
    if test c then or_else (longer (next (some c) t)) (next before (c ∷ t)) else next before (c ∷ t)

abbrev pub word_before : (ℕ → Bool) → Option ℕ → Bool
word_before is_word none = false
word_before is_word (some c) = is_word c

abbrev pub word_after : (ℕ → Bool) → Text → Bool
word_after is_word [] = false
word_after is_word (c ∷ t) = is_word c

abbrev pub differs : Bool → Bool → Bool
differs true b = not b
differs false b = b

unfoldable pub match_boundary : (ℕ → Bool) → Matcher → Matcher
match_boundary is_word next before t =
    if differs (word_before is_word before) (word_after is_word t) then next before t else none

-- What `sub` writes for a character, and then the rest, given how much a match covers of it.
abbrev pub place : ℕ → Text → (ℕ → Text) → Option ℕ → Text
place c replacement rest none = c ∷ rest zero
place c replacement rest (some zero) = c ∷ rest zero
place c replacement rest (some (suc n)) = replacement ++ rest n

abbrev pub is_match : Option ℕ → Bool
is_match none = false
is_match (some n) = true

module _ (a : Alphabet) where
  -- A match of a pattern at the head of a text.
  unfoldable pub match_here : Pattern → Matcher
  unfolding match_one match_many match_optional match_boundary
  match_here [] before t = some zero
  match_here (one test ∷ ps) before t = match_one test (match_here ps) before t
  match_here (many test ∷ ps) before t = match_many test (match_here ps) before t
  match_here (optional test ∷ ps) before t = match_optional test (match_here ps) before t
  match_here (boundary ∷ ps) before t = match_boundary a.is_word (match_here ps) before t

  -- `pattern.sub(replacement, text)`; the numeral counts the characters that a match still covers.
  unfoldable pub sub_from : Pattern → Text → Option ℕ → ℕ → Text → Text
  unfolding match_here
  sub_from p replacement before n [] = []
  sub_from p replacement before (suc n) (c ∷ t) = sub_from p replacement (some c) n t
  sub_from p replacement before zero (c ∷ t) =
      place c replacement (λ n. sub_from p replacement (some c) n t) (match_here p before (c ∷ t))

  abbrev pub sub : Pattern → Text → Text → Text
  sub p replacement t = sub_from p replacement none zero t

  -- `pattern.search(text)` finds something.
  unfoldable pub has_match : Pattern → Option ℕ → Text → Bool
  unfolding match_here
  has_match p before [] = is_match (match_here p before [])
  has_match p before (c ∷ t) = is_match (match_here p before (c ∷ t)) || has_match p (some c) t

  -- The positions of a text at which a pattern matches.
  unfoldable pub count_matches : Pattern → Option ℕ → Text → ℕ
  unfolding match_here
  count_matches p before [] = if is_match (match_here p before []) then 1 else 0
  count_matches p before (c ∷ t) =
      let rest = count_matches p (some c) t in
      if is_match (match_here p before (c ∷ t)) then suc rest else rest
