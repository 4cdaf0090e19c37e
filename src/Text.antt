-- ===== src/Text.antt =====
-- The methods of Python's `str` that the program walks text with, over lists of code points.
use Prim.Native.Char.{code}
use rag_agent_chatbot.Prelude.{
  ℕ, zero, suc, ◌+◌, ◌≤◌, ◌<◌, leb, String, ◌≡◌, refl, ap, ◌∙◌, Bool, true, false, ◌||◌, ◌&&◌,
  Option, none, some, List, [], ◌∷◌, ◌++◌, arith, ◌==◌, if◌then◌else◌, length, take, drop,
  Bool-cases, inl, inr, append-nil, append_assoc, sym,
}

abbrev pub Text : Type 0
Text = List ℕ

-- The code points of a native text. `String` has its own `[]` and `∷`.
abbrev pub codes : String → Text
codes String.[] = []
codes (String.◌∷◌ c s) = code c ∷ codes s

unfoldable pub text_eq : Text → Text → Bool
text_eq [] [] = true
text_eq [] (d ∷ t) = false
text_eq (c ∷ s) [] = false
text_eq (c ∷ s) (d ∷ t) = c == d && text_eq s t

-- `t.startswith(s)`
unfoldable pub starts_with : Text → Text → Bool
starts_with [] t = true
starts_with (c ∷ s) [] = false
starts_with (c ∷ s) (d ∷ t) = c == d && starts_with s t

-- `t.endswith(s)`
unfoldable pub ends_with : Text → Text → Bool
unfolding text_eq
ends_with s [] = text_eq [] s
ends_with s (d ∷ t) = text_eq (d ∷ t) s || ends_with s t

abbrev pub later : Option ℕ → Option ℕ
later none = none
later (some i) = some (suc i)

-- `t.find(s)`, with `none` for -1
unfoldable pub find : Text → Text → Option ℕ
unfolding starts_with
find s [] = if starts_with s [] then some 0 else none
find s (d ∷ t) = if starts_with s (d ∷ t) then some 0 else later (find s t)

-- Python's `str.isspace`: the characters that `strip` removes.
unfoldable pub is_space : ℕ → Bool
is_space c =
    c == 32
    || c == 9
    || c == 10
    || c == 11
    || c == 12
    || c == 13
    || c == 28
    || c == 29
    || c == 30
    || c == 31
    || c == 133
    || c == 160
    || c == 5760
    || leb 8192 c && leb c 8202
    || c == 8232
    || c == 8233
    || c == 8239
    || c == 8287
    || c == 12288

-- `t.lstrip()`
unfoldable pub lstrip : Text → Text
unfolding is_space
lstrip [] = []
lstrip (c ∷ t) = if is_space c then lstrip t else c ∷ t

abbrev pub is_empty_text : Text → Bool
is_empty_text [] = true
is_empty_text (c ∷ t) = false

-- `t.rstrip()`
unfoldable pub rstrip : Text → Text
unfolding is_space
rstrip [] = []
rstrip (c ∷ t) = let rest = rstrip t in if is_space c && is_empty_text rest then [] else c ∷ rest

-- `t.strip()`
abbrev pub strip : Text → Text
strip t = rstrip (lstrip t)

pub text_eq_iff : (s t : Text) → text_eq s t ≡ true → s ≡ t
unfolding text_eq
text_eq_iff [] [] h = refl
text_eq_iff [] (d ∷ t) h = absurd (cc)
text_eq_iff (c ∷ s) [] h = absurd (cc)
text_eq_iff (c ∷ s) (d ∷ t) h = ground (arith, text_eq_iff s t)

pub text_eq_refl : (s : Text) → text_eq s s ≡ true
unfolding text_eq
text_eq_refl [] = refl
text_eq_refl (c ∷ s) = ground (arith, text_eq_refl s)

pub length_of_starts_with : (s t : Text) → starts_with s t ≡ true → length s ≤ length t
unfolding starts_with
length_of_starts_with [] t h = omega arith
length_of_starts_with (c ∷ s) [] h = absurd (cc)
length_of_starts_with (c ∷ s) (d ∷ t) h = ground (arith, length_of_starts_with s t)

-- A start is decided by as many characters as it has.
pub starts_with-append :
    (s p r : Text) → length s ≤ length p → starts_with s (p ++ r) ≡ starts_with s p
unfolding starts_with
starts_with-append [] p r h = refl
starts_with-append (c ∷ s) [] r h = absurd (omega arith)
starts_with-append (c ∷ s) (d ∷ p) r h =
    ap (λ b. c == d && b) (starts_with-append s p r (omega arith))

-- A start that reaches beyond a text begins with the whole text.
pub starts_with_beyond :
    (s p r : Text) → starts_with s (p ++ r) ≡ true → length p < length s → p ≡ take (length p) s
unfolding starts_with
starts_with_beyond s [] r h l = refl
starts_with_beyond [] (d ∷ p) r h l = absurd (omega arith)
starts_with_beyond (c ∷ s) (d ∷ p) r h l = ground (arith, starts_with_beyond s p r)

pub length_of_find : (s t : Text) (i : ℕ) → find s t ≡ some i → i + length s ≤ length t
unfolding find
length_of_find s [] i h = ground (arith, length_of_starts_with s [])
length_of_find s (d ∷ t) i h = elim (Bool-cases (starts_with s (d ∷ t))) [
  | inl here ↦ ground (arith, length_of_starts_with s (d ∷ t))
  | inr beyond ↦ go (length_of_find s t) (find s t) refl (rw beyond at h)
]
  where
    go :
        ((j : ℕ) → find s t ≡ some j → j + length s ≤ length t)
        → (o : Option ℕ) → find s t ≡ o
        → later o ≡ some i
        → i + length s ≤ length (d ∷ t)
    go ih none e g = absurd (cc)
    go ih (some j) e g = ground (arith, ih j e)

pub drop-append : (n : ℕ) (p r : Text) → n ≤ length p → drop n (p ++ r) ≡ drop n p ++ r
drop-append zero p r h = refl
drop-append (suc n) [] r h = absurd (omega arith)
drop-append (suc n) (x ∷ p) r h = drop-append n p r (omega arith)

-- A text that starts with `s` is `s` and the rest.
pub starts_with_split : (s t : Text) → starts_with s t ≡ true → s ++ drop (length s) t ≡ t
unfolding starts_with
starts_with_split [] t h = refl
starts_with_split (c ∷ s) [] h = absurd (cc)
starts_with_split (c ∷ s) (d ∷ t) h = ground (arith, starts_with_split s t)

-- `"".join(texts)`
abbrev pub joined : List Text → Text
joined [] = []
joined (t ∷ ts) = t ++ joined ts

pub joined-concat : (ts : List Text) (t : Text) → joined (ts ++ t ∷ []) ≡ joined ts ++ t
joined-concat [] t = append-nil t
joined-concat (u ∷ ts) t =
    ap (λ x. u ++ x) (joined-concat ts t) ∙ sym (append_assoc u (joined ts) t)
