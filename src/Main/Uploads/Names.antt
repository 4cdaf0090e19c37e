-- ===== src/Main/Uploads/Names.antt =====
-- The names that `_sanitize_filename` of assets/backend/main.py makes.
use rag_agent_chatbot.Prelude.{
  ◌≡◌, refl, Bool, true, false, ◌||◌, ◌==◌, Option, none, some, [], ◌∷◌, All, All-keep_if, keep_if,
  if◌then◌else◌, ℕ, ◌≤◌, ◌≢◌, All-imp, arith, ap, sym, ◌∙◌, Bool-cases, inl, inr, ltb,
}
use mathlib.Core.Bool.{false≢true}
use rag_agent_chatbot.Text.{Text, codes}
use rag_agent_chatbot.Main.Uploads.{
  basename_from, is_kept, lstrip_dots, or_upload, sanitize_filename,
}

-- Whether a name is empty, or begins with a dot or a hyphen.
abbrev pub starts_badly : Text → Bool
starts_badly [] = true
starts_badly (c ∷ s) = c == 46 || c == 45

-- A character that may stand in a name: none below the space, no slash and no backslash.
abbrev pub IsPlainCharacter : ℕ → Type 0
IsPlainCharacter c = (32 ≤ c) × (c ≢ 47) × (c ≢ 92)

pub record IsSafeName (name : Text) : Type 0 where
  pub characters : All IsPlainCharacter name
  pub plain : starts_badly name ≡ false

plain_character : (c : ℕ) → is_kept c ≡ true → IsPlainCharacter c
plain_character c h = (
  elim (Bool-cases (ltb c 32)) [ inl low ↦ absurd (ground arith) | inr high ↦ ground arith ],
  λ e. false≢true (ap is_kept (sym e) ∙ h),
  λ e. false≢true (ap is_kept (sym e) ∙ h),
)

All-plain : (s : Text) → All (λ c. is_kept c ≡ true) s → All IsPlainCharacter s
All-plain s h = All-imp _ _ s plain_character h

lstrip_dots-kept :
    (s : Text) → All (λ c. is_kept c ≡ true) s → All (λ c. is_kept c ≡ true) (lstrip_dots s)
unfolding lstrip_dots
lstrip_dots-kept [] h = tt
lstrip_dots-kept (c ∷ s) (h, hs) = cases (c == 46 || c == 45) (lstrip_dots-kept s hs)
  where
    cases :
        (b : Bool)
        → All (λ d. is_kept d ≡ true) (lstrip_dots s)
        → All (λ d. is_kept d ≡ true) (if b then lstrip_dots s else c ∷ s)
    cases true rest = rest
    cases false rest = (h, hs)

lstrip_dots-plain : (s : Text) → starts_badly (or_upload (lstrip_dots s)) ≡ false
unfolding lstrip_dots
lstrip_dots-plain [] = refl
lstrip_dots-plain (c ∷ s) = cases (c == 46 || c == 45) refl (lstrip_dots-plain s)
  where
    cases :
        (b : Bool)
        → (c == 46 || c == 45) ≡ b
        → starts_badly (or_upload (lstrip_dots s)) ≡ false
        → starts_badly (or_upload (if b then lstrip_dots s else c ∷ s)) ≡ false
    cases true e rest = rest
    cases false e rest = e

or_upload-kept :
    (s : Text) → All (λ c. is_kept c ≡ true) s → All (λ c. is_kept c ≡ true) (or_upload s)
or_upload-kept [] h = (refl, (refl, (refl, (refl, (refl, (refl, tt))))))
or_upload-kept (c ∷ s) h = h

-- Whatever name the client sends, or none, the sanitized name is not empty, has no character below
-- the space (U+0020), no slash and no backslash, and begins with neither a dot nor a hyphen: it is never `..`.
pub sanitize_filename-IsSafeName : (name : Option Text) → IsSafeName (sanitize_filename name)
unfolding sanitize_filename
sanitize_filename-IsSafeName none = record {
  characters = All-plain (codes "upload") (refl, (refl, (refl, (refl, (refl, (refl, tt))))));
  plain = refl;
}
sanitize_filename-IsSafeName (some name) = record {
  characters = All-plain _ (
      or_upload-kept _
        (lstrip_dots-kept _ (All-keep_if _ is_kept (basename_from [] name) (λ c h. h))));
  plain = lstrip_dots-plain (keep_if is_kept (basename_from [] name));
}
