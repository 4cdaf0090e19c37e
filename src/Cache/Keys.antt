-- ===== src/Cache/Keys.antt =====
-- Whose entry a key names: `_cache_key` and `_partial_key`, and the separator that they rely on.
use Prim.Native.Char.{Char, code}
use Prim.Native.String.{◌++◌}
use text.Mathlib.TextLemmas.{nil-append, cons-append, append_assoc, cons-eq-cons}
use rag_agent_chatbot.Prelude.{
  String, ◌≡◌, ◌≢◌, refl, ap, sym, ◌∙◌, Bool, true, not, ◌&&◌, arith, ◌==◌, ==_iff,
}
use rag_agent_chatbot.Cache.{Settings, key_of, cache_key}

and_right : (a b : Bool) → (a && b) ≡ true → b ≡ true
and_right a b h = ground arith

-- The text has no `|`.
unfoldable pub has_no_bar : String → Bool
has_no_bar String.[] = true
has_no_bar (String.◌∷◌ c s) = not (code c == b'|') && has_no_bar s

bar : Char
bar = "|"

bar-append : (c : String) → "|" ++ c ≡ String.◌∷◌ bar c
unfolding bar
bar-append c = cons-append "|" String.[] c ∙ ap (String.◌∷◌ "|") (nil-append c)

-- A text with no `|` does not begin with one.
no_bar_head : (x : Char) (s : String) → has_no_bar (String.◌∷◌ x s) ≡ true → bar ≡ x → ⊥
unfolding has_no_bar bar
no_bar_head x s h e =
    let at_bar : code x ≡ b'|' = ap code (sym e) in ground (arith, ==_iff (code x) b'|')

cut :
    (u v c d : String)
    → has_no_bar u ≡ true
    → has_no_bar v ≡ true
    → u ++ String.◌∷◌ bar c ≡ v ++ String.◌∷◌ bar d
    → (u ≡ v) × (c ≡ d)
unfolding has_no_bar
cut String.[] String.[] c d hu hv h =
    (refl, (cons-eq-cons.0 (sym (nil-append _) ∙ h ∙ nil-append _)).1)
cut String.[] (String.◌∷◌ y v) c d hu hv h =
    absurd (no_bar_head y v hv (cons-eq-cons.0 (sym (nil-append _) ∙ h ∙ cons-append y v _)).0)
cut (String.◌∷◌ x u) String.[] c d hu hv h =
    absurd
      (no_bar_head x u hu (sym (cons-eq-cons.0 (sym (cons-append x u _) ∙ h ∙ nil-append _)).0))
cut (String.◌∷◌ x u) (String.◌∷◌ y v) c d hu hv h =
    let (first, rest) = cons-eq-cons.0 (sym (cons-append x u _) ∙ h ∙ cons-append y v _) in
    let (same, chats) = cut u v c d (and_right _ _ hu) (and_right _ _ hv) rest in
    (cons-eq-cons.1 (first, same), chats)

-- Two users and chats share no key, where the users' ids have no `|` in them, whatever the chat
-- ids hold.
pub cache_key_injective :
    (u v c d : String)
    → has_no_bar u ≡ true
    → has_no_bar v ≡ true
    → cache_key u c ≡ cache_key v d
    → (u ≡ v) × (c ≡ d)
unfolding cache_key
cache_key_injective u v c d hu hv h =
    cut u v c d hu hv (ap (λ t. u ++ t) (sym (bar-append c)) ∙ h ∙ ap (λ t. v ++ t) (bar-append d))

-- A `|` in a user's id is enough for a shared key: one user's chat then has the key of another's.
pub cache_key_shared :
    (u v c : String) → cache_key u (v ++ ("|" ++ c)) ≡ cache_key (u ++ ("|" ++ v)) c
unfolding cache_key
cache_key_shared u v c = sym (append_assoc u _ _ ∙ ap (λ t. u ++ t) (append_assoc "|" v _))

pub append-cancel : (p s t : String) → p ++ s ≡ p ++ t → s ≡ t
append-cancel String.[] s t h = sym (nil-append s) ∙ h ∙ nil-append t
append-cancel (String.◌∷◌ c p) s t h =
    append-cancel p s t (cons-eq-cons.0 (sym (cons-append c p s) ∙ h ∙ cons-append c p t)).1

letter_s : Char
letter_s = "s"

letter_p : Char
letter_p = "p"

letters_differ : letter_s ≡ letter_p → ⊥
unfolding letter_s letter_p
letters_differ h = let codes : b's' ≡ b'p' = ap code h in absurd (omega (arith, codes))

-- The counter of a user's streams is under no key of a partial response.
pub key_of-streams-partial :
    (settings : Settings) (user_id key : String)
    → key_of settings "partial" key ≢ key_of settings "streams" user_id
unfolding key_of letter_s letter_p
key_of-streams-partial settings user_id key h =
    let rest = append-cancel ":" _ _ (append-cancel settings.key_prefix _ _ h) in
    letters_differ (
      sym (cons-eq-cons.0 (sym (cons-append "p" "artial" _) ∙ rest ∙ cons-append "s" "treams" _)).0)
