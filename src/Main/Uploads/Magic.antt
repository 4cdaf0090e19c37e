-- ===== src/Main/Uploads/Magic.antt =====
-- `_validate_magic_bytes` of assets/backend/main.py, on the bytes of the file. What `filetype.guess`
-- answers is given; the strict decoding of UTF-8 is Python's.
use Prim.Native.String.{◌++◌ as ◌<>◌}
use rag_agent_chatbot.Prelude.{
  ℕ, ◌<◌, String, Bool, true, false, ◌&&◌, ◌||◌, Option, none, some, List, [], ◌∷◌, ◌++◌, ◌==◌, ltb,
  leb, str_eq, if◌then◌else◌, any_of, take, All,
}

-- The bytes that may follow a leading byte, as ranges; none for a byte that leads nothing.
unfoldable pub followers : ℕ → Option (List (ℕ × ℕ))
followers b =
    if ltb b 128
    then some []
    else if ltb b 194
    then none
    else if ltb b 224
    then some ((128, 191) ∷ [])
    else if b == 224
    then some ((160, 191) ∷ (128, 191) ∷ [])
    else if b == 237
    then some ((128, 159) ∷ (128, 191) ∷ [])
    else if ltb b 240
    then some ((128, 191) ∷ (128, 191) ∷ [])
    else if b == 240
    then some ((144, 191) ∷ (128, 191) ∷ (128, 191) ∷ [])
    else if ltb b 244
    then some ((128, 191) ∷ (128, 191) ∷ (128, 191) ∷ [])
    else if b == 244
    then some ((128, 143) ∷ (128, 191) ∷ (128, 191) ∷ [])
    else none

-- `head.decode("utf-8")` does not raise, with these ranges to come.
unfoldable pub decodes_from : List (ℕ × ℕ) → List ℕ → Bool
unfolding followers
decodes_from [] [] = true
decodes_from (r ∷ rs) [] = false
decodes_from ((low, high) ∷ rs) (b ∷ bytes) = leb low b && leb b high && decodes_from rs bytes
decodes_from [] (b ∷ bytes) = leads (followers b) (λ rs. decodes_from rs bytes)
  where
    leads : Option (List (ℕ × ℕ)) → (List (ℕ × ℕ) → Bool) → Bool
    leads none rest = false
    leads (some rs) rest = rest rs

abbrev pub decodes : List ℕ → Bool
decodes bytes = decodes_from [] bytes

abbrev pub is_text_like : String → Bool
is_text_like ext =
    str_eq ext ".txt"
    || str_eq ext ".md"
    || str_eq ext ".csv"
    || str_eq ext ".json"
    || str_eq ext ".html"

-- `_EXT_TO_MIME.get(ext)`
abbrev pub expected_mimes : String → Option (List String)
expected_mimes ext =
    if str_eq ext ".pdf"
    then some ("application/pdf" ∷ [])
    else if str_eq ext ".docx"
    then some ("application/vnd.openxmlformats-officedocument.wordprocessingml.document" ∷ [])
    else if str_eq ext ".doc"
    then some ("application/msword" ∷ [])
    else if str_eq ext ".rtf"
    then some ("application/rtf" ∷ "text/rtf" ∷ [])
    else none

unfoldable pub check_head : List ℕ → String → Option String
unfolding decodes_from
check_head head ext =
    if any_of (λ b. b == 0) head
    then some ("content appears binary, expected " <> ext)
    else if decodes head
    then none
    else some ("content is not valid UTF-8, expected " <> ext)

unfoldable pub check_mime : Option String → List String → String → Option String
check_mime none expected ext = some ("magic bytes unrecognised, expected " <> ext)
check_mime (some mime) expected ext =
    if any_of (str_eq mime) expected
    then none
    else some ("magic bytes (" <> (mime <> (") don't match extension " <> ext)))

unfoldable pub validate_magic_bytes : List ℕ → Option String → String → Option String
unfolding check_head check_mime
validate_magic_bytes content detected ext =
    if is_text_like ext then check_head (take 8192 content) ext else elim (expected_mimes ext) [
      | none ↦ none
      | some expected ↦ check_mime detected expected ext
    ]

-- ASCII characters, without NUL.
abbrev pub IsPlain : List ℕ → Type 0
IsPlain s = All (λ b. (0 < b) × (b < 128)) s
