-- ===== src/Main/Uploads/Limits.antt =====
-- The limits of the upload loop of assets/backend/main.py, and what it leaves on disk.
use rag_agent_chatbot.Prelude.{
  ℕ, ◌+◌, ◌≤◌, ◌≡◌, refl, ap, ◌∙◌, Bool, true, false, ◌||◌, List, [], ◌∷◌, ◌++◌, arith, ltb, ◌==◌,
  any_of, if◌then◌else◌, Bool-cases, inl, inr,
}
use rag_agent_chatbot.Text.{Text, text_eq, text_eq_iff}
use rag_agent_chatbot.Main.Uploads.{
  UploadFile, Read, chunk, broken, Written, complete, too_large, over_total, interrupted,
  write_chunks, max_upload_size_bytes, max_total_upload_bytes, unlink, unlink_all,
}

-- The bytes of a file: its chunks up to an empty one.
unfoldable pub read_size : List Read → ℕ
read_size [] = 0
read_size (broken ∷ reads) = 0
read_size (chunk n ∷ reads) = let rest = read_size reads in if n == 0 then 0 else n + rest

unfoldable pub total_read : List UploadFile → ℕ
unfolding read_size
total_read [] = 0
total_read (upload ∷ uploads) = read_size upload.reads + total_read uploads

-- A file that is written to its end has all the bytes that were sent, and is within both limits.
abbrev pub Within : ℕ → ℕ → List Read → Written → Type 0
Within total_size file_size reads (complete n) =
    (n ≡ file_size + read_size reads)
    × (n ≤ max_upload_size_bytes)
    × (total_size + n ≤ max_total_upload_bytes)
Within total_size file_size reads too_large = Unit
Within total_size file_size reads over_total = Unit
Within total_size file_size reads interrupted = Unit

Within-chunk :
    (total_size file_size m : ℕ) (reads : List Read) (w : Written)
    → (m == 0) ≡ false
    → Within total_size (file_size + m) reads w
    → Within total_size file_size (chunk m ∷ reads) w
unfolding read_size
Within-chunk total_size file_size m reads (complete n) e (h, a, b) = (rw e (omega (arith, h)), a, b)
Within-chunk total_size file_size m reads too_large e h = tt
Within-chunk total_size file_size m reads over_total e h = tt
Within-chunk total_size file_size m reads interrupted e h = tt

pub write_chunks-Within :
    (total_size file_size : ℕ) (reads : List Read)
    → file_size ≤ max_upload_size_bytes
    → total_size + file_size ≤ max_total_upload_bytes
    → Within total_size file_size reads (write_chunks total_size file_size reads)
unfolding write_chunks read_size
write_chunks-Within total_size file_size [] a b = (omega arith, a, b)
write_chunks-Within total_size file_size (broken ∷ reads) a b = tt
write_chunks-Within total_size file_size (chunk m ∷ reads) a b =
    cases (m == 0) _ _ refl refl refl (write_chunks-Within total_size (file_size + m) reads)
  where
    cases :
        (stop large over : Bool)
        → (m == 0) ≡ stop
        → ltb max_upload_size_bytes (file_size + m) ≡ large
        → ltb max_total_upload_bytes (total_size + (file_size + m)) ≡ over
        → (file_size + m ≤ max_upload_size_bytes
            → total_size + (file_size + m) ≤ max_total_upload_bytes
            → Within total_size
                (file_size + m)
                reads
                (write_chunks total_size (file_size + m) reads))
        → Within total_size file_size (chunk m ∷ reads) (
            if stop
            then complete file_size
            else if large
            then too_large
            else if over
            then over_total
            else write_chunks total_size (file_size + m) reads)
    cases true large over z e f rest = (rw z (omega arith), a, b)
    cases false true over z e f rest = tt
    cases false false true z e f rest = tt
    cases false false false z e f rest =
        Within-chunk total_size file_size m reads _ z (rest (ground arith) (ground arith))

-- Whether a path is on a list of paths.
abbrev pub has_path : Text → List Text → Bool
has_path path paths = any_of (text_eq path) paths

pub has_path-unlink :
    (q path : Text) (disk : List Text)
    → has_path q (unlink path disk) ≡ true
    → (has_path q disk ≡ true) × (text_eq q path ≡ false)
has_path-unlink q path [] h = absurd (cc)
has_path-unlink q path (x ∷ disk) h = elim (Bool-cases (text_eq q x)) [
  | inl e ↦
      let same : q ≡ x = text_eq_iff q x e in
      elim (Bool-cases (text_eq x path)) [
        | inl f ↦
            let rest : has_path q (unlink path disk) ≡ true = ground arith in
            (ground arith, (has_path-unlink q path disk rest).1)
        | inr f ↦ (ground arith, ap (λ z. text_eq z path) same ∙ f)
      ]
  | inr e ↦
      let rest : has_path q (unlink path disk) ≡ true = ground arith in
      (ground (arith, has_path-unlink q path disk rest), (has_path-unlink q path disk rest).1)
]

pub has_path-unlink_all :
    (q : Text) (paths disk : List Text)
    → has_path q (unlink_all paths disk) ≡ true
    → (has_path q disk ≡ true) × (has_path q paths ≡ false)
unfolding unlink_all
has_path-unlink_all q [] disk h = (h, refl)
has_path-unlink_all q (path ∷ paths) disk h =
    let (a, b) = has_path-unlink_all q paths (unlink path disk) h in
    let (c, d) = has_path-unlink q path disk a in (c, ground arith)

pub has_path-concat :
    (q path : Text) (paths : List Text)
    → has_path q (paths ++ path ∷ []) ≡ (has_path q paths || text_eq q path)
has_path-concat q path [] = ground arith
has_path-concat q path (x ∷ paths) = ground (arith, has_path-concat q path paths)
