-- ===== src/Main/Uploads/Sizes.antt =====
-- Which uploads the limits of assets/backend/main.py let in.
use rag_agent_chatbot.Prelude.{
  ℕ, ◌+◌, ◌≤◌, String, ◌≡◌, ◌↔◌, refl, Bool, true, false, ◌||◌, List, [], ◌∷◌, ◌++◌, arith, ltb,
  ◌==◌, if◌then◌else◌, All, str_eq,
}
use rag_agent_chatbot.Text.{Text}
use rag_agent_chatbot.Http.{Response, returned, http_error}
use rag_agent_chatbot.Main.Uploads.Limits.{read_size, total_read}
use rag_agent_chatbot.Main.Uploads.{
  Read, chunk, broken, UploadFile, Written, complete, too_large, over_total, interrupted,
  write_chunks, max_upload_size_bytes, max_total_upload_bytes, open_file, Checks, Progress,
  dest_path, close_file, save_upload, then_save, save_uploads, cleaned, ingest_files,
}

abbrev pub IsWhole : List Read → Type 0
IsWhole reads = All (λ r. is_chunk r ≡ true) reads
  where
    is_chunk : Read → Bool
    is_chunk (chunk n) = true
    is_chunk broken = false

abbrev Ends : ℕ → ℕ → List Read → Written → Type 0
Ends total_size file_size reads (complete n) =
    (n ≡ file_size + read_size reads)
    × (n ≤ max_upload_size_bytes)
    × (total_size + n ≤ max_total_upload_bytes)
Ends total_size file_size reads too_large = max_upload_size_bytes + 1 ≤ file_size + read_size reads
Ends total_size file_size reads over_total =
    max_total_upload_bytes + 1 ≤ total_size + (file_size + read_size reads)
Ends total_size file_size reads interrupted = ⊥

write_chunks-Ends :
    (total_size file_size : ℕ) (reads : List Read)
    → IsWhole reads
    → file_size ≤ max_upload_size_bytes
    → total_size + file_size ≤ max_total_upload_bytes
    → Ends total_size file_size reads (write_chunks total_size file_size reads)
unfolding write_chunks read_size
write_chunks-Ends total_size file_size [] w a b = (omega arith, a, b)
write_chunks-Ends total_size file_size (broken ∷ reads) (w, _) a b = absurd (cc w)
write_chunks-Ends total_size file_size (chunk m ∷ reads) (_, w) a b =
    cases (m == 0) _ _ refl refl refl (write_chunks-Ends total_size (file_size + m) reads w)
  where
    cases :
        (stop large over : Bool)
        → (m == 0) ≡ stop
        → ltb max_upload_size_bytes (file_size + m) ≡ large
        → ltb max_total_upload_bytes (total_size + (file_size + m)) ≡ over
        → (file_size + m ≤ max_upload_size_bytes
            → total_size + (file_size + m) ≤ max_total_upload_bytes
            → Ends total_size (file_size + m) reads (write_chunks total_size (file_size + m) reads))
        → Ends total_size file_size (chunk m ∷ reads) (
            if stop
            then complete file_size
            else if large
            then too_large
            else if over
            then over_total
            else write_chunks total_size (file_size + m) reads)
    cases true large over s e f rest = (ground arith, a, b)
    cases false true over s e f rest = ground arith
    cases false false true s e f rest = ground arith
    cases false false false s e f rest =
        onward (write_chunks total_size (file_size + m) reads) (rest (ground arith) (ground arith))
      where
        onward :
            (w : Written)
            → Ends total_size (file_size + m) reads w
            → Ends total_size file_size (chunk m ∷ reads) w
        onward (complete n) (g, h, k) = (ground arith, h, k)
        onward too_large h = ground arith
        onward over_total h = ground arith
        onward interrupted h = h

-- The files are within both limits.
abbrev pub Fits : ℕ → List UploadFile → Type 0
Fits total_size uploads =
    All (λ (u : UploadFile). read_size u.reads ≤ max_upload_size_bytes) uploads
    × (total_size + total_read uploads ≤ max_total_upload_bytes)

abbrev pub IsAccepted : {A : Type 0} → Response A → Type 0
IsAccepted (returned a) = Unit
IsAccepted (http_error status detail) = ⊥

module _ (checks : Checks) (permanent_dir : Text) where
  -- A file that the other checks let in, and that is read without an exception.
  pub record Passes (upload : UploadFile) : Type 0 where
    pub extension : checks.extension_allowed upload.filename ≡ true
    pub inside : checks.is_inside (dest_path checks permanent_dir upload) ≡ true
    pub magic : checks.magic_accepted upload ≡ true
    pub whole : IsWhole upload.reads

  Decides : ℕ → List UploadFile → Progress × Response (Unit {0}) → Type 0
  Decides total_size uploads r = IsAccepted r.1 ↔ Fits total_size uploads

  close_file-Decides :
      (upload : UploadFile) (uploads : List UploadFile) (p : Progress) (w : Written)
      → checks.magic_accepted upload ≡ true
      → Ends p.total_size 0 upload.reads w
      → ((q : Progress)
          → q.total_size ≤ max_total_upload_bytes
          → Decides q.total_size uploads (save_uploads checks permanent_dir uploads q))
      → Decides p.total_size (upload ∷ uploads) (
          then_save checks permanent_dir
            (save_uploads checks permanent_dir uploads)
            (close_file checks permanent_dir upload (dest_path checks permanent_dir upload) p w))
  unfolding close_file total_read Decides
  close_file-Decides upload uploads p (complete n) accepted (size, small, within) next =
      let (out, back) = next (saved n) within in
      rw accepted (
        λ h. let (all, total) = out h in ((ground arith, all), omega (arith, total, size)),
        λ (all, total). back (all.1, omega (arith, total, size)),
      )
    where
      saved : ℕ → Progress
      saved n = record p {
        saved_paths = p.saved_paths ++ dest_path checks permanent_dir upload ∷ [];
        total_size = p.total_size + n;
      }
  close_file-Decides upload uploads p too_large accepted large next =
      (λ h. absurd h, λ (fits, _). absurd (omega (arith, fits.0, large)))
  close_file-Decides upload uploads p over_total accepted over next =
      (λ h. absurd h, λ (_, total). absurd (omega (arith, total, over)))
  close_file-Decides upload uploads p interrupted accepted h next = absurd h

  save_uploads-Decides :
      (uploads : List UploadFile) (p : Progress)
      → All Passes uploads
      → p.total_size ≤ max_total_upload_bytes
      → Decides p.total_size uploads (save_uploads checks permanent_dir uploads p)
  unfolding save_uploads save_upload total_read Decides
  save_uploads-Decides [] p h small = (λ _. (tt, omega (arith, small)), λ _. tt)
  save_uploads-Decides (upload ∷ uploads) p (passes, rest) small =
      rw (passes.extension, passes.inside)
        (close_file-Decides upload uploads
          (record p { disk = open_file (dest_path checks permanent_dir upload) p.disk })
          (write_chunks p.total_size 0 upload.reads) passes.magic
          (write_chunks-Ends p.total_size 0 upload.reads passes.whole (omega arith)
            (omega (arith, small)))
          (λ q. save_uploads-Decides uploads q rest))

  cleaned-accepts :
      (r : Progress × Response (Unit {0}))
      → IsAccepted r.1 ↔ IsAccepted (cleaned checks permanent_dir r).1
  unfolding cleaned
  cleaned-accepts (p, returned _) = (λ h. h, λ h. h)
  cleaned-accepts (p, http_error status detail) = (λ h. h, λ h. h)

  -- Of at least one file, all of which the other checks let in and are read to their ends, with a valid
  -- visibility: the request is accepted exactly if no file has more than 50 MB and all together have no
  -- more than 200 MB.
  pub ingest_files-Fits :
      (upload : UploadFile) (uploads : List UploadFile) (visibility : String) (disk : List Text)
      → (str_eq visibility "public" || str_eq visibility "private") ≡ true
      → All Passes (upload ∷ uploads)
      → IsAccepted (ingest_files checks permanent_dir (upload ∷ uploads) visibility disk).1
        ↔ Fits 0 (upload ∷ uploads)
  unfolding ingest_files Decides
  ingest_files-Fits upload uploads visibility disk valid passes =
      let p : Progress = record { disk = disk; saved_paths = []; total_size = 0 } in
      let (out, back) = save_uploads-Decides (upload ∷ uploads) p passes (omega arith) in
      let (to, from) = cleaned-accepts (save_uploads checks permanent_dir (upload ∷ uploads) p) in
      rw valid (λ h. out (from h), λ h. to (back h))
