-- ===== src/Main/Uploads.antt =====
-- `ingest_files` of assets/backend/main.py: the names of uploaded files, and the loop that writes
-- them to the task's directory, with its limits and its cleaning up. `os.path.splitext`, the
-- resolution of paths and the verdict on the magic bytes, which Main/Uploads/Magic.antt models, are
-- parameters.
pub mod Names
pub mod Limits
pub mod Magic
pub mod Sizes
pub mod Cleanup
use rag_agent_chatbot.Prelude.{
  ℕ, ◌+◌, ◌*◌, String, Bool, true, false, not, ◌&&◌, ◌||◌, ◌==◌, Option, none, some, List, [], ◌∷◌,
  ◌++◌, str_eq, ltb, if◌then◌else◌, keep_if, any_of,
}
use rag_agent_chatbot.Text.{Text, codes, text_eq}
use rag_agent_chatbot.Http.{Response, returned, http_error, internal_error}

-- `os.path.basename`: what follows the last slash. `rest` is what follows the slashes so far.
unfoldable pub basename_from : Text → Text → Text
basename_from base [] = base
basename_from base (c ∷ s) =
    let longer = basename_from (base ++ c ∷ []) s in
    let anew = basename_from [] s in if c == 47 then anew else longer

abbrev pub is_kept : ℕ → Bool
is_kept c = not (ltb c 32) && not (c == 47) && not (c == 92)

-- `lstrip(".-")`
unfoldable pub lstrip_dots : Text → Text
lstrip_dots [] = []
lstrip_dots (c ∷ s) = let rest = lstrip_dots s in if c == 46 || c == 45 then rest else c ∷ s

abbrev pub or_upload : Text → Text
or_upload [] = codes "upload"
or_upload (c ∷ s) = c ∷ s

unfoldable pub sanitize_filename : Option Text → Text
unfolding basename_from lstrip_dots
sanitize_filename none = codes "upload"
sanitize_filename (some name) = or_upload (lstrip_dots (keep_if is_kept (basename_from [] name)))

abbrev pub max_upload_size_bytes : ℕ
max_upload_size_bytes = 50 * 1024 * 1024

abbrev pub max_total_upload_bytes : ℕ
max_total_upload_bytes = 200 * 1024 * 1024

-- What `await upload.read(…)` yields: the size of a chunk, or an exception.
pub data Read : Type 0 where
  chunk : ℕ → Read
  broken : Read

pub record UploadFile : Type 0 where
  pub filename : Option Text
  pub reads : List Read

-- How the writing of a file ends.
pub data Written : Type 0 where
  complete : ℕ → Written
  too_large over_total interrupted : Written

-- The `while True` loop over the chunks; an empty chunk is the end.
unfoldable pub write_chunks : ℕ → ℕ → List Read → Written
write_chunks total_size file_size [] = complete file_size
write_chunks total_size file_size (broken ∷ reads) = interrupted
write_chunks total_size file_size (chunk n ∷ reads) =
    let rest = write_chunks total_size (file_size + n) reads in
    if n == 0
    then complete file_size
    else if ltb max_upload_size_bytes (file_size + n)
    then too_large
    else if ltb max_total_upload_bytes (total_size + (file_size + n))
    then over_total
    else rest

-- The files on disk, by their paths.
abbrev pub unlink : Text → List Text → List Text
unlink path disk = keep_if (λ q. not (text_eq q path)) disk

unfoldable pub unlink_all : List Text → List Text → List Text
unlink_all [] disk = disk
unlink_all (path ∷ paths) disk = unlink_all paths (unlink path disk)

-- `open(dest_path, "wb")`
abbrev pub open_file : Text → List Text → List Text
open_file path disk = path ∷ unlink path disk

-- The environment of the loop: the allowed extension of a name (none where it is refused), the check
-- that a path resolves to one inside the directory, and the check of the magic bytes of the content.
pub record Checks : Type 0 where
  pub extension_allowed : Option Text → Bool
  pub is_inside : Text → Bool
  pub magic_accepted : UploadFile → Bool

-- The state of the loop.
pub record Progress : Type 0 where
  pub disk : List Text
  pub saved_paths : List Text
  pub total_size : ℕ

module _ (checks : Checks) (permanent_dir : Text) where
  abbrev pub dest_path : UploadFile → Text
  dest_path upload = permanent_dir ++ 47 ∷ sanitize_filename upload.filename

  -- A file after its chunks; the path is saved before the magic bytes are checked.
  unfoldable pub close_file :
      UploadFile → Text → Progress → Written → Progress × Response (Unit {0})
  close_file upload path p too_large =
      (record p { disk = unlink path p.disk }, http_error 413 "File exceeds maximum size")
  close_file upload path p over_total =
      (record p { disk = unlink path p.disk }, http_error 413 "Total upload size exceeds limit")
  close_file upload path p interrupted = (p, internal_error)
  close_file upload path p (complete file_size) =
      if checks.magic_accepted upload
      then (
        record p {
          saved_paths = p.saved_paths ++ path ∷ [];
          total_size = p.total_size + file_size;
        },
        returned tt,
      )
      else (
        record p { disk = unlink path p.disk; total_size = p.total_size + file_size },
        http_error 400 "File rejected",
      )

  -- One round of the loop over the files.
  unfoldable pub save_upload : UploadFile → Progress → Progress × Response (Unit {0})
  unfolding write_chunks close_file
  save_upload upload p =
      let path = dest_path upload in
      if not (checks.extension_allowed upload.filename)
      then (p, http_error 400 "File type not allowed")
      else if not (checks.is_inside path)
      then (p, http_error 400 "Invalid filename")
      else close_file upload path (record p { disk = open_file path p.disk })
          (write_chunks p.total_size 0 upload.reads)

  abbrev pub then_save :
      (Progress → Progress × Response (Unit {0}))
      → Progress × Response (Unit {0})
      → Progress × Response (Unit {0})
  then_save next (p, returned _) = next p
  then_save next (p, http_error status detail) = (p, http_error status detail)

  unfoldable pub save_uploads : List UploadFile → Progress → Progress × Response (Unit {0})
  unfolding save_upload
  save_uploads [] p = (p, returned tt)
  save_uploads (upload ∷ uploads) p = then_save (save_uploads uploads) (save_upload upload p)

  -- The `except` clauses: what was saved is removed.
  unfoldable pub cleaned : Progress × Response (Unit {0}) → List Text × Response (List Text)
  unfolding unlink_all
  cleaned (p, returned _) = (p.disk, returned p.saved_paths)
  cleaned (p, http_error status detail) =
      (unlink_all p.saved_paths p.disk, http_error status detail)

  -- The files on disk, and the paths that are handed to the background task.
  unfoldable pub ingest_files :
      List UploadFile → String → List Text → List Text × Response (List Text)
  unfolding save_uploads cleaned
  ingest_files [] visibility disk = (disk, http_error 400 "No files provided")
  ingest_files (upload ∷ uploads) visibility disk =
      if str_eq visibility "public" || str_eq visibility "private"
      then cleaned (
          save_uploads (upload ∷ uploads)
            (record { disk = disk; saved_paths = []; total_size = 0 }))
      else (disk, http_error 400 "visibility must be 'public' or 'private'")
