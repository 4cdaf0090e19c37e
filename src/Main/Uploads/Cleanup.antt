-- ===== src/Main/Uploads/Cleanup.antt =====
-- The loop over the uploaded files of assets/backend/main.py: what it accepts, and what it leaves on
-- disk where it refuses.
use rag_agent_chatbot.Prelude.{
  ◌+◌, ◌≤◌, String, ◌≡◌, refl, ap, sym, ◌∙◌, Bool, true, false, not, ◌||◌, List, [], ◌∷◌, ◌++◌,
  arith, map, All, str_eq, if◌then◌else◌, Bool-cases, inl, inr, ◌⊎◌, append-nil, append_assoc,
}
use rag_agent_chatbot.Text.{Text, text_eq}
use rag_agent_chatbot.Http.{Response, returned, http_error}
use rag_agent_chatbot.Main.Uploads.{
  UploadFile, Written, complete, too_large, over_total, interrupted, write_chunks,
  max_total_upload_bytes, max_upload_size_bytes, unlink, open_file, Checks, Progress, dest_path,
  close_file, save_upload, then_save, save_uploads, cleaned, ingest_files,
}
use rag_agent_chatbot.Main.Uploads.Limits.{
  read_size, total_read, Within, write_chunks-Within, has_path, has_path-unlink,
  has_path-unlink_all, has_path-concat,
}

-- Every file on disk was there before, or is among the saved ones; the total is within its limit.
pub record IsTracked (before : List Text) (p : Progress) : Type 0 where
  pub tracked :
      (q : Text) → has_path q p.disk ≡ true → (has_path q before || has_path q p.saved_paths) ≡ true
  pub bounded : p.total_size ≤ max_total_upload_bytes

module _ (checks : Checks) (permanent_dir : Text) where
  abbrev pub Accepted : UploadFile → Type 0
  Accepted upload =
      (checks.extension_allowed upload.filename ≡ true)
      × (checks.is_inside (dest_path checks permanent_dir upload) ≡ true)
      × (checks.magic_accepted upload ≡ true)
      × (read_size upload.reads ≤ max_upload_size_bytes)

  -- What a round may do: it saves an accepted file, it refuses and leaves only what was tracked, or
  -- it is interrupted.
  abbrev pub Round : List Text → UploadFile → Progress → Progress × Response (Unit {0}) → Type 0
  Round before upload p (p', returned _) =
      IsTracked before p'
      × Accepted upload
      × (p'.saved_paths ≡ p.saved_paths ++ dest_path checks permanent_dir upload ∷ [])
      × (p'.total_size ≡ p.total_size + read_size upload.reads)
  Round before upload p (p', http_error status detail) = (status ≡ 500) ⊎ IsTracked before p'

  opened-unlinked :
      (before : List Text) (path : Text) (p : Progress)
      → IsTracked before p
      → (q : Text) → has_path q (unlink path (open_file path p.disk)) ≡ true
      → (has_path q before || has_path q p.saved_paths) ≡ true
  opened-unlinked before path p i q h =
      let (a, b) = has_path-unlink q path (open_file path p.disk) h in
      let c : has_path q (unlink path p.disk) ≡ true = ground arith in
      i.tracked q (has_path-unlink q path p.disk c).0

  opened-saved :
      (before : List Text) (path : Text) (p : Progress)
      → IsTracked before p
      → (q : Text) → has_path q (open_file path p.disk) ≡ true
      → (has_path q before || has_path q (p.saved_paths ++ path ∷ [])) ≡ true
  opened-saved before path p i q h = elim (Bool-cases (text_eq q path)) [
    | inl e ↦ ground (arith, has_path-concat q path p.saved_paths)
    | inr e ↦
        let c : has_path q (unlink path p.disk) ≡ true = ground arith in
        ground (
          arith,
          has_path-concat q path p.saved_paths,
          i.tracked q (has_path-unlink q path p.disk c).0,
        )
  ]

  close_file-Round :
      (before : List Text) (upload : UploadFile) (p : Progress) (w : Written)
      → IsTracked before p
      → Within p.total_size 0 upload.reads w
      → checks.extension_allowed upload.filename ≡ true
      → checks.is_inside (dest_path checks permanent_dir upload) ≡ true
      → Round before upload p (
          close_file checks permanent_dir upload
            (dest_path checks permanent_dir upload)
            (record p { disk = open_file (dest_path checks permanent_dir upload) p.disk })
            w)
  unfolding close_file
  close_file-Round before upload p too_large i b e f =
      inr (record { tracked = opened-unlinked before _ p i; bounded = i.bounded })
  close_file-Round before upload p over_total i b e f =
      inr (record { tracked = opened-unlinked before _ p i; bounded = i.bounded })
  close_file-Round before upload p interrupted i b e f = inl refl
  close_file-Round before upload p (complete n) i b e f = cases (checks.magic_accepted upload) refl
    where
      path : Text
      path = dest_path checks permanent_dir upload

      cases :
          (m : Bool)
          → checks.magic_accepted upload ≡ m
          → Round before upload p (
              if m
              then (
                record p {
                  disk = open_file path p.disk;
                  saved_paths = p.saved_paths ++ path ∷ [];
                  total_size = p.total_size + n;
                },
                returned tt,
              )
              else (
                record p {
                  disk = unlink path (open_file path p.disk);
                  total_size = p.total_size + n;
                },
                http_error 400 "File rejected",
              ))
      cases true g = (
        record { tracked = opened-saved before path p i; bounded = b.2 },
        (e, f, g, omega (arith, b.0, b.1)),
        refl,
        omega (arith, b.0),
      )
      cases false g = inr (record { tracked = opened-unlinked before path p i; bounded = b.2 })

  save_upload-Round :
      (before : List Text) (upload : UploadFile) (p : Progress)
      → IsTracked before p
      → Round before upload p (save_upload checks permanent_dir upload p)
  unfolding save_upload
  save_upload-Round before upload p i =
      cases (checks.extension_allowed upload.filename) (checks.is_inside path) refl refl
    where
      path : Text
      path = dest_path checks permanent_dir upload

      cases :
          (allowed inside : Bool)
          → checks.extension_allowed upload.filename ≡ allowed
          → checks.is_inside path ≡ inside
          → Round before upload p (
              if not allowed
              then (p, http_error 400 "File type not allowed")
              else if not inside
              then (p, http_error 400 "Invalid filename")
              else close_file checks permanent_dir upload path
                  (record p { disk = open_file path p.disk })
                  (write_chunks p.total_size 0 upload.reads))
      cases false inside e f = inr i
      cases true false e f = inr i
      cases true true e f =
          close_file-Round before upload p _ i
            (write_chunks-Within p.total_size 0 upload.reads (omega arith)
              (omega (arith, i.bounded)))
            e f

  -- What the loop may do, from a progress on.
  abbrev pub Loop : List Text → List UploadFile → Progress → Progress × Response (Unit {0}) → Type 0
  Loop before uploads p (p', returned _) =
      IsTracked before p'
      × All Accepted uploads
      × (p'.saved_paths ≡ p.saved_paths ++ map (dest_path checks permanent_dir) uploads)
      × (p'.total_size ≡ p.total_size + total_read uploads)
  Loop before uploads p (p', http_error status detail) = (status ≡ 500) ⊎ IsTracked before p'

  pub save_uploads-Loop :
      (before : List Text) (uploads : List UploadFile) (p : Progress)
      → IsTracked before p
      → Loop before uploads p (save_uploads checks permanent_dir uploads p)
  unfolding save_uploads total_read
  save_uploads-Loop before [] p i = (i, tt, sym (append-nil p.saved_paths), omega arith)
  save_uploads-Loop before (upload ∷ uploads) p i =
      next (save_upload checks permanent_dir upload p) (save_upload-Round before upload p i)
        (save_uploads-Loop before uploads)
    where
      rest :
          (p' : Progress) (r : Progress × Response (Unit {0}))
          → Accepted upload
          → p'.saved_paths ≡ p.saved_paths ++ dest_path checks permanent_dir upload ∷ []
          → p'.total_size ≡ p.total_size + read_size upload.reads
          → Loop before uploads p' r
          → Loop before (upload ∷ uploads) p r
      rest p' (p'', returned _) a e z (j, all, f, y) = (
        j,
        (a, all),
        f
            ∙ ap (λ l. l ++ map (dest_path checks permanent_dir) uploads) e
            ∙ append_assoc p.saved_paths _ _,
        omega (arith, y, z),
      )
      rest p' (p'', http_error status detail) a e z h = h

      next :
          (r : Progress × Response (Unit {0}))
          → Round before upload p r
          → ((q : Progress)
              → IsTracked before q
              → Loop before uploads q (save_uploads checks permanent_dir uploads q))
          → Loop before
              (upload ∷ uploads)
              p
              (then_save checks permanent_dir (save_uploads checks permanent_dir uploads) r)
      next (p', returned _) (j, a, e, z) ih = rest p' _ a e z (ih p' j)
      next (p', http_error status detail) h ih = h

  -- The whole of the handler's answer: the disk, and the paths for the background task.
  abbrev pub Answer : List Text → List UploadFile → List Text × Response (List Text) → Type 0
  Answer disk uploads (after, returned paths) =
      All Accepted uploads
      × (total_read uploads ≤ max_total_upload_bytes)
      × (paths ≡ map (dest_path checks permanent_dir) uploads)
  Answer disk uploads (after, http_error status detail) =
      (status ≡ 500) ⊎ ((q : Text) → has_path q after ≡ true → has_path q disk ≡ true)

  cleaned-Answer :
      (disk : List Text) (uploads : List UploadFile) (p : Progress)
      (r : Progress × Response (Unit {0}))
      → p.saved_paths ≡ []
      → p.total_size ≡ 0
      → Loop disk uploads p r
      → Answer disk uploads (cleaned checks permanent_dir r)
  unfolding cleaned
  cleaned-Answer disk uploads p (p', returned _) e z (j, all, f, y) = (
    all,
    omega (arith, y, z, j.bounded),
    f ∙ ap (λ l. l ++ map (dest_path checks permanent_dir) uploads) e,
  )
  cleaned-Answer disk uploads p (p', http_error status detail) e z (inl h) = inl h
  cleaned-Answer disk uploads p (p', http_error status detail) e z (inr j) = inr λ q h.
      let (a, b) = has_path-unlink_all q p'.saved_paths p'.disk h in ground (arith, j.tracked q a)

  -- An upload request either answers with a path for each of its files, in their order, and then each
  -- file has an allowed extension, a path inside the task's directory, accepted magic bytes and at most
  -- the bytes allowed for one file, and all together have at most those allowed for a request; or it
  -- is refused, and then every file that is on disk was there before, except where the status is 500.
  pub ingest_files-Answer :
      (uploads : List UploadFile) (visibility : String) (disk : List Text)
      → Answer disk uploads (ingest_files checks permanent_dir uploads visibility disk)
  unfolding ingest_files
  ingest_files-Answer [] visibility disk = inr λ q h. h
  ingest_files-Answer (upload ∷ uploads) visibility disk =
      cases (str_eq visibility "public" || str_eq visibility "private")
    where
      start : Progress
      start = record { disk = disk; saved_paths = []; total_size = 0 }

      cases :
          (b : Bool)
          → Answer disk (upload ∷ uploads) (
              if b
              then cleaned checks permanent_dir
                  (save_uploads checks permanent_dir (upload ∷ uploads) start)
              else (disk, http_error 400 "visibility must be 'public' or 'private'"))
      cases true = cleaned-Answer disk (upload ∷ uploads) start _ refl refl (
          save_uploads-Loop disk (upload ∷ uploads) start
            (record { tracked = λ q h. ground arith; bounded = omega arith }))
      cases false = inr λ q h. h
