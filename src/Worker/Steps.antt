-- ===== src/Worker/Steps.antt =====
-- How the steps of `_process_single_file` end: the event's status, its retries, and the verdicts.
use share_sentinel.Prelude.{
  ℕ, ◌≡◌, refl, String, Bool, true, false, Option, none, some, [], ◌∷◌, ◌++◌, inl, inr, Bool-cases,
}
use share_sentinel.Pipeline.SecondLook.{Response, escalation_tier}
use share_sentinel.Pipeline.Hashes.{Hashes, HashRow}
use share_sentinel.Pipeline.Record.{
  Database, Verdict, record_and_notify, verdict_of, final_response, rewritten,
}
use share_sentinel.Worker.Events.{
  Status, completed, failed, pending_manual_inspection, no_extra, failure_reason,
}
use share_sentinel.Worker.Analysis.{
  Action, full_analysis, Result, value, raise, extract_and_build_request,
}
use share_sentinel.Worker.Item.{
  FileJob, Metadata, Download, downloaded, unsupported, broken, download_error, Recording,
  no_transcript, interrupted, transcript, Environment, Store, Run, converted_type,
}
use share_sentinel.Worker.File.{
  conclude, filename_only_or_skip, after_download_error, process_download, reuse_or_analyze,
  analyze_as, download_file, after_conversion, convert, park, close, is_gone, has_ids, after_hash,
  after_download, after_recording,
}
use share_sentinel.Worker.Rows.{HasRow, update_event_status-HasRow, set_content_type-HasRow}

-- The statuses that a run without a response leaves.
abbrev pub is_closed : Status → Bool
is_closed completed = true
is_closed failed = true
is_closed pending_manual_inspection = true
is_closed _ = false

-- A verdict of the event, and no other, was added, with the categories and the tier of the response.
abbrev pub OneVerdict : String → Response → Database → Database → Type 0
OneVerdict k r db db' =
    (v : Verdict) × (db'.verdicts ≡ db.verdicts ++ v ∷ [])
    × (v.event_id ≡ k)
    × (v.category_ids ≡ r.category_ids)
    × (v.escalation_tier ≡ escalation_tier r)

-- What a run leaves, given the status and the database before it.
abbrev pub EndsWith :
    String → Status → Database → Result (Option Response) → Status → Database → Type 0
EndsWith k s db (value (some r)) s' db' = (s' ≡ completed) × OneVerdict k r db db'
EndsWith k s db (value none) s' db' = (is_closed s' ≡ true) × (db' ≡ db)
EndsWith k s db (raise t) s' db' = (s' ≡ s) × (db' ≡ db)

-- The same of a run, with the event's row and its retries.
abbrev pub IsEnded : String → Option ℕ → Status → Database → Run → Type 0
IsEnded k n s db (st, r) = (s' : Status) × HasRow k n s' st.events × EndsWith k s db r s' st.db

module _ (e : Environment) (j : FileJob) (skip : Bool) (n : Option ℕ) (s : Status) where
  abbrev Before : Store → Type 0
  Before st = HasRow j.event_id n s st.events

  abbrev Ends : Database → Run → Type 0
  Ends db run = IsEnded j.event_id n s db run

  pub close-IsEnded :
      (reason : String) (st : Store) → Before st → Ends st.db (close e j skip reason st)
  close-IsEnded reason st h = (
    _,
    update_event_status-HasRow e.now j.event_id n s completed (failure_reason reason) _ h,
    (refl, refl),
  )

  conclude-IsEnded :
      (m : Metadata) (h : Option String) (mode : String) (r : Result Response) (st : Store)
      → Before st
      → Ends st.db (conclude e j skip m h mode r st)
  unfolding conclude record_and_notify verdict_of final_response
  conclude-IsEnded m h mode (raise t) st b = (s, b, (refl, refl))
  conclude-IsEnded m h mode (value r) st b = (
    _,
    update_event_status-HasRow e.now j.event_id n s completed no_extra _ b,
    (refl, (_, refl, refl, refl, refl)),
  )

  pub filename_only_or_skip-IsEnded :
      (skipped : String) (m : Metadata) (st : Store)
      → Before st
      → Ends st.db (filename_only_or_skip e j skip skipped m st)
  unfolding filename_only_or_skip
  filename_only_or_skip-IsEnded skipped m st b = elim (Bool-cases j.skip_if_unprocessable) [
    | inl skips ↦ rw (skips, filename_only_or_skip) (close-IsEnded skipped st b)
    | inr goes ↦ rw (goes, filename_only_or_skip) (conclude-IsEnded m none "filename_only" _ st b)
  ]

  analyze_as-IsEnded :
      (m : Metadata) (h : String) (mode : Result String) (st : Store)
      → Before st
      → Ends st.db (analyze_as e j skip m h mode st)
  analyze_as-IsEnded m h (raise t) st b = (s, b, (refl, refl))
  analyze_as-IsEnded m h (value mode) st b = conclude-IsEnded m (some h) mode _ st b

  reuse_or_analyze-IsEnded :
      (m : Metadata) (h : String) (a : Action) (p : Option HashRow × Hashes) (st : Store)
      → Before st
      → Ends st.db (reuse_or_analyze e j skip m h a p st)
  unfolding record_and_notify verdict_of final_response rewritten
  reuse_or_analyze-IsEnded m h a (none, hashes) st b =
      analyze_as-IsEnded m h (extract_and_build_request a e.extraction) st b
  reuse_or_analyze-IsEnded m h a (some row, hashes) st b = (
    _,
    update_event_status-HasRow e.now j.event_id n s completed no_extra _ b,
    (refl, (_, refl, refl, refl, refl)),
  )

  after_hash-IsEnded :
      (m : Metadata) (a : Action) (h : Option String) (st : Store)
      → Before st
      → Ends st.db (after_hash e j skip m a h st)
  after_hash-IsEnded m a none st b = (s, b, (refl, refl))
  after_hash-IsEnded m a (some h) st b = reuse_or_analyze-IsEnded m h a _ st b

  process_download-IsEnded :
      (m : Metadata) (a : Action) (st : Store)
      → Before st
      → Ends st.db (process_download e j skip m a st)
  unfolding process_download
  process_download-IsEnded m a st b = after_hash-IsEnded m a e.file_hash st b

  after_download_error-IsEnded :
      (skipped reason : String) (m : Metadata) (st : Store)
      → Before st
      → Ends st.db (after_download_error e j skip skipped reason m st)
  after_download_error-IsEnded skipped reason m st b = elim (Bool-cases (is_gone e j skip reason)) [
    | inl gone ↦ rw gone (close-IsEnded reason st b)
    | inr other ↦ rw other (filename_only_or_skip-IsEnded skipped m st b)
  ]

  after_download-IsEnded :
      (m : Metadata) (a : Action) (d : Download) (st : Store)
      → Before st
      → Ends st.db (after_download e j skip m a d st)
  after_download-IsEnded m a downloaded st b = process_download-IsEnded m a st b
  after_download-IsEnded m a unsupported st b = (s, b, (refl, refl))
  after_download-IsEnded m a broken st b = (s, b, (refl, refl))
  after_download-IsEnded m a (download_error reason) st b =
      after_download_error-IsEnded _ reason m st b

  pub download_file-IsEnded :
      (m : Metadata) (a : Action) (st : Store)
      → Before st
      → Ends st.db (download_file e j skip m a st)
  unfolding download_file
  download_file-IsEnded m a st b = after_download-IsEnded m a e.download st b

  after_conversion-IsEnded :
      (m : Metadata) (d : Download) (st : Store)
      → Before st
      → Ends st.db (after_conversion e j skip m d st)
  after_conversion-IsEnded m downloaded st b = process_download-IsEnded m full_analysis st b
  after_conversion-IsEnded m unsupported st b = filename_only_or_skip-IsEnded _ m st b
  after_conversion-IsEnded m broken st b = (s, b, (refl, refl))
  after_conversion-IsEnded m (download_error reason) st b =
      after_download_error-IsEnded _ reason m st b

  pub convert-IsEnded : (m : Metadata) (st : Store) → Before st → Ends st.db (convert e j skip m st)
  unfolding convert
  convert-IsEnded m st b =
      let b' =
        set_content_type-HasRow e.now j.event_id (converted_type e.package_type e.extension) n s
          st.events b in
      elim (Bool-cases (has_ids e j skip m)) [
        | inl ids ↦ rw (ids, convert) (after_conversion-IsEnded m e.conversion _ b')
        | inr no_ids ↦ rw (no_ids, convert) (filename_only_or_skip-IsEnded _ m _ b')
      ]

  pub after_recording-IsEnded :
      (m : Metadata) (r : Recording) (st : Store)
      → Before st
      → Ends st.db (after_recording e j skip m r st)
  after_recording-IsEnded m no_transcript st b = conclude-IsEnded m none _ _ st b
  after_recording-IsEnded m interrupted st b = (s, b, (refl, refl))
  after_recording-IsEnded m (transcript frames) st b = conclude-IsEnded m none _ _ st b

  pub park-IsEnded : (st : Store) → Before st → Ends st.db (park e j skip st)
  unfolding park
  park-IsEnded st b = (
    _,
    update_event_status-HasRow e.now j.event_id n s pending_manual_inspection no_extra _
        (set_content_type-HasRow e.now j.event_id _ n s st.events b),
    (refl, refl),
  )
