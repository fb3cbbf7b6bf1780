-- ===== src/Worker/Frame.antt =====
-- What a run of `_process_single_file` leaves of the other events: their rows.
use share_sentinel.Prelude.{
  ℕ, ◌≡◌, refl, ◌∙◌, String, Bool, false, Option, none, some, inl, inr, Bool-cases, ◌==◌,
}
use share_sentinel.Pipeline.SecondLook.{Response}
use share_sentinel.Pipeline.Hashes.{Hashes, HashRow}
use share_sentinel.Worker.Events.{
  Status, Events, Extra, no_extra, temp_file_deleted, failure_reason, written, get_event,
  update_event_status, set_content_type, update_event_metadata,
}
use share_sentinel.Worker.Analysis.{
  Action, full_analysis, filename_only, archive_manifest, multimodal, transcript_analysis,
  folder_flag, pending_manual, format_conversion, transient, unhandled, Result, value, raise,
  extract_and_build_request,
}
use share_sentinel.Worker.Item.{
  FileJob, Metadata, Fetched, not_found, refused, crashed, item, Download, downloaded, unsupported,
  broken, download_error, Recording, no_transcript, interrupted, transcript, Environment, Store,
  Run,
}
use share_sentinel.Worker.Rows.{get_other}
use share_sentinel.Worker.File.{
  conclude, filename_only_or_skip, after_download_error, process_download, reuse_or_analyze,
  analyze_as, download_file, after_conversion, convert, park, close, is_gone, has_ids, after_hash,
  after_download, after_recording, handle_transcript, route, gate, fall_back, fetch, run_steps,
  settle, process_single_file, is_shut, stored_metadata, unavailable_metadata, after_fetch,
}

-- The row of another event k is the same.
abbrev pub Keeps : String → Events → Events → Type 0
Keeps k es es' = get_event k es' ≡ get_event k es

pub update_event_status-Keeps :
    (now : ℕ) (k k' : String) (s : Status) (x : Extra) (es : Events)
    → (k' == k) ≡ false
    → Keeps k es (update_event_status now k' s x es)
unfolding update_event_status
update_event_status-Keeps now k k' s no_extra es other =
    get_other (written now s no_extra) k k' es (λ e. refl) other
update_event_status-Keeps now k k' s temp_file_deleted es other =
    get_other (written now s temp_file_deleted) k k' es (λ e. refl) other
update_event_status-Keeps now k k' s (failure_reason r) es other =
    get_other (written now s (failure_reason r)) k k' es (λ e. refl) other

module _ (e : Environment) (j : FileJob) (skip : Bool) (k : String)
    (other : (j.event_id == k) ≡ false) where
  abbrev Same : Store → Run → Type 0
  Same st run = Keeps k st.events run.0.events

  status-Keeps :
      (s : Status) (x : Extra) (es : Events)
      → Keeps k es (update_event_status e.now j.event_id s x es)
  status-Keeps s x es = update_event_status-Keeps e.now k j.event_id s x es other

  typed-Keeps : (t : String) (es : Events) → Keeps k es (set_content_type e.now j.event_id t es)
  unfolding set_content_type
  typed-Keeps t es = get_other _ k j.event_id es (λ e. refl) other

  close-Keeps : (reason : String) (st : Store) → Same st (close e j skip reason st)
  close-Keeps reason st = status-Keeps _ _ st.events

  conclude-Keeps :
      (m : Metadata) (h : Option String) (mode : String) (r : Result Response) (st : Store)
      → Same st (conclude e j skip m h mode r st)
  unfolding conclude
  conclude-Keeps m h mode (raise t) st = refl
  conclude-Keeps m h mode (value r) st = status-Keeps _ _ st.events

  filename_only_or_skip-Keeps :
      (skipped : String) (m : Metadata) (st : Store)
      → Same st (filename_only_or_skip e j skip skipped m st)
  unfolding filename_only_or_skip
  filename_only_or_skip-Keeps skipped m st = elim (Bool-cases j.skip_if_unprocessable) [
    | inl skips ↦ rw (skips, filename_only_or_skip) (close-Keeps skipped st)
    | inr goes ↦ rw (goes, filename_only_or_skip) (conclude-Keeps m none "filename_only" _ st)
  ]

  analyze_as-Keeps :
      (m : Metadata) (h : String) (mode : Result String) (st : Store)
      → Same st (analyze_as e j skip m h mode st)
  analyze_as-Keeps m h (raise t) st = refl
  analyze_as-Keeps m h (value mode) st = conclude-Keeps m (some h) mode _ st

  reuse_or_analyze-Keeps :
      (m : Metadata) (h : String) (a : Action) (p : Option HashRow × Hashes) (st : Store)
      → Same st (reuse_or_analyze e j skip m h a p st)
  reuse_or_analyze-Keeps m h a (none, hashes) st =
      analyze_as-Keeps m h (extract_and_build_request a e.extraction) st
  reuse_or_analyze-Keeps m h a (some row, hashes) st = status-Keeps _ _ st.events

  after_hash-Keeps :
      (m : Metadata) (a : Action) (h : Option String) (st : Store)
      → Same st (after_hash e j skip m a h st)
  after_hash-Keeps m a none st = refl
  after_hash-Keeps m a (some h) st = reuse_or_analyze-Keeps m h a _ st

  process_download-Keeps :
      (m : Metadata) (a : Action) (st : Store) → Same st (process_download e j skip m a st)
  unfolding process_download
  process_download-Keeps m a st = after_hash-Keeps m a e.file_hash st

  after_download_error-Keeps :
      (skipped reason : String) (m : Metadata) (st : Store)
      → Same st (after_download_error e j skip skipped reason m st)
  after_download_error-Keeps skipped reason m st = elim (Bool-cases (is_gone e j skip reason)) [
    | inl gone ↦ rw gone (close-Keeps reason st)
    | inr left ↦ rw left (filename_only_or_skip-Keeps skipped m st)
  ]

  after_download-Keeps :
      (m : Metadata) (a : Action) (d : Download) (st : Store)
      → Same st (after_download e j skip m a d st)
  after_download-Keeps m a downloaded st = process_download-Keeps m a st
  after_download-Keeps m a unsupported st = refl
  after_download-Keeps m a broken st = refl
  after_download-Keeps m a (download_error reason) st = after_download_error-Keeps _ reason m st

  download_file-Keeps :
      (m : Metadata) (a : Action) (st : Store) → Same st (download_file e j skip m a st)
  unfolding download_file
  download_file-Keeps m a st = after_download-Keeps m a e.download st

  after_conversion-Keeps :
      (m : Metadata) (d : Download) (st : Store) → Same st (after_conversion e j skip m d st)
  after_conversion-Keeps m downloaded st = process_download-Keeps m full_analysis st
  after_conversion-Keeps m unsupported st = filename_only_or_skip-Keeps _ m st
  after_conversion-Keeps m broken st = refl
  after_conversion-Keeps m (download_error reason) st = after_download_error-Keeps _ reason m st

  convert-Keeps : (m : Metadata) (st : Store) → Same st (convert e j skip m st)
  unfolding convert
  convert-Keeps m st = elim (Bool-cases (has_ids e j skip m)) [
    | inl ids ↦
        rw (ids, convert) (after_conversion-Keeps m e.conversion _ ∙ typed-Keeps _ st.events)
    | inr no_ids ↦
        rw (no_ids, convert) (filename_only_or_skip-Keeps _ m _ ∙ typed-Keeps _ st.events)
  ]

  after_recording-Keeps :
      (m : Metadata) (r : Recording) (st : Store) → Same st (after_recording e j skip m r st)
  after_recording-Keeps m no_transcript st = conclude-Keeps m none _ _ st
  after_recording-Keeps m interrupted st = refl
  after_recording-Keeps m (transcript frames) st = conclude-Keeps m none _ _ st

  route-Keeps : (m : Metadata) (a : Action) (st : Store) → Same st (route e j skip m a st)
  unfolding route handle_transcript park
  route-Keeps m pending_manual st = status-Keeps _ _ _ ∙ typed-Keeps _ st.events
  route-Keeps m format_conversion st = convert-Keeps m st
  route-Keeps m transcript_analysis st = after_recording-Keeps m e.recording st
  route-Keeps m filename_only st = filename_only_or_skip-Keeps _ m st
  route-Keeps m full_analysis st = download_file-Keeps m full_analysis st
  route-Keeps m archive_manifest st = download_file-Keeps m archive_manifest st
  route-Keeps m multimodal st = download_file-Keeps m multimodal st
  route-Keeps m folder_flag st = download_file-Keeps m folder_flag st

  gate-Keeps : (m : Metadata) (st : Store) → Same st (gate e j skip m st)
  gate-Keeps m st = elim (Bool-cases (is_shut e j skip m)) [
    | inl shut ↦ rw shut (close-Keeps _ st)
    | inr passes ↦ rw passes (route-Keeps m (e.classify m) st)
  ]

  fall_back-Keeps : (st : Store) → Same st (fall_back e j skip st)
  unfolding fall_back
  fall_back-Keeps st = elim (Bool-cases (has_ids e j skip (stored_metadata e j skip st))) [
    | inl ids ↦ rw (ids, fall_back) (gate-Keeps _ st)
    | inr no_ids ↦
        rw (no_ids, fall_back) (filename_only_or_skip-Keeps _ (unavailable_metadata e j skip) st)
  ]

  after_fetch-Keeps : (f : Fetched) (st : Store) → Same st (after_fetch e j skip f st)
  unfolding update_event_metadata
  after_fetch-Keeps not_found st = close-Keeps _ st
  after_fetch-Keeps refused st = fall_back-Keeps st
  after_fetch-Keeps crashed st = refl
  after_fetch-Keeps (item name d i permissions) st =
      gate-Keeps _ _ ∙ get_other _ k j.event_id st.events (λ e. refl) other

  run_steps-Keeps :
      (prefetched : Option Metadata) (st : Store) → Same st (run_steps e j skip prefetched st)
  unfolding run_steps fetch
  run_steps-Keeps none st = after_fetch-Keeps e.fetched st
  run_steps-Keeps (some m) st = route-Keeps m (e.classify m) st

  settle-Keeps : (st : Store) (run : Run) → Same st run → Same st (settle e j skip run)
  unfolding settle
  settle-Keeps st (st', value r) h = h
  settle-Keeps st (st', raise transient) h = h
  settle-Keeps st (st', raise unhandled) h = status-Keeps _ _ st'.events ∙ h

  pub process_single_file-Keeps :
      (prefetched : Option Metadata) (st : Store)
      → Same st (process_single_file e j skip prefetched st)
  unfolding process_single_file
  process_single_file-Keeps prefetched st = settle-Keeps st _ (run_steps-Keeps prefetched st)
