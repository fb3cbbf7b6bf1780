-- ===== src/Worker/File.antt =====
-- `_process_single_file` of services/worker/app/pipeline/orchestrator.py, with the filename-only and the
-- transcript paths. Steps that only log are left out; the enrollment that the metadata fetch calls is
-- Lifecycle/Enrollment. The hash and the classifier are functions of the environment.
use share_sentinel.Prelude.{
  String, Bool, not, ◌&&◌, ◌||◌, Option, none, some, List, ◌==◌, if◌then◌else◌,
}
use share_sentinel.Graph.{Permission}
use share_sentinel.Pipeline.SecondLook.{Response, second_opinion}
use share_sentinel.Pipeline.Hashes.{Hashes, HashRow, check_reuse}
use share_sentinel.Pipeline.Record.{Job, final_response, record_and_notify, reused_response}
use share_sentinel.Worker.Sharing.{SharingLink, extract_all_sharing_links, has_active_sharing_links}
use share_sentinel.Worker.Events.{
  Status, completed, failed, pending_manual_inspection, EventRow, Extra, no_extra, failure_reason,
  get_event, update_event_status, set_content_type, update_event_metadata,
}
use share_sentinel.Worker.Analysis.{
  Action, full_analysis, filename_only, transcript_analysis, pending_manual, format_conversion,
  transient, unhandled, Result, value, raise, extract_and_build_request, run_ai_analysis,
}
use share_sentinel.Worker.Item.{
  FileJob, Metadata, Fetched, not_found, refused, crashed, item, Download, downloaded, unsupported,
  broken, download_error, Recording, no_transcript, interrupted, transcript, Environment, Store,
  Run, or_empty, pending_type, converted_type,
}

-- The row of a snapshot that a verdict writes to, if both ids are there.
abbrev pub rescan_of : Option String → String → Option (String × String)
rescan_of none item_id = none
rescan_of (some parent) item_id =
    if parent == "" || item_id == "" then none else some (parent, item_id)

module _ (e : Environment) (j : FileJob) (skip_notification : Bool) where
  abbrev pub set_status : Status → Extra → Store → Store
  set_status s x st = record st { events = update_event_status e.now j.event_id s x st.events }

  abbrev pub verdict_job : Metadata → Option String → Job
  verdict_job m file_hash = record {
    event_id = j.event_id;
    file_name = m.name;
    site_url = j.site_url;
    object_id = j.object_id;
    file_hash = file_hash;
    rescan = rescan_of j.rescan_parent m.item_id;
    skip_notification = skip_notification;
  }

  -- `_record_and_notify`
  abbrev pub record_file : Metadata → Option String → Response → String → Store → Store
  record_file m file_hash r mode st =
      set_status completed no_extra
        (record st { db = record_and_notify e.now (verdict_job m file_hash) r mode st.db })

  -- What follows an analysis: the verdict, or the exception.
  unfoldable pub conclude : Metadata → Option String → String → Result Response → Store → Run
  conclude m file_hash mode (raise t) st = (st, raise t)
  conclude m file_hash mode (value r) st =
      let r' = second_opinion e.second_look e.second_look_enabled r mode in
      (
        record_file m file_hash r' mode st,
        value (some (final_response (verdict_job m file_hash) r')),
      )

  abbrev pub analysis : String → Result Response
  analysis mode = run_ai_analysis (e.analyze mode)

  -- Ends the event without an analysis.
  abbrev pub close : String → Store → Run
  close reason st = (set_status completed (failure_reason reason) st, value none)

  -- A filename-only analysis has no second look, which its mode is exempt from.
  unfoldable pub filename_only_or_skip : (skipped : String) → Metadata → Store → Run
  unfolding conclude
  filename_only_or_skip skipped m st =
      if j.skip_if_unprocessable
      then close skipped st
      else conclude m none "filename_only" (analysis "filename_only") st

  abbrev pub analyze_as : Metadata → String → Result String → Store → Run
  analyze_as m h (raise t) st = (st, raise t)
  analyze_as m h (value mode) st = conclude m (some h) mode (analysis mode) st

  abbrev pub reuse_or_analyze : Metadata → String → Action → Option HashRow × Hashes → Store → Run
  reuse_or_analyze m h a (none, hashes) st =
      analyze_as m h (extract_and_build_request a e.extraction) st
  reuse_or_analyze m h a (some row, hashes) st = (
    record_file m (some h) (reused_response row) "hash_reuse"
        (record st { db = record (st.db) { hashes = hashes } }),
    value (some (final_response (verdict_job m (some h)) (reused_response row))),
  )

  abbrev pub after_hash : Metadata → Action → Option String → Store → Run
  after_hash m a none st = (st, raise unhandled)
  after_hash m a (some h) st =
      reuse_or_analyze m h a (check_reuse e.now e.hash_reuse_days h st.db.hashes) st

  -- Steps 7 to 11.
  unfoldable pub process_download : Metadata → Action → Store → Run
  unfolding conclude
  process_download m a st = after_hash m a e.file_hash st

  abbrev pub is_gone : String → Bool
  is_gone reason = reason == "file_not_found" || reason == "access_denied"

  abbrev pub after_download_error : (skipped reason : String) → Metadata → Store → Run
  after_download_error skipped reason m st =
      if is_gone reason then close reason st else filename_only_or_skip skipped m st

  abbrev pub after_download : Metadata → Action → Download → Store → Run
  after_download m a downloaded st = process_download m a st
  after_download m a unsupported st = (st, raise unhandled)
  after_download m a broken st = (st, raise unhandled)
  after_download m a (download_error reason) st =
      after_download_error "skipped_download_failed" reason m st

  unfoldable pub download_file : Metadata → Action → Store → Run
  unfolding process_download filename_only_or_skip
  download_file m a st = after_download m a e.download st

  abbrev pub has_ids : Metadata → Bool
  has_ids m = not (m.drive_id == "") && not (m.item_id == "")

  abbrev pub after_conversion : Metadata → Download → Store → Run
  after_conversion m downloaded st = process_download m full_analysis st
  after_conversion m unsupported st =
      filename_only_or_skip "skipped_format_conversion_unsupported" m st
  after_conversion m broken st = (st, raise unhandled)
  after_conversion m (download_error reason) st =
      after_download_error "skipped_format_conversion_failed" reason m st

  unfoldable pub convert : Metadata → Store → Run
  unfolding process_download filename_only_or_skip
  convert m st =
      let st' = record st {
        events =
            set_content_type e.now j.event_id (converted_type e.package_type e.extension) st.events;
      } in
      if has_ids m
      then after_conversion m e.conversion st'
      else filename_only_or_skip "skipped_format_conversion_missing_ids" m st'

  abbrev pub after_recording : Metadata → Recording → Store → Run
  after_recording m no_transcript st = conclude m none "filename_only" (analysis "filename_only") st
  after_recording m interrupted st = (st, raise unhandled)
  after_recording m (transcript frames) st =
      let mode = if frames then "transcript_multimodal" else "transcript" in
      conclude m none mode (analysis mode) st

  -- `_handle_transcript_analysis`
  unfoldable pub handle_transcript : Metadata → Store → Run
  unfolding conclude
  handle_transcript m st = after_recording m e.recording st

  unfoldable pub park : Store → Run
  park st = (
    set_status pending_manual_inspection no_extra (record st {
      events =
          set_content_type e.now j.event_id (pending_type e.package_type e.extension) st.events;
    }),
    value none,
  )

  -- Steps 4 to 11.
  unfoldable pub route : Metadata → Action → Store → Run
  unfolding park convert handle_transcript filename_only_or_skip download_file
  route m pending_manual st = park st
  route m format_conversion st = convert m st
  route m transcript_analysis st = handle_transcript m st
  route m filename_only st = filename_only_or_skip "skipped_unprocessable_type" m st
  route m a st = download_file m a st

  abbrev pub stored_drive : Option EventRow → String
  stored_drive none = ""
  stored_drive (some row) = or_empty row.drive_id

  abbrev pub stored_item : Option EventRow → String
  stored_item none = ""
  stored_item (some row) = or_empty row.item_id_graph

  -- The sharing link validation gate.
  abbrev pub is_shut : Metadata → Bool
  is_shut m =
      not j.force_analysis
      && not (has_active_sharing_links e.parse_expiration e.now m.sharing_links)

  abbrev pub gate : Metadata → Store → Run
  gate m st = if is_shut m then close "no_active_sharing_links" st else route m (e.classify m) st

  abbrev pub stored_metadata : Store → Metadata
  stored_metadata st = record {
    name = j.file_name;
    drive_id = stored_drive (get_event j.event_id st.events);
    item_id = stored_item (get_event j.event_id st.events);
    sharing_links = none;
  }

  abbrev pub unavailable_metadata : Metadata
  unavailable_metadata = record {
    name = j.file_name;
    drive_id = "";
    item_id = "";
    sharing_links = none;
  }

  -- After a Graph error: the ids that an earlier fetch has stored, or none.
  unfoldable pub fall_back : Store → Run
  unfolding filename_only_or_skip route
  fall_back st =
      if has_ids (stored_metadata st)
      then gate (stored_metadata st) st
      else filename_only_or_skip "skipped_metadata_unavailable" unavailable_metadata st

  abbrev pub links_of : String → String → Option (List Permission) → Option (List SharingLink)
  links_of drive_id item_id none = none
  links_of drive_id item_id (some ps) =
      if not (drive_id == "") && not (item_id == "") then extract_all_sharing_links ps else none

  abbrev pub after_fetch : Fetched → Store → Run
  after_fetch not_found st = close "file_not_found" st
  after_fetch refused st = fall_back st
  after_fetch crashed st = (st, raise unhandled)
  after_fetch (item name drive_id item_id permissions) st =
      gate
        (record {
          name = name;
          drive_id = drive_id;
          item_id = item_id;
          sharing_links = links_of drive_id item_id permissions;
        })
        (record st { events = update_event_metadata e.now j.event_id drive_id item_id st.events })

  unfoldable pub fetch : Store → Run
  unfolding fall_back route
  fetch st = after_fetch e.fetched st

  -- The body of the try block; the children of a folder bring their metadata.
  unfoldable pub run_steps : Option Metadata → Store → Run
  unfolding fetch route
  run_steps none st = fetch st
  run_steps (some m) st = route m (e.classify m) st

  -- The handlers: transient errors go on to the caller.
  unfoldable pub settle : Run → Run
  settle (st, value r) = (st, value r)
  settle (st, raise transient) = (st, raise transient)
  settle (st, raise unhandled) =
      (set_status failed (failure_reason "unhandled_exception") st, value none)

  unfoldable pub process_single_file : Option Metadata → Store → Run
  unfolding run_steps settle
  process_single_file prefetched st = settle (run_steps prefetched st)
