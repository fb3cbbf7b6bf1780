-- ===== src/Worker/Ended.antt =====
-- How a run of `_process_single_file` ends.
use share_sentinel.Prelude.{ℕ, refl, Bool, Option, none, some, ◌≢◌, inl, inr, Bool-cases}
use share_sentinel.Pipeline.Record.{Database}
use share_sentinel.Worker.Events.{Status, failed}
use share_sentinel.Worker.Analysis.{
  Action, full_analysis, filename_only, archive_manifest, multimodal, transcript_analysis,
  folder_flag, pending_manual, format_conversion, transient, unhandled, value, raise,
}
use share_sentinel.Worker.Item.{
  FileJob, Metadata, Fetched, not_found, refused, crashed, item, Environment, Store, Run,
}
use share_sentinel.Worker.File.{
  handle_transcript, route, gate, fall_back, fetch, run_steps, settle, process_single_file, has_ids,
  is_shut, stored_metadata, unavailable_metadata, after_fetch,
}
use share_sentinel.Worker.Rows.{HasRow, update_event_status-HasRow, update_event_metadata-HasRow}
use share_sentinel.Worker.Steps.{
  IsEnded, close-IsEnded, filename_only_or_skip-IsEnded, download_file-IsEnded, convert-IsEnded,
  after_recording-IsEnded, park-IsEnded,
}

module _ (e : Environment) (j : FileJob) (skip : Bool) (n : Option ℕ) (s : Status) where
  abbrev Before : Store → Type 0
  Before st = HasRow j.event_id n s st.events

  abbrev Ends : Database → Run → Type 0
  Ends db run = IsEnded j.event_id n s db run

  route-IsEnded :
      (m : Metadata) (a : Action) (st : Store) → Before st → Ends st.db (route e j skip m a st)
  unfolding route handle_transcript
  route-IsEnded m pending_manual st b = park-IsEnded e j skip n s st b
  route-IsEnded m format_conversion st b = convert-IsEnded e j skip n s m st b
  route-IsEnded m transcript_analysis st b = after_recording-IsEnded e j skip n s m e.recording st b
  route-IsEnded m filename_only st b = filename_only_or_skip-IsEnded e j skip n s _ m st b
  route-IsEnded m full_analysis st b = download_file-IsEnded e j skip n s m full_analysis st b
  route-IsEnded m archive_manifest st b = download_file-IsEnded e j skip n s m archive_manifest st b
  route-IsEnded m multimodal st b = download_file-IsEnded e j skip n s m multimodal st b
  route-IsEnded m folder_flag st b = download_file-IsEnded e j skip n s m folder_flag st b

  gate-IsEnded : (m : Metadata) (st : Store) → Before st → Ends st.db (gate e j skip m st)
  gate-IsEnded m st b = elim (Bool-cases (is_shut e j skip m)) [
    | inl shut ↦ rw shut (close-IsEnded e j skip n s _ st b)
    | inr passes ↦ rw passes (route-IsEnded m (e.classify m) st b)
  ]

  fall_back-IsEnded : (st : Store) → Before st → Ends st.db (fall_back e j skip st)
  unfolding fall_back
  fall_back-IsEnded st b = elim (Bool-cases (has_ids e j skip (stored_metadata e j skip st))) [
    | inl ids ↦ rw (ids, fall_back) (gate-IsEnded _ st b)
    | inr no_ids ↦
        rw (no_ids, fall_back)
          (filename_only_or_skip-IsEnded e j skip n s _ (unavailable_metadata e j skip) st b)
  ]

  after_fetch-IsEnded :
      (f : Fetched) (st : Store) → Before st → Ends st.db (after_fetch e j skip f st)
  after_fetch-IsEnded not_found st b = close-IsEnded e j skip n s _ st b
  after_fetch-IsEnded refused st b = fall_back-IsEnded st b
  after_fetch-IsEnded crashed st b = (s, b, (refl, refl))
  after_fetch-IsEnded (item name d i permissions) st b =
      gate-IsEnded _ _ (update_event_metadata-HasRow e.now j.event_id d i n s st.events b)

  pub run_steps-IsEnded :
      (prefetched : Option Metadata) (st : Store)
      → Before st
      → Ends st.db (run_steps e j skip prefetched st)
  unfolding run_steps fetch
  run_steps-IsEnded none st b = after_fetch-IsEnded e.fetched st b
  run_steps-IsEnded (some m) st b = route-IsEnded m (e.classify m) st b

  -- What is left of a run once unhandled exceptions are caught.
  abbrev pub IsSettled : Database → Run → Type 0
  IsSettled db run = Ends db run × (run.1 ≢ raise unhandled)

  settle-IsSettled : (db : Database) (run : Run) → Ends db run → IsSettled db (settle e j skip run)
  unfolding settle
  settle-IsSettled db (st, value r) h = (h, λ p. cc)
  settle-IsSettled db (st, raise transient) h = (h, λ p. cc)
  settle-IsSettled db (st, raise unhandled) (s', b, (same, kept)) =
      ((_, update_event_status-HasRow e.now j.event_id n s' failed _ _ b, (refl, kept)), λ p. cc)

  -- Whatever the services answer, a run on an event that has a row keeps its retries and ends in one
  -- of three ways: with a response, the event completed and one verdict of it added, which has the
  -- categories and the tier of the response; without a response, the tables of verdicts as they were and
  -- the event completed, failed or parked for an inspection; or with a transient error, those tables and
  -- the status as they were. No other exception leaves it.
  pub process_single_file-IsSettled :
      (prefetched : Option Metadata) (st : Store)
      → HasRow j.event_id n s st.events
      → IsSettled st.db (process_single_file e j skip prefetched st)
  unfolding process_single_file
  process_single_file-IsSettled prefetched st b =
      settle-IsSettled st.db _ (run_steps-IsEnded prefetched st b)
