-- ===== src/Worker/Duplicate.antt =====
-- Deliveries of events that a worker has claimed before, and jobs that are not analyzed.
use share_sentinel.Prelude.{
  ℕ, ◌≡◌, refl, arith, String, true, false, Option, none, some, ap, ◌∙◌, if◌then◌else◌, any, List,
  ◌==◌, Bool, Codes, false,
}
use mathlib.Core.Option
use share_sentinel.Worker.Events.{
  EventRow, is_queued, is_completed, written, get_event, update_event_status, temp_file_deleted,
  failed, failure_reason, update_event_metadata, processing,
}
use share_sentinel.Worker.Analysis.{transient, unhandled, value, raise}
use share_sentinel.Worker.Item.{item, FileJob, Environment, Metadata, Store, Run}
use share_sentinel.Worker.File.{
  process_single_file, run_steps, settle, set_status, fetch, close, is_shut, links_of,
}
use share_sentinel.Worker.Steps.{IsEnded}
use share_sentinel.Worker.Ended.{run_steps-IsEnded}
use share_sentinel.Worker.Rows.{HasRow, get-update, update_event_status-HasRow}
use share_sentinel.Worker.Job.{
  Config, World, status_of, clean_up, handled, process_job, process_file,
}
use share_sentinel.Worker.Retries.{duplicate_job}
use share_sentinel.Worker.Finished.{IsClaimable, create_event_lem, claimed_job, clean_up-HasRow}
use share_sentinel.Graph.{Permission}
use share_sentinel.Worker.Sharing.{SharingLink, extract_all_sharing_links, has_active_sharing_links}
use share_sentinel.Worker.Gate.{keeps_open, has_active-extract}

-- The row of an event after a delivery that was skipped: a completed event is completed anew.
abbrev pub redelivered : ℕ → EventRow → EventRow
redelivered now row = record row {
  temp_file_deleted = true;
  updated_at = now;
  processing_completed_at =
      if is_completed row.status then some now else row.processing_completed_at;
}

-- If the event of a job is in the table and not queued, a delivery runs no step: no verdict, hash, alert,
-- push or notice is added, and of the event's row only three columns change, among them the time of
-- completion of an event that was completed before.
pub process_job_duplicate :
    (cfg : Config) (now : ℕ) (k : String) (steps : Store → Run) (w : World) {row : EventRow}
    → get_event k w.store.events ≡ some row
    → is_queued row.status ≡ false
    → let w' = process_job cfg now k steps w in
      (w'.store.db ≡ w.store.db)
      × (w'.pushes ≡ w.pushes)
      × (w'.notices ≡ w.notices)
      × (get_event k w'.store.events ≡ some (redelivered now row))
unfolding clean_up update_event_status
process_job_duplicate cfg now k steps w {row} found other =
    rw (duplicate_job cfg now k steps w found other) (
      refl,
      refl,
      refl,
      get-update _ k w.store.events (λ e. refl)
          ∙ ap (Option.map (written now (status_of (get_event k w.store.events)) temp_file_deleted))
              found
          ∙ ap (λ o. some (written now (status_of o) temp_file_deleted row)) found,
    )

silent_lem :
    (cfg : Config) (e : Environment) (j : FileJob) (n : Option ℕ) (run : Run) (w : World)
    → run.1 ≡ raise unhandled
    → IsEnded j.event_id n processing w.store.db run
    → let w' =
        clean_up cfg e.now j.event_id (handled cfg e.now j.event_id (settle e j false run) w) in
      (w'.notices ≡ w.notices) × HasRow j.event_id n failed w'.store.events
unfolding clean_up settle
silent_lem cfg e j n (st, value r) w crashed ends = absurd (ground (arith, crashed))
silent_lem cfg e j n (st, raise transient) w crashed ends = absurd (ground (arith, crashed))
silent_lem cfg e j n (st, raise unhandled) w crashed (s', h, kept) =
    let st' = set_status e j false failed (failure_reason "unhandled_exception") st in
    (
      refl,
      clean_up-HasRow cfg e.now j.event_id n failed (record w { store = st' })
          (update_event_status-HasRow e.now j.event_id n s' failed _ _ h),
    )

-- If an exception that is not transient leaves the steps of a file, its event fails and no notice
-- is sent, whether or not these are configured.
pub process_file_silent :
    (cfg : Config) (e : Environment) (j : FileJob) (n : Option ℕ) (w : World)
    → IsClaimable j.event_id n w.store.events
    → ((st : Store) → (run_steps e j false none st).1 ≡ raise unhandled)
    → ((process_file cfg e j w).notices ≡ w.notices)
      × HasRow j.event_id n failed (process_file cfg e j w).store.events
unfolding process_single_file
process_file_silent cfg e j n w claimable crashes =
    let (new, h) = create_event_lem e.now j.event_id n w.store.events claimable in
    rw (claimed_job cfg e.now j.event_id (process_single_file e j false none) w new)
      (silent_lem cfg e j n _ w (crashes _) (run_steps-IsEnded e j false n processing none _ h))

-- If the links of an item's permissions could be read, and none is broad, with an address and
-- unexpired, a job that is not forced ends completed without an analysis: the run is that of the
-- gate, whatever the models answer.
pub process_single_file_shut :
    (e : Environment) (j : FileJob) (skip : Bool) (st : Store) (name : Codes)
    (drive_id item_id : String) (ps : List Permission) (ss : List SharingLink)
    → e.fetched ≡ item name drive_id item_id (some ps)
    → (drive_id == "") ≡ false
    → (item_id == "") ≡ false
    → extract_all_sharing_links ps ≡ some ss
    → any (keeps_open e.parse_expiration e.now) ps ≡ false
    → j.force_analysis ≡ false
    → process_single_file e j skip none st
      ≡ close e j skip "no_active_sharing_links"
          (record st { events = update_event_metadata e.now j.event_id drive_id item_id st.events })
unfolding process_single_file run_steps fetch settle
process_single_file_shut e j skip st name d i ps ss fetched has_drive has_item links none_open
      free =
    let m : Metadata = record {
      name = name;
      drive_id = d;
      item_id = i;
      sharing_links = links_of e j skip d i (some ps);
    } in
    let inactive : has_active_sharing_links e.parse_expiration e.now m.sharing_links ≡ false =
      rw (has_drive, has_item, links)
        (has_active-extract e.parse_expiration e.now ps ss links ∙ none_open) in
    let shut : is_shut e j skip m ≡ true = rw (free, inactive) refl in rw (fetched, shut) refl
