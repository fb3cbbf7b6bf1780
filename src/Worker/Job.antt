-- ===== src/Worker/Job.antt =====
-- `process_job` and `_requeue_event` of services/worker/app/pipeline/orchestrator.py. The steps of the
-- file or of the folder are a function on the store; a delayed push is its delay and the event. The
-- text of a transient error is not modelled, and neither are the checks for drift of a site's sharing,
-- which precede the steps.
use share_sentinel.Prelude.{
  ℕ, ◌*◌, ◌^◌, ◌-◌, String, Bool, false, Option, none, some, List, [], ◌∷◌, leb, if◌then◌else◌,
}
use share_sentinel.Worker.Events.{
  Status, completed, failed, is_final, or_zero, EventRow, Extra, failure_reason, temp_file_deleted,
  get_event, create_event, update_event_status, requeue_event,
}
use share_sentinel.Worker.Analysis.{transient, unhandled, value, raise}
use share_sentinel.Worker.Item.{FileJob, Environment, Store, Run}
use share_sentinel.Worker.File.{process_single_file}

pub record Config : Type 0 where
  pub max_event_retries : ℕ
  pub requeue_base_delay_seconds : ℕ
  pub notify_on_failure : Bool

pub record World : Type 0 where
  pub store : Store
  pub pushes : List (ℕ × String)
  pub notices : List String

abbrev pub status_of : Option EventRow → Status
status_of none = completed
status_of (some row) = row.status

abbrev pub retries_of : Option EventRow → ℕ
retries_of none = 0
retries_of (some row) = or_zero row.retry_count

module _ (cfg : Config) (now : ℕ) (k : String) where
  abbrev pub set_event_status : Status → Extra → World → World
  set_event_status s x w = record w {
    store = record (w.store) { events = update_event_status now k s x w.store.events };
  }

  -- `_current_status`
  abbrev pub current_status : World → Status
  current_status w = status_of (get_event k w.store.events)

  -- `_notify_failure`
  abbrev pub notify_failure : World → World
  notify_failure w = if cfg.notify_on_failure then record w { notices = k ∷ w.notices } else w

  -- `_requeue_event`; its event is in the table, so that the new count is over 0.
  unfoldable pub requeue : World → World
  requeue w =
      if leb cfg.max_event_retries (retries_of (get_event k w.store.events))
      then notify_failure (set_event_status failed (failure_reason "max_retries_exceeded") w)
      else let (events, count) = requeue_event now k "transient" w.store.events in
        record w {
          store = record (w.store) { events = events };
          pushes = (cfg.requeue_base_delay_seconds * 2 ^ (count - 1), k) ∷ w.pushes;
        }

  -- The handler of other exceptions.
  unfoldable pub fail : World → World
  fail w =
      if is_final (current_status w)
      then w
      else notify_failure (set_event_status failed (failure_reason "unhandled_exception") w)

  -- The finally block.
  unfoldable pub clean_up : World → World
  clean_up w = set_event_status (current_status w) temp_file_deleted w

  abbrev pub handled : Run → World → World
  handled (st, value r) w = record w { store = st }
  handled (st, raise transient) w = requeue (record w { store = st })
  handled (st, raise unhandled) w = fail (record w { store = st })

  unfoldable pub process_job : (Store → Run) → World → World
  unfolding requeue fail clean_up
  process_job steps w =
      let (events, is_new) = create_event now k w.store.events in
      clean_up (if is_new then handled (steps (record (w.store) { events = events })) w else w)

-- The job of a file.
abbrev pub process_file : Config → Environment → FileJob → World → World
process_file cfg e j w = process_job cfg e.now j.event_id (process_single_file e j false none) w

-- One delivery of the job after another, as the queue gives it again.
unfoldable pub process_files : Config → FileJob → List Environment → World → World
unfolding process_job
process_files cfg j [] w = w
process_files cfg j (e ∷ es) w = process_files cfg j es (process_file cfg e j w)
