-- ===== src/Worker/Startup.antt =====
-- The start of services/worker/app/main.py: jobs that were in flight go back to the queue, events stuck
-- in processing are queued again or failed, and queued events without a job get one. A job is told by
-- its event; Redis and the table are taken to answer.
use share_sentinel.Prelude.{
  ℕ, ◌+◌, ◌*◌, ◌^◌, ◌-◌, ◌/◌, String, Bool, not, List, [], ◌∷◌, ◌++◌, filter, elem, leb,
  if◌then◌else◌,
}
use share_sentinel.Worker.Events.{
  failed, EventRow, Events, failure_reason, or_zero, update_event_status, requeue_event, is_stuck,
  is_orphaned,
}
use share_sentinel.Worker.Job.{Config}

-- The list of jobs and that of the jobs in flight.
pub record Broker : Type 0 where
  pub queue : List String
  pub in_flight : List String

pub record Station : Type 0 where
  pub events : Events
  pub broker : Broker

-- LMOVE from the left to the left, until nothing is in flight.
unfoldable pub reclaim : (in_flight queue : List String) → List String
reclaim [] queue = queue
reclaim (k ∷ ks) queue = reclaim ks (k ∷ queue)

abbrev pub reclaim_jobs : Station → Station
reclaim_jobs s = record s {
  broker = record { queue = reclaim s.broker.in_flight s.broker.queue; in_flight = [] };
}

-- RPUSH
abbrev pub enqueue : String → Station → Station
enqueue k s = record s { broker = record (s.broker) { queue = s.broker.queue ++ k ∷ [] } }

-- ORDER BY
module _ (key : EventRow → ℕ) where
  unfoldable pub insert_row : EventRow → List EventRow → List EventRow
  insert_row r [] = r ∷ []
  insert_row r (x ∷ xs) =
      let rest = insert_row r xs in if leb (key r) (key x) then r ∷ x ∷ xs else x ∷ rest

  unfoldable pub sort_rows : List EventRow → List EventRow
  unfolding insert_row
  sort_rows [] = []
  sort_rows (r ∷ rs) = insert_row r (sort_rows rs)

module _ (cfg : Config) (now : ℕ) where
  -- One round of the loop of `recover_stuck_events`.
  unfoldable pub recover_stuck : EventRow → Station → Station
  recover_stuck r s =
      if leb cfg.max_event_retries (or_zero r.retry_count)
      then record s {
        events =
            update_event_status now r.event_id failed
              (failure_reason "stuck_processing_max_retries") s.events;
      }
      else enqueue r.event_id (record s {
        events = (requeue_event now r.event_id "stuck_processing_recovery" s.events).0;
      })

  unfoldable pub recover_all : List EventRow → Station → Station
  unfolding recover_stuck
  recover_all [] s = s
  recover_all (r ∷ rs) s = recover_all rs (recover_stuck r s)

  -- `get_stuck_processing_events`
  unfoldable pub stuck_rows : (timeout_minutes : ℕ) → Events → List EventRow
  unfolding sort_rows
  stuck_rows timeout_minutes es =
      sort_rows (λ r. or_zero r.processing_started_at) (filter (is_stuck now timeout_minutes) es)

  unfoldable pub recover_stuck_events : (timeout_minutes : ℕ) → Station → Station
  unfolding recover_all stuck_rows
  recover_stuck_events timeout_minutes s = recover_all (stuck_rows timeout_minutes s.events) s

  abbrev pub max_of : ℕ → ℕ → ℕ
  max_of a b = if leb a b then b else a

  -- Past the longest backoff, at least ten minutes.
  abbrev pub min_age_minutes : ℕ
  min_age_minutes =
      max_of 10 (cfg.requeue_base_delay_seconds * 2 ^ (cfg.max_event_retries - 1) / 60 + 5)

  abbrev pub has_no_job : Broker → EventRow → Bool
  has_no_job b r = not (elem r.event_id (b.queue ++ b.in_flight))

  unfoldable pub enqueue_all : List EventRow → Station → Station
  enqueue_all [] s = s
  enqueue_all (r ∷ rs) s = enqueue_all rs (enqueue r.event_id s)

  -- The rows of `get_orphaned_queued_events` without a job.
  unfoldable pub orphans : Station → List EventRow
  unfolding sort_rows
  orphans s =
      filter (has_no_job s.broker)
        (sort_rows (λ r. r.updated_at) (filter (is_orphaned now min_age_minutes) s.events))

  unfoldable pub recover_orphaned_queued_events : Station → Station
  unfolding enqueue_all orphans
  recover_orphaned_queued_events s = enqueue_all (orphans s) s

  -- The sweeps in the order of `main`.
  unfoldable pub start_up : (timeout_minutes : ℕ) → Station → Station
  unfolding reclaim recover_stuck_events recover_orphaned_queued_events
  start_up timeout_minutes s =
      recover_orphaned_queued_events (recover_stuck_events timeout_minutes (reclaim_jobs s))
