-- ===== src/Audit/Window.antt =====
-- `_poll_window` of services/lifecycle-cron/app/audit_poller.py, with the keys of its deduplication. A record
-- is what the poller reads of it: the id that the digest gives it, its operation's kind, and whether its
-- `auditData` can be read. A window reads the clock once; PostgreSQL and Redis are taken to answer.
use share_sentinel.Prelude.{
  ℕ, suc, ◌+◌, ◌-◌, ◌*◌, String, Bool, true, false, ◌&&◌, ◌||◌, Option, none, some, List, [], ◌∷◌,
  ◌++◌, length, ltb, ◌==◌, if◌then◌else◌,
}
use share_sentinel.Audit.Query.{
  Inflight, QueryAnswers, get_or_create_query, record_query_timeout, delete_inflight, Waited,
  complete, timed_out, raised, out_of_fuel, wait_for_query_completion,
}

abbrev pub dedup_ttl : ℕ
dedup_ttl = 3 * 86_400

abbrev pub overlap : ℕ
overlap = 5 * 60

pub record AuditRecord : Type 0 where
  pub event_id : String
  pub is_provisioning : Bool
  pub is_readable : Bool
  pub created : ℕ

-- The row of `audit_poll_state`.
pub record PollState : Type 0 where
  pub last_poll_time : ℕ
  pub last_poll_status : Bool
  pub events_found : ℕ
  pub updated_at : ℕ

-- The state, and Redis: the queries in flight, the keys of the deduplication with their times of expiry,
-- the jobs, and the time of the last reconciliation. `handled` are the events of provisioning.
pub record AuditWorld : Type 0 where
  pub state : PollState
  pub inflight : List Inflight
  pub seen : List (String × ℕ)
  pub jobs : List String
  pub handled : List String
  pub recon_last : Option ℕ

-- What Graph and the provisioning enforcer answer while a window is polled; `records` is none if a page
-- cannot be fetched. `handles` tells whether the enforcer returns.
pub record WindowAnswers : Type 0 where
  pub now : ℕ
  pub queries : QueryAnswers
  pub records : String → Option (List AuditRecord)
  pub provisioning_enabled : Bool
  pub handles : AuditRecord → Bool

pub record WindowStats : Type 0 where
  pub total : ℕ
  pub new : ℕ
  pub provisioning : ℕ

-- EXISTS
unfoldable pub is_seen : ℕ → String → List (String × ℕ) → Bool
is_seen now k [] = false
is_seen now k ((k', expires) ∷ keys) = (k' == k && ltb now expires) || is_seen now k keys

-- The counters of the loop; none stands for its exception.
pub record Progress : Type 0 where
  pub world : AuditWorld
  pub new_count : ℕ
  pub provisioning_count : ℕ

abbrev pub mark_seen : ℕ → String → AuditWorld → AuditWorld
mark_seen now k w = record w { seen = (k, now + dedup_ttl) ∷ w.seen }

module _ (g : WindowAnswers) where
  abbrev pub enqueue_record : AuditRecord → Progress → Progress
  enqueue_record r p = record p {
    world =
        mark_seen g.now r.event_id (record (p.world) { jobs = p.world.jobs ++ r.event_id ∷ [] });
    new_count = suc p.new_count;
  }

  abbrev pub handle_provisioning : AuditRecord → Progress → Progress × Bool
  handle_provisioning r p =
      if g.handles r
      then (
        record p {
          world =
              mark_seen g.now r.event_id
                (record (p.world) { handled = p.world.handled ++ r.event_id ∷ [] });
          provisioning_count = suc p.provisioning_count;
        },
        true,
      )
      else (p, false)

  -- The body of the loop over the records; the Boolean says that it has not raised.
  unfoldable pub process_record : AuditRecord → Progress → Progress × Bool
  process_record r p =
      if r.is_readable
      then (if is_seen g.now r.event_id p.world.seen
          then (p, true)
          else if g.provisioning_enabled && r.is_provisioning
          then handle_provisioning r p
          else (enqueue_record r p, true))
      else (p, false)

  unfoldable pub process_records : List AuditRecord → Progress × Bool → Progress × Bool
  unfolding process_record
  process_records [] out = out
  process_records (r ∷ rs) (p, false) = (p, false)
  process_records (r ∷ rs) (p, true) = process_records rs (process_record r p)

  abbrev pub save_last_poll_time : ℕ → ℕ → AuditWorld → AuditWorld
  save_last_poll_time poll_time events_found w = record w {
    state = record {
      last_poll_time = poll_time;
      last_poll_status = true;
      events_found = events_found;
      updated_at = g.now;
    };
  }

  abbrev pub finished : ℕ → Bool → ℕ → Progress × Bool → AuditWorld × Option WindowStats
  finished end_time save_state total (p, false) = (p.world, none)
  finished end_time save_state total (p, true) = (
    if save_state
        then save_last_poll_time end_time (p.new_count + p.provisioning_count) p.world
        else p.world,
    some (record { total = total; new = p.new_count; provisioning = p.provisioning_count }),
  )

  abbrev pub start_progress : AuditWorld → Progress
  start_progress w = record { world = w; new_count = 0; provisioning_count = 0 }

  abbrev pub after_records :
      ℕ → ℕ → Bool → Option (List AuditRecord) → AuditWorld → AuditWorld × Option WindowStats
  after_records query_start end_time save_state none w = (w, none)
  after_records query_start end_time save_state (some rs) w =
      finished end_time save_state (length rs) (
        process_records rs (
          start_progress (record w { inflight = delete_inflight query_start end_time w.inflight }),
          true,
        ))

  abbrev pub after_wait :
      ℕ → ℕ → Bool → String → Waited → AuditWorld → AuditWorld × Option WindowStats
  after_wait query_start end_time save_state id complete w =
      after_records query_start end_time save_state (g.records id) w
  after_wait query_start end_time save_state id timed_out w =
      (record w { inflight = record_query_timeout g.now query_start end_time id w.inflight }, none)
  after_wait query_start end_time save_state id raised w = (w, none)
  after_wait query_start end_time save_state id out_of_fuel w = (w, none)

  abbrev pub after_query :
      ℕ → ℕ → Bool → List Inflight × Option String → AuditWorld → AuditWorld × Option WindowStats
  after_query query_start end_time save_state (qs, none) w = (record w { inflight = qs }, none)
  after_query query_start end_time save_state (qs, some id) w =
      after_wait query_start end_time save_state id (wait_for_query_completion (g.queries.reply id))
        (record w { inflight = qs })

  -- The world, and the stats or the exception. Times stay clear of the epoch.
  unfoldable pub poll_window :
      (start_time end_time : ℕ) → Bool → AuditWorld → AuditWorld × Option WindowStats
  unfolding process_records get_or_create_query wait_for_query_completion record_query_timeout
      delete_inflight
  poll_window start_time end_time save_state w =
      let query_start = start_time - overlap in
      after_query query_start end_time save_state
        (get_or_create_query g.now query_start end_time g.queries w.inflight) w
