-- ===== src/Watchdog/Checker.antt =====
-- services/watchdog/app/checker.py: what a check finds. Ages are compared as sums, since a stamp may
-- lie ahead of the clock; of the messages the model keeps the name and the error text.
use share_sentinel.Prelude.{
  ℕ, ◌+◌, ◌*◌, String, Bool, true, false, not, ◌&&◌, Option, none, some, List, [], ◌∷◌, ◌++◌, ltb,
  map, ◌==◌, if◌then◌else◌,
}

-- What GET gives for a heartbeat: nothing, a text that is no number, or a time.
pub data Raw : Type 0 where
  missing invalid : Raw
  stamp : ℕ → Raw

-- A query that fails, or gives a value.
pub data Reading (A : Type 0) : Type 0 where
  unreadable : Reading A
  reads : A → Reading A

-- The row of `audit_poll_state`: whether its status is 'error', its time and its message.
pub record PollState : Type 0 where
  pub is_error : Bool
  pub updated_at : Option ℕ
  pub error_message : Option String

pub data FailureType : Type 0 where
  dead stale : FailureType

pub record LoopHealth : Type 0 where
  pub name : String
  pub is_healthy : Bool
  pub failure_type : Option FailureType
  pub last_error : Option String

pub record Config : Type 0 where
  pub heartbeat_stale_seconds : ℕ
  pub poll_stale_seconds : ℕ
  pub auto_restart : Bool
  pub max_restarts_per_hour : ℕ
  pub alert_cooldown_seconds : ℕ
  pub stale_checks_before_restart : ℕ
  pub queue_depth_alert : ℕ
  pub failed_events_alert_24h : ℕ
  pub inspection_age_alert_days : ℕ

-- What the sweep of `check_system_health` reads; the inspection queue by its length and the
-- seconds since its oldest entry.
pub record Observed : Type 0 where
  pub worker_heartbeat : Reading Raw
  pub optional_heartbeat : String → Reading Raw
  pub queue_depth : Reading ℕ
  pub dlq_depth : String → Reading ℕ
  pub failed_scans : Reading ℕ
  pub failed_events : Reading ℕ
  pub inspections : Reading (ℕ × ℕ)

-- `HEARTBEAT_KEYS`, by the names of the loops.
abbrev pub heartbeat_names : List String
heartbeat_names = "audit_poller" ∷ "lifecycle" ∷ "site_policy" ∷ "folder_rescan" ∷ []

-- `OPTIONAL_HEARTBEAT_KEYS`
abbrev pub optional_names : List String
optional_names =
    "cws_verification" ∷ "cws_drift_remediation" ∷ "cws_bulk_remediation" ∷ "cws_exception_sync"
    ∷ "cws_allowlist_action" ∷ "cws_failure_diagnostic" ∷ []

abbrev pub dlq_names : List String
dlq_names =
    "sharesentinel:site_policy_action:dlq" ∷ "sharesentinel:company_wide_sharing_action:dlq" ∷ []

-- `now - ts > limit`
abbrev pub is_older : ℕ → ℕ → ℕ → Bool
is_older now limit ts = ltb (ts + limit) now

abbrev pub dead_loop : String → Option String → LoopHealth
dead_loop name message = record {
  name = name;
  is_healthy = false;
  failure_type = some dead;
  last_error = message;
}

-- One round of the loop in `check_all_loops`.
unfoldable pub check_loop : ℕ → ℕ → String → Raw → LoopHealth
check_loop now limit name missing = dead_loop name none
check_loop now limit name invalid = dead_loop name (some "Invalid heartbeat value")
check_loop now limit name (stamp ts) = record {
  name = name;
  is_healthy = not (is_older now limit ts);
  failure_type = if is_older now limit ts then some dead else none;
  last_error = none;
}

abbrev or_unknown : Option String → String
or_unknown none = "unknown error"
or_unknown (some m) = if m == "" then "unknown error" else m

-- The poll state of a row that was updated at a time.
unfoldable pub poll_error : ℕ → ℕ → PollState → ℕ → Option String
poll_error now limit row updated_at =
    if row.is_error && ltb now (updated_at + limit)
    then none
    else if is_older now limit updated_at
    then some (or_unknown row.error_message)
    else none

-- `_check_audit_poll_state`; the row may be absent.
unfoldable pub check_audit_poll_state : ℕ → ℕ → Reading (Option PollState) → Option String
unfolding poll_error
check_audit_poll_state now limit unreadable = none
check_audit_poll_state now limit (reads none) = none
check_audit_poll_state now limit (reads (some row)) = elim row.updated_at [
  | none ↦ none
  | some t ↦ poll_error now limit row t
]

abbrev pub mark_stale : Option String → LoopHealth → LoopHealth
mark_stale none h = h
mark_stale (some message) h =
    if h.is_healthy
    then record h { is_healthy = false; failure_type = some stale; last_error = some message }
    else h

-- The first loop that is named "audit_poller".
unfoldable pub mark_audit : Option String → List LoopHealth → List LoopHealth
mark_audit message [] = []
mark_audit message (h ∷ hs) =
    let rest = mark_audit message hs in
    if h.name == "audit_poller" then mark_stale message h ∷ hs else h ∷ rest

unfoldable pub check_all_loops :
    ℕ → Config → (String → Raw) → Reading (Option PollState) → List LoopHealth
unfolding check_loop check_audit_poll_state mark_audit
check_all_loops now cfg heartbeat poll =
    mark_audit (check_audit_poll_state now cfg.poll_stale_seconds poll)
      (map (λ n. check_loop now cfg.heartbeat_stale_seconds n (heartbeat n)) heartbeat_names)

pub data Severity : Type 0 where
  info warning critical : Severity

pub record SystemAlert : Type 0 where
  pub name : String
  pub severity : Severity

abbrev alert_if : Bool → String → Severity → List SystemAlert
alert_if b name severity = if b then record { name = name; severity = severity } ∷ [] else []

unfoldable pub check_worker : ℕ → ℕ → Reading Raw → List SystemAlert
check_worker now limit unreadable = []
check_worker now limit (reads missing) = alert_if true "worker" critical
check_worker now limit (reads invalid) = []
check_worker now limit (reads (stamp ts)) = alert_if (is_older now limit ts) "worker" critical

unfoldable pub check_optional : ℕ → ℕ → (String → Reading Raw) → List String → List SystemAlert
check_optional now limit heartbeat [] = []
check_optional now limit heartbeat (n ∷ ns) =
    elim (heartbeat n) [
      | unreadable ↦ []
      | reads r ↦ elim r [
        | missing ↦ []
        | invalid ↦ []
        | stamp ts ↦ alert_if (is_older now limit ts) n warning
      ]
    ]
    ++ check_optional now limit heartbeat ns

-- An alert on a count over a limit.
unfoldable pub check_over : ℕ → String → Severity → Reading ℕ → List SystemAlert
check_over limit name severity unreadable = []
check_over limit name severity (reads n) = alert_if (ltb limit n) name severity

unfoldable pub check_dlqs : (String → Reading ℕ) → List String → List SystemAlert
unfolding check_over
check_dlqs depth [] = []
check_dlqs depth (q ∷ qs) = check_over 0 "dead_letter" warning (depth q) ++ check_dlqs depth qs

unfoldable pub check_inspections : ℕ → Reading (ℕ × ℕ) → List SystemAlert
check_inspections days unreadable = []
check_inspections days (reads (n, age)) =
    alert_if (ltb 0 n && ltb (days * 86400) age) "inspection_queue" warning

unfoldable pub check_system_health : ℕ → Config → Observed → List SystemAlert
unfolding check_worker check_optional check_over check_dlqs check_inspections
check_system_health now cfg o =
    check_worker now cfg.heartbeat_stale_seconds o.worker_heartbeat
    ++ (check_optional now cfg.heartbeat_stale_seconds o.optional_heartbeat optional_names
        ++ (check_over cfg.queue_depth_alert "jobs_queue" warning o.queue_depth
            ++ (check_dlqs o.dlq_depth dlq_names
                ++ (check_over 0 "site_policy_scan" critical o.failed_scans
                    ++ (check_over cfg.failed_events_alert_24h "failed_events" warning
                          o.failed_events
                        ++ check_inspections cfg.inspection_age_alert_days o.inspections)))))
