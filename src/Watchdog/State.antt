-- ===== src/Watchdog/State.antt =====
-- What a check of services/watchdog/app/main.py reads, writes and decides.
use share_sentinel.Prelude.{
  ℕ, String, Bool, true, false, ◌&&◌, Option, none, some, List, [], ◌∷◌, any, ltb, leb,
  if◌then◌else◌,
}
use share_sentinel.Watchdog.Keys.{Key}
use share_sentinel.Watchdog.Checker.{
  Raw, Reading, PollState, FailureType, dead, stale, LoopHealth, Config, Observed, Severity,
  warning, critical,
}

abbrev pub ttl_2h : ℕ
ttl_2h = 7200

abbrev pub ttl_1h : ℕ
ttl_1h = 3600

abbrev pub system_alert_dedup_ttl : ℕ
system_alert_dedup_ttl = 21600

-- The keys that a check reads and writes. A key of the sweep's alerts is a name and its end.
pub record Redis : Type 0 where
  pub consecutive_failures : Key ℕ
  pub last_alert_ts : Key ℕ
  pub restart_count : Key ℕ
  pub last_restart_ts : Key ℕ
  pub prev_unhealthy : Key Bool
  pub system_alerts : List (String × ℕ)

-- The texts sent to Teams.
pub data Message : Type 0 where
  resolved unrecoverable restarted restart_disabled deferred failing : Message
  system : String → Message

pub data Remedy : Type 0 where
  none_taken container_restart escalation : Remedy

-- The texts of the column `alert_type`.
pub data AlertType : Type 0 where
  loop_dead loop_stale loop_recovered : AlertType
  system_alert : String → AlertType

-- A row of `watchdog_alerts`.
pub record AlertRow : Type 0 where
  pub alert_type : AlertType
  pub severity : Severity
  pub loop_name : Option String
  pub remedy : Option Remedy
  pub success : Option Bool

-- The keys, the table, the messages that arrived and the restarts asked for, newest first, each
-- with its time.
pub record World : Type 0 where
  pub redis : Redis
  pub rows : List AlertRow
  pub sent : List (ℕ × Message)
  pub system_sent : List (ℕ × Message)
  pub restarts : List ℕ

-- The lock of the PowerShell jobs, as GET shows it.
pub data Lock : Type 0 where
  held free unknown : Lock

-- What a check meets: the clock, the heartbeats and the poll state, whether Docker restarts the
-- container, the lock, and whether Teams is configured and takes the message.
pub record Environment : Type 0 where
  pub now : ℕ
  pub later : ℕ
  pub heartbeat : String → Raw
  pub poll : Reading (Option PollState)
  pub restart_works : Bool
  pub cws_lock : Lock
  pub is_configured : Bool
  pub delivers : Bool
  pub observed : Observed

-- What a check decides about loops that are not healthy.
pub record Decision : Type 0 where
  pub severity : Severity
  pub remedy : Remedy
  pub message : Message

abbrev pub is_failure : FailureType → LoopHealth → Bool
is_failure kind h = elim h.failure_type [
  | none ↦ false
  | some k ↦ elim k [
    | dead ↦ elim kind [ dead ↦ true | stale ↦ false ]
    | stale ↦ elim kind [ dead ↦ false | stale ↦ true ]
  ]
]

-- `all(h.is_healthy …)`, and whether `dead_loops` and `stale_loops` are not empty.
unfoldable pub all_healthy : List LoopHealth → Bool
all_healthy [] = true
all_healthy (h ∷ hs) = h.is_healthy && all_healthy hs

unfoldable pub has_failure : FailureType → List LoopHealth → Bool
has_failure kind hs = any (is_failure kind) hs

unfoldable pub decide_dead : Config → ℕ → Decision
decide_dead cfg restart_count =
    if leb cfg.max_restarts_per_hour restart_count
    then record { severity = critical; remedy = escalation; message = unrecoverable }
    else if cfg.auto_restart
    then record { severity = warning; remedy = container_restart; message = restarted }
    else record { severity = warning; remedy = none_taken; message = restart_disabled }

abbrev pub is_held : Lock → Bool
is_held held = true
is_held _ = false

unfoldable pub decide_stale : Config → Lock → (consecutive restart_count : ℕ) → Decision
decide_stale cfg lock consecutive restart_count =
    if is_held lock
    then record { severity = warning; remedy = none_taken; message = deferred }
    else if leb cfg.stale_checks_before_restart consecutive && cfg.auto_restart
    then (if ltb restart_count cfg.max_restarts_per_hour
        then record { severity = warning; remedy = container_restart; message = restarted }
        else record { severity = critical; remedy = escalation; message = unrecoverable })
    else record { severity = warning; remedy = none_taken; message = failing }

-- `raw == "1"`
abbrev pub or_false : Option Bool → Bool
or_false none = false
or_false (some b) = b
