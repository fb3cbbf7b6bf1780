-- ===== src/Watchdog/Tests.antt =====
-- Concrete checks of the watchdog.
use share_sentinel.Prelude.{ℕ, ◌≡◌, refl, true, ◌&&◌, none, some, [], ◌∷◌, arith, if◌then◌else◌}
use share_sentinel.Watchdog.Keys.{get}
use share_sentinel.Watchdog.Checker.{
  Raw, missing, stamp, unreadable, reads, Config, Observed, check_all_loops,
}
use share_sentinel.Watchdog.State.{
  resolved, restarted, free, all_healthy, has_failure, World, Environment,
}
use share_sentinel.Watchdog.Cycle.{
  found, was_unhealthy, can_send_alert, check_and_remediate, run_checks,
}
use share_sentinel.Watchdog.Restarts.{IsCapped, restarts-IsCapped}
use share_sentinel.Watchdog.Alerts.{alert_gap, IsSpaced, alerts-IsSpaced}
use share_sentinel.Watchdog.Recovery.{recovery-sent}
use share_sentinel.Watchdog.Streak.{stale_restarts}

-- The defaults.
abbrev config : Config
config = record {
  heartbeat_stale_seconds = 300;
  poll_stale_seconds = 3600;
  auto_restart = true;
  max_restarts_per_hour = 3;
  alert_cooldown_seconds = 1800;
  stale_checks_before_restart = 3;
  queue_depth_alert = 200;
  failed_events_alert_24h = 20;
  inspection_age_alert_days = 30;
}

abbrev nothing_observed : Observed
nothing_observed = record {
  worker_heartbeat = unreadable;
  optional_heartbeat = λ _. reads missing;
  queue_depth = unreadable;
  dlq_depth = λ _. unreadable;
  failed_scans = unreadable;
  failed_events = unreadable;
  inspections = unreadable;
}

-- A check at a time, with one heartbeat for all loops and a poll state updated at a time.
abbrev check_at : ℕ → Raw → ℕ → Environment
check_at t heartbeat polled = record {
  now = t;
  later = t;
  heartbeat = λ _. heartbeat;
  poll = reads (some (record { is_error = true; updated_at = some polled; error_message = none }));
  restart_works = true;
  cws_lock = free;
  is_configured = true;
  delivers = true;
  observed = nothing_observed;
}

abbrev dead_at : ℕ → Environment
dead_at t = check_at t missing t

abbrev healthy_at : ℕ → Environment
healthy_at t = check_at t (stamp t) t

abbrev failing_at : ℕ → Environment
failing_at t = check_at t (stamp t) 10

abbrev world : World
world = record {
  redis = record {
    consecutive_failures = none;
    last_alert_ts = none;
    restart_count = none;
    last_restart_ts = none;
    prev_unhealthy = none;
    system_alerts = [];
  };
  rows = [];
  sent = [];
  system_sent = [];
  restarts = [];
}

-- The world with an alert sent at 100.
abbrev alerted : World
alerted = record world {
  redis = record (world.redis) {
    prev_unhealthy = some (record { content = true; expires_at = 7300 });
    last_alert_ts = some (record { content = 100; expires_at = 7300 });
  };
  sent = (100, restarted) ∷ [];
}

restarts-IsCapped_example :
    IsCapped 3
      (run_checks config
        (dead_at 100 ∷ dead_at 220 ∷ dead_at 340 ∷ dead_at 460 ∷ [])
        world).restarts
restarts-IsCapped_example =
    restarts-IsCapped config (dead_at 100 ∷ dead_at 220 ∷ dead_at 340 ∷ dead_at 460 ∷ []) world refl
      (omega arith)

alerts-IsSpaced_example :
    IsSpaced (alert_gap config) (run_checks config (dead_at 100 ∷ healthy_at 2500 ∷ []) world).sent
alerts-IsSpaced_example =
    alerts-IsSpaced config (dead_at 100 ∷ healthy_at 2500 ∷ []) world refl (omega arith)

healthy_found : (t : ℕ) → all_healthy (found (healthy_at t) config) ≡ true
unfolding check_all_loops all_healthy
healthy_found t = ground arith

recovery-sent_example : (check_and_remediate (healthy_at 2500) config alerted).sent ≡ (
    if was_unhealthy (healthy_at 2500) config alerted
      && (true && (can_send_alert (healthy_at 2500) config alerted.redis && true))
    then (2500, resolved) ∷ (100, restarted) ∷ []
    else (100, restarted) ∷ [])
recovery-sent_example = recovery-sent (healthy_at 2500) config alerted (healthy_found 2500)

stale_restarts_example :
    (run_checks config (failing_at 5000 ∷ failing_at 5120 ∷ failing_at 5240 ∷ []) world).restarts
    ≡ 5240 ∷ []
unfolding get check_all_loops has_failure
stale_restarts_example =
    stale_restarts config (failing_at 5000) (failing_at 5120 ∷ failing_at 5240 ∷ []) world refl
      (omega arith) ((refl, refl, refl), ((refl, refl, refl), ((refl, refl, refl), tt)))
      (omega arith) refl refl refl
