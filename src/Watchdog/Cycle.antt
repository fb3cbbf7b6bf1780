-- ===== src/Watchdog/Cycle.antt =====
-- `check_and_remediate` and `check_system_and_alert` of services/watchdog/app/main.py. Redis and the
-- alert table are taken to answer. A check reads the clock at `now` until it restarts the container,
-- and at `later` from then on.
use share_sentinel.Prelude.{
  ℕ, suc, ◌+◌, String, Bool, true, false, ◌&&◌, ◌||◌, Option, none, some, List, [], ◌∷◌, ◌++◌, ltb,
  leb, ◌==◌, if◌then◌else◌,
}
use share_sentinel.Watchdog.Keys.{get, put, count_of, increment}
use share_sentinel.Watchdog.Checker.{
  FailureType, dead, stale, LoopHealth, Config, info, SystemAlert, check_all_loops,
  check_system_health,
}
use share_sentinel.Watchdog.State.{
  ttl_2h, ttl_1h, system_alert_dedup_ttl, Redis, Message, resolved, system, Remedy, none_taken,
  container_restart, AlertType, loop_dead, loop_stale, loop_recovered, system_alert, AlertRow,
  or_false, World, Environment, Decision, is_failure, all_healthy, has_failure, decide_dead,
  decide_stale,
}

module _ (e : Environment) (cfg : Config) where
  unfoldable pub is_deduped : String → List (String × ℕ) → Bool
  is_deduped name [] = false
  is_deduped name ((n, end) ∷ keys) = (n == name && ltb e.now end) || is_deduped name keys

  abbrev system_row : SystemAlert → AlertRow
  system_row a = record {
    alert_type = system_alert a.name;
    severity = a.severity;
    loop_name = some a.name;
    remedy = none;
    success = none;
  }

  -- SET NX, and the alert if the key was free.
  unfoldable pub send_system_alert : SystemAlert → World → World
  unfolding is_deduped
  send_system_alert a w = if is_deduped a.name w.redis.system_alerts then w else record w {
    redis = record (w.redis) {
      system_alerts = (a.name, e.now + system_alert_dedup_ttl) ∷ w.redis.system_alerts;
    };
    rows = w.rows ++ system_row a ∷ [];
    system_sent =
        if e.is_configured && e.delivers
        then (e.now, system a.name) ∷ w.system_sent
        else w.system_sent;
  }

  unfoldable pub send_system_alerts : List SystemAlert → World → World
  unfolding send_system_alert
  send_system_alerts [] w = w
  send_system_alerts (a ∷ rest) w = send_system_alerts rest (send_system_alert a w)

  unfoldable pub check_system_and_alert : World → World
  check_system_and_alert w = send_system_alerts (check_system_health e.now cfg e.observed) w

  -- `_can_send_alert`
  unfoldable pub can_send_alert : Redis → Bool
  can_send_alert r = elim (get e.later r.last_alert_ts) [
    | none ↦ true
    | some last ↦ leb (last + cfg.alert_cooldown_seconds) e.later
  ]

  abbrev mark_alert_sent : Redis → Redis
  mark_alert_sent r = record r { last_alert_ts = put e.later ttl_2h e.later }

  -- The end of the recovery branch marks the alert whether or not it arrived.
  unfoldable pub announce_recovery : World → World
  unfolding can_send_alert
  announce_recovery w =
      if e.is_configured && can_send_alert w.redis
      then record w {
        redis = mark_alert_sent w.redis;
        sent = if e.delivers then (e.later, resolved) ∷ w.sent else w.sent;
      }
      else w

  -- The other one only if it did.
  unfoldable pub announce : Message → World → World
  unfolding can_send_alert
  announce m w =
      if e.is_configured && can_send_alert w.redis && e.delivers
      then record w { redis = mark_alert_sent w.redis; sent = (e.later, m) ∷ w.sent }
      else w

  abbrev pub recovered_row : AlertRow
  recovered_row = record {
    alert_type = loop_recovered;
    severity = info;
    loop_name = none;
    remedy = some none_taken;
    success = none;
  }

  abbrev clear_failures : World → World
  clear_failures w = record w {
    redis = record (w.redis) {
      consecutive_failures = put e.later ttl_2h 0;
      prev_unhealthy = put e.later ttl_2h false;
    };
  }

  abbrev pub was_unhealthy : World → Bool
  was_unhealthy w = or_false (get e.now w.redis.prev_unhealthy)

  unfoldable pub handle_healthy : World → World
  unfolding announce_recovery
  handle_healthy w =
      if was_unhealthy w
      then clear_failures (announce_recovery (record w { rows = w.rows ++ recovered_row ∷ [] }))
      else w

  abbrev pub next_consecutive : World → ℕ
  next_consecutive w = suc (count_of (get e.now w.redis.consecutive_failures))

  abbrev pub count_failure : World → World
  count_failure w = record w {
    redis = record (w.redis) {
      prev_unhealthy = put e.now ttl_2h true;
      consecutive_failures = put e.now ttl_2h (next_consecutive w);
    };
  }

  -- `restart_container` and `_increment_restart_count`, if that is what was decided.
  abbrev pub restart_if : Remedy → World → World
  restart_if container_restart w = record w {
    restarts = e.later ∷ w.restarts;
    redis = record (w.redis) {
      restart_count = increment e.later ttl_1h w.redis.restart_count;
      last_restart_ts = put e.later ttl_1h e.later;
    };
  }
  restart_if _ w = w

  abbrev restart_result : Remedy → Option Bool
  restart_result container_restart = some e.restart_works
  restart_result _ = none

  -- A row for each loop that failed in the way that the decision is about.
  unfoldable pub record_failures :
      AlertType → FailureType → Decision → List LoopHealth → List AlertRow
  record_failures alert_type kind d [] = []
  record_failures alert_type kind d (h ∷ hs) =
      let rest = record_failures alert_type kind d hs in
      if is_failure kind h
      then record {
        alert_type = alert_type;
        severity = d.severity;
        loop_name = some h.name;
        remedy = some d.remedy;
        success = restart_result d.remedy;
      }
        ∷ rest
      else rest

  -- What follows a decision.
  unfoldable pub carry_out : AlertType → FailureType → List LoopHealth → Decision → World → World
  unfolding increment record_failures announce
  carry_out alert_type kind hs d w =
      let w' = restart_if d.remedy w in
      announce d.message (record w' { rows = w'.rows ++ record_failures alert_type kind d hs })

  abbrev pub restarts_counted : World → ℕ
  restarts_counted w = count_of (get e.now w.redis.restart_count)

  -- With neither dead nor stale loops the code would raise; the checker reports no such loops.
  unfoldable pub handle_unhealthy : List LoopHealth → World → World
  unfolding decide_dead decide_stale carry_out
  handle_unhealthy hs w =
      let w' = count_failure w in
      if has_failure dead hs
      then carry_out loop_dead dead hs (decide_dead cfg (restarts_counted w)) w'
      else if has_failure stale hs
      then carry_out loop_stale stale hs
          (decide_stale cfg e.cws_lock (next_consecutive w) (restarts_counted w)) w'
      else w'

  abbrev pub found : List LoopHealth
  found = check_all_loops e.now cfg e.heartbeat e.poll

  unfoldable pub check_and_remediate : World → World
  unfolding check_system_and_alert handle_healthy handle_unhealthy
  check_and_remediate w =
      let w' = check_system_and_alert w in
      if all_healthy found then handle_healthy w' else handle_unhealthy found w'

-- The loop of `main`.
unfoldable pub run_checks : Config → List Environment → World → World
run_checks cfg [] w = w
run_checks cfg (e ∷ es) w = run_checks cfg es (check_and_remediate e cfg w)
