-- ===== src/Watchdog/Found.antt =====
-- The loops that a check finds are healthy, dead or stale, and nothing else; and the sweep of the
-- alerts leaves what the restarts depend on.
use share_sentinel.Prelude.{
  ℕ, ◌≡◌, refl, String, not, ◌||◌, Option, none, some, List, [], ◌∷◌, map, All, arith,
}
use share_sentinel.Watchdog.Checker.{
  check_audit_poll_state, heartbeat_names, Raw, missing, invalid, stamp, dead, stale, LoopHealth,
  SystemAlert, Config, check_loop, mark_stale, mark_audit, check_all_loops, check_system_health,
}
use share_sentinel.Watchdog.State.{is_failure, all_healthy, has_failure, World, Environment}
use share_sentinel.Watchdog.Cycle.{
  found, send_system_alert, send_system_alerts, check_system_and_alert,
}

-- A loop is unhealthy exactly if it is dead or stale.
abbrev pub IsClassified : LoopHealth → Type 0
IsClassified h = h.is_healthy ≡ not (is_failure dead h || is_failure stale h)

check_loop-IsClassified :
    (now limit : ℕ) (n : String) (r : Raw) → IsClassified (check_loop now limit n r)
unfolding check_loop
check_loop-IsClassified now limit n missing = refl
check_loop-IsClassified now limit n invalid = refl
check_loop-IsClassified now limit n (stamp ts) = ground arith

mark_stale-IsClassified :
    (m : Option String) (h : LoopHealth) → IsClassified h → IsClassified (mark_stale m h)
mark_stale-IsClassified none h c = c
mark_stale-IsClassified (some m) h c = ground arith

mark_audit-IsClassified :
    (m : Option String) (hs : List LoopHealth)
    → All IsClassified hs
    → All IsClassified (mark_audit m hs)
unfolding mark_audit
mark_audit-IsClassified m [] c = tt
mark_audit-IsClassified m (h ∷ hs) c =
    ground (arith, mark_stale-IsClassified m h c.0, mark_audit-IsClassified m hs c.1)

loops-IsClassified :
    (now limit : ℕ) (heartbeat : String → Raw) (ns : List String)
    → All IsClassified (map (λ n. check_loop now limit n (heartbeat n)) ns)
loops-IsClassified now limit heartbeat [] = tt
loops-IsClassified now limit heartbeat (n ∷ ns) =
    (check_loop-IsClassified now limit n (heartbeat n), loops-IsClassified now limit heartbeat ns)

all_healthy_lem :
    (hs : List LoopHealth)
    → All IsClassified hs
    → all_healthy hs ≡ not (has_failure dead hs || has_failure stale hs)
unfolding all_healthy has_failure
all_healthy_lem [] c = refl
all_healthy_lem (h ∷ hs) c = ground (arith, c.0, all_healthy_lem hs c.1)

-- The loops found are all healthy exactly if none is dead and none is stale, so the two branches on
-- unhealthy loops leave no case without a message.
pub found-all_healthy :
    (e : Environment) (cfg : Config)
    → all_healthy (found e cfg)
      ≡ not (has_failure dead (found e cfg) || has_failure stale (found e cfg))
unfolding check_all_loops
found-all_healthy e cfg = all_healthy_lem (found e cfg) (
    mark_audit-IsClassified (check_audit_poll_state e.now cfg.poll_stale_seconds e.poll)
      (map (λ n. check_loop e.now cfg.heartbeat_stale_seconds n (e.heartbeat n)) heartbeat_names)
      (loops-IsClassified e.now cfg.heartbeat_stale_seconds e.heartbeat heartbeat_names))

-- The sweep changes the deduplication keys, the rows and its own messages alone.
pub record IsSwept (w w' : World) : Type 0 where
  pub restarts : w'.restarts ≡ w.restarts
  pub sent : w'.sent ≡ w.sent
  pub restart_count : w'.redis.restart_count ≡ w.redis.restart_count
  pub consecutive : w'.redis.consecutive_failures ≡ w.redis.consecutive_failures
  pub prev : w'.redis.prev_unhealthy ≡ w.redis.prev_unhealthy
  pub last_alert : w'.redis.last_alert_ts ≡ w.redis.last_alert_ts

IsSwept-trans : (a b c : World) → IsSwept a b → IsSwept b c → IsSwept a c
IsSwept-trans a b c p q = ground arith

module _ (e : Environment) (cfg : Config) where
  send_system_alert-IsSwept :
      (a : SystemAlert) (w : World) → IsSwept w (send_system_alert e cfg a w)
  unfolding send_system_alert
  send_system_alert-IsSwept a w = ground arith

  send_system_alerts-IsSwept :
      (alerts : List SystemAlert) (w : World) → IsSwept w (send_system_alerts e cfg alerts w)
  unfolding send_system_alerts
  send_system_alerts-IsSwept [] w = ground arith
  send_system_alerts-IsSwept (a ∷ alerts) w =
      let next = send_system_alert e cfg a w in
      IsSwept-trans w next _ (send_system_alert-IsSwept a w)
        (send_system_alerts-IsSwept alerts next)

  pub sweep-IsSwept : (w : World) → IsSwept w (check_system_and_alert e cfg w)
  unfolding check_system_and_alert
  sweep-IsSwept w = send_system_alerts-IsSwept (check_system_health e.now cfg e.observed) w
