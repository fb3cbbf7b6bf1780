-- ===== src/Watchdog/Streak.antt =====
-- The count of unhealthy checks in a row, and the restart that it leads to for loops that live but
-- fail (`_get_consecutive_failures` and its use in `check_and_remediate`).
use share_sentinel.Prelude.{
  ℕ, suc, ◌+◌, ◌≤◌, ◌<◌, ◌≡◌, ◌∙◌, ap, true, false, none, List, [], ◌∷◌, All, length, arith,
}
use share_sentinel.Watchdog.Keys.{get, count_of, put}
use share_sentinel.Watchdog.Checker.{dead, stale, LoopHealth, Config}
use share_sentinel.Watchdog.State.{is_held, has_failure, all_healthy, World, Environment}
use share_sentinel.Watchdog.Cycle.{
  found, next_consecutive, restarts_counted, handle_unhealthy, carry_out, announce,
  check_and_remediate, check_system_and_alert, run_checks,
}
use share_sentinel.Watchdog.Found.{found-all_healthy, sweep-IsSwept}
use share_sentinel.Watchdog.Restarts.{wants_restart, check-restarts, check-restart_count}

module _ (e : Environment) (cfg : Config) where
  consecutive-handle :
      (hs : List LoopHealth) (w : World)
      → (handle_unhealthy e cfg hs w).redis.consecutive_failures
        ≡ put e.now 7200 (next_consecutive e cfg w)
  unfolding handle_unhealthy carry_out announce
  consecutive-handle hs w = ground arith

  -- An unhealthy check is counted, for two hours.
  consecutive-check :
      (w : World)
      → all_healthy (found e cfg) ≡ false
      → (check_and_remediate e cfg w).redis.consecutive_failures
        ≡ put e.now 7200 (next_consecutive e cfg w)
  unfolding check_and_remediate
  consecutive-check w h = ground (
    arith,
    sweep-IsSwept e cfg w,
    consecutive-handle (found e cfg) (check_system_and_alert e cfg w),
  )

-- No loop is dead, one is stale, and no PowerShell job holds the lock.
abbrev pub IsFailing : Config → Environment → Type 0
IsFailing cfg e =
    (has_failure dead (found e cfg) ≡ false)
    × (has_failure stale (found e cfg) ≡ true)
    × (is_held e.cws_lock ≡ false)

-- Each check begins within two hours of the start of the one before.
abbrev pub AreClose : ℕ → List Environment → Type 0
AreClose t [] = Unit
AreClose t (e ∷ es) = (e.now < t + 7200) × AreClose e.now es

abbrev pub last_check : Environment → List Environment → Environment
last_check e [] = e
last_check e (e' ∷ es) = last_check e' es

failing_unhealthy :
    (cfg : Config) (e : Environment) → IsFailing cfg e → all_healthy (found e cfg) ≡ false
failing_unhealthy cfg e f = ground (arith, f, found-all_healthy e cfg)

-- A check before the threshold.
failing_wait :
    (cfg : Config) (e : Environment) (w : World)
    → IsFailing cfg e
    → next_consecutive e cfg w < cfg.stale_checks_before_restart
    → wants_restart e cfg w ≡ false
failing_wait cfg e w f lt = ground (arith, f)

failing_act :
    (cfg : Config) (e : Environment) (w : World)
    → IsFailing cfg e
    → cfg.auto_restart ≡ true
    → restarts_counted e cfg w < cfg.max_restarts_per_hour
    → cfg.stale_checks_before_restart ≤ next_consecutive e cfg w
    → wants_restart e cfg w ≡ true
failing_act cfg e w f auto room enough = ground (arith, f)

module _ (cfg : Config) (auto : cfg.auto_restart ≡ true)
    (room : 0 < cfg.max_restarts_per_hour) where
  streak :
      (e : Environment) (es : List Environment) (w : World) (c : ℕ)
      → All (IsFailing cfg) (e ∷ es)
      → AreClose e.now es
      → w.redis.restart_count ≡ none
      → count_of (get e.now w.redis.consecutive_failures) ≡ c
      → c + suc (length es) ≡ cfg.stale_checks_before_restart
      → (run_checks cfg (e ∷ es) w).restarts ≡ (last_check e es).later ∷ w.restarts
  unfolding run_checks get
  streak e [] w c f close none_yet here reached =
      check-restarts e cfg w ∙ ground (arith, failing_act cfg e w f.0 auto)
  streak e (e' ∷ es) w c f close none_yet here reached =
      let w1 = check_and_remediate e cfg w in
      let waits = failing_wait cfg e w f.0 (ground arith) in
      streak e' es w1 (suc c) f.1 close.1 (check-restart_count e cfg w ∙ ground arith)
        (ground (arith, consecutive-check e cfg w (failing_unhealthy cfg e f.0))) (omega arith)
      ∙ ap (λ rs. (last_check e' es).later ∷ rs) (check-restarts e cfg w ∙ ground arith)

-- With automatic restarts, a cap of restarts over 0 and no restart counted: of `stale_checks_before_restart` checks in a row, each
-- within two hours of the last, that find a stale loop, no dead one and no PowerShell job, the last
-- restarts the container, and those before it do not, if the failures counted before them are
-- none.
pub stale_restarts :
    (cfg : Config) (e : Environment) (es : List Environment) (w : World)
    → cfg.auto_restart ≡ true
    → 0 < cfg.max_restarts_per_hour
    → All (IsFailing cfg) (e ∷ es)
    → AreClose e.now es
    → w.redis.restart_count ≡ none
    → count_of (get e.now w.redis.consecutive_failures) ≡ 0
    → suc (length es) ≡ cfg.stale_checks_before_restart
    → (run_checks cfg (e ∷ es) w).restarts ≡ (last_check e es).later ∷ w.restarts
stale_restarts cfg e es w auto room f close none_yet fresh reached =
    streak cfg auto room e es w 0 f close none_yet fresh (omega arith)
