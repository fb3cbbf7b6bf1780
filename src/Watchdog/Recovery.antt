-- ===== src/Watchdog/Recovery.antt =====
-- What a check tells of a recovery, and when nobody hears of it (the branch of
-- `check_and_remediate` on healthy loops).
use share_sentinel.Prelude.{
  ℕ, ◌≡◌, refl, ◌∙◌, true, false, ◌&&◌, Bool, List, [], ◌∷◌, All, arith, if◌then◌else◌,
}
use share_sentinel.Watchdog.Keys.{get}
use share_sentinel.Watchdog.Checker.{Config}
use share_sentinel.Watchdog.State.{or_false, all_healthy, resolved, World, Environment}
use share_sentinel.Watchdog.Cycle.{
  found, was_unhealthy, can_send_alert, announce_recovery, handle_healthy, check_and_remediate,
  run_checks,
}
use share_sentinel.Watchdog.Found.{sweep-IsSwept}

-- `_was_previously_unhealthy` at a time.
abbrev flag_at : ℕ → World → Bool
flag_at t w = or_false (get t w.redis.prev_unhealthy)

module _ (e : Environment) (cfg : Config) where
  -- If all loops are healthy, a check tells of a recovery exactly if the last one found them
  -- otherwise, Teams is configured and takes the message, and no cooldown runs.
  pub recovery-sent :
      (w : World)
      → all_healthy (found e cfg) ≡ true
      → (check_and_remediate e cfg w).sent ≡ (
          if was_unhealthy e cfg w
            && (e.is_configured && (can_send_alert e cfg w.redis && e.delivers))
          then (e.later, resolved) ∷ w.sent
          else w.sent)
  unfolding check_and_remediate handle_healthy announce_recovery can_send_alert
  recovery-sent w h = ground (arith, sweep-IsSwept e cfg w)

  -- The check that sees the recovery lowers the flag for good, and one with the flag down leaves it.
  recovery-flag :
      (w : World)
      → all_healthy (found e cfg) ≡ true
      → was_unhealthy e cfg w ≡ true
      → (t : ℕ) → flag_at t (check_and_remediate e cfg w) ≡ false
  unfolding check_and_remediate handle_healthy announce_recovery get
  recovery-flag w h up t = ground (arith, sweep-IsSwept e cfg w)

  quiet-flag :
      (w : World)
      → all_healthy (found e cfg) ≡ true
      → was_unhealthy e cfg w ≡ false
      → (check_and_remediate e cfg w).redis.prev_unhealthy ≡ w.redis.prev_unhealthy
  unfolding check_and_remediate handle_healthy announce_recovery
  quiet-flag w h down = ground (arith, sweep-IsSwept e cfg w)

abbrev AreHealthy : Config → List Environment → Type 0
AreHealthy cfg es = All (λ e. all_healthy (found e cfg) ≡ true) es

quiet_checks :
    (cfg : Config) (es : List Environment) (w : World)
    → AreHealthy cfg es
    → ((t : ℕ) → flag_at t w ≡ false)
    → (run_checks cfg es w).sent ≡ w.sent
unfolding run_checks
quiet_checks cfg [] w h down = refl
quiet_checks cfg (e ∷ es) w h down =
    let w1 = check_and_remediate e cfg w in
    let same = quiet-flag e cfg w h.0 (down e.now) in
    quiet_checks cfg es w1 h.1 (λ t. rw same (down t))
    ∙ recovery-sent e cfg w h.0
    ∙ ground (arith, down e.now)

-- If a check finds all loops healthy again while the cooldown of an earlier alert runs, it tells
-- nobody, and neither does any later check, for as long as the loops stay healthy.
pub recovery_untold :
    (cfg : Config) (e : Environment) (es : List Environment) (w : World)
    → All (λ x. all_healthy (found x cfg) ≡ true) (e ∷ es)
    → was_unhealthy e cfg w ≡ true
    → can_send_alert e cfg w.redis ≡ false
    → (run_checks cfg (e ∷ es) w).sent ≡ w.sent
unfolding run_checks
recovery_untold cfg e es w h up waiting =
    quiet_checks cfg es (check_and_remediate e cfg w) h.1 (recovery-flag e cfg w h.0 up)
    ∙ recovery-sent e cfg w h.0
    ∙ ground arith
