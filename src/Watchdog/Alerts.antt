-- ===== src/Watchdog/Alerts.antt =====
-- The messages on the loops: how far apart they are, and what becomes of the one that tells of a
-- recovery (`_can_send_alert` and its callers in services/watchdog/app/main.py).
use share_sentinel.Prelude.{
  ℕ, ◌+◌, ◌≤◌, ◌≡◌, refl, Bool, true, ◌&&◌, none, some, List, [], ◌∷◌, ◌++◌, inl, inr, All,
  Bool-cases, arith, ltb, leb, if◌then◌else◌,
}
use share_sentinel.Watchdog.Keys.{Key, get, put}
use share_sentinel.Watchdog.Checker.{FailureType, dead, stale, LoopHealth, Config}
use share_sentinel.Watchdog.State.{
  loop_dead, loop_stale, AlertType, has_failure, all_healthy, Message, resolved, Decision, World,
  Environment,
}
use share_sentinel.Watchdog.Cycle.{
  recovered_row, restart_if, record_failures, count_failure, found, was_unhealthy, can_send_alert,
  announce, announce_recovery, handle_healthy, carry_out, handle_unhealthy, check_and_remediate,
  check_system_and_alert, run_checks,
}
use share_sentinel.Watchdog.Found.{sweep-IsSwept}
use share_sentinel.Watchdog.Restarts.{IsOrdered}

-- `_can_send_alert` at a time.
abbrev may_send : Config → ℕ → Key ℕ → Bool
may_send cfg t k = elim (get t k) [
  | none ↦ true
  | some last ↦ leb (last + cfg.alert_cooldown_seconds) t
]

-- Nothing is sent and marked, or a mark is set when it may be, with or without a message.
data Announced (cfg : Config) (t : ℕ) (w w' : World) : Type 0 where
  silent : w'.sent ≡ w.sent → w'.redis.last_alert_ts ≡ w.redis.last_alert_ts → Announced cfg t w w'
  marked :
      may_send cfg t w.redis.last_alert_ts ≡ true
      → w'.sent ≡ w.sent
      → w'.redis.last_alert_ts ≡ put t 7200 t
      → Announced cfg t w w'
  told :
      (m : Message)
      → may_send cfg t w.redis.last_alert_ts ≡ true
      → w'.sent ≡ (t, m) ∷ w.sent
      → w'.redis.last_alert_ts ≡ put t 7200 t
      → Announced cfg t w w'

module _ (e : Environment) (cfg : Config) where
  announce-Announced : (m : Message) (w : World) → Announced cfg e.later w (announce e cfg m w)
  unfolding announce can_send_alert
  announce-Announced m w =
      elim (Bool-cases (e.is_configured && can_send_alert e cfg w.redis && e.delivers)) [
        | inl sends ↦ told m (ground arith) (ground arith) (ground arith)
        | inr quiet ↦ silent (ground arith) (ground arith)
      ]

  announce_recovery-Announced : (w : World) → Announced cfg e.later w (announce_recovery e cfg w)
  unfolding announce_recovery can_send_alert
  announce_recovery-Announced w =
      elim (Bool-cases (e.is_configured && can_send_alert e cfg w.redis)) [
        | inr quiet ↦ silent (ground arith) (ground arith)
        | inl sends ↦ elim (Bool-cases e.delivers) [
          | inl arrives ↦ told resolved (ground arith) (ground arith) (ground arith)
          | inr lost ↦ marked (ground arith) (ground arith) (ground arith)
        ]
      ]

  -- What a check does besides is not about messages.
  Announced-same :
      (u v : World) {w w' : World}
      → u.sent ≡ w.sent
      → u.redis.last_alert_ts ≡ w.redis.last_alert_ts
      → v.sent ≡ w'.sent
      → v.redis.last_alert_ts ≡ w'.redis.last_alert_ts
      → Announced cfg e.later u v
      → Announced cfg e.later w w'
  Announced-same u v p q p' q' (silent a b) = silent (cc) (cc)
  Announced-same u v p q p' q' (marked m a b) = marked (rw (← q) m) (cc) (cc)
  Announced-same u v p q p' q' (told x m a b) = told x (rw (← q) m) (rw (← p', a, p)) (cc)

  handle_healthy-Announced : (w : World) → Announced cfg e.later w (handle_healthy e cfg w)
  unfolding handle_healthy
  handle_healthy-Announced w = elim (Bool-cases (was_unhealthy e cfg w)) [
    | inr no_news ↦ silent (ground arith) (ground arith)
    | inl recovers ↦
        let w1 = record w { rows = w.rows ++ recovered_row e cfg ∷ [] } in
        Announced-same w1 (announce_recovery e cfg w1) refl refl (ground arith) (ground arith)
          (announce_recovery-Announced w1)
  ]

  carry_out-Announced :
      (a : AlertType) (k : FailureType) (hs : List LoopHealth) (d : Decision) (w : World)
      → Announced cfg e.later w (carry_out e cfg a k hs d w)
  unfolding carry_out
  carry_out-Announced a k hs d w =
      let w1 = restart_if e cfg d.remedy w in
      let w2 = record w1 { rows = w1.rows ++ record_failures e cfg a k d hs } in
      Announced-same w2 (announce e cfg d.message w2) (ground arith) (ground arith) refl refl
        (announce-Announced d.message w2)

  handle_unhealthy-Announced :
      (hs : List LoopHealth) (w : World) → Announced cfg e.later w (handle_unhealthy e cfg hs w)
  unfolding handle_unhealthy
  handle_unhealthy-Announced hs w =
      let w1 = count_failure e cfg w in
      elim (Bool-cases (has_failure dead hs)) [
        | inl is_dead ↦
            rw (is_dead, handle_unhealthy)
              (Announced-same w1 _ refl refl refl refl (carry_out-Announced loop_dead dead hs _ w1))
        | inr alive ↦ elim (Bool-cases (has_failure stale hs)) [
          | inl is_stale ↦
              rw (alive, is_stale, handle_unhealthy)
                (Announced-same w1 _ refl refl refl refl
                  (carry_out-Announced loop_stale stale hs _ w1))
          | inr fresh ↦ rw (alive, fresh, handle_unhealthy) (silent refl refl)
        ]
      ]

  check-Announced : (w : World) → Announced cfg e.later w (check_and_remediate e cfg w)
  unfolding check_and_remediate
  check-Announced w =
      let w1 = check_system_and_alert e cfg w in
      let swept = sweep-IsSwept e cfg w in
      elim (Bool-cases (all_healthy (found e cfg))) [
        | inl healthy ↦
            rw (healthy, check_and_remediate)
              (Announced-same w1 _ swept.sent swept.last_alert refl refl
                (handle_healthy-Announced w1))
        | inr broken ↦
            rw (broken, check_and_remediate)
              (Announced-same w1 _ swept.sent swept.last_alert refl refl
                (handle_unhealthy-Announced (found e cfg) w1))
      ]

-- The cooldown, as far as the key that keeps it lives.
abbrev pub alert_gap : Config → ℕ
alert_gap cfg = if ltb cfg.alert_cooldown_seconds 7200 then cfg.alert_cooldown_seconds else 7200

-- Messages, newest first, each at least a gap after all before it.
abbrev pub IsSpaced : ℕ → List (ℕ × Message) → Type 0
IsSpaced gap [] = Unit
IsSpaced gap ((t, m) ∷ ms) = All (λ x. x.0 + gap ≤ t) ms × IsSpaced gap ms

-- Whenever a message may be sent from `t` on, those sent before are a gap old.
record IsQuiet (cfg : Config) (t : ℕ) (w : World) : Type 0 where
  spaced : IsSpaced (alert_gap cfg) w.sent
  waits :
      (u : ℕ)
      → t ≤ u
      → may_send cfg u w.redis.last_alert_ts ≡ true
      → All (λ x. x.0 + alert_gap cfg ≤ u) w.sent

All-until :
    (gap t u : ℕ) (ms : List (ℕ × Message))
    → t ≤ u
    → All (λ x. x.0 + gap ≤ t) ms
    → All (λ x. x.0 + gap ≤ u) ms
All-until gap t u [] h all = tt
All-until gap t u (m ∷ ms) h all = (omega (arith, all.0), All-until gap t u ms h all.1)

-- Behind a fresh mark a message waits for a gap.
may_send-put :
    (cfg : Config) (t u : ℕ) → t ≤ u → may_send cfg u (put t 7200 t) ≡ true → t + alert_gap cfg ≤ u
unfolding get
may_send-put cfg t u h m = ground arith

Announced-IsQuiet :
    (cfg : Config) (t : ℕ) (w w' : World)
    → IsQuiet cfg t w
    → Announced cfg t w w'
    → IsQuiet cfg t w'
Announced-IsQuiet cfg t w w' q (silent a b) = record {
  spaced = rw a q.spaced;
  waits = λ u h m. rw a (q.waits u h (rw (← b) m));
}
Announced-IsQuiet cfg t w w' q (marked may a b) = record {
  spaced = rw a q.spaced;
  waits = λ u h m. rw a (All-until _ t u w.sent h (q.waits t (omega arith) may));
}
Announced-IsQuiet cfg t w w' q (told x may a b) =
    let before = q.waits t (omega arith) may in
    record {
      spaced = rw a (before, q.spaced);
      waits = λ u h m. rw a (may_send-put cfg t u h (rw (← b) m), All-until _ t u w.sent h before);
    }

IsQuiet-later : (cfg : Config) (t u : ℕ) (w : World) → t ≤ u → IsQuiet cfg t w → IsQuiet cfg u w
IsQuiet-later cfg t u w h q = record {
  spaced = q.spaced;
  waits = λ v uv m. q.waits v (omega arith) m;
}

run_checks-IsSpaced :
    (cfg : Config) (es : List Environment) (t : ℕ) (w : World)
    → IsOrdered t es
    → IsQuiet cfg t w
    → IsSpaced (alert_gap cfg) (run_checks cfg es w).sent
unfolding run_checks
run_checks-IsSpaced cfg [] t w h q = q.spaced
run_checks-IsSpaced cfg (e ∷ es) t w h q =
    run_checks-IsSpaced cfg es e.later (check_and_remediate e cfg w) h.2 (
      Announced-IsQuiet cfg e.later w _ (IsQuiet-later cfg t e.later w (omega (arith, h.0, h.1)) q)
        (check-Announced e cfg w))

-- However the loops behave: if checks follow one another in time and no message on the loops was
-- sent before, then any two that arrive in Teams are at least the cooldown apart, or two hours if
-- the cooldown is longer than that.
pub alerts-IsSpaced :
    (cfg : Config) (es : List Environment) (w : World)
    → w.sent ≡ []
    → IsOrdered 0 es
    → IsSpaced (alert_gap cfg) (run_checks cfg es w).sent
alerts-IsSpaced cfg es w none_yet ordered =
    run_checks-IsSpaced cfg es 0 w ordered
      (record { spaced = rw none_yet tt; waits = λ u h m. rw none_yet tt })
