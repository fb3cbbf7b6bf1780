-- ===== src/Watchdog/Restarts.antt =====
-- When a check restarts the container, and how many restarts an hour can see
-- (`check_and_remediate` of services/watchdog/app/main.py).
use share_sentinel.Prelude.{
  ℕ, suc, ◌+◌, ◌≤◌, ◌<◌, ◌≡◌, refl, Bool, true, false, not, ◌&&◌, ◌||◌, none, some, List, [], ◌∷◌,
  All, inl, inr, Bool-cases, arith, ltb, leb, if◌then◌else◌,
}
use share_sentinel.Watchdog.Keys.{Key, get, count_of, increment}
use share_sentinel.Watchdog.Checker.{dead, stale, Config}
use share_sentinel.Watchdog.State.{
  is_held, has_failure, decide_dead, decide_stale, World, Environment,
}
use share_sentinel.Watchdog.Cycle.{
  found, restarts_counted, next_consecutive, announce, announce_recovery, handle_healthy, carry_out,
  handle_unhealthy, check_and_remediate, check_system_and_alert, run_checks,
}
use share_sentinel.Watchdog.Found.{found-all_healthy, sweep-IsSwept}

module _ (e : Environment) (cfg : Config) where
  -- Restarts are enabled and their hourly limit is not reached; and a loop is dead, or one is stale
  -- for long enough while no PowerShell job holds the lock.
  abbrev pub wants_restart : World → Bool
  wants_restart w =
      (cfg.auto_restart && ltb (restarts_counted e cfg w) cfg.max_restarts_per_hour)
      && (has_failure dead (found e cfg)
          || (has_failure stale (found e cfg)
              && (not (is_held e.cws_lock)
                  && leb cfg.stale_checks_before_restart (next_consecutive e cfg w))))

  -- What a check does to the restarts and to their counter.
  abbrev Restarted : Bool → World → World → Type 0
  Restarted b w w' =
      (w'.restarts ≡ (if b then e.later ∷ w.restarts else w.restarts))
      × (w'.redis.restart_count
          ≡ (if b then increment e.later 3600 w.redis.restart_count else w.redis.restart_count))

  handle_healthy-Restarted : (w : World) → Restarted false w (handle_healthy e cfg w)
  unfolding handle_healthy announce_recovery
  handle_healthy-Restarted w = ground arith

  handle_unhealthy-Restarted :
      (w : World)
      → (has_failure dead (found e cfg) || has_failure stale (found e cfg)) ≡ true
      → Restarted (wants_restart w) w (handle_unhealthy e cfg (found e cfg) w)
  unfolding handle_unhealthy carry_out announce decide_dead decide_stale
  handle_unhealthy-Restarted w h = ground arith

  check-Restarted : (w : World) → Restarted (wants_restart w) w (check_and_remediate e cfg w)
  unfolding check_and_remediate
  check-Restarted w = ground (
    arith,
    found-all_healthy e cfg,
    sweep-IsSwept e cfg w,
    handle_healthy-Restarted (check_system_and_alert e cfg w),
    handle_unhealthy-Restarted (check_system_and_alert e cfg w),
  )

  -- A check asks for one restart, at `later`, exactly if restarts are enabled, fewer than the limit
  -- are counted, and a loop is dead, or one is stale with no PowerShell job in flight and unhealthy
  -- checks enough in a row; otherwise it asks for none.
  pub check-restarts :
      (w : World)
      → (check_and_remediate e cfg w).restarts
        ≡ (if wants_restart w then e.later ∷ w.restarts else w.restarts)
  check-restarts w = (check-Restarted w).0

  pub check-restart_count :
      (w : World)
      → (check_and_remediate e cfg w).redis.restart_count ≡ (
          if wants_restart w
          then increment e.later 3600 w.redis.restart_count
          else w.redis.restart_count)
  check-restart_count w = (check-Restarted w).1

-- How many of the restarts lie in the hour before a time.
abbrev pub within_hour : ℕ → List ℕ → ℕ
within_hour t [] = 0
within_hour t (x ∷ xs) = (if ltb t (x + 3600) then 1 else 0) + within_hour t xs

-- At each restart, no more than `limit` in the hour up to it, itself counted.
abbrev pub IsCapped : ℕ → List ℕ → Type 0
IsCapped limit [] = Unit
IsCapped limit (x ∷ xs) = (suc (within_hour x xs) ≤ limit) × IsCapped limit xs

-- The checks follow one another in time.
abbrev pub IsOrdered : ℕ → List Environment → Type 0
IsOrdered t [] = Unit
IsOrdered t (e ∷ es) = (t ≤ e.now) × (e.now ≤ e.later) × IsOrdered e.later es

within_hour-anti : (t u : ℕ) (xs : List ℕ) → t ≤ u → within_hour u xs ≤ within_hour t xs
within_hour-anti t u [] h = omega arith
within_hour-anti t u (x ∷ xs) h = ground (arith, within_hour-anti t u xs h)

within_hour-none :
    (t u : ℕ) (xs : List ℕ) → All (λ x. x ≤ t) xs → t + 3600 ≤ u → within_hour u xs ≡ 0
within_hour-none t u [] h late = refl
within_hour-none t u (x ∷ xs) h late = ground (arith, h.0, within_hour-none t u xs h.1 late)

get-anti : (t u : ℕ) (k : Key ℕ) → t ≤ u → count_of (get u k) ≤ count_of (get t k)
unfolding get
get-anti t u none h = omega arith
get-anti t u (some x) h = ground arith

All-later : (t u : ℕ) (xs : List ℕ) → t ≤ u → All (λ x. x ≤ t) xs → All (λ x. x ≤ u) xs
All-later t u [] h all = tt
All-later t u (x ∷ xs) h all = (omega (arith, all.0), All-later t u xs h all.1)

-- The counter that a check will read at any later time covers the restarts of the hour before.
record IsCounted (limit t : ℕ) (xs : List ℕ) (k : Key ℕ) : Type 0 where
  past : All (λ x. x ≤ t) xs
  capped : IsCapped limit xs
  covered : (u : ℕ) → t ≤ u → within_hour u xs ≤ count_of (get u k)

covered-increment :
    (t : ℕ) (k : Key ℕ) (xs : List ℕ)
    → All (λ x. x ≤ t) xs
    → within_hour t xs ≤ count_of (get t k)
    → (u : ℕ) → t ≤ u
    → within_hour u (t ∷ xs) ≤ count_of (get u (increment t 3600 k))
unfolding increment get
covered-increment t k xs past here u h =
    ground (arith, within_hour-anti t u xs h, within_hour-none t u xs past, here)

IsCounted-later :
    (limit t u : ℕ) (xs : List ℕ) (k : Key ℕ)
    → t ≤ u
    → IsCounted limit t xs k
    → IsCounted limit u xs k
IsCounted-later limit t u xs k h c = record {
  past = All-later t u xs h c.past;
  capped = c.capped;
  covered = λ v uv. c.covered v (omega arith);
}

-- A restart while the counter is below the limit.
IsCounted-restart :
    (limit now t : ℕ) (xs : List ℕ) (k : Key ℕ)
    → now ≤ t
    → count_of (get now k) < limit
    → IsCounted limit t xs k
    → IsCounted limit t (t ∷ xs) (increment t 3600 k)
IsCounted-restart limit now t xs k h below c =
    let here = c.covered t (omega arith) in
    record {
      past = (omega arith, c.past);
      capped = (omega (arith, here, get-anti now t k h), c.capped);
      covered = covered-increment t k xs c.past here;
    }

below_limit :
    (e : Environment) (cfg : Config) (w : World)
    → wants_restart e cfg w ≡ true
    → count_of (get e.now w.redis.restart_count) < cfg.max_restarts_per_hour
below_limit e cfg w h = ground arith

abbrev IsCountedIn : Config → ℕ → World → Type 0
IsCountedIn cfg t w = IsCounted cfg.max_restarts_per_hour t w.restarts w.redis.restart_count

check-IsCounted :
    (e : Environment) (cfg : Config) (t : ℕ) (w : World)
    → t ≤ e.now
    → e.now ≤ e.later
    → IsCountedIn cfg t w
    → IsCountedIn cfg e.later (check_and_remediate e cfg w)
check-IsCounted e cfg t w h h' c =
    let late = IsCounted-later _ t e.later w.restarts w.redis.restart_count (omega arith) c in
    elim (Bool-cases (wants_restart e cfg w)) [
      | inl wanted ↦
          rw (check-restarts e cfg w, check-restart_count e cfg w, wanted)
            (IsCounted-restart _ e.now e.later w.restarts w.redis.restart_count h'
              (below_limit e cfg w wanted) late)
      | inr unwanted ↦ rw (check-restarts e cfg w, check-restart_count e cfg w, unwanted) late
    ]

run_checks-IsCounted :
    (cfg : Config) (es : List Environment) (t : ℕ) (w : World)
    → IsOrdered t es
    → IsCountedIn cfg t w
    → IsCapped cfg.max_restarts_per_hour (run_checks cfg es w).restarts
unfolding run_checks
run_checks-IsCounted cfg [] t w h c = c.capped
run_checks-IsCounted cfg (e ∷ es) t w h c =
    run_checks-IsCounted cfg es e.later (check_and_remediate e cfg w) h.2
      (check-IsCounted e cfg t w h.0 h.1 c)

-- However the loops behave: if checks follow one another in time and none has restarted the
-- container yet, then each restart that they ask for is, counting itself, one of at most
-- `max_restarts_per_hour` in the hour up to it.
pub restarts-IsCapped :
    (cfg : Config) (es : List Environment) (w : World)
    → w.restarts ≡ []
    → IsOrdered 0 es
    → IsCapped cfg.max_restarts_per_hour (run_checks cfg es w).restarts
restarts-IsCapped cfg es w none_yet ordered =
    run_checks-IsCounted cfg es 0 w ordered
      (rw none_yet (record { past = tt; capped = tt; covered = λ u h. omega arith }))
