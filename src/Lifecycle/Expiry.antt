-- ===== src/Lifecycle/Expiry.antt =====
-- What a pass does to the links that have reached their last day, to those that have not, and to
-- rows that are not active (`process_lifecycle_milestones` of processor.py).
use mathlib.Core.Option
use share_sentinel.Prelude.{
  ℕ, suc, ◌+◌, ◌*◌, ◌≤◌, ◌<◌, String, ◌≡◌, refl, ◌∙◌, Bool, ap, some, none, List, [], ◌∷◌, All,
  length, arith, leb, if◌then◌else◌,
}
use share_sentinel.Lifecycle.Row.{active, expired_removed, error, Column, notified_180d, Row, find}
use share_sentinel.Lifecycle.Processor.{
  milestones, Config, Environment, World, removed, failed, remove_sharing_permission, set_milestone,
  set_removed, attempts_after, set_failed, process_lifecycle_milestones, max_removal_attempts,
  seconds_per_day,
}
use share_sentinel.Lifecycle.Table.{IsKeyed}
use share_sentinel.Lifecycle.Rowwise.{row_pass, pass_rowwise}
use share_sentinel.Lifecycle.Removal.{
  IsExpired, answer, at_removal, at_removal-IsQuiet, row_pass-removed, row_pass-failed,
  row_steps_inactive, row_steps_young, row_steps_countdown,
}

abbrev pub pass_table : Environment → Config → World → List Row
pass_table e cfg w = (process_lifecycle_milestones e cfg w).0.table

-- The same link, of the same age.
abbrev pub IsSameLink : Row → Row → Type 0
IsSameLink r r' =
    (r'.link_created_at ≡ r.link_created_at)
    × (r'.drive_id ≡ r.drive_id)
    × (r'.item_id ≡ r.item_id)
    × (r'.permission_id ≡ r.permission_id)
    × (r'.id ≡ r.id)

module _ (e : Environment) (cfg : Config) (w : World) (keyed : IsKeyed w.table) where
  pass-find :
      (k : ℕ) {r : Row}
      → find k w.table ≡ some r
      → find k (pass_table e cfg w) ≡ some (row_pass e cfg r)
  pass-find k h = (pass_rowwise e cfg w keyed).0 k ∙ ap (Option.map (row_pass e cfg)) h

  -- With one row to an id, and `max_days` in (178, 180]: an active row whose 180 days have passed
  -- and whose last column is null is 'expired_removed' after the pass, if Graph's answer
  -- counts as a removal; the row records the time and the result.
  pub expired-removed :
      (k : ℕ) {r : Row} {success : Bool}
      → 178 < cfg.max_days
      → cfg.max_days ≤ 180
      → find k w.table ≡ some r
      → IsExpired e cfg r
      → remove_sharing_permission (answer e cfg r) ≡ removed success
      → (r' : Row) × (find k (pass_table e cfg w) ≡ some r')
        × (r'.status ≡ expired_removed)
        × (r'.removal_succeeded ≡ some success)
        × (r'.removal_attempted_at ≡ some (e.now notified_180d))
        × (r'.notified notified_180d ≡ some (e.now notified_180d))
  unfolding set_milestone set_removed
  expired-removed k {r} {success} lo hi found due gone =
      let now = e.now notified_180d in
      (
        set_milestone now notified_180d (set_removed now success (at_removal e cfg r)),
        pass-find k found ∙ ap some (row_pass-removed e cfg r lo hi due gone),
        refl,
        refl,
        refl,
        refl,
      )

  -- Under the same conditions, but with an answer of Graph that counts as a failure: it is counted and
  -- recorded, the last column
  -- stays null, and the row stays active until the count reaches five, and is parked then.
  pub expired-failed :
      (k : ℕ) {r : Row} {message : String}
      → 178 < cfg.max_days
      → cfg.max_days ≤ 180
      → find k w.table ≡ some r
      → IsExpired e cfg r
      → remove_sharing_permission (answer e cfg r) ≡ failed message
      → (r' : Row) × (find k (pass_table e cfg w) ≡ some r')
        × (r'.removal_attempts ≡ some (attempts_after r))
        × (r'.status ≡ (if leb max_removal_attempts (attempts_after r) then error else active))
        × (r'.removal_error ≡ some message)
        × (r'.notified notified_180d ≡ none)
        × IsSameLink r r'
  unfolding set_failed
  expired-failed k {r} {message} lo hi found due lost =
      let quiet = at_removal-IsQuiet e cfg r lo in
      (
        set_failed (e.now notified_180d) message (attempts_after r) (at_removal e cfg r),
        pass-find k found ∙ ap some (row_pass-failed e cfg r lo hi due lost),
        refl,
        refl,
        refl,
        quiet.same_last ∙ due.1,
        (
          quiet.same_created, quiet.same_drive, quiet.same_item, quiet.same_permission,
          quiet.same_id,
        ),
      )

  -- With one row to an id, a pass changes no row that is not active: neither those that Microsoft
  -- expires, nor removed or parked ones.
  pub pass_inactive :
      (k : ℕ) {r : Row}
      → find k w.table ≡ some r
      → ¬ (r.status ≡ active)
      → find k (pass_table e cfg w) ≡ some r
  unfolding row_pass
  pass_inactive k {r} found h =
      pass-find k found ∙ ap some (row_steps_inactive e cfg milestones r h)

-- With one row to an id: a row that is active and younger than `max_days` days at every clock
-- reading of the pass is still active after it, whatever `max_days` is.
pub pass_not_early :
    (e : Environment) (cfg : Config) (w : World)
    → IsKeyed w.table
    → (k : ℕ) {r : Row} → find k w.table ≡ some r
    → r.status ≡ active
    → ((c : Column) → e.now c < r.link_created_at + cfg.max_days * seconds_per_day)
    → (r' : Row) × (find k (pass_table e cfg w) ≡ some r') × (r'.status ≡ active)
unfolding row_pass
pass_not_early e cfg w keyed k {r} found a young =
    (row_pass e cfg r, pass-find e cfg w keyed k found, row_steps_young e cfg milestones r a young)

-- With one row to an id and `max_days` over 180, no pass ever takes an active row out of 'active':
-- the last milestone, at 180 days, is then only a countdown notice, and the link is never removed.
pub pass_beyond_milestones :
    (e : Environment) (cfg : Config) (w : World)
    → IsKeyed w.table
    → 180 < cfg.max_days
    → (k : ℕ) {r : Row} → find k w.table ≡ some r
    → r.status ≡ active
    → (r' : Row) × (find k (pass_table e cfg w) ≡ some r') × (r'.status ≡ active)
unfolding row_pass
pass_beyond_milestones e cfg w keyed far k {r} found a = (
  row_pass e cfg r,
  pass-find e cfg w keyed k found,
  row_steps_countdown e cfg milestones r a (ground arith),
)

-- The passes of successive days.
unfoldable pub run_passes : List Environment → Config → World → World
run_passes [] cfg w = w
run_passes (e ∷ es) cfg w = run_passes es cfg (process_lifecycle_milestones e cfg w).0

-- The row is old enough for the pass, and Graph answers its removal with an error.
abbrev pub Fails : Config → Row → Environment → Type 0
Fails cfg r e =
    (r.link_created_at + 180 * seconds_per_day ≤ e.now notified_180d)
    × ((message : String) × (remove_sharing_permission (answer e cfg r) ≡ failed message))

Fails-same :
    (cfg : Config) (r r' : Row)
    → IsSameLink r r'
    → (es : List Environment) → All (Fails cfg r) es
    → All (Fails cfg r') es
Fails-same cfg r r' same [] f = tt
Fails-same cfg r r' same (e ∷ es) f = (
  (rw same.0 f.0.0, (f.0.1.0, rw (same.1, same.2, same.3, same.4) f.0.1.1)),
  Fails-same cfg r r' same es f.1,
)

next_count :
    (n : ℕ) (r r' : Row)
    → attempts_after r ≡ suc n
    → r'.removal_attempts ≡ some (attempts_after r)
    → attempts_after r' ≡ suc (suc n)
unfolding attempts_after
next_count n r r' h c = ground arith

-- With one row to an id and `max_days` in (178, 180]: if an active row with a null last column has failed
-- `n` times, and in each of the next passes, of which there is one at least, its 180 days have passed and
-- Graph fails its removal, the row is still active, with every failure counted, while
-- the total is under five, and is in 'error' as soon as it is five.
pub repeated_failures :
    (es : List Environment) (cfg : Config) (w : World) (k n : ℕ) (r : Row)
    → 178 < cfg.max_days
    → cfg.max_days ≤ 180
    → IsKeyed w.table
    → find k w.table ≡ some r
    → r.status ≡ active
    → r.notified notified_180d ≡ none
    → attempts_after r ≡ suc n
    → All (Fails cfg r) es
    → 0 < length es
    → n + length es ≤ max_removal_attempts
    → (r' : Row) × (find k (run_passes es cfg w).table ≡ some r')
      × (r'.removal_attempts ≡ some (n + length es))
      × (r'.status ≡ (if leb max_removal_attempts (n + length es) then error else active))
unfolding run_passes
repeated_failures [] cfg w k n r lo hi keyed found a null counted f ne room = absurd (omega arith)
repeated_failures (e ∷ []) cfg w k n r lo hi keyed found a null counted f ne room =
    let first = expired-failed e cfg w keyed k lo hi found (a, null, f.0.0) f.0.1.1 in
    (first.0, first.1, ground (arith, first.2), ground (arith, first.3))
repeated_failures (e ∷ e' ∷ es) cfg w k n r lo hi keyed found a null counted f ne room =
    let w1 = (process_lifecycle_milestones e cfg w).0 in
    let first = expired-failed e cfg w keyed k lo hi found (a, null, f.0.0) f.0.1.1 in
    let later =
      repeated_failures (e' ∷ es) cfg w1 k (suc n) first.0 lo hi (pass_rowwise e cfg w keyed).1
        first.1 (ground (arith, first.3)) first.5 (next_count n r first.0 counted first.2)
        (Fails-same cfg r first.0 first.6 (e' ∷ es) f.1) (omega arith) (omega arith) in
    (later.0, later.1, ground (arith, later.2), ground (arith, later.3))
