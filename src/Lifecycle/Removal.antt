-- ===== src/Lifecycle/Removal.antt =====
-- When the pass removes links: `process_removal` seen from the row, and the retry cap.
use share_sentinel.Prelude.{
  ◌+◌, ◌*◌, ◌≤◌, ◌<◌, String, ◌≡◌, ◌⊎◌, refl, Bool, false, none, List, [], ◌∷◌, All, arith,
}
use share_sentinel.Lifecycle.Row.{active, Column, notified_180d, same_column, Row}
use share_sentinel.Lifecycle.Processor.{
  Milestone, Config, Environment, removed, failed, remove_sharing_permission, is_due, set_milestone,
  set_removed, attempts_after, set_failed, is_skipped, countdowns, removal_milestone, Response,
  seconds_per_day,
}
use share_sentinel.Lifecycle.Rowwise.{
  removal_effect, notification_effect, effect, row_step, row_steps, row_pass,
}

module _ (e : Environment) (cfg : Config) where
  -- A row that is not active is left alone.
  row_step_inactive : (m : Milestone) (r : Row) → ¬ (r.status ≡ active) → row_step e cfg m r ≡ r
  unfolding row_step is_due
  row_step_inactive m r h = ground arith

  -- A countdown milestone writes nothing but its own column.
  row_step_countdown :
      (m : Milestone) (r : Row)
      → m.days < cfg.max_days
      → (row_step e cfg m r ≡ r) ⊎ (row_step e cfg m r ≡ set_milestone (e.now m.column) m.column r)
  unfolding row_step effect notification_effect
  row_step_countdown m r h = ground arith

-- What the five countdown milestones leave alone.
pub record IsQuiet (r r' : Row) : Type 0 where
  pub same_status : r'.status ≡ r.status
  pub same_attempts : r'.removal_attempts ≡ r.removal_attempts
  pub same_created : r'.link_created_at ≡ r.link_created_at
  pub same_id : r'.id ≡ r.id
  pub same_drive : r'.drive_id ≡ r.drive_id
  pub same_item : r'.item_id ≡ r.item_id
  pub same_permission : r'.permission_id ≡ r.permission_id
  pub same_last : r'.notified notified_180d ≡ r.notified notified_180d

IsQuiet-trans : {a b c : Row} → IsQuiet a b → IsQuiet b c → IsQuiet a c
IsQuiet-trans p q = ground arith

module _ (e : Environment) (cfg : Config) where
  countdown-IsQuiet :
      (m : Milestone) (r : Row)
      → m.days < cfg.max_days
      → same_column m.column notified_180d ≡ false
      → IsQuiet r (row_step e cfg m r)
  unfolding set_milestone
  countdown-IsQuiet m r h c = ground (arith, row_step_countdown e cfg m r h)

  -- The row that the removal milestone meets.
  abbrev pub at_removal : Row → Row
  at_removal r = row_steps e cfg countdowns r

  row_pass-at_removal :
      (r : Row) → row_pass e cfg r ≡ row_step e cfg removal_milestone (at_removal r)
  unfolding row_pass row_steps
  row_pass-at_removal r = refl

  steps-IsQuiet :
      (ms : List Milestone) (r : Row)
      → All (λ m. (m.days < cfg.max_days) × (same_column m.column notified_180d ≡ false)) ms
      → IsQuiet r (row_steps e cfg ms r)
  unfolding row_steps
  steps-IsQuiet [] r h = ground arith
  steps-IsQuiet (m ∷ ms) r h =
      IsQuiet-trans (countdown-IsQuiet m r h.0.0 h.0.1) (steps-IsQuiet ms (row_step e cfg m r) h.1)

  pub at_removal-IsQuiet : (r : Row) → 178 < cfg.max_days → IsQuiet r (at_removal r)
  at_removal-IsQuiet r h = steps-IsQuiet countdowns r (ground arith)

  abbrev pub answer : Row → Response
  answer r = e.delete notified_180d r.id r.drive_id r.item_id r.permission_id

  -- The row is due for removal, and so far was not removed.
  abbrev pub IsExpired : Row → Type 0
  IsExpired r =
      (r.status ≡ active)
      × (r.notified notified_180d ≡ none)
      × (r.link_created_at + 180 * seconds_per_day ≤ e.now notified_180d)

  pub row_pass-removed :
      (r : Row) {success : Bool}
      → 178 < cfg.max_days
      → cfg.max_days ≤ 180
      → IsExpired r
      → remove_sharing_permission (answer r) ≡ removed success
      → let now = e.now notified_180d in
        row_pass e cfg r ≡ set_milestone now notified_180d (set_removed now success (at_removal r))
  unfolding row_step is_due is_skipped effect removal_effect
  row_pass-removed r lo hi h gone = rw row_pass-at_removal (ground (arith, at_removal-IsQuiet r lo))

  pub row_pass-failed :
      (r : Row) {message : String}
      → 178 < cfg.max_days
      → cfg.max_days ≤ 180
      → IsExpired r
      → remove_sharing_permission (answer r) ≡ failed message
      → row_pass e cfg r
        ≡ set_failed (e.now notified_180d) message (attempts_after r) (at_removal r)
  unfolding row_step is_due is_skipped effect removal_effect attempts_after
  row_pass-failed r lo hi h lost = rw row_pass-at_removal (ground (arith, at_removal-IsQuiet r lo))

  pub row_steps_inactive :
      (ms : List Milestone) (r : Row) → ¬ (r.status ≡ active) → row_steps e cfg ms r ≡ r
  unfolding row_steps
  row_steps_inactive [] r h = refl
  row_steps_inactive (m ∷ ms) r h = rw (row_step_inactive e cfg m r h) (row_steps_inactive ms r h)

  young_step :
      (m : Milestone) (r : Row)
      → r.status ≡ active
      → ((c : Column) → e.now c < r.link_created_at + cfg.max_days * seconds_per_day)
      → ((row_step e cfg m r).status ≡ active)
        × ((row_step e cfg m r).link_created_at ≡ r.link_created_at)
  unfolding row_step is_due effect notification_effect removal_effect set_milestone
  young_step m r a young = ground (arith, young m.column)

  -- A link younger than `max_days` days stays active.
  pub row_steps_young :
      (ms : List Milestone) (r : Row)
      → r.status ≡ active
      → ((c : Column) → e.now c < r.link_created_at + cfg.max_days * seconds_per_day)
      → ((row_steps e cfg ms r).status ≡ active)
  unfolding row_steps
  row_steps_young [] r a young = a
  row_steps_young (m ∷ ms) r a young =
      let (still, created) = young_step m r a young in
      row_steps_young ms (row_step e cfg m r) still (λ c. rw created (young c))

  countdown_step :
      (m : Milestone) (r : Row)
      → r.status ≡ active
      → m.days < cfg.max_days
      → (row_step e cfg m r).status ≡ active
  unfolding set_milestone
  countdown_step m r a h = ground (arith, row_step_countdown e cfg m r h)

  -- Milestones before `max_days` leave a link active.
  pub row_steps_countdown :
      (ms : List Milestone) (r : Row)
      → r.status ≡ active
      → All (λ m. m.days < cfg.max_days) ms
      → (row_steps e cfg ms r).status ≡ active
  unfolding row_steps
  row_steps_countdown [] r a h = a
  row_steps_countdown (m ∷ ms) r a h =
      row_steps_countdown ms (row_step e cfg m r) (countdown_step m r a h.0) h.1
