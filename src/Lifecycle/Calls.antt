-- ===== src/Lifecycle/Calls.antt =====
-- The calls that a pass makes outside the table: the DELETE requests to Graph and the mails.
use share_sentinel.Prelude.{
  ℕ, ◌+◌, ◌*◌, ◌≤◌, ◌≡◌, refl, ◌∙◌, true, false, Bool-cases, inl, inr, Option, List, [], ◌∷◌, ◌++◌,
  All, filter, arith, leb, if◌then◌else◌,
}
use share_sentinel.Lifecycle.Row.{active, Column, Row}
use share_sentinel.Lifecycle.Processor.{
  Milestone, milestones, Config, Environment, Email, World, Stats, Removal, removed, failed, is_due,
  insert_by_created, order_by_created, fetch_due_rows, finish_notification, notify,
  process_notification, send_removal_notice, finish_removal, process_removal, process_row,
  count_row, process_rows, is_skipped, process_milestone, process_milestones,
  process_lifecycle_milestones, seconds_per_day,
}

module _ (P : Row → Type 0) where
  All-append : (xs ys : List Row) → All P xs → All P ys → All P (xs ++ ys)
  All-append [] ys p q = q
  All-append (x ∷ xs) ys p q = (p.0, All-append xs ys p.1 q)

  All-insert : (r : Row) (xs : List Row) → P r → All P xs → All P (insert_by_created r xs)
  unfolding insert_by_created
  All-insert r [] p q = (p, tt)
  All-insert r (x ∷ xs) p q = ground (arith, All-insert r xs p q.1)

  All-order : (xs : List Row) → All P xs → All P (order_by_created xs)
  unfolding order_by_created
  All-order [] q = tt
  All-order (x ∷ xs) q = All-insert x (order_by_created xs) q.0 (All-order xs q.1)

All-due :
    (now : ℕ) (m : Milestone) (t : List Row)
    → All (λ r. is_due now m r ≡ true) (filter (is_due now m) t)
All-due now m [] = tt
All-due now m (r ∷ t) = elim (Bool-cases (is_due now m r)) [
  | inl due ↦ rw due (due, All-due now m t)
  | inr not_due ↦ rw not_due (All-due now m t)
]

module _ (e : Environment) (cfg : Config) where
  deletions-finish_removal :
      (m : Milestone) (r : Row) (w : World) (x : Removal)
      → (finish_removal e cfg m r w x).0.deletions ≡ w.deletions
  unfolding finish_removal send_removal_notice
  deletions-finish_removal m r w (removed success) = ground arith
  deletions-finish_removal m r w (failed message) = refl

  deletions-notify :
      (m : Milestone) (r : Row) (w : World) (a : Option _)
      → (notify e cfg m r w a).0.deletions ≡ w.deletions
  unfolding notify finish_notification
  deletions-notify m r w a = ground arith

  -- A handler asks for the deletion of its row, or of none.
  deletions-process_row :
      (m : Milestone) (r : Row) (w : World)
      → (process_row e cfg m r w).0.deletions
        ≡ (if leb cfg.max_days m.days then w.deletions ++ r ∷ [] else w.deletions)
  unfolding process_row process_removal process_notification
  deletions-process_row m r w = elim (Bool-cases (leb cfg.max_days m.days)) [
    | inl removal ↦ rw removal (deletions-finish_removal m r _ _)
    | inr countdown ↦ rw countdown (deletions-notify m r w _)
  ]

  module _ (t : ℕ) (clock : (c : Column) → e.now c ≤ t) where
    -- The row was active, and at least `max_days` days old.
    abbrev pub IsOverdue : Row → Type 0
    IsOverdue r = (r.status ≡ active) × (r.link_created_at + cfg.max_days * seconds_per_day ≤ t)

    process_row-IsOverdue :
        (m : Milestone) (r : Row) (w : World)
        → is_due (e.now m.column) m r ≡ true
        → All IsOverdue w.deletions
        → All IsOverdue (process_row e cfg m r w).0.deletions
    unfolding is_due
    process_row-IsOverdue m r w due h = elim (Bool-cases (leb cfg.max_days m.days)) [
      | inl removal ↦
          rw (deletions-process_row m r w, removal)
            (All-append _ w.deletions _ h
              ((ground (arith, clock m.column), ground (arith, clock m.column)), tt))
      | inr countdown ↦ rw (deletions-process_row m r w, countdown) h
    ]

    process_rows-IsOverdue :
        (m : Milestone) (rs : List Row) (w : World) (s : Stats)
        → All (λ r. is_due (e.now m.column) m r ≡ true) rs
        → All IsOverdue w.deletions
        → All IsOverdue (process_rows e cfg m rs (w, s)).0.deletions
    unfolding process_rows
    process_rows-IsOverdue m [] w s d h = h
    process_rows-IsOverdue m (r ∷ rs) w s d h =
        process_rows-IsOverdue m rs _ _ d.1 (process_row-IsOverdue m r w d.0 h)

    process_milestone-IsOverdue :
        (m : Milestone) (w : World) (s : Stats)
        → All IsOverdue w.deletions
        → All IsOverdue (process_milestone e cfg m (w, s)).0.deletions
    unfolding process_milestone fetch_due_rows
    process_milestone-IsOverdue m w s h = elim (Bool-cases (is_skipped e cfg m)) [
      | inl skip ↦ rw (skip, process_milestone) h
      | inr run ↦
          rw (run, process_milestone)
            (process_rows-IsOverdue m _ w s (All-order _ _ (All-due _ m w.table)) h)
    ]

    process_milestones-IsOverdue :
        (ms : List Milestone) (w : World) (s : Stats)
        → All IsOverdue w.deletions
        → All IsOverdue (process_milestones e cfg ms (w, s)).0.deletions
    unfolding process_milestones
    process_milestones-IsOverdue [] w s h = h
    process_milestones-IsOverdue (m ∷ ms) w s h =
        process_milestones-IsOverdue ms _ _ (process_milestone-IsOverdue m w s h)

  module _ (disabled : cfg.lifecycle_notifications_enabled ≡ false) (mails : List Email) where
    -- No mail beyond `mails`, and the two counters agree.
    abbrev IsSilent : World × Stats → Type 0
    IsSilent (w, s) = (w.emails ≡ mails) × (s.notifications_sent ≡ s.links_removed)

    emails-finish_removal :
        (m : Milestone) (r : Row) (w : World) (x : Removal)
        → (finish_removal e cfg m r w x).0.emails ≡ w.emails
    unfolding finish_removal send_removal_notice
    emails-finish_removal m r w (removed success) = ground arith
    emails-finish_removal m r w (failed message) = refl

    emails-process_row :
        (m : Milestone) (r : Row) (w : World)
        → leb cfg.max_days m.days ≡ true
        → (process_row e cfg m r w).0.emails ≡ w.emails
    unfolding process_row process_removal
    emails-process_row m r w h = rw h (emails-finish_removal m r _ _)

    process_rows-IsSilent :
        (m : Milestone) (rs : List Row) (w : World) (s : Stats)
        → leb cfg.max_days m.days ≡ true
        → IsSilent (w, s)
        → IsSilent (process_rows e cfg m rs (w, s))
    unfolding process_rows count_row
    process_rows-IsSilent m [] w s h q = q
    process_rows-IsSilent m (r ∷ rs) w s h q =
        let (w', done) = process_row e cfg m r w in
        process_rows-IsSilent m rs w' (count_row e cfg m done s) h
          (emails-process_row m r w h ∙ q.0, ground (arith, Bool-cases done))

    process_milestone-IsSilent :
        (m : Milestone) (w : World) (s : Stats)
        → IsSilent (w, s)
        → IsSilent (process_milestone e cfg m (w, s))
    unfolding process_milestone is_skipped
    process_milestone-IsSilent m w s q =
        ground (arith, process_rows-IsSilent m (fetch_due_rows (e.now m.column) m w.table) w s)

    process_milestones-IsSilent :
        (ms : List Milestone) (w : World) (s : Stats)
        → IsSilent (w, s)
        → IsSilent (process_milestones e cfg ms (w, s))
    unfolding process_milestones
    process_milestones-IsSilent [] w s q = q
    process_milestones-IsSilent (m ∷ ms) w s q =
        process_milestones-IsSilent ms _ _ (process_milestone-IsSilent m w s q)

-- If the clock of the pass never passes `t`, every DELETE that the pass sends to Graph is for a
-- row that was active and at least `max_days` days old at `t`, whatever the table holds.
pub deletions_overdue :
    (e : Environment) (cfg : Config) (w : World) (t : ℕ)
    → ((c : Column) → e.now c ≤ t)
    → w.deletions ≡ []
    → All
        (λ r. (r.status ≡ active) × (r.link_created_at + cfg.max_days * seconds_per_day ≤ t))
        (process_lifecycle_milestones e cfg w).0.deletions
unfolding process_lifecycle_milestones
deletions_overdue e cfg w t clock h =
    process_milestones-IsOverdue e cfg t clock milestones w _ (rw h tt)

-- With owner notifications disabled a pass sends no mail at all, and yet reports as many
-- notifications sent as links removed.
pub disabled_pass :
    (e : Environment) (cfg : Config) (w : World)
    → cfg.lifecycle_notifications_enabled ≡ false
    → let (w', s) = process_lifecycle_milestones e cfg w in
      (w'.emails ≡ w.emails) × (s.notifications_sent ≡ s.links_removed)
unfolding process_lifecycle_milestones
disabled_pass e cfg w h = process_milestones-IsSilent e cfg h w.emails milestones w _ (refl, refl)
