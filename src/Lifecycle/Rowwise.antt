-- ===== src/Lifecycle/Rowwise.antt =====
-- A pass over the table is a step of each row by itself: the query, its order and the updates by
-- id come to `row_pass` on the row of every id.
use mathlib.Core.Option
use share_sentinel.Prelude.{
  ℕ, ◌≤◌, ◌≡◌, refl, ◌∙◌, true, false, Bool-cases, inl, inr, Option, none, some, String, Bool, List,
  [], ◌∷◌, arith, beq, leb, filter, if◌then◌else◌,
}
use share_sentinel.Lifecycle.Row.{Row, Table, update, find}
use share_sentinel.Lifecycle.Processor.{
  Milestone, milestones, Config, Environment, World, Stats, returns, raises, removed, failed,
  remove_sharing_permission, is_due, fetch_due_rows, set_milestone, mark_milestone, user_email,
  process_notification, set_removed, attempts_after, set_failed, send_removal_notice,
  finish_notification, notify, finish_removal, process_removal, Removal, Sending, process_row,
  count_row, process_rows, is_skipped, process_milestone, process_milestones,
  process_lifecycle_milestones,
}
use share_sentinel.Lifecycle.Table.{
  count, IsKeyed, find-update, count-update, count-filter-le, count-order, find-order, keep_if,
  find-none_of_count, find-filter,
}

module _ (e : Environment) (cfg : Config) where
  -- What a handler writes to a row `r`, given the row as it was fetched.
  unfoldable pub removal_effect : Milestone → Row → Removal → Row → Row
  unfolding set_milestone set_removed set_failed attempts_after
  removal_effect m fetched (removed success) r =
      set_milestone (e.now m.column) m.column (set_removed (e.now m.column) success r)
  removal_effect m fetched (failed message) r =
      set_failed (e.now m.column) message (attempts_after fetched) r

  unfoldable pub notification_effect : Milestone → Option String → Sending → Row → Row
  unfolding set_milestone
  notification_effect m none _ r = set_milestone (e.now m.column) m.column r
  notification_effect m (some _) (returns true) r = set_milestone (e.now m.column) m.column r
  notification_effect m (some _) _ r = r

  unfoldable pub effect : Milestone → Row → Row → Row
  effect m fetched =
      if leb cfg.max_days m.days
      then removal_effect m fetched (
          remove_sharing_permission
            (e.delete m.column fetched.id fetched.drive_id fetched.item_id fetched.permission_id))
      else notification_effect m (user_email fetched) (e.send m.column fetched)

  -- A milestone, and a pass, for one row.
  unfoldable pub row_step : Milestone → Row → Row
  row_step m r =
      if is_skipped e cfg m then r else if is_due (e.now m.column) m r then effect m r r else r

  unfoldable pub row_steps : List Milestone → Row → Row
  row_steps [] r = r
  row_steps (m ∷ ms) r = row_steps ms (row_step m r)

  unfoldable pub row_pass : Row → Row
  row_pass = row_steps milestones

  -- One handler call writes the row of its id, and no other.
  abbrev Writes : ℕ → (Row → Row) → Table → Table → Type 0
  Writes j f t t' =
      ((k : ℕ) → find k t' ≡ (if beq j k then Option.map f (find k t) else find k t))
      × ((k : ℕ) → count k t' ≡ count k t)

  update-Writes :
      (j : ℕ) (f : Row → Row) (t : Table)
      → ((r : Row) → (f r).id ≡ r.id)
      → Writes j f t (update j f t)
  update-Writes j f t h = (λ k. find-update j k f t h, λ k. count-update j k f t h)

  refl-Writes : (j : ℕ) (t : Table) → Writes j (λ r. r) t t
  refl-Writes j t = (λ k. same (find k t) (beq j k), λ k. refl)
    where
      same : (o : Option Row) (b : Bool) → o ≡ (if b then Option.map (λ r. r) o else o)
      same none b = ground arith
      same (some r) b = ground arith

  Writes-then :
      (j : ℕ) (f g : Row → Row) (t t' t'' : Table)
      → Writes j f t t'
      → Writes j g t' t''
      → Writes j (λ r. g (f r)) t t''
  Writes-then j f g t t' t'' p q =
      (λ k. ground (arith, p.0 k, q.0 k), λ k. ground (arith, p.1 k, q.1 k))

  table-send_removal_notice :
      (m : Milestone) (r : Row) (w : World) → (send_removal_notice e cfg m r w).0.table ≡ w.table
  unfolding send_removal_notice
  table-send_removal_notice m r w = ground arith

  finish_removal-Writes :
      (m : Milestone) (r : Row) (w : World) (x : Removal)
      → Writes r.id (removal_effect m r x) w.table (finish_removal e cfg m r w x).0.table
  unfolding finish_removal removal_effect mark_milestone
  finish_removal-Writes m r w (failed message) = update-Writes r.id _ w.table (λ x. refl)
  finish_removal-Writes m r w (removed success) =
      let gone = update r.id (set_removed (e.now m.column) success) w.table in
      rw table-send_removal_notice (
        Writes-then r.id _ _ w.table gone _ (update-Writes r.id _ w.table (λ x. refl))
          (update-Writes r.id _ gone (λ x. refl)))

  finish_notification-Writes :
      (m : Milestone) (r : Row) (w : World) (a : String) (x : Sending)
      → Writes r.id
          (notification_effect m (some a) x)
          w.table
          (finish_notification e cfg m r w x).0.table
  unfolding finish_notification notification_effect mark_milestone
  finish_notification-Writes m r w a (returns true) = update-Writes r.id _ w.table (λ x. refl)
  finish_notification-Writes m r w a (returns false) = refl-Writes r.id w.table
  finish_notification-Writes m r w a raises = refl-Writes r.id w.table

  notify-Writes :
      (m : Milestone) (r : Row) (w : World) (a : Option String)
      → Writes r.id
          (notification_effect m a (e.send m.column r))
          w.table
          (notify e cfg m r w a).0.table
  unfolding notify notification_effect mark_milestone
  notify-Writes m r w none = update-Writes r.id _ w.table (λ x. refl)
  notify-Writes m r w (some a) = finish_notification-Writes m r _ a (e.send m.column r)

  process_row-Writes :
      (m : Milestone) (r : Row) (w : World)
      → Writes r.id (effect m r) w.table (process_row e cfg m r w).0.table
  unfolding process_row process_removal process_notification effect
  process_row-Writes m r w = elim (Bool-cases (leb cfg.max_days m.days)) [
    | inl removal ↦ rw removal (finish_removal-Writes m r _ _)
    | inr countdown ↦ rw countdown (notify-Writes m r w (user_email r))
  ]

  -- The effect of the fetched row of an id, if one was fetched.
  abbrev pick : Milestone → Option Row → Option Row → Option Row
  pick m none o = o
  pick m (some fetched) o = Option.map (effect m fetched) o

  find-process_rows :
      (k : ℕ) (m : Milestone) (rs : List Row) (w : World) (s : Stats)
      → count k rs ≤ 1
      → find k (process_rows e cfg m rs (w, s)).0.table ≡ pick m (find k rs) (find k w.table)
  unfolding process_rows find count
  find-process_rows k m [] w s h = refl
  find-process_rows k m (r ∷ rs) w s h =
      let (w', done) = process_row e cfg m r w in
      ground (
        arith,
        find-process_rows k m rs w' (count_row e cfg m done s),
        (process_row-Writes m r w).0 k,
        find-none_of_count k rs,
      )

  count-process_rows :
      (k : ℕ) (m : Milestone) (rs : List Row) (w : World) (s : Stats)
      → count k (process_rows e cfg m rs (w, s)).0.table ≡ count k w.table
  unfolding process_rows
  count-process_rows k m [] w s = refl
  count-process_rows k m (r ∷ rs) w s =
      let (w', done) = process_row e cfg m r w in
      count-process_rows k m rs w' (count_row e cfg m done s) ∙ (process_row-Writes m r w).1 k

  -- The fetched row of an id is the row of the table, if that is due.
  find-fetch_due_rows :
      (k : ℕ) (m : Milestone) (now : ℕ) (t : Table)
      → IsKeyed t
      → (find k (fetch_due_rows now m t) ≡ keep_if (is_due now m) (find k t))
        × (count k (fetch_due_rows now m t) ≤ 1)
  unfolding fetch_due_rows
  find-fetch_due_rows k m now t h =
      let due = filter (is_due now m) t in
      let few : count k due ≤ 1 = omega (arith, count-filter-le k (is_due now m) t, h.once k) in
      (
        find-order k due few ∙ find-filter k (is_due now m) t (h.once k),
        omega (arith, count-order k due),
      )

  find-process_milestone :
      (k : ℕ) (m : Milestone) (w : World) (s : Stats)
      → IsKeyed w.table
      → find k (process_milestone e cfg m (w, s)).0.table ≡ Option.map (row_step m) (find k w.table)
  unfolding process_milestone row_step
  find-process_milestone k m w s h =
      let now = e.now m.column in
      let fetched = find-fetch_due_rows k m now w.table h in
      ground (arith, find-process_rows k m (fetch_due_rows now m w.table) w s fetched.1, fetched)

  process_milestone-IsKeyed :
      (m : Milestone) (w : World) (s : Stats)
      → IsKeyed w.table
      → IsKeyed (process_milestone e cfg m (w, s)).0.table
  unfolding process_milestone
  process_milestone-IsKeyed m w s h = record {
    once = λ k.
        ground
          (arith, h.once k, count-process_rows k m (fetch_due_rows (e.now m.column) m w.table) w s);
  }

  process_milestones_rowwise :
      (k : ℕ) (ms : List Milestone) (w : World) (s : Stats)
      → IsKeyed w.table
      → (find k (process_milestones e cfg ms (w, s)).0.table
          ≡ Option.map (row_steps ms) (find k w.table))
        × IsKeyed (process_milestones e cfg ms (w, s)).0.table
  unfolding process_milestones row_steps
  process_milestones_rowwise k [] w s h = (map_id (find k w.table), h)
    where
      map_id : (o : Option Row) → o ≡ Option.map (λ r. r) o
      map_id none = refl
      map_id (some r) = refl
  process_milestones_rowwise k (m ∷ ms) w s h =
      let (w', s') = process_milestone e cfg m (w, s) in
      let later = process_milestones_rowwise k ms w' s' (process_milestone-IsKeyed m w s h) in
      (ground (arith, later.0, find-process_milestone k m w s h), later.1)

-- For a table with one row to an id, a pass of the lifecycle processor takes the row of every id
-- through `row_pass`, which looks at that row alone, adds and drops no id, and leaves one row to an
-- id.
pub pass_rowwise :
    (e : Environment) (cfg : Config) (w : World)
    → IsKeyed w.table
    → ((k : ℕ)
        → find k (process_lifecycle_milestones e cfg w).0.table
          ≡ Option.map (row_pass e cfg) (find k w.table))
      × IsKeyed (process_lifecycle_milestones e cfg w).0.table
unfolding process_lifecycle_milestones row_pass
pass_rowwise e cfg w h = (
  λ k. (process_milestones_rowwise e cfg k milestones w _ h).0,
  (process_milestones_rowwise e cfg 0 milestones w _ h).1,
)
