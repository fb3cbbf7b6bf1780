-- ===== src/Folder/Closed.antt =====
-- The events of a folder's files: each of them is closed when the loop is over.
use share_sentinel.Prelude.{
  ℕ, suc, ◌+◌, ◌≤◌, ◌<◌, ◌≡◌, refl, ap, ◌∙◌, String, true, false, Option, none, some, List, [], ◌∷◌,
  inl, inr, Bool-cases, length, arith, beq, eq_iff, eq_refl, ◌==◌,
}
use share_sentinel.Pipeline.SecondLook.{Response, escalates}
use share_sentinel.Pipeline.Record.{Database}
use share_sentinel.Worker.Events.{processing, failed, EventRow, Events, get_event, failure_reason}
use share_sentinel.Worker.Analysis.{value, raise}
use share_sentinel.Worker.Item.{Environment, Store, Run}
use share_sentinel.Worker.Rows.{HasRow}
use share_sentinel.Worker.Steps.{is_closed, IsEnded}
use share_sentinel.Worker.Ended.{process_single_file-IsSettled}
use share_sentinel.Worker.Frame.{update_event_status-Keeps, process_single_file-Keeps}
use share_sentinel.Folder.Items.{ChildItem, child_event_id, processed, flagged, new_child}
use share_sentinel.Folder.Children.{
  FolderJob, Batch, child_job, prefetched, answered, classified, process_child, process_children,
}
use share_sentinel.Folder.Counts.{create-cases, new_child-Keeps}
use share_sentinel.Folder.Quiet.{
  IsClosedAt, IsQuiet, IsStable, IsClosedAt-IsStable, IsQuiet-IsStable, quiet_there-IsClosedAt,
  progress-IsClosedAt, progress-IsThere, failed-IsClosedAt,
}

module _ (j : FolderJob) (now idx : ℕ) (item : ChildItem) (b : Batch) where
  abbrev child : String
  child = child_event_id j.event_id idx

  -- Counting the run of another event.
  classified-stable :
      (k : String) (P : Events → Type 0) (h : Option String) (run : Run)
      → IsStable k P
      → (child == k) ≡ false
      → P run.0.events
      → P (classified j now idx item h run b).store.events
  classified-stable k P h (st, value (some r)) stable other q = elim (Bool-cases (escalates r)) [
    | inl up ↦ rw up (
        stable.progress now j.event_id flagged _
          (stable.progress now j.event_id processed st.events q))
    | inr down ↦ rw down (stable.progress now j.event_id processed st.events q)
  ]
  classified-stable k P h (st, value none) stable other q =
      stable.progress now j.event_id processed st.events q
  classified-stable k P h (st, raise x) stable other q =
      stable.same _ _
        (update_event_status-Keeps now k child failed (failure_reason "unhandled_exception") _
          other)
        (stable.progress now j.event_id processed st.events q)

  answered-IsClosedAt :
      (h : Option String) (r : Response) (st : Store)
      → IsClosedAt child st.events
      → IsClosedAt child (answered j now idx item h r st b).store.events
  answered-IsClosedAt h r st c = elim (Bool-cases (escalates r)) [
    | inl up ↦ rw up (
        progress-IsClosedAt now child j.event_id flagged _
          (progress-IsClosedAt now child j.event_id processed st.events c))
    | inr down ↦ rw down (progress-IsClosedAt now child j.event_id processed st.events c)
  ]

  -- Counting its own run.
  classified-IsClosedAt :
      (h : Option String) (db : Database) (run : Run)
      → IsEnded child (some 0) processing db run
      → IsClosedAt child (classified j now idx item h run b).store.events
  classified-IsClosedAt h db (st, value (some r)) (s', row, (done, one)) =
      answered-IsClosedAt h r st (row.row, row.found, ap is_closed (row.status ∙ done))
  classified-IsClosedAt h db (st, value none) (s', row, (done, kept)) =
      progress-IsClosedAt now child j.event_id processed st.events
        (row.row, row.found, ap is_closed row.status ∙ done)
  classified-IsClosedAt h db (st, raise x) (s', row, kept) =
      failed-IsClosedAt now child "unhandled_exception" _
        (progress-IsThere now child j.event_id processed st.events (row.row, row.found))

module _ (j : FolderJob) (e : Environment) (idx : ℕ) (item : ChildItem) (b : Batch) where
  abbrev child_id : String
  child_id = child_event_id j.event_id idx

  abbrev new_row : EventRow
  new_row = new_child e.now j.event_id child_id item

  new-HasRow : HasRow child_id (some 0) processing (new_row ∷ b.store.events)
  unfolding get_event
  new-HasRow = record {
    row = new_row;
    found = ground (arith, eq_refl child_id);
    count = refl;
    status = refl;
  }

  -- A file's event that was closed or not there is closed behind its turn.
  process_child-IsClosedAt :
      IsQuiet child_id b.store.events
      → IsClosedAt child_id (process_child j e idx item b).store.events
  unfolding process_child
  process_child-IsClosedAt q = elim (create-cases e.now j.event_id child_id item b.store.events) [
    | inl (there, old) ↦
        rw (process_child, old)
          (progress-IsClosedAt e.now child_id j.event_id processed b.store.events
            (quiet_there-IsClosedAt child_id b.store.events q there))
    | inr (absent, new) ↦
        let (ends, fine) =
          process_single_file-IsSettled e (child_job j idx item) true (some 0) processing
            (some (prefetched item)) (record (b.store) { events = new_row ∷ b.store.events })
            new-HasRow in
        rw (process_child, new) (classified-IsClosedAt j e.now idx item b _ _ _ ends)
  ]

  -- Another event keeps what is stable.
  process_child-stable :
      (k : String) (P : Events → Type 0)
      → IsStable k P
      → (child_id == k) ≡ false
      → P b.store.events
      → P (process_child j e idx item b).store.events
  unfolding process_child
  process_child-stable k P stable other q =
      elim (create-cases e.now j.event_id child_id item b.store.events) [
        | inl (there, old) ↦
            rw (process_child, old) (stable.progress e.now j.event_id processed b.store.events q)
        | inr (absent, new) ↦
            let st = record (b.store) { events = new_row ∷ b.store.events } in
            let kept =
              process_single_file-Keeps e (child_job j idx item) true k other
                (some (prefetched item)) st
              ∙ new_child-Keeps e.now j.event_id k child_id item b.store.events other in
            rw (process_child, new)
              (classified-stable j e.now idx item b k P _ _ stable other
                (stable.same b.store.events _ kept q))
      ]

  -- A closed event stays closed, and one that is closed or not there stays so.
  process_child-keeps_closed :
      (k : String)
      → IsClosedAt k b.store.events
      → IsClosedAt k (process_child j e idx item b).store.events
  process_child-keeps_closed k c = elim (Bool-cases (child_id == k)) [
    | inl eq ↦
        let same : child_id ≡ k = (eq_iff child_id k).0 eq in
        rw (← same) (process_child-IsClosedAt (rw same (inr c)))
    | inr other ↦ process_child-stable k (IsClosedAt k) (IsClosedAt-IsStable k) other c
  ]

  process_child-IsQuiet :
      (k : String)
      → IsQuiet k b.store.events
      → IsQuiet k (process_child j e idx item b).store.events
  process_child-IsQuiet k q = elim (Bool-cases (child_id == k)) [
    | inl eq ↦
        let same : child_id ≡ k = (eq_iff child_id k).0 eq in
        rw (← same) (inr (process_child-IsClosedAt (rw same q)))
    | inr other ↦ process_child-stable k (IsQuiet k) (IsQuiet-IsStable k) other q
  ]

module _ (j : FolderJob) (env : ℕ → Environment) where
  process_children-keeps_closed :
      (k : String) (idx : ℕ) (items : List ChildItem) (b : Batch)
      → IsClosedAt k b.store.events
      → IsClosedAt k (process_children j env idx items b).store.events
  unfolding process_children
  process_children-keeps_closed k idx [] b c = c
  process_children-keeps_closed k idx (item ∷ items) b c =
      process_children-keeps_closed k (suc idx) items (process_child j (env idx) idx item b)
        (process_child-keeps_closed j (env idx) idx item b k c)

  -- When the loop is over, the event of each file whose event was closed or not there before is
  -- there and closed: completed, failed or parked for an inspection, whatever the services answered.
  pub process_children-IsClosedAt :
      (idx : ℕ) (items : List ChildItem) (b : Batch) (m : ℕ)
      → idx ≤ m
      → m < idx + length items
      → IsQuiet (child_event_id j.event_id m) b.store.events
      → IsClosedAt (child_event_id j.event_id m) (process_children j env idx items b).store.events
  unfolding process_children
  process_children-IsClosedAt idx [] b m lo hi q = absurd (omega arith)
  process_children-IsClosedAt idx (item ∷ items) b m lo hi q = elim (Bool-cases (beq idx m)) [
    | inl here ↦
        let same : idx ≡ m = ground (arith, here) in
        process_children-keeps_closed (child_event_id j.event_id m) (suc idx) items _
          (rw (← same) (process_child-IsClosedAt j (env idx) idx item b (rw same q)))
    | inr later ↦
        process_children-IsClosedAt (suc idx) items (process_child j (env idx) idx item b) m
          (ground (arith, later)) (omega arith)
          (process_child-IsQuiet j (env idx) idx item b (child_event_id j.event_id m) q)
  ]
