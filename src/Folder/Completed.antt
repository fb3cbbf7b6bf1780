-- ===== src/Folder/Completed.antt =====
-- How a delivery of a folder's job ends.
use share_sentinel.Prelude.{
  ℕ, ◌+◌, ◌≡◌, ◌≢◌, refl, ap, ◌∙◌, String, not, ◌&&◌, Option, none, some, List, [], ◌∷◌, inl, inr,
  Bool-cases, length, arith,
}
use mathlib.Core.Option
use share_sentinel.Worker.Sharing.{SharingLink, has_active_sharing_links}
use share_sentinel.Worker.Events.{Status, processing, completed, Extra, or_zero, no_extra}
use share_sentinel.Worker.Analysis.{value}
use share_sentinel.Worker.Item.{Fetched, not_found, refused, crashed, item, Store, Run}
use share_sentinel.Worker.Job.{Config, World, clean_up, handled}
use share_sentinel.Worker.Rows.{
  HasRow, get-update, update-HasRow, update_event_status-HasRow, update_event_metadata-HasRow,
}
use share_sentinel.Worker.Finished.{IsClaimable, create_event_lem, claimed_job, clean_up-HasRow}
use share_sentinel.Folder.Items.{ChildItem, total, progressed, update_folder_progress}
use share_sentinel.Folder.Children.{FolderJob, Batch, process_children}
use share_sentinel.Folder.Tracks.{Tracks, equal-Tracks}
use share_sentinel.Folder.Counts.{counted, process_children-IsTallied}
use share_sentinel.Folder.Share.{
  FolderEnvironment, finish, with_flag, flag, concluded, start_batch, with_total, after_enumeration,
  folder_gate, after_folder_fetch, handle_folder_share, process_folder,
}

module _ (e : FolderEnvironment) (j : FolderJob) (n : Option ℕ) where
  abbrev Before : Store → Type 0
  Before st = HasRow j.event_id n processing st.events

  -- A run that has answered and completed the folder's event.
  abbrev pub IsDone : Run → Type 0
  IsDone run = (run.1 ≡ value none) × HasRow j.event_id n completed run.0.events

  finish-IsDone :
      (x : Extra) (s : Status) (st : Store)
      → HasRow j.event_id n s st.events
      → IsDone (finish e j x st)
  finish-IsDone x s st h =
      (refl, update_event_status-HasRow e.now j.event_id n s completed x st.events h)

  flag-IsDone : (st : Store) → Before st → IsDone (flag e j st)
  unfolding flag
  flag-IsDone st h = finish-IsDone no_extra processing (with_flag e j st) h

  total-HasRow : (m : ℕ) (st : Store) → Before st → Before (with_total e j m st)
  unfolding update_folder_progress
  total-HasRow m st h =
      update-HasRow (progressed e.now (total m)) j.event_id n processing processing st.events
        (λ r. refl) (λ r. refl) (λ r p. p) h

  -- What the loop starts from.
  start-Tracks :
      (m : ℕ) (st : Store) (h : Before st)
      → Tracks j.event_id n processing
          (some m)
          (or_zero h.row.folder_processed_children)
          (or_zero h.row.folder_flagged_children)
          (with_total e j m st).events
  unfolding update_folder_progress
  start-Tracks m st h = record {
    row = progressed e.now (total m) h.row;
    found =
        get-update (progressed e.now (total m)) j.event_id st.events (λ r. refl)
        ∙ ap (Option.map (progressed e.now (total m))) h.found;
    count = h.count;
    status = h.status;
    total = refl;
    processed = refl;
    flagged = refl;
  }

  -- The loop over all files of the folder.
  abbrev pub all_children : List ChildItem → Store → Batch
  all_children items st =
      process_children j e.child_environment 0 items
        (start_batch e j (with_total e j (length items) st))

  pub all_children_lem :
      (items : List ChildItem) (st : Store) (h : Before st)
      → Tracks j.event_id n processing
          (some (length items))
          (or_zero h.row.folder_processed_children + counted (all_children items st))
          (or_zero h.row.folder_flagged_children + (all_children items st).flagged_count)
          (all_children items st).store.events
        × (counted (all_children items st) ≡ length items)
  all_children_lem items st h =
      let p0 = or_zero h.row.folder_processed_children in
      let f0 = or_zero h.row.folder_flagged_children in
      let t =
        equal-Tracks _ _ _ _ p0 (p0 + 0) f0 (f0 + 0) _ (omega arith) (omega arith)
          (start-Tracks (length items) st h) in
      let (t', all) =
        process_children-IsTallied j n processing (some (length items)) p0 f0 e.child_environment 0
          items (start_batch e j (with_total e j (length items) st)) t in
      (t', omega arith)

  after_enumeration-IsDone :
      (o : Option (List ChildItem)) (st : Store) → Before st → IsDone (after_enumeration e j o st)
  unfolding concluded
  after_enumeration-IsDone none st h = flag-IsDone st h
  after_enumeration-IsDone (some []) st h = flag-IsDone _ (total-HasRow 0 st h)
  after_enumeration-IsDone (some (c ∷ cs)) st h =
      let (t, all) = all_children_lem (c ∷ cs) st h in
      finish-IsDone no_extra processing (concluded e j (c ∷ cs) (all_children (c ∷ cs) st))
        (record { row = t.row; found = t.found; count = t.count; status = t.status })

  folder_gate-IsDone :
      (links : Option (List SharingLink)) (st : Store)
      → Before st
      → IsDone (folder_gate e j links st)
  folder_gate-IsDone links st h =
      elim (Bool-cases
        (not j.force_analysis && not (has_active_sharing_links e.parse_expiration e.now links))) [
          | inl shut ↦ rw shut (finish-IsDone _ processing st h)
          | inr passes ↦ rw passes (after_enumeration-IsDone e.children st h)
        ]

  after_folder_fetch-IsDone :
      (f : Fetched) (st : Store) → f ≢ crashed → Before st → IsDone (after_folder_fetch e j f st)
  after_folder_fetch-IsDone not_found st fine h = flag-IsDone st h
  after_folder_fetch-IsDone refused st fine h = flag-IsDone st h
  after_folder_fetch-IsDone crashed st fine h = absurd (fine refl)
  after_folder_fetch-IsDone (item name d i ps) st fine h =
      folder_gate-IsDone _ _
        (update_event_metadata-HasRow e.now j.event_id d i n processing st.events h)

  pub handle_folder_share-IsDone :
      (st : Store) → e.fetched ≢ crashed → Before st → IsDone (handle_folder_share e j st)
  unfolding handle_folder_share
  handle_folder_share-IsDone st fine h = after_folder_fetch-IsDone e.fetched st fine h

pub answered_job :
    (cfg : Config) (now : ℕ) (k : String) (n : Option ℕ) (run : Run) (w : World)
    → run.1 ≡ value none
    → clean_up cfg now k (handled cfg now k run w) ≡ clean_up cfg now k (record w { store = run.0 })
answered_job cfg now k n (st, r) w p = rw p refl

-- Unless the fetch of the folder's metadata ends in an exception that the handler does not name, a
-- delivery that claims a folder's event completes it, whatever the enumeration and the files end in,
-- with its retries as they were: it is not queued again, and no failure is told.
pub process_folder_completed :
    (cfg : Config) (e : FolderEnvironment) (j : FolderJob) (n : Option ℕ) (w : World)
    → IsClaimable j.event_id n w.store.events
    → e.fetched ≢ crashed
    → HasRow j.event_id n completed (process_folder cfg e j w).store.events
      × ((process_folder cfg e j w).pushes ≡ w.pushes)
      × ((process_folder cfg e j w).notices ≡ w.notices)
unfolding clean_up
process_folder_completed cfg e j n w c fine =
    let (new, h) = create_event_lem e.now j.event_id n w.store.events c in
    let (p, h') = handle_folder_share-IsDone e j n _ fine h in
    let run = handle_folder_share e j (record (w.store) { events = _ }) in
    rw
      (claimed_job cfg e.now j.event_id (handle_folder_share e j) w new
        ∙ answered_job cfg e.now j.event_id n run w p)
      (clean_up-HasRow cfg e.now j.event_id n completed (record w { store = run.0 }) h', refl, refl)
