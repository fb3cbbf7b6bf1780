-- ===== src/Folder/Enumerated.antt =====
-- What the delivery of a new folder event counts.
use share_sentinel.Prelude.{
  ℕ, ◌+◌, ◌≡◌, refl, ap, ◌∙◌, String, true, false, not, ◌&&◌, ◌||◌, Option, none, some, List, ◌∷◌,
  Codes, inl, length, arith, eq_refl,
}
use share_sentinel.Graph.{Permission}
use share_sentinel.Worker.Sharing.{has_active_sharing_links}
use share_sentinel.Worker.Events.{
  Status, processing, completed, EventRow, Events, Extra, get_event, new_event, update_event_status,
  update_event_metadata, create_event, written, no_extra, temp_file_deleted, failure_reason,
}
use share_sentinel.Worker.Item.{item, Store}
use share_sentinel.Worker.Job.{Config, World, status_of, current_status, clean_up, handled}
use share_sentinel.Worker.Rows.{HasRow, get-update}
use share_sentinel.Worker.Finished.{create_event_lem, claimed_job}
use share_sentinel.Folder.Items.{ChildItem}
use share_sentinel.Folder.Children.{FolderJob, Batch}
use share_sentinel.Folder.Tracks.{Tracks, equal-Tracks, update-Tracks}
use share_sentinel.Folder.Counts.{counted}
use share_sentinel.Folder.Share.{
  FolderEnvironment, conclude_folder, concluded, folder_links, handle_folder_share, process_folder,
}
use share_sentinel.Folder.Completed.{all_children, all_children_lem}

written-Tracks :
    (now : ℕ) (k : String) (n : Option ℕ) (s s' : Status) (x : Extra) (o : Option ℕ) (p f : ℕ)
    (es : Events)
    → Tracks k n s o p f es
    → Tracks k n s' o p f (update_event_status now k s' x es)
unfolding update_event_status
written-Tracks now k n s s' no_extra o p f es t =
    update-Tracks (written now s' no_extra) k n s s' o p p f f es (λ e. refl) (λ e. refl)
      (λ e. refl) (λ e h. refl) (λ e h. h) (λ e h. h) t
written-Tracks now k n s s' temp_file_deleted o p f es t =
    update-Tracks (written now s' temp_file_deleted) k n s s' o p p f f es (λ e. refl) (λ e. refl)
      (λ e. refl) (λ e h. refl) (λ e h. h) (λ e h. h) t
written-Tracks now k n s s' (failure_reason r) o p f es t =
    update-Tracks (written now s' (failure_reason r)) k n s s' o p p f f es (λ e. refl) (λ e. refl)
      (λ e. refl) (λ e h. refl) (λ e h. h) (λ e h. h) t

clean_up-Tracks :
    (cfg : Config) (now : ℕ) (k : String) (n : Option ℕ) (s : Status) (o : Option ℕ) (p f : ℕ)
    (w : World)
    → Tracks k n s o p f w.store.events
    → Tracks k n s o p f (clean_up cfg now k w).store.events
unfolding clean_up
clean_up-Tracks cfg now k n s o p f w t =
    let same : current_status cfg now k w ≡ s = ap status_of t.found ∙ t.status in
    rw (clean_up, same) (written-Tracks now k n s s temp_file_deleted o p f w.store.events t)

module _ (e : FolderEnvironment) (j : FolderJob) where
  -- The row of a new event with the folder's ids.
  abbrev claimed_row : String → String → EventRow
  claimed_row d i = record (new_event e.now j.event_id) {
    drive_id = some d;
    item_id_graph = some i;
    updated_at = e.now;
  }

  -- The store that the enumeration starts from.
  abbrev pub located : String → String → Store → Store
  located d i st = record st {
    events = update_event_metadata e.now j.event_id d i (create_event e.now j.event_id st.events).0;
  }

  located-HasRow :
      (d i : String) (st : Store)
      → get_event j.event_id st.events ≡ none
      → get_event j.event_id (located d i st).events ≡ some (claimed_row d i)
  unfolding update_event_metadata create_event get_event
  located-HasRow d i st absent =
      get-update _ j.event_id (create_event e.now j.event_id st.events).0 (λ r. refl)
      ∙ rw (absent, create_event) (ground (arith, eq_refl j.event_id))

  -- The loop over the files of a folder that is new.
  abbrev pub batch_of : String → String → List ChildItem → Store → Batch
  batch_of d i items st = all_children e j (some 0) items (located d i st)

  -- The folder's metadata is found, and it is analyzed for itself or a link to it is active.
  abbrev pub Passes : Codes → String → String → Option (List Permission) → Type 0
  Passes name d i ps =
      (e.fetched ≡ item name d i ps)
      × ((j.force_analysis
            || has_active_sharing_links e.parse_expiration e.now (folder_links e j d i ps))
          ≡ true)

  pub handle_folder_share-Passes :
      (name : Codes) (d i : String) (ps : Option (List Permission)) (c : ChildItem)
      (cs : List ChildItem) (st : Store)
      → Passes name d i ps
      → e.children ≡ some (c ∷ cs)
      → handle_folder_share e j (record st { events = (create_event e.now j.event_id st.events).0 })
        ≡ conclude_folder e j (c ∷ cs) (batch_of d i (c ∷ cs) st)
  unfolding handle_folder_share
  handle_folder_share-Passes name d i ps c cs st (f, goes) ch =
      let gate : (not j.force_analysis
            && not (has_active_sharing_links e.parse_expiration e.now (folder_links e j d i ps)))
          ≡ false =
        ground (arith, goes) in
      rw (handle_folder_share, f, gate, ch) refl

-- The first delivery of a folder's event, if the folder is found, passes the gate and has files,
-- completes the event; its row then tells how many files there are, that all of them were processed,
-- and how many were flagged; each file was counted once, as flagged, clean or failed, and the
-- verdicts and alerts are those that these counts and the results of the files give.
pub process_folder-counted :
    (cfg : Config) (e : FolderEnvironment) (j : FolderJob) (w : World) (name : Codes) (d i : String)
    (ps : Option (List Permission)) (c : ChildItem) (cs : List ChildItem)
    → get_event j.event_id w.store.events ≡ none
    → Passes e j name d i ps
    → e.children ≡ some (c ∷ cs)
    → Tracks j.event_id
        (some 0)
        completed
        (some (length (c ∷ cs)))
        (length (c ∷ cs))
        (batch_of e j d i (c ∷ cs) w.store).flagged_count
        (process_folder cfg e j w).store.events
      × (counted (batch_of e j d i (c ∷ cs) w.store) ≡ length (c ∷ cs))
      × ((process_folder cfg e j w).store.db
          ≡ (concluded e j (c ∷ cs) (batch_of e j d i (c ∷ cs) w.store)).db)
unfolding clean_up concluded
process_folder-counted cfg e j w name d i ps c cs absent passes ch =
    let (new, h) = create_event_lem e.now j.event_id (some 0) w.store.events (inl (absent, refl)) in
    let run = conclude_folder e j (c ∷ cs) (batch_of e j d i (c ∷ cs) w.store) in
    let found : HasRow j.event_id (some 0) processing (located e j d i w.store).events = record {
      row = claimed_row e j d i;
      found = located-HasRow e j d i w.store absent;
      count = refl;
      status = refl;
    } in
    let (t, all) = all_children_lem e j (some 0) (c ∷ cs) (located e j d i w.store) found in
    let b = batch_of e j d i (c ∷ cs) w.store in
    let p : 0 + counted b ≡ length (c ∷ cs) = omega arith in
    let f : 0 + b.flagged_count ≡ b.flagged_count = omega arith in
    let t' = equal-Tracks _ _ _ _ _ _ _ _ _ p f t in
    rw
      (claimed_job cfg e.now j.event_id (handle_folder_share e j) w new
        ∙ ap (λ r. clean_up cfg e.now j.event_id (handled cfg e.now j.event_id r w))
            (handle_folder_share-Passes e j name d i ps c cs w.store passes ch))
      (
        clean_up-Tracks cfg e.now j.event_id (some 0) completed _ _ _ (record w { store = run.0 })
            (written-Tracks e.now j.event_id (some 0) processing completed no_extra _ _ _ _ t'),
        all,
        refl,
      )
