-- ===== src/Folder/Cycle.antt =====
-- `_rescan_folder`, the selection of `_find_due_folders` and `run_folder_rescan` of
-- services/lifecycle-cron/app/folder_rescan.py. A cycle reads the clock once. The join with the events
-- of the folders is left out: a state is of an event.
use share_sentinel.Prelude.{
  ℕ, zero, suc, ◌+◌, ◌*◌, String, Bool, true, false, not, ◌&&◌, Option, none, some, List, [], ◌∷◌,
  ◌++◌, Codes, map, any, filter, length, ltb, leb, ◌==◌, if◌then◌else◌,
}
use share_sentinel.Prelude.Int.{ℤ, pos, minus, ◌+ℤ◌}
use share_sentinel.Lifecycle.Row
use share_sentinel.Folder.Items.{ChildItem}
use share_sentinel.Folder.Rescan.{
  RescanStatus, success, failed, link_removed, folder_deleted, no_metadata, excluded_too_large,
  RescanState, RescanWorld, FolderStats, Listed, gone, refused, listed, FolderAnswer,
  has_broad_link, no_stats, snapshot_ctag, is_new, is_modified, distinct, deleted_ids, enqueue,
  update_snapshot, update_rescan_state,
}

-- Run: the clock, the digests of the run, and what the folder's job says besides the file.
module _ (now : ℕ) (event_id_of : String → String → String) (object_id : Codes) where
  abbrev set_state : String → RescanStatus → ℕ → ℕ → ℕ → RescanWorld → RescanWorld
  set_state parent status new modified total w = record w {
    states = update_rescan_state now parent status new modified total w.states;
  }

  abbrev pub new_files : String → List ChildItem → RescanWorld → List ChildItem
  new_files parent cs w = filter (λ c. is_new (snapshot_ctag parent c.id w.snapshots)) cs

  abbrev pub modified_files : String → List ChildItem → RescanWorld → List ChildItem
  modified_files parent cs w =
      filter (λ c. is_modified c.ctag (snapshot_ctag parent c.id w.snapshots)) cs

  abbrev pub current_ids : List ChildItem → List String
  current_ids cs = distinct (map (λ c. c.id) cs)

  abbrev pub diff_stats : String → List ChildItem → RescanWorld → FolderStats
  diff_stats parent cs w = record {
    new = length (new_files parent cs w);
    modified = length (modified_files parent cs w);
    unchanged =
        minus (length (current_ids cs))
          (length (new_files parent cs w) + length (modified_files parent cs w));
    deleted = length (distinct (deleted_ids parent (current_ids cs) w.snapshots));
    link_removed = 0;
  }

  -- Steps 5 to 7.
  abbrev pub rescanned : String → List ChildItem → RescanWorld → RescanWorld
  rescanned parent cs w =
      let stats = diff_stats parent cs w in
      let w' =
        enqueue now (event_id_of parent) parent object_id
          (new_files parent cs w ++ modified_files parent cs w) w in
      set_state parent success stats.new stats.modified (length cs) (record w' {
        snapshots =
            update_snapshot now parent cs (deleted_ids parent (current_ids cs) w.snapshots)
              w'.snapshots;
      })

  abbrev pub after_children :
      String → Option (List ChildItem) → RescanWorld → RescanWorld × Option FolderStats
  after_children parent none w = (w, none)
  after_children parent (some cs) w = (rescanned parent cs w, some (diff_stats parent cs w))

  abbrev pub after_link :
      String
      → Option Bool
      → Option (List ChildItem)
      → RescanWorld
      → RescanWorld × Option FolderStats
  after_link parent none children w = (w, none)
  after_link parent (some false) children w =
      (set_state parent link_removed 0 0 0 w, some (record no_stats { link_removed = 1 }))
  after_link parent (some true) children w = after_children parent children w

  abbrev pub after_listing :
      String → Listed → Option (List ChildItem) → RescanWorld → RescanWorld × Option FolderStats
  after_listing parent gone children w = (set_state parent folder_deleted 0 0 0 w, some no_stats)
  after_listing parent refused children w = (w, none)
  after_listing parent (listed ps) children w = after_link parent (has_broad_link ps) children w

  -- The world, and the stats or the exception.
  unfoldable pub rescan_folder :
      FolderAnswer → String → RescanWorld → RescanWorld × Option FolderStats
  unfolding has_broad_link snapshot_ctag distinct deleted_ids enqueue update_snapshot
      update_rescan_state
  rescan_folder a parent w = after_listing parent a.permissions a.children w

pub record RescanStats : Type 0 where
  pub folders_checked : ℕ
  pub new_files : ℕ
  pub modified_files : ℕ
  pub unchanged_files : ℤ
  pub deleted_files : ℕ
  pub links_removed : ℕ
  pub errors : ℕ

abbrev pub counted_folder : FolderStats → RescanStats → RescanStats
counted_folder f s = record {
  folders_checked = suc s.folders_checked;
  new_files = s.new_files + f.new;
  modified_files = s.modified_files + f.modified;
  unchanged_files = s.unchanged_files +ℤ f.unchanged;
  deleted_files = s.deleted_files + f.deleted;
  links_removed = s.links_removed + f.link_removed;
  errors = s.errors;
}

abbrev pub is_excluded : RescanStatus → Bool
is_excluded link_removed = true
is_excluded folder_deleted = true
is_excluded no_metadata = true
is_excluded excluded_too_large = true
is_excluded _ = false

abbrev is_too_large : RescanStatus → Bool
is_too_large excluded_too_large = true
is_too_large _ = false

-- `last_rescan_at < NOW() - interval`, or null
abbrev pub is_stale : (now hours : ℕ) → Option ℕ → Bool
is_stale now hours none = true
is_stale now hours (some t) = ltb (t + hours * 3600) now

abbrev is_active : Row.Status → Bool
is_active Row.active = true
is_active _ = false

-- The folder is too large under another event.
abbrev is_excluded_elsewhere : RescanState → RescanState → Bool
is_excluded_elsewhere r r' =
    r'.folder_drive_id == r.folder_drive_id
    && (r'.folder_item_id == r.folder_item_id
        && (is_too_large r'.last_rescan_status && not (r'.parent_event_id == r.parent_event_id)))

unfoldable pub is_due : (now hours : ℕ) → List Row.Row → List RescanState → RescanState → Bool
is_due now hours links states r =
    not (is_excluded r.last_rescan_status)
    && (is_stale now hours r.last_rescan_at
        && (any (λ l. l.event_id == r.parent_event_id && is_active l.status) links
            && not (any (is_excluded_elsewhere r) states)))

-- ORDER BY last_rescan_at ASC NULLS FIRST
abbrev rank : RescanState → ℕ
rank r = elim r.last_rescan_at [ none ↦ 0 | some t ↦ suc t ]

unfoldable pub insert_state : RescanState → List RescanState → List RescanState
insert_state r [] = r ∷ []
insert_state r (s ∷ ss) =
    let rest = insert_state r ss in if leb (rank r) (rank s) then r ∷ s ∷ ss else s ∷ rest

unfoldable pub sort_states : List RescanState → List RescanState
unfolding insert_state
sort_states [] = []
sort_states (r ∷ rs) = insert_state r (sort_states rs)

-- LIMIT
unfoldable pub limit : ℕ → List RescanState → List RescanState
limit zero rs = []
limit (suc n) [] = []
limit (suc n) (r ∷ rs) = r ∷ limit n rs

unfoldable pub find_due_folders :
    (now interval_hours batch_size : ℕ) → List Row.Row → List RescanState → List RescanState
unfolding is_due sort_states limit
find_due_folders now interval_hours batch_size links states =
    limit batch_size (sort_states (filter (is_due now interval_hours links states) states))

module _ (now : ℕ) (event_id_of : String → String → String) (object_id : String → Codes) where
  abbrev pub checked :
      String → RescanWorld × Option FolderStats → RescanStats → RescanWorld × RescanStats
  checked parent (w, none) s = (
    record w { states = update_rescan_state now parent failed 0 0 0 w.states },
    record s { errors = suc s.errors },
  )
  checked parent (w, some f) s = (w, counted_folder f s)

  -- The loop over the due folders.
  unfoldable pub rescan_all :
      (String → FolderAnswer)
      → List RescanState
      → RescanWorld × RescanStats
      → RescanWorld × RescanStats
  unfolding rescan_folder update_rescan_state
  rescan_all answer [] s = s
  rescan_all answer (r ∷ rs) (w, s) =
      let k = r.parent_event_id in
      rescan_all answer rs
        (checked k (rescan_folder now event_id_of (object_id k) (answer k) k w) s)

  abbrev pub no_folders : RescanStats
  no_folders = record {
    folders_checked = 0;
    new_files = 0;
    modified_files = 0;
    unchanged_files = pos 0;
    deleted_files = 0;
    links_removed = 0;
    errors = 0;
  }

  unfoldable pub run_folder_rescan :
      (interval_hours batch_size : ℕ)
      → List Row.Row
      → (String → FolderAnswer)
      → RescanWorld
      → RescanWorld × RescanStats
  unfolding rescan_all find_due_folders
  run_folder_rescan interval_hours batch_size links answer w =
      rescan_all answer (find_due_folders now interval_hours batch_size links w.states)
        (w, no_folders)
