-- ===== src/Folder/Unchanged.antt =====
-- Rescans of a folder that has not changed: after a rescan, and after the folder was shared.
use share_sentinel.Prelude.{
  ◌≡◌, refl, ap, String, true, Option, some, List, [], ◌∷◌, ◌++◌, ℕ, length, arith, inl, inr,
  Bool-cases, Codes,
}
use share_sentinel.Prelude.Int.{ℤ, pos, minus}
use share_sentinel.Graph.{Permission}
use share_sentinel.Folder.Items.{ChildItem}
use share_sentinel.Folder.Rescan.{
  deleted_ids, distinct, is_set, enqueue, listed, has_broad_link, update_snapshot, RescanWorld,
  FolderStats, FolderAnswer,
}
use share_sentinel.Folder.Cycle.{new_files, modified_files, rescan_folder}
use share_sentinel.Folder.Recorded.{ids, Unique, Covered, Recorded, Covered-deleted_ids}
use share_sentinel.Folder.Again.{
  upsert_all-Recorded, update_snapshot-Covered, Recorded-new_files, Recorded-modified_files,
  length-distinct,
}

-- Graph lists a broad link to the folder, and these files.
abbrev pub Answers : FolderAnswer → List Permission → List ChildItem → Type 0
Answers a ps cs =
    (a.permissions ≡ listed ps) × (has_broad_link ps ≡ some true) × (a.children ≡ some cs)

-- A scan that finds all files as they were.
abbrev pub unchanged_stats : List ChildItem → FolderStats
unchanged_stats cs = record {
  new = 0;
  modified = 0;
  unchanged = pos (length cs);
  deleted = 0;
  link_removed = 0;
}

abbrev pub FindsNothing : RescanWorld → List ChildItem → RescanWorld × Option FolderStats → Type 0
FindsNothing w cs (w', stats) =
    (w'.jobs ≡ w.jobs) × (w'.keys ≡ w.keys) × (stats ≡ some (unchanged_stats cs))

pub Recorded-FindsNothing :
    (now : ℕ) (event_id_of : String → String → String) (object_id : Codes) (a : FolderAnswer)
    (parent : String) (ps : List Permission) (cs : List ChildItem) (w : RescanWorld)
    → Answers a ps cs
    → Unique cs
    → Recorded parent cs w.snapshots
    → Covered parent (distinct (ids cs)) w.snapshots
    → FindsNothing w cs (rescan_folder now event_id_of object_id a parent w)
unfolding rescan_folder enqueue
Recorded-FindsNothing now event_id_of object_id a parent ps cs w (listing, broad, children) unique r
      c =
    let new = Recorded-new_files parent cs w.snapshots r in
    let modified = Recorded-modified_files parent cs w.snapshots r in
    let deleted = Covered-deleted_ids parent (distinct (ids cs)) w.snapshots c in
    let same : minus (length (distinct (ids cs))) 0 ≡ pos (length cs) =
      rw (length-distinct cs unique) (ground arith) in
    rw (rescan_folder, listing, broad, children, new, modified, deleted)
      (
        refl,
        refl,
        ap
            (λ (u : ℤ).
              some (record { new = 0; modified = 0; unchanged = u; deleted = 0; link_removed = 0 }))
            same,
      )

pub enqueue_lem :
    (now : ℕ) (event_id_of : String → String) (parent : String) (object_id : Codes)
    (cs : List ChildItem) (w : RescanWorld)
    → ((enqueue now event_id_of parent object_id cs w).snapshots ≡ w.snapshots)
      × ((enqueue now event_id_of parent object_id cs w).states ≡ w.states)
unfolding enqueue
enqueue_lem now event_id_of parent object_id [] w = (refl, refl)
enqueue_lem now event_id_of parent object_id (c ∷ cs) w =
    elim (Bool-cases (is_set now (event_id_of c.id) w.keys)) [
      | inl set ↦ rw (enqueue, set) (enqueue_lem now event_id_of parent object_id cs w)
      | inr unset ↦ rw (enqueue, unset) (enqueue_lem now event_id_of parent object_id cs _)
    ]

snapshots-rescan_folder :
    (now : ℕ) (event_id_of : String → String → String) (object_id : Codes) (a : FolderAnswer)
    (parent : String) (ps : List Permission) (cs : List ChildItem) (w : RescanWorld)
    → Answers a ps cs
    → (rescan_folder now event_id_of object_id a parent w).0.snapshots
      ≡ update_snapshot now parent cs
          (deleted_ids parent (distinct (ids cs)) w.snapshots)
          w.snapshots
unfolding rescan_folder
snapshots-rescan_folder now event_id_of object_id a parent ps cs w (listing, broad, children) =
    rw (rescan_folder, listing, broad, children)
      (ap (update_snapshot now parent cs (deleted_ids parent (distinct (ids cs)) w.snapshots)) (
        (enqueue_lem now (event_id_of parent) parent object_id
          (new_files now event_id_of object_id parent cs w
            ++ modified_files now event_id_of object_id parent cs w)
          w).0))

-- After a rescan that has listed a folder's files, a rescan at any later time that finds the same files,
-- each under its own id and with the cTag it had, enqueues nothing and counts all of them as
-- unchanged.
pub rescan_again :
    (now later : ℕ) (event_id_of event_id_of' : String → String → String) (object_id : Codes)
    (a a' : FolderAnswer) (parent : String) (ps ps' : List Permission) (cs : List ChildItem)
    (w : RescanWorld)
    → Answers a ps cs
    → Answers a' ps' cs
    → Unique cs
    → let w' = (rescan_folder now event_id_of object_id a parent w).0 in
      FindsNothing w' cs (rescan_folder later event_id_of' object_id a' parent w')
unfolding update_snapshot
rescan_again now later event_id_of event_id_of' object_id a a' parent ps ps' cs w first again
      unique =
    let w' = (rescan_folder now event_id_of object_id a parent w).0 in
    let snapshots = snapshots-rescan_folder now event_id_of object_id a parent ps cs w first in
    Recorded-FindsNothing later event_id_of' object_id a' parent ps' cs w' again unique
      (rw snapshots (upsert_all-Recorded now parent cs _ unique))
      (rw snapshots (update_snapshot-Covered now parent cs w.snapshots))
