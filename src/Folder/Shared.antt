-- ===== src/Folder/Shared.antt =====
-- The first rescan of a folder after it was shared.
use share_sentinel.Prelude.{
  ◌≡◌, refl, ◌∙◌, String, true, false, List, [], ◌∷◌, ℕ, arith, elem, All, inl, inr, Bool-cases,
  eq_iff, eq_refl, ◌==◌, Codes,
}
use share_sentinel.Graph.{Permission}
use share_sentinel.Pipeline.Record.{Snapshot}
use share_sentinel.Folder.Items.{ChildItem}
use share_sentinel.Folder.Children.{ChildResult}
use share_sentinel.Folder.Snapshots.{
  is_row, upsert, rescanned, first_scanned, store_folder_content_snapshot,
}
use share_sentinel.Folder.Rescan.{is_live, snapshot_ctag, distinct, RescanWorld, FolderAnswer}
use share_sentinel.Folder.Cycle.{rescan_folder}
use share_sentinel.Folder.Recorded.{
  ids, Unique, elem-distinct, Covered, Recorded, upsert-Covered, upsert-other, upsert-own,
}
use share_sentinel.Folder.Again.{All_current}
use share_sentinel.Folder.Unchanged.{Answers, FindsNothing, Recorded-FindsNothing}

module _ (now : ℕ) (parent : String) (rs : List ChildResult) where
  abbrev write : ChildItem → Snapshot → Snapshot
  write c = rescanned now c rs

  abbrev new : ChildItem → Snapshot
  new c = first_scanned parent c rs

  -- A row of the folder that is not marked as deleted, if it is of the folder.
  abbrev Alive : Snapshot → Type 0
  Alive s = (s.parent_event_id == parent) ≡ true → is_live parent s ≡ true

  upsert-Alive :
      (c : ChildItem) (ss : List Snapshot) → All Alive ss → All Alive (upsert (write c) (new c) ss)
  unfolding upsert
  upsert-Alive c [] h = (λ e. ground (arith, e), tt)
  upsert-Alive c (s ∷ ss) (h, hs) = elim (Bool-cases (is_row parent c.id s)) [
    | inl hit ↦ rw hit (h, hs)
    | inr miss ↦ rw miss (h, upsert-Alive c ss hs)
  ]

  store-Covered :
      (current : List String) (cs : List ChildItem) (ss : List Snapshot)
      → All (λ c. elem c.id current ≡ true) cs
      → Covered parent current ss
      → Covered parent current (store_folder_content_snapshot now parent cs rs ss)
  unfolding store_folder_content_snapshot
  store-Covered current [] ss there h = h
  store-Covered current (c ∷ cs) ss (t, ts) h =
      store-Covered current cs _ ts
        (upsert-Covered parent (write c) (new c) current ss (λ s. (refl, refl)) t h)

  store-other :
      (x : String) (cs : List ChildItem) (ss : List Snapshot)
      → elem x (ids cs) ≡ false
      → snapshot_ctag parent x (store_folder_content_snapshot now parent cs rs ss)
        ≡ snapshot_ctag parent x ss
  unfolding store_folder_content_snapshot elem
  store-other x [] ss other = refl
  store-other x (c ∷ cs) ss other =
      store-other x cs _ (ground (arith, other))
      ∙ upsert-other parent (write c) (new c) x ss (λ s. (refl, refl))
          (ground (arith, other, eq_iff x c.id, eq_iff c.id x))

  store-Recorded :
      (cs : List ChildItem) (ss : List Snapshot)
      → Unique cs
      → All Alive ss
      → Recorded parent cs (store_folder_content_snapshot now parent cs rs ss)
  unfolding store_folder_content_snapshot
  store-Recorded [] ss unique alive = tt
  store-Recorded (c ∷ cs) ss (other, unique) alive = (
    store-other c.id cs _ other
        ∙ upsert-own parent (write c) (new c) c.ctag Alive ss (λ s. (refl, refl)) refl
            (refl, ground (arith, eq_refl parent))
            (λ s live hit. (refl, live (ground (arith, hit)))) alive,
    store-Recorded cs _ unique (upsert-Alive c ss alive),
  )

-- No row of the folder.
abbrev pub Fresh : String → List Snapshot → Type 0
Fresh parent ss = All (λ s. (s.parent_event_id == parent) ≡ false) ss

Fresh-Alive :
    (now : ℕ) (parent : String) (rs : List ChildResult) (ss : List Snapshot)
    → Fresh parent ss
    → All (Alive now parent rs) ss
Fresh-Alive now parent rs [] h = tt
Fresh-Alive now parent rs (s ∷ ss) (h, hs) =
    (λ e. ground (arith, h, e), Fresh-Alive now parent rs ss hs)

Fresh-Covered :
    (parent : String) (current : List String) (ss : List Snapshot)
    → Fresh parent ss
    → Covered parent current ss
Fresh-Covered parent current [] h = tt
Fresh-Covered parent current (s ∷ ss) (h, hs) =
    (ground (arith, h), Fresh-Covered parent current ss hs)

-- If the worker has stored the snapshot of a folder that had none, a rescan that finds the same files,
-- each under its own id and with the cTag it had, enqueues nothing and counts all of them as
-- unchanged, whatever the worker's results on them were.
pub rescan_shared :
    (now later : ℕ) (event_id_of : String → String → String) (object_id : Codes) (a : FolderAnswer)
    (parent : String) (ps : List Permission) (cs : List ChildItem) (rs : List ChildResult)
    (ss : List Snapshot) (w : RescanWorld)
    → Fresh parent ss
    → w.snapshots ≡ store_folder_content_snapshot now parent cs rs ss
    → Answers a ps cs
    → Unique cs
    → FindsNothing w cs (rescan_folder later event_id_of object_id a parent w)
rescan_shared now later event_id_of object_id a parent ps cs rs ss w fresh stored answers unique =
    Recorded-FindsNothing later event_id_of object_id a parent ps cs w answers unique
      (rw stored (store-Recorded now parent rs cs ss unique (Fresh-Alive now parent rs ss fresh)))
      (rw stored (
        store-Covered now parent rs (distinct (ids cs)) cs ss
          (All_current (distinct (ids cs)) cs (λ x e. elem-distinct x (ids cs) ∙ e))
          (Fresh-Covered parent (distinct (ids cs)) ss fresh)))
