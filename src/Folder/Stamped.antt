-- ===== src/Folder/Stamped.antt =====
-- The states of the folders that a cycle of rescans has gone through.
use share_sentinel.Prelude.{
  ◌≡◌, ◌≤◌, ◌+◌, ◌*◌, refl, ◌∙◌, ap, String, Bool, true, false, Option, none, some, List, [], ◌∷◌,
  ◌++◌, ℕ, suc, length, arith, All, All-map, inl, inr, Bool-cases, ◌==◌, Codes,
}
use share_sentinel.Lifecycle.Row
use share_sentinel.Folder.Items.{ChildItem}
use share_sentinel.Folder.Rescan.{
  RescanStatus, success, failed, link_removed, folder_deleted, RescanState, RescanWorld,
  FolderStats, FolderAnswer, Listed, gone, refused, listed, has_broad_link, update_rescan_state,
}
use share_sentinel.Folder.Unchanged.{enqueue_lem}
use share_sentinel.Folder.Cycle.{
  RescanStats, rescan_folder, new_files, modified_files, after_listing, after_link, after_children,
  checked, rescan_all, is_due, is_stale, find_due_folders, run_folder_rescan, no_folders,
}

-- All states of a folder have a last rescan at this time.
abbrev pub Stamped : ℕ → String → List RescanState → Type 0
Stamped now k states =
    All (λ r. (r.parent_event_id == k) ≡ true → r.last_rescan_at ≡ some now) states

update_own :
    (now : ℕ) (k : String) (s : RescanStatus) (n m t : ℕ) (states : List RescanState)
    → Stamped now k (update_rescan_state now k s n m t states)
unfolding update_rescan_state
update_own now k s n m t [] = tt
update_own now k s n m t (r ∷ rs) = (
  elim (Bool-cases (r.parent_event_id == k)) [
    | inl own ↦ rw own (λ e. refl)
    | inr other ↦ rw other (λ e. absurd (ground (arith, e, other)))
  ],
  update_own now k s n m t rs,
)

update_other :
    (now : ℕ) (k k' : String) (s : RescanStatus) (n m t : ℕ) (states : List RescanState)
    → Stamped now k states
    → Stamped now k (update_rescan_state now k' s n m t states)
unfolding update_rescan_state
update_other now k k' s n m t [] h = tt
update_other now k k' s n m t (r ∷ rs) (h, hs) = (
  elim (Bool-cases (r.parent_event_id == k')) [
    | inl own ↦ rw own (λ e. refl)
    | inr other ↦ rw other h
  ],
  update_other now k k' s n m t rs hs,
)

-- A step that writes the state of one folder.
abbrev Writes : ℕ → String → List RescanState → List RescanState → Type 0
Writes now k states states' =
    (s : RescanStatus) × (n : ℕ) × (m : ℕ) × (t : ℕ) × (states'
      ≡ update_rescan_state now k s n m t states)

module _ (now : ℕ) (event_id_of : String → String → String) (object_id : String → Codes) where
  abbrev Step : String → RescanWorld → RescanStats → RescanWorld × Option FolderStats → Type 0
  Step k w s r = Writes now k w.states (checked now event_id_of object_id k r s).0.states

  after_children-Writes :
      (k : String) (o : Option (List ChildItem)) (w : RescanWorld) (s : RescanStats)
      → Step k w s (after_children now event_id_of (object_id k) k o w)
  after_children-Writes k none w s = (failed, 0, 0, 0, refl)
  after_children-Writes k (some cs) w s = (
    success,
    _,
    _,
    _,
    ap (update_rescan_state now k success _ _ (length cs))
        (enqueue_lem now (event_id_of k) k (object_id k)
          (new_files now event_id_of (object_id k) k cs w
            ++ modified_files now event_id_of (object_id k) k cs w)
          w).1,
  )

  after_link-Writes :
      (k : String) (b : Option Bool) (o : Option (List ChildItem)) (w : RescanWorld)
      (s : RescanStats)
      → Step k w s (after_link now event_id_of (object_id k) k b o w)
  after_link-Writes k none o w s = (failed, 0, 0, 0, refl)
  after_link-Writes k (some false) o w s = (link_removed, 0, 0, 0, refl)
  after_link-Writes k (some true) o w s = after_children-Writes k o w s

  rescan_folder-Writes :
      (k : String) (a : FolderAnswer) (w : RescanWorld) (s : RescanStats)
      → Step k w s (rescan_folder now event_id_of (object_id k) a k w)
  unfolding rescan_folder
  rescan_folder-Writes k a w s = go a.permissions
    where
      go : (l : Listed) → Step k w s (after_listing now event_id_of (object_id k) k l a.children w)
      go gone = (folder_deleted, 0, 0, 0, refl)
      go refused = (failed, 0, 0, 0, refl)
      go (listed ps) = after_link-Writes k (has_broad_link ps) a.children w s

  Writes-own :
      (k : String) (states states' : List RescanState)
      → Writes now k states states'
      → Stamped now k states'
  Writes-own k states states' (s, n, m, t, e) = rw e (update_own now k s n m t states)

  Writes-other :
      (k k' : String) (states states' : List RescanState)
      → Writes now k' states states'
      → Stamped now k states
      → Stamped now k states'
  Writes-other k k' states states' (s, n, m, t, e) h = rw e (update_other now k k' s n m t states h)

  rescan_all-keeps :
      (answer : String → FolderAnswer) (k : String) (rs : List RescanState) (w : RescanWorld)
      (s : RescanStats)
      → Stamped now k w.states
      → Stamped now k (rescan_all now event_id_of object_id answer rs (w, s)).0.states
  unfolding rescan_all
  rescan_all-keeps answer k [] w s h = h
  rescan_all-keeps answer k (r ∷ rs) w s h = rescan_all-keeps answer k rs _ _ (
      Writes-other k r.parent_event_id w.states _
        (rescan_folder-Writes r.parent_event_id (answer r.parent_event_id) w s) h)

  -- The folders of a list, all stamped.
  pub rescan_all-Stamped :
      (answer : String → FolderAnswer) (rs : List RescanState) (w : RescanWorld) (s : RescanStats)
      → All
          (λ r.
            Stamped now r.parent_event_id
              (rescan_all now event_id_of object_id answer rs (w, s)).0.states)
          rs
  unfolding rescan_all
  rescan_all-Stamped answer [] w s = tt
  rescan_all-Stamped answer (r ∷ rs) w s = (
    rescan_all-keeps answer r.parent_event_id rs _ _ (
        Writes-own r.parent_event_id w.states _
          (rescan_folder-Writes r.parent_event_id (answer r.parent_event_id) w s)),
    rescan_all-Stamped answer rs _ _,
  )

  pub rescan_all-counts :
      (answer : String → FolderAnswer) (rs : List RescanState) (w : RescanWorld) (s : RescanStats)
      → let s' = (rescan_all now event_id_of object_id answer rs (w, s)).1 in
        s'.folders_checked + s'.errors ≡ length rs + (s.folders_checked + s.errors)
  unfolding rescan_all
  rescan_all-counts answer [] w s = omega arith
  rescan_all-counts answer (r ∷ rs) w s =
      let k = r.parent_event_id in
      let out = rescan_folder now event_id_of (object_id k) (answer k) k w in
      let next = checked now event_id_of object_id k out s in
      let one : next.1.folders_checked + next.1.errors ≡ suc (s.folders_checked + s.errors) =
        one_more k out s in
      omega (arith, rescan_all-counts answer rs next.0 next.1)
    where
      one_more :
          (k : String) (out : RescanWorld × Option FolderStats) (s : RescanStats)
          → let next = checked now event_id_of object_id k out s in
            next.1.folders_checked + next.1.errors ≡ suc (s.folders_checked + s.errors)
      one_more k (w', none) s = omega arith
      one_more k (w', some f) s = omega arith

Stamped-not_due :
    (now later hours : ℕ) (k : String) (links : List Row.Row) (all states : List RescanState)
    → later ≤ now + hours * 3600
    → Stamped now k states
    → All (λ r. (r.parent_event_id == k) ≡ true → is_due later hours links all r ≡ false) states
unfolding is_due
Stamped-not_due now later hours k links all [] soon h = tt
Stamped-not_due now later hours k links all (r ∷ rs) soon (h, hs) = (
  λ own.
      let stale : is_stale later hours r.last_rescan_at ≡ false =
        rw (h own) (ground (arith, soon)) in
      ground (arith, stale),
  Stamped-not_due now later hours k links all rs soon hs,
)

-- A cycle counts each folder that its query of the due ones returned, which are at most as many as a batch
-- has, as checked or as an error; and whatever Graph answers for them, none of these folders is due again
-- before its interval has passed since, in the states that the cycle leaves.
pub run_folder_rescan-not_due :
    (now later hours batch_size : ℕ) (event_id_of : String → String → String)
    (object_id : String → Codes) (links links' : List Row.Row) (answer : String → FolderAnswer)
    (w : RescanWorld)
    → later ≤ now + hours * 3600
    → let due = find_due_folders now hours batch_size links w.states in
      let (w', stats) =
        run_folder_rescan now event_id_of object_id hours batch_size links answer w in
      (stats.folders_checked + stats.errors ≡ length due)
      × All
          (λ r.
            All
              (λ r'.
                (r'.parent_event_id == r.parent_event_id) ≡ true
                → is_due later hours links' w'.states r' ≡ false)
              w'.states)
          due
unfolding run_folder_rescan
run_folder_rescan-not_due now later hours batch_size event_id_of object_id links links' answer w
      soon =
    let due = find_due_folders now hours batch_size links w.states in
    let out =
      rescan_all now event_id_of object_id answer due (w, no_folders now event_id_of object_id) in
    (
      rescan_all-counts now event_id_of object_id answer due w _ ∙ omega arith,
      All-map due
          (λ r h.
            Stamped-not_due now later hours r.parent_event_id links' out.0.states out.0.states soon
              h)
          (rescan_all-Stamped now event_id_of object_id answer due w _),
    )
