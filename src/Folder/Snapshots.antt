-- ===== src/Folder/Snapshots.antt =====
-- `_store_folder_content_snapshot` of services/worker/app/pipeline/orchestrator.py: the table
-- `folder_content_snapshots` after a folder is shared. Storing is taken to succeed; the state of the
-- rescans that it writes too is not modelled here.
use share_sentinel.Prelude.{
  ℕ, suc, String, Bool, ◌&&◌, Option, none, some, List, [], ◌∷◌, Codes, same_codes, ◌==◌,
  if◌then◌else◌,
}
use share_sentinel.Escalation.Tier.{Tier}
use share_sentinel.Pipeline.Record.{Snapshot}
use share_sentinel.Folder.Items.{ChildItem}
use share_sentinel.Folder.Children.{ChildResult}

-- `tier_by_name` and `hash_by_name`: of the results with a name, the last that has an entry.
unfoldable pub tier_by_name : Codes → List ChildResult → Option Tier
tier_by_name name [] = none
tier_by_name name (r ∷ rs) = elim (tier_by_name name rs) [
  | some t ↦ some t
  | none ↦ if same_codes r.file_name name then r.escalation_tier else none
]

unfoldable pub hash_by_name : Codes → List ChildResult → Option String
hash_by_name name [] = none
hash_by_name name (r ∷ rs) = elim (hash_by_name name rs) [
  | some h ↦ some h
  | none ↦ if same_codes r.file_name name then r.file_hash else none
]

abbrev pub or_old : Option String → Option String → Option String
or_old none old = old
or_old (some h) old = some h

abbrev pub is_row : String → String → Snapshot → Bool
is_row parent child s = s.parent_event_id == parent && s.child_item_id == child

abbrev pub rescanned : ℕ → ChildItem → List ChildResult → Snapshot → Snapshot
rescanned now c rs s = record s {
  child_name = c.name;
  child_ctag = c.ctag;
  last_verdict_tier = tier_by_name c.name rs;
  file_hash = or_old (hash_by_name c.name rs) s.file_hash;
  last_scanned_at = some now;
  times_scanned = suc s.times_scanned;
}

-- The row that INSERT makes: `last_scanned_at` is not among its columns.
abbrev pub first_scanned : String → ChildItem → List ChildResult → Snapshot
first_scanned parent c rs = record {
  parent_event_id = parent;
  child_item_id = c.id;
  child_name = c.name;
  child_ctag = c.ctag;
  file_hash = hash_by_name c.name rs;
  last_verdict_tier = tier_by_name c.name rs;
  last_scanned_at = none;
  times_scanned = 1;
  deleted_at = none;
}

-- INSERT of a row … ON CONFLICT (parent_event_id, child_item_id) DO UPDATE
unfoldable pub upsert : (Snapshot → Snapshot) → Snapshot → List Snapshot → List Snapshot
upsert f new [] = new ∷ []
upsert f new (s ∷ ss) =
    let rest = upsert f new ss in
    if is_row new.parent_event_id new.child_item_id s then f s ∷ ss else s ∷ rest

unfoldable pub store_folder_content_snapshot :
    ℕ → String → List ChildItem → List ChildResult → List Snapshot → List Snapshot
unfolding upsert tier_by_name hash_by_name
store_folder_content_snapshot now parent [] rs ss = ss
store_folder_content_snapshot now parent (c ∷ cs) rs ss =
    store_folder_content_snapshot now parent cs rs
      (upsert (rescanned now c rs) (first_scanned parent c rs) ss)
