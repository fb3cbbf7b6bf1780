-- ===== src/Folder/Rescan.antt =====
-- services/lifecycle-cron/app/folder_rescan.py: the rescan of one folder and a cycle over the due ones.
-- The digest of an event id is a function, and so are the answers of Graph. The queries of
-- `_find_due_folders` that fill in rows are not modelled, only the one that selects the due folders.
use share_sentinel.Prelude.{
  ℕ, suc, ◌+◌, String, Bool, true, false, not, ◌&&◌, ◌||◌, Option, none, some, List, [], ◌∷◌, ◌++◌,
  Codes, elem, ltb, ◌==◌, if◌then◌else◌,
}
use share_sentinel.Prelude.Int.{ℤ, pos}
use share_sentinel.Graph.{Field, missing, null, value, Link, Permission, lower_or, is_broad}
use share_sentinel.Pipeline.Record.{Snapshot}
use share_sentinel.Folder.Items.{ChildItem}
use share_sentinel.Folder.Snapshots.{upsert}

pub data RescanStatus : Type 0 where
  pending success failed link_removed folder_deleted no_metadata excluded_too_large : RescanStatus

-- A row of `folder_rescan_state`.
pub record RescanState : Type 0 where
  pub parent_event_id : String
  pub folder_drive_id : String
  pub folder_item_id : String
  pub last_rescan_at : Option ℕ
  pub last_rescan_status : RescanStatus
  pub new_files_found : ℕ
  pub modified_files_found : ℕ
  pub total_files : ℕ

-- A job for the worker, by its event and the parts of it that tell the file.
pub record RescanJob : Type 0 where
  pub event_id : String
  pub rescan_parent_event_id : String
  pub file_name : Codes
  pub object_id : Codes

-- Redis holds the jobs, and the keys of the deduplication with their times of expiry.
pub record RescanWorld : Type 0 where
  pub snapshots : List Snapshot
  pub states : List RescanState
  pub jobs : List RescanJob
  pub keys : List (String × ℕ)

pub record FolderStats : Type 0 where
  pub new : ℕ
  pub modified : ℕ
  pub unchanged : ℤ
  pub deleted : ℕ
  pub link_removed : ℕ

-- How listing the permissions ends; `gone` is an error whose text has "404" or "Not Found".
pub data Listed : Type 0 where
  gone refused : Listed
  listed : List Permission → Listed

-- What Graph answers for a folder; the enumeration is none if it fails.
pub record FolderAnswer : Type 0 where
  pub permissions : Listed
  pub children : Option (List ChildItem)

abbrev pub no_stats : FolderStats
no_stats = record { new = 0; modified = 0; unchanged = pos 0; deleted = 0; link_removed = 0 }

abbrev link_scope : Field (Option Link) → Option Codes
link_scope missing = some []
link_scope null = none
link_scope (value none) = some []
link_scope (value (some l)) = lower_or [] l.scope

-- None stands for the exception of a null.
unfoldable pub has_broad_link : List Permission → Option Bool
has_broad_link [] = some false
has_broad_link (p ∷ ps) = elim (link_scope p.link) [
  | none ↦ none
  | some scope ↦ if is_broad scope then some true else has_broad_link ps
]

abbrev pub is_null : Option ℕ → Bool
is_null none = true
is_null (some _) = false

-- A row of the folder that is not marked as deleted.
abbrev pub is_live : String → Snapshot → Bool
is_live parent s = s.parent_event_id == parent && is_null s.deleted_at

-- The entry of `snapshot_map`: its cTag. A child has one row in a folder.
unfoldable pub snapshot_ctag : String → String → List Snapshot → Option String
snapshot_ctag parent child [] = none
snapshot_ctag parent child (s ∷ ss) =
    if is_live parent s && s.child_item_id == child
    then some s.child_ctag
    else snapshot_ctag parent child ss

abbrev pub is_new : Option String → Bool
is_new none = true
is_new (some _) = false

abbrev pub is_modified : String → Option String → Bool
is_modified ctag none = false
is_modified ctag (some old) = not (old == ctag)

-- `snapshot_map.keys() - current_ids`
unfoldable pub deleted_ids : String → List String → List Snapshot → List String
deleted_ids parent current_ids [] = []
deleted_ids parent current_ids (s ∷ ss) =
    let rest = deleted_ids parent current_ids ss in
    if is_live parent s && not (elem s.child_item_id current_ids)
    then s.child_item_id ∷ rest
    else rest

-- The members of a set.
unfoldable pub distinct : List String → List String
distinct [] = []
distinct (x ∷ xs) = let rest = distinct xs in if elem x rest then rest else x ∷ rest

abbrev pub dedup_ttl_seconds : ℕ
dedup_ttl_seconds = 86_400

unfoldable pub is_set : ℕ → String → List (String × ℕ) → Bool
is_set now k [] = false
is_set now k ((k', expires) ∷ keys) = (k' == k && ltb now expires) || is_set now k keys

abbrev pub rescan_job : String → String → Codes → ChildItem → RescanJob
rescan_job event_id parent object_id c = record {
  event_id = event_id;
  rescan_parent_event_id = parent;
  file_name = c.name;
  object_id = elim c.web_url [ [] ↦ object_id | x ∷ xs ↦ x ∷ xs ];
}

abbrev pub enqueue_child : ℕ → String → String → Codes → ChildItem → RescanWorld → RescanWorld
enqueue_child now event_id parent object_id c w =
    if is_set now event_id w.keys then w else record w {
      keys = (event_id, now + dedup_ttl_seconds) ∷ w.keys;
      jobs = w.jobs ++ rescan_job event_id parent object_id c ∷ [];
    }

-- Step 5. `event_id_of` is the digest of the folder's event, the file and the run.
unfoldable pub enqueue :
    ℕ → (String → String) → String → Codes → List ChildItem → RescanWorld → RescanWorld
unfolding is_set
enqueue now event_id_of parent object_id [] w = w
enqueue now event_id_of parent object_id (c ∷ cs) w =
    enqueue now event_id_of parent object_id cs
      (enqueue_child now (event_id_of c.id) parent object_id c w)

unfoldable pub mark_deleted : ℕ → String → List String → List Snapshot → List Snapshot
mark_deleted now parent ids [] = []
mark_deleted now parent ids (s ∷ ss) =
    (if is_live parent s && elem s.child_item_id ids then record s { deleted_at = some now } else s)
    ∷ mark_deleted now parent ids ss

abbrev pub seen_again : ℕ → ChildItem → Snapshot → Snapshot
seen_again now c s = record s {
  child_name = c.name;
  child_ctag = c.ctag;
  last_scanned_at = some now;
  times_scanned = suc s.times_scanned;
  deleted_at = none;
}

abbrev pub first_seen : ℕ → String → ChildItem → Snapshot
first_seen now parent c = record {
  parent_event_id = parent;
  child_item_id = c.id;
  child_name = c.name;
  child_ctag = c.ctag;
  file_hash = none;
  last_verdict_tier = none;
  last_scanned_at = some now;
  times_scanned = 1;
  deleted_at = none;
}

unfoldable pub upsert_all : ℕ → String → List ChildItem → List Snapshot → List Snapshot
unfolding upsert
upsert_all now parent [] ss = ss
upsert_all now parent (c ∷ cs) ss =
    upsert_all now parent cs (upsert (seen_again now c) (first_seen now parent c) ss)

-- `_update_snapshot`
unfoldable pub update_snapshot :
    ℕ → String → List ChildItem → List String → List Snapshot → List Snapshot
unfolding upsert_all mark_deleted
update_snapshot now parent children deleted ss =
    upsert_all now parent children (mark_deleted now parent deleted ss)

abbrev pub rescanned_at : ℕ → RescanStatus → ℕ → ℕ → ℕ → RescanState → RescanState
rescanned_at now status new modified total r = record r {
  last_rescan_at = some now;
  last_rescan_status = status;
  new_files_found = new;
  modified_files_found = modified;
  total_files = total;
}

-- `_update_rescan_state`
unfoldable pub update_rescan_state :
    ℕ → String → RescanStatus → (new modified total : ℕ) → List RescanState → List RescanState
update_rescan_state now parent status new modified total [] = []
update_rescan_state now parent status new modified total (r ∷ rs) =
    (if r.parent_event_id == parent then rescanned_at now status new modified total r else r)
    ∷ update_rescan_state now parent status new modified total rs
