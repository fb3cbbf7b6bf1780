-- ===== src/Folder/RescanTests.antt =====
-- The theorems on rescans at concrete inputs.
use share_sentinel.Prelude.{
  ◌+◌, ◌≡◌, refl, String, true, false, none, some, List, [], ◌∷◌, codes, length, All, map, arith,
  ◌==◌, elem, same_codes, lower,
}
use share_sentinel.Graph.{lower_or, is_broad}
use share_sentinel.Pipeline.Record.{Snapshot}
use share_sentinel.Lifecycle.Row.{Row, active}
use share_sentinel.Worker.Samples.{permission}
use share_sentinel.Folder.Items.{ChildItem}
use share_sentinel.Folder.Snapshots.{store_folder_content_snapshot}
use share_sentinel.Folder.Rescan.{
  RescanWorld, FolderAnswer, listed, refused, RescanState, has_broad_link, pending, is_set,
  snapshot_ctag,
}
use share_sentinel.Folder.Cycle.{rescan_folder, find_due_folders, run_folder_rescan, is_due}
use share_sentinel.Folder.Unchanged.{FindsNothing, rescan_again}
use share_sentinel.Folder.Shared.{rescan_shared}
use share_sentinel.Folder.Enqueued.{job_of, rescan_enqueues}
use share_sentinel.Folder.Stamped.{run_folder_rescan-not_due}

abbrev file : String → String → ChildItem
file id ctag = record { id = id; name = codes "a.txt"; ctag = ctag; drive_id = "d1"; web_url = [] }

abbrev files : List ChildItem
files = file "i1" "c1" ∷ file "i2" "c2" ∷ []

abbrev answer : FolderAnswer
answer = record { permissions = listed (permission ∷ []); children = some files }

-- The id of the file, for its digest.
abbrev digest : String → String → String
digest parent child = child

abbrev state : RescanState
state = record {
  parent_event_id = "f1";
  folder_drive_id = "d1";
  folder_item_id = "i0";
  last_rescan_at = none;
  last_rescan_status = pending;
  new_files_found = 0;
  modified_files_found = 0;
  total_files = 0;
}

-- The first file is known with an older cTag, and the second is not known.
abbrev known : Snapshot
known = record {
  parent_event_id = "f1";
  child_item_id = "i1";
  child_name = codes "a.txt";
  child_ctag = "c0";
  file_hash = none;
  last_verdict_tier = none;
  last_scanned_at = none;
  times_scanned = 1;
  deleted_at = none;
}

abbrev start : RescanWorld
start = record { snapshots = known ∷ []; states = state ∷ []; jobs = []; keys = [] }

rescan_enqueues_example :
    (rescan_folder 100 digest [] answer "f1" start).0.jobs
    ≡ map (job_of 100 (digest "f1") "f1" []) (file "i2" "c2" ∷ file "i1" "c1" ∷ [])
unfolding has_broad_link lower_or is_broad same_codes lower snapshot_ctag is_set elem
rescan_enqueues_example =
    rescan_enqueues 100 digest [] answer "f1" (permission ∷ []) files start (λ x y e. e)
      (refl, refl, refl) (refl, (refl, tt)) (refl, (refl, tt))

rescan_again_example :
    let w' = (rescan_folder 100 digest [] answer "f1" start).0 in
    FindsNothing w' files (rescan_folder 700 digest [] answer "f1" w')
unfolding has_broad_link lower_or is_broad same_codes lower elem
rescan_again_example =
    rescan_again 100 700 digest digest [] answer answer "f1" (permission ∷ []) (permission ∷ [])
      files start (refl, refl, refl) (refl, refl, refl) (refl, (refl, tt))

abbrev shared_world : RescanWorld
shared_world = record start { snapshots = store_folder_content_snapshot 90 "f1" files [] [] }

rescan_shared_example :
    FindsNothing shared_world files (rescan_folder 100 digest [] answer "f1" shared_world)
unfolding has_broad_link lower_or is_broad same_codes lower elem
rescan_shared_example =
    rescan_shared 90 100 digest [] answer "f1" (permission ∷ []) files [] [] shared_world tt refl
      (refl, refl, refl) (refl, (refl, tt))

abbrev link : Row
link = record {
  id = 1;
  event_id = "f1";
  permission_id = "p1";
  drive_id = "d1";
  item_id = "i0";
  user_id = "u1";
  file_name = "Grades";
  sharing_scope = [];
  sharing_type = [];
  link_url = "";
  link_created_at = 0;
  ms_expiration_at = none;
  status = active;
  notified = λ c. none;
  removal_attempts = none;
  removal_attempted_at = none;
  removal_succeeded = none;
  removal_error = none;
  mail = none;
}

-- A cycle in which Graph refuses the folder's permissions.
abbrev refusing : String → FolderAnswer
refusing k = record { permissions = refused; children = none }

run_folder_rescan-not_due_example :
    let out = run_folder_rescan 100 digest (λ k. []) 168 10 (link ∷ []) refusing start in
    (out.1.folders_checked + out.1.errors
      ≡ length (find_due_folders 100 168 10 (link ∷ []) start.states))
    × All
        (λ r.
          All
            (λ r'.
              (r'.parent_event_id == r.parent_event_id) ≡ true
              → is_due 5000 168 (link ∷ []) out.0.states r' ≡ false)
            out.0.states)
        (find_due_folders 100 168 10 (link ∷ []) start.states)
run_folder_rescan-not_due_example =
    run_folder_rescan-not_due 100 5000 168 10 digest (λ k. []) (link ∷ []) (link ∷ []) refusing
      start (omega arith)
