-- ===== src/Folder/Tests.antt =====
-- The theorems on shared folders at concrete inputs.
use share_sentinel.Prelude.{
  ℕ, zero, suc, ◌+◌, ◌<◌, ◌≡◌, refl, String, true, false, none, some, [], ◌∷◌, inl, codes, any,
  arith,
}
use share_sentinel.Escalation.Tier.{tier_1, no_tier}
use share_sentinel.Pipeline.SecondLook.{escalates}
use share_sentinel.Worker.Events.{queued, completed, failed, EventRow, get_event}
use share_sentinel.Worker.Analysis.{full_analysis}
use share_sentinel.Worker.Item.{item}
use share_sentinel.Worker.Sharing.{has_active_sharing_links}
use share_sentinel.Worker.Rows.{HasRow}
use share_sentinel.Worker.Job.{World}
use share_sentinel.Worker.Samples.{answers, environment, shared, row, config, world}
use share_sentinel.Folder.Items.{ChildItem, child_event_id}
use share_sentinel.Folder.Children.{FolderJob, ChildResult, process_children}
use share_sentinel.Folder.Children as Children
use share_sentinel.Folder.Share.{
  FolderEnvironment, concluded, start_batch, process_folder, aggregated_categories, system_response,
}
use share_sentinel.Folder.Tracks.{Tracks}
use share_sentinel.Folder.Counts.{counted}
use share_sentinel.Folder.Completed.{process_folder_completed}
use share_sentinel.Folder.Enumerated.{batch_of, process_folder-counted}
use share_sentinel.Folder.Quiet.{IsClosedAt}
use share_sentinel.Folder.Closed.{process_children-IsClosedAt}
use share_sentinel.Folder.Rerun.{nothing_flagged, process_folder_rerun}
use share_sentinel.Folder.Parent.{flagged_by_category, folder_escalates}

abbrev file : String → String → ChildItem
file id ctag = record { id = id; name = codes "a.txt"; ctag = ctag; drive_id = "d1"; web_url = [] }

abbrev a_file : ChildItem
a_file = file "i1" "c1"

abbrev b_file : ChildItem
b_file = file "i2" "c2"

abbrev folder_job : FolderJob
folder_job = record {
  event_id = "f1";
  file_name = codes "Grades";
  site_url = [];
  object_id = [];
  force_analysis = false;
}

-- A folder of two files.
abbrev folder : FolderEnvironment
folder = record {
  now = 100;
  parse_expiration = λ c. none;
  fetched = item (codes "Grades") "d1" "i0" none;
  children = some (a_file ∷ b_file ∷ []);
  child_environment = λ i. environment (101 + i) full_analysis shared answers;
  notify_on_folder_share = true;
}

process_folder-counted_example :
    Tracks "f1"
      (some 0)
      completed
      (some 2)
      2
      (batch_of folder folder_job "d1" "i0" (a_file ∷ b_file ∷ []) (world []).store).flagged_count
      (process_folder config folder folder_job (world [])).store.events
    × (counted (batch_of folder folder_job "d1" "i0" (a_file ∷ b_file ∷ []) (world []).store) ≡ 2)
    × ((process_folder config folder folder_job (world [])).store.db
        ≡ (concluded folder folder_job
            (a_file ∷ b_file ∷ [])
            (batch_of folder folder_job "d1" "i0" (a_file ∷ b_file ∷ []) (world []).store)).db)
unfolding get_event has_active_sharing_links
process_folder-counted_example =
    process_folder-counted config folder folder_job (world []) (codes "Grades") "d1" "i0" none
      a_file (b_file ∷ []) refl (refl, refl) refl

process_folder_completed_example :
    HasRow "f1" (some 0) completed (process_folder config folder folder_job (world [])).store.events
    × ((process_folder config folder folder_job (world [])).pushes ≡ [])
    × ((process_folder config folder folder_job (world [])).notices ≡ [])
unfolding get_event
process_folder_completed_example =
    process_folder_completed config folder folder_job (some 0) (world []) (inl (refl, refl))
      (λ p. cc)

process_children-IsClosedAt_example :
    IsClosedAt
      (child_event_id "f1" 1)
      (process_children folder_job folder.child_environment 0
        (a_file ∷ b_file ∷ [])
        (start_batch folder folder_job (world []).store)).store.events
unfolding get_event
process_children-IsClosedAt_example =
    process_children-IsClosedAt folder_job folder.child_environment 0 (a_file ∷ b_file ∷ [])
      (start_batch folder folder_job (world []).store) 1 (omega arith) (omega arith) (inl refl)

abbrev named : String → EventRow → EventRow
named k r = record r { event_id = k }

-- The folder is queued again, and its file has an event that has failed.
abbrev rerun_world : World
rerun_world = world (named "f1" (row queued) ∷ named "f1:child:0" (row failed) ∷ [])

abbrev small_folder : FolderEnvironment
small_folder = record folder { children = some (a_file ∷ []) }

first_is_there :
    (m : ℕ)
    → m < 1
    → (r : EventRow) × (get_event (child_event_id "f1" m) rerun_world.store.events ≡ some r)
unfolding get_event child_event_id
first_is_there zero lt = (named "f1:child:0" (row failed), refl)
first_is_there (suc m) lt = absurd (omega arith)

process_folder_rerun_example :
    ((process_folder config small_folder folder_job rerun_world).store.db.verdicts
      ≡ nothing_flagged small_folder folder_job ∷ [])
    × ((process_folder config small_folder folder_job rerun_world).store.db.alerts
        ≡ ("f1", no_tier) ∷ [])
unfolding get_event has_active_sharing_links
process_folder_rerun_example =
    process_folder_rerun config small_folder folder_job (some 0) rerun_world (codes "Grades") "d1"
      "i0" none a_file []
      (record { row = named "f1" (row queued); found = refl; count = refl; status = refl })
      (refl, refl) refl first_is_there

-- A file that is flagged by the kinds of data in it.
abbrev flagged_result : ChildResult
flagged_result = record {
  event_id = "f1:child:0";
  file_name = codes "a.txt";
  status = Children.completed;
  escalation_tier = some tier_1;
  categories = "coursework" ∷ [];
  file_hash = none;
}

folder_escalates_example :
    escalates (system_response (aggregated_categories (flagged_result ∷ [])))
    ≡ any flagged_by_category (flagged_result ∷ [])
folder_escalates_example = folder_escalates (flagged_result ∷ [])
