-- ===== src/Folder/Share.antt =====
-- `_handle_folder_share` and `_handle_folder_share_fallback` of
-- services/worker/app/pipeline/orchestrator.py, behind `process_job`. Summaries are not modelled, and
-- neither is the enrollment of the folder's links, which is Lifecycle/Enrollment.
use share_sentinel.Prelude.{
  ℕ, String, Bool, false, not, ◌&&◌, ◌||◌, Option, none, some, List, [], ◌∷◌, ◌++◌, Codes, length,
  ltb, ◌==◌, if◌then◌else◌,
}
use share_sentinel.Prelude.Int.{pos}
use share_sentinel.Graph.{Permission}
use share_sentinel.Escalation.Tier.{Tier, no_tier, should_escalate}
use share_sentinel.Pipeline.SecondLook.{Response, escalation_tier}
use share_sentinel.Pipeline.Record.{Database}
use share_sentinel.Worker.Sharing.{SharingLink, extract_all_sharing_links, has_active_sharing_links}
use share_sentinel.Worker.Events.{
  Extra, no_extra, failure_reason, update_event_status, update_event_metadata,
}
use share_sentinel.Worker.Events
use share_sentinel.Worker.Analysis.{unhandled, value, raise}
use share_sentinel.Worker.Item.{Fetched, not_found, refused, crashed, item, Environment, Store, Run}
use share_sentinel.Worker.Job.{Config, World, process_job}
use share_sentinel.Folder.Items.{ChildItem, total, update_folder_progress}
use share_sentinel.Folder.Snapshots.{store_folder_content_snapshot}
use share_sentinel.Folder.Children.{FolderJob, ChildResult, Batch, process_children}

-- What the services answer; the enumeration is none if it fails.
pub record FolderEnvironment : Type 0 where
  pub now : ℕ
  pub parse_expiration : Codes → Option ℕ
  pub fetched : Fetched
  pub children : Option (List ChildItem)
  pub child_environment : ℕ → Environment
  pub notify_on_folder_share : Bool

-- The response of the verdicts that the handler makes itself.
abbrev pub system_response : List String → Response
system_response category_ids = record {
  category_ids = category_ids;
  affected_count = pos 0;
  pii_types_found = [];
  context = "institutional";
  summary = "";
  reasoning = "";
  provider = "system";
  model = "n/a";
  cost = 0;
  second_look = none;
}

-- `create_verdict`
abbrev pub create_verdict : String → Response → String → Bool → Database → Database
create_verdict k r analysis_mode notification_required db = record db {
  verdicts =
      db.verdicts
      ++ record {
        event_id = k;
        category_ids = r.category_ids;
        escalation_tier = escalation_tier r;
        analysis_mode = analysis_mode;
        notification_required = notification_required;
      }
        ∷ [];
}

-- The payloads of folders bear no tier.
abbrev pub dispatch : String → Bool → Database → Database
dispatch k required db =
    if required then record db { alerts = db.alerts ++ (k, no_tier) ∷ [] } else db

abbrev pub is_flagged : Option Tier → Bool
is_flagged none = false
is_flagged (some t) = should_escalate t

unfoldable pub aggregated_categories : List ChildResult → List String
aggregated_categories [] = []
aggregated_categories (r ∷ rs) =
    let rest = aggregated_categories rs in
    if is_flagged r.escalation_tier then r.categories ++ rest else rest

module _ (e : FolderEnvironment) (j : FolderJob) where
  abbrev pub finish : Extra → Store → Run
  finish x st = (
    record st { events = update_event_status e.now j.event_id Events.Status.completed x st.events },
    value none,
  )

  abbrev pub with_flag : Store → Store
  with_flag st = record st {
    db = dispatch j.event_id e.notify_on_folder_share (
        create_verdict j.event_id (system_response []) "folder_flag" e.notify_on_folder_share
          st.db);
  }

  -- The verdict for an analyst's review: the fallback, and the empty folder.
  unfoldable pub flag : Store → Run
  flag st = finish no_extra (with_flag st)

  abbrev pub folder_verdict : Batch → Database → Database
  folder_verdict b db =
      let required = ltb 0 b.flagged_count || e.notify_on_folder_share in
      dispatch j.event_id required (
        create_verdict j.event_id (system_response (aggregated_categories b.child_results))
          "folder_enumeration" required db)

  -- Steps 4.5 and 5.
  unfoldable pub concluded : List ChildItem → Batch → Store
  unfolding store_folder_content_snapshot aggregated_categories
  concluded items b =
      let snapshots =
        store_folder_content_snapshot e.now j.event_id items b.child_results b.store.db.snapshots in
      record (b.store) { db = folder_verdict b (record (b.store.db) { snapshots = snapshots }) }

  abbrev pub conclude_folder : List ChildItem → Batch → Run
  conclude_folder items b = finish no_extra (concluded items b)

  abbrev pub start_batch : Store → Batch
  start_batch st = record {
    store = st;
    flagged_count = 0;
    failed_count = 0;
    clean_count = 0;
    child_results = [];
  }

  abbrev pub with_total : ℕ → Store → Store
  with_total n st = record st {
    events = update_folder_progress e.now j.event_id (total n) st.events;
  }

  abbrev pub after_enumeration : Option (List ChildItem) → Store → Run
  after_enumeration none st = flag st
  after_enumeration (some []) st = flag (with_total 0 st)
  after_enumeration (some (c ∷ cs)) st = conclude_folder (c ∷ cs) (
      process_children j e.child_environment 0 (c ∷ cs)
        (start_batch (with_total (length (c ∷ cs)) st)))

  abbrev pub folder_links : String → String → Option (List Permission) → Option (List SharingLink)
  folder_links drive_id item_id none = none
  folder_links drive_id item_id (some ps) =
      if not (drive_id == "") && not (item_id == "") then extract_all_sharing_links ps else none

  -- The sharing link validation gate.
  abbrev pub folder_gate : Option (List SharingLink) → Store → Run
  folder_gate links st =
      if not j.force_analysis && not (has_active_sharing_links e.parse_expiration e.now links)
      then finish (failure_reason "no_active_sharing_links") st
      else after_enumeration e.children st

  abbrev pub after_folder_fetch : Fetched → Store → Run
  after_folder_fetch not_found st = flag st
  after_folder_fetch refused st = flag st
  after_folder_fetch crashed st = (st, raise unhandled)
  after_folder_fetch (item name drive_id item_id permissions) st =
      folder_gate (folder_links drive_id item_id permissions)
        (record st { events = update_event_metadata e.now j.event_id drive_id item_id st.events })

  unfoldable pub handle_folder_share : Store → Run
  unfolding flag
  handle_folder_share st = after_folder_fetch e.fetched st

-- The job of a folder.
abbrev pub process_folder : Config → FolderEnvironment → FolderJob → World → World
process_folder cfg e j w = process_job cfg e.now j.event_id (handle_folder_share e j) w
