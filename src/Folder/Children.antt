-- ===== src/Folder/Children.antt =====
-- The loop over the files of a folder in `_handle_folder_share` of
-- services/worker/app/pipeline/orchestrator.py.
use share_sentinel.Prelude.{
  ℕ, suc, String, true, false, not, ◌&&◌, Bool, Option, none, some, List, [], ◌∷◌, ◌++◌, Codes,
  ◌==◌, if◌then◌else◌,
}
use share_sentinel.Escalation.Tier.{Tier}
use share_sentinel.Pipeline.SecondLook.{Response, escalation_tier, escalates}
use share_sentinel.Worker.Events
use share_sentinel.Worker.Events.{Status, Events, failure_reason, update_event_status}
use share_sentinel.Worker.Analysis.{
  Action, transcript_analysis, filename_only, pending_manual, format_conversion, value, raise,
}
use share_sentinel.Worker.Item.{FileJob, Metadata, Download, downloaded, Environment, Store, Run}
use share_sentinel.Worker.File.{process_single_file}
use share_sentinel.Folder.Items.{
  ChildItem, child_event_id, create_child_event, processed, flagged, update_folder_progress,
}

-- What the folder's job hands to the jobs of its files.
pub record FolderJob : Type 0 where
  pub event_id : String
  pub file_name : Codes
  pub site_url : Codes
  pub object_id : Codes
  pub force_analysis : Bool

pub data Outcome : Type 0 where
  skipped_duplicate completed failed : Outcome

pub record ChildResult : Type 0 where
  pub event_id : String
  pub file_name : Codes
  pub status : Outcome
  pub escalation_tier : Option Tier
  pub categories : List String
  pub file_hash : Option String

-- The counters and results of the loop, with the tables.
pub record Batch : Type 0 where
  pub store : Store
  pub flagged_count : ℕ
  pub failed_count : ℕ
  pub clean_count : ℕ
  pub child_results : List ChildResult

abbrev pub non_empty : Codes → Codes → Codes
non_empty [] b = b
non_empty a b = a

abbrev pub child_job : FolderJob → ℕ → ChildItem → FileJob
child_job j idx item = record {
  event_id = child_event_id j.event_id idx;
  file_name = item.name;
  site_url = j.site_url;
  object_id = non_empty item.web_url j.object_id;
  rescan_parent = none;
  skip_if_unprocessable = false;
  force_analysis = false;
}

abbrev pub prefetched : ChildItem → Metadata
prefetched item = record {
  name = item.name;
  drive_id = item.drive_id;
  item_id = item.id;
  sharing_links = none;
}

abbrev hash_of_download : Download → Option String → Option String
hash_of_download downloaded h = h
hash_of_download _ h = none

-- What `process_single_file` leaves in `out_state` : the hash, if the run came to step 7.
abbrev pub hash_computed : Environment → Metadata → Action → Option String
hash_computed e m pending_manual = none
hash_computed e m transcript_analysis = none
hash_computed e m filename_only = none
hash_computed e m format_conversion =
    if not (m.drive_id == "") && not (m.item_id == "")
    then hash_of_download e.conversion e.file_hash
    else none
hash_computed e m _ = hash_of_download e.download e.file_hash

module _ (j : FolderJob) where
  abbrev pub count_progress : ℕ → Store → Store
  count_progress now st = record st {
    events = update_folder_progress now j.event_id processed st.events;
  }

  abbrev pub result :
      ℕ → ChildItem → Outcome → Option Tier → List String → Option String → ChildResult
  result idx item status tier categories h = record {
    event_id = child_event_id j.event_id idx;
    file_name = item.name;
    status = status;
    escalation_tier = tier;
    categories = categories;
    file_hash = h;
  }

  -- 4a, for a file that has an event: it counts as clean.
  abbrev pub duplicate : ℕ → ℕ → ChildItem → Batch → Batch
  duplicate now idx item b = record b {
    store = count_progress now b.store;
    clean_count = suc b.clean_count;
    child_results = b.child_results ++ result idx item skipped_duplicate none [] none ∷ [];
  }

  -- The response is as the recording of its verdict left it, with its categories rewritten under an
  -- override.
  abbrev pub answered : ℕ → ℕ → ChildItem → Option String → Response → Store → Batch → Batch
  answered now idx item h r st b =
      if escalates r
      then record b {
        store = record (count_progress now st) {
          events = update_folder_progress now j.event_id flagged (count_progress now st).events;
        };
        flagged_count = suc b.flagged_count;
        child_results =
            b.child_results
            ++ result idx item completed (some (escalation_tier r)) r.category_ids h ∷ [];
      }
      else record b {
        store = count_progress now st;
        clean_count = suc b.clean_count;
        child_results =
            b.child_results
            ++ result idx item completed (some (escalation_tier r)) r.category_ids h ∷ [];
      }

  -- 4e and 4f, and the handler of the exceptions.
  abbrev pub classified : ℕ → ℕ → ChildItem → Option String → Run → Batch → Batch
  classified now idx item h (st, value (some r)) b = answered now idx item h r st b
  classified now idx item h (st, value none) b = record b {
    store = count_progress now st;
    failed_count = suc b.failed_count;
    child_results = b.child_results ++ result idx item failed none [] h ∷ [];
  }
  classified now idx item h (st, raise t) b = record b {
    store = record st {
      events =
          update_event_status now (child_event_id j.event_id idx) Events.Status.failed
            (failure_reason "unhandled_exception") (count_progress now st).events;
    };
    failed_count = suc b.failed_count;
    child_results = b.child_results ++ result idx item failed none [] none ∷ [];
  }

  abbrev pub after_create : Environment → ℕ → ChildItem → Events × Bool → Batch → Batch
  after_create e idx item (es, false) b = duplicate e.now idx item b
  after_create e idx item (es, true) b =
      classified e.now idx item (hash_computed e (prefetched item) (e.classify (prefetched item)))
        (process_single_file e (child_job j idx item) true (some (prefetched item))
          (record (b.store) { events = es }))
        b

  -- The body of the loop.
  unfoldable pub process_child : Environment → ℕ → ChildItem → Batch → Batch
  process_child e idx item b =
      after_create e idx item
        (create_child_event e.now j.event_id (child_event_id j.event_id idx) item b.store.events) b

  -- The files from an index on; each has its own environment.
  unfoldable pub process_children : (ℕ → Environment) → ℕ → List ChildItem → Batch → Batch
  unfolding process_child
  process_children env idx [] b = b
  process_children env idx (item ∷ items) b =
      process_children env (suc idx) items (process_child (env idx) idx item b)
