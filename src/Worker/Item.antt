-- ===== src/Worker/Item.antt =====
-- What `_process_single_file` of services/worker/app/pipeline/orchestrator.py works on, and what the
-- services answer it.
use share_sentinel.Prelude.{
  ℕ, String, Bool, ◌||◌, Option, none, some, List, Codes, ◌==◌, if◌then◌else◌,
}
use share_sentinel.Graph.{Permission}
use share_sentinel.Pipeline.Retry.{Attempt}
use share_sentinel.Pipeline.SecondLook.{Response, Analysis, Failure}
use share_sentinel.Pipeline.Record.{Database}
use share_sentinel.Worker.Sharing.{SharingLink}
use share_sentinel.Worker.Events.{Events}
use share_sentinel.Worker.Analysis.{Action, Result, Extraction}

-- A job of the queue, or the job made for a child of a folder.
pub record FileJob : Type 0 where
  pub event_id : String
  pub file_name : Codes
  pub site_url : Codes
  pub object_id : Codes
  pub rescan_parent : Option String
  pub skip_if_unprocessable : Bool
  pub force_analysis : Bool

pub record Metadata : Type 0 where
  pub name : Codes
  pub drive_id : String
  pub item_id : String
  pub sharing_links : Option (List SharingLink)

-- How the metadata fetch ends after its retries; the permissions are none if listing them failed.
-- `refused` is a Graph error other than 404.
pub data Fetched : Type 0 where
  not_found refused crashed : Fetched
  item :
      (name : Codes) (drive_id item_id : String) (permissions : Option (List Permission)) → Fetched

-- How a download ends after its retries: a file, a DownloadError with its reason, a GraphAPIError, or
-- another exception.
pub data Download : Type 0 where
  downloaded unsupported broken : Download
  download_error : String → Download

-- What comes of the search for a transcript; a transcript is with frames or without.
pub data Recording : Type 0 where
  no_transcript interrupted : Recording
  transcript : Bool → Recording

pub record Environment : Type 0 where
  pub now : ℕ
  pub parse_expiration : Codes → Option ℕ
  pub fetched : Fetched
  pub classify : Metadata → Action
  pub package_type : String
  pub extension : String
  pub conversion : Download
  pub download : Download
  pub recording : Recording
  pub file_hash : Option String
  pub extraction : Extraction
  pub analyze : String → ℕ → Attempt Analysis Failure
  pub second_look : Option (ℕ → Attempt Analysis Failure)
  pub second_look_enabled : Bool
  pub hash_reuse_days : ℕ

-- The events, and the tables and alerts of a verdict.
pub record Store : Type 0 where
  pub events : Events
  pub db : Database

-- The store, and the response or the exception.
abbrev pub Run : Type 0
Run = Store × Result (Option Response)

abbrev pub or_empty : Option String → String
or_empty none = ""
or_empty (some s) = s

unfoldable pub pending_type : (kind extension : String) → String
pending_type kind extension =
    if kind == "onenote" || kind == "whiteboard"
    then kind
    else if extension == ".whiteboard"
    then "whiteboard"
    else "onenote"

unfoldable pub converted_type : (kind extension : String) → String
converted_type kind extension =
    if kind == "loop" || (extension == ".loop" || extension == ".fluid")
    then "loop"
    else "convertible"
