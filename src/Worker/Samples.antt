-- ===== src/Worker/Samples.antt =====
-- The events, files and answers of the tests.
use share_sentinel.Prelude.{ℕ, String, true, false, Option, none, some, List, [], ◌∷◌, Codes, codes}
use share_sentinel.Prelude.Int.{pos}
use share_sentinel.Graph.{value, Permission}
use share_sentinel.Pipeline.Retry.{Attempt, returned, raised}
use share_sentinel.Pipeline.SecondLook.{Response, Analysis, Failure, transient_ai_error}
use share_sentinel.Pipeline.Record.{Database}
use share_sentinel.Worker.Sharing.{SharingLink}
use share_sentinel.Worker.Events.{Status, processing, EventRow}
use share_sentinel.Worker.Analysis.{Action, filename_only, text}
use share_sentinel.Worker.Item.{FileJob, Fetched, item, downloaded, no_transcript, Environment}
use share_sentinel.Worker.Job.{Config, World}
use share_sentinel.Worker.Startup.{Station}

-- A link for the organization that expires at a time.
abbrev pub permission : Permission
permission = record {
  id = some "p1";
  link = value (
      some (record {
        scope = value (codes "organization");
        link_type = value (codes "view");
        web_url = value "https://x";
      }));
  expiration = value (codes "2026");
}

abbrev pub parse : Codes → Option ℕ
parse c = some 500

abbrev pub link : SharingLink
link = record {
  url = "https://x";
  scope = codes "organization";
  link_type = codes "view";
  permission_id = some "p1";
  expiration_date = some (codes "2026");
}

abbrev pub job : FileJob
job = record {
  event_id = "e1";
  file_name = codes "a.txt";
  site_url = [];
  object_id = [];
  rescan_parent = none;
  skip_if_unprocessable = false;
  force_analysis = false;
}

abbrev pub response : Response
response = record {
  category_ids = "none" ∷ [];
  affected_count = pos 0;
  pii_types_found = [];
  context = "mixed";
  summary = "";
  reasoning = "";
  provider = "anthropic";
  model = "";
  cost = 0;
  second_look = none;
}

abbrev pub answers : String → ℕ → Attempt Analysis Failure
answers mode attempt = returned (record { response = response; success = true })

abbrev pub overloaded : String → ℕ → Attempt Analysis Failure
overloaded mode attempt = raised transient_ai_error

-- A file with one link, of a kind that is analyzed by its name or by its text.
abbrev pub environment :
    ℕ → Action → Fetched → (String → ℕ → Attempt Analysis Failure) → Environment
environment now action fetched analyze = record {
  now = now;
  parse_expiration = parse;
  fetched = fetched;
  classify = λ m. action;
  package_type = "";
  extension = ".txt";
  conversion = downloaded;
  download = downloaded;
  recording = no_transcript;
  file_hash = some "h1";
  extraction = record {
    preprocessed = true;
    extractor = some text;
    is_pdf = false;
    ocr = text;
    renders_pages = true;
  };
  analyze = analyze;
  second_look = none;
  second_look_enabled = false;
  hash_reuse_days = 30;
}

abbrev pub shared : Fetched
shared = item (codes "a.txt") "d1" "i1" (some (permission ∷ []))

abbrev pub row : Status → EventRow
row status = record {
  event_id = "e1";
  parent_event_id = none;
  status = status;
  retry_count = some 0;
  failure_reason = none;
  processing_started_at = some 90;
  processing_completed_at = none;
  updated_at = 90;
  content_type = none;
  temp_file_deleted = false;
  drive_id = none;
  item_id_graph = none;
  folder_total_children = none;
  folder_processed_children = none;
  folder_flagged_children = none;
}

abbrev pub database : Database
database = record { verdicts = []; hashes = []; snapshots = []; alerts = []; completed = [] }

abbrev pub world : List EventRow → World
world events = record {
  store = record { events = events; db = database };
  pushes = [];
  notices = [];
}

abbrev pub config : Config
config = record { max_event_retries = 3; requeue_base_delay_seconds = 60; notify_on_failure = true }

-- The event is processing since 90, and its job was in flight.
abbrev pub station : Station
station = record {
  events = row processing ∷ [];
  broker = record { queue = []; in_flight = "e1" ∷ [] };
}

-- The environments of a job whose model is overloaded four times.
abbrev pub busy : ℕ → Environment
busy now = environment now filename_only shared overloaded
