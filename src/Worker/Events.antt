-- ===== src/Worker/Events.antt =====
-- `EventRepository` of services/worker/app/database/repositories.py: the columns of `events` that the
-- life of an event is told by. `event_id` is unique. Times are seconds.
use share_sentinel.Prelude.{
  ℕ, suc, ◌+◌, ◌*◌, String, Bool, true, false, ◌&&◌, Option, none, some, List, [], ◌∷◌, ltb, ◌==◌,
  if◌then◌else◌,
}

pub data Status : Type 0 where
  queued processing completed failed pending_manual_inspection remediated : Status

pub record EventRow : Type 0 where
  pub event_id : String
  pub parent_event_id : Option String
  pub status : Status
  pub retry_count : Option ℕ
  pub failure_reason : Option String
  pub processing_started_at : Option ℕ
  pub processing_completed_at : Option ℕ
  pub updated_at : ℕ
  pub content_type : Option String
  pub temp_file_deleted : Bool
  pub drive_id : Option String
  pub item_id_graph : Option String
  pub folder_total_children : Option ℕ
  pub folder_processed_children : Option ℕ
  pub folder_flagged_children : Option ℕ

abbrev pub Events : Type 0
Events = List EventRow

unfoldable pub get_event : String → Events → Option EventRow
get_event k [] = none
get_event k (e ∷ es) = if e.event_id == k then some e else get_event k es

-- UPDATE events … WHERE event_id = k
unfoldable pub update : (EventRow → EventRow) → String → Events → Events
update f k [] = []
update f k (e ∷ es) = (if e.event_id == k then f e else e) ∷ update f k es

abbrev pub is_queued : Status → Bool
is_queued queued = true
is_queued _ = false

abbrev pub is_processing : Status → Bool
is_processing processing = true
is_processing _ = false

abbrev pub is_completed : Status → Bool
is_completed completed = true
is_completed _ = false

abbrev pub is_final : Status → Bool
is_final completed = true
is_final remediated = true
is_final _ = false

abbrev pub or_zero : Option ℕ → ℕ
or_zero none = 0
or_zero (some n) = n

-- The row that INSERT makes; the defaults are those of the table.
abbrev pub new_event : ℕ → String → EventRow
new_event now k = record {
  event_id = k;
  parent_event_id = none;
  status = processing;
  retry_count = some 0;
  failure_reason = none;
  processing_started_at = some now;
  processing_completed_at = none;
  updated_at = now;
  content_type = none;
  temp_file_deleted = false;
  drive_id = none;
  item_id_graph = none;
  folder_total_children = none;
  folder_processed_children = some 0;
  folder_flagged_children = some 0;
}

abbrev pub claimed : ℕ → EventRow → EventRow
claimed now e = record e { status = processing; processing_started_at = some now }

-- INSERT … ON CONFLICT (event_id) DO UPDATE … WHERE status = 'queued' RETURNING id. The Boolean says
-- whether a row came back.
unfoldable pub create_event : ℕ → String → Events → Events × Bool
unfolding get_event update
create_event now k es = elim (get_event k es) [
  | none ↦ (new_event now k ∷ es, true)
  | some e ↦ if is_queued e.status then (update (claimed now) k es, true) else (es, false)
]

-- The columns that `update_event_status` writes besides the status, as its callers use it.
pub data Extra : Type 0 where
  no_extra temp_file_deleted : Extra
  failure_reason : String → Extra

abbrev write_extra : Extra → EventRow → EventRow
write_extra no_extra e = e
write_extra temp_file_deleted e = record e { temp_file_deleted = true }
write_extra (failure_reason r) e = record e { failure_reason = some r }

abbrev pub written : ℕ → Status → Extra → EventRow → EventRow
written now s x e = write_extra x (record e {
  status = s;
  updated_at = now;
  processing_completed_at = if is_completed s then some now else e.processing_completed_at;
})

unfoldable pub update_event_status : ℕ → String → Status → Extra → Events → Events
unfolding update
update_event_status now k s x = update (written now s x) k

unfoldable pub set_content_type : ℕ → String → String → Events → Events
unfolding update
set_content_type now k t = update (λ e. record e { content_type = some t; updated_at = now }) k

-- Of `update_event_metadata`, the two ids.
unfoldable pub update_event_metadata : ℕ → String → (drive_id item_id : String) → Events → Events
unfolding update
update_event_metadata now k d i =
    update (λ e. record e { drive_id = some d; item_id_graph = some i; updated_at = now }) k

abbrev pub requeued : ℕ → String → EventRow → EventRow
requeued now reason e = record e {
  status = queued;
  retry_count = some (suc (or_zero e.retry_count));
  failure_reason = some reason;
  processing_started_at = none;
  processing_completed_at = none;
  updated_at = now;
}

abbrev pub count_after : Option EventRow → ℕ
count_after none = 0
count_after (some e) = suc (or_zero e.retry_count)

-- The table, and the new count.
unfoldable pub requeue_event : ℕ → String → String → Events → Events × ℕ
unfolding update get_event
requeue_event now k reason es = (update (requeued now reason) k es, count_after (get_event k es))

abbrev is_top : Option String → Bool
is_top none = true
is_top (some _) = false

-- `get_stuck_processing_events`: the test on a row, `started + minutes < now`.
unfoldable pub is_stuck : (now minutes : ℕ) → EventRow → Bool
is_stuck now minutes e =
    is_processing e.status
    && (is_top e.parent_event_id
        && elim e.processing_started_at [ none ↦ false | some s ↦ ltb (s + minutes * 60) now ])

-- `get_orphaned_queued_events`
unfoldable pub is_orphaned : (now minutes : ℕ) → EventRow → Bool
is_orphaned now minutes e =
    is_queued e.status && (is_top e.parent_event_id && ltb (e.updated_at + minutes * 60) now)
