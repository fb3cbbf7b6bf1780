-- ===== src/Remediation/Execute.antt =====
-- `_update_sharing_links_jsonb`, `execute_remediation` and `_mark_failed` of
-- services/worker/app/remediation/executor.py. The report's list of recipients is empty there, so
-- no report is sent. One reading of the clock stands for all those of a remediation.
use share_sentinel.Prelude.{
  ℕ, ◌+◌, String, Bool, true, false, ◌&&◌, Option, none, some, List, [], ◌∷◌, ◌++◌, ◌==◌,
  if◌then◌else◌, any, elem,
}
use share_sentinel.Remediation.World.{
  Service, RemediationStatus, pending, in_progress, completed, completed_with_warnings, failed,
  Remediation, SharingLink, EventRow, Detail, removed_detail, failed_detail, listing_detail,
  no_ids_detail, remediation_started, remediation_skip_removal, remediation_completed,
  remediation_failed, cascade_parent_remediation, World, find_event, update_event,
  update_remediation, M, pure, modify, ◌>>=◌, ◌>>◌, log,
}
use share_sentinel.Remediation.Remove.{
  Tally, no_tally, remove_permissions_for_item, is_zero, validate_removal,
}

-- The ids of the permissions that were removed.
unfoldable pub removed_ids : List Detail → List String
removed_ids [] = []
removed_ids (removed_detail p ∷ ds) = p ∷ removed_ids ds
removed_ids (failed_detail p m ∷ ds) = removed_ids ds
removed_ids (listing_detail m ∷ ds) = removed_ids ds
removed_ids (no_ids_detail ∷ ds) = removed_ids ds

unfoldable pub flag_link : ℕ → List String → SharingLink → SharingLink
flag_link now ids l = elim l.permission_id [
  | none ↦ l
  | some p ↦ if elem p ids then record l { removed = true; removed_at = some now } else l
]

unfoldable pub flag_links : ℕ → List String → List SharingLink → List SharingLink
flag_links now ids [] = []
flag_links now ids (l ∷ ls) = flag_link now ids l ∷ flag_links now ids ls

-- `_update_sharing_links_jsonb`
unfoldable pub update_sharing_links : ℕ → String → List Detail → List EventRow → List EventRow
update_sharing_links now k ds es =
    update_event k
      (λ e. record e {
        sharing_links = elim e.sharing_links [
          | none ↦ none
          | some ls ↦ some (flag_links now (removed_ids ds) ls)
        ];
      })
      es

-- `_mark_failed`
unfoldable pub mark_failed : {G : Type 0} → ℕ → ℕ → String → World G → World G
mark_failed now k message w = record w {
  remediations =
      update_remediation k
        (λ r. record r { status = failed; completed_at = some now; error_message = some message })
        w.remediations;
}

-- The statuses of the partial unique index on `event_id`.
unfoldable pub is_indexed : RemediationStatus → Bool
is_indexed pending = true
is_indexed in_progress = true
is_indexed completed = true
is_indexed completed_with_warnings = true
is_indexed failed = false

abbrev has_indexed : String → List Remediation → Bool
has_indexed k = any (λ r. r.event_id == k && is_indexed r.status)

-- INSERT … ON CONFLICT DO NOTHING: the sequence advances even when nothing is inserted.
unfoldable pub insert_cascaded : {G : Type 0} → ℕ → Remediation → String → Tally → World G → World G
unfolding is_indexed
insert_cascaded now r parent_id t w = record w {
  next_remediation = w.next_remediation + 1;
  remediations =
      if has_indexed parent_id w.remediations
      then w.remediations
      else w.remediations
        ++ (record {
          id = w.next_remediation;
          event_id = parent_id;
          status = completed;
          created_at = now;
          started_at = none;
          completed_at = some now;
          permissions_removed = t.removed_count;
          permissions_failed = t.failed_count;
          validation_passed = none;
          error_message = none;
          cascade_source = some r.event_id;
          parent_remediation = some r.id;
        })
          ∷ [];
}

unfoldable pub mark_remediated : {G : Type 0} → String → World G → World G
mark_remediated k w = record w {
  events = update_event k (λ e. record e { is_remediated = true }) w.events;
}

abbrev pub add_tally : Tally → Tally → Tally
add_tally s t = record {
  removed_count = s.removed_count + t.removed_count;
  failed_count = s.failed_count + t.failed_count;
  details = s.details ++ t.details;
}

-- Where an event's item is, if both ids are there.
unfoldable pub place_of : EventRow → Option (String × String)
place_of e = elim e.drive_id [
  | none ↦ none
  | some d ↦ elim e.item_id [ none ↦ none | some i ↦ some (d, i) ]
]

-- Step 6's choice of a status.
unfoldable pub final_status : Option Bool → ℕ → RemediationStatus
final_status (some false) n = completed_with_warnings
final_status (some true) n = if is_zero n then completed else completed_with_warnings
final_status none n = if is_zero n then completed else completed_with_warnings

module _ {G : Type 0} (service : Service G) (now : ℕ) (queue_up : Bool) where
  -- Step 2.
  unfoldable pub remove_file : Remediation → Option (String × String) → M G Tally
  remove_file r (some (d, i)) = remove_permissions_for_item service now r.event_id d i
  remove_file r none = do
    log r.event_id remediation_skip_removal
    pure (record no_tally { details = no_ids_detail ∷ [] })

  abbrev book_cascade : Remediation → String → Tally → Tally → M G Tally
  book_cascade r parent_id t t' = do
    log r.event_id (cascade_parent_remediation parent_id)
    modify (insert_cascaded now r parent_id t')
    modify (mark_remediated parent_id)
    pure (add_tally t t')

  -- Step 2b. The parent comes with its id and its place.
  unfoldable pub cascade : Remediation → Option (String × String × String) → Tally → M G Tally
  unfolding insert_cascaded mark_remediated
  cascade r none t = pure t
  cascade r (some (parent_id, d, i)) t = do
    t' ← remove_permissions_for_item service now parent_id d i
    book_cascade r parent_id t t'

  abbrev pub validate_parent : Bool → Option (String × String × String) → M G (Option Bool)
  validate_parent ok none = pure (some ok)
  validate_parent ok (some (parent_id, d, i)) = do
    parent_ok ← validate_removal service d i
    pure (some (ok && parent_ok))

  -- Step 3.
  unfoldable pub validate_all :
      Option (String × String) → Option (String × String × String) → M G (Option Bool)
  validate_all none parent = pure none
  validate_all (some (d, i)) parent = do
    ok ← validate_removal service d i
    validate_parent ok parent

  abbrev flag_parent : Option EventRow → Tally → World G → World G
  flag_parent none t w = w
  flag_parent (some p) t w = record w {
    events = update_sharing_links now p.event_id t.details w.events;
  }

  abbrev push : String → World G → World G
  push k w = if queue_up then record w { notifications = w.notifications ++ k ∷ [] } else w

  -- Step 6.
  unfoldable pub close_row : Remediation → Tally → Option Bool → World G → World G
  unfolding final_status
  close_row r t validation w = record w {
    remediations =
        update_remediation r.id
          (λ x. record x {
            status = final_status validation t.failed_count;
            completed_at = some now;
            permissions_removed = t.removed_count;
            permissions_failed = t.failed_count;
            validation_passed = validation;
          })
          w.remediations;
  }

  -- Steps 4 to 8.
  unfoldable pub conclude : Remediation → Option EventRow → Tally → Option Bool → World G → World G
  unfolding update_sharing_links mark_remediated
  conclude r parent t validation w =
      let flagged =
        flag_parent parent t
          (record w { events = update_sharing_links now r.event_id t.details w.events }) in
      let closed = mark_remediated r.event_id (close_row r t validation flagged) in
      push r.event_id
        (record closed { audit = closed.audit ++ (r.event_id, remediation_completed) ∷ [] })

  -- The parent's id and place, if it is there and has both ids.
  unfoldable pub cascade_place : Option EventRow → Option (String × String × String)
  unfolding place_of
  cascade_place none = none
  cascade_place (some p) = elim (place_of p) [ none ↦ none | some (d, i) ↦ some (p.event_id, d, i) ]

  abbrev pub run_steps :
      Remediation
      → Option EventRow
      → Option (String × String)
      → Option (String × String × String)
      → M G (Unit {0})
  run_steps r parent place parent_place = do
    t ← remove_file r place
    t' ← cascade r parent_place t
    validation ← validate_all place parent_place
    modify (conclude r parent t' validation)

  abbrev pub parent_of : EventRow → List EventRow → Option EventRow
  parent_of e es = elim e.parent_event_id [ none ↦ none | some k ↦ find_event k es ]

  abbrev pub execute_event : Remediation → Option EventRow → M G (Unit {0})
  execute_event r none w =
      let marked = mark_failed now r.id "Event not found" w in
      (record marked { audit = marked.audit ++ (r.event_id, remediation_failed) ∷ [] }, some tt)
  execute_event r (some e) w =
      let parent = parent_of e w.events in run_steps r parent (place_of e) (cascade_place parent) w

  -- `execute_remediation`
  unfoldable pub execute_remediation : Remediation → M G (Unit {0})
  unfolding mark_failed remove_file cascade validate_all conclude cascade_place
  execute_remediation r w =
      let started = record w { audit = w.audit ++ (r.event_id, remediation_started) ∷ [] } in
      execute_event r (find_event r.event_id started.events) started
