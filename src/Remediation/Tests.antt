-- ===== src/Remediation/Tests.antt =====
-- Concrete remediations.
use share_sentinel.Prelude.{
  same_codes, lower, ◌≡◌, refl, String, true, false, Option, none, some, List, [], ◌∷◌, codes, ◌==◌,
  ◌++◌, if◌then◌else◌,
}
use share_sentinel.Graph.{value, missing, Permission, link_of, lower_or, is_broad, id_of}
use share_sentinel.Lifecycle.Processor.{status_code, remove_sharing_permission}
use share_sentinel.Remediation.World.{
  Service, listed, RemediationStatus, pending, in_progress, completed, Remediation, EventRow, World,
  find_event, find_remediation, update_remediation,
}
use share_sentinel.Remediation.Remove.{
  Tally, remove_permissions_for_item, remove_loop, remove_one, validate_removal,
}
use share_sentinel.Remediation.Execute.{
  place_of, parent_of, cascade_place, close_row, execute_remediation,
}
use share_sentinel.Remediation.Poller.{oldest_pending, poll}
use share_sentinel.Remediation.Closing.{IsCleanListing, IsCleanParent}
use share_sentinel.Remediation.Settled.{is_settled, completed_clean, poll_settles}
use share_sentinel.Remediation.Counts.{open_ids, delete_all, removal_counts}

abbrev permission : String → String → Permission
permission i scope = record {
  id = some i;
  link =
      value (some (record { scope = value (codes scope); link_type = missing; web_url = missing }));
  expiration = missing;
}

-- Graph as the permissions of one item; a DELETE removes them all.
abbrev one_item : Service (List Permission)
one_item = record {
  get_sharing_permissions = λ g _ _. listed g;
  delete = λ _ _ _ _. (status_code 204, []);
}

abbrev broad_link : List Permission
broad_link = permission "p1" "anonymous" ∷ permission "p2" "users" ∷ []

abbrev event : Option String → EventRow
event drive = record {
  event_id = "e1";
  drive_id = drive;
  item_id = some "i1";
  parent_event_id = none;
  is_remediated = false;
  sharing_links = none;
}

abbrev request : RemediationStatus → Remediation
request s = record {
  id = 4;
  event_id = "e1";
  status = s;
  created_at = 50;
  started_at = none;
  completed_at = none;
  permissions_removed = 0;
  permissions_failed = 0;
  validation_passed = none;
  error_message = none;
  cascade_source = none;
  parent_remediation = none;
}

abbrev world : Option String → RemediationStatus → World (List Permission)
world drive s = record {
  graph = broad_link;
  lifecycle = [];
  events = event drive ∷ [];
  remediations = request s ∷ [];
  next_remediation = 5;
  audit = [];
  notifications = [];
}

abbrev result : World (List Permission)
result =
    (execute_remediation one_item 100 true (request in_progress) (world (some "d1") in_progress)).0

abbrev closed : Remediation
closed = record (request in_progress) {
  status = completed;
  completed_at = some 100;
  permissions_removed = 1;
  validation_passed = some true;
}

world-event : find_event "e1" (world (some "d1") in_progress).events ≡ some (event (some "d1"))
unfolding find_event
world-event = refl

event_place : place_of (event (some "d1")) ≡ some ("d1", "i1")
unfolding place_of
event_place = refl

result_returns :
    execute_remediation one_item 100 true (request in_progress) (world (some "d1") in_progress)
    ≡ (result, some tt)
unfolding execute_remediation find_event remove_permissions_for_item remove_loop link_of lower_or
    is_broad same_codes lower id_of remove_one remove_sharing_permission validate_removal
result_returns = refl

result_row : find_remediation 4 result.remediations ≡ some closed
unfolding execute_remediation find_remediation close_row update_remediation find_event
    remove_permissions_for_item remove_loop link_of lower_or is_broad same_codes lower id_of
    remove_one remove_sharing_permission validate_removal
result_row = refl

completed_clean_example :
    IsCleanListing (listed result.graph)
    × IsCleanParent one_item 100 true result.graph (
        cascade_place one_item 100 true
          (parent_of one_item 100 true (event (some "d1")) (world (some "d1") in_progress).events))
    × (closed.permissions_failed ≡ 0)
completed_clean_example =
    completed_clean one_item 100 true (request in_progress) (world (some "d1") in_progress) result
      (event (some "d1")) "d1" "i1" closed world-event event_place result_returns result_row refl

pending_row : oldest_pending (world (some "d1") pending).remediations ≡ some (request pending)
unfolding oldest_pending
pending_row = refl

polled_row :
    find_remediation 4 (poll one_item 100 true (world (some "d1") pending)).remediations
    ≡ some (record closed { started_at = some 100 })
unfolding poll find_remediation execute_remediation close_row update_remediation find_event
    remove_permissions_for_item remove_loop link_of lower_or is_broad same_codes lower id_of
    remove_one remove_sharing_permission validate_removal
polled_row = refl

poll_settles_example : is_settled completed ≡ true
poll_settles_example =
    poll_settles one_item 100 true (world (some "d1") pending) (request pending)
      (record closed { started_at = some 100 }) pending_row polled_row

abbrev three_links : List Permission
three_links =
    permission "p1" "anonymous" ∷ permission "p2" "users" ∷ permission "p3" "Organization" ∷ []

-- Graph as the calls it got; it refuses to delete "p3".
abbrev one_refused : Service (List String)
one_refused = record {
  get_sharing_permissions = λ g _ _. listed three_links;
  delete = λ g _ _ p. (status_code (if p == "p3" then 500 else 204), g ++ p ∷ []);
}

abbrev untouched : World (List String)
untouched = record {
  graph = [];
  lifecycle = [];
  events = event (some "d1") ∷ [];
  remediations = request in_progress ∷ [];
  next_remediation = 5;
  audit = [];
  notifications = [];
}

-- One deletion is confirmed and one refused.
three_deleted :
    delete_all one_refused "d1" "i1" (open_ids three_links) []
    ≡ record { graph = "p1" ∷ "p3" ∷ []; confirmed = 1; refused = 1 }
unfolding delete_all id_of same_codes lower
three_deleted = refl

removal_counts_example :
    let x = delete_all one_refused "d1" "i1" (open_ids three_links) [] in
    (w' : World (List String)) × (t : Tally) × (remove_permissions_for_item one_refused 100 "e1"
        "d1" "i1" untouched
      ≡ (w', some t))
    × (w'.graph ≡ x.graph)
    × (t.removed_count ≡ x.confirmed)
    × (t.failed_count ≡ x.refused)
removal_counts_example =
    removal_counts one_refused 100 "e1" "d1" "i1" three_links untouched refl
      (refl, (refl, (refl, tt)))
