-- ===== src/Lifecycle/Tests.antt =====
-- Concrete runs of the lifecycle processor and of enrollment.
use share_sentinel.Prelude.{
  ℕ, ◌+◌, ◌*◌, ◌≤◌, String, ◌≡◌, refl, Bool, true, Option, none, some, [], ◌∷◌, ◌++◌, All, length,
  arith, Codes, codes, same_codes, lower, leb, if◌then◌else◌,
}
use mathlib.Core.Option
use share_sentinel.Graph.{value, missing, Permission, link_of, lower_or, is_broad, id_of}
use share_sentinel.Lifecycle.Row.{
  Status, active, expired_removed, error, notified_180d, Row, Table, find,
}
use share_sentinel.Lifecycle.Processor.{
  Config, Environment, World, remove_sharing_permission, Response, status_code, transport_error,
  returns, process_lifecycle_milestones, attempts_after, max_removal_attempts, seconds_per_day,
}
use share_sentinel.Lifecycle.Table.{count, IsKeyed}
use share_sentinel.Lifecycle.Rowwise.{row_pass, pass_rowwise}
use share_sentinel.Lifecycle.Expiry.{
  pass_table, IsSameLink, run_passes, expired-removed, expired-failed, repeated_failures,
}
use share_sentinel.Lifecycle.Calls.{deletions_overdue}
use share_sentinel.Lifecycle.Enrollment.{Event, time, Store, enroll_all, enroll_sharing_links}
use share_sentinel.Lifecycle.Enrolled.{enroll_again}

abbrev row : Status → Option ℕ → Row
row s attempts = record {
  id = 7;
  event_id = "e1";
  permission_id = "p1";
  drive_id = "d1";
  item_id = "i1";
  user_id = "u1";
  file_name = "grades.xlsx";
  sharing_scope = codes "anonymous";
  sharing_type = codes "view";
  link_url = "";
  link_created_at = 1000;
  ms_expiration_at = none;
  status = s;
  notified = λ _. none;
  removal_attempts = attempts;
  removal_attempted_at = none;
  removal_succeeded = none;
  removal_error = none;
  mail = some "u1@example.edu";
}

-- A pass 190 days, or one day, after the link was made.
abbrev pass_at : ℕ → Response → Environment
pass_at days r = record {
  now = λ _. 1000 + days * 86400;
  delete = λ _ _ _ _ _. r;
  send = λ _ _. returns true;
}

abbrev pass_gone : Environment
pass_gone = pass_at 190 (status_code 404)

abbrev pass_down : Environment
pass_down = pass_at 190 (transport_error "timeout")

abbrev config : ℕ → Bool → Config
config d b = record { max_days = d; lifecycle_notifications_enabled = b }

abbrev world : Row → World
world r = record { table = r ∷ []; emails = []; deletions = [] }

abbrev fresh : Row
fresh = row active none

one_row-IsKeyed : (r : Row) → IsKeyed (world r).table
unfolding count
one_row-IsKeyed r = record { once = λ k. ground arith }

one_row-find : (r : Row) → r.id ≡ 7 → find 7 (world r).table ≡ some r
unfolding find
one_row-find r h = ground arith

pass_rowwise_example :
    ((k : ℕ)
      → find k (process_lifecycle_milestones pass_gone (config 180 true) (world fresh)).0.table
        ≡ Option.map (row_pass pass_gone (config 180 true)) (find k (world fresh).table))
    × IsKeyed (process_lifecycle_milestones pass_gone (config 180 true) (world fresh)).0.table
pass_rowwise_example =
    pass_rowwise pass_gone (config 180 true) (world fresh) (one_row-IsKeyed fresh)

expired-removed_example :
    (r' : Row) × (find 7 (pass_table pass_gone (config 180 true) (world fresh)) ≡ some r')
    × (r'.status ≡ expired_removed)
    × (r'.removal_succeeded ≡ some true)
    × (r'.removal_attempted_at ≡ some 16417000)
    × (r'.notified notified_180d ≡ some 16417000)
unfolding remove_sharing_permission
expired-removed_example =
    expired-removed pass_gone (config 180 true) (world fresh) (one_row-IsKeyed fresh) 7 {r = fresh}
      {success = true} (omega arith) (omega arith) (one_row-find fresh refl)
      (refl, refl, omega arith) refl

expired-failed_example :
    (r' : Row) × (find 7 (pass_table pass_down (config 180 true) (world fresh)) ≡ some r')
    × (r'.removal_attempts ≡ some (attempts_after fresh))
    × (r'.status ≡ (if leb max_removal_attempts (attempts_after fresh) then error else active))
    × (r'.removal_error ≡ some "timeout")
    × (r'.notified notified_180d ≡ none)
    × IsSameLink fresh r'
unfolding remove_sharing_permission
expired-failed_example =
    expired-failed pass_down (config 180 true) (world fresh) (one_row-IsKeyed fresh) 7 {r = fresh}
      {message = "timeout"} (omega arith) (omega arith) (one_row-find fresh refl)
      (refl, refl, omega arith) refl

repeated_failures_example :
    (r' : Row) × (find 7
        (run_passes
          (pass_down ∷ pass_down ∷ [])
          (config 180 true)
          (world (row active (some 3)))).table
      ≡ some r')
    × (r'.removal_attempts ≡ some 5)
    × (r'.status ≡ error)
unfolding remove_sharing_permission attempts_after
repeated_failures_example =
    repeated_failures (pass_down ∷ pass_down ∷ []) (config 180 true) (world (row active (some 3))) 7
      3 (row active (some 3)) (omega arith) (omega arith) (one_row-IsKeyed (row active (some 3)))
      (one_row-find (row active (some 3)) refl) refl refl refl
      ((omega arith, ("timeout", refl)), ((omega arith, ("timeout", refl)), tt)) (omega arith)
      (omega arith)

deletions_overdue_example :
    All
      (λ r. (r.status ≡ active) × (r.link_created_at + 180 * seconds_per_day ≤ 16417000))
      (process_lifecycle_milestones pass_gone (config 180 true) (world fresh)).0.deletions
deletions_overdue_example =
    deletions_overdue pass_gone (config 180 true) (world fresh) 16417000 (λ _. omega arith) refl

abbrev event : Event
event = record {
  event_id = "e1";
  user_id = "u1";
  drive_id = "d1";
  item_id = "i1";
  file_name = "grades.xlsx";
}

abbrev shared : Permission
shared = record {
  id = some "p1";
  link = value (
      some (record {
        scope = value (codes "Anonymous");
        link_type = value (codes "view");
        web_url = missing;
      }));
  expiration = missing;
}

abbrev no_profile : String → Option String
no_profile _ = none

-- A clock that reads no text.
abbrev unread : Codes → Option ℕ
unread _ = none

abbrev empty_store : Store
empty_store = record { table = []; next_id = 1 }

shared_enrolls :
    (enroll_sharing_links unread no_profile event (time 1000) (shared ∷ []) empty_store).1 ≡ some 1
unfolding enroll_sharing_links enroll_all link_of lower_or is_broad same_codes lower id_of
shared_enrolls = refl

enroll_again_example :
    let enrolled =
      λ (x : Store). enroll_sharing_links unread no_profile event (time 1000) (shared ∷ []) x in
    (new : Table) × ((enrolled empty_store).0.table ≡ [] ++ new)
    × (length new ≡ 1)
    × ((enrolled (enrolled empty_store).0).0.table ≡ (enrolled empty_store).0.table)
    × ((enrolled (enrolled empty_store).0).1 ≡ some 0)
enroll_again_example =
    enroll_again unread no_profile event 1000 1 (shared ∷ []) empty_store shared_enrolls
