-- ===== src/Audit/Tests.antt =====
-- The theorems on the audit poller at concrete inputs.
use share_sentinel.Prelude.{
  ℕ, zero, suc, ◌+◌, ◌-◌, ◌≡◌, ◌≢◌, refl, String, true, false, none, some, List, [], ◌∷◌, elem,
  arith,
}
use share_sentinel.Audit.Query.{
  QueryAnswers, running, succeeded, Reply, answered, get_inflight, get_or_create_query,
  create_query, wait_for_query_completion, wait, out_of_fuel,
}
use share_sentinel.Audit.Window.{
  AuditRecord, AuditWorld, WindowAnswers, Progress, process_record, process_records, is_seen,
  poll_window, overlap,
}
use share_sentinel.Audit.Chunks.{poll_chunked}
use share_sentinel.Audit.Waited.{first_settled, wait_for_query_completion_ends}
use share_sentinel.Audit.Covered.{Ends, poll_chunked-Ends}
use share_sentinel.Audit.Delivered.{deliveries, deliveries-process_records}
use share_sentinel.Audit.Stuck.{poll_window_unreadable}
use share_sentinel.Audit.Resumed.{zombie_abandoned}

-- The third reply tells success.
abbrev soon : ℕ → Reply
soon zero = answered running
soon (suc zero) = answered running
soon i = answered succeeded

wait_for_query_completion_ends_example :
    (wait_for_query_completion soon ≢ out_of_fuel)
    × (wait_for_query_completion soon ≡ first_settled 180 soon 0)
wait_for_query_completion_ends_example = wait_for_query_completion_ends soon

abbrev sharing : String → AuditRecord
sharing id = record { event_id = id; is_provisioning = false; is_readable = true; created = 900 }

abbrev queries : (ℕ → Reply) → QueryAnswers
queries reply = record { status = λ id. running; created = some "q1"; reply = λ id i. reply i }

abbrev window : ℕ → (ℕ → Reply) → List AuditRecord → WindowAnswers
window now reply records = record {
  now = now;
  queries = queries reply;
  records = λ id. some records;
  provisioning_enabled = false;
  handles = λ r. true;
}

abbrev world : AuditWorld
world = record {
  state = record {
    last_poll_time = 1000;
    last_poll_status = true;
    events_found = 0;
    updated_at = 1000;
  };
  inflight = [];
  seen = [];
  jobs = [];
  handled = [];
  recon_last = none;
}

abbrev twice : List AuditRecord
twice = sharing "a" ∷ sharing "b" ∷ sharing "a" ∷ []

-- Three windows of two hours, and the rest.
poll_chunked-Ends_example :
    let out = poll_chunked (λ i. window (30_000 + i) soon twice) true 25_000 1000 world in
    Ends 1000 25_000 out.1 out.0.state.last_poll_time
poll_chunked-Ends_example =
    poll_chunked-Ends (λ i. window (30_000 + i) soon twice) 25_000 1000 world refl (omega arith)

abbrev before : Progress
before = record { world = world; new_count = 0; provisioning_count = 0 }

deliveries-process_records_example :
    let p' = (process_records (window 2000 soon twice) twice (before, true)).0 in
    (deliveries "a" p'.world ≡ deliveries "a" world + 1) × (is_seen 2000 "a" p'.world.seen ≡ true)
unfolding process_records process_record is_seen elem
deliveries-process_records_example =
    deliveries-process_records (window 2000 soon twice) "a" twice before refl

abbrev unreadable : AuditRecord
unreadable = record (sharing "c") { is_readable = false }

poll_window_unreadable_example :
    let out = poll_window (window 2000 soon (sharing "a" ∷ unreadable ∷ [])) 1000 2000 true world in
    (out.1 ≡ none) × (out.0.state ≡ world.state)
poll_window_unreadable_example =
    poll_window_unreadable (window 2000 soon (sharing "a" ∷ unreadable ∷ [])) 1000 2000 true world
      (sharing "a" ∷ unreadable ∷ []) (λ id. refl) refl

-- The query does not end.
abbrev pending : ℕ → Reply
pending i = answered running

zombie_abandoned_example :
    let w1 = (poll_window (window 2000 pending []) 1000 2000 true world).0 in
    let w2 = (poll_window (window 5000 pending []) 1000 2000 true w1).0 in
    get_or_create_query 8000 (1000 - overlap) 2000 (queries pending) w2.inflight
    ≡ create_query 8000 (1000 - overlap) 2000 (some "q1") w2.inflight
unfolding get_inflight wait_for_query_completion wait
zombie_abandoned_example =
    zombie_abandoned (window 2000 pending []) (window 5000 pending []) (window 8000 pending []) 1000
      2000 true world "q1" refl refl refl (omega arith) refl refl (omega arith)
