-- ===== src/Audit/Query.antt =====
-- The audit queries of Graph in services/lifecycle-cron/app/audit_poller.py: `_get_or_create_query`,
-- `_record_query_timeout` and `_wait_for_query_completion`. Times are seconds; Redis is taken to answer,
-- and its entries for queries to be in the current format. A window is its start and its end.
use share_sentinel.Prelude.{
  ℕ, zero, suc, ◌+◌, String, Bool, true, false, ◌&&◌, Option, none, some, List, [], ◌∷◌, ltb, leb,
  beq, if◌then◌else◌,
}

abbrev pub max_query_resumes : ℕ
max_query_resumes = 2

abbrev pub inflight_query_ttl : ℕ
inflight_query_ttl = 86_400

abbrev pub query_poll_interval : ℕ
query_poll_interval = 10

abbrev pub query_timeout : ℕ
query_timeout = 1800

-- The entry of a window: the id of its query and the waits for it that have timed out.
pub record Inflight : Type 0 where
  pub query_start : ℕ
  pub end_time : ℕ
  pub id : String
  pub timeouts : ℕ
  pub expires_at : ℕ

abbrev pub is_of : ℕ → ℕ → Inflight → Bool
is_of query_start end_time q = beq q.query_start query_start && beq q.end_time end_time

-- GET of a window's key.
unfoldable pub get_inflight : ℕ → ℕ → ℕ → List Inflight → Option Inflight
get_inflight now query_start end_time [] = none
get_inflight now query_start end_time (q ∷ qs) =
    if is_of query_start end_time q
    then (if ltb now q.expires_at then some q else none)
    else get_inflight now query_start end_time qs

-- DELETE
unfoldable pub delete_inflight : ℕ → ℕ → List Inflight → List Inflight
delete_inflight query_start end_time [] = []
delete_inflight query_start end_time (q ∷ qs) =
    let rest = delete_inflight query_start end_time qs in
    if is_of query_start end_time q then rest else q ∷ rest

-- SET … EX
unfoldable pub set_inflight : ℕ → ℕ → ℕ → String → (timeouts : ℕ) → List Inflight → List Inflight
unfolding delete_inflight
set_inflight now query_start end_time id timeouts qs =
    record {
      query_start = query_start;
      end_time = end_time;
      id = id;
      timeouts = timeouts;
      expires_at = now + inflight_query_ttl;
    }
    ∷ delete_inflight query_start end_time qs

pub data QueryStatus : Type 0 where
  succeeded running not_started failed missing unknown : QueryStatus

-- One request of the wait: a status, an answer of 502, 503, 504 or 429, or another exception.
pub data Reply : Type 0 where
  answered : QueryStatus → Reply
  transient broken : Reply

-- What Graph answers on queries; the creation is none if it raises, which it does only after the
-- second request if the first one is refused for its filters.
pub record QueryAnswers : Type 0 where
  pub status : String → QueryStatus
  pub created : Option String
  pub reply : String → ℕ → Reply

abbrev pub is_viable : QueryStatus → Bool
is_viable succeeded = true
is_viable running = true
is_viable not_started = true
is_viable _ = false

abbrev pub create_query : ℕ → ℕ → ℕ → Option String → List Inflight → List Inflight × Option String
create_query now query_start end_time none qs = (qs, none)
create_query now query_start end_time (some id) qs =
    (set_inflight now query_start end_time id 0 qs, some id)

abbrev pub resume :
    ℕ → ℕ → ℕ → QueryAnswers → Option Inflight → List Inflight → List Inflight × Option String
resume now query_start end_time g none qs = create_query now query_start end_time g.created qs
resume now query_start end_time g (some q) qs =
    if leb max_query_resumes q.timeouts
    then create_query now query_start end_time g.created qs
    else if is_viable (g.status q.id)
    then (qs, some q.id)
    else create_query now query_start end_time g.created qs

-- The entries, and the id or the exception.
unfoldable pub get_or_create_query :
    ℕ → ℕ → ℕ → QueryAnswers → List Inflight → List Inflight × Option String
unfolding get_inflight set_inflight
get_or_create_query now query_start end_time g qs =
    resume now query_start end_time g (get_inflight now query_start end_time qs) qs

abbrev pub timeouts_of : Option Inflight → ℕ
timeouts_of none = 0
timeouts_of (some q) = q.timeouts

unfoldable pub record_query_timeout : ℕ → ℕ → ℕ → String → List Inflight → List Inflight
unfolding get_inflight set_inflight
record_query_timeout now query_start end_time id qs =
    set_inflight now query_start end_time id
      (suc (timeouts_of (get_inflight now query_start end_time qs))) qs

-- How the wait ends.
pub data Waited : Type 0 where
  complete timed_out raised out_of_fuel : Waited

-- What one reply makes of the wait: it goes on if it is none.
abbrev pub settles : Reply → Option Waited
settles (answered succeeded) = some complete
settles (answered failed) = some raised
settles (answered _) = none
settles transient = none
settles broken = some raised

abbrev pub settled_or : Option Waited → Waited → Waited
settled_or none rest = rest
settled_or (some w) rest = w

-- `while elapsed < QUERY_TIMEOUT_S`, on fuel.
unfoldable pub wait : (fuel : ℕ) → (ℕ → Reply) → (request elapsed : ℕ) → Waited
wait zero reply request elapsed = out_of_fuel
wait (suc fuel) reply request elapsed =
    let rest = wait fuel reply (suc request) (elapsed + query_poll_interval) in
    if ltb elapsed query_timeout then settled_or (settles (reply request)) rest else timed_out

-- A request for each interval, and one test more.
abbrev pub wait_fuel : ℕ
wait_fuel = 181

unfoldable pub wait_for_query_completion : (ℕ → Reply) → Waited
unfolding wait
wait_for_query_completion reply = wait wait_fuel reply 0 0
