-- ===== src/Pipeline/SecondLook.antt =====
-- services/worker/app/pipeline/second_look.py, and its call in `_process_single_file` of
-- orchestrator.py. Of `AnalysisResponse` the model keeps what the decision and the annotation read;
-- the cost is carried and never computed with.
use share_sentinel.Prelude.{
  ℕ, String, Bool, true, false, not, ◌&&◌, Option, none, some, List, [], ◌∷◌, elem, if◌then◌else◌,
}
use share_sentinel.Prelude.Int.{ℤ}
use share_sentinel.Escalation.Tier.{Tier, compute_escalation_tier, should_escalate}
use share_sentinel.Pipeline.Retry.{Attempt, Outcome, returns, retry_with_backoff}

-- The annotation that `run_second_look` leaves on a response.
pub record SecondLookMeta : Type 0 where
  pub provider : String
  pub model : String
  pub agreed : Bool
  pub categories : List String
  pub tier : Tier
  pub summary : String
  pub reasoning : String
  pub cost : ℕ

pub record Response : Type 0 where
  pub category_ids : List String
  pub affected_count : ℤ
  pub pii_types_found : List String
  pub context : String
  pub summary : String
  pub reasoning : String
  pub provider : String
  pub model : String
  pub cost : ℕ
  pub second_look : Option SecondLookMeta

unfoldable pub escalation_tier : Response → Tier
escalation_tier r = compute_escalation_tier r.category_ids r.affected_count (some r.pii_types_found)

unfoldable pub escalates : Response → Bool
escalates r = should_escalate (escalation_tier r)

abbrev pub exempt_modes : List String
exempt_modes = "filename_only" ∷ "hash_reuse" ∷ "folder_flag" ∷ []

unfoldable pub needs_second_look : Response → String → Bool
needs_second_look r analysis_mode = if elem analysis_mode exempt_modes then false else escalates r

-- The entries of the audit log.
pub data Entry : Type 0 where
  second_look_start : List String → Tier → Entry
  second_look_failed : Entry
  second_look_complete : List String → Tier → Bool → Entry

-- The exceptions of a provider's call.
pub data Failure : Type 0 where
  transient_ai_error connection_error timeout_error other_error : Failure

unfoldable pub is_retryable : Failure → Bool
is_retryable other_error = false
is_retryable _ = true

unfoldable pub second_look_meta : Response → SecondLookMeta
second_look_meta r = record {
  provider = r.provider;
  model = r.model;
  agreed = escalates r;
  categories = r.category_ids;
  tier = escalation_tier r;
  summary = r.summary;
  reasoning = r.reasoning;
  cost = r.cost;
}

-- A provider's answer: the response, and whether it reports a success. A permanent failure is a response
-- without categories that reports none.
pub record Analysis : Type 0 where
  pub response : Response
  pub success : Bool

-- The verdict, and what was logged on the way.
pub record Looked : Type 0 where
  pub response : Response
  pub log : List Entry

-- What follows the second provider's answer, of which the report of success is not read.
unfoldable pub judge : Response → Outcome Analysis Failure → Looked
judge initial (returns a) =
    let second = a.response in
    let log =
      second_look_start initial.category_ids (escalation_tier initial)
      ∷ second_look_complete second.category_ids (escalation_tier second) (escalates second)
      ∷ [] in
    if not (escalates second)
    then record {
      response = record second { second_look = some (second_look_meta second) };
      log = log;
    }
    else record {
      response = record initial { second_look = some (second_look_meta second) };
      log = log;
    }
judge initial _ = record {
  response = initial;
  log = second_look_start initial.category_ids (escalation_tier initial) ∷ second_look_failed ∷ [];
}

-- `base_delay` of the retry, 2 seconds, and its three attempts.
unfoldable pub run_second_look : (ℕ → Attempt Analysis Failure) → Response → Looked
run_second_look analyze initial =
    judge initial (retry_with_backoff is_retryable 2 analyze 3).outcome

-- The guarded call in the orchestrator; `provider` is none without a second-look provider.
unfoldable pub second_opinion :
    Option (ℕ → Attempt Analysis Failure) → Bool → Response → String → Response
second_opinion none second_look_enabled initial analysis_mode = initial
second_opinion (some analyze) second_look_enabled initial analysis_mode =
    if second_look_enabled && needs_second_look initial analysis_mode
    then (run_second_look analyze initial).response
    else initial
