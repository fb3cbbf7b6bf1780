-- ===== src/Pipeline/Tests.antt =====
-- Concrete runs of the second look and of the recording of a verdict.
use share_sentinel.Prelude.{
  ℕ, ◌≡◌, refl, String, true, false, not, ◌&&◌, none, some, List, [], ◌∷◌, codes, elem,
}
use share_sentinel.Prelude.Int.{pos}
use share_sentinel.Escalation.Tier.{meets, compute_escalation_tier, should_escalate}
use share_sentinel.Pipeline.Retry.{
  Attempt, returned, raised, returns, retry_with_backoff, retry_from,
}
use share_sentinel.Pipeline.SecondLook.{
  Response, Analysis, Failure, timeout_error, escalates, escalation_tier, exempt_modes,
  is_retryable, second_opinion,
}
use share_sentinel.Pipeline.Verdict.{clears, escalates-second_opinion, failed_look_clears}
use share_sentinel.Pipeline.Record.{Job}

abbrev response : List String → List String → String → Response
response category_ids pii context = record {
  category_ids = category_ids;
  affected_count = pos 1;
  pii_types_found = pii;
  context = context;
  summary = "";
  reasoning = "";
  provider = "anthropic";
  model = "";
  cost = 0;
  second_look = none;
}

abbrev grades : Response
grades = response ("ferpa" ∷ []) ("name" ∷ "grades" ∷ []) "mixed"

abbrev second_model : ℕ → Attempt Analysis Failure
second_model ℕ.zero = raised timeout_error
second_model (ℕ.suc _) =
    returned (record { response = response ("coursework" ∷ []) [] "coursework"; success = true })

escalates-second_opinion_example :
    escalates (second_opinion (some second_model) true grades "text") ≡ (
      escalates grades
      && not (
          true
          && (not (elem "text" exempt_modes)
              && clears (retry_with_backoff is_retryable 2 second_model 3).outcome)))
escalates-second_opinion_example = escalates-second_opinion second_model true grades "text"

-- The second provider's key is refused.
abbrev refused_model : ℕ → Attempt Analysis Failure
refused_model attempt = returned (record {
  response = record (response [] [] "mixed") { affected_count = pos 0 };
  success = false;
})

refused_outcome :
    (retry_with_backoff is_retryable 2 refused_model 3).outcome
    ≡ returns (record {
      response = record (response [] [] "mixed") { affected_count = pos 0 };
      success = false;
    })
unfolding retry_with_backoff retry_from
refused_outcome = refl

text_covered : elem "text" exempt_modes ≡ false
unfolding elem
text_covered = refl

grades_escalate : escalates grades ≡ true
unfolding escalates escalation_tier compute_escalation_tier meets elem should_escalate
grades_escalate = refl

failed_look_clears_example :
    (escalates (second_opinion (some refused_model) true grades "text") ≡ false)
    × ((second_opinion (some refused_model) true grades "text").category_ids ≡ [])
failed_look_clears_example =
    failed_look_clears refused_model grades "text" _ refused_outcome (refl, refl, refl, refl)
      text_covered grades_escalate

abbrev job : Job
job = record {
  event_id = "e1";
  file_name = codes "roster.xlsx";
  site_url = [];
  object_id = [];
  file_hash = some "h1";
  rescan = none;
  skip_notification = false;
}

abbrev births : Response
births = response ("coursework" ∷ []) ("name" ∷ "dob" ∷ []) "coursework"
