-- ===== src/Pipeline/Verdict.antt =====
-- What a second look can change of a verdict.
use share_sentinel.Prelude.{
  ℕ, String, ◌≡◌, refl, inl, inr, Bool, true, false, not, ◌&&◌, Bool-cases, some, arith, elem, [],
}
use share_sentinel.Prelude.Int.{pos}
use share_sentinel.Escalation.Tier.{
  no_tier, compute_escalation_tier, should_escalate, meets, exceeds, contact_escalates,
}
use share_sentinel.Pipeline.Retry.{
  Attempt, Outcome, returns, raises, raises_none, retry_with_backoff,
}
use share_sentinel.Pipeline.SecondLook.{
  Response, Analysis, Failure, escalates, escalation_tier, exempt_modes, is_retryable,
  needs_second_look, judge, run_second_look, second_opinion,
}

-- Whether the retried call ended in a response that does not escalate, be it of a success or not.
abbrev pub clears : Outcome Analysis Failure → Bool
clears (returns second) = not (escalates second.response)
clears _ = false

escalates-judge :
    (initial : Response) (o : Outcome Analysis Failure)
    → escalates initial ≡ true
    → escalates (judge initial o).response ≡ not (clears o)
unfolding judge escalates escalation_tier
escalates-judge initial (returns second) h = elim (Bool-cases (escalates second.response)) [
  | inl up ↦ rw (up, judge) h
  | inr down ↦ rw (down, judge) down
]
escalates-judge initial (raises x) h = h
escalates-judge initial raises_none h = h

-- The verdict that leaves the second look escalates exactly when the first one did and the second
-- model did not clear it: it is cleared only where a provider is there, second looks are enabled, the mode is not
-- exempt and the retried call returned a response that does not
-- escalate, be it of a success or not.
pub escalates-second_opinion :
    (analyze : ℕ → Attempt Analysis Failure) (enabled : Bool) (initial : Response) (mode : String)
    → escalates (second_opinion (some analyze) enabled initial mode) ≡ (
        escalates initial
        && not (
            enabled
            && (not (elem mode exempt_modes)
                && clears (retry_with_backoff is_retryable 2 analyze 3).outcome)))
unfolding second_opinion needs_second_look run_second_look
escalates-second_opinion analyze enabled initial mode = elim (Bool-cases (escalates initial)) [
  | inl up ↦
      ground
        (arith, escalates-judge initial (retry_with_backoff is_retryable 2 analyze 3).outcome up)
  | inr down ↦ ground arith
]

-- The answer of a provider whose call failed for good: it finds nothing, and reports no success.
abbrev pub IsFailureReport : Analysis → Type 0
IsFailureReport a =
    (a.success ≡ false)
    × (a.response.category_ids ≡ [])
    × (a.response.affected_count ≡ pos 0)
    × (a.response.pii_types_found ≡ [])

nothing_found : compute_escalation_tier [] (pos 0) (some []) ≡ no_tier
unfolding compute_escalation_tier meets exceeds elem contact_escalates
nothing_found = refl

failure_report_silent : (a : Analysis) → IsFailureReport a → escalates a.response ≡ false
unfolding escalates escalation_tier should_escalate
failure_report_silent a (fails, cats, people, pii) = rw (cats, people, pii, nothing_found) refl

-- If the retried call of the second provider returns its report of a permanent failure, where the mode is
-- not exempt, a verdict that escalates is replaced by one that does not, and its categories are lost,
-- as if the second model had found the file harmless.
pub failed_look_clears :
    (analyze : ℕ → Attempt Analysis Failure) (initial : Response) (mode : String) (a : Analysis)
    → (retry_with_backoff is_retryable 2 analyze 3).outcome ≡ returns a
    → IsFailureReport a
    → elem mode exempt_modes ≡ false
    → escalates initial ≡ true
    → let r = second_opinion (some analyze) true initial mode in
      (escalates r ≡ false) × (r.category_ids ≡ [])
unfolding second_opinion needs_second_look run_second_look judge escalates escalation_tier
    should_escalate
failed_look_clears analyze initial mode a out report covered up =
    let quiet = failure_report_silent a report in
    rw (covered, up, out, judge, quiet) (quiet, report.1)
