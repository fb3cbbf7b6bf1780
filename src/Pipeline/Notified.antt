-- ===== src/Pipeline/Notified.antt =====
-- Which verdicts raise an alert, and where the stored verdict and the alert disagree.
use share_sentinel.Prelude.{ℕ, String, ◌≡◌, refl, true, false, some, [], ◌++◌, elem, arith}
use share_sentinel.Prelude.Int.{pos}
use share_sentinel.Escalation.Tier.{tier_3_ids, conditional_ids, contact_escalates, should_escalate}
use share_sentinel.Escalation.Members.{Includes}
use share_sentinel.Escalation.Monotone.{not_escalates_iff}
use share_sentinel.Escalation.Sustain.{override_shape}
use share_sentinel.Pipeline.SecondLook.{Response, escalation_tier, escalates}
use share_sentinel.Pipeline.Hashes.{HashRow, check_reuse}
use share_sentinel.Pipeline.Record.{
  Database, Job, override_for, verdict_of, record_and_notify, reused_response, reuse_verdict,
}

-- A tier that the overrides leave escalating is the response's own.
alert-escalates :
    (j : Job) (r : Response)
    → should_escalate (override_for j r).adjusted_tier ≡ true
    → escalates r ≡ true
unfolding override_for escalates should_escalate
alert-escalates j r h = ground (
  arith,
  override_shape r.category_ids r.context (some r.pii_types_found) j.file_name j.site_url
      j.object_id (escalation_tier r),
)

reused_quiet :
    (row : HashRow)
    → Includes row.category_ids (tier_3_ids ++ conditional_ids)
    → escalates (reused_response row) ≡ false
unfolding reused_response escalates escalation_tier elem contact_escalates
reused_quiet row plain =
    (not_escalates_iff row.category_ids (pos 0) []).1 (plain, λ i m. refl, λ both. cc, ground arith)

-- A file whose stored categories are all of tier 3 or conditional raises no alert when its content
-- comes again within the reuse period, whatever kinds of data and however many people its first
-- analysis reported.
pub reuse_silent :
    (now days : ℕ) (j : Job) (h : String) (db : Database) {row : HashRow}
    → (check_reuse now days h db.hashes).0 ≡ some row
    → Includes row.category_ids (tier_3_ids ++ conditional_ids)
    → (db' : Database) × (reuse_verdict now days j h db ≡ some db') × (db'.alerts ≡ db.alerts)
unfolding reuse_verdict record_and_notify verdict_of
reuse_silent now days j h db {row} found plain =
    let db' =
      record_and_notify now j (reused_response row) "hash_reuse"
        (record db { hashes = (check_reuse now days h db.hashes).1 }) in
    (
      db',
      rw (found, reuse_verdict),
      ground (arith, alert-escalates j (reused_response row), reused_quiet row plain),
    )
