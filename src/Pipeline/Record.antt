-- ===== src/Pipeline/Record.antt =====
-- `_record_and_notify` of services/worker/app/pipeline/orchestrator.py, with the tier that
-- `create_verdict` of database/repositories.py stores, and the reuse of a verdict by hash in
-- `_process_single_file`. Of a row or a payload the model keeps what the decision determines; the
-- database and the dispatcher are taken to succeed.
use share_sentinel.Prelude.{
  ℕ, String, Bool, true, false, not, ◌&&◌, Option, none, some, List, [], ◌∷◌, ◌++◌, Codes, elem,
  map, ◌==◌, if◌then◌else◌,
}
use share_sentinel.Prelude.Int.{pos}
use share_sentinel.Escalation.Tier.{Tier, tier_1_ids, tier_2_ids, should_escalate}
use share_sentinel.Escalation.Overrides.{EscalationOverride, apply_escalation_overrides}
use share_sentinel.Pipeline.SecondLook.{Response, escalation_tier}
use share_sentinel.Pipeline.Hashes.{Hashes, HashRow, store_hash, check_reuse}

pub record Verdict : Type 0 where
  pub event_id : String
  pub category_ids : List String
  pub escalation_tier : Tier
  pub analysis_mode : String
  pub notification_required : Bool

-- `folder_content_snapshots`
pub record Snapshot : Type 0 where
  pub parent_event_id : String
  pub child_item_id : String
  pub child_name : Codes
  pub child_ctag : String
  pub file_hash : Option String
  pub last_verdict_tier : Option Tier
  pub last_scanned_at : Option ℕ
  pub times_scanned : ℕ
  pub deleted_at : Option ℕ

pub record Database : Type 0 where
  pub verdicts : List Verdict
  pub hashes : Hashes
  pub snapshots : List Snapshot
  pub alerts : List (String × Tier)
  pub completed : List String

-- What the job and the metadata give: texts of the item, the hash if one was computed, the rescan
-- that the job belongs to (its parent event and this item, both truthy).
pub record Job : Type 0 where
  pub event_id : String
  pub file_name : Codes
  pub site_url : Codes
  pub object_id : Codes
  pub file_hash : Option String
  pub rescan : Option (String × String)
  pub skip_notification : Bool

unfoldable pub override_for : Job → Response → EscalationOverride
override_for j r =
    apply_escalation_overrides (escalation_tier r) r.category_ids r.context (some r.pii_types_found)
      j.file_name j.site_url j.object_id

-- The categories of the stored verdict: under an override those of tier 1 and 2 are replaced.
unfoldable pub replace_category : String → String → String
replace_category replacement c = if elem c (tier_1_ids ++ tier_2_ids) then replacement else c

abbrev pub or_none : Option String → String
or_none none = "none"
or_none (some c) = if c == "" then "none" else c

abbrev pub is_some : Option String → Bool
is_some none = false
is_some (some _) = true

unfoldable pub rewritten : EscalationOverride → Response → Response
rewritten o r =
    if is_some o.reason
    then record r {
      category_ids = map (replace_category (or_none o.replacement_category)) r.category_ids;
    }
    else r

-- The response as it is left to the caller, whose categories an override rewrites in place.
unfoldable pub final_response : Job → Response → Response
unfolding override_for rewritten
final_response j r = rewritten (override_for j r) r

unfoldable pub verdict_of : Job → Response → String → Verdict
verdict_of j r analysis_mode =
    let o = override_for j r in
    let r' = rewritten o r in
    record {
      event_id = j.event_id;
      category_ids = r'.category_ids;
      escalation_tier = escalation_tier r';
      analysis_mode = analysis_mode;
      notification_required = should_escalate o.adjusted_tier;
    }

-- COALESCE($3, file_hash)
abbrev coalesce : Option String → Option String → Option String
coalesce none b = b
coalesce (some a) b = some a

unfoldable pub update_snapshots :
    ℕ → String → String → Option String → Tier → List Snapshot → List Snapshot
update_snapshots now parent child h t [] = []
update_snapshots now parent child h t (s ∷ ss) =
    (if s.parent_event_id == parent && s.child_item_id == child
      then record s {
        file_hash = coalesce h s.file_hash;
        last_verdict_tier = some t;
        last_scanned_at = some now;
      }
      else s)
    ∷ update_snapshots now parent child h t ss

abbrev hashes_after : ℕ → Option String → Verdict → Hashes → Hashes
hashes_after now none v t = t
hashes_after now (some h) v t =
    if not (v.analysis_mode == "hash_reuse")
    then store_hash now h v.event_id v.category_ids t
    else t

abbrev snapshots_after :
    ℕ → Option (String × String) → Option String → Tier → List Snapshot → List Snapshot
snapshots_after now none h t ss = ss
snapshots_after now (some (parent, child)) h t ss = update_snapshots now parent child h t ss

unfoldable pub record_and_notify : ℕ → Job → Response → String → Database → Database
record_and_notify now j r analysis_mode db =
    let v = verdict_of j r analysis_mode in
    let tier = (override_for j r).adjusted_tier in
    record {
      verdicts = db.verdicts ++ v ∷ [];
      hashes = hashes_after now j.file_hash v db.hashes;
      snapshots = snapshots_after now j.rescan j.file_hash tier db.snapshots;
      alerts =
          if v.notification_required && not j.skip_notification
          then db.alerts ++ (j.event_id, tier) ∷ []
          else db.alerts;
      completed = db.completed ++ j.event_id ∷ [];
    }

-- The response that stands for an earlier analysis of the same content: its categories, and no
-- people or kinds of data.
unfoldable pub reused_response : HashRow → Response
reused_response row = record {
  category_ids = row.category_ids;
  affected_count = pos 0;
  pii_types_found = [];
  context = "mixed";
  summary = "Hash reuse";
  reasoning = "";
  provider = "hash_reuse";
  model = "n/a";
  cost = 0;
  second_look = none;
}

-- Step 7 for a file whose hash has a fresh row; `none` goes on to the analysis.
unfoldable pub reuse_verdict : ℕ → ℕ → Job → String → Database → Option Database
reuse_verdict now hash_reuse_days j h db =
    let (found, hashes) = check_reuse now hash_reuse_days h db.hashes in
    elim found [
      | none ↦ none
      | some row ↦ some (
          record_and_notify now j (reused_response row) "hash_reuse"
            (record db { hashes = hashes }))
    ]
