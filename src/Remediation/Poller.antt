-- ===== src/Remediation/Poller.antt =====
-- `remediation_poller` and `_claim_next` of services/worker/app/remediation/poller.py.
use share_sentinel.Prelude.{
  ℕ, Bool, true, false, Option, none, some, List, [], ◌∷◌, ltb, if◌then◌else◌,
}
use share_sentinel.Remediation.World.{
  Service, RemediationStatus, pending, in_progress, Remediation, World, update_remediation,
}
use share_sentinel.Remediation.Execute.{mark_failed, execute_remediation}

abbrev pub is_pending : RemediationStatus → Bool
is_pending pending = true
is_pending _ = false

abbrev pub is_in_progress : RemediationStatus → Bool
is_in_progress in_progress = true
is_in_progress _ = false

-- SELECT … WHERE status = 'pending' ORDER BY created_at LIMIT 1. (Of equals, the first one.)
abbrev pub older : Remediation → Option Remediation → Option Remediation
older r none = some r
older r (some x) = if ltb x.created_at r.created_at then some x else some r

unfoldable pub oldest_pending : List Remediation → Option Remediation
oldest_pending [] = none
oldest_pending (r ∷ rs) =
    let rest = oldest_pending rs in if is_pending r.status then older r rest else rest

abbrev pub claim : ℕ → Remediation → Remediation
claim now r = record r { status = in_progress; started_at = some now }

-- `_claim_next`: the row is as the UPDATE returns it.
unfoldable pub claim_next : {G : Type 0} → ℕ → World G → World G × Option Remediation
unfolding oldest_pending
claim_next now w = elim (oldest_pending w.remediations) [
  | none ↦ (w, none)
  | some r ↦ (
    record w { remediations = update_remediation r.id (claim now) w.remediations },
    some (claim now r),
  )
]

-- UPDATE … WHERE status = 'in_progress', at startup.
unfoldable pub reclaim_orphaned : List Remediation → List Remediation
reclaim_orphaned [] = []
reclaim_orphaned (r ∷ rs) =
    (if is_in_progress r.status then record r { status = pending; started_at = none } else r)
    ∷ reclaim_orphaned rs

module _ {G : Type 0} (service : Service G) (now : ℕ) (queue_up : Bool) where
  abbrev pub settle : Remediation → World G × Option (Unit {0}) → World G
  settle r (w, some _) = w
  settle r (w, none) = mark_failed now r.id "Unhandled exception during execution" w

  abbrev pub run_claimed : World G × Option Remediation → World G
  run_claimed (w, none) = w
  run_claimed (w, some r) = settle r (execute_remediation service now queue_up r w)

  -- One turn of the poller's loop.
  unfoldable pub poll : World G → World G
  unfolding claim_next
  poll w = run_claimed (claim_next now w)
