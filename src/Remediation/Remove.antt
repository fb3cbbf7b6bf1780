-- ===== src/Remediation/Remove.antt =====
-- `_remove_permissions_for_item` and `_validate_removal` of
-- services/worker/app/remediation/executor.py.
use share_sentinel.Prelude.{
  ℕ, ◌+◌, String, Bool, true, false, ◌&&◌, Option, none, some, List, [], ◌∷◌, ◌++◌, Codes, ◌==◌,
  if◌then◌else◌,
}
use share_sentinel.Graph.{missing, null, value, Permission, link_of, lower_or, is_broad, id_of}
use share_sentinel.Lifecycle.Row.{Status, active, ms_managed, manually_removed, Table}
use share_sentinel.Lifecycle.Processor.{Removal, removed, failed, remove_sharing_permission}
use share_sentinel.Remediation.World.{
  Listing, listed, list_error, Service, Detail, removed_detail, failed_detail, listing_detail,
  permission_removed, permission_removal_failed, M, pure, raise, modify, ◌>>=◌, ◌>>◌, log,
}

-- What the loop has counted, and its entries.
pub record Tally : Type 0 where
  pub removed_count : ℕ
  pub failed_count : ℕ
  pub details : List Detail

abbrev pub no_tally : Tally
no_tally = record { removed_count = 0; failed_count = 0; details = [] }

abbrev pub add_removed : String → Tally → Tally
add_removed p t = record t {
  removed_count = t.removed_count + 1;
  details = t.details ++ removed_detail p ∷ [];
}

abbrev pub add_failed : String → String → Tally → Tally
add_failed p message t = record t {
  failed_count = t.failed_count + 1;
  details = t.details ++ failed_detail p message ∷ [];
}

abbrev is_live : Status → Bool
is_live active = true
is_live ms_managed = true
is_live _ = false

-- UPDATE … WHERE permission_id = $1 AND status IN ('active', 'ms_managed')
unfoldable pub mark_manually_removed : ℕ → String → Table → Table
mark_manually_removed now p [] = []
mark_manually_removed now p (r ∷ t) =
    (if r.permission_id == p && is_live r.status
      then record r {
        status = manually_removed;
        removal_attempted_at = some now;
        removal_succeeded = some true;
      }
      else r)
    ∷ mark_manually_removed now p t

-- What the loop makes of a permission: passes over it, raises on a null scope, or removes it.
pub data Target : Type 0 where
  passed null_scope : Target
  broad : String → Target

unfoldable pub target_of : Permission → Target
target_of p = elim (link_of p) [
  | none ↦ passed
  | some l ↦ elim (lower_or [] l.scope) [
    | none ↦ null_scope
    | some scope ↦
        if is_broad scope then (elim (id_of p) [ none ↦ passed | some i ↦ broad i ]) else passed
  ]
]

module _ {G : Type 0} (service : Service G) (now : ℕ) where
  -- The answer to one DELETE, booked.
  unfoldable pub book_removal : String → String → Tally → Removal → M G Tally
  unfolding mark_manually_removed
  book_removal event_id p t (removed _) = do
    log event_id (permission_removed p)
    modify (λ w. record w { lifecycle = mark_manually_removed now p w.lifecycle })
    pure (add_removed p t)
  book_removal event_id p t (failed message) = do
    log event_id (permission_removal_failed p)
    pure (add_failed p message t)

  unfoldable pub remove_one : String → String → String → String → Tally → M G Tally
  unfolding book_removal
  remove_one event_id drive item p t w =
      let (answer, graph') = service.delete w.graph drive item p in
      book_removal event_id p t (remove_sharing_permission answer) (record w { graph = graph' })

  -- The loop over the listed permissions.
  unfoldable pub remove_loop : String → String → String → List Target → Tally → M G Tally
  remove_loop event_id drive item [] t = pure t
  remove_loop event_id drive item (passed ∷ ps) t = remove_loop event_id drive item ps t
  remove_loop event_id drive item (null_scope ∷ ps) t = raise
  remove_loop event_id drive item (broad p ∷ ps) t = do
    t' ← remove_one event_id drive item p t
    remove_loop event_id drive item ps t'

  abbrev pub targets : List Permission → List Target
  targets [] = []
  targets (p ∷ ps) = target_of p ∷ targets ps

  abbrev remove_listed : String → String → String → Listing → M G Tally
  remove_listed event_id drive item (listed ps) =
      remove_loop event_id drive item (targets ps) no_tally
  remove_listed event_id drive item (list_error e) =
      pure (record no_tally { details = listing_detail e ∷ [] })

  -- `_remove_permissions_for_item`
  unfoldable pub remove_permissions_for_item : String → String → String → M G Tally
  unfolding target_of
  remove_permissions_for_item event_id drive item w =
      remove_listed event_id drive item (service.get_sharing_permissions w.graph drive item) w

-- A permission that is left: `p.get("link", {})` has a broad scope. A null link or scope raises.
unfoldable pub scope_left : Permission → Option Codes
scope_left p = elim p.link [
  | missing ↦ some []
  | null ↦ none
  | value l ↦ elim l [ none ↦ some [] | some x ↦ lower_or [] x.scope ]
]

-- How many violations are left; none is an exception.
unfoldable pub violations : List Permission → Option ℕ
violations [] = some 0
violations (p ∷ ps) = elim (scope_left p) [
  | none ↦ none
  | some scope ↦ elim (violations ps) [
    | none ↦ none
    | some n ↦ some (if is_broad scope then n + 1 else n)
  ]
]

abbrev pub is_zero : ℕ → Bool
is_zero ℕ.zero = true
is_zero (ℕ.suc _) = false

abbrev pub counted : {G : Type 0} → Option ℕ → M G Bool
counted none w = (w, none)
counted (some n) w = (w, some (is_zero n))

abbrev pub validated : {G : Type 0} → Listing → M G Bool
validated (list_error e) w = (w, some false)
validated (listed ps) w = counted (violations ps) w

-- `_validate_removal`, as far as it says whether the validation passed.
unfoldable pub validate_removal : {G : Type 0} → Service G → String → String → M G Bool
unfolding scope_left violations
validate_removal service drive item w =
    validated (service.get_sharing_permissions w.graph drive item) w
