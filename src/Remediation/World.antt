-- ===== src/Remediation/World.antt =====
-- What a remediation touches: the tables of the database, Graph, the audit log and the queue of
-- user notifications. The database does not fail; Graph is a state of its own type.
use share_sentinel.Prelude.{
  ℕ, String, Bool, Option, none, some, List, [], ◌∷◌, ◌++◌, ◌==◌, beq, if◌then◌else◌,
}
use share_sentinel.Graph.{Permission}
use share_sentinel.Lifecycle.Row.{Table}
use share_sentinel.Lifecycle.Processor.{Response}

-- A call of Graph that lists permissions: it returns or raises.
pub data Listing : Type 0 where
  listed : List Permission → Listing
  list_error : String → Listing

-- The two calls of Graph, by drive, item and permission.
pub record Service (G : Type 0) : Type 0 where
  pub get_sharing_permissions : G → String → String → Listing
  pub delete : G → String → String → String → Response × G

pub data RemediationStatus : Type 0 where
  pending in_progress completed completed_with_warnings failed : RemediationStatus

pub record Remediation : Type 0 where
  pub id : ℕ
  pub event_id : String
  pub status : RemediationStatus
  pub created_at : ℕ
  pub started_at : Option ℕ
  pub completed_at : Option ℕ
  pub permissions_removed : ℕ
  pub permissions_failed : ℕ
  pub validation_passed : Option Bool
  pub error_message : Option String
  pub cascade_source : Option String
  pub parent_remediation : Option ℕ

-- An element of the `sharing_links` column.
pub record SharingLink : Type 0 where
  pub permission_id : Option String
  pub removed : Bool
  pub removed_at : Option ℕ

-- `sharing_links` is none if the column is null, empty, or not a list. The ids are none where the
-- column is null or "".
pub record EventRow : Type 0 where
  pub event_id : String
  pub drive_id : Option String
  pub item_id : Option String
  pub parent_event_id : Option String
  pub is_remediated : Bool
  pub sharing_links : Option (List SharingLink)

-- One entry for each permission that the loop tries, or an error of the listing.
pub data Detail : Type 0 where
  removed_detail : String → Detail
  failed_detail : String → String → Detail
  listing_detail : String → Detail
  no_ids_detail : Detail

pub data Audit : Type 0 where
  remediation_started remediation_skip_removal remediation_completed remediation_failed : Audit
  permission_removed permission_removal_failed : String → Audit
  cascade_parent_remediation : String → Audit

pub record World (G : Type 0) : Type 0 where
  pub graph : G
  pub lifecycle : Table
  pub events : List EventRow
  pub remediations : List Remediation
  pub next_remediation : ℕ
  pub audit : List (String × Audit)
  pub notifications : List String

unfoldable pub find_event : String → List EventRow → Option EventRow
find_event k [] = none
find_event k (e ∷ es) = if e.event_id == k then some e else find_event k es

unfoldable pub update_event : String → (EventRow → EventRow) → List EventRow → List EventRow
update_event k f [] = []
update_event k f (e ∷ es) = (if e.event_id == k then f e else e) ∷ update_event k f es

unfoldable pub find_remediation : ℕ → List Remediation → Option Remediation
find_remediation k [] = none
find_remediation k (r ∷ rs) = if beq r.id k then some r else find_remediation k rs

unfoldable pub update_remediation :
    ℕ → (Remediation → Remediation) → List Remediation → List Remediation
update_remediation k f [] = []
update_remediation k f (r ∷ rs) = (if beq r.id k then f r else r) ∷ update_remediation k f rs

-- Code that changes the world and may raise (`none`); what it changed before stays changed.
abbrev pub M : Type 0 → Type 0 → Type 0
M G A = World G → World G × Option A

module _ {G A : Type 0} where
  abbrev pub pure : A → M G A
  pure a w = (w, some a)

  abbrev pub raise : M G A
  raise w = (w, none)

  abbrev pub gets : (World G → A) → M G A
  gets f w = (w, some (f w))

abbrev pub modify : {G : Type 0} → (World G → World G) → M G (Unit {0})
modify f w = (f w, some tt)

infixl 5 ◌>>=◌ ◌>>◌
abbrev pub ◌>>=◌ : {G A B : Type 0} → M G A → (A → M G B) → M G B
◌>>=◌ m f w = let (w', o) = m w in elim o [ none ↦ (w', none) | some a ↦ f a w' ]

abbrev pub ◌>>◌ : {G B : Type 0} → M G (Unit {0}) → M G B → M G B
m >> k = m >>= λ _. k

abbrev pub log : {G : Type 0} → String → Audit → M G (Unit {0})
log event_id a = modify (λ w. record w { audit = w.audit ++ (event_id, a) ∷ [] })
