-- ===== src/Lifecycle/Row.antt =====
-- The table `sharing_link_lifecycle` and what `processor.py` reads of it.
use share_sentinel.Prelude.{
  ℕ, String, ◌≡◌, Bool, Option, none, some, List, [], ◌∷◌, Codes, arith, beq, if◌then◌else◌,
}

pub data Status : Type 0 where
  active ms_managed expired_removed manually_removed error : Status

-- The columns `notified_120d_at` to `notified_180d_at`.
pub data Column : Type 0 where
  notified_120d notified_150d notified_165d notified_173d notified_178d notified_180d : Column

abbrev pub column_days : Column → ℕ
column_days notified_120d = 120
column_days notified_150d = 150
column_days notified_165d = 165
column_days notified_173d = 173
column_days notified_178d = 178
column_days notified_180d = 180

abbrev pub same_column : Column → Column → Bool
same_column a b = beq (column_days a) (column_days b)

pub same_column_eq : (a b : Column) → same_column a b ≡ Bool.true → a ≡ b
same_column_eq notified_120d b h = ground arith
same_column_eq notified_150d b h = ground arith
same_column_eq notified_165d b h = ground arith
same_column_eq notified_173d b h = ground arith
same_column_eq notified_178d b h = ground arith
same_column_eq notified_180d b h = ground arith

-- Times are seconds. `mail` is the column that the query joins from `user_profiles`.
pub record Row : Type 0 where
  pub id : ℕ
  pub event_id : String
  pub permission_id : String
  pub drive_id : String
  pub item_id : String
  pub user_id : String
  pub file_name : String
  pub sharing_scope : Codes
  pub sharing_type : Codes
  pub link_url : String
  pub link_created_at : ℕ
  pub ms_expiration_at : Option ℕ
  pub status : Status
  pub notified : Column → Option ℕ
  pub removal_attempts : Option ℕ
  pub removal_attempted_at : Option ℕ
  pub removal_succeeded : Option Bool
  pub removal_error : Option String
  pub mail : Option String

abbrev pub Table : Type 0
Table = List Row

-- `UPDATE sharing_link_lifecycle SET … WHERE id = …`
unfoldable pub update : ℕ → (Row → Row) → Table → Table
update k f [] = []
update k f (r ∷ t) = (if beq r.id k then f r else r) ∷ update k f t

-- The row of an id.
unfoldable pub find : ℕ → Table → Option Row
find k [] = none
find k (r ∷ t) = if beq r.id k then some r else find k t
