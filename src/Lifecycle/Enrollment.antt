-- ===== src/Lifecycle/Enrollment.antt =====
-- services/worker/app/lifecycle/enrollment.py: a row for every broad sharing link of an event.
-- `from_isoformat` stands for `datetime.fromisoformat` on the text with "Z" put as "+00:00";
-- `profile` for the mail that the later query joins to a user.
use share_sentinel.Prelude.{
  ℕ, suc, String, Bool, true, false, ◌&&◌, Option, none, some, List, [], ◌∷◌, ◌++◌, Codes, codes,
  same_codes, map, any, ◌==◌, if◌then◌else◌,
}
use share_sentinel.Graph.{
  Field, missing, null, value, Link, Permission, link_of, lower_or, is_broad, id_of,
}
use share_sentinel.Lifecycle.Row.{Status, active, ms_managed, Column, Row, Table}

-- `event_time`: None or empty, a time, or ISO text.
pub data EventTime : Type 0 where
  absent : EventTime
  time : ℕ → EventTime
  iso : Codes → EventTime

-- The arguments of `enroll_sharing_links` besides the permissions and the time.
pub record Event : Type 0 where
  pub event_id : String
  pub user_id : String
  pub drive_id : String
  pub item_id : String
  pub file_name : String

-- The table and its id sequence.
pub record Store : Type 0 where
  pub table : Table
  pub next_id : ℕ

-- `_MS_SENTINEL_DATE`
abbrev ms_sentinel_date : Codes
ms_sentinel_date = codes "0001-01-01T00:00:00Z"

unfoldable pub is_empty : Codes → Bool
is_empty [] = true
is_empty _ = false

abbrev status_for : Option ℕ → Status
status_for none = active
status_for (some _) = ms_managed

unfoldable pub has_key : String → String → Row → Bool
has_key event_id permission_id r = r.event_id == event_id && r.permission_id == permission_id

-- `INSERT … ON CONFLICT (event_id, permission_id) DO NOTHING`, with whether a row went in. The
-- sequence moves on in either case.
unfoldable pub insert_row : Row → Store → Store × Bool
unfolding has_key
insert_row r s =
    if any (has_key r.event_id r.permission_id) s.table
    then (record s { next_id = suc s.next_id }, false)
    else (
      record { table = s.table ++ record r { id = s.next_id } ∷ []; next_id = suc s.next_id },
      true,
    )

-- What the loop does with one permission: passes over it, raises on a null where it wants a
-- text, or inserts a row.
pub data Step : Type 0 where
  skip raise : Step
  enroll : Row → Step

-- `link.get("webUrl", "")`; a null goes into the column as it is, shown here as "".
abbrev url_of : Field String → String
url_of missing = ""
url_of null = ""
url_of (value u) = u

-- The loop over the permissions, with the rows enrolled so far; `none` is an exception, which
-- leaves what was inserted in the table.
unfoldable pub enroll_loop : List Step → Store → ℕ → Store × Option ℕ
unfolding insert_row
enroll_loop [] s n = (s, some n)
enroll_loop (skip ∷ ps) s n = enroll_loop ps s n
enroll_loop (raise ∷ ps) s n = (s, none)
enroll_loop (enroll r ∷ ps) s n =
    let (s', inserted) = insert_row r s in enroll_loop ps s' (if inserted then suc n else n)

module _ (from_isoformat : Codes → Option ℕ) (profile : String → Option String) where
  unfoldable pub parse_ms_expiration : Field Codes → Option ℕ
  unfolding is_empty
  parse_ms_expiration missing = none
  parse_ms_expiration null = none
  parse_ms_expiration (value v) =
      if is_empty v then none else if same_codes v ms_sentinel_date then none else from_isoformat v

  -- The values of the INSERT; the id is the sequence's to give.
  unfoldable pub new_row : Event → ℕ → String → Codes → Codes → String → Option ℕ → Row
  new_row ev event_time permission_id scope link_type link_url expiration = record {
    id = 0;
    event_id = ev.event_id;
    permission_id = permission_id;
    drive_id = ev.drive_id;
    item_id = ev.item_id;
    user_id = ev.user_id;
    file_name = ev.file_name;
    sharing_scope = scope;
    sharing_type = link_type;
    link_url = link_url;
    link_created_at = event_time;
    ms_expiration_at = expiration;
    status = status_for expiration;
    notified = λ (_ : Column). none;
    removal_attempts = none;
    removal_attempted_at = none;
    removal_succeeded = none;
    removal_error = none;
    mail = profile ev.user_id;
  }

  unfoldable pub enroll_link : Event → ℕ → Permission → Link → Codes → Step
  unfolding new_row parse_ms_expiration
  enroll_link ev event_time p l scope = elim (id_of p) [
    | none ↦ skip
    | some permission_id ↦ elim (lower_or (codes "view") l.link_type) [
      | none ↦ raise
      | some link_type ↦ enroll (
          new_row ev event_time permission_id scope link_type (url_of l.web_url)
            (parse_ms_expiration p.expiration))
    ]
  ]

  unfoldable pub enroll_step : Event → ℕ → Permission → Step
  unfolding enroll_link
  enroll_step ev event_time p = elim (link_of p) [
    | none ↦ skip
    | some l ↦ elim (lower_or [] l.scope) [
      | none ↦ raise
      | some scope ↦ if is_broad scope then enroll_link ev event_time p l scope else skip
    ]
  ]

  unfoldable pub enroll_all : Event → ℕ → List Permission → Store → Store × Option ℕ
  unfolding enroll_loop enroll_step
  enroll_all ev event_time ps s = enroll_loop (map (enroll_step ev event_time) ps) s 0

  -- With the time that the ISO text gives; `fromisoformat` raises on any other text.
  unfoldable pub enroll_at : Event → List Permission → Store → Option ℕ → Store × Option ℕ
  enroll_at ev ps s none = (s, none)
  enroll_at ev ps s (some t) = enroll_all ev t ps s

  -- `enroll_sharing_links`
  unfoldable pub enroll_sharing_links :
      Event → EventTime → List Permission → Store → Store × Option ℕ
  enroll_sharing_links ev absent ps s = (s, some 0)
  enroll_sharing_links ev (time t) ps s = enroll_all ev t ps s
  enroll_sharing_links ev (iso text) ps s =
      if is_empty text then (s, some 0) else enroll_at ev ps s (from_isoformat text)
