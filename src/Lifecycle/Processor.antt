-- ===== src/Lifecycle/Processor.antt =====
-- services/lifecycle-cron/app/processor.py, with `remove_sharing_permission` of graph_api.py.
-- One pass reads the clock once per query (`now`); Graph's answers and the mail server's are
-- parameters of the pass.
use share_sentinel.Prelude.{
  ℕ, ◌+◌, ◌*◌, String, Bool, true, false, not, ◌&&◌, ◌||◌, Option, none, some, List, [], ◌∷◌, ◌++◌,
  ltb, leb, beq, filter, ◌==◌, if◌then◌else◌,
}
use share_sentinel.Lifecycle.Row.{
  Status, active, expired_removed, error, Column, notified_120d, notified_150d, notified_165d,
  notified_173d, notified_178d, notified_180d, same_column, Row, Table, update,
}

-- `MAX_REMOVAL_ATTEMPTS`
abbrev pub max_removal_attempts : ℕ
max_removal_attempts = 5

pub record Milestone : Type 0 where
  pub days : ℕ
  pub column : Column
  pub days_remaining : ℕ

abbrev milestone : ℕ → Column → ℕ → Milestone
milestone d c r = record { days = d; column = c; days_remaining = r }

abbrev pub countdowns : List Milestone
countdowns =
    milestone 120 notified_120d 60
    ∷ milestone 150 notified_150d 30
    ∷ milestone 165 notified_165d 15
    ∷ milestone 173 notified_173d 7
    ∷ milestone 178 notified_178d 2
    ∷ []

abbrev pub removal_milestone : Milestone
removal_milestone = milestone 180 notified_180d 0

-- `MILESTONES`
abbrev pub milestones : List Milestone
milestones = countdowns ++ removal_milestone ∷ []

-- The fields of `LifecycleConfig` that a pass reads.
pub record Config : Type 0 where
  pub max_days : ℕ
  pub lifecycle_notifications_enabled : Bool

-- What Graph answers to the DELETE: a status, or a transport error.
pub data Response : Type 0 where
  status_code : ℕ → Response
  transport_error : String → Response

-- What `send_countdown_email` does: returns, or raises.
pub data Sending : Type 0 where
  returns : Bool → Sending
  raises : Sending

-- Graph answers each call, which is for a row at a milestone, by itself.
pub record Environment : Type 0 where
  pub now : Column → ℕ
  pub delete : Column → ℕ → String → String → String → Response
  pub send : Column → Row → Sending

-- A call of `send_countdown_email`.
pub record Email : Type 0 where
  pub to_address : String
  pub row_id : ℕ
  pub remaining : ℕ
  pub removal_date : ℕ
  pub is_removal_notice : Bool

pub record Stats : Type 0 where
  pub notifications_sent : ℕ
  pub links_removed : ℕ
  pub errors : ℕ

-- The table, the calls of the mailer, and the rows for which Graph was asked to delete.
pub record World : Type 0 where
  pub table : Table
  pub emails : List Email
  pub deletions : List Row

pub data Removal : Type 0 where
  removed : Bool → Removal
  failed : String → Removal

-- `resp.raise_for_status()` lets the 2xx codes through.
unfoldable pub remove_sharing_permission : Response → Removal
remove_sharing_permission (transport_error e) = failed e
remove_sharing_permission (status_code c) =
    if beq c 204 || beq c 404
    then removed true
    else if leb 200 c && ltb c 300
    then removed true
    else failed "HTTP status error"

abbrev pub seconds_per_day : ℕ
seconds_per_day = 86400

unfoldable pub compute_removal_date : ℕ → ℕ → ℕ
compute_removal_date link_created_at max_days = link_created_at + max_days * seconds_per_day

abbrev is_null : {A : Type 0} → Option A → Bool
is_null none = true
is_null (some _) = false

abbrev is_active : Status → Bool
is_active active = true
is_active _ = false

-- The WHERE clause of `_fetch_due_rows`.
unfoldable pub is_due : ℕ → Milestone → Row → Bool
is_due now m r =
    is_active r.status
    && is_null (r.notified m.column)
    && leb (r.link_created_at + m.days * seconds_per_day) now

-- ORDER BY slc.link_created_at
unfoldable pub insert_by_created : Row → List Row → List Row
insert_by_created r [] = r ∷ []
insert_by_created r (x ∷ xs) =
    let rest = insert_by_created r xs in
    if leb r.link_created_at x.link_created_at then r ∷ x ∷ xs else x ∷ rest

unfoldable pub order_by_created : List Row → List Row
unfolding insert_by_created
order_by_created [] = []
order_by_created (r ∷ rs) = insert_by_created r (order_by_created rs)

unfoldable pub fetch_due_rows : ℕ → Milestone → Table → List Row
fetch_due_rows now m t = order_by_created (filter (is_due now m) t)

-- `_mark_milestone`: the column of the row that the table holds.
unfoldable pub set_milestone : ℕ → Column → Row → Row
set_milestone now c r = record r {
  notified = λ d. if same_column c d then some now else r.notified d;
}

unfoldable pub mark_milestone : ℕ → ℕ → Column → Table → Table
unfolding update set_milestone
mark_milestone now k c = update k (set_milestone now c)

-- The address of `row.get("mail")`, if it is one: NULL and "" are none.
unfoldable pub user_email : Row → Option String
user_email r = elim r.mail [ none ↦ none | some a ↦ if a == "" then none else some a ]

-- Whether the handler returned: `false` is an exception.
abbrev pub Handled : Type 0
Handled = World × Bool

-- The update behind a removal that Graph confirmed.
unfoldable pub set_removed : ℕ → Bool → Row → Row
set_removed now success r = record r {
  status = expired_removed;
  removal_attempted_at = some now;
  removal_succeeded = some success;
}

-- The attempts counted with this one, from the row as it was fetched.
unfoldable pub attempts_after : Row → ℕ
attempts_after r = elim r.removal_attempts [ none ↦ 1 | some n ↦ n + 1 ]

unfoldable pub set_failed : ℕ → String → ℕ → Row → Row
set_failed now message attempts r = record r {
  status = if leb max_removal_attempts attempts then error else active;
  removal_attempts = some attempts;
  removal_attempted_at = some now;
  removal_succeeded = some false;
  removal_error = some message;
}

module _ (e : Environment) (cfg : Config) where
  countdown_email : Milestone → Row → Bool → String → Email
  countdown_email m r notice address = record {
    to_address = address;
    row_id = r.id;
    remaining = if notice then 0 else m.days_remaining;
    removal_date = compute_removal_date r.link_created_at cfg.max_days;
    is_removal_notice = notice;
  }

  -- What follows a call of the mailer.
  unfoldable pub finish_notification : Milestone → Row → World → Sending → Handled
  unfolding mark_milestone
  finish_notification m r w (returns true) =
      (record w { table = mark_milestone (e.now m.column) r.id m.column w.table }, true)
  finish_notification m r w (returns false) = (w, true)
  finish_notification m r w raises = (w, false)

  -- `_process_notification` behind its test of the address.
  unfoldable pub notify : Milestone → Row → World → Option String → Handled
  unfolding mark_milestone countdown_email finish_notification
  notify m r w none =
      (record w { table = mark_milestone (e.now m.column) r.id m.column w.table }, true)
  notify m r w (some address) =
      finish_notification m r
        (record w { emails = w.emails ++ countdown_email m r false address ∷ [] })
        (e.send m.column r)

  unfoldable pub process_notification : Milestone → Row → World → Handled
  process_notification m r w = notify m r w (user_email r)

  -- The removal notice: its result is not looked at.
  unfoldable pub send_removal_notice : Milestone → Row → World → Handled
  unfolding user_email countdown_email
  send_removal_notice m r w = elim (user_email r) [
    | none ↦ (w, true)
    | some address ↦
        if cfg.lifecycle_notifications_enabled
        then (
          record w { emails = w.emails ++ countdown_email m r true address ∷ [] },
          elim (e.send m.column r) [ returns _ ↦ true | raises ↦ false ],
        )
        else (w, true)
  ]

  -- The two ends of the `try` in `_process_removal`.
  unfoldable pub finish_removal : Milestone → Row → World → Removal → Handled
  unfolding set_removed set_failed attempts_after mark_milestone send_removal_notice
  finish_removal m r w (removed success) =
      let gone = update r.id (set_removed (e.now m.column) success) w.table in
      send_removal_notice m r
        (record w { table = mark_milestone (e.now m.column) r.id m.column gone })
  finish_removal m r w (failed message) = (
    record w {
      table = update r.id (set_failed (e.now m.column) message (attempts_after r)) w.table;
    },
    false,
  )

  unfoldable pub process_removal : Milestone → Row → World → Handled
  process_removal m r w =
      finish_removal m r (record w { deletions = w.deletions ++ r ∷ [] })
        (remove_sharing_permission (e.delete m.column r.id r.drive_id r.item_id r.permission_id))

  unfoldable pub process_row : Milestone → Row → World → Handled
  process_row m r w =
      if leb cfg.max_days m.days then process_removal m r w else process_notification m r w

  -- The counters that the loop adds up.
  unfoldable pub count_row : Milestone → Bool → Stats → Stats
  count_row m true s =
      if leb cfg.max_days m.days
      then record s {
        links_removed = s.links_removed + 1;
        notifications_sent = s.notifications_sent + 1;
      }
      else record s { notifications_sent = s.notifications_sent + 1 }
  count_row m false s = record s { errors = s.errors + 1 }

  unfoldable pub process_rows : Milestone → List Row → World × Stats → World × Stats
  process_rows m [] s = s
  process_rows m (r ∷ rs) (w, s) =
      let (w', done) = process_row m r w in process_rows m rs (w', count_row m done s)

  unfoldable pub is_skipped : Milestone → Bool
  is_skipped m = not cfg.lifecycle_notifications_enabled && ltb m.days cfg.max_days

  unfoldable pub process_milestone : Milestone → World × Stats → World × Stats
  process_milestone m (w, s) =
      if is_skipped m
      then (w, s)
      else process_rows m (fetch_due_rows (e.now m.column) m w.table) (w, s)

  unfoldable pub process_milestones : List Milestone → World × Stats → World × Stats
  process_milestones [] s = s
  process_milestones (m ∷ ms) s = process_milestones ms (process_milestone m s)

  -- `process_lifecycle_milestones`
  unfoldable pub process_lifecycle_milestones : World → World × Stats
  process_lifecycle_milestones w =
      process_milestones milestones
        (w, record { notifications_sent = 0; links_removed = 0; errors = 0 })
