-- ===== src/Worker/Rows.antt =====
-- Rows of events under the updates of the repository.
use share_sentinel.Prelude.{
  ℕ, ◌≡◌, refl, String, Option, some, [], ◌∷◌, arith, ap, ◌∙◌, false, ◌==◌, eq_iff,
}
use mathlib.Core.Option
use share_sentinel.Worker.Events.{
  Status, EventRow, Events, Extra, no_extra, temp_file_deleted, failure_reason, written, get_event,
  update, update_event_status, set_content_type, update_event_metadata,
}

pub get-update :
    (f : EventRow → EventRow) (k : String) (es : Events)
    → ((e : EventRow) → (f e).event_id ≡ e.event_id)
    → get_event k (update f k es) ≡ Option.map f (get_event k es)
unfolding get_event update
get-update f k [] same = refl
get-update f k (e ∷ es) same = ground (arith, get-update f k es same, same e)

pub get_other :
    (f : EventRow → EventRow) (k k' : String) (es : Events)
    → ((e : EventRow) → (f e).event_id ≡ e.event_id)
    → (k' == k) ≡ false
    → get_event k (update f k' es) ≡ get_event k es
unfolding get_event update
get_other f k k' [] same other = refl
get_other f k k' (e ∷ es) same other = ground (
  arith,
  get_other f k k' es same other,
  same e,
  eq_iff e.event_id k,
  eq_iff e.event_id k',
  eq_iff k' k,
)

-- The row of an event, with its retries and its status.
pub record HasRow (k : String) (n : Option ℕ) (s : Status) (es : Events) : Type 0 where
  pub row : EventRow
  pub found : get_event k es ≡ some row
  pub count : row.retry_count ≡ n
  pub status : row.status ≡ s

-- An update that keeps the count.
pub update-HasRow :
    (f : EventRow → EventRow) (k : String) (n : Option ℕ) (s s' : Status) (es : Events)
    → ((e : EventRow) → (f e).event_id ≡ e.event_id)
    → ((e : EventRow) → (f e).retry_count ≡ e.retry_count)
    → ((e : EventRow) → e.status ≡ s → (f e).status ≡ s')
    → HasRow k n s es
    → HasRow k n s' (update f k es)
update-HasRow f k n s s' es same counts moves h = record {
  row = f h.row;
  found = get-update f k es same ∙ ap (Option.map f) h.found;
  count = counts h.row ∙ h.count;
  status = moves h.row h.status;
}

pub update_event_status-HasRow :
    (now : ℕ) (k : String) (n : Option ℕ) (s s' : Status) (x : Extra) (es : Events)
    → HasRow k n s es
    → HasRow k n s' (update_event_status now k s' x es)
unfolding update_event_status
update_event_status-HasRow now k n s s' no_extra es h =
    update-HasRow (written now s' no_extra) k n s s' es (λ e. refl) (λ e. refl) (λ e p. refl) h
update_event_status-HasRow now k n s s' temp_file_deleted es h =
    update-HasRow (written now s' temp_file_deleted) k n s s' es (λ e. refl) (λ e. refl)
      (λ e p. refl) h
update_event_status-HasRow now k n s s' (failure_reason r) es h =
    update-HasRow (written now s' (failure_reason r)) k n s s' es (λ e. refl) (λ e. refl)
      (λ e p. refl) h

pub set_content_type-HasRow :
    (now : ℕ) (k t : String) (n : Option ℕ) (s : Status) (es : Events)
    → HasRow k n s es
    → HasRow k n s (set_content_type now k t es)
unfolding set_content_type
set_content_type-HasRow now k t n s es h =
    update-HasRow _ k n s s es (λ e. refl) (λ e. refl) (λ e p. p) h

pub update_event_metadata-HasRow :
    (now : ℕ) (k d i : String) (n : Option ℕ) (s : Status) (es : Events)
    → HasRow k n s es
    → HasRow k n s (update_event_metadata now k d i es)
unfolding update_event_metadata
update_event_metadata-HasRow now k d i n s es h =
    update-HasRow _ k n s s es (λ e. refl) (λ e. refl) (λ e p. p) h
