-- ===== src/Folder/Quiet.antt =====
-- Events that are closed or have no row, under the updates of the loop over a folder's files.
use share_sentinel.Prelude.{
  ℕ, ◌≡◌, refl, ap, ◌∙◌, String, true, none, some, inl, inr, ◌⊎◌, Bool-cases, eq_iff, ◌==◌, sym,
}
use mathlib.Core.Option
use share_sentinel.Worker.Events.{
  failed, EventRow, Events, get_event, update, update_event_status, failure_reason, written,
}
use share_sentinel.Worker.Rows.{get-update, get_other}
use share_sentinel.Worker.Steps.{is_closed}
use share_sentinel.Worker.Frame.{Keeps}
use share_sentinel.Folder.Items.{
  Progress, total, processed, flagged, progressed, update_folder_progress,
}
use share_sentinel.Folder.Counts.{IsThere}

-- The event has a row, and its status is one that a run ends in.
abbrev pub IsClosedAt : String → Events → Type 0
IsClosedAt k es = (row : EventRow) × (get_event k es ≡ some row) × (is_closed row.status ≡ true)

-- The event is closed, or has no row yet.
abbrev pub IsQuiet : String → Events → Type 0
IsQuiet k es = (get_event k es ≡ none) ⊎ IsClosedAt k es

update-IsClosedAt :
    (f : EventRow → EventRow) (k k0 : String) (es : Events)
    → ((e : EventRow) → (f e).event_id ≡ e.event_id)
    → ((e : EventRow) → (f e).status ≡ e.status)
    → IsClosedAt k es
    → IsClosedAt k (update f k0 es)
update-IsClosedAt f k k0 es same kept (row, found, h) = elim (Bool-cases (k0 == k)) [
  | inl eq ↦
      let e : k0 ≡ k = (eq_iff k0 k).0 eq in
      (f row, rw e (get-update f k es same ∙ ap (Option.map f) found), ap is_closed (kept row) ∙ h)
  | inr other ↦ (row, get_other f k k0 es same other ∙ found, h)
]

update_absent :
    (f : EventRow → EventRow) (k k0 : String) (es : Events)
    → ((e : EventRow) → (f e).event_id ≡ e.event_id)
    → get_event k es ≡ none
    → get_event k (update f k0 es) ≡ none
update_absent f k k0 es same absent = elim (Bool-cases (k0 == k)) [
  | inl eq ↦
      let e : k0 ≡ k = (eq_iff k0 k).0 eq in
      rw e (get-update f k es same ∙ ap (Option.map f) absent)
  | inr other ↦ get_other f k k0 es same other ∙ absent
]

pub progress-IsClosedAt :
    (now : ℕ) (k k0 : String) (p : Progress) (es : Events)
    → IsClosedAt k es
    → IsClosedAt k (update_folder_progress now k0 p es)
unfolding update_folder_progress
progress-IsClosedAt now k k0 (total n) es h =
    update-IsClosedAt (progressed now (total n)) k k0 es (λ e. refl) (λ e. refl) h
progress-IsClosedAt now k k0 processed es h =
    update-IsClosedAt (progressed now processed) k k0 es (λ e. refl) (λ e. refl) h
progress-IsClosedAt now k k0 flagged es h =
    update-IsClosedAt (progressed now flagged) k k0 es (λ e. refl) (λ e. refl) h

progress_absent :
    (now : ℕ) (k k0 : String) (p : Progress) (es : Events)
    → get_event k es ≡ none
    → get_event k (update_folder_progress now k0 p es) ≡ none
unfolding update_folder_progress
progress_absent now k k0 (total n) es h =
    update_absent (progressed now (total n)) k k0 es (λ e. refl) h
progress_absent now k k0 processed es h =
    update_absent (progressed now processed) k k0 es (λ e. refl) h
progress_absent now k k0 flagged es h = update_absent (progressed now flagged) k k0 es (λ e. refl) h

progress-IsQuiet :
    (now : ℕ) (k k0 : String) (p : Progress) (es : Events)
    → IsQuiet k es
    → IsQuiet k (update_folder_progress now k0 p es)
progress-IsQuiet now k k0 p es (inl absent) = inl (progress_absent now k k0 p es absent)
progress-IsQuiet now k k0 p es (inr closed) = inr (progress-IsClosedAt now k k0 p es closed)

-- What holds of an event's row, or of its absence, whatever is counted on rows.
pub record IsStable (k : String) (P : Events → Type 0) : Type 0 where
  pub progress :
      (now : ℕ) (k0 : String) (p : Progress) (es : Events)
      → P es
      → P (update_folder_progress now k0 p es)
  pub same : (es es' : Events) → Keeps k es es' → P es → P es'

pub IsClosedAt-IsStable : (k : String) → IsStable k (IsClosedAt k)
IsClosedAt-IsStable k = record {
  progress = λ now k0 p es h. progress-IsClosedAt now k k0 p es h;
  same = λ es es' kept (row, found, h). (row, kept ∙ found, h);
}

Keeps-IsQuiet : (k : String) (es es' : Events) → Keeps k es es' → IsQuiet k es → IsQuiet k es'
Keeps-IsQuiet k es es' same (inl absent) = inl (same ∙ absent)
Keeps-IsQuiet k es es' same (inr (row, found, h)) = inr (row, same ∙ found, h)

pub IsQuiet-IsStable : (k : String) → IsStable k (IsQuiet k)
IsQuiet-IsStable k = record {
  progress = λ now k0 p es h. progress-IsQuiet now k k0 p es h;
  same = λ es es' kept h. Keeps-IsQuiet k es es' kept h;
}

pub quiet_there-IsClosedAt :
    (k : String) (es : Events) → IsQuiet k es → IsThere k es → IsClosedAt k es
quiet_there-IsClosedAt k es (inr closed) there = closed
quiet_there-IsClosedAt k es (inl absent) (row, found) =
    absurd (Option.none-ne-some row (sym absent ∙ found))

pub update-IsThere :
    (f : EventRow → EventRow) (k k0 : String) (es : Events)
    → ((e : EventRow) → (f e).event_id ≡ e.event_id)
    → IsThere k es
    → IsThere k (update f k0 es)
update-IsThere f k k0 es same (row, found) = elim (Bool-cases (k0 == k)) [
  | inl eq ↦
      let e : k0 ≡ k = (eq_iff k0 k).0 eq in
      (f row, rw e (get-update f k es same ∙ ap (Option.map f) found))
  | inr other ↦ (row, get_other f k k0 es same other ∙ found)
]

pub progress-IsThere :
    (now : ℕ) (k k0 : String) (p : Progress) (es : Events)
    → IsThere k es
    → IsThere k (update_folder_progress now k0 p es)
unfolding update_folder_progress
progress-IsThere now k k0 (total n) es h =
    update-IsThere (progressed now (total n)) k k0 es (λ e. refl) h
progress-IsThere now k k0 processed es h =
    update-IsThere (progressed now processed) k k0 es (λ e. refl) h
progress-IsThere now k k0 flagged es h =
    update-IsThere (progressed now flagged) k k0 es (λ e. refl) h

-- An event that is there is closed by its failure.
pub failed-IsClosedAt :
    (now : ℕ) (k reason : String) (es : Events)
    → IsThere k es
    → IsClosedAt k (update_event_status now k failed (failure_reason reason) es)
unfolding update_event_status
failed-IsClosedAt now k reason es (row, found) = (
  written now failed (failure_reason reason) row,
  get-update (written now failed (failure_reason reason)) k es (λ e. refl)
      ∙ ap (Option.map (written now failed (failure_reason reason))) found,
  refl,
)
