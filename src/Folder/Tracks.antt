-- ===== src/Folder/Tracks.antt =====
-- The row of a folder's event under the counting of its files.
use share_sentinel.Prelude.{ℕ, suc, ◌≡◌, refl, ap, ◌∙◌, String, Option, some}
use mathlib.Core.Option
use share_sentinel.Worker.Events.{Status, EventRow, Events, or_zero, get_event, update}
use share_sentinel.Worker.Rows.{get-update}
use share_sentinel.Worker.Frame.{Keeps}
use share_sentinel.Folder.Items.{processed, flagged, update_folder_progress, progressed}

-- The row of the folder's event in a status, with what it counts.
pub record Tracks (k : String) (n : Option ℕ) (s : Status) (t : Option ℕ) (p f : ℕ) (es : Events)
    : Type 0 where
  pub row : EventRow
  pub found : get_event k es ≡ some row
  pub count : row.retry_count ≡ n
  pub status : row.status ≡ s
  pub total : row.folder_total_children ≡ t
  pub processed : or_zero row.folder_processed_children ≡ p
  pub flagged : or_zero row.folder_flagged_children ≡ f

pub Keeps-Tracks :
    (k : String) (n : Option ℕ) (s : Status) (t : Option ℕ) (p f : ℕ) (es es' : Events)
    → Keeps k es es'
    → Tracks k n s t p f es
    → Tracks k n s t p f es'
Keeps-Tracks k n s o p f es es' same t = record {
  row = t.row;
  found = same ∙ t.found;
  count = t.count;
  status = t.status;
  total = t.total;
  processed = t.processed;
  flagged = t.flagged;
}

pub equal-Tracks :
    (k : String) (n : Option ℕ) (s : Status) (t : Option ℕ) (p p' f f' : ℕ) (es : Events)
    → p ≡ p'
    → f ≡ f'
    → Tracks k n s t p f es
    → Tracks k n s t p' f' es
equal-Tracks k n s o p p' f f' es a b t = record {
  row = t.row;
  found = t.found;
  count = t.count;
  status = t.status;
  total = t.total;
  processed = t.processed ∙ a;
  flagged = t.flagged ∙ b;
}

-- An update that keeps the retries and the total.
pub update-Tracks :
    (g : EventRow → EventRow) (k : String) (n : Option ℕ) (s s' : Status) (t : Option ℕ)
    (p p' f f' : ℕ) (es : Events)
    → ((e : EventRow) → (g e).event_id ≡ e.event_id)
    → ((e : EventRow) → (g e).retry_count ≡ e.retry_count)
    → ((e : EventRow) → (g e).folder_total_children ≡ e.folder_total_children)
    → ((e : EventRow) → e.status ≡ s → (g e).status ≡ s')
    → ((e : EventRow)
        → or_zero e.folder_processed_children ≡ p
        → or_zero (g e).folder_processed_children ≡ p')
    → ((e : EventRow)
        → or_zero e.folder_flagged_children ≡ f
        → or_zero (g e).folder_flagged_children ≡ f')
    → Tracks k n s t p f es
    → Tracks k n s' t p' f' (update g k es)
update-Tracks g k n s s' o p p' f f' es same counts totals moves more flags t = record {
  row = g t.row;
  found = get-update g k es same ∙ ap (Option.map g) t.found;
  count = counts t.row ∙ t.count;
  status = moves t.row t.status;
  total = totals t.row ∙ t.total;
  processed = more t.row t.processed;
  flagged = flags t.row t.flagged;
}

pub processed-Tracks :
    (now : ℕ) (k : String) (n : Option ℕ) (s : Status) (t : Option ℕ) (p f : ℕ) (es : Events)
    → Tracks k n s t p f es
    → Tracks k n s t (suc p) f (update_folder_progress now k processed es)
unfolding update_folder_progress
processed-Tracks now k n s o p f es t =
    update-Tracks (progressed now processed) k n s s o p (suc p) f f es (λ e. refl) (λ e. refl)
      (λ e. refl) (λ e h. h) (λ e h. ap suc h) (λ e h. h) t

pub flagged-Tracks :
    (now : ℕ) (k : String) (n : Option ℕ) (s : Status) (t : Option ℕ) (p f : ℕ) (es : Events)
    → Tracks k n s t p f es
    → Tracks k n s t p (suc f) (update_folder_progress now k flagged es)
unfolding update_folder_progress
flagged-Tracks now k n s o p f es t =
    update-Tracks (progressed now flagged) k n s s o p p f (suc f) es (λ e. refl) (λ e. refl)
      (λ e. refl) (λ e h. h) (λ e h. h) (λ e h. ap suc h) t
