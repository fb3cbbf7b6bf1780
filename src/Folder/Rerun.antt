-- ===== src/Folder/Rerun.antt =====
-- A folder's job that is delivered again, when all its files have their events.
use share_sentinel.Prelude.{
  ℕ, suc, ◌+◌, ◌≤◌, ◌<◌, ◌≡◌, refl, ap, ◌∙◌, String, Option, none, some, List, [], ◌∷◌, ◌++◌, inl,
  inr, Bool-cases, length, arith, if◌then◌else◌, Codes, sym, elem,
}
use mathlib.Core.List
use mathlib.Core.Option
use share_sentinel.Graph.{Permission}
use share_sentinel.Escalation.Tier.{
  no_tier, compute_escalation_tier, meets, exceeds, contact_escalates,
}
use share_sentinel.Pipeline.SecondLook.{escalation_tier}
use share_sentinel.Pipeline.Record.{Verdict, Database}
use share_sentinel.Worker.Events.{queued, Events, update_event_metadata, create_event, claimed}
use share_sentinel.Worker.Item.{Environment, Store}
use share_sentinel.Worker.Job.{Config, World, clean_up, handled}
use share_sentinel.Worker.Rows.{HasRow}
use share_sentinel.Worker.Finished.{create_event_lem, claimed_job}
use share_sentinel.Folder.Items.{ChildItem, child_event_id, total, processed}
use share_sentinel.Folder.Children.{
  FolderJob, ChildResult, Batch, skipped_duplicate, result, duplicate, process_child,
  process_children,
}
use share_sentinel.Folder.Counts.{IsThere, create-cases}
use share_sentinel.Folder.Quiet.{update-IsThere, progress-IsThere}
use share_sentinel.Folder.Share.{
  FolderEnvironment, is_flagged, folder_verdict, aggregated_categories, concluded,
  handle_folder_share, process_folder, start_batch, with_total,
}
use share_sentinel.Folder.Enumerated.{located, batch_of, Passes, handle_folder_share-Passes}

pub aggregated-append :
    (a b : List ChildResult)
    → aggregated_categories (a ++ b) ≡ aggregated_categories a ++ aggregated_categories b
unfolding aggregated_categories
aggregated-append [] b = refl
aggregated-append (r ∷ a) b = elim (Bool-cases (is_flagged r.escalation_tier)) [
  | inl up ↦ rw up (
      ap (λ l. r.categories ++ l) (aggregated-append a b)
      ∙ sym (List.append_assoc r.categories (aggregated_categories a) (aggregated_categories b)))
  | inr down ↦ rw down (aggregated-append a b)
]

there-process_child :
    (j : FolderJob) (e : Environment) (idx : ℕ) (item : ChildItem) (b : Batch)
    → IsThere (child_event_id j.event_id idx) b.store.events
    → process_child j e idx item b ≡ duplicate j e.now idx item b
unfolding process_child
there-process_child j e idx item b (row, found) =
    elim (create-cases e.now j.event_id (child_event_id j.event_id idx) item b.store.events) [
      | inl (there, old) ↦ rw (process_child, old) refl
      | inr (absent, new) ↦ absurd (Option.none-ne-some row (sym absent ∙ found))
    ]

-- What the loop over files with events leaves of the batch.
pub record IsUnmoved (b b' : Batch) : Type 0 where
  pub db : b'.store.db ≡ b.store.db
  pub flagged : b'.flagged_count ≡ b.flagged_count
  pub failed : b'.failed_count ≡ b.failed_count
  pub categories : aggregated_categories b'.child_results ≡ aggregated_categories b.child_results

abbrev AllThere : String → ℕ → ℕ → Events → Type 0
AllThere k idx n es = (m : ℕ) → idx ≤ m → m < idx + n → IsThere (child_event_id k m) es

there-process_children :
    (j : FolderJob) (env : ℕ → Environment) (idx : ℕ) (items : List ChildItem) (b : Batch)
    → AllThere j.event_id idx (length items) b.store.events
    → IsUnmoved b (process_children j env idx items b)
unfolding process_children aggregated_categories
there-process_children j env idx [] b h = record {
  db = refl;
  flagged = refl;
  failed = refl;
  categories = refl;
}
there-process_children j env idx (item ∷ items) b h =
    let b' = duplicate j (env idx).now idx item b in
    let first = there-process_child j (env idx) idx item b (h idx (omega arith) (omega arith)) in
    let rest = there-process_children j env (suc idx) items b' (λ m lo hi.
      progress-IsThere (env idx).now (child_event_id j.event_id m) j.event_id processed
        b.store.events (h m (omega arith) (omega arith))) in
    rw (first) (record {
      db = rest.db;
      flagged = rest.flagged;
      failed = rest.failed;
      categories =
          rest.categories
          ∙ aggregated-append b.child_results
              (result j idx item skipped_duplicate none [] none ∷ [])
          ∙ List.append-nil (aggregated_categories b.child_results);
    })

create_event-IsThere :
    (now : ℕ) (k k' : String) (n : Option ℕ) (es : Events)
    → HasRow k n queued es
    → IsThere k' es
    → IsThere k' (create_event now k es).0
unfolding create_event
create_event-IsThere now k k' n es h there =
    rw (h.found, h.status, create_event) (update-IsThere (claimed now) k' k es (λ e. refl) there)

located-IsThere :
    (e : FolderEnvironment) (j : FolderJob) (d i k : String) (n : Option ℕ) (st : Store)
    → HasRow j.event_id n queued st.events
    → IsThere k st.events
    → IsThere k (located e j d i st).events
unfolding update_event_metadata
located-IsThere e j d i k n st h there =
    update-IsThere _ k j.event_id _ (λ r. refl)
      (create_event-IsThere e.now j.event_id k n st.events h there)

-- The verdict of a folder in which nothing is flagged.
abbrev pub nothing_flagged : FolderEnvironment → FolderJob → Verdict
nothing_flagged e j = record {
  event_id = j.event_id;
  category_ids = [];
  escalation_tier = no_tier;
  analysis_mode = "folder_enumeration";
  notification_required = e.notify_on_folder_share;
}

folder_verdict_quiet :
    (e : FolderEnvironment) (j : FolderJob) (b : Batch) (db : Database)
    → b.flagged_count ≡ 0
    → aggregated_categories b.child_results ≡ []
    → ((folder_verdict e j b db).verdicts ≡ db.verdicts ++ nothing_flagged e j ∷ [])
      × ((folder_verdict e j b db).alerts ≡ (
          if e.notify_on_folder_share then db.alerts ++ (j.event_id, no_tier) ∷ [] else db.alerts))
unfolding escalation_tier compute_escalation_tier meets exceeds contact_escalates elem
folder_verdict_quiet e j b db unflagged empty = elim (Bool-cases e.notify_on_folder_share) [
  | inl told ↦ rw (unflagged, empty, told) (refl, refl)
  | inr quiet ↦ rw (unflagged, empty, quiet) (refl, refl)
]

-- If a folder's event is queued again when its files have their events, whatever the verdicts on them
-- and whether or not they have any, the delivery records that nothing in the folder is flagged, and
-- alerts only if alerts on folder shares are configured.
pub process_folder_rerun :
    (cfg : Config) (e : FolderEnvironment) (j : FolderJob) (n : Option ℕ) (w : World) (name : Codes)
    (d i : String) (ps : Option (List Permission)) (c : ChildItem) (cs : List ChildItem)
    → HasRow j.event_id n queued w.store.events
    → Passes e j name d i ps
    → e.children ≡ some (c ∷ cs)
    → ((m : ℕ) → m < length (c ∷ cs) → IsThere (child_event_id j.event_id m) w.store.events)
    → ((process_folder cfg e j w).store.db.verdicts
        ≡ w.store.db.verdicts ++ nothing_flagged e j ∷ [])
      × ((process_folder cfg e j w).store.db.alerts ≡ (
          if e.notify_on_folder_share
          then w.store.db.alerts ++ (j.event_id, no_tier) ∷ []
          else w.store.db.alerts))
unfolding clean_up concluded
process_folder_rerun cfg e j n w name d i ps c cs h passes ch there =
    let (new, h') = create_event_lem e.now j.event_id n w.store.events (inr h) in
    let st = located e j d i w.store in
    let unmoved =
      there-process_children j e.child_environment 0 (c ∷ cs)
        (start_batch e j (with_total e j (length (c ∷ cs)) st))
        (λ m lo hi.
          progress-IsThere e.now (child_event_id j.event_id m) j.event_id (total (length (c ∷ cs)))
            st.events
            (located-IsThere e j d i (child_event_id j.event_id m) n w.store h
              (there m (omega arith)))) in
    let (verdicts, alerts) =
      folder_verdict_quiet e j (batch_of e j d i (c ∷ cs) w.store) _ unmoved.flagged
        unmoved.categories in
    rw
      (claimed_job cfg e.now j.event_id (handle_folder_share e j) w new
        ∙ ap (λ r. clean_up cfg e.now j.event_id (handled cfg e.now j.event_id r w))
            (handle_folder_share-Passes e j name d i ps c cs w.store passes ch))
      (
        verdicts ∙ ap (λ db. db.verdicts ++ nothing_flagged e j ∷ []) unmoved.db,
        alerts
            ∙ ap
                (λ db.
                  (if e.notify_on_folder_share
                    then db.alerts ++ (j.event_id, no_tier) ∷ []
                    else db.alerts))
                unmoved.db,
      )
