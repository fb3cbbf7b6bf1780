-- ===== src/Folder/Counts.antt =====
-- The counters of a folder's files, in the loop and on the row of the folder's event.
use share_sentinel.Prelude.{
  ℕ, suc, ◌+◌, ◌≡◌, refl, ap, ◌∙◌, String, true, false, Option, none, some, List, [], ◌∷◌, inl, inr,
  ◌⊎◌, Option-cases, eq_iff, sym, Bool-cases, length, arith, ◌==◌,
}
use mathlib.Core.Option
use share_sentinel.Pipeline.SecondLook.{Response, escalates}
use share_sentinel.Worker.Events.{Status, EventRow, Events, get_event}
use share_sentinel.Worker.Analysis.{value, raise}
use share_sentinel.Worker.Item.{Environment, Store, Run}
use share_sentinel.Worker.Frame.{Keeps, update_event_status-Keeps, process_single_file-Keeps}
use share_sentinel.Folder.Items.{
  ChildItem, child_event_id, create_child_event, processed, update_folder_progress, new_child,
}
use share_sentinel.Folder.Tracks.{Tracks, Keeps-Tracks, processed-Tracks, flagged-Tracks}
use share_sentinel.Folder.Children.{
  FolderJob, Batch, child_job, prefetched, duplicate, answered, classified, process_child,
  process_children,
}

-- How many files the loop has counted.
abbrev pub counted : Batch → ℕ
counted b = b.flagged_count + (b.clean_count + b.failed_count)

-- There is a row of the event.
abbrev pub IsThere : String → Events → Type 0
IsThere k es = (row : EventRow) × (get_event k es ≡ some row)

pub create-cases :
    (now : ℕ) (parent k : String) (item : ChildItem) (es : Events)
    → (IsThere k es × (create_child_event now parent k item es ≡ (es, false)))
      ⊎ ((get_event k es ≡ none)
          × (create_child_event now parent k item es ≡ (new_child now parent k item ∷ es, true)))
unfolding create_child_event
create-cases now parent k item es = elim (Option-cases (get_event k es)) [
  | inl absent ↦ inr (absent, rw (absent, create_child_event) refl)
  | inr (row, found) ↦ inl ((row, found), rw (found, create_child_event) refl)
]

-- An event with a row is not one without.
pub absent_other :
    (k k' : String) (es : Events) (row : EventRow)
    → get_event k es ≡ some row
    → get_event k' es ≡ none
    → (k' == k) ≡ false
absent_other k k' es row found absent = elim (Bool-cases (k' == k)) [
  | inl same ↦
      let e : k' ≡ k = (eq_iff k' k).0 same in
      let none_some : none ≡ some row = sym absent ∙ ap (λ x. get_event x es) e ∙ found in
      absurd (Option.none-ne-some row none_some)
  | inr other ↦ other
]

pub new_child-Keeps :
    (now : ℕ) (parent k k' : String) (item : ChildItem) (es : Events)
    → (k' == k) ≡ false
    → Keeps k es (new_child now parent k' item ∷ es)
unfolding get_event
new_child-Keeps now parent k k' item es other = ground (arith, other)

module _ (j : FolderJob) (n : Option ℕ) (s : Status) (o : Option ℕ) (p0 f0 : ℕ) where
  -- The row counts what the loop has counted.
  abbrev pub IsTallied : Batch → Type 0
  IsTallied b = Tracks j.event_id n s o (p0 + counted b) (f0 + b.flagged_count) b.store.events

  -- One file later.
  abbrev pub IsTallied-next : Batch → Batch → Type 0
  IsTallied-next b b' = IsTallied b' × (counted b' ≡ suc (counted b))

  module _ (now idx : ℕ) (item : ChildItem) (b : Batch) where
    -- The events of a run, before it is counted.
    abbrev IsBefore : Events → Type 0
    IsBefore es = Tracks j.event_id n s o (p0 + counted b) (f0 + b.flagged_count) es

    counted-Tracks :
        (c f : ℕ) (es : Events)
        → IsBefore es
        → c ≡ suc (counted b)
        → f ≡ b.flagged_count
        → Tracks j.event_id n s o
            (p0 + c)
            (f0 + f)
            (update_folder_progress now j.event_id processed es)
    counted-Tracks c f es t more same =
        let e : p0 + c ≡ suc (p0 + counted b) = omega arith in
        rw (e, same) (processed-Tracks now j.event_id n s o _ _ es t)

    duplicate-IsTallied : IsTallied b → IsTallied-next b (duplicate j now idx item b)
    duplicate-IsTallied t = (counted-Tracks _ _ _ t (omega arith) refl, omega arith)

    answered-IsTallied :
        (h : Option String) (r : Response) (st : Store)
        → IsBefore st.events
        → IsTallied-next b (answered j now idx item h r st b)
    answered-IsTallied h r st t = elim (Bool-cases (escalates r)) [
      | inl up ↦
          let e : f0 + suc b.flagged_count ≡ suc (f0 + b.flagged_count) = omega arith in
          let t' =
            counted-Tracks (suc b.flagged_count + (b.clean_count + b.failed_count)) b.flagged_count
              st.events t (omega arith) refl in
          rw up (rw e (flagged-Tracks now j.event_id n s o _ _ _ t'), omega arith)
      | inr down ↦ rw down (counted-Tracks _ _ _ t (omega arith) refl, omega arith)
    ]

    classified-IsTallied :
        (h : Option String) (run : Run)
        → (child_event_id j.event_id idx == j.event_id) ≡ false
        → IsBefore run.0.events
        → IsTallied-next b (classified j now idx item h run b)
    classified-IsTallied h (st, value (some r)) other t = answered-IsTallied h r st t
    classified-IsTallied h (st, value none) other t =
        (counted-Tracks _ _ _ t (omega arith) refl, omega arith)
    classified-IsTallied h (st, raise x) other t = (
      Keeps-Tracks _ _ _ _ _ _ _ _ (update_event_status-Keeps now j.event_id _ _ _ _ other)
          (counted-Tracks _ _ _ t (omega arith) refl),
      omega arith,
    )

  after_create-IsTallied :
      (e : Environment) (idx : ℕ) (item : ChildItem) (b : Batch)
      → IsTallied b
      → IsTallied-next b (process_child j e idx item b)
  unfolding process_child
  after_create-IsTallied e idx item b t =
      let k' = child_event_id j.event_id idx in
      elim (create-cases e.now j.event_id k' item b.store.events) [
        | inl (there, old) ↦ rw (old, process_child) (duplicate-IsTallied e.now idx item b t)
        | inr (absent, new) ↦
            let other = absent_other j.event_id k' b.store.events t.row t.found absent in
            let fresh = new_child-Keeps e.now j.event_id j.event_id k' item b.store.events other in
            let run =
              process_single_file-Keeps e (child_job j idx item) true j.event_id other
                (some (prefetched item))
                (record (b.store) {
                  events = new_child e.now j.event_id k' item ∷ b.store.events;
                }) in
            rw (new, process_child)
              (classified-IsTallied e.now idx item b _ _ other
                (Keeps-Tracks _ _ _ _ _ _ _ _ (run ∙ fresh) t))
      ]

  -- The loop counts each file once, as flagged, clean or failed, and the row of the folder's event
  -- grows by as many processed and flagged files as the loop counts.
  pub process_children-IsTallied :
      (env : ℕ → Environment) (idx : ℕ) (items : List ChildItem) (b : Batch)
      → IsTallied b
      → IsTallied (process_children j env idx items b)
        × (counted (process_children j env idx items b) ≡ length items + counted b)
  unfolding process_children
  process_children-IsTallied env idx [] b t = (t, omega arith)
  process_children-IsTallied env idx (item ∷ items) b t =
      let (t', one) = after_create-IsTallied (env idx) idx item b t in
      let (t'', all) =
        process_children-IsTallied env (suc idx) items (process_child j (env idx) idx item b) t' in
      (t'', omega arith)
