-- ===== src/Worker/Finished.antt =====
-- What one delivery of a file's job leaves.
use share_sentinel.Prelude.{
  ℕ, suc, ◌*◌, ◌^◌, ◌<◌, ◌≤◌, ◌-◌, ◌≡◌, ◌≢◌, refl, String, true, false, Option, none, some, ◌∷◌,
  inl, inr, ◌⊎◌, Bool-cases, arith, leb, if◌then◌else◌, ap, ◌∙◌, eq_refl,
}
use mathlib.Core.Option
use share_sentinel.Pipeline.Record.{Database}
use share_sentinel.Worker.Events.{
  Status, queued, processing, failed, Events, failure_reason, temp_file_deleted, or_zero, new_event,
  written, get_event, claimed, create_event, update_event_status, requeue_event, requeued,
  count_after,
}
use share_sentinel.Worker.Analysis.{transient, unhandled, value, raise}
use share_sentinel.Worker.Item.{FileJob, Environment, Store, Run}
use share_sentinel.Worker.Rows.{HasRow, get-update, update-HasRow, update_event_status-HasRow}
use share_sentinel.Worker.Steps.{is_closed, IsEnded}
use share_sentinel.Worker.Ended.{process_single_file-IsSettled}
use share_sentinel.Worker.Job.{
  Config, World, status_of, retries_of, current_status, requeue, clean_up, handled, process_job,
  process_file, notify_failure, set_event_status,
}

-- An event that a delivery may claim: one that is not in the table, or is queued.
abbrev pub IsClaimable : String → Option ℕ → Events → Type 0
IsClaimable k n es = ((get_event k es ≡ none) × (n ≡ some 0)) ⊎ HasRow k n queued es

pub create_event_lem :
    (now : ℕ) (k : String) (n : Option ℕ) (es : Events)
    → IsClaimable k n es
    → ((create_event now k es).1 ≡ true) × HasRow k n processing (create_event now k es).0
unfolding create_event get_event
create_event_lem now k n es (inl (absent, zero)) =
    rw (absent, create_event, zero)
      (
        refl,
        record {
          row = new_event now k;
          found = ground (arith, eq_refl k);
          count = refl;
          status = refl;
        },
      )
create_event_lem now k n es (inr h) =
    rw (h.found, h.status, create_event)
      (
        refl,
        update-HasRow (claimed now) k n queued processing es (λ e. refl) (λ e. refl) (λ e p. refl)
            h,
      )

module _ (cfg : Config) (now : ℕ) (k : String) where
  pub clean_up-HasRow :
      (n : Option ℕ) (s : Status) (w : World)
      → HasRow k n s w.store.events
      → HasRow k n s (clean_up cfg now k w).store.events
  unfolding clean_up update_event_status
  clean_up-HasRow n s w h =
      update-HasRow (written now (current_status cfg now k w) temp_file_deleted) k n s s
        w.store.events (λ e. refl) (λ e. refl) (λ e p. ap status_of h.found ∙ h.status) h

  -- What a delivery that claims the event leaves: an end, or another push.
  pub data IsFinished (n : Option ℕ) (w w' : World) : Type 0 where
    ended :
        (s : Status)
        → HasRow k n s w'.store.events
        → is_closed s ≡ true
        → w'.pushes ≡ w.pushes
        → IsFinished n w w'
    retried :
        HasRow k (some (suc (or_zero n))) queued w'.store.events
        → or_zero n < cfg.max_event_retries
        → w'.pushes ≡ (cfg.requeue_base_delay_seconds * 2 ^ (or_zero n), k) ∷ w.pushes
        → IsFinished n w w'

  requeue_event-HasRow :
      (n : Option ℕ) (s : Status) (es : Events)
      → HasRow k n s es
      → HasRow k (some (suc (or_zero n))) queued (requeue_event now k "transient" es).0
  unfolding requeue_event
  requeue_event-HasRow n s es h = record {
    row = requeued now "transient" h.row;
    found = get-update _ k es (λ e. refl) ∙ ap (Option.map (requeued now "transient")) h.found;
    count = ap (λ c. some (suc (or_zero c))) h.count;
    status = refl;
  }

  retries_lem :
      (n : Option ℕ) (s : Status) (es : Events)
      → HasRow k n s es
      → retries_of (get_event k es) ≡ or_zero n
  retries_lem n s es h = ap retries_of h.found ∙ ap or_zero h.count

  -- The event is queued again: one retry counted and one push scheduled.
  abbrev pub IsRetried : Option ℕ → World → World → Type 0
  IsRetried n w w' =
      HasRow k (some (suc (or_zero n))) queued w'.store.events
      × (w'.pushes ≡ (cfg.requeue_base_delay_seconds * 2 ^ (or_zero n), k) ∷ w.pushes)
      × (w'.notices ≡ w.notices)
      × (w'.store.db ≡ w.store.db)

  -- The event has failed, with a notice if these are configured.
  abbrev pub IsExhausted : Option ℕ → World → World → Type 0
  IsExhausted n w w' =
      HasRow k n failed w'.store.events
      × (w'.pushes ≡ w.pushes)
      × (w'.notices ≡ (if cfg.notify_on_failure then k ∷ w.notices else w.notices))
      × (w'.store.db ≡ w.store.db)

  -- A transient error with retries left.
  pub requeue-IsRetried :
      (n : Option ℕ) (s : Status) (w : World)
      → HasRow k n s w.store.events
      → or_zero n < cfg.max_event_retries
      → IsRetried n w (requeue cfg now k w)
  unfolding requeue requeue_event
  requeue-IsRetried n s w h lt =
      let left : leb cfg.max_event_retries (retries_of (get_event k w.store.events)) ≡ false =
        rw (retries_lem n s _ h) (ground arith) in
      let count : count_after (get_event k w.store.events) - 1 ≡ or_zero n =
        rw (ap count_after h.found ∙ ap (λ c. suc (or_zero c)) h.count) (omega arith) in
      rw (left, requeue)
        (
          requeue_event-HasRow n s _ h,
          ap (λ c. (cfg.requeue_base_delay_seconds * 2 ^ c, k) ∷ w.pushes) count,
          refl,
          refl,
        )

  notify_failure_lem :
      (w : World)
      → ((notify_failure cfg now k w).store ≡ w.store)
        × ((notify_failure cfg now k w).pushes ≡ w.pushes)
        × ((notify_failure cfg now k w).notices
            ≡ (if cfg.notify_on_failure then k ∷ w.notices else w.notices))
  notify_failure_lem w = ground arith

  -- A transient error with none.
  pub requeue-IsExhausted :
      (n : Option ℕ) (s : Status) (w : World)
      → HasRow k n s w.store.events
      → cfg.max_event_retries ≤ or_zero n
      → IsExhausted n w (requeue cfg now k w)
  unfolding requeue
  requeue-IsExhausted n s w h le =
      let none_left : leb cfg.max_event_retries (retries_of (get_event k w.store.events)) ≡ true =
        rw (retries_lem n s _ h) (ground arith) in
      let (same_store, same_pushes, told) =
        notify_failure_lem
          (set_event_status cfg now k failed (failure_reason "max_retries_exceeded") w) in
      rw (none_left, requeue)
        (
          rw same_store (update_event_status-HasRow now k n s failed _ _ h),
          same_pushes,
          told,
          ap (λ st. st.db) same_store,
        )

  -- What a delivery leaves of a run that has settled.
  handled-IsFinished :
      (n : Option ℕ) (db : Database) (run : Run) (w : World)
      → IsEnded k n processing db run
      → run.1 ≢ raise unhandled
      → IsFinished n w (clean_up cfg now k (handled cfg now k run w))
  unfolding clean_up
  handled-IsFinished n db (st, value (some r)) w (s', h, (done, one)) fine =
      ended s' (clean_up-HasRow n s' (record w { store = st }) h) (ap is_closed done) refl
  handled-IsFinished n db (st, value none) w (s', h, (done, kept)) fine =
      ended s' (clean_up-HasRow n s' (record w { store = st }) h) done refl
  handled-IsFinished n db (st, raise unhandled) w (s', h, kept) fine = absurd (fine refl)
  handled-IsFinished n db (st, raise transient) w (s', h, kept) fine =
      let w1 = record w { store = st } in
      let w2 = requeue cfg now k w1 in
      elim (Bool-cases (leb cfg.max_event_retries (or_zero n))) [
        | inl le ↦
            let (h', same, told, kept_db) = requeue-IsExhausted n s' w1 h (ground (arith, le)) in
            ended failed (clean_up-HasRow n failed w2 h') refl same
        | inr lt ↦
            let (h', more, told, kept_db) = requeue-IsRetried n s' w1 h (ground (arith, lt)) in
            retried (clean_up-HasRow (some (suc (or_zero n))) queued w2 h') (ground (arith, lt))
              more
      ]

-- What follows the claim.
pub claimed_job :
    (cfg : Config) (now : ℕ) (k : String) (steps : Store → Run) (w : World)
    → (create_event now k w.store.events).1 ≡ true
    → process_job cfg now k steps w
      ≡ clean_up cfg now k (
          handled cfg now k
            (steps (record (w.store) { events = (create_event now k w.store.events).0 }))
            w)
unfolding process_job
claimed_job cfg now k steps w new = rw new refl

-- Whatever the services answer, a delivery of a file's job whose event is not in the table or is
-- queued does not leave it processing: it ends completed, failed or parked for an inspection with no
-- push, or queued with its retries, which were under the limit, counted and one push scheduled
-- after the doubled delay.
pub process_file-IsFinished :
    (cfg : Config) (e : Environment) (j : FileJob) (n : Option ℕ) (w : World)
    → IsClaimable j.event_id n w.store.events
    → IsFinished cfg e.now j.event_id n w (process_file cfg e j w)
process_file-IsFinished cfg e j n w claimable =
    let (new, h) = create_event_lem e.now j.event_id n w.store.events claimable in
    let (ends, fine) = process_single_file-IsSettled e j false n processing none _ h in
    rw (claimed_job cfg e.now j.event_id _ w new)
      (handled-IsFinished cfg e.now j.event_id n w.store.db _ w ends fine)
