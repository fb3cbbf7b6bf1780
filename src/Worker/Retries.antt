-- ===== src/Worker/Retries.antt =====
-- The deliveries of one job, one after another.
use share_sentinel.Prelude.{
  ℕ, zero, suc, ◌+◌, ◌*◌, ◌^◌, ◌<◌, ◌≤◌, ◌≡◌, refl, String, true, false, Option, none, some, List,
  [], ◌∷◌, inl, inr, Bool-cases, arith, All, length, if◌then◌else◌, ap, ◌∙◌,
}
use mathlib.Core.Path.{subst}
use share_sentinel.Worker.Events.{
  Status, queued, Events, processing, failed, is_queued, or_zero, get_event, create_event, EventRow,
}
use share_sentinel.Worker.Analysis.{transient, unhandled, value, raise}
use share_sentinel.Worker.Item.{FileJob, Environment, Store, Run}
use share_sentinel.Worker.File.{process_single_file}
use share_sentinel.Worker.Rows.{HasRow}
use share_sentinel.Worker.Job.{
  Config, World, process_job, process_file, process_files, clean_up, requeue, handled,
}
use share_sentinel.Worker.Steps.{IsEnded}
use share_sentinel.Worker.Ended.{process_single_file-IsSettled}
use share_sentinel.Worker.Finished.{
  IsRetried, IsExhausted, requeue-IsRetried, requeue-IsExhausted, create_event_lem, claimed_job,
  IsClaimable, IsFinished, ended, retried, process_file-IsFinished, clean_up-HasRow,
}

-- A delivery of an event that is not queued.
pub duplicate_job :
    (cfg : Config) (now : ℕ) (k : String) (steps : Store → Run) (w : World) {row : EventRow}
    → get_event k w.store.events ≡ some row
    → is_queued row.status ≡ false
    → process_job cfg now k steps w ≡ clean_up cfg now k w
unfolding process_job create_event
duplicate_job cfg now k steps w found other =
    let skipped : (create_event now k w.store.events).1 ≡ false =
      rw (found, other, create_event) refl in
    rw skipped refl

-- The pushes after `n` retries, the last first: each delay is twice the one before.
abbrev pub backoffs : Config → String → ℕ → List (ℕ × String)
backoffs cfg k zero = []
backoffs cfg k (suc n) = (cfg.requeue_base_delay_seconds * 2 ^ n, k) ∷ backoffs cfg k n

module _ (cfg : Config) where
  -- The pushes are those of the retries that the row counts.
  data IsTracked (k : String) (w : World) : Type 0 where
    unseen : get_event k w.store.events ≡ none → w.pushes ≡ [] → IsTracked k w
    counted :
        (n : Option ℕ) (s : Status)
        → HasRow k n s w.store.events
        → or_zero n ≤ cfg.max_event_retries
        → w.pushes ≡ backoffs cfg k (or_zero n)
        → IsTracked k w

  IsFinished-IsTracked :
      (now : ℕ) (k : String) (n : Option ℕ) (w w' : World)
      → or_zero n ≤ cfg.max_event_retries
      → w.pushes ≡ backoffs cfg k (or_zero n)
      → IsFinished cfg now k n w w'
      → IsTracked k w'
  IsFinished-IsTracked now k n w w' le pushed (ended s h closed same) =
      counted n s h le (same ∙ pushed)
  IsFinished-IsTracked now k n w w' le pushed (retried h lt more) =
      counted (some (suc (or_zero n))) queued h (omega (arith, lt))
        (more ∙ ap (λ ps. (cfg.requeue_base_delay_seconds * 2 ^ (or_zero n), k) ∷ ps) pushed)

  queued_row :
      {k : String} (n : Option ℕ) (s : Status) {es : Events}
      → HasRow k n s es
      → is_queued s ≡ true
      → HasRow k n queued es
  queued_row {k} n s {es} h waits = subst (λ x. HasRow k n x es) (ground (arith, waits)) h

  process_file-IsTracked :
      (e : Environment) (j : FileJob) (w : World)
      → IsTracked j.event_id w
      → IsTracked j.event_id (process_file cfg e j w)
  unfolding clean_up
  process_file-IsTracked e j w (unseen absent pushed) =
      IsFinished-IsTracked e.now j.event_id (some 0) w _ (omega arith) pushed
        (process_file-IsFinished cfg e j (some 0) w (inl (absent, refl)))
  process_file-IsTracked e j w (counted n s h le pushed) = elim (Bool-cases (is_queued s)) [
    | inl waits ↦
        IsFinished-IsTracked e.now j.event_id n w _ le pushed
          (process_file-IsFinished cfg e j n w (inr (queued_row n s h waits)))
    | inr other ↦
        rw
          (duplicate_job cfg e.now j.event_id (process_single_file e j false none) w h.found
            (ap is_queued h.status ∙ other))
          (counted n s (clean_up-HasRow cfg e.now j.event_id n s w h) le pushed)
  ]

  process_files-IsTracked :
      (j : FileJob) (es : List Environment) (w : World)
      → IsTracked j.event_id w
      → IsTracked j.event_id (process_files cfg j es w)
  unfolding process_files
  process_files-IsTracked j [] w t = t
  process_files-IsTracked j (e ∷ es) w t =
      process_files-IsTracked j es (process_file cfg e j w) (process_file-IsTracked e j w t)

  tracked_lem :
      (k : String) (w : World)
      → IsTracked k w
      → (c : ℕ) × (c ≤ cfg.max_event_retries) × (w.pushes ≡ backoffs cfg k c)
  tracked_lem k w (unseen absent pushed) = (0, omega arith, pushed)
  tracked_lem k w (counted n s h le pushed) = (or_zero n, le, pushed)

  -- However often a file's job is delivered, and whatever the services answer: if its event was not in
  -- the table and nothing was pushed, the pushes are at most `max_event_retries`, with doubling delays.
  pub retries_bounded :
      (j : FileJob) (es : List Environment) (w : World)
      → get_event j.event_id w.store.events ≡ none
      → w.pushes ≡ []
      → (c : ℕ) × (c ≤ cfg.max_event_retries)
        × ((process_files cfg j es w).pushes ≡ backoffs cfg j.event_id c)
  retries_bounded j es w absent pushed =
      tracked_lem j.event_id _ (process_files-IsTracked j es w (unseen absent pushed))

  -- The services fail a file's run in a transient way, whatever the store.
  abbrev pub FailsTransiently : FileJob → Environment → Type 0
  FailsTransiently j e = (st : Store) → (process_single_file e j false none st).1 ≡ raise transient

  -- What one such delivery leaves, by the retries counted before it.
  abbrev LeftBy : (now : ℕ) (k : String) (n : Option ℕ) (w w' : World) → Type 0
  LeftBy now k n w w' =
      (or_zero n < cfg.max_event_retries → IsRetried cfg now k n w w')
      × (cfg.max_event_retries ≤ or_zero n → IsExhausted cfg now k n w w')

  handled_lem :
      (now : ℕ) (k : String) (n : Option ℕ) (run : Run) (w : World)
      → run.1 ≡ raise transient
      → IsEnded k n processing w.store.db run
      → LeftBy now k n w (clean_up cfg now k (handled cfg now k run w))
  unfolding clean_up
  handled_lem now k n (st, value r) w fails ends = absurd (ground (arith, fails))
  handled_lem now k n (st, raise unhandled) w fails ends = absurd (ground (arith, fails))
  handled_lem now k n (st, raise transient) w fails (s', h, (same, kept)) =
      let w1 = record w { store = st } in
      let w2 = requeue cfg now k w1 in
      (
        (λ lt.
            let (h', more, told, kept_db) = requeue-IsRetried cfg now k n s' w1 h lt in
            (
              clean_up-HasRow cfg now k (some (suc (or_zero n))) queued w2 h',
              more,
              told,
              kept_db ∙ kept,
            )),
        (λ le.
            let (h', pushed, told, kept_db) = requeue-IsExhausted cfg now k n s' w1 h le in
            (clean_up-HasRow cfg now k n failed w2 h', pushed, told, kept_db ∙ kept)),
      )

  failing_lem :
      (e : Environment) (j : FileJob) (n : Option ℕ) (w : World)
      → FailsTransiently j e
      → IsClaimable j.event_id n w.store.events
      → LeftBy e.now j.event_id n w (process_file cfg e j w)
  failing_lem e j n w fails claimable =
      let (new, h) = create_event_lem e.now j.event_id n w.store.events claimable in
      let (ends, fine) = process_single_file-IsSettled e j false n processing none _ h in
      rw (claimed_job cfg e.now j.event_id (process_single_file e j false none) w new)
        (handled_lem e.now j.event_id n _ w (fails _) ends)

  -- What the deliveries leave once the retries are used up.
  abbrev pub GivesUp : String → World → World → Type 0
  GivesUp k w w' =
      HasRow k (some cfg.max_event_retries) failed w'.store.events
      × (w'.pushes ≡ backoffs cfg k cfg.max_event_retries)
      × (w'.notices ≡ (if cfg.notify_on_failure then k ∷ w.notices else w.notices))
      × (w'.store.db ≡ w.store.db)

  gives_up :
      (j : FileJob) (c : ℕ) (e : Environment) (es : List Environment) (w : World)
      → All (FailsTransiently j) (e ∷ es)
      → c + length es ≡ cfg.max_event_retries
      → IsClaimable j.event_id (some c) w.store.events
      → w.pushes ≡ backoffs cfg j.event_id c
      → GivesUp j.event_id w (process_files cfg j (e ∷ es) w)
  unfolding process_files
  gives_up j c e [] w f last claimable pushed =
      let (h, same, told, kept) =
        (failing_lem e j (some c) w f.0 claimable).1 (omega (arith, last)) in
      let full : c ≡ cfg.max_event_retries = omega (arith, last) in
      (
        subst (λ x. HasRow j.event_id (some x) failed (process_file cfg e j w).store.events) full h,
        same ∙ pushed ∙ ap (backoffs cfg j.event_id) full,
        told,
        kept,
      )
  gives_up j c e (e' ∷ es) w f last claimable pushed =
      let (h, more, told, kept) =
        (failing_lem e j (some c) w f.0 claimable).0 (omega (arith, last)) in
      let (h', pushed', told', kept') =
        gives_up j (suc c) e' es (process_file cfg e j w) f.1 (omega (arith, last)) (inr h)
          (more ∙ ap (λ ps. (cfg.requeue_base_delay_seconds * 2 ^ c, j.event_id) ∷ ps) pushed) in
      (
        h',
        pushed',
        told' ∙ ap (λ ns. if cfg.notify_on_failure then j.event_id ∷ ns else ns) told,
        kept' ∙ kept,
      )

  -- If every delivery of a file's job fails in a transient way, the one after the retries are used up
  -- ends the event as failed, without a verdict, after `max_event_retries` pushes with doubling
  -- delays and, if configured, one notice.
  pub retries_exhausted :
      (j : FileJob) (e : Environment) (es : List Environment) (w : World)
      → All (FailsTransiently j) (e ∷ es)
      → length es ≡ cfg.max_event_retries
      → get_event j.event_id w.store.events ≡ none
      → w.pushes ≡ []
      → GivesUp j.event_id w (process_files cfg j (e ∷ es) w)
  retries_exhausted j e es w f last absent pushed =
      gives_up j 0 e es w f (omega (arith, last)) (inl (absent, refl)) pushed
