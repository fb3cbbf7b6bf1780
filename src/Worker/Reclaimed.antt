-- ===== src/Worker/Reclaimed.antt =====
-- What the start of a worker does with events that the last worker left.
use share_sentinel.Prelude.{
  ℕ, ◌≡◌, refl, String, Bool, true, false, some, List, [], ◌∷◌, ◌&&◌, ◌||◌, inl, inr, Bool-cases,
  arith, any, filter, elem, elem-append, leb, eq_iff, eq_refl, ap, ◌∙◌,
}
use mathlib.Core.Option
use share_sentinel.Worker.Events.{
  is_queued, queued, processing, failed, EventRow, Events, get_event, update, or_zero,
  update_event_status, requeue_event, is_stuck,
}
use share_sentinel.Worker.Rows.{get_other, get-update}
use share_sentinel.Worker.Duplicate.{redelivered, process_job_duplicate}
use share_sentinel.Worker.Item.{Store, Run}
use share_sentinel.Worker.Job.{Config, World, process_job}
use share_sentinel.Worker.Startup.{
  Station, reclaim_jobs, enqueue, recover_stuck, recover_all, recover_stuck_events, enqueue_all,
  stuck_rows, orphans, recover_orphaned_queued_events, start_up,
}
use share_sentinel.Worker.Swept.{any-sort_rows, any-filter, elem-reclaim, is_event}

module _ (cfg : Config) (now : ℕ) (k : String) where
  -- The event is queued with a job on the queue, or has failed.
  pub data IsRescued (s : Station) : Type 0 where
    waiting :
        (row : EventRow)
        → get_event k s.events ≡ some row
        → row.status ≡ queued
        → elem k s.broker.queue ≡ true
        → IsRescued s
    given_up :
        (row : EventRow) → get_event k s.events ≡ some row → row.status ≡ failed → IsRescued s

  enqueue-IsRescued : (k' : String) (s : Station) → IsRescued s → IsRescued (enqueue k' s)
  enqueue-IsRescued k' s (waiting row found is_queued there) =
      waiting row found is_queued
        (elem-append k s.broker.queue (k' ∷ []) ∙ ap (λ b. b || elem k (k' ∷ [])) there)
  enqueue-IsRescued k' s (given_up row found has_failed) = given_up row found has_failed

  abbrev Present : Station → Type 0
  Present s = (row : EventRow) × (get_event k s.events ≡ some row)

  present_lem : (s : Station) → IsRescued s → Present s
  present_lem s (waiting row found is_queued there) = (row, found)
  present_lem s (given_up row found has_failed) = (row, found)

  recover_other :
      (r : EventRow) (s : Station)
      → is_event k r ≡ false
      → get_event k (recover_stuck cfg now r s).events ≡ get_event k s.events
  unfolding recover_stuck update_event_status requeue_event
  recover_other r s other = elim (Bool-cases (leb cfg.max_event_retries (or_zero r.retry_count))) [
    | inl out ↦ rw (out, recover_stuck) (get_other _ k r.event_id s.events (λ e. refl) other)
    | inr left ↦ rw (left, recover_stuck) (get_other _ k r.event_id s.events (λ e. refl) other)
  ]

  own_update :
      (f : EventRow → EventRow) (r row : EventRow) (es : Events)
      → ((e : EventRow) → (f e).event_id ≡ e.event_id)
      → r.event_id ≡ k
      → get_event k es ≡ some row
      → get_event k (update f r.event_id es) ≡ some (f row)
  own_update f r row es same own found = rw own (get-update f k es same ∙ ap (Option.map f) found)

  recover_own :
      (r : EventRow) (s : Station)
      → is_event k r ≡ true
      → Present s
      → IsRescued (recover_stuck cfg now r s)
  unfolding recover_stuck update_event_status requeue_event elem
  recover_own r s own (row, found) =
      let same : r.event_id ≡ k = ground (arith, own, eq_iff r.event_id k) in
      elim (Bool-cases (leb cfg.max_event_retries (or_zero r.retry_count))) [
        | inl out ↦
            rw (out, recover_stuck)
              (given_up _ (own_update _ r row s.events (λ e. refl) same found) refl)
        | inr left ↦
            rw (left, recover_stuck)
              (waiting _ (own_update _ r row s.events (λ e. refl) same found) refl
                (elem-append k s.broker.queue (r.event_id ∷ []) ∙ ground (arith, same, eq_refl k)))
      ]

  recover-Present : (r : EventRow) (s : Station) → Present s → Present (recover_stuck cfg now r s)
  recover-Present r s (row, found) = elim (Bool-cases (is_event k r)) [
    | inl own ↦ present_lem _ (recover_own r s own (row, found))
    | inr other ↦ (row, recover_other r s other ∙ found)
  ]

  -- The queue only grows.
  enqueue-elem :
      (k' : String) (s : Station)
      → elem k s.broker.queue ≡ true
      → elem k (enqueue k' s).broker.queue ≡ true
  enqueue-elem k' s there =
      elem-append k s.broker.queue (k' ∷ []) ∙ ap (λ b. b || elem k (k' ∷ [])) there

  recover_queue :
      (r : EventRow) (s : Station)
      → elem k s.broker.queue ≡ true
      → elem k (recover_stuck cfg now r s).broker.queue ≡ true
  unfolding recover_stuck
  recover_queue r s there = elim (Bool-cases (leb cfg.max_event_retries (or_zero r.retry_count))) [
    | inl out ↦ rw (out, recover_stuck) there
    | inr left ↦ rw (left, recover_stuck) (enqueue-elem r.event_id s there)
  ]

  other-IsRescued :
      (r : EventRow) (s : Station)
      → is_event k r ≡ false
      → IsRescued s
      → IsRescued (recover_stuck cfg now r s)
  other-IsRescued r s other (waiting row found is_queued there) =
      waiting row (recover_other r s other ∙ found) is_queued (recover_queue r s there)
  other-IsRescued r s other (given_up row found has_failed) =
      given_up row (recover_other r s other ∙ found) has_failed

  recover-IsRescued :
      (r : EventRow) (s : Station) → IsRescued s → IsRescued (recover_stuck cfg now r s)
  recover-IsRescued r s h = elim (Bool-cases (is_event k r)) [
    | inl own ↦ recover_own r s own (present_lem s h)
    | inr other ↦ other-IsRescued r s other h
  ]

  kept-IsRescued :
      (rs : List EventRow) (s : Station) → IsRescued s → IsRescued (recover_all cfg now rs s)
  unfolding recover_all
  kept-IsRescued [] s h = h
  kept-IsRescued (r ∷ rs) s h =
      kept-IsRescued rs (recover_stuck cfg now r s) (recover-IsRescued r s h)

  recover_all-IsRescued :
      (rs : List EventRow) (s : Station)
      → Present s
      → any (is_event k) rs ≡ true
      → IsRescued (recover_all cfg now rs s)
  unfolding recover_all
  recover_all-IsRescued [] s present among = absurd (ground (arith, among))
  recover_all-IsRescued (r ∷ rs) s present among = elim (Bool-cases (is_event k r)) [
    | inl own ↦ kept-IsRescued rs (recover_stuck cfg now r s) (recover_own r s own present)
    | inr other ↦
        recover_all-IsRescued rs (recover_stuck cfg now r s) (recover-Present r s present)
          (ground (arith, among, other))
  ]

  recover_all_other :
      (rs : List EventRow) (s : Station)
      → any (is_event k) rs ≡ false
      → get_event k (recover_all cfg now rs s).events ≡ get_event k s.events
  unfolding recover_all
  recover_all_other [] s none_own = refl
  recover_all_other (r ∷ rs) s none_own =
      recover_all_other rs (recover_stuck cfg now r s) (ground (arith, none_own))
      ∙ recover_other r s (ground (arith, none_own))

  recover_all_queue :
      (rs : List EventRow) (s : Station)
      → elem k s.broker.queue ≡ true
      → elem k (recover_all cfg now rs s).broker.queue ≡ true
  unfolding recover_all
  recover_all_queue [] s there = there
  recover_all_queue (r ∷ rs) s there =
      recover_all_queue rs (recover_stuck cfg now r s) (recover_queue r s there)

  enqueue_all-IsRescued :
      (rs : List EventRow) (s : Station) → IsRescued s → IsRescued (enqueue_all cfg now rs s)
  unfolding enqueue_all
  enqueue_all-IsRescued [] s h = h
  enqueue_all-IsRescued (r ∷ rs) s h =
      enqueue_all-IsRescued rs (enqueue r.event_id s) (enqueue-IsRescued r.event_id s h)

  enqueue_all_queue :
      (rs : List EventRow) (s : Station)
      → elem k s.broker.queue ≡ true
      → ((enqueue_all cfg now rs s).events ≡ s.events)
        × (elem k (enqueue_all cfg now rs s).broker.queue ≡ true)
  unfolding enqueue_all
  enqueue_all_queue [] s there = (refl, there)
  enqueue_all_queue (r ∷ rs) s there =
      enqueue_all_queue rs (enqueue r.event_id s) (enqueue-elem r.event_id s there)

  -- The rows of the event among those of the sweep.
  swept_lem :
      (timeout : ℕ) (es : Events)
      → any (is_event k) (stuck_rows cfg now timeout es)
        ≡ any (λ r. is_event k r && is_stuck now timeout r) es
  unfolding stuck_rows
  swept_lem timeout es =
      any-sort_rows _ (is_event k) (filter (is_stuck now timeout) es)
      ∙ any-filter (is_event k) (is_stuck now timeout) es

  found_lem :
      (p : EventRow → Bool) (es : Events)
      → any (λ r. is_event k r && p r) es ≡ true
      → (row : EventRow) × (get_event k es ≡ some row)
  unfolding get_event
  found_lem p [] among = absurd (ground (arith, among))
  found_lem p (e ∷ es) among = elim (Bool-cases (is_event k e)) [
    | inl own ↦ (e, rw own refl)
    | inr other ↦
        let (row, found) = found_lem p es (ground (arith, among, other)) in (row, rw other found)
  ]

  -- An event that has been processing for longer than the timeout, and is no child, is after the
  -- start of a worker queued with a job on the queue, or has failed.
  pub stuck-IsRescued :
      (timeout_minutes : ℕ) (s : Station)
      → any (λ r. is_event k r && is_stuck now timeout_minutes r) s.events ≡ true
      → IsRescued (start_up cfg now timeout_minutes s)
  unfolding start_up recover_stuck_events recover_orphaned_queued_events
  stuck-IsRescued timeout s among =
      let s1 = recover_stuck_events cfg now timeout (reclaim_jobs s) in
      enqueue_all-IsRescued (orphans cfg now s1) s1 (
        recover_all-IsRescued (stuck_rows cfg now timeout s.events) (reclaim_jobs s)
          (found_lem (is_stuck now timeout) s.events among) (swept_lem timeout s.events ∙ among))

  -- An event whose job was in flight when the worker stopped, but which is not yet past the timeout: the
  -- start puts its job back on the queue, leaves it processing, and the delivery of that job skips it as a
  -- duplicate, so that it is still processing without a push.
  pub reclaimed_skipped :
      (timeout_minutes : ℕ) (s : Station) (later : ℕ) (steps : Store → Run) (w : World)
      {row : EventRow}
      → get_event k s.events ≡ some row
      → row.status ≡ processing
      → any (λ r. is_event k r && is_stuck now timeout_minutes r) s.events ≡ false
      → elem k s.broker.in_flight ≡ true
      → w.store.events ≡ (start_up cfg now timeout_minutes s).events
      → let w' = process_job cfg later k steps w in
        (elem k (start_up cfg now timeout_minutes s).broker.queue ≡ true)
        × (get_event k w'.store.events ≡ some (redelivered later row))
        × (w'.pushes ≡ w.pushes)
  unfolding start_up recover_stuck_events recover_orphaned_queued_events elem
  reclaimed_skipped timeout s later steps w {row} found is_processing fresh flying started =
      let s1 = recover_stuck_events cfg now timeout (reclaim_jobs s) in
      let there : elem k s1.broker.queue ≡ true =
        recover_all_queue (stuck_rows cfg now timeout s.events) (reclaim_jobs s) (
          elem-reclaim k s.broker.in_flight s.broker.queue
          ∙ ap (λ b. b || elem k s.broker.queue) flying) in
      let (same, on_queue) = enqueue_all_queue (orphans cfg now s1) s1 there in
      let kept : get_event k w.store.events ≡ some row =
        ap (get_event k) (started ∙ same)
        ∙ recover_all_other (stuck_rows cfg now timeout s.events) (reclaim_jobs s)
            (swept_lem timeout s.events ∙ fresh)
        ∙ found in
      let (db, pushes, notices, redone) =
        process_job_duplicate cfg later k steps w kept (ap is_queued is_processing) in
      (on_queue, redone, pushes)
