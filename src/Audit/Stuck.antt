-- ===== src/Audit/Stuck.antt =====
-- Windows that fail again and again: a record that cannot be read, a query that does not end.
use share_sentinel.Prelude.{
  ℕ, ◌-◌, ◌≡◌, refl, String, Bool, true, false, not, Option, none, some, List, [], ◌∷◌, inl, inr,
  Bool-cases, arith, any, length,
}
use share_sentinel.Audit.Query.{
  Inflight, QueryAnswers, Waited, complete, timed_out, is_of, get_inflight, delete_inflight,
  set_inflight, create_query, resume, is_viable, max_query_resumes, get_or_create_query,
  record_query_timeout, timeouts_of, wait_for_query_completion, inflight_query_ttl,
}
use share_sentinel.Audit.Query
use share_sentinel.Audit.Window.{
  AuditRecord, AuditWorld, WindowAnswers, Progress, process_record, process_records, finished,
  after_wait, after_query, poll_window, overlap,
}
use share_sentinel.Audit.Covered.{poll_window-StateAfter, failed_lem}

module _ (g : WindowAnswers) where
  raised_ends : (rs : List AuditRecord) (p : Progress) → (process_records g rs (p, false)).1 ≡ false
  unfolding process_records
  raised_ends [] p = refl
  raised_ends (r ∷ rs) p = refl

  unreadable-process_record :
      (r : AuditRecord) (p : Progress) → r.is_readable ≡ false → (process_record g r p).1 ≡ false
  unfolding process_record
  unreadable-process_record r p broken = rw (process_record, broken) refl

  go_on :
      (rs : List AuditRecord) (out : Progress × Bool)
      → ((p : Progress) → (process_records g rs (p, true)).1 ≡ false)
      → (process_records g rs out).1 ≡ false
  go_on rs (p, true) h = h p
  go_on rs (p, false) h = raised_ends rs p

  unreadable-process_records :
      (rs : List AuditRecord) (p : Progress)
      → any (λ r. not r.is_readable) rs ≡ true
      → (process_records g rs (p, true)).1 ≡ false
  unfolding process_records
  unreadable-process_records [] p h = absurd (ground (arith, h))
  unreadable-process_records (r ∷ rs) p h = elim (Bool-cases r.is_readable) [
    | inl fine ↦
        go_on rs (process_record g r p)
          (λ p'. unreadable-process_records rs p' (ground (arith, h, fine)))
    | inr broken ↦ stop (process_record g r p) (unreadable-process_record r p broken)
  ]
    where
      stop : (out : Progress × Bool) → out.1 ≡ false → (process_records g rs out).1 ≡ false
      stop (p', b) e = rw e (raised_ends rs p')

  module _ (s e : ℕ) (save_state : Bool) (rs : List AuditRecord) where
    finished-none :
        (total : ℕ) (out : Progress × Bool)
        → out.1 ≡ false
        → (finished g e save_state total out).1 ≡ none
    finished-none total (p, b) h = rw h refl

    after_wait-none :
        (id : String) (o : Waited) (w : AuditWorld)
        → g.records id ≡ some rs
        → any (λ r. not r.is_readable) rs ≡ true
        → (after_wait g s e save_state id o w).1 ≡ none
    after_wait-none id complete w lists bad =
        rw lists (finished-none (length rs) _ (unreadable-process_records rs _ bad))
    after_wait-none id timed_out w lists bad = refl
    after_wait-none id Query.raised w lists bad = refl
    after_wait-none id Query.out_of_fuel w lists bad = refl

    after_query-none :
        (q : List Inflight × Option String) (w : AuditWorld)
        → ((id : String) → g.records id ≡ some rs)
        → any (λ r. not r.is_readable) rs ≡ true
        → (after_query g s e save_state q w).1 ≡ none
    after_query-none (qs, none) w lists bad = refl
    after_query-none (qs, some id) w lists bad = after_wait-none id _ _ (lists id) bad

-- If one of the records of a window cannot be read, the poll of the window raises and leaves the checkpoint
-- where it was, in each poll that gets these records: one bad record stops the poller at its window.
pub poll_window_unreadable :
    (g : WindowAnswers) (start_time end_time : ℕ) (save_state : Bool) (w : AuditWorld)
    (rs : List AuditRecord)
    → ((id : String) → g.records id ≡ some rs)
    → any (λ r. not r.is_readable) rs ≡ true
    → let out = poll_window g start_time end_time save_state w in
      (out.1 ≡ none) × (out.0.state ≡ w.state)
unfolding poll_window
poll_window_unreadable g start_time end_time save_state w rs lists bad =
    let out = poll_window g start_time end_time save_state w in
    let fails : out.1 ≡ none =
      after_query-none g (start_time - overlap) end_time save_state rs
        (get_or_create_query g.now (start_time - overlap) end_time g.queries w.inflight) w lists
        bad in
    (
      fails,
      failed_lem save_state end_time w.state out.1 out.0.state fails
          (poll_window-StateAfter g start_time end_time save_state w),
    )
