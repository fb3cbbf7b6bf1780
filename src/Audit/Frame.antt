-- ===== src/Audit/Frame.antt =====
-- The queries in flight for other windows, and windows with a record that cannot be read.
use share_sentinel.Prelude.{
  ℕ, ◌-◌, ◌≡◌, refl, ◌∙◌, ap, String, Bool, true, false, ◌&&◌, Option, none, some, List, [], ◌∷◌,
  inl, inr, Bool-cases, arith, leb, beq, length,
}
use share_sentinel.Audit.Query.{
  Inflight, QueryAnswers, Waited, complete, timed_out, is_of, get_inflight, delete_inflight,
  set_inflight, create_query, resume, is_viable, max_query_resumes, get_or_create_query,
  record_query_timeout, timeouts_of, wait_for_query_completion,
}
use share_sentinel.Audit.Query
use share_sentinel.Audit.Window.{
  AuditRecord, AuditWorld, WindowAnswers, Progress, process_record, process_records, finished,
  after_records, after_wait, after_query, poll_window, overlap,
}

-- Two windows that are not the same.
abbrev pub Apart : (s e s' e' : ℕ) → Type 0
Apart s e s' e' = (beq s s' && beq e e') ≡ false

-- The entry of the window from s' to e' is as before.
abbrev pub SameEntry : ℕ → ℕ → List Inflight → List Inflight → Type 0
SameEntry s' e' qs qs' = (now : ℕ) → get_inflight now s' e' qs' ≡ get_inflight now s' e' qs

module _ (s e s' e' : ℕ) (apart : Apart s e s' e') where
  delete-SameEntry : (qs : List Inflight) → SameEntry s' e' qs (delete_inflight s e qs)
  unfolding get_inflight delete_inflight
  delete-SameEntry [] now = refl
  delete-SameEntry (q ∷ qs) now = elim (Bool-cases (is_of s e q)) [
    | inl own ↦
        let other : is_of s' e' q ≡ false = ground (arith, own, apart) in
        rw (own, other) (delete-SameEntry qs now)
    | inr kept ↦ rw kept (elim (Bool-cases (is_of s' e' q)) [
      | inl here ↦ rw here refl
      | inr there ↦ rw there (delete-SameEntry qs now)
    ])
  ]

  set-SameEntry :
      (now : ℕ) (id : String) (t : ℕ) (qs : List Inflight)
      → SameEntry s' e' qs (set_inflight now s e id t qs)
  unfolding get_inflight set_inflight
  set-SameEntry now id t qs now' = rw apart (delete-SameEntry qs now')

  create-SameEntry :
      (now : ℕ) (o : Option String) (qs : List Inflight)
      → SameEntry s' e' qs (create_query now s e o qs).0
  create-SameEntry now none qs now' = refl
  create-SameEntry now (some id) qs now' = set-SameEntry now id 0 qs now'

  resume-SameEntry :
      (now : ℕ) (g : QueryAnswers) (o : Option Inflight) (qs : List Inflight)
      → SameEntry s' e' qs (resume now s e g o qs).0
  resume-SameEntry now g none qs now' = create-SameEntry now g.created qs now'
  resume-SameEntry now g (some q) qs now' = elim (Bool-cases (leb max_query_resumes q.timeouts)) [
    | inl over ↦ rw over (create-SameEntry now g.created qs now')
    | inr under ↦ elim (Bool-cases (is_viable (g.status q.id))) [
      | inl viable ↦ rw (under, viable) refl
      | inr lost ↦ rw (under, lost) (create-SameEntry now g.created qs now')
    ]
  ]

  module _ (g : WindowAnswers) where
    inflight-process_record :
        (r : AuditRecord) (p : Progress)
        → (process_record g r p).0.world.inflight ≡ p.world.inflight
    unfolding process_record
    inflight-process_record r p = ground arith

    inflight-process_records :
        (rs : List AuditRecord) (p : Progress) (b : Bool)
        → (process_records g rs (p, b)).0.world.inflight ≡ p.world.inflight
    unfolding process_records
    inflight-process_records [] p b = refl
    inflight-process_records (r ∷ rs) p false = refl
    inflight-process_records (r ∷ rs) p true =
        inflight-process_records rs (process_record g r p).0 (process_record g r p).1
        ∙ inflight-process_record r p

    finished-inflight :
        (save_state : Bool) (total : ℕ) (p : Progress) (b : Bool)
        → (finished g e save_state total (p, b)).0.inflight ≡ p.world.inflight
    finished-inflight save_state total p false = refl
    finished-inflight true total p true = refl
    finished-inflight false total p true = refl

    after_records-SameEntry :
        (save_state : Bool) (o : Option (List AuditRecord)) (w : AuditWorld)
        → SameEntry s' e' w.inflight (after_records g s e save_state o w).0.inflight
    after_records-SameEntry save_state none w now = refl
    after_records-SameEntry save_state (some rs) w now =
        ap (get_inflight now s' e')
          (finished-inflight save_state (length rs) _ _ ∙ inflight-process_records rs _ true)
        ∙ delete-SameEntry w.inflight now

    after_wait-SameEntry :
        (save_state : Bool) (id : String) (o : Waited) (w : AuditWorld)
        → SameEntry s' e' w.inflight (after_wait g s e save_state id o w).0.inflight
    unfolding record_query_timeout
    after_wait-SameEntry save_state id complete w now =
        after_records-SameEntry save_state (g.records id) w now
    after_wait-SameEntry save_state id timed_out w now = set-SameEntry g.now id _ w.inflight now
    after_wait-SameEntry save_state id Query.raised w now = refl
    after_wait-SameEntry save_state id Query.out_of_fuel w now = refl

    after_query-SameEntry :
        (save_state : Bool) (q : List Inflight × Option String) (w : AuditWorld)
        → SameEntry s' e' w.inflight q.0
        → SameEntry s' e' w.inflight (after_query g s e save_state q w).0.inflight
    after_query-SameEntry save_state (qs, none) w same now = same now
    after_query-SameEntry save_state (qs, some id) w same now =
        after_wait-SameEntry save_state id _ (record w { inflight = qs }) now ∙ same now

-- However the poll of a window ends, the query that is in flight for any other window stays its query.
pub poll_window-SameEntry :
    (g : WindowAnswers) (start_time end_time s' e' : ℕ) (save_state : Bool) (w : AuditWorld)
    → Apart (start_time - overlap) end_time s' e'
    → SameEntry s' e' w.inflight (poll_window g start_time end_time save_state w).0.inflight
unfolding poll_window get_or_create_query
poll_window-SameEntry g start_time end_time s' e' save_state w apart now =
    let s = start_time - overlap in
    after_query-SameEntry s end_time s' e' apart g save_state
      (get_or_create_query g.now s end_time g.queries w.inflight) w
      (resume-SameEntry s end_time s' e' apart g.now g.queries
        (get_inflight g.now s end_time w.inflight) w.inflight)
      now
