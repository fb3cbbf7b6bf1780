-- ===== src/Audit/Resumed.antt =====
-- Queries over several polls, and records that a reconciliation reads again.
use share_sentinel.Prelude.{
  ℕ, suc, ◌+◌, ◌-◌, ◌*◌, ◌≤◌, ◌<◌, ◌≡◌, refl, ◌∙◌, ap, String, Bool, true, false, ◌&&◌, none, some,
  List, [], ◌∷◌, ◌++◌, arith, ltb, leb, beq, eq_refl,
}
use share_sentinel.Audit.Query.{
  Inflight, timed_out, get_inflight, set_inflight, create_query, is_viable, max_query_resumes,
  get_or_create_query, record_query_timeout, timeouts_of, wait_for_query_completion,
  inflight_query_ttl,
}
use share_sentinel.Audit.Window.{
  AuditRecord, AuditWorld, WindowAnswers, Progress, process_record, is_seen, dedup_ttl, after_query,
  poll_window, overlap,
}
use share_sentinel.Audit.Chunks.{PollConfig, clamped_lookback, max_lookback_hours}
use share_sentinel.Audit.Frame.{poll_window-SameEntry}

-- The wait for a query times out, with these answers.
abbrev pub TimesOut : WindowAnswers → String → Type 0
TimesOut g id = wait_for_query_completion (g.queries.reply id) ≡ timed_out

get-set :
    (now later s e : ℕ) (id : String) (t : ℕ) (qs : List Inflight)
    → later < now + inflight_query_ttl
    → get_inflight later s e (set_inflight now s e id t qs)
      ≡ some (record {
        query_start = s;
        end_time = e;
        id = id;
        timeouts = t;
        expires_at = now + inflight_query_ttl;
      })
unfolding get_inflight set_inflight
get-set now later s e id t qs live =
    let own : (beq s s && beq e e) ≡ true = ground arith in
    let lives : ltb later (now + inflight_query_ttl) ≡ true = ground (arith, live) in
    rw (own, lives) refl

module _ (g : WindowAnswers) (start_time end_time : ℕ) (save_state : Bool) (w : AuditWorld) where
  abbrev from : ℕ
  from = start_time - overlap

  abbrev polled : List Inflight
  polled = (poll_window g start_time end_time save_state w).0.inflight

  -- A poll whose query times out counts the timeout.
  counts_timeout :
      (qs : List Inflight) (id : String)
      → get_or_create_query g.now from end_time g.queries w.inflight ≡ (qs, some id)
      → TimesOut g id
      → polled ≡ record_query_timeout g.now from end_time id qs
  unfolding poll_window
  counts_timeout qs id asked slow =
      ap (λ q. (after_query g from end_time save_state q w).0.inflight) asked ∙ waits
    where
      waits :
          (after_query g from end_time save_state (qs, some id) w).0.inflight
          ≡ record_query_timeout g.now from end_time id qs
      waits = rw slow refl

  -- The first poll of a window creates a query, which times out.
  first_timeout :
      (id : String)
      → get_inflight g.now from end_time w.inflight ≡ none
      → g.queries.created ≡ some id
      → TimesOut g id
      → polled
        ≡ set_inflight g.now from end_time id 1 (set_inflight g.now from end_time id 0 w.inflight)
  unfolding get_or_create_query record_query_timeout
  first_timeout id fresh created slow =
      let qs = set_inflight g.now from end_time id 0 w.inflight in
      let asked : get_or_create_query g.now from end_time g.queries w.inflight ≡ (qs, some id) =
        rw (get_or_create_query, fresh, created) refl in
      let there = get-set g.now g.now from end_time id 0 w.inflight (omega arith) in
      counts_timeout qs id asked slow
      ∙ ap (λ o. set_inflight g.now from end_time id (suc (timeouts_of o)) qs) there

  -- A later poll of it resumes the query, which times out again.
  next_timeout :
      (q : Inflight)
      → get_inflight g.now from end_time w.inflight ≡ some q
      → q.timeouts < max_query_resumes
      → is_viable (g.queries.status q.id) ≡ true
      → TimesOut g q.id
      → polled ≡ set_inflight g.now from end_time q.id (suc q.timeouts) w.inflight
  unfolding get_or_create_query record_query_timeout
  next_timeout q there few viable slow =
      let under : leb max_query_resumes q.timeouts ≡ false = ground (arith, few) in
      let asked : get_or_create_query g.now from end_time g.queries w.inflight
          ≡ (w.inflight, some q.id) =
        rw (get_or_create_query, there, under, viable) refl in
      counts_timeout w.inflight q.id asked slow
      ∙ ap (λ o. set_inflight g.now from end_time q.id (suc (timeouts_of o)) w.inflight) there

-- If the first poll of a window creates a query and its wait times out, and the next poll, within a day,
-- finds the query running and times out too, then the poll after that, within a day, does not resume
-- the query but asks for a new one, whatever its status.
pub zombie_abandoned :
    (g1 g2 g3 : WindowAnswers) (start_time end_time : ℕ) (save_state : Bool) (w : AuditWorld)
    (id : String)
    → get_inflight g1.now (start_time - overlap) end_time w.inflight ≡ none
    → g1.queries.created ≡ some id
    → TimesOut g1 id
    → g2.now < g1.now + inflight_query_ttl
    → is_viable (g2.queries.status id) ≡ true
    → TimesOut g2 id
    → g3.now < g2.now + inflight_query_ttl
    → let w1 = (poll_window g1 start_time end_time save_state w).0 in
      let w2 = (poll_window g2 start_time end_time save_state w1).0 in
      get_or_create_query g3.now (start_time - overlap) end_time g3.queries w2.inflight
      ≡ create_query g3.now (start_time - overlap) end_time g3.queries.created w2.inflight
unfolding get_or_create_query
zombie_abandoned g1 g2 g3 start_time end_time save_state w id fresh created slow1 soon2 viable slow2
      soon3 =
    let s = start_time - overlap in
    let w1 = (poll_window g1 start_time end_time save_state w).0 in
    let w2 = (poll_window g2 start_time end_time save_state w1).0 in
    let e1 = first_timeout g1 start_time end_time save_state w id fresh created slow1 in
    let there1 : get_inflight g2.now s end_time w1.inflight ≡ some _ =
      ap (get_inflight g2.now s end_time) e1
      ∙ get-set g1.now g2.now s end_time id 1 (set_inflight g1.now s end_time id 0 w.inflight)
          soon2 in
    let e2 =
      next_timeout g2 start_time end_time save_state w1 _ there1 (omega arith) viable slow2 in
    let there2 : get_inflight g3.now s end_time w2.inflight ≡ some _ =
      ap (get_inflight g3.now s end_time) e2
      ∙ get-set g2.now g3.now s end_time id 2 w1.inflight soon3 in
    rw (get_or_create_query, there2) refl

-- A poll whose window ends at another time asks for a new query, even if the query of the last poll is still
-- running: the windows of one cycle end at its clock, so that no later cycle resumes their
-- queries.
pub incremental_not_resumed :
    (g g' : WindowAnswers) (start_time end_time later : ℕ) (save_state : Bool) (w : AuditWorld)
    → beq end_time later ≡ false
    → get_inflight g'.now (start_time - overlap) later w.inflight ≡ none
    → let w' = (poll_window g start_time end_time save_state w).0 in
      get_or_create_query g'.now (start_time - overlap) later g'.queries w'.inflight
      ≡ create_query g'.now (start_time - overlap) later g'.queries.created w'.inflight
unfolding get_or_create_query
incremental_not_resumed g g' start_time end_time later save_state w other fresh =
    let s = start_time - overlap in
    let same =
      poll_window-SameEntry g start_time end_time s later save_state w (ground (arith, other))
        g'.now
      ∙ fresh in
    rw (get_or_create_query, same) refl

put-is_seen :
    (now : ℕ) (k : String) (expires : ℕ) (newer older : List (String × ℕ))
    → now < expires
    → is_seen now k (newer ++ (k, expires) ∷ older) ≡ true
unfolding is_seen
put-is_seen now k expires [] older live = ground (arith, eq_refl k, live)
put-is_seen now k expires (x ∷ newer) older live =
    ground (arith, put-is_seen now k expires newer older live)

-- A reconciliation does not deliver again what was delivered: whatever lookback is configured, a record
-- that lies in a window of the pass, overlap included, and was marked as seen at any time after it was
-- made, is skipped if the pass comes to it within eleven hours of its start.
pub reconciliation_skips :
    (cfg : PollConfig) (g : WindowAnswers) (r : AuditRecord) (p : Progress)
    (pass_start marked_at : ℕ) (newer older : List (String × ℕ))
    → pass_start ≤ r.created + clamped_lookback cfg * 3600 + overlap
    → r.created ≤ marked_at
    → g.now ≤ pass_start + 11 * 3600
    → p.world.seen ≡ newer ++ (r.event_id, marked_at + dedup_ttl) ∷ older
    → r.is_readable ≡ true
    → process_record g r p ≡ (p, true)
unfolding process_record
reconciliation_skips cfg g r p pass_start marked_at newer older recent after soon seen readable =
    let bound : clamped_lookback cfg ≤ max_lookback_hours = ground arith in
    let old : is_seen g.now r.event_id p.world.seen ≡ true =
      rw seen (put-is_seen g.now r.event_id (marked_at + dedup_ttl) newer older (omega arith)) in
    rw (process_record, old, readable) refl
