-- ===== src/Audit/Covered.antt =====
-- The checkpoint of the audit poller, and the windows of a pass.
use share_sentinel.Prelude.{
  ℕ, zero, suc, ◌-◌, ◌≤◌, ◌<◌, ◌≡◌, sym, refl, ◌∙◌, ap, String, Bool, true, false, Option, none,
  some, List, [], ◌∷◌, inl, inr, Bool-cases, Option-cases, arith, ltb, length,
}
use mathlib.Core.Option
use share_sentinel.Audit.Query.{
  Inflight, Waited, complete, timed_out, get_or_create_query, wait_for_query_completion,
}
use share_sentinel.Audit.Query
use share_sentinel.Audit.Window.{
  AuditRecord, AuditWorld, PollState, WindowAnswers, WindowStats, Progress, process_record,
  process_records, finished, after_records, after_wait, after_query, poll_window, overlap,
}
use share_sentinel.Audit.Chunks.{
  Chunked, done, raised, out_of_fuel, chunk_end, chunks, poll_chunked, touched, added, no_stats,
}

module _ (g : WindowAnswers) where
  state-process_record :
      (r : AuditRecord) (p : Progress) → (process_record g r p).0.world.state ≡ p.world.state
  unfolding process_record
  state-process_record r p = ground arith

  state-process_records :
      (rs : List AuditRecord) (p : Progress) (b : Bool)
      → (process_records g rs (p, b)).0.world.state ≡ p.world.state
  unfolding process_records
  state-process_records [] p b = refl
  state-process_records (r ∷ rs) p false = refl
  state-process_records (r ∷ rs) p true =
      state-process_records rs (process_record g r p).0 (process_record g r p).1
      ∙ state-process_record r p

-- What a window makes of the state: it is saved if the window succeeds and is to be saved.
abbrev pub StateAfter : Bool → ℕ → PollState → Option WindowStats → PollState → Type 0
StateAfter save_state end_time s none s' = s' ≡ s
StateAfter true end_time s (some stats) s' = s'.last_poll_time ≡ end_time
StateAfter false end_time s (some stats) s' = s' ≡ s

abbrev Left : ℕ → Bool → AuditWorld → AuditWorld × Option WindowStats → Type 0
Left end_time save_state w out = StateAfter save_state end_time w.state out.1 out.0.state

module _ (g : WindowAnswers) (query_start end_time : ℕ) (w : AuditWorld) where
  finished-Left :
      (save_state : Bool) (total : ℕ) (p : Progress) (b : Bool)
      → p.world.state ≡ w.state
      → Left end_time save_state w (finished g end_time save_state total (p, b))
  finished-Left save_state total p false same = same
  finished-Left true total p true same = refl
  finished-Left false total p true same = same

  after_records-Left :
      (save_state : Bool) (o : Option (List AuditRecord)) (w' : AuditWorld)
      → w'.state ≡ w.state
      → Left end_time save_state w (after_records g query_start end_time save_state o w')
  after_records-Left save_state none w' same = same
  after_records-Left save_state (some rs) w' same =
      finished-Left save_state (length rs) _ _ (state-process_records g rs _ true ∙ same)

  after_wait-Left :
      (save_state : Bool) (id : String) (o : Waited) (w' : AuditWorld)
      → w'.state ≡ w.state
      → Left end_time save_state w (after_wait g query_start end_time save_state id o w')
  after_wait-Left save_state id complete w' same =
      after_records-Left save_state (g.records id) w' same
  after_wait-Left save_state id timed_out w' same = same
  after_wait-Left save_state id Query.raised w' same = same
  after_wait-Left save_state id Query.out_of_fuel w' same = same

  after_query-Left :
      (save_state : Bool) (q : List Inflight × Option String)
      → Left end_time save_state w (after_query g query_start end_time save_state q w)
  after_query-Left save_state (qs, none) = refl
  after_query-Left save_state (qs, some id) =
      after_wait-Left save_state id (wait_for_query_completion (g.queries.reply id)) _ refl

-- A window that fails leaves the state of the poller as it was, and so does one that is not to be saved; one that
-- succeeds and is to be saved moves the checkpoint to its end.
pub poll_window-StateAfter :
    (g : WindowAnswers) (start_time end_time : ℕ) (save_state : Bool) (w : AuditWorld)
    → let out = poll_window g start_time end_time save_state w in
      StateAfter save_state end_time w.state out.1 out.0.state
unfolding poll_window
poll_window-StateAfter g start_time end_time save_state w =
    after_query-Left g (start_time - overlap) end_time w save_state _

pub failed_lem :
    (save_state : Bool) (end_time : ℕ) (s : PollState) (o : Option WindowStats) (s' : PollState)
    → o ≡ none
    → StateAfter save_state end_time s o s'
    → s' ≡ s
failed_lem save_state end_time s none s' p h = h
failed_lem save_state end_time s (some x) s' p h = absurd (Option.none-ne-some x (sym p))

saved_lem :
    (end_time : ℕ) (s : PollState) (o : Option WindowStats) (s' : PollState) (x : WindowStats)
    → o ≡ some x
    → StateAfter true end_time s o s'
    → s'.last_poll_time ≡ end_time
saved_lem end_time s none s' x p h = absurd (Option.none-ne-some x p)
saved_lem end_time s (some y) s' x p h = h

-- How a saving pass ends: with the checkpoint at its end, or before it if a window has failed.
abbrev pub Ends : (start_time final_end : ℕ) → Chunked → ℕ → Type 0
Ends start_time final_end (done stats) checkpoint = checkpoint ≡ final_end
Ends start_time final_end raised checkpoint = (start_time ≤ checkpoint) × (checkpoint < final_end)
Ends start_time final_end out_of_fuel checkpoint = ⊥

Ends-later :
    (a b final_end : ℕ) (r : Chunked) (c : ℕ) → a ≤ b → Ends b final_end r c → Ends a final_end r c
Ends-later a b final_end (done s) c le h = h
Ends-later a b final_end raised c le h = omega arith
Ends-later a b final_end out_of_fuel c le h = h

module _ (g : ℕ → WindowAnswers) (final_end : ℕ) where
  chunk_end_lem :
      (start_time : ℕ)
      → start_time < final_end
      → (start_time < chunk_end g true final_end start_time)
        × (chunk_end g true final_end start_time ≤ final_end)
  chunk_end_lem start_time lt = ground arith

  chunks-Ends :
      (fuel i start_time : ℕ) (stats : WindowStats) (w : AuditWorld)
      → w.state.last_poll_time ≡ start_time
      → start_time ≤ final_end
      → final_end - start_time < fuel
      → let out = chunks g true final_end fuel i start_time stats w in
        Ends start_time final_end out.1 out.0.state.last_poll_time
  unfolding chunks
  chunks-Ends zero i start_time stats w here le enough = absurd (omega arith)
  chunks-Ends (suc fuel) i start_time stats w here le enough =
      elim (Bool-cases (ltb start_time final_end)) [
        | inr stop ↦ rw (chunks, stop) (here ∙ ground (arith, stop))
        | inl go ↦
            let e = chunk_end g true final_end start_time in
            let out = poll_window (g i) start_time e true w in
            let left = poll_window-StateAfter (g i) start_time e true w in
            let (more, bound) = chunk_end_lem start_time (ground (arith, go)) in
            elim (Option-cases out.1) [
              | inl fails ↦
                  let kept = failed_lem true e w.state out.1 out.0.state fails left in
                  let same : out.0.state.last_poll_time ≡ start_time =
                    ap (λ s. s.last_poll_time) kept ∙ here in
                  rw (chunks, go, fails) (omega arith, ground (arith, go))
              | inr (s, works) ↦
                  let moved = saved_lem e w.state out.1 out.0.state s works left in
                  rw (chunks, go, works)
                    (Ends-later start_time e final_end _ _ (omega arith) (
                      chunks-Ends fuel (suc i) e (added stats s) (touched true (g i).now out.0)
                        moved bound (omega arith)))
            ]
      ]

  -- A pass over a gap that starts at the checkpoint ends within its fuel, whatever the services answer: with
  -- the checkpoint at the end of the gap if no window fails, and else with the checkpoint inside of the
  -- gap, before its end.
  pub poll_chunked-Ends :
      (start_time : ℕ) (w : AuditWorld)
      → w.state.last_poll_time ≡ start_time
      → start_time ≤ final_end
      → let out = poll_chunked g true final_end start_time w in
        Ends start_time final_end out.1 out.0.state.last_poll_time
  unfolding poll_chunked
  poll_chunked-Ends start_time w here le =
      chunks-Ends (suc (final_end - start_time)) 0 start_time no_stats w here le (omega arith)
