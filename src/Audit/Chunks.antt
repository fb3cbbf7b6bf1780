-- ===== src/Audit/Chunks.antt =====
-- `_poll_chunked`, `_maybe_reconcile` and `poll` of services/lifecycle-cron/app/audit_poller.py. The row of the
-- poll state is there: a migration inserts it. The windows of a pass have their own answers.
use share_sentinel.Prelude.{
  ℕ, zero, suc, ◌+◌, ◌-◌, ◌*◌, ◌/◌, Bool, true, false, not, ◌||◌, Option, none, some, ltb, leb,
  if◌then◌else◌,
}
use share_sentinel.Audit.Window.{
  AuditWorld, WindowAnswers, WindowStats, dedup_ttl, overlap, poll_window,
}

abbrev pub max_query_window : ℕ
max_query_window = 120 * 60

pub data Chunked : Type 0 where
  done : WindowStats → Chunked
  raised out_of_fuel : Chunked

abbrev pub min : ℕ → ℕ → ℕ
min a b = if leb a b then a else b

abbrev pub added : WindowStats → WindowStats → WindowStats
added a b = record {
  total = a.total + b.total;
  new = a.new + b.new;
  provisioning = a.provisioning + b.provisioning;
}

abbrev pub no_stats : WindowStats
no_stats = record { total = 0; new = 0; provisioning = 0 }

-- `_touch_poll_state`, between the windows of a pass that leaves the checkpoint as it is.
abbrev pub touched : Bool → ℕ → AuditWorld → AuditWorld
touched save_state now w =
    if save_state then w else record w { state = record (w.state) { updated_at = now } }

module _ (g : ℕ → WindowAnswers) (save_state : Bool) (final_end : ℕ) where
  abbrev pub chunk_end : ℕ → ℕ
  chunk_end chunk_start = min (chunk_start + max_query_window) final_end

  -- `while chunk_start < final_end`, on fuel; i counts the windows.
  unfoldable pub chunks : (fuel i chunk_start : ℕ) → WindowStats → AuditWorld → AuditWorld × Chunked
  unfolding poll_window
  chunks zero i chunk_start stats w = (w, out_of_fuel)
  chunks (suc fuel) i chunk_start stats w =
      if ltb chunk_start final_end
      then (let out = poll_window (g i) chunk_start (chunk_end chunk_start) save_state w in
          elim out.1 [
            | none ↦ (out.0, raised)
            | some s ↦
                chunks fuel (suc i) (chunk_end chunk_start) (added stats s)
                  (touched save_state (g i).now out.0)
          ])
      else (w, done stats)

  -- Each window moves the start by a second at least.
  unfoldable pub poll_chunked : (start_time : ℕ) → AuditWorld → AuditWorld × Chunked
  unfolding chunks
  poll_chunked start_time w = chunks (suc (final_end - start_time)) 0 start_time no_stats w

pub record PollConfig : Type 0 where
  pub audit_poll_lookback_hours : ℕ
  pub audit_poll_reconcile_interval_hours : ℕ

abbrev pub max_lookback_hours : ℕ
max_lookback_hours = dedup_ttl / 3600 - 12

abbrev pub clamped_lookback : PollConfig → ℕ
clamped_lookback cfg =
    if ltb max_lookback_hours cfg.audit_poll_lookback_hours
    then max_lookback_hours
    else cfg.audit_poll_lookback_hours

abbrev or_zero : Option ℕ → ℕ
or_zero none = 0
or_zero (some t) = t

abbrev is_due : PollConfig → ℕ → AuditWorld → Bool
is_due cfg now w = not (
    leb cfg.audit_poll_lookback_hours 0
    || (leb cfg.audit_poll_reconcile_interval_hours 0
        || ltb now (or_zero w.recon_last + cfg.audit_poll_reconcile_interval_hours * 3600)))

abbrev reconciled : ℕ → AuditWorld × Chunked → AuditWorld × Option WindowStats
reconciled now (w, done s) = (record w { recon_last = some now }, some s)
reconciled now (w, raised) = (w, none)
reconciled now (w, out_of_fuel) = (w, none)

-- The stats are none if no pass is due or the pass raises, which `poll` catches.
unfoldable pub maybe_reconcile :
    PollConfig → (ℕ → WindowAnswers) → (now : ℕ) → AuditWorld → AuditWorld × Option WindowStats
unfolding poll_chunked
maybe_reconcile cfg g now w =
    if is_due cfg now w
    then reconciled now (poll_chunked g false now (now - clamped_lookback cfg * 3600) w)
    else (w, none)

pub data Polled : Type 0 where
  polled : WindowStats → Option WindowStats → Polled
  raised : Polled

abbrev with_reconciliation :
    PollConfig → (ℕ → WindowAnswers) → ℕ → AuditWorld × Chunked → AuditWorld × Polled
with_reconciliation cfg g now (w, done s) =
    let (w', recon) = maybe_reconcile cfg g now w in (w', polled s recon)
with_reconciliation cfg g now (w, raised) = (w, raised)
with_reconciliation cfg g now (w, out_of_fuel) = (w, raised)

abbrev as_chunked : AuditWorld × Option WindowStats → AuditWorld × Chunked
as_chunked (w, none) = (w, raised)
as_chunked (w, some s) = (w, done s)

-- One cycle: the windows since the last one, then the reconciliation.
unfoldable pub poll :
    PollConfig → (windows again : ℕ → WindowAnswers) → (now : ℕ) → AuditWorld → AuditWorld × Polled
unfolding maybe_reconcile poll_window poll_chunked
poll cfg windows again now w =
    let start_time = w.state.last_poll_time in
    with_reconciliation cfg again now (
      if ltb (start_time + (max_query_window + overlap)) now
      then poll_chunked windows true now start_time w
      else as_chunked (poll_window (windows 0) start_time now true w))
