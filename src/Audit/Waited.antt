-- ===== src/Audit/Waited.antt =====
-- The wait for an audit query, and the queries of a window that time out.
use share_sentinel.Prelude.{
  ℕ, zero, suc, ◌+◌, ◌*◌, ◌<◌, ◌≡◌, ◌≢◌, refl, true, false, none, arith, ltb,
}
use share_sentinel.Audit.Query.{
  succeeded, failed, running, not_started, missing, unknown, Reply, answered, transient, broken,
  Waited, timed_out, out_of_fuel, settles, settled_or, wait, wait_for_query_completion,
  query_timeout, query_poll_interval,
}

-- A reply that leaves the wait going on.
abbrev pub IsPending : Reply → Type 0
IsPending r = settles r ≡ none

-- What the replies make of a wait of so many requests, without a clock: the first of them that settles it,
-- or the timeout.
unfoldable pub first_settled : (requests : ℕ) → (ℕ → Reply) → ℕ → Waited
first_settled zero reply i = timed_out
first_settled (suc n) reply i =
    let rest = first_settled n reply (suc i) in settled_or (settles (reply i)) rest

wait_lem :
    (n fuel : ℕ) (reply : ℕ → Reply) (i elapsed : ℕ)
    → elapsed + n * query_poll_interval ≡ query_timeout
    → n < fuel
    → wait fuel reply i elapsed ≡ first_settled n reply i
unfolding wait first_settled
wait_lem n zero reply i elapsed e lt = absurd (omega arith)
wait_lem zero (suc fuel) reply i elapsed e lt =
    let over : ltb elapsed query_timeout ≡ false = ground arith in rw over refl
wait_lem (suc n) (suc fuel) reply i elapsed e lt =
    let under : ltb elapsed query_timeout ≡ true = ground arith in
    let rest =
      wait_lem n fuel reply (suc i) (elapsed + query_poll_interval) (omega arith) (omega arith) in
    rw (under, rest) refl

settles-ends :
    (r : Reply) (rest : Waited) → rest ≢ out_of_fuel → settled_or (settles r) rest ≢ out_of_fuel
settles-ends (answered succeeded) rest h = λ p. cc
settles-ends (answered failed) rest h = λ p. cc
settles-ends (answered running) rest h = h
settles-ends (answered not_started) rest h = h
settles-ends (answered missing) rest h = h
settles-ends (answered unknown) rest h = h
settles-ends transient rest h = h
settles-ends broken rest h = λ p. cc

first_settled-ends : (n : ℕ) (reply : ℕ → Reply) (i : ℕ) → first_settled n reply i ≢ out_of_fuel
unfolding first_settled
first_settled-ends zero reply i = λ p. cc
first_settled-ends (suc n) reply i =
    settles-ends (reply i) (first_settled n reply (suc i)) (first_settled-ends n reply (suc i))

-- Whatever the replies are, the wait for a query ends within the fuel: it ends as the first of its 180
-- requests says whose reply tells success, failure or an error that is not transient, and with a
-- timeout if there is none among them.
pub wait_for_query_completion_ends :
    (reply : ℕ → Reply)
    → (wait_for_query_completion reply ≢ out_of_fuel)
      × (wait_for_query_completion reply ≡ first_settled 180 reply 0)
unfolding wait_for_query_completion
wait_for_query_completion_ends reply =
    let e = wait_lem 180 181 reply 0 0 (omega arith) (omega arith) in
    (rw e (first_settled-ends 180 reply 0), e)
