-- ===== src/Pipeline/Backoff.antt =====
-- How often `retry_with_backoff` calls, how long it sleeps and how it ends.
use share_sentinel.Prelude.{ℕ, zero, suc, ◌+◌, ◌*◌, ◌^◌, ◌<◌, ◌≡◌, Bool, true, List, [], ◌∷◌, arith}
use share_sentinel.Pipeline.Retry.{
  Attempt, returned, raised, returns, raises, Run, retry_from, retry_with_backoff,
}

-- base, 2 base, 4 base, …, from the `attempt`-th on.
abbrev pub schedule : ℕ → ℕ → ℕ → List ℕ
schedule base_delay attempt zero = []
schedule base_delay attempt (suc n) =
    (base_delay * 2 ^ attempt) ∷ schedule base_delay (suc attempt) n

module _ {A X : Type 0} (catchable : X → Bool) (base_delay : ℕ) (call : ℕ → Attempt A X) where
  -- The attempts from `attempt` on fail with exceptions that are retried, `n` times.
  abbrev pub FailsFrom : ℕ → ℕ → Type 0
  FailsFrom attempt zero = Unit
  FailsFrom attempt (suc n) =
      ((x : X) × (call attempt ≡ raised x) × (catchable x ≡ true)) × FailsFrom (suc attempt) n

  abbrev run : (max_retries rounds attempt : ℕ) → Run A X
  run = retry_from catchable base_delay call

  retry_from_returned :
      (max rounds attempt n : ℕ) (a : A)
      → attempt + rounds ≡ max
      → n < rounds
      → FailsFrom attempt n
      → call (attempt + n) ≡ returned a
      → run max rounds attempt
        ≡ record { outcome = returns a; sleeps = schedule base_delay attempt n; calls = suc n }
  unfolding retry_from
  retry_from_returned max zero attempt n a e lt f done = absurd (omega arith)
  retry_from_returned max (suc rounds) attempt zero a e lt f done =
      let here : call attempt ≡ returned a = ground arith in rw here
  retry_from_returned max (suc rounds) attempt (suc n) a e lt f done =
      ground (arith, f.0, retry_from_returned max rounds (suc attempt) n a)

  retry_from_exhausted :
      (max rounds attempt : ℕ) (x : X)
      → attempt + suc rounds ≡ max
      → FailsFrom attempt rounds
      → call (attempt + rounds) ≡ raised x
      → catchable x ≡ true
      → run max (suc rounds) attempt ≡ record {
        outcome = raises x;
        sleeps = schedule base_delay attempt rounds;
        calls = suc rounds;
      }
  unfolding retry_from
  retry_from_exhausted max zero attempt x e f done c =
      let here : call attempt ≡ raised x = ground arith in ground arith
  retry_from_exhausted max (suc rounds) attempt x e f done c =
      ground (arith, f.0, retry_from_exhausted max rounds (suc attempt) x)

  -- If the first `n` attempts fail with exceptions that are retried, and the next one, still within
  -- `max_retries`, returns a value, then so does the retry, after `n + 1` calls and `n` sleeps that
  -- double from `base_delay`.
  pub retry_returns :
      (max_retries n : ℕ) (a : A)
      → n < max_retries
      → FailsFrom 0 n
      → call n ≡ returned a
      → retry_with_backoff catchable base_delay call max_retries
        ≡ record { outcome = returns a; sleeps = schedule base_delay 0 n; calls = suc n }
  unfolding retry_with_backoff
  retry_returns max_retries n a lt f done =
      retry_from_returned max_retries max_retries 0 n a (omega arith) lt f (ground arith)

  -- If all of one or more attempts fail with exceptions that are retried, the last exception is
  -- raised; there is one sleep fewer than calls.
  pub retry_exhausted :
      (n : ℕ) (x : X)
      → FailsFrom 0 n
      → call n ≡ raised x
      → catchable x ≡ true
      → retry_with_backoff catchable base_delay call (suc n)
        ≡ record { outcome = raises x; sleeps = schedule base_delay 0 n; calls = suc n }
  unfolding retry_with_backoff
  retry_exhausted n x f done c = retry_from_exhausted (suc n) n 0 x (omega arith) f (ground arith) c
