-- ===== src/Pipeline/Retry.antt =====
-- `retry_with_backoff` of services/worker/app/pipeline/retry.py. The attempts of the wrapped call,
-- timeouts among their exceptions, are a function of the attempt's number; delays are in units
-- in which `base_delay` is whole.
use share_sentinel.Prelude.{ℕ, zero, suc, ◌*◌, ◌^◌, ◌-◌, Bool, List, [], ◌∷◌, beq, if◌then◌else◌}

pub data Attempt (A : Type 0) (X : Type 0) : Type 0 where
  returned : A → Attempt A X
  raised : X → Attempt A X

-- How the retry ends. With no attempts at all `raise last_exc` is a `raise None`.
pub data Outcome (A : Type 0) (X : Type 0) : Type 0 where
  returns : A → Outcome A X
  raises : X → Outcome A X
  raises_none : Outcome A X

pub record Run (A : Type 0) (X : Type 0) : Type 0 where
  pub outcome : Outcome A X
  pub sleeps : List ℕ
  pub calls : ℕ

module _ {A X : Type 0} (catchable : X → Bool) (base_delay : ℕ) (call : ℕ → Attempt A X) where
  -- What an attempt comes to: an end, or a delay before the next round.
  abbrev pub after_attempt : (max_retries attempt : ℕ) → Attempt A X → Run A X → Run A X
  after_attempt max_retries attempt (returned a) rest = record {
    outcome = returns a;
    sleeps = [];
    calls = 1;
  }
  after_attempt max_retries attempt (raised x) rest =
      if catchable x
      then (if beq attempt (max_retries - 1)
          then record { outcome = raises x; sleeps = []; calls = 1 }
          else record rest {
            sleeps = (base_delay * 2 ^ attempt) ∷ rest.sleeps;
            calls = suc rest.calls;
          })
      else record { outcome = raises x; sleeps = []; calls = 1 }

  -- The loop over `range(max_retries)`, by the rounds that are left.
  unfoldable pub retry_from : (max_retries rounds attempt : ℕ) → Run A X
  retry_from max_retries zero attempt = record { outcome = raises_none; sleeps = []; calls = 0 }
  retry_from max_retries (suc rounds) attempt =
      let rest = retry_from max_retries rounds (suc attempt) in
      after_attempt max_retries attempt (call attempt) rest

  unfoldable pub retry_with_backoff : (max_retries : ℕ) → Run A X
  unfolding retry_from
  retry_with_backoff max_retries = retry_from max_retries max_retries 0
