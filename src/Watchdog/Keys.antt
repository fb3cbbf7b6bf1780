-- ===== src/Watchdog/Keys.antt =====
-- Keys of Redis with a time to live, as services/watchdog/app/main.py uses them. Times are seconds.
use share_sentinel.Prelude.{ℕ, suc, ◌+◌, Option, none, some, ltb, if◌then◌else◌}

pub record Entry (A : Type 0) : Type 0 where
  pub content : A
  pub expires_at : ℕ

abbrev pub Key : Type 0 → Type 0
Key A = Option (Entry A)

-- GET
unfoldable pub get : {A : Type 0} → ℕ → Key A → Option A
get now none = none
get now (some x) = if ltb now x.expires_at then some x.content else none

-- SET … EX
abbrev pub put : {A : Type 0} → ℕ → ℕ → A → Key A
put now ttl a = some (record { content = a; expires_at = now + ttl })

abbrev pub count_of : Option ℕ → ℕ
count_of none = 0
count_of (some n) = n

-- INCR, and EXPIRE.
unfoldable pub increment : ℕ → ℕ → Key ℕ → Key ℕ
unfolding get
increment now ttl k = put now ttl (suc (count_of (get now k)))
