-- ===== src/Pipeline/Hashes.antt =====
-- The table `file_hashes`: `FileHashRepository` of services/worker/app/database/repositories.py and
-- `FileHasher.check_reuse` of pipeline/hasher.py. Times are seconds.
use share_sentinel.Prelude.{
  ℕ, ◌+◌, ◌*◌, ◌<◌, ◌≡◌, refl, String, Bool, Option, none, some, List, [], ◌∷◌, arith, ltb, ◌==◌,
  eq_iff, eq_refl, if◌then◌else◌,
}

pub record HashRow : Type 0 where
  pub file_hash : String
  pub first_event_id : String
  pub category_ids : List String
  pub times_seen : ℕ
  pub last_seen_at : ℕ

abbrev pub Hashes : Type 0
Hashes = List HashRow

-- The row of a hash (the primary key).
unfoldable pub find_hash : String → Hashes → Option HashRow
find_hash h [] = none
find_hash h (r ∷ t) = if r.file_hash == h then some r else find_hash h t

-- `last_seen_at > NOW() - make_interval(days => max_age_days)`
unfoldable pub is_fresh : (now max_age_days : ℕ) → HashRow → Bool
is_fresh now max_age_days r = ltb now (r.last_seen_at + max_age_days * 86400)

abbrev pub if_fresh : (now max_age_days : ℕ) → Option HashRow → Option HashRow
if_fresh now max_age_days none = none
if_fresh now max_age_days (some r) = if is_fresh now max_age_days r then some r else none

unfoldable pub check_hash : (now max_age_days : ℕ) → String → Hashes → Option HashRow
check_hash now max_age_days h t = if_fresh now max_age_days (find_hash h t)

abbrev pub seen_again : ℕ → HashRow → HashRow
seen_again now r = record r { times_seen = r.times_seen + 1; last_seen_at = now }

unfoldable pub update_last_seen : ℕ → String → Hashes → Hashes
update_last_seen now h [] = []
update_last_seen now h (r ∷ t) =
    (if r.file_hash == h then seen_again now r else r) ∷ update_last_seen now h t

-- `INSERT … ON CONFLICT (file_hash) DO UPDATE`: the columns' defaults are one and NOW().
unfoldable pub store_hash : ℕ → String → String → List String → Hashes → Hashes
store_hash now h event_id category_ids [] =
    record {
      file_hash = h;
      first_event_id = event_id;
      category_ids = category_ids;
      times_seen = 1;
      last_seen_at = now;
    }
    ∷ []
store_hash now h event_id category_ids (r ∷ t) =
    let rest = store_hash now h event_id category_ids t in
    if r.file_hash == h then seen_again now r ∷ t else r ∷ rest

-- `FileHasher.check_reuse`: the row as it was read, and the table with the counter bumped.
unfoldable pub check_reuse : (now max_age_days : ℕ) → String → Hashes → Option HashRow × Hashes
check_reuse now max_age_days h t = elim (check_hash now max_age_days h t) [
  | none ↦ (none, t)
  | some r ↦ (some r, update_last_seen now h t)
]

-- Where the row of a hash goes when its analysis is stored.
abbrev pub stored : ℕ → String → String → List String → Option HashRow → HashRow
stored now h event_id category_ids none = record {
  file_hash = h;
  first_event_id = event_id;
  category_ids = category_ids;
  times_seen = 1;
  last_seen_at = now;
}
stored now h event_id category_ids (some r) = seen_again now r

find-store_hash :
    (now : ℕ) (h event_id k : String) (ids : List String) (t : Hashes)
    → find_hash k (store_hash now h event_id ids t)
      ≡ (if h == k then some (stored now h event_id ids (find_hash h t)) else find_hash k t)
unfolding find_hash store_hash
find-store_hash now h event_id k ids [] = refl
find-store_hash now h event_id k ids (r ∷ t) = ground (
  arith,
  find-store_hash now h event_id k ids t,
  eq_iff r.file_hash h,
  eq_iff r.file_hash k,
  eq_iff h k,
)

-- An analysis that is stored under a hash seen for the first time is what a later upload of the
-- file reuses, exactly while its age is under `max_age_days` days; the lookup of no other hash changes.
pub check-store_new :
    (now later max_age_days : ℕ) (h event_id k : String) (ids : List String) (t : Hashes)
    → find_hash h t ≡ none
    → check_hash later max_age_days k (store_hash now h event_id ids t) ≡ (
        if h == k
        then (if ltb later (now + max_age_days * 86400)
            then some (stored now h event_id ids none)
            else none)
        else check_hash later max_age_days k t)
unfolding check_hash is_fresh
check-store_new now later max_age_days h event_id k ids t new =
    ground (arith, find-store_hash now h event_id k ids t)

-- An analysis that is stored under a hash that has a row, as after that row has aged out, loses its
-- categories: what a later upload reuses, while it is fresh, are the categories of the old row.
pub check-store_old :
    (now later max_age_days : ℕ) (h event_id : String) (ids : List String) (t : Hashes)
    {r : HashRow}
    → find_hash h t ≡ some r
    → later < now + max_age_days * 86400
    → check_hash later max_age_days h (store_hash now h event_id ids t) ≡ some (seen_again now r)
unfolding check_hash is_fresh
check-store_old now later max_age_days h event_id ids t old fresh =
    ground (arith, find-store_hash now h event_id h ids t, eq_refl h)
