-- ===== src/Lifecycle/Table.antt =====
-- Looking up a row by its id, under updates, filters and the ORDER BY of the query.
use share_sentinel.Prelude.{
  ℕ, ◌+◌, ◌≤◌, ◌≡◌, refl, Bool, Option, none, some, [], ◌∷◌, arith, beq, filter, if◌then◌else◌,
}
use mathlib.Core.Option
use share_sentinel.Lifecycle.Row.{Row, Table, update, find}
use share_sentinel.Lifecycle.Processor.{insert_by_created, order_by_created}

-- How many rows have an id. The primary key keeps it at one.
unfoldable pub count : ℕ → Table → ℕ
count k [] = 0
count k (r ∷ t) = (if beq r.id k then 1 else 0) + count k t

pub record IsKeyed (t : Table) : Type 0 where
  pub once : (k : ℕ) → count k t ≤ 1

pub find-update :
    (k j : ℕ) (f : Row → Row) (t : Table)
    → ((r : Row) → (f r).id ≡ r.id)
    → find j (update k f t) ≡ (if beq k j then Option.map f (find j t) else find j t)
unfolding find update
find-update k j f [] h = ground arith
find-update k j f (r ∷ t) h = ground (arith, find-update k j f t h, h r)

pub count-update :
    (k j : ℕ) (f : Row → Row) (t : Table)
    → ((r : Row) → (f r).id ≡ r.id)
    → count j (update k f t) ≡ count j t
unfolding count update
count-update k j f [] h = refl
count-update k j f (r ∷ t) h = ground (arith, count-update k j f t h, h r)

pub count-filter-le : (k : ℕ) (p : Row → Bool) (t : Table) → count k (filter p t) ≤ count k t
unfolding count
count-filter-le k p [] = omega arith
count-filter-le k p (r ∷ t) = ground (arith, count-filter-le k p t)

count-insert : (k : ℕ) (r : Row) (t : Table) → count k (insert_by_created r t) ≡ count k (r ∷ t)
unfolding count insert_by_created
count-insert k r [] = refl
count-insert k r (x ∷ t) = ground (arith, count-insert k r t)

pub count-order : (k : ℕ) (t : Table) → count k (order_by_created t) ≡ count k t
unfolding count order_by_created
count-order k [] = refl
count-order k (r ∷ t) = ground (arith, count-insert k r (order_by_created t), count-order k t)

pub find-none_of_count : (k : ℕ) (t : Table) → count k t ≤ 0 → find k t ≡ none
unfolding count find
find-none_of_count k [] h = refl
find-none_of_count k (r ∷ t) h = ground (arith, find-none_of_count k t)

find-insert :
    (k : ℕ) (r : Row) (t : Table)
    → count k (r ∷ t) ≤ 1
    → find k (insert_by_created r t) ≡ find k (r ∷ t)
unfolding count find insert_by_created
find-insert k r [] h = refl
find-insert k r (x ∷ t) h = ground (arith, find-insert k r t, find-none_of_count k t)

pub find-order : (k : ℕ) (t : Table) → count k t ≤ 1 → find k (order_by_created t) ≡ find k t
unfolding count find order_by_created
find-order k [] h = refl
find-order k (r ∷ t) h =
    ground (arith, find-insert k r (order_by_created t), count-order k t, find-order k t)

-- A row of the filtered table is the row of its id, if that passes the test.
abbrev pub keep_if : (Row → Bool) → Option Row → Option Row
keep_if p none = none
keep_if p (some r) = if p r then some r else none

pub find-filter :
    (k : ℕ) (p : Row → Bool) (t : Table)
    → count k t ≤ 1
    → find k (filter p t) ≡ keep_if p (find k t)
unfolding count find
find-filter k p [] h = refl
find-filter k p (r ∷ t) h = ground (
  arith,
  find-filter k p t,
  find-none_of_count k t,
  find-none_of_count k (filter p t),
  count-filter-le k p t,
)
