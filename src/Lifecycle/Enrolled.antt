-- ===== src/Lifecycle/Enrolled.antt =====
-- What enrollment does to the table, at the first time and when the same event comes again.
use share_sentinel.Prelude.{
  ℕ, suc, ◌+◌, String, ◌≡◌, refl, sym, ap, ◌∙◌, Bool, true, Bool-cases, inl, inr, Option, some,
  List, [], ◌∷◌, ◌++◌, map, any, All, length, length-append, arith, Codes, eq_refl, if◌then◌else◌,
}
use mathlib.Core.List.{append-nil, append_assoc}
use share_sentinel.Graph.{Permission}
use share_sentinel.Lifecycle.Row.{Row, Table}
use share_sentinel.Lifecycle.Enrollment.{
  Event, time, Store, has_key, insert_row, Step, skip, raise, enroll, enroll_loop, enroll_step,
  enroll_all, enroll_sharing_links,
}

-- The row of a key is in the table.
abbrev Covers : Table → Step → Type 0
Covers t skip = Unit
Covers t raise = ⊥
Covers t (enroll r) = any (has_key r.event_id r.permission_id) t ≡ true

-- The loop over permissions that all have their rows.
enroll_loop_covered :
    (ps : List Step) (s : Store) (n : ℕ)
    → All (Covers s.table) ps
    → ((enroll_loop ps s n).0.table ≡ s.table) × ((enroll_loop ps s n).1 ≡ some n)
unfolding enroll_loop
enroll_loop_covered [] s n h = (refl, refl)
enroll_loop_covered (skip ∷ ps) s n h = enroll_loop_covered ps s n h.1
enroll_loop_covered (raise ∷ ps) s n h = absurd h.0
enroll_loop_covered (enroll r ∷ ps) s n h =
    rw (h.0, insert_row, enroll_loop)
      (enroll_loop_covered ps (record s { next_id = suc s.next_id }) n h.1)

any-append_left : (p : Row → Bool) (t u : Table) → any p t ≡ true → any p (t ++ u) ≡ true
any-append_left p [] u h = cc
any-append_left p (r ∷ t) u h = ground (arith, any-append_left p t u)

any-append_last : (p : Row → Bool) (t : Table) (r : Row) → p r ≡ true → any p (t ++ r ∷ []) ≡ true
any-append_last p [] r h = ground arith
any-append_last p (x ∷ t) r h = ground (arith, any-append_last p t r h)

-- Behind an insert its key is in the table, and what was in it still is.
insert_row-covers :
    (r : Row) (s : Store) → any (has_key r.event_id r.permission_id) (insert_row r s).0.table ≡ true
unfolding insert_row has_key
insert_row-covers r s = elim (Bool-cases (any (has_key r.event_id r.permission_id) s.table)) [
  | inl old ↦ rw (old, insert_row) old
  | inr new ↦ rw (new, insert_row) (any-append_last _ s.table _ (unfold has_key in simp eq_refl))
]

insert_row-any :
    (p : Row → Bool) (r : Row) (s : Store)
    → any p s.table ≡ true
    → any p (insert_row r s).0.table ≡ true
unfolding insert_row
insert_row-any p r s h =
    ground (arith, any-append_left p s.table (record r { id = s.next_id } ∷ []) h)

enroll_loop-any :
    (p : Row → Bool) (ps : List Step) (s : Store) (n : ℕ)
    → any p s.table ≡ true
    → any p (enroll_loop ps s n).0.table ≡ true
unfolding enroll_loop
enroll_loop-any p [] s n h = h
enroll_loop-any p (skip ∷ ps) s n h = enroll_loop-any p ps s n h
enroll_loop-any p (raise ∷ ps) s n h = h
enroll_loop-any p (enroll r ∷ ps) s n h = enroll_loop-any p ps _ _ (insert_row-any p r s h)

-- A loop that returns has covered every permission.
enroll_loop-Covers :
    (ps : List Step) (s : Store) (n m : ℕ)
    → (enroll_loop ps s n).1 ≡ some m
    → All (Covers (enroll_loop ps s n).0.table) ps
unfolding enroll_loop
enroll_loop-Covers [] s n m h = tt
enroll_loop-Covers (skip ∷ ps) s n m h = (tt, enroll_loop-Covers ps s n m h)
enroll_loop-Covers (raise ∷ ps) s n m h = cc
enroll_loop-Covers (enroll r ∷ ps) s n m h =
    (enroll_loop-any _ ps _ _ (insert_row-covers r s), enroll_loop-Covers ps _ _ m h)

insert_row_adds :
    (r : Row) (s : Store) (n : ℕ)
    → (new : Table) × ((insert_row r s).0.table ≡ s.table ++ new)
      × (n + length new ≡ (if (insert_row r s).1 then suc n else n))
unfolding insert_row
insert_row_adds r s n = elim (Bool-cases (any (has_key r.event_id r.permission_id) s.table)) [
  | inl old ↦
      ([], rw (old, insert_row) (sym (append-nil s.table)), rw (old, insert_row) (omega arith))
  | inr new ↦
      (record r { id = s.next_id } ∷ [], rw (new, insert_row), rw (new, insert_row) (omega arith))
]

-- The rows that a loop adds, behind the old ones, as many as it counts.
enroll_loop_adds :
    (ps : List Step) (s : Store) (n m : ℕ)
    → (enroll_loop ps s n).1 ≡ some m
    → (new : Table) × ((enroll_loop ps s n).0.table ≡ s.table ++ new) × (n + length new ≡ m)
unfolding enroll_loop
enroll_loop_adds [] s n m h = ([], sym (append-nil s.table), ground arith)
enroll_loop_adds (skip ∷ ps) s n m h = enroll_loop_adds ps s n m h
enroll_loop_adds (raise ∷ ps) s n m h = cc
enroll_loop_adds (enroll r ∷ ps) s n m h =
    let one = insert_row_adds r s n in
    let rest = enroll_loop_adds ps _ _ m h in
    (
      one.0 ++ rest.0,
      rest.1 ∙ ap (λ t. t ++ rest.0) one.1 ∙ append_assoc s.table one.0 rest.0,
      omega (arith, one.2, rest.2, length-append one.0 rest.0),
    )

module _ (from_isoformat : Codes → Option ℕ) (profile : String → Option String) where
  -- If an event with a time enrolls its links without an exception, the rows added stand behind the old
  -- ones and are as many as it returns; and enrolling the same permissions again returns 0 and
  -- leaves the table as it is.
  pub enroll_again :
      (ev : Event) (t n : ℕ) (ps : List Permission) (s : Store)
      → (enroll_sharing_links from_isoformat profile ev (time t) ps s).1 ≡ some n
      → let enrolled =
          λ (x : Store). enroll_sharing_links from_isoformat profile ev (time t) ps x in
        (new : Table) × ((enrolled s).0.table ≡ s.table ++ new)
        × (length new ≡ n)
        × ((enrolled (enrolled s).0).0.table ≡ (enrolled s).0.table)
        × ((enrolled (enrolled s).0).1 ≡ some 0)
  unfolding enroll_sharing_links enroll_all
  enroll_again ev t n ps s h =
      let steps = map (enroll_step from_isoformat profile ev t) ps in
      let added = enroll_loop_adds steps s 0 n h in
      let again =
        enroll_loop_covered steps (enroll_loop steps s 0).0 0 (enroll_loop-Covers steps s 0 n h) in
      (added.0, added.1, omega (arith, added.2), again.0, again.1)
