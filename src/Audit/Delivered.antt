-- ===== src/Audit/Delivered.antt =====
-- What the records of a window are delivered to.
use share_sentinel.Prelude.{
  ℕ, ◌+◌, ◌≡◌, refl, ◌∙◌, sym, String, Bool, true, false, not, ◌&&◌, ◌||◌, List, [], ◌∷◌, ◌++◌, inl,
  inr, Bool-cases, arith, elem, map, ◌==◌, eq_iff, if◌then◌else◌,
}
use mathlib.Core.Bool.{true≢false}
use share_sentinel.Audit.Window.{
  AuditRecord, AuditWorld, WindowAnswers, Progress, process_record, process_records, is_seen,
  mark_seen,
}

-- How often a text stands in a list.
unfoldable pub count : String → List String → ℕ
count k [] = 0
count k (x ∷ xs) = (if x == k then 1 else 0) + count k xs

count-append : (k : String) (a b : List String) → count k (a ++ b) ≡ count k a + count k b
unfolding count
count-append k [] b = omega arith
count-append k (x ∷ a) b = ground (arith, count-append k a b)

-- The deliveries of an event, to the worker or to the provisioning enforcer.
abbrev pub deliveries : String → AuditWorld → ℕ
deliveries k w = count k w.jobs + count k w.handled

abbrev pub event_ids : List AuditRecord → List String
event_ids rs = map (λ r. r.event_id) rs

abbrev pub once : Bool → ℕ
once true = 1
once false = 0

module _ (g : WindowAnswers) (k : String) where
  abbrev Delivered : Bool → Progress → Progress → Type 0
  Delivered b p p' = deliveries k p'.world ≡ deliveries k p.world + once b

  -- An event that was not seen, at the end of a list.
  added-count :
      (x : String) (seen : List (String × ℕ)) (xs : List String)
      → is_seen g.now x seen ≡ false
      → count k (xs ++ x ∷ []) ≡ count k xs + once (x == k && not (is_seen g.now k seen))
  unfolding count
  added-count x seen xs fresh = elim (Bool-cases (x == k)) [
    | inl same ↦
        let e : x ≡ k = (eq_iff x k).0 same in
        let fresh_k : is_seen g.now k seen ≡ false = rw (← e) fresh in
        ground (arith, count-append k xs (x ∷ []), same, fresh_k)
    | inr other ↦ ground (arith, count-append k xs (x ∷ []), other)
  ]

  marked-is_seen :
      (x : String) (w : AuditWorld)
      → is_seen g.now k (mark_seen g.now x w).seen ≡ (is_seen g.now k w.seen || x == k)
  unfolding is_seen
  marked-is_seen x w = ground arith

  already :
      (x : String) (seen : List (String × ℕ))
      → is_seen g.now x seen ≡ true
      → ((x == k && not (is_seen g.now k seen)) ≡ false)
        × (is_seen g.now k seen ≡ (is_seen g.now k seen || x == k))
  already x seen old = elim (Bool-cases (x == k)) [
    | inl same ↦
        let e : x ≡ k = (eq_iff x k).0 same in
        let old_k : is_seen g.now k seen ≡ true = rw (← e) old in ground (arith, same, old_k)
    | inr other ↦ ground (arith, other)
  ]

  abbrev IsStep : AuditRecord → Progress → Progress × Bool → Type 0
  IsStep r p out =
      out.1 ≡ true
      → Delivered (r.event_id == k && not (is_seen g.now k p.world.seen)) p out.0
        × (is_seen g.now k out.0.world.seen ≡ (is_seen g.now k p.world.seen || r.event_id == k))

  -- A record that does not raise.
  process_record-IsStep : (r : AuditRecord) (p : Progress) → IsStep r p (process_record g r p)
  unfolding process_record
  process_record-IsStep r p = elim (Bool-cases r.is_readable) [
    | inr broken ↦ rw (process_record, broken) (λ fine. absurd cc)
    | inl readable ↦ elim (Bool-cases (is_seen g.now r.event_id p.world.seen)) [
      | inl old ↦
          let (none_due, kept) = already r.event_id p.world.seen old in
          rw (process_record, old, readable) (λ fine. (rw none_due (omega arith), kept))
      | inr fresh ↦ elim (Bool-cases (g.provisioning_enabled && r.is_provisioning)) [
        | inl routed ↦ elim (Bool-cases (g.handles r)) [
          | inl handled ↦
              rw (process_record, handled, routed, fresh, readable)
                (λ fine.
                  let more = added-count r.event_id p.world.seen p.world.handled fresh in
                  (omega arith, marked-is_seen r.event_id p.world))
          | inr refused ↦ rw (process_record, refused, routed, fresh, readable) (λ fine. absurd cc)
        ]
        | inr pushed ↦
            rw (process_record, pushed, fresh, readable)
              (λ fine.
                let more = added-count r.event_id p.world.seen p.world.jobs fresh in
                (omega arith, marked-is_seen r.event_id p.world))
      ]
    ]
  ]

  all_or_nothing :
      (rs : List AuditRecord) (p : Progress) → (process_records g rs (p, false)).1 ≡ false
  unfolding process_records
  all_or_nothing [] p = refl
  all_or_nothing (r ∷ rs) p = refl

  -- What the loop over records leaves, if it goes through.
  abbrev AllDelivered : List AuditRecord → Progress → Progress × Bool → Type 0
  AllDelivered rs p out =
      out.1 ≡ true
      → Delivered (elem k (event_ids rs) && not (is_seen g.now k p.world.seen)) p out.0
        × (is_seen g.now k out.0.world.seen
            ≡ (is_seen g.now k p.world.seen || elem k (event_ids rs)))

  combined :
      (own seen others : Bool) (d d' d'' : ℕ)
      → d' ≡ d + once (own && not seen)
      → d'' ≡ d' + once (others && not (seen || own))
      → d'' ≡ d + once ((own || others) && not seen)
  combined true true others d d' d'' a b = ground arith
  combined true false others d d' d'' a b = ground arith
  combined false true others d d' d'' a b = ground arith
  combined false false others d d' d'' a b = ground arith

  first_then :
      (r : AuditRecord) (rs : List AuditRecord) (p : Progress) (out : Progress × Bool)
      → IsStep r p out
      → ((p' : Progress) → AllDelivered rs p' (process_records g rs (p', true)))
      → AllDelivered (r ∷ rs) p (process_records g rs out)
  unfolding elem
  first_then r rs p (p', false) step rest fine =
      absurd (true≢false (sym fine ∙ all_or_nothing rs p'))
  first_then r rs p (p', true) step rest fine =
      let (one, seen) = step refl in
      let (more, seen') = rest p' fine in
      let same : (k == r.event_id) ≡ (r.event_id == k) =
        ground (arith, eq_iff k r.event_id, eq_iff r.event_id k) in
      let more' : deliveries k (process_records g rs (p', true)).0.world
          ≡ deliveries k p'.world
            + once
                (elem k (event_ids rs) && not (is_seen g.now k p.world.seen || r.event_id == k)) =
        rw (← seen) more in
      rw same (
        combined (r.event_id == k) (is_seen g.now k p.world.seen) (elem k (event_ids rs)) _ _ _ one
            more',
        seen' ∙ rw seen (ground arith),
      )

  -- If the loop over the records of a window goes through, an event that is not marked as seen before is
  -- delivered once if it is among the records, however often, and any other event is not delivered;
  -- afterwards all events of the records are marked.
  pub deliveries-process_records :
      (rs : List AuditRecord) (p : Progress)
      → (process_records g rs (p, true)).1 ≡ true
      → let p' = (process_records g rs (p, true)).0 in
        (deliveries k p'.world
          ≡ deliveries k p.world
            + once (elem k (event_ids rs) && not (is_seen g.now k p.world.seen)))
        × (is_seen g.now k p'.world.seen ≡ (is_seen g.now k p.world.seen || elem k (event_ids rs)))
  unfolding process_records elem
  deliveries-process_records [] p fine = ground arith
  deliveries-process_records (r ∷ rs) p fine =
      first_then r rs p (process_record g r p) (process_record-IsStep r p)
        (λ p'. deliveries-process_records rs p') fine
