-- ===== src/Folder/Recorded.antt =====
-- Snapshots that record the files of a folder as they are.
use share_sentinel.Prelude.{
  ◌≡◌, refl, ◌∙◌, ap, String, Bool, true, false, not, ◌&&◌, some, List, [], ◌∷◌, ℕ, inl, inr,
  Bool-cases, All, map, arith, elem, eq_iff, eq_refl, ◌==◌,
}
use share_sentinel.Pipeline.Record.{Snapshot}
use share_sentinel.Folder.Items.{ChildItem}
use share_sentinel.Folder.Snapshots.{is_row, upsert}
use share_sentinel.Folder.Rescan.{is_live, snapshot_ctag, deleted_ids, distinct, mark_deleted}

abbrev pub ids : List ChildItem → List String
ids cs = map (λ c. c.id) cs

-- No two files have the same id.
abbrev pub Unique : List ChildItem → Type 0
Unique [] = Unit
Unique (c ∷ cs) = (elem c.id (ids cs) ≡ false) × Unique cs

pub elem-distinct : (x : String) (xs : List String) → elem x (distinct xs) ≡ elem x xs
unfolding elem distinct
elem-distinct x [] = refl
elem-distinct x (y ∷ ys) = ground (arith, elem-distinct x ys, elem-distinct y ys, eq_iff x y)

module _ (parent : String) where
  -- A row that tells of a file that is there no more.
  abbrev pub is_left : List String → Snapshot → Bool
  is_left current s = is_live parent s && not (elem s.child_item_id current)

  abbrev pub Covered : List String → List Snapshot → Type 0
  Covered current ss = All (λ s. is_left current s ≡ false) ss

  -- Each file has a row that is not marked as deleted, with its cTag.
  abbrev pub Recorded : List ChildItem → List Snapshot → Type 0
  Recorded cs ss = All (λ c. snapshot_ctag parent c.id ss ≡ some c.ctag) cs

  pub Covered-deleted_ids :
      (current : List String) (ss : List Snapshot)
      → Covered current ss
      → deleted_ids parent current ss ≡ []
  unfolding deleted_ids
  Covered-deleted_ids current [] h = refl
  Covered-deleted_ids current (s ∷ ss) (h, hs) = rw h (Covered-deleted_ids current ss hs)

  pub mark_deleted-Covered :
      (now : ℕ) (current marked : List String) (ss : List Snapshot)
      → ((x : String) → elem x (deleted_ids parent current ss) ≡ true → elem x marked ≡ true)
      → Covered current (mark_deleted now parent marked ss)
  unfolding deleted_ids mark_deleted elem
  mark_deleted-Covered now current marked [] h = tt
  mark_deleted-Covered now current marked (s ∷ ss) h = elim (Bool-cases (is_left current s)) [
    | inl left ↦
        let member : elem s.child_item_id marked ≡ true =
          h s.child_item_id (ground (arith, left, eq_refl s.child_item_id)) in
        (
          ground (arith, left, member),
          mark_deleted-Covered now current marked ss (λ x e. h x (ground (arith, left, e))),
        )
    | inr kept ↦ (
      ground (arith, kept),
      mark_deleted-Covered now current marked ss (λ x e. h x (ground (arith, kept, e))),
    )
  ]

  module _ (f : Snapshot → Snapshot) (new : Snapshot) where
    -- The update keeps the keys of a row.
    abbrev pub KeepsKeys : Type 0
    KeepsKeys =
        (s : Snapshot)
        → ((f s).parent_event_id ≡ s.parent_event_id) × ((f s).child_item_id ≡ s.child_item_id)

    pub upsert-Covered :
        (current : List String) (ss : List Snapshot)
        → KeepsKeys
        → elem new.child_item_id current ≡ true
        → Covered current ss
        → Covered current (upsert f new ss)
    unfolding upsert
    upsert-Covered current [] keys there h = (ground (arith, there), tt)
    upsert-Covered current (s ∷ ss) keys there (h, hs) =
        elim (Bool-cases (is_row new.parent_event_id new.child_item_id s)) [
          | inl hit ↦
              let same : s.child_item_id ≡ new.child_item_id =
                ground (arith, hit, eq_iff s.child_item_id new.child_item_id) in
              let covered : elem (f s).child_item_id current ≡ true =
                rw ((keys s).1 ∙ same) there in
              rw hit (ground (arith, covered), hs)
          | inr miss ↦ rw miss (h, upsert-Covered current ss keys there hs)
        ]

    pub upsert-other :
        (x : String) (ss : List Snapshot)
        → KeepsKeys
        → (new.child_item_id == x) ≡ false
        → snapshot_ctag parent x (upsert f new ss) ≡ snapshot_ctag parent x ss
    unfolding upsert snapshot_ctag
    upsert-other x [] keys other = ground (arith, other)
    upsert-other x (s ∷ ss) keys other =
        elim (Bool-cases (is_row new.parent_event_id new.child_item_id s)) [
          | inl hit ↦
              let same : s.child_item_id ≡ new.child_item_id =
                ground (arith, hit, eq_iff s.child_item_id new.child_item_id) in
              let other_s : (s.child_item_id == x) ≡ false = rw same other in
              let other_f : ((f s).child_item_id == x) ≡ false = rw ((keys s).1 ∙ same) other in
              rw hit (ground (arith, other_s, other_f))
          | inr miss ↦ rw miss (ground (arith, upsert-other x ss keys other))
        ]

    -- What the row that is written, new or old, must tell: the cTag, on a row that is not marked.
    abbrev pub Tells : String → Snapshot → Type 0
    Tells ctag s = (s.child_ctag ≡ ctag) × (is_live parent s ≡ true)

    pub upsert-own :
        (ctag : String) (P : Snapshot → Type 0) (ss : List Snapshot)
        → KeepsKeys
        → new.parent_event_id ≡ parent
        → Tells ctag new
        → ((s : Snapshot)
            → P s
            → is_row new.parent_event_id new.child_item_id s ≡ true
            → Tells ctag (f s))
        → All P ss
        → snapshot_ctag parent new.child_item_id (upsert f new ss) ≡ some ctag
    unfolding upsert snapshot_ctag
    upsert-own ctag P [] keys mine (told, live) old h =
        ground (arith, live, eq_refl new.child_item_id, told)
    upsert-own ctag P (s ∷ ss) keys mine tells old (h, hs) =
        elim (Bool-cases (is_row new.parent_event_id new.child_item_id s)) [
          | inl hit ↦
              let (told, live) = old s h hit in
              let same : s.child_item_id ≡ new.child_item_id =
                ground (arith, hit, eq_iff s.child_item_id new.child_item_id) in
              let mine_f : ((f s).child_item_id == new.child_item_id) ≡ true =
                rw ((keys s).1 ∙ same) (eq_refl new.child_item_id) in
              rw (hit, live, mine_f) (ap some told)
          | inr miss ↦
              let not_mine : (is_live parent s && s.child_item_id == new.child_item_id) ≡ false =
                rw (← mine) (ground (arith, miss)) in
              rw (miss, not_mine) (upsert-own ctag P ss keys mine tells old hs)
        ]
