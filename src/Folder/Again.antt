-- ===== src/Folder/Again.antt =====
-- A rescan of a folder whose files are as the last scan has seen them.
use share_sentinel.Prelude.{
  suc, ◌≡◌, refl, ◌∙◌, ap, String, true, false, List, [], ◌∷◌, ℕ, All, filter, length, arith, elem,
  eq_iff, eq_refl,
}
use share_sentinel.Pipeline.Record.{Snapshot}
use share_sentinel.Folder.Items.{ChildItem}
use share_sentinel.Folder.Rescan.{
  is_new, is_modified, snapshot_ctag, deleted_ids, distinct, seen_again, first_seen, upsert_all,
  update_snapshot,
}
use share_sentinel.Folder.Recorded.{
  ids, Unique, elem-distinct, Covered, Recorded, mark_deleted-Covered, upsert-Covered, upsert-other,
  upsert-own,
}

module _ (now : ℕ) (parent : String) where
  upsert_all-Covered :
      (current : List String) (cs : List ChildItem) (ss : List Snapshot)
      → All (λ c. elem c.id current ≡ true) cs
      → Covered parent current ss
      → Covered parent current (upsert_all now parent cs ss)
  unfolding upsert_all
  upsert_all-Covered current [] ss there h = h
  upsert_all-Covered current (c ∷ cs) ss (t, ts) h = upsert_all-Covered current cs _ ts (
      upsert-Covered parent (seen_again now c) (first_seen now parent c) current ss
        (λ s. (refl, refl)) t h)

  upsert_all-other :
      (x : String) (cs : List ChildItem) (ss : List Snapshot)
      → elem x (ids cs) ≡ false
      → snapshot_ctag parent x (upsert_all now parent cs ss) ≡ snapshot_ctag parent x ss
  unfolding upsert_all elem
  upsert_all-other x [] ss other = refl
  upsert_all-other x (c ∷ cs) ss other =
      upsert_all-other x cs _ (ground (arith, other))
      ∙ upsert-other parent (seen_again now c) (first_seen now parent c) x ss (λ s. (refl, refl))
          (ground (arith, other, eq_iff x c.id, eq_iff c.id x))

  pub upsert_all-Recorded :
      (cs : List ChildItem) (ss : List Snapshot)
      → Unique cs
      → Recorded parent cs (upsert_all now parent cs ss)
  unfolding upsert_all
  upsert_all-Recorded [] ss unique = tt
  upsert_all-Recorded (c ∷ cs) ss (other, unique) = (
    upsert_all-other c.id cs _ other
        ∙ upsert-own parent (seen_again now c) (first_seen now parent c) c.ctag (λ s. Unit) ss
            (λ s. (refl, refl)) refl (refl, ground (arith, eq_refl parent))
            (λ s u hit. (refl, ground (arith, hit))) (all_unit ss),
    upsert_all-Recorded cs _ unique,
  )
    where
      all_unit : (ss : List Snapshot) → All (λ s. Unit {0}) ss
      all_unit [] = tt
      all_unit (s ∷ ss) = (tt, all_unit ss)

-- Each file is in the set of the ids.
pub All_current :
    (current : List String) (cs : List ChildItem)
    → ((x : String) → elem x (ids cs) ≡ true → elem x current ≡ true)
    → All (λ c. elem c.id current ≡ true) cs
unfolding elem
All_current current [] h = tt
All_current current (c ∷ cs) h =
    (h c.id (ground (arith, eq_refl c.id)), All_current current cs (λ x e. h x (ground (arith, e))))

pub update_snapshot-Covered :
    (now : ℕ) (parent : String) (cs : List ChildItem) (ss : List Snapshot)
    → Covered parent
        (distinct (ids cs))
        (update_snapshot now parent cs (deleted_ids parent (distinct (ids cs)) ss) ss)
unfolding update_snapshot
update_snapshot-Covered now parent cs ss =
    upsert_all-Covered now parent (distinct (ids cs)) cs _
      (All_current (distinct (ids cs)) cs (λ x e. elem-distinct x (ids cs) ∙ e))
      (mark_deleted-Covered parent now (distinct (ids cs)) _ ss (λ x e. e))

pub Recorded-new_files :
    (parent : String) (cs : List ChildItem) (ss : List Snapshot)
    → Recorded parent cs ss
    → filter (λ c. is_new (snapshot_ctag parent c.id ss)) cs ≡ []
Recorded-new_files parent [] ss h = refl
Recorded-new_files parent (c ∷ cs) ss (h, hs) = rw h (Recorded-new_files parent cs ss hs)

pub Recorded-modified_files :
    (parent : String) (cs : List ChildItem) (ss : List Snapshot)
    → Recorded parent cs ss
    → filter (λ c. is_modified c.ctag (snapshot_ctag parent c.id ss)) cs ≡ []
Recorded-modified_files parent [] ss h = refl
Recorded-modified_files parent (c ∷ cs) ss (h, hs) =
    rw (h, eq_refl c.ctag) (Recorded-modified_files parent cs ss hs)

pub length-distinct : (cs : List ChildItem) → Unique cs → length (distinct (ids cs)) ≡ length cs
unfolding distinct
length-distinct [] u = refl
length-distinct (c ∷ cs) (other, u) =
    let fresh : elem c.id (distinct (ids cs)) ≡ false = elem-distinct c.id (ids cs) ∙ other in
    rw fresh (ap suc (length-distinct cs u))
