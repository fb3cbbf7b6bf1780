-- ===== src/Folder/Enqueued.antt =====
-- The jobs that a rescan enqueues.
use share_sentinel.Prelude.{
  ◌≡◌, refl, ◌∙◌, sym, String, Bool, true, false, ◌||◌, Option, none, some, List, [], ◌∷◌, ◌++◌, ℕ,
  arith, elem, All, inl, inr, Bool-cases, eq_iff, ◌==◌, Codes, map, filter,
}
use mathlib.Core.List
use share_sentinel.Graph.{Permission}
use share_sentinel.Folder.Items.{ChildItem}
use share_sentinel.Folder.Rescan.{
  snapshot_ctag, is_new, is_modified, is_set, enqueue, rescan_job, RescanJob, RescanWorld,
  FolderAnswer,
}
use share_sentinel.Folder.Cycle.{new_files, modified_files, rescan_folder}
use share_sentinel.Folder.Recorded.{ids, Unique}
use share_sentinel.Folder.Unchanged.{Answers}

module _ (now : ℕ) (event_id_of : String → String) (parent : String) (object_id : Codes) where
  abbrev pub job_of : ChildItem → RescanJob
  job_of c = rescan_job (event_id_of c.id) parent object_id c

  -- No key of the file's event is left from an earlier delivery.
  abbrev pub Unset : List (String × ℕ) → List ChildItem → Type 0
  Unset keys cs = All (λ c. is_set now (event_id_of c.id) keys ≡ false) cs

  Unset-next :
      (k : String) (expires : ℕ) (keys : List (String × ℕ)) (cs : List ChildItem)
      → All (λ c. (k == event_id_of c.id) ≡ false) cs
      → Unset keys cs
      → Unset ((k, expires) ∷ keys) cs
  unfolding is_set
  Unset-next k expires keys [] other h = tt
  Unset-next k expires keys (c ∷ cs) (o, os) (h, hs) =
      (ground (arith, o, h), Unset-next k expires keys cs os hs)

  others :
      (x : String) (cs : List ChildItem)
      → ((a b : String) → event_id_of a ≡ event_id_of b → a ≡ b)
      → elem x (ids cs) ≡ false
      → All (λ c. (event_id_of x == event_id_of c.id) ≡ false) cs
  unfolding elem
  others x [] injective h = tt
  others x (c ∷ cs) injective h = (
    elim (Bool-cases (event_id_of x == event_id_of c.id)) [
      | inl eq ↦
          let same : x ≡ c.id =
            injective x c.id ((eq_iff (event_id_of x) (event_id_of c.id)).0 eq) in
          ground (arith, h, same, eq_iff x c.id)
      | inr other ↦ other
    ],
    others x cs injective (ground (arith, h)),
  )

  pub jobs-enqueue :
      (cs : List ChildItem) (w : RescanWorld)
      → ((a b : String) → event_id_of a ≡ event_id_of b → a ≡ b)
      → Unique cs
      → Unset w.keys cs
      → (enqueue now event_id_of parent object_id cs w).jobs ≡ w.jobs ++ map job_of cs
  unfolding enqueue
  jobs-enqueue [] w injective unique unset = sym (List.append-nil w.jobs)
  jobs-enqueue (c ∷ cs) w injective (other, unique) (u, us) =
      rw (enqueue, u)
        (jobs-enqueue cs _ injective unique
            (Unset-next (event_id_of c.id) _ w.keys cs (others c.id cs injective other) us)
          ∙ List.append_assoc w.jobs (job_of c ∷ []) (map job_of cs))

elem-ids :
    (x : String) (a b : List ChildItem) → elem x (ids (a ++ b)) ≡ (elem x (ids a) || elem x (ids b))
unfolding elem
elem-ids x [] b = refl
elem-ids x (c ∷ a) b = ground (arith, elem-ids x a b)

elem-filter :
    (p : ChildItem → Bool) (x : String) (cs : List ChildItem)
    → elem x (ids cs) ≡ false
    → elem x (ids (filter p cs)) ≡ false
unfolding elem
elem-filter p x [] h = refl
elem-filter p x (c ∷ cs) h = elim (Bool-cases (p c)) [
  | inl kept ↦ rw kept (ground (arith, h, elem-filter p x cs))
  | inr dropped ↦ rw dropped (elem-filter p x cs (ground (arith, h)))
]

Unique-insert :
    (c : ChildItem) (a b : List ChildItem)
    → Unique (a ++ b)
    → elem c.id (ids (a ++ b)) ≡ false
    → Unique (a ++ c ∷ b)
unfolding elem
Unique-insert c [] b u o = (o, u)
Unique-insert c (x ∷ a) b (ox, u) o = (
  ground (
    arith,
    ox,
    o,
    elem-ids x.id a b,
    elem-ids x.id a (c ∷ b),
    eq_iff x.id c.id,
    eq_iff c.id x.id,
  ),
  Unique-insert c a b u (ground (arith, o)),
)

-- Two parts of a list that exclude each other.
Unique-filters :
    (p q : ChildItem → Bool) (cs : List ChildItem)
    → ((c : ChildItem) → p c ≡ true → q c ≡ false)
    → Unique cs
    → Unique (filter p cs ++ filter q cs)
Unique-filters p q [] apart u = tt
Unique-filters p q (c ∷ cs) apart (o, u) =
    let rest = Unique-filters p q cs apart u in
    let out : elem c.id (ids (filter p cs ++ filter q cs)) ≡ false = ground (
      arith,
      elem-ids c.id (filter p cs) (filter q cs),
      elem-filter p c.id cs o,
      elem-filter q c.id cs o,
    ) in
    elim (Bool-cases (p c)) [
      | inl first ↦ rw (first, apart c first) (out, rest)
      | inr later ↦ elim (Bool-cases (q c)) [
        | inl second ↦ rw (later, second) (Unique-insert c (filter p cs) (filter q cs) rest out)
        | inr neither ↦ rw (later, neither) rest
      ]
    ]

new_not_modified :
    (o : Option String) (ctag : String) → is_new o ≡ true → is_modified ctag o ≡ false
new_not_modified none ctag h = refl
new_not_modified (some old) ctag h = ground (arith, h)

-- A rescan that lists a folder's files, each under its own id, enqueues one job for each file that the
-- snapshots do not have, and behind them one for each file with another cTag than theirs, and none
-- for any other; given that the digest takes different files to different events, and no key of these is
-- still set.
pub rescan_enqueues :
    (now : ℕ) (event_id_of : String → String → String) (object_id : Codes) (a : FolderAnswer)
    (parent : String) (ps : List Permission) (cs : List ChildItem) (w : RescanWorld)
    → ((x y : String) → event_id_of parent x ≡ event_id_of parent y → x ≡ y)
    → Answers a ps cs
    → Unique cs
    → let fresh = filter (λ c. is_new (snapshot_ctag parent c.id w.snapshots)) cs in
      let changed = filter (λ c. is_modified c.ctag (snapshot_ctag parent c.id w.snapshots)) cs in
      Unset now (event_id_of parent) parent object_id w.keys (fresh ++ changed)
      → (rescan_folder now event_id_of object_id a parent w).0.jobs
        ≡ w.jobs ++ map (job_of now (event_id_of parent) parent object_id) (fresh ++ changed)
unfolding rescan_folder
rescan_enqueues now event_id_of object_id a parent ps cs w injective (listing, broad, children)
      unique unset =
    let apart =
      Unique-filters (λ c. is_new (snapshot_ctag parent c.id w.snapshots))
        (λ c. is_modified c.ctag (snapshot_ctag parent c.id w.snapshots)) cs
        (λ c h. new_not_modified (snapshot_ctag parent c.id w.snapshots) c.ctag h) unique in
    rw (rescan_folder, listing, broad, children)
      (jobs-enqueue now (event_id_of parent) parent object_id
        (new_files now event_id_of object_id parent cs w
          ++ modified_files now event_id_of object_id parent cs w)
        w injective apart unset)
