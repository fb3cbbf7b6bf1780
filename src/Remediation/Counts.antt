-- ===== src/Remediation/Counts.antt =====
-- What the removal of an item's permissions counts, and the remediation of an event without ids.
use share_sentinel.Prelude.{
  ℕ, suc, ◌+◌, String, Bool, Option, none, some, List, [], ◌∷◌, ◌++◌, ◌≡◌, refl, ap, ◌∙◌, sym,
  arith, All, true, false, ◌&&◌, ◌||◌, leb, beq, inl, inr, ◌⊎◌, Codes, codes, same_codes, lower,
  if◌then◌else◌, Bool-cases,
}
use mathlib.Core.Option
use share_sentinel.Graph.{
  Field, missing, null, value, Link, Permission, link_of, lower_or, is_broad, id_of,
}
use share_sentinel.Lifecycle.Processor.{
  Response, status_code, transport_error, removed, failed, remove_sharing_permission,
}
use share_sentinel.Remediation.World.{
  listed, Service, completed, Remediation, EventRow, World, find_event, find_remediation,
  remediation_started, remediation_skip_removal, no_ids_detail,
}
use share_sentinel.Remediation.Remove.{
  Tally, no_tally, Target, passed, broad, target_of, targets, book_removal, remove_one, remove_loop,
  remove_permissions_for_item,
}
use share_sentinel.Remediation.Execute.{
  final_status, conclude, place_of, execute_remediation, cascade_place, cascade, validate_all,
  remove_file,
}
use share_sentinel.Remediation.Closing.{find-update, conclude-graph, conclude-remediations, closing}

-- The scope of a link says that it is open to anyone, or to the organization, in any case of its letters.
abbrev pub says_open : Field Codes → Bool
says_open (value s) =
    same_codes (lower s) (codes "organization") || same_codes (lower s) (codes "anonymous")
says_open _ = false

abbrev pub link_says_open : Field (Option Link) → Bool
link_says_open (value (some l)) = says_open l.scope
link_says_open _ = false

-- The link's scope is there, but null.
abbrev pub is_null : Field Codes → Bool
is_null null = true
is_null _ = false

abbrev pub has_null_scope : Field (Option Link) → Bool
has_null_scope (value (some l)) = is_null l.scope
has_null_scope _ = false

-- The ids of the permissions with an open link, in their order.
abbrev pub open_id : Permission → Option String
open_id p = if link_says_open p.link then id_of p else none

abbrev pub prepend : Option String → List String → List String
prepend none xs = xs
prepend (some x) xs = x ∷ xs

abbrev pub open_ids : List Permission → List String
open_ids [] = []
open_ids (p ∷ ps) = prepend (open_id p) (open_ids ps)

-- Graph deleted the permission, or no longer has it.
abbrev pub confirms : Response → Bool
confirms (transport_error e) = false
confirms (status_code c) = leb 200 c && leb c 299 || beq c 404

-- What is left of Graph, and how many deletions it confirmed and refused.
pub record Deleted (G : Type 0) : Type 0 where
  pub graph : G
  pub confirmed : ℕ
  pub refused : ℕ

abbrev pub one_more : {G : Type 0} → Bool → Deleted G → Deleted G
one_more true x = record x { confirmed = suc x.confirmed }
one_more false x = record x { refused = suc x.refused }

-- The permissions of an item deleted one after the other.
unfoldable pub delete_all : {G : Type 0} → Service G → String → String → List String → G → Deleted G
delete_all service d i [] g = record { graph = g; confirmed = 0; refused = 0 }
delete_all service d i (p ∷ ps) g =
    let (answer, g') = service.delete g d i p in
    one_more (confirms answer) (delete_all service d i ps g')

confirms_lem :
    (a : Response)
    → ((confirms a ≡ true) × ((m : Bool) × (remove_sharing_permission a ≡ removed m)))
      ⊎ ((confirms a ≡ false) × ((m : String) × (remove_sharing_permission a ≡ failed m)))
unfolding remove_sharing_permission
confirms_lem (transport_error e) = inr (refl, (e, refl))
confirms_lem (status_code c) = elim (Bool-cases (confirms (status_code c))) [
  | inl up ↦ inl (up, (true, ground (arith, up)))
  | inr down ↦ inr (down, ("HTTP status error", ground (arith, down)))
]

abbrev target_for : Option String → Target
target_for none = passed
target_for (some i) = broad i

empty_scope : is_broad (lower []) ≡ false
unfolding is_broad same_codes lower
empty_scope = refl

at_scope :
    (p : Permission) (l : Link) (s : Field Codes)
    → is_null s ≡ false
    → target_of (record p { link = value (some (record l { scope = s })) })
      ≡ target_for (if says_open s then id_of p else none)
unfolding target_of link_of lower_or is_broad id_of
at_scope p l missing h = rw empty_scope refl
at_scope p l null h = ground arith
at_scope p l (value s) h = ground arith

at_link :
    (p : Permission) (f : Field (Option Link))
    → has_null_scope f ≡ false
    → target_of (record p { link = f }) ≡ target_for (if link_says_open f then id_of p else none)
unfolding target_of link_of
at_link p missing h = refl
at_link p null h = refl
at_link p (value none) h = refl
at_link p (value (some l)) h = at_scope p l l.scope h

target_of_lem :
    (p : Permission) → has_null_scope p.link ≡ false → target_of p ≡ target_for (open_id p)
target_of_lem p h = at_link p p.link h

module _ {G : Type 0} (service : Service G) (now : ℕ) where
  -- A run that returns, with this state of Graph, and so many more removals and failures.
  abbrev Counts : World G × Option Tally → Tally → Deleted G → Type 0
  Counts out t x =
      (w' : World G) × (t' : Tally) × (out ≡ (w', some t'))
      × (w'.graph ≡ x.graph)
      × (t'.removed_count ≡ t.removed_count + x.confirmed)
      × (t'.failed_count ≡ t.failed_count + x.refused)

  abbrev one : G → Response → Deleted G
  one g a = one_more (confirms a) (record { graph = g; confirmed = 0; refused = 0 })

  book_removal_lem :
      (k p : String) (t : Tally) (a : Response) (w : World G)
      → Counts (book_removal service now k p t (remove_sharing_permission a) w) t (one w.graph a)
  unfolding book_removal
  book_removal_lem k p t a w = elim (confirms_lem a) [
    | inl (up, (m, e)) ↦ rw (e, up) (_, _, refl, refl, refl, omega arith)
    | inr (down, (m, e)) ↦ rw (e, down) (_, _, refl, refl, omega arith, refl)
  ]

  -- The rest of the loop, after one removal.
  abbrev go_on :
      String → String → String → List Target → World G × Option Tally → World G × Option Tally
  go_on k d i ts (w, none) = (w, none)
  go_on k d i ts (w, some t) = remove_loop service now k d i ts t w

  -- Deletions after one are added to it.
  one_more-adds :
      (b : Bool) (g : G) (x : Deleted G)
      → ((one_more b x).graph ≡ x.graph)
        × ((one_more b x).confirmed
            ≡ (one_more b (record { graph = g; confirmed = 0; refused = 0 })).confirmed
              + x.confirmed)
        × ((one_more b x).refused
            ≡ (one_more b (record { graph = g; confirmed = 0; refused = 0 })).refused + x.refused)
  one_more-adds true g x = (refl, omega arith, omega arith)
  one_more-adds false g x = (refl, omega arith, omega arith)

  -- One permission, given what the loop does on the others.
  remove_loop-step :
      (k d i : String) (o : Option String) (ps : List Permission)
      → ((t : Tally) (w : World G)
          → Counts
              (remove_loop service now k d i (targets service now ps) t w)
              t
              (delete_all service d i (open_ids ps) w.graph))
      → (t : Tally) (w : World G)
      → Counts
          (remove_loop service now k d i (target_for o ∷ targets service now ps) t w)
          t
          (delete_all service d i (prepend o (open_ids ps)) w.graph)
  unfolding remove_loop remove_one delete_all
  remove_loop-step k d i none ps rest t w = rest t w
  remove_loop-step k d i (some p) ps rest t w =
      let (a, g) = service.delete w.graph d i p in
      let (w1, t1, e1, g1, r1, f1) = book_removal_lem k p t a (record w { graph = g }) in
      let (w2, t2, e2, g2, r2, f2) = rest t1 w1 in
      let more = delete_all service d i (open_ids ps) in
      let same : more w1.graph ≡ more g = ap more (
        g1 ∙ (one_more-adds (confirms a) g (record { graph = g; confirmed = 0; refused = 0 })).0) in
      let same_confirmed = ap (λ x. x.confirmed) same in
      let same_refused = ap (λ x. x.refused) same in
      let (g3, r3, f3) = one_more-adds (confirms a) g (more g) in
      (
        w2,
        t2,
        ap (go_on k d i (targets service now ps)) e1 ∙ e2,
        g2 ∙ ap (λ x. x.graph) same ∙ sym g3,
        omega (arith, r1, r2, r3, same_confirmed),
        omega (arith, f1, f2, f3, same_refused),
      )

  remove_loop_lem :
      (k d i : String) (ps : List Permission)
      → All (λ p. has_null_scope p.link ≡ false) ps
      → (t : Tally) (w : World G)
      → Counts
          (remove_loop service now k d i (targets service now ps) t w)
          t
          (delete_all service d i (open_ids ps) w.graph)
  unfolding remove_loop delete_all
  remove_loop_lem k d i [] all t w = (w, t, refl, refl, omega arith, omega arith)
  remove_loop_lem k d i (p ∷ ps) (h, all) t w =
      rw (target_of_lem p h)
        (remove_loop-step k d i (open_id p) ps (remove_loop_lem k d i ps all) t w)

  -- If the listing succeeds and no link has a null scope, the removal loop returns. It has called Graph
  -- to delete, in their order, the permissions that have an id and a link open to anyone or to the
  -- organization, and no others: Graph is as these calls leave it, the tally counts as removed those
  -- that it confirmed or that it no longer had, and as failed all others.
  pub removal_counts :
      (k d i : String) (ps : List Permission) (w : World G)
      → service.get_sharing_permissions w.graph d i ≡ listed ps
      → All (λ p. has_null_scope p.link ≡ false) ps
      → let x = delete_all service d i (open_ids ps) w.graph in
        (w' : World G) × (t : Tally) × (remove_permissions_for_item service now k d i w
          ≡ (w', some t))
        × (w'.graph ≡ x.graph)
        × (t.removed_count ≡ x.confirmed)
        × (t.failed_count ≡ x.refused)
  unfolding remove_permissions_for_item
  removal_counts k d i ps w l all =
      let (w', t, e, g, r, f) = remove_loop_lem k d i ps all no_tally w in
      (w', t, rw l e, g, r ∙ omega arith, f ∙ omega arith)

module _ {G : Type 0} (service : Service G) (now : ℕ) (queue_up : Bool) where
  abbrev skipped : Remediation → World G → World G
  skipped r w = record w {
    audit =
        (w.audit ++ (r.event_id, remediation_started) ∷ [])
        ++ (r.event_id, remediation_skip_removal) ∷ [];
  }

  abbrev skip_tally : Tally
  skip_tally = record no_tally { details = no_ids_detail ∷ [] }

  abbrev skip_result : Remediation → World G → World G
  skip_result r w = conclude service now queue_up r none skip_tally none (skipped r w)

  skip_run :
      (r : Remediation) (w : World G) (e : EventRow)
      → find_event r.event_id w.events ≡ some e
      → place_of e ≡ none
      → e.parent_event_id ≡ none
      → execute_remediation service now queue_up r w ≡ (skip_result r w, some tt)
  unfolding execute_remediation remove_file cascade validate_all cascade_place
  skip_run r w e there placed orphan = rw (there, placed, orphan) refl

  -- If the event has no drive or item id and no parent, the remediation returns without a call of
  -- Graph, and yet its row ends 'completed', with nothing removed and nothing validated.
  pub missing_ids_completed :
      (r x : Remediation) (w : World G) (e : EventRow)
      → find_event r.event_id w.events ≡ some e
      → place_of e ≡ none
      → e.parent_event_id ≡ none
      → find_remediation r.id w.remediations ≡ some x
      → (w' : World G) × (r' : Remediation) × (execute_remediation service now queue_up r w
          ≡ (w', some tt))
        × (w'.graph ≡ w.graph)
        × (find_remediation r.id w'.remediations ≡ some r')
        × (r'.status ≡ completed)
        × (r'.permissions_removed ≡ 0)
        × (r'.validation_passed ≡ none)
  unfolding final_status
  missing_ids_completed r x w e there placed orphan row = (
    skip_result r w,
    closing service now queue_up skip_tally none x,
    skip_run r w e there placed orphan,
    conclude-graph service now queue_up r none skip_tally none (skipped r w),
    ap (find_remediation r.id)
          (conclude-remediations service now queue_up r none skip_tally none (skipped r w))
        ∙ find-update r.id (closing service now queue_up skip_tally none) w.remediations (λ _. refl)
        ∙ ap (Option.map (closing service now queue_up skip_tally none)) row,
    refl,
    refl,
    refl,
  )
