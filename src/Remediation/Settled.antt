-- ===== src/Remediation/Settled.antt =====
-- What a remediation's status says of Graph, and that the poller settles what it claims.
use share_sentinel.Prelude.{
  ℕ, zero, suc, ◌≤◌, String, Bool, true, false, Option, none, some, List, [], ◌∷◌, ◌++◌, ◌≡◌, refl,
  sym, ap, ◌∙◌, ◌⊎◌, inl, inr, ltb, arith, Bool-cases, ◌≢◌, All,
}
use share_sentinel.Remediation.World.{
  Service, RemediationStatus, completed, completed_with_warnings, failed, Remediation, EventRow,
  World, find_event, find_remediation, update_remediation, ◌>>=◌, modify, remediation_started,
}
use share_sentinel.Remediation.Remove.{Tally}
use share_sentinel.Remediation.Execute.{
  final_status, mark_failed, conclude, validate_all, run_steps, parent_of, place_of, cascade_place,
  execute_remediation, execute_event, remove_file, cascade,
}
use share_sentinel.Remediation.Poller.{
  is_pending, older, oldest_pending, claim, claim_next, settle, run_claimed, poll,
}
use share_sentinel.Remediation.Closing.{
  find-update, mapped_some, bind_some, conclude-graph, conclude-row, IsCleanListing, at,
  IsCleanParent, validate_all_lem,
}

abbrev pub is_settled : RemediationStatus → Bool
is_settled completed = true
is_settled completed_with_warnings = true
is_settled failed = true
is_settled _ = false

final_status-settled : (v : Option Bool) (n : ℕ) → is_settled (final_status v n) ≡ true
unfolding final_status
final_status-settled (some false) n = refl
final_status-settled (some true) zero = refl
final_status-settled (some true) (suc n) = refl
final_status-settled none zero = refl
final_status-settled none (suc n) = refl

final_status-completed :
    (v : Option Bool) (n : ℕ) → final_status v n ≡ completed → (v ≢ some false) × (n ≡ 0)
unfolding final_status
final_status-completed (some false) n eq = ground arith
final_status-completed (some true) zero eq = (λ h. ground arith, refl)
final_status-completed (some true) (suc n) eq = ground arith
final_status-completed none zero eq = (λ h. ground arith, refl)
final_status-completed none (suc n) eq = ground arith

abbrev failing : ℕ → String → Remediation → Remediation
failing now message r = record r {
  status = failed;
  completed_at = some now;
  error_message = some message;
}

failed_row :
    {G : Type 0} (now k : ℕ) (message : String) (w : World G) (r' : Remediation)
    → find_remediation k (mark_failed now k message w).remediations ≡ some r'
    → is_settled r'.status ≡ true
unfolding mark_failed
failed_row now k message w r' eq =
    let (x, e) =
      mapped_some (failing now message) (find_remediation k w.remediations) r'
        (sym (find-update k (failing now message) w.remediations (λ _. refl)) ∙ eq) in
    ap (λ u. is_settled u.status) e

module _ {G : Type 0} (service : Service G) (now : ℕ) (queue_up : Bool) where
  -- How a run that returns came to its last steps.
  abbrev Concluded :
      Remediation
      → Option EventRow
      → Option (String × String)
      → Option (String × String × String)
      → World G
      → Type 0
  Concluded r parent place pp w' =
      (t : Tally) × (v : Option Bool) × (w2 : World G) × (w3 : World G) × (validate_all service now
          queue_up place pp w2
        ≡ (w3, some v))
      × (w' ≡ conclude service now queue_up r parent t v w3)

  run_steps_lem :
      (r : Remediation) (parent : Option EventRow) (place : Option (String × String))
      (pp : Option (String × String × String)) (w w' : World G)
      → run_steps service now queue_up r parent place pp w ≡ (w', some tt)
      → Concluded r parent place pp w'
  run_steps_lem r parent place pp w w' eq =
      let (w1, t, _, e1) =
        bind_some
          (λ t. cascade service now queue_up r pp t >>= λ t'.
            validate_all service now queue_up place pp >>= λ v.
            modify (conclude service now queue_up r parent t' v))
          w' tt (remove_file service now queue_up r place) w eq in
      let (w2, t', _, e2) =
        bind_some
          (λ t'. validate_all service now queue_up place pp >>= λ v.
            modify (conclude service now queue_up r parent t' v))
          w' tt (cascade service now queue_up r pp t) w1 e1 in
      let (w3, v, e, e3) =
        bind_some (λ v. modify (conclude service now queue_up r parent t' v)) w' tt
          (validate_all service now queue_up place pp) w2 e2 in
      (t', v, w2, w3, e, ground arith)

  run_steps_settled :
      (r : Remediation) (parent : Option EventRow) (place : Option (String × String))
      (pp : Option (String × String × String)) (w w' : World G) (r' : Remediation)
      → run_steps service now queue_up r parent place pp w ≡ (w', some tt)
      → find_remediation r.id w'.remediations ≡ some r'
      → is_settled r'.status ≡ true
  run_steps_settled r parent place pp w w' r' eq found =
      let (t, v, w2, w3, _, e) = run_steps_lem r parent place pp w w' eq in
      let (x, e') =
        conclude-row service now queue_up r parent t v w3 r'
          (sym (ap (λ u. find_remediation r.id u.remediations) e) ∙ found) in
      ap (λ u. is_settled u.status) e' ∙ final_status-settled v t.failed_count

  run_steps_clean :
      (r : Remediation) (parent : Option EventRow) (d i : String)
      (pp : Option (String × String × String)) (w w' : World G) (r' : Remediation)
      → run_steps service now queue_up r parent (some (d, i)) pp w ≡ (w', some tt)
      → find_remediation r.id w'.remediations ≡ some r'
      → r'.status ≡ completed
      → IsCleanListing (at service now queue_up w'.graph d i)
        × IsCleanParent service now queue_up w'.graph pp
        × (r'.permissions_failed ≡ 0)
  run_steps_clean r parent d i pp w w' r' eq found done =
      let (t, v, w2, w3, ev, e) = run_steps_lem r parent (some (d, i)) pp w w' eq in
      let (x, e') =
        conclude-row service now queue_up r parent t v w3 r'
          (sym (ap (λ u. find_remediation r.id u.remediations) e) ∙ found) in
      let (passed, no_failure) =
        final_status-completed v t.failed_count (sym (ap (λ u. u.status) e') ∙ done) in
      let (same, clean) = validate_all_lem service now queue_up d i pp w2 w3 v ev in
      let same_graph =
        ap (λ u. u.graph) e
        ∙ conclude-graph service now queue_up r parent t v w3
        ∙ ap (λ u. u.graph) same in
      let (clean_file, clean_parent) = clean passed in
      (
        rw same_graph clean_file,
        rw same_graph clean_parent,
        ap (λ u. u.permissions_failed) e' ∙ no_failure,
      )

  executed :
      (r : Remediation) (o : Option EventRow) (e : EventRow) (w : World G)
      → o ≡ some e
      → execute_event service now queue_up r o w ≡ execute_event service now queue_up r (some e) w
  executed r o e w eq = rw eq refl

  execute_settled :
      (r : Remediation) (o : Option EventRow) (w w' : World G) (r' : Remediation)
      → execute_event service now queue_up r o w ≡ (w', some tt)
      → find_remediation r.id w'.remediations ≡ some r'
      → is_settled r'.status ≡ true
  execute_settled r none w w' r' eq found =
      failed_row now r.id "Event not found" w r'
        (ap (λ u. find_remediation r.id u.0.remediations) eq ∙ found)
  execute_settled r (some e) w w' r' eq found =
      run_steps_settled r (parent_of service now queue_up e w.events) (place_of e)
        (cascade_place service now queue_up (parent_of service now queue_up e w.events)) w w' r' eq
        found

  -- If the event is there with both of its ids, a remediation that returns and leaves its row
  -- 'completed' counted no failed removal, and Graph, as it is at the end, lists no broad link on
  -- the item, nor on the parent folder if the cascade took that in.
  pub completed_clean :
      (r : Remediation) (w w' : World G) (e : EventRow) (d i : String) (r' : Remediation)
      → find_event r.event_id w.events ≡ some e
      → place_of e ≡ some (d, i)
      → execute_remediation service now queue_up r w ≡ (w', some tt)
      → find_remediation r.id w'.remediations ≡ some r'
      → r'.status ≡ completed
      → IsCleanListing (at service now queue_up w'.graph d i)
        × IsCleanParent service now queue_up w'.graph
            (cascade_place service now queue_up (parent_of service now queue_up e w.events))
        × (r'.permissions_failed ≡ 0)
  unfolding execute_remediation
  completed_clean r w w' e d i r' there place eq found done =
      let started = record w { audit = w.audit ++ (r.event_id, remediation_started) ∷ [] } in
      let parent = parent_of service now queue_up e w.events in
      let pp = cascade_place service now queue_up parent in
      run_steps_clean r parent d i pp started w' r'
        (ap (λ p. run_steps service now queue_up r parent p pp started) (sym place)
          ∙ sym (executed r (find_event r.event_id w.events) e started there)
          ∙ eq)
        found done

  settle_settled :
      (r : Remediation) (p : World G × Option (Unit {0})) (r' : Remediation)
      → ((w' : World G)
          → p ≡ (w', some tt)
          → find_remediation r.id w'.remediations ≡ some r'
          → is_settled r'.status ≡ true)
      → find_remediation r.id (settle service now queue_up r p).remediations ≡ some r'
      → is_settled r'.status ≡ true
  settle_settled r (w', none) r' returned found =
      failed_row now r.id "Unhandled exception during execution" w' r' found
  settle_settled r (w', some tt) r' returned found = returned w' refl found

  run_claimed_settled :
      (x : Remediation) (w : World G) (r' : Remediation)
      → find_remediation x.id (run_claimed service now queue_up (w, some x)).remediations ≡ some r'
      → is_settled r'.status ≡ true
  unfolding execute_remediation
  run_claimed_settled x w r' found =
      let started = record w { audit = w.audit ++ (x.event_id, remediation_started) ∷ [] } in
      settle_settled x (execute_remediation service now queue_up x w) r'
        (λ w' e there. execute_settled x (find_event x.event_id w.events) started w' r' e there)
        found

  -- The world in which a claimed row is run.
  abbrev claimed_world : Remediation → World G → World G
  claimed_world r w = record w { remediations = update_remediation r.id (claim now) w.remediations }

  claim-some :
      (w : World G) (r : Remediation)
      → oldest_pending w.remediations ≡ some r
      → claim_next now w ≡ (claimed_world r w, some (claim now r))
  unfolding claim_next
  claim-some w r claimed = rw (claim_next, claimed) refl

  -- A turn of the poller that finds a pending row leaves no row of that id unsettled: whether the
  -- execution returns or raises, the row is completed, completed with warnings, or failed.
  pub poll_settles :
      (w : World G) (r r' : Remediation)
      → oldest_pending w.remediations ≡ some r
      → find_remediation r.id (poll service now queue_up w).remediations ≡ some r'
      → is_settled r'.status ≡ true
  unfolding poll
  poll_settles w r r' claimed found = run_claimed_settled (claim now r) (claimed_world r w) r' (
      ap (λ p. find_remediation r.id (run_claimed service now queue_up p).remediations)
        (sym (claim-some w r claimed))
      ∙ found)

abbrev Has : Remediation → List Remediation → Type 0
Has r [] = ⊥
Has r (x ∷ xs) = (r ≡ x) ⊎ Has r xs

-- The row is pending and of the list, and no pending row is older.
abbrev pub IsOldest : List Remediation → Option Remediation → Type 0
IsOldest rs none = All (λ x. is_pending x.status ≡ false) rs
IsOldest rs (some r) =
    (is_pending r.status ≡ true)
    × Has r rs
    × All (λ x. is_pending x.status ≡ true → r.created_at ≤ x.created_at) rs

abbrev pub IsNewer : Remediation → Remediation → Type 0
IsNewer r x = is_pending x.status ≡ true → r.created_at ≤ x.created_at

IsNewer-trans :
    (r s : Remediation) (rs : List Remediation)
    → r.created_at ≤ s.created_at
    → All (IsNewer s) rs
    → All (IsNewer r) rs
IsNewer-trans r s [] h all = tt
IsNewer-trans r s (x ∷ rs) h (hx, all) = (λ p. omega (arith, h, hx p), IsNewer-trans r s rs h all)

none-IsNewer :
    (r : Remediation) (rs : List Remediation)
    → All (λ x. is_pending x.status ≡ false) rs
    → All (IsNewer r) rs
none-IsNewer r [] all = tt
none-IsNewer r (x ∷ rs) (hx, all) = (λ p. ground arith, none-IsNewer r rs all)

older-IsOldest :
    (r : Remediation) (rs : List Remediation) (o : Option Remediation)
    → is_pending r.status ≡ true
    → IsOldest rs o
    → IsOldest (r ∷ rs) (older r o)
older-IsOldest r rs none p all = (p, inl refl, ((λ _. ground arith), none-IsNewer r rs all))
older-IsOldest r rs (some x) p (px, has, all) = elim (Bool-cases (ltb x.created_at r.created_at)) [
  | inl e ↦ rw (older, e) (px, inr has, ((λ _. ground arith), all))
  | inr e ↦
      rw (older, e) (p, inl refl, ((λ _. ground arith), IsNewer-trans r x rs (ground arith) all))
]

other-IsOldest :
    (r : Remediation) (rs : List Remediation) (o : Option Remediation)
    → is_pending r.status ≡ false
    → IsOldest rs o
    → IsOldest (r ∷ rs) o
other-IsOldest r rs none p all = (p, all)
other-IsOldest r rs (some x) p (px, has, all) = (px, inr has, ((λ h. ground arith), all))

-- The row that the poller claims is pending, is in the table, and no pending row is older; it
-- claims none only if none is pending.
pub oldest_pending-IsOldest : (rs : List Remediation) → IsOldest rs (oldest_pending rs)
unfolding oldest_pending
oldest_pending-IsOldest [] = tt
oldest_pending-IsOldest (r ∷ rs) = elim (Bool-cases (is_pending r.status)) [
  | inl e ↦
      rw (oldest_pending, e)
        (older-IsOldest r rs (oldest_pending rs) e (oldest_pending-IsOldest rs))
  | inr e ↦
      rw (oldest_pending, e)
        (other-IsOldest r rs (oldest_pending rs) e (oldest_pending-IsOldest rs))
]
