-- ===== src/Remediation/Closing.antt =====
-- What the last steps of `execute_remediation` leave in the row, and when a run gets there.
use share_sentinel.Prelude.{
  ℕ, String, Bool, true, false, ◌&&◌, Option, none, some, List, [], ◌∷◌, ◌≡◌, refl, sym, ap, ◌∙◌,
  zero, suc, ◌≢◌, arith,
}
use mathlib.Core.Option
use share_sentinel.Remediation.World.{
  Listing, listed, list_error, Service, Remediation, EventRow, World, find_remediation,
  update_remediation, M, pure, ◌>>=◌,
}
use share_sentinel.Remediation.Remove.{Tally, violations, counted, validated, validate_removal}
use share_sentinel.Remediation.Execute.{
  validate_parent, final_status, conclude, validate_all, close_row,
}

pub find-update :
    (k : ℕ) (f : Remediation → Remediation) (rs : List Remediation)
    → ((r : Remediation) → (f r).id ≡ r.id)
    → find_remediation k (update_remediation k f rs) ≡ Option.map f (find_remediation k rs)
unfolding find_remediation update_remediation
find-update k f [] keeps = refl
find-update k f (r ∷ rs) keeps = ground (arith, find-update k f rs keeps, keeps r)

pub mapped_some :
    {A B : Type 0} (f : A → B) (o : Option A) (y : B)
    → Option.map f o ≡ some y
    → (x : A) × (y ≡ f x)
mapped_some f none y eq = ground arith
mapped_some f (some x) y eq = (x, ground arith)

module _ {G A B : Type 0} (f : A → M G B) (w' : World G) (b : B) where
  abbrev Bound : World G × Option A → Type 0
  Bound p = (w1 : World G) × (a : A) × (p ≡ (w1, some a)) × (f a w1 ≡ (w', some b))

  abbrev continued : World G × Option A → World G × Option B
  continued (w1, none) = (w1, none)
  continued (w1, some a) = f a w1

  bound : (p : World G × Option A) → continued p ≡ (w', some b) → Bound p
  bound (w1, none) eq = ground arith
  bound (w1, some a) eq = (w1, a, refl, eq)

  -- A sequence that returns has two parts that return.
  pub bind_some : (m : M G A) (w : World G) → (m >>= f) w ≡ (w', some b) → Bound (m w)
  bind_some m w eq = bound (m w) eq

-- The last listing has no broad link.
abbrev pub IsCleanListing : Listing → Type 0
IsCleanListing (list_error e) = ⊥
IsCleanListing (listed ps) = violations ps ≡ some 0

counted_lem :
    {G : Type 0} (n : Option ℕ) (w w' : World G) (ok : Bool)
    → counted n w ≡ (w', some ok)
    → (w' ≡ w) × (ok ≡ true → n ≡ some 0)
counted_lem none w w' ok eq = (ground arith, λ h. ground arith)
counted_lem (some zero) w w' ok eq = (ground arith, λ h. ground arith)
counted_lem (some (suc n)) w w' ok eq = (ground arith, λ h. ground arith)

validated_lem :
    {G : Type 0} (l : Listing) (w w' : World G) (ok : Bool)
    → validated l w ≡ (w', some ok)
    → (w' ≡ w) × (ok ≡ true → IsCleanListing l)
validated_lem (list_error e) w w' ok eq = (ground arith, λ h. ground arith)
validated_lem (listed ps) w w' ok eq = counted_lem (violations ps) w w' ok eq

module _ {G : Type 0} (service : Service G) (now : ℕ) (queue_up : Bool) where
  pub conclude-graph :
      (r : Remediation) (parent : Option EventRow) (t : Tally) (v : Option Bool) (w : World G)
      → (conclude service now queue_up r parent t v w).graph ≡ w.graph
  unfolding conclude close_row
  conclude-graph r none t v w = ground arith
  conclude-graph r (some p) t v w = ground arith

  abbrev pub closing : Tally → Option Bool → Remediation → Remediation
  closing t v x = record x {
    status = final_status v t.failed_count;
    completed_at = some now;
    permissions_removed = t.removed_count;
    permissions_failed = t.failed_count;
    validation_passed = v;
  }

  pub conclude-remediations :
      (r : Remediation) (parent : Option EventRow) (t : Tally) (v : Option Bool) (w : World G)
      → (conclude service now queue_up r parent t v w).remediations
        ≡ update_remediation r.id (closing t v) w.remediations
  unfolding conclude close_row
  conclude-remediations r none t v w = ground arith
  conclude-remediations r (some p) t v w = ground arith

  pub conclude-row :
      (r : Remediation) (parent : Option EventRow) (t : Tally) (v : Option Bool) (w : World G)
      (r' : Remediation)
      → find_remediation r.id (conclude service now queue_up r parent t v w).remediations ≡ some r'
      → (x : Remediation) × (r' ≡ closing t v x)
  conclude-row r parent t v w r' eq =
      mapped_some (closing t v) (find_remediation r.id w.remediations) r' (
        sym (find-update r.id (closing t v) w.remediations (λ _. refl))
        ∙ sym (ap (find_remediation r.id) (conclude-remediations r parent t v w))
        ∙ eq)

  abbrev pub at : G → String → String → Listing
  at g d i = service.get_sharing_permissions g d i

  pub validate_removal_lem :
      (d i : String) (w0 w w' : World G) (ok : Bool)
      → w ≡ w0
      → validate_removal service d i w ≡ (w', some ok)
      → (w' ≡ w0) × (ok ≡ true → IsCleanListing (at w0.graph d i))
  unfolding validate_removal
  validate_removal_lem d i w0 w w' ok e0 eq =
      let (e, clean) = validated_lem (at w.graph d i) w w' ok eq in rw (sym e0) (e, clean)

  both_left :
      (a b : Bool) (w w' : World G) (v : Option Bool)
      → pure (some (a && b)) w ≡ (w', some v)
      → v ≢ some false
      → a ≡ true
  both_left a b w w' v eq h = ground arith

  both_right :
      (a b : Bool) (w w' : World G) (v : Option Bool)
      → pure (some (a && b)) w ≡ (w', some v)
      → v ≢ some false
      → b ≡ true
  both_right a b w w' v eq h = ground arith

  -- The parent's listing is clean, if there is a parent to validate.
  abbrev pub IsCleanParent : G → Option (String × String × String) → Type 0
  IsCleanParent g none = Unit
  IsCleanParent g (some (k, d, i)) = IsCleanListing (at g d i)

  pub validate_all_lem :
      (d i : String) (pp : Option (String × String × String)) (w w' : World G) (v : Option Bool)
      → validate_all service now queue_up (some (d, i)) pp w ≡ (w', some v)
      → (w' ≡ w) × (v ≢ some false → IsCleanListing (at w.graph d i) × IsCleanParent w.graph pp)
  unfolding validate_all
  validate_all_lem d i none w w' v eq =
      let (w1, ok, e, e') =
        bind_some (λ ok. validate_parent service now queue_up ok none) w' v
          (validate_removal service d i) w eq in
      let (e1, clean) = validate_removal_lem d i w w w1 ok refl e in
      (ground arith, λ h. (clean (ground arith), tt))
  validate_all_lem d i (some (k, d', i')) w w' v eq =
      let (w1, ok, e, e') =
        bind_some (λ ok. validate_parent service now queue_up ok (some (k, d', i'))) w' v
          (validate_removal service d i) w eq in
      let (e1, clean) = validate_removal_lem d i w w w1 ok refl e in
      let (w2, ok', e2, e3) =
        bind_some (λ ok'. pure (some (ok && ok'))) w' v (validate_removal service d' i') w1 e' in
      let (e4, clean') = validate_removal_lem d' i' w w1 w2 ok' e1 e2 in
      (
        ground arith,
        λ h. (clean (both_left ok ok' w2 w' v e3 h), clean' (both_right ok ok' w2 w' v e3 h)),
      )
