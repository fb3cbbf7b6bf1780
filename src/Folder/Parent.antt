-- ===== src/Folder/Parent.antt =====
-- The verdict on a folder against those on its files.
use share_sentinel.Prelude.{
  ◌≡◌, refl, ◌∙◌, ap, String, Bool, false, not, ◌&&◌, ◌||◌, List, [], ◌∷◌, ◌++◌, inl, inr,
  Bool-cases, arith, any, elem, elem-append,
}
use share_sentinel.Prelude.Int.{pos}
use share_sentinel.Escalation.Tier.{
  tier_1_ids, tier_2_ids, all_category_ids, should_escalate, compute_escalation_tier, meets,
  exceeds, contact_escalates, government_id_pii,
}
use share_sentinel.Pipeline.SecondLook.{escalation_tier, escalates}
use share_sentinel.Folder.Children.{ChildResult}
use share_sentinel.Folder.Share.{is_flagged, aggregated_categories, system_response}

-- The categories escalate by themselves, whatever kinds of data and however many people they are about.
unfoldable pub category_escalates : List String → Bool
category_escalates cs = meets cs tier_1_ids || (meets cs tier_2_ids || exceeds cs all_category_ids)

any-append : (p : String → Bool) (a b : List String) → any p (a ++ b) ≡ (any p a || any p b)
any-append p [] b = refl
any-append p (x ∷ a) b = ground (arith, any-append p a b)

meets-append : (a a' b : List String) → meets (a ++ a') b ≡ (meets a b || meets a' b)
unfolding meets
meets-append a a' [] = refl
meets-append a a' (x ∷ b) = ground (arith, meets-append a a' b, elem-append x a a')

category_escalates-append :
    (a b : List String)
    → category_escalates (a ++ b) ≡ (category_escalates a || category_escalates b)
unfolding category_escalates exceeds
category_escalates-append a b = ground (
  arith,
  meets-append a b tier_1_ids,
  meets-append a b tier_2_ids,
  any-append (λ x. not (elem x all_category_ids)) a b,
)

-- A file is flagged, by a category.
abbrev pub flagged_by_category : ChildResult → Bool
flagged_by_category r = is_flagged r.escalation_tier && category_escalates r.categories

none_escalates : category_escalates [] ≡ false
unfolding category_escalates meets exceeds elem
none_escalates = refl

category_escalates-aggregated :
    (rs : List ChildResult)
    → category_escalates (aggregated_categories rs) ≡ any flagged_by_category rs
unfolding aggregated_categories
category_escalates-aggregated [] = none_escalates
category_escalates-aggregated (r ∷ rs) = elim (Bool-cases (is_flagged r.escalation_tier)) [
  | inl up ↦ rw up (
      category_escalates-append r.categories (aggregated_categories rs)
      ∙ ap (λ b. category_escalates r.categories || b) (category_escalates-aggregated rs))
  | inr down ↦ rw down (category_escalates-aggregated rs)
]

no_contact : (cs : List String) → contact_escalates cs (pos 0) [] ≡ false
unfolding contact_escalates elem
no_contact cs = ground arith

no_government_id : meets [] government_id_pii ≡ false
unfolding meets elem
no_government_id = refl

escalates-system_response :
    (cs : List String) → escalates (system_response cs) ≡ category_escalates cs
unfolding escalates escalation_tier category_escalates compute_escalation_tier elem should_escalate
escalates-system_response cs = ground (arith, no_contact cs, no_government_id)

-- The verdict on an enumerated folder escalates exactly if some file in it is flagged and has a category
-- of tier 1 or 2 or outside of the taxonomy: files flagged only by the kinds of data in them, or by
-- the people they are about, leave the folder's verdict without a tier.
pub folder_escalates :
    (rs : List ChildResult)
    → escalates (system_response (aggregated_categories rs)) ≡ any flagged_by_category rs
folder_escalates rs =
    escalates-system_response (aggregated_categories rs) ∙ category_escalates-aggregated rs
