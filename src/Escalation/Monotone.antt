-- ===== src/Escalation/Monotone.antt =====
-- Which reports escalate (`compute_escalation_tier`): exactly, and that more evidence never
-- escalates less.
use share_sentinel.Prelude.{
  ℕ, ◌≤◌, String, ◌≡◌, ◌↔◌, inl, inr, refl, Bool, true, false, ◌&&◌, Bool-cases, List, ◌++◌, some,
  arith, elem, elem-append,
}
use share_sentinel.Prelude.Int.{ℤ, ◌≤ℤ◌}
use share_sentinel.Escalation.Tier.{
  tier_1_ids, tier_2_ids, tier_3_ids, conditional_ids, all_category_ids, government_id_pii,
  rich_pii, meets, exceeds, is_rich_enough, contact_escalates, compute_escalation_tier,
  should_escalate,
}
use share_sentinel.Escalation.Members.{
  Includes, meets_intro, not_meets, not_exceeds, meets-none, exceeds-none, meets_mono, exceeds_mono,
  inter_mono,
}

-- The categories that a rule names are not those of tier 3 or conditional.
apart_1 : meets (tier_3_ids ++ conditional_ids) tier_1_ids ≡ false
unfolding meets elem
apart_1 = refl

apart_2 : meets (tier_3_ids ++ conditional_ids) tier_2_ids ≡ false
unfolding meets elem
apart_2 = refl

meets_apart :
    (cats ids : List String)
    → meets (tier_3_ids ++ conditional_ids) ids ≡ false
    → Includes cats (tier_3_ids ++ conditional_ids)
    → meets cats ids ≡ false
meets_apart cats ids h g =
    meets-none cats ids
      (λ x m. ground (arith, not_meets x (tier_3_ids ++ conditional_ids) ids h m, g x))

-- Categories of tier 3 or conditional pass the rules on categories, and are left by a rewriting.
pub plain_rules :
    (cats : List String)
    → Includes cats (tier_3_ids ++ conditional_ids)
    → (meets cats tier_1_ids ≡ false)
      × (meets cats tier_2_ids ≡ false)
      × (exceeds cats all_category_ids ≡ false)
plain_rules cats c = (
  meets_apart cats tier_1_ids apart_1 c,
  meets_apart cats tier_2_ids apart_2 c,
  exceeds-none cats all_category_ids (λ x m. ground (
    arith,
    c x m,
    elem-append x tier_1_ids (tier_2_ids ++ (tier_3_ids ++ conditional_ids)),
    elem-append x tier_2_ids (tier_3_ids ++ conditional_ids),
  )),
)

pub plain_category :
    (x : String)
    → elem x (tier_3_ids ++ conditional_ids) ≡ true
    → elem x (tier_1_ids ++ tier_2_ids) ≡ false
plain_category x h = ground (
  arith,
  elem-append x tier_1_ids tier_2_ids,
  not_meets x (tier_3_ids ++ conditional_ids) tier_1_ids apart_1,
  not_meets x (tier_3_ids ++ conditional_ids) tier_2_ids apart_2,
)

module _ (cats : List String) (n : ℤ) (pii : List String) where
  -- The test of each rule, and the tier that it decides.
  abbrev Quiet : Type 0
  Quiet =
      (meets cats tier_1_ids ≡ false)
      × (meets cats tier_2_ids ≡ false)
      × (exceeds cats all_category_ids ≡ false)
      × (meets pii government_id_pii ≡ false)
      × ((elem "dob" pii && elem "name" pii) ≡ false)
      × (contact_escalates cats n pii ≡ false)

  Quiet-escalates : should_escalate (compute_escalation_tier cats n (some pii)) ≡ false → Quiet
  unfolding compute_escalation_tier should_escalate
  Quiet-escalates h = ground arith

  not_Quiet : should_escalate (compute_escalation_tier cats n (some pii)) ≡ true → ¬ Quiet
  unfolding compute_escalation_tier should_escalate
  not_Quiet h q = ground arith

  -- The same in terms of the report.
  abbrev Reported : Type 0
  Reported =
      ((c : String) → elem c cats ≡ true → elem c (tier_3_ids ++ conditional_ids) ≡ true)
      × ((i : String) → elem i government_id_pii ≡ true → elem i pii ≡ false)
      × ¬ ((elem "dob" pii ≡ true) × (elem "name" pii ≡ true))
      × (contact_escalates cats n pii ≡ false)

  -- With no kind of data missing from the argument, a report does not escalate exactly when every
  -- category is of tier 3 or conditional, no government id is found, date of birth and name do
  -- not come together, and the rule on contact data does not apply.
  pub not_escalates_iff : (should_escalate (compute_escalation_tier cats n (some pii)) ≡ false) ↔ (
      ((c : String) → elem c cats ≡ true → elem c (tier_3_ids ++ conditional_ids) ≡ true)
      × ((i : String) → elem i government_id_pii ≡ true → elem i pii ≡ false)
      × ¬ ((elem "dob" pii ≡ true) × (elem "name" pii ≡ true))
      × (contact_escalates cats n pii ≡ false))
  not_escalates_iff = (λ h. listed (Quiet-escalates h), λ h. unlisted h)
    where
      listed : Quiet → Reported
      listed q = (
        λ c m. ground (
          arith,
          q,
          not_exceeds c cats all_category_ids q.2 m,
          meets_intro c cats tier_1_ids m,
          meets_intro c cats tier_2_ids m,
          elem-append c tier_1_ids (tier_2_ids ++ (tier_3_ids ++ conditional_ids)),
          elem-append c tier_2_ids (tier_3_ids ++ conditional_ids),
        ),
        λ i m. not_meets i pii government_id_pii q.3 m,
        ground arith,
        q.5,
      )

      unlisted : Reported → should_escalate (compute_escalation_tier cats n (some pii)) ≡ false
      unlisted (c, i, d, k) =
          elim (Bool-cases (should_escalate (compute_escalation_tier cats n (some pii)))) [
            | inr down ↦ down
            | inl up ↦
                let rules = plain_rules cats c in
                absurd (
                  not_Quiet up (
                    rules.0,
                    rules.1,
                    rules.2,
                    meets-none pii government_id_pii i,
                    ground arith,
                    k,
                  ))
          ]

rich_mono :
    (n n' : ℤ) (r r' : ℕ)
    → n ≤ℤ n'
    → r ≤ r'
    → is_rich_enough n r ≡ true
    → is_rich_enough n' r' ≡ true
unfolding is_rich_enough
rich_mono n n' r r' h g q = ground arith

contact_mono :
    (cats cats' : List String) (n n' : ℤ) (pii pii' : List String)
    → Includes cats cats'
    → n ≤ℤ n'
    → Includes pii pii'
    → contact_escalates cats n pii ≡ true
    → contact_escalates cats' n' pii' ≡ true
unfolding contact_escalates
contact_mono cats cats' n n' pii pii' c le p h =
    ground
      (arith, c "pii_contact", p "name", rich_mono n n' _ _ le (inter_mono pii pii' rich_pii p))

both_mono :
    (a b : String) (l l' : List String)
    → Includes l l'
    → (elem a l && elem b l) ≡ true
    → (elem a l' && elem b l') ≡ true
both_mono a b l l' h g = ground (arith, h a, h b)

-- If a report escalates, so does every report with at least its categories, its kinds of personal
-- data and its number of people.
pub escalates_mono :
    (cats cats' : List String) (n n' : ℤ) (pii pii' : List String)
    → Includes cats cats'
    → n ≤ℤ n'
    → Includes pii pii'
    → should_escalate (compute_escalation_tier cats n (some pii)) ≡ true
    → should_escalate (compute_escalation_tier cats' n' (some pii')) ≡ true
escalates_mono cats cats' n n' pii pii' c le p h =
    elim (Bool-cases (should_escalate (compute_escalation_tier cats' n' (some pii')))) [
      | inl up ↦ up
      | inr down ↦ absurd (not_Quiet cats n pii h (quiet (Quiet-escalates cats' n' pii' down)))
    ]
  where
    below : (x y : Bool) → (x ≡ true → y ≡ true) → y ≡ false → x ≡ false
    below x y f g = ground arith

    quiet : Quiet cats' n' pii' → Quiet cats n pii
    quiet q = (
      below _ _ (meets_mono cats cats' tier_1_ids c) q.0,
      below _ _ (meets_mono cats cats' tier_2_ids c) q.1,
      below _ _ (exceeds_mono cats cats' all_category_ids c) q.2,
      below _ _ (meets_mono pii pii' government_id_pii p) q.3,
      below _ _ (both_mono "dob" "name" pii pii' p) q.4,
      below _ _ (contact_mono cats cats' n n' pii pii' c le p) q.5,
    )
