-- ===== src/Escalation/Tests.antt =====
-- Concrete reports through the tier rules and the overrides.
use share_sentinel.Prelude.{
  ◌≡◌, ◌↔◌, refl, String, true, false, List, [], ◌∷◌, ◌++◌, some, Codes, codes, arith, elem,
}
use share_sentinel.Prelude.Int.{pos}
use share_sentinel.Escalation.Tier.{
  tier_1, tier_3_ids, conditional_ids, government_id_pii, meets, contact_escalates,
  compute_escalation_tier, should_escalate,
}
use share_sentinel.Escalation.Overrides.{apply_escalation_overrides}
use share_sentinel.Escalation.Members.{Includes}
use share_sentinel.Escalation.Monotone.{not_escalates_iff, escalates_mono}
use share_sentinel.Escalation.Sustain.{government_id_sustains}

abbrev contacts : List String
contacts = "pii_contact" ∷ []

abbrev names : List String
names = "name" ∷ []

abbrev names_and_births : List String
names_and_births = "name" ∷ "dob" ∷ []

not_escalates_iff_example :
    (should_escalate (compute_escalation_tier contacts (pos 3) (some names)) ≡ false) ↔ (
      ((c : String) → elem c contacts ≡ true → elem c (tier_3_ids ++ conditional_ids) ≡ true)
      × ((i : String) → elem i government_id_pii ≡ true → elem i names ≡ false)
      × ¬ ((elem "dob" names ≡ true) × (elem "name" names ≡ true))
      × (contact_escalates contacts (pos 3) names ≡ false))
not_escalates_iff_example = not_escalates_iff contacts (pos 3) names

names-Includes : Includes names names_and_births
unfolding elem
names-Includes c h = ground arith

escalates_mono_example :
    should_escalate (compute_escalation_tier ("ferpa" ∷ []) (pos 9) (some names_and_births)) ≡ true
unfolding compute_escalation_tier should_escalate meets elem
escalates_mono_example =
    escalates_mono ("ferpa" ∷ []) ("ferpa" ∷ []) (pos 3) (pos 9) names names_and_births (λ _ h. h)
      (ground arith) names-Includes refl

abbrev homework : Codes
homework = codes "homework_3.docx"

government_id_sustains_example :
    (apply_escalation_overrides tier_1
      ("ferpa" ∷ [])
      "coursework"
      (some ("ssn" ∷ []))
      homework
      []
      []).adjusted_tier
    ≡ tier_1
unfolding elem
government_id_sustains_example =
    government_id_sustains ("ferpa" ∷ []) "coursework" (some ("ssn" ∷ [])) homework [] [] tier_1
      "ssn" refl refl
