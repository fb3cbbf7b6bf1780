-- ===== src/Escalation/Sustain.antt =====
-- What the overrides of base_provider.py may take back, and the order of the tier rules.
use share_sentinel.Prelude.{
  String, ◌≡◌, ◌⊎◌, inl, inr, refl, Bool, true, false, not, ◌&&◌, List, [], ◌∷◌, Option, none, some,
  Codes, arith, elem, ◌==◌, if◌then◌else◌,
}
use share_sentinel.Escalation.Tier.{
  Tier, tier_1, tier_2, no_tier, government_id_pii, meets, or_empty, should_escalate,
}
use share_sentinel.Escalation.Overrides.{
  EscalationOverride, no_override, or_else, downgrade, hard_identifiers, ferpa_unlinked,
  is_student_path, is_coursework_name, apply_escalation_overrides,
}
use share_sentinel.Escalation.Members.{meets_intro}

-- The result keeps the tier, giving no reason and no category, or takes it back whole, giving both.
abbrev pub IsKeptOrTaken : Tier → EscalationOverride → Type 0
IsKeptOrTaken t o =
    ((o.adjusted_tier ≡ t) × (o.reason ≡ none) × (o.replacement_category ≡ none))
    ⊎ ((should_escalate t ≡ true)
        × (o.adjusted_tier ≡ no_tier)
        × ((why : String) × (o.reason ≡ some why))
        × ((c : String) × (o.replacement_category ≡ some c)))

-- Three rules in a row.
taken :
    (t : Tier) (a b c : Bool) (category : String)
    → should_escalate t ≡ true
    → IsKeptOrTaken t (
        if a
        then downgrade "ferpa_no_name_linkage" category
        else if b
        then downgrade "coursework_context_no_hard_ids" "coursework"
        else if c
        then downgrade "student_path_coursework_filename" "coursework"
        else no_override t)
taken t true b c category up = inr (up, refl, (_, refl), (_, refl))
taken t false true c category up = inr (up, refl, (_, refl), (_, refl))
taken t false false true category up = inr (up, refl, (_, refl), (_, refl))
taken t false false false category up = inl (refl, refl, refl)

module _ (cats : List String) (context : String) (pii : Option (List String))
    (name site object : Codes) where
  abbrev result : Tier → EscalationOverride
  result t = apply_escalation_overrides t cats context pii name site object

  -- The overrides keep the tier of a report, with no reason and no replacement category, or take it
  -- back to no tier, with both; and only from a report that escalated.
  pub override_shape : (t : Tier) → IsKeptOrTaken t (result t)
  unfolding apply_escalation_overrides should_escalate
  override_shape no_tier = inl (refl, refl, refl)
  override_shape tier_1 =
      taken tier_1 (ferpa_unlinked cats (or_empty pii))
        (context == "coursework" && not (meets (or_empty pii) hard_identifiers))
        ((is_student_path (or_else site object) && is_coursework_name name)
          && not (meets (or_empty pii) hard_identifiers))
        (if context == "coursework" then "coursework" else "none") refl
  override_shape tier_2 =
      taken tier_2 (ferpa_unlinked cats (or_empty pii))
        (context == "coursework" && not (meets (or_empty pii) hard_identifiers))
        ((is_student_path (or_else site object) && is_coursework_name name)
          && not (meets (or_empty pii) hard_identifiers))
        (if context == "coursework" then "coursework" else "none") refl

  kept :
      (t : Tier)
      → meets (or_empty pii) hard_identifiers ≡ true
      → meets (or_empty pii) government_id_pii ≡ true
      → (result t).adjusted_tier ≡ t
  unfolding apply_escalation_overrides ferpa_unlinked
  kept no_tier h g = refl
  kept tier_1 h g = ground arith
  kept tier_2 h g = ground arith

  -- A social security number, a passport or a driver's licence among the kinds of data sustains
  -- the tier against every override.
  pub government_id_sustains :
      (t : Tier) (i : String)
      → elem i ("ssn" ∷ "passport" ∷ "drivers_license" ∷ []) ≡ true
      → elem i (or_empty pii) ≡ true
      → (result t).adjusted_tier ≡ t
  unfolding elem
  government_id_sustains t i listed found =
      kept t (meets_intro i (or_empty pii) hard_identifiers found (ground arith))
        (meets_intro i (or_empty pii) government_id_pii found (ground arith))
