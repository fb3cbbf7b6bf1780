-- ===== src/Escalation/Tier.antt =====
-- `compute_escalation_tier` of services/worker/app/ai/base_provider.py, with its taxonomy. Sets of
-- texts are lists; an intersection is the left set filtered.
use share_sentinel.Prelude.{
  ℕ, String, Bool, true, false, not, ◌&&◌, ◌||◌, Option, none, some, List, [], ◌∷◌, ◌++◌, filter,
  any, elem, length, leb, if◌then◌else◌,
}
use share_sentinel.Prelude.Int.{ℤ, pos, leb_ℤ}

pub data Tier : Type 0 where
  tier_1 tier_2 no_tier : Tier

abbrev pub tier_1_ids : List String
tier_1_ids = "pii_government_id" ∷ "pii_financial" ∷ "ferpa" ∷ "hipaa" ∷ "security_credentials" ∷ []

abbrev pub tier_2_ids : List String
tier_2_ids = "hr_personnel" ∷ "legal_confidential" ∷ "sensitive_personal" ∷ []

abbrev pub tier_3_ids : List String
tier_3_ids = "coursework" ∷ "casual_personal" ∷ "none" ∷ "directory_info" ∷ []

abbrev pub conditional_ids : List String
conditional_ids = "pii_contact" ∷ []

abbrev pub all_category_ids : List String
all_category_ids = tier_1_ids ++ (tier_2_ids ++ (tier_3_ids ++ conditional_ids))

abbrev pub government_id_pii : List String
government_id_pii = "ssn" ∷ "passport" ∷ "drivers_license" ∷ "itin" ∷ []

abbrev pub rich_pii : List String
rich_pii =
    "phone" ∷ "home_address" ∷ "age" ∷ "financial_data" ∷ "financial_account" ∷ "salary" ∷ "medical"
    ∷ []

-- `set(a) & set(b)`, as the members of `b` that are in `a`: `b` is written without repetitions.
unfoldable pub inter : List String → List String → List String
inter a b = filter (λ x. elem x a) b

-- `bool(a & b)`
unfoldable pub meets : List String → List String → Bool
meets a b = any (λ x. elem x a) b

-- `bool(a - b)`
unfoldable pub exceeds : List String → List String → Bool
exceeds a b = any (λ x. not (elem x b)) a

-- `pii_types_found or []`
abbrev pub or_empty : Option (List String) → List String
or_empty none = []
or_empty (some l) = l

-- Rule 5, on contact data: by the number of people and of rich kinds of data.
unfoldable pub is_rich_enough : ℤ → ℕ → Bool
is_rich_enough affected_count rich =
    (leb_ℤ (pos 5) affected_count && leb 1 rich) || (leb_ℤ (pos 2) affected_count && leb 2 rich)

unfoldable pub contact_escalates : List String → ℤ → List String → Bool
contact_escalates category_ids affected_count pii_set =
    (elem "pii_contact" category_ids && elem "name" pii_set)
    && is_rich_enough affected_count (length (inter pii_set rich_pii))

unfoldable pub compute_escalation_tier : List String → ℤ → Option (List String) → Tier
compute_escalation_tier category_ids affected_count pii_types_found =
    let pii_set = or_empty pii_types_found in
    if meets category_ids tier_1_ids
    then tier_1
    else if meets category_ids tier_2_ids
    then tier_2
    else if exceeds category_ids all_category_ids
    then tier_2
    else if meets pii_set government_id_pii
    then tier_1
    else if elem "dob" pii_set && elem "name" pii_set
    then tier_2
    else if contact_escalates category_ids affected_count pii_set
    then tier_2
    else no_tier

-- `AnalysisResponse.should_escalate`, from its tier.
unfoldable pub should_escalate : Tier → Bool
should_escalate tier_1 = true
should_escalate tier_2 = true
should_escalate no_tier = false
