-- ===== src/Escalation/Overrides.antt =====
-- `apply_escalation_overrides` of services/worker/app/ai/base_provider.py, with its two patterns.
-- The patterns ignore case; texts are code points, and case is that of ASCII.
use share_sentinel.Prelude.{
  ℕ, String, Bool, true, false, not, ◌&&◌, ◌||◌, Option, none, some, List, [], ◌∷◌, Codes, codes,
  lower, after, search_from, is_space, is_digit, beq, leb, elem, filter, ◌==◌, if◌then◌else◌,
}
use share_sentinel.Escalation.Tier.{
  Tier, no_tier, tier_1_ids, tier_2_ids, government_id_pii, meets, or_empty,
}

abbrev pub hard_identifiers : List String
hard_identifiers = "ssn" ∷ "passport" ∷ "drivers_license" ∷ "financial_account" ∷ []

-- A test of what stands behind a literal.
unfoldable pub behind : String → (Codes → Bool) → Codes → Bool
unfolding after
behind literal p s = elim (after (codes literal) s) [ none ↦ false | some rest ↦ p rest ]

-- `\s*`, and then the test.
unfoldable pub skip_space : (Codes → Bool) → Codes → Bool
unfolding is_space
skip_space p [] = p []
skip_space p (c ∷ s) = let rest = skip_space p s in if is_space c then rest else p (c ∷ s)

abbrev starts_digit : Codes → Bool
starts_digit [] = false
starts_digit (c ∷ _) = is_digit c

abbrev is_word : ℕ → Bool
is_word c = is_digit c || (leb b'a' c && leb c b'z') || (leb b'A' c && leb c b'Z') || beq c b'_'

-- `\b` behind a letter.
abbrev ends_word : Codes → Bool
ends_word [] = true
ends_word (c ∷ _) = not (is_word c)

abbrev always : Codes → Bool
always _ = true

-- `_COURSEWORK_FILENAME_RE` at a position of the lowered name.
unfoldable pub coursework_at : Codes → Bool
unfolding behind skip_space is_digit
coursework_at s =
    behind "group" always s
    || behind "project" always s
    || behind "prodject" always s
    || behind "unit" (skip_space starts_digit) s
    || behind "mini" (skip_space (behind "case" always)) s
    || behind "case" (skip_space (behind "study" always)) s
    || behind "homework" always s
    || behind "lab" ends_word s
    || behind "assignment" always s
    || behind "exercise" always s
    || behind "worksheet" always s
    || behind "quiz" always s
    || behind "exam" ends_word s
    || behind "midterm" always s
    || behind "final" ends_word s

unfoldable pub is_coursework_name : Codes → Bool
unfolding coursework_at lower search_from
is_coursework_name name = search_from coursework_at (lower name)

abbrev starts_underscore : Codes → Bool
starts_underscore [] = false
starts_underscore (d ∷ _) = beq d b'_'

-- `\d+_`
unfoldable pub digits_underscore : Codes → Bool
unfolding is_digit
digits_underscore [] = false
digits_underscore (c ∷ s) = is_digit c && (digits_underscore s || starts_underscore s)

-- `_STUDENT_ONEDRIVE_RE`
unfoldable pub is_student_path : Codes → Bool
unfolding behind digits_underscore lower search_from
is_student_path path =
    search_from (behind "-my.sharepoint.com/personal/" digits_underscore) (lower path)

pub record EscalationOverride : Type 0 where
  pub adjusted_tier : Tier
  pub reason : Option String
  pub replacement_category : Option String

abbrev pub no_override : Tier → EscalationOverride
no_override t = record { adjusted_tier = t; reason = none; replacement_category = none }

abbrev pub downgrade : String → String → EscalationOverride
downgrade why category = record {
  adjusted_tier = no_tier;
  reason = some why;
  replacement_category = some category;
}

-- `TIER_1 - {"ferpa"}`
abbrev other_tier_1_ids : List String
other_tier_1_ids = filter (λ x. not (x == "ferpa")) tier_1_ids

-- Rule 1: the guard around its return.
unfoldable pub ferpa_unlinked : List String → List String → Bool
ferpa_unlinked category_ids pii_set =
    (elem "ferpa" category_ids && not (elem "name" pii_set))
    && (not (meets category_ids other_tier_1_ids || meets category_ids tier_2_ids)
        && (not (meets pii_set government_id_pii)
            && not (elem "dob" pii_set && elem "name" pii_set)))

-- `site_url or object_id or ""`
abbrev pub or_else : Codes → Codes → Codes
or_else [] b = b
or_else a _ = a

unfoldable pub apply_escalation_overrides :
    Tier → List String → String → Option (List String) → Codes → Codes → Codes → EscalationOverride
apply_escalation_overrides no_tier _ _ _ _ _ _ = no_override no_tier
apply_escalation_overrides base_tier category_ids context pii_types_found file_name site_url
      object_id =
    let pii_set = or_empty pii_types_found in
    if ferpa_unlinked category_ids pii_set
    then downgrade "ferpa_no_name_linkage"
        (if context == "coursework" then "coursework" else "none")
    else if context == "coursework" && not (meets pii_set hard_identifiers)
    then downgrade "coursework_context_no_hard_ids" "coursework"
    else if (is_student_path (or_else site_url object_id) && is_coursework_name file_name)
        && not (meets pii_set hard_identifiers)
    then downgrade "student_path_coursework_filename" "coursework"
    else no_override base_tier
