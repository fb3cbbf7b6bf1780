-- ===== src/Graph.antt =====
-- Sharing permissions as the Graph API returns them (JSON objects that the services read by
-- `dict.get`), and the tests that enrollment and remediation make on them.
use share_sentinel.Prelude.{
  String, Bool, ◌||◌, Option, none, some, Codes, codes, same_codes, lower, ◌==◌, if◌then◌else◌,
}

-- A field of a JSON object: not there, null, or a value.
pub data Field (A : Type 0) : Type 0 where
  missing null : Field A
  value : A → Field A

-- The `link` facet. Text whose case is folded is kept as code points.
pub record Link : Type 0 where
  pub scope : Field Codes
  pub link_type : Field Codes
  pub web_url : Field String

-- `link = {}` is falsy in Python: it is `value` of no link here.
pub record Permission : Type 0 where
  pub id : Option String
  pub link : Field (Option Link)
  pub expiration : Field Codes

-- `perm.get("link")`, if it is truthy.
unfoldable pub link_of : Permission → Option Link
link_of p = elim p.link [ missing ↦ none | null ↦ none | value l ↦ l ]

-- `x.get(key, default).lower()`: null has no `lower`, and the call raises (`none`).
unfoldable pub lower_or : Codes → Field Codes → Option Codes
lower_or d missing = some (lower d)
lower_or d null = none
lower_or d (value s) = some (lower s)

-- `scope in ("anonymous", "organization")`
unfoldable pub is_broad : Codes → Bool
is_broad scope = same_codes scope (codes "anonymous") || same_codes scope (codes "organization")

-- `perm.get("id")`, if it is truthy.
unfoldable pub id_of : Permission → Option String
id_of p = elim p.id [ none ↦ none | some i ↦ if i == "" then none else some i ]
