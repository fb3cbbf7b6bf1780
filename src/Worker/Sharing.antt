-- ===== src/Worker/Sharing.antt =====
-- services/worker/app/graph_api/sharing.py: the sharing links among the permissions of an item, and
-- whether one of them is active. A label is made of the scope and the type, and left out.
use share_sentinel.Prelude.{
  ℕ, String, Bool, true, false, Option, none, some, List, [], ◌∷◌, Codes, codes, after, ltb, ◌==◌,
  if◌then◌else◌,
}
use share_sentinel.Graph.{
  Field, missing, null, value, Link, Permission, link_of, lower_or, is_broad,
}

-- An element of the `sharing_links` of an event.
pub record SharingLink : Type 0 where
  pub url : String
  pub scope : Codes
  pub link_type : Codes
  pub permission_id : Option String
  pub expiration_date : Option Codes

-- `link.get("webUrl")`, if it is truthy.
unfoldable pub web_url_of : Link → Option String
web_url_of l = elim l.web_url [
  | missing ↦ none
  | null ↦ none
  | value u ↦ if u == "" then none else some u
]

abbrev is_sentinel : Codes → Bool
is_sentinel text = elim (after (codes "0001-01-01") text) [ none ↦ false | some _ ↦ true ]

unfoldable pub expiration_of : Permission → Option Codes
expiration_of p = elim p.expiration [
  | missing ↦ none
  | null ↦ none
  | value text ↦ if is_sentinel text then none else some text
]

-- A broad link with its address; none if its type is null, which has no `lower`.
unfoldable pub link_entry : Permission → Codes → String → Field Codes → Option SharingLink
link_entry p scope url link_type = elim (lower_or (codes "view") link_type) [
  | none ↦ none
  | some t ↦ some (record {
    url = url;
    scope = scope;
    link_type = t;
    permission_id = p.id;
    expiration_date = expiration_of p;
  })
]

-- What the loop does with a permission.
pub data Taken : Type 0 where
  skipped broken : Taken
  taken : SharingLink → Taken

abbrev pub taken_or_broken : Option SharingLink → Taken
taken_or_broken none = broken
taken_or_broken (some s) = taken s

unfoldable pub take_link : Permission → Link → Taken
unfolding web_url_of link_entry
take_link p l = elim (lower_or [] l.scope) [
  | none ↦ broken
  | some scope ↦
      if is_broad scope
      then elim (web_url_of l) [
        | none ↦ skipped
        | some url ↦ taken_or_broken (link_entry p scope url l.link_type)
      ]
      else skipped
]

unfoldable pub take_permission : Permission → Taken
unfolding take_link
take_permission p = elim (link_of p) [ none ↦ skipped | some l ↦ take_link p l ]

abbrev pub and_then : Taken → Option (List SharingLink) → Option (List SharingLink)
and_then skipped rest = rest
and_then broken rest = none
and_then (taken s) none = none
and_then (taken s) (some rest) = some (s ∷ rest)

-- None stands for the exception.
unfoldable pub extract_all_sharing_links : List Permission → Option (List SharingLink)
unfolding take_permission
extract_all_sharing_links [] = some []
extract_all_sharing_links (p ∷ ps) = and_then (take_permission p) (extract_all_sharing_links ps)

-- `parse` is `datetime.fromisoformat`, with the comparison to an aware time: none if they raise.
module _ (parse : Codes → Option ℕ) (now : ℕ) where
  unfoldable pub is_active : SharingLink → Bool
  is_active s = elim s.expiration_date [
    | none ↦ true
    | some text ↦ elim (parse text) [ none ↦ true | some t ↦ ltb now t ]
  ]

  unfoldable pub any_active : List SharingLink → Bool
  unfolding is_active
  any_active [] = false
  any_active (s ∷ ss) = if is_active s then true else any_active ss

  -- None if the sharing state could not be determined.
  unfoldable pub has_active_sharing_links : Option (List SharingLink) → Bool
  unfolding any_active
  has_active_sharing_links none = true
  has_active_sharing_links (some ss) = any_active ss
