-- ===== src/Worker/Gate.antt =====
-- When the gate on the active sharing links of an item lets it through to the analysis.
use share_sentinel.Prelude.{
  ℕ, ◌≡◌, refl, String, Bool, true, false, ◌&&◌, Option, none, some, List, [], ◌∷◌, Codes, any,
  arith, ltb,
}
use mathlib.Core.Path.{subst}
use share_sentinel.Graph.{Permission, link_of, lower_or, is_broad}
use share_sentinel.Worker.Sharing.{
  SharingLink, web_url_of, expiration_of, link_entry, Taken, skipped, broken, taken, and_then,
  take_link, take_permission, extract_all_sharing_links, is_active, any_active,
  has_active_sharing_links,
}

abbrev has_text : Option String → Bool
has_text none = false
has_text (some _) = true

abbrev is_broad_scope : Option Codes → Bool
is_broad_scope none = false
is_broad_scope (some s) = is_broad s

module _ (parse : Codes → Option ℕ) (now : ℕ) where
  abbrev pub is_unexpired : Option Codes → Bool
  is_unexpired none = true
  is_unexpired (some text) = elim (parse text) [ none ↦ true | some t ↦ ltb now t ]

  -- A permission that keeps the gate open: its link is broad, has an address, and has not expired.
  unfoldable pub keeps_open : Permission → Bool
  keeps_open p = elim (link_of p) [
    | none ↦ false
    | some l ↦
        is_broad_scope (lower_or [] l.scope)
        && has_text (web_url_of l)
        && is_unexpired (expiration_of p)
  ]

  abbrev taken_is_active : Taken → Bool
  taken_is_active (taken s) = is_active parse now s
  taken_is_active _ = false

  -- A permission that is taken is active exactly if it keeps the gate open, and one that is skipped
  -- does not.
  abbrev Agrees : Permission → Taken → Type 0
  Agrees p broken = Unit
  Agrees p t = taken_is_active t ≡ keeps_open p

  take_permission_lem : (p : Permission) → Agrees p (take_permission p)
  unfolding take_permission take_link keeps_open is_active link_entry
  take_permission_lem p = ground arith

  abbrev AllAgree : List Permission → Option (List SharingLink) → Type 0
  AllAgree ps none = Unit
  AllAgree ps (some ss) = any_active parse now ss ≡ any keeps_open ps

  and_then_lem :
      (p : Permission) (ps : List Permission) (t : Taken) (o : Option (List SharingLink))
      → Agrees p t
      → AllAgree ps o
      → AllAgree (p ∷ ps) (and_then t o)
  unfolding any_active
  and_then_lem p ps skipped none h hs = tt
  and_then_lem p ps skipped (some ss) h hs = ground (arith, h, hs)
  and_then_lem p ps broken o h hs = tt
  and_then_lem p ps (taken s) none h hs = tt
  and_then_lem p ps (taken s) (some ss) h hs = ground (arith, h, hs)

  extract-AllAgree : (ps : List Permission) → AllAgree ps (extract_all_sharing_links ps)
  unfolding extract_all_sharing_links any_active
  extract-AllAgree [] = refl
  extract-AllAgree (p ∷ ps) =
      and_then_lem p ps (take_permission p) (extract_all_sharing_links ps) (take_permission_lem p)
        (extract-AllAgree ps)

  -- If the links of the permissions could be read, the gate lets the item through exactly if some
  -- permission has a broad link with an address that has not expired.
  pub has_active-extract :
      (ps : List Permission) (ss : List SharingLink)
      → extract_all_sharing_links ps ≡ some ss
      → has_active_sharing_links parse now (some ss) ≡ any keeps_open ps
  unfolding has_active_sharing_links
  has_active-extract ps ss h = subst (AllAgree ps) h (extract-AllAgree ps)
