-- ===== src/Escalation/Members.antt =====
-- Lemmas on the sets of texts that the tiers are computed from.
use share_sentinel.Prelude.{
  ◌≤◌, String, ◌≡◌, refl, Bool, true, false, not, List, [], ◌∷◌, arith, any, elem, filter, length,
  eq_iff, eq_refl,
}
use share_sentinel.Escalation.Tier.{inter, meets, exceeds}

-- Every member of the left set is one of the right.
abbrev pub Includes : List String → List String → Type 0
Includes a b = (x : String) → elem x a ≡ true → elem x b ≡ true

any_of_elem :
    (p : String → Bool) (x : String) (l : List String)
    → elem x l ≡ true
    → p x ≡ true
    → any p l ≡ true
unfolding elem
any_of_elem p x [] h q = cc
any_of_elem p x (y ∷ l) h q = ground (arith, eq_iff x y, any_of_elem p x l)

pub meets_intro :
    (x : String) (a b : List String) → elem x a ≡ true → elem x b ≡ true → meets a b ≡ true
unfolding meets
meets_intro x a b h g = any_of_elem (λ y. elem y a) x b g h

elem_of_not_any :
    (p : String → Bool) (x : String) (l : List String)
    → any p l ≡ false
    → elem x l ≡ true
    → p x ≡ false
unfolding elem
elem_of_not_any p x [] h q = cc
elem_of_not_any p x (y ∷ l) h q = ground (arith, eq_iff x y, elem_of_not_any p x l)

pub not_meets :
    (x : String) (a b : List String) → meets a b ≡ false → elem x b ≡ true → elem x a ≡ false
unfolding meets
not_meets x a b h g = elem_of_not_any (λ y. elem y a) x b h g

pub not_exceeds :
    (x : String) (a b : List String) → exceeds a b ≡ false → elem x a ≡ true → elem x b ≡ true
unfolding exceeds
not_exceeds x a b h g = ground (arith, elem_of_not_any (λ y. not (elem y b)) x a h g)

any_mono :
    (p q : String → Bool) (l : List String)
    → ((x : String) → p x ≡ true → q x ≡ true)
    → any p l ≡ true
    → any q l ≡ true
any_mono p q [] h g = cc
any_mono p q (x ∷ l) h g = ground (arith, h x, any_mono p q l h)

pub meets_mono : (a a' b : List String) → Includes a a' → meets a b ≡ true → meets a' b ≡ true
unfolding meets
meets_mono a a' b h g = any_mono _ _ b (λ x. h x) g

any-Includes :
    (p : String → Bool) (a a' : List String) → Includes a a' → any p a ≡ true → any p a' ≡ true
unfolding elem
any-Includes p [] a' h g = cc
any-Includes p (x ∷ a) a' h g = ground (
  arith,
  any_of_elem p x a' (h x (ground (arith, eq_iff x x))),
  any-Includes p a a' (λ y m. h y (ground arith)),
)

pub exceeds_mono : (a a' b : List String) → Includes a a' → exceeds a b ≡ true → exceeds a' b ≡ true
unfolding exceeds
exceeds_mono a a' b h g = any-Includes _ a a' h g

filter_mono :
    (p q : String → Bool) (l : List String)
    → ((x : String) → p x ≡ true → q x ≡ true)
    → length (filter p l) ≤ length (filter q l)
filter_mono p q [] h = omega arith
filter_mono p q (x ∷ l) h = ground (arith, h x, filter_mono p q l h)

pub inter_mono : (a a' b : List String) → Includes a a' → length (inter a b) ≤ length (inter a' b)
unfolding inter
inter_mono a a' b h = filter_mono _ _ b (λ x. h x)

any-none_of :
    (p : String → Bool) (l : List String)
    → ((x : String) → elem x l ≡ true → p x ≡ false)
    → any p l ≡ false
unfolding elem
any-none_of p [] h = refl
any-none_of p (x ∷ l) h =
    ground (arith, eq_refl x, h x, any-none_of p l (λ y m. h y (ground arith)))

pub meets-none :
    (a b : List String) → ((x : String) → elem x b ≡ true → elem x a ≡ false) → meets a b ≡ false
unfolding meets
meets-none a b h = any-none_of _ b h

pub exceeds-none : (a b : List String) → Includes a b → exceeds a b ≡ false
unfolding exceeds
exceeds-none a b h = any-none_of _ a (λ x m. ground (arith, h x m))
