-- ===== src/Prelude/Text.antt =====
-- Texts: compared whole as native strings, walked as lists of code points. Case folding and
-- white space are those of ASCII.
use Prim.Native.Nat.{ℕ, ◌+◌}
use Prim.Native.Char.{code}
use Prim.Native.String.{String}
use mathlib.Core.Path.{◌≡◌, refl}
use mathlib.Core.Bool.{Bool, true, false, ◌&&◌, ◌||◌}
use mathlib.Core.Logic.{◌↔◌}
use mathlib.Core.List.{List, [], ◌∷◌, ◌++◌, map}
use mathlib.Core.Option.{Option, none, some}
use native.Mathlib.Omega.{arith}
use share_sentinel.Prelude.Tests.{leb, beq, if◌then◌else◌}
pub use text.Mathlib.Text.{◌==◌}
pub use text.Mathlib.TextEquality.{eq_iff}
pub use text.Mathlib.TextPositions.{eq_refl}

-- A text as its code points.
abbrev pub Codes : Type 0
Codes = List ℕ

abbrev pub codes : String → Codes
codes String.[] = []
codes (String.◌∷◌ c s) = code c ∷ codes s

unfoldable pub same_codes : Codes → Codes → Bool
same_codes [] [] = true
same_codes (a ∷ s) (b ∷ t) = beq a b && same_codes s t
same_codes _ _ = false

pub same_codes_iff : (s t : Codes) → (same_codes s t ≡ true) ↔ (s ≡ t)
unfolding same_codes
same_codes_iff [] [] = ground arith
same_codes_iff [] (b ∷ t) = ground arith
same_codes_iff (a ∷ s) [] = ground arith
same_codes_iff (a ∷ s) (b ∷ t) = ground (arith, same_codes_iff s t)

-- `str.lower`
unfoldable pub lower_code : ℕ → ℕ
lower_code c = if leb b'A' c && leb c b'Z' then c + 32 else c

unfoldable pub lower : Codes → Codes
unfolding lower_code
lower = map lower_code

unfoldable pub is_space : ℕ → Bool
is_space c = beq c 32 || (leb 9 c && leb c 13) || (leb 28 c && leb c 31)

unfoldable pub is_digit : ℕ → Bool
is_digit c = leb b'0' c && leb c b'9'

-- The rest of a text behind a literal at its start.
unfoldable pub after : Codes → Codes → Option Codes
after [] s = some s
after (k ∷ ks) [] = none
after (k ∷ ks) (c ∷ s) = let rest = after ks s in if beq k c then rest else none

-- A test that holds at some position of a text, the end included (`re.search`).
unfoldable pub search_from : (Codes → Bool) → Codes → Bool
search_from p [] = p []
search_from p (c ∷ s) = p (c ∷ s) || search_from p s

-- `needle in text`
unfoldable pub contains : Codes → Codes → Bool
unfolding search_from after
contains needle = search_from (λ s. elim (after needle s) [ none ↦ false | some _ ↦ true ])

-- A set of texts as the list of its members: membership is all that the code asks of one.
unfoldable pub elem : String → List String → Bool
elem x [] = false
elem x (y ∷ ys) = (x == y) || elem x ys

pub elem-append : (x : String) (a b : List String) → elem x (a ++ b) ≡ (elem x a || elem x b)
unfolding elem
elem-append x [] b = refl
elem-append x (y ∷ a) b = ground (arith, elem-append x a b)
