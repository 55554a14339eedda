-- ===== src/Prelude/Text.antt =====
-- Texts. A Go string is a native `String`; the walks below go by its constructors.
use Prim.Native.Char.{code}
use Prim.Native.String.{String, [], ◌∷◌}
use mathlib.Core.Path.{◌≡◌, refl, ap}
use mathlib.Core.Bool.{Bool, true, false}
use native.Mathlib.Omega.{arith}
use payrouter.Prelude.Tests.{eqb, ltb, if◌then◌else◌}

infixl 65 ◌+++◌
-- Go's `+` on strings. By clauses, so that it computes on a literal followed by a variable.
abbrev pub ◌+++◌ : String → String → String
[] +++ t = t
(c ∷ s) +++ t = c ∷ (s +++ t)

pub append-nil : (s : String) → s +++ [] ≡ s
append-nil [] = refl
append-nil (c ∷ s) = ap (◌∷◌ c) (append-nil s)

pub append_assoc : (s t u : String) → s +++ t +++ u ≡ s +++ (t +++ u)
append_assoc [] t u = refl
append_assoc (c ∷ s) t u = ap (◌∷◌ c) (append_assoc s t u)

abbrev pub is_empty : String → Bool
is_empty [] = true
is_empty (c ∷ s) = false

-- strings.HasPrefix
abbrev pub has_prefix : String → String → Bool
has_prefix s [] = true
has_prefix [] (d ∷ p) = false
has_prefix (c ∷ s) (d ∷ p) = if eqb (code c) (code d) then has_prefix s p else false

-- The order of `sort.Strings`.
unfoldable pub leb_str : String → String → Bool
leb_str [] t = true
leb_str (c ∷ s) [] = false
leb_str (c ∷ s) (d ∷ t) =
    let rest = leb_str s t in
    if ltb (code c) (code d) then true else if eqb (code c) (code d) then rest else false

pub leb_str_refl : (s : String) → leb_str s s ≡ true
unfolding leb_str
leb_str_refl [] = refl
leb_str_refl (c ∷ s) = ground (arith, leb_str_refl s)

pub leb_str_total : (s t : String) → leb_str s t ≡ false → leb_str t s ≡ true
unfolding leb_str
leb_str_total [] t h = cc
leb_str_total (c ∷ s) [] h = refl
leb_str_total (c ∷ s) (d ∷ t) h = ground (arith, leb_str_total s t)

pub leb_str_trans : (s t u : String) → leb_str s t ≡ true → leb_str t u ≡ true → leb_str s u ≡ true
unfolding leb_str
leb_str_trans [] t u h k = refl
leb_str_trans (c ∷ s) [] u h k = cc
leb_str_trans (c ∷ s) (d ∷ t) [] h k = cc
leb_str_trans (c ∷ s) (d ∷ t) (e ∷ u) h k = ground (arith, leb_str_trans s t u)

pub is_empty_lem : (s : String) → is_empty s ≡ true → s ≡ ""
is_empty_lem [] h = refl
is_empty_lem (c ∷ s) h = absurd (ground arith)
