-- ===== src/Prelude/Words.antt =====
-- JavaScript strings as lists of UTF-16 code units, with the methods of `String.prototype` that the
-- program calls: `===`, `length`, `startsWith`, `indexOf`, `toLowerCase`.
use Prim.Native.Char.{code}
use Prim.Native.Nat.{ℕ, suc, ◌+◌}
use Prim.Native.String.{String}
use mathlib.Core.Path.{◌≡◌, refl}
use mathlib.Core.Bool.{Bool, true, false, ◌&&◌, ◌||◌}
use mathlib.Core.Logic.{◌↔◌}
use mathlib.Core.Option.{Option, none, some}
use mathlib.Core.List.{List, [], ◌∷◌, ◌++◌}
use native.Mathlib.Omega.{arith}
use operator_registry_contro.Prelude.Tests.{leb, eqb, if◌then◌else◌}

abbrev pub Text : Type 0
Text = List ℕ

-- The code units of a literal.
abbrev pub text : String → Text
text String.[] = []
text (String.◌∷◌ c s) = code c ∷ text s

unfoldable pub text_eq : Text → Text → Bool
text_eq [] [] = true
text_eq (a ∷ s) (b ∷ t) = eqb a b && text_eq s t
text_eq _ _ = false

infix 50 ◌==◌
abbrev pub ◌==◌ : Text → Text → Bool
s == t = text_eq s t

pub ==_iff : (s t : Text) → ((s == t) ≡ true) ↔ (s ≡ t)
unfolding text_eq
==_iff [] [] = ground arith
==_iff [] (b ∷ t) = ground arith
==_iff (a ∷ s) [] = ground arith
==_iff (a ∷ s) (b ∷ t) = ground (arith, ==_iff s t)

pub ==_refl : (s : Text) → (s == s) ≡ true
==_refl s = (==_iff s s).1 refl

-- `list.includes(s)`
unfoldable pub includes : List Text → Text → Bool
includes [] s = false
includes (t ∷ ts) s = t == s || includes ts s

pub includes-append :
    (xs ys : List Text) (s : Text) → includes (xs ++ ys) s ≡ (includes xs s || includes ys s)
unfolding includes
includes-append [] ys s = refl
includes-append (x ∷ xs) ys s = ground (arith, includes-append xs ys s)

abbrev pub is_empty : Text → Bool
is_empty [] = true
is_empty (c ∷ s) = false

-- `s.startsWith(p)`
unfoldable pub starts_with : Text → Text → Bool
starts_with [] s = true
starts_with (c ∷ p) [] = false
starts_with (c ∷ p) (d ∷ s) = eqb c d && starts_with p s

-- `s.indexOf(p)`: the first place where `p` stands, `none` for -1.
unfoldable pub index_of : Text → Text → Option ℕ
index_of p [] = if starts_with p [] then some 0 else none
index_of p (c ∷ s) =
    if starts_with p (c ∷ s)
    then some 0
    else elim (index_of p s) [ none ↦ none | some i ↦ some (suc i) ]

-- `toLowerCase` on one code unit. Only A-Z and U+0130, whose lower case has two units, are mapped.
-- The other capitals go to units outside of @, a, n, o and the colon, and stay one unit each.
abbrev pub lower_unit : ℕ → List ℕ
lower_unit c =
    if eqb c 0x130
    then 0x69 ∷ 0x307 ∷ []
    else if leb b'A' c && leb c b'Z'
    then (c + 32) ∷ []
    else c ∷ []

unfoldable pub lower : Text → Text
lower [] = []
lower (c ∷ s) = lower_unit c ++ lower s

abbrev pub onto_first : ℕ → List Text → List Text
onto_first c [] = (c ∷ []) ∷ []
onto_first c (t ∷ ts) = (c ∷ t) ∷ ts

-- `s.split(c)` for one unit
unfoldable pub split : ℕ → Text → List Text
split c [] = [] ∷ []
split c (d ∷ s) = if eqb d c then [] ∷ split c s else onto_first d (split c s)

-- `s.includes(p)` of a text
unfoldable pub contains : Text → Text → Bool
unfolding index_of
contains p s = elim (index_of p s) [ none ↦ false | some i ↦ true ]
