-- ===== src/Base/Text.antt =====
-- Rust strings as lists of Unicode scalar values, and what the program uses of `str`.
use Prim.Native.Nat.{ℕ}
use Prim.Native.Char.{code}
use Prim.Native.String.{String}
use mathlib.Core.Path.{◌≡◌, refl}
use mathlib.Core.Bool.{Bool, true, false, ◌&&◌, ◌||◌}
use mathlib.Core.List.{List, [], ◌∷◌, ◌++◌, reverse}
use native.Mathlib.Omega.{arith}
use ibctl.Base.Test.{◌==◌, leb, if◌then◌else◌}

abbrev pub Text : Type 0
Text = List ℕ

abbrev pub codes : String → Text
codes String.[] = []
codes (String.◌∷◌ c s) = code c ∷ codes s

-- `==` on `str`
unfoldable pub text_eq : Text → Text → Bool
text_eq [] [] = true
text_eq [] (d ∷ ds) = false
text_eq (c ∷ cs) [] = false
text_eq (c ∷ cs) (d ∷ ds) = c == d && text_eq cs ds

pub text_eq→eq : (s t : Text) → text_eq s t ≡ true → s ≡ t
unfolding text_eq
text_eq→eq [] [] h = refl
text_eq→eq [] (d ∷ ds) h = ground arith
text_eq→eq (c ∷ cs) [] h = ground arith
text_eq→eq (c ∷ cs) (d ∷ ds) h = ground (arith, text_eq→eq cs ds)

pub text_eq_self : (s : Text) → text_eq s s ≡ true
unfolding text_eq
text_eq_self [] = refl
text_eq_self (c ∷ cs) = ground (arith, text_eq_self cs)

pub text_eq-append : (s t u : Text) → text_eq (s ++ t) (s ++ u) ≡ text_eq t u
unfolding text_eq
text_eq-append [] t u = refl
text_eq-append (c ∷ cs) t u = ground (arith, text_eq-append cs t u)

-- `char::is_whitespace`: the scalar values with the property White_Space.
unfoldable pub is_whitespace : ℕ → Bool
is_whitespace c =
    (leb 9 c && leb c 13)
    || c == 32
    || c == 133
    || c == 160
    || c == 5760
    || (leb 8192 c && leb c 8202)
    || c == 8232
    || c == 8233
    || c == 8239
    || c == 8287
    || c == 12288

unfoldable pub trim_start : Text → Text
trim_start [] = []
trim_start (c ∷ cs) = if is_whitespace c then trim_start cs else c ∷ cs

-- `str::trim`
unfoldable pub trim : Text → Text
unfolding trim_start is_whitespace
trim s = reverse (trim_start (reverse (trim_start s)))

abbrev push_head : ℕ → List Text → List Text
push_head c [] = (c ∷ []) ∷ []
push_head c (part ∷ parts) = (c ∷ part) ∷ parts

-- `split(sep).collect()`: one part more than there are separators
unfoldable pub split : ℕ → Text → List Text
split sep [] = [] ∷ []
split sep (c ∷ cs) = let rest = split sep cs in if c == sep then [] ∷ rest else push_head c rest
