-- ===== src/Base/Words.antt =====
-- What the program uses of `str` beyond `trim`: words, splits, searches and case.
use Prim.Native.Nat.{ℕ, zero, suc, ◌+◌, ◌-◌}
use mathlib.Core.Bool.{Bool, true, false, ◌&&◌, ◌||◌}
use mathlib.Core.Option.{Option, none, some}
use mathlib.Core.List.{List, [], ◌∷◌, ◌++◌, reverse}
use ibctl.Base.Test.{◌==◌, leb, if◌then◌else◌}
use ibctl.Base.Text.{Text, is_whitespace}

-- `char::is_control`: the category Cc.
abbrev pub is_control : ℕ → Bool
is_control c = leb c 31 || (leb 127 c && leb c 159)

abbrev pub ascii_lower : ℕ → ℕ
ascii_lower c = if leb b'A' c && leb c b'Z' then c + 32 else c

abbrev pub ascii_upper : ℕ → ℕ
ascii_upper c = if leb b'a' c && leb c b'z' then c - 32 else c

-- `str::to_uppercase` and `str::to_lowercase`, which read Unicode's tables.
pub record Casing : Type 0 where
  pub to_uppercase : Text → Text
  pub to_lowercase : Text → Text

-- A word in progress is put before the words that follow.
abbrev pub end_word : Text → List Text → List Text
end_word [] words = words
end_word (c ∷ cs) words = reverse (c ∷ cs) ∷ words

-- The loop of `split_whitespace`, with the word read so far, its last letter first.
unfoldable pub words_from : Text → Text → List Text
words_from word [] = end_word word []
words_from word (c ∷ cs) = elim (is_whitespace c) [
  | true ↦ end_word word (words_from [] cs)
  | false ↦ words_from (c ∷ word) cs
]

-- `split_whitespace().collect()`
unfoldable pub split_whitespace : Text → List Text
unfolding words_from is_whitespace
split_whitespace = words_from []

-- `split` on the characters that the test holds for
unfoldable pub split_on : (ℕ → Bool) → Text → List Text
split_on p [] = [] ∷ []
split_on p (c ∷ cs) =
    let rest = split_on p cs in
    if p c then [] ∷ rest else elim rest [ [] ↦ (c ∷ []) ∷ [] | part ∷ parts ↦ (c ∷ part) ∷ parts ]

-- `join(sep)`
abbrev pub join : Text → List Text → Text
join sep [] = []
join sep (s ∷ []) = s
join sep (s ∷ t ∷ ts) = s ++ (sep ++ join sep (t ∷ ts))

-- `split_once(sep)`: what is before the first one and after it.
unfoldable pub split_once : ℕ → Text → Option (Text × Text)
split_once sep [] = none
split_once sep (c ∷ cs) =
    let rest = split_once sep cs in
    if c == sep
    then some ([], cs)
    else elim rest [ none ↦ none | some (before, after) ↦ some (c ∷ before, after) ]

-- `splitn(n, sep).collect()`
unfoldable pub splitn : ℕ → ℕ → Text → List Text
unfolding split_once
splitn zero sep s = []
splitn (suc zero) sep s = s ∷ []
splitn (suc (suc n)) sep s = elim (split_once sep s) [
  | none ↦ s ∷ []
  | some (before, after) ↦ before ∷ splitn (suc n) sep after
]

abbrev drop_while : (ℕ → Bool) → Text → Text
drop_while p [] = []
drop_while p (c ∷ cs) = if p c then drop_while p cs else c ∷ cs

-- `trim_matches`
unfoldable pub trim_matches : (ℕ → Bool) → Text → Text
trim_matches p s = reverse (drop_while p (reverse (drop_while p s)))

unfoldable pub starts_with : Text → Text → Bool
starts_with s [] = true
starts_with [] (d ∷ ds) = false
starts_with (c ∷ cs) (d ∷ ds) = c == d && starts_with cs ds

-- `contains`
unfoldable pub contains : Text → Text → Bool
unfolding starts_with
contains [] needle = starts_with [] needle
contains (c ∷ cs) needle = starts_with (c ∷ cs) needle || contains cs needle

abbrev pub contains_any : Text → List Text → Bool
contains_any s [] = false
contains_any s (needle ∷ needles) = contains s needle || contains_any s needles
