-- ===== src/Base/Decimal.antt =====
-- `u32::to_string`, `i32::to_string` and `str::parse` to an unsigned type, over texts, with the round trip.
use Prim.Native.Nat.{ℕ, zero, suc, ◌+◌, ◌-◌, ◌*◌, ◌/◌, ◌%◌, ◌^◌, ◌≤◌, ◌<◌}
use mathlib.Core.Path.{◌≡◌, refl, sym, ap, ◌∙◌, subst}
use mathlib.Core.Logic.{◌≢◌}
use mathlib.Core.Bool.{Bool, true, false, ◌&&◌}
use mathlib.Core.Option.{Option, none, some}
use mathlib.Core.List.{List, [], ◌∷◌, ◌++◌, reverse, reverse-cons, reverse-reverse}
use native.Mathlib.Omega.{arith}
use ibctl.Base.Test.{◌==◌, leb, ltb, if◌then◌else◌}
use ibctl.Base.Lists.{All}
use ibctl.Base.Text.{Text, is_whitespace, trim, trim_start, split}
use ibctl.Base.Int.{ℤ, pos, negsuc}

abbrev pub is_digit : ℕ → Bool
is_digit c = leb 48 c && leb c 57

-- The digits of a number; one unit of fuel for each.
unfoldable pub digits : ℕ → ℕ → Text
digits zero n = (48 + n % 10) ∷ []
digits (suc fuel) n =
    let front = digits fuel (n / 10) in
    if ltb n 10 then (48 + n) ∷ [] else front ++ ((48 + n % 10) ∷ [])

unfoldable pub decimal : ℕ → Text
unfolding digits
decimal n = digits n n

unfoldable pub show_int : ℤ → Text
unfolding decimal digits
show_int (pos n) = decimal n
show_int (negsuc n) = 45 ∷ decimal (suc n)

-- The loop of `parse` to an unsigned type from the digits read so far: an error on overflow.
unfoldable pub parse_digits : ℕ → ℕ → Text → Option ℕ
parse_digits limit acc [] = some acc
parse_digits limit acc (c ∷ cs) =
    let rest = parse_digits limit (acc * 10 + (c - 48)) cs in
    if is_digit c && ltb (acc * 10 + (c - 48)) limit then rest else none

-- One leading plus is accepted, and at least one digit is required.
unfoldable pub parse_below : ℕ → Text → Option ℕ
unfolding parse_digits
parse_below limit [] = none
parse_below limit (c ∷ []) = parse_digits limit 0 (c ∷ [])
parse_below limit (c ∷ d ∷ ds) =
    if c == 43 then parse_digits limit 0 (d ∷ ds) else parse_digits limit 0 (c ∷ d ∷ ds)

-- `parse::<u32>`, and `parse::<u64>` or `parse::<usize>`
unfoldable pub parse_u32 : Text → Option ℕ
unfolding parse_below parse_digits
parse_u32 = parse_below (2 ^ 32)

unfoldable pub parse_u64 : Text → Option ℕ
unfolding parse_below parse_digits
parse_u64 = parse_below (2 ^ 64)

-- The value of a text of digits, without a bound.
abbrev value : ℕ → Text → ℕ
value acc [] = acc
value acc (c ∷ cs) = value (acc * 10 + (c - 48)) cs

value-append : (acc : ℕ) (s t : Text) → value acc (s ++ t) ≡ value (value acc s) t
value-append acc [] t = refl
value-append acc (c ∷ cs) t = value-append (acc * 10 + (c - 48)) cs t

value-digits : (fuel n : ℕ) → n ≤ fuel → value 0 (digits fuel n) ≡ n
unfolding digits
value-digits zero n h = omega arith
value-digits (suc fuel) n h =
    ground (
      arith,
      value-digits fuel (n / 10),
      value-append 0 (digits fuel (n / 10)) ((48 + n % 10) ∷ []),
    )

pub decimal_injective : (m n : ℕ) → decimal m ≡ decimal n → m ≡ n
unfolding decimal
decimal_injective m n e =
    sym (value-digits m m (omega arith)) ∙ ap (value 0) e ∙ value-digits n n (omega arith)

pub All-append {ℓ κ} :
    {A : Type ℓ} (P : A → Type κ) (s t : List A) → All P s → All P t → All P (s ++ t)
All-append P [] t p q = q
All-append P (x ∷ xs) t (p, ps) q = (p, All-append P xs t ps q)

abbrev pub IsDigit : ℕ → Type 0
IsDigit c = is_digit c ≡ true

digits-IsDigit : (fuel n : ℕ) → n ≤ fuel → All IsDigit (digits fuel n)
unfolding digits
digits-IsDigit zero n h = (ground arith, tt)
digits-IsDigit (suc fuel) n h = ground (
  arith,
  digits-IsDigit fuel (n / 10),
  All-append IsDigit (digits fuel (n / 10)) ((48 + n % 10) ∷ []),
)

-- A text of digits is cut in one way by what is no digit.
pub cut_unique :
    (s s' t t' : Text) (c : ℕ)
    → All IsDigit s
    → All IsDigit s'
    → is_digit c ≡ false
    → s ++ (c ∷ t) ≡ s' ++ (c ∷ t')
    → (s ≡ s') × (t ≡ t')
cut_unique [] [] t t' c p q n e = (refl, ground arith)
cut_unique [] (d ∷ s') t t' c p (q, qs) n e = ground arith
cut_unique (d ∷ s) [] t t' c (p, ps) q n e = ground arith
cut_unique (d ∷ s) (d' ∷ s') t t' c (p, ps) (q, qs) n e =
    ground (arith, cut_unique s s' t t' c ps qs n)

pub decimal-IsDigit : (n : ℕ) → All IsDigit (decimal n)
unfolding decimal
decimal-IsDigit n = digits-IsDigit n n (omega arith)

-- No white space, nothing to trim.
abbrev pub IsSolid : ℕ → Type 0
IsSolid c = is_whitespace c ≡ false

pub All-reverse {ℓ κ} : {A : Type ℓ} (P : A → Type κ) (s : List A) → All P s → All P (reverse s)
All-reverse P [] p = p
All-reverse P (x ∷ xs) (p, ps) =
    subst (All P) (sym (reverse-cons x xs))
      (All-append P (reverse xs) (x ∷ []) (All-reverse P xs ps) (p, tt))

trim_start-IsSolid : (s : Text) → All IsSolid s → trim_start s ≡ s
unfolding trim_start
trim_start-IsSolid [] p = refl
trim_start-IsSolid (c ∷ cs) (p, ps) = ground arith

pub trim-IsSolid : (s : Text) → All IsSolid s → trim s ≡ s
unfolding trim
trim-IsSolid s p =
    ap (λ u. reverse (trim_start (reverse u))) (trim_start-IsSolid s p)
    ∙ ap reverse (trim_start-IsSolid (reverse s) (All-reverse IsSolid s p))
    ∙ reverse-reverse s

pub IsDigit-IsSolid : (s : Text) → All IsDigit s → All IsSolid s
unfolding is_whitespace
IsDigit-IsSolid [] p = tt
IsDigit-IsSolid (c ∷ cs) (p, ps) = (ground arith, IsDigit-IsSolid cs ps)

pub show_int-IsSolid : (n : ℤ) → All IsSolid (show_int n)
unfolding show_int is_whitespace
show_int-IsSolid (pos n) = IsDigit-IsSolid (decimal n) (decimal-IsDigit n)
show_int-IsSolid (negsuc n) = (refl, IsDigit-IsSolid (decimal (suc n)) (decimal-IsDigit (suc n)))

value_grows : (acc : ℕ) (s : Text) → acc ≤ value acc s
value_grows acc [] = omega arith
value_grows acc (c ∷ cs) = omega (arith, value_grows (acc * 10 + (c - 48)) cs)

parse_digits-value :
    (limit acc : ℕ) (s : Text)
    → All IsDigit s
    → value acc s < limit
    → parse_digits limit acc s ≡ some (value acc s)
unfolding parse_digits
parse_digits-value limit acc [] p b = refl
parse_digits-value limit acc (c ∷ cs) (p, ps) b = ground (
  arith,
  parse_digits-value limit (acc * 10 + (c - 48)) cs ps b,
  value_grows (acc * 10 + (c - 48)) cs,
)

parse_below-digits :
    (limit : ℕ) (s : Text) → All IsDigit s → s ≢ [] → parse_below limit s ≡ parse_digits limit 0 s
unfolding parse_below
parse_below-digits limit [] p n = absurd (n refl)
parse_below-digits limit (c ∷ []) p n = refl
parse_below-digits limit (c ∷ d ∷ ds) (p, ps) n = ground arith

digits-nonempty : (fuel n : ℕ) → digits fuel n ≢ []
unfolding digits
digits-nonempty zero n = λ e. ground arith
digits-nonempty (suc fuel) n =
    elim (digits fuel (n / 10))
      as (λ (t : Text). (if ltb n 10 then ((48 + n) ∷ []) else t ++ ((48 + n % 10) ∷ [])) ≢ []) [
        | [] ↦ λ e. ground arith
        | d ∷ ds ↦ λ e. ground arith
      ]

-- What is printed is read back.
pub parse_below-decimal : (limit n : ℕ) → n < limit → parse_below limit (decimal n) ≡ some n
unfolding decimal
parse_below-decimal limit n b =
    parse_below-digits limit (digits n n) (digits-IsDigit n n (omega arith)) (digits-nonempty n n)
    ∙ parse_digits-value limit 0 (digits n n) (digits-IsDigit n n (omega arith))
        (omega (arith, value-digits n n (omega arith)))
    ∙ ap some (value-digits n n (omega arith))

pub parse_u32-decimal : (n : ℕ) → n < 2 ^ 32 → parse_u32 (decimal n) ≡ some n
unfolding parse_u32
parse_u32-decimal n b = parse_below-decimal (2 ^ 32) n b

pub decimal-nonempty : (n : ℕ) → decimal n ≢ []
unfolding decimal
decimal-nonempty n = digits-nonempty n n

pub split-digits :
    (sep : ℕ) (s : Text) → All IsDigit s → is_digit sep ≡ false → split sep s ≡ s ∷ []
unfolding split
split-digits sep [] p n = refl
split-digits sep (c ∷ cs) (p, ps) n = ground (arith, split-digits sep cs ps n)

pub split-append :
    (sep : ℕ) (s t : Text)
    → All IsDigit s
    → is_digit sep ≡ false
    → split sep (s ++ (sep ∷ t)) ≡ s ∷ split sep t
unfolding split
split-append sep [] t p n = ground arith
split-append sep (c ∷ cs) t (p, ps) n = ground (arith, split-append sep cs t ps n)
