-- ===== src/Base/Bits.antt =====
-- Facts about `&`, `|`, `^` and the shifts on unsigned words, for masks and digests.
use Prim.Native.Nat.{
  ℕ, zero, suc, ◌+◌, ◌-◌, ◌*◌, ◌/◌, ◌%◌, ◌^◌, ◌≤◌, ◌<◌, min, bit_and, digits, bit_and-bitwise,
}
use mathlib.Core.Path.{◌≡◌, refl, sym, ap, ◌∙◌, subst}
use mathlib.Core.Bool.{Bool, true, ◌&&◌}
use native.Mathlib.Nat.{div-div-eq-div-mul, mul_comm, mul_assoc, mod-add-div'}
use native.Mathlib.Omega.{arith}

-- A test of every number below a bound, the bound last.
abbrev pub tested_below : (ℕ → Bool) → ℕ → Bool
tested_below test zero = true
tested_below test (suc bound) = test bound && tested_below test bound

pub tested_below_lem :
    (test : ℕ → Bool) (bound : ℕ)
    → tested_below test bound ≡ true
    → (n : ℕ) → n < bound
    → test n ≡ true
tested_below_lem test zero all n below = absurd (omega arith)
tested_below_lem test (suc bound) all n below =
    let earlier : tested_below test bound ≡ true = ground (arith, all) in
    ground (arith, all, below, tested_below_lem test bound earlier n)

-- `&` is `digits` with the minimum of two digits, and 0 where the first number has none left.
abbrev nothing_left : ℕ → ℕ
nothing_left rest = zero

-- Digits of zero fuel, or of the number 0.
digits_spent : (k b : ℕ) → digits nothing_left min k 0 b ≡ 0
digits_spent zero b = refl
digits_spent (suc k) b = refl

-- Fuel beyond the first number adds nothing.
digits_spare :
    (fuel k a b : ℕ)
    → a ≤ fuel
    → digits nothing_left min (fuel + k) a b ≡ digits nothing_left min fuel a b
digits_spare fuel k zero b enough = digits_spent (fuel + k) b ∙ sym (digits_spent fuel b)
digits_spare zero k (suc a) b enough = absurd (omega arith)
digits_spare (suc fuel) k (suc a) b enough =
    ap (λ (f : ℕ). digits nothing_left min f (suc a) b) (shift fuel k)
    ∙ ap (λ (d : ℕ). d * 2 + min (suc a % 2) (b % 2))
        (digits_spare fuel k (suc a / 2) (b / 2) (omega arith))
  where
    shift : (f k : ℕ) → suc f + k ≡ suc (f + k)
    shift f k = omega arith

digits_low : (fuel a : ℕ) → digits nothing_left min fuel a 0 ≡ 0
digits_low fuel zero = digits_spent fuel 0
digits_low zero (suc a) = refl
digits_low (suc fuel) (suc a) = omega (arith, digits_low fuel (suc a / 2))

bit_and-zero : (a : ℕ) → bit_and a 0 ≡ 0
bit_and-zero a = bit_and-bitwise a 0 ∙ digits_low a a

-- The lowest digit and the rest.
pub bit_and_halves : (a b : ℕ) → bit_and a b ≡ bit_and (a / 2) (b / 2) * 2 + min (a % 2) (b % 2)
bit_and_halves zero b =
    omega
      (arith, bit_and-bitwise 0 b, bit_and-bitwise (0 / 2) (b / 2), digits_spent (0 / 2) (b / 2))
bit_and_halves (suc a) b =
    bit_and-bitwise (suc a) b
    ∙ ap (λ (d : ℕ). d * 2 + min (suc a % 2) (b % 2))
        (ap (λ (f : ℕ). digits nothing_left min f (suc a / 2) (b / 2)) (excess a)
          ∙ digits_spare (suc a / 2) (a - suc a / 2) (suc a / 2) (b / 2) (omega arith)
          ∙ sym (bit_and-bitwise (suc a / 2) (b / 2)))
  where
    excess : (a : ℕ) → a ≡ suc a / 2 + (a - suc a / 2)
    excess a = omega arith

pub power_suc : (n : ℕ) → 2 ^ suc n ≡ 2 ^ n * 2
power_suc n = omega arith

pub power_pos : (n : ℕ) → 0 < 2 ^ n
power_pos zero = omega arith
power_pos (suc n) = omega (arith, power_suc n, power_pos n)

pub power_add : (m n : ℕ) → 2 ^ (m + n) ≡ 2 ^ m * 2 ^ n
power_add zero n = ap (λ (x : ℕ). 2 ^ x) (nothing n) ∙ unit (2 ^ n)
  where
    nothing : (x : ℕ) → 0 + x ≡ x
    nothing x = omega arith

    unit : (x : ℕ) → x ≡ 1 * x
    unit x = omega arith
power_add (suc m) n =
    ap (λ (x : ℕ). 2 ^ x) (next m n)
    ∙ power_suc (m + n)
    ∙ swap (2 ^ (m + n)) (2 ^ m) (2 ^ n) (power_add m n)
    ∙ ap (λ (x : ℕ). x * 2 ^ n) (sym (power_suc m))
  where
    next : (m n : ℕ) → suc m + n ≡ suc (m + n)
    next m n = omega arith

    swap : (x p q : ℕ) → x ≡ p * q → x * 2 ≡ p * 2 * q
    swap x p q e = grind (arith, e)

-- A quotient by a double is a quotient of the half.
half_quotient : (a d : ℕ) → a / (d * 2) ≡ a / 2 / d
half_quotient a d = ap (λ (x : ℕ). a / x) (mul_comm d 2) ∙ sym (div-div-eq-div-mul a 2 d)

double_mod : (a d : ℕ) → 0 < d → a % (d * 2) ≡ (a / 2 % d) * 2 + a % 2
double_mod a d h = omega (
  arith,
  whole a d ∙ ap (λ (x : ℕ). a % (d * 2) + x * (d * 2)) (half_quotient a d),
  mod-add-div' (a / 2) d,
  mul_assoc (a / 2 / d) d 2,
)
  where
    whole : (a d : ℕ) → a ≡ a % (d * 2) + a / (d * 2) * (d * 2)
    whole a d = sym (mod-add-div' a (d * 2))

ones_step : (p : ℕ) → 0 < p → ((p * 2 - 1) / 2 ≡ p - 1) × ((p * 2 - 1) % 2 ≡ 1)
ones_step p h = (omega arith, omega arith)

-- The low n bits.
pub bit_and-ones : (n a : ℕ) → bit_and a (2 ^ n - 1) ≡ a % 2 ^ n
bit_and-ones zero a = omega (arith, bit_and-zero a)
bit_and-ones (suc n) a =
    subst (λ (x : ℕ). bit_and a (x - 1) ≡ a % x) (sym (power_suc n))
      (ones_lem (2 ^ n) a (power_pos n) (bit_and-ones n (a / 2)))
  where
    ones_lem :
        (p a : ℕ)
        → 0 < p
        → bit_and (a / 2) (p - 1) ≡ a / 2 % p
        → bit_and a (p * 2 - 1) ≡ a % (p * 2)
    ones_lem p a h e =
        bit_and_halves a (p * 2 - 1)
        ∙ ap (λ (x : ℕ). bit_and (a / 2) x * 2 + min (a % 2) ((p * 2 - 1) % 2)) (ones_step p h).0
        ∙ omega (arith, e, double_mod a p h, ones_step p h)

bit_and-double : (a n : ℕ) → bit_and a (n * 2) ≡ bit_and (a / 2) n * 2
bit_and-double a n =
    bit_and_halves a (n * 2)
    ∙ ap (λ (x : ℕ). bit_and (a / 2) x * 2 + min (a % 2) (n * 2 % 2)) (half n)
    ∙ omega arith
  where
    half : (n : ℕ) → n * 2 / 2 ≡ n
    half n = omega arith

bit_and_scaled :
    (p m a : ℕ)
    → bit_and (a / 2) (m * p) ≡ bit_and (a / 2 / p) m * p
    → bit_and a (m * (p * 2)) ≡ bit_and (a / (p * 2)) m * (p * 2)
bit_and_scaled p m a e =
    ap (λ (x : ℕ). bit_and a x) (sym (mul_assoc m p 2))
    ∙ bit_and-double a (m * p)
    ∙ ap (λ (x : ℕ). x * 2) e
    ∙ mul_assoc (bit_and (a / 2 / p) m) p 2
    ∙ ap (λ (x : ℕ). bit_and x m * (p * 2)) (sym (half_quotient a p))

-- A mask from the k-th bit on.
pub bit_and-shift : (k m a : ℕ) → bit_and a (m * 2 ^ k) ≡ bit_and (a / 2 ^ k) m * 2 ^ k
bit_and-shift zero m a = unit (a / 1) (m * 1) (omega arith) (omega arith)
  where
    unit : (b n : ℕ) → b ≡ a → n ≡ m → bit_and a n ≡ bit_and b m * 1
    unit b n p q = ap (λ (x : ℕ). bit_and a x) q ∙ ap (λ (x : ℕ). bit_and x m) (sym p) ∙ omega arith
bit_and-shift (suc k) m a =
    subst (λ (x : ℕ). bit_and a (m * x) ≡ bit_and (a / x) m * x) (sym (power_suc k))
      (bit_and_scaled (2 ^ k) m a (bit_and-shift k m (a / 2)))
