-- ===== src/Totp/Value.antt =====
-- `decode_base32` of ibctl/src/totp.rs as arithmetic: the bytes are the leading bits of the letters.
use Prim.Native.Nat.{bit_and, bit_or}
use ibctl.Base.{
  ℕ, zero, suc, ◌+◌, ◌-◌, ◌*◌, ◌/◌, ◌%◌, ◌^◌, ◌≡◌, ◌<◌, refl, Bool, true, List, [], ◌∷◌, ◌++◌,
  length, length-append, ◌==◌, ==_iff, arith,
}
use ibctl.Base.Bits.{tested_below, tested_below_lem, bit_and-ones}
use ibctl.Totp.Base32.{Decoder, push_letter}

-- A list of digits as a number, the first digit the highest.
abbrev pub numeral : ℕ → ℕ → List ℕ → ℕ
numeral base n [] = n
numeral base n (d ∷ ds) = numeral base (n * base + d) ds

numeral-append :
    (base n : ℕ) (ds : List ℕ) (d : ℕ)
    → numeral base n (ds ++ (d ∷ [])) ≡ numeral base n ds * base + d
numeral-append base n [] d = refl
numeral-append base n (e ∷ es) d = numeral-append base (n * base + e) es d

abbrev joined_row : ℕ → ℕ → Bool
joined_row bits value = bit_or (bits * 32 % 2 ^ 32) value == bits * 32 + value

abbrev joined_rows : ℕ → Bool
joined_rows bits = tested_below (joined_row bits) 32

joined_table : tested_below joined_rows 128 ≡ true
joined_table = refl

joined :
    (bits value : ℕ)
    → bits < 128
    → value < 32
    → bit_or (bits * 32 % 2 ^ 32) value ≡ bits * 32 + value
joined bits value b v = (==_iff _ _).0 (
    tested_below_lem (joined_row bits) 32 (tested_below_lem joined_rows 128 joined_table bits b)
      value v)

-- What the bytes and the rest are, of a number of letters and their number.
abbrev pub Holds : ℕ → ℕ → Decoder → Type 0
Holds count n d =
    (d.bit_count < 8)
    × (d.bits < 2 ^ d.bit_count)
    × (8 * length d.out + d.bit_count ≡ 5 * count)
    × (numeral 256 0 d.out * 2 ^ d.bit_count + d.bits ≡ n)

low_byte : (a : ℕ) → bit_and a 0xff ≡ a % 256
low_byte a = bit_and-ones 8 a

-- Three bits or more are left over with the letter's five: a byte is made, and k bits remain.
abbrev Byte : ℕ → ℕ → ℕ → List ℕ → ℕ → Type 0
Byte k n value out whole =
    (bit_and whole (2 ^ k - 1) < 2 ^ k)
    × (8 * length (out ++ (bit_and (whole / 2 ^ k) 0xff ∷ [])) ≡ 8 * length out + 8)
    × (numeral 256 0 (out ++ (bit_and (whole / 2 ^ k) 0xff ∷ [])) * 2 ^ k
          + bit_and whole (2 ^ k - 1)
        ≡ n * 32 + value)

byte_lem :
    (k n value bits whole : ℕ) (out : List ℕ)
    → k < 5
    → value < 32
    → bits < 2 ^ (k + 3)
    → whole ≡ bits * 32 + value
    → numeral 256 0 out * 2 ^ (k + 3) + bits ≡ n
    → Byte k n value out whole
byte_lem zero n value bits whole out few v small e total = omega (
  arith,
  e,
  total,
  v,
  small,
  bit_and-ones 0 whole,
  low_byte (whole / 2 ^ 0),
  numeral-append 256 0 out (bit_and (whole / 2 ^ 0) 0xff),
  length-append out (bit_and (whole / 2 ^ 0) 0xff ∷ []),
)
byte_lem (suc zero) n value bits whole out few v small e total = omega (
  arith,
  e,
  total,
  v,
  small,
  bit_and-ones 1 whole,
  low_byte (whole / 2 ^ 1),
  numeral-append 256 0 out (bit_and (whole / 2 ^ 1) 0xff),
  length-append out (bit_and (whole / 2 ^ 1) 0xff ∷ []),
)
byte_lem (suc (suc zero)) n value bits whole out few v small e total = omega (
  arith,
  e,
  total,
  v,
  small,
  bit_and-ones 2 whole,
  low_byte (whole / 2 ^ 2),
  numeral-append 256 0 out (bit_and (whole / 2 ^ 2) 0xff),
  length-append out (bit_and (whole / 2 ^ 2) 0xff ∷ []),
)
byte_lem (suc (suc (suc zero))) n value bits whole out few v small e total = omega (
  arith,
  e,
  total,
  v,
  small,
  bit_and-ones 3 whole,
  low_byte (whole / 2 ^ 3),
  numeral-append 256 0 out (bit_and (whole / 2 ^ 3) 0xff),
  length-append out (bit_and (whole / 2 ^ 3) 0xff ∷ []),
)
byte_lem (suc (suc (suc (suc zero)))) n value bits whole out few v small e total = omega (
  arith,
  e,
  total,
  v,
  small,
  bit_and-ones 4 whole,
  low_byte (whole / 2 ^ 4),
  numeral-append 256 0 out (bit_and (whole / 2 ^ 4) 0xff),
  length-append out (bit_and (whole / 2 ^ 4) 0xff ∷ []),
)
byte_lem (suc (suc (suc (suc (suc k))))) n value bits whole out few v small e total =
    absurd (omega arith)

abbrev decoder : ℕ → ℕ → List ℕ → Bool → Decoder
decoder bits c out padding = record { bits = bits; bit_count = c; out = out; saw_padding = padding }

pub push_lem :
    (value bits c : ℕ) (out : List ℕ) (padding : Bool) (count n : ℕ)
    → value < 32
    → Holds count n (decoder bits c out padding)
    → Holds (count + 1) (n * 32 + value) (push_letter value (decoder bits c out padding))
unfolding push_letter
push_lem value bits zero out padding count n v (few, small, bytes, total) =
    let whole = joined bits value (omega (arith, small)) v in
    (omega arith, omega (arith, whole, small, v), omega (arith, bytes), omega (arith, whole, total))
push_lem value bits (suc zero) out padding count n v (few, small, bytes, total) =
    let whole = joined bits value (omega (arith, small)) v in
    (omega arith, omega (arith, whole, small, v), omega (arith, bytes), omega (arith, whole, total))
push_lem value bits (suc (suc zero)) out padding count n v (few, small, bytes, total) =
    let whole = joined bits value (omega (arith, small)) v in
    (omega arith, omega (arith, whole, small, v), omega (arith, bytes), omega (arith, whole, total))
push_lem value bits (suc (suc (suc zero))) out padding count n v (few, small, bytes, total) =
    let whole = joined bits value (omega (arith, small)) v in
    let (rest, longer, sum) =
      byte_lem 0 n value bits (bit_or (bits * 32 % 2 ^ 32) value) out (omega arith) v small whole
        total in
    (omega arith, rest, omega (arith, bytes, longer), sum)
push_lem value bits (suc (suc (suc (suc zero)))) out padding count n v (few, small, bytes, total) =
    let whole = joined bits value (omega (arith, small)) v in
    let (rest, longer, sum) =
      byte_lem 1 n value bits (bit_or (bits * 32 % 2 ^ 32) value) out (omega arith) v small whole
        total in
    (omega arith, rest, omega (arith, bytes, longer), sum)
push_lem value bits (suc (suc (suc (suc (suc zero))))) out padding count n v
      (few, small, bytes, total) =
    let whole = joined bits value (omega (arith, small)) v in
    let (rest, longer, sum) =
      byte_lem 2 n value bits (bit_or (bits * 32 % 2 ^ 32) value) out (omega arith) v small whole
        total in
    (omega arith, rest, omega (arith, bytes, longer), sum)
push_lem value bits (suc (suc (suc (suc (suc (suc zero)))))) out padding count n v
      (few, small, bytes, total) =
    let whole = joined bits value (omega (arith, small)) v in
    let (rest, longer, sum) =
      byte_lem 3 n value bits (bit_or (bits * 32 % 2 ^ 32) value) out (omega arith) v small whole
        total in
    (omega arith, rest, omega (arith, bytes, longer), sum)
push_lem value bits (suc (suc (suc (suc (suc (suc (suc zero))))))) out padding count n v
      (few, small, bytes, total) =
    let whole = joined bits value (omega (arith, small)) v in
    let (rest, longer, sum) =
      byte_lem 4 n value bits (bit_or (bits * 32 % 2 ^ 32) value) out (omega arith) v small whole
        total in
    (omega arith, rest, omega (arith, bytes, longer), sum)
push_lem value bits (suc (suc (suc (suc (suc (suc (suc (suc c)))))))) out padding count n v
      (few, small, bytes, total) =
    absurd (omega (arith, few))
