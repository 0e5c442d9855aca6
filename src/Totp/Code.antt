-- ===== src/Totp/Code.antt =====
-- The shape of the codes of ibctl/src/totp.rs.
use ibctl.Base.{
  ℕ, zero, suc, ◌+◌, ◌-◌, ◌/◌, ◌%◌, ◌^◌, ◌≡◌, ◌≤◌, ◌<◌, ◌⊎◌, inl, inr, refl, ap, ◌∙◌, subst, List,
  [], ◌∷◌, length, length-append, arith, All,
}
use ibctl.Base.Text.{Text}
use ibctl.Base.Decimal.{decimal, digits, IsDigit, decimal-IsDigit, All-append}
use ibctl.Totp.{
  zeros, zero_padded, truncate, generate_totp_at, code_of, generated, guarded, safe_wait,
}
use ibctl.Totp.Base32.{TotpError, decode_base32}
use ibctl.Totp.Sha1.{hmac_sha1, be_bytes}

length-digits : (k fuel n : ℕ) → n < 10 ^ suc k → length (digits fuel n) ≤ suc k
unfolding digits
length-digits k zero n below = omega arith
length-digits zero (suc fuel) n below = ground (arith, below)
length-digits (suc k) (suc fuel) n below = ground (
  arith,
  below,
  length-digits k fuel (n / 10) (omega (arith, below)),
  length-append (digits fuel (n / 10)) ((48 + n % 10) ∷ []),
)

length-zeros : (n : ℕ) → length (zeros n) ≡ n
length-zeros zero = refl
length-zeros (suc n) = ap suc (length-zeros n)

zeros-IsDigit : (n : ℕ) → All IsDigit (zeros n)
zeros-IsDigit zero = tt
zeros-IsDigit (suc n) = (refl, zeros-IsDigit n)

length-zero_padded : (k n : ℕ) → n < 10 ^ suc k → length (zero_padded (suc k) n) ≡ suc k
unfolding zero_padded decimal
length-zero_padded k n below =
    length-append (zeros (suc k - length (digits n n))) (digits n n)
    ∙ omega (arith, length-zeros (suc k - length (digits n n)), length-digits k n n below)

zero_padded-IsDigit : (width n : ℕ) → All IsDigit (zero_padded width n)
unfolding zero_padded
zero_padded-IsDigit width n =
    All-append IsDigit (zeros (width - length (decimal n))) (decimal n)
      (zeros-IsDigit (width - length (decimal n))) (decimal-IsDigit n)

abbrev pub IsCode : ℕ → Text → Type 0
IsCode width code = (length code ≡ width) × All IsDigit code

tens : (k : ℕ) → 0 < 10 ^ k
tens zero = omega arith
tens (suc k) = omega (arith, tens k)

code_of-IsCode : (k : ℕ) (digest : List ℕ) → IsCode (suc k) (code_of (suc k) digest)
code_of-IsCode k digest = (
  length-zero_padded k (truncate digest % 10 ^ suc k) (omega (arith, tens (suc k))),
  zero_padded-IsDigit (suc k) (truncate digest % 10 ^ suc k),
)

generated-IsCode :
    (counter width : ℕ) (key : TotpError ⊎ List ℕ) (code : Text)
    → 0 < width
    → generated counter width key ≡ inr code
    → IsCode width code
generated-IsCode counter zero key code some_width h = absurd (omega arith)
generated-IsCode counter (suc k) (inl e) code some_width h = ground arith
generated-IsCode counter (suc k) (inr key) code some_width h =
    subst (IsCode (suc k)) (inr_injective h) (code_of-IsCode k (hmac_sha1 key (be_bytes 8 counter)))
  where
    inr_injective : {a b : Text} → ◌≡◌ {A = TotpError ⊎ Text} (inr a) (inr b) → a ≡ b
    inr_injective e = cc

guarded_lem :
    (step width : ℕ) (made : TotpError ⊎ Text) (code : Text)
    → guarded step width made ≡ inr code
    → (0 < step) × (6 ≤ width) × (width ≤ 8) × (made ≡ inr code)
guarded_lem step width made code h = ground (arith, h)

-- A code that is generated has exactly the digits that were asked for, leading zeros included, and
-- nothing else; it is only generated for a positive time step and for six to eight digits.
pub generate_totp_at-IsCode :
    (secret : Text) (timestamp step width : ℕ) (code : Text)
    → generate_totp_at secret timestamp step width ≡ inr code
    → (0 < step) × (6 ≤ width) × (width ≤ 8) × IsCode width code
unfolding generate_totp_at
generate_totp_at-IsCode secret timestamp step width code h =
    let (positive, least, most, made) =
      guarded_lem step width (generated (timestamp / step) width (decode_base32 secret)) code h in
    (
      positive,
      least,
      most,
      generated-IsCode (timestamp / step) width (decode_base32 secret) code (omega (arith, least))
          made,
    )

-- The wait ends between the second and the twenty-seventh second of a window, and takes at most five.
pub safe_wait_lem :
    (now : ℕ)
    → (2 ≤ (now + safe_wait now) % 30) × ((now + safe_wait now) % 30 < 27) × (safe_wait now ≤ 5)
unfolding safe_wait
safe_wait_lem now = ground arith
