-- ===== src/Totp.antt =====
-- ibctl/src/totp.rs: the built-in one-time codes. A byte and a 32-bit word are numbers.
pub mod Base32
pub mod Code
pub mod Decoded
pub mod Padding
pub mod Sha1
pub mod Value
mod Tests
use Prim.Native.Nat.{bit_and, bit_or}
use ibctl.Base.{
  ℕ, zero, suc, ◌+◌, ◌-◌, ◌*◌, ◌/◌, ◌%◌, ◌^◌, ◌⊎◌, inl, inr, Option, none, some, List, [], ◌∷◌,
  ◌++◌, get_elem?, length, ◌==◌, leb, ltb, not, ◌&&◌, if◌then◌else◌,
}
use ibctl.Base.Text.{Text, codes}
use ibctl.Base.Decimal.{decimal}
use ibctl.Totp.Base32.{TotpError, invalid_secret, decode_base32}
use ibctl.Totp.Sha1.{byte, hmac_sha1, be_bytes}

abbrev pub zeros : ℕ → Text
zeros zero = []
zeros (suc n) = b'0' ∷ zeros n

-- `{:0width$}`
unfoldable pub zero_padded : ℕ → ℕ → Text
unfolding decimal
zero_padded width n = zeros (width - length (decimal n)) ++ decimal n

-- The dynamic truncation of RFC 4226.
unfoldable pub truncate : List ℕ → ℕ
truncate digest =
    let offset = bit_and (byte digest 19) 0x0f in
    bit_or
      (bit_or
        (bit_or (bit_and (byte digest offset) 0x7f * 2 ^ 24) (byte digest (offset + 1) * 2 ^ 16))
        (byte digest (offset + 2) * 2 ^ 8))
      (byte digest (offset + 3))

abbrev pub code_of : ℕ → List ℕ → Text
code_of width digest = zero_padded width (truncate digest % 10 ^ width)

-- The code of a key at a counter.
abbrev pub generated : ℕ → ℕ → TotpError ⊎ List ℕ → TotpError ⊎ Text
generated counter width (inl e) = inl e
generated counter width (inr key) = inr (code_of width (hmac_sha1 key (be_bytes 8 counter)))

-- The checks of the parameters come first.
abbrev pub guarded : ℕ → ℕ → TotpError ⊎ Text → TotpError ⊎ Text
guarded step_seconds width made =
    if step_seconds == 0
    then inl (invalid_secret (codes "TOTP time step must be greater than zero"))
    else if not (leb 6 width && leb width 8)
    then inl (invalid_secret (codes "TOTP digit count must be between 6 and 8"))
    else made

unfoldable pub generate_totp_at : Text → ℕ → ℕ → ℕ → TotpError ⊎ Text
unfolding decode_base32 hmac_sha1 truncate zero_padded
generate_totp_at secret timestamp step_seconds width =
    guarded step_seconds width (generated (timestamp / step_seconds) width (decode_base32 secret))

-- The seconds that `wait_for_safe_window` waits at a time.
unfoldable pub safe_wait : ℕ → ℕ
safe_wait now =
    let position = now % 30 in
    if leb 27 position then 32 - position else if ltb position 2 then 2 - position else 0
