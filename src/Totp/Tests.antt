-- ===== src/Totp/Tests.antt =====
-- The one-time codes at the vectors of RFC 6238.
use ibctl.Base.{◌≡◌, ◌≤◌, ◌<◌, refl, inr}
use ibctl.Base.Text.{Text, codes}
use ibctl.Totp.{generate_totp_at}
use ibctl.Totp.Base32.{decode_base32}
use ibctl.Totp.Code.{IsCode, generate_totp_at-IsCode}
use ibctl.Totp.Decoded.{IsDecoded, decode_base32-IsDecoded}

abbrev secret : Text
secret = codes "GEZDGNBVGY3TQOJQGEZDGNBVGY3TQOJQ"

vector_59 : generate_totp_at secret 59 30 8 ≡ inr (codes "94287082")
unfolding generate_totp_at
vector_59 = refl

vector_1111111109 : generate_totp_at secret 1111111109 30 8 ≡ inr (codes "07081804")
unfolding generate_totp_at
vector_1111111109 = refl

generate_totp_at-IsCode_example : (0 < 30) × (6 ≤ 8) × (8 ≤ 8) × IsCode 8 (codes "07081804")
unfolding generate_totp_at
generate_totp_at-IsCode_example =
    generate_totp_at-IsCode secret 1111111109 30 8 (codes "07081804") refl

decode_base32-IsDecoded_example : IsDecoded (codes "gezd-gnb vgy======") (codes "123456")
unfolding decode_base32
decode_base32-IsDecoded_example =
    decode_base32-IsDecoded (codes "gezd-gnb vgy======") (codes "123456") refl
