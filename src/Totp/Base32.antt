-- ===== src/Totp/Base32.antt =====
-- `decode_base32` of ibctl/src/totp.rs.
use Prim.Native.Nat.{bit_and, bit_or}
use ibctl.Base.{
  ℕ, ◌+◌, ◌-◌, ◌*◌, ◌/◌, ◌%◌, ◌^◌, Bool, true, false, ◌&&◌, ◌||◌, ◌⊎◌, inl, inr, Option, none, some,
  List, [], ◌∷◌, ◌++◌, ◌==◌, leb, if◌then◌else◌,
}
use ibctl.Base.Text.{Text, codes}
use ibctl.Base.Words.{ascii_upper}

pub data TotpError : Type 0 where
  execution_failed : TotpError
  oathtool_failed invalid_secret : Text → TotpError

-- `is_ascii_whitespace`, and the dash.
abbrev pub skipped : ℕ → Bool
skipped c = c == 9 || c == 10 || c == 12 || c == 13 || c == 32 || c == b'-'

unfoldable pub letter : ℕ → Option ℕ
letter c =
    if leb b'A' (ascii_upper c) && leb (ascii_upper c) b'Z'
    then some (ascii_upper c - b'A')
    else if leb b'2' c && leb c b'7'
    then some (c - b'2' + 26)
    else none

-- What the loop keeps: the bits that are no byte yet, how many they are, the bytes, and whether
-- padding was seen.
pub record Decoder : Type 0 where
  pub bits : ℕ
  pub bit_count : ℕ
  pub out : List ℕ
  pub saw_padding : Bool

-- The inner loop runs at most once, since fewer than 13 bits are there.
unfoldable pub push_letter : ℕ → Decoder → Decoder
push_letter value d =
    let bits = bit_or (d.bits * 2 ^ 5 % 2 ^ 32) value in
    let count = d.bit_count + 5 in
    if leb 8 count
    then record d {
      bits = bit_and bits (2 ^ (count - 8) - 1);
      bit_count = count - 8;
      out = d.out ++ (bit_and (bits / 2 ^ (count - 8)) 0xff ∷ []);
    }
    else record d { bits = bits; bit_count = count }

unfoldable pub decode_from : Decoder → Text → TotpError ⊎ Decoder
unfolding letter push_letter
decode_from d [] = inr d
decode_from d (c ∷ cs) = elim (skipped c) [
  | true ↦ decode_from d cs
  | false ↦ elim (c == b'=') [
    | true ↦ decode_from (record d { saw_padding = true }) cs
    | false ↦ elim d.saw_padding [
      | true ↦ inl (invalid_secret (codes "non-padding data found after base32 padding"))
      | false ↦ elim (letter c) [
        | none ↦ inl (invalid_secret (codes "unexpected character '" ++ (c ∷ codes "'")))
        | some value ↦ decode_from (push_letter value d) cs
      ]
    ]
  ]
]

abbrev pub start : Decoder
start = record { bits = 0; bit_count = 0; out = []; saw_padding = false }

abbrev pub from_out : List ℕ → TotpError ⊎ List ℕ
from_out [] = inl (invalid_secret (codes "secret is empty"))
from_out (b ∷ bs) = inr (b ∷ bs)

abbrev pub nonempty : TotpError ⊎ Decoder → TotpError ⊎ List ℕ
nonempty (inl e) = inl e
nonempty (inr d) = from_out d.out

unfoldable pub decode_base32 : Text → TotpError ⊎ List ℕ
unfolding decode_from
decode_base32 secret = nonempty (decode_from start secret)
