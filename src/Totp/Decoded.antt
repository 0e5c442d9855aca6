-- ===== src/Totp/Decoded.antt =====
-- What `decode_base32` of ibctl/src/totp.rs gives for a text.
use ibctl.Base.{
  ℕ, ◌+◌, ◌*◌, ◌/◌, ◌%◌, ◌^◌, ◌≡◌, ◌<◌, ◌⊎◌, inl, inr, refl, sym, subst, true, Option, none, some,
  List, [], ◌∷◌, length, ◌==◌, if◌then◌else◌, arith, Bool-cases, Option-cases,
}
use ibctl.Base.Text.{Text}
use ibctl.Totp.Base32.{
  TotpError, Decoder, skipped, letter, push_letter, start, nonempty, from_out, decode_from,
  decode_base32,
}
use native.Mathlib.Nat.{div-eq_of_lt-le}
use ibctl.Totp.Value.{numeral, Holds, push_lem}

abbrev value_of : Option ℕ → List ℕ → List ℕ
value_of none vs = vs
value_of (some v) vs = v ∷ vs

-- The values of the letters of a text.
abbrev pub letters : Text → List ℕ
letters [] = []
letters (c ∷ cs) =
    if skipped c
    then letters cs
    else if c == b'='
    then letters cs
    else value_of (letter c) (letters cs)

letter_small : (c v : ℕ) → letter c ≡ some v → v < 32
unfolding letter
letter_small c v h = ground (arith, h)

-- The rest of a text, whose letters are those of the whole.
abbrev Ends : Text → ℕ → ℕ → Decoder → Type 0
Ends t count n d = Holds (count + length (letters t)) (numeral 32 n (letters t)) d

same_letters :
    (t t' : Text) (count n : ℕ) (d : Decoder)
    → letters t ≡ letters t'
    → Ends t' count n d
    → Ends t count n d
same_letters t t' count n d e ends =
    subst (λ (vs : List ℕ). Holds (count + length vs) (numeral 32 n vs) d) (sym e) ends

more_letters :
    (t t' : Text) (v count n : ℕ) (d : Decoder)
    → letters t ≡ v ∷ letters t'
    → Ends t' (count + 1) (n * 32 + v) d
    → Ends t count n d
more_letters t t' v count n d e ends =
    subst (λ (vs : List ℕ). Holds (count + length vs) (numeral 32 n vs) d) (sym e)
      (subst (λ (k : ℕ). Holds k (numeral 32 (n * 32 + v) (letters t')) d) (omega arith) ends)

nothing_more : (count n : ℕ) (d d' : Decoder) → Holds count n d → d ≡ d' → Holds (count + 0) n d'
nothing_more count n d d' holds e =
    subst (λ (k : ℕ). Holds k n d') (omega arith) (subst (Holds count n) e holds)

inr_injective : (a b : Decoder) → ◌≡◌ {A = TotpError ⊎ Decoder} (inr a) (inr b) → a ≡ b
inr_injective a b e = cc

from_lem :
    (t : Text) (d d' : Decoder) (count n : ℕ)
    → Holds count n d
    → decode_from d t ≡ inr d'
    → Ends t count n d'
unfolding decode_from
from_lem [] d d' count n holds h = nothing_more count n d d' holds (inr_injective d d' h)
from_lem (c ∷ cs) d d' count n holds h = elim (Bool-cases (skipped c)) [
  | inl e ↦
      same_letters (c ∷ cs) cs count n d' (ground (arith, e))
        (from_lem cs d d' count n holds (ground (arith, e, h)))
  | inr e ↦ elim (Bool-cases (c == b'=')) [
    | inl f ↦
        same_letters (c ∷ cs) cs count n d' (ground (arith, e, f))
          (from_lem cs (record d { saw_padding = true }) d' count n holds (ground (arith, e, f, h)))
    | inr f ↦ elim (Option-cases (letter c)) [
      | inl g ↦ ground (arith, e, f, g, h)
      | inr (v, g) ↦ more_letters (c ∷ cs) cs v count n d' (ground (arith, e, f, g)) (
          from_lem cs (push_letter v d) d' (count + 1) (n * 32 + v)
            (push_lem v d.bits d.bit_count d.out d.saw_padding count n (letter_small c v g) holds)
            (ground (arith, e, f, g, h)))
    ]
  ]
]

-- The leading bits of the letters, eight for each byte.
abbrev pub IsDecoded : Text → List ℕ → Type 0
IsDecoded t bytes =
    (length bytes ≡ 5 * length (letters t) / 8)
    × (numeral 256 0 bytes ≡ numeral 32 0 (letters t) / 2 ^ (5 * length (letters t) % 8))

quotient : (q p r n : ℕ) → r < p → q * p + r ≡ n → q ≡ n / p
quotient q p r n small e = sym (div-eq_of_lt-le p (omega (arith, e)) (below q p r n small e))
  where
    below : (q p r n : ℕ) → r < p → q * p + r ≡ n → n < (q + 1) * p
    below q p r n small e = grind (arith, small, e)

holds-IsDecoded : (t : Text) (d : Decoder) → Ends t 0 0 d → IsDecoded t d.out
holds-IsDecoded t d (few, small, bytes, total) = (
  omega (arith, few, bytes),
  subst (λ (k : ℕ). numeral 256 0 d.out ≡ numeral 32 0 (letters t) / 2 ^ k)
      (omega (arith, few, bytes))
      (quotient (numeral 256 0 d.out) (2 ^ d.bit_count) d.bits (numeral 32 0 (letters t)) small
        total),
)

nonempty-out :
    (r : TotpError ⊎ Decoder) (bytes : List ℕ)
    → nonempty r ≡ inr bytes
    → (d : Decoder) × (r ≡ inr d) × (d.out ≡ bytes)
nonempty-out (inl e) bytes h = ground arith
nonempty-out (inr d) bytes h = (d, refl, kept d.out h)
  where
    kept : (out : List ℕ) → from_out out ≡ inr bytes → out ≡ bytes
    kept [] h = ground arith
    kept (b ∷ bs) h = cc

-- The bytes that a secret decodes to are the leading bits of its letters' values, in order: there are
-- 5n/8 of them for n letters, and as a number in base 256 they are the letters' number in base 32
-- without its last 5n mod 8 bits. White space, dashes and padding count for nothing.
pub decode_base32-IsDecoded :
    (secret : Text) (bytes : List ℕ) → decode_base32 secret ≡ inr bytes → IsDecoded secret bytes
unfolding decode_base32
decode_base32-IsDecoded secret bytes h =
    let (d, e, same) = nonempty-out (decode_from start secret) bytes h in
    subst (IsDecoded secret) same (
      holds-IsDecoded secret d
        (from_lem secret start d 0 0 (omega arith, omega arith, omega arith, omega arith) e))
