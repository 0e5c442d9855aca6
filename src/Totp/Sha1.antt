-- ===== src/Totp/Sha1.antt =====
-- `sha1` and `hmac_sha1` of ibctl/src/totp.rs, over lists of bytes.
use Prim.Native.Nat.{bit_and, bit_or, bit_xor}
use ibctl.Base.{
  ℕ, zero, suc, ◌+◌, ◌-◌, ◌*◌, ◌/◌, ◌%◌, ◌^◌, true, false, none, some, List, [], ◌∷◌, ◌++◌, map,
  length, get_elem?, take, ◌==◌, ltb, if◌then◌else◌,
}
use mathlib.Core.List.{reverse}

-- `list[i]`, of which the code is in range.
abbrev pub byte : List ℕ → ℕ → ℕ
byte bytes i = elim (get_elem? bytes i) [ none ↦ 0 | some b ↦ b ]

-- `to_be_bytes`
abbrev pub be_bytes : ℕ → ℕ → List ℕ
be_bytes zero n = []
be_bytes (suc k) n = (n / 2 ^ (8 * k) % 2 ^ 8) ∷ be_bytes k n

abbrev repeat : ℕ → ℕ → List ℕ
repeat zero b = []
repeat (suc n) b = b ∷ repeat n b

abbrev pub drop : ℕ → List ℕ → List ℕ
drop zero xs = xs
drop (suc n) [] = []
drop (suc n) (x ∷ xs) = drop n xs

-- The loop that pushes zeros until the last block has 56 bytes.
unfoldable pub push_zeros : ℕ → List ℕ → List ℕ
push_zeros zero msg = msg
push_zeros (suc fuel) msg = elim (length msg % 64 == 56) [
  | true ↦ msg
  | false ↦ push_zeros fuel (msg ++ (0 ∷ []))
]

unfoldable pub padded : List ℕ → List ℕ
unfolding push_zeros
padded input = push_zeros 64 (input ++ (0x80 ∷ [])) ++ be_bytes 8 (length input * 8 % 2 ^ 64)

abbrev rotate_left : ℕ → ℕ → ℕ
rotate_left n x = bit_or (x * 2 ^ n % 2 ^ 32) (x / 2 ^ (32 - n))

abbrev wrapping_add : ℕ → ℕ → ℕ
wrapping_add a b = (a + b) % 2 ^ 32

abbrev complement : ℕ → ℕ
complement x = 2 ^ 32 - 1 - x

abbrev be_word : List ℕ → ℕ
be_word bytes = byte bytes 0 * 2 ^ 24 + byte bytes 1 * 2 ^ 16 + byte bytes 2 * 2 ^ 8 + byte bytes 3

abbrev first_words : ℕ → List ℕ → List ℕ
first_words zero chunk = []
first_words (suc n) chunk = be_word chunk ∷ first_words n (drop 4 chunk)

-- The words after the first sixteen, which stand last word first.
abbrev schedule : ℕ → List ℕ → List ℕ
schedule zero w = w
schedule (suc n) w =
    schedule n (
      rotate_left 1 (bit_xor (bit_xor (bit_xor (byte w 2) (byte w 7)) (byte w 13)) (byte w 15)) ∷ w)

pub record Hash : Type 0 where
  pub a : ℕ
  pub b : ℕ
  pub c : ℕ
  pub d : ℕ
  pub e : ℕ

abbrev start : Hash
start = record { a = 0x67452301; b = 0xefcdab89; c = 0x98badcfe; d = 0x10325476; e = 0xc3d2e1f0 }

abbrev parity : Hash → ℕ
parity h = bit_xor (bit_xor h.b h.c) h.d

-- The function and the constant of a round.
abbrev round_function : ℕ → Hash → ℕ × ℕ
round_function i h =
    if ltb i 20
    then (bit_or (bit_and h.b h.c) (bit_and (complement h.b) h.d), 0x5a827999)
    else if ltb i 40
    then (parity h, 0x6ed9eba1)
    else if ltb i 60
    then (bit_or (bit_or (bit_and h.b h.c) (bit_and h.b h.d)) (bit_and h.c h.d), 0x8f1bbcdc)
    else (parity h, 0xca62c1d6)

abbrev sum_of : Hash → ℕ → ℕ × ℕ → ℕ
sum_of h word (f, k) =
    wrapping_add (wrapping_add (wrapping_add (wrapping_add (rotate_left 5 h.a) f) h.e) k) word

unfoldable pub rounds : ℕ → List ℕ → Hash → Hash
rounds i [] h = h
rounds i (word ∷ words) h = rounds (i + 1) words (record {
  a = sum_of h word (round_function i h);
  b = h.a;
  c = rotate_left 30 h.b;
  d = h.c;
  e = h.d;
})

abbrev add_hash : Hash → Hash → Hash
add_hash g h = record {
  a = wrapping_add g.a h.a;
  b = wrapping_add g.b h.b;
  c = wrapping_add g.c h.c;
  d = wrapping_add g.d h.d;
  e = wrapping_add g.e h.e;
}

abbrev words_of : List ℕ → List ℕ
words_of chunk = reverse (schedule 64 (reverse (first_words 16 chunk)))

-- As many chunks of 64 bytes as are asked for.
unfoldable pub chunks : ℕ → List ℕ → Hash → Hash
unfolding rounds
chunks zero msg h = h
chunks (suc n) msg h = chunks n (drop 64 msg) (add_hash h (rounds 0 (words_of (take 64 msg)) h))

abbrev hash_bytes : Hash → List ℕ
hash_bytes h =
    be_bytes 4 h.a ++ (be_bytes 4 h.b ++ (be_bytes 4 h.c ++ (be_bytes 4 h.d ++ be_bytes 4 h.e)))

unfoldable pub sha1 : List ℕ → List ℕ
unfolding padded chunks
sha1 input = hash_bytes (chunks (length (padded input) / 64) (padded input) start)

abbrev block_key : List ℕ → List ℕ
block_key key = key ++ repeat (64 - length key) 0

unfoldable pub key_block : List ℕ → List ℕ
unfolding sha1
key_block key = if ltb 64 (length key) then block_key (sha1 key) else block_key key

unfoldable pub hmac_sha1 : List ℕ → List ℕ → List ℕ
unfolding sha1 key_block
hmac_sha1 key message =
    sha1
      (map (bit_xor 0x5c) (key_block key) ++ sha1 (map (bit_xor 0x36) (key_block key) ++ message))
