-- ===== src/CommandServer/Blocks.antt =====
-- What a block of addresses in ibctl/src/command_server.rs holds.
use Prim.Native.Nat.{bit_and}
use ibctl.Base.{
  ℕ, ◌+◌, ◌-◌, ◌*◌, ◌/◌, ◌^◌, ◌≡◌, ◌≤◌, ◌<◌, ◌↔◌, refl, sym, ap, Bool, ◌∙◌, subst, true, ◌==◌,
  ==_iff, arith,
}
use native.Mathlib.Nat.{mul-div_cancel, div-lt_iff_lt-mul, mod-eq_of_lt, div-eq_of_lt}
use ibctl.Base.Bits.{
  tested_below, tested_below_lem, bit_and-ones, bit_and-shift, power_pos, power_add,
}
use ibctl.CommandServer.Address.{IpAddr, v4, v6, mask, prefix_matches, cidr_contains}

-- The mask is the upper ones.
abbrev is_mask : ℕ → ℕ → Bool
is_mask width p = mask width p == (2 ^ p - 1) * 2 ^ (width - p)

mask32_table : tested_below (is_mask 32) 33 ≡ true
mask32_table = refl

mask128_table : tested_below (is_mask 128) 129 ≡ true
mask128_table = refl

-- The network's and the address's first `prefix_len` of `width` bits are the same.
abbrev pub SharesPrefix : ℕ → ℕ → ℕ → ℕ → Type 0
SharesPrefix width net prefix_len ip =
    (prefix_len ≤ width) × (net / 2 ^ (width - prefix_len) ≡ ip / 2 ^ (width - prefix_len))

quotient_below : (width p a : ℕ) → p ≤ width → a < 2 ^ width → a / 2 ^ (width - p) < 2 ^ p
quotient_below width p a le lt = (div-lt_iff_lt-mul (power_pos (width - p))).1 (
    subst (λ (x : ℕ). a < x) (ap (λ (x : ℕ). 2 ^ x) (split width p le) ∙ power_add p (width - p))
      lt)
  where
    split : (width p : ℕ) → p ≤ width → width ≡ p + (width - p)
    split width p le = omega arith

masked :
    (width p a : ℕ)
    → p ≤ width
    → a < 2 ^ width
    → mask width p ≡ (2 ^ p - 1) * 2 ^ (width - p)
    → bit_and a (mask width p) ≡ a / 2 ^ (width - p) * 2 ^ (width - p)
masked width p a le lt e =
    ap (λ (x : ℕ). bit_and a x) e
    ∙ bit_and-shift (width - p) (2 ^ p - 1) a
    ∙ ap (λ (x : ℕ). x * 2 ^ (width - p))
        (bit_and-ones p (a / 2 ^ (width - p)) ∙ mod-eq_of_lt (quotient_below width p a le lt))

cancel : (d q r : ℕ) → 0 < d → q * d ≡ r * d → q ≡ r
cancel d q r h e = sym (mul-div_cancel q h) ∙ ap (λ (x : ℕ). x / d) e ∙ mul-div_cancel r h

whole :
    (width net ip : ℕ)
    → net < 2 ^ width
    → ip < 2 ^ width
    → net / 2 ^ (width - 0) ≡ ip / 2 ^ (width - 0)
whole width net ip n i =
    subst (λ (w : ℕ). net / 2 ^ w ≡ ip / 2 ^ w) (less width) (div-eq_of_lt n ∙ sym (div-eq_of_lt i))
  where
    less : (w : ℕ) → w ≡ w - 0
    less w = omega arith

prefix_matches-SharesPrefix :
    (width net p ip : ℕ)
    → (p ≤ width → mask width p ≡ (2 ^ p - 1) * 2 ^ (width - p))
    → net < 2 ^ width
    → ip < 2 ^ width
    → (prefix_matches width net p ip ≡ true) ↔ SharesPrefix width net p ip
prefix_matches-SharesPrefix width net p ip table n i = ground (
  arith,
  table,
  masked width p net,
  masked width p ip,
  whole width net ip,
  cancel (2 ^ (width - p)) (net / 2 ^ (width - p)) (ip / 2 ^ (width - p)),
  power_pos (width - p),
)

pub data Family : Type 0 where
  ipv4 ipv6 : Family

abbrev pub width : Family → ℕ
width ipv4 = 32
width ipv6 = 128

abbrev pub address : Family → ℕ → IpAddr
address ipv4 = v4
address ipv6 = v6

-- An address is in a block of its family exactly if the prefix length is at most the family's width
-- and the address begins with the same bits as the network, for numbers of that width.
pub cidr_contains_iff :
    (family : Family) (net p ip : ℕ)
    → net < 2 ^ width family
    → ip < 2 ^ width family
    → (cidr_contains (address family net) p (address family ip) ≡ true)
      ↔ SharesPrefix (width family) net p ip
unfolding cidr_contains
cidr_contains_iff ipv4 net p ip =
    prefix_matches-SharesPrefix 32 net p ip
      (λ le. (==_iff _ _).0 (tested_below_lem (is_mask 32) 33 mask32_table p (omega arith)))
cidr_contains_iff ipv6 net p ip =
    prefix_matches-SharesPrefix 128 net p ip
      (λ le. (==_iff _ _).0 (tested_below_lem (is_mask 128) 129 mask128_table p (omega arith)))
