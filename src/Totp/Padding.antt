-- ===== src/Totp/Padding.antt =====
-- The padding loop of `sha1` in ibctl/src/totp.rs ends within its fuel.
use ibctl.Base.{
  ℕ, zero, suc, ◌-◌, ◌*◌, ◌%◌, ◌^◌, ◌≡◌, ◌≤◌, inl, inr, List, [], ◌∷◌, ◌++◌, length, length-append,
  ◌==◌, Bool-cases, arith,
}
use ibctl.Totp.Sha1.{push_zeros, padded, be_bytes}

-- The zeros that are missing.
abbrev missing : ℕ → ℕ
missing n = (120 - n % 64) % 64

length-push_zeros :
    (fuel : ℕ) (msg : List ℕ) → missing (length msg) ≤ fuel → length (push_zeros fuel msg) % 64 ≡ 56
unfolding push_zeros
length-push_zeros zero msg enough = omega (arith, enough)
length-push_zeros (suc fuel) msg enough = elim (Bool-cases (length msg % 64 == 56)) [
  | inl e ↦ ground (arith, e)
  | inr e ↦ ground (
    arith,
    e,
    length-push_zeros fuel (msg ++ (0 ∷ []))
        (ground (arith, e, enough, length-append msg (0 ∷ []))),
  )
]

-- The padded message is a whole number of blocks.
pub length-padded : (input : List ℕ) → length (padded input) % 64 ≡ 0
unfolding padded
length-padded input = ground (
  arith,
  length-append (push_zeros 64 (input ++ (0x80 ∷ []))) (be_bytes 8 (length input * 8 % 2 ^ 64)),
  length-push_zeros 64 (input ++ (0x80 ∷ [])) (omega arith),
)
