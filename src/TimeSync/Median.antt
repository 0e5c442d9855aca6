-- ===== src/TimeSync/Median.antt =====
-- The offset that ibctl/src/time_sync.rs settles on lies in the middle of the accepted samples.
use ibctl.Base.{
  ℕ, zero, suc, ◌+◌, ◌*◌, ◌/◌, ◌≡◌, ◌≤◌, inl, inr, refl, sym, ap, ◌∙◌, subst, Bool, true, false,
  not, Option, some, List, [], ◌∷◌, length, get_elem?, filter_by, if◌then◌else◌, arith, All,
  Bool-cases, Option-cases,
}
use ibctl.Base.Text.{Text}
use ibctl.Base.Int.{ℤ, pos, negsuc}
use ibctl.TimeSync.Offset.{
  TimeSyncResult, abs, int_leb, insert, sort_unstable, accepted, successes, median, verify_servers,
  sampled,
}

abbrev pub count : (ℤ → Bool) → List ℤ → ℕ
count p [] = 0
count p (x ∷ xs) = if p x then suc (count p xs) else count p xs

abbrev pub is_below : ℤ → ℤ → Bool
is_below v x = not (int_leb v x)

abbrev pub is_above : ℤ → ℤ → Bool
is_above v x = not (int_leb x v)

abbrev Sorted : List ℤ → Type 0
Sorted [] = Unit
Sorted (x ∷ xs) = All (λ y. int_leb x y ≡ true) xs × Sorted xs

int_leb_total : (x y : ℤ) → int_leb x y ≡ false → int_leb y x ≡ true
int_leb_total (pos m) (pos n) h = ground arith
int_leb_total (pos m) (negsuc n) h = refl
int_leb_total (negsuc m) (pos n) h = ground arith
int_leb_total (negsuc m) (negsuc n) h = ground arith

int_leb_trans : (x y z : ℤ) → int_leb x y ≡ true → int_leb y z ≡ true → int_leb x z ≡ true
int_leb_trans (pos m) (pos n) (pos k) h g = ground arith
int_leb_trans (pos m) (pos n) (negsuc k) h g = ground arith
int_leb_trans (pos m) (negsuc n) z h g = ground arith
int_leb_trans (negsuc m) (pos n) (pos k) h g = refl
int_leb_trans (negsuc m) (pos n) (negsuc k) h g = ground arith
int_leb_trans (negsuc m) (negsuc n) (pos k) h g = refl
int_leb_trans (negsuc m) (negsuc n) (negsuc k) h g = ground arith

int_leb_self : (x : ℤ) → int_leb x x ≡ true
int_leb_self (pos m) = ground arith
int_leb_self (negsuc m) = ground arith

below-All :
    (x y : ℤ) (ys : List ℤ)
    → int_leb x y ≡ true
    → All (λ z. int_leb y z ≡ true) ys
    → All (λ z. int_leb x z ≡ true) ys
below-All x y [] h p = tt
below-All x y (z ∷ zs) h (p, ps) = (int_leb_trans x y z h p, below-All x y zs h ps)

insert-All :
    (w x : ℤ) (ys : List ℤ)
    → int_leb w x ≡ true
    → All (λ z. int_leb w z ≡ true) ys
    → All (λ z. int_leb w z ≡ true) (insert x ys)
insert-All w x [] h p = (h, tt)
insert-All w x (y ∷ ys) h (p, ps) = ground (arith, insert-All w x ys h ps)

insert-Sorted : (x : ℤ) (ys : List ℤ) → Sorted ys → Sorted (insert x ys)
insert-Sorted x [] s = (tt, tt)
insert-Sorted x (y ∷ ys) (p, s) = elim (Bool-cases (int_leb x y)) [
  | inl e ↦ ground (arith, e, below-All x y ys e p)
  | inr e ↦ ground (arith, e, insert-All y x ys (int_leb_total x y e) p, insert-Sorted x ys s)
]

sort-Sorted : (xs : List ℤ) → Sorted (sort_unstable xs)
sort-Sorted [] = tt
sort-Sorted (x ∷ xs) = insert-Sorted x (sort_unstable xs) (sort-Sorted xs)

count-insert : (p : ℤ → Bool) (x : ℤ) (ys : List ℤ) → count p (insert x ys) ≡ count p (x ∷ ys)
count-insert p x [] = refl
count-insert p x (y ∷ ys) = ground (arith, count-insert p x ys)

count-sort : (p : ℤ → Bool) (xs : List ℤ) → count p (sort_unstable xs) ≡ count p xs
count-sort p [] = refl
count-sort p (x ∷ xs) = ground (arith, count-insert p x (sort_unstable xs), count-sort p xs)

count_all : (xs : List ℤ) → count (λ x. true) xs ≡ length xs
count_all [] = refl
count_all (x ∷ xs) = ap suc (count_all xs)

length-sort : (xs : List ℤ) → length (sort_unstable xs) ≡ length xs
length-sort xs = sym (count_all (sort_unstable xs)) ∙ count-sort (λ x. true) xs ∙ count_all xs

none_below : (v : ℤ) (xs : List ℤ) → All (λ z. int_leb v z ≡ true) xs → count (is_below v) xs ≡ 0
none_below v [] p = refl
none_below v (x ∷ xs) (p, ps) = ground (arith, none_below v xs ps)

count-length : (p : ℤ → Bool) (xs : List ℤ) → count p xs ≤ length xs
count-length p [] = omega arith
count-length p (x ∷ xs) = ground (arith, count-length p xs)

some_injective : (a b : ℤ) → some a ≡ some b → a ≡ b
some_injective a b e = cc

get_elem?-All :
    (P : ℤ → Type 0) (xs : List ℤ) (i : ℕ) (v : ℤ) → All P xs → get_elem? xs i ≡ some v → P v
get_elem?-All P [] i v p e = ground arith
get_elem?-All P (x ∷ xs) zero v (p, ps) e = subst P (some_injective x v e) p
get_elem?-All P (x ∷ xs) (suc i) v (p, ps) e = get_elem?-All P xs i v ps e

head_rank :
    (x : ℤ) (xs : List ℤ)
    → All (λ z. int_leb x z ≡ true) xs
    → (count (is_below x) (x ∷ xs) ≤ 0) × (count (is_above x) (x ∷ xs) + 1 ≤ length (x ∷ xs))
head_rank x xs p = ground (arith, int_leb_self x, none_below x xs p, count-length (is_above x) xs)

rank_lem :
    (xs : List ℤ) (i : ℕ) (v : ℤ)
    → Sorted xs
    → get_elem? xs i ≡ some v
    → (count (is_below v) xs ≤ i) × (count (is_above v) xs + suc i ≤ length xs)
rank_lem [] i v s e = ground arith
rank_lem (x ∷ xs) zero v (p, s) e =
    subst
      (λ (w : ℤ).
        (count (is_below w) (x ∷ xs) ≤ 0) × (count (is_above w) (x ∷ xs) + 1 ≤ length (x ∷ xs)))
      (some_injective x v e) (head_rank x xs p)
rank_lem (x ∷ xs) (suc i) v (p, s) e =
    let below : int_leb x v ≡ true = get_elem?-All (λ z. int_leb x z ≡ true) xs i v p e in
    ground (arith, below, rank_lem xs i v s e)

filter_by-accepted : (xs : List ℤ) → All (λ z. abs z ≤ 120000) (filter_by accepted xs)
filter_by-accepted [] = tt
filter_by-accepted (x ∷ xs) = ground (arith, filter_by-accepted xs)

insert-bounded :
    (x : ℤ) (ys : List ℤ)
    → abs x ≤ 120000
    → All (λ z. abs z ≤ 120000) ys
    → All (λ z. abs z ≤ 120000) (insert x ys)
insert-bounded x [] h p = (h, tt)
insert-bounded x (y ∷ ys) h (p, ps) = ground (arith, insert-bounded x ys h ps)

sort-bounded :
    (xs : List ℤ) → All (λ z. abs z ≤ 120000) xs → All (λ z. abs z ≤ 120000) (sort_unstable xs)
sort-bounded [] p = tt
sort-bounded (x ∷ xs) (p, ps) = insert-bounded x (sort_unstable xs) p (sort-bounded xs ps)

-- At most 120 s, and no more than half of the samples on either side.
abbrev pub IsMedian : List ℤ → TimeSyncResult → Type 0
IsMedian offsets r =
    (abs r.offset_ms ≤ 120000)
    × (r.samples ≡ length offsets)
    × (count (is_below r.offset_ms) offsets * 2 ≤ r.samples)
    × (count (is_above r.offset_ms) offsets * 2 ≤ r.samples)

median-IsMedian :
    (offsets : List ℤ) (r : TimeSyncResult)
    → All (λ z. abs z ≤ 120000) offsets
    → median offsets ≡ some r
    → IsMedian offsets r
median-IsMedian offsets r p h = elim (Option-cases (get_elem? sorted (length sorted / 2))) [
  | inl e ↦ ground (arith, e)
  | inr (v, e) ↦ found v e
]
  where
    sorted : List ℤ
    sorted = sort_unstable offsets

    found :
        (v : ℤ)
        → get_elem? (sort_unstable offsets) (length (sort_unstable offsets) / 2) ≡ some v
        → IsMedian offsets r
    found v e = ground (
      arith,
      e,
      h,
      rank_lem (sort_unstable offsets) (length (sort_unstable offsets) / 2) v (sort-Sorted offsets)
          e,
      length-sort offsets,
      count-sort (is_below v) offsets,
      count-sort (is_above v) offsets,
      get_elem?-All (λ z. abs z ≤ 120000) (sort_unstable offsets)
          (length (sort_unstable offsets) / 2) v (sort-bounded offsets p) e,
    )

-- The accepted samples of the servers.
abbrev pub accepted_offsets : (ℕ → Text → Option ℤ) → List Text → List ℤ
accepted_offsets sample_ntp servers = filter_by accepted (successes (sampled sample_ntp 0 servers))

-- A verified offset is a median of the samples of at most 120 s: it is itself at most 120 s, it counts
-- all of them, and at most half of them are below it and at most half above.
pub verify_servers-IsMedian :
    (sample_ntp : ℕ → Text → Option ℤ) (servers : List Text) (r : TimeSyncResult)
    → verify_servers sample_ntp servers ≡ some r
    → IsMedian (accepted_offsets sample_ntp servers) r
unfolding verify_servers
verify_servers-IsMedian sample_ntp servers r h =
    median-IsMedian (accepted_offsets sample_ntp servers) r
      (filter_by-accepted (successes (sampled sample_ntp 0 servers))) h
