-- ===== src/Btrfs/Space/Fit.antt =====
-- The first place that fits is free.
use werunos.Base.{
  ℕ, ◌+◌, ◌-◌, ◌*◌, ◌/◌, ◌%◌, ◌^◌, ◌≤◌, ◌<◌, ◌≡◌, ◌⊎◌, inl, inr, subst, List, [], ◌∷◌, All, leb,
  if_both, arith,
}
use werunos.Base.Blocks.{block_lower, block_upper}
use werunos.Btrfs.Space.{ExtentRange, sort_in, sort_ranges, round_up, first_fit}

unfoldable pub IsSorted : List ExtentRange → Type 0
IsSorted [] = Unit
IsSorted (x ∷ ranges) = All (λ y. x.logical ≤ y.logical) ranges × IsSorted ranges

All-sort_in :
    (P : ExtentRange → Type 0) (x : ExtentRange) (ranges : List ExtentRange)
    → P x
    → All P ranges
    → All P (sort_in x ranges)
unfolding sort_in
All-sort_in P x [] p ps = (p, tt)
All-sort_in P x (y ∷ ranges) p (q, ps) =
    if_both (All P) (leb x.logical y.logical) (λ _. (p, (q, ps)))
      (λ _. (q, All-sort_in P x ranges p ps))

sort_in-All :
    (P : ExtentRange → Type 0) (x : ExtentRange) (ranges : List ExtentRange)
    → All P (sort_in x ranges)
    → P x × All P ranges
unfolding sort_in
sort_in-All P x [] (p, ps) = (p, tt)
sort_in-All P x (y ∷ ranges) ps =
    if_both (λ l. All P l → P x × (P y × All P ranges)) (leb x.logical y.logical) (λ _ qs. qs)
      (λ _ (q, qs). let r = sort_in-All P x ranges qs in (r.0, (q, r.1))) ps

pub sort_ranges-All :
    (P : ExtentRange → Type 0) (ranges : List ExtentRange)
    → All P (sort_ranges ranges)
    → All P ranges
unfolding sort_ranges
sort_ranges-All P [] ps = tt
sort_ranges-All P (x ∷ ranges) ps =
    let r = sort_in-All P x (sort_ranges ranges) ps in (r.0, sort_ranges-All P ranges r.1)

pub All-sort_ranges :
    (P : ExtentRange → Type 0) (ranges : List ExtentRange)
    → All P ranges
    → All P (sort_ranges ranges)
unfolding sort_ranges
All-sort_ranges P [] ps = tt
All-sort_ranges P (x ∷ ranges) (p, ps) =
    All-sort_in P x (sort_ranges ranges) p (All-sort_ranges P ranges ps)

all_below :
    (a b : ℕ) (ranges : List ExtentRange)
    → a ≤ b
    → All (λ y. b ≤ y.logical) ranges
    → All (λ y. a ≤ y.logical) ranges
all_below a b [] le ps = tt
all_below a b (y ∷ ranges) le (p, ps) = (omega arith, all_below a b ranges le ps)

sort_in-IsSorted :
    (x : ExtentRange) (ranges : List ExtentRange) → IsSorted ranges → IsSorted (sort_in x ranges)
unfolding sort_in IsSorted
sort_in-IsSorted x [] s = (tt, tt)
sort_in-IsSorted x (y ∷ ranges) (lt, s) =
    if_both IsSorted (leb x.logical y.logical)
      (λ t. ((ground arith, all_below x.logical y.logical ranges (ground arith) lt), (lt, s)))
      (λ t. (
        All-sort_in (λ z. y.logical ≤ z.logical) x ranges (ground arith) lt,
        sort_in-IsSorted x ranges s,
      ))

pub sort_ranges-IsSorted : (ranges : List ExtentRange) → IsSorted (sort_ranges ranges)
unfolding sort_ranges IsSorted
sort_ranges-IsSorted [] = tt
sort_ranges-IsSorted (x ∷ ranges) =
    sort_in-IsSorted x (sort_ranges ranges) (sort_ranges-IsSorted ranges)

module _ (sector_size : ℕ) (pos : 0 < sector_size) where
  pub round_up-bounds :
      (x : ℕ)
      → x + sector_size < 2 ^ 64
      → (x ≤ round_up sector_size x) × (round_up sector_size x < x + sector_size)
  round_up-bounds x small =
      let y = x + sector_size - 1 in
      let m : y % 2 ^ 64 ≡ y = omega arith in
      let lo = block_lower sector_size pos y in
      let hi = block_upper sector_size pos y in
      let n : y / sector_size * sector_size % 2 ^ 64 ≡ y / sector_size * sector_size =
        omega (arith, lo) in
      rw (m, n) (omega (arith, lo, hi), omega (arith, lo, hi))

  -- The range from `a` on does not meet `x`.
  abbrev pub Misses : ℕ → ℕ → ExtentRange → Type 0
  Misses aligned a x = (x.logical + x.len ≤ a) ⊎ (a + aligned ≤ x.logical)

  all_above :
      (aligned candidate low : ℕ) (occupied : List ExtentRange)
      → candidate + aligned ≤ low
      → All (λ y. low ≤ y.logical) occupied
      → All (Misses aligned candidate) occupied
  all_above aligned candidate low [] le ls = tt
  all_above aligned candidate low (y ∷ occupied) le (l, ls) =
      (inr (omega arith), all_above aligned candidate low occupied le ls)

  -- Every range ends below a bound, and what is looked for has room above it.
  pub first_fit-Misses :
      (bound aligned candidate : ℕ) (occupied : List ExtentRange)
      → IsSorted occupied
      → All (λ x. x.logical + x.len ≤ bound) occupied
      → candidate < bound + sector_size
      → bound + sector_size + aligned < 2 ^ 64
      → (candidate ≤ first_fit sector_size aligned occupied candidate)
        × (first_fit sector_size aligned occupied candidate < bound + sector_size)
        × All (Misses aligned (first_fit sector_size aligned occupied candidate)) occupied
  unfolding first_fit IsSorted
  first_fit-Misses bound aligned candidate [] s bs lt small = (omega arith, lt, tt)
  first_fit-Misses bound aligned candidate (x ∷ occupied) (ls, s) (b, bs) lt small =
      if_both Fits (leb ((x.logical + x.len) % 2 ^ 64) candidate)
        (λ t.
          let r = first_fit-Misses bound aligned candidate occupied s bs lt small in
          (r.0, r.1, (inl (ground (arith, r.0)), r.2)))
        (λ t.
          if_both Fits (leb ((candidate + aligned) % 2 ^ 64) x.logical)
            (λ u. (
              omega arith,
              lt,
              (
                inr (ground arith),
                all_above aligned candidate x.logical occupied (ground arith) ls,
              ),
            ))
            (λ u. behind (ground arith) (
              first_fit-Misses bound aligned next occupied s bs (omega (arith, next_bounds))
                small)))
    where
      Fits : ℕ → Type 0
      Fits r = (candidate ≤ r) × (r < bound + sector_size) × All (Misses aligned r) (x ∷ occupied)

      next : ℕ
      next = round_up sector_size ((x.logical + x.len) % 2 ^ 64)

      next_bounds : (x.logical + x.len ≤ next) × (next < x.logical + x.len + sector_size)
      next_bounds =
          let m : (x.logical + x.len) % 2 ^ 64 ≡ x.logical + x.len = omega arith in
          subst
            (λ (e : ℕ).
              (e ≤ round_up sector_size ((x.logical + x.len) % 2 ^ 64))
              × (round_up sector_size ((x.logical + x.len) % 2 ^ 64) < e + sector_size))
            m (round_up-bounds ((x.logical + x.len) % 2 ^ 64) (omega (arith, m)))

      behind :
          candidate < x.logical + x.len
          → ((next ≤ first_fit sector_size aligned occupied next)
              × (first_fit sector_size aligned occupied next < bound + sector_size)
              × All (Misses aligned (first_fit sector_size aligned occupied next)) occupied)
          → Fits (first_fit sector_size aligned occupied next)
      behind above r =
          (omega (arith, r.0, next_bounds), r.1, (inl (omega (arith, r.0, next_bounds)), r.2))
