-- ===== src/Vfs/Alloc/Bits.antt =====
-- Bits of a bitmap: the tests and the changes of vfs/allocate.go and vfs/reclaim.go, and the search
-- for a clear bit.
use werunos.Base.{
  ℕ, zero, suc, ◌+◌, ◌-◌, ◌/◌, ◌%◌, ◌^◌, ◌≤◌, ◌<◌, ◌≡◌, refl, ap, ◌∙◌, Bool, true, false, not, ◌&&◌,
  Option, none, some, List, [], ◌∷◌, length, byte_at, ◌==◌, if◌then◌else◌, if_both, Bool-cases, inl,
  inr, arith, ==→eq, index_eq,
}

-- `b & (1 << bit) == 0`
unfoldable pub bit_clear : ℕ → ℕ → Bool
bit_clear b bit = b / 2 ^ bit % 2 == 0

-- `b | (1 << bit)` and `b &^ (1 << bit)`
unfoldable pub with_bit : ℕ → ℕ → ℕ
unfolding bit_clear
with_bit b bit = if bit_clear b bit then b + 2 ^ bit else b

unfoldable pub without_bit : ℕ → ℕ → ℕ
unfolding bit_clear
without_bit b bit = if bit_clear b bit then b else b - 2 ^ bit

-- The loop over the bits of a byte, from `bit` on with `n` left.
unfoldable pub scan_bits : ℕ → ℕ → ℕ → Option ℕ
scan_bits b zero bit = none
scan_bits b (suc n) bit =
    let rest = scan_bits b n (bit + 1) in if bit_clear b bit then some bit else rest

-- The loop over the bytes of a bitmap, the first of which has the index `idx` and is searched from
-- bit `min_bit` on.
unfoldable pub scan : List ℕ → ℕ → ℕ → Option (ℕ × ℕ)
scan [] idx min_bit = none
scan (b ∷ bs) idx min_bit =
    let rest = scan bs (idx + 1) 0 in
    if b == 0xff
    then rest
    else elim (scan_bits b (8 - min_bit) min_bit) [ some bit ↦ some (idx, bit) | none ↦ rest ]

-- What the search of `n` bits from `bit` on finds.
abbrev FoundBit : ℕ → ℕ → ℕ → Option ℕ → Type 0
FoundBit b n bit none = (k : ℕ) → bit ≤ k → k < bit + n → bit_clear b k ≡ false
FoundBit b n bit (some k) = (bit_clear b k ≡ true) × (bit ≤ k) × (k < bit + n)

FoundBit-next :
    (b n bit : ℕ) (o : Option ℕ)
    → bit_clear b bit ≡ false
    → FoundBit b n (bit + 1) o
    → FoundBit b (suc n) bit o
FoundBit-next b n bit none c h = λ k lo hi. elim (Bool-cases (k == bit)) [
  | inl e ↦ ap (bit_clear b) (==→eq k bit e) ∙ c
  | inr e ↦ h k (ground arith) (omega arith)
]
FoundBit-next b n bit (some k) c (e, lo, hi) = (e, omega arith, omega arith)

scan_bits-FoundBit : (b n bit : ℕ) → FoundBit b n bit (scan_bits b n bit)
unfolding scan_bits
scan_bits-FoundBit b zero bit = λ k lo hi. absurd (omega arith)
scan_bits-FoundBit b (suc n) bit =
    if_both (FoundBit b (suc n) bit) (bit_clear b bit) (λ c. (c, omega arith, omega arith))
      λ c. FoundBit-next b n bit (scan_bits b n (bit + 1)) c (scan_bits-FoundBit b n (bit + 1))

abbrev below : (ℕ → Bool) → ℕ → Bool
below f zero = true
below f (suc n) = f n && below f n

below_lem : (f : ℕ → Bool) (n k : ℕ) → below f n ≡ true → k < n → f k ≡ true
below_lem f zero k h lt = absurd (omega arith)
below_lem f (suc n) k h lt = elim (Bool-cases (k == n)) [
  | inl e ↦ ap f (==→eq k n e) ∙ ground arith
  | inr e ↦ below_lem f n k (ground arith) (ground arith)
]

full_byte : (k : ℕ) → k < 8 → bit_clear 0xff k ≡ false
unfolding bit_clear
full_byte k lt = ground (arith, below_lem (λ j. not (bit_clear 0xff j)) 8 k refl lt)

-- The search of a bitmap finds a clear bit, or there is none from its first bit on.
abbrev pub Found : List ℕ → ℕ → ℕ → Option (ℕ × ℕ) → Type 0
Found bs idx min_bit none =
    (i k : ℕ) → i < length bs → k < 8 → (i ≡ 0 → min_bit ≤ k) → bit_clear (byte_at bs i) k ≡ false
Found bs idx min_bit (some (j, k)) =
    (bit_clear (byte_at bs (j - idx)) k ≡ true)
    × (idx ≤ j)
    × (j < idx + length bs)
    × (k < 8)
    × (j ≡ idx → min_bit ≤ k)

Found-next :
    (b : ℕ) (bs : List ℕ) (idx min_bit : ℕ) (o : Option (ℕ × ℕ))
    → ((k : ℕ) → min_bit ≤ k → k < 8 → bit_clear b k ≡ false)
    → Found bs (idx + 1) 0 o
    → Found (b ∷ bs) idx min_bit o
Found-next b bs idx m none c h = λ i k lt l8 from.
    elim i
        as (λ (j : ℕ).
          (j < suc (length bs)) → (j ≡ 0 → m ≤ k) → bit_clear (byte_at (b ∷ bs) j) k ≡ false) [
            | zero ↦ λ l f. c k (f refl) l8
            | suc j ↦ λ l f. h j k (omega arith) l8 (λ _. omega arith)
          ]
      lt from
Found-next b bs idx m (some (j, k)) c (e, lo, hi, l8, _) = (
  ap (λ x. bit_clear x k) (index_eq (b ∷ bs) (j - idx) (suc (j - (idx + 1))) (omega arith)) ∙ e,
  omega arith,
  omega arith,
  l8,
  λ q. absurd (omega arith),
)

Found-in_byte :
    (b : ℕ) (bs : List ℕ) (idx m : ℕ) (o : Option ℕ)
    → Found bs (idx + 1) 0 (scan bs (idx + 1) 0)
    → m ≤ 8
    → FoundBit b (8 - m) m o
    → Found (b ∷ bs) idx m (elim o [ some bit ↦ some (idx, bit) | none ↦ scan bs (idx + 1) 0 ])
Found-in_byte b bs idx m none rest le h =
    Found-next b bs idx m (scan bs (idx + 1) 0) (λ k lo hi. h k lo (omega arith)) rest
Found-in_byte b bs idx m (some k) rest le (e, lo, hi) = (
  ap (λ x. bit_clear x k) (index_eq (b ∷ bs) (idx - idx) 0 (omega arith)) ∙ e,
  omega arith,
  omega arith,
  omega arith,
  λ _. lo,
)

pub scan-Found :
    (bs : List ℕ) (idx min_bit : ℕ) → min_bit ≤ 8 → Found bs idx min_bit (scan bs idx min_bit)
unfolding scan
scan-Found [] idx m le = λ i k lt l8 from. absurd (omega arith)
scan-Found (b ∷ bs) idx m le =
    if_both (Found (b ∷ bs) idx m) (b == 0xff)
      (λ e.
        Found-next b bs idx m (scan bs (idx + 1) 0)
          (λ k lo hi. ap (λ (x : ℕ). bit_clear x k) (==→eq b 0xff e) ∙ full_byte k hi)
          (scan-Found bs (idx + 1) 0 (omega arith)))
      λ _.
        Found-in_byte b bs idx m (scan_bits b (8 - m) m) (scan-Found bs (idx + 1) 0 (omega arith))
          le (scan_bits-FoundBit b (8 - m) m)
