-- ===== src/Base/Bytes.antt =====
-- Buffers of bytes: `make`, `copy` and slicing of Go, and little-endian fields.
use Prim.Native.Nat.{ℕ, zero, suc, ◌+◌, ◌-◌, ◌*◌, ◌/◌, ◌%◌, ◌^◌, ◌<◌, ◌≤◌, min}
use mathlib.Core.Path.{◌≡◌, refl, ap, ap₂, ◌∙◌}
use mathlib.Core.Bool.{Bool, true, ◌&&◌}
use mathlib.Core.List.{List, [], ◌∷◌}
use native.Mathlib.Nat.{pow-suc}
use native.Mathlib.Omega.{arith}
use mathlib.Core.Logic.{◌⊎◌, inl, inr}
use werunos.Base.Tests.{ltb, leb, ◌==◌, if◌then◌else◌, Bool-cases, leb→le, ltb→lt, ltb-false→le}
use werunos.Base.Lists.{
  length, set, All, get_or, take, drop, replicate, length-replicate, get_or-take, get_or-drop,
  get_or-past, length-take, length-drop,
}

-- `xs[i]`; past the end, where Go panics, it is 0.
abbrev pub byte_at : List ℕ → ℕ → ℕ
byte_at xs i = get_or xs i 0

pub index_eq : (xs : List ℕ) (i j : ℕ) → i ≡ j → byte_at xs i ≡ byte_at xs j
index_eq xs i j e = ap (byte_at xs) e

-- `copy(xs[off:], ys)`: no byte past the end of `xs` is written.
unfoldable pub copy_at : List ℕ → ℕ → List ℕ → List ℕ
copy_at [] off ys = []
copy_at (x ∷ xs) zero [] = x ∷ xs
copy_at (x ∷ xs) zero (y ∷ ys) = y ∷ copy_at xs zero ys
copy_at (x ∷ xs) (suc off) ys = x ∷ copy_at xs off ys

-- `make([]byte, n)`
abbrev pub zeros : ℕ → List ℕ
zeros n = replicate n 0

-- `xs[off : off+n]`
abbrev pub slice : List ℕ → ℕ → ℕ → List ℕ
slice xs off n = take n (drop off xs)

-- The position `i` lies in the range of `n` bytes at `off`.
abbrev pub inside : ℕ → ℕ → ℕ → Bool
inside off n i = leb off i && ltb i (off + n)

-- A byte function, with the bytes `ys` put over it at `off`.
abbrev pub patch : (ℕ → ℕ) → ℕ → List ℕ → ℕ → ℕ
patch f off ys i = if inside off (length ys) i then byte_at ys (i - off) else f i

pub length-copy_at : (xs : List ℕ) (off : ℕ) (ys : List ℕ) → length (copy_at xs off ys) ≡ length xs
unfolding copy_at
length-copy_at [] off ys = refl
length-copy_at (x ∷ xs) zero [] = refl
length-copy_at (x ∷ xs) zero (y ∷ ys) = ap suc (length-copy_at xs zero ys)
length-copy_at (x ∷ xs) (suc off) ys = ap suc (length-copy_at xs off ys)

pub byte_at-copy_at :
    (xs : List ℕ) (off : ℕ) (ys : List ℕ) (i : ℕ)
    → i < length xs
    → byte_at (copy_at xs off ys) i ≡ patch (byte_at xs) off ys i
unfolding copy_at
byte_at-copy_at [] off ys i h = elim h [ ]
byte_at-copy_at (x ∷ xs) zero [] i h = ground arith
byte_at-copy_at (x ∷ xs) zero (y ∷ ys) zero h = ground arith
byte_at-copy_at (x ∷ xs) zero (y ∷ ys) (suc i) h = ground (
  arith,
  byte_at-copy_at xs zero ys i (omega arith),
  index_eq (y ∷ ys) (suc i - 0) (suc i) (omega arith),
  index_eq ys (i - 0) i (omega arith),
)
byte_at-copy_at (x ∷ xs) (suc off) ys zero h = ground arith
byte_at-copy_at (x ∷ xs) (suc off) ys (suc i) h = ground (
  arith,
  byte_at-copy_at xs off ys i (omega arith),
  index_eq ys (suc i - suc off) (i - off) (omega arith),
)

pub byte_at-zeros : (n i : ℕ) → byte_at (zeros n) i ≡ 0
byte_at-zeros zero i = refl
byte_at-zeros (suc n) zero = refl
byte_at-zeros (suc n) (suc i) = byte_at-zeros n i

-- A buffer of zeros into which `xs` is read.
pub byte_at-filled :
    (total : ℕ) (xs : List ℕ) (i : ℕ)
    → i < total
    → byte_at (copy_at (zeros total) 0 xs) i ≡ byte_at xs i
byte_at-filled total xs i h =
    byte_at-copy_at (zeros total) 0 xs i (omega (arith, length-replicate total (zero)))
    ∙ ground (arith, byte_at-zeros total i, get_or-past xs i 0, index_eq xs (i - 0) i (omega arith))

pub length-filled : (total : ℕ) (xs : List ℕ) → length (copy_at (zeros total) 0 xs) ≡ total
length-filled total xs = length-copy_at (zeros total) 0 xs ∙ length-replicate total 0

pub byte_at-slice :
    (xs : List ℕ) (off n i : ℕ) → i < n → byte_at (slice xs off n) i ≡ byte_at xs (off + i)
byte_at-slice xs off n i h = get_or-take n (drop off xs) i 0 h ∙ get_or-drop off xs i 0

pub length-slice : (xs : List ℕ) (off n : ℕ) → length (slice xs off n) ≡ min n (length xs - off)
length-slice xs off n = omega (arith, length-take n (drop off xs), length-drop off xs)

pub patch_cong :
    (f g : ℕ → ℕ) (off : ℕ) (ys : List ℕ) (i : ℕ) → f i ≡ g i → patch f off ys i ≡ patch g off ys i
patch_cong f g off ys i e = ground arith

pub patch_empty :
    (f : ℕ → ℕ) (off : ℕ) (ys : List ℕ) (i : ℕ) → length ys ≡ 0 → patch f off ys i ≡ f i
patch_empty f off ys i e = ground arith

-- A little-endian number of `k` bytes at `off`, and its bytes.
unfoldable pub le : ℕ → List ℕ → ℕ → ℕ
le zero xs off = 0
le (suc k) xs off = byte_at xs off + 256 * le k xs (off + 1)

unfoldable pub put_le : ℕ → ℕ → List ℕ
put_le zero v = []
put_le (suc k) v = (v % 256) ∷ put_le k (v / 256)

abbrev pub IsBytes : List ℕ → Type 0
IsBytes = All (λ b. b < 256)

pub length-put_le : (k v : ℕ) → length (put_le k v) ≡ k
unfolding put_le
length-put_le zero v = refl
length-put_le (suc k) v = ap suc (length-put_le k (v / 256))

pub put_le-IsBytes : (k v : ℕ) → IsBytes (put_le k v)
unfolding put_le
put_le-IsBytes zero v = tt
put_le-IsBytes (suc k) v = (omega arith, put_le-IsBytes k (v / 256))

-- `le` depends on its own bytes alone.
pub le_cong :
    (k : ℕ) (xs ys : List ℕ) (a b : ℕ)
    → ((i : ℕ) → i < k → byte_at xs (a + i) ≡ byte_at ys (b + i))
    → le k xs a ≡ le k ys b
unfolding le
le_cong zero xs ys a b h = refl
le_cong (suc k) xs ys a b h = omega (
  arith,
  index_eq xs (a + 0) a (omega arith),
  index_eq ys (b + 0) b (omega arith),
  h 0 (omega arith),
  le_cong k xs ys (a + 1) (b + 1) λ i lt.
      index_eq xs (a + 1 + i) (a + suc i) (omega arith)
      ∙ h (suc i) (omega arith)
      ∙ index_eq ys (b + suc i) (b + 1 + i) (omega arith),
)

pub le-put_le : (k v : ℕ) → v < 256 ^ k → le k (put_le k v) 0 ≡ v
unfolding le put_le
le-put_le zero v h = omega arith
le-put_le (suc k) v h = omega (
  arith,
  pow-suc 256 k,
  le-put_le k (v / 256) (omega (arith, pow-suc 256 k)),
  le_cong k ((v % 256) ∷ put_le k (v / 256)) (put_le k (v / 256)) 1 0 λ i lt.
      index_eq ((v % 256) ∷ put_le k (v / 256)) (1 + i) (suc i) (omega arith)
      ∙ index_eq (put_le k (v / 256)) i (0 + i) (omega arith),
)

pub byte_at-lt : (xs : List ℕ) (i : ℕ) → IsBytes xs → byte_at xs i < 256
byte_at-lt [] i h = omega arith
byte_at-lt (x ∷ xs) zero h = h.0
byte_at-lt (x ∷ xs) (suc i) h = byte_at-lt xs i h.1

pub le-lt : (k : ℕ) (xs : List ℕ) (off : ℕ) → IsBytes xs → le k xs off < 256 ^ k
unfolding le
le-lt zero xs off h = omega arith
le-lt (suc k) xs off h = omega (arith, pow-suc 256 k, byte_at-lt xs off h, le-lt k xs (off + 1) h)

pub copy_at-IsBytes :
    (xs : List ℕ) (off : ℕ) (ys : List ℕ) → IsBytes xs → IsBytes ys → IsBytes (copy_at xs off ys)
unfolding copy_at
copy_at-IsBytes [] off ys h k = tt
copy_at-IsBytes (x ∷ xs) zero [] h k = h
copy_at-IsBytes (x ∷ xs) zero (y ∷ ys) h k = (k.0, copy_at-IsBytes xs zero ys h.1 k.1)
copy_at-IsBytes (x ∷ xs) (suc off) ys h k = (h.0, copy_at-IsBytes xs off ys h.1 k)

pub zeros-IsBytes : (n : ℕ) → IsBytes (zeros n)
zeros-IsBytes zero = tt
zeros-IsBytes (suc n) = (omega arith, zeros-IsBytes n)

pub patch_inside :
    (f : ℕ → ℕ) (off : ℕ) (ys : List ℕ) (i : ℕ)
    → off ≤ i
    → i < off + length ys
    → patch f off ys i ≡ byte_at ys (i - off)
patch_inside f off ys i lo hi = ground arith

pub patch_outside :
    (f : ℕ → ℕ) (off : ℕ) (ys : List ℕ) (i : ℕ)
    → (i < off) ⊎ (off + length ys ≤ i)
    → patch f off ys i ≡ f i
patch_outside f off ys i out = ground arith

pub range_split : (off n i : ℕ) → ((off ≤ i) × (i < off + n)) ⊎ ((i < off) ⊎ (off + n ≤ i))
range_split off n i = elim (Bool-cases (leb off i)) [
  | inr lo ↦ inr (inl (ground arith))
  | inl lo ↦ elim (Bool-cases (ltb i (off + n))) [
    | inl hi ↦ inl (leb→le _ _ lo, ltb→lt _ _ hi)
    | inr hi ↦ inr (inr (ltb-false→le _ _ hi))
  ]
]

abbrev pub are_bytes : List ℕ → Bool
are_bytes [] = true
are_bytes (x ∷ xs) = ltb x 256 && are_bytes xs

pub are_bytes→IsBytes : (xs : List ℕ) → are_bytes xs ≡ true → IsBytes xs
are_bytes→IsBytes [] h = tt
are_bytes→IsBytes (x ∷ xs) h = (ground arith, are_bytes→IsBytes xs (ground arith))

pub length-set : (xs : List ℕ) (i v : ℕ) → length (set xs i v) ≡ length xs
length-set [] i v = refl
length-set (x ∷ xs) zero v = refl
length-set (x ∷ xs) (suc i) v = ap suc (length-set xs i v)

byte_at-set :
    (xs : List ℕ) (i v j : ℕ)
    → i < length xs
    → byte_at (set xs i v) j ≡ (if j == i then v else byte_at xs j)
byte_at-set [] i v j lt = absurd (omega arith)
byte_at-set (x ∷ xs) zero v zero lt = refl
byte_at-set (x ∷ xs) zero v (suc j) lt = ground arith
byte_at-set (x ∷ xs) (suc i) v zero lt = ground arith
byte_at-set (x ∷ xs) (suc i) v (suc j) lt = byte_at-set xs i v j (omega arith) ∙ ground arith

-- A copy of the bytes at `off`, one of them changed, put back over them.
pub patch-set :
    (f : ℕ → ℕ) (off : ℕ) (xs : List ℕ) (idx v i : ℕ)
    → ((j : ℕ) → j < length xs → byte_at xs j ≡ f (off + j))
    → idx < length xs
    → patch f off (set xs idx v) i ≡ (if i == off + idx then v else f i)
patch-set f off xs idx v i same lt = elim (range_split off (length xs) i) [
  | inl (lo, hi) ↦
      patch_inside f off (set xs idx v) i lo (omega (arith, length-set xs idx v))
      ∙ byte_at-set xs idx v (i - off) lt
      ∙ ground (
        arith,
        same (i - off) (omega arith),
        ap f (let e : off + (i - off) ≡ i = omega arith in e),
      )
  | inr out ↦
      patch_outside f off (set xs idx v) i (omega (arith, length-set xs idx v)) ∙ ground arith
]

pub same_lists :
    (xs ys : List ℕ)
    → length xs ≡ length ys
    → ((i : ℕ) → i < length ys → byte_at xs i ≡ byte_at ys i)
    → xs ≡ ys
same_lists [] [] e h = refl
same_lists [] (y ∷ ys) e h = absurd (omega arith)
same_lists (x ∷ xs) [] e h = absurd (omega arith)
same_lists (x ∷ xs) (y ∷ ys) e h =
    ap₂ (λ a l. a ∷ l) (h 0 (omega arith))
      (same_lists xs ys (omega arith) λ i lt. h (suc i) (omega arith))

pub byte_at-IsBytes : (xs : List ℕ) → ((i : ℕ) → i < length xs → byte_at xs i < 256) → IsBytes xs
byte_at-IsBytes [] h = tt
byte_at-IsBytes (x ∷ xs) h = (h 0 (omega arith), byte_at-IsBytes xs λ i lt. h (suc i) (omega arith))
