-- ===== src/Vfs/Extents/Codec.antt =====
-- Round trips of the structs of an extent tree.
use werunos.Base.{
  ℕ, ◌+◌, ◌^◌, ◌<◌, ◌≡◌, refl, ap, ◌∙◌, List, length, byte_at, index_eq, IsBytes, le-lt, le,
  le_cong, put_le, arith,
}
use werunos.Base.Holds.{Holds, le-Holds, le-field, Holds-skip}
use werunos.Vfs.Extents.{
  Extent, ExtentHeader, ExtentIdx, get_extent, put_extent, get_header, put_header, get_idx, put_idx,
}

-- The fields fit the words that hold them.
pub record IsExtent (e : Extent) : Type 0 where
  pub block : e.block < 2 ^ 32
  pub len : e.len < 2 ^ 16
  pub start_hi : e.start_hi < 2 ^ 16
  pub start_lo : e.start_lo < 2 ^ 32

pub record IsHeader (h : ExtentHeader) : Type 0 where
  pub magic : h.magic < 2 ^ 16
  pub entries : h.entries < 2 ^ 16
  pub max : h.max < 2 ^ 16
  pub depth : h.depth < 2 ^ 16
  pub generation : h.generation < 2 ^ 32

pub length-put_extent : (e : Extent) → length (put_extent e) ≡ 12
unfolding put_extent put_le
length-put_extent e = refl

pub length-put_header : (h : ExtentHeader) → length (put_header h) ≡ 12
unfolding put_header put_le
length-put_header h = refl

module _ (xs : List ℕ) (off : ℕ) where
  -- A struct that is written is read back.
  pub get-put_extent :
      (e : Extent) → IsExtent e → Holds xs off (put_extent e) → get_extent xs off ≡ e
  unfolding put_extent get_extent
  get-put_extent e f h =
      let h1 = Holds-skip 4 e.block xs off _ h in
      let h2 = Holds-skip 2 e.len xs (off + 4) _ h1 in
      let h3 = Holds-skip 2 e.start_hi xs (off + 4 + 2) (put_le 4 e.start_lo) h2 in
      ground (
        arith,
        le-field 4 e.block xs off off _ refl f.block h,
        le-field 2 e.len xs (off + 4) (off + 4) _ refl f.len h1,
        le-field 2 e.start_hi xs (off + 4 + 2) (off + 6) (put_le 4 e.start_lo) (omega arith)
            f.start_hi h2,
        ap (le 4 xs) (let q : off + 4 + 2 + 2 ≡ off + 8 = omega arith in q),
        le-Holds 4 e.start_lo xs (off + 4 + 2 + 2) f.start_lo h3,
      )

  pub get-put_idx :
      (e : ExtentIdx)
      → (e.block < 2 ^ 32) × (e.leaf_lo < 2 ^ 32) × (e.leaf_hi < 2 ^ 16) × (e.unused < 2 ^ 16)
      → Holds xs off (put_idx e)
      → get_idx xs off ≡ e
  unfolding put_idx get_idx
  get-put_idx e (fb, fl, fh, fu) h =
      let h1 = Holds-skip 4 e.block xs off _ h in
      let h2 = Holds-skip 4 e.leaf_lo xs (off + 4) _ h1 in
      let h3 = Holds-skip 2 e.leaf_hi xs (off + 4 + 4) (put_le 2 e.unused) h2 in
      ground (
        arith,
        le-field 4 e.block xs off off _ refl fb h,
        le-field 4 e.leaf_lo xs (off + 4) (off + 4) _ refl fl h1,
        le-field 2 e.leaf_hi xs (off + 4 + 4) (off + 8) (put_le 2 e.unused) (omega arith) fh h2,
        ap (le 2 xs) (let q : off + 4 + 4 + 2 ≡ off + 10 = omega arith in q),
        le-Holds 2 e.unused xs (off + 4 + 4 + 2) fu h3,
      )

  -- A struct is read from its own bytes alone.
  pub get_extent_cong :
      (ys : List ℕ) (b : ℕ)
      → ((i : ℕ) → i < 12 → byte_at xs (off + i) ≡ byte_at ys (b + i))
      → get_extent xs off ≡ get_extent ys b
  unfolding get_extent
  get_extent_cong ys b same = ground (
    arith,
    le_cong 4 xs ys off b (λ i lt. same i (omega arith)),
    le_cong 2 xs ys (off + 4) (b + 4) (λ i lt. at 4 i (omega arith)),
    le_cong 2 xs ys (off + 6) (b + 6) (λ i lt. at 6 i (omega arith)),
    le_cong 4 xs ys (off + 8) (b + 8) (λ i lt. at 8 i (omega arith)),
  )
    where
      at : (n i : ℕ) → n + i < 12 → byte_at xs (off + n + i) ≡ byte_at ys (b + n + i)
      at n i lt = index_eq xs _ _ (omega arith) ∙ same (n + i) lt ∙ index_eq ys _ _ (omega arith)

pub get-put_header :
    (xs : List ℕ) (h : ExtentHeader) → IsHeader h → Holds xs 0 (put_header h) → get_header xs ≡ h
unfolding put_header get_header
get-put_header xs h f p =
    let h1 = Holds-skip 2 h.magic xs 0 _ p in
    let h2 = Holds-skip 2 h.entries xs (0 + 2) _ h1 in
    let h3 = Holds-skip 2 h.max xs (0 + 2 + 2) _ h2 in
    let h4 = Holds-skip 2 h.depth xs (0 + 2 + 2 + 2) (put_le 4 h.generation) h3 in
    ground (
      arith,
      le-field 2 h.magic xs 0 0 _ refl f.magic p,
      le-field 2 h.entries xs 2 2 _ refl f.entries h1,
      le-field 2 h.max xs 4 4 _ refl f.max h2,
      le-field 2 h.depth xs 6 6 (put_le 4 h.generation) refl f.depth h3,
      le-Holds 4 h.generation xs 8 f.generation h4,
    )

pub get_header_cong :
    (xs ys : List ℕ)
    → ((i : ℕ) → i < 12 → byte_at xs i ≡ byte_at ys i)
    → get_header xs ≡ get_header ys
unfolding get_header
get_header_cong xs ys same = ground (
  arith,
  le_cong 2 xs ys 0 0 (λ i lt. same (0 + i) (omega arith)),
  le_cong 2 xs ys 2 2 (λ i lt. same (2 + i) (omega arith)),
  le_cong 2 xs ys 4 4 (λ i lt. same (4 + i) (omega arith)),
  le_cong 2 xs ys 6 6 (λ i lt. same (6 + i) (omega arith)),
  le_cong 4 xs ys 8 8 (λ i lt. same (8 + i) (omega arith)),
)

pub get_extent-IsExtent : (xs : List ℕ) (off : ℕ) → IsBytes xs → IsExtent (get_extent xs off)
unfolding get_extent
get_extent-IsExtent xs off h = record {
  block = le-lt 4 xs off h;
  len = le-lt 2 xs (off + 4) h;
  start_hi = le-lt 2 xs (off + 6) h;
  start_lo = le-lt 4 xs (off + 8) h;
}

pub get_header-IsHeader : (xs : List ℕ) → IsBytes xs → IsHeader (get_header xs)
unfolding get_header
get_header-IsHeader xs h = record {
  magic = le-lt 2 xs 0 h;
  entries = le-lt 2 xs 2 h;
  max = le-lt 2 xs 4 h;
  depth = le-lt 2 xs 6 h;
  generation = le-lt 4 xs 8 h;
}
