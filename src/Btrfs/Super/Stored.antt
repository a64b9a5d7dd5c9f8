-- ===== src/Btrfs/Super/Stored.antt =====
-- The superblock that is written back is read again with the fields that were written.
use werunos.Base.{
  ℕ, ◌+◌, ◌^◌, ◌≤◌, ◌<◌, ◌≡◌, refl, inl, inr, ap, sym, subst, ◌∙◌, List, [], ◌∷◌, length, drop,
  copy_at, length-copy_at, le, put_le, length-put_le, eq→==, arith,
}
use werunos.Base.Holds.{drop-copy_at_front, Holds, le-Holds, copy_at-Holds, copy_at-Holds_apart}
use werunos.Btrfs.Crc.{calc_crc32c, calc_crc32c-lt}
use werunos.Btrfs.Super.{
  SuperBlock, btrfs_magic, get_super_block, loaded, decode_super_block, written_fields, put_fields,
  put_super_block,
}

-- The fields follow each other from `lo` on, with or without gaps, and end by `len`.
unfoldable Ordered : ℕ → ℕ → List (ℕ × List ℕ) → Type 0
Ordered lo len [] = lo ≤ len
Ordered lo len ((off, bytes) ∷ fields) = (lo ≤ off) × Ordered (off + length bytes) len fields

unfoldable HoldAll : List (ℕ × List ℕ) → List ℕ → Type 0
HoldAll [] buf = Unit
HoldAll ((off, bytes) ∷ fields) buf = Holds buf off bytes × HoldAll fields buf

Ordered-fits : (fields : List (ℕ × List ℕ)) (lo len : ℕ) → Ordered lo len fields → lo ≤ len
unfolding Ordered
Ordered-fits [] lo len o = o
Ordered-fits ((off, bytes) ∷ fields) lo len (from, o) =
    omega (arith, Ordered-fits fields (off + length bytes) len o)

-- What stands in front of the fields is kept.
put_fields-Holds_before :
    (fields : List (ℕ × List ℕ)) (lo len : ℕ) (buf : List ℕ) (a : ℕ) (ys : List ℕ)
    → Ordered lo len fields
    → a + length ys ≤ lo
    → Holds buf a ys
    → Holds (put_fields fields buf) a ys
unfolding Ordered put_fields
put_fields-Holds_before [] lo len buf a ys o before h = h
put_fields-Holds_before ((off, bytes) ∷ fields) lo len buf a ys (from, o) before h =
    put_fields-Holds_before fields (off + length bytes) len (copy_at buf off bytes) a ys o
      (omega arith) (copy_at-Holds_apart buf off bytes a ys (inl (omega arith)) h)

put_fields-HoldAll :
    (fields : List (ℕ × List ℕ)) (lo : ℕ) (buf : List ℕ)
    → Ordered lo (length buf) fields
    → HoldAll fields (put_fields fields buf)
unfolding Ordered put_fields HoldAll
put_fields-HoldAll [] lo buf o = tt
put_fields-HoldAll ((off, bytes) ∷ fields) lo buf (from, o) =
    let same : length (copy_at buf off bytes) ≡ length buf = length-copy_at buf off bytes in
    (
      put_fields-Holds_before fields (off + length bytes) (length buf) (copy_at buf off bytes) off
          bytes o (omega arith)
          (copy_at-Holds buf off bytes (Ordered-fits fields (off + length bytes) (length buf) o)),
      put_fields-HoldAll fields (off + length bytes) (copy_at buf off bytes)
          (subst (λ (n : ℕ). Ordered (off + length bytes) n fields) (sym same) o),
    )

-- What is put in front of the fields leaves them as they are.
copy_at-HoldAll :
    (fields : List (ℕ × List ℕ)) (lo len : ℕ) (buf bytes : List ℕ)
    → Ordered lo len fields
    → length bytes ≤ lo
    → HoldAll fields buf
    → HoldAll fields (copy_at buf 0 bytes)
unfolding Ordered HoldAll
copy_at-HoldAll [] lo len buf bytes o before h = tt
copy_at-HoldAll ((off, ys) ∷ fields) lo len buf bytes (from, o) before (h, hs) = (
  copy_at-Holds_apart buf 0 bytes off ys (inr (omega arith)) h,
  copy_at-HoldAll fields (off + length ys) len buf bytes o (omega arith) hs,
)

length-put_fields :
    (fields : List (ℕ × List ℕ)) (buf : List ℕ) → length (put_fields fields buf) ≡ length buf
unfolding put_fields
length-put_fields [] buf = refl
length-put_fields ((off, bytes) ∷ fields) buf =
    length-put_fields fields (copy_at buf off bytes) ∙ length-copy_at buf off bytes

written_fields-Ordered : (sb : SuperBlock) (len : ℕ) → 201 ≤ len → Ordered 4 len (written_fields sb)
unfolding Ordered put_le
written_fields-Ordered sb len wide = (
  omega arith,
  (
    omega arith,
    (
      omega arith,
      (
        omega arith,
        (
          omega arith,
          (
            omega arith,
            (
              omega arith,
              (
                omega arith,
                (omega arith, (omega arith, (omega arith, (omega arith, (omega arith, wide))))),
              ),
            ),
          ),
        ),
      ),
    ),
  ),
)

-- Each field is one of its width.
pub record InRange (sb : SuperBlock) : Type 0 where
  pub bytenr : sb.bytenr < 256 ^ 8
  pub flags : sb.flags < 256 ^ 8
  pub magic : sb.magic < 256 ^ 8
  pub generation : sb.generation < 256 ^ 8
  pub root : sb.root < 256 ^ 8
  pub chunk_root : sb.chunk_root < 256 ^ 8
  pub log_root : sb.log_root < 256 ^ 8
  pub log_root_transid : sb.log_root_transid < 256 ^ 8
  pub total_bytes : sb.total_bytes < 256 ^ 8
  pub bytes_used : sb.bytes_used < 256 ^ 8
  pub root_level : sb.root_level < 256 ^ 1
  pub chunk_root_level : sb.chunk_root_level < 256 ^ 1
  pub log_root_level : sb.log_root_level < 256 ^ 1

-- The superblock that was read has the fields that are written from `sb`, and its checksum is that of its bytes.
pub record IsStored (sb got : SuperBlock) (out : List ℕ) : Type 0 where
  pub bytenr : got.bytenr ≡ sb.bytenr
  pub flags : got.flags ≡ sb.flags
  pub magic : got.magic ≡ sb.magic
  pub generation : got.generation ≡ sb.generation
  pub root : got.root ≡ sb.root
  pub chunk_root : got.chunk_root ≡ sb.chunk_root
  pub log_root : got.log_root ≡ sb.log_root
  pub log_root_transid : got.log_root_transid ≡ sb.log_root_transid
  pub total_bytes : got.total_bytes ≡ sb.total_bytes
  pub bytes_used : got.bytes_used ≡ sb.bytes_used
  pub root_level : got.root_level ≡ sb.root_level
  pub chunk_root_level : got.chunk_root_level ≡ sb.chunk_root_level
  pub log_root_level : got.log_root_level ≡ sb.log_root_level
  pub checksum : le 4 out 0 ≡ calc_crc32c (drop 32 out)

-- A superblock of the right magic, written into 201 bytes or more, is read again: it has the fields that were written, and the
-- checksum at its front is that of the bytes from 32 on.
pub decode_super_block-put_super_block :
    (sb : SuperBlock) (buf : List ℕ)
    → InRange sb
    → sb.magic ≡ btrfs_magic
    → 201 ≤ length buf
    → (decode_super_block (put_super_block sb buf)
        ≡ loaded (get_super_block (put_super_block sb buf)))
      × IsStored sb (get_super_block (put_super_block sb buf)) (put_super_block sb buf)
unfolding put_super_block decode_super_block HoldAll
decode_super_block-put_super_block sb buf range magic wide =
    let fields : List (ℕ × List ℕ) = written_fields sb in
    let body : List ℕ = put_fields fields buf in
    let sum : ℕ = calc_crc32c (drop 32 body) in
    let out : List ℕ = put_super_block sb buf in
    let front : length (put_le 4 sum) ≡ 4 = length-put_le 4 sum in
    let o : Ordered 4 (length buf) fields = written_fields-Ordered sb (length buf) wide in
    let all : HoldAll fields out =
      copy_at-HoldAll fields 4 (length buf) body (put_le 4 sum) o (omega (arith, front))
        (put_fields-HoldAll fields 4 buf o) in
    let (h0, (h1, (h2, (h3, (h4, (h5, (h6, (h7, (h8, (h9, (h10, (h11, (h12, _))))))))))))) = all in
    let m : le 8 out 64 ≡ sb.magic = le-Holds 8 sb.magic out 64 range.magic h2 in
    (
      rw (eq→== (le 8 out 64) btrfs_magic (m ∙ magic)) refl,
      record {
        bytenr = le-Holds 8 sb.bytenr out 48 range.bytenr h0;
        flags = le-Holds 8 sb.flags out 56 range.flags h1;
        magic = le-Holds 8 sb.magic out 64 range.magic h2;
        generation = le-Holds 8 sb.generation out 72 range.generation h3;
        root = le-Holds 8 sb.root out 80 range.root h4;
        chunk_root = le-Holds 8 sb.chunk_root out 88 range.chunk_root h5;
        log_root = le-Holds 8 sb.log_root out 96 range.log_root h6;
        log_root_transid = le-Holds 8 sb.log_root_transid out 104 range.log_root_transid h7;
        total_bytes = le-Holds 8 sb.total_bytes out 112 range.total_bytes h8;
        bytes_used = le-Holds 8 sb.bytes_used out 120 range.bytes_used h9;
        root_level = le-Holds 1 sb.root_level out 198 range.root_level h10;
        chunk_root_level = le-Holds 1 sb.chunk_root_level out 199 range.chunk_root_level h11;
        log_root_level = le-Holds 1 sb.log_root_level out 200 range.log_root_level h12;
        checksum =
            le-Holds 4 sum out 0 (calc_crc32c-lt (drop 32 body)) (
              copy_at-Holds body 0 (put_le 4 sum)
                (omega (arith, front, length-put_fields fields buf)))
            ∙ ap calc_crc32c
                (sym (drop-copy_at_front 32 body (put_le 4 sum) (omega (arith, front))));
      },
    )
