-- ===== src/Vfs/Extents.antt =====
-- vfs/extents.go: the extent trees of ext4 inodes, and `findPhysicalBlock` of vfs/writer.go.
pub mod Codec
pub mod Find
pub mod Cycle
use werunos.Base.{
  ℕ, zero, suc, ◌+◌, ◌-◌, ◌*◌, ◌/◌, ◌%◌, ◌^◌, Bool, true, false, not, ◌&&◌, Option, none, some,
  List, [], ◌∷◌, ◌++◌, length, zeros, copy_at, slice, le, put_le, ltb, leb, ◌==◌, if◌then◌else◌,
}
use werunos.Block.Device.{IoError, Reply}
use werunos.Block.Mbr.{ReaderAt}

pub record ExtentHeader : Type 0 where
  pub magic : ℕ
  pub entries : ℕ
  pub max : ℕ
  pub depth : ℕ
  pub generation : ℕ

pub record Extent : Type 0 where
  pub block : ℕ
  pub len : ℕ
  pub start_hi : ℕ
  pub start_lo : ℕ

pub record ExtentIdx : Type 0 where
  pub block : ℕ
  pub leaf_lo : ℕ
  pub leaf_hi : ℕ
  pub unused : ℕ

abbrev pub ext_magic : ℕ
ext_magic = 0xf30a

abbrev pub header_size : ℕ
header_size = 12

abbrev pub entry_size : ℕ
entry_size = 12

-- `binary.Read` and `binary.Write` of the three structs.
unfoldable pub get_header : List ℕ → ExtentHeader
get_header xs = record {
  magic = le 2 xs 0;
  entries = le 2 xs 2;
  max = le 2 xs 4;
  depth = le 2 xs 6;
  generation = le 4 xs 8;
}

unfoldable pub put_header : ExtentHeader → List ℕ
put_header h =
    put_le 2 h.magic
    ++ (put_le 2 h.entries ++ (put_le 2 h.max ++ (put_le 2 h.depth ++ put_le 4 h.generation)))

unfoldable pub get_extent : List ℕ → ℕ → Extent
get_extent xs off = record {
  block = le 4 xs off;
  len = le 2 xs (off + 4);
  start_hi = le 2 xs (off + 6);
  start_lo = le 4 xs (off + 8);
}

unfoldable pub put_extent : Extent → List ℕ
put_extent e = put_le 4 e.block ++ (put_le 2 e.len ++ (put_le 2 e.start_hi ++ put_le 4 e.start_lo))

unfoldable pub get_idx : List ℕ → ℕ → ExtentIdx
get_idx xs off = record {
  block = le 4 xs off;
  leaf_lo = le 4 xs (off + 4);
  leaf_hi = le 2 xs (off + 8);
  unused = le 2 xs (off + 10);
}

unfoldable pub put_idx : ExtentIdx → List ℕ
put_idx e = put_le 4 e.block ++ (put_le 4 e.leaf_lo ++ (put_le 2 e.leaf_hi ++ put_le 2 e.unused))

pub data ExtentError : Type 0 where
  no_extents too_small bad_magic beyond_node read_failed : ExtentError

-- `stuck` is no Go value: the recursion of `parseExtentNode` was cut off.
pub data Parse {ℓ} (A : Type ℓ) : Type ℓ where
  ok : A → Parse A
  err : ExtentError → Parse A
  stuck : Parse A

infixl 5 ◌>>=◌
abbrev pub ◌>>=◌ {ℓ κ} : {A : Type ℓ} {B : Type κ} → Parse A → (A → Parse B) → Parse B
ok a >>= f = f a
err e >>= f = err e
stuck >>= f = stuck

-- `parseLeafEntries`, from entry `i` on with `n` entries left, over what follows the header.
unfoldable pub leaf_entries : List ℕ → ℕ → ℕ → List Extent → Parse (List Extent)
leaf_entries xs zero i extents = ok extents
leaf_entries xs (suc n) i extents =
    let offset = i * entry_size in
    let rest = leaf_entries xs n (i + 1) (extents ++ (get_extent xs offset ∷ [])) in
    if ltb (length xs) (offset + entry_size) then err beyond_node else rest

abbrev pub child_block : ExtentIdx → ℕ
child_block idx = idx.leaf_hi * 2 ^ 32 + idx.leaf_lo

module _ (disk : ReaderAt) (block_size : ℕ) where
  unfoldable pub read_child : ℕ → Parse (List ℕ)
  read_child block =
      let r = disk (block * block_size % 2 ^ 64) block_size in
      elim r.err [ some e ↦ err read_failed | none ↦ ok (copy_at (zeros block_size) 0 r.bytes) ]

  -- The loop over the index entries of a node, each child read by `node`.
  unfoldable pub index_entries :
      (List ℕ → Parse (List Extent)) → List ℕ → ℕ → ℕ → List Extent → Parse (List Extent)
  index_entries node xs zero i all = ok all
  index_entries node xs (suc n) i all =
      let offset = header_size + i * entry_size in
      let rest : Parse (List Extent) = (do
        child ← read_child (child_block (get_idx xs offset))
        extents ← node child
        index_entries node xs n (i + 1) (all ++ extents)) in
      if ltb (length xs) (offset + entry_size) then err beyond_node else rest

  -- `parseExtentNode`, to a depth of `fuel` nodes.
  unfoldable pub parse_node : ℕ → List ℕ → Parse (List Extent)
  parse_node zero xs = stuck
  parse_node (suc fuel) xs =
      let hdr = get_header xs in
      let leaf = leaf_entries (slice xs header_size (length xs - header_size)) hdr.entries 0 [] in
      let node = index_entries (parse_node fuel) xs hdr.entries 0 [] in
      if ltb (length xs) header_size
      then err too_small
      else if not (hdr.magic == ext_magic)
      then err bad_magic
      else if hdr.depth == 0
      then leaf
      else node

-- The flag of `EE_len` that marks an extent without data, and the number of blocks.
abbrev pub uninitialized : Extent → Bool
uninitialized e = not (e.len / 2 ^ 15 % 2 == 0)

abbrev pub block_count : Extent → ℕ
block_count e = e.len % 2 ^ 15

abbrev pub phys_start : Extent → ℕ
phys_start e = e.start_hi * 2 ^ 32 + e.start_lo

unfoldable pub find_physical_block : List Extent → ℕ → Option ℕ
find_physical_block [] logical = none
find_physical_block (e ∷ extents) logical =
    let rest = find_physical_block extents logical in
    if uninitialized e
    then rest
    else if leb e.block logical && ltb logical ((e.block + block_count e) % 2 ^ 32)
    then some (phys_start e + (logical - e.block))
    else rest
