-- ===== src/Btrfs/Types.antt =====
-- btrfs/types.go: keys, the byte reader, and what the nodes of a tree begin with.
pub mod Order
pub mod Decode
use werunos.Base.{
  ℕ, ◌+◌, ◌-◌, ◌≤◌, Bool, Option, none, some, List, length, ltb, ◌==◌, not, if◌then◌else◌, slice,
  le,
}

-- A reader of a buffer, at an offset. A method that meets the end of the buffer panics, which is `none`.
pub record ByteReader : Type 0 where
  pub buf : List ℕ
  pub off : ℕ

infixl 5 ◌>>=◌
abbrev pub ◌>>=◌ {ℓ κ} : {A : Type ℓ} {B : Type κ} → Option A → (A → Option B) → Option B
some a >>= f = f a
none >>= f = none

-- `u8`, `u16`, `u32` and `u64` are the words of 1, 2, 4 and 8 bytes.
unfoldable pub word : ℕ → ByteReader → Option (ℕ × ByteReader)
word k r =
    if ltb (length r.buf) (r.off + k)
    then none
    else some (le k r.buf r.off, record r { off = r.off + k })

-- `copy` into an array of `n` bytes.
unfoldable pub take_bytes : ℕ → ByteReader → Option (List ℕ × ByteReader)
take_bytes n r =
    if ltb (length r.buf) (r.off + n)
    then none
    else some (slice r.buf r.off n, record r { off = r.off + n })

abbrev pub skip : ℕ → ByteReader → ByteReader
skip n r = record r { off = r.off + n }

pub record Key : Type 0 where
  pub objectid : ℕ
  pub typ : ℕ
  pub offset : ℕ

unfoldable pub less : Key → Key → Bool
less k other =
    if not (k.objectid == other.objectid)
    then ltb k.objectid other.objectid
    else if not (k.typ == other.typ)
    then ltb k.typ other.typ
    else ltb k.offset other.offset

unfoldable pub decode_key : ByteReader → Option (Key × ByteReader)
decode_key r = do
  (objectid, r1) ← word 8 r
  (typ, r2) ← word 1 r1
  (offset, r3) ← word 8 r2
  some (record { objectid = objectid; typ = typ; offset = offset }, r3)

pub record NodeHeader : Type 0 where
  pub csum : List ℕ
  pub fsid : List ℕ
  pub bytenr : ℕ
  pub flags : ℕ
  pub chunk_uuid : List ℕ
  pub generation : ℕ
  pub owner : ℕ
  pub nritems : ℕ
  pub level : ℕ

unfoldable pub decode_node_header : ByteReader → Option (NodeHeader × ByteReader)
decode_node_header r = do
  (csum, r1) ← take_bytes 32 r
  (fsid, r2) ← take_bytes 16 r1
  (bytenr, r3) ← word 8 r2
  (flags, r4) ← word 8 r3
  (chunk_uuid, r5) ← take_bytes 16 r4
  (generation, r6) ← word 8 r5
  (owner, r7) ← word 8 r6
  (nritems, r8) ← word 4 r7
  (level, r9) ← word 1 r8
  some (
    record {
      csum = csum;
      fsid = fsid;
      bytenr = bytenr;
      flags = flags;
      chunk_uuid = chunk_uuid;
      generation = generation;
      owner = owner;
      nritems = nritems;
      level = level;
    },
    r9,
  )

pub record LeafItem : Type 0 where
  pub key : Key
  pub offset : ℕ
  pub size : ℕ

unfoldable pub decode_leaf_item : ByteReader → Option (LeafItem × ByteReader)
decode_leaf_item r = do
  (key, r1) ← decode_key r
  (offset, r2) ← word 4 r1
  (size, r3) ← word 4 r2
  some (record { key = key; offset = offset; size = size }, r3)

pub record InternalKeyPtr : Type 0 where
  pub key : Key
  pub blockptr : ℕ
  pub generation : ℕ

unfoldable pub decode_internal_ptr : ByteReader → Option (InternalKeyPtr × ByteReader)
decode_internal_ptr r = do
  (key, r1) ← decode_key r
  (blockptr, r2) ← word 8 r1
  (generation, r3) ← word 8 r2
  some (record { key = key; blockptr = blockptr; generation = generation }, r3)
