-- ===== src/Btrfs/Types/Decode.antt =====
-- What the decoders give where the buffer is long enough.
use werunos.Base.{ℕ, ◌+◌, ◌≤◌, ◌≡◌, refl, some, List, length, le, slice, arith}
use werunos.Btrfs.Types.{
  ByteReader, word, Key, decode_key, LeafItem, decode_leaf_item, InternalKeyPtr,
  decode_internal_ptr, take_bytes, NodeHeader, decode_node_header,
}

abbrev pub at : List ℕ → ℕ → ByteReader
at xs off = record { buf = xs; off = off }

pub word-at :
    (k : ℕ) (xs : List ℕ) (off : ℕ)
    → off + k ≤ length xs
    → word k (at xs off) ≡ some (le k xs off, at xs (off + k))
unfolding word
word-at k xs off fits = ground arith

abbrev pub get_key : List ℕ → ℕ → Key
get_key xs off = record {
  objectid = le 8 xs off;
  typ = le 1 xs (off + 8);
  offset = le 8 xs (off + 9);
}

module _ (xs : List ℕ) (off : ℕ) where
  pub decode_key-at :
      off + 17 ≤ length xs → decode_key (at xs off) ≡ some (get_key xs off, at xs (off + 17))
  unfolding decode_key
  decode_key-at fits =
      let e : off + 8 + 1 ≡ off + 9 = omega arith in
      let e' : off + 9 + 8 ≡ off + 17 = omega arith in
      rw
        (
          word-at 8 xs off (omega arith),
          word-at 1 xs (off + 8) (omega arith),
          e,
          word-at 8 xs (off + 9) (omega arith),
          e',
        )
        refl

  abbrev pub get_leaf_item : LeafItem
  get_leaf_item = record {
    key = get_key xs off;
    offset = le 4 xs (off + 17);
    size = le 4 xs (off + 21);
  }

  pub decode_leaf_item-at :
      off + 25 ≤ length xs → decode_leaf_item (at xs off) ≡ some (get_leaf_item, at xs (off + 25))
  unfolding decode_leaf_item
  decode_leaf_item-at fits =
      let e : off + 17 + 4 ≡ off + 21 = omega arith in
      let e' : off + 21 + 4 ≡ off + 25 = omega arith in
      rw
        (
          decode_key-at (omega arith),
          word-at 4 xs (off + 17) (omega arith),
          e,
          word-at 4 xs (off + 21) (omega arith),
          e',
        )
        refl

  abbrev pub get_internal_ptr : InternalKeyPtr
  get_internal_ptr = record {
    key = get_key xs off;
    blockptr = le 8 xs (off + 17);
    generation = le 8 xs (off + 25);
  }

  pub decode_internal_ptr-at :
      off + 33 ≤ length xs
      → decode_internal_ptr (at xs off) ≡ some (get_internal_ptr, at xs (off + 33))
  unfolding decode_internal_ptr
  decode_internal_ptr-at fits =
      let e : off + 17 + 8 ≡ off + 25 = omega arith in
      let e' : off + 25 + 8 ≡ off + 33 = omega arith in
      rw
        (
          decode_key-at (omega arith),
          word-at 8 xs (off + 17) (omega arith),
          e,
          word-at 8 xs (off + 25) (omega arith),
          e',
        )
        refl

pub take_bytes-at :
    (n : ℕ) (xs : List ℕ) (off : ℕ)
    → off + n ≤ length xs
    → take_bytes n (at xs off) ≡ some (slice xs off n, at xs (off + n))
unfolding take_bytes
take_bytes-at n xs off fits = ground arith

abbrev pub get_node_header : List ℕ → NodeHeader
get_node_header xs = record {
  csum = slice xs 0 32;
  fsid = slice xs 32 16;
  bytenr = le 8 xs 48;
  flags = le 8 xs 56;
  chunk_uuid = slice xs 64 16;
  generation = le 8 xs 80;
  owner = le 8 xs 88;
  nritems = le 4 xs 96;
  level = le 1 xs 100;
}

pub decode_node_header-at :
    (xs : List ℕ)
    → 101 ≤ length xs
    → decode_node_header (at xs 0) ≡ some (get_node_header xs, at xs 101)
unfolding decode_node_header
decode_node_header-at xs fits =
    rw
      (
        take_bytes-at 32 xs 0 (omega arith),
        take_bytes-at 16 xs 32 (omega arith),
        word-at 8 xs 48 (omega arith),
        word-at 8 xs 56 (omega arith),
        take_bytes-at 16 xs 64 (omega arith),
        word-at 8 xs 80 (omega arith),
        word-at 8 xs 88 (omega arith),
        word-at 4 xs 96 (omega arith),
        word-at 1 xs 100 (omega arith),
      )
      refl
