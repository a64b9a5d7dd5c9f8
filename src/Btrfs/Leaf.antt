-- ===== src/Btrfs/Leaf.antt =====
-- btrfs/writer.go: the items of a leaf, read, changed and written back.
pub mod Encoded
pub mod Written
pub mod Sorted
use werunos.Base.{
  ℕ, zero, suc, ◌+◌, ◌-◌, ◌*◌, ◌%◌, ◌^◌, Bool, ◌&&◌, not, Option, none, some, List, [], ◌∷◌, ◌++◌,
  length, drop, slice, zeros, copy_at, le, put_le, ltb, ◌==◌, if◌then◌else◌,
}
use werunos.Btrfs.Types.{Key, less}
use werunos.Btrfs.Types.Decode.{get_key}
use werunos.Btrfs.Tree.{node_header_size}
use werunos.Btrfs.Crc.{calc_crc32c}

pub record ItemEntry : Type 0 where
  pub k : Key
  pub bytes : List ℕ

-- `encodeKey`
abbrev pub put_key : Key → List ℕ
put_key k = put_le 8 k.objectid ++ (put_le 1 k.typ ++ put_le 8 k.offset)

abbrev pub same_key : Key → Key → Bool
same_key a b = (a.objectid == b.objectid) && (a.typ == b.typ) && (a.offset == b.offset)

-- The loop that reads the items, from `i` on with `n` left; it stops where the node ends, and there is no result
-- where the bytes of an item are not in the node.
unfoldable pub read_items : List ℕ → ℕ → ℕ → Option (List ItemEntry)
read_items buf zero i = some []
read_items buf (suc n) i =
    let off = node_header_size + i * 25 in
    let di = node_header_size + le 4 buf (off + 17) in
    let size = le 4 buf (off + 21) in
    let rest : Option (List ItemEntry) = elim (read_items buf n (i + 1)) [
      | none ↦ none
      | some items ↦ some (record { k = get_key buf off; bytes = slice buf di size } ∷ items)
    ] in
    if ltb (length buf) (off + 25)
    then some []
    else if ltb (length buf) (di + size)
    then none
    else rest

-- The new item before the first one that is not less.
unfoldable pub insert_item : Key → List ℕ → List ItemEntry → List ItemEntry
insert_item k bytes [] = record { k = k; bytes = bytes } ∷ []
insert_item k bytes (x ∷ items) =
    let rest = insert_item k bytes items in
    if less x.k k then x ∷ rest else record { k = k; bytes = bytes } ∷ x ∷ items

-- The index of the last item with the key.
unfoldable pub last_index : Key → List ItemEntry → Option ℕ
last_index k [] = none
last_index k (x ∷ items) = elim (last_index k items) [
  | some i ↦ some (i + 1)
  | none ↦ if same_key x.k k then some 0 else none
]

unfoldable pub remove_index : ℕ → List ItemEntry → List ItemEntry
remove_index i [] = []
remove_index zero (x ∷ items) = items
remove_index (suc i) (x ∷ items) = x ∷ remove_index i items

unfoldable pub replace_index : ℕ → List ℕ → List ItemEntry → List ItemEntry
replace_index i bytes [] = []
replace_index zero bytes (x ∷ items) = record x { bytes = bytes } ∷ items
replace_index (suc i) bytes (x ∷ items) = x ∷ replace_index i bytes items

unfoldable pub total_data : List ItemEntry → ℕ
total_data [] = 0
total_data (x ∷ items) = length x.bytes + total_data items

abbrev pub needed : List ItemEntry → ℕ
needed items = node_header_size + length items * 25 + total_data items

-- The loop that puts the bytes of the items to the end of the node, the last item first; where it would go below the
-- front of the node, the slice panics, which is `none`.
unfoldable pub put_data : List ItemEntry → List ℕ → ℕ → Option (List ℕ × ℕ)
put_data [] dst end = some (dst, end)
put_data (x ∷ items) dst end = elim (put_data items dst end) [
  | none ↦ none
  | some (out, pos) ↦
      if ltb pos (length x.bytes)
      then none
      else some (copy_at out (pos - length x.bytes) x.bytes, pos - length x.bytes)
]

-- The loop that puts the heads of the items, from `i` on; the bytes of the next one are at `pos`.
unfoldable pub put_items : List ItemEntry → ℕ → ℕ → List ℕ → List ℕ
put_items [] i pos dst = dst
put_items (x ∷ items) i pos dst = put_items items (i + 1) (pos + length x.bytes) (
    copy_at dst (node_header_size + i * 25) (
      put_key x.k
      ++ (put_le 4 ((pos + 2 ^ 32 - node_header_size) % 2 ^ 32) ++ put_le 4 (length x.bytes))))

-- The head of the node: the count, the generation, the address, and last the checksum.
abbrev pub put_header : ℕ → ℕ → ℕ → List ℕ → List ℕ
put_header count generation logical dst =
    let dst1 = copy_at dst 96 (put_le 4 count) in
    let dst2 = copy_at dst1 80 (put_le 8 generation) in
    let dst3 = copy_at dst2 48 (put_le 8 logical) in
    copy_at dst3 0 (put_le 4 (calc_crc32c (drop 32 dst3)))

-- The node that the items are written to, by the old one; `none` is a panic.
unfoldable pub encode_leaf : ℕ → ℕ → List ℕ → List ItemEntry → Option (List ℕ)
encode_leaf generation logical buf items =
    elim (put_data items (copy_at (zeros (length buf)) 0 (slice buf 0 node_header_size))
      (length buf)) [
        | none ↦ none
        | some (dst, pos) ↦
            some (put_header (length items) generation logical (put_items items 0 pos dst))
      ]
