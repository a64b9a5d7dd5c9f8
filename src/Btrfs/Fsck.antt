-- ===== src/Btrfs/Fsck.antt =====
-- btrfs/fsck.go: the check of the checksums and of the order of the keys.
pub mod Healthy
mod Runs
use werunos.Base.{
  ℕ, zero, suc, ◌+◌, ◌%◌, ◌^◌, Bool, true, false, Option, none, some, List, [], ◌∷◌, ◌++◌, length,
  drop, zeros, copy_at, le, ltb, ◌==◌, not, if◌then◌else◌,
}
use werunos.Block.Mbr.{ReaderAt}
use werunos.Btrfs.Types.{
  ByteReader, Key, decode_node_header, LeafItem, decode_leaf_item, InternalKeyPtr,
  decode_internal_ptr,
}
use werunos.Btrfs.Chunks.{ChunkMapping, resolve}
use werunos.Btrfs.Tree.{Walked, done, panicked, stuck, ◌>>=◌}
use werunos.Btrfs.Crc.{calc_crc32c}

pub data Problem : Type 0 where
  bad_magic odd_sector_size unresolved unreadable bad_checksum out_of_order : Problem

pub record FsckResult : Type 0 where
  pub healthy : Bool
  pub problems : List Problem
  pub nodes_checked : ℕ
  pub items_checked : ℕ

abbrev pub unhealthy : Problem → FsckResult → FsckResult
unhealthy p res = record res { healthy = false; problems = res.problems ++ (p ∷ []) }

-- The result of a comparison: below 0, 0 or above 0.
pub data Compared : Type 0 where
  lower same higher : Compared

unfoldable pub compare_keys : Key → Key → Compared
compare_keys a b =
    if ltb a.objectid b.objectid
    then lower
    else if ltb b.objectid a.objectid
    then higher
    else if ltb a.typ b.typ
    then lower
    else if ltb b.typ a.typ
    then higher
    else if ltb a.offset b.offset
    then lower
    else if ltb b.offset a.offset
    then higher
    else same

-- The key is above the one before it, if there is one.
abbrev pub in_order : Option Key → Key → Bool
in_order none k = true
in_order (some prev) k = elim (compare_keys k prev) [ higher ↦ true | lower ↦ false | same ↦ false ]

-- The loop over the items of a leaf.
unfoldable pub order_loop : ℕ → ByteReader → Option Key → FsckResult → Walked FsckResult
order_loop zero r prev res = done res
order_loop (suc n) r prev res = elim (decode_leaf_item r) [
  | none ↦ panicked
  | some (item, r1) ↦
      order_loop n r1 (some item.key)
        (if in_order prev item.key then res else unhealthy out_of_order res)
]

unfoldable pub children_loop :
    (ℕ → FsckResult → Walked FsckResult) → ℕ → ByteReader → FsckResult → Walked FsckResult
children_loop verify zero r res = done res
children_loop verify (suc n) r res = elim (decode_internal_ptr r) [
  | none ↦ panicked
  | some (ptr, r1) ↦ (do res1 ← verify ptr.blockptr res; children_loop verify n r1 res1)
]

-- A node has been read: its checksum is compared.
abbrev pub checksum_checked : List ℕ → FsckResult → FsckResult
checksum_checked buf res =
    let counted : FsckResult = record res { nodes_checked = (res.nodes_checked + 1) % 2 ^ 32 } in
    if calc_crc32c (drop 32 buf) == le 4 buf 0 then counted else unhealthy bad_checksum counted

module _ (dev : ReaderAt) (node_size : ℕ) (chunks : List ChunkMapping) where
  -- `verifyTreeChecksums`, to a depth of `fuel` nodes; the argument `level` is only passed on, and left out.
  unfoldable pub verify_tree_checksums : ℕ → ℕ → FsckResult → Walked FsckResult
  verify_tree_checksums zero addr res = stuck
  verify_tree_checksums (suc fuel) addr res = elim (resolve chunks addr) [
    | none ↦ done (unhealthy unresolved res)
    | some phys ↦
        let reply = dev phys node_size in
        let buf = copy_at (zeros node_size) 0 reply.bytes in
        elim reply.err [
          | some e ↦ done (unhealthy unreadable res)
          | none ↦
              let res1 = checksum_checked buf res in
              elim (decode_node_header (record { buf = buf; off = 0 })) [
                | none ↦ panicked
                | some (h, r) ↦
                    if h.level == 0
                    then order_loop h.nritems r none
                        (record res1 { items_checked = (res1.items_checked + h.nritems) % 2 ^ 32 })
                    else children_loop (verify_tree_checksums fuel) h.nritems r res1
              ]
        ]
  ]

  -- `Fsck` of a volume whose superblock has been read.
  unfoldable pub fsck : ℕ → ℕ → ℕ → ℕ → ℕ → ℕ → Walked FsckResult
  fsck fuel magic sector_size chunk_root fs_root extent_root =
      let res : FsckResult = record {
        healthy = true;
        problems = [];
        nodes_checked = 0;
        items_checked = 0;
      } in
      let res1 = if magic == 0x4d5f53665248425f then res else unhealthy bad_magic res in
      let res2 : FsckResult =
        if sector_size == 4096
        then res1
        else record res1 { problems = res1.problems ++ (odd_sector_size ∷ []) } in
      do
        res3 ← verify_tree_checksums fuel chunk_root res2
        res4 ← verify_tree_checksums fuel fs_root res3
        if extent_root == 0 then done res4 else verify_tree_checksums fuel extent_root res4
