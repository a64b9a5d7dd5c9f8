-- ===== src/Btrfs/Fsck/Healthy.antt =====
-- A leaf that the program has written passes the check.
use werunos.Base.{
  ℕ, suc, ◌+◌, ◌-◌, ◌%◌, ◌^◌, ◌≤◌, ◌≡◌, refl, sym, ap, ◌∙◌, subst, true, Option, none, some, List,
  [], ◌∷◌, length, drop, zeros, copy_at, le, ◌==◌, eq→==, All, arith,
}
use werunos.Block.Mbr.{ReaderAt}
use werunos.Base.Holds.{le-Holds}
use werunos.Btrfs.Types.{Key, LeafItem, less}
use werunos.Btrfs.Types.Decode.{
  at, get_leaf_item, get_node_header, decode_leaf_item-at, decode_node_header-at,
}
use werunos.Btrfs.Chunks.{ChunkMapping}
use werunos.Btrfs.Tree.{done}
use werunos.Btrfs.Tree.Walk.{HasItems, IsNode}
use werunos.Btrfs.Crc.{calc_crc32c, calc_crc32c-lt}
use werunos.Btrfs.Leaf.{ItemEntry, total_data}
use werunos.Btrfs.Leaf.Encoded.{entries_from}
use werunos.Btrfs.Leaf.Written.{IsWritten}
use werunos.Btrfs.Leaf.Sorted.{IsSorted}
use werunos.Btrfs.Fsck.{
  FsckResult, compare_keys, in_order, order_loop, checksum_checked, verify_tree_checksums,
}

-- `compareKeys` and `less` order the keys alike.
compare_keys-less : (a b : Key) → less a b ≡ true → in_order (some a) b ≡ true
unfolding compare_keys less
compare_keys-less a b t = ground arith

all_in_order :
    (a : Key) (items : List ItemEntry)
    → All (λ y. less a y.k ≡ true) items
    → All (λ y. in_order (some a) y.k ≡ true) items
all_in_order a [] ps = tt
all_in_order a (y ∷ items) (p, ps) = (compare_keys-less a y.k p, all_in_order a items ps)

order_loop-IsSorted :
    (buf : List ℕ) (items : List ItemEntry) (off pos : ℕ) (prev : Option Key) (res : FsckResult)
    → HasItems buf off (entries_from pos items)
    → IsSorted items
    → All (λ x. in_order prev x.k ≡ true) items
    → order_loop (length items) (at buf off) prev res ≡ done res
unfolding order_loop HasItems IsSorted
order_loop-IsSorted buf [] off pos prev res has s o = refl
order_loop-IsSorted buf (x ∷ items) off pos prev res (fits, same, within, is, has) (lt, s) (o, os) =
    let k : (get_leaf_item buf off).key ≡ x.k = ap (λ (i : LeafItem). i.key) same in
    rw (order_loop, decode_leaf_item-at buf off fits, k, o)
      (order_loop-IsSorted buf items (off + 25) (pos + length x.bytes) (some x.k) res has s
        (all_in_order x.k items lt))

first_in_order : (items : List ItemEntry) → All (λ x. in_order none x.k ≡ true) items
first_in_order [] = tt
first_in_order (x ∷ items) = (refl, first_in_order items)

-- A leaf of level 0 that was written with its keys in order and is on the device passes the check: the check
-- counts the node and its items, and adds no problem.
pub verify_tree_checksums-IsWritten :
    (dev : ReaderAt) (node_size : ℕ) (chunks : List ChunkMapping) (gen logical : ℕ) (buf : List ℕ)
    (items : List ItemEntry) (out : List ℕ)
    → IsWritten gen logical buf items out
    → (get_node_header buf).level ≡ 0
    → IsSorted items
    → 101 ≤ length buf
    → IsNode dev node_size chunks logical out
    → (fuel : ℕ) (res : FsckResult)
    → verify_tree_checksums dev node_size chunks (suc fuel) logical res
      ≡ done (record res {
        nodes_checked = (res.nodes_checked + 1) % 2 ^ 32;
        items_checked = (res.items_checked + length items) % 2 ^ 32;
      })
unfolding verify_tree_checksums
verify_tree_checksums-IsWritten dev node_size chunks gen logical buf items out w level s wide node
      fuel res =
    let z : (get_node_header out).level == 0 ≡ true =
      eq→== (get_node_header out).level 0 (w.level ∙ level) in
    let c : le 4 out 0 ≡ calc_crc32c (drop 32 out) =
      le-Holds 4 (calc_crc32c (drop 32 out)) out 0 (calc_crc32c-lt (drop 32 out)) w.checksum in
    let e : calc_crc32c (drop 32 out) == le 4 out 0 ≡ true =
      eq→== (calc_crc32c (drop 32 out)) (le 4 out 0) (sym c) in
    let k : checksum_checked (copy_at (zeros node_size) 0 (dev node.phys node_size).bytes) res
        ≡ record res { nodes_checked = (res.nodes_checked + 1) % 2 ^ 32 } =
      subst
        (λ (b : List ℕ).
          checksum_checked b res ≡ record res { nodes_checked = (res.nodes_checked + 1) % 2 ^ 32 })
        (sym node.same) (rw e refl) in
    rw
      (
        verify_tree_checksums,
        node.resolved,
        node.readable,
        node.same,
        decode_node_header-at out (omega (arith, w.same_length)),
        z,
        w.count,
        k,
      )
      (order_loop-IsSorted out items 101 (length buf - total_data items) none _ w.entries s
        (first_in_order items))
