-- ===== src/Btrfs/Leaf/Written.antt =====
-- The whole node that a leaf is written to.
use werunos.Base.{
  ℕ, zero, ◌+◌, ◌-◌, ◌^◌, ◌≤◌, ◌<◌, ◌≡◌, inl, inr, sym, ap, subst, ◌∙◌, Option, none, some, List,
  length, length-slice, length-replicate, drop, slice, byte_at, byte_at-slice, index_eq, zeros,
  copy_at, length-copy_at, le, le_cong, put_le, patch_inside, byte_at-copy_at, arith,
}
use werunos.Base.Holds.{
  drop-copy_at_front, Holds, le-Holds, copy_at-Holds, copy_at-Holds_apart, byte_at-copy_at_outside,
}
use werunos.Btrfs.Types.Decode.{get_node_header}
use werunos.Btrfs.Tree.Walk.{HasItems}
use werunos.Btrfs.Crc.{calc_crc32c}
use werunos.Btrfs.Leaf.{ItemEntry, total_data, needed, put_data, put_items, put_header, encode_leaf}
use werunos.Btrfs.Leaf.Encoded.{
  HaveKeys, entries_from, HasData, HasHeads, put_data-HasData, put_items-HasHeads,
  HasItems-entries_from,
}

module _ (generation logical : ℕ) (dst : List ℕ) (count : ℕ) (fits : 101 ≤ length dst) where
  abbrev dst1 : List ℕ
  dst1 = copy_at dst 96 (put_le 4 count)

  abbrev dst2 : List ℕ
  dst2 = copy_at dst1 80 (put_le 8 generation)

  abbrev dst3 : List ℕ
  dst3 = copy_at dst2 48 (put_le 8 logical)

  abbrev out : List ℕ
  out = put_header count generation logical dst

  length-dst3 : length dst3 ≡ length dst
  length-dst3 =
      length-copy_at dst2 48 (put_le 8 logical)
      ∙ length-copy_at dst1 80 (put_le 8 generation)
      ∙ length-copy_at dst 96 (put_le 4 count)

  length-out : length out ≡ length dst
  length-out = length-copy_at dst3 0 (put_le 4 (calc_crc32c (drop 32 dst3))) ∙ length-dst3

  -- The bytes that no field of the head takes.
  out-kept : (i : ℕ) → 100 ≤ i → byte_at out i ≡ byte_at dst i
  unfolding put_le
  out-kept i le =
      byte_at-copy_at_outside dst3 0 (put_le 4 (calc_crc32c (drop 32 dst3))) i (inr (omega arith))
      ∙ byte_at-copy_at_outside dst2 48 (put_le 8 logical) i (inr (omega arith))
      ∙ byte_at-copy_at_outside dst1 80 (put_le 8 generation) i (inr (omega arith))
      ∙ byte_at-copy_at_outside dst 96 (put_le 4 count) i (inr (omega arith))

  out-count : Holds out 96 (put_le 4 count)
  unfolding put_le
  out-count =
      copy_at-Holds_apart dst3 0 (put_le 4 (calc_crc32c (drop 32 dst3))) 96 (put_le 4 count)
        (inr (omega arith))
        (copy_at-Holds_apart dst2 48 (put_le 8 logical) 96 (put_le 4 count) (inr (omega arith)) (
          copy_at-Holds_apart dst1 80 (put_le 8 generation) 96 (put_le 4 count) (inr (omega arith))
            (copy_at-Holds dst 96 (put_le 4 count) (omega arith))))

  out-generation : Holds out 80 (put_le 8 generation)
  unfolding put_le
  out-generation =
      copy_at-Holds_apart dst3 0 (put_le 4 (calc_crc32c (drop 32 dst3))) 80 (put_le 8 generation)
        (inr (omega arith))
        (copy_at-Holds_apart dst2 48 (put_le 8 logical) 80 (put_le 8 generation) (inr (omega arith))
          (copy_at-Holds dst1 80 (put_le 8 generation)
            (omega (arith, length-copy_at dst 96 (put_le 4 count)))))

  out-logical : Holds out 48 (put_le 8 logical)
  unfolding put_le
  out-logical =
      copy_at-Holds_apart dst3 0 (put_le 4 (calc_crc32c (drop 32 dst3))) 48 (put_le 8 logical)
        (inr (omega arith))
        (copy_at-Holds dst2 48 (put_le 8 logical) (
          omega (
            arith,
            length-copy_at dst1 80 (put_le 8 generation),
            length-copy_at dst 96 (put_le 4 count),
          )))

  -- The checksum is that of the node as it is written, which begins behind the checksum.
  out-checksum : Holds out 0 (put_le 4 (calc_crc32c (drop 32 out)))
  unfolding put_le
  out-checksum =
      subst (λ (xs : List ℕ). Holds out 0 (put_le 4 (calc_crc32c xs)))
        (sym (drop-copy_at_front 32 dst3 (put_le 4 (calc_crc32c (drop 32 dst3))) (omega arith)))
        (copy_at-Holds dst3 0 (put_le 4 (calc_crc32c (drop 32 dst3))) (omega (arith, length-dst3)))

-- A node that has these items and the given head: the level of the old node, and a checksum that is right.
pub record IsWritten (gen logical : ℕ) (buf : List ℕ) (items : List ItemEntry) (out : List ℕ)
    : Type 0 where
  pub same_length : length out ≡ length buf
  pub count : (get_node_header out).nritems ≡ length items
  pub level : (get_node_header out).level ≡ (get_node_header buf).level
  pub bytenr : (get_node_header out).bytenr ≡ logical
  pub generation : (get_node_header out).generation ≡ gen
  pub checksum : Holds out 0 (put_le 4 (calc_crc32c (drop 32 out)))
  pub entries : HasItems out 101 (entries_from (length buf - total_data items) items)

module _ (generation logical : ℕ) (buf : List ℕ) (items : List ItemEntry) where
  -- Items whose keys are in range, and which fit into a node of fewer than 2^32 bytes with a generation and
  -- an address below 2^64, are written: the node keeps its size and its level, has the count, the address,
  -- the generation and the right checksum, and holds the items, their bytes at the end.
  pub encode_leaf-IsWritten :
      HaveKeys items
      → needed items ≤ length buf
      → length buf < 2 ^ 32
      → generation < 2 ^ 64
      → logical < 2 ^ 64
      → (out : List ℕ) × (encode_leaf generation logical buf items ≡ some out)
        × IsWritten generation logical buf items out
  unfolding encode_leaf
  encode_leaf-IsWritten ks room small g l = (
    out',
    ap
        (λ (r : Option (List ℕ × ℕ)). elim r as (λ _. Option (List ℕ)) [
          | none ↦ none
          | some (dst, pos) ↦
              some (put_header (length items) generation logical (put_items items 0 pos dst))
        ])
        data_written.is,
    record {
      same_length = length-out generation logical mid (length items) wide ∙ length-mid;
      count =
          le-Holds 4 (length items) out' 96 (omega arith)
            (out-count generation logical mid (length items) wide);
      level = le_cong 1 out' buf 100 100 λ i lt. kept_level i lt;
      bytenr =
          le-Holds 8 logical out' 48 (omega arith)
            (out-logical generation logical mid (length items) wide);
      generation =
          le-Holds 8 generation out' 80 (omega arith)
            (out-generation generation logical mid (length items) wide);
      checksum = out-checksum generation logical mid (length items) wide;
      entries =
          subst (λ (n : ℕ). HasItems out' 101 (entries_from n items))
            (let q : data_written.pos ≡ length buf - total_data items =
                omega (arith, data_written.at_end) in
              q)
            (HasItems-entries_from out' items 101 data_written.pos ks
              (omega (arith, length-out', length-mid)) (omega (arith, data_written.at_end))
              (omega (arith, data_written.at_end, length-out', length-mid))
              (omega (arith, length-out', length-mid))
              (λ i lt.
                out-kept generation logical mid (length items) wide (101 + i) (omega arith)
                ∙ heads_written.holds i lt)
              (λ i lt.
                out-kept generation logical mid (length items) wide (data_written.pos + i)
                  (omega (arith, data_written.at_end))
                ∙ heads_written.kept (data_written.pos + i)
                    (inr (omega (arith, data_written.at_end)))
                ∙ data_written.holds i lt));
    },
  )
    where
      start : List ℕ
      start = copy_at (zeros (length buf)) 0 (slice buf 0 101)

      length-start : length start ≡ length buf
      length-start =
          length-copy_at (zeros (length buf)) 0 (slice buf 0 101)
          ∙ length-replicate (length buf) (zero)

      data_written : HasData items start (length buf) (put_data items start (length buf))
      data_written =
          put_data-HasData items start (length buf) (omega (arith, length-start)) (omega arith)

      mid : List ℕ
      mid = put_items items 0 data_written.pos data_written.out

      heads_written : HasHeads items 0 data_written.pos data_written.out mid
      heads_written =
          put_items-HasHeads items 0 data_written.pos data_written.out
            (omega (arith, data_written.same_length, length-start))

      length-mid : length mid ≡ length buf
      length-mid = heads_written.same_length ∙ data_written.same_length ∙ length-start

      wide : 101 ≤ length mid
      wide = omega (arith, length-mid)

      out' : List ℕ
      out' = put_header (length items) generation logical mid

      length-out' : length out' ≡ length mid
      length-out' = length-out generation logical mid (length items) wide

      kept_level : (i : ℕ) → i < 1 → byte_at out' (100 + i) ≡ byte_at buf (100 + i)
      kept_level i lt =
          out-kept generation logical mid (length items) wide (100 + i) (omega arith)
          ∙ heads_written.kept (100 + i) (inl (omega arith))
          ∙ data_written.kept (100 + i) (omega (arith, data_written.at_end))
          ∙ byte_at-copy_at (zeros (length buf)) 0 (slice buf 0 101) (100 + i)
              (omega (arith, length-replicate (length buf) (zero)))
          ∙ patch_inside (byte_at (zeros (length buf))) 0 (slice buf 0 101) (100 + i) (omega arith)
              (omega (arith, length-slice buf 0 101))
          ∙ byte_at-slice buf 0 101 (100 + i - 0) (omega arith)
          ∙ index_eq buf _ _ (omega arith)
