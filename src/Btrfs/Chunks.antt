-- ===== src/Btrfs/Chunks.antt =====
-- btrfs/tree.go: the mappings of logical addresses, and the chunk items that give them.
pub mod Resolve
pub mod Items
use werunos.Base.{
  ℕ, zero, suc, ◌+◌, ◌-◌, ◌*◌, ◌%◌, ◌^◌, Bool, true, false, ◌&&◌, ◌||◌, Option, none, some, List,
  [], ◌∷◌, ◌++◌, length, drop, ltb, leb, ◌==◌, not, if◌then◌else◌,
}
use werunos.Btrfs.Types.{ByteReader, ◌>>=◌, word, skip, Key, decode_key, LeafItem}

pub record ChunkMapping : Type 0 where
  pub logical : ℕ
  pub len : ℕ
  pub physical : ℕ
  pub flags : ℕ

abbrev pub covers : ChunkMapping → ℕ → Bool
covers c logical = leb c.logical logical && ltb logical ((c.logical + c.len) % 2 ^ 64)

unfoldable pub resolve : List ChunkMapping → ℕ → Option ℕ
resolve [] logical = none
resolve (c ∷ chunks) logical =
    let rest = resolve chunks logical in
    if covers c logical then some ((c.physical + (logical - c.logical)) % 2 ^ 64) else rest

abbrev pub add_chunk : ChunkMapping → List ChunkMapping → List ChunkMapping
add_chunk c chunks = chunks ++ (c ∷ [])

abbrev pub chunk_item_key : ℕ
chunk_item_key = 228

-- The fixed part of a chunk item: its length, its flags and the number of stripes.
unfoldable pub decode_chunk : ByteReader → Option (ℕ × ℕ × ℕ × ByteReader)
decode_chunk r = do
  (len, r1) ← word 8 r
  (_, r2) ← word 8 r1
  (_, r3) ← word 8 r2
  (flags, r4) ← word 8 r3
  (_, r5) ← word 4 r4
  (_, r6) ← word 4 r5
  (_, r7) ← word 4 r6
  (num_stripes, r8) ← word 2 r7
  some (len, flags, num_stripes, r8)

-- The offset of a stripe.
unfoldable pub decode_stripe : ByteReader → Option ℕ
decode_stripe r = do (_, r1) ← word 8 r; (phys_offset, _) ← word 8 r1; some phys_offset

-- `parseChunkItem`; `none` is a panic.
unfoldable pub parse_chunk_item : LeafItem → List ℕ → List ChunkMapping → Option (List ChunkMapping)
parse_chunk_item item bytes chunks =
    let parsed : Option (List ChunkMapping) = (do
      (len, flags, num_stripes, r) ← decode_chunk (record { buf = bytes; off = 0 })
      (_, r1) ← word 2 r
      if num_stripes == 0 || ltb (length bytes) (48 + num_stripes * 32) then some chunks else (do
        phys_offset ← decode_stripe (skip ((num_stripes - 1) * 32) r1)
        some (
            add_chunk
              (record {
                logical = item.key.offset;
                len = len;
                physical = phys_offset;
                flags = flags;
              })
              chunks))) in
    if ltb (length bytes) 48 then some chunks else parsed

-- The loop of `parseSysChunks` from `pos` on; each round goes on by more than one byte.
unfoldable pub sys_chunks : ℕ → List ℕ → ℕ → List ChunkMapping → Option (List ChunkMapping)
sys_chunks zero bytes pos chunks = some chunks
sys_chunks (suc fuel) bytes pos chunks =
    let rest = λ (num_stripes : ℕ) (c : ChunkMapping).
      sys_chunks fuel bytes (pos + 17 + 48 + num_stripes * 32) (add_chunk c chunks) in
    if ltb (length bytes) (pos + 17) then some chunks else (do
      (k, _) ← decode_key (record { buf = drop pos bytes; off = 0 })
      if not (k.typ == chunk_item_key) || ltb (length bytes) (pos + 17 + 48)
          then some chunks
          else (do
            (len, flags, num_stripes, _) ←
                decode_chunk (record { buf = drop (pos + 17) bytes; off = 0 })
            if num_stripes == 0
                then some chunks
                else if ltb (length bytes) (pos + 17 + 48 + num_stripes * 32)
                then some chunks
                else (do
                  phys_offset ←
                      decode_stripe (record {
                        buf = drop (pos + 17 + 48 + num_stripes * 32 - 32) bytes;
                        off = 0;
                      })
                  rest num_stripes (record {
                    logical = k.offset;
                    len = len;
                    physical = phys_offset;
                    flags = flags;
                  }))))

unfoldable pub parse_sys_chunks : List ℕ → List ChunkMapping → Option (List ChunkMapping)
parse_sys_chunks bytes chunks = sys_chunks (length bytes) bytes 0 chunks
