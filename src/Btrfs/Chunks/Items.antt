-- ===== src/Btrfs/Chunks/Items.antt =====
-- What the chunk items of a buffer say, by their offsets.
use werunos.Base.{
  ℕ, zero, suc, ◌+◌, ◌-◌, ◌*◌, ◌≤◌, ◌<◌, ◌≡◌, refl, sym, ap, ◌∙◌, Bool, true, false, ◌&&◌, ◌||◌,
  not, some, List, [], ◌∷◌, ◌++◌, append_assoc, append-nil, length, drop, length-drop, index_eq,
  get_or-drop, ltb, leb, ◌==◌, if◌then◌else◌, Bool-cases, inl, inr, le, le_cong, arith,
}
use werunos.Btrfs.Types.{decode_key, LeafItem}
use werunos.Btrfs.Types.Decode.{at, get_key, word-at, decode_key-at}
use werunos.Btrfs.Chunks.{
  ChunkMapping, add_chunk, chunk_item_key, decode_chunk, decode_stripe, parse_chunk_item,
  sys_chunks, parse_sys_chunks,
}

abbrev pub stripes : List ℕ → ℕ → ℕ
stripes xs off = le 2 xs (off + 44)

-- The mapping that the chunk at `off` describes, by its last stripe.
abbrev pub chunk_at : ℕ → List ℕ → ℕ → ChunkMapping
chunk_at logical xs off = record {
  logical = logical;
  len = le 8 xs off;
  physical = le 8 xs (off + 48 + (stripes xs off - 1) * 32 + 8);
  flags = le 8 xs (off + 24);
}

decode_chunk-at :
    (xs : List ℕ) (off : ℕ)
    → off + 48 ≤ length xs
    → decode_chunk (at xs off)
      ≡ some (le 8 xs off, le 8 xs (off + 24), stripes xs off, at xs (off + 46))
unfolding decode_chunk
decode_chunk-at xs off fits =
    let e8 : off + 8 + 8 ≡ off + 16 = omega arith in
    let e16 : off + 16 + 8 ≡ off + 24 = omega arith in
    let e24 : off + 24 + 8 ≡ off + 32 = omega arith in
    let e32 : off + 32 + 4 ≡ off + 36 = omega arith in
    let e36 : off + 36 + 4 ≡ off + 40 = omega arith in
    let e40 : off + 40 + 4 ≡ off + 44 = omega arith in
    let e44 : off + 44 + 2 ≡ off + 46 = omega arith in
    rw
      (
        word-at 8 xs off (omega arith),
        word-at 8 xs (off + 8) (omega arith),
        e8,
        word-at 8 xs (off + 16) (omega arith),
        e16,
        word-at 8 xs (off + 24) (omega arith),
        e24,
        word-at 4 xs (off + 32) (omega arith),
        e32,
        word-at 4 xs (off + 36) (omega arith),
        e36,
        word-at 4 xs (off + 40) (omega arith),
        e40,
        word-at 2 xs (off + 44) (omega arith),
        e44,
      )
      refl

decode_stripe-at :
    (xs : List ℕ) (off : ℕ)
    → off + 16 ≤ length xs
    → decode_stripe (at xs off) ≡ some (le 8 xs (off + 8))
unfolding decode_stripe
decode_stripe-at xs off fits =
    rw (word-at 8 xs off (omega arith), word-at 8 xs (off + 8) (omega arith)) refl

-- `parseChunkItem` never panics: it adds the mapping of an item with at least one stripe that is as long as its
-- stripes take, and nothing for any other item.
pub parse_chunk_item-chunk_at :
    (item : LeafItem) (bytes : List ℕ) (chunks : List ChunkMapping)
    → parse_chunk_item item bytes chunks
      ≡ some (
          if leb 48 (length bytes)
            && not (stripes bytes 0 == 0)
            && leb (48 + stripes bytes 0 * 32) (length bytes)
          then add_chunk (chunk_at item.key.offset bytes 0) chunks
          else chunks)
unfolding parse_chunk_item
parse_chunk_item-chunk_at item bytes chunks = elim (Bool-cases (ltb (length bytes) 48)) [
  | inl t ↦ let u : wanted ≡ false = ground arith in rw (t, u) refl
  | inr t ↦
      elim (Bool-cases (stripes bytes 0 == 0 || ltb (length bytes) (48 + stripes bytes 0 * 32))) [
        | inl u ↦
            let v : wanted ≡ false = ground arith in
            rw (t, decode_chunk-at bytes 0 (ground arith), word-at 2 bytes 46 (ground arith), u, v)
              refl
        | inr u ↦
            let v : wanted ≡ true = ground arith in
            rw
              (
                t,
                decode_chunk-at bytes 0 (ground arith),
                word-at 2 bytes 46 (ground arith),
                u,
                decode_stripe-at bytes (48 + (stripes bytes 0 - 1) * 32) (ground arith),
                v,
              )
              refl
      ]
]
  where
    wanted : Bool
    wanted =
        leb 48 (length bytes)
        && not (stripes bytes 0 == 0)
        && leb (48 + stripes bytes 0 * 32) (length bytes)

le-drop : (k : ℕ) (xs : List ℕ) (pos off : ℕ) → le k (drop pos xs) off ≡ le k xs (pos + off)
le-drop k xs pos off = le_cong k (drop pos xs) xs off (pos + off) λ i lt.
    get_or-drop pos xs (off + i) 0 ∙ index_eq xs (pos + (off + i)) (pos + off + i) (omega arith)

module _ (xs : List ℕ) (pos : ℕ) where
  decode_key-drop :
      pos + 17 ≤ length xs
      → decode_key (at (drop pos xs) 0) ≡ some (get_key xs pos, at (drop pos xs) 17)
  decode_key-drop fits =
      let e : pos + 0 ≡ pos = omega arith in
      decode_key-at (drop pos xs) 0 (omega (arith, length-drop pos xs))
      ∙ rw (le-drop 8 xs pos 0, le-drop 1 xs pos 8, le-drop 8 xs pos 9, e) refl

  decode_chunk-drop :
      pos + 48 ≤ length xs
      → decode_chunk (at (drop pos xs) 0)
        ≡ some (le 8 xs pos, le 8 xs (pos + 24), stripes xs pos, at (drop pos xs) 46)
  decode_chunk-drop fits =
      let e : pos + 0 ≡ pos = omega arith in
      decode_chunk-at (drop pos xs) 0 (omega (arith, length-drop pos xs))
      ∙ rw (le-drop 8 xs pos 0, le-drop 8 xs pos 24, le-drop 2 xs pos 44, e) refl

  decode_stripe-drop :
      pos + 16 ≤ length xs → decode_stripe (at (drop pos xs) 0) ≡ some (le 8 xs (pos + 8))
  decode_stripe-drop fits =
      decode_stripe-at (drop pos xs) 0 (omega (arith, length-drop pos xs))
      ∙ rw (le-drop 8 xs pos 8) refl

-- The array of system chunks has these from `pos` on: each is a key of the type of a chunk and a chunk with stripes, and
-- behind the last one there is less than a key.
unfoldable pub HasChunks : List ℕ → ℕ → List ChunkMapping → Type 0
HasChunks bytes pos [] = length bytes < pos + 17
HasChunks bytes pos (c ∷ chunks) =
    ((get_key bytes pos).typ ≡ chunk_item_key)
    × (0 < stripes bytes (pos + 17))
    × (pos + 17 + 48 + stripes bytes (pos + 17) * 32 ≤ length bytes)
    × (c ≡ chunk_at (get_key bytes pos).offset bytes (pos + 17))
    × HasChunks bytes (pos + 17 + 48 + stripes bytes (pos + 17) * 32) chunks

sys_chunks-HasChunks :
    (fuel : ℕ) (bytes : List ℕ) (pos : ℕ) (found chunks : List ChunkMapping)
    → length bytes ≤ pos + fuel
    → HasChunks bytes pos found
    → sys_chunks fuel bytes pos chunks ≡ some (chunks ++ found)
unfolding sys_chunks HasChunks
sys_chunks-HasChunks zero bytes pos [] chunks enough has = ap some (sym (append-nil chunks))
sys_chunks-HasChunks (suc fuel) bytes pos [] chunks enough has =
    let t : ltb (length bytes) (pos + 17) ≡ true = ground arith in
    rw t (ap some (sym (append-nil chunks)))
sys_chunks-HasChunks zero bytes pos (c ∷ found) chunks enough (k, n, fits, e, has) =
    absurd (omega arith)
sys_chunks-HasChunks (suc fuel) bytes pos (c ∷ found) chunks enough (k, n, fits, e, has) =
    let t0 : ltb (length bytes) (pos + 17) ≡ false = ground arith in
    let t1 : not (le 1 bytes (pos + 8) == chunk_item_key) || ltb (length bytes) (pos + 17 + 48)
        ≡ false =
      ground arith in
    let t2 : stripes bytes (pos + 17) == 0 ≡ false = ground arith in
    let t3 : ltb (length bytes) (pos + 17 + 48 + stripes bytes (pos + 17) * 32) ≡ false =
      ground arith in
    let o : pos + 17 + 48 + stripes bytes (pos + 17) * 32 - 32 + 8
        ≡ pos + 17 + 48 + (stripes bytes (pos + 17) - 1) * 32 + 8 =
      omega arith in
    let rest =
      sys_chunks-HasChunks fuel bytes (pos + 17 + 48 + stripes bytes (pos + 17) * 32) found
        (add_chunk c chunks) (omega arith) has in
    rw
      (
        t0,
        decode_key-drop bytes pos (omega arith),
        t1,
        decode_chunk-drop bytes (pos + 17) (omega arith),
        t2,
        t3,
        decode_stripe-drop bytes (pos + 17 + 48 + stripes bytes (pos + 17) * 32 - 32) (omega arith),
        o,
        sym e,
      )
      (rest ∙ ap some (append_assoc chunks (c ∷ []) found))

-- Where the array of system chunks is one key of a chunk and one chunk with stripes behind the other, up to a
-- rest shorter than a key, `parseSysChunks` adds the mappings that are read at the offsets of the chunks, in
-- their order, and does not panic.
pub parse_sys_chunks-HasChunks :
    (bytes : List ℕ) (found chunks : List ChunkMapping)
    → HasChunks bytes 0 found
    → parse_sys_chunks bytes chunks ≡ some (chunks ++ found)
unfolding parse_sys_chunks
parse_sys_chunks-HasChunks bytes found chunks has =
    sys_chunks-HasChunks (length bytes) bytes 0 found chunks (omega arith) has
