-- ===== src/Block/Gpt/Panics.antt =====
-- Which headers make `parseGPT` panic, once the header and the array are read.
use werunos.Base.{
  ℕ, zero, suc, ◌+◌, ◌*◌, ◌%◌, ◌^◌, ◌≤◌, ◌<◌, ◌≡◌, ◌∙◌, Bool, true, false, ◌&&◌, none, List, [],
  length, zeros, copy_at, ltb, arith, length-filled, Bool-cases, inl, inr, if_both, ltb→lt,
  ltb-false→le, refl, lt→ltb, leb,
}
use werunos.Block.Device.{Reply}
use werunos.Block.Partition.{Partition, default_sector_size}
use werunos.Block.Mbr.{ReaderAt, Parsed, ok, err, panicked}
use werunos.Block.Gpt.{
  Header, header, header_offset, signature, same_bytes, entries, parse_array, parse,
}

abbrev pub is_panic : Parsed → Bool
is_panic panicked = true
is_panic (ok _) = false
is_panic (err _) = false

-- The last entry alone reaches past the array when entries are short.
entries_short :
    (array : List ℕ) (size n i : ℕ) (parts : List Partition)
    → size < 128
    → length array ≡ (suc n + i) * size
    → entries array size (suc n) i parts ≡ panicked
unfolding entries
entries_short array size zero i parts h e = ground arith
entries_short array size (suc n) i parts h e =
    let e' : (suc (suc n) + i) * size ≡ (suc n + (i + 1)) * size = omega arith in
    if_both (λ x. x ≡ panicked) (ltb (length array) (i * size + 128)) (λ _. refl)
      λ _. entries_short array size n (i + 1) _ h (e ∙ e')

fits_in : (size n i len : ℕ) → 128 ≤ size → len ≡ (suc n + i) * size → i * size + 128 ≤ len
fits_in size n i len h e = let e' : len ≡ n * size + size + i * size = omega arith in omega arith

entries_long :
    (array : List ℕ) (size n i : ℕ) (parts : List Partition)
    → 128 ≤ size
    → length array ≡ (n + i) * size
    → is_panic (entries array size n i parts) ≡ false
unfolding entries
entries_long array size zero i parts h e = ground arith
entries_long array size (suc n) i parts h e =
    let e' : (suc n + i) * size ≡ (n + (i + 1)) * size = omega arith in
    let fits : i * size + 128 ≤ length array = fits_in size n i (length array) h e in
    if_both (λ x. is_panic x ≡ false) (ltb (length array) (i * size + 128))
      (λ t. absurd (omega (arith, fits, ltb→lt _ _ t)))
      λ _. entries_long array size n (i + 1) _ h (e ∙ e')

entries-is_panic :
    (array : List ℕ) (size n : ℕ)
    → length array ≡ n * size
    → is_panic (entries array size n 0 []) ≡ (ltb 0 n && ltb size 128)
entries-is_panic array size zero e = unfold entries in refl
entries-is_panic array size (suc n) e =
    let e' : suc n * size ≡ (suc n + 0) * size = omega arith in
    let pos : ltb 0 (suc n) ≡ true = lt→ltb 0 (suc n) (omega arith) in
    elim (Bool-cases (ltb size 128)) [
      | inl h ↦ rw (h, pos, entries_short array size n 0 [] (ltb→lt _ _ h) (e ∙ e'))
      | inr h ↦ rw (h, pos) (entries_long array size (suc n) 0 [] (ltb-false→le _ _ h) (e ∙ e'))
    ]

not_over : (n : ℕ) → n < 2 ^ 63 → leb (2 ^ 63) n ≡ false
not_over n h = ground arith

module _ (disk : ReaderAt) where
  abbrev pub read_header : Header
  read_header = header (copy_at (zeros 512) 0 (disk header_offset 512).bytes)

  abbrev pub read_array : Reply
  read_array =
      disk (read_header.entry_lba * default_sector_size % 2 ^ 64)
        (read_header.num_entries * read_header.entry_size)

  -- With a readable header of the right signature, and a readable array of fewer than 2 ^ 63 bytes,
  -- `parseGPT` panics exactly when there is an entry and entries are shorter than 128 bytes.
  pub parse-is_panic :
      (disk header_offset 512).err ≡ none
      → same_bytes read_header.signature_bytes signature ≡ true
      → read_array.err ≡ none
      → read_header.num_entries * read_header.entry_size < 2 ^ 63
      → is_panic (parse disk) ≡ (ltb 0 read_header.num_entries && ltb read_header.entry_size 128)
  unfolding parse parse_array
  parse-is_panic eh es ea small =
      rw (eh, parse)
        (rw es (
          rw (ea, parse_array)
            (rw (not_over _ small) (
              entries-is_panic _ read_header.entry_size read_header.num_entries
                (length-filled _ _)))))
