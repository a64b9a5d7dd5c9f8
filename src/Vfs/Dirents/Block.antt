-- ===== src/Vfs/Dirents/Block.antt =====
-- A directory block that is written and read back, and the end of the loop that reads it.
use werunos.Base.{
  ℕ, zero, suc, ◌+◌, ◌-◌, ◌%◌, ◌^◌, ◌≤◌, ◌<◌, ◌≡◌, refl, ap, ◌∙◌, Bool, true, false, not, ◌&&◌,
  Option, some, List, [], ◌∷◌, ◌++◌, append_assoc, length, All, byte_at, zeros, copy_at,
  length-copy_at, length-replicate, ltb, ◌==◌, if_both, ltb→lt, inl, arith,
}
use werunos.Base.Holds.{Holds, copy_at-Holds, byte_at-copy_at_outside}
use werunos.Vfs.Dirents.{
  DirEntry, ParsedDir, ok, stuck, entry_at, entry_bytes, min_dir_rec_len, rec_len_at, parse_entries,
  parse_dir_block, write_entries, write_dir_block,
}
use werunos.Vfs.Dirents.Entries.{IsEntry, stored, length-entry_bytes, parse_entries-stored}

-- The entries with the record lengths they get in the block.
abbrev pub laid_out : ℕ → List DirEntry → ℕ → List DirEntry
laid_out block_size [] off = []
laid_out block_size (e ∷ rest) off =
    stored e (rec_len_at block_size e rest off)
    ∷ laid_out block_size rest (off + rec_len_at block_size e rest off)

-- The bytes that the entries take.
abbrev pub span : List DirEntry → ℕ
span [] = 0
span (e ∷ rest) = min_dir_rec_len (length e.name) + span rest

record Laid (block_size : ℕ) (es : List DirEntry) (off : ℕ) (buf : List ℕ) (r : Option (List ℕ))
    : Type 0 where
  after : List ℕ
  written : r ≡ some after
  same_length : length after ≡ block_size
  before : (i : ℕ) → i < off → byte_at after i ≡ byte_at buf i
  reads :
      (fuel : ℕ) (entries : List DirEntry)
      → length es < fuel
      → parse_entries after fuel off entries ≡ ok (entries ++ laid_out block_size es off)

parse_entries-end :
    (buf : List ℕ) (fuel off : ℕ) (entries : List DirEntry)
    → length buf ≤ off
    → parse_entries buf (suc fuel) off entries ≡ ok entries
unfolding parse_entries
parse_entries-end buf fuel off entries ge =
    if_both (λ (r : ParsedDir). r ≡ ok entries) (not (ltb off (length buf))) (λ _. refl)
      λ t. absurd (ground arith)

module _ (block_size : ℕ) (small : block_size < 2 ^ 16) where
  last_read :
      (e : DirEntry) (off : ℕ) (buf : List ℕ)
      → IsEntry e
      → length buf ≡ block_size
      → off + span (e ∷ []) ≤ block_size
      → (fuel : ℕ) (entries : List DirEntry) → 1 < fuel
      → parse_entries
          (copy_at buf off (entry_bytes e ((block_size - off) % 2 ^ 16)))
          fuel
          off
          entries
        ≡ ok (entries ++ (stored e ((block_size - off) % 2 ^ 16) ∷ []))
  last_read e off buf f size fits zero entries lt = absurd (omega arith)
  last_read e off buf f size fits (suc zero) entries lt = absurd (omega arith)
  last_read e off buf f size fits (suc (suc fuel)) entries lt =
      let rec_len = (block_size - off) % 2 ^ 16 in
      let same = length-copy_at buf off (entry_bytes e rec_len) in
      parse_entries-stored e f rec_len (omega arith) (copy_at buf off (entry_bytes e rec_len)) off
        (suc fuel) entries
        (copy_at-Holds buf off (entry_bytes e rec_len)
          (omega (arith, length-entry_bytes e rec_len, f.short)))
        (omega (arith, same, f.short)) (omega (arith, f.short))
      ∙ parse_entries-end (copy_at buf off (entry_bytes e rec_len)) fuel (off + rec_len) _
          (omega (arith, same))

  last-Laid :
      (e : DirEntry) (off : ℕ) (buf : List ℕ)
      → IsEntry e
      → length buf ≡ block_size
      → off + span (e ∷ []) ≤ block_size
      → Laid block_size (e ∷ []) off buf (write_entries block_size (e ∷ []) off buf)
  unfolding write_entries
  last-Laid e off buf f size fits =
      if_both (Laid block_size (e ∷ []) off buf) (ltb block_size (off + 8 + length e.name))
        (λ t. absurd (omega (arith, ltb→lt _ _ t, f.short, fits)))
        λ _. record {
          after = copy_at buf off (entry_bytes e ((block_size - off) % 2 ^ 16));
          written = refl;
          same_length = length-copy_at buf off (entry_bytes e ((block_size - off) % 2 ^ 16)) ∙ size;
          before = λ i lt. byte_at-copy_at_outside buf off _ i (inl lt);
          reads = last_read e off buf f size fits;
        }

  -- An entry before others that are laid out.
  cons-Laid :
      (e x : DirEntry) (rest : List DirEntry) (off : ℕ) (buf : List ℕ) (r : Option (List ℕ))
      → IsEntry e
      → length buf ≡ block_size
      → off + span (e ∷ x ∷ rest) ≤ block_size
      → Laid block_size
          (x ∷ rest)
          (off + min_dir_rec_len (length e.name))
          (copy_at buf off (entry_bytes e (min_dir_rec_len (length e.name))))
          r
      → Laid block_size (e ∷ x ∷ rest) off buf r
  cons-Laid e x rest off buf r f size fits t = record {
    after = t.after;
    written = t.written;
    same_length = t.same_length;
    before = λ i lt. t.before i (omega arith) ∙ byte_at-copy_at_outside buf off _ i (inl lt);
    reads = reads;
  }
    where
      holds : Holds t.after off (entry_bytes e (min_dir_rec_len (length e.name)))
      holds i lt =
          t.before (off + i)
            (omega (arith, lt, length-entry_bytes e (min_dir_rec_len (length e.name)), f.short))
          ∙ copy_at-Holds buf off (entry_bytes e (min_dir_rec_len (length e.name)))
              (omega (arith, length-entry_bytes e (min_dir_rec_len (length e.name)), f.short)) i lt

      reads :
          (fuel : ℕ) (entries : List DirEntry)
          → suc (suc (length rest)) < fuel
          → parse_entries t.after fuel off entries
            ≡ ok (entries ++ laid_out block_size (e ∷ x ∷ rest) off)
      reads zero entries lt = absurd (omega arith)
      reads (suc fuel) entries lt =
          parse_entries-stored e f (min_dir_rec_len (length e.name)) (omega arith) t.after off fuel
            entries holds (omega (arith, t.same_length, f.short)) (omega (arith, f.short))
          ∙ t.reads fuel (entries ++ (stored e (min_dir_rec_len (length e.name)) ∷ []))
              (omega arith)
          ∙ ap ok (append_assoc entries _ _)

  entries-Laid :
      (e : DirEntry) (rest : List DirEntry) (off : ℕ) (buf : List ℕ)
      → All IsEntry (e ∷ rest)
      → length buf ≡ block_size
      → off + span (e ∷ rest) ≤ block_size
      → Laid block_size (e ∷ rest) off buf (write_entries block_size (e ∷ rest) off buf)
  unfolding write_entries
  entries-Laid e [] off buf f size fits = last-Laid e off buf f.0 size fits
  entries-Laid e (x ∷ rest) off buf f size fits =
      if_both (Laid block_size (e ∷ x ∷ rest) off buf) (ltb block_size (off + 8 + length e.name))
        (λ t. absurd (omega (arith, ltb→lt _ _ t, f.0.short, fits)))
        λ _. cons-Laid e x rest off buf _ f.0 size fits (
          entries-Laid x rest (off + min_dir_rec_len (length e.name))
            (copy_at buf off (entry_bytes e (min_dir_rec_len (length e.name)))) f.1
            (length-copy_at buf off (entry_bytes e (min_dir_rec_len (length e.name))) ∙ size)
            (omega arith))

  length-span : (es : List DirEntry) → All IsEntry es → length es ≤ span es
  length-span [] f = omega arith
  length-span (e ∷ es) f = omega (arith, f.0.short, length-span es f.1)

  -- One entry or more, in use, whose fields fit their bytes and which fit a block of fewer than 2^16 bytes:
  -- they are written to it, and reading the block gives them back, in order, with the record lengths they
  -- got.
  pub parse_dir_block-write_dir_block :
      (e : DirEntry) (rest : List DirEntry)
      → All IsEntry (e ∷ rest)
      → span (e ∷ rest) ≤ block_size
      → (block : List ℕ) × (write_dir_block (e ∷ rest) block_size ≡ some block)
        × (length block ≡ block_size)
        × (parse_dir_block block ≡ ok (laid_out block_size (e ∷ rest) 0))
  unfolding write_dir_block parse_dir_block
  parse_dir_block-write_dir_block e rest f fits =
      let t =
        entries-Laid e rest 0 (zeros block_size) f (length-replicate block_size 0) (omega arith) in
      (
        t.after,
        t.written,
        t.same_length,
        t.reads (suc (length t.after)) [] (omega (arith, t.same_length, length-span (e ∷ rest) f)),
      )

abbrev pub is_stuck : ParsedDir → Bool
is_stuck stuck = true
is_stuck r = false

parse_entries-is_stuck :
    (buf : List ℕ) (fuel off : ℕ) (entries : List DirEntry)
    → 0 < fuel
    → length buf < off + fuel
    → is_stuck (parse_entries buf fuel off entries) ≡ false
unfolding parse_entries
parse_entries-is_stuck buf zero off entries pos lt = elim pos [ ]
parse_entries-is_stuck buf (suc fuel) off entries pos lt =
    let e = entry_at buf off in
    if_both P (not (ltb off (length buf))) (λ _. refl)
      λ more.
        if_both P (ltb (length buf) (off + 8)) (λ _. refl)
          λ _.
            if_both P (e.rec_len == 0) (λ _. refl)
              λ nz.
                if_both P (not (e.inode == 0) && ltb 0 e.name_len)
                  (λ _.
                    if_both P (ltb (length buf) (off + 8 + e.name_len)) (λ _. refl)
                      λ _.
                        parse_entries-is_stuck buf fuel (off + e.rec_len) _
                          (omega (arith, inner more)) (omega (arith, moves nz)))
                  λ _.
                    parse_entries-is_stuck buf fuel (off + e.rec_len) entries
                      (omega (arith, inner more)) (omega (arith, moves nz))
  where
    P : ParsedDir → Type 0
    P r = is_stuck r ≡ false

    inner : not (ltb off (length buf)) ≡ false → off < length buf
    inner t = ground arith

    moves : ((entry_at buf off).rec_len == 0) ≡ false → 0 < (entry_at buf off).rec_len
    moves t = ground arith

-- The loop over a directory block ends, whatever the block holds.
pub parse_dir_block-is_stuck : (buf : List ℕ) → is_stuck (parse_dir_block buf) ≡ false
unfolding parse_dir_block
parse_dir_block-is_stuck buf =
    parse_entries-is_stuck buf (suc (length buf)) 0 [] (omega arith) (omega arith)
