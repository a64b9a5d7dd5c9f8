-- ===== src/Vfs/Dirents/Entries.antt =====
-- One step of the loops over a directory block.
use werunos.Base.{
  same_lists, ℕ, suc, ◌+◌, ◌^◌, ◌≤◌, ◌<◌, ◌≡◌, ◌≢◌, refl, ap, ◌∙◌, not, ◌&&◌, List, [], ◌∷◌, ◌++◌,
  length, byte_at, byte_at-slice, length-slice, slice, le, put_le, ltb, ◌==◌, if_both, ltb→lt,
  ==→eq, index_eq, arith,
}
use werunos.Base.Holds.{Holds, Holds-skip, le-field}
use werunos.Vfs.Dirents.{DirEntry, ParsedDir, entry_at, entry_bytes, parse_entries}

-- An entry that is in use, and whose fields fit their bytes.
pub record IsEntry (e : DirEntry) : Type 0 where
  pub used : e.inode ≢ 0
  pub inode : e.inode < 2 ^ 32
  pub file_type : e.file_type < 256
  pub named : 0 < length e.name
  pub short : length e.name < 256

-- The entry as it is read back.
abbrev pub stored : DirEntry → ℕ → DirEntry
stored e rec_len = record {
  inode = e.inode;
  rec_len = rec_len;
  name_len = length e.name;
  file_type = e.file_type;
  name = e.name;
}

slice-Holds :
    (xs : List ℕ) (off : ℕ) (ys : List ℕ)
    → Holds xs off ys
    → off + length ys ≤ length xs
    → slice xs off (length ys) ≡ ys
slice-Holds xs off ys h fits =
    same_lists (slice xs off (length ys)) ys (omega (arith, length-slice xs off (length ys)))
      λ i lt. byte_at-slice xs off (length ys) i lt ∙ h i lt

pub length-entry_bytes :
    (e : DirEntry) (rec_len : ℕ) → length (entry_bytes e rec_len) ≡ 8 + length e.name
unfolding put_le
length-entry_bytes e rec_len = omega arith

byte_at-le : (xs : List ℕ) (off : ℕ) → byte_at xs off ≡ le 1 xs off
unfolding le
byte_at-le xs off = omega arith

module _ (e : DirEntry) (f : IsEntry e) (rec_len : ℕ) (rec_lt : rec_len < 2 ^ 16) (buf : List ℕ)
    (off : ℕ) where
  -- Each field where the entry has it.
  entry_at-stored :
      Holds buf off (entry_bytes e rec_len)
      → off + 8 + length e.name ≤ length buf
      → entry_at buf off ≡ stored e rec_len
  entry_at-stored h fits =
      let tail3 = put_le 1 e.file_type ++ e.name in
      let h1 =
        Holds-skip 4 e.inode buf off (put_le 2 rec_len ++ (put_le 1 (length e.name) ++ tail3)) h in
      let h2 = Holds-skip 2 rec_len buf (off + 4) (put_le 1 (length e.name) ++ tail3) h1 in
      let h3 = Holds-skip 1 (length e.name) buf (off + 4 + 2) tail3 h2 in
      let h4 = Holds-skip 1 e.file_type buf (off + 4 + 2 + 1) e.name h3 in
      let name_len =
        byte_at-le buf (off + 6)
        ∙ le-field 1 (length e.name) buf (off + 4 + 2) (off + 6) tail3 (omega arith) f.short h2 in
      ground (
        arith,
        le-field 4 e.inode buf off off (put_le 2 rec_len ++ (put_le 1 (length e.name) ++ tail3))
            refl f.inode h,
        le-field 2 rec_len buf (off + 4) (off + 4) (put_le 1 (length e.name) ++ tail3) refl rec_lt
            h1,
        name_len,
        byte_at-le buf (off + 7)
            ∙ le-field 1 e.file_type buf (off + 4 + 2 + 1) (off + 7) e.name (omega arith)
                f.file_type h3,
        ap (slice buf (off + 8)) name_len
            ∙ slice-Holds buf (off + 8) e.name (λ i lt. index_eq buf _ _ (omega arith) ∙ h4 i lt)
                (omega (arith, fits)),
      )

  -- The loop takes the entry and goes on behind it.
  pub parse_entries-stored :
      (fuel : ℕ) (entries : List DirEntry)
      → Holds buf off (entry_bytes e rec_len)
      → off + 8 + length e.name ≤ length buf
      → 0 < rec_len
      → parse_entries buf (suc fuel) off entries
        ≡ parse_entries buf fuel (off + rec_len) (entries ++ (stored e rec_len ∷ []))
  unfolding parse_entries
  parse_entries-stored fuel entries h fits pos =
      let q = entry_at-stored h fits in
      if_both P (not (ltb off (length buf))) (λ t. absurd (ground arith))
        λ _.
          if_both P (ltb (length buf) (off + 8)) (λ t. absurd (ground arith))
            λ _.
              if_both P ((entry_at buf off).rec_len == 0)
                (λ t. absurd (omega (arith, ==→eq _ _ t, ap (λ x. x.rec_len) q)))
                λ _.
                  if_both P
                    (not ((entry_at buf off).inode == 0) && ltb 0 (entry_at buf off).name_len)
                    (λ _.
                      if_both P (ltb (length buf) (off + 8 + (entry_at buf off).name_len))
                        (λ t. absurd (omega (arith, ltb→lt _ _ t, ap (λ x. x.name_len) q)))
                        λ _.
                          ap
                            (λ (x : DirEntry).
                              parse_entries buf fuel (off + x.rec_len) (entries ++ (x ∷ [])))
                            q)
                    λ t.
                      absurd (
                        ground
                          (arith, ap (λ x. x.inode) q, ap (λ x. x.name_len) q, f.used, f.named))
    where
      P : ParsedDir → Type 0
      P r = r ≡ parse_entries buf fuel (off + rec_len) (entries ++ (stored e rec_len ∷ []))
