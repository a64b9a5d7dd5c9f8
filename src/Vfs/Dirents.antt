-- ===== src/Vfs/Dirents.antt =====
-- The entries of a directory block: `parseDirBlock` of vfs/directory.go, and `minDirRecLen` and
-- `writeDirBlock` of vfs/dirent.go.
pub mod Entries
pub mod Block
mod Runs
use werunos.Base.{
  ℕ, zero, suc, ◌+◌, ◌-◌, ◌*◌, ◌/◌, ◌%◌, ◌^◌, Bool, true, false, not, ◌&&◌, Option, none, some,
  List, [], ◌∷◌, ◌++◌, length, byte_at, zeros, copy_at, slice, le, put_le, ltb, ◌==◌, if◌then◌else◌,
}

-- `DirEntry2`; a name is its bytes.
pub record DirEntry : Type 0 where
  pub inode : ℕ
  pub rec_len : ℕ
  pub name_len : ℕ
  pub file_type : ℕ
  pub name : List ℕ

abbrev pub header_size : ℕ
header_size = 8

abbrev pub min_dir_rec_len : ℕ → ℕ
min_dir_rec_len name_len = (header_size + name_len + 3) / 4 * 4 % 2 ^ 16

-- `stuck` is no Go value: the loop was cut off.
pub data ParsedDir : Type 0 where
  ok : List DirEntry → ParsedDir
  zero_rec_len name_beyond_block stuck : ParsedDir

-- The entry at `offset`.
abbrev pub entry_at : List ℕ → ℕ → DirEntry
entry_at buf offset = record {
  inode = le 4 buf offset;
  rec_len = le 2 buf (offset + 4);
  name_len = byte_at buf (offset + 6);
  file_type = byte_at buf (offset + 7);
  name = slice buf (offset + header_size) (byte_at buf (offset + 6));
}

-- The loop of `parseDirBlock`, with at most `fuel` entries.
unfoldable pub parse_entries : List ℕ → ℕ → ℕ → List DirEntry → ParsedDir
parse_entries buf zero offset entries = stuck
parse_entries buf (suc fuel) offset entries =
    let e = entry_at buf offset in
    let unused = parse_entries buf fuel (offset + e.rec_len) entries in
    let used = parse_entries buf fuel (offset + e.rec_len) (entries ++ (e ∷ [])) in
    if not (ltb offset (length buf))
    then ok entries
    else if ltb (length buf) (offset + header_size)
    then ok entries
    else if e.rec_len == 0
    then zero_rec_len
    else if not (e.inode == 0) && ltb 0 e.name_len
    then (if ltb (length buf) (offset + header_size + e.name_len) then name_beyond_block else used)
    else unused

unfoldable pub parse_dir_block : List ℕ → ParsedDir
parse_dir_block buf = parse_entries buf (suc (length buf)) 0 []

-- The bytes of an entry, of the record length `rec_len`.
abbrev pub entry_bytes : DirEntry → ℕ → List ℕ
entry_bytes e rec_len =
    put_le 4 e.inode
    ++ (put_le 2 rec_len ++ (put_le 1 (length e.name) ++ (put_le 1 e.file_type ++ e.name)))

-- The last entry takes the rest of the block.
abbrev pub rec_len_at : ℕ → DirEntry → List DirEntry → ℕ → ℕ
rec_len_at block_size e [] offset = (block_size - offset) % 2 ^ 16
rec_len_at block_size e (x ∷ rest) offset = min_dir_rec_len (length e.name)

-- The loop of `writeDirBlock`; `none` is a panic: a slice expression that reaches past the block.
unfoldable pub write_entries : ℕ → List DirEntry → ℕ → List ℕ → Option (List ℕ)
write_entries block_size [] offset buf = some buf
write_entries block_size (e ∷ rest) offset buf =
    let rec_len = rec_len_at block_size e rest offset in
    let written =
      write_entries block_size rest (offset + rec_len)
        (copy_at buf offset (entry_bytes e rec_len)) in
    if ltb block_size (offset + header_size + length e.name) then none else written

unfoldable pub write_dir_block : List DirEntry → ℕ → Option (List ℕ)
write_dir_block entries block_size = write_entries block_size entries 0 (zeros block_size)
