-- ===== src/Vfs/Dirents/Runs.antt =====
-- A directory block of 48 bytes with three entries.
use werunos.Base.{ℕ, ◌≡◌, refl, none, some, List, [], ◌∷◌, ◌++◌, All, length, le, put_le, arith}
use werunos.Vfs.Dirents.{
  DirEntry, ok, parse_entries, parse_dir_block, write_entries, write_dir_block,
}
use werunos.Vfs.Dirents.Entries.{IsEntry}
use werunos.Vfs.Dirents.Block.{laid_out, parse_dir_block-write_dir_block}

-- The names ".", ".." and "a.txt".
abbrev dot : DirEntry
dot = record { inode = 2; rec_len = 0; name_len = 0; file_type = 2; name = 46 ∷ [] }

abbrev dot_dot : DirEntry
dot_dot = record { inode = 2; rec_len = 0; name_len = 0; file_type = 2; name = 46 ∷ 46 ∷ [] }

abbrev text_file : DirEntry
text_file = record {
  inode = 300;
  rec_len = 0;
  name_len = 0;
  file_type = 1;
  name = 97 ∷ 46 ∷ 116 ∷ 120 ∷ 116 ∷ [];
}

abbrev three : List DirEntry
three = dot ∷ dot_dot ∷ text_file ∷ []

-- An entry for ".", of 12 bytes.
abbrev entry : List ℕ
entry = 2 ∷ 0 ∷ 0 ∷ 0 ∷ 12 ∷ 0 ∷ 1 ∷ 2 ∷ 46 ∷ 0 ∷ 0 ∷ 0 ∷ []

parse_run :
    parse_dir_block (entry ++ entry)
    ≡ ok
        (record dot { rec_len = 12; name_len = 1 } ∷ record dot { rec_len = 12; name_len = 1 } ∷ [])
unfolding parse_dir_block parse_entries le put_le
parse_run = refl

-- The third entry ends behind a block of 36 bytes: a panic.
written_run : write_dir_block three 36 ≡ none
unfolding write_dir_block write_entries
written_run = refl

three-IsEntry : All IsEntry three
three-IsEntry = (
  record {
    used = λ e. omega (arith, e);
    inode = omega arith;
    file_type = omega arith;
    named = omega arith;
    short = omega arith;
  },
  (
    record {
      used = λ e. omega (arith, e);
      inode = omega arith;
      file_type = omega arith;
      named = omega arith;
      short = omega arith;
    },
    (
      record {
        used = λ e. omega (arith, e);
        inode = omega arith;
        file_type = omega arith;
        named = omega arith;
        short = omega arith;
      },
      tt,
    ),
  ),
)

parse_dir_block-write_dir_block_example :
    (block : List ℕ) × (write_dir_block three 48 ≡ some block)
    × (length block ≡ 48)
    × (parse_dir_block block ≡ ok (laid_out 48 three 0))
parse_dir_block-write_dir_block_example =
    parse_dir_block-write_dir_block 48 (omega arith) dot (dot_dot ∷ text_file ∷ []) three-IsEntry
      (omega arith)
